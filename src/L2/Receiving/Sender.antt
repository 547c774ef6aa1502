-- ===== src/L2/Receiving/Sender.antt =====
-- ax25/l2/l2.go: an acknowledgement, and what it lets go out, spares the receiving half.
use tncd.Prelude.{
  Bool, Bool-cases, List, List-cases, Option-cases, false, if◌then◌else◌, inl, inr, length, lookup,
  ltb, refl, suc, true, zero, ℕ, ◌-◌, ◌==◌,
}
use tncd.L2.State.{OutEntry}
use tncd.L2.Links.{Link, link_params, with_conn}
use tncd.L2.Outbound.{
  ack_frames, after_drain, apply_ack, drain_loop, drain_outbound, is_empty, purge, sample_rtt,
  send_chunk, seq_sub, update_srtt,
}
use tncd.L2.Receiving.Observed.{
  Spares, Spares-conn, Spares-if, Spares-refl, Spares-trans, cancel_t1-Spares, cancel_t2-Spares,
  i_frame_not_final, send_frame-Spares, start_t1-Spares,
}

send_chunk-Spares : (e : OutEntry) (q : List OutEntry) (l : Link) → Spares l (send_chunk e q l)
unfolding send_chunk
send_chunk-Spares e q l =
    Spares-trans (Spares-conn l _ refl refl refl refl refl refl refl refl)
      (send_frame-Spares _ _ _ (i_frame_not_final l.conn l.conn.send_seq e.pid _))

drain_loop-Spares : (n : ℕ) (l : Link) (sent : Bool) → Spares l (drain_loop n l sent).0
unfolding drain_loop
drain_loop-Spares zero l sent = Spares-refl l
drain_loop-Spares (suc n) l sent = elim (List-cases l.conn.out_queue) [
  | inl e ↦ simp (e, drain_loop) (Spares-refl l)
  | inr (x, q, e) ↦
      simp (e, drain_loop)
        (elim (Bool-cases (ltb l.conn.unacked (link_params l).max_window)) [
          | inl t ↦ rw t (Spares-trans (send_chunk-Spares x q l) (drain_loop-Spares n _ true))
          | inr f ↦ rw f (Spares-refl l)
        ])
]

after_drain-Spares : (l : Link) (sent : Bool) → Spares l (after_drain (l, sent))
unfolding after_drain
after_drain-Spares l true = Spares-trans (cancel_t2-Spares l) (start_t1-Spares _)
after_drain-Spares l false = Spares-refl l

pub drain_outbound-Spares : (l : Link) → Spares l (drain_outbound l)
unfolding drain_outbound
drain_outbound-Spares l =
    let p = drain_loop (length l.conn.out_queue) l false in
    Spares-if l.conn.remote_busy (Spares-refl l) (
      Spares-trans (drain_loop-Spares (length l.conn.out_queue) l false)
        (after_drain-Spares p.0 p.1))

sample_rtt-Spares : (n seq : ℕ) (l : Link) → Spares l (sample_rtt n seq l)
unfolding sample_rtt update_srtt
sample_rtt-Spares zero seq l = Spares-refl l
sample_rtt-Spares (suc n) seq l = elim (Option-cases (lookup seq l.conn.iframe_timestamps)) [
  | inl e ↦ rw (e, sample_rtt) (sample_rtt-Spares n _ l)
  | inr (x, e) ↦
      rw (e, sample_rtt)
        (Spares-trans (Spares-conn _ _ refl refl refl refl refl refl refl refl)
          (sample_rtt-Spares n _ _))
]

apply_ack-Spares : (newly nr : ℕ) (l : Link) → Spares l (apply_ack newly nr l)
unfolding apply_ack
apply_ack-Spares newly nr l =
    let l' = with_conn l (record l.conn { t1_polls = 0 }) in
    let m = sample_rtt newly l.conn.last_acked l' in
    let n = with_conn m (record m.conn {
      retransmit_buf = purge newly m.conn.modulo m.conn.last_acked m.conn.retransmit_buf;
      last_acked = nr;
      unacked = if ltb newly m.conn.unacked then m.conn.unacked - newly else 0;
    }) in
    Spares-trans {m = l'} (Spares-conn _ _ refl refl refl refl refl refl refl refl) (
      Spares-trans {m = m} (sample_rtt-Spares newly l.conn.last_acked l') (
        Spares-trans {m = n} (Spares-conn _ _ refl refl refl refl refl refl refl refl) (
          Spares-trans
            (Spares-if (is_empty n.conn.retransmit_buf) (cancel_t1-Spares n) (start_t1-Spares n))
            (drain_outbound-Spares _))))

pub ack_frames-Spares : (nr : ℕ) (l : Link) → Spares l (ack_frames nr l)
unfolding ack_frames
ack_frames-Spares nr l =
    let m = l.conn.modulo in
    let newly = seq_sub m nr l.conn.last_acked in
    Spares-if (ltb (seq_sub m l.conn.send_seq l.conn.last_acked) newly) (Spares-refl l)
      (Spares-if (newly == 0) (Spares-refl l) (apply_ack-Spares newly nr l))
