-- ===== src/L2/Sessions/Outbound.antt =====
-- ax25/l2/l2.go: sending, acknowledging and retransmitting keep the identity of the connection.
use tncd.Prelude.{
  Bool, Bool-cases, Bytes, List, List-cases, Option-cases, false, inl, inr, length, lookup, ltb,
  refl, suc, true, zero, ℕ, ◌==◌, ◌≡◌,
}
use tncd.Ax25.Frame.{Frame}
use tncd.L2.State.{Conn, OutEntry, PortParams}
use tncd.L2.Links.{Link, link_params}
use tncd.L2.Outbound.{
  ack_frames, after_drain, apply_ack, drain_loop, drain_outbound, resend, retransmit_from,
  retransmit_loop, retransmit_range, sample_rtt, send_chunk, send_data, seq_sub, stored_frame,
  update_srtt,
}
use tncd.L2.Sessions.Keeps.{
  Keeps, Keeps-conn, Keeps-if, Keeps-refl, Keeps-trans, cancel_t1-Keeps, cancel_t2-Keeps,
  send_frame-Keeps, start_t1-Keeps,
}

send_chunk-Keeps : (e : OutEntry) (q : List OutEntry) (l : Link) → Keeps l (send_chunk e q l)
unfolding send_chunk
send_chunk-Keeps e q l = Keeps-trans (Keeps-conn l _ refl refl refl) (send_frame-Keeps _ _ _)

drain_loop-Keeps : (n : ℕ) (l : Link) (sent : Bool) → Keeps l (drain_loop n l sent).0
unfolding drain_loop
drain_loop-Keeps zero l sent = Keeps-refl l
drain_loop-Keeps (suc n) l sent = elim (List-cases l.conn.out_queue) [
  | inl e ↦ simp (e, drain_loop) (Keeps-refl l)
  | inr (x, q, e) ↦
      simp (e, drain_loop)
        (elim (Bool-cases (ltb l.conn.unacked (link_params l).max_window)) [
          | inl t ↦ rw t (Keeps-trans (send_chunk-Keeps x q l) (drain_loop-Keeps n _ true))
          | inr f ↦ rw f (Keeps-refl l)
        ])
]

after_drain-Keeps : (l : Link) (sent : Bool) → Keeps l (after_drain (l, sent))
unfolding after_drain
after_drain-Keeps l true = Keeps-trans (cancel_t2-Keeps l) (start_t1-Keeps _)
after_drain-Keeps l false = Keeps-refl l

pub drain_outbound-Keeps : (l : Link) → Keeps l (drain_outbound l)
unfolding drain_outbound
drain_outbound-Keeps l =
    let looped = drain_loop-Keeps (length l.conn.out_queue) l false in
    Keeps-if l.conn.remote_busy (Keeps-refl l) (
      Keeps-trans looped (
        after_drain-Keeps (drain_loop (length l.conn.out_queue) l false).0
          (drain_loop (length l.conn.out_queue) l false).1))

update_srtt_address :
    (rtt : ℕ) (p : PortParams) (c : Conn)
    → ((update_srtt rtt p c).port ≡ c.port)
      × ((update_srtt rtt p c).local ≡ c.local)
      × ((update_srtt rtt p c).remote ≡ c.remote)
unfolding update_srtt
update_srtt_address rtt p c = (refl, refl, refl)

sample_rtt-Keeps : (n seq : ℕ) (l : Link) → Keeps l (sample_rtt n seq l)
unfolding sample_rtt update_srtt
sample_rtt-Keeps zero seq l = Keeps-refl l
sample_rtt-Keeps (suc n) seq l = elim (Option-cases (lookup seq l.conn.iframe_timestamps)) [
  | inl e ↦ rw (e, sample_rtt) (sample_rtt-Keeps n _ l)
  | inr (x, e) ↦
      rw (e, sample_rtt) (Keeps-trans (Keeps-conn l _ refl refl refl) (sample_rtt-Keeps n _ _))
]

apply_ack-Keeps : (newly nr : ℕ) (l : Link) → Keeps l (apply_ack newly nr l)
unfolding apply_ack
apply_ack-Keeps newly nr l = Keeps-trans (Keeps-conn l _ refl refl refl) (
    Keeps-trans (sample_rtt-Keeps newly l.conn.last_acked _) (
      Keeps-trans (Keeps-conn _ _ refl refl refl)
        (Keeps-trans (Keeps-if _ (cancel_t1-Keeps _) (start_t1-Keeps _)) (drain_outbound-Keeps _))))

pub ack_frames-Keeps : (nr : ℕ) (l : Link) → Keeps l (ack_frames nr l)
unfolding ack_frames
ack_frames-Keeps nr l =
    let m = l.conn.modulo in
    let newly = seq_sub m nr l.conn.last_acked in
    Keeps-if (ltb (seq_sub m l.conn.send_seq l.conn.last_acked) newly) (Keeps-refl l)
      (Keeps-if (newly == 0) (Keeps-refl l) (apply_ack-Keeps newly nr l))

resend-Keeps : (seq : ℕ) (f : Frame) (l : Link) → Keeps l (resend seq f l)
unfolding resend
resend-Keeps seq f l = Keeps-trans (Keeps-conn l _ refl refl refl) (send_frame-Keeps _ _ _)

retransmit_loop-Keeps : (n seq to : ℕ) (l : Link) → Keeps l (retransmit_loop n seq to l)
unfolding retransmit_loop
retransmit_loop-Keeps zero seq to l = Keeps-refl l
retransmit_loop-Keeps (suc n) seq to l = elim (Option-cases (stored_frame l.conn seq)) [
  | inl e ↦ rw (e, retransmit_loop) (Keeps-if (seq == to) (Keeps-refl l) (Keeps-refl l))
  | inr (x, e) ↦
      rw (e, retransmit_loop)
        (Keeps-if (seq == to) (Keeps-refl l)
          (Keeps-trans (resend-Keeps seq x l) (retransmit_loop-Keeps n _ to _)))
]

pub retransmit_range-Keeps : (from to : ℕ) (l : Link) → Keeps l (retransmit_range from to l)
unfolding retransmit_range
retransmit_range-Keeps from to l = retransmit_loop-Keeps 256 from to l

pub retransmit_from-Keeps : (from : ℕ) (l : Link) → Keeps l (retransmit_from from l)
unfolding retransmit_from
retransmit_from-Keeps from l = retransmit_range-Keeps from l.conn.send_seq l

pub send_data-Keeps : (pid : ℕ) (payload : Bytes) (l : Link) → Keeps l (send_data pid payload l).0
unfolding send_data
send_data-Keeps pid payload l = Keeps-trans (Keeps-conn l _ refl refl refl) (drain_outbound-Keeps _)
