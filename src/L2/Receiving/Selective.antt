-- ===== src/L2/Receiving/Selective.antt =====
-- ax25/l2/l2.go: I-frames on a link with selective reject.
use tncd.Prelude.{
  ==_iff, Bool, Bool-cases, Bytes, List, [], arith, contains, delete, false, if◌then◌else◌, inl,
  inr, insert, ltb, refl, suc, true, zero, ℕ, ◌%◌, ◌+◌, ◌==◌, ◌||◌, ◌∙◌, ◌∷◌, ◌≡◌, ◌≢◌,
}
use tncd.Ax25.Frame.{Frame, srej}
use tncd.L2.State.{RxEntry, frame_of, port_params, resp_frame}
use tncd.L2.Links.{Link, cancel_t2, send_frame, with_conn}
use tncd.L2.Inbound.{receive_i, receive_srej, request_hole, send_srej_holes, srej_ahead, srej_holes}
use tncd.L2.Outbound.{ack_frames, seq_sub}
use tncd.L2.Receiving.Sender.{ack_frames-Spares}
use tncd.L2.Receiving.Observed.{finals, finals-cancelled, is_final, send_frame-Spares}

contains-insert :
    (k j : ℕ) (m : List (ℕ × Bool)) → contains j m ≡ true → contains j (insert k true m) ≡ true
unfolding contains insert
contains-insert k j [] h = cc
contains-insert k j ((i, w) ∷ m) h = ground (arith, contains-insert k j m)

contains-delete :
    (k j : ℕ) (m : List (ℕ × Bool)) → k ≢ j → contains j m ≡ true → contains j (delete k m) ≡ true
unfolding contains delete
contains-delete k j [] ne h = cc
contains-delete k j ((i, w) ∷ m) ne h = ground (arith, contains-delete k j m ne)

-- V(R) has been asked for, and no poll has been answered since `l`.
record Asked (l m : Link) : Type 0 where
  recv_seq : m.conn.recv_seq ≡ l.conn.recv_seq
  asked : contains m.conn.recv_seq m.conn.srej_sent ≡ true
  silent : finals m.log ≡ finals l.log

srej_not_final :
    (src dst : Bytes) (via : List Bytes) (ns v : ℕ)
    → (ns == v) ≡ false
    → is_final (record (resp_frame src dst via srej (ns == v)) { nr = ns }) ≡ false
unfolding frame_of
srej_not_final src dst via ns v h = rw h

other_number :
    (ns : ℕ) (m : Link)
    → contains m.conn.recv_seq m.conn.srej_sent ≡ true
    → (contains ns m.conn.rx_buf || contains ns m.conn.srej_sent) ≡ false
    → ns ≡ m.conn.recv_seq
    → (ns == m.conn.recv_seq) ≡ false
other_number ns m h e q = ground arith

not_next :
    (ns : ℕ) (m : Link)
    → contains m.conn.recv_seq m.conn.srej_sent ≡ true
    → (contains ns m.conn.rx_buf || contains ns m.conn.srej_sent) ≡ false
    → (ns == m.conn.recv_seq) ≡ false
not_next ns m h e = elim (Bool-cases (ns == m.conn.recv_seq)) [
  | inl q ↦ other_number ns m h e ((==_iff ns m.conn.recv_seq).0 q)
  | inr q ↦ q
]

ask-Asked :
    (src dst : Bytes) (ns : ℕ) (l m : Link)
    → Asked l m
    → (ns == m.conn.recv_seq) ≡ false
    → Asked l (
        send_frame m.conn.port
          (record (resp_frame src dst m.conn.via srej (ns == m.conn.recv_seq)) { nr = ns })
          (with_conn m (record m.conn { srej_sent = insert ns true m.conn.srej_sent })))
ask-Asked src dst ns l m a q =
    let f = record (resp_frame src dst m.conn.via srej (ns == m.conn.recv_seq)) { nr = ns } in
    let n = with_conn m (record m.conn { srej_sent = insert ns true m.conn.srej_sent }) in
    let sent =
      send_frame-Spares m.conn.port f n (srej_not_final src dst m.conn.via ns m.conn.recv_seq q) in
    record {
      recv_seq = sent.recv_seq ∙ a.recv_seq;
      asked =
          rw (sent.recv_seq, sent.srej_sent)
            (contains-insert ns m.conn.recv_seq m.conn.srej_sent a.asked);
      silent = sent.unanswered ∙ a.silent;
    }

request_hole-Asked :
    (src dst : Bytes) (ns : ℕ) (l m : Link) → Asked l m → Asked l (request_hole src dst ns m)
unfolding request_hole
request_hole-Asked src dst ns l m a =
    elim (Bool-cases (contains ns m.conn.rx_buf || contains ns m.conn.srej_sent)) [
      | inl e ↦ rw e a
      | inr e ↦ rw e (ask-Asked src dst ns l m a (not_next ns m a.asked e))
    ]

srej_holes-Asked :
    (n i : ℕ) (src dst : Bytes) (upto : ℕ) (l m : Link)
    → Asked l m
    → Asked l (srej_holes n i src dst upto m)
unfolding srej_holes
srej_holes-Asked zero i src dst upto l m a = a
srej_holes-Asked (suc n) i src dst upto l m a =
    let ns = (m.conn.recv_seq + i) % 256 % m.conn.modulo in
    elim (Bool-cases (ns == upto)) [
      | inl e ↦ rw e a
      | inr e ↦
          rw e (srej_holes-Asked n (i + 1) src dst upto l _ (request_hole-Asked src dst ns l m a))
    ]

srej_ahead-Asked :
    (f : Frame) (src dst : Bytes) (l : Link)
    → f.ns ≢ l.conn.recv_seq
    → contains l.conn.recv_seq l.conn.srej_sent ≡ true
    → finals (srej_ahead f src dst l).log ≡ finals l.log
unfolding srej_ahead send_srej_holes cancel_t2
srej_ahead-Asked f src dst l ne h =
    let kept : RxEntry = record { pid = f.pid; info = f.info } in
    let m = cancel_t2 (
      with_conn l (record l.conn {
        rx_buf = insert f.ns kept l.conn.rx_buf;
        srej_sent = delete f.ns l.conn.srej_sent;
      })) in
    (srej_holes-Asked l.conn.modulo 0 src dst f.ns l m (record {
      recv_seq = refl;
      asked = contains-delete f.ns l.conn.recv_seq l.conn.srej_sent ne h;
      silent = finals-cancelled l.conn.t2 l.log;
    })).silent

finals-if_true :
    (n : ℕ) (b : Bool) (x y : Link)
    → b ≡ true
    → finals x.log ≡ n
    → finals (if b then x else y).log ≡ n
finals-if_true n true x y e p = p
finals-if_true n false x y e p = cc

finals-if_false :
    (n : ℕ) (b : Bool) (x y : Link)
    → b ≡ false
    → finals y.log ≡ n
    → finals (if b then x else y).log ≡ n
finals-if_false n true x y e p = cc
finals-if_false n false x y e p = p

receive_srej-Asked :
    (w : ℕ) (f : Frame) (src dst : Bytes) (l : Link)
    → f.ns ≢ l.conn.recv_seq
    → ltb 0 (seq_sub l.conn.modulo f.ns l.conn.recv_seq) ≡ true
    → ltb w (seq_sub l.conn.modulo f.ns l.conn.recv_seq) ≡ false
    → contains l.conn.recv_seq l.conn.srej_sent ≡ true
    → finals (receive_srej w f src dst l).log ≡ finals l.log
unfolding receive_srej
receive_srej-Asked w f src dst l ne ahead fits h =
    let gap = seq_sub l.conn.modulo f.ns l.conn.recv_seq in
    let kept = srej_ahead f src dst l in
    finals-if_true (finals l.log) (ltb 0 gap) _ _ ahead
      (finals-if_false (finals l.log) (ltb w gap) _ kept fits (srej_ahead-Asked f src dst l ne h))

-- On a link with selective reject, once V(R) has been asked for by an SREJ, an I-frame ahead of V(R)
-- and inside the window is not answered by any supervisory response with F=1, also when it is a poll
-- (P=1).
pub srej_poll_unanswered :
    (port : ℕ) (f : Frame) (src dst : Bytes) (l : Link)
    → l.conn.srej_enabled ≡ true
    → f.ns ≢ l.conn.recv_seq
    → ltb 0 (seq_sub l.conn.modulo f.ns l.conn.recv_seq) ≡ true
    → ltb (port_params l.table.params port).max_window (seq_sub l.conn.modulo f.ns l.conn.recv_seq)
      ≡ false
    → contains l.conn.recv_seq l.conn.srej_sent ≡ true
    → finals (receive_i port f src dst l).log ≡ finals l.log
unfolding receive_i
srej_poll_unanswered port f src dst l on ne ahead fits h =
    let m = ack_frames f.nr l in
    let s = ack_frames-Spares f.nr l in
    let w = (port_params l.table.params port).max_window in
    let same : finals (receive_srej w f src dst m).log ≡ finals m.log =
      receive_srej-Asked w f src dst m (λ e. ne (e ∙ s.recv_seq)) (rw (s.recv_seq, s.modulo) ahead)
        (rw (s.recv_seq, s.modulo) fits) (rw (s.recv_seq, s.srej_sent) h) in
    finals-if_true (finals l.log) m.conn.srej_enabled _ _ (s.srej_enabled ∙ on)
      (same ∙ s.unanswered)
