-- ===== src/L2/Receiving/Sequence.antt =====
-- ax25/l2/l2.go: I-frames on a link without selective reject. What is delivered, and how polls are
-- answered.
use tncd.Prelude.{
  Bool, Bool-cases, Bytes, List, ap, arith, false, if◌then◌else◌, inl, inr, leb, ltb, refl, true, ℕ,
  ◌&&◌, ◌+◌, ◌==◌, ◌∙◌, ◌∷◌, ◌≡◌,
}
use tncd.Ax25.Frame.{Frame, rej}
use tncd.L2.State.{Conn, frame_of, port_params, resp_frame}
use tncd.L2.Outbound.{ack_frames, seq_next, seq_sub}
use tncd.L2.Receiving.Sender.{ack_frames-Spares}
use tncd.L2.Links.{Link, cancel_t2, send_frame, send_rr_response, with_conn}
use tncd.L2.Inbound.{accept, answer, deliver_data, receive_i, receive_rej, receive_srej, reject}
use tncd.L2.Receiving.Observed.{
  Spares, Spares-refl, cancel_t2-Spares, delivered, finals, finals-send_frame, is_final,
  schedule_t2-Spares,
}

-- Nothing is delivered, V(R) stays, and `n` final responses go out.
record Answered (n : ℕ) (l m : Link) : Type 0 where
  table : m.table ≡ l.table
  state : m.conn.state ≡ l.conn.state
  modulo : m.conn.modulo ≡ l.conn.modulo
  recv_seq : m.conn.recv_seq ≡ l.conn.recv_seq
  srej_enabled : m.conn.srej_enabled ≡ l.conn.srej_enabled
  silent : delivered m.log ≡ delivered l.log
  answers : finals m.log ≡ n + finals l.log

abbrev asked : Bool → ℕ
asked b = if b then 1 else 0

Spares-Answered : {l m : Link} → Spares l m → Answered 0 l m
Spares-Answered s = record {
  table = s.table;
  state = s.state;
  modulo = s.modulo;
  recv_seq = s.recv_seq;
  srej_enabled = s.srej_enabled;
  silent = s.silent;
  answers = omega arith;
}

Answered-after : {n : ℕ} {k l m : Link} → Spares k l → Answered n l m → Answered n k m
Answered-after s a = record {
  table = a.table ∙ s.table;
  state = a.state ∙ s.state;
  modulo = a.modulo ∙ s.modulo;
  recv_seq = a.recv_seq ∙ s.recv_seq;
  srej_enabled = a.srej_enabled ∙ s.srej_enabled;
  silent = a.silent ∙ s.silent;
  answers = omega (arith, a.answers, s.unanswered);
}

send_frame-Answered :
    (port : ℕ) (f : Frame) (l : Link) → Answered (asked (is_final f)) l (send_frame port f l)
unfolding send_frame
send_frame-Answered port f l = record {
  table = refl;
  state = refl;
  modulo = refl;
  recv_seq = refl;
  srej_enabled = refl;
  silent = refl;
  answers = finals-send_frame port f l;
}

send_rr_response-Answered : (src dst : Bytes) (l : Link) → Answered 1 l (send_rr_response src dst l)
unfolding send_rr_response frame_of
send_rr_response-Answered src dst l = send_frame-Answered _ _ l

answer-Answered :
    (pf : Bool) (src dst : Bytes) (l : Link) → Answered (asked pf) l (answer pf src dst l)
unfolding answer
answer-Answered true src dst l =
    Answered-after (cancel_t2-Spares l) (send_rr_response-Answered src dst _)
answer-Answered false src dst l = Spares-Answered (schedule_t2-Spares src dst l)

send_rej-Answered :
    (port : ℕ) (pf : Bool) (src dst : Bytes) (l : Link) (c : Conn)
    → Answered
        (asked pf)
        l
        (send_frame port (record (resp_frame src dst c.via rej pf) { nr = c.recv_seq }) l)
unfolding frame_of
send_rej-Answered port pf src dst l c = send_frame-Answered port _ l

Answered-if :
    {n : ℕ} {l : Link} (b : Bool) {x y : Link}
    → Answered n l x
    → Answered n l y
    → Answered n l (if b then x else y)
Answered-if true h k = h
Answered-if false h k = k

-- Inside the reject exception only a poll is answered.
quiet_answer :
    (pf : Bool) (src dst : Bytes) (l : Link)
    → Answered (asked pf) l (if pf then send_rr_response src dst (cancel_t2 l) else l)
quiet_answer true src dst l =
    Answered-after (cancel_t2-Spares l) (send_rr_response-Answered src dst _)
quiet_answer false src dst l = Spares-Answered (Spares-refl l)

mark_rej :
    {n : ℕ} {l m : Link}
    → Answered n l m
    → Answered n l (with_conn m (record m.conn { rej_sent = true }))
mark_rej a = record {
  table = a.table;
  state = a.state;
  modulo = a.modulo;
  recv_seq = a.recv_seq;
  srej_enabled = a.srej_enabled;
  silent = a.silent;
  answers = a.answers;
}

reject-Answered :
    (w port : ℕ) (f : Frame) (src dst : Bytes) (l : Link)
    → Answered (asked f.pf) l (reject w port f src dst l)
unfolding reject
reject-Answered w port f src dst l =
    let gap = seq_sub l.conn.modulo f.ns l.conn.recv_seq in
    let ahead = ltb 0 gap && leb gap w in
    Answered-if (ahead && l.conn.rej_sent) (quiet_answer f.pf src dst l) (
      Answered-if ahead
        (mark_rej (
          Answered-after (cancel_t2-Spares l)
            (send_rej-Answered port f.pf src dst (cancel_t2 l) l.conn)))
        (answer-Answered f.pf src dst l))

-- What an I-frame does to a link without selective reject.
pub record Received (f : Frame) (l m : Link) : Type 0 where
  pub table : m.table ≡ l.table
  pub state : m.conn.state ≡ l.conn.state
  pub modulo : m.conn.modulo ≡ l.conn.modulo
  pub srej_enabled : m.conn.srej_enabled ≡ l.conn.srej_enabled
  pub recv_seq :
      m.conn.recv_seq
      ≡ (if f.ns == l.conn.recv_seq then seq_next l.conn.modulo f.ns else l.conn.recv_seq)
  pub data_handed :
      delivered m.log
      ≡ (if f.ns == l.conn.recv_seq then (f.pid, f.info) ∷ delivered l.log else delivered l.log)
  pub polls : finals m.log ≡ (if f.pf then 1 else 0) + finals l.log

accept-Received :
    (f : Frame) (src dst : Bytes) (l : Link)
    → (f.ns == l.conn.recv_seq) ≡ true
    → Received f l (accept f src dst l)
unfolding accept deliver_data
accept-Received f src dst l e =
    let m =
      with_conn l (record l.conn { rej_sent = false; recv_seq = seq_next l.conn.modulo f.ns }) in
    let a = answer-Answered f.pf src dst m in
    record {
      table = a.table;
      state = a.state;
      modulo = a.modulo;
      srej_enabled = a.srej_enabled;
      recv_seq = rw e a.recv_seq;
      data_handed = rw e (ap (λ (t : List (ℕ × Bytes)). (f.pid, f.info) ∷ t) a.silent);
      polls = a.answers;
    }

rejected :
    {f : Frame} {l m : Link}
    → Answered (asked f.pf) l m
    → (f.ns == l.conn.recv_seq) ≡ false
    → Received f l m
rejected a e = record {
  table = a.table;
  state = a.state;
  modulo = a.modulo;
  srej_enabled = a.srej_enabled;
  recv_seq = rw e a.recv_seq;
  data_handed = rw e a.silent;
  polls = a.answers;
}

after_ack : {f : Frame} {k l m : Link} → Spares k l → Received f l m → Received f k m
after_ack s r = record {
  table = r.table ∙ s.table;
  state = r.state ∙ s.state;
  modulo = r.modulo ∙ s.modulo;
  srej_enabled = r.srej_enabled ∙ s.srej_enabled;
  recv_seq = rw (s.recv_seq, s.modulo) at r.recv_seq;
  data_handed = rw (s.recv_seq, s.silent) at r.data_handed;
  polls = omega (arith, r.polls, s.unanswered);
}

receive_rej-Received :
    (w port : ℕ) (f : Frame) (src dst : Bytes) (l : Link)
    → Received f l (receive_rej w port f src dst l)
unfolding receive_rej
receive_rej-Received w port f src dst l = elim (Bool-cases (f.ns == l.conn.recv_seq)) [
  | inl e ↦ rw e (accept-Received f src dst l e)
  | inr e ↦ rw e (rejected (reject-Answered w port f src dst l) e)
]

otherwise :
    {f : Frame} {l : Link} (b : Bool) (x y : Link)
    → b ≡ false
    → Received f l y
    → Received f l (if b then x else y)
otherwise true x y e r = cc
otherwise false x y e r = r

-- On a link without selective reject, an I-frame is handed to the owner exactly when its N(S) is
-- V(R), and V(R) advances by one exactly then; a frame with P=1 is answered by exactly one
-- supervisory response with F=1, in sequence or not, and one with P=0 by none. The state, the modulo
-- and the choice of selective reject stay.
pub receive_i-Received :
    (port : ℕ) (f : Frame) (src dst : Bytes) (l : Link)
    → l.conn.srej_enabled ≡ false
    → Received f l (receive_i port f src dst l)
unfolding receive_i
receive_i-Received port f src dst l off =
    let s = ack_frames-Spares f.nr l in
    let m = ack_frames f.nr l in
    let w = (port_params l.table.params port).max_window in
    otherwise m.conn.srej_enabled (receive_srej w f src dst m) (receive_rej w port f src dst m)
      (s.srej_enabled ∙ off) (after_ack s (receive_rej-Received w port f src dst m))
