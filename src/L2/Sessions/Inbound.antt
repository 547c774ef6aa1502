-- ===== src/L2/Sessions/Inbound.antt =====
-- ax25/l2/l2.go: receiving I-, S- and XID frames keeps the identity of the connection.
use tncd.Prelude.{
  Bool, Bytes, Option-cases, contains, delete, false, if◌then◌else◌, inl, inr, insert, leb, length,
  lookup, ltb, not, refl, suc, zero, ℕ, ◌%◌, ◌&&◌, ◌+◌, ◌==◌, ◌||◌,
}
use tncd.Ax25.Frame.{Frame, FrameType, rej, rnr, rr}
use tncd.Ax25.Xid.{XidParams}
use tncd.L2.State.{RxEntry}
use tncd.L2.Links.{Link, cancel_t1, enter_connected, is_connected, with_conn}
use tncd.L2.Outbound.{ack_frames, is_empty, seq_next, seq_sub, stored_frame}
use tncd.L2.Inbound.{
  answer, answer_poll, deliver_data, flow_control, flush, is_rej, is_srej, promote, receive_i,
  receive_rej, receive_s, receive_srej, receive_srej_request, receive_xid, recover, reject,
  request_hole, run_deferred, send_srej_holes, send_xid_command, srej_ahead, srej_holes,
  srej_in_sequence,
}
use tncd.L2.Sessions.Keeps.{
  Keeps, Keeps-conn, Keeps-if, Keeps-refl, Keeps-trans, cancel_t1-Keeps, cancel_t2-Keeps,
  reported-cancelled, schedule_t2-Keeps, send_frame-Keeps, send_rr_response-Keeps, start_t1-Keeps,
}
use tncd.L2.Sessions.Outbound.{
  ack_frames-Keeps, drain_outbound-Keeps, retransmit_from-Keeps, retransmit_range-Keeps,
}

deliver_data-Keeps : (pid : ℕ) (info : Bytes) (l : Link) → Keeps l (deliver_data pid info l)
unfolding deliver_data
deliver_data-Keeps pid info l = record {
  table = refl;
  self = refl;
  port = refl;
  local = refl;
  remote = refl;
  reports = λ p. refl;
}

answer-Keeps : (pf : Bool) (src dst : Bytes) (l : Link) → Keeps l (answer pf src dst l)
unfolding answer
answer-Keeps pf src dst l =
    Keeps-if pf (Keeps-trans (cancel_t2-Keeps l) (send_rr_response-Keeps src dst _))
      (schedule_t2-Keeps src dst l)

request_hole-Keeps : (src dst : Bytes) (ns : ℕ) (l : Link) → Keeps l (request_hole src dst ns l)
unfolding request_hole
request_hole-Keeps src dst ns l =
    Keeps-if (contains ns l.conn.rx_buf || contains ns l.conn.srej_sent) (Keeps-refl l)
      (Keeps-trans (Keeps-conn l _ refl refl refl) (send_frame-Keeps _ _ _))

srej_holes-Keeps :
    (n i : ℕ) (src dst : Bytes) (upto : ℕ) (l : Link) → Keeps l (srej_holes n i src dst upto l)
unfolding srej_holes
srej_holes-Keeps zero i src dst upto l = Keeps-refl l
srej_holes-Keeps (suc n) i src dst upto l =
    let ns = (l.conn.recv_seq + i) % 256 % l.conn.modulo in
    Keeps-if (ns == upto) (Keeps-refl l)
      (Keeps-trans (request_hole-Keeps src dst ns l) (srej_holes-Keeps n (i + 1) src dst upto _))

flush-Keeps : (n : ℕ) (l : Link) → Keeps l (flush n l)
unfolding flush
flush-Keeps zero l = Keeps-refl l
flush-Keeps (suc n) l = elim (Option-cases (lookup l.conn.recv_seq l.conn.rx_buf)) [
  | inl e ↦ simp (e, flush) (Keeps-refl l)
  | inr (x, e) ↦
      simp (e, flush)
        (Keeps-trans (Keeps-conn l _ refl refl refl) (
          Keeps-trans (deliver_data-Keeps x.pid x.info _)
            (Keeps-trans (Keeps-conn _ _ refl refl refl) (flush-Keeps n _))))
]

srej_in_sequence-Keeps :
    (f : Frame) (src dst : Bytes) (l : Link) → Keeps l (srej_in_sequence f src dst l)
unfolding srej_in_sequence
srej_in_sequence-Keeps f src dst l =
    let c = record l.conn { srej_sent = delete f.ns l.conn.srej_sent } in
    let m = deliver_data f.pid f.info (with_conn l c) in
    let n = with_conn m (record m.conn { recv_seq = seq_next m.conn.modulo f.ns }) in
    Keeps-trans (Keeps-conn l c refl refl refl) (
      Keeps-trans (deliver_data-Keeps f.pid f.info (with_conn l c)) (
        Keeps-trans (Keeps-conn m n.conn refl refl refl)
          (Keeps-trans (flush-Keeps (length n.conn.rx_buf) n) (answer-Keeps f.pf src dst _))))

srej_ahead-Keeps : (f : Frame) (src dst : Bytes) (l : Link) → Keeps l (srej_ahead f src dst l)
unfolding srej_ahead send_srej_holes
srej_ahead-Keeps f src dst l =
    let kept : RxEntry = record { pid = f.pid; info = f.info } in
    let c = record l.conn {
      rx_buf = insert f.ns kept l.conn.rx_buf;
      srej_sent = delete f.ns l.conn.srej_sent;
    } in
    Keeps-trans (Keeps-conn l c refl refl refl)
      (Keeps-trans (cancel_t2-Keeps (with_conn l c)) (srej_holes-Keeps _ 0 src dst f.ns _))

receive_srej-Keeps :
    (w : ℕ) (f : Frame) (src dst : Bytes) (l : Link) → Keeps l (receive_srej w f src dst l)
unfolding receive_srej
receive_srej-Keeps w f src dst l =
    let gap = seq_sub l.conn.modulo f.ns l.conn.recv_seq in
    Keeps-if (ltb 0 gap)
      (Keeps-if (ltb w gap) (answer-Keeps f.pf src dst l) (srej_ahead-Keeps f src dst l))
      (srej_in_sequence-Keeps f src dst l)

reject-Keeps :
    (w port : ℕ) (f : Frame) (src dst : Bytes) (l : Link) → Keeps l (reject w port f src dst l)
unfolding reject
reject-Keeps w port f src dst l =
    let gap = seq_sub l.conn.modulo f.ns l.conn.recv_seq in
    let ahead = ltb 0 gap && leb gap w in
    Keeps-if (ahead && l.conn.rej_sent)
      (Keeps-if f.pf (Keeps-trans (cancel_t2-Keeps l) (send_rr_response-Keeps src dst _))
        (Keeps-refl l))
      (Keeps-if ahead
        (Keeps-trans (cancel_t2-Keeps l)
          (Keeps-trans (send_frame-Keeps _ _ _) (Keeps-conn _ _ refl refl refl)))
        (answer-Keeps f.pf src dst l))

receive_rej-Keeps :
    (w port : ℕ) (f : Frame) (src dst : Bytes) (l : Link) → Keeps l (receive_rej w port f src dst l)
unfolding receive_rej
receive_rej-Keeps w port f src dst l =
    Keeps-if (f.ns == l.conn.recv_seq)
      (Keeps-trans (Keeps-conn l _ refl refl refl)
        (Keeps-trans (answer-Keeps f.pf src dst _) (deliver_data-Keeps f.pid f.info _)))
      (reject-Keeps w port f src dst l)

pub receive_i-Keeps :
    (port : ℕ) (f : Frame) (src dst : Bytes) (l : Link) → Keeps l (receive_i port f src dst l)
unfolding receive_i
receive_i-Keeps port f src dst l = Keeps-trans (ack_frames-Keeps f.nr l) (
    Keeps-if (ack_frames f.nr l).conn.srej_enabled (receive_srej-Keeps _ f src dst _)
      (receive_rej-Keeps _ port f src dst _))

pub promote-Keeps : (l : Link) → Keeps l (promote l)
unfolding promote enter_connected cancel_t1
promote-Keeps l = record {
  table = refl;
  self = refl;
  port = refl;
  local = refl;
  remote = refl;
  reports = λ p. reported-cancelled p l.conn.t1 l.log;
}

receive_srej_request-Keeps : (nr : ℕ) (l : Link) → Keeps l (receive_srej_request nr l)
unfolding receive_srej_request
receive_srej_request-Keeps nr l =
    elim (Option-cases (stored_frame (record l.conn { remote_busy = false }) nr)) [
      | inl e ↦ simp (e, receive_srej_request) (Keeps-conn l _ refl refl refl)
      | inr (x, e) ↦
          simp (e, receive_srej_request)
            (Keeps-trans (Keeps-conn l _ refl refl refl) (send_frame-Keeps _ _ _))
    ]

flow_control-Keeps : (t : FrameType) (nr : ℕ) (l : Link) → Keeps l (flow_control t nr l)
unfolding flow_control
flow_control-Keeps rnr nr l = Keeps-conn l _ refl refl refl
flow_control-Keeps rr nr l =
    Keeps-if l.conn.remote_busy
      (Keeps-trans (Keeps-conn l _ refl refl refl) (drain_outbound-Keeps _)) (Keeps-refl l)
flow_control-Keeps rej nr l =
    Keeps-trans (Keeps-conn l _ refl refl refl) (retransmit_from-Keeps nr _)
flow_control-Keeps _ nr l = Keeps-refl l

-- The second half of `recover`.
settle-Keeps :
    (n : Link)
    → Keeps n (
        if is_empty n.conn.retransmit_buf
        then with_conn (cancel_t1 n) (record (cancel_t1 n).conn { t1_polls = 0 })
        else n)
settle-Keeps n =
    Keeps-if (is_empty n.conn.retransmit_buf)
      (Keeps-trans (cancel_t1-Keeps n) (Keeps-conn _ _ refl refl refl)) (Keeps-refl n)

recover-Keeps : (f : Frame) (vs : ℕ) (l : Link) → Keeps l (recover f vs l)
unfolding recover
recover-Keeps f vs l =
    let m = with_conn l (record l.conn { polling = false }) in
    Keeps-trans (Keeps-conn l _ refl refl refl) (
      Keeps-trans
        (Keeps-if
          (not (is_rej f.type) && (not m.conn.remote_busy && not (is_empty m.conn.retransmit_buf)))
          (Keeps-trans (retransmit_range-Keeps m.conn.last_acked vs m) (start_t1-Keeps _))
          (Keeps-refl m))
        (settle-Keeps _))

answer_poll-Keeps : (f : Frame) (src dst : Bytes) (l : Link) → Keeps l (answer_poll f src dst l)
unfolding answer_poll
answer_poll-Keeps f src dst l =
    Keeps-if (f.pf && f.command && is_connected l.conn.state)
      (Keeps-if (is_rej f.type) (send_rr_response-Keeps src dst l) (record {
        table = refl;
        self = refl;
        port = refl;
        local = refl;
        remote = refl;
        reports = λ p. refl;
      }))
      (Keeps-refl l)

pub receive_s-Keeps : (f : Frame) (src dst : Bytes) (l : Link) → Keeps l (receive_s f src dst l)
unfolding receive_s
receive_s-Keeps f src dst l =
    let acked = Keeps-if (not (is_srej f.type) || f.pf) (ack_frames-Keeps f.nr l) (Keeps-refl l) in
    let m = if not (is_srej f.type) || f.pf then ack_frames f.nr l else l in
    let n = flow_control f.type f.nr m in
    Keeps-trans acked (
      Keeps-if (is_srej f.type) (receive_srej_request-Keeps f.nr m) (
        Keeps-trans (flow_control-Keeps f.type f.nr m) (
          Keeps-trans
            (Keeps-if (not f.command && (f.pf && n.conn.polling))
              (recover-Keeps f l.conn.send_seq n) (Keeps-refl n))
            (answer_poll-Keeps f src dst _))))

pub run_deferred-Keeps : (src dst : Bytes) (l : Link) → Keeps l (run_deferred src dst l)
unfolding run_deferred
run_deferred-Keeps src dst l =
    Keeps-if (is_connected l.conn.state) (send_rr_response-Keeps src dst l) (Keeps-refl l)

pub send_xid_command-Keeps : (l : Link) → Keeps l (send_xid_command l)
unfolding send_xid_command
send_xid_command-Keeps l = Keeps-trans (send_frame-Keeps _ _ l) (Keeps-conn _ _ refl refl refl)

pub receive_xid-Keeps :
    (port : ℕ) (f : Frame) (their : XidParams) (src dst : Bytes) (l : Link)
    → Keeps l (receive_xid port f their src dst l)
unfolding receive_xid
receive_xid-Keeps port f their src dst l =
    Keeps-if (not f.command)
      (Keeps-if (is_connected l.conn.state) (Keeps-conn l _ refl refl refl) (Keeps-refl l))
      (Keeps-if (not f.pf) (Keeps-refl l)
        (Keeps-trans (Keeps-conn l _ refl refl refl) (send_frame-Keeps port _ _)))
