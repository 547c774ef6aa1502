-- ===== src/L2/Inbound.antt =====
-- ax25/l2/l2.go: the I-, S- and XID frames received on a connection.
use tncd.Prelude.{
  Bool, Bytes, contains, delete, false, if◌then◌else◌, insert, leb, length, lookup, ltb, none, not,
  some, suc, true, zero, ℕ, ◌%◌, ◌&&◌, ◌+◌, ◌==◌, ◌||◌,
}
use tncd.Ax25.Frame.{Frame, FrameType, bytes, rej, rnr, rr, srej, xid}
use tncd.Ax25.Xid.{SrejMode, XidParams, encode, srej_none, srej_single}
use tncd.Ax25.Xid
use tncd.L2.State.{
  RxEntry, cmd_frame, hook_connected, hook_data, hook_defer, port_params, resp_frame,
}
use tncd.L2.Links.{
  Link, cancel_t1, cancel_t2, enter_connected, i_frame_of, is_connected, link_params, schedule_t2,
  send_frame, send_rr_response, start_t1, tell, with_conn,
}
use tncd.L2.Outbound.{
  ack_frames, drain_outbound, is_empty, retransmit_from, retransmit_range, seq_next, seq_sub,
  stored_frame,
}

-- `deliverData`
unfoldable pub deliver_data : ℕ → Bytes → Link → Link
deliver_data pid info l = tell (hook_data l.self pid info) l

-- A poll is answered at once, anything else by the delayed acknowledgement.
unfoldable pub answer : Bool → Bytes → Bytes → Link → Link
answer pf src dst l = if pf then send_rr_response src dst (cancel_t2 l) else schedule_t2 src dst l

-- One round of `sendSREJHoles` for the sequence number `ns`.
unfoldable pub request_hole : Bytes → Bytes → ℕ → Link → Link
request_hole src dst ns l =
    let c = l.conn in
    if contains ns c.rx_buf || contains ns c.srej_sent
    then l
    else send_frame c.port (record (resp_frame src dst c.via srej (ns == c.recv_seq)) { nr = ns })
        (with_conn l (record c { srej_sent = insert ns true c.srej_sent }))

-- The loop: `left` rounds remain, the present one is number `i`.
unfoldable pub srej_holes : ℕ → ℕ → Bytes → Bytes → ℕ → Link → Link
unfolding request_hole
srej_holes zero i src dst upto l = l
srej_holes (suc left) i src dst upto l =
    let ns = (l.conn.recv_seq + i) % 256 % l.conn.modulo in
    let rest = srej_holes left (i + 1) src dst upto (request_hole src dst ns l) in
    if ns == upto then l else rest

unfoldable pub send_srej_holes : Bytes → Bytes → ℕ → Link → Link
unfolding srej_holes
send_srej_holes src dst upto l = srej_holes l.conn.modulo 0 src dst upto l

-- The frames that were waiting for the one just delivered.
unfoldable pub flush : ℕ → Link → Link
flush zero l = l
flush (suc fuel) l = elim (lookup l.conn.recv_seq l.conn.rx_buf) [
  | none ↦ l
  | some e ↦
      let c = l.conn in
      let m = deliver_data e.pid e.info (
        with_conn l (record c {
          rx_buf = delete c.recv_seq c.rx_buf;
          srej_sent = delete c.recv_seq c.srej_sent;
        })) in
      flush fuel (with_conn m (record m.conn { recv_seq = seq_next c.modulo c.recv_seq }))
]

-- An I-frame in sequence, on a link with selective reject.
unfoldable pub srej_in_sequence : Frame → Bytes → Bytes → Link → Link
unfolding flush deliver_data
srej_in_sequence f src dst l =
    let m =
      deliver_data f.pid f.info
        (with_conn l (record l.conn { srej_sent = delete f.ns l.conn.srej_sent })) in
    let n = with_conn m (record m.conn { recv_seq = seq_next m.conn.modulo f.ns }) in
    answer f.pf src dst (flush (length n.conn.rx_buf) n)

-- An I-frame ahead of V(R) and inside the window is kept, and what is missing asked for.
unfoldable pub srej_ahead : Frame → Bytes → Bytes → Link → Link
unfolding send_srej_holes
srej_ahead f src dst l =
    let c = l.conn in
    let kept : RxEntry = record { pid = f.pid; info = f.info } in
    send_srej_holes src dst f.ns (
      cancel_t2 (
        with_conn l
          (record c { rx_buf = insert f.ns kept c.rx_buf; srej_sent = delete f.ns c.srej_sent })))

unfoldable pub receive_srej : ℕ → Frame → Bytes → Bytes → Link → Link
unfolding srej_in_sequence srej_ahead answer
receive_srej max_window f src dst l =
    let gap = seq_sub l.conn.modulo f.ns l.conn.recv_seq in
    if ltb 0 gap
    then (if ltb max_window gap then answer f.pf src dst l else srej_ahead f src dst l)
    else srej_in_sequence f src dst l

-- An I-frame out of sequence, on a link without selective reject.
unfoldable pub reject : ℕ → ℕ → Frame → Bytes → Bytes → Link → Link
unfolding answer
reject max_window port f src dst l =
    let gap = seq_sub l.conn.modulo f.ns l.conn.recv_seq in
    let ahead = ltb 0 gap && leb gap max_window in
    if ahead && l.conn.rej_sent
    then (if f.pf then send_rr_response src dst (cancel_t2 l) else l)
    else if ahead
    then (let m =
          send_frame port (record (resp_frame src dst l.conn.via rej f.pf) { nr = l.conn.recv_seq })
            (cancel_t2 l) in
        with_conn m (record m.conn { rej_sent = true }))
    else answer f.pf src dst l

unfoldable pub accept : Frame → Bytes → Bytes → Link → Link
unfolding answer deliver_data
accept f src dst l = deliver_data f.pid f.info (
    answer f.pf src dst
      (with_conn l (record l.conn { rej_sent = false; recv_seq = seq_next l.conn.modulo f.ns })))

unfoldable pub receive_rej : ℕ → ℕ → Frame → Bytes → Bytes → Link → Link
unfolding reject accept
receive_rej max_window port f src dst l =
    if f.ns == l.conn.recv_seq then accept f src dst l else reject max_window port f src dst l

-- An I-frame on an established link: its N(R) first, then its place in the sequence.
unfoldable pub receive_i : ℕ → Frame → Bytes → Bytes → Link → Link
unfolding receive_srej receive_rej
receive_i port f src dst l =
    let m = ack_frames f.nr l in
    let window = (port_params l.table.params port).max_window in
    if m.conn.srej_enabled
    then receive_srej window f src dst m
    else receive_rej window port f src dst m

-- A connecting link that gets an I-frame: the UA was lost.
unfoldable pub promote : Link → Link
promote l =
    let m = cancel_t1 (enter_connected l) in
    tell (hook_connected m.self false)
      (with_conn m (record m.conn { t1_polls = 0; send_seq = 0; recv_seq = 0; incoming = false }))

-- The frame that an SREJ names.
unfoldable pub receive_srej_request : ℕ → Link → Link
receive_srej_request nr l =
    let m = with_conn l (record l.conn { remote_busy = false }) in
    elim (stored_frame m.conn nr) [
      | none ↦ m
      | some orig ↦
          let f = i_frame_of m.conn orig.ns orig.pid orig.info in
          send_frame m.conn.port f (
            with_conn m (record m.conn {
              retransmit_buf = insert nr (bytes f) m.conn.retransmit_buf;
              iframe_timestamps = delete nr m.conn.iframe_timestamps;
            }))
    ]

-- Step 2 and 3 of `dispatchS`: the peer's busy state, and REJ.
unfoldable pub flow_control : FrameType → ℕ → Link → Link
flow_control rnr nr l = with_conn l (record l.conn { remote_busy = true })
flow_control rr nr l =
    let ready = drain_outbound (with_conn l (record l.conn { remote_busy = false })) in
    if l.conn.remote_busy then ready else l
flow_control rej nr l = retransmit_from nr (with_conn l (record l.conn { remote_busy = false }))
flow_control _ nr l = l

abbrev pub is_rej : FrameType → Bool
is_rej rej = true
is_rej _ = false

abbrev pub is_srej : FrameType → Bool
is_srej srej = true
is_srej _ = false

-- Step 4: an F=1 response ends the timer recovery.
unfoldable pub recover : Frame → ℕ → Link → Link
recover f vs_before l =
    let m = with_conn l (record l.conn { polling = false }) in
    let again =
      not (is_rej f.type) && (not m.conn.remote_busy && not (is_empty m.conn.retransmit_buf)) in
    let n = if again then start_t1 (retransmit_range m.conn.last_acked vs_before m) else m in
    let settled = cancel_t1 n in
    if is_empty n.conn.retransmit_buf
    then with_conn settled (record settled.conn { t1_polls = 0 })
    else n

-- A command with P=1 wants an answer: at once for REJ, deferred otherwise.
unfoldable pub answer_poll : Frame → Bytes → Bytes → Link → Link
answer_poll f src dst l =
    if f.pf && f.command && is_connected l.conn.state
    then (if is_rej f.type then send_rr_response src dst l else tell (hook_defer l.self src dst) l)
    else l

-- An S-frame on an established link.
unfoldable pub receive_s : Frame → Bytes → Bytes → Link → Link
unfolding receive_srej_request flow_control recover answer_poll
receive_s f src dst l =
    let vs_before = l.conn.send_seq in
    let m = if not (is_srej f.type) || f.pf then ack_frames f.nr l else l in
    if is_srej f.type
    then receive_srej_request f.nr m
    else (let n = flow_control f.type f.nr m in
        let o = if not f.command && (f.pf && n.conn.polling) then recover f vs_before n else n in
        answer_poll f src dst o)

-- The deferred answer, run behind the frames that were queued before it.
unfoldable pub run_deferred : Bytes → Bytes → Link → Link
run_deferred src dst l = if is_connected l.conn.state then send_rr_response src dst l else l

unfoldable pub send_xid_command : Link → Link
send_xid_command l =
    let params : XidParams = record {
      full_duplex = false;
      srej = srej_single;
      modulo = 128;
      i_field_len_rx_bytes = 256;
      window_rx = (link_params l).max_window;
    } in
    let f = record (cmd_frame l.conn.remote l.conn.local l.conn.via xid true) {
      info = Xid.encode params true;
    } in
    let m = send_frame l.conn.port f l in with_conn m (record m.conn { xid_pending = true })

abbrev pub offers_srej : SrejMode → Bool
offers_srej srej_none = false
offers_srej _ = true

unfoldable pub negotiate_srej : Link → SrejMode → SrejMode
negotiate_srej l peer =
    if (link_params l).srej && (l.conn.modulo == 128 && offers_srej peer)
    then srej_single
    else srej_none

-- An XID frame whose parameters parsed, on a known connection.
unfoldable pub receive_xid : ℕ → Frame → XidParams → Bytes → Bytes → Link → Link
unfolding negotiate_srej
receive_xid port f their src dst l =
    let neg = negotiate_srej l their.srej in
    let enabled = with_conn l (record l.conn { srej_enabled = offers_srej neg }) in
    let window = (port_params l.table.params port).max_window in
    let agreed =
      if ltb 0 their.window_rx && ltb their.window_rx window then their.window_rx else window in
    let rsp : XidParams = record {
      full_duplex = false;
      srej = neg;
      modulo = l.conn.modulo;
      i_field_len_rx_bytes = 256;
      window_rx = agreed;
    } in
    if not f.command
    then (if is_connected l.conn.state
        then with_conn enabled (record enabled.conn { xid_pending = false })
        else l)
    else if not f.pf
    then l
    else send_frame port
        (record (resp_frame src dst l.conn.via xid true) { info = Xid.encode rsp false }) enabled
