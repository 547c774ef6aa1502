-- ===== src/L2/Outbound.antt =====
-- ax25/l2/l2.go: sending data, acknowledgements and retransmission.
use tncd.Prelude.{
  Bool, Bytes, List, Option, [], delete, drop, err, false, if◌then◌else◌, insert, leb, length,
  lookup, ltb, none, ok, some, suc, take, true, zero, ℕ, ◌%◌, ◌&&◌, ◌*◌, ◌++◌, ◌+◌, ◌-◌, ◌/◌, ◌==◌,
  ◌∷◌,
}
use tncd.Ax25.Frame.{Frame, bytes, parse_modulo}
use tncd.L2.State.{
  Conn, OutEntry, PortParams, default_t1_setup, max_i_frame_info, max_outbound_queue, t1_ceil,
}
use tncd.L2.Links.{
  Link, cancel_t1, cancel_t2, i_frame_of, link_params, send_frame, start_t1, with_conn,
}

-- A uint8 difference, reduced by the modulo: `(a - b) % c.modulo`.
abbrev pub seq_sub : ℕ → ℕ → ℕ → ℕ
seq_sub m a b = (a + 256 - b) % 256 % m

-- `(a + 1) % c.modulo` on a uint8.
abbrev pub seq_next : ℕ → ℕ → ℕ
seq_next m a = (a + 1) % 256 % m

-- `updateSRTT`: the smoothed round trip and its variance, and T1 between its two bounds.
unfoldable pub update_srtt : ℕ → PortParams → Conn → Conn
update_srtt rtt p c =
    let t1_floor = if p.t1_floor == 0 then default_t1_setup else p.t1_floor in
    let diff = if ltb c.srtt rtt then rtt - c.srtt else c.srtt - rtt in
    let srtt = if c.srtt == 0 then rtt else (7 * c.srtt + rtt) / 8 in
    let rttvar = if c.srtt == 0 then rtt / 2 else (3 * c.rttvar + diff) / 4 in
    let t1 = srtt + 4 * rttvar in
    let raised = if ltb t1 t1_floor then t1_floor else t1 in
    record c {
      srtt = srtt;
      rttvar = rttvar;
      t1_value = if ltb t1_ceil raised then t1_ceil else raised;
    }

-- The inner loop of `drainOutbound`: adjacent chunks of one PID, up to 256 bytes.
unfoldable pub coalesce : ℕ → Bytes → List OutEntry → Bytes × List OutEntry
coalesce pid chunk [] = (chunk, [])
coalesce pid chunk (next ∷ queue) =
    let more = coalesce pid (chunk ++ next.payload) queue in
    if ltb (length chunk) max_i_frame_info
      && (next.pid == pid && leb (length chunk + length next.payload) max_i_frame_info)
    then more
    else (chunk, next ∷ queue)

-- One round of `drainOutbound`: an I-frame with sequence number V(S) goes out and is kept.
unfoldable pub send_chunk : OutEntry → List OutEntry → Link → Link
unfolding coalesce
send_chunk entry queue l =
    let c = l.conn in
    let (chunk, rest) = coalesce entry.pid entry.payload queue in
    let f = i_frame_of c c.send_seq entry.pid chunk in
    send_frame c.port f (
      with_conn l (record c {
        out_queue = rest;
        retransmit_buf = insert c.send_seq (bytes f) c.retransmit_buf;
        iframe_timestamps = insert c.send_seq l.table.now c.iframe_timestamps;
        send_seq = seq_next c.modulo c.send_seq;
        unacked = (c.unacked + 1) % 256;
      }))

-- The outer loop; the flag is `sentAny`. Each round takes an entry from the queue at least.
unfoldable pub drain_loop : ℕ → Link → Bool → Link × Bool
unfolding send_chunk
drain_loop zero l sent = (l, sent)
drain_loop (suc fuel) l sent = elim l.conn.out_queue [
  | [] ↦ (l, sent)
  | entry ∷ queue ↦
      let more = drain_loop fuel (send_chunk entry queue l) true in
      if ltb l.conn.unacked (link_params l).max_window then more else (l, sent)
]

unfoldable pub after_drain : Link × Bool → Link
after_drain (l, true) = start_t1 (cancel_t2 l)
after_drain (l, false) = l

unfoldable pub drain_outbound : Link → Link
unfolding drain_loop after_drain
drain_outbound l =
    let drained = after_drain (drain_loop (length l.conn.out_queue) l false) in
    if l.conn.remote_busy then l else drained

-- One round trip sample for each newly acknowledged frame that was sent once.
unfoldable pub sample_rtt : ℕ → ℕ → Link → Link
unfolding update_srtt
sample_rtt zero seq l = l
sample_rtt (suc n) seq l =
    let next = seq_next l.conn.modulo seq in
    elim (lookup seq l.conn.iframe_timestamps) [
      | none ↦ sample_rtt n next l
      | some sent ↦ sample_rtt n next (
          with_conn l (
            update_srtt (l.table.now - sent) (link_params l)
              (record l.conn { iframe_timestamps = delete seq l.conn.iframe_timestamps })))
    ]

unfoldable pub purge : ℕ → ℕ → ℕ → List (ℕ × Bytes) → List (ℕ × Bytes)
purge zero modulo seq buf = buf
purge (suc n) modulo seq buf = purge n modulo (seq_next modulo seq) (delete seq buf)

abbrev pub is_empty {ℓ} : {A : Type ℓ} → List A → Bool
is_empty [] = true
is_empty (_ ∷ _) = false

-- The frames before `nr` are acknowledged.
unfoldable pub apply_ack : ℕ → ℕ → Link → Link
unfolding sample_rtt purge drain_outbound
apply_ack newly nr l =
    let m = sample_rtt newly l.conn.last_acked (with_conn l (record l.conn { t1_polls = 0 })) in
    let c = m.conn in
    let n = with_conn m (record c {
      retransmit_buf = purge newly c.modulo c.last_acked c.retransmit_buf;
      last_acked = nr;
      unacked = if ltb newly c.unacked then c.unacked - newly else 0;
    }) in
    drain_outbound (if is_empty n.conn.retransmit_buf then cancel_t1 n else start_t1 n)

-- `ackFrames`: an N(R) outside [V(A), V(S)], or one that acknowledges nothing, changes nothing.
unfoldable pub ack_frames : ℕ → Link → Link
unfolding apply_ack
ack_frames nr l =
    let c = l.conn in
    let newly = seq_sub c.modulo nr c.last_acked in
    let outstanding = seq_sub c.modulo c.send_seq c.last_acked in
    if ltb outstanding newly then l else if newly == 0 then l else apply_ack newly nr l

-- One retransmitted frame: the stored one with the current N(R), which takes its place.
unfoldable pub resend : ℕ → Frame → Link → Link
resend seq orig l =
    let f = record (i_frame_of l.conn orig.ns orig.pid orig.info) { pf = orig.pf } in
    send_frame l.conn.port f (
      with_conn l (record l.conn {
        retransmit_buf = insert seq (bytes f) l.conn.retransmit_buf;
        iframe_timestamps = delete seq l.conn.iframe_timestamps;
      }))

abbrev pub stored_frame : Conn → ℕ → Option Frame
stored_frame c seq = elim (lookup seq c.retransmit_buf) [
  | none ↦ none
  | some raw ↦ elim (parse_modulo raw c.modulo) [ ok f ↦ some f | err _ ↦ none ]
]

-- The loop of `retransmitRange`; there are at most 128 sequence numbers.
unfoldable pub retransmit_loop : ℕ → ℕ → ℕ → Link → Link
unfolding resend
retransmit_loop zero seq to l = l
retransmit_loop (suc fuel) seq to l =
    let round : Link = elim (stored_frame l.conn seq) [
      | none ↦ l
      | some orig ↦ retransmit_loop fuel (seq_next l.conn.modulo seq) to (resend seq orig l)
    ] in
    if seq == to then l else round

unfoldable pub retransmit_range : ℕ → ℕ → Link → Link
unfolding retransmit_loop
retransmit_range from to l = retransmit_loop 256 from to l

unfoldable pub retransmit_from : ℕ → Link → Link
unfolding retransmit_range
retransmit_from from l = retransmit_range from l.conn.send_seq l

-- The chunks of a payload: at least one, each of at most 256 bytes.
unfoldable pub chunks : ℕ → Bytes → List Bytes
chunks zero data_bytes = data_bytes ∷ []
chunks (suc fuel) data_bytes =
    let rest = chunks fuel (drop max_i_frame_info data_bytes) in
    if leb (length data_bytes) max_i_frame_info
    then data_bytes ∷ []
    else take max_i_frame_info data_bytes ∷ rest

-- The queue with the chunks that fit, and the number of those that do not.
unfoldable pub enqueue : ℕ → List Bytes → List OutEntry → List OutEntry × ℕ
enqueue pid [] queue = (queue, 0)
enqueue pid (c ∷ cs) queue =
    let more = enqueue pid cs (queue ++ record { pid = pid; payload = c } ∷ []) in
    if leb max_outbound_queue (length queue) then (queue, length (c ∷ cs)) else more

unfoldable pub send_data : ℕ → Bytes → Link → Link × ℕ
unfolding chunks enqueue drain_outbound
send_data pid payload l =
    let (queue, dropped) = enqueue pid (chunks (length payload) payload) l.conn.out_queue in
    (drain_outbound (with_conn l (record l.conn { out_queue = queue })), dropped)

unfoldable pub outstanding : Conn → ℕ
outstanding c = c.unacked + length c.out_queue
