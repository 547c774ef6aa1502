-- ===== src/L2/Sending.antt =====
-- ax25/l2/l2.go: the bytes that the sending half takes from a client and puts into I-frames.
use tncd.Prelude.{
  Bool, Bool-cases, Bytes, List, List-cases, Option, [], ap, append-nil, append_assoc, arith, drop,
  false, if◌then◌else◌, inl, inr, insert, leb, length, ltb, map, map-append, none, refl, some, suc,
  sym, take, take-append-drop, true, zero, ℕ, ◌%◌, ◌&&◌, ◌++◌, ◌+◌, ◌==◌, ◌||◌, ◌∙◌, ◌∷◌, ◌≡◌, ◌≢◌,
}
use tncd.Ax25.Frame.{Frame, bytes, is_i, is_s}
use tncd.L2.State.{
  Conn, ConnKey, Effect, OutEntry, cancelled, frame_of, hook_connect_failed, hook_connected,
  hook_data, hook_defer, hook_disconnected, hook_port_sessions, max_i_frame_info,
  max_outbound_queue, send_ax25, stamped, timer_cancelled, timer_started, update,
}
use tncd.L2.Links.{
  Link, cancel_t1, cancel_t2, i_frame_of, link_params, send_frame, start_t1, with_conn,
}
use tncd.L2.Outbound.{
  after_drain, chunks, coalesce, drain_loop, drain_outbound, enqueue, send_chunk, send_data,
  seq_next,
}

-- Bytes under their PID.
abbrev pub under : ℕ → Bytes → List (ℕ × ℕ)
under pid bs = map (λ b. (pid, b)) bs

under-append : (pid : ℕ) (p q : Bytes) → under pid (p ++ q) ≡ under pid p ++ under pid q
under-append pid p q = map-append _ p q

-- What waits in the queue.
unfoldable pub queued : List OutEntry → List (ℕ × ℕ)
queued [] = []
queued (e ∷ q) = under e.pid e.payload ++ queued q

abbrev pub carries : Frame → List (ℕ × ℕ)
carries f = if is_i f.type then under f.pid f.info else []

-- What the I-frames of a log carried, in the order in which they went out.
unfoldable pub carried : List Effect → List (ℕ × ℕ)
carried [] = []
carried (send_ax25 _ f ∷ log) = carried log ++ carries f
carried (hook_data _ _ _ ∷ log) = carried log
carried (hook_connected _ _ ∷ log) = carried log
carried (hook_connect_failed _ _ ∷ log) = carried log
carried (hook_disconnected _ ∷ log) = carried log
carried (hook_defer _ _ _ ∷ log) = carried log
carried (hook_port_sessions _ _ ∷ log) = carried log
carried (timer_started _ _ _ _ ∷ log) = carried log
carried (timer_cancelled _ ∷ log) = carried log

-- All that a link has sent and has still to send.
abbrev pub stream : Link → List (ℕ × ℕ)
stream l = carried l.log ++ queued l.conn.out_queue

carried-cancelled : (o : Option ℕ) (log : List Effect) → carried (cancelled o log) ≡ carried log
unfolding carried
carried-cancelled none log = refl
carried-cancelled (some id) log = refl

carries-stamped :
    (heap : ℕ → Conn) (conns : List (ConnKey × ℕ)) (port : ℕ) (f : Frame)
    → carries (stamped heap conns port f) ≡ carries f
unfolding stamped
carries-stamped heap conns port f =
    elim (Bool-cases (f.modulo == 0 && (is_i f.type || is_s f.type))) [
      | inl e ↦ rw e refl
      | inr e ↦ rw e refl
    ]

carried-send_frame :
    (port : ℕ) (f : Frame) (l : Link)
    → carried (send_frame port f l).log ≡ carried l.log ++ carries f
unfolding send_frame carried
carried-send_frame port f l =
    ap (λ (t : List (ℕ × ℕ)). carried l.log ++ t)
      (carries-stamped (update l.table.heap l.self l.conn) l.table.conns port f)

coalesce-queued :
    (pid : ℕ) (chunk : Bytes) (q : List OutEntry)
    → under pid (coalesce pid chunk q).0 ++ queued (coalesce pid chunk q).1
      ≡ under pid chunk ++ queued q
unfolding coalesce queued
coalesce-queued pid chunk [] = refl
coalesce-queued pid chunk (e ∷ q) =
    elim (Bool-cases (
      ltb (length chunk) max_i_frame_info
      && (e.pid == pid && leb (length chunk + length e.payload) max_i_frame_info))) [
        | inl t ↦ rw t (
            let same : e.pid ≡ pid = ground (arith) in
            coalesce-queued pid (chunk ++ e.payload) q
            ∙ (ap (λ (x : List (ℕ × ℕ)). x ++ queued q) (under-append pid chunk e.payload)
                ∙ (append_assoc (under pid chunk) (under pid e.payload) (queued q) ∙ rw same refl)))
        | inr f ↦ rw f refl
      ]

send_chunk-stream :
    (e : OutEntry) (q : List OutEntry) (l : Link)
    → stream (send_chunk e q l) ≡ carried l.log ++ queued (e ∷ q)
unfolding send_chunk i_frame_of frame_of queued send_frame
send_chunk-stream e q l =
    let sent = coalesce e.pid e.payload q in
    let c = l.conn in
    let f = i_frame_of c c.send_seq e.pid sent.0 in
    let m = with_conn l (record c {
      out_queue = sent.1;
      retransmit_buf = insert c.send_seq (bytes f) c.retransmit_buf;
      iframe_timestamps = insert c.send_seq l.table.now c.iframe_timestamps;
      send_seq = seq_next c.modulo c.send_seq;
      unacked = (c.unacked + 1) % 256;
    }) in
    ap (λ (x : List (ℕ × ℕ)). x ++ queued sent.1) (carried-send_frame c.port f m)
    ∙ (append_assoc (carried l.log) (under e.pid sent.0) (queued sent.1)
        ∙ ap (λ (x : List (ℕ × ℕ)). carried l.log ++ x) (coalesce-queued e.pid e.payload q))

stream-if :
    (n : List (ℕ × ℕ)) (b : Bool) (x y : Link × Bool)
    → stream x.0 ≡ n
    → stream y.0 ≡ n
    → stream (if b then x else y).0 ≡ n
stream-if n true x y p q = p
stream-if n false x y p q = q

drain_loop-stream : (n : ℕ) (l : Link) (sent : Bool) → stream (drain_loop n l sent).0 ≡ stream l
unfolding drain_loop
drain_loop-stream zero l sent = refl
drain_loop-stream (suc n) l sent = elim (List-cases l.conn.out_queue) [
  | inl e ↦ simp (e, drain_loop) refl
  | inr (x, q, e) ↦
      let all = carried l.log ++ queued (x ∷ q) in
      let kept : stream l ≡ all = rw e refl in
      let next = drain_loop n (send_chunk x q l) true in
      let more : stream next.0 ≡ all =
        drain_loop-stream n (send_chunk x q l) true ∙ send_chunk-stream x q l in
      simp (e, drain_loop)
        (stream-if all (ltb l.conn.unacked (link_params l).max_window) next (l, sent) more kept)
]

after_drain-stream : (l : Link) (sent : Bool) → stream (after_drain (l, sent)) ≡ stream l
unfolding after_drain cancel_t2 start_t1 cancel_t1 carried
after_drain-stream l true =
    ap (λ (x : List (ℕ × ℕ)). x ++ queued l.conn.out_queue)
      (carried-cancelled l.conn.t1 _ ∙ carried-cancelled l.conn.t2 l.log)
after_drain-stream l false = refl

stream-choice :
    (n : List (ℕ × ℕ)) (b : Bool) (x y : Link)
    → stream x ≡ n
    → stream y ≡ n
    → stream (if b then x else y) ≡ n
stream-choice n true x y p q = p
stream-choice n false x y p q = q

-- Whatever `drainOutbound` sends, the bytes that have gone out in I-frames followed by the bytes
-- that wait in the queue are the same as before, in order and each under its PID.
pub drain_outbound-stream : (l : Link) → stream (drain_outbound l) ≡ stream l
unfolding drain_outbound
drain_outbound-stream l =
    let d = drain_loop (length l.conn.out_queue) l false in
    stream-choice (stream l) l.conn.remote_busy l (after_drain d) refl
      (after_drain-stream d.0 d.1 ∙ drain_loop-stream (length l.conn.out_queue) l false)

-- The chunks of a payload, put together.
abbrev pub joined : List Bytes → Bytes
joined [] = []
joined (c ∷ cs) = c ++ joined cs

chunks-joined : (n : ℕ) (bs : Bytes) → joined (chunks n bs) ≡ bs
unfolding chunks
chunks-joined zero bs = append-nil bs
chunks-joined (suc n) bs = elim (Bool-cases (leb (length bs) max_i_frame_info)) [
  | inl e ↦ rw e (append-nil bs)
  | inr e ↦ rw e (
      ap (λ (x : Bytes). take max_i_frame_info bs ++ x) (chunks-joined n (drop max_i_frame_info bs))
      ∙ take-append-drop max_i_frame_info bs)
]

queued-append : (p q : List OutEntry) → queued (p ++ q) ≡ queued p ++ queued q
unfolding queued
queued-append [] q = refl
queued-append (e ∷ p) q =
    ap (λ (x : List (ℕ × ℕ)). under e.pid e.payload ++ x) (queued-append p q)
    ∙ sym (append_assoc (under e.pid e.payload) (queued p) (queued q))

queued-if :
    (all : List (ℕ × ℕ)) (b : Bool) (x y : List OutEntry × ℕ)
    → (x.1 ≢ 0)
    → ((y.1 ≡ 0) → queued y.0 ≡ all)
    → ((if b then x else y).1 ≡ 0)
    → queued (if b then x else y).0 ≡ all
queued-if all true x y p q h = absurd (p h)
queued-if all false x y p q h = q h

enqueue-queued :
    (pid : ℕ) (cs : List Bytes) (q : List OutEntry)
    → (enqueue pid cs q).1 ≡ 0
    → queued (enqueue pid cs q).0 ≡ queued q ++ under pid (joined cs)
unfolding enqueue queued
enqueue-queued pid [] q = λ h. sym (append-nil (queued q))
enqueue-queued pid (c ∷ cs) q =
    let entry : OutEntry = record { pid = pid; payload = c } in
    queued-if (queued q ++ under pid (joined (c ∷ cs))) (leb max_outbound_queue (length q))
      (q, length (c ∷ cs)) _ (λ e. absurd (omega (arith, e)))
      (λ h.
        enqueue-queued pid cs (q ++ entry ∷ []) h
        ∙ (ap (λ (x : List (ℕ × ℕ)). x ++ under pid (joined cs)) (queued-append q (entry ∷ []))
            ∙ (append_assoc (queued q) (queued (entry ∷ [])) (under pid (joined cs))
                ∙ ap (λ (x : List (ℕ × ℕ)). queued q ++ x)
                    (ap (λ (x : List (ℕ × ℕ)). x ++ under pid (joined cs))
                        (append-nil (under pid c))
                      ∙ sym (under-append pid c (joined cs))))))

-- If `SendData` reports that nothing was dropped, the bytes that have gone out in I-frames followed
-- by the bytes that wait in the queue are those of before followed by the whole payload, under its
-- PID.
pub send_data-stream :
    (pid : ℕ) (payload : Bytes) (l : Link)
    → (send_data pid payload l).1 ≡ 0
    → stream (send_data pid payload l).0 ≡ stream l ++ under pid payload
unfolding send_data
send_data-stream pid payload l h =
    let cs = chunks (length payload) payload in
    let q = (enqueue pid cs l.conn.out_queue).0 in
    drain_outbound-stream (with_conn l (record l.conn { out_queue = q }))
    ∙ (ap (λ (x : List (ℕ × ℕ)). carried l.log ++ x)
          (enqueue-queued pid cs l.conn.out_queue h
            ∙ ap (λ (x : Bytes). queued l.conn.out_queue ++ under pid x)
                (chunks-joined (length payload) payload))
        ∙ sym (append_assoc (carried l.log) (queued l.conn.out_queue) (under pid payload)))
