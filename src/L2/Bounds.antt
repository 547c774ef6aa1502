-- ===== src/L2/Bounds.antt =====
-- ax25/l2/l2.go: the bounds of the sending half, on the queue and on the size of an I-frame.
use tncd.Prelude.{
  All, All-append, Bool, Bool-cases, Bytes, List, List-cases, Option, [], arith, drop, false,
  if◌then◌else◌, inl, inr, insert, leb, length, length-append, length-drop, length-take, ltb, none,
  refl, some, suc, true, zero, ℕ, ◌%◌, ◌&&◌, ◌++◌, ◌+◌, ◌==◌, ◌||◌, ◌∷◌, ◌≡◌, ◌≤◌,
}
use tncd.Ax25.Frame.{Frame, bytes, is_i, is_s}
use tncd.L2.State.{
  Conn, ConnKey, Effect, OutEntry, cancelled, frame_of, max_i_frame_info, max_outbound_queue,
  send_ax25, stamped, update,
}
use tncd.L2.Links.{
  Link, cancel_t1, cancel_t2, i_frame_of, link_params, send_frame, start_t1, with_conn,
}
use tncd.L2.Outbound.{
  after_drain, chunks, coalesce, drain_loop, drain_outbound, enqueue, send_chunk, send_data,
  seq_next,
}

-- The bytes that an I-frame carries.
abbrev info_of : Frame → Bytes
info_of f = if is_i f.type then f.info else []

abbrev pub SentFits : Effect → Type 0
SentFits (send_ax25 _ f) = length (info_of f) ≤ max_i_frame_info
SentFits _ = Unit

abbrev pub EntryFits : OutEntry → Type 0
EntryFits e = length e.payload ≤ max_i_frame_info

-- No I-frame carries more than 256 bytes, no entry of the queue does, and the queue has at most 512.
pub record IsTidy (l : Link) : Type 0 where
  pub sent : All SentFits l.log
  pub entries : All EntryFits l.conn.out_queue
  pub short : length l.conn.out_queue ≤ max_outbound_queue

info_of-stamped :
    (heap : ℕ → Conn) (conns : List (ConnKey × ℕ)) (port : ℕ) (f : Frame)
    → info_of (stamped heap conns port f) ≡ info_of f
unfolding stamped
info_of-stamped heap conns port f =
    elim (Bool-cases (f.modulo == 0 && (is_i f.type || is_s f.type))) [
      | inl e ↦ rw e refl
      | inr e ↦ rw e refl
    ]

-- What `coalesce` takes from the queue fits into one I-frame.
Coalesced : List OutEntry → Bytes × List OutEntry → Type 0
Coalesced q r = (length r.0 ≤ max_i_frame_info) × (All EntryFits r.1 × (length r.1 ≤ length q))

Coalesced-if :
    (q : List OutEntry) (b : Bool) (x y : Bytes × List OutEntry)
    → (b ≡ true → Coalesced q x)
    → Coalesced q y
    → Coalesced q (if b then x else y)
Coalesced-if q true x y p r = p refl
Coalesced-if q false x y p r = r

coalesce-Coalesced :
    (pid : ℕ) (chunk : Bytes) (q : List OutEntry)
    → length chunk ≤ max_i_frame_info
    → All EntryFits q
    → Coalesced q (coalesce pid chunk q)
unfolding coalesce Coalesced
coalesce-Coalesced pid chunk [] h k = (h, (k, omega arith))
coalesce-Coalesced pid chunk (e ∷ q) h (k, ks) =
    Coalesced-if (e ∷ q)
      (ltb (length chunk) max_i_frame_info
        && (e.pid == pid && leb (length chunk + length e.payload) max_i_frame_info))
      _ (chunk, e ∷ q)
      (λ t.
        let more =
          coalesce-Coalesced pid (chunk ++ e.payload) q
            (ground (arith, length-append chunk e.payload)) ks in
        (more.0, (more.1.0, omega (arith, more.1.1))))
      (h, ((k, ks), omega arith))

send_frame-sent :
    (port : ℕ) (f : Frame) (l : Link)
    → length (info_of f) ≤ max_i_frame_info
    → All SentFits l.log
    → All SentFits (send_frame port f l).log
unfolding send_frame
send_frame-sent port f l h s =
    (rw (info_of-stamped (update l.table.heap l.self l.conn) l.table.conns port f) h, s)

send_chunk-IsTidy :
    (e : OutEntry) (q : List OutEntry) (l : Link)
    → All SentFits l.log
    → All EntryFits (e ∷ q)
    → length (e ∷ q) ≤ max_outbound_queue
    → IsTidy (send_chunk e q l)
unfolding send_chunk send_frame i_frame_of frame_of Coalesced
send_chunk-IsTidy e q l s (h, hs) k =
    let c = coalesce-Coalesced e.pid e.payload q h hs in
    let f = i_frame_of l.conn l.conn.send_seq e.pid (coalesce e.pid e.payload q).0 in
    let m = with_conn l (record l.conn {
      out_queue = (coalesce e.pid e.payload q).1;
      retransmit_buf = insert l.conn.send_seq (bytes f) l.conn.retransmit_buf;
      iframe_timestamps = insert l.conn.send_seq l.table.now l.conn.iframe_timestamps;
      send_seq = seq_next l.conn.modulo l.conn.send_seq;
      unacked = (l.conn.unacked + 1) % 256;
    }) in
    record {
      sent = send_frame-sent l.conn.port f m c.0 s;
      entries = c.1.0;
      short = omega (arith, c.1.1);
    }

IsTidy-pair :
    (b : Bool) (x y : Link × Bool) → IsTidy x.0 → IsTidy y.0 → IsTidy (if b then x else y).0
IsTidy-pair true x y p q = p
IsTidy-pair false x y p q = q

IsTidy-if : (b : Bool) (x y : Link) → IsTidy x → IsTidy y → IsTidy (if b then x else y)
IsTidy-if true x y p q = p
IsTidy-if false x y p q = q

drain_loop-IsTidy : (n : ℕ) (l : Link) (sent : Bool) → IsTidy l → IsTidy (drain_loop n l sent).0
unfolding drain_loop
drain_loop-IsTidy zero l sent v = v
drain_loop-IsTidy (suc n) l sent v = elim (List-cases l.conn.out_queue) [
  | inl e ↦ simp (e, drain_loop) v
  | inr (x, q, e) ↦
      let entries : All EntryFits (x ∷ q) = rw e at v.entries in
      let short : length (x ∷ q) ≤ max_outbound_queue = rw e at v.short in
      simp (e, drain_loop)
        (IsTidy-pair (ltb l.conn.unacked (link_params l).max_window) _ (l, sent)
          (drain_loop-IsTidy n _ true (send_chunk-IsTidy x q l v.sent entries short)) v)
]

All-cancelled :
    (o : Option ℕ) (log : List Effect) → All SentFits log → All SentFits (cancelled o log)
All-cancelled none log h = h
All-cancelled (some id) log h = (tt, h)

after_drain-IsTidy : (l : Link) (sent : Bool) → IsTidy l → IsTidy (after_drain (l, sent))
unfolding after_drain cancel_t2 start_t1 cancel_t1
after_drain-IsTidy l true v = record {
  sent = (tt, All-cancelled l.conn.t1 _ (All-cancelled l.conn.t2 l.log v.sent));
  entries = v.entries;
  short = v.short;
}
after_drain-IsTidy l false v = v

drain_outbound-IsTidy : (l : Link) → IsTidy l → IsTidy (drain_outbound l)
unfolding drain_outbound
drain_outbound-IsTidy l v =
    let d = drain_loop (length l.conn.out_queue) l false in
    IsTidy-if l.conn.remote_busy l (after_drain d) v
      (after_drain-IsTidy d.0 d.1 (drain_loop-IsTidy (length l.conn.out_queue) l false v))

chunks-fit :
    (n : ℕ) (bs : Bytes)
    → length bs ≤ n
    → All (λ (c : Bytes). length c ≤ max_i_frame_info) (chunks n bs)
unfolding chunks
chunks-fit zero bs h = (omega arith, tt)
chunks-fit (suc n) bs h = elim (Bool-cases (leb (length bs) max_i_frame_info)) [
  | inl e ↦ rw e (ground arith, tt)
  | inr e ↦ rw e (
    omega (arith, length-take max_i_frame_info bs),
    chunks-fit n (drop max_i_frame_info bs) (omega (arith, length-drop max_i_frame_info bs)),
  )
]

TidyQueue : List OutEntry × ℕ → Type 0
TidyQueue r = All EntryFits r.0 × (length r.0 ≤ max_outbound_queue)

TidyQueue-if :
    (b : Bool) (x y : List OutEntry × ℕ)
    → TidyQueue x
    → (b ≡ false → TidyQueue y)
    → TidyQueue (if b then x else y)
TidyQueue-if true x y p q = p
TidyQueue-if false x y p q = q refl

enqueue-TidyQueue :
    (pid : ℕ) (cs : List Bytes) (q : List OutEntry)
    → All (λ (c : Bytes). length c ≤ max_i_frame_info) cs
    → All EntryFits q
    → length q ≤ max_outbound_queue
    → TidyQueue (enqueue pid cs q)
unfolding enqueue TidyQueue
enqueue-TidyQueue pid [] q h k s = (k, s)
enqueue-TidyQueue pid (c ∷ cs) q (h, hs) k s =
    let entry : OutEntry = record { pid = pid; payload = c } in
    TidyQueue-if (leb max_outbound_queue (length q)) (q, length (c ∷ cs)) _ (k, s)
      (λ e.
        enqueue-TidyQueue pid cs (q ++ entry ∷ []) hs
          (All-append EntryFits q (entry ∷ []) k (h, tt))
          (ground (arith, length-append q (entry ∷ []))))

-- `SendData`, whatever it is given, keeps a link on which no I-frame sent and no entry of the queue
-- has more than 256 bytes and the queue at most 512 entries such a link.
pub send_data-IsTidy :
    (pid : ℕ) (payload : Bytes) (l : Link) → IsTidy l → IsTidy (send_data pid payload l).0
unfolding send_data TidyQueue
send_data-IsTidy pid payload l v =
    let cs = chunks (length payload) payload in
    let q =
      enqueue-TidyQueue pid cs l.conn.out_queue (chunks-fit (length payload) payload (omega arith))
        v.entries v.short in
    drain_outbound-IsTidy
      (with_conn l (record l.conn { out_queue = (enqueue pid cs l.conn.out_queue).0 }))
      (record { sent = v.sent; entries = q.0; short = q.1 })
