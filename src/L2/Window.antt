-- ===== src/L2/Window.antt =====
-- ax25/l2/l2.go, `drainOutbound`: the window on unacknowledged I-frames.
use tncd.Prelude.{
  Bool, Bool-cases, List, List-cases, Option, [], ap, arith, false, if◌then◌else◌, inl, inr, insert,
  length, ltb, max, none, refl, some, suc, true, zero, ℕ, ◌%◌, ◌&&◌, ◌+◌, ◌<◌, ◌==◌, ◌||◌, ◌∙◌, ◌∷◌,
  ◌≡◌, ◌≤◌,
}
use tncd.Ax25.Frame.{Frame, bytes, is_i, is_s}
use tncd.L2.State.{Conn, ConnKey, Effect, OutEntry, cancelled, frame_of, send_ax25, stamped, update}
use tncd.L2.Links.{
  Link, cancel_t1, cancel_t2, i_frame_of, link_params, send_frame, start_t1, with_conn,
}
use tncd.L2.Outbound.{after_drain, coalesce, drain_loop, drain_outbound, send_chunk, seq_next}

abbrev pub window : Link → ℕ
window l = (link_params l).max_window

unacked-if :
    (n : ℕ) (b : Bool) (x y : Link × Bool)
    → (b ≡ true → x.0.conn.unacked ≤ n)
    → y.0.conn.unacked ≤ n
    → (if b then x else y).0.conn.unacked ≤ n
unacked-if n true x y p q = p refl
unacked-if n false x y p q = q

drain_loop-window :
    (n : ℕ) (l : Link) (sent : Bool)
    → (drain_loop n l sent).0.conn.unacked ≤ max l.conn.unacked (window l)
unfolding drain_loop send_chunk send_frame
drain_loop-window zero l sent = omega arith
drain_loop-window (suc n) l sent = elim (List-cases l.conn.out_queue) [
  | inl e ↦ simp (e, drain_loop) (omega arith)
  | inr (x, q, e) ↦
      simp (e, drain_loop)
        (unacked-if (max l.conn.unacked (window l)) (ltb l.conn.unacked (window l)) _ (l, sent)
          (λ t. ground (arith, drain_loop-window n (send_chunk x q l) true)) (omega arith))
]

after_drain-unacked :
    (l : Link) (sent : Bool) → (after_drain (l, sent)).conn.unacked ≡ l.conn.unacked
unfolding after_drain cancel_t2 start_t1 cancel_t1
after_drain-unacked l true = refl
after_drain-unacked l false = refl

choice-unacked :
    (n : ℕ) (b : Bool) (x y : Link)
    → x.conn.unacked ≤ n
    → y.conn.unacked ≤ n
    → (if b then x else y).conn.unacked ≤ n
choice-unacked n true x y p q = p
choice-unacked n false x y p q = q

-- One for an I-frame.
abbrev is_one : Frame → ℕ
is_one f = if is_i f.type then 1 else 0

-- The I-frames that a log has sent.
unfoldable pub i_frames : List Effect → ℕ
i_frames [] = 0
i_frames (send_ax25 _ f ∷ log) = is_one f + i_frames log
i_frames (_ ∷ log) = i_frames log

i_frames-cancelled : (o : Option ℕ) (log : List Effect) → i_frames (cancelled o log) ≡ i_frames log
unfolding i_frames
i_frames-cancelled none log = refl
i_frames-cancelled (some id) log = refl

is_one-stamped :
    (heap : ℕ → Conn) (conns : List (ConnKey × ℕ)) (port : ℕ) (f : Frame)
    → is_one (stamped heap conns port f) ≡ is_one f
unfolding stamped
is_one-stamped heap conns port f =
    elim (Bool-cases (f.modulo == 0 && (is_i f.type || is_s f.type))) [
      | inl e ↦ rw e refl
      | inr e ↦ rw e refl
    ]

i_frames-send_frame :
    (port : ℕ) (f : Frame) (l : Link)
    → i_frames (send_frame port f l).log ≡ is_one f + i_frames l.log
unfolding send_frame i_frames
i_frames-send_frame port f l =
    ap (λ n. n + i_frames l.log)
      (is_one-stamped (update l.table.heap l.self l.conn) l.table.conns port f)

i_frames-after_drain :
    (l : Link) (sent : Bool) → i_frames (after_drain (l, sent)).log ≡ i_frames l.log
unfolding after_drain cancel_t2 start_t1 cancel_t1 i_frames
i_frames-after_drain l true =
    i_frames-cancelled l.conn.t1 (cancelled l.conn.t2 l.log) ∙ i_frames-cancelled l.conn.t2 l.log
i_frames-after_drain l false = refl

-- As many I-frames went out as the number of unacknowledged ones has grown by.
abbrev Counts : Link → Link → Type 0
Counts l m = i_frames m.log + l.conn.unacked ≡ i_frames l.log + m.conn.unacked

Counts-if :
    (l : Link) (b : Bool) (x y : Link × Bool)
    → (b ≡ true → Counts l x.0)
    → Counts l y.0
    → Counts l (if b then x else y).0
Counts-if l true x y p q = p refl
Counts-if l false x y p q = q

window_kept :
    (x : OutEntry) (q : List OutEntry) (l : Link) → window l < 256 → window (send_chunk x q l) < 256
unfolding send_chunk send_frame
window_kept x q l h = h

send_chunk-Counts :
    (x : OutEntry) (q : List OutEntry) (l : Link)
    → l.conn.unacked < 255
    → Counts l (send_chunk x q l)
unfolding send_chunk i_frame_of frame_of i_frames send_frame
send_chunk-Counts x q l h =
    let (chunk, rest) = coalesce x.pid x.payload q in
    let c = l.conn in
    let f = i_frame_of c c.send_seq x.pid chunk in
    let m = with_conn l (record c {
      out_queue = rest;
      retransmit_buf = insert c.send_seq (bytes f) c.retransmit_buf;
      iframe_timestamps = insert c.send_seq l.table.now c.iframe_timestamps;
      send_seq = seq_next c.modulo c.send_seq;
      unacked = (c.unacked + 1) % 256;
    }) in
    let e = i_frames-send_frame c.port f m in omega (arith, e)

drain_loop-Counts :
    (n : ℕ) (l : Link) (sent : Bool) → window l < 256 → Counts l (drain_loop n l sent).0
unfolding drain_loop
drain_loop-Counts zero l sent h = refl
drain_loop-Counts (suc n) l sent h = elim (List-cases l.conn.out_queue) [
  | inl e ↦ simp (e, drain_loop) refl
  | inr (x, q, e) ↦
      let next = drain_loop n (send_chunk x q l) true in
      simp (e, drain_loop)
        (Counts-if l (ltb l.conn.unacked (window l)) next (l, sent)
          (λ t.
            let one = send_chunk-Counts x q l (ground (arith, t)) in
            let more = drain_loop-Counts n (send_chunk x q l) true (window_kept x q l h) in
            omega (arith, one, more))
          refl)
]

after_drain-Counts : (l m : Link) (sent : Bool) → Counts l m → Counts l (after_drain (m, sent))
after_drain-Counts l m sent c =
    let a = i_frames-after_drain m sent in let b = after_drain-unacked m sent in omega (arith, a, b)

choice-Counts : (l : Link) (b : Bool) (x : Link) → Counts l x → Counts l (if b then l else x)
choice-Counts l true x c = refl
choice-Counts l false x c = c

-- For a window below 256, `drainOutbound` puts as many I-frames on the air as the number of
-- unacknowledged ones grows by, and it sends only as long as fewer than the port's window are
-- unacknowledged: afterwards there are at most as many as the window, or as there were before.
pub drain_outbound-window :
    (l : Link)
    → window l < 256
    → (i_frames (drain_outbound l).log + l.conn.unacked
        ≡ i_frames l.log + (drain_outbound l).conn.unacked)
      × ((drain_outbound l).conn.unacked ≤ max l.conn.unacked (window l))
unfolding drain_outbound
drain_outbound-window l h =
    let d = drain_loop (length l.conn.out_queue) l false in
    (
      choice-Counts l l.conn.remote_busy (after_drain d)
          (after_drain-Counts l d.0 d.1 (drain_loop-Counts (length l.conn.out_queue) l false h)),
      choice-unacked (max l.conn.unacked (window l)) l.conn.remote_busy l (after_drain d)
          (omega arith)
          (omega (
            arith,
            after_drain-unacked d.0 d.1,
            drain_loop-window (length l.conn.out_queue) l false,
          )),
    )
