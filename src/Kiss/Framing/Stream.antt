-- ===== src/Kiss/Framing/Stream.antt =====
-- kiss/framing.go: `Decoder.Feed` over a stream of reads.
use tncd.Prelude.{
  ℕ, ◌≤◌, ◌<◌, [], ◌∷◌, ◌++◌, Bytes, length, length-append, ◌≡◌, refl, arith, append_assoc, All,
  All-append,
}
use tncd.Kiss.Framing.{
  Decoder, max_frame_size, append_byte, unescape_byte, closed_frame, feed_byte, feed,
}

-- Feeding a stream in two reads gives the decoder and the frames of feeding it in one.
pub feed-append :
    (d : Decoder) (p q : Bytes)
    → feed d (p ++ q) ≡ ((feed (feed d p).0 q).0, (feed d p).1 ++ (feed (feed d p).0 q).1)
unfolding feed
feed-append d [] q = refl
feed-append d (b ∷ p) q = rw (feed-append (feed_byte d b).0 p q) (rw append_assoc)

abbrev pub IsBounded : Decoder → Type 0
IsBounded d = length d.buf ≤ max_frame_size

abbrev pub IsFrame : Bytes → Type 0
IsFrame f = (0 < length f) × (length f ≤ max_frame_size)

closed_frame-IsFrame : (b : Bytes) → length b ≤ max_frame_size → All IsFrame (closed_frame b)
unfolding closed_frame
closed_frame-IsFrame [] h = tt
closed_frame-IsFrame (x ∷ b) h = ((omega arith, h), tt)

append_byte-IsBounded : (d : Decoder) (b : ℕ) → IsBounded d → IsBounded (append_byte d b)
unfolding append_byte
append_byte-IsBounded d b h = ground (arith, length-append d.buf (b ∷ []))

feed_byte-IsBounded : (d : Decoder) (b : ℕ) → IsBounded d → IsBounded (feed_byte d b).0
unfolding feed_byte
feed_byte-IsBounded d b h =
    ground (arith, length-append d.buf (b ∷ []), length-append d.buf (unescape_byte b ∷ []))

feed_byte-IsFrame : (d : Decoder) (b : ℕ) → IsBounded d → All IsFrame (feed_byte d b).1
unfolding feed_byte
feed_byte-IsFrame d b h = ground (arith, closed_frame-IsFrame d.buf h)

-- From a bounded buffer, whatever arrives, the buffer stays within `MaxFrameSize`, and each frame
-- delivered has at least one byte and at most `MaxFrameSize`.
pub feed-IsBounded :
    (d : Decoder) (bs : Bytes) → IsBounded d → IsBounded (feed d bs).0 × All IsFrame (feed d bs).1
unfolding feed
feed-IsBounded d [] h = (h, tt)
feed-IsBounded d (b ∷ bs) h =
    let rest = feed-IsBounded (feed_byte d b).0 bs (feed_byte-IsBounded d b h) in
    (rest.0, All-append IsFrame (feed_byte d b).1 _ (feed_byte-IsFrame d b h) rest.1)
