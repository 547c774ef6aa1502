-- ===== src/Benshi/Frame/RoundTrip.antt =====
-- benshi/frame.go: `Feed` on what `Bytes` writes.
use tncd.Prelude.{
  All, Bytes, List, [], ap, arith, bit_and, drop-append, false, length, length-append, ltb, refl,
  suc, take-append, zero, ℕ, ◌++◌, ◌+◌, ◌-◌, ◌<◌, ◌||◌, ◌∙◌, ◌∷◌, ◌≡◌, ◌≤◌,
}
use tncd.Benshi.Frame.{
  GaiaFrame, collect, complete, frame_start, frame_version, gaia_bytes, gaia_feed, max_frame_data,
  msg_header_len, scan, skip_to_start,
}

-- A frame that can be represented, without the checksum flag.
pub record IsPlainFrame (f : GaiaFrame) : Type 0 where
  pub long : msg_header_len ≤ length f.payload
  pub short : length f.payload ≤ max_frame_data
  pub unchecked : bit_and f.flags 1 ≡ 0

abbrev pub all_bytes : List GaiaFrame → Bytes
all_bytes [] = []
all_bytes (f ∷ fs) = gaia_bytes f ++ all_bytes fs

scan_frame :
    (f : GaiaFrame) (rest : Bytes)
    → IsPlainFrame f
    → scan (
        frame_start
        ∷ frame_version
        ∷ f.flags
        ∷ (length f.payload - msg_header_len)
        ∷ (f.payload ++ rest))
      ≡ complete f rest
unfolding scan
scan_frame f rest v =
    let whole : length f.payload - msg_header_len + msg_header_len ≡ length f.payload =
      omega (arith, v.long) in
    let enough : ltb (length (f.payload ++ rest)) (length f.payload) ≡ false =
      ground (arith, length-append f.payload rest) in
    let none : length f.payload + 0 ≡ length f.payload = omega arith in
    rw (v.unchecked, whole, none, enough, take-append f.payload rest, drop-append f.payload rest)
      refl

gaia_bytes_plain :
    (f : GaiaFrame)
    → IsPlainFrame f
    → gaia_bytes f
      ≡ frame_start ∷ frame_version ∷ f.flags ∷ (length f.payload - msg_header_len) ∷ f.payload
unfolding gaia_bytes
gaia_bytes_plain f v =
    let fits : (ltb (length f.payload) msg_header_len || ltb max_frame_data (length f.payload))
        ≡ false =
      ground (arith, v.long, v.short) in
    rw fits refl

collect_frame :
    (n : ℕ) (f : GaiaFrame) (rest : Bytes)
    → IsPlainFrame f
    → collect (suc n) (gaia_bytes f ++ rest) ≡ (f ∷ (collect n rest).0, (collect n rest).1)
unfolding collect skip_to_start
collect_frame n f rest v = rw (gaia_bytes_plain f v) (rw (scan_frame f rest v, collect) refl)

collect-all_bytes :
    (n : ℕ) (fs : List GaiaFrame)
    → length fs < n
    → All IsPlainFrame fs
    → collect n (all_bytes fs) ≡ (fs, [])
unfolding collect skip_to_start scan
collect-all_bytes zero fs h v = absurd (omega arith)
collect-all_bytes (suc n) [] h v = refl
collect-all_bytes (suc n) (f ∷ fs) h (k, v) =
    collect_frame n f (all_bytes fs) k
    ∙ ap (λ (r : List GaiaFrame × Bytes). (f ∷ r.0, r.1)) (collect-all_bytes n fs (omega arith) v)

length-all_bytes : (fs : List GaiaFrame) → All IsPlainFrame fs → length fs ≤ length (all_bytes fs)
length-all_bytes [] v = omega arith
length-all_bytes (f ∷ fs) (k, v) =
    let head = gaia_bytes_plain f k in
    rw head (omega (arith, length-all_bytes fs v, length-append f.payload (all_bytes fs)))

-- From an empty buffer, `Feed` of any number of frames written one after the other returns exactly
-- these frames, in order, and leaves the buffer empty, if none has the checksum flag and the data of
-- each has 4 to 259 bytes.
pub gaia_feed-all_bytes :
    (fs : List GaiaFrame) → All IsPlainFrame fs → gaia_feed [] (all_bytes fs) ≡ (fs, [])
unfolding gaia_feed
gaia_feed-all_bytes fs v =
    collect-all_bytes (suc (length (all_bytes fs))) fs (omega (arith, length-all_bytes fs v)) v
