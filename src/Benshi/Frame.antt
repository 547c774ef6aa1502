-- ===== src/Benshi/Frame.antt =====
-- benshi/frame.go: frames around messages. `Feed` appends to its buffer and then scans it; the
-- scan's rounds each take a byte at least.
pub mod RoundTrip
use tncd.Prelude.{
  Bytes, List, [], bit_and, drop, if◌then◌else◌, length, ltb, suc, take, zero, ℕ, ◌++◌, ◌+◌, ◌-◌,
  ◌==◌, ◌||◌, ◌∷◌,
}

abbrev pub frame_start : ℕ
frame_start = 0xFF

abbrev pub frame_version : ℕ
frame_version = 0x01

abbrev pub msg_header_len : ℕ
msg_header_len = 4

abbrev pub max_frame_data : ℕ
max_frame_data = 255 + msg_header_len

pub record GaiaFrame : Type 0 where
  pub flags : ℕ
  pub payload : Bytes

-- `Frame.Bytes`, with nil for what cannot be represented.
unfoldable pub gaia_bytes : GaiaFrame → Bytes
gaia_bytes f =
    if ltb (length f.payload) msg_header_len || ltb max_frame_data (length f.payload)
    then []
    else frame_start ∷ frame_version ∷ f.flags ∷ (length f.payload - msg_header_len) ∷ f.payload

unfoldable pub skip_to_start : Bytes → Bytes
skip_to_start [] = []
skip_to_start (b ∷ bs) = let rest = skip_to_start bs in if b == frame_start then b ∷ bs else rest

-- A round of the loop behind a start byte: more bytes are needed, or the start byte was a false one,
-- or a frame is complete.
pub data Scan : Type 0 where
  more_needed : Scan
  false_start : Bytes → Scan
  complete : GaiaFrame → Bytes → Scan

abbrev pub checksum_len : ℕ → ℕ
checksum_len flags = if bit_and flags 1 == 0 then 0 else 1

unfoldable pub scan : Bytes → Scan
scan (start ∷ version ∷ flags ∷ n ∷ rest) =
    if version == frame_version
    then (if ltb (length rest) (n + msg_header_len + checksum_len flags)
        then more_needed
        else complete (record { flags = flags; payload = take (n + msg_header_len) rest })
            (drop (n + msg_header_len + checksum_len flags) rest))
    else false_start (version ∷ flags ∷ n ∷ rest)
scan _ = more_needed

unfoldable pub collect : ℕ → Bytes → List GaiaFrame × Bytes
unfolding skip_to_start scan
collect zero buf = ([], buf)
collect (suc fuel) buf =
    let b = skip_to_start buf in
    elim (scan b) [
      | more_needed ↦ ([], b)
      | false_start rest ↦ collect fuel rest
      | complete f rest ↦ let (fs, left) = collect fuel rest in (f ∷ fs, left)
    ]

-- `Decoder.Feed`: the frames and the buffer that is left.
unfoldable pub gaia_feed : Bytes → Bytes → List GaiaFrame × Bytes
unfolding collect
gaia_feed buf p = collect (suc (length (buf ++ p))) (buf ++ p)
