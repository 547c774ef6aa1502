-- ===== src/Kiss/Framing.antt =====
-- kiss/framing.go. A byte is a number below 256. `Feed` is a loop over the bytes with the decoder
-- as its state; the frames it returns are collected by the loop.
pub mod Stream
pub mod RoundTrip
use tncd.Prelude.{
  ℕ, ◌+◌, ◌*◌, ◌%◌, bit_or, Bool, true, false, List, [], ◌∷◌, ◌++◌, Bytes, length, leb, ◌==◌,
  if◌then◌else◌,
}

abbrev pub fend : ℕ
fend = 0xC0

abbrev pub fesc : ℕ
fesc = 0xDB

abbrev pub tfend : ℕ
tfend = 0xDC

abbrev pub tfesc : ℕ
tfesc = 0xDD

-- The loop body that escapes one byte; the three builders share it.
unfoldable pub escape_byte : ℕ → Bytes
escape_byte b =
    if b == fend then fesc ∷ tfend ∷ [] else if b == fesc then fesc ∷ tfesc ∷ [] else b ∷ []

unfoldable pub escape : Bytes → Bytes
escape [] = []
escape (b ∷ bs) = escape_byte b ++ escape bs

-- `kissPort << 4` on a uint8.
unfoldable pub wrap_data : ℕ → Bytes → Bytes
wrap_data kiss_port frame = fend ∷ (kiss_port * 16 % 256) ∷ (escape frame ++ fend ∷ [])

unfoldable pub wrap_command : ℕ → ℕ → ℕ → Bytes
wrap_command kiss_port cmd value =
    fend ∷ bit_or (kiss_port * 16 % 256) cmd ∷ (escape_byte value ++ fend ∷ [])

unfoldable pub wrap_command_bytes : ℕ → ℕ → Bytes → Bytes
wrap_command_bytes kiss_port cmd value =
    fend ∷ bit_or (kiss_port * 16 % 256) cmd ∷ (escape value ++ fend ∷ [])

unfoldable pub exit_frame : Bytes
exit_frame = 0xC0 ∷ 0xFF ∷ 0xC0 ∷ []

abbrev pub max_frame_size : ℕ
max_frame_size = 8192

pub record Decoder : Type 0 where
  pub buf : Bytes
  pub in_frame : Bool
  pub esc : Bool
  pub dropped_oversize : ℕ

abbrev pub new_decoder : Decoder
new_decoder = record { buf = []; in_frame = false; esc = false; dropped_oversize = 0 }

-- The end of the loop body: one data byte under the size cap. The counter is a uint64.
unfoldable pub append_byte : Decoder → ℕ → Decoder
append_byte d b =
    if leb max_frame_size (length d.buf)
    then record d {
      buf = [];
      in_frame = false;
      esc = false;
      dropped_oversize = (d.dropped_oversize + 1) % 18446744073709551616;
    }
    else record d { buf = d.buf ++ b ∷ [] }

unfoldable pub unescape_byte : ℕ → ℕ
unescape_byte b = if b == tfend then fend else if b == tfesc then fesc else b

-- `if len(d.buf) > 0 { frames = append(frames, copy of d.buf) }`
unfoldable pub closed_frame : Bytes → List Bytes
closed_frame [] = []
closed_frame (b ∷ bs) = (b ∷ bs) ∷ []

-- One round of the loop: the decoder, and the frame that the byte completes.
unfoldable pub feed_byte : Decoder → ℕ → Decoder × List Bytes
unfolding append_byte unescape_byte closed_frame
feed_byte d b =
    if d.in_frame
    then (if d.esc
        then (append_byte (record d { esc = false }) (unescape_byte b), [])
        else if b == fesc
        then (record d { esc = true }, [])
        else if b == fend
        then (record d { buf = [] }, closed_frame d.buf)
        else (append_byte d b, []))
    else if b == fend
    then (record d { in_frame = true; buf = []; esc = false }, [])
    else (d, [])

unfoldable pub feed : Decoder → Bytes → Decoder × List Bytes
unfolding feed_byte
feed d [] = (d, [])
feed d (b ∷ bs) = let (e, now) = feed_byte d b in let (f, later) = feed e bs in (f, now ++ later)
