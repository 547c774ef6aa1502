-- ===== src/Kiss/Demux/Routing.antt =====
-- kiss/demux.go: `Feed` on the streams of a port: KISS frames alone, and KISS frames between frames
-- of the rig control protocol.
use tncd.Prelude.{Bytes, List, false, length, ◌≡◌}
use tncd.Kiss.Framing.{Decoder}
use tncd.Kiss.Demux.{Demux}

-- No candidate for a control frame is open, and the bytes that `scan` drops mean nothing to the
-- decoder.
abbrev pub IsQuiet : Demux → Type 0
IsQuiet d =
    (length d.gaia_buf ≡ 0)
    × (d.in_kiss ≡ false → d.shared_fend ≡ false → d.kiss_dec.in_frame ≡ false)

-- What a byte did is what it does to a decoder alone.
abbrev Follows : Demux → Decoder × List Bytes → Demux × List Bytes → Type 0
Follows d alone both =
    (both.0.kiss_dec ≡ alone.0) × (both.1 ≡ alone.1) × (both.0.ctrl ≡ d.ctrl) × IsQuiet both.0
