-- ===== src/Kiss/Framing/RoundTrip.antt =====
-- kiss/framing.go: `Decoder.Feed` on what the three builders write.
use tncd.Prelude.{
  ==_iff, Bytes, List, [], all_below, all_below_sound, ap, append-nil, append_assoc, arith, bit_or,
  false, length, length-append, refl, true, ℕ, ◌%◌, ◌*◌, ◌++◌, ◌+◌, ◌<◌, ◌==◌, ◌∙◌, ◌∷◌, ◌≡◌, ◌≢◌,
  ◌≤◌,
}
use tncd.Kiss.Framing.Stream.{feed-append}
use tncd.Kiss.Framing.{
  Decoder, closed_frame, escape, escape_byte, feed, feed_byte, fend, fesc, max_frame_size,
  wrap_command_bytes, wrap_data,
}

-- A decoder inside a frame and outside an escape.
abbrev reading : Decoder → Bytes → Decoder
reading d buf = record d { buf = buf; in_frame = true; esc = false }

feed-escape_byte :
    (d : Decoder) (buf : Bytes) (b : ℕ)
    → length buf < max_frame_size
    → feed (reading d buf) (escape_byte b) ≡ (reading d (buf ++ b ∷ []), [])
unfolding feed feed_byte escape_byte
feed-escape_byte d buf b h = ground arith

feed-escape :
    (d : Decoder) (buf bs : Bytes)
    → length buf + length bs ≤ max_frame_size
    → feed (reading d buf) (escape bs) ≡ (reading d (buf ++ bs), [])
unfolding escape
feed-escape d buf [] h = rw append-nil (unfold feed in refl)
feed-escape d buf (b ∷ bs) h = rw (
  feed-append,
  feed-escape_byte d buf b (omega arith),
  feed-escape d (buf ++ b ∷ []) bs (omega (arith, length-append buf (b ∷ []))),
  append_assoc,
)

feed_cmd :
    (d : Decoder) (cmd : ℕ)
    → cmd ≢ fend
    → cmd ≢ fesc
    → feed (reading d []) (cmd ∷ []) ≡ (reading d (cmd ∷ []), [])
unfolding feed feed_byte
feed_cmd d cmd h k = ground arith

feed-fend :
    (d : Decoder) (buf : Bytes)
    → feed (reading d buf) (fend ∷ []) ≡ (reading d [], closed_frame buf)
unfolding feed feed_byte
feed-fend d buf = rw append-nil

feed-payload :
    (d : Decoder) (buf bs : Bytes)
    → length buf + length bs ≤ max_frame_size
    → feed (reading d buf) (escape bs ++ fend ∷ []) ≡ (reading d [], closed_frame (buf ++ bs))
feed-payload d buf bs h = rw (feed-append, feed-escape d buf bs h, feed-fend)

-- The body of a frame: a command byte that is neither FEND nor FESC, the escaped payload, FEND.
feed-body :
    (d : Decoder) (cmd : ℕ) (payload : Bytes)
    → cmd ≢ fend
    → cmd ≢ fesc
    → length payload < max_frame_size
    → feed (reading d []) (cmd ∷ (escape payload ++ fend ∷ []))
      ≡ (reading d [], (cmd ∷ payload) ∷ [])
feed-body d cmd payload h k fits =
    feed-append (reading d []) (cmd ∷ []) (escape payload ++ fend ∷ [])
    ∙ rw (feed_cmd d cmd h k)
        (rw (feed-payload d (cmd ∷ []) payload (omega arith)) (unfold closed_frame in refl))

-- What the FEND that opens a frame completes: the frame that was being read, if any.
abbrev pub pending : Decoder → List Bytes
pending d = (feed d (fend ∷ [])).1

feed_open : (d : Decoder) → d.esc ≡ false → feed d (fend ∷ []) ≡ (reading d [], pending d)
unfolding feed feed_byte
feed_open d h = ground arith

feed_frame :
    (d : Decoder) (cmd : ℕ) (payload : Bytes)
    → d.esc ≡ false
    → cmd ≢ fend
    → cmd ≢ fesc
    → length payload < max_frame_size
    → feed d (fend ∷ cmd ∷ (escape payload ++ fend ∷ []))
      ≡ (reading d [], pending d ++ (cmd ∷ payload) ∷ [])
feed_frame d cmd payload e h k fits =
    feed-append d (fend ∷ []) (cmd ∷ (escape payload ++ fend ∷ []))
    ∙ rw (feed_open d e, feed-body d cmd payload h k fits)

-- On a decoder that is not inside an escape, `Feed` of what `WrapData` builds returns, after any
-- frame the opening FEND completes, the command byte and the payload as they were given, if the
-- port is below 16 and not 12 and the payload is shorter than `MaxFrameSize`; the decoder then
-- waits for the next frame with an empty buffer.
pub feed-wrap_data :
    (d : Decoder) (port : ℕ) (payload : Bytes)
    → d.esc ≡ false
    → port < 16
    → port ≢ 12
    → length payload < max_frame_size
    → feed d (wrap_data port payload) ≡ (
      record d { buf = []; in_frame = true; esc = false },
      pending d ++ (port * 16 ∷ payload) ∷ [],
    )
unfolding wrap_data
feed-wrap_data d port payload e h k fits =
    let small : port * 16 % 256 ≡ port * 16 = omega arith in
    rw small (feed_frame d (port * 16) payload e (omega arith) (omega arith) fits)

fend_resets-esc : (d : Decoder) → (feed d (fend ∷ [])).0.esc ≡ false
unfolding feed feed_byte
fend_resets-esc d = ground arith

-- Whatever state the decoder is in, one FEND and then a frame of `WrapData` (port below 16 and not
-- 12, payload shorter than `MaxFrameSize`) ends in the delivery of that frame, with its command
-- byte and its payload: the decoder is back in step.
pub feed_resync :
    (d : Decoder) (port : ℕ) (payload : Bytes)
    → port < 16
    → port ≢ 12
    → length payload < max_frame_size
    → (front : List Bytes) × ((feed d (fend ∷ wrap_data port payload)).1
        ≡ front ++ (port * 16 ∷ payload) ∷ [])
feed_resync d port payload h k fits =
    let e = (feed d (fend ∷ [])).0 in
    (
      pending d ++ pending e,
      ap (λ (t : Decoder × List Bytes). t.1) (feed-append d (fend ∷ []) (wrap_data port payload))
          ∙ rw (feed-wrap_data e port payload (fend_resets-esc d) h k fits) (rw append_assoc),
    )

-- On port 12 the command byte is 0xC0, which `WrapData` does not escape: the decoder takes it for
-- a delimiter, and delivers the payload without any command byte (and nothing for an empty one).
pub feed-wrap_data_port_twelve :
    (d : Decoder) (payload : Bytes)
    → d.esc ≡ false
    → length payload ≤ max_frame_size
    → (feed d (wrap_data 12 payload)).1 ≡ pending d ++ closed_frame payload
unfolding wrap_data
feed-wrap_data_port_twelve d payload e fits =
    ap (λ (t : Decoder × List Bytes). t.1)
      (feed-append d (fend ∷ []) (fend ∷ (escape payload ++ fend ∷ [])))
    ∙ rw (feed_open d e) (
        rw (feed-append (reading d []) (fend ∷ []) (escape payload ++ fend ∷ [])) (
          rw (feed-fend d [], feed-payload d [] payload (omega arith))
            (unfold closed_frame in refl)))

command_table : all_below 16 (λ p. all_below 16 (λ c. bit_or (p * 16) c == p * 16 + c)) ≡ true
unfolding all_below
command_table = refl

command_byte :
    (port cmd : ℕ) → port < 16 → cmd < 16 → bit_or (port * 16 % 256) cmd ≡ port * 16 + cmd
command_byte port cmd h k =
    let small : port * 16 % 256 ≡ port * 16 = omega arith in
    rw small
      ((==_iff _ _).0 (all_below_sound 16 _ cmd (all_below_sound 16 _ port command_table h) k))

-- On a decoder that is not inside an escape, `Feed` of what `WrapCommandBytes` builds returns,
-- after any frame the opening FEND completes, the command byte and the value as they were given, if
-- the port is below 16, the command is 1 to 15, the value is shorter than `MaxFrameSize`, and it is
-- not command 11 on port 13 (the byte FESC); the decoder then waits for the next frame with an
-- empty buffer.
pub feed-wrap_command_bytes :
    (d : Decoder) (port cmd : ℕ) (value : Bytes)
    → d.esc ≡ false
    → port < 16
    → 0 < cmd
    → cmd < 16
    → port * 16 + cmd ≢ fesc
    → length value < max_frame_size
    → feed d (wrap_command_bytes port cmd value) ≡ (
      record d { buf = []; in_frame = true; esc = false },
      pending d ++ ((port * 16 + cmd) ∷ value) ∷ [],
    )
unfolding wrap_command_bytes
feed-wrap_command_bytes d port cmd value e h pos k ne fits =
    rw (command_byte port cmd h k) (feed_frame d (port * 16 + cmd) value e (omega arith) ne fits)
