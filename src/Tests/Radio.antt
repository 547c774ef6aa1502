-- ===== src/Tests/Radio.antt =====
-- benshi/frame.go and benshi/message.go at concrete inputs.
use tncd.Prelude.{[], arith, ok, refl, true, ◌∷◌, ◌≡◌}
use tncd.Benshi.Frame.{GaiaFrame, gaia_feed}
use tncd.Benshi.Frame.RoundTrip.{IsPlainFrame, all_bytes, gaia_feed-all_bytes}
use tncd.Benshi.Message.{Message, decode_message, message_bytes}
use tncd.Benshi.Message.RoundTrip.{decode_message-message_bytes}

abbrev reply_example : Message
reply_example = record { group = 2; is_reply = true; command = 20; body = 0 ∷ 1 ∷ [] }

decode_message-message_bytes_example :
    decode_message (message_bytes reply_example) ≡ ok reply_example
decode_message-message_bytes_example =
    decode_message-message_bytes reply_example (omega arith) (omega arith)

-- A frame whose data holds a start byte.
abbrev gaia_example : GaiaFrame
gaia_example = record { flags = 0; payload = 0 ∷ 2 ∷ 0 ∷ 20 ∷ 0xFF ∷ [] }

gaia_example-IsPlainFrame : IsPlainFrame gaia_example
gaia_example-IsPlainFrame = record { long = omega arith; short = omega arith; unchecked = refl }

gaia_feed-all_bytes_example :
    gaia_feed [] (all_bytes (gaia_example ∷ gaia_example ∷ []))
    ≡ (gaia_example ∷ gaia_example ∷ [], [])
gaia_feed-all_bytes_example =
    gaia_feed-all_bytes (gaia_example ∷ gaia_example ∷ [])
      (gaia_example-IsPlainFrame, (gaia_example-IsPlainFrame, tt))
