-- ===== src/Benshi/Message.antt =====
-- benshi/message.go: a message is a header of four bytes, big-endian, and an opaque body.
pub mod RoundTrip
use tncd.Prelude.{
  Bool, Bytes, Result, bit_and, bit_or, err, if◌then◌else◌, not, ok, ℕ, ◌%◌, ◌*◌, ◌+◌, ◌/◌, ◌==◌,
  ◌∷◌,
}

pub record Message : Type 0 where
  pub group : ℕ
  pub is_reply : Bool
  pub command : ℕ
  pub body : Bytes

pub data MessageError : Type 0 where
  short_message : MessageError

abbrev pub reply_bit : ℕ
reply_bit = 0x8000

-- `cmd &^ replyBit` on a uint16 keeps the other fifteen bits.
unfoldable pub command_word : ℕ → Bool → ℕ
command_word command is_reply =
    let cmd = bit_and command 0x7FFF in if is_reply then bit_or cmd reply_bit else cmd

unfoldable pub message_bytes : Message → Bytes
unfolding command_word
message_bytes m =
    let w = command_word m.command m.is_reply in
    (m.group / 256 % 256) ∷ (m.group % 256) ∷ (w / 256 % 256) ∷ (w % 256) ∷ m.body

unfoldable pub decode_message : Bytes → Result MessageError Message
decode_message (g ∷ h ∷ c ∷ d ∷ body) =
    let cmd = c * 256 + d in
    ok (record {
      group = g * 256 + h;
      is_reply = not (bit_and cmd reply_bit == 0);
      command = bit_and cmd 0x7FFF;
      body = body;
    })
decode_message _ = err short_message
