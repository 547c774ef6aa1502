-- ===== src/Benshi/Message/RoundTrip.antt =====
-- benshi/message.go: `DecodeMessage` on what `Message.Bytes` writes.
use tncd.Prelude.{
  Bool, all_below, all_below_sound, ap, arith, bit_and, bit_or, false, ltb, not, ok, refl, true, ℕ,
  ◌%◌, ◌&&◌, ◌*◌, ◌+◌, ◌/◌, ◌<◌, ◌==◌, ◌∙◌, ◌≡◌,
}
use tncd.Benshi.Message.{Message, command_word, decode_message, message_bytes, reply_bit}

-- The two parts of the command word, over all commands.
abbrev word_holds : ℕ → Bool
word_holds c =
    (bit_and c 0x7FFF == c)
    && ((bit_and c reply_bit == 0)
        && ((bit_and (bit_or c reply_bit) 0x7FFF == c)
            && (not (bit_and (bit_or c reply_bit) reply_bit == 0)
                && ltb (bit_or c reply_bit) 65536)))

word_table : all_below 128 (λ a. all_below 256 (λ b. word_holds (a * 256 + b))) ≡ true
unfolding all_below
word_table = refl

word_fact : (c : ℕ) → c < 32768 → word_holds c ≡ true
word_fact c h =
    let row =
      all_below_sound 128 (λ a. all_below 256 (λ b. word_holds (a * 256 + b))) (c / 256) word_table
        (omega arith) in
    let split : c ≡ c / 256 * 256 + c % 256 = omega arith in
    ap word_holds split
    ∙ all_below_sound 256 (λ b. word_holds (c / 256 * 256 + b)) (c % 256) row (omega arith)

-- What the command word tells.
record Tells (c : ℕ) (is_reply : Bool) (w : ℕ) : Type 0 where
  short : w < 65536
  reply : not (bit_and w reply_bit == 0) ≡ is_reply
  command : bit_and w 0x7FFF ≡ c

command_word-Tells :
    (c : ℕ) (is_reply : Bool) → c < 32768 → Tells c is_reply (command_word c is_reply)
unfolding command_word
command_word-Tells c true h =
    let kept : bit_and c 0x7FFF ≡ c = ground (arith, word_fact c h) in
    rw kept (record {
      short = ground (arith, word_fact c h);
      reply = ground (arith, word_fact c h);
      command = ground (arith, word_fact c h);
    })
command_word-Tells c false h =
    let kept : bit_and c 0x7FFF ≡ c = ground (arith, word_fact c h) in
    rw kept (record { short = omega arith; reply = ground (arith, word_fact c h); command = kept })

two_bytes : (n : ℕ) → n < 65536 → n / 256 % 256 * 256 + n % 256 ≡ n
two_bytes n h = omega arith

-- `DecodeMessage` of `Message.Bytes` gives the message back, if the group is below 2^16 and the
-- command below 2^15.
pub decode_message-message_bytes :
    (m : Message) → m.group < 65536 → m.command < 32768 → decode_message (message_bytes m) ≡ ok m
unfolding decode_message message_bytes
decode_message-message_bytes m hg hc =
    let t = command_word-Tells m.command m.is_reply hc in
    rw (two_bytes m.group hg, two_bytes (command_word m.command m.is_reply) t.short, t.command)
      (λ i. ok (record m { is_reply = t.reply i }))
