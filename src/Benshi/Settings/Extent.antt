-- ===== src/Benshi/Settings/Extent.antt =====
-- benshi/settingsrec.go: a record is its bits.
use tncd.Prelude.{
  ==_iff, Bytes, [], all_below, all_below_sound, and_first, and_second, ap, arith, bit_and, bit_or,
  if◌then◌else◌, leb, length, ltb, ltb→lt, refl, suc, sym, true, zero, ℕ, ◌%◌, ◌&&◌, ◌*◌, ◌+◌, ◌-◌,
  ◌/◌, ◌<◌, ◌==◌, ◌∙◌, ◌∷◌, ◌≡◌, ◌≤◌,
}
use tncd.Benshi.Settings.{
  DoubleChannel, bit_at, bits, double_channel_bits, double_channel_of, put_bits, read_bit,
  settings_min_len, settings_of, with_channel_a, with_double_channel,
}
use tncd.Benshi.Settings.Patches.{bits_four, bits_two, read_bit_lt}
use tncd.Benshi.Settings.Fields.{
  IsBytes, length-put_bits, put_bits-IsBytes, read_bit-bit_in, read_bit-put_bits,
}

byte_bits : (x y : ℕ) → x < 256 → y < 256 → ((q : ℕ) → q < 8 → bit_at x q ≡ bit_at y q) → x ≡ y
unfolding bit_at
byte_bits x y hx hy h =
    let a = h 0 (omega arith) in
    let b = h 1 (omega arith) in
    let c = h 2 (omega arith) in
    let d = h 3 (omega arith) in
    let e = h 4 (omega arith) in
    let f = h 5 (omega arith) in
    let g = h 6 (omega arith) in let i = h 7 (omega arith) in omega arith

-- The bits of a byte string by byte.
read_bit-cons : (x : ℕ) (b : Bytes) (q : ℕ) → read_bit (x ∷ b) (8 + q) ≡ read_bit b q
read_bit-cons x b q =
    let place : (8 + q) / 8 ≡ suc (q / 8) = omega arith in
    let shift : (8 + q) % 8 ≡ q % 8 = omega arith in
    read_bit-bit_in (x ∷ b) (8 + q) ∙ (rw (place, shift) (sym (read_bit-bit_in b q)))

read_bit-head : (x : ℕ) (b : Bytes) (s : ℕ) → s < 8 → read_bit (x ∷ b) (7 - s) ≡ bit_at x s
read_bit-head x b s h =
    let place : (7 - s) / 8 ≡ 0 = omega arith in
    let shift : 7 - (7 - s) % 8 ≡ s = omega arith in
    read_bit-bit_in (x ∷ b) (7 - s) ∙ (rw (place, shift) refl)

-- Two records of bytes of one length with the same bits are the same.
pub bytes_by_bits :
    (a b : Bytes)
    → IsBytes a
    → IsBytes b
    → length a ≡ length b
    → ((q : ℕ) → read_bit a q ≡ read_bit b q)
    → a ≡ b
bytes_by_bits [] [] ha hb l h = refl
bytes_by_bits [] (y ∷ b) ha hb l h = absurd (omega arith)
bytes_by_bits (x ∷ a) [] ha hb l h = absurd (omega arith)
bytes_by_bits (x ∷ a) (y ∷ b) (hx, ha) (hy, hb) l h =
    let top =
      byte_bits x y hx hy
        (λ s k. sym (read_bit-head x a s k) ∙ (h (7 - s) ∙ read_bit-head y b s k)) in
    let rest =
      bytes_by_bits a b ha hb (omega arith)
        (λ q. sym (read_bit-cons x a q) ∙ (h (8 + q) ∙ read_bit-cons y b q)) in
    rw (top, rest) refl

pub with_double_channel-IsBytes :
    (dc : DoubleChannel) (raw : Bytes) → IsBytes raw → IsBytes (with_double_channel dc raw)
unfolding with_double_channel
with_double_channel-IsBytes dc raw bs = put_bits-IsBytes 2 (double_channel_bits dc) raw 10 bs

pub with_channel_a-IsBytes : (id : ℕ) (raw : Bytes) → IsBytes raw → IsBytes (with_channel_a id raw)
unfolding with_channel_a
with_channel_a-IsBytes id raw bs =
    put_bits-IsBytes 4 (id / 16) (put_bits 4 (bit_and id 0x0F) raw 0) 72
      (put_bits-IsBytes 4 (bit_and id 0x0F) raw 0 bs)

pub read_bit-with_double_channel :
    (dc : DoubleChannel) (raw : Bytes) (q : ℕ)
    → IsBytes raw
    → settings_min_len ≤ length raw
    → read_bit (with_double_channel dc raw) q
      ≡ (if leb 10 q && ltb q 12 then bit_at (double_channel_bits dc) (11 - q) else read_bit raw q)
unfolding with_double_channel
read_bit-with_double_channel dc raw q bs h =
    read_bit-put_bits 2 (double_channel_bits dc) raw 10 q bs (omega arith)

pub read_bit-with_channel_a :
    (id : ℕ) (raw : Bytes) (q : ℕ)
    → IsBytes raw
    → settings_min_len ≤ length raw
    → read_bit (with_channel_a id raw) q ≡ (
        if leb 72 q && ltb q 76
        then bit_at (id / 16) (75 - q)
        else if ltb q 4
        then bit_at (bit_and id 0x0F) (3 - q)
        else read_bit raw q)
unfolding with_channel_a
read_bit-with_channel_a id raw q bs h =
    let lo = put_bits 4 (bit_and id 0x0F) raw 0 in
    let len = length-put_bits 4 (bit_and id 0x0F) raw 0 in
    read_bit-put_bits 4 (id / 16) lo 72 q (put_bits-IsBytes 4 (bit_and id 0x0F) raw 0 bs)
      (omega (arith, len))
    ∙ rw (read_bit-put_bits 4 (bit_and id 0x0F) raw 0 q bs (omega arith)) (ground arith)

-- The bits of a field.
four_bits : (b : Bytes) (off i : ℕ) → i < 4 → bit_at (bits b off 4) (3 - i) ≡ read_bit b (off + i)
unfolding bit_at
four_bits b off zero h =
    let at : off + 0 ≡ off = omega arith in
    rw at (
      omega (
        arith,
        bits_four b off,
        read_bit_lt b off,
        read_bit_lt b (off + 1),
        read_bit_lt b (off + 1 + 1),
        read_bit_lt b (off + 1 + 1 + 1),
      ))
four_bits b off (suc zero) h = omega (
  arith,
  bits_four b off,
  read_bit_lt b off,
  read_bit_lt b (off + 1),
  read_bit_lt b (off + 1 + 1),
  read_bit_lt b (off + 1 + 1 + 1),
)
four_bits b off (suc (suc zero)) h =
    let at : off + 2 ≡ off + 1 + 1 = omega arith in
    rw at (
      omega (
        arith,
        bits_four b off,
        read_bit_lt b off,
        read_bit_lt b (off + 1),
        read_bit_lt b (off + 1 + 1),
        read_bit_lt b (off + 1 + 1 + 1),
      ))
four_bits b off (suc (suc (suc zero))) h =
    let at : off + 3 ≡ off + 1 + 1 + 1 = omega arith in
    rw at (
      omega (
        arith,
        bits_four b off,
        read_bit_lt b off,
        read_bit_lt b (off + 1),
        read_bit_lt b (off + 1 + 1),
        read_bit_lt b (off + 1 + 1 + 1),
      ))
four_bits b off (suc (suc (suc (suc i)))) h = absurd (omega arith)

two_bits : (b : Bytes) (off i : ℕ) → i < 2 → bit_at (bits b off 2) (1 - i) ≡ read_bit b (off + i)
unfolding bit_at
two_bits b off zero h =
    let at : off + 0 ≡ off = omega arith in
    rw at (omega (arith, bits_two b off, read_bit_lt b off, read_bit_lt b (off + 1)))
two_bits b off (suc zero) h =
    omega (arith, bits_two b off, read_bit_lt b off, read_bit_lt b (off + 1))
two_bits b off (suc (suc i)) h = absurd (omega arith)

nibble_table :
    all_below 16 (λ a. all_below 16 (λ b.
      let n = bit_or (a * 16 % 256) (b % 256) in
      (n / 16 == a) && ((bit_and n 0x0F == b) && ltb n 256)))
    ≡ true
unfolding all_below
nibble_table = refl

nibbles :
    (a b : ℕ)
    → a < 16
    → b < 16
    → (bit_or (a * 16 % 256) (b % 256) / 16 ≡ a)
      × (bit_and (bit_or (a * 16 % 256) (b % 256)) 0x0F ≡ b)
      × (bit_or (a * 16 % 256) (b % 256) < 256)
nibbles a b h k =
    let row = all_below_sound 16 _ b (all_below_sound 16 _ a nibble_table h) k in
    let more = and_second _ _ row in
    (
      (==_iff _ _).0 (and_first _ _ row),
      (==_iff _ _).0 (and_first _ _ more),
      ltb→lt _ _ (and_second _ _ more),
    )

bits_four_lt : (b : Bytes) (off : ℕ) → bits b off 4 < 16
bits_four_lt b off = omega (
  arith,
  bits_four b off,
  read_bit_lt b off,
  read_bit_lt b (off + 1),
  read_bit_lt b (off + 1 + 1),
  read_bit_lt b (off + 1 + 1 + 1),
)

bits_two_lt : (b : Bytes) (off : ℕ) → bits b off 2 < 4
bits_two_lt b off = omega (arith, bits_two b off, read_bit_lt b off, read_bit_lt b (off + 1))

double_channel_bits-double_channel_of :
    (n : ℕ) → n < 4 → double_channel_bits (double_channel_of n) ≡ n
unfolding double_channel_bits double_channel_of
double_channel_bits-double_channel_of n h = ground arith

-- The bits of the settings that a record decodes to are its own.
pub double_channel_own :
    (raw : Bytes) (q : ℕ)
    → 10 ≤ q
    → q < 12
    → bit_at (double_channel_bits (settings_of raw).double_channel) (11 - q) ≡ read_bit raw q
unfolding settings_of
double_channel_own raw q h k =
    let back = double_channel_bits-double_channel_of (bits raw 10 2) (bits_two_lt raw 10) in
    let place : 10 + (q - 10) ≡ q = omega arith in
    let shift : 11 - q ≡ 1 - (q - 10) = omega arith in
    rw (back, shift) (two_bits raw 10 (q - 10) (omega arith) ∙ ap (read_bit raw) place)

pub channel_a_high :
    (raw : Bytes) (q : ℕ)
    → 72 ≤ q
    → q < 76
    → bit_at ((settings_of raw).channel_a / 16) (75 - q) ≡ read_bit raw q
unfolding settings_of
channel_a_high raw q h k =
    let (hi, lo, small) =
      nibbles (bits raw 72 4) (bits raw 0 4) (bits_four_lt raw 72) (bits_four_lt raw 0) in
    let place : 72 + (q - 72) ≡ q = omega arith in
    let shift : 75 - q ≡ 3 - (q - 72) = omega arith in
    rw (hi, shift) (four_bits raw 72 (q - 72) (omega arith) ∙ ap (read_bit raw) place)

pub channel_a_low :
    (raw : Bytes) (q : ℕ)
    → q < 4
    → bit_at (bit_and (settings_of raw).channel_a 0x0F) (3 - q) ≡ read_bit raw q
unfolding settings_of
channel_a_low raw q k =
    let (hi, lo, small) =
      nibbles (bits raw 72 4) (bits raw 0 4) (bits_four_lt raw 72) (bits_four_lt raw 0) in
    let place : 0 + q ≡ q = omega arith in rw lo (four_bits raw 0 q k ∙ ap (read_bit raw) place)
