-- ===== src/Benshi/Settings/Patches.antt =====
-- benshi/settingsrec.go: the settings that a patched record decodes to.
use tncd.Prelude.{
  ==_iff, Bool-cases, Bytes, Result, all_below, all_below_sound, ap, arith, bit_and, bit_or, err,
  false, get_elem?, if◌then◌else◌, inl, inr, leb, length, ltb, ok, refl, suc, sym, true, zero, ℕ,
  ◌%◌, ◌&&◌, ◌*◌, ◌+◌, ◌-◌, ◌/◌, ◌<◌, ◌==◌, ◌∙◌, ◌∷◌, ◌≡◌, ◌≤◌, ◌⊎◌,
}
use tncd.Benshi.Settings.{
  DoubleChannel, Settings, SettingsError, bit_at, bits, bits_loop, decode_settings,
  double_channel_a, double_channel_b, double_channel_bits, double_channel_of, double_channel_off,
  double_channel_other, put_bits, read_bit, settings_min_len, settings_of, with_channel_a,
  with_double_channel,
}
use tncd.Benshi.Settings.Fields.{
  IsBytes, bit_in_lt, length-put_bits, put_bits-IsBytes, read_bit-bit_in, read_bit-put_bits,
}

four_table :
    all_below 2 (λ a. all_below 2 (λ b. all_below 2 (λ c. all_below 2 (λ d.
      bit_or (bit_or (bit_or (bit_or 0 a * 2 % 4294967296) b * 2 % 4294967296) c * 2 % 4294967296) d
      == 8 * a + 4 * b + 2 * c + d))))
    ≡ true
unfolding all_below
four_table = refl

two_table :
    all_below 2 (λ a. all_below 2 (λ b. bit_or (bit_or 0 a * 2 % 4294967296) b == 2 * a + b)) ≡ true
unfolding all_below
two_table = refl

pub read_bit_lt : (b : Bytes) (pos : ℕ) → read_bit b pos < 2
read_bit_lt b pos = rw (read_bit-bit_in b pos) (bit_in_lt (get_elem? b (pos / 8)) (7 - pos % 8))

pub bits_four :
    (b : Bytes) (off : ℕ)
    → bits b off 4
      ≡ 8 * read_bit b off
        + 4 * read_bit b (off + 1)
        + 2 * read_bit b (off + 1 + 1)
        + read_bit b (off + 1 + 1 + 1)
unfolding bits
bits_four b off = (==_iff _ _).0 (
    all_below_sound 2 _ _
      (all_below_sound 2 _ _
        (all_below_sound 2 _ _ (all_below_sound 2 _ _ four_table (read_bit_lt b off))
          (read_bit_lt b (off + 1)))
        (read_bit_lt b (off + 1 + 1)))
      (read_bit_lt b (off + 1 + 1 + 1)))

pub bits_two : (b : Bytes) (off : ℕ) → bits b off 2 ≡ 2 * read_bit b off + read_bit b (off + 1)
unfolding bits
bits_two b off = (==_iff _ _).0 (
    all_below_sound 2 _ _ (all_below_sound 2 _ _ two_table (read_bit_lt b off))
      (read_bit_lt b (off + 1)))

-- A bit that `putBits` wrote.
pub read_bit-inside :
    (n v : ℕ) (b : Bytes) (off q k : ℕ)
    → IsBytes b
    → off + n ≤ 8 * length b
    → off ≤ q
    → q + 1 + k ≡ off + n
    → read_bit (put_bits n v b off) q ≡ bit_at v k
read_bit-inside n v b off q k bs h low sum =
    let here : off + n - 1 - q ≡ k = omega arith in
    read_bit-put_bits n v b off q bs h ∙ rw here (ground arith)

-- A field that `putBits` wrote.
bits_four-put_bits :
    (v : ℕ) (b : Bytes) (off : ℕ)
    → IsBytes b
    → off + 4 ≤ 8 * length b
    → bits (put_bits 4 v b off) off 4 ≡ v % 16
unfolding bit_at
bits_four-put_bits v b off bs h =
    bits_four (put_bits 4 v b off) off
    ∙ rw
        (
          read_bit-inside 4 v b off off 3 bs h (omega arith) (omega arith),
          read_bit-inside 4 v b off (off + 1) 2 bs h (omega arith) (omega arith),
          read_bit-inside 4 v b off (off + 1 + 1) 1 bs h (omega arith) (omega arith),
          read_bit-inside 4 v b off (off + 1 + 1 + 1) 0 bs h (omega arith) (omega arith),
        )
        (omega arith)

bits_two-put_bits :
    (v : ℕ) (b : Bytes) (off : ℕ)
    → IsBytes b
    → off + 2 ≤ 8 * length b
    → bits (put_bits 2 v b off) off 2 ≡ v % 4
unfolding bit_at
bits_two-put_bits v b off bs h =
    bits_two (put_bits 2 v b off) off
    ∙ rw
        (
          read_bit-inside 2 v b off off 1 bs h (omega arith) (omega arith),
          read_bit-inside 2 v b off (off + 1) 0 bs h (omega arith) (omega arith),
        )
        (omega arith)

-- Two fields that share no bit.
abbrev Apart : ℕ → ℕ → ℕ → ℕ → Type 0
Apart off n at m = (off + n ≤ at) ⊎ (at + m ≤ off)

read_bit-Apart :
    (n v : ℕ) (b : Bytes) (off q : ℕ)
    → IsBytes b
    → off + n ≤ 8 * length b
    → Apart off n q 1
    → read_bit (put_bits n v b off) q ≡ read_bit b q
read_bit-Apart n v b off q bs h (inl k) = read_bit-put_bits n v b off q bs h ∙ ground arith
read_bit-Apart n v b off q bs h (inr k) = read_bit-put_bits n v b off q bs h ∙ ground arith

bits_loop-Apart :
    (m n v : ℕ) (b : Bytes) (off at acc : ℕ)
    → IsBytes b
    → off + n ≤ 8 * length b
    → Apart off n at m
    → bits_loop m (put_bits n v b off) at acc ≡ bits_loop m b at acc
unfolding bits_loop
bits_loop-Apart zero n v b off at acc bs h k = refl
bits_loop-Apart (suc m) n v b off at acc bs h (inl k) =
    rw (read_bit-Apart n v b off at bs h (inl k)) (
      bits_loop-Apart m n v b off (at + 1) (bit_or (acc * 2 % 4294967296) (read_bit b at)) bs h
        (inl (omega arith)))
bits_loop-Apart (suc m) n v b off at acc bs h (inr k) =
    rw (read_bit-Apart n v b off at bs h (inr (omega arith))) (
      bits_loop-Apart m n v b off (at + 1) (bit_or (acc * 2 % 4294967296) (read_bit b at)) bs h
        (inr (omega arith)))

-- A field of the record that shares no bit with the one that `putBits` writes is as it was.
bits-Apart :
    (m n v : ℕ) (b : Bytes) (off at : ℕ)
    → IsBytes b
    → off + n ≤ 8 * length b
    → Apart off n at m
    → bits (put_bits n v b off) at m ≡ bits b at m
unfolding bits
bits-Apart m n v b off at bs h k = bits_loop-Apart m n v b off at 0 bs h k

pub double_channel_back : (dc : DoubleChannel) → double_channel_of (double_channel_bits dc % 4) ≡ dc
unfolding double_channel_of double_channel_bits
double_channel_back double_channel_off = refl
double_channel_back double_channel_a = refl
double_channel_back double_channel_b = refl
double_channel_back double_channel_other = refl

id_table :
    all_below 256 (λ id. bit_or (id / 16 % 16 * 16 % 256) (bit_and id 0x0F % 16 % 256) == id) ≡ true
unfolding all_below
id_table = refl

id_joined : (id : ℕ) → id < 256 → bit_or (id / 16 % 16 * 16 % 256) (bit_and id 0x0F % 16 % 256) ≡ id
id_joined id h = (==_iff _ _).0 (all_below_sound 256 _ id id_table h)

pub settings_of-with_double_channel :
    (dc : DoubleChannel) (raw : Bytes)
    → IsBytes raw
    → settings_min_len ≤ length raw
    → settings_of (with_double_channel dc raw) ≡ record (settings_of raw) { double_channel = dc }
unfolding settings_of with_double_channel
settings_of-with_double_channel dc raw bs h =
    let v = double_channel_bits dc in
    rw
      (
        bits-Apart 4 2 v raw 10 72 bs (omega arith) (inl (omega arith)),
        bits-Apart 4 2 v raw 10 0 bs (omega arith) (inr (omega arith)),
        bits-Apart 4 2 v raw 10 76 bs (omega arith) (inl (omega arith)),
        bits-Apart 4 2 v raw 10 4 bs (omega arith) (inr (omega arith)),
        bits-Apart 1 2 v raw 10 70 bs (omega arith) (inl (omega arith)),
        bits_two-put_bits v raw 10 bs (omega arith),
        double_channel_back dc,
      )
      refl

pub settings_of-with_channel_a :
    (id : ℕ) (raw : Bytes)
    → id < 256
    → IsBytes raw
    → settings_min_len ≤ length raw
    → settings_of (with_channel_a id raw) ≡ record (settings_of raw) { channel_a = id }
unfolding settings_of with_channel_a
settings_of-with_channel_a id raw small bs h =
    let lo = bit_and id 0x0F in
    let b = put_bits 4 lo raw 0 in
    let bs' = put_bits-IsBytes 4 lo raw 0 bs in
    let len = length-put_bits 4 lo raw 0 in
    let fits : 72 + 4 ≤ 8 * length b = omega (arith, len) in
    let hi = id / 16 in
    rw
      (
        bits_four-put_bits hi b 72 bs' fits,
        bits-Apart 4 4 hi b 72 0 bs' fits (inr (omega arith)),
        bits-Apart 4 4 hi b 72 76 bs' fits (inl (omega arith)),
        bits-Apart 4 4 hi b 72 4 bs' fits (inr (omega arith)),
        bits-Apart 2 4 hi b 72 10 bs' fits (inr (omega arith)),
        bits-Apart 1 4 hi b 72 70 bs' fits (inr (omega arith)),
        bits_four-put_bits lo raw 0 bs (omega arith),
        bits-Apart 4 4 lo raw 0 76 bs (omega arith) (inl (omega arith)),
        bits-Apart 4 4 lo raw 0 4 bs (omega arith) (inl (omega arith)),
        bits-Apart 2 4 lo raw 0 10 bs (omega arith) (inl (omega arith)),
        bits-Apart 1 4 lo raw 0 70 bs (omega arith) (inl (omega arith)),
      )
      (ap (λ (n : ℕ). record (settings_of raw) { channel_a = n }) (id_joined id small))

encoded :
    (raw : Bytes) → settings_min_len ≤ length raw → decode_settings (0 ∷ raw) ≡ ok (settings_of raw)
unfolding decode_settings
encoded raw h = let t : ltb (length raw) settings_min_len ≡ false = ground arith in rw t refl

result_or : Settings → Result SettingsError Settings → Settings
result_or s (ok t) = t
result_or s (err e) = s

-- What `DecodeSettings` accepts.
decoded :
    (raw : Bytes) (s : Settings)
    → decode_settings (0 ∷ raw) ≡ ok s
    → (settings_min_len ≤ length raw) × (settings_of raw ≡ s)
unfolding decode_settings result_or
decoded raw s h = elim (Bool-cases (ltb (length raw) settings_min_len)) [
  | inl t ↦ absurd (ground (arith, h))
  | inr t ↦ (ground arith, ap (result_or s) (sym (encoded raw (ground arith)) ∙ h))
]

pub length-with_channel_a : (id : ℕ) (raw : Bytes) → length (with_channel_a id raw) ≡ length raw
unfolding with_channel_a
length-with_channel_a id raw =
    length-put_bits 4 (id / 16) (put_bits 4 (bit_and id 0x0F) raw 0) 72
    ∙ length-put_bits 4 (bit_and id 0x0F) raw 0

pub length-with_double_channel :
    (dc : DoubleChannel) (raw : Bytes) → length (with_double_channel dc raw) ≡ length raw
unfolding with_double_channel
length-with_double_channel dc raw = length-put_bits 2 (double_channel_bits dc) raw 10

-- If `DecodeSettings` reads the settings `s` from a record of bytes, then from the record that
-- `WithDoubleChannel` returns it reads `s` with that setting, and nothing else changed.
pub decode_settings-with_double_channel :
    (dc : DoubleChannel) (raw : Bytes) (s : Settings)
    → IsBytes raw
    → decode_settings (0 ∷ raw) ≡ ok s
    → decode_settings (0 ∷ with_double_channel dc raw) ≡ ok (record s { double_channel = dc })
decode_settings-with_double_channel dc raw s bs h =
    let (long, now) = decoded raw s h in
    encoded (with_double_channel dc raw) (omega (arith, length-with_double_channel dc raw))
    ∙ ap ok (
        settings_of-with_double_channel dc raw bs long
        ∙ ap (λ (t : Settings). record t { double_channel = dc }) now)

decode_settings-with_channel_a :
    (id : ℕ) (raw : Bytes) (s : Settings)
    → id < 256
    → IsBytes raw
    → decode_settings (0 ∷ raw) ≡ ok s
    → decode_settings (0 ∷ with_channel_a id raw) ≡ ok (record s { channel_a = id })
decode_settings-with_channel_a id raw s small bs h =
    let (long, now) = decoded raw s h in
    encoded (with_channel_a id raw) (omega (arith, length-with_channel_a id raw))
    ∙ ap ok (
        settings_of-with_channel_a id raw small bs long
        ∙ ap (λ (t : Settings). record t { channel_a = id }) now)

read_bit-with_channel_a :
    (id : ℕ) (raw : Bytes) (q : ℕ)
    → IsBytes raw
    → settings_min_len ≤ length raw
    → read_bit (with_channel_a id raw) q ≡ (
        if ltb q 4
        then bit_at (bit_and id 0x0F) (3 - q)
        else if leb 72 q && ltb q 76
        then bit_at (id / 16) (75 - q)
        else read_bit raw q)
unfolding with_channel_a
read_bit-with_channel_a id raw q bs long =
    let lo = bit_and id 0x0F in
    let len = length-put_bits 4 lo raw 0 in
    read_bit-put_bits 4 (id / 16) (put_bits 4 lo raw 0) 72 q (put_bits-IsBytes 4 lo raw 0 bs)
      (omega (arith, len))
    ∙ rw (read_bit-put_bits 4 lo raw 0 q bs (omega arith)) (ground arith)

-- If DecodeSettings reads settings from the bytes behind the status byte, then after WithChannelA of
-- an id below 256 it reads the same ones with that id as channel A; and of the whole record each bit
-- is as it was but the eight of the field, and the length is.
pub with_channel_a_lem :
    (id : ℕ) (raw : Bytes) (s : Settings) (q : ℕ)
    → id < 256
    → IsBytes raw
    → decode_settings (0 ∷ raw) ≡ ok s
    → (decode_settings (0 ∷ with_channel_a id raw) ≡ ok (record s { channel_a = id }))
      × (length (with_channel_a id raw) ≡ length raw)
      × (read_bit (with_channel_a id raw) q ≡ (
          if ltb q 4
          then bit_at (bit_and id 0x0F) (3 - q)
          else if leb 72 q && ltb q 76
          then bit_at (id / 16) (75 - q)
          else read_bit raw q))
with_channel_a_lem id raw s q small bs h = (
  decode_settings-with_channel_a id raw s small bs h,
  length-with_channel_a id raw,
  read_bit-with_channel_a id raw q bs (decoded raw s h).0,
)
