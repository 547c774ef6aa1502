-- ===== src/Benshi/Settings/Undoing.antt =====
-- benshi/settingsrec.go: the record after patches that put back its own settings.
use tncd.Prelude.{
  Bool-cases, Bytes, arith, false, inl, inr, leb, length, ltb, refl, ℕ, ◌&&◌, ◌<◌, ◌∙◌, ◌≡◌, ◌≤◌,
  ◌⊎◌,
}
use tncd.Benshi.Settings.{
  DoubleChannel, read_bit, settings_min_len, settings_of, with_channel_a, with_double_channel,
}
use tncd.Benshi.Settings.Fields.{IsBytes}
use tncd.Benshi.Settings.Patches.{length-with_channel_a, length-with_double_channel}
use tncd.Benshi.Settings.Extent.{
  bytes_by_bits, channel_a_high, channel_a_low, double_channel_own, read_bit-with_channel_a,
  read_bit-with_double_channel, with_channel_a-IsBytes, with_double_channel-IsBytes,
}

abbrev pub IsRecord : Bytes → Type 0
IsRecord raw = IsBytes raw × (settings_min_len ≤ length raw)

pub with_double_channel-IsRecord :
    (dc : DoubleChannel) (raw : Bytes) → IsRecord raw → IsRecord (with_double_channel dc raw)
with_double_channel-IsRecord dc raw (bs, h) =
    (with_double_channel-IsBytes dc raw bs, omega (arith, length-with_double_channel dc raw))

pub with_channel_a-IsRecord :
    (id : ℕ) (raw : Bytes) → IsRecord raw → IsRecord (with_channel_a id raw)
with_channel_a-IsRecord id raw (bs, h) =
    (with_channel_a-IsBytes id raw bs, omega (arith, length-with_channel_a id raw))

outside : (a b q : ℕ) → (leb a q && ltb q b) ≡ false → (q < a) ⊎ (b ≤ q)
outside a b q h = ground (arith, h)

-- Writing the record's own dual watch back.
double_channel_back_bit :
    (raw now : Bytes) (q : ℕ)
    → IsRecord now
    → ((q < 10) ⊎ (12 ≤ q) → read_bit now q ≡ read_bit raw q)
    → read_bit (with_double_channel (settings_of raw).double_channel now) q ≡ read_bit raw q
double_channel_back_bit raw now q (bs, h) k =
    read_bit-with_double_channel (settings_of raw).double_channel now q bs h
    ∙ elim (Bool-cases (leb 10 q && ltb q 12)) [
      | inl t ↦ rw t (double_channel_own raw q (ground (arith, t)) (ground (arith, t)))
      | inr t ↦ rw t (k (outside 10 12 q t))
    ]

-- Writing the record's own channel A back.
channel_a_back_bit :
    (raw now : Bytes) (q : ℕ)
    → IsRecord now
    → (4 ≤ q → (q < 72) ⊎ (76 ≤ q) → read_bit now q ≡ read_bit raw q)
    → read_bit (with_channel_a (settings_of raw).channel_a now) q ≡ read_bit raw q
channel_a_back_bit raw now q (bs, h) k =
    read_bit-with_channel_a (settings_of raw).channel_a now q bs h
    ∙ elim (Bool-cases (leb 72 q && ltb q 76)) [
      | inl t ↦ rw t (channel_a_high raw q (ground (arith, t)) (ground (arith, t)))
      | inr t ↦ elim (Bool-cases (ltb q 4)) [
        | inl u ↦ rw (t, u) (channel_a_low raw q (ground (arith, u)))
        | inr u ↦ rw (t, u) (k (ground (arith, u)) (outside 72 76 q t))
      ]
    ]

untouched_by_double_channel :
    (dc : DoubleChannel) (raw : Bytes) (q : ℕ)
    → IsRecord raw
    → (q < 10) ⊎ (12 ≤ q)
    → read_bit (with_double_channel dc raw) q ≡ read_bit raw q
untouched_by_double_channel dc raw q (bs, h) k =
    let t : (leb 10 q && ltb q 12) ≡ false = ground (arith, k) in
    read_bit-with_double_channel dc raw q bs h ∙ rw t refl

untouched_by_channel_a :
    (id : ℕ) (raw : Bytes) (q : ℕ)
    → IsRecord raw
    → 4 ≤ q
    → (q < 72) ⊎ (76 ≤ q)
    → read_bit (with_channel_a id raw) q ≡ read_bit raw q
untouched_by_channel_a id raw q (bs, h) l k =
    let t : (leb 72 q && ltb q 76) ≡ false = ground (arith, k) in
    let u : ltb q 4 ≡ false = ground arith in read_bit-with_channel_a id raw q bs h ∙ rw (t, u) refl

pub double_channel_undone :
    (dc : DoubleChannel) (raw : Bytes)
    → IsRecord raw
    → with_double_channel (settings_of raw).double_channel (with_double_channel dc raw) ≡ raw
double_channel_undone dc raw ok_raw =
    let now = with_double_channel dc raw in
    let mid = with_double_channel-IsRecord dc raw ok_raw in
    let end = with_double_channel-IsRecord (settings_of raw).double_channel now mid in
    bytes_by_bits (with_double_channel (settings_of raw).double_channel now) raw end.0 ok_raw.0
      (length-with_double_channel (settings_of raw).double_channel now
        ∙ length-with_double_channel dc raw)
      (λ q. double_channel_back_bit raw now q mid (untouched_by_double_channel dc raw q ok_raw))

pub channel_a_undone :
    (id : ℕ) (raw : Bytes)
    → IsRecord raw
    → with_channel_a (settings_of raw).channel_a (with_channel_a id raw) ≡ raw
channel_a_undone id raw ok_raw =
    let now = with_channel_a id raw in
    let mid = with_channel_a-IsRecord id raw ok_raw in
    let end = with_channel_a-IsRecord (settings_of raw).channel_a now mid in
    bytes_by_bits (with_channel_a (settings_of raw).channel_a now) raw end.0 ok_raw.0
      (length-with_channel_a (settings_of raw).channel_a now ∙ length-with_channel_a id raw)
      (λ q. channel_a_back_bit raw now q mid (untouched_by_channel_a id raw q ok_raw))

pub both_undone :
    (dc : DoubleChannel) (id : ℕ) (raw : Bytes)
    → IsRecord raw
    → with_channel_a (settings_of raw).channel_a (
        with_double_channel
          (settings_of raw).double_channel
          (with_channel_a id (with_double_channel dc raw)))
      ≡ raw
both_undone dc id raw ok_raw =
    let one = with_double_channel dc raw in
    let is_one = with_double_channel-IsRecord dc raw ok_raw in
    let two = with_channel_a id one in
    let is_two = with_channel_a-IsRecord id one is_one in
    let three = with_double_channel (settings_of raw).double_channel two in
    let is_three = with_double_channel-IsRecord (settings_of raw).double_channel two is_two in
    let end = with_channel_a-IsRecord (settings_of raw).channel_a three is_three in
    bytes_by_bits (with_channel_a (settings_of raw).channel_a three) raw end.0 ok_raw.0
      (length-with_channel_a (settings_of raw).channel_a three
        ∙ (length-with_double_channel (settings_of raw).double_channel two
            ∙ (length-with_channel_a id one ∙ length-with_double_channel dc raw)))
      (λ q. channel_a_back_bit raw three q is_three (λ l k.
        double_channel_back_bit raw two q is_two (λ m.
          untouched_by_channel_a id one q is_one l k
          ∙ untouched_by_double_channel dc raw q ok_raw m)))
