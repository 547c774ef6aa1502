-- ===== src/Benshi/Settings/Fields.antt =====
-- benshi/settings.go and benshi/settingsrec.go: `bits` after `putBits`.
use tncd.Prelude.{
  ==_iff, All, Bool, Bool-cases, Bytes, Option, [], all_below, all_below_sound, and_first,
  and_second, ap, arith, false, get_elem?, if◌then◌else◌, inl, inr, leb, length, ltb, none, refl,
  some, suc, true, zero, ℕ, ◌%◌, ◌&&◌, ◌*◌, ◌+◌, ◌-◌, ◌/◌, ◌<◌, ◌==◌, ◌∙◌, ◌∷◌, ◌≡◌, ◌≤◌,
}
use tncd.Benshi.Settings.{bit_at, put_bits, read_bit, set_bit, with_bit}

bit_table :
    all_below 256 (λ byte. all_below 8 (λ s. all_below 2 (λ x. all_below 8 (λ t.
      bit_at (with_bit byte s x) t == (if s == t then x else bit_at byte t)
      && ltb (with_bit byte s x) 256))))
    ≡ true
unfolding all_below bit_at with_bit
bit_table = refl

pub ltb_lt : (m n : ℕ) → ltb m n ≡ true → m < n
ltb_lt m n h = ground arith

bit_at-with_bit :
    (byte s x t : ℕ)
    → byte < 256
    → s < 8
    → x < 2
    → t < 8
    → (bit_at (with_bit byte s x) t ≡ (if s == t then x else bit_at byte t))
      × (with_bit byte s x < 256)
bit_at-with_bit byte s x t hb hs hx ht =
    let row =
      all_below_sound 8 _ t
        (all_below_sound 2 _ x (all_below_sound 8 _ s (all_below_sound 256 _ byte bit_table hb) hs)
          hx)
        ht in
    ((==_iff _ _).0 (and_first _ _ row), ltb_lt _ _ (and_second _ _ row))

-- `read_bit`, by byte and shift.
abbrev pub bit_in : Option ℕ → ℕ → ℕ
bit_in none shift = 0
bit_in (some byte) shift = bit_at byte shift

pub read_bit-bit_in :
    (b : Bytes) (pos : ℕ) → read_bit b pos ≡ bit_in (get_elem? b (pos / 8)) (7 - pos % 8)
unfolding read_bit
read_bit-bit_in b pos =
    elim (get_elem? b (pos / 8))
      as (λ o.
        (elim o [ none ↦ 0 | some byte ↦ bit_at byte (7 - pos % 8) ]) ≡ bit_in o (7 - pos % 8)) [
          | none ↦ refl
          | some byte ↦ refl
        ]

abbrev pub IsBytes : Bytes → Type 0
IsBytes b = All (λ byte. byte < 256) b

bit_in-set_bit :
    (b : Bytes) (idx s x j t : ℕ)
    → IsBytes b
    → idx < length b
    → s < 8
    → x < 2
    → t < 8
    → bit_in (get_elem? (set_bit b idx s x) j) t
      ≡ (if (idx == j) && (s == t) then x else bit_in (get_elem? b j) t)
unfolding set_bit
bit_in-set_bit [] idx s x j t bs h hs hx ht = absurd (omega arith)
bit_in-set_bit (byte ∷ b) zero s x zero t (small, bs) h hs hx ht =
    (bit_at-with_bit byte s x t small hs hx ht).0
bit_in-set_bit (byte ∷ b) zero s x (suc j) t bs h hs hx ht = ground arith
bit_in-set_bit (byte ∷ b) (suc idx) s x zero t bs h hs hx ht = ground arith
bit_in-set_bit (byte ∷ b) (suc idx) s x (suc j) t (small, bs) h hs hx ht =
    let ih = bit_in-set_bit b idx s x j t bs (omega arith) hs hx ht in ground (arith, ih)

length-set_bit : (b : Bytes) (idx s x : ℕ) → length (set_bit b idx s x) ≡ length b
unfolding set_bit
length-set_bit [] idx s x = refl
length-set_bit (byte ∷ b) zero s x = refl
length-set_bit (byte ∷ b) (suc idx) s x = ap suc (length-set_bit b idx s x)

set_bit-IsBytes :
    (b : Bytes) (idx s x : ℕ) → IsBytes b → s < 8 → x < 2 → IsBytes (set_bit b idx s x)
unfolding set_bit
set_bit-IsBytes [] idx s x bs hs hx = tt
set_bit-IsBytes (byte ∷ b) zero s x (small, bs) hs hx =
    ((bit_at-with_bit byte s x 0 small hs hx (omega arith)).1, bs)
set_bit-IsBytes (byte ∷ b) (suc idx) s x (small, bs) hs hx =
    (small, set_bit-IsBytes b idx s x bs hs hx)

same_place : (p q : ℕ) → ((p / 8 == q / 8) && (7 - p % 8 == 7 - q % 8)) ≡ (p == q)
same_place p q = ground arith

read_bit-set_bit :
    (b : Bytes) (p x q : ℕ)
    → IsBytes b
    → p / 8 < length b
    → x < 2
    → read_bit (set_bit b (p / 8) (7 - p % 8) x) q ≡ (if p == q then x else read_bit b q)
read_bit-set_bit b p x q bs h hx =
    read_bit-bit_in (set_bit b (p / 8) (7 - p % 8) x) q
    ∙ (bit_in-set_bit b (p / 8) (7 - p % 8) x (q / 8) (7 - q % 8) bs h (omega arith) hx
          (omega arith)
        ∙ rw (same_place p q, read_bit-bit_in b q) refl)

pub bit_at_lt : (v n : ℕ) → bit_at v n < 2
unfolding bit_at
bit_at_lt v n = omega arith

-- A bit of the record after `putBits`: inside the field it is that of the value, elsewhere it is as
-- it was. Its length and that it consists of bytes stay.
pub read_bit-put_bits :
    (n v : ℕ) (b : Bytes) (off q : ℕ)
    → IsBytes b
    → off + n ≤ 8 * length b
    → read_bit (put_bits n v b off) q
      ≡ (if leb off q && ltb q (off + n) then bit_at v (off + n - 1 - q) else read_bit b q)
unfolding put_bits
read_bit-put_bits zero v b off q bs h = ground arith
read_bit-put_bits (suc n) v b off q bs h =
    let inside : leb (length b) (off / 8) ≡ false = ground arith in
    let c = set_bit b (off / 8) (7 - off % 8) (bit_at v n) in
    let len = length-set_bit b (off / 8) (7 - off % 8) (bit_at v n) in
    let bs' =
      set_bit-IsBytes b (off / 8) (7 - off % 8) (bit_at v n) bs (omega arith) (bit_at_lt v n) in
    let ih = read_bit-put_bits n v c (off + 1) q bs' (omega (arith, len)) in
    let one = read_bit-set_bit b off (bit_at v n) q bs (omega arith) (bit_at_lt v n) in
    rw inside (
      ih ∙ elim (Bool-cases (off == q)) [
        | inl e ↦
            let same : off + suc n - 1 - q ≡ n = ground arith in
            let here : read_bit c q ≡ bit_at v n = one ∙ rw e refl in rw (here, same) (ground arith)
        | inr e ↦
            let same : off + 1 + n - 1 - q ≡ off + suc n - 1 - q = omega arith in
            let here : read_bit c q ≡ read_bit b q = one ∙ rw e refl in
            rw (here, same) (ground arith)
      ])

pub length-put_bits : (n v : ℕ) (b : Bytes) (off : ℕ) → length (put_bits n v b off) ≡ length b
unfolding put_bits
length-put_bits zero v b off = refl
length-put_bits (suc n) v b off =
    let c = set_bit b (off / 8) (7 - off % 8) (bit_at v n) in
    let ih = length-put_bits n v c (off + 1) in
    let len = length-set_bit b (off / 8) (7 - off % 8) (bit_at v n) in ground (arith, ih, len)

if_IsBytes : (t : Bool) (b c : Bytes) → IsBytes b → IsBytes c → IsBytes (if t then b else c)
if_IsBytes true b c h k = h
if_IsBytes false b c h k = k

pub put_bits-IsBytes : (n v : ℕ) (b : Bytes) (off : ℕ) → IsBytes b → IsBytes (put_bits n v b off)
unfolding put_bits
put_bits-IsBytes zero v b off bs = bs
put_bits-IsBytes (suc n) v b off bs =
    let c = set_bit b (off / 8) (7 - off % 8) (bit_at v n) in
    let bs' =
      set_bit-IsBytes b (off / 8) (7 - off % 8) (bit_at v n) bs (omega arith) (bit_at_lt v n) in
    if_IsBytes (leb (length b) (off / 8)) b (put_bits n v c (off + 1)) bs
      (put_bits-IsBytes n v c (off + 1) bs')

pub bit_in_lt : (o : Option ℕ) (shift : ℕ) → bit_in o shift < 2
bit_in_lt none shift = omega arith
bit_in_lt (some byte) shift = bit_at_lt byte shift
