-- ===== src/Bridge/Repeats.antt =====
-- internal/bridge/bridge.go: `normalizeHBits` of a frame that digipeaters have repeated.
use tncd.Prelude.{
  ==_iff, All, Bool, Bool-cases, Bytes, List, [], all_below, all_below_sound, and_first, and_second,
  ap, arith, bit_and, bit_or, drop, false, get_or, if◌then◌else◌, inl, inr, length, length-append,
  length-take, ltb, ltb→lt, refl, suc, sym, take, true, zero, ℕ, ◌&&◌, ◌++◌, ◌<◌, ◌==◌, ◌∙◌, ◌∷◌,
  ◌≡◌, ◌≤◌,
}
use tncd.Bridge.{clear_h_bits, normalize_h_bits}

-- What digipeaters make of the via addresses: they set the H-bit of any of them.
unfoldable pub repeat_vias : List Bool → Bytes → Bytes
repeat_vias (has_repeated ∷ others) (a ∷ b ∷ c ∷ d ∷ e ∷ f ∷ ssid ∷ rest) =
    let more = repeat_vias others rest in
    a
    ∷ b
    ∷ c
    ∷ d
    ∷ e
    ∷ f
    ∷ (if has_repeated then bit_or ssid 0x80 else ssid)
    ∷ (if bit_and ssid 0x01 == 0 then more else rest)
repeat_vias _ raw = raw

-- A frame with via addresses, after the digipeaters.
unfoldable pub repeated : List Bool → Bytes → Bytes
unfolding repeat_vias
repeated which raw =
    if ltb 13 (length raw) && bit_and (get_or raw 13 0) 0x01 == 0
    then take 14 raw ++ repeat_vias which (drop 14 raw)
    else raw

h_bit_table :
    all_below 256 (λ s.
      (bit_and (bit_or s 0x80) 0x7F == bit_and s 0x7F)
      && (bit_and (bit_and s 0x7F) 0x01 == bit_and s 0x01))
    ≡ true
unfolding all_below
h_bit_table = refl

h_bit_lem :
    (s : ℕ)
    → s < 256
    → (bit_and (bit_or s 0x80) 0x7F ≡ bit_and s 0x7F)
      × (bit_and (bit_and s 0x7F) 0x01 ≡ bit_and s 0x01)
h_bit_lem s h =
    let row = all_below_sound 256 _ s h_bit_table h in
    ((==_iff _ _).0 (and_first _ _ row), (==_iff _ _).0 (and_second _ _ row))

if_cleared :
    (w : Bool) (s : ℕ) → s < 256 → bit_and (if w then bit_or s 0x80 else s) 0x7F ≡ bit_and s 0x7F
if_cleared true s h = (h_bit_lem s h).0
if_cleared false s h = refl

clear_h_bits-repeat_vias :
    (which : List Bool) (raw : Bytes)
    → All (λ byte. byte < 256) raw
    → clear_h_bits (repeat_vias which raw) ≡ clear_h_bits raw
unfolding clear_h_bits repeat_vias
clear_h_bits-repeat_vias [] raw bs = refl
clear_h_bits-repeat_vias (w ∷ ws) [] bs = refl
clear_h_bits-repeat_vias (w ∷ ws) (a ∷ []) bs = refl
clear_h_bits-repeat_vias (w ∷ ws) (a ∷ b ∷ []) bs = refl
clear_h_bits-repeat_vias (w ∷ ws) (a ∷ b ∷ c ∷ []) bs = refl
clear_h_bits-repeat_vias (w ∷ ws) (a ∷ b ∷ c ∷ d ∷ []) bs = refl
clear_h_bits-repeat_vias (w ∷ ws) (a ∷ b ∷ c ∷ d ∷ e ∷ []) bs = refl
clear_h_bits-repeat_vias (w ∷ ws) (a ∷ b ∷ c ∷ d ∷ e ∷ f ∷ []) bs = refl
clear_h_bits-repeat_vias (w ∷ ws) (a ∷ b ∷ c ∷ d ∷ e ∷ f ∷ s ∷ rest)
      (_, (_, (_, (_, (_, (_, (hs, bs))))))) =
    let ih = clear_h_bits-repeat_vias ws rest bs in
    let same = (h_bit_lem s hs).1 in
    elim (Bool-cases (bit_and s 0x01 == 0)) [
      | inl t ↦ rw (if_cleared w s hs, same, t, ih) refl
      | inr t ↦ rw (if_cleared w s hs, same, t) refl
    ]

-- The first bytes of a string whose rest is replaced.
replaced :
    (n i : ℕ) (raw ys : Bytes)
    → n ≤ length raw
    → (take n (take n raw ++ ys) ≡ take n raw)
      × (drop n (take n raw ++ ys) ≡ ys)
      × (i < n → get_or (take n raw ++ ys) i 0 ≡ get_or raw i 0)
replaced zero i raw ys h = (refl, refl, λ k. absurd (omega arith))
replaced (suc n) i [] ys h = absurd (omega arith)
replaced (suc n) zero (x ∷ raw) ys h =
    let (t, d, g) = replaced n 0 raw ys (omega arith) in (ap (◌∷◌ x) t, d, λ k. refl)
replaced (suc n) (suc i) (x ∷ raw) ys h =
    let (t, d, g) = replaced n i raw ys (omega arith) in (ap (◌∷◌ x) t, d, λ k. g (omega arith))

drop-All :
    (n : ℕ) (raw : Bytes) → All (λ byte. byte < 256) raw → All (λ byte. byte < 256) (drop n raw)
drop-All zero raw bs = bs
drop-All (suc n) [] bs = tt
drop-All (suc n) (x ∷ raw) (_, bs) = drop-All n raw bs

-- Whether there are via addresses.
abbrev has_vias : Bytes → Bool
has_vias raw = ltb 13 (length raw) && bit_and (get_or raw 13 0) 0x01 == 0

normalize_on :
    (raw : Bytes)
    → has_vias raw ≡ true
    → normalize_h_bits raw ≡ take 14 raw ++ clear_h_bits (drop 14 raw)
unfolding normalize_h_bits
normalize_on raw t = rw t refl

repeated_on :
    (which : List Bool) (raw : Bytes)
    → has_vias raw ≡ true
    → repeated which raw ≡ take 14 raw ++ repeat_vias which (drop 14 raw)
unfolding repeated
repeated_on which raw t = rw t refl

repeated_off : (which : List Bool) (raw : Bytes) → has_vias raw ≡ false → repeated which raw ≡ raw
unfolding repeated
repeated_off which raw t = rw t refl

has_vias-replaced : (raw ys : Bytes) → has_vias raw ≡ true → has_vias (take 14 raw ++ ys) ≡ true
has_vias-replaced raw ys t =
    let long = ltb→lt 13 (length raw) (and_first _ _ t) in
    let (first, rest, at) = replaced 14 13 raw ys (omega arith) in
    let len = length-append (take 14 raw) ys in
    let head = length-take 14 raw in
    let far : ltb 13 (length (take 14 raw ++ ys)) ≡ true = ground (arith, len, head) in
    rw (far, at (omega arith)) (and_second (ltb 13 (length raw)) _ t)

pub normalize_h_bits-repeated :
    (which : List Bool) (raw : Bytes)
    → All (λ byte. byte < 256) raw
    → normalize_h_bits (repeated which raw) ≡ normalize_h_bits raw
normalize_h_bits-repeated which raw bs = elim (Bool-cases (has_vias raw)) [
  | inl t ↦
      let ys = repeat_vias which (drop 14 raw) in
      let long = ltb→lt 13 (length raw) (and_first _ _ t) in
      let (first, rest, at) = replaced 14 13 raw ys (omega arith) in
      ap normalize_h_bits (repeated_on which raw t)
      ∙ (normalize_on (take 14 raw ++ ys) (has_vias-replaced raw ys t)
          ∙ (rw (first, rest, clear_h_bits-repeat_vias which (drop 14 raw) (drop-All 14 raw bs))
              (sym (normalize_on raw t))))
  | inr t ↦ ap normalize_h_bits (repeated_off which raw t)
]
