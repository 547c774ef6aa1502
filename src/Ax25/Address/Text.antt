-- ===== src/Ax25/Address/Text.antt =====
-- ax25/address.go: the text form of an address, `ParseAddress` and `String`.
use tncd.Prelude.{
  All, All-append, Bool-cases, Bytes, [], ap, arith, false, inl, inr, length, length-append, none,
  ok, refl, some, ℕ, ◌++◌, ◌<◌, ◌==◌, ◌∙◌, ◌∷◌, ◌≡◌, ◌≢◌, ◌≤◌, ◌⊎◌,
}
use tncd.Ax25.Address.{
  Address, decimal, parse_address, parse_parts, parse_uint8, split_last_dash, strip_star, to_string,
  to_upper,
}

-- An ASCII character, no letter in lower case, and neither of the two marks that `ParseAddress`
-- gives a meaning.
abbrev pub IsPlain : ℕ → Type 0
IsPlain c = ((c < b'a') ⊎ (b'z' < c)) × (c ≢ b'-') × (c ≢ b'*') × (c < 128)

pub record IsCallsign (a : Address) : Type 0 where
  pub plain : All IsPlain a.call
  pub some_call : 0 < length a.call
  pub short : length a.call ≤ 6
  pub four_bits : a.ssid < 16

abbrev NoStar : ℕ → Type 0
NoStar c = c ≢ b'*'

strip_star_none : (c : ℕ) (cs : Bytes) → All NoStar (c ∷ cs) → strip_star (c ∷ cs) ≡ (c ∷ cs, false)
unfolding strip_star
strip_star_none c [] h = ground arith
strip_star_none c (d ∷ cs) h = rw (strip_star_none d cs h.1)

abbrev NotLower : ℕ → Type 0
NotLower c = (c < b'a') ⊎ (b'z' < c)

to_upper_plain : (cs : Bytes) → All NotLower cs → to_upper cs ≡ cs
unfolding to_upper
to_upper_plain [] h = refl
to_upper_plain (c ∷ cs) h = ground (arith, to_upper_plain cs h.1)

split_last_dash-none : (cs : Bytes) → All IsPlain cs → split_last_dash cs ≡ none
unfolding split_last_dash
split_last_dash-none [] h = refl
split_last_dash-none (c ∷ cs) h = rw (split_last_dash-none cs h.1) (ground arith)

split_last_dash-some :
    (cs suffix : Bytes)
    → All IsPlain suffix
    → split_last_dash (cs ++ b'-' ∷ suffix) ≡ some (cs, suffix)
unfolding split_last_dash
split_last_dash-some [] suffix h = rw (split_last_dash-none suffix h)
split_last_dash-some (c ∷ cs) suffix h = rw (split_last_dash-some cs suffix h)

decimal-IsPlain : (n : ℕ) → n < 16 → All IsPlain (decimal n)
unfolding decimal
decimal-IsPlain n h = ground arith

parse_uint8-decimal : (n : ℕ) → n < 16 → parse_uint8 (decimal n) ≡ some n
unfolding parse_uint8 decimal
parse_uint8-decimal n h = ground arith

All-map : {P Q : ℕ → Type 0} (xs : Bytes) → ((c : ℕ) → P c → Q c) → All P xs → All Q xs
All-map [] f h = tt
All-map (x ∷ xs) f h = (f x h.0, All-map xs f h.1)

parse_address_plain :
    (s : Bytes)
    → 0 < length s
    → All NoStar s
    → All NotLower s
    → parse_address s ≡ parse_parts s false (split_last_dash s)
unfolding parse_address
parse_address_plain [] h p q = absurd (omega arith)
parse_address_plain (c ∷ cs) h p q =
    rw (strip_star_none c cs p)
      (ap (λ (u : Bytes). parse_parts u false (split_last_dash u)) (to_upper_plain (c ∷ cs) q))

abbrev dashed : Bytes → ℕ → Bytes
dashed call n = call ++ (b'-' ∷ decimal n)

parse_dashed :
    (call : Bytes) (n : ℕ)
    → All IsPlain call
    → 0 < length call
    → length call ≤ 6
    → n < 16
    → parse_address (dashed call n) ≡ ok (record { call = call; ssid = n; crh = false })
unfolding parse_parts
parse_dashed call n p some_call short h =
    let d = decimal-IsPlain n h in
    parse_address_plain (dashed call n) (omega (arith, length-append call (b'-' ∷ decimal n)))
      (All-append NoStar call _ (All-map call (λ c q. q.2) p)
        (omega arith, All-map (decimal n) (λ c q. q.2) d))
      (All-append NotLower call _ (All-map call (λ c q. q.0) p)
        (omega arith, All-map (decimal n) (λ c q. q.0) d))
    ∙ rw (split_last_dash-some call (decimal n) d) (rw (parse_uint8-decimal n h) (ground arith))

parse_bare :
    (call : Bytes)
    → All IsPlain call
    → 0 < length call
    → length call ≤ 6
    → parse_address call ≡ ok (record { call = call; ssid = 0; crh = false })
unfolding parse_parts
parse_bare call p some_call short =
    parse_address_plain call some_call (All-map call (λ c q. q.2) p) (All-map call (λ c q. q.0) p)
    ∙ rw (split_last_dash-none call p) (ground arith)

-- `ParseAddress` of `Address.String` gives the call and the SSID back, if the call has one to six
-- characters, none in lower case, `-` or `*`, and the SSID is below 16. The C/R bit, which the text
-- does not carry, is false.
pub parse_address-to_string :
    (a : Address) → IsCallsign a → parse_address (to_string a) ≡ ok (record a { crh = false })
unfolding to_string
parse_address-to_string a v = elim (Bool-cases (a.ssid == 0)) [
  | inl z ↦ rw z (
      parse_bare a.call v.plain v.some_call v.short
      ∙ ap (λ (n : ℕ). ok (record a { ssid = n; crh = false })) (ground arith))
  | inr d ↦ rw d (parse_dashed a.call a.ssid v.plain v.some_call v.short v.four_bits)
]
