-- ===== src/Ax25/Address/Wire.antt =====
-- ax25/address.go: the wire form of an address, `encode` and `decodeAddress`.
use tncd.Prelude.{
  All, All-append, Bool, Bytes, [], all_below, all_below_sound, ap, append-nil, arith, bit_and,
  bit_or, false, get_or, length, length-append, ltb, not, refl, replicate, suc, sym, take,
  take-append, true, zero, ℕ, ◌&&◌, ◌*◌, ◌++◌, ◌-◌, ◌/◌, ◌<◌, ◌==◌, ◌∙◌, ◌∷◌, ◌≡◌, ◌≤◌, ltb→lt,
  length-take, drop, drop-append,
}
use tncd.Ax25.Address.{
  Address, bool_bit, decode_address, decode_chars, encode, shift_left, space, ssid_byte, trim_right,
  trim_cons, decode_char,
}

-- Printable, at most six characters, no trailing space, and an SSID of four bits.
pub record IsAddress (a : Address) : Type 0 where
  pub printable : All (λ (c : ℕ). (32 ≤ c) × (c ≤ 126)) a.call
  pub short : length a.call ≤ 6
  pub trimmed : trim_right a.call ≡ a.call
  pub four_bits : a.ssid < 16

bool_bit-lt : (b : Bool) → bool_bit b < 2
bool_bit-lt true = omega arith
bool_bit-lt false = omega arith

abbrev ssid_holds : ℕ → ℕ → ℕ → Bool
ssid_holds s c e =
    let b = bit_or (bit_or (bit_or (c * 128) 0x60) (bit_and s 0x0F * 2)) e in
    bit_and (b / 2) 0x0F == s && bit_and b 0x80 == c * 128 && bit_and b 0x01 == e

ssid_table : all_below 16 (λ s. all_below 2 (λ c. all_below 2 (λ e. ssid_holds s c e))) ≡ true
unfolding all_below
ssid_table = refl

ssid_fact : (s : ℕ) (crh ext : Bool) → s < 16 → ssid_holds s (bool_bit crh) (bool_bit ext) ≡ true
ssid_fact s crh ext h =
    let row = all_below_sound 16 _ s ssid_table h in
    let cell = all_below_sound 2 _ (bool_bit crh) row (bool_bit-lt crh) in
    all_below_sound 2 _ (bool_bit ext) cell (bool_bit-lt ext)

-- The fields of the SSID byte.
ssid_byte_fields :
    (s : ℕ) (crh ext : Bool)
    → s < 16
    → (bit_and (ssid_byte s crh ext / 2) 0x0F ≡ s)
      × (not (bit_and (ssid_byte s crh ext) 0x80 == 0) ≡ crh)
      × (not (bit_and (ssid_byte s crh ext) 0x01 == 0) ≡ ext)
unfolding ssid_byte
ssid_byte_fields s true ext h = ground (arith, ssid_fact s true ext h)
ssid_byte_fields s false ext h = ground (arith, ssid_fact s false ext h)

abbrev Printable : ℕ → Type 0
Printable c = (32 ≤ c) × (c ≤ 126)

decode_chars-shift_left : (cs : Bytes) → All Printable cs → decode_chars (shift_left cs) ≡ cs
unfolding decode_chars shift_left
decode_chars-shift_left [] h = refl
decode_chars-shift_left (c ∷ cs) h = ground (arith, decode_chars-shift_left cs h.1)

pub length-shift_left : (cs : Bytes) → length (shift_left cs) ≡ length cs
unfolding shift_left
length-shift_left [] = refl
length-shift_left (c ∷ cs) = ap suc (length-shift_left cs)

All-replicate : (n c : ℕ) → Printable c → All Printable (replicate n c)
All-replicate zero c h = tt
All-replicate (suc n) c h = (h, All-replicate n c h)

length-replicate : (n c : ℕ) → length (replicate n c) ≡ n
length-replicate zero c = refl
length-replicate (suc n) c = ap suc (length-replicate n c)

trim_right-replicate : (n : ℕ) → trim_right (replicate n space) ≡ []
unfolding trim_right
trim_right-replicate zero = refl
trim_right-replicate (suc n) = rw (trim_right-replicate n)

-- Padding with spaces is undone by trimming.
trim_right_padded : (cs : Bytes) (n : ℕ) → trim_right (cs ++ replicate n space) ≡ trim_right cs
unfolding trim_right
trim_right_padded [] n = trim_right-replicate n
trim_right_padded (c ∷ cs) n = rw (trim_right_padded cs n)

get_or-append : (xs : Bytes) (y : ℕ) (n : ℕ) → length xs ≡ n → get_or (xs ++ y ∷ []) n 0 ≡ y
get_or-append [] y zero h = refl
get_or-append [] y (suc n) h = absurd (omega arith)
get_or-append (x ∷ xs) y zero h = absurd (omega arith)
get_or-append (x ∷ xs) y (suc n) h = get_or-append xs y n (omega arith)

pub take_exact : (xs ys : Bytes) (n : ℕ) → length xs ≡ n → take n (xs ++ ys) ≡ xs
take_exact xs ys n h = rw (← h) (take-append xs ys)

abbrev padded : Bytes → Bytes
padded call = call ++ replicate (6 - length call) space

length-padded : (call : Bytes) → length call ≤ 6 → length (padded call) ≡ 6
length-padded call h = omega (
  arith,
  length-append call (replicate (6 - length call) space),
  length-replicate (6 - length call) space,
)

encode-padded :
    (a : Address) (crh ext : Bool)
    → length a.call ≤ 6
    → encode a crh ext ≡ shift_left (padded a.call) ++ ssid_byte a.ssid crh ext ∷ []
unfolding encode
encode-padded a crh ext h =
    rw (ap (λ (t : Bytes). take 6 t) (sym (append-nil (padded a.call))))
      (rw (take_exact (padded a.call) [] 6 (length-padded a.call h)))

pub length-encode :
    (a : Address) (crh ext : Bool) → length a.call ≤ 6 → length (encode a crh ext) ≡ 7
length-encode a crh ext h = rw (encode-padded a crh ext h) (
    omega (
      arith,
      length-append (shift_left (padded a.call)) (ssid_byte a.ssid crh ext ∷ []),
      length-shift_left (padded a.call),
      length-padded a.call h,
    ))

-- `decodeAddress` reads back a well-formed address, the C/R or H bit and the extension bit that
-- `encode` was given.
pub decode_address-encode :
    (a : Address) (crh ext : Bool)
    → IsAddress a
    → decode_address (encode a crh ext) ≡ (record a { crh = crh }, ext)
unfolding decode_address
decode_address-encode a crh ext v =
    let p = padded a.call in
    let six = length-shift_left p ∙ length-padded a.call v.short in
    let fields = ssid_byte_fields a.ssid crh ext v.four_bits in
    rw (encode-padded a crh ext v.short) (
      rw (
        take_exact (shift_left p) (ssid_byte a.ssid crh ext ∷ []) 6 six,
        get_or-append (shift_left p) (ssid_byte a.ssid crh ext) 6 six,
        decode_chars-shift_left p
            (All-append Printable a.call _ v.printable (All-replicate _ space (omega arith))),
        trim_right_padded a.call (6 - length a.call),
        v.trimmed,
        fields.0,
        fields.1,
        fields.2,
      ))

decode_char-Printable : (b : ℕ) → Printable (decode_char b)
unfolding decode_char
decode_char-Printable b = ground arith

decode_chars-Printable : (bs : Bytes) → All Printable (decode_chars bs)
unfolding decode_chars
decode_chars-Printable [] = tt
decode_chars-Printable (b ∷ bs) = (decode_char-Printable b, decode_chars-Printable bs)

length-decode_chars : (bs : Bytes) → length (decode_chars bs) ≡ length bs
unfolding decode_chars
length-decode_chars [] = refl
length-decode_chars (b ∷ bs) = ap suc (length-decode_chars bs)

trim_cons-Printable :
    (c : ℕ) (cs : Bytes) → Printable c → All Printable cs → All Printable (trim_cons c cs)
trim_cons-Printable c [] h t = ground arith
trim_cons-Printable c (x ∷ cs) h t = (h, t)

trim_right-Printable : (cs : Bytes) → All Printable cs → All Printable (trim_right cs)
unfolding trim_right
trim_right-Printable [] h = tt
trim_right-Printable (c ∷ cs) h =
    trim_cons-Printable c (trim_right cs) h.0 (trim_right-Printable cs h.1)

length-trim_cons : (c : ℕ) (cs : Bytes) → length (trim_cons c cs) ≤ suc (length cs)
length-trim_cons c [] = ground arith
length-trim_cons c (x ∷ cs) = omega arith

length-trim_right : (cs : Bytes) → length (trim_right cs) ≤ length cs
unfolding trim_right
length-trim_right [] = omega arith
length-trim_right (c ∷ cs) = omega (arith, length-trim_cons c (trim_right cs), length-trim_right cs)

trim_cons_idem :
    (c : ℕ) (cs : Bytes) → trim_right cs ≡ cs → trim_right (trim_cons c cs) ≡ trim_cons c cs
unfolding trim_right
trim_cons_idem c [] h = ground arith
trim_cons_idem c (x ∷ cs) h = rw h

trim_right_idem : (cs : Bytes) → trim_right (trim_right cs) ≡ trim_right cs
unfolding trim_right
trim_right_idem [] = refl
trim_right_idem (c ∷ cs) = trim_cons_idem c (trim_right cs) (trim_right_idem cs)

low_table : all_below 128 (λ x. ltb (bit_and x 0x0F) 16) ≡ true
unfolding all_below
low_table = refl

low_four : (b : ℕ) → b < 256 → bit_and (b / 2) 0x0F < 16
low_four b h =
    ltb→lt _ _ (all_below_sound 128 (λ x. ltb (bit_and x 0x0F) 16) (b / 2) low_table (omega arith))

-- Whatever seven bytes come off the air, the address that `decodeAddress` reads is well formed:
-- its call holds only printable ASCII, no line ending among it, has at most six characters and
-- ends in no space, and its SSID is below 16.
pub decode_address-IsAddress : (b : Bytes) → get_or b 6 0 < 256 → IsAddress (decode_address b).0
unfolding decode_address
decode_address-IsAddress b h = record {
  printable = trim_right-Printable (decode_chars (take 6 b)) (decode_chars-Printable (take 6 b));
  short = omega (
    arith,
    length-trim_right (decode_chars (take 6 b)),
    length-decode_chars (take 6 b),
    length-take 6 b,
  );
  trimmed = trim_right_idem (decode_chars (take 6 b));
  four_bits = low_four (get_or b 6 0) h;
}

pub drop_exact : (xs ys : Bytes) (n : ℕ) → length xs ≡ n → drop n (xs ++ ys) ≡ ys
drop_exact xs ys n h = rw (← h) (drop-append xs ys)
