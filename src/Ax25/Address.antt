-- ===== src/Ax25/Address.antt =====
-- ax25/address.go. A Go string is its bytes. `strings.ToUpper` is modelled on ASCII, where it moves
-- the letters a to z; other bytes stay as they are.
pub mod Wire
pub mod Text
use tncd.Prelude.{
  ℕ, ◌+◌, ◌-◌, ◌*◌, ◌/◌, ◌%◌, bit_and, bit_or, Bool, true, false, not, ◌&&◌, ◌||◌, Option, none,
  some, List, [], ◌∷◌, ◌++◌, map, reverse, Bytes, length, take, get_or, replicate, ltb, leb, ◌==◌,
  if◌then◌else◌, Result, ok, err, ◌>>=◌,
}

pub record Address : Type 0 where
  pub call : Bytes
  pub ssid : ℕ
  pub crh : Bool

pub data AddressError : Type 0 where
  empty_address invalid_ssid bad_callsign : AddressError

-- The zero value of `Address`.
abbrev pub zero_address : Address
zero_address = record { call = []; ssid = 0; crh = false }

-- `strings.ToUpper` of ASCII text; what it makes of other characters, and of bytes that are not
-- UTF-8, is left out.
unfoldable pub to_upper_byte : ℕ → ℕ
to_upper_byte c = if leb b'a' c && leb c b'z' then c - 32 else c

unfoldable pub to_upper : Bytes → Bytes
unfolding to_upper_byte
to_upper [] = []
to_upper (c ∷ cs) = to_upper_byte c ∷ to_upper cs

-- `strings.HasSuffix(s, "*")` and the slice without it, in one pass.
unfoldable pub strip_star : Bytes → Bytes × Bool
strip_star [] = ([], false)
strip_star (c ∷ []) = if c == b'*' then ([], true) else (c ∷ [], false)
strip_star (c ∷ d ∷ cs) = let (rest, found) = strip_star (d ∷ cs) in (c ∷ rest, found)

abbrev split_here : ℕ → Bytes → Option (Bytes × Bytes) → Option (Bytes × Bytes)
split_here c cs none = if c == b'-' then some ([], cs) else none
split_here c cs (some (front, back)) = some (c ∷ front, back)

-- `strings.LastIndex(s, "-")`, with the parts before and after it.
unfoldable pub split_last_dash : Bytes → Option (Bytes × Bytes)
split_last_dash [] = none
split_last_dash (c ∷ cs) = split_here c cs (split_last_dash cs)

unfoldable pub parse_digits : Bytes → ℕ → Option ℕ
parse_digits [] acc = some acc
parse_digits (c ∷ cs) acc =
    let more = parse_digits cs (acc * 10 + (c - b'0')) in
    if leb b'0' c && leb c b'9' then more else none

-- `strconv.ParseUint(s, 10, 8)`: decimal digits, at least one, and a value below 256.
unfoldable pub parse_uint8 : Bytes → Option ℕ
unfolding parse_digits
parse_uint8 [] = none
parse_uint8 (c ∷ cs) = elim (parse_digits (c ∷ cs) 0) [
  | none ↦ none
  | some n ↦ if ltb n 256 then some n else none
]

unfoldable pub check_call : Bytes → ℕ → Bool → Result AddressError Address
check_call call ssid crh =
    if length call == 0 || ltb 6 (length call)
    then err bad_callsign
    else ok (record { call = call; ssid = ssid; crh = crh })

unfoldable pub check_ssid : Option ℕ → Result AddressError ℕ
check_ssid none = err invalid_ssid
check_ssid (some n) = if ltb 15 n then err invalid_ssid else ok n

unfoldable pub parse_parts : Bytes → Bool → Option (Bytes × Bytes) → Result AddressError Address
unfolding check_call check_ssid parse_uint8
parse_parts s crh none = check_call s 0 crh
parse_parts s crh (some (call, suffix)) = do
  n ← check_ssid (parse_uint8 suffix)
  check_call call n crh

unfoldable pub parse_address : Bytes → Result AddressError Address
unfolding parse_parts strip_star to_upper split_last_dash
parse_address [] = err empty_address
parse_address (c ∷ cs) =
    let (s, crh) = strip_star (c ∷ cs) in
    let u = to_upper s in parse_parts u crh (split_last_dash u)

-- `%d` of a uint8.
unfoldable pub decimal : ℕ → Bytes
decimal n =
    if ltb n 10
    then (b'0' + n) ∷ []
    else if ltb n 100
    then (b'0' + n / 10) ∷ (b'0' + n % 10) ∷ []
    else (b'0' + n / 100) ∷ (b'0' + n / 10 % 10) ∷ (b'0' + n % 10) ∷ []

-- `Address.String`.
unfoldable pub to_string : Address → Bytes
unfolding decimal
to_string a = if a.ssid == 0 then a.call else a.call ++ (b'-' ∷ decimal a.ssid)

abbrev pub bool_bit : Bool → ℕ
bool_bit true = 1
bool_bit false = 0

abbrev pub space : ℕ
space = 32

-- `crhBit<<7 | 0x60 | (a.SSID&0x0F)<<1 | extBit`
unfoldable pub ssid_byte : ℕ → Bool → Bool → ℕ
ssid_byte ssid crh ext =
    bit_or (bit_or (bit_or (bool_bit crh * 128) 0x60) (bit_and ssid 0x0F * 2)) (bool_bit ext)

unfoldable pub shift_left : Bytes → Bytes
shift_left [] = []
shift_left (c ∷ cs) = (c * 2 % 256) ∷ shift_left cs

-- The seven bytes of `Address.encode`: six characters of the padded call, and the SSID byte.
unfoldable pub encode : Address → Bool → Bool → Bytes
unfolding ssid_byte shift_left
encode a crh ext =
    shift_left (take 6 (a.call ++ replicate (6 - length a.call) space))
    ++ ssid_byte a.ssid crh ext ∷ []

-- One on-air character; what is not printable ASCII becomes '?'.
unfoldable pub decode_char : ℕ → ℕ
decode_char b = if ltb (b / 2) 32 || ltb 126 (b / 2) then b'?' else b / 2

unfoldable pub decode_chars : Bytes → Bytes
unfolding decode_char
decode_chars [] = []
decode_chars (b ∷ bs) = decode_char b ∷ decode_chars bs

abbrev pub trim_cons : ℕ → Bytes → Bytes
trim_cons c [] = if c == space then [] else c ∷ []
trim_cons c (x ∷ xs) = c ∷ x ∷ xs

-- `strings.TrimRight(s, " ")`
unfoldable pub trim_right : Bytes → Bytes
trim_right [] = []
trim_right (c ∷ cs) = trim_cons c (trim_right cs)

-- `decodeAddress` on seven bytes, which its only caller makes sure of.
unfoldable pub decode_address : Bytes → Address × Bool
unfolding decode_chars trim_right
decode_address b =
    let ssid_byte = get_or b 6 0 in
    (
      record {
        call = trim_right (decode_chars (take 6 b));
        ssid = bit_and (ssid_byte / 2) 0x0F;
        crh = not (bit_and ssid_byte 0x80 == 0);
      },
      not (bit_and ssid_byte 0x01 == 0),
    )
