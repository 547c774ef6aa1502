-- ===== src/Agwpe.antt =====
-- agwpe/agwpe.go: the header of an AGWPE frame. Its numbers are little-endian; what
-- `encoding/binary` reads and writes is written out.
pub mod RoundTrip
use tncd.Prelude.{
  Bytes, Result, [], drop, err, get_or, if◌then◌else◌, length, ltb, ok, suc, take, zero, ℕ, ◌%◌,
  ◌*◌, ◌++◌, ◌+◌, ◌/◌, ◌==◌, ◌∷◌,
}

abbrev pub header_size : ℕ
header_size = 36

pub record Header : Type 0 where
  pub port : ℕ
  pub kind : ℕ
  pub pid : ℕ
  pub call_from : Bytes
  pub call_to : Bytes
  pub data_len : ℕ

pub data HeaderError : Type 0 where
  header_too_short : HeaderError

-- `cString`: up to the first NUL.
unfoldable pub c_string : Bytes → Bytes
c_string [] = []
c_string (c ∷ cs) = let rest = c_string cs in if c == 0 then [] else c ∷ rest

-- `binary.LittleEndian.Uint32` on four bytes.
abbrev pub uint_le : Bytes → ℕ
uint_le [] = 0
uint_le (b ∷ bs) = b + 256 * uint_le bs

unfoldable pub parse_header : Bytes → Result HeaderError Header
unfolding c_string
parse_header b =
    if ltb (length b) header_size
    then err header_too_short
    else ok (record {
      port = get_or b 0 0;
      kind = get_or b 4 0;
      pid = get_or b 6 0;
      call_from = c_string (take 10 (drop 8 b));
      call_to = c_string (take 10 (drop 18 b));
      data_len = uint_le (take 4 (drop 28 b));
    })

-- `copy` of a string into a field of zeros: what does not fit is cut off.
unfoldable pub nul_padded : ℕ → Bytes → Bytes
nul_padded zero s = []
nul_padded (suc n) [] = 0 ∷ nul_padded n []
nul_padded (suc n) (c ∷ s) = c ∷ nul_padded n s

-- `binary.LittleEndian.PutUint32` of `uint32(n)`.
abbrev pub put_uint : ℕ → Bytes
put_uint n = (n % 256) ∷ (n / 256 % 256) ∷ (n / 65536 % 256) ∷ (n / 16777216 % 256) ∷ []

unfoldable pub build : ℕ → ℕ → ℕ → Bytes → Bytes → Bytes → Bytes
unfolding nul_padded
build port kind pid from to payload =
    (port ∷ 0 ∷ 0 ∷ 0 ∷ kind ∷ 0 ∷ pid ∷ 0 ∷ [])
    ++ (nul_padded 10 from
        ++ (nul_padded 10 to ++ (put_uint (length payload) ++ (0 ∷ 0 ∷ 0 ∷ 0 ∷ []) ++ payload)))
