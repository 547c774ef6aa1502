-- ===== src/Benshi/Channel.antt =====
-- benshi/rfch.go: a stored channel record, kept as the bytes that the radio sent. `RFCh` is these
-- bytes, at least 25 of them; a word is a uint32 in four bytes, the most significant one first.
pub mod Tuning
use tncd.Prelude.{
  Bytes, Result, [], bit_and, bit_or, drop, err, get_or, if◌then◌else◌, length, ltb, ok, suc, take,
  zero, ℕ, ◌%◌, ◌*◌, ◌+◌, ◌/◌, ◌==◌, ◌∷◌,
}

abbrev pub rf_ch_len : ℕ
rf_ch_len = 25

abbrev pub rf_ch_name_off : ℕ
rf_ch_name_off = 15

abbrev pub rf_ch_name_len : ℕ
rf_ch_name_len = 10

-- `& freqMask` keeps the low 30 bits.
abbrev pub freq_bound : ℕ
freq_bound = 1073741824

pub data RfChError : Type 0 where
  short_rf_ch : RfChError

unfoldable pub parse_rf_ch : Bytes → Result RfChError Bytes
parse_rf_ch b = if ltb (length b) rf_ch_len then err short_rf_ch else ok b

unfoldable pub channel_id : Bytes → ℕ
channel_id raw = get_or raw 0 0

-- `binary.BigEndian.Uint32` of the bytes from an offset on.
unfoldable pub uint_be : Bytes → ℕ → ℕ
uint_be raw off =
    get_or raw off 0 * 16777216
    + get_or raw (off + 1) 0 * 65536
    + get_or raw (off + 2) 0 * 256
    + get_or raw (off + 3) 0

unfoldable pub tx_freq_hz : Bytes → ℕ
unfolding uint_be
tx_freq_hz raw = uint_be raw 1 % freq_bound

unfoldable pub rx_freq_hz : Bytes → ℕ
unfolding uint_be
rx_freq_hz raw = uint_be raw 5 % freq_bound

-- `strings.TrimRight` of NUL.
abbrev trim_nul_cons : ℕ → Bytes → Bytes
trim_nul_cons c [] = if c == 0 then [] else c ∷ []
trim_nul_cons c (d ∷ ds) = c ∷ d ∷ ds

unfoldable pub trim_nul : Bytes → Bytes
trim_nul [] = []
trim_nul (c ∷ cs) = trim_nul_cons c (trim_nul cs)

unfoldable pub channel_name : Bytes → Bytes
unfolding trim_nul
channel_name raw = trim_nul (take rf_ch_name_len (drop rf_ch_name_off raw))

-- The first byte of a word that `putFreq` writes: it keeps the two bits of the modulation.
unfoldable pub first_byte : ℕ → ℕ → ℕ
first_byte old hz = bit_or (bit_and (hz % freq_bound / 16777216 % 256) 0x3F) (bit_and old 0xC0)

-- `putFreq` on the four bytes at an offset.
unfoldable pub put_freq : ℕ → ℕ → Bytes → Bytes
unfolding first_byte
put_freq zero hz (a ∷ b ∷ c ∷ d ∷ rest) =
    first_byte a hz
    ∷ (hz % freq_bound / 65536 % 256)
    ∷ (hz % freq_bound / 256 % 256)
    ∷ (hz % freq_bound % 256)
    ∷ rest
put_freq (suc off) hz (a ∷ rest) = a ∷ put_freq off hz rest
put_freq _ hz raw = raw

unfoldable pub with_freq : ℕ → Bytes → Bytes
unfolding put_freq
with_freq hz raw = put_freq 5 hz (put_freq 1 hz raw)
