-- ===== src/Benshi/Records.antt =====
-- benshi/bss.go and benshi/devinfo.go: the beacon settings, kept as the bytes that the radio sent,
-- and the device's numbers. `Bytes`, `Equal` and the text of `DevInfo` are left out.
pub mod Beacons
use tncd.Prelude.{
  Bool, Bytes, Result, [], bit_and, bit_or, err, get_or, if◌then◌else◌, length, ltb, not, ok, ℕ,
  ◌*◌, ◌+◌, ◌-◌, ◌==◌, ◌∷◌,
}

pub data RecordError : Type 0 where
  short_record : RecordError
  record_rejected : (status : ℕ) → RecordError

abbrev pub bss_min_len : ℕ
bss_min_len = 2

abbrev pub aprs_enable_bit : ℕ
aprs_enable_bit = 0x10

unfoldable pub parse_bss_rec : Bytes → Result RecordError Bytes
parse_bss_rec [] = err short_record
parse_bss_rec (status ∷ raw) =
    if not (status == 0)
    then err (record_rejected status)
    else if ltb (length raw) bss_min_len
    then err short_record
    else ok raw

unfoldable pub aprs_enabled : Bytes → Bool
aprs_enabled raw = not (bit_and (get_or raw 1 0) aprs_enable_bit == 0)

-- `raw[1] |= aprsEnableBit` or `raw[1] &^= aprsEnableBit`
unfoldable pub aprs_byte : Bool → ℕ → ℕ
aprs_byte on byte = if on then bit_or byte aprs_enable_bit else bit_and byte (255 - aprs_enable_bit)

unfoldable pub with_aprs_enabled : Bool → Bytes → Bytes
unfolding aprs_byte
with_aprs_enabled on (a ∷ byte ∷ rest) = a ∷ aprs_byte on byte ∷ rest
with_aprs_enabled on raw = raw

abbrev pub dev_info_len : ℕ
dev_info_len = 10

pub record DevInfo : Type 0 where
  pub vendor_id : ℕ
  pub product_id : ℕ
  pub hw_ver : ℕ
  pub soft_ver : ℕ

unfoldable pub decode_dev_info : Bytes → Result RecordError DevInfo
decode_dev_info [] = err short_record
decode_dev_info (status ∷ b) =
    if not (status == 0)
    then err (record_rejected status)
    else if ltb (length b) dev_info_len
    then err short_record
    else ok (record {
      vendor_id = get_or b 0 0;
      product_id = get_or b 1 0 * 256 + get_or b 2 0;
      hw_ver = get_or b 3 0;
      soft_ver = get_or b 4 0 * 256 + get_or b 5 0;
    })
