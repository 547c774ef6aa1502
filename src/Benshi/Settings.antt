-- ===== src/Benshi/Settings.antt =====
-- benshi/settings.go and benshi/settingsrec.go: the settings record of a radio, a field of bits with
-- the most significant one of each byte first, and patches of it. `SettingsRec` is its bytes, so
-- `clone`, `Bytes` and `Equal` copy and compare them.
pub mod Fields
pub mod Patches
pub mod Extent
pub mod Undoing
use tncd.Prelude.{
  Bool, Bytes, Option, Result, [], bit_and, bit_or, drop, err, get_elem?, if◌then◌else◌, leb,
  length, ltb, none, not, ok, some, suc, zero, ℕ, ◌%◌, ◌*◌, ◌+◌, ◌-◌, ◌/◌, ◌==◌, ◌>>=◌, ◌^◌, ◌∷◌,
}

pub data DoubleChannel : Type 0 where
  double_channel_off : DoubleChannel
  double_channel_a : DoubleChannel
  double_channel_b : DoubleChannel
  double_channel_other : DoubleChannel

-- The type's numbers; two bits have no further ones.
unfoldable pub double_channel_of : ℕ → DoubleChannel
double_channel_of n =
    if n == 0
    then double_channel_off
    else if n == 1
    then double_channel_a
    else if n == 2
    then double_channel_b
    else double_channel_other

unfoldable pub double_channel_bits : DoubleChannel → ℕ
double_channel_bits double_channel_off = 0
double_channel_bits double_channel_a = 1
double_channel_bits double_channel_b = 2
double_channel_bits double_channel_other = 3

abbrev pub settings_min_len : ℕ
settings_min_len = 10

pub record Settings : Type 0 where
  pub channel_a : ℕ
  pub channel_b : ℕ
  pub double_channel : DoubleChannel
  pub kiss_enabled : Bool

-- `ActiveChannel`; none where the source says that it is ambiguous.
unfoldable pub active_channel : Settings → Option ℕ
active_channel s = elim s.double_channel [
  | double_channel_off ↦ some s.channel_a
  | double_channel_a ↦ some s.channel_a
  | double_channel_b ↦ some s.channel_b
  | double_channel_other ↦ none
]

-- One bit: `b[idx]>>shift & 1`.
unfoldable pub bit_at : ℕ → ℕ → ℕ
bit_at byte shift = byte / 2 ^ shift % 2

-- The bit at a bit offset, zero past the end.
unfoldable pub read_bit : Bytes → ℕ → ℕ
unfolding bit_at
read_bit b pos = elim (get_elem? b (pos / 8)) [ none ↦ 0 | some byte ↦ bit_at byte (7 - pos % 8) ]

-- The loop of `bits`, on a uint32.
unfoldable pub bits_loop : ℕ → Bytes → ℕ → ℕ → ℕ
unfolding read_bit
bits_loop zero b pos v = v
bits_loop (suc n) b pos v = bits_loop n b (pos + 1) (bit_or (v * 2 % 4294967296) (read_bit b pos))

unfoldable pub bits : Bytes → ℕ → ℕ → ℕ
unfolding bits_loop
bits b off n = bits_loop n b off 0

-- `b[idx]&^(1<<shift) | byte(bit)<<shift`
unfoldable pub with_bit : ℕ → ℕ → ℕ → ℕ
with_bit byte shift bit = bit_or (bit_and byte (255 - 2 ^ shift)) (bit * 2 ^ shift)

unfoldable pub set_bit : Bytes → ℕ → ℕ → ℕ → Bytes
unfolding with_bit
set_bit [] idx shift bit = []
set_bit (byte ∷ b) zero shift bit = with_bit byte shift bit ∷ b
set_bit (byte ∷ b) (suc idx) shift bit = byte ∷ set_bit b idx shift bit

-- `putBits` of the low `n` bits of `v`.
unfoldable pub put_bits : ℕ → ℕ → Bytes → ℕ → Bytes
unfolding set_bit bit_at
put_bits zero v b off = b
put_bits (suc n) v b off =
    let done = put_bits n v (set_bit b (off / 8) (7 - off % 8) (bit_at v n)) (off + 1) in
    if leb (length b) (off / 8) then b else done

pub data SettingsError : Type 0 where
  short_settings : SettingsError
  radio_rejected : (status : ℕ) → SettingsError

-- The fields of a record that is long enough.
unfoldable pub settings_of : Bytes → Settings
unfolding bits double_channel_of
settings_of b = record {
  channel_a = bit_or (bits b 72 4 * 16 % 256) (bits b 0 4 % 256);
  channel_b = bit_or (bits b 76 4 * 16 % 256) (bits b 4 4 % 256);
  double_channel = double_channel_of (bits b 10 2);
  kiss_enabled = not (bits b 70 1 == 0);
}

unfoldable pub decode_settings : Bytes → Result SettingsError Settings
unfolding settings_of
decode_settings [] = err short_settings
decode_settings (status ∷ b) =
    if not (status == 0)
    then err (radio_rejected status)
    else if ltb (length b) settings_min_len
    then err short_settings
    else ok (settings_of b)

-- `ParseSettingsRec`: the bytes behind the status.
unfoldable pub parse_settings_rec : Bytes → Result SettingsError Bytes
unfolding decode_settings
parse_settings_rec body = decode_settings body >>= λ _. ok (drop 1 body)

unfoldable pub with_double_channel : DoubleChannel → Bytes → Bytes
unfolding put_bits double_channel_bits
with_double_channel dc raw = put_bits 2 (double_channel_bits dc) raw 10

unfoldable pub with_channel_a : ℕ → Bytes → Bytes
unfolding put_bits
with_channel_a id raw = put_bits 4 (id / 16) (put_bits 4 (bit_and id 0x0F) raw 0) 72
