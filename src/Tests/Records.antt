-- ===== src/Tests/Records.antt =====
-- Runs of benshi/settings.go, benshi/settingsrec.go, benshi/rfch.go, benshi/bss.go and
-- kiss/pacing.go.
use tncd.Prelude.{
  All, Bool, Bytes, List, [], and_first, and_second, arith, drop, false, get_or, if◌then◌else◌, leb,
  length, ltb, ltb→lt, ok, refl, true, ℕ, ◌&&◌, ◌*◌, ◌+◌, ◌-◌, ◌/◌, ◌<◌, ◌∷◌, ◌≡◌, ◌≤◌,
}
use tncd.Benshi.Settings.{
  Settings, bit_at, bits, decode_settings, double_channel_b, double_channel_off, put_bits, read_bit,
  with_channel_a, with_double_channel,
}
use tncd.Benshi.Settings.Fields.{IsBytes, read_bit-put_bits}
use tncd.Benshi.Settings.Patches.{decode_settings-with_double_channel, with_channel_a_lem}
use tncd.Benshi.Channel.{channel_id, channel_name, parse_rf_ch, rx_freq_hz, tx_freq_hz, with_freq}
use tncd.Benshi.Channel.Tuning.{with_freq_lem}
use tncd.Benshi.Records.{aprs_enabled, parse_bss_rec, with_aprs_enabled}
use tncd.Benshi.Records.Beacons.{with_aprs_enabled_lem}
use tncd.Kiss.Pacing.{Pacer, enabled, max_lead}
use tncd.Kiss.Pacing.Lead.{air_total, hand_over, hand_over_all, hand_over_all-max_lead}

-- Channel A is 252, channel B is 3, dual watch is off.
abbrev settings_bytes : Bytes
settings_bytes = 0xC3 ∷ 0x05 ∷ 0 ∷ 0 ∷ 0 ∷ 0 ∷ 0 ∷ 0 ∷ 0x02 ∷ 0xF0 ∷ []

abbrev settings_example : Settings
settings_example = record {
  channel_a = 252;
  channel_b = 3;
  double_channel = double_channel_off;
  kiss_enabled = true;
}

settings_bytes-IsBytes : IsBytes settings_bytes
settings_bytes-IsBytes = (
  omega arith,
  (
    omega arith,
    (
      omega arith,
      (
        omega arith,
        (
          omega arith,
          (omega arith, (omega arith, (omega arith, (omega arith, (omega arith, tt))))),
        ),
      ),
    ),
  ),
)

decodes : decode_settings (0 ∷ settings_bytes) ≡ ok settings_example
unfolding decode_settings
decodes = refl

-- The second of the two bits of dual watch.
read_bit-put_bits_example : read_bit (put_bits 2 1 settings_bytes 10) 11 ≡ (
    if leb 10 11 && ltb 11 (10 + 2) then bit_at 1 (10 + 2 - 1 - 11) else read_bit settings_bytes 11)
read_bit-put_bits_example =
    read_bit-put_bits 2 1 settings_bytes 10 11 settings_bytes-IsBytes (omega arith)

with_channel_a_lem_example :
    (decode_settings (0 ∷ with_channel_a 17 settings_bytes)
      ≡ ok (record settings_example { channel_a = 17 }))
    × (length (with_channel_a 17 settings_bytes) ≡ 10)
    × (read_bit (with_channel_a 17 settings_bytes) 70 ≡ read_bit settings_bytes 70)
with_channel_a_lem_example =
    with_channel_a_lem 17 settings_bytes settings_example 70 (omega arith) settings_bytes-IsBytes
      decodes

dual_watch :
    decode_settings (0 ∷ with_double_channel double_channel_b settings_bytes)
    ≡ ok (record settings_example { double_channel = double_channel_b })
dual_watch =
    decode_settings-with_double_channel double_channel_b settings_bytes settings_example
      settings_bytes-IsBytes decodes

-- A record of 25 bytes, with narrow modulation bits and the name "A".
abbrev channel_bytes : Bytes
channel_bytes =
    252 ∷ 0x40 ∷ 1 ∷ 2 ∷ 3 ∷ 0x80 ∷ 4 ∷ 5 ∷ 6 ∷ 0 ∷ 0 ∷ 0 ∷ 0 ∷ 0 ∷ 0 ∷ 65 ∷ 0 ∷ 0 ∷ 0 ∷ 0 ∷ 0 ∷ 0
    ∷ 0 ∷ 0 ∷ 0 ∷ []

abbrev all_small : Bytes → Bool
all_small [] = true
all_small (byte ∷ b) = ltb byte 256 && all_small b

small_bytes : (b : Bytes) → all_small b ≡ true → All (λ byte. byte < 256) b
small_bytes [] h = tt
small_bytes (byte ∷ b) h = (ltb→lt _ _ (and_first _ _ h), small_bytes b (and_second _ _ h))

with_freq_lem_example :
    (tx_freq_hz (with_freq 145710000 channel_bytes) ≡ 145710000)
    × (rx_freq_hz (with_freq 145710000 channel_bytes) ≡ 145710000)
    × (get_or (with_freq 145710000 channel_bytes) 1 0 / 64 ≡ get_or channel_bytes 1 0 / 64)
    × (get_or (with_freq 145710000 channel_bytes) 5 0 / 64 ≡ get_or channel_bytes 5 0 / 64)
    × (channel_id (with_freq 145710000 channel_bytes) ≡ channel_id channel_bytes)
    × (drop 9 (with_freq 145710000 channel_bytes) ≡ drop 9 channel_bytes)
    × (channel_name (with_freq 145710000 channel_bytes) ≡ channel_name channel_bytes)
    × (length (with_freq 145710000 channel_bytes) ≡ length channel_bytes)
unfolding parse_rf_ch
with_freq_lem_example =
    with_freq_lem 145710000 channel_bytes (omega arith) (small_bytes channel_bytes refl) refl

with_aprs_enabled_lem_example :
    (aprs_enabled (with_aprs_enabled false (0 ∷ 0x31 ∷ [])) ≡ false)
    × (with_aprs_enabled (aprs_enabled (0 ∷ 0x31 ∷ [])) (with_aprs_enabled false (0 ∷ 0x31 ∷ []))
        ≡ 0 ∷ 0x31 ∷ [])
unfolding parse_bss_rec
with_aprs_enabled_lem_example =
    with_aprs_enabled_lem false (0 ∷ 0x31 ∷ []) (omega arith, (omega arith, tt)) refl

-- Whole seconds of 1200 Bd.
abbrev seconds_on_air : ℕ → ℕ → ℕ
seconds_on_air bits baud = bits * 1000000000 / baud

abbrev slow_pacer : Pacer
slow_pacer = record { baud = 1200; tx_delay = 300000000; avail = 0 }

abbrev burst : List (ℕ × ℕ)
burst = (276, 0) ∷ (276, 1000) ∷ (15, 0) ∷ []

hand_over_all-max_lead_example :
    5 + air_total seconds_on_air burst slow_pacer
    ≤ (hand_over seconds_on_air 276 0 (hand_over_all seconds_on_air burst (5, slow_pacer))).0
      + max_lead seconds_on_air slow_pacer
unfolding enabled
hand_over_all-max_lead_example =
    hand_over_all-max_lead seconds_on_air burst 276 0 5 slow_pacer refl (omega arith)
