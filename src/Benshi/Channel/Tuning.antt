-- ===== src/Benshi/Channel/Tuning.antt =====
-- benshi/rfch.go: `WithFreq` on a record.
use tncd.Prelude.{
  ==_iff, All, Bytes, [], all_below, all_below_sound, and_first, and_second, arith, bit_and, bit_or,
  drop, get_or, length, ok, refl, true, ℕ, ◌%◌, ◌&&◌, ◌*◌, ◌+◌, ◌/◌, ◌<◌, ◌==◌, ◌∷◌, ◌≡◌,
}
use tncd.Benshi.Channel.{
  channel_id, channel_name, first_byte, freq_bound, parse_rf_ch, rx_freq_hz, tx_freq_hz, with_freq,
}

first_table :
    all_below 256 (λ old. all_below 64 (λ top.
      let x = bit_or (bit_and (top % 256) 0x3F) (bit_and old 0xC0) in
      (x % 64 == top) && (x / 64 == old / 64)))
    ≡ true
unfolding all_below
first_table = refl

-- The word that the four bytes make.
word_lem :
    (first hz : ℕ)
    → hz < freq_bound
    → first % 64 ≡ hz / 16777216
    → (first * 16777216
          + hz % freq_bound / 65536 % 256 * 65536
          + hz % freq_bound / 256 % 256 * 256
          + hz % freq_bound % 256)
        % freq_bound
      ≡ hz
word_lem first hz h k = omega arith

table_row :
    (top old : ℕ)
    → top < 64
    → old < 256
    → (bit_or (bit_and (top % 256) 0x3F) (bit_and old 0xC0) % 64 ≡ top)
      × (bit_or (bit_and (top % 256) 0x3F) (bit_and old 0xC0) / 64 ≡ old / 64)
table_row top old h k =
    let row = all_below_sound 64 _ top (all_below_sound 256 _ old first_table k) h in
    ((==_iff _ _).0 (and_first _ _ row), (==_iff _ _).0 (and_second _ _ row))

first_byte_lem :
    (old hz : ℕ)
    → old < 256
    → hz < freq_bound
    → (first_byte old hz % 64 ≡ hz / 16777216) × (first_byte old hz / 64 ≡ old / 64)
unfolding first_byte
first_byte_lem old hz h k =
    let small : hz % freq_bound ≡ hz = omega arith in
    rw small (table_row (hz / 16777216) old (omega arith) h)

-- `WithFreq` of a frequency below 2^30, on a record of at least 25 bytes: both frequencies read
-- back as it; the modulation bits of both words, the id, the name and all other bytes are as they
-- were, and so is the length.
pub with_freq_lem :
    (hz : ℕ) (raw : Bytes)
    → hz < freq_bound
    → All (λ byte. byte < 256) raw
    → parse_rf_ch raw ≡ ok raw
    → (tx_freq_hz (with_freq hz raw) ≡ hz)
      × (rx_freq_hz (with_freq hz raw) ≡ hz)
      × (get_or (with_freq hz raw) 1 0 / 64 ≡ get_or raw 1 0 / 64)
      × (get_or (with_freq hz raw) 5 0 / 64 ≡ get_or raw 5 0 / 64)
      × (channel_id (with_freq hz raw) ≡ channel_id raw)
      × (drop 9 (with_freq hz raw) ≡ drop 9 raw)
      × (channel_name (with_freq hz raw) ≡ channel_name raw)
      × (length (with_freq hz raw) ≡ length raw)
unfolding tx_freq_hz rx_freq_hz with_freq channel_id channel_name parse_rf_ch
with_freq_lem hz (i ∷ a ∷ b ∷ c ∷ d ∷ e ∷ f ∷ g ∷ h ∷ rest) small (_, (ab, (_, (_, (_, (eb, _))))))
      fits =
    let (low, high) = first_byte_lem a hz ab small in
    let (low', high') = first_byte_lem e hz eb small in
    (
      word_lem (first_byte a hz) hz small low,
      word_lem (first_byte e hz) hz small low',
      high,
      high',
      refl,
      refl,
      refl,
      refl,
    )
with_freq_lem hz ([]) small bs fits = absurd (ground (arith, fits))
with_freq_lem hz (i ∷ []) small bs fits = absurd (ground (arith, fits))
with_freq_lem hz (i ∷ a ∷ []) small bs fits = absurd (ground (arith, fits))
with_freq_lem hz (i ∷ a ∷ b ∷ []) small bs fits = absurd (ground (arith, fits))
with_freq_lem hz (i ∷ a ∷ b ∷ c ∷ []) small bs fits = absurd (ground (arith, fits))
with_freq_lem hz (i ∷ a ∷ b ∷ c ∷ d ∷ []) small bs fits = absurd (ground (arith, fits))
with_freq_lem hz (i ∷ a ∷ b ∷ c ∷ d ∷ e ∷ []) small bs fits = absurd (ground (arith, fits))
with_freq_lem hz (i ∷ a ∷ b ∷ c ∷ d ∷ e ∷ f ∷ []) small bs fits = absurd (ground (arith, fits))
with_freq_lem hz (i ∷ a ∷ b ∷ c ∷ d ∷ e ∷ f ∷ g ∷ []) small bs fits = absurd (ground (arith, fits))
