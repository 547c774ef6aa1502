-- ===== src/Benshi/Records/Beacons.antt =====
-- benshi/bss.go: `WithAPRSEnabled` on a record.
use tncd.Prelude.{
  ==_iff, All, Bool, Bytes, [], all_below, all_below_sound, and_first, and_second, ap, arith,
  bit_and, false, if◌then◌else◌, not, ok, refl, sym, true, ℕ, ◌&&◌, ◌<◌, ◌==◌, ◌∷◌, ◌≡◌,
}
use tncd.Benshi.Records.{aprs_byte, aprs_enable_bit, aprs_enabled, parse_bss_rec, with_aprs_enabled}

is_set : ℕ → Bool
is_set byte = not (bit_and byte aprs_enable_bit == 0)

aprs_table :
    (on : Bool)
    → all_below 256 (λ byte.
      (if on then is_set (aprs_byte on byte) else not (is_set (aprs_byte on byte)))
      && (aprs_byte (is_set byte) (aprs_byte on byte) == byte))
      ≡ true
unfolding all_below aprs_byte is_set
aprs_table true = refl
aprs_table false = refl

is_on : (on b : Bool) → (if on then b else not b) ≡ true → b ≡ on
is_on true b h = h
is_on false true h = sym h
is_on false false h = refl

-- On a record that `ParseBSSRec` accepts, `APRSEnabled` of what `WithAPRSEnabled` returns is the
-- value asked for, and to ask for the record's own value then gives back the record that was there.
pub with_aprs_enabled_lem :
    (on : Bool) (raw : Bytes)
    → All (λ byte. byte < 256) raw
    → parse_bss_rec (0 ∷ raw) ≡ ok raw
    → (aprs_enabled (with_aprs_enabled on raw) ≡ on)
      × (with_aprs_enabled (aprs_enabled raw) (with_aprs_enabled on raw) ≡ raw)
unfolding parse_bss_rec aprs_enabled with_aprs_enabled is_set
with_aprs_enabled_lem on [] bs fits = absurd (ground (arith, fits))
with_aprs_enabled_lem on (a ∷ []) bs fits = absurd (ground (arith, fits))
with_aprs_enabled_lem on (a ∷ byte ∷ rest) (_, (small, _)) fits =
    let row = all_below_sound 256 _ byte (aprs_table on) small in
    (
      is_on on (is_set (aprs_byte on byte)) (and_first _ _ row),
      ap (λ (b : ℕ). a ∷ b ∷ rest) ((==_iff _ _).0 (and_second _ _ row)),
    )
