-- ===== src/Rig/Tuning.antt =====
-- internal/rig/rig.go: `Teardown` after any number of `SetFreq`.
use tncd.Prelude.{
  Bool-cases, Bytes, List, Option, Result, [], ap, err, inl, inr, none, ok, refl, some, true, ℕ,
  ◌∙◌, ◌∷◌, ◌≡◌,
}
use tncd.Rig.{
  Action, Command, Rig, RigError, accepted, active_record, ask, bind, channel_result,
  channel_to_read, cmd_read_rf_ch, cmd_read_settings, cmd_write_rf_ch, continue, is_tunable, lift,
  read_channel, rejected, remember_original, set_freq, settings_result, status, teardown,
  write_channel, write_rejected, restore_original,
}
use tncd.Benshi.Settings.{active_channel, decode_settings}
use tncd.Benshi.Channel.{channel_id, parse_rf_ch, with_freq}

module _ {Radio : Type 0} where
  -- A method that does not touch the record that `SetFreq` displaced first.
  abbrev Spares : {A : Type 0} → Bytes → Action Radio A → Type 0
  Spares ch act = (r : Rig Radio) → r.orig ≡ some ch → (act r).0.orig ≡ some ch

  continue-Spares :
      {A B : Type 0} (ch : Bytes) (done : Rig Radio × Result RigError A) (next : A → Action Radio B)
      → done.0.orig ≡ some ch
      → ((a : A) → Spares ch (next a))
      → (continue done next).0.orig ≡ some ch
  continue-Spares ch (r, ok a) next h k = k a r h
  continue-Spares ch (r, err e) next h k = h

  bind-Spares :
      {A B : Type 0} (ch : Bytes) (act : Action Radio A) (next : A → Action Radio B)
      → Spares ch act
      → ((a : A) → Spares ch (next a))
      → Spares ch (bind act next)
  unfolding bind
  bind-Spares ch act next h k r o = continue-Spares ch (act r) next (h r o) k

  lift-Spares : {A : Type 0} (ch : Bytes) (result : Result RigError A) → Spares ch (lift result)
  unfolding lift
  lift-Spares ch result r o = o

  continue-radio :
      {A B : Type 0} (done : Rig Radio × Result RigError A) (next : A → Action Radio B)
      → ((a : A) (r : Rig Radio) → (next a r).0.radio ≡ r.radio)
      → (continue done next).0.radio ≡ done.0.radio
  continue-radio (r, ok a) next k = k a r
  continue-radio (r, err e) next k = refl

module _ {Radio : Type 0} (request : Radio → Command → Bytes → Radio × Result Bytes Bytes) where
  ask-Spares : (ch : Bytes) (cmd : Command) (body : Bytes) → Spares ch (ask request cmd body)
  unfolding ask
  ask-Spares ch cmd body r o = o

  read_channel-Spares : (ch : Bytes) (id : ℕ) → Spares ch (read_channel request id)
  unfolding read_channel
  read_channel-Spares ch id =
      bind-Spares ch (ask request cmd_read_rf_ch (id ∷ [])) _
        (ask-Spares ch cmd_read_rf_ch (id ∷ []))
        (λ body.
          bind-Spares ch (lift (accepted (rejected (status body)) body)) _
            (lift-Spares ch (accepted (rejected (status body)) body))
            (λ b. lift-Spares ch (channel_result (parse_rf_ch b))))

  active_record-Spares : (ch : Bytes) → Spares ch (active_record request)
  unfolding active_record
  active_record-Spares ch =
      bind-Spares ch (ask request cmd_read_settings []) _ (ask-Spares ch cmd_read_settings [])
        (λ body.
          bind-Spares ch (lift (settings_result (decode_settings body))) _
            (lift-Spares ch (settings_result (decode_settings body)))
            (λ set.
              bind-Spares ch (lift (channel_to_read (active_channel set))) _
                (lift-Spares ch (channel_to_read (active_channel set))) (read_channel-Spares ch)))

  write_channel-Spares : (ch raw : Bytes) → Spares ch (write_channel request raw)
  unfolding write_channel
  write_channel-Spares ch raw =
      bind-Spares ch (ask request cmd_write_rf_ch raw) _ (ask-Spares ch cmd_write_rf_ch raw)
        (λ body. lift-Spares ch (accepted (write_rejected (channel_id raw)) body))

  remembers :
      {ch : Bytes} (now : Bytes) (r : Rig Radio)
      → r.orig ≡ some ch
      → (remember_original now r).orig ≡ some ch
  unfolding remember_original
  remembers now r o = rw o refl

  set_freq-Spares : (ch : Bytes) (hz : ℕ) → Spares ch (set_freq request hz)
  unfolding set_freq
  set_freq-Spares ch hz =
      bind-Spares ch (active_record request) _ (active_record-Spares ch) (λ now r o.
        elim (Bool-cases (is_tunable r.vfo_min now)) [
          | inl t ↦ rw t (
              write_channel-Spares ch (with_freq hz now) (remember_original now r)
                (remembers now r o))
          | inr t ↦ rw t o
        ])

  -- Frequencies that are set one after the other, whatever comes of each.
  unfoldable pub set_all : List ℕ → Rig Radio → Rig Radio
  unfolding set_freq
  set_all [] r = r
  set_all (hz ∷ hzs) r = set_all hzs (set_freq request hz r).0

  set_all-Spares :
      (ch : Bytes) (hzs : List ℕ) (r : Rig Radio)
      → r.orig ≡ some ch
      → (set_all hzs r).orig ≡ some ch
  unfolding set_all
  set_all-Spares ch [] r o = o
  set_all-Spares ch (hz ∷ hzs) r o =
      set_all-Spares ch hzs (set_freq request hz r).0 (set_freq-Spares ch hz r o)

  -- When `SetFreq` first displaces a record, that record is what it keeps.
  first_kept :
      (now : Bytes) (r : Rig Radio) → r.orig ≡ none → (remember_original now r).orig ≡ some now
  unfolding remember_original
  first_kept now r o = rw o refl

  set_freq_first :
      (hz : ℕ) (r s : Rig Radio) (ch : Bytes)
      → active_record request r ≡ (s, ok ch)
      → is_tunable s.vfo_min ch ≡ true
      → s.orig ≡ none
      → (set_freq request hz r).0.orig ≡ some ch
  unfolding set_freq bind
  set_freq_first hz r s ch q t o = rw q (
      rw t (write_channel-Spares ch (with_freq hz ch) (remember_original ch s) (first_kept ch s o)))

  write_channel-radio :
      (raw : Bytes) (r : Rig Radio)
      → (write_channel request raw r).0.radio ≡ (request r.radio cmd_write_rf_ch raw).0
  unfolding write_channel bind lift ask
  write_channel-radio raw r =
      continue-radio (ask request cmd_write_rf_ch raw r)
        (λ body. lift (accepted (write_rejected (channel_id raw)) body)) (λ body s. refl)

  teardown-radio :
      (r : Rig Radio) (ch : Bytes)
      → r.orig ≡ some ch
      → (teardown request r).0.radio ≡ (request r.radio cmd_write_rf_ch ch).0
  unfolding teardown bind
  teardown-radio r ch o =
      ap (λ (kept : Option Bytes). (restore_original request kept r).0.radio) o
      ∙ (continue-radio (write_channel request ch r) (λ body s. (record s { orig = none }, ok true))
            (λ body s. refl)
          ∙ write_channel-radio ch r)

  -- The record that the first `SetFreq` of a session displaces, one that passes the three guards, is
  -- what `Teardown` sends back to the radio, byte for byte, whatever number of frequencies are set in
  -- between and whatever the radio answers.
  pub teardown-set_freq :
      (hz : ℕ) (hzs : List ℕ) (r s : Rig Radio) (ch : Bytes)
      → active_record request r ≡ (s, ok ch)
      → is_tunable s.vfo_min ch ≡ true
      → s.orig ≡ none
      → (teardown request (set_all hzs (set_freq request hz r).0)).0.radio
        ≡ (request (set_all hzs (set_freq request hz r).0).radio cmd_write_rf_ch ch).0
  teardown-set_freq hz hzs r s ch q t o =
      let first = set_freq_first hz r s ch q t o in
      teardown-radio (set_all hzs (set_freq request hz r).0) ch
        (set_all-Spares ch hzs (set_freq request hz r).0 first)
