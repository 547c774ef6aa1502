-- ===== src/Rig.antt =====
-- internal/rig/rig.go: tuning a radio by its channel records. `request`, one exchange of a command
-- and its reply with the radio, is a parameter: it gives the radio after it, and the body of the
-- reply or an error's text. The mutex and the log lines are left out.
pub mod Sessions
pub mod Tuning
use tncd.Prelude.{
  Bool, Bytes, Option, Result, [], err, false, get_or, if◌then◌else◌, leb, none, ok, some, true, ℕ,
  ◌&&◌, ◌==◌, ◌∷◌,
}
use tncd.Benshi.Settings.{
  DoubleChannel, SettingsError, active_channel, decode_settings, double_channel_off, radio_rejected,
  short_settings,
}
use tncd.Benshi.Channel.{
  RfChError, channel_id, channel_name, parse_rf_ch, rx_freq_hz, tx_freq_hz, with_freq,
}

pub data Command : Type 0 where
  cmd_read_settings : Command
  cmd_write_settings : Command
  cmd_read_bss_settings : Command
  cmd_write_bss_settings : Command
  cmd_read_rf_ch : Command
  cmd_write_rf_ch : Command

pub data RigError : Type 0 where
  link_error : (text : Bytes) → RigError
  rejected : (status : ℕ) → RigError
  short_reply : RigError
  dual_watch : RigError
  channel_mode : (id : ℕ) → RigError
  write_rejected : (id : ℕ) → RigError
  no_vfo_channel : (vfo_min : ℕ) → RigError
  joined : (first others : RigError) → RigError

-- What `AcquireSession` displaced, and what it put there.
pub record Session : Type 0 where
  pub held : Bool
  pub orig_double_channel : DoubleChannel
  pub set_double_channel : Bool
  pub orig_channel_a : ℕ
  pub want_channel_a : ℕ
  pub set_channel_a : Bool
  pub orig_aprs : Bool
  pub set_aprs : Bool

abbrev pub no_session : Session
no_session = record {
  held = false;
  orig_double_channel = double_channel_off;
  set_double_channel = false;
  orig_channel_a = 0;
  want_channel_a = 0;
  set_channel_a = false;
  orig_aprs = false;
  set_aprs = false;
}

pub record Rig (Radio : Type 0) : Type 0 where
  pub radio : Radio
  pub vfo_min : ℕ
  -- `orig`, where `origOK`
  pub orig : Option Bytes
  pub sess : Session

-- What a method does: the rig after it, and its result.
abbrev pub Action : Type 0 → Type 0 → Type 0
Action Radio A = Rig Radio → Rig Radio × Result RigError A

abbrev pub settings_failure : SettingsError → RigError
settings_failure short_settings = short_reply
settings_failure (radio_rejected status) = rejected status

-- `status`: 255 for a reply too short to have one.
abbrev pub status : Bytes → ℕ
status body = get_or body 0 255

-- The result of a method that returns an error only.
abbrev pub Done : Type 0
Done = Unit {0}

-- A reply that has to begin with status 0.
unfoldable pub accepted : RigError → Bytes → Result RigError Bytes
accepted refusal [] = err refusal
accepted refusal (code ∷ body) = if code == 0 then ok body else err refusal

module _ {Radio : Type 0} {A B : Type 0} where
  abbrev pub continue :
      Rig Radio × Result RigError A → (A → Action Radio B) → Rig Radio × Result RigError B
  continue (r, ok a) next = next a r
  continue (r, err e) next = (r, err e)

  -- One call after the other; an error ends the method.
  unfoldable pub bind : Action Radio A → (A → Action Radio B) → Action Radio B
  bind act next r = continue (act r) next

module _ {Radio : Type 0} {A : Type 0} where
  unfoldable pub lift : Result RigError A → Action Radio A
  lift result r = (r, result)

module _ {Radio : Type 0} where
  unfoldable pub remember_original : Bytes → Rig Radio → Rig Radio
  remember_original ch r = record r {
    orig = elim r.orig [ none ↦ some ch | some first ↦ some first ];
  }

abbrev link_result : Result Bytes Bytes → Result RigError Bytes
link_result (ok body) = ok body
link_result (err text) = err (link_error text)

abbrev settings_result {ℓ} : {A : Type ℓ} → Result SettingsError A → Result RigError A
settings_result (ok s) = ok s
settings_result (err e) = err (settings_failure e)

abbrev channel_result : Result RfChError Bytes → Result RigError Bytes
channel_result (ok ch) = ok ch
channel_result (err e) = err short_reply

abbrev channel_to_read : Option ℕ → Result RigError ℕ
channel_to_read none = err dual_watch
channel_to_read (some id) = ok id

abbrev pub is_empty : Bytes → Bool
is_empty [] = true
is_empty (c ∷ cs) = false

-- The three guards of `SetFreq`.
unfoldable pub is_tunable : ℕ → Bytes → Bool
is_tunable vfo_min ch =
    is_empty (channel_name ch) && leb vfo_min (channel_id ch) && tx_freq_hz ch == rx_freq_hz ch

module _ {Radio : Type 0} (request : Radio → Command → Bytes → Radio × Result Bytes Bytes) where
  unfoldable pub ask : Command → Bytes → Action Radio Bytes
  ask cmd body r =
      let (radio, reply) = request r.radio cmd body in
      (record r { radio = radio }, link_result reply)

  unfoldable pub read_channel : ℕ → Action Radio Bytes
  unfolding bind lift ask accepted
  read_channel id = bind (ask cmd_read_rf_ch (id ∷ [])) (λ body.
      bind (lift (accepted (rejected (status body)) body))
        (λ ch. lift (channel_result (parse_rf_ch ch))))

  -- `activeChannel` of rig.go
  unfoldable pub active_record : Action Radio Bytes
  unfolding bind lift ask read_channel
  active_record = bind (ask cmd_read_settings []) (λ body.
      bind (lift (settings_result (decode_settings body)))
        (λ set. bind (lift (channel_to_read (active_channel set))) read_channel))

  unfoldable pub write_channel : Bytes → Action Radio Bytes
  unfolding bind lift ask accepted
  write_channel ch =
      bind (ask cmd_write_rf_ch ch) (λ body. lift (accepted (write_rejected (channel_id ch)) body))

  unfoldable pub set_freq : ℕ → Action Radio Bytes
  unfolding bind active_record is_tunable remember_original write_channel
  set_freq hz = bind active_record (λ ch r.
      if is_tunable r.vfo_min ch
      then write_channel (with_freq hz ch) (remember_original ch r)
      else (r, err (channel_mode (channel_id ch))))

  unfoldable pub get_freq : Action Radio ℕ
  unfolding bind lift active_record
  get_freq = bind active_record (λ ch. lift (ok (rx_freq_hz ch)))

  abbrev restore_original : Option Bytes → Action Radio Bool
  restore_original none r = (r, ok false)
  restore_original (some ch) r =
      bind (write_channel ch) (λ body r. (record r { orig = none }, ok true)) r

  unfoldable pub teardown : Action Radio Bool
  unfolding bind write_channel
  teardown r = restore_original r.orig r
