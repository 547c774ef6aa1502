-- ===== src/Tests/Rigs.antt =====
-- Runs of internal/rig/rig.go and internal/rig/session.go.
use tncd.Benshi.Settings.{active_channel, decode_settings, double_channel_a, settings_of}
use tncd.Benshi.Channel.{channel_id, channel_name, parse_rf_ch, rx_freq_hz, tx_freq_hz}
use tncd.Prelude.{Bytes, Result, [], arith, false, none, ok, refl, some, true, ◌∷◌, ◌≡◌, ◌≢◌}
use tncd.Benshi.Settings.Fields.{IsBytes}
use tncd.Rig.{
  Command, Rig, Session, active_record, cmd_read_rf_ch, cmd_read_settings, cmd_write_rf_ch,
  is_tunable, no_session, set_freq, teardown,
}
use tncd.Rig.Tuning.{set_all, teardown-set_freq}
use tncd.Rig.Sessions.{is_off, restored}
use tncd.Rig.Sessions.Restore.{displaced, restored-displaced, restored_keeps}

-- Dual watch is on, with side B; channel A is 5.
abbrev watching : Bytes
watching = 0x53 ∷ 0x20 ∷ 0 ∷ 0 ∷ 0 ∷ 0 ∷ 0 ∷ 0 ∷ 0x02 ∷ 0 ∷ []

watching-IsBytes : IsBytes watching
watching-IsBytes = (
  omega arith,
  (
    omega arith,
    (
      omega arith,
      (
        omega arith,
        (
          omega arith,
          (omega arith, (omega arith, (omega arith, (omega arith, (omega arith, tt))))),
        ),
      ),
    ),
  ),
)

restored-displaced_example :
    restored (displaced watching (some 252)).1 (displaced watching (some 252)).0 ≡ watching
restored-displaced_example =
    restored-displaced watching (some 252) watching-IsBytes (omega arith) (omega arith)

abbrev before : Session
before = record no_session {
  orig_double_channel = double_channel_a;
  set_double_channel = true;
  orig_channel_a = 5;
  want_channel_a = 252;
  set_channel_a = true;
}

restored_keeps_example :
    (is_off (settings_of watching).double_channel ≡ false
      → (settings_of (restored before watching)).double_channel
        ≡ (settings_of watching).double_channel)
    × ((settings_of watching).channel_a ≢ 252
        → (settings_of (restored before watching)).channel_a ≡ (settings_of watching).channel_a)
    × ((settings_of (restored before watching)).channel_b ≡ (settings_of watching).channel_b)
    × ((settings_of (restored before watching)).kiss_enabled ≡ (settings_of watching).kiss_enabled)
restored_keeps_example = restored_keeps before watching watching-IsBytes (omega arith) (omega arith)

-- A radio with one channel record, 252 without a name.
abbrev vfo_record : Bytes
vfo_record =
    252 ∷ 0x08 ∷ 1 ∷ 2 ∷ 3 ∷ 0x08 ∷ 1 ∷ 2 ∷ 3 ∷ 0 ∷ 0 ∷ 0 ∷ 0 ∷ 0 ∷ 0 ∷ 0 ∷ 0 ∷ 0 ∷ 0 ∷ 0 ∷ 0 ∷ 0
    ∷ 0 ∷ 0 ∷ 0 ∷ []

abbrev one_record : Bytes → Command → Bytes → Bytes × Result Bytes Bytes
one_record radio cmd_read_settings body =
    (radio, ok (0 ∷ 0xC3 ∷ 0 ∷ 0 ∷ 0 ∷ 0 ∷ 0 ∷ 0 ∷ 0 ∷ 0 ∷ 0xF0 ∷ []))
one_record radio cmd_read_rf_ch body = (radio, ok (0 ∷ radio))
one_record radio cmd_write_rf_ch body = (body, ok (0 ∷ []))
one_record radio _ body = (radio, ok (0 ∷ []))

abbrev idle_rig : Rig Bytes
idle_rig = record { radio = vfo_record; vfo_min = 251; orig = none; sess = no_session }

reads_vfo : active_record one_record idle_rig ≡ (idle_rig, ok vfo_record)
unfolding active_record decode_settings active_channel parse_rf_ch
reads_vfo = refl

tunable_vfo : is_tunable 251 vfo_record ≡ true
unfolding is_tunable channel_name channel_id tx_freq_hz rx_freq_hz
tunable_vfo = refl

teardown-set_freq_example :
    (teardown one_record
      (set_all one_record (144390000 ∷ []) (set_freq one_record 145710000 idle_rig).0)).0.radio
    ≡ (one_record
        (set_all one_record (144390000 ∷ []) (set_freq one_record 145710000 idle_rig).0).radio
        cmd_write_rf_ch
        vfo_record).0
teardown-set_freq_example =
    teardown-set_freq one_record 145710000 (144390000 ∷ []) idle_rig idle_rig vfo_record reads_vfo
      tunable_vfo refl
