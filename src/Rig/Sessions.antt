-- ===== src/Rig/Sessions.antt =====
-- internal/rig/session.go: the settings of a radio for the time of a session. `errors.Join` keeps
-- the errors among its arguments.
pub mod Restore
use tncd.Prelude.{
  Bool, Bytes, List, Option, Result, [], bytes_eq, err, false, if◌then◌else◌, none, not, ok, some,
  suc, true, zero, ℕ, ◌&&◌, ◌+◌, ◌-◌, ◌==◌, ◌||◌, ◌∷◌,
}
use tncd.Rig.{
  Action, Command, Done, Rig, RigError, Session, accepted, ask, bind, cmd_read_bss_settings,
  cmd_read_settings, cmd_write_bss_settings, cmd_write_settings, is_empty, is_tunable, joined, lift,
  no_session, no_vfo_channel, read_channel, rejected, settings_result, short_reply, status,
  teardown,
}
use tncd.Benshi.Settings.{
  DoubleChannel, double_channel_off, parse_settings_rec, settings_of, with_channel_a,
  with_double_channel,
}
use tncd.Benshi.Channel.{channel_name, rx_freq_hz, tx_freq_hz}
use tncd.Benshi.Records.{
  RecordError, aprs_enabled, parse_bss_rec, record_rejected, short_record, with_aprs_enabled,
}

abbrev pub is_off : DoubleChannel → Bool
is_off double_channel_off = true
is_off _ = false

-- The part of `AcquireSession` that turns dual watch off.
unfoldable pub without_dual_watch : Bytes → Bytes × Session
without_dual_watch rec =
    let set = settings_of rec in
    if is_off set.double_channel then (rec, no_session) else (
      with_double_channel double_channel_off rec,
      record no_session { orig_double_channel = set.double_channel; set_double_channel = true },
    )

-- The part that moves the A VFO, if it has to.
unfoldable pub onto_vfo : Bytes → Option ℕ → Bytes × Session → Bytes × Session
onto_vfo rec none plan = plan
onto_vfo rec (some vfo) (want, s) = (
  with_channel_a vfo want,
  record s {
    orig_channel_a = (settings_of rec).channel_a;
    want_channel_a = vfo;
    set_channel_a = true;
  },
)

-- What `restoreSettings` makes of the record as it reads now.
unfoldable pub restored : Session → Bytes → Bytes
restored s cur =
    let set = settings_of cur in
    let watch =
      if s.set_double_channel && is_off set.double_channel
      then with_double_channel s.orig_double_channel cur
      else cur in
    if s.set_channel_a && set.channel_a == s.want_channel_a
    then with_channel_a s.orig_channel_a watch
    else watch

abbrev bss_result : Result RecordError Bytes → Result RigError Bytes
bss_result (ok raw) = ok raw
bss_result (err short_record) = err short_reply
bss_result (err (record_rejected code)) = err (rejected code)

abbrev errors_of : List (Result RigError Done) → List RigError
errors_of [] = []
errors_of (ok _ ∷ results) = errors_of results
errors_of (err e ∷ results) = e ∷ errors_of results

abbrev join_all : RigError → List RigError → RigError
join_all e [] = e
join_all e (f ∷ es) = joined e (join_all f es)

abbrev joined_result : List RigError → Result RigError Done
joined_result [] = ok tt
joined_result (e ∷ es) = err (join_all e es)

unfoldable pub join : List (Result RigError Done) → Result RigError Done
join results = joined_result (errors_of results)

abbrev forget : {A : Type 0} → Result RigError A → Result RigError Done
forget (ok _) = ok tt
forget (err e) = err e

module _ {Radio : Type 0} (request : Radio → Command → Bytes → Radio × Result Bytes Bytes) where
  unfoldable pub read_settings : Action Radio Bytes
  unfolding bind lift ask
  read_settings =
      bind (ask request cmd_read_settings [])
        (λ body. lift (settings_result (parse_settings_rec body)))

  unfoldable pub write_settings : Bytes → Action Radio Done
  unfolding bind lift ask accepted
  write_settings raw =
      bind (ask request cmd_write_settings raw)
        (λ body. lift (forget (accepted (rejected (status body)) body)))

  unfoldable pub read_bss : Action Radio Bytes
  unfolding bind lift ask
  read_bss =
      bind (ask request cmd_read_bss_settings []) (λ body. lift (bss_result (parse_bss_rec body)))

  unfoldable pub write_bss : Bytes → Action Radio Done
  unfolding bind lift ask accepted
  write_bss raw =
      bind (ask request cmd_write_bss_settings raw)
        (λ body. lift (forget (accepted (rejected (status body)) body)))

  unfoldable pub channel_is_tunable : ℕ → Action Radio Bool
  unfolding bind lift read_channel is_tunable
  channel_is_tunable id = bind (read_channel request id) (λ ch r. (r, ok (is_tunable r.vfo_min ch)))

  abbrev found : Option ℕ → ℕ → Result RigError ℕ
  found none vfo_min = err (no_vfo_channel vfo_min)
  found (some id) vfo_min = ok id

  -- The first usable record that holds no frequency.
  abbrev first_of : Option ℕ → ℕ → Option ℕ
  first_of none id = some id
  first_of (some before) id = some before

  -- The loop of `findVFOChannel`: so many ids are left, this one is the next.
  unfoldable pub find_loop : ℕ → ℕ → ℕ → Option ℕ → Action Radio ℕ
  unfolding read_channel
  find_loop zero id exclude_b fallback r = (r, found fallback r.vfo_min)
  find_loop (suc left) id exclude_b fallback r =
      let (s, answer) = read_channel request id r in
      let skip = find_loop left (id + 1) exclude_b fallback in
      let keep = find_loop left (id + 1) exclude_b (first_of fallback id) in
      if id == exclude_b then skip r else elim answer [
        | err (rejected code) ↦ skip s
        | err e ↦ (s, err e)
        | ok ch ↦
            if not (is_empty (channel_name ch)) || not (tx_freq_hz ch == rx_freq_hz ch)
            then skip s
            else if not (rx_freq_hz ch == 0)
            then (s, ok id)
            else keep s
      ]

  unfoldable pub find_vfo_channel : ℕ → Action Radio ℕ
  unfolding find_loop
  find_vfo_channel exclude_b r = find_loop (256 - r.vfo_min) r.vfo_min exclude_b none r

  unfoldable pub restore_settings : Session → Action Radio Done
  unfolding bind lift read_settings write_settings restored
  restore_settings s =
      if not s.set_double_channel && not s.set_channel_a
      then lift (ok tt)
      else bind read_settings (λ cur.
        if bytes_eq (restored s cur) cur then lift (ok tt) else write_settings (restored s cur))

  unfoldable pub restore_bss : Session → Action Radio Done
  unfolding bind lift read_bss write_bss
  restore_bss s =
      if not s.set_aprs
      then lift (ok tt)
      else bind read_bss (λ cur.
        if aprs_enabled cur then lift (ok tt) else write_bss (with_aprs_enabled s.orig_aprs cur))

  unfoldable pub release_session : Action Radio Done
  unfolding teardown restore_settings restore_bss join
  release_session r =
      let (a, torn) = teardown request r in
      let (b, settings) = restore_settings r.sess a in
      let (c, bss) = restore_bss r.sess b in
      if r.sess.held
      then (record c { sess = no_session }, join (forget torn ∷ settings ∷ bss ∷ []))
      else (a, join (forget torn ∷ []))

  -- After the settings were written: take back what was displaced, and join the errors.
  unfoldable pub roll_back : Session → RigError → Action Radio Done
  unfolding release_session join
  roll_back s e r =
      let (a, result) = release_session (record r { sess = record s { held = true } }) in
      (a, join (err e ∷ result ∷ []))

  -- An error of the step is rolled back.
  abbrev or_roll_back :
      {A : Type 0}
      → Session
      → Rig Radio × Result RigError A
      → (A → Action Radio Done)
      → Rig Radio × Result RigError Done
  or_roll_back s (r, ok a) next = next a r
  or_roll_back s (r, err e) next = roll_back s e r

  abbrev hold : Session → Action Radio Done
  hold s r = (record r { sess = record s { held = true } }, ok tt)

  -- The second half of `AcquireSession`: the beacon settings.
  unfoldable pub acquire_bss : Session → Action Radio Done
  unfolding read_bss write_bss roll_back
  acquire_bss s r = or_roll_back s (read_bss r) (λ bss a.
      if aprs_enabled bss
      then (let t = record s { orig_aprs = true; set_aprs = true } in
          or_roll_back t (write_bss (with_aprs_enabled false bss) a) (λ _. hold t))
      else hold s a)

  unfoldable pub acquire_plan : Bytes → Option ℕ → Action Radio Done
  unfolding bind lift write_settings without_dual_watch onto_vfo acquire_bss
  acquire_plan rec vfo =
      let (want, s) = onto_vfo rec vfo (without_dual_watch rec) in
      bind (if bytes_eq want rec then lift (ok tt) else write_settings want) (λ _. acquire_bss s)

  unfoldable pub acquire_session : Action Radio Done
  unfolding bind lift read_settings channel_is_tunable find_vfo_channel acquire_plan
  acquire_session r =
      if r.sess.held
      then (r, ok tt)
      else bind read_settings
          (λ rec.
            let set = settings_of rec in
            bind (channel_is_tunable set.channel_a) (λ usable.
              if usable
              then acquire_plan rec none
              else bind (find_vfo_channel set.channel_b) (λ vfo. acquire_plan rec (some vfo))))
          r
