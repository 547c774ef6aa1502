-- ===== src/Rig/Sessions/Restore.antt =====
-- internal/rig/session.go: what `restoreSettings` makes of the record that `AcquireSession` wrote.
use tncd.Prelude.{
  Bool, Bool-cases, Bytes, Option, arith, false, if◌then◌else◌, inl, inr, length, none, refl, some,
  true, ℕ, ◌&&◌, ◌<◌, ◌==◌, ◌≡◌, ◌≢◌, ◌≤◌,
}
use tncd.Benshi.Settings.{
  DoubleChannel, double_channel_off, settings_min_len, settings_of, with_channel_a,
  with_double_channel,
}
use tncd.Benshi.Settings.Fields.{IsBytes}
use tncd.Benshi.Settings.Patches.{settings_of-with_channel_a, settings_of-with_double_channel}
use tncd.Benshi.Settings.Undoing.{
  IsRecord, both_undone, channel_a_undone, double_channel_undone, with_double_channel-IsRecord,
}
use tncd.Rig.{Session, no_session}
use tncd.Rig.Sessions.{is_off, onto_vfo, restored, without_dual_watch}

-- What `AcquireSession` writes: dual watch off, and the A VFO on a VFO record if it was on a memory.
abbrev pub displaced : Bytes → Option ℕ → Bytes × Session
displaced raw vfo = onto_vfo raw vfo (without_dual_watch raw)

abbrev pub IsId : Option ℕ → Type 0
IsId none = Unit
IsId (some vfo) = vfo < 256

displaced_off :
    (raw : Bytes)
    → is_off (settings_of raw).double_channel ≡ true
    → without_dual_watch raw ≡ (raw, no_session)
unfolding without_dual_watch
displaced_off raw h = rw h refl

displaced_on :
    (raw : Bytes)
    → is_off (settings_of raw).double_channel ≡ false
    → without_dual_watch raw ≡ (
      with_double_channel double_channel_off raw,
      record no_session {
        orig_double_channel = (settings_of raw).double_channel;
        set_double_channel = true;
      },
    )
unfolding without_dual_watch
displaced_on raw h = rw h refl

same_is : (n : ℕ) → (n == n) ≡ true
same_is n = ground arith

-- The settings of the record that was written.
off_settings :
    (raw : Bytes)
    → IsRecord raw
    → settings_of (with_double_channel double_channel_off raw)
      ≡ record (settings_of raw) { double_channel = double_channel_off }
off_settings raw (bs, h) = settings_of-with_double_channel double_channel_off raw bs h

vfo_settings :
    (vfo : ℕ) (raw : Bytes)
    → vfo < 256
    → IsRecord raw
    → settings_of (with_channel_a vfo raw) ≡ record (settings_of raw) { channel_a = vfo }
vfo_settings vfo raw small (bs, h) = settings_of-with_channel_a vfo raw small bs h

-- On a record of bytes, long enough to decode: if nothing else has changed, what `restoreSettings`
-- makes of the record that `AcquireSession` wrote is the record that was there, byte for byte.
pub restored-displaced :
    (raw : Bytes) (vfo : Option ℕ)
    → IsBytes raw
    → settings_min_len ≤ length raw
    → IsId vfo
    → restored (displaced raw vfo).1 (displaced raw vfo).0 ≡ raw
unfolding onto_vfo restored
restored-displaced raw none bs h id = elim (Bool-cases (is_off (settings_of raw).double_channel)) [
  | inl t ↦ rw (displaced_off raw t) refl
  | inr t ↦
      rw (displaced_on raw t, off_settings raw (bs, h))
        (double_channel_undone double_channel_off raw (bs, h))
]
restored-displaced raw (some vfo) bs h id =
    elim (Bool-cases (is_off (settings_of raw).double_channel)) [
      | inl t ↦
          rw (displaced_off raw t, vfo_settings vfo raw id (bs, h), same_is vfo)
            (channel_a_undone vfo raw (bs, h))
      | inr t ↦
          let off = with_double_channel double_channel_off raw in
          let is = with_double_channel-IsRecord double_channel_off raw (bs, h) in
          rw (displaced_on raw t, vfo_settings vfo off id is, off_settings raw (bs, h), same_is vfo)
            (both_undone double_channel_off vfo raw (bs, h))
    ]

if_watch :
    (b : Bool) (d : DoubleChannel) (cur : Bytes)
    → IsRecord cur
    → (settings_of (if b then with_double_channel d cur else cur) ≡ record (settings_of cur) {
      double_channel = if b then d else (settings_of cur).double_channel;
    })
      × IsRecord (if b then with_double_channel d cur else cur)
if_watch true d cur (bs, h) =
    (settings_of-with_double_channel d cur bs h, with_double_channel-IsRecord d cur (bs, h))
if_watch false d cur is = (refl, is)

if_channel :
    (b : Bool) (id : ℕ) (cur : Bytes)
    → id < 256
    → IsRecord cur
    → settings_of (if b then with_channel_a id cur else cur)
      ≡ record (settings_of cur) { channel_a = if b then id else (settings_of cur).channel_a }
if_channel true id cur small (bs, h) = settings_of-with_channel_a id cur small bs h
if_channel false id cur small is = refl

and_false : (a b : Bool) → b ≡ false → (a && b) ≡ false
and_false true b h = h
and_false false b h = refl

-- The record that `restoreSettings` writes keeps what the operator has changed meanwhile: dual watch
-- if it is on, channel A if it is not the one that was set; and channel B and the KISS switch.
pub restored_keeps :
    (s : Session) (cur : Bytes)
    → IsBytes cur
    → settings_min_len ≤ length cur
    → s.orig_channel_a < 256
    → (is_off (settings_of cur).double_channel ≡ false
        → (settings_of (restored s cur)).double_channel ≡ (settings_of cur).double_channel)
      × ((settings_of cur).channel_a ≢ s.want_channel_a
          → (settings_of (restored s cur)).channel_a ≡ (settings_of cur).channel_a)
      × ((settings_of (restored s cur)).channel_b ≡ (settings_of cur).channel_b)
      × ((settings_of (restored s cur)).kiss_enabled ≡ (settings_of cur).kiss_enabled)
unfolding restored
restored_keeps s cur bs h small =
    let set = settings_of cur in
    let on = s.set_double_channel && is_off set.double_channel in
    let moved = s.set_channel_a && set.channel_a == s.want_channel_a in
    let watch = if on then with_double_channel s.orig_double_channel cur else cur in
    let (now, is) = if_watch on s.orig_double_channel cur (bs, h) in
    let all = if_channel moved s.orig_channel_a watch small is in
    rw (all, now)
      (
        (λ t. rw (and_false s.set_double_channel (is_off set.double_channel) t) refl),
        (λ t.
            rw (and_false s.set_channel_a (set.channel_a == s.want_channel_a) (ground (arith, t)))
              refl),
        refl,
        refl,
      )
