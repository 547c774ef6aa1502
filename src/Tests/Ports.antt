-- ===== src/Tests/Ports.antt =====
-- Runs of kiss/demux.go and internal/bridge/riggate.go.
use tncd.Prelude.{
  Bool, Bytes, List, Option, [], arith, false, none, not, refl, some, suc, true, ℕ, ◌++◌, ◌∷◌, ◌≡◌,
  ◌≤◌,
}
use tncd.Kiss.Framing.{escape, escape_byte, wrap_data}
use tncd.Kiss.Demux.{Demux, demux_feed, gaia_frame_len, new_demux}
use tncd.Kiss.Demux.Rounds.{demux_feed-append, demux_feed-bytewise}
use tncd.Kiss.Demux.Bytewise.{bytewise}
use tncd.Kiss.Demux.Items.{
  IsIdle, IsItem, Item, control_after, control_item, demux_feed-Routes, kiss_frames, kiss_item,
  stream,
}
use tncd.RigGate.{
  Interference, RigGate, commit, desired, drain, new_rig_gate, put_sessions, reconcile,
}
use tncd.RigGate.Exclusion.{Reach-alone}
use tncd.RigGate.Threads.{
  Pc, Reach, Shared, advance, arrive, arrives, background, calling, checking, closing, committing,
  ends, later, queued, reading, runs, sessions_are, shutting, spawned, start,
}
use tncd.RigGate.Invariant.{IsAlternating, IsRetry, applied, converging, holds, total}
use tncd.RigGate.Draining.{Settles, drain-Settles}
use tncd.RigGate.Alternation.{reach_lem}
use tncd.RigGate.LostEvent.{closing_loses_event}

-- A port with a channel of two places.
abbrev attached : Demux
attached = record new_demux { ctrl = some (record { id = 7; capacity = 2; waiting = [] }) }

abbrev two_kinds : List Item
two_kinds =
    kiss_item 1 (0x41 ∷ 0xC0 ∷ [])
    ∷ control_item 0 0 (1 ∷ 2 ∷ 3 ∷ 4 ∷ [])
    ∷ kiss_item 0 (0xFF ∷ [])
    ∷ []

two_kinds_bytes :
    stream two_kinds
    ≡ 0xC0 ∷ 0x10 ∷ 0x41 ∷ 0xDB ∷ 0xDC ∷ 0xC0 ∷ 0xFF ∷ 0x01 ∷ 0 ∷ 0 ∷ 1 ∷ 2 ∷ 3 ∷ 4 ∷ 0xC0 ∷ 0x00
      ∷ 0xFF ∷ 0xC0 ∷ []
unfolding stream wrap_data escape escape_byte
two_kinds_bytes = refl

demux_feed-bytewise_example :
    demux_feed attached (stream two_kinds) ≡ bytewise attached (stream two_kinds)
demux_feed-bytewise_example = demux_feed-bytewise attached (stream two_kinds)

-- The frame comes in two reads, cut inside an escape.
demux_feed-append_example :
    demux_feed attached ((0xC0 ∷ 0x00 ∷ 0xDB ∷ []) ++ (0xDC ∷ 0xC0 ∷ [])) ≡ (
      (demux_feed (demux_feed attached (0xC0 ∷ 0x00 ∷ 0xDB ∷ [])).0 (0xDC ∷ 0xC0 ∷ [])).0,
      (demux_feed attached (0xC0 ∷ 0x00 ∷ 0xDB ∷ [])).1
          ++ (demux_feed (demux_feed attached (0xC0 ∷ 0x00 ∷ 0xDB ∷ [])).0 (0xDC ∷ 0xC0 ∷ [])).1,
    )
demux_feed-append_example = demux_feed-append attached (0xC0 ∷ 0x00 ∷ 0xDB ∷ []) (0xDC ∷ 0xC0 ∷ [])

-- Two frames that share a FEND.
abbrev shared_bytes : Bytes
shared_bytes = 0xC0 ∷ 0x00 ∷ 0x41 ∷ 0xC0 ∷ 0x00 ∷ 0x42 ∷ 0xC0 ∷ []

demux_feed-Routes_example :
    ((demux_feed attached (stream two_kinds)).1 ≡ kiss_frames two_kinds)
    × ((demux_feed attached (stream two_kinds)).0.ctrl ≡ control_after two_kinds attached.ctrl)
    × IsIdle (demux_feed attached (stream two_kinds)).0
unfolding IsItem gaia_frame_len
demux_feed-Routes_example =
    demux_feed-Routes two_kinds attached (refl, refl, refl, refl)
      (
        (omega arith, omega arith, omega arith),
        (refl, ((omega arith, omega arith, omega arith), tt)),
      )

-- The radio answers all calls.
abbrev working : ℕ → Bool → Option Bytes
working round want = none

abbrev wanting : RigGate
wanting = record new_rig_gate { sessions = 1 }

-- The session ends during the first call; then nothing else happens.
abbrev busy_then_calm : ℕ → Interference
busy_then_calm (suc (suc round)) = record {
  before = λ g. g;
  during = λ g. record g { sessions = 0 };
  after = λ g. g;
}
busy_then_calm round = record { before = λ g. g; during = λ g. g; after = λ g. g }

drain-Settles_example : Settles working busy_then_calm (drain 3 working busy_then_calm wanting)
drain-Settles_example = drain-Settles 1 working busy_then_calm wanting (λ x. refl) (λ x. refl)

-- The first session, up to the end of the background `drain`.
abbrev at_gate : RigGate → Bool → List (Bool × Option Bytes) → Shared
at_gate g locked calls = record { gate = g; io_mu = locked; calls = calls }

abbrev one_session : RigGate
one_session = record wanting { busy = true }

abbrev held_gate : RigGate
held_gate = record one_session { actual = true }

one_run :
    (answer : Option Bytes) (pc : Pc) (s t : Shared) (new : List Pc)
    → advance answer s pc ≡ some (t, new)
    → Reach false (s, pc ∷ [])
    → Reach false (t, new ++ [])
one_run answer pc s t new q r = later _ _ _ r (runs answer [] [] new pc s t q)

first_call : Reach false (at_gate one_session true [], calling background true ∷ [])
unfolding arrive spawned advance put_sessions reconcile desired
first_call =
    let came : Reach false (at_gate wanting false [], checking ∷ []) =
      later _ _ _ start (arrives (sessions_are 1) (at_gate new_rig_gate false []) []) in
    let starts =
      one_run none checking (at_gate wanting false []) (at_gate one_session false [])
        (queued background ∷ []) refl came in
    let locks =
      one_run none (queued background) (at_gate one_session false []) (at_gate one_session true [])
        (reading background ∷ []) refl starts in
    one_run none (reading background) (at_gate one_session true []) (at_gate one_session true [])
      (calling background true ∷ []) refl locks

abbrev one_call : List (Bool × Option Bytes)
one_call = (true, none) ∷ []

first_session : Reach false (at_gate held_gate false one_call, closing ∷ [])
unfolding advance commit desired
first_session =
    let called =
      one_run none (calling background true) (at_gate one_session true [])
        (at_gate one_session true one_call) (committing background true none ∷ []) refl
        first_call in
    let commits =
      one_run none (committing background true none) (at_gate one_session true one_call)
        (at_gate held_gate false one_call) (queued background ∷ []) refl called in
    let locks =
      one_run none (queued background) (at_gate held_gate false one_call)
        (at_gate held_gate true one_call) (reading background ∷ []) refl commits in
    one_run none (reading background) (at_gate held_gate true one_call)
      (at_gate held_gate false one_call) (closing ∷ []) refl locks

reach_lem_example :
    (total holds (closing ∷ []) ≤ 1)
    × (total converging (closing ∷ []) ≤ 1)
    × IsAlternating one_call
    × (false ≡ false → true ≡ applied one_call)
    × IsRetry true 0 none
reach_lem_example = reach_lem (at_gate held_gate false one_call) (closing ∷ []) first_session

-- `shutdownWith` is called while the background `drain` is about to end.
Reach-alone_example :
    (total holds (shutting ∷ closing ∷ []) ≤ 1) × (total converging (shutting ∷ closing ∷ []) ≤ 1)
Reach-alone_example =
    Reach-alone true (at_gate held_gate false one_call) (shutting ∷ closing ∷ [])
      (ends false (at_gate held_gate false one_call) (closing ∷ []) first_session)

-- The session ends at that moment: the radio stays in packet configuration.
closing_loses_event_example :
    (t : Shared) × Reach false (t, [])
    × (t.gate.sessions ≡ 0)
    × (t.gate.actual ≡ true)
    × (desired t.gate ≡ not t.gate.actual)
    × (t.gate.retry ≡ none)
unfolding desired put_sessions
closing_loses_event_example =
    closing_loses_event false (at_gate held_gate false one_call) 0 first_session refl
