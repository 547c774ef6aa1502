-- ===== src/RigGate/Threads.antt =====
-- internal/bridge/riggate.go: the goroutines at one gate, one critical section or radio call at a
-- time, those of `shutdownWith` included. The load of `disabled` comes before the sections, so an
-- event may still reach them once it is set.
use tncd.Prelude.{
  Bool, Bytes, List, Option, [], false, if◌then◌else◌, none, some, true, ℕ, ◌++◌, ◌∷◌, ◌≡◌,
}
use tncd.RigGate.{
  RigGate, commit, desired, drained, drop_client, log_step_error, new_rig_gate, put_client, put_qsy,
  put_sessions, reconcile, same,
}

-- Who runs `drain`: the goroutine of `reconcile`, or a caller of `acquireForQSY`.
pub data Runner : Type 0 where
  background : Runner
  caller : Runner

-- Where a goroutine stands.
pub data Pc : Type 0 where
  checking : Pc
  queued : Runner → Pc
  reading : Runner → Pc
  calling : Runner → Bool → Pc
  committing : Runner → Bool → Option Bytes → Pc
  reporting : Runner → Bool → Bytes → Pc
  closing : Pc
  -- `shutdownWith`: before its first section, at `ioMu`, before the call, with its answer, and
  -- before its last section.
  shutting : Pc
  shut_queued : Pc
  shut_calling : Pc
  shut_unlocking : Option Bytes → Pc
  shut_recording : Pc

-- The gate, its `ioMu`, and the calls of the radio so far, the last one first: whether it was
-- `apply`, and the answer.
pub record Shared : Type 0 where
  pub gate : RigGate
  pub io_mu : Bool
  pub calls : List (Bool × Option Bytes)

abbrev pub System : Type 0
System = Shared × List Pc

-- What follows the return of `drain`.
abbrev pub returned : Runner → List Pc
returned background = closing ∷ []
returned caller = []

-- What a goroutine does next, with what the radio would answer; none while it waits for `ioMu`.
unfoldable pub advance : Option Bytes → Shared → Pc → Option (Shared × List Pc)
unfolding reconcile desired commit log_step_error drained
advance answer s checking =
    let (g, starts) = reconcile s.gate in
    some (record s { gate = g }, if starts then queued background ∷ [] else [])
advance answer s (queued r) =
    if s.io_mu then none else some (record s { io_mu = true }, reading r ∷ [])
advance answer s (reading r) =
    if same (desired s.gate) s.gate.actual
    then some (record s { io_mu = false }, returned r)
    else some (s, calling r (desired s.gate) ∷ [])
advance answer s (calling r want) =
    some (record s { calls = (want, answer) ∷ s.calls }, committing r want answer ∷ [])
advance answer s (committing r want none) =
    some (record s { gate = commit want none s.gate; io_mu = false }, queued r ∷ [])
advance answer s (committing r want (some failure)) = some (
  record s { gate = commit want (some failure) s.gate; io_mu = false },
  reporting r want failure ∷ [],
)
advance answer s (reporting r want failure) =
    some (record s { gate = log_step_error want failure s.gate }, returned r)
advance answer s closing = some (record s { gate = drained s.gate }, [])
advance answer s shutting = some (
  record s { gate = record s.gate { sessions = 0; clients = 0; qsy = false; retry = none } },
  if s.gate.actual then shut_queued ∷ [] else [],
)
advance answer s shut_queued =
    if s.io_mu then none else some (record s { io_mu = true }, shut_calling ∷ [])
advance answer s shut_calling =
    some (record s { calls = (false, answer) ∷ s.calls }, shut_unlocking answer ∷ [])
advance answer s (shut_unlocking none) = some (record s { io_mu = false }, shut_recording ∷ [])
advance answer s (shut_unlocking (some failure)) = some (record s { io_mu = false }, [])
advance answer s shut_recording = some (record s { gate = record s.gate { actual = false } }, [])

-- What happens outside: the hooks, the port that is back, the timer. The call of `shutdownWith` is
-- `ends` of `Reach`.
pub data Event : Type 0 where
  sessions_are : ℕ → Event
  client_came : Event
  client_left : Event
  tunes : Event
  port_back : Event
  timer_fires : Event
  disables : Event

unfoldable pub arrive : Event → RigGate → RigGate
unfolding put_sessions put_client drop_client put_qsy
arrive (sessions_are n) g = put_sessions n g
arrive client_came g = put_client g
arrive client_left g = drop_client g
arrive tunes g = put_qsy g
arrive port_back g = g
arrive timer_fires g = record g { retry = none }
arrive disables g = record g { disabled = true }

unfoldable pub spawned : Event → Option ℕ → List Pc
spawned tunes retry = queued caller ∷ []
spawned timer_fires none = []
spawned timer_fires (some delay) = checking ∷ []
spawned disables retry = []
spawned _ retry = checking ∷ []

pub data Step : System → System → Type 0 where
  runs :
      (answer : Option Bytes) (front back new : List Pc) (pc : Pc) (s t : Shared)
      → advance answer s pc ≡ some (t, new)
      → Step (s, front ++ pc ∷ back) (t, front ++ (new ++ back))
  arrives :
      (e : Event) (s : Shared) (threads : List Pc)
      → Step (s, threads) (record s { gate = arrive e s.gate }, spawned e s.gate.retry ++ threads)

abbrev pub init : System
init = (record { gate = new_rig_gate; io_mu = false; calls = [] }, [])

-- The states within reach, and whether `shutdownWith` has been called.
pub data Reach : Bool → System → Type 0 where
  start : Reach false init
  later : (ended : Bool) (s t : System) → Reach ended s → Step s t → Reach ended t
  ends :
      (ended : Bool) (s : Shared) (threads : List Pc)
      → Reach ended (s, threads)
      → Reach true (s, shutting ∷ threads)
