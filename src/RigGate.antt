-- ===== src/RigGate.antt =====
-- internal/bridge/riggate.go: when the radio of a port is in packet configuration. An error is its
-- text; the calls of `apply` and `release` are a parameter that says what each answers. A Go `int`
-- counter is a number, and a port is one that is not negative. The log lines are left out.
pub mod Draining
pub mod Threads
pub mod Invariant
pub mod Sections
pub mod Exclusion
pub mod Alternation
pub mod LostEvent
use tncd.Prelude.{
  Bool, Bytes, List, Option, [], false, get_elem?, if◌then◌else◌, ltb, none, not, some, suc, true,
  zero, ℕ, ◌&&◌, ◌+◌, ◌-◌, ◌==◌, ◌||◌, ◌∷◌,
}

pub record RigGate : Type 0 where
  pub sessions : ℕ
  pub clients : ℕ
  pub qsy : Bool
  pub actual : Bool
  pub busy : Bool
  pub release_failures : ℕ
  pub last_failure : Bytes
  -- The delay in seconds of the pending attempt; a timer that has fired is none.
  pub retry : Option ℕ
  pub disabled : Bool

abbrev pub new_rig_gate : RigGate
new_rig_gate = record {
  sessions = 0;
  clients = 0;
  qsy = false;
  actual = false;
  busy = false;
  release_failures = 0;
  last_failure = [];
  retry = none;
  disabled = false;
}

-- `desiredLocked`
unfoldable pub desired : RigGate → Bool
desired g = (ltb 0 g.sessions || ltb 0 g.clients) && (ltb 0 g.sessions || g.qsy)

abbrev pub same : Bool → Bool → Bool
same true b = b
same false b = not b

-- `releaseRetryDelays`, in seconds.
abbrev pub release_retry_delays : List ℕ
release_retry_delays = 2 ∷ 10 ∷ 30 ∷ 60 ∷ []

-- `scheduleRetryLocked`
unfoldable pub schedule_retry : RigGate → RigGate
schedule_retry g = record g {
  retry =
      if g.release_failures == 0
      then none
      else get_elem? release_retry_delays (g.release_failures - 1);
}

-- The second critical section of `step`.
unfoldable pub commit : Bool → Option Bytes → RigGate → RigGate
unfolding schedule_retry
commit true none g = record g { actual = true }
commit false none g = record g {
  actual = false;
  qsy = false;
  release_failures = 0;
  last_failure = [];
  retry = none;
}
commit true (some failure) g = g
commit false (some failure) g =
    schedule_retry (record g { release_failures = g.release_failures + 1 })

-- What others do to the gate around one round of `drain`: before `step` reads the state, during the
-- call of the radio, and after the second critical section where an error is still to be logged.
pub record Interference : Type 0 where
  pub before : RigGate → RigGate
  pub during : RigGate → RigGate
  pub after : RigGate → RigGate

-- `step`, with what others do during the call of the radio: the gate, `did`, `applied` and the error.
unfoldable pub step :
    (Bool → Option Bytes) → (RigGate → RigGate) → RigGate → RigGate × Bool × Bool × Option Bytes
unfolding desired commit
step radio during g =
    let want = desired g in
    if same want g.actual
    then (g, false, want, none)
    else (commit want (radio want) (during g), true, want, radio want)

-- What `logStepError` stores.
unfoldable pub log_step_error : Bool → Bytes → RigGate → RigGate
log_step_error true failure g = g
log_step_error false failure g = record g { last_failure = failure }

-- The end of a round of `drain`; `again` is what the next rounds give.
abbrev drain_on :
    (RigGate → RigGate)
    → RigGate × Bool × Bool × Option Bytes
    → Option (RigGate × Option Bytes)
    → Option (RigGate × Option Bytes)
drain_on after (g, did, applied, some failure) again =
    some (log_step_error applied failure (after g), some failure)
drain_on after (g, true, applied, none) again = again
drain_on after (g, false, applied, none) again = some (g, none)

-- `drain`, in at most so many rounds. The radio answers, and others interfere, by the round; the
-- rounds are numbered downwards.
unfoldable pub drain :
    ℕ → (ℕ → Bool → Option Bytes) → (ℕ → Interference) → RigGate → Option (RigGate × Option Bytes)
unfolding step log_step_error
drain zero radio others g = none
drain (suc fuel) radio others g =
    let round = step (radio fuel) (others fuel).during ((others fuel).before g) in
    drain_on (others fuel).after round (drain fuel radio others round.0)

-- The critical section of `reconcile`, and whether it starts a background `drain`.
unfoldable pub reconcile : RigGate → RigGate × Bool
unfolding desired
reconcile g =
    if g.busy || same (desired g) g.actual then (g, false) else (record g { busy = true }, true)

-- What ends the background `drain`.
unfoldable pub drained : RigGate → RigGate
drained g = record g { busy = false }

-- The critical sections of the events.
unfoldable pub put_sessions : ℕ → RigGate → RigGate
put_sessions n g = record g { sessions = n }

unfoldable pub put_client : RigGate → RigGate
put_client g = record g { clients = g.clients + 1 }

unfoldable pub drop_client : RigGate → RigGate
drop_client g = record g { clients = if ltb 0 g.clients then g.clients - 1 else g.clients }

unfoldable pub put_qsy : RigGate → RigGate
put_qsy g = record g { qsy = true }

unfoldable pub set_sessions : ℕ → RigGate → RigGate × Bool
unfolding reconcile put_sessions
set_sessions n g = if g.disabled then (g, false) else reconcile (put_sessions n g)

unfoldable pub add_client : RigGate → RigGate × Bool
unfolding reconcile put_client
add_client g = if g.disabled then (g, false) else reconcile (put_client g)

unfoldable pub remove_client : RigGate → RigGate × Bool
unfolding reconcile drop_client
remove_client g = reconcile (drop_client g)

unfoldable pub acquire_for_qsy :
    ℕ → (ℕ → Bool → Option Bytes) → (ℕ → Interference) → RigGate → Option (RigGate × Option Bytes)
unfolding drain put_qsy
acquire_for_qsy fuel radio others g =
    if g.disabled then some (g, none) else drain fuel radio others (put_qsy g)

-- `shutdownWith`, with the answer of the release it is given, when nothing else moves; among other
-- goroutines it is in Threads.
unfoldable pub shutdown_with : Option Bytes → RigGate → RigGate
shutdown_with answer g =
    let e = record g { sessions = 0; clients = 0; qsy = false; retry = none } in
    if g.actual then (elim answer [ none ↦ record e { actual = false } | some _ ↦ e ]) else e

-- `b.rigGates[port]`, with the guards of the hooks: the other ports stay.
unfoldable pub with_gate {ℓ} :
    {A : Type ℓ}
    → ℕ
    → A
    → (RigGate → RigGate × A)
    → List (Option RigGate)
    → List (Option RigGate) × A
with_gate port inert hook [] = ([], inert)
with_gate zero inert hook (none ∷ gates) = (none ∷ gates, inert)
with_gate zero inert hook (some g ∷ gates) = let (h, a) = hook g in (some h ∷ gates, a)
with_gate (suc port) inert hook (gate ∷ gates) =
    let (others, a) = with_gate port inert hook gates in (gate ∷ others, a)

unfoldable pub on_port_sessions : ℕ → ℕ → List (Option RigGate) → List (Option RigGate) × Bool
unfolding with_gate set_sessions
on_port_sessions port n = with_gate port false (set_sessions n)

unfoldable pub rig_client_connected : ℕ → List (Option RigGate) → List (Option RigGate) × Bool
unfolding with_gate add_client
rig_client_connected port = with_gate port false add_client

unfoldable pub rig_client_disconnected : ℕ → List (Option RigGate) → List (Option RigGate) × Bool
unfolding with_gate remove_client
rig_client_disconnected port = with_gate port false remove_client

unfoldable pub disable_rig_settings : ℕ → List (Option RigGate) → List (Option RigGate)
unfolding with_gate
disable_rig_settings port gates =
    (with_gate {0} port tt (λ g. (record g { disabled = true }, tt)) gates).0

unfoldable pub rig_port_back : ℕ → List (Option RigGate) → List (Option RigGate) × Bool
unfolding with_gate reconcile
rig_port_back port = with_gate port false reconcile

-- `shutdownRigGates`; the radio of each port answers its release.
unfoldable pub shutdown_rig_gates :
    (ℕ → Option Bytes) → ℕ → List (Option RigGate) → List (Option RigGate)
unfolding shutdown_with
shutdown_rig_gates answer port [] = []
shutdown_rig_gates answer port (none ∷ gates) = none ∷ shutdown_rig_gates answer (port + 1) gates
shutdown_rig_gates answer port (some g ∷ gates) =
    some (shutdown_with (answer port) g) ∷ shutdown_rig_gates answer (port + 1) gates
