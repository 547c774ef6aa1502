-- ===== src/RigGate/Exclusion.antt =====
-- internal/bridge/riggate.go: `ioMu` and `busy`, also while `shutdownWith` runs.
use tncd.Prelude.{
  Bool, Bool-cases, Bytes, List, Option, [], ap, arith, false, if◌then◌else◌, inl, inr, none, refl,
  some, subst, true, ℕ, ◌++◌, ◌+◌, ◌||◌, ◌∙◌, ◌∷◌, ◌≡◌, ◌≤◌,
}
use tncd.RigGate.{
  commit, desired, drained, drop_client, log_step_error, put_client, put_qsy, put_sessions, same,
}
use tncd.RigGate.Threads.{
  Event, Pc, Reach, Runner, Shared, System, advance, arrive, arrives, background, caller, calling,
  checking, client_came, client_left, closing, committing, disables, ends, later, port_back, queued,
  reading, reporting, returned, runs, sessions_are, shut_calling, shut_queued, shut_recording,
  shut_unlocking, shutting, spawned, start, timer_fires, tunes,
}
use tncd.RigGate.Invariant.{bit, converging, holds, total, total_around}
use tncd.RigGate.Sections.{
  checking_starts, checking_stays, held, not_busy, queued_locks, queued_waits, reading_calls,
  reading_ends,
}

-- Who holds `ioMu` and who is behind `busy`, for some of the goroutines and the numbers of the others.
abbrev Counts : ℕ → ℕ → Shared → List Pc → Type 0
Counts io others s threads =
    (io + total holds threads ≡ bit s.io_mu) × (others + total converging threads ≡ bit s.gate.busy)

abbrev KeepsCounts : ℕ → ℕ → Option (Shared × List Pc) → Type 0
KeepsCounts io others none = Unit
KeepsCounts io others (some (t, new)) = Counts io others t new

Counts-returned :
    (io others : ℕ) (s : Shared) (r : Runner)
    → Counts io others s (reading r ∷ [])
    → Counts io others (record s { io_mu = false }) (returned r)
unfolding total holds converging
Counts-returned io others s background (one, alone) =
    let (none_else, taken) = held io s.io_mu one in (omega arith, alone)
Counts-returned io others s caller (one, alone) =
    let (none_else, taken) = held io s.io_mu one in (omega arith, alone)

Counts-reported :
    (io others : ℕ) (answer : Option Bytes) (s : Shared) (r : Runner) (want : Bool)
    (failure : Bytes)
    → Counts io others s (reporting r want failure ∷ [])
    → KeepsCounts io others (advance answer s (reporting r want failure))
unfolding advance total holds converging log_step_error
Counts-reported io others answer s background true failure c = c
Counts-reported io others answer s background false failure c = c
Counts-reported io others answer s caller true failure c = c
Counts-reported io others answer s caller false failure c = c

Counts-committed :
    (io others : ℕ) (ignored answer : Option Bytes) (s : Shared) (r : Runner) (want : Bool)
    → Counts io others s (committing r want answer ∷ [])
    → KeepsCounts io others (advance ignored s (committing r want answer))
unfolding advance total holds converging commit
Counts-committed io others ignored none s r true (one, alone) =
    let (none_else, taken) = held io s.io_mu one in (omega arith, alone)
Counts-committed io others ignored none s r false (one, alone) =
    let (none_else, taken) = held io s.io_mu one in (omega arith, alone)
Counts-committed io others ignored (some e) s r true (one, alone) =
    let (none_else, taken) = held io s.io_mu one in (omega arith, alone)
Counts-committed io others ignored (some e) s r false (one, alone) =
    let (none_else, taken) = held io s.io_mu one in (omega arith, alone)

-- The sections that look at the gate or at `ioMu` first.
Counts-checking :
    (io others : ℕ) (answer : Option Bytes) (s : Shared)
    → Counts io others s (checking ∷ [])
    → KeepsCounts io others (advance answer s checking)
unfolding total holds converging
Counts-checking io others answer s (one, alone) =
    elim (Bool-cases (s.gate.busy || same (desired s.gate) s.gate.actual)) [
      | inl k ↦ rw (checking_stays answer s k) (one, alone)
      | inr k ↦
          let idle =
            alone ∙ ap bit (not_busy s.gate.busy (same (desired s.gate) s.gate.actual) k) in
          rw (checking_starts answer s k) (one, omega arith)
    ]

Counts-queued :
    (io others : ℕ) (answer : Option Bytes) (s : Shared) (r : Runner)
    → Counts io others s (queued r ∷ [])
    → KeepsCounts io others (advance answer s (queued r))
unfolding total holds converging
Counts-queued io others answer s r (one, alone) = elim (Bool-cases s.io_mu) [
  | inl k ↦ rw (queued_waits answer s r k) tt
  | inr k ↦ let open_io = one ∙ ap bit k in rw (queued_locks answer s r k) (omega arith, alone)
]

Counts-reading :
    (io others : ℕ) (answer : Option Bytes) (s : Shared) (r : Runner)
    → Counts io others s (reading r ∷ [])
    → KeepsCounts io others (advance answer s (reading r))
unfolding total
Counts-reading io others answer s r c = elim (Bool-cases (same (desired s.gate) s.gate.actual)) [
  | inl k ↦ rw (reading_ends answer s r k) (Counts-returned io others s r c)
  | inr k ↦ rw (reading_calls answer s r k) (unfold holds converging in c)
]

shut_waits :
    (answer : Option Bytes) (s : Shared) → s.io_mu ≡ true → advance answer s shut_queued ≡ none
unfolding advance
shut_waits answer s k = simp (k)

shut_locks :
    (answer : Option Bytes) (s : Shared)
    → s.io_mu ≡ false
    → advance answer s shut_queued ≡ some (record s { io_mu = true }, shut_calling ∷ [])
unfolding advance
shut_locks answer s k = simp (k)

Counts-shut_queued :
    (io others : ℕ) (answer : Option Bytes) (s : Shared)
    → Counts io others s (shut_queued ∷ [])
    → KeepsCounts io others (advance answer s shut_queued)
unfolding total holds converging
Counts-shut_queued io others answer s (one, alone) = elim (Bool-cases s.io_mu) [
  | inl k ↦ rw (shut_waits answer s k) tt
  | inr k ↦ let open_io = one ∙ ap bit k in rw (shut_locks answer s k) (omega arith, alone)
]

no_more : (f : Pc → ℕ) (b : Bool) (pc : Pc) → f pc ≡ 0 → total f (if b then pc ∷ [] else []) ≡ 0
unfolding total
no_more f true pc h = omega arith
no_more f false pc h = refl

Counts-unlocked :
    (io others : ℕ) (ignored answer : Option Bytes) (s : Shared)
    → Counts io others s (shut_unlocking answer ∷ [])
    → KeepsCounts io others (advance ignored s (shut_unlocking answer))
unfolding advance total holds converging
Counts-unlocked io others ignored none s (one, alone) =
    let (none_else, taken) = held io s.io_mu one in (omega arith, alone)
Counts-unlocked io others ignored (some e) s (one, alone) =
    let (none_else, taken) = held io s.io_mu one in (omega arith, alone)

Counts-shutting :
    (io others : ℕ) (answer : Option Bytes) (s : Shared)
    → Counts io others s (shutting ∷ [])
    → KeepsCounts io others (advance answer s shutting)
unfolding advance total holds converging
Counts-shutting io others answer s (one, alone) =
    let a = no_more holds s.gate.actual shut_queued refl in
    let b = no_more converging s.gate.actual shut_queued refl in
    (omega (arith, a), omega (arith, b))

Counts-closing :
    (io others : ℕ) (answer : Option Bytes) (s : Shared)
    → Counts io others s (closing ∷ [])
    → KeepsCounts io others (advance answer s closing)
unfolding advance total holds converging drained
Counts-closing io others answer s (one, alone) =
    let (none_else, was) = held others s.gate.busy alone in (one, omega arith)

Counts-advance :
    (io others : ℕ) (answer : Option Bytes) (s : Shared) (pc : Pc)
    → Counts io others s (pc ∷ [])
    → KeepsCounts io others (advance answer s pc)
unfolding advance holds converging total
Counts-advance io others answer s checking c = Counts-checking io others answer s c
Counts-advance io others answer s (queued r) c = Counts-queued io others answer s r c
Counts-advance io others answer s (reading r) c = Counts-reading io others answer s r c
Counts-advance io others answer s (calling r want) c = c
Counts-advance io others answer s (committing r want result) c =
    Counts-committed io others answer result s r want c
Counts-advance io others answer s (reporting r want failure) c =
    Counts-reported io others answer s r want failure c
Counts-advance io others answer s closing c = Counts-closing io others answer s c
Counts-advance io others answer s shutting c = Counts-shutting io others answer s c
Counts-advance io others answer s shut_queued c = Counts-shut_queued io others answer s c
Counts-advance io others answer s shut_calling c = c
Counts-advance io others answer s (shut_unlocking result) c =
    Counts-unlocked io others answer result s c
Counts-advance io others answer s shut_recording c = c

runs-Counts :
    (answer : Option Bytes) (front back new : List Pc) (pc : Pc) (s t : Shared)
    → advance answer s pc ≡ some (t, new)
    → Counts 0 0 s (front ++ pc ∷ back)
    → Counts 0 0 t (front ++ (new ++ back))
runs-Counts answer front back new pc s t q (one, alone) =
    let io = total holds (front ++ back) in
    let others = total converging (front ++ back) in
    let a : total holds (front ++ pc ∷ back) ≡ total holds (front ++ back) + total holds (pc ∷ []) =
      total_around holds front (pc ∷ []) back in
    let b : total converging (front ++ pc ∷ back)
        ≡ total converging (front ++ back) + total converging (pc ∷ []) =
      total_around converging front (pc ∷ []) back in
    let (one', alone') : Counts io others t new =
      subst (KeepsCounts io others) q
        (Counts-advance io others answer s pc (omega arith, omega arith)) in
    let c = total_around holds front new back in
    let d = total_around converging front new back in (omega arith, omega arith)

-- A goroutine more that is not yet at work.
spawn-Counts :
    (s : Shared) (pc : Pc) (threads : List Pc)
    → holds pc ≡ 0
    → converging pc ≡ 0
    → Counts 0 0 s threads
    → Counts 0 0 s (pc ∷ threads)
unfolding total
spawn-Counts s pc threads h k (one, alone) = (omega arith, omega arith)

arrives-Counts :
    (e : Event) (s : Shared) (r : Option ℕ) (threads : List Pc)
    → Counts 0 0 s threads
    → Counts 0 0 (record s { gate = arrive e s.gate }) (spawned e r ++ threads)
unfolding arrive spawned holds converging put_sessions put_client drop_client put_qsy
arrives-Counts (sessions_are n) s r threads c = spawn-Counts s checking threads refl refl c
arrives-Counts client_came s r threads c = spawn-Counts s checking threads refl refl c
arrives-Counts client_left s r threads c = spawn-Counts s checking threads refl refl c
arrives-Counts tunes s r threads c = spawn-Counts s (queued caller) threads refl refl c
arrives-Counts port_back s r threads c = spawn-Counts s checking threads refl refl c
arrives-Counts timer_fires s none threads c = c
arrives-Counts timer_fires s (some delay) threads c = spawn-Counts s checking threads refl refl c
arrives-Counts disables s r threads c = c

pub Reach-Counts : (ended : Bool) (a : System) → Reach ended a → Counts 0 0 a.0 a.1
unfolding total holds converging
Reach-Counts _ _ start = (refl, refl)
Reach-Counts _ _ (later e _ _ r (runs answer front back new pc s t q)) =
    runs-Counts answer front back new pc s t q (Reach-Counts e _ r)
Reach-Counts _ _ (later ended _ _ r (arrives e s threads)) =
    arrives-Counts e s s.gate.retry threads (Reach-Counts ended _ r)
Reach-Counts _ _ (ends e s threads r) =
    spawn-Counts s shutting threads refl refl (Reach-Counts e _ r)

bit_le : (b : Bool) (n : ℕ) → 0 + n ≡ bit b → n ≤ 1
bit_le true n h = omega arith
bit_le false n h = omega arith

-- However the goroutines of a gate, the events and the calls of `shutdownWith` interleave, at most
-- one goroutine is between the lock and the unlock of `ioMu`, where the radio is called, and at most
-- one background `drain` runs.
pub Reach-alone :
    (ended : Bool) (s : Shared) (threads : List Pc)
    → Reach ended (s, threads)
    → (total holds threads ≤ 1) × (total converging threads ≤ 1)
Reach-alone ended s threads r =
    let (one, alone) = Reach-Counts ended (s, threads) r in
    (bit_le s.io_mu (total holds threads) one, bit_le s.gate.busy (total converging threads) alone)
