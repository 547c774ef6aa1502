-- ===== src/RigGate/Sections.antt =====
-- internal/bridge/riggate.go: each section of a goroutine keeps what holds at its gate.
use tncd.Prelude.{
  Bool, Bool-cases, Bytes, Option, [], ap, arith, false, get_elem?, inl, inr, none, not, refl, some,
  suc, sym, true, zero, ℕ, ◌+◌, ◌-◌, ◌==◌, ◌||◌, ◌∙◌, ◌∷◌, ◌≡◌,
}
use tncd.RigGate.{
  RigGate, commit, desired, drained, log_step_error, reconcile, release_retry_delays, same,
  schedule_retry,
}
use tncd.RigGate.Threads.{
  Pc, Runner, Shared, advance, background, caller, calling, checking, closing, committing, queued,
  reading, reporting, returned, shut_calling, shut_queued, shut_recording, shut_unlocking, shutting,
}
use tncd.RigGate.Draining.{different_lem}
use tncd.RigGate.Invariant.{
  Fits, Holds, IsAlternating, IsRetry, Keeps, applied, bit, converging, holds, total,
}

pub held : (io : ℕ) (b : Bool) → io + 1 ≡ bit b → (io ≡ 0) × (b ≡ true)
held io true h = (omega arith, refl)
held io false h = absurd (omega arith)

flips : (a w c : Bool) → a ≡ not w → a ≡ c → w ≡ not c
flips a true c p q = ap not (sym p ∙ q)
flips a false c p q = ap not (sym p ∙ q)

IsRetry-held :
    (actual : Bool) (failures : ℕ) (r : Option ℕ)
    → IsRetry actual failures r
    → IsRetry true failures r
unfolding IsRetry
IsRetry-held actual failures none h = tt
IsRetry-held actual failures (some d) h = (refl, h.1)

-- The delays are those of the first four failures.
IsRetry-at : (n : ℕ) → IsRetry true (n + 1) (get_elem? release_retry_delays n)
unfolding IsRetry
IsRetry-at zero = (refl, omega arith)
IsRetry-at (suc zero) = (refl, omega arith)
IsRetry-at (suc (suc zero)) = (refl, omega arith)
IsRetry-at (suc (suc (suc zero))) = (refl, omega arith)
IsRetry-at (suc (suc (suc (suc n)))) = tt

retry_failed :
    (g : RigGate) (e : Bytes)
    → g.actual ≡ true
    → IsRetry g.actual (g.release_failures + 1) (commit false (some e) g).retry
unfolding commit schedule_retry
retry_failed g e h =
    let counted : (g.release_failures + 1 == 0) ≡ false = ground arith in
    let back : g.release_failures + 1 - 1 ≡ g.release_failures = omega arith in
    rw (h, counted, back) (IsRetry-at g.release_failures)

pub queued_waits :
    (answer : Option Bytes) (s : Shared) (r : Runner)
    → s.io_mu ≡ true
    → advance answer s (queued r) ≡ none
unfolding advance
queued_waits answer s r k = simp (k)

-- The steps that look at the gate or at `ioMu` first.
pub checking_stays :
    (answer : Option Bytes) (s : Shared)
    → (s.gate.busy || same (desired s.gate) s.gate.actual) ≡ true
    → advance answer s checking ≡ some (s, [])
unfolding advance reconcile
checking_stays answer s k = simp (k)

pub checking_starts :
    (answer : Option Bytes) (s : Shared)
    → (s.gate.busy || same (desired s.gate) s.gate.actual) ≡ false
    → advance answer s checking
      ≡ some (record s { gate = record s.gate { busy = true } }, queued background ∷ [])
unfolding advance reconcile
checking_starts answer s k = simp (k)

pub queued_locks :
    (answer : Option Bytes) (s : Shared) (r : Runner)
    → s.io_mu ≡ false
    → advance answer s (queued r) ≡ some (record s { io_mu = true }, reading r ∷ [])
unfolding advance
queued_locks answer s r k = simp (k)

pub reading_ends :
    (answer : Option Bytes) (s : Shared) (r : Runner)
    → same (desired s.gate) s.gate.actual ≡ true
    → advance answer s (reading r) ≡ some (record s { io_mu = false }, returned r)
unfolding advance
reading_ends answer s r k = simp (k)

pub reading_calls :
    (answer : Option Bytes) (s : Shared) (r : Runner)
    → same (desired s.gate) s.gate.actual ≡ false
    → advance answer s (reading r) ≡ some (s, calling r (desired s.gate) ∷ [])
unfolding advance
reading_calls answer s r k = simp (k)

pub not_busy : (a b : Bool) → (a || b) ≡ false → a ≡ false
not_busy true b h = h
not_busy false b h = refl

Keeps-checking :
    (io others : ℕ) (answer : Option Bytes) (s : Shared)
    → Holds io others s (checking ∷ [])
    → Keeps io others s (advance answer s checking)
unfolding total holds converging Fits
Keeps-checking io others answer s (one, alone, fit, free, alt, again) =
    elim (Bool-cases (s.gate.busy || same (desired s.gate) s.gate.actual)) [
      | inl k ↦
          rw (checking_stays answer s k) ((one, alone, tt, free, alt, again), inr (refl, refl))
      | inr k ↦
          let idle =
            alone ∙ ap bit (not_busy s.gate.busy (same (desired s.gate) s.gate.actual) k) in
          rw (checking_starts answer s k)
            ((one, omega arith, (tt, tt), free, alt, again), inr (refl, refl))
    ]

Keeps-queued :
    (io others : ℕ) (answer : Option Bytes) (s : Shared) (r : Runner)
    → Holds io others s (queued r ∷ [])
    → Keeps io others s (advance answer s (queued r))
unfolding total holds converging Fits
Keeps-queued io others answer s r (one, alone, fit, free, alt, again) = elim (Bool-cases s.io_mu) [
  | inl k ↦ rw (queued_waits answer s r k) tt
  | inr k ↦
      let open_io = one ∙ ap bit k in
      rw (queued_locks answer s r k) (
        (omega arith, alone, (free k, tt), λ e. absurd (ground arith), alt, again),
        inr (refl, refl),
      )
]

Keeps-reading_end :
    (io others : ℕ) (s : Shared) (r : Runner)
    → Holds io others s (reading r ∷ [])
    → Keeps io others s (some (record s { io_mu = false }, returned r))
unfolding total holds converging Fits
Keeps-reading_end io others s background (one, alone, fit, free, alt, again) =
    let (none_else, taken) = held io s.io_mu one in
    ((omega arith, alone, (tt, tt), λ e. fit.0, alt, again), inl none_else)
Keeps-reading_end io others s caller (one, alone, fit, free, alt, again) =
    let (none_else, taken) = held io s.io_mu one in
    ((omega arith, alone, tt, λ e. fit.0, alt, again), inl none_else)

Keeps-reading :
    (io others : ℕ) (answer : Option Bytes) (s : Shared) (r : Runner)
    → Holds io others s (reading r ∷ [])
    → Keeps io others s (advance answer s (reading r))
unfolding total holds converging Fits
Keeps-reading io others answer s r (one, alone, fit, free, alt, again) =
    elim (Bool-cases (same (desired s.gate) s.gate.actual)) [
      | inl k ↦
          rw (reading_ends answer s r k)
            (Keeps-reading_end io others s r (one, alone, fit, free, alt, again))
      | inr k ↦
          let (none_else, taken) = held io s.io_mu one in
          let away = different_lem (desired s.gate) s.gate.actual k in
          rw (reading_calls answer s r k)
            ((one, alone, ((away, fit.0), tt), free, alt, again), inl none_else)
    ]

Keeps-calling :
    (io others : ℕ) (answer : Option Bytes) (s : Shared) (r : Runner) (want : Bool)
    → Holds io others s (calling r want ∷ [])
    → Keeps io others s (advance answer s (calling r want))
unfolding advance total holds converging Fits IsAlternating
Keeps-calling io others answer s r want (one, alone, ((away, last), _), free, alt, again) =
    let (none_else, taken) = held io s.io_mu one in
    let turn = flips s.gate.actual want (applied s.calls) away last in
    let locked : s.io_mu ≡ false → s.gate.actual ≡ applied ((want, answer) ∷ s.calls) =
      λ e. absurd (ground arith) in
    elim answer as (λ a. Keeps io others s (advance a s (calling r want))) [
      | none ↦ (
        (one, alone, ((away, refl), tt), λ e. absurd (ground arith), (turn, alt), again),
        inl none_else,
      )
      | some e ↦ (
        (one, alone, ((away, last), tt), λ e. absurd (ground arith), (turn, alt), again),
        inl none_else,
      )
    ]

Keeps-committing :
    (io others : ℕ) (ignored answer : Option Bytes) (s : Shared) (r : Runner) (want : Bool)
    → Holds io others s (committing r want answer ∷ [])
    → Keeps io others s (advance ignored s (committing r want answer))
unfolding advance total holds converging Fits commit
Keeps-committing io others ignored none s r true (one, alone, ((away, last), _), free, alt, again) =
    let (none_else, taken) = held io s.io_mu one in
    (
      (
        omega arith,
        alone,
        (tt, tt),
        λ e. sym last,
        alt,
        IsRetry-held s.gate.actual s.gate.release_failures s.gate.retry again,
      ),
      inl none_else,
    )
Keeps-committing io others ignored none s r false
      (one, alone, ((away, last), _), free, alt, again) =
    let (none_else, taken) = held io s.io_mu one in
    ((omega arith, alone, (tt, tt), λ e. sym last, alt, unfold IsRetry in tt), inl none_else)
Keeps-committing io others ignored (some e) s r true
      (one, alone, ((away, last), _), free, alt, again) =
    let (none_else, taken) = held io s.io_mu one in
    ((omega arith, alone, (tt, tt), λ e. last, alt, again), inl none_else)
Keeps-committing io others ignored (some e) s r false
      (one, alone, ((away, last), _), free, alt, again) =
    let (none_else, taken) = held io s.io_mu one in
    ((omega arith, alone, (tt, tt), λ e. last, alt, retry_failed s.gate e away), inl none_else)

Keeps-reporting :
    (io others : ℕ) (answer : Option Bytes) (s : Shared) (r : Runner) (want : Bool)
    (failure : Bytes)
    → Holds io others s (reporting r want failure ∷ [])
    → Keeps io others s (advance answer s (reporting r want failure))
unfolding advance total holds converging log_step_error Fits
Keeps-reporting io others answer s background true failure (one, alone, fit, free, alt, again) =
    ((one, alone, (tt, tt), free, alt, again), inr (refl, refl))
Keeps-reporting io others answer s background false failure (one, alone, fit, free, alt, again) =
    ((one, alone, (tt, tt), free, alt, again), inr (refl, refl))
Keeps-reporting io others answer s caller true failure (one, alone, fit, free, alt, again) =
    ((one, alone, tt, free, alt, again), inr (refl, refl))
Keeps-reporting io others answer s caller false failure (one, alone, fit, free, alt, again) =
    ((one, alone, tt, free, alt, again), inr (refl, refl))

Keeps-closing :
    (io others : ℕ) (answer : Option Bytes) (s : Shared)
    → Holds io others s (closing ∷ [])
    → Keeps io others s (advance answer s closing)
unfolding advance total holds converging drained Fits
Keeps-closing io others answer s (one, alone, fit, free, alt, again) =
    let (none_else, was) = held others s.gate.busy alone in
    ((one, omega arith, tt, free, alt, again), inr (refl, refl))

pub Keeps-advance :
    (io others : ℕ) (answer : Option Bytes) (s : Shared) (pc : Pc)
    → Holds io others s (pc ∷ [])
    → Keeps io others s (advance answer s pc)
unfolding Fits
Keeps-advance io others answer s checking h = Keeps-checking io others answer s h
Keeps-advance io others answer s (queued r) h = Keeps-queued io others answer s r h
Keeps-advance io others answer s (reading r) h = Keeps-reading io others answer s r h
Keeps-advance io others answer s (calling r want) h = Keeps-calling io others answer s r want h
Keeps-advance io others answer s (committing r want result) h =
    Keeps-committing io others answer result s r want h
Keeps-advance io others answer s (reporting r want failure) h =
    Keeps-reporting io others answer s r want failure h
Keeps-advance io others answer s closing h = Keeps-closing io others answer s h
Keeps-advance io others answer s shutting (one, alone, (bad, _), free, alt, again) = absurd bad
Keeps-advance io others answer s shut_queued (one, alone, (bad, _), free, alt, again) = absurd bad
Keeps-advance io others answer s shut_calling (one, alone, (bad, _), free, alt, again) = absurd bad
Keeps-advance io others answer s (shut_unlocking result) (one, alone, (bad, _), free, alt, again) =
    absurd bad
Keeps-advance io others answer s shut_recording (one, alone, (bad, _), free, alt, again) =
    absurd bad
