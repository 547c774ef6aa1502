-- ===== src/RigGate/LostEvent.antt =====
-- internal/bridge/riggate.go: an event between the last `step` of `drain` and the deferred reset of
-- `busy`.
use tncd.Prelude.{Bool, [], arith, false, none, not, refl, true, ℕ, ◌+◌, ◌||◌, ◌∷◌, ◌≡◌}
use tncd.RigGate.{desired, drained, put_sessions, same}
use tncd.RigGate.Threads.{
  Reach, Shared, advance, arrive, arrives, checking, closing, later, runs, sessions_are, spawned,
}
use tncd.RigGate.Invariant.{bit, converging, total}
use tncd.RigGate.Sections.{checking_stays}
use tncd.RigGate.Exclusion.{Reach-Counts}

is_busy : (b : Bool) → 0 + 1 ≡ bit b → b ≡ true
is_busy true h = refl
is_busy false h = absurd (omega arith)

closing_busy : (ended : Bool) (s : Shared) → Reach ended (s, closing ∷ []) → s.gate.busy ≡ true
unfolding total converging
closing_busy ended s r = is_busy s.gate.busy (Reach-Counts ended (s, closing ∷ []) r).1

busy_or : (a b : Bool) → a ≡ true → (a || b) ≡ true
busy_or true b h = refl
busy_or false b h = absurd (ground arith)

-- The gate when the event has come and the background `drain` has ended.
abbrev lost : ℕ → Shared → Shared
lost n s = record s { gate = drained (put_sessions n s.gate) }

-- When a background `drain` has found nothing more to do and has not yet reset `busy`, a change of
-- the number of sessions reaches a state in which no goroutine is left at the gate, the radio is as
-- it was, and no attempt is pending that was not, although the gate now wants the opposite.
pub closing_loses_event :
    (ended : Bool) (s : Shared) (n : ℕ)
    → Reach ended (s, closing ∷ [])
    → desired (put_sessions n s.gate) ≡ not s.gate.actual
    → (t : Shared) × Reach ended (t, [])
      × (t.gate.sessions ≡ n)
      × (t.gate.actual ≡ s.gate.actual)
      × (desired t.gate ≡ not t.gate.actual)
      × (t.gate.retry ≡ s.gate.retry)
unfolding put_sessions drained desired arrive spawned advance
closing_loses_event ended s n r h =
    let e = record s { gate = put_sessions n s.gate } in
    let skip = busy_or s.gate.busy (same (desired e.gate) e.gate.actual) (closing_busy ended s r) in
    let came : Reach ended (e, checking ∷ closing ∷ []) =
      later ended _ _ r (arrives (sessions_are n) s (closing ∷ [])) in
    let seen : Reach ended (e, closing ∷ []) =
      later ended _ _ came
        (runs none [] (closing ∷ []) [] checking e e (checking_stays none e skip)) in
    let gone : Reach ended (lost n s, []) =
      later ended _ _ seen (runs none [] [] [] closing e (lost n s) refl) in
    (lost n s, gone, refl, refl, h, refl)
