-- ===== src/RigGate/Invariant.antt =====
-- internal/bridge/riggate.go: what holds at each gate, whatever its goroutines do.
use tncd.Prelude.{
  All, Bool, Bytes, List, Option, [], arith, false, none, not, some, true, ℕ, ◌++◌, ◌+◌, ◌<◌, ◌∷◌,
  ◌≡◌, ◌⊎◌,
}
use tncd.RigGate.Threads.{
  Pc, Runner, Shared, background, caller, calling, checking, closing, committing, queued, reading,
  reporting, shut_calling, shut_queued, shut_recording, shut_unlocking, shutting,
}

-- Whether the last call that did not fail was `apply`.
unfoldable pub applied : List (Bool × Option Bytes) → Bool
applied [] = false
applied ((want, none) ∷ before) = want
applied ((want, some _) ∷ before) = applied before

-- Each call asks for the opposite of what the last one that did not fail left.
unfoldable pub IsAlternating : List (Bool × Option Bytes) → Type 0
unfolding applied
IsAlternating [] = Unit
IsAlternating ((want, answer) ∷ before) = (want ≡ not (applied before)) × IsAlternating before

-- Whether a goroutine holds `ioMu`, and whether it is the background `drain`.
unfoldable pub holds : Pc → ℕ
holds (reading r) = 1
holds (calling r want) = 1
holds (committing r want answer) = 1
holds shut_calling = 1
holds (shut_unlocking answer) = 1
holds _ = 0

abbrev pub in_background : Runner → ℕ
in_background background = 1
in_background caller = 0

unfoldable pub converging : Pc → ℕ
converging checking = 0
converging (queued r) = in_background r
converging (reading r) = in_background r
converging (calling r want) = in_background r
converging (committing r want answer) = in_background r
converging (reporting r want failure) = in_background r
converging closing = 1
converging _ = 0

unfoldable pub total : (Pc → ℕ) → List Pc → ℕ
total f [] = 0
total f (pc ∷ threads) = f pc + total f threads

pub total-append :
    (f : Pc → ℕ) (front back : List Pc) → total f (front ++ back) ≡ total f front + total f back
unfolding total
total-append f [] back = omega arith
total-append f (pc ∷ front) back = let ih = total-append f front back in omega arith

-- The others of a goroutine.
pub total_around :
    (f : Pc → ℕ) (front new back : List Pc)
    → total f (front ++ (new ++ back)) ≡ total f (front ++ back) + total f new
total_around f front new back =
    let a = total-append f front (new ++ back) in
    let b = total-append f new back in let c = total-append f front back in omega arith

-- What a goroutine that holds `ioMu` has to find, where `shutdownWith` has not been called.
unfoldable pub Fits : Bool → List (Bool × Option Bytes) → Pc → Type 0
unfolding applied
Fits actual calls (reading r) = actual ≡ applied calls
Fits actual calls (calling r want) = (actual ≡ not want) × (actual ≡ applied calls)
Fits actual calls (committing r want none) = (actual ≡ not want) × (applied calls ≡ want)
Fits actual calls (committing r want (some _)) = (actual ≡ not want) × (actual ≡ applied calls)
Fits actual calls shutting = ⊥
Fits actual calls shut_queued = ⊥
Fits actual calls shut_calling = ⊥
Fits actual calls (shut_unlocking answer) = ⊥
Fits actual calls shut_recording = ⊥
Fits actual calls _ = Unit

abbrev pub bit : Bool → ℕ
bit true = 1
bit false = 0

-- A pending restore: the radio is held, and at most four have failed in a row.
unfoldable pub IsRetry : Bool → ℕ → Option ℕ → Type 0
IsRetry actual failures none = Unit
IsRetry actual failures (some delay) = (actual ≡ true) × (failures < 5)

-- The invariant where `shutdownWith` has not been called, for some of the goroutines and the numbers
-- of what the others do.
abbrev pub Holds : ℕ → ℕ → Shared → List Pc → Type 0
Holds io others s threads =
    (io + total holds threads ≡ bit s.io_mu)
    × (others + total converging threads ≡ bit s.gate.busy)
    × All (Fits s.gate.actual s.calls) threads
    × (s.io_mu ≡ false → s.gate.actual ≡ applied s.calls)
    × IsAlternating s.calls
    × IsRetry s.gate.actual s.gate.release_failures s.gate.retry

-- What a step of one goroutine keeps of what the others see.
abbrev pub Unseen : ℕ → Shared → Shared → Type 0
Unseen io s t = (io ≡ 0) ⊎ ((t.gate.actual ≡ s.gate.actual) × (t.calls ≡ s.calls))

abbrev pub Keeps : ℕ → ℕ → Shared → Option (Shared × List Pc) → Type 0
Keeps io others s none = Unit
Keeps io others s (some (t, new)) = Holds io others t new × Unseen io s t
