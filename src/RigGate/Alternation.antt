-- ===== src/RigGate/Alternation.antt =====
-- internal/bridge/riggate.go: the radio calls of the goroutines at a gate, up to `shutdownWith`.
use tncd.Prelude.{
  All, Bool, Bytes, List, Option, [], arith, false, inl, inr, none, refl, some, subst, ℕ, ◌++◌, ◌+◌,
  ◌∷◌, ◌≡◌, ◌≤◌,
}
use tncd.RigGate.{drop_client, put_client, put_qsy, put_sessions}
use tncd.RigGate.Exclusion.{Reach-alone}
use tncd.RigGate.Invariant.{
  Fits, Holds, IsAlternating, IsRetry, Keeps, Unseen, applied, converging, holds, total,
  total-append, total_around,
}
use tncd.RigGate.Threads.{
  Event, Pc, Reach, Shared, Step, System, advance, arrive, arrives, caller, calling, checking,
  client_came, client_left, closing, committing, disables, ends, later, port_back, queued, reading,
  reporting, runs, sessions_are, shut_calling, shut_queued, shut_recording, shut_unlocking,
  shutting, spawned, start, timer_fires, tunes,
}
use tncd.RigGate.Sections.{Keeps-advance}

module _ (P : Pc → Type 0) where
  All-split : (front back : List Pc) → All P (front ++ back) → All P front × All P back
  All-split [] back h = (tt, h)
  All-split (pc ∷ front) back (h, hs) = let (k, l) = All-split front back hs in ((h, k), l)

  All-join : (front back : List Pc) → All P front → All P back → All P (front ++ back)
  All-join [] back h k = k
  All-join (pc ∷ front) back (h, hs) k = (h, All-join front back hs k)

free-Fits :
    (was actual : Bool) (before calls : List (Bool × Option Bytes)) (pc : Pc)
    → holds pc ≡ 0
    → Fits was before pc
    → Fits actual calls pc
unfolding holds Fits
free-Fits was actual before calls checking h k = tt
free-Fits was actual before calls (queued r) h k = tt
free-Fits was actual before calls (reading r) h k = absurd (omega arith)
free-Fits was actual before calls (calling r want) h k = absurd (omega arith)
free-Fits was actual before calls (committing r want answer) h k = absurd (omega arith)
free-Fits was actual before calls (reporting r want failure) h k = tt
free-Fits was actual before calls closing h k = tt
free-Fits was actual before calls shutting h k = k
free-Fits was actual before calls shut_queued h k = k
free-Fits was actual before calls shut_calling h k = k
free-Fits was actual before calls (shut_unlocking answer) h k = k
free-Fits was actual before calls shut_recording h k = k

All-free :
    (was actual : Bool) (before calls : List (Bool × Option Bytes)) (threads : List Pc)
    → total holds threads ≡ 0
    → All (Fits was before) threads
    → All (Fits actual calls) threads
unfolding total
All-free was actual before calls [] h k = tt
All-free was actual before calls (pc ∷ threads) h (k, ks) = (
  free-Fits was actual before calls pc (omega arith) k,
  All-free was actual before calls threads (omega arith) ks,
)

Unseen-fit :
    (io : ℕ) (s t : Shared) (threads : List Pc)
    → Unseen io s t
    → total holds threads ≤ io
    → All (Fits s.gate.actual s.calls) threads
    → All (Fits t.gate.actual t.calls) threads
Unseen-fit io s t threads (inl e) h k =
    All-free s.gate.actual t.gate.actual s.calls t.calls threads (omega arith) k
Unseen-fit io s t threads (inr (p, q)) h k = rw (p, q) k

abbrev IsSound : System → Type 0
IsSound (s, threads) = Holds 0 0 s threads

runs-IsSound :
    (answer : Option Bytes) (front back new : List Pc) (pc : Pc) (s t : Shared)
    → advance answer s pc ≡ some (t, new)
    → Holds 0 0 s (front ++ pc ∷ back)
    → Holds 0 0 t (front ++ (new ++ back))
runs-IsSound answer front back new pc s t q (one, alone, fit, free, alt, again) =
    let io = total holds (front ++ back) in
    let others = total converging (front ++ back) in
    let a : total holds (front ++ pc ∷ back) ≡ total holds (front ++ back) + total holds (pc ∷ []) =
      total_around holds front (pc ∷ []) back in
    let b : total converging (front ++ pc ∷ back)
        ≡ total converging (front ++ back) + total converging (pc ∷ []) =
      total_around converging front (pc ∷ []) back in
    let (ahead, (mine, behind)) = All-split (Fits s.gate.actual s.calls) front (pc ∷ back) fit in
    let solo : Holds io others s (pc ∷ []) =
      (omega arith, omega arith, (mine, tt), free, alt, again) in
    let kept : Keeps io others s (some (t, new)) =
      subst (λ r. Keeps io others s r) q (Keeps-advance io others answer s pc solo) in
    let ((one', alone', fit', free', alt', again'), unseen) = kept in
    let c = total_around holds front new back in
    let d = total_around converging front new back in
    let e = total-append holds front back in
    (
      omega arith,
      omega arith,
      All-join (Fits t.gate.actual t.calls) front (new ++ back)
          (Unseen-fit io s t front unseen (omega arith) ahead)
          (All-join (Fits t.gate.actual t.calls) new back fit'
            (Unseen-fit io s t back unseen (omega arith) behind)),
      free',
      alt',
      again',
    )

-- A goroutine more that is not yet at work.
spawn-IsSound :
    (s : Shared) (pc : Pc) (threads : List Pc)
    → holds pc ≡ 0
    → converging pc ≡ 0
    → Fits s.gate.actual s.calls pc
    → Holds 0 0 s threads
    → Holds 0 0 s (pc ∷ threads)
unfolding total
spawn-IsSound s pc threads h k mine (one, alone, fit, free, alt, again) =
    (omega arith, omega arith, (mine, fit), free, alt, again)

without_retry :
    (s : Shared) (threads : List Pc)
    → Holds 0 0 s threads
    → Holds 0 0 (record s { gate = record s.gate { retry = none } }) threads
unfolding IsRetry
without_retry s threads (one, alone, fit, free, alt, again) = (one, alone, fit, free, alt, tt)

fires-IsSound :
    (s : Shared) (threads : List Pc) (r : Option ℕ)
    → Holds 0 0 s threads
    → Holds 0 0 s (spawned timer_fires r ++ threads)
unfolding spawned holds converging Fits
fires-IsSound s threads none h = h
fires-IsSound s threads (some d) h = spawn-IsSound s checking threads refl refl tt h

arrives-IsSound :
    (e : Event) (s : Shared) (threads : List Pc)
    → Holds 0 0 s threads
    → Holds 0 0 (record s { gate = arrive e s.gate }) (spawned e s.gate.retry ++ threads)
unfolding arrive spawned holds converging Fits put_sessions put_client drop_client put_qsy
arrives-IsSound (sessions_are n) s threads h =
    spawn-IsSound (record s { gate = put_sessions n s.gate }) checking threads refl refl tt h
arrives-IsSound client_came s threads h =
    spawn-IsSound (record s { gate = put_client s.gate }) checking threads refl refl tt h
arrives-IsSound client_left s threads h =
    spawn-IsSound (record s { gate = drop_client s.gate }) checking threads refl refl tt h
arrives-IsSound tunes s threads h =
    spawn-IsSound (record s { gate = put_qsy s.gate }) (queued caller) threads refl refl tt h
arrives-IsSound port_back s threads h = spawn-IsSound s checking threads refl refl tt h
arrives-IsSound timer_fires s threads h =
    fires-IsSound (record s { gate = record s.gate { retry = none } }) threads s.gate.retry
      (without_retry s threads h)
arrives-IsSound disables s threads h = h

Step-IsSound : (a b : System) → Step a b → IsSound a → IsSound b
Step-IsSound _ _ (runs answer front back new pc s t q) h =
    runs-IsSound answer front back new pc s t q h
Step-IsSound _ _ (arrives e s threads) h = arrives-IsSound e s threads h

Reach-IsSound : (ended : Bool) (a : System) → Reach ended a → ended ≡ false → IsSound a
unfolding total applied IsAlternating IsRetry
Reach-IsSound _ _ start h = (refl, refl, tt, λ e. refl, tt, tt)
Reach-IsSound _ _ (later ended a b r st) h = Step-IsSound a b st (Reach-IsSound ended a r h)
Reach-IsSound _ _ (ends ended s threads r) h = absurd (ground arith)

-- However the goroutines of a gate and the events interleave, as long as `shutdownWith` has not been
-- called: at most one goroutine is between the lock and the unlock of `ioMu`, and at most one
-- background `drain` runs; each call of the radio asks for the opposite of what the last call without
-- an error left; and whenever `ioMu` is free, `actual` is what that call left. A delayed restore is
-- armed only while `actual` holds and fewer than five restores in a row have failed.
pub reach_lem :
    (s : Shared) (threads : List Pc)
    → Reach false (s, threads)
    → (total holds threads ≤ 1)
      × (total converging threads ≤ 1)
      × IsAlternating s.calls
      × (s.io_mu ≡ false → s.gate.actual ≡ applied s.calls)
      × IsRetry s.gate.actual s.gate.release_failures s.gate.retry
reach_lem s threads r =
    let (one, alone) = Reach-alone false s threads r in
    let (_, _, fit, free, alt, again) = Reach-IsSound false (s, threads) r refl in
    (one, alone, alt, free, again)
