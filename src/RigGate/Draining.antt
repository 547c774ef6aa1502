-- ===== src/RigGate/Draining.antt =====
-- internal/bridge/riggate.go: `drain`, whatever others do to the gate in between.
use tncd.Prelude.{
  Bool, Bool-cases, Bytes, Option, Option-cases, ap, arith, false, inl, inr, none, not, refl, some,
  subst, suc, sym, true, zero, ℕ, ◌∙◌, ◌≡◌, ◌⊎◌,
}
use tncd.RigGate.{Interference, RigGate, commit, desired, drain, log_step_error, same}

-- How `drain` ends: without an error the radio is where the gate wants it, and an error is the
-- radio's answer in the last round, where there was something to do.
abbrev pub Settled :
    (ℕ → Bool → Option Bytes) → (ℕ → Interference) → RigGate → Option Bytes → Type 0
Settled radio others h none = h.actual ≡ desired h
Settled radio others h (some e) =
    (i : ℕ) × (x : RigGate) × (x.actual ≡ not (desired x))
    × (radio i (desired x) ≡ some e)
    × (h
        ≡ log_step_error (desired x) e
            ((others i).after (commit (desired x) (some e) ((others i).during x))))

abbrev pub Settles :
    (ℕ → Bool → Option Bytes) → (ℕ → Interference) → Option (RigGate × Option Bytes) → Type 0
Settles radio others r =
    (h : RigGate) × (failure : Option Bytes) × (r ≡ some (h, failure))
    × Settled radio others h failure

module _ (radio : ℕ → Bool → Option Bytes) (others : ℕ → Interference) where
  -- A round that finds the radio where it should be.
  round_quiet :
      (fuel : ℕ) (g : RigGate) (want : Bool)
      → desired ((others fuel).before g) ≡ want
      → ((others fuel).before g).actual ≡ want
      → drain (suc fuel) radio others g ≡ some ((others fuel).before g, none)
  unfolding drain
  round_quiet fuel g true p q = simp (p, q)
  round_quiet fuel g false p q = simp (p, q)

  round_error :
      (fuel : ℕ) (g : RigGate) (want : Bool) (e : Bytes)
      → desired ((others fuel).before g) ≡ want
      → ((others fuel).before g).actual ≡ not want
      → radio fuel want ≡ some e
      → drain (suc fuel) radio others g
        ≡ some (
          log_step_error want e (
              (others fuel).after
                (commit want (some e) ((others fuel).during ((others fuel).before g)))),
          some e,
        )
  unfolding drain
  round_error fuel g true e p q r = simp (p, q, r)
  round_error fuel g false e p q r = simp (p, q, r)

  -- The gate after a round that moved the radio.
  abbrev moved : ℕ → Bool → RigGate → RigGate
  moved fuel want g = commit want none ((others fuel).during ((others fuel).before g))

  round_moved :
      (fuel : ℕ) (g : RigGate) (want : Bool)
      → desired ((others fuel).before g) ≡ want
      → ((others fuel).before g).actual ≡ not want
      → radio fuel want ≡ none
      → drain (suc fuel) radio others g ≡ drain fuel radio others (moved fuel want g)
  unfolding drain
  round_moved fuel g true p q r = simp (p, q, r)
  round_moved fuel g false p q r = simp (p, q, r)

-- The move itself does not change what is desired.
desired-commit :
    (g : RigGate) (want : Bool) → desired g ≡ want → desired (commit want none g) ≡ want
unfolding desired commit
desired-commit g true p = p
desired-commit g false p = ground arith

commit_lem :
    (g : RigGate) (want : Bool)
    → ((commit want none g).actual ≡ want)
      × ((commit want none g).sessions ≡ g.sessions)
      × ((commit want none g).clients ≡ g.clients)
unfolding commit
commit_lem g true = (refl, refl, refl)
commit_lem g false = (refl, refl, refl)

same_lem : (a b : Bool) → same a b ≡ true → b ≡ a
same_lem true b h = h
same_lem false true h = sym h
same_lem false false h = refl

pub different_lem : (a b : Bool) → same a b ≡ false → b ≡ not a
different_lem true b h = h
different_lem false true h = refl
different_lem false false h = sym h

module _ (radio : ℕ → Bool → Option Bytes) (others : ℕ → Interference) where
  -- A round ends `drain`, or it moves the radio.
  round_lem :
      (fuel : ℕ) (g : RigGate)
      → Settles radio others (drain (suc fuel) radio others g)
        ⊎ ((want : Bool) × (desired ((others fuel).before g) ≡ want)
            × (drain (suc fuel) radio others g
                ≡ drain fuel radio others (moved radio others fuel want g)))
  round_lem fuel g =
      let x = (others fuel).before g in
      elim (Bool-cases (same (desired x) x.actual)) [
        | inl t ↦
            let k = same_lem (desired x) x.actual t in
            inl (x, none, round_quiet radio others fuel g (desired x) refl k, k)
        | inr t ↦
            let away = different_lem (desired x) x.actual t in
            elim (Option-cases (radio fuel (desired x))) [
              | inl r ↦
                  inr (desired x, refl, round_moved radio others fuel g (desired x) refl away r)
              | inr (e, r) ↦ inl (
                _,
                some e,
                round_error radio others fuel g (desired x) e refl away r,
                (fuel, x, away, r, refl),
              )
            ]
      ]

  -- Nothing comes between the reading of the state in one round and in the next, the last one.
  drain_undisturbed :
      (g : RigGate)
      → ((x : RigGate) → (others 1).during x ≡ x)
      → ((x : RigGate) → (others 0).before x ≡ x)
      → Settles radio others (drain 2 radio others g)
  drain_undisturbed g calm still = elim (round_lem 1 g) [
    | inl done ↦ done
    | inr (want, p, q) ↦
        let x = (others 1).before g in
        let h = moved radio others 1 want g in
        let same_gate : h ≡ commit want none x = ap (commit want none) (calm x) in
        let now : h.actual ≡ want =
          ap (λ (y : RigGate). y.actual) same_gate ∙ (commit_lem x want).0 in
        let wants : desired h ≡ want = ap desired same_gate ∙ desired-commit x want p in
        let quiet =
          round_quiet radio others 0 h want (ap desired (still h) ∙ wants)
            (ap (λ (y : RigGate). y.actual) (still h) ∙ now) in
        (h, none, q ∙ (quiet ∙ ap (λ (y : RigGate). some (y, none)) (still h)), now ∙ sym wants)
  ]

-- Others may do anything to the gate around the rounds of `drain`, and the radio may answer anything:
-- if in some round nothing comes between the reading of the state and the next one's, `drain` ends in
-- these two rounds or earlier. Without an error it leaves the radio where the gate wants it; an error
-- is the radio's answer to a call that there was need for, and only what others did, the counting of
-- a failed restore and its reason follow on that call.
pub drain-Settles :
    (n : ℕ) (radio : ℕ → Bool → Option Bytes) (others : ℕ → Interference) (g : RigGate)
    → ((x : RigGate) → (others 1).during x ≡ x)
    → ((x : RigGate) → (others 0).before x ≡ x)
    → Settles radio others (drain (suc (suc n)) radio others g)
drain-Settles zero radio others g calm still = drain_undisturbed radio others g calm still
drain-Settles (suc n) radio others g calm still = elim (round_lem radio others (suc (suc n)) g) [
  | inl done ↦ done
  | inr (want, p, q) ↦
      subst (Settles radio others) (sym q)
        (drain-Settles n radio others (moved radio others (suc (suc n)) want g) calm still)
]
