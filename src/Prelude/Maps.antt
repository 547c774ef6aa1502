-- ===== src/Prelude/Maps.antt =====
-- Go's maps with a small number for their key, as association lists with one entry for a key.
use Prim.Native.Nat.{ℕ}
use mathlib.Core.Path.{◌≡◌, refl}
use mathlib.Core.Bool.{Bool, true, false}
use mathlib.Core.List.{List, [], ◌∷◌}
use mathlib.Core.Option.{Option, none, some}
use native.Mathlib.Omega.{arith}
use tncd.Prelude.Tests.{◌==◌, if◌then◌else◌}

module _ {ℓ} {Entry : Type ℓ} where
  unfoldable pub delete : ℕ → List (ℕ × Entry) → List (ℕ × Entry)
  delete key [] = []
  delete key ((at, e) ∷ others) =
      let rest = delete key others in if at == key then rest else (at, e) ∷ rest

  unfoldable pub lookup : ℕ → List (ℕ × Entry) → Option Entry
  lookup key [] = none
  lookup key ((at, e) ∷ others) = if at == key then some e else lookup key others

  unfoldable pub contains : ℕ → List (ℕ × Entry) → Bool
  contains key [] = false
  contains key ((at, e) ∷ others) = if at == key then true else contains key others

  unfoldable pub insert : ℕ → Entry → List (ℕ × Entry) → List (ℕ × Entry)
  insert key new [] = (key, new) ∷ []
  insert key new ((at, e) ∷ others) =
      if at == key then (key, new) ∷ others else (at, e) ∷ insert key new others

  pub lookup-delete :
      (key other : ℕ) (entries : List (ℕ × Entry))
      → lookup other (delete key entries) ≡ (if key == other then none else lookup other entries)
  unfolding lookup delete
  lookup-delete key other [] = ground arith
  lookup-delete key other ((at, e) ∷ entries) = ground (arith, lookup-delete key other entries)

  pub lookup-insert :
      (key other : ℕ) (new : Entry) (entries : List (ℕ × Entry))
      → lookup other (insert key new entries)
        ≡ (if key == other then some new else lookup other entries)
  unfolding lookup insert
  lookup-insert key other new [] = refl
  lookup-insert key other new ((at, e) ∷ entries) =
      ground (arith, lookup-insert key other new entries)
