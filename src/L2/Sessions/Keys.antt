-- ===== src/L2/Sessions/Keys.antt =====
-- ax25/l2/l2.go: the map of the connection table. Every entry has its own key, its connection bears
-- that key, and the entries of a port are counted.
use tncd.Prelude.{
  All, Bool-cases, List, [], arith, inl, inr, length, none, refl, ℕ, ◌+◌, ◌<◌, ◌∷◌, ◌≡◌, ◌≢◌, ◌≤◌,
}
use tncd.L2.State.{Conn, ConnKey, delete_key, find_key, key_eq, sessions, update}

pub record Bears (heap : ℕ → Conn) (e : ConnKey × ℕ) : Type 0 where
  pub port : (heap e.1).port ≡ e.0.port
  pub local : (heap e.1).local ≡ e.0.local
  pub remote : (heap e.1).remote ≡ e.0.remote

-- No key stands twice.
abbrev pub UniqueKeys : List (ConnKey × ℕ) → Type 0
UniqueKeys [] = Unit
UniqueKeys ((k, r) ∷ rest) = (find_key k rest ≡ none) × UniqueKeys rest

abbrev pub Allocated : ℕ → ConnKey × ℕ → Type 0
Allocated n e = e.1 < n

pub update-Bears :
    (heap : ℕ → Conn) (r : ℕ) (c : Conn) (es : List (ConnKey × ℕ))
    → c.port ≡ (heap r).port
    → c.local ≡ (heap r).local
    → c.remote ≡ (heap r).remote
    → All (Bears heap) es
    → All (Bears (update heap r c)) es
update-Bears heap r c [] p q s h = tt
update-Bears heap r c ((k, x) ∷ es) p q s h = (
  record { port = ground (arith, h.0); local = ground (arith, h.0); remote = ground (arith, h.0) },
  update-Bears heap r c es p q s h.1,
)

-- A new object does not disturb the entries, whose objects are older.
pub fresh-Bears :
    (heap : ℕ → Conn) (n : ℕ) (c : Conn) (es : List (ConnKey × ℕ))
    → All (Allocated n) es
    → All (Bears heap) es
    → All (Bears (update heap n c)) es
fresh-Bears heap n c [] a h = tt
fresh-Bears heap n c ((k, x) ∷ es) a h = (
  record { port = ground (arith, h.0); local = ground (arith, h.0); remote = ground (arith, h.0) },
  fresh-Bears heap n c es a.1 h.1,
)

pub Allocated-suc :
    (n : ℕ) (es : List (ConnKey × ℕ)) → All (Allocated n) es → All (Allocated (n + 1)) es
Allocated-suc n [] h = tt
Allocated-suc n (e ∷ es) h = (omega arith, Allocated-suc n es h.1)

module _ (k : ConnKey) where
  pub delete_key-All :
      (P : ConnKey × ℕ → Type 0) (es : List (ConnKey × ℕ)) → All P es → All P (delete_key k es)
  unfolding delete_key
  delete_key-All P [] h = tt
  delete_key-All P ((j, r) ∷ es) h = elim (Bool-cases (key_eq j k)) [
    | inl e ↦ rw e (delete_key-All P es h.1)
    | inr e ↦ rw e (h.0, delete_key-All P es h.1)
  ]

  pub length-delete_key : (es : List (ConnKey × ℕ)) → length (delete_key k es) ≤ length es
  unfolding delete_key
  length-delete_key [] = omega arith
  length-delete_key ((j, r) ∷ es) = ground (arith, length-delete_key es)

  find_key-delete_key :
      (i : ConnKey) (es : List (ConnKey × ℕ))
      → find_key i es ≡ none
      → find_key i (delete_key k es) ≡ none
  unfolding find_key delete_key
  find_key-delete_key i [] h = refl
  find_key-delete_key i ((j, r) ∷ es) h = ground (arith, find_key-delete_key i es)

  pub delete_key-UniqueKeys :
      (es : List (ConnKey × ℕ)) → UniqueKeys es → UniqueKeys (delete_key k es)
  unfolding delete_key
  delete_key-UniqueKeys [] h = tt
  delete_key-UniqueKeys ((j, r) ∷ es) h = elim (Bool-cases (key_eq j k)) [
    | inl e ↦ rw e (delete_key-UniqueKeys es h.1)
    | inr e ↦ rw e (find_key-delete_key j es h.0, delete_key-UniqueKeys es h.1)
  ]

  -- Deleting an entry of one port leaves the count of the others.
  pub sessions-delete_key :
      (p : ℕ) (es : List (ConnKey × ℕ)) → k.port ≢ p → sessions p (delete_key k es) ≡ sessions p es
  unfolding sessions delete_key
  sessions-delete_key p [] h = refl
  sessions-delete_key p ((j, r) ∷ es) h = ground (arith, sessions-delete_key p es h)
