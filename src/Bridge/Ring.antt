-- ===== src/Bridge/Ring.antt =====
-- internal/bridge/bridge.go: the ring of `trackSent`.
use tncd.Prelude.{
  Bool-cases, Bytes, List, [], append_assoc, arith, bytes_eq_iff, drop, false, inl, inr, leb,
  length, length-append, length-drop, refl, subst, suc, true, ℕ, ◌++◌, ◌+◌, ◌<◌, ◌∷◌, ◌≡◌, ◌≤◌,
}
use tncd.Bridge.{echo_ring_size, is_echo, track_sent}

-- A frame that stands in the ring before so many others.
abbrev pub Held : Bytes → ℕ → List Bytes → Type 0
Held norm n ring =
    (front : List Bytes) × (back : List Bytes) × (ring ≡ front ++ norm ∷ back)
    × (length back ≤ n)
    × (length ring ≤ echo_ring_size)

is_echo-append :
    (norm : Bytes) (front back : List Bytes) → is_echo norm (front ++ norm ∷ back) ≡ true
unfolding is_echo
is_echo-append norm [] back = rw ((bytes_eq_iff norm norm).1 refl) refl
is_echo-append norm (s ∷ front) back = rw (is_echo-append norm front back) (ground arith)

-- The frames that are tracked one after the other.
unfoldable pub track_all : List Bytes → List Bytes → List Bytes
unfolding track_sent
track_all [] ring = ring
track_all (norm ∷ norms) ring = track_all norms (track_sent norm ring)

evicted :
    (norm other : Bytes) (n : ℕ) (front back : List Bytes)
    → n + 1 < echo_ring_size
    → length back ≤ n
    → length (front ++ norm ∷ back) ≤ echo_ring_size
    → leb echo_ring_size (length (front ++ norm ∷ back)) ≡ true
    → Held norm (n + 1) (drop 1 (front ++ norm ∷ back) ++ other ∷ [])
evicted norm other n [] back h k l t = absurd (ground (arith, t))
evicted norm other n (s ∷ front) back h k l t =
    let len = length-append back (other ∷ []) in
    let all = length-append (front ++ norm ∷ back) (other ∷ []) in
    (front, back ++ other ∷ [], rw append_assoc refl, omega (arith, len), omega (arith, all))

appended :
    (norm other : Bytes) (n : ℕ) (front back : List Bytes)
    → length back ≤ n
    → leb echo_ring_size (length (front ++ norm ∷ back)) ≡ false
    → Held norm (n + 1) ((front ++ norm ∷ back) ++ other ∷ [])
appended norm other n front back k t =
    let len = length-append back (other ∷ []) in
    let all = length-append (front ++ norm ∷ back) (other ∷ []) in
    (front, back ++ other ∷ [], rw append_assoc refl, omega (arith, len), ground (arith, all, t))

track_sent-Held :
    (norm other : Bytes) (n : ℕ) (ring : List Bytes)
    → n + 1 < echo_ring_size
    → Held norm n ring
    → Held norm (n + 1) (track_sent other ring)
unfolding track_sent
track_sent-Held norm other n ring h (front, back, e, k, l) =
    rw e (elim (Bool-cases (leb echo_ring_size (length (front ++ norm ∷ back)))) [
      | inl t ↦
          rw t (evicted norm other n front back h k (subst (λ r. length r ≤ echo_ring_size) e l) t)
      | inr t ↦ rw t (appended norm other n front back k t)
    ])

pub track_all-Held :
    (norm : Bytes) (others : List Bytes) (n : ℕ) (ring : List Bytes)
    → n + length others < echo_ring_size
    → Held norm n ring
    → Held norm (n + length others) (track_all others ring)
unfolding track_all
track_all-Held norm [] n ring h k = let none_more : n + 0 ≡ n = omega arith in rw none_more k
track_all-Held norm (other ∷ others) n ring h k =
    let one_more : n + suc (length others) ≡ n + 1 + length others = omega arith in
    rw one_more (
      track_all-Held norm others (n + 1) (track_sent other ring) (omega arith)
        (track_sent-Held norm other n ring (omega arith) k))

pub just_tracked :
    (norm : Bytes) (ring : List Bytes)
    → length ring ≤ echo_ring_size
    → Held norm 0 (track_sent norm ring)
unfolding track_sent
just_tracked norm ring h = elim (Bool-cases (leb echo_ring_size (length ring))) [
  | inl t ↦
      let all = length-append (drop 1 ring) (norm ∷ []) in
      let fewer = length-drop 1 ring in
      rw t (drop 1 ring, [], refl, omega arith, omega (arith, all, fewer))
  | inr t ↦
      let all = length-append ring (norm ∷ []) in
      rw t (ring, [], refl, omega arith, ground (arith, all, t))
]

pub is_echo-Held :
    (norm : Bytes) (n : ℕ) (ring : List Bytes) → Held norm n ring → is_echo norm ring ≡ true
is_echo-Held norm n ring (front, back, e, k, l) = rw e (is_echo-append norm front back)
