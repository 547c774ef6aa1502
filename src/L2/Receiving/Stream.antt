-- ===== src/L2/Receiving/Stream.antt =====
-- ax25/l2/l2.go: a stream of I-frames with repetitions and losses, on a link without selective
-- reject.
use native.Mathlib.Numerals.{add-one}
use mathlib.Core.Path.{ap₂}
use tncd.Prelude.{
  ==_iff, Bool-cases, Bytes, List, [], ap, arith, false, if◌then◌else◌, inl, inr, suc, zero, ℕ, ◌%◌,
  ◌+◌, ◌<◌, ◌==◌, ◌∙◌, ◌∷◌, ◌≡◌, ◌⊎◌,
}
use tncd.Ax25.Frame.{Frame}
use tncd.L2.Links.{Link}
use tncd.L2.Outbound.{seq_next}
use tncd.L2.Inbound.{receive_i}
use tncd.L2.Receiving.Observed.{delivered}
use tncd.L2.Receiving.Sequence.{Received, receive_i-Received}

-- The frames received one after the other, each with its place in the peer's stream.
pub receive_all : ℕ → Bytes → Bytes → List (Frame × ℕ) → Link → Link
receive_all port src dst [] l = l
receive_all port src dst ((f, i) ∷ fs) l = receive_all port src dst fs (receive_i port f src dst l)

-- How many items the owner has when the frames are through: item `n` is the next one.
abbrev pub progress : ℕ → List (Frame × ℕ) → ℕ
progress n [] = n
progress n ((f, i) ∷ fs) = progress (if i == n then n + 1 else n) fs

-- The first `n` items of the stream, newest first.
abbrev pub first_items : (ℕ → ℕ × Bytes) → ℕ → List (ℕ × Bytes)
first_items source zero = []
first_items source (suc n) = source n ∷ first_items source n

-- Each frame is item `i` of the stream under the number `i % m`, and lies less than `m` away from
-- the item that the receiver waits for: the peer keeps its window below the modulo.
abbrev pub Follows : ℕ → (ℕ → ℕ × Bytes) → ℕ → List (Frame × ℕ) → Type 0
Follows m source n [] = Unit
Follows m source n ((f, i) ∷ fs) =
    (f.ns ≡ i % m)
    × ((f.pid, f.info) ≡ source i)
    × (i < n + m)
    × (n < i + m)
    × Follows m source (if i == n then n + 1 else n) fs

-- Within the window the number tells the item.
same_item_eight : (i n : ℕ) → i < n + 8 → n < i + 8 → i % 8 ≡ n % 8 → i ≡ n
same_item_eight i n h k e = omega arith

same_item_extended : (i n : ℕ) → i < n + 128 → n < i + 128 → i % 128 ≡ n % 128 → i ≡ n
same_item_extended i n h k e = omega arith

same_item : (m i n : ℕ) → (m ≡ 8) ⊎ (m ≡ 128) → i < n + m → n < i + m → i % m ≡ n % m → i ≡ n
same_item m i n (inl e) h k q = ground (arith, same_item_eight i n)
same_item m i n (inr e) h k q = ground (arith, same_item_extended i n)

-- What the receiver has after `n` items.
record Holds (source : ℕ → ℕ × Bytes) (m n : ℕ) (l : Link) : Type 0 where
  modulo : l.conn.modulo ≡ m
  plain : l.conn.srej_enabled ≡ false
  next : l.conn.recv_seq ≡ n % m
  items : delivered l.log ≡ first_items source n

next_number : (m n : ℕ) → (m ≡ 8) ⊎ (m ≡ 128) → seq_next m (n % m) ≡ (n + 1) % m
next_number m n (inl e) = rw e (omega arith)
next_number m n (inr e) = rw e (omega arith)

tests_agree :
    (m i n : ℕ) (f : Frame) (l : Link)
    → (m ≡ 8) ⊎ (m ≡ 128)
    → l.conn.recv_seq ≡ n % m
    → f.ns ≡ i % m
    → i < n + m
    → n < i + m
    → (f.ns == l.conn.recv_seq) ≡ (i == n)
tests_agree m i n f l w h number lo hi = ground (arith, same_item m i n w lo hi)

zero_number : (m : ℕ) → (m ≡ 8) ⊎ (m ≡ 128) → 0 ≡ 0 % m
zero_number m (inl e) = rw e
zero_number m (inr e) = rw e

step-Holds :
    (source : ℕ → ℕ × Bytes) (m n i : ℕ) (f : Frame) (l k : Link)
    → (m ≡ 8) ⊎ (m ≡ 128)
    → Holds source m n l
    → f.ns ≡ i % m
    → (f.pid, f.info) ≡ source i
    → i < n + m
    → n < i + m
    → Received f l k
    → Holds source m (if i == n then n + 1 else n) k
step-Holds source m n i f l k w h number item lo hi r =
    let same : (f.ns == l.conn.recv_seq) ≡ (i == n) = tests_agree m i n f l w h.next number lo hi in
    elim (Bool-cases (i == n)) [
      | inl e ↦ rw e (record {
        modulo = r.modulo ∙ h.modulo;
        plain = r.srej_enabled ∙ h.plain;
        next =
            rw (same, e) at r.recv_seq
            ∙ ap₂ seq_next h.modulo (number ∙ ap (λ (t : ℕ). t % m) ((==_iff i n).0 e))
            ∙ next_number m n w;
        items =
            rw (same, e) at r.data_handed
            ∙ ap₂ (λ (x : ℕ × Bytes) (t : List (ℕ × Bytes)). x ∷ t)
                (item ∙ ap source ((==_iff i n).0 e)) h.items
            ∙ rw add-one;
      })
      | inr e ↦ rw e (record {
        modulo = r.modulo ∙ h.modulo;
        plain = r.srej_enabled ∙ h.plain;
        next = rw (same, e) at r.recv_seq ∙ h.next;
        items = rw (same, e) at r.data_handed ∙ h.items;
      })
    ]

receive_all-Holds :
    (source : ℕ → ℕ × Bytes) (m port n : ℕ) (src dst : Bytes) (fs : List (Frame × ℕ)) (l : Link)
    → (m ≡ 8) ⊎ (m ≡ 128)
    → Holds source m n l
    → Follows m source n fs
    → Holds source m (progress n fs) (receive_all port src dst fs l)
unfolding receive_all
receive_all-Holds source m port n src dst [] l w h q = h
receive_all-Holds source m port n src dst ((f, i) ∷ fs) l w h q =
    receive_all-Holds source m port (if i == n then n + 1 else n) src dst fs
      (receive_i port f src dst l) w
      (step-Holds source m n i f l (receive_i port f src dst l) w h q.0 q.1 q.2 q.3
        (receive_i-Received port f src dst l h.plain))
      q.4

-- A link of modulo 8 or 128 without selective reject starts at V(R) = 0 with nothing delivered.
-- Whatever I-frames come in, lost, repeated or out of order, as long as each carries an item of the
-- peer's stream under its number and lies less than the modulo away from the item that is next, the
-- owner has got exactly the first items of the stream, in order and once each, and V(R) is the
-- number of the next one.
pub receive_all-first_items :
    (source : ℕ → ℕ × Bytes) (m port : ℕ) (src dst : Bytes) (fs : List (Frame × ℕ)) (l : Link)
    → (m ≡ 8) ⊎ (m ≡ 128)
    → l.conn.modulo ≡ m
    → l.conn.srej_enabled ≡ false
    → l.conn.recv_seq ≡ 0
    → delivered l.log ≡ []
    → Follows m source 0 fs
    → (delivered (receive_all port src dst fs l).log ≡ first_items source (progress 0 fs))
      × ((receive_all port src dst fs l).conn.recv_seq ≡ progress 0 fs % m)
receive_all-first_items source m port src dst fs l w e off zero_seq empty q =
    let zero_mod : 0 ≡ 0 % m = zero_number m w in
    let start : Holds source m 0 l = record {
      modulo = e;
      plain = off;
      next = zero_seq ∙ zero_mod;
      items = empty;
    } in
    let end = receive_all-Holds source m port 0 src dst fs l w start q in (end.items, end.next)
