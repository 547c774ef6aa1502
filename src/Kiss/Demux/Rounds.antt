-- ===== src/Kiss/Demux/Rounds.antt =====
-- kiss/demux.go: the number of the rounds of `Feed`.
use tncd.Prelude.{
  Bool, Bool-cases, Bytes, List, [], append_assoc, arith, if◌then◌else◌, inl, inr, length, ltb,
  refl, suc, sym, zero, ℕ, ◌*◌, ◌++◌, ◌+◌, ◌<◌, ◌∙◌, ◌∷◌, ◌≡◌, ◌≤◌,
}
use tncd.Kiss.Demux.{
  Demux, GaiaRound, delivered, demux_feed, demux_loop, demux_round, false_start, feed_gaia,
  feed_kiss_run, gaia_round, kiss_run, more, scan,
}
use tncd.Kiss.Demux.Bytewise.{
  Candidate, bytewise, demux_byte, feed_gaia-round, gaia_round-Candidate,
}
use tncd.Kiss.Demux.Feeding.{
  bytewise-demux_round, demux_round-gaia, demux_round-run, demux_round-scan, reopened,
}

-- The rounds that remain at most.
abbrev rounds : Demux → Bytes → ℕ
rounds d p = 2 * length p + (if ltb 0 (length d.gaia_buf) then 1 else 0)

after_gaia_round :
    (d : Demux) (b : ℕ) (bs : Bytes) (r : GaiaRound)
    → 0 < length d.gaia_buf
    → gaia_round d b ≡ r
    → Candidate r
    → ((e : Demux)
        → 0 < length e.gaia_buf
        → rounds (feed_gaia e bs).0 (feed_gaia e bs).1 ≤ rounds e bs)
    → rounds (feed_gaia d (b ∷ bs)).0 (feed_gaia d (b ∷ bs)).1 < rounds d (b ∷ bs)
unfolding Candidate
after_gaia_round d b bs (more e) h q c ih =
    rw (feed_gaia-round d b bs (more e) q) (let k = ih e c in ground arith)
after_gaia_round d b bs (false_start e) h q c ih =
    rw (feed_gaia-round d b bs (false_start e) q) (ground arith)
after_gaia_round d b bs (delivered e) h q c ih =
    rw (feed_gaia-round d b bs (delivered e) q) (ground arith)

feed_gaia-rounds :
    (d : Demux) (p : Bytes)
    → 0 < length d.gaia_buf
    → rounds (feed_gaia d p).0 (feed_gaia d p).1 ≤ rounds d p
unfolding feed_gaia
feed_gaia-rounds d [] h = ground arith
feed_gaia-rounds d (b ∷ bs) h =
    let k =
      after_gaia_round d b bs (gaia_round d b) h refl (gaia_round-Candidate d b h)
        (λ e k. feed_gaia-rounds e bs k) in
    omega arith

feed_gaia-rounds_lt :
    (d : Demux) (b : ℕ) (bs : Bytes)
    → 0 < length d.gaia_buf
    → rounds (feed_gaia d (b ∷ bs)).0 (feed_gaia d (b ∷ bs)).1 < rounds d (b ∷ bs)
feed_gaia-rounds_lt d b bs h =
    after_gaia_round d b bs (gaia_round d b) h refl (gaia_round-Candidate d b h)
      (λ e k. feed_gaia-rounds e bs k)

-- The bytes that a run leaves.
abbrev left_over : Bytes × Bytes × Bool → Bytes
left_over (front, rest, closed) = rest

kiss_run-length : (p : Bytes) → length (left_over (kiss_run p)) ≤ length p
unfolding kiss_run
kiss_run-length [] = omega arith
kiss_run-length (b ∷ bs) = let ih = kiss_run-length bs in ground arith

kiss_run-length_cons : (b : ℕ) (bs : Bytes) → length (left_over (kiss_run (b ∷ bs))) ≤ length bs
unfolding kiss_run
kiss_run-length_cons b bs = let ih = kiss_run-length bs in ground arith

-- The state and the bytes after a round.
abbrev rounds_after : Demux × Bytes × List Bytes → ℕ
rounds_after (e, rest, now) = rounds e rest

feed_kiss_run-rounds :
    (d : Demux) (b : ℕ) (bs : Bytes)
    → length d.gaia_buf ≡ 0
    → rounds_after (feed_kiss_run d (b ∷ bs)) < rounds d (b ∷ bs)
unfolding feed_kiss_run
feed_kiss_run-rounds d b bs h = let k = kiss_run-length_cons b bs in ground arith

scan-rounds :
    (d : Demux) (b : ℕ) (bs : Bytes)
    → length d.gaia_buf ≡ 0
    → rounds_after (scan d b bs) < rounds d (b ∷ bs)
unfolding scan
scan-rounds d b bs h = let k = feed_kiss_run-rounds (reopened d) b bs h in ground arith

demux_round-rounds :
    (d : Demux) (b : ℕ) (bs : Bytes) → rounds_after (demux_round d b bs) < rounds d (b ∷ bs)
demux_round-rounds d b bs = elim (Bool-cases (ltb 0 (length d.gaia_buf))) [
  | inl t ↦ rw (demux_round-gaia d b bs t) (feed_gaia-rounds_lt d b bs (ground arith))
  | inr t ↦ elim (Bool-cases d.in_kiss) [
    | inl k ↦ rw (demux_round-run d b bs t k) (feed_kiss_run-rounds d b bs (ground arith))
    | inr k ↦ rw (demux_round-scan d b bs t k) (scan-rounds d b bs (ground arith))
  ]
]

-- The loop after a round with a known result.
demux_loop-round :
    (n : ℕ) (d : Demux) (b : ℕ) (bs : Bytes) (e : Demux) (rest : Bytes) (now : List Bytes)
    → demux_round d b bs ≡ (e, rest, now)
    → demux_loop (suc n) d (b ∷ bs) ≡ ((demux_loop n e rest).0, now ++ (demux_loop n e rest).1)
unfolding demux_loop
demux_loop-round n d b bs e rest now q = rw q refl

demux_loop-bytewise :
    (n : ℕ) (d : Demux) (p : Bytes) → rounds d p ≤ n → demux_loop n d p ≡ bytewise d p
unfolding demux_loop bytewise
demux_loop-bytewise zero d [] h = refl
demux_loop-bytewise (suc n) d [] h = refl
demux_loop-bytewise zero d (b ∷ bs) h = absurd (omega arith)
demux_loop-bytewise (suc n) d (b ∷ bs) h =
    let (e, rest, now) = demux_round d b bs in
    let k : rounds_after (demux_round d b bs) < rounds d (b ∷ bs) = demux_round-rounds d b bs in
    let ih = demux_loop-bytewise n e rest (omega arith) in
    demux_loop-round n d b bs e rest now refl ∙ (rw ih (sym (bytewise-demux_round d b bs)))

-- `Feed` gives the state and the frames of the machine that takes the bytes one at a time,
-- whatever the state: its rounds come to an end within twice the number of bytes and one more.
pub demux_feed-bytewise : (d : Demux) (p : Bytes) → demux_feed d p ≡ bytewise d p
unfolding demux_feed
demux_feed-bytewise d p = demux_loop-bytewise (2 * length p + 2) d p (ground arith)

pub bytewise-append :
    (d : Demux) (p q : Bytes)
    → bytewise d (p ++ q)
      ≡ ((bytewise (bytewise d p).0 q).0, (bytewise d p).1 ++ (bytewise (bytewise d p).0 q).1)
unfolding bytewise
bytewise-append d [] q = refl
bytewise-append d (b ∷ p) q = rw (bytewise-append (demux_byte d b).0 p q) (rw append_assoc refl)

-- Where the reads of a stream are cut changes neither the state nor the frames.
pub demux_feed-append :
    (d : Demux) (p q : Bytes)
    → demux_feed d (p ++ q) ≡ (
      (demux_feed (demux_feed d p).0 q).0,
      (demux_feed d p).1 ++ (demux_feed (demux_feed d p).0 q).1,
    )
demux_feed-append d p q = simp (demux_feed-bytewise, bytewise-append)
