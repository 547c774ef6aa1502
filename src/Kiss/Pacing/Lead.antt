-- ===== src/Kiss/Pacing/Lead.antt =====
-- kiss/pacing.go: a run of frames through one pacer.
use tncd.Prelude.{
  List, [], ap, arith, if◌then◌else◌, ltb, refl, true, ℕ, ◌+◌, ◌<◌, ◌∙◌, ◌∷◌, ◌≡◌, ◌≤◌,
}
use tncd.Kiss.Pacing.{Pacer, air_time, delay_for, enabled, max_lead, max_paced_frame_bytes}

module _ (on_air : (bits baud : ℕ) → ℕ) where
  -- One frame, asked for so long after the last one was handed over: when it is handed over.
  unfoldable pub hand_over : ℕ → ℕ → ℕ × Pacer → ℕ × Pacer
  unfolding delay_for
  hand_over bytes gap (t, p) =
      let (wait, q) = delay_for on_air bytes (t + gap) p in (t + gap + wait, q)

  -- Frames, each with its size and its gap.
  unfoldable pub hand_over_all : List (ℕ × ℕ) → ℕ × Pacer → ℕ × Pacer
  unfolding hand_over
  hand_over_all [] s = s
  hand_over_all ((bytes, gap) ∷ frames) s = hand_over_all frames (hand_over bytes gap s)

  unfoldable pub air_total : List (ℕ × ℕ) → Pacer → ℕ
  unfolding air_time
  air_total [] p = 0
  air_total ((bytes, gap) ∷ frames) p = air_time on_air bytes p + air_total frames p

  abbrev start_of : ℕ → Pacer → ℕ
  start_of now p = if ltb p.avail now then now else p.avail

  hand_over_lem :
      (bytes gap t : ℕ) (p : Pacer)
      → 0 < p.baud
      → ((hand_over bytes gap (t, p)).1
          ≡ record p { avail = start_of (t + gap) p + air_time on_air bytes p })
        × (start_of (t + gap) p ≤ (hand_over bytes gap (t, p)).0 + max_lead on_air p)
        × (t + gap ≤ (hand_over bytes gap (t, p)).0)
  unfolding hand_over delay_for enabled
  hand_over_lem bytes gap t p h =
      let on : ltb 0 p.baud ≡ true = ground arith in simp (on) (refl, ground arith, ground arith)

  hand_over-baud : (bytes gap t : ℕ) (p : Pacer) → (hand_over bytes gap (t, p)).1.baud ≡ p.baud
  unfolding hand_over delay_for
  hand_over-baud bytes gap t p = ground arith

  -- What the frames so far keep: their air time is over by `avail`, unless that is past.
  abbrev IsBehind : ℕ → ℕ → ℕ × Pacer → Type 0
  IsBehind start total (t, p) = (start + total ≤ start_of t p) × (0 < p.baud)

  start_of_le : (s t : ℕ) (p : Pacer) → s ≤ t → start_of s p ≤ start_of t p
  start_of_le s t p h = ground arith

  hand_over-IsBehind :
      (bytes gap start total t : ℕ) (p : Pacer)
      → IsBehind start total (t, p)
      → IsBehind start (total + air_time on_air bytes p) (hand_over bytes gap (t, p))
        × (start + total ≤ (hand_over bytes gap (t, p)).0 + max_lead on_air p)
  hand_over-IsBehind bytes gap start total t p (h, b) =
      let (now, lead, later) = hand_over_lem bytes gap t p b in
      let mono = start_of_le t (t + gap) p (omega arith) in rw now ((ground arith, b), omega arith)

  air_total_avail :
      (frames : List (ℕ × ℕ)) (p : Pacer) (a : ℕ)
      → air_total frames (record p { avail = a }) ≡ air_total frames p
  unfolding air_total
  air_total_avail [] p a = refl
  air_total_avail ((bytes, gap) ∷ frames) p a =
      ap (λ (n : ℕ). air_time on_air bytes p + n) (air_total_avail frames p a)

  same_pace :
      (frames : List (ℕ × ℕ)) (bytes gap t : ℕ) (p : Pacer)
      → 0 < p.baud
      → (air_total frames (hand_over bytes gap (t, p)).1 ≡ air_total frames p)
        × (max_lead on_air (hand_over bytes gap (t, p)).1 ≡ max_lead on_air p)
  unfolding max_lead
  same_pace frames bytes gap t p h =
      let (now, lead, later) = hand_over_lem bytes gap t p h in
      (
        ap (air_total frames) now
            ∙ air_total_avail frames p (start_of (t + gap) p + air_time on_air bytes p),
        ap (λ (q : Pacer). air_time on_air max_paced_frame_bytes q) now,
      )

  run_behind :
      (frames : List (ℕ × ℕ)) (bytes gap start total t : ℕ) (p : Pacer)
      → IsBehind start total (t, p)
      → start + (total + air_total frames p)
        ≤ (hand_over bytes gap (hand_over_all frames (t, p))).0 + max_lead on_air p
  unfolding hand_over_all air_total
  run_behind [] bytes gap start total t p h =
      let (next, lead) = hand_over-IsBehind bytes gap start total t p h in omega arith
  run_behind ((size, wait) ∷ frames) bytes gap start total t p h =
      let (next, lead) = hand_over-IsBehind size wait start total t p h in
      let (total', lead') = same_pace frames size wait t p h.1 in
      let s = hand_over size wait (t, p) in
      let ih = run_behind frames bytes gap start (total + air_time on_air size p) s.0 s.1 next in
      omega arith

  -- With pacing enabled and an idle channel at first, whatever frames are handed over at whatever
  -- gaps: when the next frame is handed over, the air time of all frames before it exceeds the time
  -- that has passed since the start by `maxLead` at most.
  pub hand_over_all-max_lead :
      (frames : List (ℕ × ℕ)) (bytes gap t : ℕ) (p : Pacer)
      → enabled p ≡ true
      → p.avail ≤ t
      → t + air_total frames p
        ≤ (hand_over bytes gap (hand_over_all frames (t, p))).0 + max_lead on_air p
  unfolding enabled
  hand_over_all-max_lead frames bytes gap t p h k =
      let behind = run_behind frames bytes gap t 0 t p (ground arith, ground arith) in omega arith
