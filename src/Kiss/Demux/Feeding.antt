-- ===== src/Kiss/Demux/Feeding.antt =====
-- kiss/demux.go: the loop of `Feed`, which takes runs of bytes, and the number of its rounds.
use tncd.Prelude.{
  Bool-cases, Bytes, [], ap, arith, false, inl, inr, length, ltb, refl, sym, true, ℕ, ◌==◌, ◌∙◌,
  ◌∷◌, ◌≡◌,
}
use tncd.Kiss.Demux.{Demux, demux_round, feed_gaia, feed_kiss_run, gaia_start, scan}
use tncd.Kiss.Demux.Bytewise.{
  bytewise, bytewise-cons, bytewise-feed_gaia, bytewise-feed_kiss_run, demux_byte, demux_byte_plain,
  finished, kiss_byte, outside_byte, plain_byte, plain_byte_open,
}
use tncd.Kiss.Framing.{fend}

pub outside_byte-plain :
    (d : Demux) (b : ℕ)
    → length d.gaia_buf ≡ 0
    → d.in_kiss ≡ false
    → demux_byte d b ≡ outside_byte d b
unfolding plain_byte
outside_byte-plain d b h k = demux_byte_plain d b h ∙ rw k refl

-- The state when a frame begins after a FEND that two frames share.
abbrev pub reopened : Demux → Demux
reopened d = record d { shared_fend = false; in_kiss = true }

pub outside_byte-reopened :
    (d : Demux) (b : ℕ)
    → (b == fend) ≡ false
    → (b == gaia_start) ≡ false
    → d.shared_fend ≡ true
    → outside_byte d b ≡ kiss_byte (reopened d) b
unfolding outside_byte
outside_byte-reopened d b e g s = rw (e, g, s) refl

scan_shared :
    (d : Demux) (b : ℕ) (bs : Bytes)
    → (b == fend) ≡ false
    → (b == gaia_start) ≡ false
    → d.shared_fend ≡ true
    → scan d b bs ≡ feed_kiss_run (reopened d) (b ∷ bs)
unfolding scan
scan_shared d b bs e g s = rw (e, g, s) refl

bytewise-shared :
    (d : Demux) (b : ℕ) (bs : Bytes)
    → length d.gaia_buf ≡ 0
    → d.in_kiss ≡ false
    → (b == fend) ≡ false
    → (b == gaia_start) ≡ false
    → d.shared_fend ≡ true
    → bytewise d (b ∷ bs) ≡ finished (scan d b bs)
bytewise-shared d b bs h k e g s =
    bytewise-cons d b bs (kiss_byte (reopened d) b)
      (outside_byte-plain d b h k ∙ outside_byte-reopened d b e g s)
    ∙ (sym (
          bytewise-cons (reopened d) b bs (kiss_byte (reopened d) b)
            (demux_byte_plain (reopened d) b h ∙ plain_byte_open (reopened d) b refl))
        ∙ (bytewise-feed_kiss_run (reopened d) (b ∷ bs) h refl
            ∙ ap finished (sym (scan_shared d b bs e g s))))

-- The other bytes outside a frame are a round each.
bytewise-single :
    (d : Demux) (b : ℕ) (bs : Bytes)
    → length d.gaia_buf ≡ 0
    → d.in_kiss ≡ false
    → scan d b bs ≡ ((outside_byte d b).0, bs, (outside_byte d b).1)
    → bytewise d (b ∷ bs) ≡ finished (scan d b bs)
bytewise-single d b bs h k q =
    bytewise-cons d b bs (outside_byte d b) (outside_byte-plain d b h k) ∙ rw q refl

bytewise-scan :
    (d : Demux) (b : ℕ) (bs : Bytes)
    → length d.gaia_buf ≡ 0
    → d.in_kiss ≡ false
    → bytewise d (b ∷ bs) ≡ finished (scan d b bs)
unfolding scan outside_byte
bytewise-scan d b bs h k = elim (Bool-cases (b == fend)) [
  | inl e ↦ bytewise-single d b bs h k (rw e refl)
  | inr e ↦ elim (Bool-cases (b == gaia_start)) [
    | inl g ↦ bytewise-single d b bs h k (rw (e, g) refl)
    | inr g ↦ elim (Bool-cases d.shared_fend) [
      | inl s ↦ bytewise-shared d b bs h k e g s
      | inr s ↦ bytewise-single d b bs h k (rw (e, g, s) refl)
    ]
  ]
]

pub demux_round-gaia :
    (d : Demux) (b : ℕ) (bs : Bytes)
    → ltb 0 (length d.gaia_buf) ≡ true
    → demux_round d b bs ≡ ((feed_gaia d (b ∷ bs)).0, (feed_gaia d (b ∷ bs)).1, [])
unfolding demux_round
demux_round-gaia d b bs t = simp (t)

pub demux_round-run :
    (d : Demux) (b : ℕ) (bs : Bytes)
    → ltb 0 (length d.gaia_buf) ≡ false
    → d.in_kiss ≡ true
    → demux_round d b bs ≡ feed_kiss_run d (b ∷ bs)
unfolding demux_round
demux_round-run d b bs t k = simp (t, k)

pub demux_round-scan :
    (d : Demux) (b : ℕ) (bs : Bytes)
    → ltb 0 (length d.gaia_buf) ≡ false
    → d.in_kiss ≡ false
    → demux_round d b bs ≡ scan d b bs
unfolding demux_round
demux_round-scan d b bs t k = simp (t, k)

-- A round does what the machine does on the bytes it takes.
pub bytewise-demux_round :
    (d : Demux) (b : ℕ) (bs : Bytes) → bytewise d (b ∷ bs) ≡ finished (demux_round d b bs)
bytewise-demux_round d b bs = elim (Bool-cases (ltb 0 (length d.gaia_buf))) [
  | inl t ↦ rw (demux_round-gaia d b bs t) (bytewise-feed_gaia d (b ∷ bs) (ground arith))
  | inr t ↦ elim (Bool-cases d.in_kiss) [
    | inl k ↦ rw (demux_round-run d b bs t k) (bytewise-feed_kiss_run d (b ∷ bs) (ground arith) k)
    | inr k ↦ rw (demux_round-scan d b bs t k) (bytewise-scan d b bs (ground arith) k)
  ]
]
