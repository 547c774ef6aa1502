-- ===== src/Kiss/Demux/Bytewise.antt =====
-- kiss/demux.go: `Feed` against a machine that takes one byte at a time.
use tncd.Prelude.{
  Bool, Bool-cases, Bytes, List, [], ap, append-nil, append_assoc, arith, false, if◌then◌else◌, inl,
  inr, length, length-append, ltb, refl, sym, true, ℕ, ◌++◌, ◌<◌, ◌==◌, ◌∙◌, ◌∷◌, ◌≡◌,
}
use tncd.Kiss.Framing.{Decoder, feed, feed_byte, fend}
use tncd.Kiss.Demux.{
  Demux, GaiaRound, deliver_gaia, delivered, false_start, feed_gaia, feed_kiss_run, gaia_round,
  gaia_start, kiss_run, more,
}

-- A byte of a KISS frame that is open.
unfoldable pub kiss_byte : Demux → ℕ → Demux × List Bytes
kiss_byte d b =
    let (dec, frames) = feed d.kiss_dec (b ∷ []) in
    let closed = b == fend in
    (
      record d {
        kiss_dec = dec;
        in_kiss = if closed then false else d.in_kiss;
        shared_fend = if closed then true else d.shared_fend;
      },
      frames,
    )

-- A byte outside any frame.
unfoldable pub outside_byte : Demux → ℕ → Demux × List Bytes
unfolding kiss_byte
outside_byte d b =
    let e = record d { shared_fend = false } in
    if b == fend
    then (let (dec, frames) = feed d.kiss_dec (b ∷ []) in
        (record e { in_kiss = true; kiss_dec = dec }, frames))
    else if b == gaia_start
    then (record e { gaia_buf = gaia_start ∷ [] }, [])
    else if d.shared_fend
    then kiss_byte (record e { in_kiss = true }) b
    else (e, [])

unfoldable pub plain_byte : Demux → ℕ → Demux × List Bytes
unfolding kiss_byte outside_byte
plain_byte d b = if d.in_kiss then kiss_byte d b else outside_byte d b

-- A byte that a candidate for a control frame has looked at.
unfoldable pub resolved : ℕ → GaiaRound → Demux × List Bytes
unfolding plain_byte
resolved b (more e) = (e, [])
resolved b (false_start e) = plain_byte e b
resolved b (delivered e) = (e, [])

unfoldable pub demux_byte : Demux → ℕ → Demux × List Bytes
unfolding plain_byte resolved
demux_byte d b = if ltb 0 (length d.gaia_buf) then resolved b (gaia_round d b) else plain_byte d b

unfoldable pub bytewise : Demux → Bytes → Demux × List Bytes
unfolding demux_byte
bytewise d [] = (d, [])
bytewise d (b ∷ bs) =
    let (e, now) = demux_byte d b in let (f, later) = bytewise e bs in (f, now ++ later)

-- What a round of `Feed` leaves to be done, with the frames that it returned in front.
abbrev pub finished : Demux × Bytes × List Bytes → Demux × List Bytes
finished (e, rest, now) = ((bytewise e rest).0, now ++ (bytewise e rest).1)

pub demux_byte_gaia :
    (d : Demux) (b : ℕ) → 0 < length d.gaia_buf → demux_byte d b ≡ resolved b (gaia_round d b)
unfolding demux_byte
demux_byte_gaia d b h = let t : ltb 0 (length d.gaia_buf) ≡ true = ground arith in rw t refl

pub demux_byte_plain : (d : Demux) (b : ℕ) → length d.gaia_buf ≡ 0 → demux_byte d b ≡ plain_byte d b
unfolding demux_byte
demux_byte_plain d b h = let t : ltb 0 (length d.gaia_buf) ≡ false = ground arith in rw t refl

-- What a round of `feedGaia` does to the candidate.
unfoldable pub Candidate : GaiaRound → Type 0
Candidate (more e) = 0 < length e.gaia_buf
Candidate (false_start e) = length e.gaia_buf ≡ 0
Candidate (delivered e) = length e.gaia_buf ≡ 0

pub gaia_round-Candidate : (d : Demux) (b : ℕ) → 0 < length d.gaia_buf → Candidate (gaia_round d b)
unfolding gaia_round Candidate deliver_gaia
gaia_round-Candidate d b h = ground (arith, length-append d.gaia_buf (b ∷ []))

pub feed_gaia-round :
    (d : Demux) (b : ℕ) (bs : Bytes) (r : GaiaRound)
    → gaia_round d b ≡ r
    → feed_gaia d (b ∷ bs)
      ≡ (elim r [ more e ↦ feed_gaia e bs | false_start e ↦ (e, b ∷ bs) | delivered e ↦ (e, bs) ])
unfolding feed_gaia
feed_gaia-round d b bs r q = rw (q, feed_gaia) refl

pub bytewise-cons :
    (d : Demux) (b : ℕ) (bs : Bytes) (r : Demux × List Bytes)
    → demux_byte d b ≡ r
    → bytewise d (b ∷ bs) ≡ ((bytewise r.0 bs).0, r.1 ++ (bytewise r.0 bs).1)
unfolding bytewise
bytewise-cons d b bs r q = rw q refl

-- The rest of `feedGaia` after a round.
after_round :
    (d : Demux) (b : ℕ) (bs : Bytes) (r : GaiaRound)
    → 0 < length d.gaia_buf
    → gaia_round d b ≡ r
    → Candidate r
    → ((e : Demux)
        → 0 < length e.gaia_buf
        → bytewise e bs ≡ bytewise (feed_gaia e bs).0 (feed_gaia e bs).1)
    → bytewise d (b ∷ bs) ≡ bytewise (feed_gaia d (b ∷ bs)).0 (feed_gaia d (b ∷ bs)).1
unfolding Candidate resolved
after_round d b bs (more e) h q c ih =
    bytewise-cons d b bs (e, []) (demux_byte_gaia d b h ∙ rw q refl)
    ∙ rw (feed_gaia-round d b bs (more e) q) (ih e c)
after_round d b bs (false_start e) h q c ih =
    bytewise-cons d b bs (plain_byte e b) (demux_byte_gaia d b h ∙ rw q refl)
    ∙ rw (feed_gaia-round d b bs (false_start e) q)
        (sym (bytewise-cons e b bs (plain_byte e b) (demux_byte_plain e b c)))
after_round d b bs (delivered e) h q c ih =
    bytewise-cons d b bs (e, []) (demux_byte_gaia d b h ∙ rw q refl)
    ∙ rw (feed_gaia-round d b bs (delivered e) q) refl

pub bytewise-feed_gaia :
    (d : Demux) (p : Bytes)
    → 0 < length d.gaia_buf
    → bytewise d p ≡ bytewise (feed_gaia d p).0 (feed_gaia d p).1
unfolding feed_gaia
bytewise-feed_gaia d [] h = refl
bytewise-feed_gaia d (b ∷ bs) h =
    after_round d b bs (gaia_round d b) h refl (gaia_round-Candidate d b h)
      (λ e k. bytewise-feed_gaia e bs k)

pub plain_byte_open : (d : Demux) (b : ℕ) → d.in_kiss ≡ true → plain_byte d b ≡ kiss_byte d b
unfolding plain_byte
plain_byte_open d b h = rw h refl

pub feed_one : (c : Decoder) (b : ℕ) → feed c (b ∷ []) ≡ feed_byte c b
unfolding feed
feed_one c b = ap (λ (x : List Bytes). ((feed_byte c b).0, x)) (append-nil (feed_byte c b).1)

pub feed_cons :
    (c : Decoder) (b : ℕ) (p : Bytes)
    → feed c (b ∷ p)
      ≡ ((feed (feed_byte c b).0 p).0, (feed_byte c b).1 ++ (feed (feed_byte c b).0 p).1)
unfolding feed
feed_cons c b p = refl

-- The state after a run that the decoder has taken.
abbrev pub ran : Demux → Decoder × List Bytes → Bytes → Bool → Demux × Bytes × List Bytes
ran d (dec, frames) rest closed = (
  record d {
    kiss_dec = dec;
    in_kiss = if closed then false else d.in_kiss;
    shared_fend = if closed then true else d.shared_fend;
  },
  rest,
  frames,
)

pub ran_run :
    (d : Demux) (p : Bytes) (front rest : Bytes) (closed : Bool)
    → kiss_run p ≡ (front, rest, closed)
    → feed_kiss_run d p ≡ ran d (feed d.kiss_dec front) rest closed
unfolding feed_kiss_run
ran_run d p front rest closed q = rw q refl

pub kiss_run-closed :
    (b : ℕ) (bs : Bytes) → (b == fend) ≡ true → kiss_run (b ∷ bs) ≡ (b ∷ [], bs, true)
unfolding kiss_run
kiss_run-closed b bs e = rw e refl

pub kiss_run-open :
    (b : ℕ) (bs front rest : Bytes) (closed : Bool)
    → (b == fend) ≡ false
    → kiss_run bs ≡ (front, rest, closed)
    → kiss_run (b ∷ bs) ≡ (b ∷ front, rest, closed)
unfolding kiss_run
kiss_run-open b bs front rest closed e q = rw (e, q) refl

pub kiss_byte_as_run :
    (d : Demux) (b : ℕ) (closed : Bool) (rest : Bytes)
    → (b == fend) ≡ closed
    → kiss_byte d b ≡ ((ran d (feed_byte d.kiss_dec b) rest closed).0, (feed_byte d.kiss_dec b).1)
unfolding kiss_byte
kiss_byte_as_run d b closed rest e = rw (e, feed_one) refl

run_step :
    (d : Demux) (b : ℕ) (bs : Bytes)
    → length d.gaia_buf ≡ 0
    → d.in_kiss ≡ true
    → demux_byte d b ≡ kiss_byte d b
run_step d b bs h k = demux_byte_plain d b h ∙ plain_byte_open d b k

-- A run whose first byte leaves the frame open.
run_open :
    (d : Demux) (b : ℕ) (bs front rest : Bytes) (closed : Bool)
    → length d.gaia_buf ≡ 0
    → d.in_kiss ≡ true
    → (b == fend) ≡ false
    → kiss_run bs ≡ (front, rest, closed)
    → ((e : Demux)
        → length e.gaia_buf ≡ 0
        → e.in_kiss ≡ true
        → bytewise e bs ≡ finished (feed_kiss_run e bs))
    → bytewise d (b ∷ bs) ≡ finished (feed_kiss_run d (b ∷ bs))
run_open d b bs front rest closed h k e q ih =
    let now = feed_byte d.kiss_dec b in
    let inside = record d { kiss_dec = now.0 } in
    bytewise-cons d b bs (inside, now.1) (run_step d b bs h k ∙ kiss_byte_as_run d b false bs e)
    ∙ (rw
        (
          ih inside h k,
          ran_run inside bs front rest closed q,
          ran_run d (b ∷ bs) (b ∷ front) rest closed (kiss_run-open b bs front rest closed e q),
          feed_cons,
        )
        (rw append_assoc refl))

-- A run that a FEND closes at once.
run_closed :
    (d : Demux) (b : ℕ) (bs : Bytes)
    → length d.gaia_buf ≡ 0
    → d.in_kiss ≡ true
    → (b == fend) ≡ true
    → bytewise d (b ∷ bs) ≡ finished (feed_kiss_run d (b ∷ bs))
run_closed d b bs h k e =
    bytewise-cons d b bs ((ran d (feed_byte d.kiss_dec b) bs true).0, (feed_byte d.kiss_dec b).1)
      (run_step d b bs h k ∙ kiss_byte_as_run d b true bs e)
    ∙ rw (ran_run d (b ∷ bs) (b ∷ []) bs true (kiss_run-closed b bs e), feed_one) refl

pub bytewise-feed_kiss_run :
    (d : Demux) (p : Bytes)
    → length d.gaia_buf ≡ 0
    → d.in_kiss ≡ true
    → bytewise d p ≡ finished (feed_kiss_run d p)
unfolding bytewise feed_kiss_run kiss_run feed
bytewise-feed_kiss_run d [] h k = refl
bytewise-feed_kiss_run d (b ∷ bs) h k = elim (Bool-cases (b == fend)) [
  | inl e ↦ run_closed d b bs h k e
  | inr e ↦
      let (front, rest, closed) = kiss_run bs in
      run_open d b bs front rest closed h k e refl (λ c i j. bytewise-feed_kiss_run c bs i j)
]
