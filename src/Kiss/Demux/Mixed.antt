-- ===== src/Kiss/Demux/Mixed.antt =====
-- kiss/demux.go: `Feed` on KISS frames that stand between frames of the rig control protocol.
use tncd.Prelude.{
  All, All-append, Bytes, List, [], ap, append-nil, arith, false, length, refl, true, ℕ, ◌%◌, ◌*◌,
  ◌++◌, ◌<◌, ◌==◌, ◌∙◌, ◌∷◌, ◌≡◌, ◌≢◌,
}
use tncd.Kiss.Framing.{
  Decoder, escape, escape_byte, feed, feed_byte, fend, max_frame_size, wrap_data,
}
use tncd.Kiss.Framing.RoundTrip.{feed-wrap_data, pending}
use tncd.Kiss.Demux.Feeding.{outside_byte-plain}
use tncd.Kiss.Demux.Bytewise.{
  bytewise, bytewise-cons, bytewise-feed_kiss_run, demux_byte, feed_cons, feed_one, kiss_run-closed,
  kiss_run-open, outside_byte, ran_run,
}
use tncd.Kiss.Demux.{Demux, kiss_run}

NoFend : Bytes → Type 0
NoFend p = All (λ b. (b == fend) ≡ false) p

kiss_run-body : (p : Bytes) → NoFend p → kiss_run (p ++ fend ∷ []) ≡ (p ++ fend ∷ [], [], true)
unfolding NoFend
kiss_run-body [] h = kiss_run-closed fend [] refl
kiss_run-body (b ∷ p) (e, h) =
    kiss_run-open b (p ++ fend ∷ []) (p ++ fend ∷ []) [] true e (kiss_run-body p h)

-- The state after a frame of KISS that the decoder has read.
abbrev pub after_kiss : Demux → Decoder → Demux
after_kiss d c = record d { kiss_dec = c; in_kiss = false; shared_fend = true }

bytewise-body :
    (d : Demux) (p : Bytes)
    → length d.gaia_buf ≡ 0
    → d.in_kiss ≡ true
    → NoFend p
    → bytewise d (p ++ fend ∷ [])
      ≡ (after_kiss d (feed d.kiss_dec (p ++ fend ∷ [])).0, (feed d.kiss_dec (p ++ fend ∷ [])).1)
unfolding bytewise
bytewise-body d p h k n =
    bytewise-feed_kiss_run d (p ++ fend ∷ []) h k
    ∙ rw (ran_run d (p ++ fend ∷ []) (p ++ fend ∷ []) [] true (kiss_run-body p n)) (
        ap (λ (x : List Bytes). (after_kiss d (feed d.kiss_dec (p ++ fend ∷ [])).0, x))
          (append-nil (feed d.kiss_dec (p ++ fend ∷ [])).1))

-- The state after the FEND that opens a frame.
abbrev opened : Demux → Demux
opened d = record d {
  shared_fend = false;
  in_kiss = true;
  kiss_dec = (feed_byte d.kiss_dec fend).0;
}

demux_byte-fend :
    (d : Demux)
    → length d.gaia_buf ≡ 0
    → d.in_kiss ≡ false
    → demux_byte d fend ≡ (opened d, (feed_byte d.kiss_dec fend).1)
unfolding outside_byte
demux_byte-fend d h k = outside_byte-plain d fend h k ∙ rw feed_one refl

bytewise-kiss :
    (d : Demux) (p : Bytes)
    → length d.gaia_buf ≡ 0
    → d.in_kiss ≡ false
    → NoFend p
    → bytewise d (fend ∷ (p ++ fend ∷ [])) ≡ (
      after_kiss d (feed d.kiss_dec (fend ∷ (p ++ fend ∷ []))).0,
      (feed d.kiss_dec (fend ∷ (p ++ fend ∷ []))).1,
    )
bytewise-kiss d p h k n =
    bytewise-cons d fend (p ++ fend ∷ []) (opened d, (feed_byte d.kiss_dec fend).1)
      (demux_byte-fend d h k)
    ∙ rw (bytewise-body (opened d) p h refl n, feed_cons) refl

escape_byte-NoFend : (b : ℕ) → NoFend (escape_byte b)
unfolding escape_byte NoFend
escape_byte-NoFend b = ground arith

escape-NoFend : (p : Bytes) → NoFend (escape p)
unfolding escape NoFend
escape-NoFend [] = tt
escape-NoFend (b ∷ p) =
    All-append (λ b. (b == fend) ≡ false) (escape_byte b) (escape p) (escape_byte-NoFend b)
      (escape-NoFend p)

-- Between frames, a frame of `WrapData` on a port below 16 that is not 12, with a payload under the
-- size limit.
pub bytewise-wrap_data :
    (d : Demux) (port : ℕ) (payload : Bytes)
    → length d.gaia_buf ≡ 0
    → d.in_kiss ≡ false
    → d.kiss_dec.esc ≡ false
    → port < 16
    → port ≢ 12
    → length payload < max_frame_size
    → bytewise d (wrap_data port payload) ≡ (
      after_kiss d (record d.kiss_dec { buf = []; in_frame = true; esc = false }),
      pending d.kiss_dec ++ (port * 16 ∷ payload) ∷ [],
    )
unfolding wrap_data NoFend
bytewise-wrap_data d port payload h k e small ne fits =
    let fed = feed-wrap_data d.kiss_dec port payload e small ne fits in
    bytewise-kiss d (port * 16 % 256 ∷ escape payload) h k (ground arith, escape-NoFend payload)
    ∙ ap (λ (t : Decoder × List Bytes). (after_kiss d t.0, t.1)) fed
