-- ===== src/Kiss/Demux/Gaia.antt =====
-- kiss/demux.go: `feedGaia` on a whole frame, and the send to the control channel.
use tncd.Prelude.{
  Bool-cases, Bytes, [], append_assoc, arith, false, if◌then◌else◌, inl, inr, leb, length,
  length-append, ltb, refl, suc, true, ℕ, ◌++◌, ◌+◌, ◌==◌, ◌∙◌, ◌∷◌, ◌≡◌, ◌≤◌,
}
use tncd.Kiss.Demux.Rounds.{bytewise-append}
use tncd.Kiss.Demux.{
  Demux, deliver_gaia, delivered, gaia_frame_len, gaia_header_len, gaia_round, gaia_start,
  gaia_version, more, send_or_drop,
}
use tncd.Kiss.Demux.Bytewise.{
  bytewise, bytewise-cons, demux_byte, demux_byte_gaia, outside_byte, plain_byte, resolved,
}

-- The state after a control frame.
abbrev pub after_gaia : Bytes → Demux → Demux
after_gaia g d = record d { gaia_buf = []; gaia_total = 0; ctrl = send_or_drop g d.ctrl }

-- A byte of a frame whose length is known.
gaia_round-body :
    (d : Demux) (b : ℕ)
    → gaia_header_len ≤ length d.gaia_buf
    → gaia_round d b ≡ (
        if leb d.gaia_total (length d.gaia_buf + 1)
        then delivered (after_gaia (d.gaia_buf ++ b ∷ []) d)
        else more (record d { gaia_buf = d.gaia_buf ++ b ∷ [] }))
unfolding gaia_round deliver_gaia
gaia_round-body d b h =
    let one : (length d.gaia_buf == 1) ≡ false = ground arith in
    let two : ltb (length d.gaia_buf) gaia_header_len ≡ false = ground arith in
    rw (one, two, length-append d.gaia_buf (b ∷ [])) refl

demux_byte-body :
    (d : Demux) (b : ℕ)
    → gaia_header_len ≤ length d.gaia_buf
    → demux_byte d b ≡ (
      if leb d.gaia_total (length d.gaia_buf + 1)
          then after_gaia (d.gaia_buf ++ b ∷ []) d
          else record d { gaia_buf = d.gaia_buf ++ b ∷ [] },
      [],
    )
unfolding resolved
demux_byte-body d b h =
    demux_byte_gaia d b (omega arith)
    ∙ rw (gaia_round-body d b h) (elim (Bool-cases (leb d.gaia_total (length d.gaia_buf + 1))) [
      | inl t ↦ rw t refl
      | inr t ↦ rw t refl
    ])

bytewise-gaia_body :
    (d : Demux) (b : ℕ) (rest : Bytes)
    → gaia_header_len ≤ length d.gaia_buf
    → d.gaia_total ≡ length d.gaia_buf + suc (length rest)
    → bytewise d (b ∷ rest) ≡ (after_gaia (d.gaia_buf ++ b ∷ rest) d, [])
bytewise-gaia_body d b [] h t =
    let last : leb d.gaia_total (length d.gaia_buf + 1) ≡ true = ground arith in
    bytewise-cons d b [] (after_gaia (d.gaia_buf ++ b ∷ []) d, [])
      (demux_byte-body d b h ∙ rw last refl)
    ∙ (unfold bytewise in refl)
bytewise-gaia_body d b (c ∷ rest) h t =
    let on : leb d.gaia_total (length d.gaia_buf + 1) ≡ false = ground arith in
    let e = record d { gaia_buf = d.gaia_buf ++ b ∷ [] } in
    let len = length-append d.gaia_buf (b ∷ []) in
    bytewise-cons d b (c ∷ rest) (e, []) (demux_byte-body d b h ∙ rw on refl)
    ∙ rw (bytewise-gaia_body e c rest (ground (arith, len)) (ground (arith, len)))
        (rw append_assoc refl)

-- The state when the header of a frame has been read.
abbrev headed : ℕ → ℕ → Demux → Demux
headed flags n d =
    let header = gaia_start ∷ gaia_version ∷ flags ∷ n ∷ [] in
    record d { gaia_buf = header; gaia_total = gaia_frame_len header; shared_fend = false }

bytewise-gaia_header :
    (d : Demux) (flags n : ℕ)
    → length d.gaia_buf ≡ 0
    → d.in_kiss ≡ false
    → bytewise d (gaia_start ∷ gaia_version ∷ flags ∷ n ∷ []) ≡ (headed flags n d, [])
unfolding bytewise demux_byte plain_byte outside_byte resolved gaia_round
bytewise-gaia_header d flags n h k = ground arith

-- A frame of the rig control protocol: its length is the one that its header states.
abbrev pub gaia_item : ℕ → ℕ → Bytes → Bytes
gaia_item flags n body = gaia_start ∷ gaia_version ∷ flags ∷ n ∷ body

abbrev pub IsGaia : ℕ → ℕ → Bytes → Type 0
IsGaia flags n body = length (gaia_item flags n body) ≡ gaia_frame_len (gaia_item flags n body)

-- Between frames, a whole control frame goes to the control channel, as it is.
pub bytewise-gaia :
    (d : Demux) (flags n : ℕ) (body : Bytes)
    → length d.gaia_buf ≡ 0
    → d.in_kiss ≡ false
    → IsGaia flags n body
    → bytewise d (gaia_item flags n body)
      ≡ (after_gaia (gaia_item flags n body) (record d { shared_fend = false }), [])
unfolding gaia_frame_len
bytewise-gaia d flags n [] h k g = absurd (ground arith)
bytewise-gaia d flags n (b ∷ body) h k g =
    bytewise-append d (gaia_start ∷ gaia_version ∷ flags ∷ n ∷ []) (b ∷ body)
    ∙ rw (bytewise-gaia_header d flags n h k)
        (rw (bytewise-gaia_body (headed flags n d) b body (omega arith) (omega arith)) refl)
