-- ===== src/Kiss/Demux/Items.antt =====
-- kiss/demux.go: `Feed` on a stream of data frames and control frames.
use tncd.Prelude.{
  All, Bool-cases, Bytes, List, Option, [], ap, append-nil, append_assoc, arith, false, inl, inr,
  length, length-append, ltb, refl, some, sym, true, ℕ, ◌*◌, ◌++◌, ◌+◌, ◌<◌, ◌∙◌, ◌∷◌, ◌≡◌, ◌≢◌,
  ◌≤◌,
}
use tncd.Kiss.Framing.{Decoder, closed_frame, feed_byte, fend, max_frame_size, wrap_data}
use tncd.Kiss.Framing.RoundTrip.{pending}
use tncd.Kiss.Demux.Rounds.{bytewise-append, demux_feed-bytewise}
use tncd.Kiss.Demux.{Channel, Demux, demux_feed, send_or_drop}
use tncd.Kiss.Demux.Bytewise.{bytewise, feed_one}
use tncd.Kiss.Demux.Gaia.{IsGaia, after_gaia, bytewise-gaia, gaia_item}
use tncd.Kiss.Demux.Mixed.{after_kiss, bytewise-wrap_data}

-- What a port sends: a data frame of KISS, or a frame of the rig control protocol.
pub data Item : Type 0 where
  kiss_item : (port : ℕ) (payload : Bytes) → Item
  control_item : (flags n : ℕ) (body : Bytes) → Item

unfoldable pub item_bytes : Item → Bytes
item_bytes (kiss_item port payload) = wrap_data port payload
item_bytes (control_item flags n body) = gaia_item flags n body

unfoldable pub IsItem : Item → Type 0
IsItem (kiss_item port payload) = (port < 16) × (port ≢ 12) × (length payload < max_frame_size)
IsItem (control_item flags n body) = IsGaia flags n body

unfoldable pub stream : List Item → Bytes
unfolding item_bytes
stream [] = []
stream (i ∷ is) = item_bytes i ++ stream is

-- The KISS frames of a stream, each behind its command byte.
unfoldable pub kiss_frames : List Item → List Bytes
kiss_frames [] = []
kiss_frames (kiss_item port payload ∷ is) = (port * 16 ∷ payload) ∷ kiss_frames is
kiss_frames (control_item _ _ _ ∷ is) = kiss_frames is

-- The control channel after the control frames of a stream.
unfoldable pub control_after : List Item → Option Channel → Option Channel
control_after [] c = c
control_after (kiss_item _ _ ∷ is) c = control_after is c
control_after (control_item flags n body ∷ is) c =
    control_after is (send_or_drop (gaia_item flags n body) c)

-- Between two items: no frame is open, and nothing is in the decoder's buffer.
abbrev pub IsIdle : Demux → Type 0
IsIdle d =
    (length d.gaia_buf ≡ 0) × (d.in_kiss ≡ false) × (d.kiss_dec.esc ≡ false) × (d.kiss_dec.buf ≡ [])

pending_idle : (c : Decoder) → c.esc ≡ false → c.buf ≡ [] → pending c ≡ []
unfolding feed_byte closed_frame
pending_idle c e b =
    ap (λ (t : Decoder × List Bytes). t.1) (feed_one c fend)
    ∙ elim (Bool-cases c.in_frame) [ inl i ↦ simp (i, e, b) | inr i ↦ simp (i) ]

-- What a stream does, whatever stands behind it.
abbrev Routes : List Item → Demux → Demux × List Bytes → Type 0
Routes is d r = (r.1 ≡ kiss_frames is) × (r.0.ctrl ≡ control_after is d.ctrl) × IsIdle r.0

bytewise-Routes :
    (is : List Item) (d : Demux) → IsIdle d → All IsItem is → Routes is d (bytewise d (stream is))
unfolding IsItem stream kiss_frames control_after
bytewise-Routes [] d idle fine =
    (unfold bytewise in refl, unfold bytewise in refl, unfold bytewise in idle)
bytewise-Routes (kiss_item port payload ∷ is) d (h, k, e, b) ((small, ne, fits), fine) =
    let c = record d.kiss_dec { buf = []; in_frame = true; esc = false } in
    let (frames, ctl, idle) = bytewise-Routes is (after_kiss d c) (h, refl, refl, refl) fine in
    rw
      (
        bytewise-append d (wrap_data port payload) (stream is),
        bytewise-wrap_data d port payload h k e small ne fits,
        pending_idle d.kiss_dec e b,
      )
      (ap (λ (x : List Bytes). (port * 16 ∷ payload) ∷ x) frames, ctl, idle)
bytewise-Routes (control_item flags n body ∷ is) d (h, k, e, b) (g, fine) =
    let f = after_gaia (gaia_item flags n body) (record d { shared_fend = false }) in
    let (frames, ctl, idle) = bytewise-Routes is f (refl, k, e, b) fine in
    rw (bytewise-append d (gaia_item flags n body) (stream is), bytewise-gaia d flags n body h k g)
      (frames, ctl, idle)

-- Between frames, `Feed` of a stream of data frames of KISS (ports below 16 that are not 12,
-- payloads under the size limit) and whole control frames, in any order, returns the data frames in
-- their order, sends the control frames to the control channel in theirs, and ends between frames.
pub demux_feed-Routes :
    (is : List Item) (d : Demux)
    → IsIdle d
    → All IsItem is
    → ((demux_feed d (stream is)).1 ≡ kiss_frames is)
      × ((demux_feed d (stream is)).0.ctrl ≡ control_after is d.ctrl)
      × IsIdle (demux_feed d (stream is)).0
demux_feed-Routes is d idle fine =
    rw (demux_feed-bytewise d (stream is)) (bytewise-Routes is d idle fine)

-- The control frames of a stream.
unfoldable pub control_frames : List Item → List Bytes
control_frames [] = []
control_frames (kiss_item _ _ ∷ is) = control_frames is
control_frames (control_item flags n body ∷ is) = gaia_item flags n body ∷ control_frames is

-- A channel with room for the control frames of a stream holds them all, in their order.
pub control_after-room :
    (is : List Item) (c : Channel)
    → length c.waiting + length (control_frames is) ≤ c.capacity
    → control_after is (some c) ≡ some (record c { waiting = c.waiting ++ control_frames is })
unfolding control_after control_frames send_or_drop
control_after-room [] c h =
    ap (λ (w : List Bytes). some (record c { waiting = w })) (sym (append-nil c.waiting))
control_after-room (kiss_item _ _ ∷ is) c h = control_after-room is c h
control_after-room (control_item flags n body ∷ is) c h =
    let g = gaia_item flags n body in
    let t : ltb (length c.waiting) c.capacity ≡ true = ground arith in
    let len = length-append c.waiting (g ∷ []) in
    rw t (
      control_after-room is (record c { waiting = c.waiting ++ g ∷ [] }) (omega (arith, len))
      ∙ ap (λ (w : List Bytes). some (record c { waiting = w })) (rw append_assoc refl))
