-- ===== src/Bridge/Echoes.antt =====
-- internal/bridge/bridge.go: a station's own frame that comes back from the digipeaters.
use tncd.Prelude.{
  All, Bool, Bool-cases, Bytes, List, [], ap, arith, false, inl, inr, length, refl, true, ℕ, ◌+◌,
  ◌<◌, ◌∙◌, ◌∷◌, ◌≡◌, ◌≤◌,
}
use tncd.Bridge.{
  Bridge, echo_ring_size, is_echo, normalize_h_bits, on_kiss_frame, port_online, send_to_kiss,
  track_sent,
}
use tncd.Bridge.Repeats.{normalize_h_bits-repeated, repeated}
use tncd.Bridge.Ring.{is_echo-Held, just_tracked, track_all, track_all-Held}

-- The sends of a bridge, one after the other.
unfoldable pub send_all : List (ℕ × Bytes) → Bridge → Bridge
unfolding send_to_kiss
send_all [] b = b
send_all ((port, raw) ∷ sends) b = send_all sends (send_to_kiss port raw b)

sent_on :
    (port : ℕ) (raw : Bytes) (b : Bridge)
    → port_online port b ≡ true
    → (send_to_kiss port raw b).sent_frames ≡ track_sent (normalize_h_bits raw) b.sent_frames
unfolding send_to_kiss
sent_on port raw b t = rw t refl

sent_off :
    (port : ℕ) (raw : Bytes) (b : Bridge)
    → port_online port b ≡ false
    → (send_to_kiss port raw b).sent_frames ≡ b.sent_frames
unfolding send_to_kiss
sent_off port raw b t = rw t refl

-- What the sends add to the ring.
send_all-ring :
    (sends : List (ℕ × Bytes)) (b : Bridge)
    → (norms : List Bytes) × (length norms ≤ length sends)
      × ((send_all sends b).sent_frames ≡ track_all norms b.sent_frames)
unfolding send_all track_all
send_all-ring [] b = ([], omega arith, refl)
send_all-ring ((port, raw) ∷ sends) b =
    let (norms, few, e) = send_all-ring sends (send_to_kiss port raw b) in
    elim (Bool-cases (port_online port b)) [
      | inl t ↦ (
        normalize_h_bits raw ∷ norms,
        omega arith,
        e ∙ ap (track_all norms) (sent_on port raw b t),
      )
      | inr t ↦ (norms, omega arith, e ∙ ap (track_all norms) (sent_off port raw b t))
    ]

-- A frame that the bridge has sent on an online port and that comes back on any port, with the H-bit
-- of any of its via addresses set, changes nothing, if the ring was within its size and fewer than 20
-- sends came in between.
pub on_kiss_frame-repeated :
    (port back_on now : ℕ) (raw : Bytes) (which : List Bool) (sends : List (ℕ × Bytes)) (b : Bridge)
    → All (λ byte. byte < 256) raw
    → port_online port b ≡ true
    → length b.sent_frames ≤ echo_ring_size
    → length sends < echo_ring_size
    → on_kiss_frame back_on (repeated which raw) now (send_all sends (send_to_kiss port raw b))
      ≡ send_all sends (send_to_kiss port raw b)
unfolding on_kiss_frame send_to_kiss
on_kiss_frame-repeated port back_on now raw which sends b bs on size few =
    let norm = normalize_h_bits raw in
    let sent = send_to_kiss port raw b in
    let (norms, fewer, ring) = send_all-ring sends sent in
    let first = just_tracked norm b.sent_frames size in
    let held = track_all-Held norm norms 0 (track_sent norm b.sent_frames) (omega arith) first in
    let echo : is_echo (normalize_h_bits (repeated which raw)) (send_all sends sent).sent_frames
        ≡ true =
      rw (normalize_h_bits-repeated which raw bs, ring, sent_on port raw b on)
        (is_echo-Held norm (0 + length norms) (track_all norms (track_sent norm b.sent_frames))
          held) in
    rw echo refl
