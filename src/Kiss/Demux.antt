-- ===== src/Kiss/Demux.antt =====
-- kiss/demux.go: the one reader of a port, which tells KISS frames from frames of the rig control
-- protocol. The log line of a dropped frame is left out; the mutex guards `ctrl` alone.
pub mod Bytewise
pub mod Feeding
pub mod Rounds
pub mod Routing
pub mod Gaia
pub mod Mixed
pub mod Items
use tncd.Prelude.{
  Bool, Bytes, List, Option, [], bit_and, false, get_or, if◌then◌else◌, leb, length, ltb, none,
  some, suc, true, ℕ, ◌*◌, ◌++◌, ◌+◌, ◌==◌, ◌∷◌,
}
use tncd.Kiss.Framing.{Decoder, feed, fend, new_decoder}

abbrev pub gaia_start : ℕ
gaia_start = 0xFF

abbrev pub gaia_version : ℕ
gaia_version = 0x01

abbrev pub gaia_header_len : ℕ
gaia_header_len = 4

abbrev pub gaia_msg_header_len : ℕ
gaia_msg_header_len = 4

abbrev pub gaia_flag_checksum : ℕ
gaia_flag_checksum = 0x01

-- A Go channel: which one it is, its capacity, and what waits in it, the oldest first.
pub record Channel : Type 0 where
  pub id : ℕ
  pub capacity : ℕ
  pub waiting : List Bytes

pub record Demux : Type 0 where
  pub kiss_dec : Decoder
  pub in_kiss : Bool
  pub gaia_buf : Bytes
  pub gaia_total : ℕ
  pub shared_fend : Bool
  pub ctrl : Option Channel

abbrev pub new_demux : Demux
new_demux = record {
  kiss_dec = new_decoder;
  in_kiss = false;
  gaia_buf = [];
  gaia_total = 0;
  shared_fend = false;
  ctrl = none;
}

-- The send that does not block.
unfoldable pub send_or_drop : Bytes → Option Channel → Option Channel
send_or_drop frame none = none
send_or_drop frame (some c) =
    if ltb (length c.waiting) c.capacity
    then some (record c { waiting = c.waiting ++ frame ∷ [] })
    else some c

unfoldable pub deliver_gaia : Bytes → Demux → Demux
unfolding send_or_drop
deliver_gaia frame d = record d { ctrl = send_or_drop frame d.ctrl }

abbrev attach_to : ℕ → ℕ → Demux → Option Channel → Demux × Bool
attach_to id capacity d none =
    (record d { ctrl = some (record { id = id; capacity = capacity; waiting = [] }) }, true)
attach_to id capacity d (some c) = (d, false)

unfoldable pub attach : ℕ → ℕ → Demux → Demux × Bool
attach id capacity d = attach_to id capacity d d.ctrl

abbrev detach_from : ℕ → Option Channel → Option Channel
detach_from id none = none
detach_from id (some c) = if c.id == id then none else some c

unfoldable pub detach : ℕ → Demux → Demux
detach id d = record d { ctrl = detach_from id d.ctrl }

-- `total` of a header, when its fourth byte has been read.
unfoldable pub gaia_frame_len : Bytes → ℕ
gaia_frame_len buf =
    gaia_header_len
    + (get_or buf 3 0 + gaia_msg_header_len)
    + (if bit_and (get_or buf 2 0) gaia_flag_checksum == 0 then 0 else 1)

-- One round of the loop of `feedGaia`: it goes on, or the start was a false one and the byte is to
-- be looked at again, or the frame is complete.
pub data GaiaRound : Type 0 where
  more : Demux → GaiaRound
  false_start : Demux → GaiaRound
  delivered : Demux → GaiaRound

unfoldable pub gaia_round : Demux → ℕ → GaiaRound
unfolding deliver_gaia gaia_frame_len
gaia_round d b =
    let buf = d.gaia_buf ++ b ∷ [] in
    if length d.gaia_buf == 1
    then (if b == gaia_version
        then more (record d { gaia_buf = buf })
        else false_start (record d { gaia_buf = [] }))
    else if ltb (length d.gaia_buf) gaia_header_len
    then more (record d {
      gaia_buf = buf;
      gaia_total = if length buf == gaia_header_len then gaia_frame_len buf else d.gaia_total;
    })
    else if leb d.gaia_total (length buf)
    then delivered (record (deliver_gaia buf d) { gaia_buf = []; gaia_total = 0 })
    else more (record d { gaia_buf = buf })

-- `feedGaia`: the state, and the bytes that are left.
unfoldable pub feed_gaia : Demux → Bytes → Demux × Bytes
unfolding gaia_round
feed_gaia d [] = (d, [])
feed_gaia d (b ∷ bs) = elim (gaia_round d b) [
  | more e ↦ feed_gaia e bs
  | false_start e ↦ (e, b ∷ bs)
  | delivered e ↦ (e, bs)
]

-- The bytes up to the closing FEND and with it, what is left, and whether there was one.
unfoldable pub kiss_run : Bytes → Bytes × Bytes × Bool
kiss_run [] = ([], [], false)
kiss_run (b ∷ bs) =
    let (front, rest, closed) = kiss_run bs in
    if b == fend then (b ∷ [], bs, true) else (b ∷ front, rest, closed)

unfoldable pub feed_kiss_run : Demux → Bytes → Demux × Bytes × List Bytes
unfolding kiss_run
feed_kiss_run d p =
    let (front, rest, closed) = kiss_run p in
    let (dec, frames) = feed d.kiss_dec front in
    (
      record d {
        kiss_dec = dec;
        in_kiss = if closed then false else d.in_kiss;
        shared_fend = if closed then true else d.shared_fend;
      },
      rest,
      frames,
    )

-- `scan` of the byte `b`, before the bytes `bs`.
unfoldable pub scan : Demux → ℕ → Bytes → Demux × Bytes × List Bytes
unfolding feed_kiss_run
scan d b bs =
    let e = record d { shared_fend = false } in
    if b == fend
    then (let (dec, frames) = feed d.kiss_dec (b ∷ []) in
        (record e { in_kiss = true; kiss_dec = dec }, bs, frames))
    else if b == gaia_start
    then (record e { gaia_buf = gaia_start ∷ [] }, bs, [])
    else if d.shared_fend
    then feed_kiss_run (record e { in_kiss = true }) (b ∷ bs)
    else (e, bs, [])

-- One round of the loop of `Feed`.
unfoldable pub demux_round : Demux → ℕ → Bytes → Demux × Bytes × List Bytes
unfolding feed_gaia feed_kiss_run scan
demux_round d b bs =
    if ltb 0 (length d.gaia_buf)
    then (let (e, rest) = feed_gaia d (b ∷ bs) in (e, rest, []))
    else if d.in_kiss
    then feed_kiss_run d (b ∷ bs)
    else scan d b bs

unfoldable pub demux_loop : ℕ → Demux → Bytes → Demux × List Bytes
unfolding demux_round
demux_loop (suc fuel) d (b ∷ bs) =
    let (e, rest, now) = demux_round d b bs in
    let (f, later) = demux_loop fuel e rest in (f, now ++ later)
demux_loop _ d _ = (d, [])

-- `Feed`: a round takes a byte, or finds a false start, which the next round takes.
unfoldable pub demux_feed : Demux → Bytes → Demux × List Bytes
unfolding demux_loop
demux_feed d p = demux_loop (2 * length p + 2) d p
