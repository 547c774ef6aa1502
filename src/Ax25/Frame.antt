-- ===== src/Ax25/Frame.antt =====
-- ax25/frame.go. A frame is read by `ParseModulo` and written by `Bytes`. Slices that alias the
-- input are values here: neither function writes to them.
pub mod RoundTrip
pub mod Controls
use tncd.Prelude.{
  ◌>>=◌, Bool, Bytes, List, Result, [], bit_and, bit_or, drop, err, false, if◌then◌else◌, length,
  ltb, not, ok, suc, take, true, zero, ℕ, ◌%◌, ◌*◌, ◌++◌, ◌/◌, ◌==◌, ◌||◌, ◌∷◌,
}
use tncd.Ax25.Address.{Address, bool_bit, decode_address, encode}

pub data FrameType : Type 0 where
  unknown_type i_frame rr rnr rej srej ui sabm sabme ua dm disc frmr xid : FrameType

abbrev pub is_s : FrameType → Bool
is_s rr = true
is_s rnr = true
is_s rej = true
is_s srej = true
is_s _ = false

abbrev pub is_i : FrameType → Bool
is_i i_frame = true
is_i _ = false

abbrev pub is_u : FrameType → Bool
is_u unknown_type = false
is_u i_frame = false
is_u rr = false
is_u rnr = false
is_u rej = false
is_u srej = false
is_u _ = true

abbrev pub ui_base : ℕ
ui_base = 0x03

abbrev pub sabm_base : ℕ
sabm_base = 0x2F

abbrev pub sabme_base : ℕ
sabme_base = 0x6F

abbrev pub disc_base : ℕ
disc_base = 0x43

abbrev pub dm_base : ℕ
dm_base = 0x0F

abbrev pub ua_base : ℕ
ua_base = 0x63

abbrev pub frmr_base : ℕ
frmr_base = 0x87

abbrev pub xid_base : ℕ
xid_base = 0xAF

abbrev pub max_digipeaters : ℕ
max_digipeaters = 8

pub record Frame : Type 0 where
  pub dst : Address
  pub src : Address
  pub via : List Address
  pub type : FrameType
  pub nr : ℕ
  pub ns : ℕ
  pub pf : Bool
  pub modulo : ℕ
  pub command : Bool
  pub pid : ℕ
  pub info : Bytes

pub data ParseError : Type 0 where
  too_short ext_on_dst short_via too_many_digipeaters no_control : ParseError
  short_control no_pid : ParseError

-- The loop over the repeater addresses; its fuel is the places left for them.
unfoldable pub parse_via : ℕ → Bytes → List Address → Result ParseError (List Address × Bytes)
parse_via zero raw via = if ltb (length raw) 7 then err short_via else err too_many_digipeaters
parse_via (suc left) raw via =
    let (addr, ext) = decode_address (take 7 raw) in
    let more = parse_via left (drop 7 raw) (via ++ addr ∷ []) in
    if ltb (length raw) 7
    then err short_via
    else if ext
    then ok (via ++ addr ∷ [], drop 7 raw)
    else more

unfoldable pub with_info : Frame → Bytes → Result ParseError Frame
with_info f [] = err no_pid
with_info f (pid ∷ info) = ok (record f { pid = pid; info = info })

unfoldable pub parse_i : Frame → ℕ → ℕ → Bytes → Result ParseError Frame
unfolding with_info
parse_i f modulo ctl rest =
    if modulo == 128
    then elim rest [
      | [] ↦ err short_control
      | ctl2 ∷ after ↦
          with_info
            (record f {
              type = i_frame;
              ns = bit_and (ctl / 2) 0x7F;
              pf = not (bit_and ctl2 0x01 == 0);
              nr = bit_and (ctl2 / 2) 0x7F;
            })
            after
    ]
    else with_info
        (record f {
          type = i_frame;
          ns = bit_and (ctl / 2) 0x07;
          pf = not (bit_and ctl 0x10 == 0);
          nr = bit_and (ctl / 32) 0x07;
        })
        rest

abbrev pub s_type : ℕ → FrameType
s_type bits = if bits == 0 then rr else if bits == 1 then rnr else if bits == 2 then rej else srej

-- An S-frame keeps nothing behind its control field.
unfoldable pub parse_s : Frame → ℕ → ℕ → Bytes → Result ParseError Frame
parse_s f modulo ctl rest =
    if modulo == 128
    then elim rest [
      | [] ↦ err short_control
      | ctl2 ∷ _ ↦ ok (record f {
        type = s_type (bit_and (ctl / 4) 0x03);
        pf = not (bit_and ctl2 0x01 == 0);
        nr = bit_and (ctl2 / 2) 0x7F;
      })
    ]
    else ok (record f {
      type = s_type (bit_and (ctl / 4) 0x03);
      pf = not (bit_and ctl 0x10 == 0);
      nr = bit_and (ctl / 32) 0x07;
    })

-- `ctl &^ 0x10` keeps the other seven bits of a byte.
unfoldable pub u_type : ℕ → FrameType
u_type ctl =
    let base = bit_and ctl 0xEF in
    if base == ui_base
    then ui
    else if base == sabm_base
    then sabm
    else if base == sabme_base
    then sabme
    else if base == disc_base
    then disc
    else if base == dm_base
    then dm
    else if base == ua_base
    then ua
    else if base == frmr_base
    then frmr
    else if base == xid_base
    then xid
    else unknown_type

unfoldable pub u_body : FrameType → Frame → Bytes → Result ParseError Frame
unfolding with_info
u_body ui f rest = with_info f rest
u_body xid f rest = ok (record f { info = rest })
u_body _ f rest = ok f

unfoldable pub parse_u : Frame → ℕ → Bytes → Result ParseError Frame
unfolding u_type u_body
parse_u f ctl rest =
    let g = record f { type = u_type ctl; pf = not (bit_and ctl 0x10 == 0) } in u_body g.type g rest

unfoldable pub parse_control : Frame → ℕ → Bytes → Result ParseError Frame
unfolding parse_i parse_s parse_u
parse_control f modulo [] = err no_control
parse_control f modulo (ctl ∷ rest) =
    if bit_and ctl 0x01 == 0
    then parse_i f modulo ctl rest
    else if bit_and ctl 0x03 == 0x01
    then parse_s f modulo ctl rest
    else parse_u f ctl rest

-- The frame before its control field is read.
abbrev pub header_of : Address → Address → List Address → ℕ → Frame
header_of dst src via modulo = record {
  dst = dst;
  src = src;
  via = via;
  type = unknown_type;
  nr = 0;
  ns = 0;
  pf = false;
  modulo = modulo % 256;
  command = dst.crh || not src.crh;
  pid = 0;
  info = [];
}

-- The length check in front makes sure of both addresses.
unfoldable pub parse_modulo : Bytes → ℕ → Result ParseError Frame
parse_modulo raw modulo =
    let (dst, dst_ext) = decode_address (take 7 raw) in
    let (src, src_ext) = decode_address (take 7 (drop 7 raw)) in
    let after = drop 7 (drop 7 raw) in
    if ltb (length raw) 15
    then err too_short
    else if dst_ext
    then err ext_on_dst
    else if src_ext
    then parse_control (header_of dst src [] modulo) modulo after
    else (do
      (via, rest) ← parse_via max_digipeaters after []
      parse_control (header_of dst src via modulo) modulo rest)

unfoldable pub parse : Bytes → Result ParseError Frame
parse raw = parse_modulo raw 8

-- The addresses in order; the last one carries the extension bit.
unfoldable pub encode_addresses : List Address → Bytes
encode_addresses [] = []
encode_addresses (a ∷ []) = encode a a.crh true
encode_addresses (a ∷ b ∷ rest) = encode a a.crh false ++ encode_addresses (b ∷ rest)

abbrev pub s_bits : FrameType → ℕ
s_bits rnr = 1
s_bits rej = 2
s_bits srej = 3
s_bits _ = 0

abbrev pub u_base : FrameType → ℕ
u_base ui = ui_base
u_base sabm = sabm_base
u_base sabme = sabme_base
u_base disc = disc_base
u_base dm = dm_base
u_base ua = ua_base
u_base frmr = frmr_base
u_base xid = xid_base
u_base _ = 0

-- The control field, one byte or two. Shifts of a uint8 wrap.
unfoldable pub control_bytes : Frame → Bytes
control_bytes f =
    if is_i f.type
    then (if f.modulo == 128
        then (f.ns * 2 % 256) ∷ bit_or (f.nr * 2 % 256) (bool_bit f.pf) ∷ []
        else bit_or (bit_or (f.nr * 32 % 256) (bool_bit f.pf * 16)) (f.ns * 2 % 256) ∷ [])
    else if is_s f.type
    then (if f.modulo == 128
        then bit_or (s_bits f.type * 4) 0x01 ∷ bit_or (f.nr * 2 % 256) (bool_bit f.pf) ∷ []
        else bit_or (bit_or (bit_or (f.nr * 32 % 256) (bool_bit f.pf * 16)) (s_bits f.type * 4))
            0x01
          ∷ [])
    else bit_or (u_base f.type) (bool_bit f.pf * 16) ∷ []

abbrev pub body_bytes : FrameType → ℕ → Bytes → Bytes
body_bytes i_frame pid info = pid ∷ info
body_bytes ui pid info = pid ∷ info
body_bytes xid pid info = info
body_bytes _ pid info = []

unfoldable pub bytes : Frame → Bytes
unfolding encode_addresses control_bytes
bytes f =
    encode_addresses
      (record f.dst { crh = f.command } ∷ record f.src { crh = not f.command } ∷ f.via)
    ++ (control_bytes f ++ body_bytes f.type f.pid f.info)
