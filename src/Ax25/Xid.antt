-- ===== src/Ax25/Xid.antt =====
-- ax25/xid.go: the XID parameters of AX.25 2.2. The integers of the source hold at most 24 bits.
pub mod RoundTrip
use tncd.Prelude.{
  Bool, Bytes, Result, [], bit_and, bit_or, drop, err, false, if◌then◌else◌, length, ltb, not, ok,
  suc, take, true, ℕ, ◌%◌, ◌&&◌, ◌*◌, ◌++◌, ◌/◌, ◌==◌, ◌∷◌,
}

pub data SrejMode : Type 0 where
  srej_none srej_single srej_multi : SrejMode

pub record XidParams : Type 0 where
  pub full_duplex : Bool
  pub srej : SrejMode
  pub modulo : ℕ
  pub i_field_len_rx_bytes : ℕ
  pub window_rx : ℕ

pub data XidError : Type 0 where
  bad_header group_overflow param_overflow : XidError

abbrev pub xid_fi : ℕ
xid_fi = 0x82

abbrev pub xid_gi : ℕ
xid_gi = 0x80

abbrev pub pv_balanced_abm : ℕ
pv_balanced_abm = 0x0100

abbrev pub pv_half_duplex : ℕ
pv_half_duplex = 0x2000

abbrev pub pv_full_duplex : ℕ
pv_full_duplex = 0x4000

abbrev pub pv_rej : ℕ
pv_rej = 0x020000

abbrev pub pv_srej : ℕ
pv_srej = 0x040000

abbrev pub pv_multi_srej : ℕ
pv_multi_srej = 0x000020

abbrev pub pv_ext_addr : ℕ
pv_ext_addr = 0x800000

abbrev pub pv_modulo_eight : ℕ
pv_modulo_eight = 0x000400

abbrev pub pv_modulo_extended : ℕ
pv_modulo_extended = 0x000800

abbrev pub pv_test : ℕ
pv_test = 0x002000

abbrev pub pv_fcs : ℕ
pv_fcs = 0x008000

abbrev pub pv_sync_tx : ℕ
pv_sync_tx = 0x000002

unfoldable pub classes : Bool → ℕ
classes full = bit_or pv_balanced_abm (if full then pv_full_duplex else pv_half_duplex)

-- The SREJ bits: a menu in a command, one choice in a response.
unfoldable pub srej_bits : Bool → SrejMode → ℕ
srej_bits true srej_single = bit_or pv_rej pv_srej
srej_bits true srej_multi = bit_or (bit_or pv_rej pv_srej) pv_multi_srej
srej_bits true srej_none = pv_rej
srej_bits false srej_single = pv_srej
srej_bits false srej_multi = pv_multi_srej
srej_bits false srej_none = pv_rej

unfoldable pub hdlc : Bool → SrejMode → Bool → ℕ
unfolding srej_bits
hdlc command srej extended =
    bit_or
      (bit_or (bit_or (bit_or (bit_or pv_ext_addr pv_test) pv_fcs) pv_sync_tx)
        (srej_bits command srej))
      (if extended then pv_modulo_extended else pv_modulo_eight)

unfoldable pub body : XidParams → Bool → Bytes
unfolding classes hdlc
body p command =
    let c = classes p.full_duplex in
    let h = hdlc command p.srej (p.modulo == 128) in
    let bits = p.i_field_len_rx_bytes * 8 in
    (2 ∷ 2 ∷ (c / 256 % 256) ∷ (c % 256) ∷ [])
    ++ ((3 ∷ 3 ∷ (h / 65536 % 256) ∷ (h / 256 % 256) ∷ (h % 256) ∷ [])
        ++ ((if ltb 0 p.i_field_len_rx_bytes
              then 6 ∷ 2 ∷ (bits / 256 % 256) ∷ (bits % 256) ∷ []
              else [])
            ++ (if ltb 0 p.window_rx then 8 ∷ 1 ∷ (p.window_rx % 256) ∷ [] else [])))

unfoldable pub encode : XidParams → Bool → Bytes
encode p command =
    let b = body p command in xid_fi ∷ xid_gi ∷ (length b / 256 % 256) ∷ (length b % 256) ∷ b

abbrev pub initial_params : XidParams
initial_params = record {
  full_duplex = false;
  srej = srej_none;
  modulo = 8;
  i_field_len_rx_bytes = 0;
  window_rx = 0;
}

abbrev srej_of : ℕ → SrejMode
srej_of x =
    if not (bit_and x pv_multi_srej == 0)
    then srej_multi
    else if not (bit_and x pv_srej == 0)
    then srej_single
    else srej_none

-- The `switch pi` on one parameter; a parameter of another length is skipped.
unfoldable pub apply_param : ℕ → Bytes → XidParams → XidParams
apply_param pi (a ∷ b ∷ []) p =
    let x = bit_or (a * 256) b in
    if pi == 2
    then record p { full_duplex = not (bit_and x pv_full_duplex == 0) }
    else if pi == 6
    then record p { i_field_len_rx_bytes = x / 8 }
    else p
apply_param pi (a ∷ b ∷ c ∷ []) p =
    let x = bit_or (bit_or (a * 65536) (b * 256)) c in
    if pi == 3
    then record p {
      modulo = if not (bit_and x pv_modulo_extended == 0) then 128 else p.modulo;
      srej = srej_of x;
    }
    else p
apply_param pi (a ∷ []) p = if pi == 8 then record p { window_rx = a } else p
apply_param pi _ p = p

-- The loop over the parameters; each round takes at least two bytes.
unfoldable pub parse_params : ℕ → Bytes → XidParams → Result XidError XidParams
unfolding apply_param
parse_params (suc fuel) (pi ∷ pl ∷ rest) p =
    let more = parse_params fuel (drop pl rest) (apply_param pi (take pl rest) p) in
    if ltb (length rest) pl then err param_overflow else more
parse_params _ _ p = ok p

unfoldable pub parse_group : ℕ → Bytes → Result XidError XidParams
unfolding parse_params
parse_group glen rest =
    if ltb (length rest) glen
    then err group_overflow
    else parse_params (length rest) (take glen rest) initial_params

unfoldable pub parse_xid : Bytes → Result XidError XidParams
unfolding parse_group
parse_xid (fi ∷ gi ∷ hi ∷ lo ∷ rest) =
    if fi == xid_fi && gi == xid_gi then parse_group (bit_or (hi * 256) lo) rest else err bad_header
parse_xid _ = err bad_header
