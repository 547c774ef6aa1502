-- ===== src/Ax25/Frame/RoundTrip.antt =====
-- ax25/frame.go: `ParseModulo` on what `Bytes` writes.
use mathlib.Core.Path.{subst}
use tncd.Prelude.{
  All, Bool, Bytes, List, Result, [], ap, append_assoc, arith, drop, false, inl, inr, length,
  length-append, not, ok, suc, take, true, zero, ℕ, ◌++◌, ◌+◌, ◌<◌, ◌∙◌, ◌∷◌, ◌≡◌, ◌≢◌, ◌≤◌, ◌⊎◌,
}
use tncd.Ax25.Address.{Address, decode_address, encode}
use tncd.Ax25.Address.Wire.{IsAddress, decode_address-encode, drop_exact, length-encode, take_exact}
use tncd.Ax25.Frame.{
  Frame, FrameType, ParseError, body_bytes, bytes, control_bytes, encode_addresses, header_of,
  i_frame, is_i, is_s, is_u, max_digipeaters, parse_control, parse_modulo, parse_via, unknown_type,
}
use tncd.Ax25.Frame.Controls.{
  carry, parse_i-control, parse_i-control_extended, parse_s-control, parse_s-control_extended,
  parse_u-control,
}

module _ (a : Address) (ext : Bool) (rest : Bytes) (v : IsAddress a) where
  take_address : take 7 (encode a a.crh ext ++ rest) ≡ encode a a.crh ext
  take_address = take_exact _ rest 7 (length-encode a a.crh ext v.short)

  drop_address : drop 7 (encode a a.crh ext ++ rest) ≡ rest
  drop_address = drop_exact _ rest 7 (length-encode a a.crh ext v.short)

  length_address : length (encode a a.crh ext ++ rest) ≡ 7 + length rest
  length_address =
      omega (arith, length-append (encode a a.crh ext) rest, length-encode a a.crh ext v.short)

  decode_front : decode_address (take 7 (encode a a.crh ext ++ rest)) ≡ (a, ext)
  decode_front = rw take_address (decode_address-encode a a.crh ext v)

parse_via_last :
    (n : ℕ) (a : Address) (rest : Bytes) (acc : List Address)
    → IsAddress a
    → parse_via (suc n) (encode a a.crh true ++ rest) acc ≡ ok (acc ++ a ∷ [], rest)
unfolding parse_via
parse_via_last n a rest acc v =
    rw (decode_front a true rest v, drop_address a true rest v)
      (ground (arith, length_address a true rest v))

parse_via_more :
    (n : ℕ) (a : Address) (rest : Bytes) (acc : List Address)
    → IsAddress a
    → parse_via (suc n) (encode a a.crh false ++ rest) acc ≡ parse_via n rest (acc ++ a ∷ [])
unfolding parse_via
parse_via_more n a rest acc v =
    rw (decode_front a false rest v, drop_address a false rest v)
      (ground (arith, length_address a false rest v))

parse_via-encode_addresses :
    (n : ℕ) (via : List Address) (rest : Bytes) (acc : List Address)
    → 0 < length via
    → length via ≤ n
    → All IsAddress via
    → parse_via n (encode_addresses via ++ rest) acc ≡ ok (acc ++ via, rest)
unfolding encode_addresses
parse_via-encode_addresses n [] rest acc h k v = absurd (omega arith)
parse_via-encode_addresses zero (a ∷ via) rest acc h k v = absurd (omega arith)
parse_via-encode_addresses (suc n) (a ∷ []) rest acc h k v = parse_via_last n a rest acc v.0
parse_via-encode_addresses (suc n) (a ∷ b ∷ via) rest acc h k v = rw append_assoc (
    parse_via_more n a (encode_addresses (b ∷ via) ++ rest) acc v.0
    ∙ parse_via-encode_addresses n (b ∷ via) rest (acc ++ a ∷ []) (omega arith) (omega arith) v.1
    ∙ rw append_assoc)

-- Sequence numbers that fit the control field, and a control field of the width that is read.
pub record FitsModulo (m : ℕ) (f : Frame) : Type 0 where
  pub i_fits : is_i f.type ≡ true → (f.modulo ≡ m) × (f.nr < m) × (f.ns < m)
  pub s_fits : is_s f.type ≡ true → (f.modulo ≡ m) × (f.nr < m)

pub record IsSendable (m : ℕ) (f : Frame) : Type 0 where
  pub dst : IsAddress f.dst
  pub src : IsAddress f.src
  pub via : All IsAddress f.via
  pub few : length f.via ≤ max_digipeaters
  pub known : f.type ≢ unknown_type
  pub fits : FitsModulo m f

-- The frame as the receiver sees it: the C/R bits of the two addresses say whether it is a command,
-- and the fields that its type does not carry are zero.
abbrev pub received : ℕ → Frame → Frame
received m f = carry f.type f (record {
  dst = record f.dst { crh = f.command };
  src = record f.src { crh = not f.command };
  via = f.via;
  type = unknown_type;
  nr = 0;
  ns = 0;
  pf = false;
  modulo = m;
  command = f.command;
  pid = 0;
  info = [];
})

abbrev parsed : Frame → Result ParseError Frame
parsed = ok

-- The kinds of control field.
abbrev Kind : FrameType → Type 0
Kind t = (t ≡ i_frame) ⊎ ((is_s t ≡ true) ⊎ (is_u t ≡ true))

type_kind : (t : FrameType) → t ≢ unknown_type → Kind t
type_kind t h = ground arith

parse_control-eight :
    (f h : Frame)
    → FitsModulo 8 f
    → Kind f.type
    → parse_control h 8 (control_bytes f ++ body_bytes f.type f.pid f.info) ≡ ok (carry f.type f h)
parse_control-eight f h v (inl t) =
    let fits = v.i_fits (ap is_i t) in
    rw (ap (λ (k : FrameType). parsed (carry k f h)) t) (parse_i-control f h fits.0 fits.1 fits.2 t)
parse_control-eight f h v (inr (inl t)) = parse_s-control f h (v.s_fits t).0 (v.s_fits t).1 t
parse_control-eight f h v (inr (inr t)) = parse_u-control f h 8 t

parse_control-extended :
    (f h : Frame)
    → FitsModulo 128 f
    → Kind f.type
    → parse_control h 128 (control_bytes f ++ body_bytes f.type f.pid f.info)
      ≡ ok (carry f.type f h)
parse_control-extended f h v (inl t) =
    let fits = v.i_fits (ap is_i t) in
    rw (ap (λ (k : FrameType). parsed (carry k f h)) t)
      (parse_i-control_extended f h fits.0 fits.1 fits.2 t)
parse_control-extended f h v (inr (inl t)) =
    parse_s-control_extended f h (v.s_fits t).0 (v.s_fits t).1 t
parse_control-extended f h v (inr (inr t)) = parse_u-control f h 128 t

parse_control-carry :
    (m : ℕ) (f h : Frame)
    → (m ≡ 8) ⊎ (m ≡ 128)
    → f.type ≢ unknown_type
    → FitsModulo m f
    → parse_control h m (control_bytes f ++ body_bytes f.type f.pid f.info) ≡ ok (carry f.type f h)
parse_control-carry m f h (inl e) k v =
    rw e (parse_control-eight f h (subst (λ (n : ℕ). FitsModulo n f) e v) (type_kind f.type k))
parse_control-carry m f h (inr e) k v =
    rw e (parse_control-extended f h (subst (λ (n : ℕ). FitsModulo n f) e v) (type_kind f.type k))

-- The control field and what follows it, behind the addresses.
abbrev tail_bytes : Frame → Bytes
tail_bytes f = control_bytes f ++ body_bytes f.type f.pid f.info

length-control_bytes : (f : Frame) → 0 < length (tail_bytes f)
unfolding control_bytes
length-control_bytes f = ground arith

-- The frame with the C/R bits that `Bytes` puts into the two addresses.
abbrev marked_dst : Frame → Address
marked_dst f = record f.dst { crh = f.command }

abbrev marked_src : Frame → Address
marked_src f = record f.src { crh = not f.command }

parse_modulo_direct :
    (dst src : Address) (m : ℕ) (rest : Bytes)
    → IsAddress dst
    → IsAddress src
    → 0 < length rest
    → parse_modulo (encode dst dst.crh false ++ (encode src src.crh true ++ rest)) m
      ≡ parse_control (header_of dst src [] m) m rest
unfolding parse_modulo
parse_modulo_direct dst src m rest vd vs h =
    let after = encode src src.crh true ++ rest in
    rw
      (
        decode_front dst false after vd,
        drop_address dst false after vd,
        decode_front src true rest vs,
        drop_address src true rest vs,
      )
      (ground (arith, length_address dst false after vd, length_address src true rest vs))

parse_modulo_routed :
    (dst src : Address) (via : List Address) (m : ℕ) (rest : Bytes)
    → IsAddress dst
    → IsAddress src
    → All IsAddress via
    → 0 < length via
    → length via ≤ max_digipeaters
    → 0 < length rest
    → parse_modulo
        (encode dst dst.crh false ++ (encode src src.crh false ++ (encode_addresses via ++ rest)))
        m
      ≡ parse_control (header_of dst src via m) m rest
unfolding parse_modulo
parse_modulo_routed dst src via m rest vd vs vv some_via few h =
    let repeaters = encode_addresses via ++ rest in
    let after = encode src src.crh false ++ repeaters in
    rw
      (
        decode_front dst false after vd,
        drop_address dst false after vd,
        decode_front src false repeaters vs,
        drop_address src false repeaters vs,
        parse_via-encode_addresses max_digipeaters via rest [] some_via few vv,
      )
      (ground (
        arith,
        length_address dst false after vd,
        length_address src false repeaters vs,
        length-append (encode_addresses via) rest,
      ))

marked-IsAddress : (a : Address) (b : Bool) → IsAddress a → IsAddress (record a { crh = b })
marked-IsAddress a b v = record {
  printable = v.printable;
  short = v.short;
  trimmed = v.trimmed;
  four_bits = v.four_bits;
}

parse_addresses :
    (dst src : Address) (via : List Address) (m : ℕ) (rest : Bytes)
    → IsAddress dst
    → IsAddress src
    → All IsAddress via
    → length via ≤ max_digipeaters
    → 0 < length rest
    → parse_modulo (encode_addresses (dst ∷ src ∷ via) ++ rest) m
      ≡ parse_control (header_of dst src via m) m rest
unfolding encode_addresses
parse_addresses dst src [] m rest vd vs vv few h =
    rw append_assoc (parse_modulo_direct dst src m rest vd vs h)
parse_addresses dst src (a ∷ via) m rest vd vs vv few h =
    rw (append_assoc, append_assoc)
      (parse_modulo_routed dst src (a ∷ via) m rest vd vs vv (omega arith) few h)

header_received :
    (f : Frame) (m : ℕ)
    → (m ≡ 8) ⊎ (m ≡ 128)
    → carry f.type f (header_of (marked_dst f) (marked_src f) f.via m) ≡ received m f
header_received f m w = ground arith

-- `ParseModulo(f.Bytes(), m)`, for m 8 or 128, gives back every field that the frame's type carries
-- (with the C/R bits of the two addresses set by `Command`, and zero in the fields not carried), if
-- the addresses are well formed, there are at most eight digipeaters, the type is known, and for I-
-- and S-frames the control field is that of modulo m with sequence numbers below m.
pub parse_modulo-bytes :
    (m : ℕ) (f : Frame)
    → (m ≡ 8) ⊎ (m ≡ 128)
    → IsSendable m f
    → parse_modulo (bytes f) m ≡ ok (received m f)
unfolding bytes
parse_modulo-bytes m f w v =
    parse_addresses (marked_dst f) (marked_src f) f.via m (tail_bytes f)
      (marked-IsAddress f.dst f.command v.dst) (marked-IsAddress f.src (not f.command) v.src) v.via
      v.few (length-control_bytes f)
    ∙ parse_control-carry m f (header_of (marked_dst f) (marked_src f) f.via m) w v.known v.fits
    ∙ ap parsed (header_received f m w)
