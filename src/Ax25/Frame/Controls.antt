-- ===== src/Ax25/Frame/Controls.antt =====
-- ax25/frame.go: the control field. Every field that `Bytes` packs into it is read back by
-- `ParseModulo`; the bit operations are checked over all values of the fields.
use tncd.Prelude.{
  Bool, all_below, all_below_sound, arith, bit_and, bit_or, false, ok, refl, true, ℕ, ◌%◌, ◌&&◌,
  ◌*◌, ◌++◌, ◌/◌, ◌<◌, ◌==◌, ◌≡◌,
}
use tncd.Ax25.Address.{bool_bit}
use tncd.Ax25.Frame.{
  Frame, FrameType, body_bytes, control_bytes, i_frame, parse_control, rej, rnr, rr, srej, ui, xid,
  is_u, is_s, s_bits,
}

pub bool_bit-lt : (b : Bool) → bool_bit b < 2
bool_bit-lt true = omega arith
bool_bit-lt false = omega arith

-- What a frame carries of `g`, put into the frame `h` read so far.
abbrev pub carry : FrameType → Frame → Frame → Frame
carry i_frame g h = record h {
  type = i_frame;
  nr = g.nr;
  ns = g.ns;
  pf = g.pf;
  pid = g.pid;
  info = g.info;
}
carry ui g h = record h { type = ui; pf = g.pf; pid = g.pid; info = g.info }
carry xid g h = record h { type = xid; pf = g.pf; info = g.info }
carry rr g h = record h { type = rr; nr = g.nr; pf = g.pf }
carry rnr g h = record h { type = rnr; nr = g.nr; pf = g.pf }
carry rej g h = record h { type = rej; nr = g.nr; pf = g.pf }
carry srej g h = record h { type = srej; nr = g.nr; pf = g.pf }
carry t g h = record h { type = t; pf = g.pf }

-- One-byte control of an I-frame.
abbrev i_ctl : ℕ → ℕ → ℕ → ℕ
i_ctl nr p ns = bit_or (bit_or (nr * 32 % 256) (p * 16)) (ns * 2 % 256)

abbrev i_ctl_holds : ℕ → ℕ → ℕ → Bool
i_ctl_holds nr p ns =
    bit_and (i_ctl nr p ns) 0x01 == 0
    && bit_and (i_ctl nr p ns / 2) 0x07 == ns
    && bit_and (i_ctl nr p ns) 0x10 == p * 16
    && bit_and (i_ctl nr p ns / 32) 0x07 == nr

i_ctl_table : all_below 8 (λ nr. all_below 2 (λ p. all_below 8 (λ ns. i_ctl_holds nr p ns))) ≡ true
unfolding all_below
i_ctl_table = refl

i_ctl_fact : (nr ns : ℕ) (b : Bool) → nr < 8 → ns < 8 → i_ctl_holds nr (bool_bit b) ns ≡ true
i_ctl_fact nr ns b h k =
    let row = all_below_sound 8 _ nr i_ctl_table h in
    let cell = all_below_sound 2 _ (bool_bit b) row (bool_bit-lt b) in all_below_sound 8 _ ns cell k

-- Second control byte of the extended forms.
abbrev ctl2_holds : ℕ → ℕ → Bool
ctl2_holds nr p =
    bit_and (bit_or (nr * 2 % 256) p) 0x01 == p && bit_and (bit_or (nr * 2 % 256) p / 2) 0x7F == nr

ctl2_table : all_below 128 (λ nr. all_below 2 (λ p. ctl2_holds nr p)) ≡ true
unfolding all_below
ctl2_table = refl

ctl2_fact : (nr : ℕ) (b : Bool) → nr < 128 → ctl2_holds nr (bool_bit b) ≡ true
ctl2_fact nr b h =
    all_below_sound 2 _ (bool_bit b) (all_below_sound 128 _ nr ctl2_table h) (bool_bit-lt b)

ns_table :
    all_below 128 (λ n. bit_and (n * 2 % 256) 0x01 == 0 && bit_and (n * 2 % 256 / 2) 0x7F == n)
    ≡ true
unfolding all_below
ns_table = refl

-- One-byte control of an S-frame with the two type bits `s`.
abbrev s_ctl : ℕ → ℕ → ℕ → ℕ
s_ctl nr p s = bit_or (bit_or (bit_or (nr * 32 % 256) (p * 16)) (s * 4)) 0x01

abbrev s_ctl_holds : ℕ → ℕ → ℕ → Bool
s_ctl_holds nr p s =
    bit_and (s_ctl nr p s) 0x01 == 1
    && bit_and (s_ctl nr p s) 0x03 == 1
    && bit_and (s_ctl nr p s / 4) 0x03 == s
    && bit_and (s_ctl nr p s) 0x10 == p * 16
    && bit_and (s_ctl nr p s / 32) 0x07 == nr

s_ctl_table : all_below 8 (λ nr. all_below 2 (λ p. all_below 4 (λ s. s_ctl_holds nr p s))) ≡ true
unfolding all_below
s_ctl_table = refl

s_ctl_fact : (nr s : ℕ) (b : Bool) → nr < 8 → s < 4 → s_ctl_holds nr (bool_bit b) s ≡ true
s_ctl_fact nr s b h k =
    let row = all_below_sound 8 _ nr s_ctl_table h in
    let cell = all_below_sound 2 _ (bool_bit b) row (bool_bit-lt b) in all_below_sound 4 _ s cell k

pub parse_i-control :
    (g h : Frame)
    → g.modulo ≡ 8
    → g.nr < 8
    → g.ns < 8
    → g.type ≡ i_frame
    → parse_control h 8 (control_bytes g ++ body_bytes g.type g.pid g.info) ≡ ok (carry i_frame g h)
unfolding parse_control control_bytes
parse_i-control g h m hr hs t = ground (arith, i_ctl_fact g.nr g.ns g.pf hr hs)

pub parse_i-control_extended :
    (g h : Frame)
    → g.modulo ≡ 128
    → g.nr < 128
    → g.ns < 128
    → g.type ≡ i_frame
    → parse_control h 128 (control_bytes g ++ body_bytes g.type g.pid g.info)
      ≡ ok (carry i_frame g h)
unfolding parse_control control_bytes
parse_i-control_extended g h m hr hs t =
    ground (arith, ctl2_fact g.nr g.pf hr, all_below_sound 128 _ g.ns ns_table hs)

pub parse_s-control :
    (g h : Frame)
    → g.modulo ≡ 8
    → g.nr < 8
    → is_s g.type ≡ true
    → parse_control h 8 (control_bytes g ++ body_bytes g.type g.pid g.info) ≡ ok (carry g.type g h)
unfolding parse_control control_bytes
parse_s-control g h m hr t = ground (arith, s_ctl_fact g.nr (s_bits g.type) g.pf hr)

pub parse_s-control_extended :
    (g h : Frame)
    → g.modulo ≡ 128
    → g.nr < 128
    → is_s g.type ≡ true
    → parse_control h 128 (control_bytes g ++ body_bytes g.type g.pid g.info)
      ≡ ok (carry g.type g h)
unfolding parse_control control_bytes
parse_s-control_extended g h m hr t = ground (arith, ctl2_fact g.nr g.pf hr)

pub parse_u-control :
    (g h : Frame) (m : ℕ)
    → is_u g.type ≡ true
    → parse_control h m (control_bytes g ++ body_bytes g.type g.pid g.info) ≡ ok (carry g.type g h)
unfolding parse_control control_bytes
parse_u-control g h m t = ground arith
