-- ===== src/Tests/Codecs.antt =====
-- kiss/framing.go, ax25/address.go, ax25/frame.go, ax25/xid.go and agwpe/agwpe.go at concrete inputs.
use tncd.Prelude.{
  All, Bytes, List, [], arith, false, inl, inr, ok, refl, true, ℕ, ◌++◌, ◌∷◌, ◌≡◌, ◌≢◌,
}
use tncd.Kiss.Framing.{
  closed_frame, escape, escape_byte, feed, fend, new_decoder, wrap_command_bytes, wrap_data,
}
use tncd.Kiss.Framing.Stream.{IsBounded, IsFrame, feed-IsBounded}
use tncd.Kiss.Framing.RoundTrip.{
  feed-wrap_command_bytes, feed-wrap_data, feed-wrap_data_port_twelve, feed_resync, pending,
}
use tncd.Ax25.Address.{Address, decode_address, encode, parse_address, to_string, trim_right}
use tncd.Ax25.Address.Wire.{IsAddress, decode_address-IsAddress, decode_address-encode}
use tncd.Ax25.Address.Text.{IsCallsign, IsPlain, parse_address-to_string}
use tncd.Ax25.Xid
use tncd.Ax25.Xid.{XidParams, parse_xid, srej_single}
use tncd.Ax25.Xid.RoundTrip.{FitsFields, parse_xid-encode}
use tncd.Agwpe.{build, parse_header}
use tncd.Agwpe.RoundTrip.{parse_header-build}
use tncd.Ax25.Frame.{Frame, bytes, i_frame, parse_modulo}
use tncd.Ax25.Frame.RoundTrip.{IsSendable, parse_modulo-bytes, received}

-- A payload that needs both escapes.
abbrev payload : Bytes
payload = 0xC0 ∷ 0x41 ∷ 0xDB ∷ []

wrap_data_test : wrap_data 1 payload ≡ 0xC0 ∷ 0x10 ∷ 0xDB ∷ 0xDC ∷ 0x41 ∷ 0xDB ∷ 0xDD ∷ 0xC0 ∷ []
unfolding wrap_data escape escape_byte
wrap_data_test = refl

feed-IsBounded_example :
    IsBounded (feed new_decoder payload).0 × All IsFrame (feed new_decoder payload).1
feed-IsBounded_example = feed-IsBounded new_decoder payload (omega arith)

feed-wrap_data_example : feed new_decoder (wrap_data 1 payload) ≡ (
  record new_decoder { buf = []; in_frame = true; esc = false },
  pending new_decoder ++ (16 ∷ payload) ∷ [],
)
feed-wrap_data_example =
    feed-wrap_data new_decoder 1 payload refl (omega arith) (λ e. absurd (omega (arith, e)))
      (omega arith)

feed_resync_example :
    (front : List Bytes) × ((feed new_decoder (fend ∷ wrap_data 1 payload)).1
      ≡ front ++ (16 ∷ payload) ∷ [])
feed_resync_example =
    feed_resync new_decoder 1 payload (omega arith) (λ e. absurd (omega (arith, e))) (omega arith)

feed-wrap_data_port_twelve_example :
    (feed new_decoder (wrap_data 12 payload)).1 ≡ pending new_decoder ++ closed_frame payload
feed-wrap_data_port_twelve_example =
    feed-wrap_data_port_twelve new_decoder payload refl (omega arith)

feed-wrap_command_bytes_example : feed new_decoder (wrap_command_bytes 0 6 payload) ≡ (
  record new_decoder { buf = []; in_frame = true; esc = false },
  pending new_decoder ++ (6 ∷ payload) ∷ [],
)
feed-wrap_command_bytes_example =
    feed-wrap_command_bytes new_decoder 0 6 payload refl (omega arith) (omega arith) (omega arith)
      (λ e. absurd (omega (arith, e))) (omega arith)

-- KU-10
abbrev station : Address
station = record { call = 75 ∷ 85 ∷ []; ssid = 10; crh = false }

station-IsAddress : IsAddress station
unfolding trim_right
station-IsAddress = record {
  printable = ((omega arith, omega arith), ((omega arith, omega arith), tt));
  short = omega arith;
  trimmed = refl;
  four_bits = omega arith;
}

decode_address-encode_example :
    decode_address (encode station true false) ≡ (record station { crh = true }, false)
decode_address-encode_example = decode_address-encode station true false station-IsAddress

decode_address-IsAddress_example : IsAddress (decode_address (1 ∷ 2 ∷ 3 ∷ 4 ∷ 5 ∷ 6 ∷ 255 ∷ [])).0
decode_address-IsAddress_example =
    decode_address-IsAddress (1 ∷ 2 ∷ 3 ∷ 4 ∷ 5 ∷ 6 ∷ 255 ∷ []) (omega arith)

upper_case : IsPlain 75
upper_case = (
  inl (omega arith),
  (λ e. absurd (omega (arith, e))),
  (λ e. absurd (omega (arith, e))),
  omega arith,
)

upper_case_u : IsPlain 85
upper_case_u = (
  inl (omega arith),
  (λ e. absurd (omega (arith, e))),
  (λ e. absurd (omega (arith, e))),
  omega arith,
)

station-IsCallsign : IsCallsign station
station-IsCallsign = record {
  plain = (upper_case, (upper_case_u, tt));
  some_call = omega arith;
  short = omega arith;
  four_bits = omega arith;
}

parse_address-to_string_example : parse_address (to_string station) ≡ ok station
parse_address-to_string_example = parse_address-to_string station station-IsCallsign

-- An I-frame through one digipeater.
abbrev routed : Frame
routed = record {
  dst = station;
  src = station;
  via = station ∷ [];
  type = i_frame;
  nr = 3;
  ns = 5;
  pf = true;
  modulo = 8;
  command = true;
  pid = 240;
  info = 65 ∷ [];
}

routed-IsSendable : IsSendable 8 routed
routed-IsSendable = record {
  dst = station-IsAddress;
  src = station-IsAddress;
  via = (station-IsAddress, tt);
  few = omega arith;
  known = cc;
  fits = record { i_fits = λ e. (refl, omega arith, omega arith); s_fits = cc };
}

parse_modulo-bytes_example : parse_modulo (bytes routed) 8 ≡ ok (received 8 routed)
parse_modulo-bytes_example = parse_modulo-bytes 8 routed (inl refl) routed-IsSendable

-- What tncd offers on a v2.2 link.
abbrev offer : XidParams
offer = record {
  full_duplex = false;
  srej = srej_single;
  modulo = 128;
  i_field_len_rx_bytes = 256;
  window_rx = 7;
}

offer-FitsFields : FitsFields offer
offer-FitsFields = record { modulo = inr refl; i_field = omega arith; window = omega arith }

parse_xid-encode_example : parse_xid (Xid.encode offer true) ≡ ok offer
parse_xid-encode_example = parse_xid-encode offer true offer-FitsFields

call_ku : All (λ (c : ℕ). c ≢ 0) (75 ∷ 85 ∷ [])
call_ku = ((λ e. absurd (omega (arith, e))), ((λ e. absurd (omega (arith, e))), tt))

call_cq : All (λ (c : ℕ). c ≢ 0) (67 ∷ 81 ∷ [])
call_cq = ((λ e. absurd (omega (arith, e))), ((λ e. absurd (omega (arith, e))), tt))

parse_header-build_example :
    parse_header (build 1 68 240 (75 ∷ 85 ∷ []) (67 ∷ 81 ∷ []) (7 ∷ 8 ∷ []))
    ≡ ok (record {
      port = 1;
      kind = 68;
      pid = 240;
      call_from = 75 ∷ 85 ∷ [];
      call_to = 67 ∷ 81 ∷ [];
      data_len = 2;
    })
parse_header-build_example =
    parse_header-build 1 68 240 (75 ∷ 85 ∷ []) (67 ∷ 81 ∷ []) (7 ∷ 8 ∷ []) (omega arith) call_ku
      (omega arith) call_cq (omega arith)
