-- ===== src/Tests/Links.antt =====
-- ax25/l2 at concrete inputs.
use tncd.Prelude.{
  Bytes, List, [], arith, bytes_eq, contains, false, inl, max, none, refl, some, true, ℕ, ◌*◌, ◌++◌,
  ◌+◌, ◌∷◌, ◌≡◌, ◌≤◌,
}
use tncd.Ax25.Address.{Address, to_string}
use tncd.Ax25.Frame.{Frame, FrameType, i_frame, sabm}
use tncd.L2.State.{
  PortParams, Table, connected, disconnected, find_key, port_params, second, sessions, t2_timer,
}
use tncd.L2.Links.{Link}
use tncd.L2.Outbound.{chunks, drain_outbound, enqueue, send_data}
use tncd.L2.Inbound.{receive_i}
use tncd.L2.Events.{Event, expire, on_frame, receive, run}
use tncd.L2.Foreign.{on_frame-foreign}
use tncd.L2.Retries.{GivenUp}
use tncd.L2.Timers.{expiries, expiries-GivenUp, timeouts, timeouts-waits}
use tncd.L2.Window.{drain_outbound-window, i_frames}
use tncd.L2.Bounds.{IsTidy, send_data-IsTidy}
use tncd.L2.Sending.{send_data-stream, stream, under}
use tncd.L2.Sessions.Valid.{IsValid}
use tncd.L2.Sessions.Events.{run-IsValid}
use tncd.L2.Receiving.Observed.{delivered, finals}
use tncd.L2.Receiving.Sequence.{Received, receive_i-Received}
use tncd.L2.Receiving.Stream.{Follows, receive_all, receive_all-first_items}
use tncd.L2.Receiving.Selective.{srej_poll_unanswered}

-- The stations AA and BB; AA is ours.
abbrev our_call : Bytes
our_call = 65 ∷ 65 ∷ []

abbrev their_call : Bytes
their_call = 66 ∷ 66 ∷ []

abbrev our_address : Address
our_address = record { call = our_call; ssid = 0; crh = false }

abbrev their_address : Address
their_address = record { call = their_call; ssid = 0; crh = false }

abbrev port_example : PortParams
port_example = record {
  max_window = 3;
  t1_floor = second;
  n2_retry = 2;
  t1 = 4 * second;
  t1_setup = 3 * second;
  t2 = second;
  t3 = 0;
  ax25_version = 20;
  srej = true;
}

abbrev pub table_example : Table
table_example = record {
  params = port_example ∷ [];
  is_local = λ port call. bytes_eq call our_call;
  heap = λ r. record {
    port = 0;
    local = [];
    remote = [];
    via = [];
    state = disconnected;
    owner = none;
    modulo = 8;
    send_seq = 0;
    recv_seq = 0;
    unacked = 0;
    last_acked = 0;
    out_queue = [];
    retransmit_buf = [];
    t1 = none;
    t2 = none;
    t3 = none;
    t1_polls = 0;
    t1_value = 0;
    remote_busy = false;
    polling = false;
    rej_sent = false;
    t2_src = [];
    t2_dst = [];
    incoming = false;
    tried_fallback = false;
    xid_pending = false;
    srej_enabled = false;
    rx_buf = [];
    srej_sent = [];
    srtt = 0;
    rttvar = 0;
    iframe_timestamps = [];
  };
  next_conn = 0;
  conns = [];
  next_timer = 0;
  now = 0;
  log = [];
}

abbrev frame_example : FrameType → ℕ → Frame
frame_example type ns = record {
  dst = our_address;
  src = their_address;
  via = [];
  type = type;
  nr = 0;
  ns = ns;
  pf = true;
  modulo = 8;
  command = true;
  pid = 240;
  info = ns ∷ [];
}

table_example-IsValid : IsValid table_example
unfolding sessions
table_example-IsValid = record {
  bounded = omega arith;
  bears = tt;
  unique = tt;
  allocated = tt;
  counted = λ p. refl;
}

-- The peer connects, sends, and a timer that nobody has started fires.
abbrev events_example : List Event
events_example =
    receive 0 (frame_example sabm 0)
    ∷ receive 0 (frame_example i_frame 0)
    ∷ expire t2_timer 0 7
    ∷ []

run-IsValid_example : IsValid (run table_example events_example)
run-IsValid_example = run-IsValid table_example events_example table_example-IsValid

abbrev link_example : Link
link_example = record {
  table = table_example;
  self = 0;
  conn = record (table_example.heap 0) { local = our_call; remote = their_call; state = connected };
  next_timer = 0;
  log = [];
}

receive_i-Received_example :
    Received
      (frame_example i_frame 0)
      link_example
      (receive_i 0 (frame_example i_frame 0) their_call our_call link_example)
receive_i-Received_example =
    receive_i-Received 0 (frame_example i_frame 0) their_call our_call link_example refl

-- The peer's stream, and what comes in of it: item 1 is lost at first, item 0 is repeated.
abbrev source_example : ℕ → ℕ × Bytes
source_example n = (240, n ∷ [])

abbrev heard_example : List (Frame × ℕ)
heard_example =
    (frame_example i_frame 0, 0)
    ∷ (frame_example i_frame 2, 2)
    ∷ (frame_example i_frame 0, 0)
    ∷ (frame_example i_frame 1, 1)
    ∷ []

heard_example-Follows : Follows 8 source_example 0 heard_example
heard_example-Follows = (
  refl,
  refl,
  omega arith,
  omega arith,
  (
    refl,
    refl,
    omega arith,
    omega arith,
    (refl, refl, omega arith, omega arith, (refl, refl, omega arith, omega arith, tt)),
  ),
)

receive_all-first_items_example :
    (delivered (receive_all 0 their_call our_call heard_example link_example).log
      ≡ (240, 1 ∷ []) ∷ (240, 0 ∷ []) ∷ [])
    × ((receive_all 0 their_call our_call heard_example link_example).conn.recv_seq ≡ 2)
receive_all-first_items_example =
    receive_all-first_items source_example 8 0 their_call our_call heard_example link_example
      (inl refl) refl refl refl refl heard_example-Follows

-- Selective reject, with V(R) = 0 asked for already.
abbrev selective_example : Link
selective_example = record link_example {
  conn = record link_example.conn { modulo = 128; srej_enabled = true; srej_sent = (0, true) ∷ [] };
}

srej_poll_unanswered_example :
    finals (receive_i 0 (frame_example i_frame 2) their_call our_call selective_example).log ≡ 0
unfolding port_params contains
srej_poll_unanswered_example =
    srej_poll_unanswered 0 (frame_example i_frame 2) their_call our_call selective_example refl
      (λ e. absurd (omega (arith, e))) refl refl refl

abbrev foreign_example : Frame
foreign_example = record (frame_example sabm 0) { dst = their_address }

on_frame-foreign_example : on_frame table_example 0 foreign_example ≡ table_example
unfolding find_key to_string bytes_eq
on_frame-foreign_example = on_frame-foreign table_example 0 foreign_example refl refl

abbrev waiting_example : Link
waiting_example = record link_example { conn = record link_example.conn { t1 = some 4 } }

expiries-GivenUp_example :
    ((expiries 5 waiting_example).1 ≡ true) × GivenUp connected 0 (expiries 5 waiting_example).0
unfolding port_params
expiries-GivenUp_example =
    expiries-GivenUp 5 waiting_example (cc) (4, refl) (omega arith) (omega arith)

timeouts-waits_example :
    ((timeouts 2 link_example).1 ≡ false) × ((timeouts 2 link_example).0.conn.state ≡ connected)
unfolding port_params
timeouts-waits_example = timeouts-waits 2 link_example (cc) (omega arith)

abbrev queue_example : Link
queue_example = record link_example {
  conn = record link_example.conn { out_queue = record { pid = 240; payload = 1 ∷ [] } ∷ [] };
}

send_data-stream_example :
    stream (send_data 240 (1 ∷ 2 ∷ []) link_example).0
    ≡ stream link_example ++ under 240 (1 ∷ 2 ∷ [])
unfolding send_data enqueue chunks
send_data-stream_example = send_data-stream 240 (1 ∷ 2 ∷ []) link_example refl

drain_outbound-window_example :
    (i_frames (drain_outbound queue_example).log + 0
      ≡ 0 + (drain_outbound queue_example).conn.unacked)
    × ((drain_outbound queue_example).conn.unacked ≤ max 0 3)
unfolding port_params i_frames
drain_outbound-window_example = drain_outbound-window queue_example (omega arith)

link_example-IsTidy : IsTidy link_example
link_example-IsTidy = record { sent = tt; entries = tt; short = omega arith }

send_data-IsTidy_example : IsTidy (send_data 240 (1 ∷ 2 ∷ []) link_example).0
send_data-IsTidy_example = send_data-IsTidy 240 (1 ∷ 2 ∷ []) link_example link_example-IsTidy
