-- ===== src/L2/State.antt =====
-- ax25/l2/conn.go and the table of ax25/l2/l2.go. A `*Conn` is its place in the heap of `Table`,
-- so that a pointer kept by a timer, a hook or a client stays valid after the connection has left
-- the table. A duration or a time is a number of nanoseconds. A port is an index from 0; the hooks
-- are all set, as the bridge sets them, and a call of one is an `Effect` in the log, newest first.
use tncd.Prelude.{
  Bool, Bytes, List, Option, Result, [], bytes_eq, err, false, if◌then◌else◌, leb, length, map,
  none, ok, some, suc, true, zero, ℕ, ◌%◌, ◌&&◌, ◌*◌, ◌+◌, ◌==◌, ◌||◌, ◌∷◌,
}
use tncd.Ax25.Address.{
  Address, AddressError, parse_address, space, to_string, to_upper, zero_address,
}
use tncd.Ax25.Frame.{Frame, FrameType, is_i, is_s}

pub data ConnState : Type 0 where
  disconnected connecting connected disconnecting : ConnState

pub record OutEntry : Type 0 where
  pub pid : ℕ
  pub payload : Bytes

pub record RxEntry : Type 0 where
  pub pid : ℕ
  pub info : Bytes

pub record Conn : Type 0 where
  pub port : ℕ
  pub local : Bytes
  pub remote : Bytes
  pub via : List Bytes
  pub state : ConnState
  pub owner : Option ℕ
  pub modulo : ℕ
  pub send_seq : ℕ
  pub recv_seq : ℕ
  pub unacked : ℕ
  pub last_acked : ℕ
  pub out_queue : List OutEntry
  pub retransmit_buf : List (ℕ × Bytes)
  pub t1 : Option ℕ
  pub t2 : Option ℕ
  pub t3 : Option ℕ
  pub t1_polls : ℕ
  pub t1_value : ℕ
  pub remote_busy : Bool
  pub polling : Bool
  pub rej_sent : Bool
  pub t2_src : Bytes
  pub t2_dst : Bytes
  pub incoming : Bool
  pub tried_fallback : Bool
  pub xid_pending : Bool
  pub srej_enabled : Bool
  pub rx_buf : List (ℕ × RxEntry)
  pub srej_sent : List (ℕ × Bool)
  pub srtt : ℕ
  pub rttvar : ℕ
  pub iframe_timestamps : List (ℕ × ℕ)

unfoldable pub new_conn : ℕ → Bytes → Bytes → Conn
new_conn port local remote = record {
  port = port;
  local = local;
  remote = remote;
  via = [];
  state = disconnected;
  owner = none;
  modulo = 8;
  send_seq = 0;
  recv_seq = 0;
  unacked = 0;
  last_acked = 0;
  out_queue = [];
  retransmit_buf = [];
  t1 = none;
  t2 = none;
  t3 = none;
  t1_polls = 0;
  t1_value = 0;
  remote_busy = false;
  polling = false;
  rej_sent = false;
  t2_src = [];
  t2_dst = [];
  incoming = false;
  tried_fallback = false;
  xid_pending = false;
  srej_enabled = false;
  rx_buf = [];
  srej_sent = [];
  srtt = 0;
  rttvar = 0;
  iframe_timestamps = [];
}

unfoldable pub reset_seqs : Conn → Conn
reset_seqs c = record c {
  send_seq = 0;
  recv_seq = 0;
  unacked = 0;
  last_acked = 0;
  retransmit_buf = [];
  iframe_timestamps = [];
  out_queue = [];
  remote_busy = false;
  polling = false;
  rej_sent = false;
  xid_pending = false;
  srej_enabled = false;
  rx_buf = [];
  srej_sent = [];
}

pub record PortParams : Type 0 where
  pub max_window : ℕ
  pub t1_floor : ℕ
  pub n2_retry : ℕ
  pub t1 : ℕ
  pub t1_setup : ℕ
  pub t2 : ℕ
  pub t3 : ℕ
  pub ax25_version : ℕ
  pub srej : Bool

abbrev pub second : ℕ
second = 1_000_000_000

abbrev pub default_t1_setup : ℕ
default_t1_setup = 3_000_000_000

abbrev pub t1_ceil : ℕ
t1_ceil = 60_000_000_000

abbrev pub max_connections : ℕ
max_connections = 64

abbrev pub max_outbound_queue : ℕ
max_outbound_queue = 512

abbrev pub max_i_frame_info : ℕ
max_i_frame_info = 256

unfoldable pub setup_t1 : ℕ → ℕ → ℕ
setup_t1 base digis = (if base == 0 then default_t1_setup else base) * (2 * digis + 1)

pub data FailReason : Type 0 where
  fail_timeout fail_dm : FailReason

pub data TimerKind : Type 0 where
  t1_timer t2_timer t3_timer : TimerKind

-- What the table asks of the world: the hooks, and the timers of its clock. A connection is named
-- by its place in the heap; `timer_started` has the timer's kind, its number, its connection and
-- its duration.
pub data Effect : Type 0 where
  send_ax25 : ℕ → Frame → Effect
  hook_connected : ℕ → Bool → Effect
  hook_connect_failed : ℕ → FailReason → Effect
  hook_data : ℕ → ℕ → Bytes → Effect
  hook_disconnected : ℕ → Effect
  hook_defer : ℕ → Bytes → Bytes → Effect
  hook_port_sessions : ℕ → ℕ → Effect
  timer_started : TimerKind → ℕ → ℕ → ℕ → Effect
  timer_cancelled : ℕ → Effect

pub record ConnKey : Type 0 where
  pub port : ℕ
  pub local : Bytes
  pub remote : Bytes

-- `is_local` is the hook `IsLocal`; `next_conn` is the first free place of the heap, and `now` is
-- what the clock shows.
pub record Table : Type 0 where
  pub params : List PortParams
  pub is_local : ℕ → Bytes → Bool
  pub heap : ℕ → Conn
  pub next_conn : ℕ
  pub conns : List (ConnKey × ℕ)
  pub next_timer : ℕ
  pub now : ℕ
  pub log : List Effect

abbrev is_space : ℕ → Bool
is_space c = c == space || (leb 9 c && leb c 13)

unfoldable pub trim_front : Bytes → Bytes
trim_front [] = []
trim_front (c ∷ cs) = let rest = trim_front cs in if is_space c then rest else c ∷ cs

abbrev trim_back_cons : ℕ → Bytes → Bytes
trim_back_cons c [] = if is_space c then [] else c ∷ []
trim_back_cons c (x ∷ xs) = c ∷ x ∷ xs

unfoldable pub trim_back : Bytes → Bytes
trim_back [] = []
trim_back (c ∷ cs) = trim_back_cons c (trim_back cs)

-- `strings.ToUpper(strings.TrimSpace(s))`, on ASCII.
unfoldable pub normal_call : Bytes → Bytes
unfolding trim_front trim_back
normal_call s = to_upper (trim_back (trim_front s))

unfoldable pub make_key : ℕ → Bytes → Bytes → ConnKey
make_key port local remote = record {
  port = port;
  local = normal_call local;
  remote = normal_call remote;
}

unfoldable pub key_eq : ConnKey → ConnKey → Bool
key_eq a b = a.port == b.port && (bytes_eq a.local b.local && bytes_eq a.remote b.remote)

unfoldable pub find_key : ConnKey → List (ConnKey × ℕ) → Option ℕ
unfolding key_eq
find_key k [] = none
find_key k ((j, r) ∷ rest) = if key_eq j k then some r else find_key k rest

unfoldable pub delete_key : ConnKey → List (ConnKey × ℕ) → List (ConnKey × ℕ)
unfolding key_eq
delete_key k [] = []
delete_key k ((j, r) ∷ rest) =
    let others = delete_key k rest in if key_eq j k then others else (j, r) ∷ others

-- The parameters when no port has any.
abbrev pub fallback_params : PortParams
fallback_params = record {
  max_window = 0;
  t1_floor = default_t1_setup;
  n2_retry = 10;
  t1 = 3_000_000_000;
  t1_setup = default_t1_setup;
  t2 = 0;
  t3 = 0;
  ax25_version = 0;
  srej = false;
}

-- `portParams`: a port beyond the last has the parameters of the last.
unfoldable pub port_params : List PortParams → ℕ → PortParams
port_params [] port = fallback_params
port_params (p ∷ []) port = p
port_params (p ∷ q ∷ ps) zero = p
port_params (p ∷ q ∷ ps) (suc port) = port_params (q ∷ ps) port

abbrev pub get : Table → ℕ → Bytes → Bytes → Option ℕ
get t port local remote = find_key (make_key port local remote) t.conns

abbrev pub update : (ℕ → Conn) → ℕ → Conn → ℕ → Conn
update heap r c s = if s == r then c else heap s

abbrev pub note : Table → Effect → Table
note t e = record t { log = e ∷ t.log }

unfoldable pub sessions : ℕ → List (ConnKey × ℕ) → ℕ
sessions port [] = 0
sessions port ((k, r) ∷ rest) = (if k.port == port then 1 else 0) + sessions port rest

unfoldable pub notify_port_sessions : Table → ℕ → Table
notify_port_sessions t port = note t (hook_port_sessions port (sessions port t.conns))

-- `getOrCreate`: the connection, unless the table is full.
unfoldable pub get_or_create : Table → ℕ → Bytes → Bytes → Table × Option ℕ
unfolding notify_port_sessions new_conn
get_or_create t port local remote =
    let k = make_key port local remote in
    elim (find_key k t.conns) [
      | some r ↦ (t, some r)
      | none ↦ if leb max_connections (length t.conns) then (t, none) else (
        notify_port_sessions
            (record t {
              heap = update t.heap t.next_conn (record (new_conn k.port k.local k.remote) {
                t1_value = (port_params t.params port).t1;
              });
              next_conn = t.next_conn + 1;
              conns = (k, t.next_conn) ∷ t.conns;
            })
            port,
        some t.next_conn,
      )
    ]

abbrev pub cancelled : Option ℕ → List Effect → List Effect
cancelled none log = log
cancelled (some id) log = timer_cancelled id ∷ log

-- `remove`: by key, whatever object stands there.
unfoldable pub remove : Table → ℕ → Bytes → Bytes → Table
unfolding notify_port_sessions
remove t port local remote =
    let k = make_key port local remote in
    elim (find_key k t.conns) [
      | none ↦ t
      | some r ↦
          let c = t.heap r in
          notify_port_sessions
            (record t {
              heap = update t.heap r (record c { t1 = none; t2 = none; t3 = none });
              conns = delete_key k t.conns;
              log = cancelled c.t3 (cancelled c.t2 (cancelled c.t1 t.log));
            })
            port
    ]

unfoldable pub remove_conn : Table → ℕ → Table
unfolding remove
remove_conn t r = remove t (t.heap r).port (t.heap r).local (t.heap r).remote

-- `ModuloFor`
unfoldable pub modulo_for : (ℕ → Conn) → List (ConnKey × ℕ) → ℕ → Bytes → Bytes → ℕ
modulo_for heap conns port local remote = elim (find_key (make_key port local remote) conns) [
  | none ↦ 8
  | some r ↦ (heap r).modulo
]

-- The modulo that `sendFrame` stamps on an I- or S-frame that has none.
unfoldable pub stamped : (ℕ → Conn) → List (ConnKey × ℕ) → ℕ → Frame → Frame
unfolding modulo_for
stamped heap conns port f =
    if f.modulo == 0 && (is_i f.type || is_s f.type)
    then record f { modulo = modulo_for heap conns port (to_string f.src) (to_string f.dst) % 256 }
    else f

-- `sendFrame` where no connection is at hand.
unfoldable pub table_send : Table → ℕ → Frame → Table
unfolding stamped
table_send t port f = note t (send_ax25 port (stamped t.heap t.conns port f))

abbrev or_zero : Result AddressError Address → Address
or_zero (ok a) = a
or_zero (err _) = zero_address

-- An address that does not parse goes out as the zero address.
unfoldable pub address_of : Bytes → Address
address_of s = or_zero (parse_address s)

unfoldable pub frame_of : Bool → Bytes → Bytes → List Bytes → FrameType → Bool → Frame
unfolding address_of
frame_of command dst src via type pf = record {
  dst = address_of dst;
  src = address_of src;
  via = map address_of via;
  type = type;
  nr = 0;
  ns = 0;
  pf = pf;
  modulo = 0;
  command = command;
  pid = 0;
  info = [];
}

abbrev pub cmd_frame : Bytes → Bytes → List Bytes → FrameType → Bool → Frame
cmd_frame = frame_of true

abbrev pub resp_frame : Bytes → Bytes → List Bytes → FrameType → Bool → Frame
resp_frame = frame_of false
