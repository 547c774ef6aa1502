-- ===== src/L2/Links.antt =====
-- ax25/l2/l2.go: the operations on one connection. A `Link` is a connection taken out of its table:
-- the table as it stands (for the parameters, the clock and the other connections), the place of the
-- connection in the heap, its present value, the log and the timers. What works on a `Link` cannot
-- touch the table's map nor another connection.
use tncd.Prelude.{Bool, Bytes, List, false, if◌then◌else◌, none, some, true, ℕ, ◌+◌, ◌==◌, ◌∷◌}
use tncd.Ax25.Frame.{Frame, disc, i_frame, rr, sabm, sabme}
use tncd.L2.State.{
  Conn, ConnState, Effect, PortParams, Table, cancelled, cmd_frame, connected, connecting,
  disconnecting, frame_of, port_params, remove_conn, send_ax25, stamped, t1_timer, t2_timer,
  t3_timer, timer_started, update,
}

pub record Link : Type 0 where
  pub table : Table
  pub self : ℕ
  pub conn : Conn
  pub next_timer : ℕ
  pub log : List Effect

unfoldable pub open_link : Table → ℕ → Link
open_link t r = record {
  table = t;
  self = r;
  conn = t.heap r;
  next_timer = t.next_timer;
  log = t.log;
}

unfoldable pub close_link : Link → Table
close_link l = record l.table {
  heap = update l.table.heap l.self l.conn;
  next_timer = l.next_timer;
  log = l.log;
}

-- Run an operation on the connection at `r`.
unfoldable pub on_link : Table → ℕ → (Link → Link) → Table
unfolding open_link close_link
on_link t r f = close_link (f (open_link t r))

-- An operation that may end in `removeConn`.
unfoldable pub finish : Link × Bool → Table
unfolding close_link
finish (l, false) = close_link l
finish (l, true) = remove_conn (close_link l) l.self

abbrev pub link_params : Link → PortParams
link_params l = port_params l.table.params l.conn.port

abbrev pub tell : Effect → Link → Link
tell e l = record l { log = e ∷ l.log }

abbrev pub with_conn : Link → Conn → Link
with_conn l c = record l { conn = c }

abbrev pub is_connected : ConnState → Bool
is_connected connected = true
is_connected _ = false

abbrev pub is_connecting : ConnState → Bool
is_connecting connecting = true
is_connecting _ = false

abbrev pub is_disconnecting : ConnState → Bool
is_disconnecting disconnecting = true
is_disconnecting _ = false

-- `sendFrame` on behalf of a connection, whose own modulo is the present one.
unfoldable pub send_frame : ℕ → Frame → Link → Link
send_frame port f l =
    tell (send_ax25 port (stamped (update l.table.heap l.self l.conn) l.table.conns port f)) l

unfoldable pub cancel_t1 : Link → Link
cancel_t1 l = record l { conn = record l.conn { t1 = none }; log = cancelled l.conn.t1 l.log }

unfoldable pub cancel_t2 : Link → Link
cancel_t2 l = record l { conn = record l.conn { t2 = none }; log = cancelled l.conn.t2 l.log }

unfoldable pub cancel_t3 : Link → Link
cancel_t3 l = record l { conn = record l.conn { t3 = none }; log = cancelled l.conn.t3 l.log }

-- `startT1`: the duration is the connection's, or the port's where that is not positive.
unfoldable pub start_t1 : Link → Link
unfolding cancel_t1
start_t1 l =
    let m = cancel_t1 l in
    let d = if l.conn.t1_value == 0 then (link_params l).t1 else l.conn.t1_value in
    record m {
      conn = record m.conn { t1 = some m.next_timer };
      next_timer = m.next_timer + 1;
      log = timer_started t1_timer m.next_timer m.self d ∷ m.log;
    }

unfoldable pub schedule_t2 : Bytes → Bytes → Link → Link
unfolding cancel_t2
schedule_t2 src dst l =
    let m = cancel_t2 l in
    record m {
      conn = record m.conn { t2_src = src; t2_dst = dst; t2 = some m.next_timer };
      next_timer = m.next_timer + 1;
      log = timer_started t2_timer m.next_timer m.self (link_params l).t2 ∷ m.log;
    }

-- `startT3`; a T3 of zero is off.
unfoldable pub start_t3 : Link → Link
unfolding cancel_t3
start_t3 l =
    let m = cancel_t3 l in
    if (link_params l).t3 == 0 then m else record m {
      conn = record m.conn { t3 = some m.next_timer };
      next_timer = m.next_timer + 1;
      log = timer_started t3_timer m.next_timer m.self (link_params l).t3 ∷ m.log;
    }

abbrev rr_frame : Bool → Bytes → Bytes → Conn → Bool → Frame
rr_frame command dst src c pf = record (frame_of command dst src c.via rr pf) { nr = c.recv_seq }

unfoldable pub send_enquiry : Link → Link
unfolding send_frame
send_enquiry l =
    let m = send_frame l.conn.port (rr_frame true l.conn.remote l.conn.local l.conn true) l in
    with_conn m (record m.conn { polling = true })

unfoldable pub send_rr_response : Bytes → Bytes → Link → Link
unfolding send_frame
send_rr_response src dst l = send_frame l.conn.port (rr_frame false src dst l.conn true) l

-- The delayed acknowledgement of T2, whose timer has just fired.
unfoldable pub t2_expired : Link → Link
unfolding send_frame
t2_expired l =
    let m = with_conn l (record l.conn { t2 = none }) in
    if is_connected m.conn.state
    then send_frame m.conn.port (rr_frame false m.conn.t2_src m.conn.t2_dst m.conn false) m
    else m

unfoldable pub t3_expired : Link → Link
unfolding send_enquiry start_t1
t3_expired l =
    let m = with_conn l (record l.conn { t3 = none }) in
    if is_connected m.conn.state
    then start_t1 (send_enquiry (with_conn m (record m.conn { t1_polls = 0 })))
    else m

unfoldable pub send_sabm : Link → Link
unfolding send_frame
send_sabm l = send_frame l.conn.port (cmd_frame l.conn.remote l.conn.local l.conn.via sabm true) l

unfoldable pub send_sabme : Link → Link
unfolding send_frame
send_sabme l = send_frame l.conn.port (cmd_frame l.conn.remote l.conn.local l.conn.via sabme true) l

unfoldable pub send_disc : Link → Link
unfolding send_frame
send_disc l = send_frame l.conn.port (cmd_frame l.conn.remote l.conn.local l.conn.via disc true) l

-- The link is established: T1 goes back to the value of the data phase.
unfoldable pub enter_connected : Link → Link
enter_connected l = with_conn l (record l.conn { state = connected; t1_value = (link_params l).t1 })

-- `iFrame`
unfoldable pub i_frame_of : Conn → ℕ → ℕ → Bytes → Frame
i_frame_of c ns pid info = record (cmd_frame c.remote c.local c.via i_frame false) {
  ns = ns;
  nr = c.recv_seq;
  pid = pid;
  info = info;
  modulo = c.modulo;
}
