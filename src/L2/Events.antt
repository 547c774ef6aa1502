-- ===== src/L2/Events.antt =====
-- ax25/l2/l2.go: what happens to the table. A frame arrives, a timer fires, a client sends or goes
-- away, a port goes down.
use tncd.Prelude.{
  Bool, Bytes, List, Option, Result, [], err, false, if◌then◌else◌, leb, length, ltb, none, not, ok,
  some, true, ℕ, ◌&&◌, ◌*◌, ◌+◌, ◌/◌, ◌==◌, ◌||◌, ◌∷◌,
}
use tncd.Ax25.Address.{to_string}
use tncd.Ax25.Frame.{
  Frame, FrameType, disc, dm, frmr, i_frame, rej, rnr, rr, sabm, sabme, srej, ua, xid,
}
use tncd.Ax25.Xid
use tncd.Ax25.Xid.{XidError, XidParams, parse_xid}
use tncd.L2.State.{
  Conn, ConnKey, ConnState, Table, TimerKind, connected, connecting, disconnected, disconnecting,
  fail_timeout, get, hook_connect_failed, hook_disconnected, resp_frame, setup_t1, t1_ceil,
  t1_timer, t2_timer, t3_timer, table_send,
}
use tncd.L2.Links.{
  Link, cancel_t1, cancel_t2, cancel_t3, finish, is_connected, is_disconnecting, link_params,
  on_link, open_link, send_disc, send_enquiry, send_sabm, send_sabme, start_t1, start_t3,
  t2_expired, t3_expired, tell, with_conn,
}
use tncd.L2.Outbound.{retransmit_from, send_data}
use tncd.L2.Inbound.{promote, receive_i, receive_s, receive_xid, run_deferred}
use tncd.L2.Setup.{
  connect, disconnect, dispatch_sabm, dispatch_sabme, heard_elsewhere, is_active, receive_disc,
  receive_dm, receive_frmr, receive_ua,
}

-- Run a handler on the connection of an address pair, if there is one.
abbrev pub with_link : Table → Option ℕ → (Link → Link × Bool) → Table
with_link t none f = t
with_link t (some r) f = finish (f (open_link t r))

-- The same for a handler that never removes the connection.
abbrev pub on_some : Table → Option ℕ → (Link → Link) → Table
on_some t none f = t
on_some t (some r) f = on_link t r f

unfoldable pub dispatch_ua : Table → ℕ → Bytes → Bytes → Table
dispatch_ua t port src dst = with_link t (get t port dst src) receive_ua

unfoldable pub dispatch_dm : Table → ℕ → Bytes → Bytes → Table
dispatch_dm t port src dst = with_link t (get t port dst src) receive_dm

unfoldable pub is_engaged : ConnState → Bool
is_engaged s = is_active s || is_disconnecting s

unfoldable pub dispatch_disc : Table → ℕ → Frame → Bytes → Bytes → Table
unfolding is_engaged
dispatch_disc t port f src dst = elim (get t port dst src) [
  | some r ↦ finish (receive_disc port f.pf src dst (open_link t r))
  | none ↦
      if heard_elsewhere is_engaged t port dst src
      then t
      else if t.is_local port dst
      then table_send t port (resp_frame src dst [] dm f.pf)
      else t
]

unfoldable pub dispatch_frmr : Table → ℕ → Bytes → Bytes → Table
dispatch_frmr t port src dst = on_some t (get t port dst src) receive_frmr

-- An I-frame for which there is no established link.
unfoldable pub refuse_i : Table → ℕ → Frame → Bytes → Bytes → Table
refuse_i t port f src dst =
    if heard_elsewhere is_active t port dst src
    then t
    else if f.pf && t.is_local port dst
    then table_send t port (resp_frame src dst [] dm true)
    else t

unfoldable pub i_by_state : ConnState → ℕ → Table → ℕ → Frame → Bytes → Bytes → Table
unfolding refuse_i
i_by_state connecting r t port f src dst = on_link t r (λ l. receive_i port f src dst (promote l))
i_by_state connected r t port f src dst = on_link t r (receive_i port f src dst)
i_by_state _ r t port f src dst = refuse_i t port f src dst

unfoldable pub dispatch_i : Table → ℕ → Frame → Bytes → Bytes → Table
unfolding refuse_i i_by_state
dispatch_i t port f src dst = elim (get t port dst src) [
  | none ↦ refuse_i t port f src dst
  | some r ↦ i_by_state (t.heap r).state r t port f src dst
]

unfoldable pub dispatch_s : Table → ℕ → Frame → Bytes → Bytes → Table
dispatch_s t port f src dst =
    on_some t (get t port dst src)
      (λ l. if is_connected l.conn.state then receive_s f src dst l else l)

-- Parameters that do not parse are ignored.
unfoldable pub xid_by_result : Result XidError XidParams → Table → ℕ → Frame → Bytes → Bytes → Table
xid_by_result (err _) t port f src dst = t
xid_by_result (ok their) t port f src dst =
    on_some t (get t port dst src) (receive_xid port f their src dst)

unfoldable pub dispatch_xid : Table → ℕ → Frame → Bytes → Bytes → Table
unfolding xid_by_result
dispatch_xid t port f src dst =
    if t.is_local port dst then xid_by_result (Xid.parse_xid f.info) t port f src dst else t

unfoldable pub dispatch : FrameType → Table → ℕ → Frame → Bytes → Bytes → Table
unfolding dispatch_ua dispatch_dm dispatch_disc dispatch_frmr dispatch_i dispatch_s dispatch_xid
dispatch sabm t port f src dst = dispatch_sabm t port f src dst
dispatch sabme t port f src dst = dispatch_sabme t port f src dst
dispatch ua t port f src dst = dispatch_ua t port src dst
dispatch dm t port f src dst = dispatch_dm t port src dst
dispatch disc t port f src dst = dispatch_disc t port f src dst
dispatch frmr t port f src dst = dispatch_frmr t port src dst
dispatch i_frame t port f src dst = dispatch_i t port f src dst
dispatch rr t port f src dst = dispatch_s t port f src dst
dispatch rnr t port f src dst = dispatch_s t port f src dst
dispatch rej t port f src dst = dispatch_s t port f src dst
dispatch srej t port f src dst = dispatch_s t port f src dst
dispatch xid t port f src dst = dispatch_xid t port f src dst
dispatch _ t port f src dst = t

abbrev pub refresh_t3 : Link → Link
refresh_t3 l = if is_connected l.conn.state then start_t3 l else l

-- `OnFrame`
unfoldable pub on_frame : Table → ℕ → Frame → Table
unfolding dispatch
on_frame t port f =
    let src = to_string f.src in
    let dst = to_string f.dst in
    let after = dispatch f.type t port f src dst in
    on_some after (get after port dst src) refresh_t3

-- T1 in the state `Disconnecting`.
unfoldable pub t1_disconnecting : Link → Link × Bool
t1_disconnecting l =
    let c = record l.conn { t1_polls = l.conn.t1_polls + 1 } in
    let p = link_params l in
    if ltb p.n2_retry c.t1_polls
    then (tell (hook_disconnected l.self) (with_conn l (record c { state = disconnected })), true)
    else (
      start_t1
          (send_disc (with_conn l (record c { t1_value = setup_t1 p.t1_setup (length c.via) }))),
      false,
    )

-- After a third of the retries a SABME goes on as a SABM.
abbrev pub downgrade : ℕ → Conn → Conn
downgrade n2_retry c =
    if c.modulo == 128 && (not c.tried_fallback && leb (n2_retry / 3) c.t1_polls)
    then record c { modulo = 8; tried_fallback = true }
    else c

-- T1 in the state `Connecting`.
unfoldable pub t1_connecting : Link → Link × Bool
t1_connecting l =
    let p = link_params l in
    let c = downgrade p.n2_retry (record l.conn { t1_polls = l.conn.t1_polls + 1 }) in
    let m = with_conn l (record c { t1_value = setup_t1 p.t1_setup (length c.via) }) in
    if ltb p.n2_retry c.t1_polls
    then (
      tell (hook_connect_failed l.self fail_timeout)
          (with_conn l (record c { state = disconnected })),
      true,
    )
    else (start_t1 (if c.modulo == 128 then send_sabme m else send_sabm m), false)

-- Karn: T1 doubles at a timeout, up to a minute.
abbrev pub backed_off : ℕ → ℕ
backed_off d = if ltb t1_ceil (d * 2) then t1_ceil else d * 2

-- T1 in the state `Connected`.
unfoldable pub t1_connected : Link → Link × Bool
t1_connected l =
    let c = record l.conn { t1_polls = l.conn.t1_polls + 1 } in
    let m = send_enquiry (with_conn l c) in
    let n = if ltb 1 c.t1_polls then retransmit_from m.conn.last_acked m else m in
    if ltb (link_params l).n2_retry c.t1_polls
    then (tell (hook_disconnected l.self) (with_conn l (record c { state = disconnected })), true)
    else (start_t1 (with_conn n (record n.conn { t1_value = backed_off n.conn.t1_value })), false)

unfoldable pub t1_by_state : ConnState → Link → Link × Bool
t1_by_state disconnecting l = t1_disconnecting l
t1_by_state connecting l = t1_connecting l
t1_by_state connected l = t1_connected l
t1_by_state disconnected l = (l, false)

-- `t1Expired`
unfoldable pub t1_expired : Link → Link × Bool
t1_expired l = t1_by_state l.conn.state (with_conn l (record l.conn { t1 = none }))

abbrev pub is_timer : Option ℕ → ℕ → Bool
is_timer none id = false
is_timer (some i) id = i == id

-- The closures of the timers: an expiry that is not that of the connection's present timer is stale.
unfoldable pub fire : Table → TimerKind → ℕ → ℕ → Table
unfolding t1_expired
fire t t1_timer r id = if is_timer (t.heap r).t1 id then finish (t1_expired (open_link t r)) else t
fire t t2_timer r id = if is_timer (t.heap r).t2 id then on_link t r t2_expired else t
fire t t3_timer r id = if is_timer (t.heap r).t3 id then on_link t r t3_expired else t

-- The places of the connections that a test picks out.
unfoldable pub select : (Conn → Bool) → (ℕ → Conn) → List (ConnKey × ℕ) → List ℕ
select test heap [] = []
select test heap ((k, r) ∷ rest) =
    let others = select test heap rest in if test (heap r) then r ∷ others else others

abbrev pub same_owner : Option ℕ → Option ℕ → Bool
same_owner none none = true
same_owner (some a) (some b) = a == b
same_owner _ _ = false

abbrev pub stop_timers : Link → Link
stop_timers l = cancel_t3 (cancel_t2 (cancel_t1 l))

unfoldable pub drop_owned : Link → Link × Bool
drop_owned l = let m = stop_timers l in ((if is_active m.conn.state then send_disc m else m), true)

unfoldable pub drop_offline : Link → Link × Bool
drop_offline l = (tell (hook_disconnected l.self) (stop_timers l), true)

unfoldable pub drop_each : (Link → Link × Bool) → List ℕ → Table → Table
drop_each f [] t = t
drop_each f (r ∷ rs) t = drop_each f rs (finish (f (open_link t r)))

-- `RemoveOwned`; Go's order of the map's entries is any order, here that of the list.
unfoldable pub remove_owned : Table → Option ℕ → Table
unfolding select drop_owned drop_each
remove_owned t owner =
    drop_each drop_owned (select (λ c. same_owner c.owner owner) t.heap t.conns) t

-- `PortOffline`
unfoldable pub port_offline : Table → ℕ → Table
unfolding select drop_offline drop_each is_engaged
port_offline t port =
    drop_each drop_offline (select (λ c. c.port == port && is_engaged c.state) t.heap t.conns) t

-- What the environment may do to the table. A connection in an event is a pointer that a client, a
-- timer or the event loop has kept, whether it is still in the table or not.
pub data Event : Type 0 where
  receive : ℕ → Frame → Event
  expire : TimerKind → ℕ → ℕ → Event
  deferred : ℕ → Bytes → Bytes → Event
  open_connection : ℕ → Bytes → Bytes → List Bytes → Event
  close_connection : ℕ → Event
  transmit : ℕ → ℕ → Bytes → Event
  owner_gone : Option ℕ → Event
  offline : ℕ → Event
  set_owner : ℕ → Option ℕ → Event
  tick : ℕ → Event

unfoldable pub step : Table → Event → Table
unfolding on_frame fire connect remove_owned port_offline
step t (receive port f) = on_frame t port f
step t (expire kind r id) = fire t kind r id
step t (deferred r src dst) = on_link t r (run_deferred src dst)
step t (open_connection port local remote via) = (connect t port local remote via).0
step t (close_connection r) = on_link t r disconnect
step t (transmit r pid payload) = on_link t r (λ l. (send_data pid payload l).0)
step t (owner_gone owner) = remove_owned t owner
step t (offline port) = port_offline t port
step t (set_owner r owner) = on_link t r (λ l. with_conn l (record l.conn { owner = owner }))
step t (tick elapsed) = record t { now = t.now + elapsed }

unfoldable pub run : Table → List Event → Table
unfolding step
run t [] = t
run t (e ∷ es) = run (step t e) es
