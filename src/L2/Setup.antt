-- ===== src/L2/Setup.antt =====
-- ax25/l2/l2.go: setting links up and tearing them down, from our side and from the peer's.
use tncd.Prelude.{
  Bool, Bytes, List, Option, [], bytes_eq, err, false, if◌then◌else◌, leb, length, ltb, map, none,
  not, ok, reverse, some, true, ℕ, ◌&&◌, ◌==◌, ◌||◌, ◌∷◌,
}
use tncd.Ax25.Address.{parse_address, to_string}
use tncd.Ax25.Frame.{Frame, dm, ua}
use tncd.L2.State.{
  Conn, ConnKey, ConnState, Table, connecting, disconnecting, fail_dm, get_or_create,
  hook_connect_failed, hook_connected, hook_disconnected, make_key, port_params, reset_seqs,
  resp_frame, setup_t1, table_send,
}
use tncd.L2.Links.{
  Link, cancel_t1, cancel_t2, cancel_t3, enter_connected, is_connected, is_connecting, link_params,
  on_link, send_disc, send_frame, send_sabm, send_sabme, start_t1, tell, with_conn,
}
use tncd.L2.Inbound.{send_xid_command}

unfoldable pub all_parse : List Bytes → Bool
all_parse [] = true
all_parse (s ∷ ss) = elim (parse_address s) [ ok _ ↦ all_parse ss | err _ ↦ false ]

-- The link part of `Connect`.
unfoldable pub begin_connect : ℕ → List Bytes → Link → Link
begin_connect port via l =
    let p = port_params l.table.params port in
    let c = reset_seqs (record l.conn { state = connecting }) in
    let d = record c {
      t1_polls = 0;
      tried_fallback = false;
      via = via;
      t1_value = setup_t1 p.t1_setup (length via);
      modulo = if leb 22 p.ax25_version then 128 else 8;
    } in
    let m = with_conn l d in start_t1 (if leb 22 p.ax25_version then send_sabme m else send_sabm m)

-- The link that `getOrCreate` gave, if it gave one.
abbrev pub connect_on : ℕ → List Bytes → Table × Option ℕ → Table × Option ℕ
connect_on port via (t, none) = (t, none)
connect_on port via (t, some r) = (on_link t r (begin_connect port via), some r)

-- `Connect`: no connection if an address does not parse or the table is full.
unfoldable pub connect : Table → ℕ → Bytes → Bytes → List Bytes → Table × Option ℕ
unfolding begin_connect
connect t port local remote via =
    if all_parse (local ∷ remote ∷ via)
    then connect_on port via (get_or_create t port local remote)
    else (t, none)

-- `Disconnect`
unfoldable pub disconnect : Link → Link
disconnect l =
    let m = cancel_t1 l in
    start_t1 (send_disc (with_conn m (record m.conn { state = disconnecting; t1_polls = 0 })))

-- `fallbackToSABM`, where its test has passed.
unfoldable pub fallback_to_sabm : Link → Link
fallback_to_sabm l =
    start_t1 (send_sabm (with_conn l (record l.conn { modulo = 8; tried_fallback = true })))

abbrev pub may_fall_back : Conn → Bool
may_fall_back c = c.modulo == 128 && not c.tried_fallback

abbrev pub is_active : ConnState → Bool
is_active s = is_connecting s || is_connected s

-- Whether this pair has a connection on another port in a state that `busy` accepts.
unfoldable pub overheard : (ConnState → Bool) → (ℕ → Conn) → ℕ → ConnKey → List (ConnKey × ℕ) → Bool
overheard busy heap port k [] = false
overheard busy heap port k ((j, r) ∷ rest) =
    if bytes_eq j.local k.local
      && (bytes_eq j.remote k.remote && (not (j.port == port) && busy (heap r).state))
    then true
    else overheard busy heap port k rest

abbrev pub heard_elsewhere : (ConnState → Bool) → Table → ℕ → Bytes → Bytes → Bool
heard_elsewhere busy t port local remote =
    overheard busy t.heap port (make_key port local remote) t.conns

-- The peer's SABM or SABME is accepted on the link: UA, then a full reset.
unfoldable pub accept_connect : ℕ → ℕ → Bool → List Bytes → Bytes → Bytes → Link → Link
accept_connect modulo port pf via src dst l =
    let m = send_frame port (resp_frame src dst via ua pf) l in
    let n = enter_connected (with_conn m (record m.conn { via = via })) in
    let o =
      cancel_t3
        (cancel_t2 (cancel_t1 (with_conn n (reset_seqs (record n.conn { modulo = modulo }))))) in
    tell (hook_connected o.self true) (with_conn o (record o.conn { incoming = true }))

-- With no room for the connection the answer is DM.
abbrev pub accept_on : ℕ → ℕ → Bool → List Bytes → Bytes → Bytes → Table × Option ℕ → Table
accept_on modulo port pf via src dst (t, none) = table_send t port (resp_frame src dst via dm pf)
accept_on modulo port pf via src dst (t, some r) =
    on_link t r (accept_connect modulo port pf via src dst)

-- The digipeater path back.
abbrev pub return_via : Frame → List Bytes
return_via f = reverse (map to_string f.via)

unfoldable pub dispatch_sabm : Table → ℕ → Frame → Bytes → Bytes → Table
unfolding accept_connect
dispatch_sabm t port f src dst =
    if heard_elsewhere is_active t port dst src
    then t
    else if not (t.is_local port dst)
    then t
    else accept_on 8 port f.pf (return_via f) src dst (get_or_create t port dst src)

unfoldable pub dispatch_sabme : Table → ℕ → Frame → Bytes → Bytes → Table
unfolding accept_connect
dispatch_sabme t port f src dst =
    if heard_elsewhere is_active t port dst src
    then t
    else if not (t.is_local port dst)
    then t
    else if ltb (port_params t.params port).ax25_version 22
    then table_send t port (resp_frame src dst [] dm true)
    else accept_on 128 port f.pf (return_via f) src dst (get_or_create t port dst src)

-- Our SABM or SABME is confirmed.
unfoldable pub confirm_connect : Link → Link
confirm_connect l =
    let m = enter_connected (cancel_t1 l) in
    let n = tell (hook_connected m.self false) (
      with_conn m (record m.conn { send_seq = 0; recv_seq = 0; t1_polls = 0; incoming = false })) in
    if (link_params n).srej && n.conn.modulo == 128 then send_xid_command n else n

unfoldable pub receive_ua : Link → Link × Bool
unfolding confirm_connect
receive_ua l = elim l.conn.state [
  | connecting ↦ (confirm_connect l, false)
  | disconnecting ↦ (tell (hook_disconnected l.self) l, true)
  | _ ↦ (l, false)
]

-- The peer does not know XID: the link stays, without selective reject.
abbrev pub give_up_xid : Link → Link
give_up_xid l = with_conn l (record l.conn { xid_pending = false; srej_enabled = false })

unfoldable pub receive_dm : Link → Link × Bool
unfolding fallback_to_sabm
receive_dm l =
    if is_connecting l.conn.state && may_fall_back l.conn
    then (fallback_to_sabm l, false)
    else if is_connected l.conn.state && l.conn.xid_pending
    then (give_up_xid l, false)
    else if is_connecting l.conn.state
    then (tell (hook_connect_failed l.self fail_dm) l, true)
    else (tell (hook_disconnected l.self) l, true)

unfoldable pub receive_disc : ℕ → Bool → Bytes → Bytes → Link → Link × Bool
receive_disc port pf src dst l = (
  tell (hook_disconnected l.self) (send_frame port (resp_frame src dst l.conn.via ua pf) l),
  true,
)

-- The reset that FRMR asks for; the peer's busy state survives it.
unfoldable pub re_establish : Link → Link
re_establish l =
    let c = reset_seqs (record l.conn { state = connecting }) in
    let m = cancel_t3 (
      cancel_t2 (
        cancel_t1 (
          with_conn l (record c {
            remote_busy = l.conn.remote_busy;
            t1_polls = 0;
            tried_fallback = false;
          })))) in
    start_t1 (if m.conn.modulo == 128 then send_sabme m else send_sabm m)

unfoldable pub receive_frmr : Link → Link
unfolding fallback_to_sabm re_establish
receive_frmr l =
    if is_connecting l.conn.state && may_fall_back l.conn
    then fallback_to_sabm l
    else if is_connected l.conn.state && l.conn.xid_pending
    then give_up_xid l
    else if not (is_connected l.conn.state)
    then l
    else re_establish l
