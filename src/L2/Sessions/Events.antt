-- ===== src/L2/Sessions/Events.antt =====
-- ax25/l2/l2.go: the connection table under sequences of events.
use tncd.Prelude.{
  Bool, Bool-cases, Bytes, List, Option, Option-cases, Result, [], err, false, if◌then◌else◌, inl,
  inr, ltb, none, not, ok, refl, some, true, ℕ, ◌&&◌, ◌==◌, ◌∷◌,
}
use tncd.Ax25.Address.{to_string}
use tncd.Ax25.Frame.{
  Frame, FrameType, disc, dm, frmr, i_frame, rej, rnr, rr, sabm, sabme, srej, ua, xid,
}
use tncd.Ax25.Xid.{XidError, XidParams, parse_xid}
use tncd.L2.State.{
  ConnState, Table, TimerKind, connected, connecting, get, port_params, t1_timer, t2_timer,
  t3_timer,
}
use tncd.L2.Links.{Link, is_connected, open_link}
use tncd.L2.Setup.{
  accept_on, all_parse, connect, connect_on, dispatch_sabm, dispatch_sabme, heard_elsewhere,
  is_active, receive_disc, receive_dm, receive_frmr, receive_ua,
}
use tncd.L2.Events.{
  Event, close_connection, deferred, dispatch, dispatch_disc, dispatch_i, dispatch_s, dispatch_xid,
  drop_each, drop_offline, drop_owned, expire, fire, i_by_state, is_engaged, is_timer, offline,
  on_frame, on_some, open_connection, owner_gone, receive, refresh_t3, refuse_i, run, same_owner,
  select, set_owner, step, t1_expired, tick, transmit, with_link, xid_by_result,
}
use tncd.L2.Sessions.Keeps.{Keeps, Keeps-conn, Keeps-if, Keeps-refl, Keeps-trans, start_t3-Keeps}
use tncd.L2.Sessions.Outbound.{send_data-Keeps}
use tncd.L2.Sessions.Inbound.{
  promote-Keeps, receive_i-Keeps, receive_s-Keeps, receive_xid-Keeps, run_deferred-Keeps,
}
use tncd.L2.Sessions.Setup.{
  accept_connect-Keeps, begin_connect-Keeps, disconnect-Keeps, drop_offline-Keeps, drop_owned-Keeps,
  receive_disc-Keeps, receive_dm-Keeps, receive_frmr-Keeps, receive_ua-Keeps, t1_expired-Keeps,
  t2_expired-Keeps, t3_expired-Keeps,
}
use tncd.L2.Sessions.Valid.{
  IsValid, finish-IsValid, get_or_create-IsValid, on_link-IsValid, table_send-IsValid,
}
use tncd.Ax25.Xid

abbrev pub IsValid-if :
    (b : Bool) (t u : Table) → IsValid t → IsValid u → IsValid (if b then t else u)
IsValid-if true t u h k = h
IsValid-if false t u h k = k

with_link-IsValid :
    (t : Table) (o : Option ℕ) (f : Link → Link × Bool)
    → ((l : Link) → Keeps l (f l).0)
    → IsValid t
    → IsValid (with_link t o f)
with_link-IsValid t none f h v = v
with_link-IsValid t (some r) f h v =
    finish-IsValid t r (f (open_link t r)).0 (f (open_link t r)).1 (h (open_link t r)) v

on_some-IsValid :
    (t : Table) (o : Option ℕ) (f : Link → Link)
    → ((l : Link) → Keeps l (f l))
    → IsValid t
    → IsValid (on_some t o f)
on_some-IsValid t none f h v = v
on_some-IsValid t (some r) f h v = on_link-IsValid t r f h v

accept_on-IsValid :
    (m port : ℕ) (pf : Bool) (via : List Bytes) (src dst : Bytes) (p : Table × Option ℕ)
    → IsValid p.0
    → IsValid (accept_on m port pf via src dst p)
accept_on-IsValid m port pf via src dst (t, none) v = table_send-IsValid t port _ v
accept_on-IsValid m port pf via src dst (t, some r) v =
    on_link-IsValid t r _ (accept_connect-Keeps m port pf via src dst) v

connect_on-IsValid :
    (port : ℕ) (via : List Bytes) (p : Table × Option ℕ)
    → IsValid p.0
    → IsValid (connect_on port via p).0
connect_on-IsValid port via (t, none) v = v
connect_on-IsValid port via (t, some r) v = on_link-IsValid t r _ (begin_connect-Keeps port via) v

connect-IsValid :
    (t : Table) (port : ℕ) (local remote : Bytes) (via : List Bytes)
    → IsValid t
    → IsValid (connect t port local remote via).0
unfolding connect
connect-IsValid t port local remote via v = elim (Bool-cases (all_parse (local ∷ remote ∷ via))) [
  | inl e ↦ rw e (connect_on-IsValid port via _ (get_or_create-IsValid t port local remote v))
  | inr e ↦ rw e v
]

module _ (t : Table) (port : ℕ) (f : Frame) (src dst : Bytes) (v : IsValid t) where
  dispatch_sabm-IsValid : IsValid (dispatch_sabm t port f src dst)
  unfolding dispatch_sabm
  dispatch_sabm-IsValid = IsValid-if (heard_elsewhere is_active t port dst src) _ _ v (
      IsValid-if (not (t.is_local port dst)) _ _ v
        (accept_on-IsValid 8 port f.pf _ src dst _ (get_or_create-IsValid t port dst src v)))

  dispatch_sabme-IsValid : IsValid (dispatch_sabme t port f src dst)
  unfolding dispatch_sabme
  dispatch_sabme-IsValid = IsValid-if (heard_elsewhere is_active t port dst src) _ _ v (
      IsValid-if (not (t.is_local port dst)) _ _ v (
        IsValid-if (ltb (port_params t.params port).ax25_version 22) _ _
          (table_send-IsValid t port _ v)
          (accept_on-IsValid 128 port f.pf _ src dst _ (get_or_create-IsValid t port dst src v))))

  refuse_i-IsValid : IsValid (refuse_i t port f src dst)
  unfolding refuse_i
  refuse_i-IsValid =
      IsValid-if (heard_elsewhere is_active t port dst src) _ _ v
        (IsValid-if (f.pf && t.is_local port dst) _ _ (table_send-IsValid t port _ v) v)

  dispatch_disc-IsValid : IsValid (dispatch_disc t port f src dst)
  unfolding dispatch_disc
  dispatch_disc-IsValid = elim (Option-cases (get t port dst src)) [
    | inl e ↦
        rw (e, dispatch_disc)
          (IsValid-if (heard_elsewhere is_engaged t port dst src) _ _ v
            (IsValid-if (t.is_local port dst) _ _ (table_send-IsValid t port _ v) v))
    | inr (r, e) ↦
        rw (e, dispatch_disc)
          (finish-IsValid t r (receive_disc port f.pf src dst (open_link t r)).0
            (receive_disc port f.pf src dst (open_link t r)).1
            (receive_disc-Keeps port f.pf src dst (open_link t r)) v)
  ]

  i_by_state-IsValid : (s : ConnState) (r : ℕ) → IsValid (i_by_state s r t port f src dst)
  unfolding i_by_state
  i_by_state-IsValid connecting r =
      on_link-IsValid t r _ (λ l. Keeps-trans (promote-Keeps l) (receive_i-Keeps port f src dst _))
        v
  i_by_state-IsValid connected r = on_link-IsValid t r _ (receive_i-Keeps port f src dst) v
  i_by_state-IsValid _ r = refuse_i-IsValid

  dispatch_i-IsValid : IsValid (dispatch_i t port f src dst)
  unfolding dispatch_i
  dispatch_i-IsValid = elim (Option-cases (get t port dst src)) [
    | inl e ↦ rw (e, dispatch_i) refuse_i-IsValid
    | inr (r, e) ↦ rw (e, dispatch_i) (i_by_state-IsValid (t.heap r).state r)
  ]

  dispatch_s-IsValid : IsValid (dispatch_s t port f src dst)
  unfolding dispatch_s
  dispatch_s-IsValid =
      on_some-IsValid t (get t port dst src) _
        (λ l. Keeps-if (is_connected l.conn.state) (receive_s-Keeps f src dst l) (Keeps-refl l)) v

  xid_by_result-IsValid :
      (p : Result XidError XidParams) → IsValid (xid_by_result p t port f src dst)
  unfolding xid_by_result
  xid_by_result-IsValid (err e) = v
  xid_by_result-IsValid (ok their) =
      on_some-IsValid t (get t port dst src) _ (receive_xid-Keeps port f their src dst) v

  dispatch_xid-IsValid : IsValid (dispatch_xid t port f src dst)
  unfolding dispatch_xid
  dispatch_xid-IsValid =
      IsValid-if (t.is_local port dst) _ _ (xid_by_result-IsValid (Xid.parse_xid f.info)) v

  dispatch-IsValid : (k : FrameType) → IsValid (dispatch k t port f src dst)
  unfolding dispatch
  dispatch-IsValid sabm = dispatch_sabm-IsValid
  dispatch-IsValid sabme = dispatch_sabme-IsValid
  dispatch-IsValid ua = with_link-IsValid t (get t port dst src) receive_ua receive_ua-Keeps v
  dispatch-IsValid dm = with_link-IsValid t (get t port dst src) receive_dm receive_dm-Keeps v
  dispatch-IsValid disc = dispatch_disc-IsValid
  dispatch-IsValid frmr = on_some-IsValid t (get t port dst src) receive_frmr receive_frmr-Keeps v
  dispatch-IsValid i_frame = dispatch_i-IsValid
  dispatch-IsValid rr = dispatch_s-IsValid
  dispatch-IsValid rnr = dispatch_s-IsValid
  dispatch-IsValid rej = dispatch_s-IsValid
  dispatch-IsValid srej = dispatch_s-IsValid
  dispatch-IsValid xid = dispatch_xid-IsValid
  dispatch-IsValid _ = v

on_frame-IsValid : (t : Table) (port : ℕ) (f : Frame) → IsValid t → IsValid (on_frame t port f)
unfolding on_frame
on_frame-IsValid t port f v =
    let src = to_string f.src in
    let dst = to_string f.dst in
    let after = dispatch f.type t port f src dst in
    on_some-IsValid after (get after port dst src) refresh_t3
      (λ l. Keeps-if (is_connected l.conn.state) (start_t3-Keeps l) (Keeps-refl l))
      (dispatch-IsValid t port f src dst v f.type)

fire-IsValid : (t : Table) (k : TimerKind) (r id : ℕ) → IsValid t → IsValid (fire t k r id)
unfolding fire
fire-IsValid t t1_timer r id v =
    let e = t1_expired (open_link t r) in
    IsValid-if (is_timer (t.heap r).t1 id) _ _
      (finish-IsValid t r e.0 e.1 (t1_expired-Keeps (open_link t r)) v) v
fire-IsValid t t2_timer r id v =
    IsValid-if (is_timer (t.heap r).t2 id) _ _ (on_link-IsValid t r _ t2_expired-Keeps v) v
fire-IsValid t t3_timer r id v =
    IsValid-if (is_timer (t.heap r).t3 id) _ _ (on_link-IsValid t r _ t3_expired-Keeps v) v

drop_each-IsValid :
    (f : Link → Link × Bool) (rs : List ℕ) (t : Table)
    → ((l : Link) → Keeps l (f l).0)
    → IsValid t
    → IsValid (drop_each f rs t)
unfolding drop_each
drop_each-IsValid f [] t h v = v
drop_each-IsValid f (r ∷ rs) t h v =
    let l = f (open_link t r) in
    drop_each-IsValid f rs _ h (finish-IsValid t r l.0 l.1 (h (open_link t r)) v)

pub step-IsValid : (t : Table) (e : Event) → IsValid t → IsValid (step t e)
unfolding step
step-IsValid t (receive port f) v = on_frame-IsValid t port f v
step-IsValid t (expire kind r id) v = fire-IsValid t kind r id v
step-IsValid t (deferred r src dst) v = on_link-IsValid t r _ (run_deferred-Keeps src dst) v
step-IsValid t (open_connection port local remote via) v = connect-IsValid t port local remote via v
step-IsValid t (close_connection r) v = on_link-IsValid t r _ disconnect-Keeps v
step-IsValid t (transmit r pid payload) v = on_link-IsValid t r _ (send_data-Keeps pid payload) v
step-IsValid t (owner_gone owner) v =
    drop_each-IsValid drop_owned (select (λ c. same_owner c.owner owner) t.heap t.conns) t
      drop_owned-Keeps v
step-IsValid t (offline port) v =
    drop_each-IsValid drop_offline
      (select (λ c. c.port == port && is_engaged c.state) t.heap t.conns) t drop_offline-Keeps v
step-IsValid t (set_owner r owner) v = on_link-IsValid t r _ (λ l. Keeps-conn l _ refl refl refl) v
step-IsValid t (tick elapsed) v = record {
  bounded = v.bounded;
  bears = v.bears;
  unique = v.unique;
  allocated = v.allocated;
  counted = v.counted;
}

-- From a table in which the invariant holds, no events whatever (frames received, timers fired,
-- stale ones too, clients that come, send and go, ports that fail) lead to one in which it does not:
-- there are at most 64 connections, no two under one key, each object bears its key, and for every
-- port the last session count reported to the hook is the number of its connections.
pub run-IsValid : (t : Table) (es : List Event) → IsValid t → IsValid (run t es)
unfolding run
run-IsValid t [] v = v
run-IsValid t (e ∷ es) v = run-IsValid (step t e) es (step-IsValid t e v)
