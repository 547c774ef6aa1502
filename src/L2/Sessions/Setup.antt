-- ===== src/L2/Sessions/Setup.antt =====
-- ax25/l2/l2.go: setting up, tearing down and the timers keep the identity of the connection.
use tncd.Prelude.{
  Bool, Bytes, List, arith, false, if◌then◌else◌, inl, inr, leb, length, ltb, none, not, refl, ℕ,
  ◌&&◌, ◌+◌, ◌==◌, ◌∷◌, ◌≡◌,
}
use tncd.Ax25.Frame.{ua}
use tncd.L2.State.{
  Conn, ConnState, Effect, connected, connecting, disconnected, disconnecting, fail_dm,
  fail_timeout, hook_connect_failed, hook_connected, hook_disconnected, port_params, reset_seqs,
  resp_frame, setup_t1,
}
use tncd.L2.Outbound.{retransmit_from}
use tncd.L2.Events.{
  downgrade, drop_offline, drop_owned, t1_by_state, t1_connected, t1_connecting, t1_disconnecting,
  t1_expired,
}
use tncd.L2.Sessions.Outbound.{retransmit_from-Keeps}
use tncd.L2.Links.{
  Link, cancel_t1, cancel_t2, cancel_t3, enter_connected, is_connected, is_connecting, link_params,
  send_disc, send_enquiry, send_sabm, send_sabme, t2_expired, t3_expired, tell, with_conn,
}
use tncd.L2.Setup.{
  accept_connect, begin_connect, confirm_connect, disconnect, fallback_to_sabm, is_active,
  may_fall_back, re_establish, receive_disc, receive_dm, receive_frmr, receive_ua,
}
use tncd.L2.Sessions.Keeps.{
  Keeps, Keeps-conn, Keeps-if, Keeps-if_pair, Keeps-refl, Keeps-trans, cancel_t1-Keeps,
  cancel_t2-Keeps, cancel_t3-Keeps, reported, send_enquiry-Keeps, send_frame-Keeps, start_t1-Keeps,
  state_cases,
}
use tncd.L2.Sessions.Inbound.{send_xid_command-Keeps}

-- One more line in the log that reports no session count.
tell-Keeps :
    (e : Effect) (l : Link)
    → ((p : ℕ) → reported p (e ∷ l.log) ≡ reported p l.log)
    → Keeps l (tell e l)
tell-Keeps e l h = record {
  table = refl;
  self = refl;
  port = refl;
  local = refl;
  remote = refl;
  reports = h;
}

send_sabm-Keeps : (l : Link) → Keeps l (send_sabm l)
unfolding send_sabm
send_sabm-Keeps l = send_frame-Keeps _ _ l

send_sabme-Keeps : (l : Link) → Keeps l (send_sabme l)
unfolding send_sabme
send_sabme-Keeps l = send_frame-Keeps _ _ l

send_disc-Keeps : (l : Link) → Keeps l (send_disc l)
unfolding send_disc
send_disc-Keeps l = send_frame-Keeps _ _ l

pub t2_expired-Keeps : (l : Link) → Keeps l (t2_expired l)
unfolding t2_expired
t2_expired-Keeps l =
    let m = with_conn l (record l.conn { t2 = none }) in
    Keeps-trans (Keeps-conn l m.conn refl refl refl)
      (Keeps-if (is_connected l.conn.state) (send_frame-Keeps _ _ m) (Keeps-refl m))

pub t3_expired-Keeps : (l : Link) → Keeps l (t3_expired l)
unfolding t3_expired
t3_expired-Keeps l =
    let m = with_conn l (record l.conn { t3 = none }) in
    let n = with_conn m (record m.conn { t1_polls = 0 }) in
    Keeps-trans (Keeps-conn l m.conn refl refl refl) (
      Keeps-if (is_connected l.conn.state)
        (Keeps-trans (Keeps-conn m n.conn refl refl refl)
          (Keeps-trans (send_enquiry-Keeps n) (start_t1-Keeps _)))
        (Keeps-refl m))

pub begin_connect-Keeps :
    (port : ℕ) (via : List Bytes) (l : Link) → Keeps l (begin_connect port via l)
unfolding begin_connect reset_seqs
begin_connect-Keeps port via l = Keeps-trans (Keeps-conn l _ refl refl refl) (
    Keeps-trans
      (Keeps-if (leb 22 (port_params l.table.params port).ax25_version) (send_sabme-Keeps _)
        (send_sabm-Keeps _))
      (start_t1-Keeps _))

pub disconnect-Keeps : (l : Link) → Keeps l (disconnect l)
unfolding disconnect
disconnect-Keeps l = Keeps-trans (cancel_t1-Keeps l) (
    Keeps-trans (Keeps-conn _ _ refl refl refl)
      (Keeps-trans (send_disc-Keeps _) (start_t1-Keeps _)))

fallback_to_sabm-Keeps : (l : Link) → Keeps l (fallback_to_sabm l)
unfolding fallback_to_sabm
fallback_to_sabm-Keeps l =
    Keeps-trans (Keeps-conn l _ refl refl refl) (Keeps-trans (send_sabm-Keeps _) (start_t1-Keeps _))

stop_timers-Keeps : (l : Link) → Keeps l (cancel_t3 (cancel_t2 (cancel_t1 l)))
stop_timers-Keeps l =
    Keeps-trans (cancel_t1-Keeps l) (Keeps-trans (cancel_t2-Keeps _) (cancel_t3-Keeps _))

pub accept_connect-Keeps :
    (modulo port : ℕ) (pf : Bool) (via : List Bytes) (src dst : Bytes) (l : Link)
    → Keeps l (accept_connect modulo port pf via src dst l)
unfolding accept_connect enter_connected reset_seqs
accept_connect-Keeps modulo port pf via src dst l =
    Keeps-trans (send_frame-Keeps port (resp_frame src dst via ua pf) l) (
      Keeps-trans (Keeps-conn _ _ refl refl refl) (
        Keeps-trans (stop_timers-Keeps _)
          (Keeps-trans (Keeps-conn _ _ refl refl refl) (tell-Keeps _ _ (λ p. refl)))))

confirm_connect-Keeps : (l : Link) → Keeps l (confirm_connect l)
unfolding confirm_connect enter_connected
confirm_connect-Keeps l =
    let m = enter_connected (cancel_t1 l) in
    let n =
      with_conn m (record m.conn { send_seq = 0; recv_seq = 0; t1_polls = 0; incoming = false }) in
    let o = tell (hook_connected m.self false) n in
    Keeps-trans (cancel_t1-Keeps l) (
      Keeps-trans (Keeps-conn (cancel_t1 l) n.conn refl refl refl) (
        Keeps-trans (tell-Keeps (hook_connected m.self false) n (λ p. refl)) (
          Keeps-if ((link_params n).srej && n.conn.modulo == 128) (send_xid_command-Keeps o)
            (Keeps-refl o))))

pub receive_ua-Keeps : (l : Link) → Keeps l (receive_ua l).0
unfolding receive_ua
receive_ua-Keeps l = elim (state_cases l.conn.state) [
  | inl e ↦ simp (e, receive_ua) (Keeps-refl l)
  | inr (inl e) ↦ simp (e, receive_ua) (confirm_connect-Keeps l)
  | inr (inr (inl e)) ↦ simp (e, receive_ua) (Keeps-refl l)
  | inr (inr (inr e)) ↦ simp (e, receive_ua) (tell-Keeps (hook_disconnected l.self) l (λ p. refl))
]

pub receive_dm-Keeps : (l : Link) → Keeps l (receive_dm l).0
unfolding receive_dm
receive_dm-Keeps l =
    Keeps-if_pair (is_connecting l.conn.state && may_fall_back l.conn) _ _
      (fallback_to_sabm-Keeps l)
      (Keeps-if_pair (is_connected l.conn.state && l.conn.xid_pending) _ _
        (Keeps-conn l _ refl refl refl)
        (Keeps-if_pair (is_connecting l.conn.state) _ _
          (tell-Keeps (hook_connect_failed l.self fail_dm) l (λ p. refl))
          (tell-Keeps (hook_disconnected l.self) l (λ p. refl))))

pub receive_disc-Keeps :
    (port : ℕ) (pf : Bool) (src dst : Bytes) (l : Link) → Keeps l (receive_disc port pf src dst l).0
unfolding receive_disc
receive_disc-Keeps port pf src dst l =
    Keeps-trans (send_frame-Keeps _ _ l) (tell-Keeps _ _ (λ p. refl))

re_establish-Keeps : (l : Link) → Keeps l (re_establish l)
unfolding re_establish reset_seqs
re_establish-Keeps l =
    let c = record (reset_seqs (record l.conn { state = connecting })) {
      remote_busy = l.conn.remote_busy;
      t1_polls = 0;
      tried_fallback = false;
    } in
    let m = cancel_t3 (cancel_t2 (cancel_t1 (with_conn l c))) in
    Keeps-trans (Keeps-conn l c refl refl refl) (
      Keeps-trans (stop_timers-Keeps (with_conn l c)) (
        Keeps-trans (Keeps-if (m.conn.modulo == 128) (send_sabme-Keeps m) (send_sabm-Keeps m))
          (start_t1-Keeps _)))

pub receive_frmr-Keeps : (l : Link) → Keeps l (receive_frmr l)
unfolding receive_frmr
receive_frmr-Keeps l =
    Keeps-if (is_connecting l.conn.state && may_fall_back l.conn) (fallback_to_sabm-Keeps l) (
      Keeps-if (is_connected l.conn.state && l.conn.xid_pending) (Keeps-conn l _ refl refl refl)
        (Keeps-if (not (is_connected l.conn.state)) (Keeps-refl l) (re_establish-Keeps l)))

t1_disconnecting-Keeps : (l : Link) → Keeps l (t1_disconnecting l).0
unfolding t1_disconnecting
t1_disconnecting-Keeps l =
    Keeps-if_pair (ltb (link_params l).n2_retry (l.conn.t1_polls + 1)) _ _
      (Keeps-trans (Keeps-conn l _ refl refl refl)
        (tell-Keeps (hook_disconnected l.self) _ (λ p. refl)))
      (Keeps-trans (Keeps-conn l _ refl refl refl)
        (Keeps-trans (send_disc-Keeps _) (start_t1-Keeps _)))

downgrade_address :
    (n : ℕ) (c : Conn)
    → ((downgrade n c).port ≡ c.port)
      × ((downgrade n c).local ≡ c.local)
      × ((downgrade n c).remote ≡ c.remote)
downgrade_address n c = ground arith

t1_connecting-Keeps : (l : Link) → Keeps l (t1_connecting l).0
unfolding t1_connecting
t1_connecting-Keeps l =
    let p = link_params l in
    let c = downgrade p.n2_retry (record l.conn { t1_polls = l.conn.t1_polls + 1 }) in
    let same = downgrade_address p.n2_retry (record l.conn { t1_polls = l.conn.t1_polls + 1 }) in
    let m = with_conn l (record c { t1_value = setup_t1 p.t1_setup (length c.via) }) in
    Keeps-if_pair (ltb p.n2_retry c.t1_polls) _ _
      (Keeps-trans (Keeps-conn l (record c { state = disconnected }) same.0 same.1 same.2)
        (tell-Keeps (hook_connect_failed l.self fail_timeout) _ (λ p. refl)))
      (Keeps-trans (Keeps-conn l m.conn same.0 same.1 same.2) (
        Keeps-trans (Keeps-if (c.modulo == 128) (send_sabme-Keeps m) (send_sabm-Keeps m))
          (start_t1-Keeps _)))

t1_connected-Keeps : (l : Link) → Keeps l (t1_connected l).0
unfolding t1_connected
t1_connected-Keeps l =
    let c = record l.conn { t1_polls = l.conn.t1_polls + 1 } in
    let m = send_enquiry (with_conn l c) in
    let n = if ltb 1 c.t1_polls then retransmit_from m.conn.last_acked m else m in
    let polled = Keeps-trans (Keeps-conn l c refl refl refl) (send_enquiry-Keeps (with_conn l c)) in
    let resent =
      Keeps-if (ltb 1 c.t1_polls) (retransmit_from-Keeps m.conn.last_acked m) (Keeps-refl m) in
    Keeps-if_pair (ltb (link_params l).n2_retry c.t1_polls) _ _
      (Keeps-trans (Keeps-conn l (record c { state = disconnected }) refl refl refl)
        (tell-Keeps (hook_disconnected l.self) _ (λ p. refl)))
      (Keeps-trans polled
        (Keeps-trans resent (Keeps-trans (Keeps-conn n _ refl refl refl) (start_t1-Keeps _))))

t1_by_state-Keeps : (s : ConnState) (l : Link) → Keeps l (t1_by_state s l).0
unfolding t1_by_state
t1_by_state-Keeps disconnecting l = t1_disconnecting-Keeps l
t1_by_state-Keeps connecting l = t1_connecting-Keeps l
t1_by_state-Keeps connected l = t1_connected-Keeps l
t1_by_state-Keeps disconnected l = Keeps-refl l

pub t1_expired-Keeps : (l : Link) → Keeps l (t1_expired l).0
unfolding t1_expired
t1_expired-Keeps l =
    let m = with_conn l (record l.conn { t1 = none }) in
    Keeps-trans (Keeps-conn l m.conn refl refl refl) (t1_by_state-Keeps l.conn.state m)

pub drop_owned-Keeps : (l : Link) → Keeps l (drop_owned l).0
unfolding drop_owned
drop_owned-Keeps l =
    let m = cancel_t3 (cancel_t2 (cancel_t1 l)) in
    Keeps-trans (stop_timers-Keeps l)
      (Keeps-if (is_active m.conn.state) (send_disc-Keeps m) (Keeps-refl m))

pub drop_offline-Keeps : (l : Link) → Keeps l (drop_offline l).0
unfolding drop_offline
drop_offline-Keeps l = Keeps-trans (stop_timers-Keeps l) (tell-Keeps _ _ (λ p. refl))
