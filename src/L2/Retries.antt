-- ===== src/L2/Retries.antt =====
-- ax25/l2/l2.go, `t1Expired`: what one expiry of T1 does in each state.
use tncd.Prelude.{
  Bool, Bool-cases, List, Option-cases, arith, false, if◌then◌else◌, inl, inr, leb, length, ltb,
  none, not, refl, some, suc, true, zero, ℕ, ◌&&◌, ◌+◌, ◌/◌, ◌<◌, ◌==◌, ◌∙◌, ◌∷◌, ◌≡◌, ◌≢◌, ◌≤◌,
}
use tncd.Ax25.Frame.{Frame}
use tncd.L2.Events.{
  downgrade, t1_by_state, t1_connected, t1_connecting, t1_disconnecting, t1_expired,
}
use tncd.L2.State.{
  Conn, ConnState, Effect, connected, connecting, disconnected, disconnecting, fail_timeout,
  hook_connect_failed, hook_disconnected, setup_t1,
}
use tncd.L2.Links.{
  Link, cancel_t1, link_params, send_disc, send_enquiry, send_frame, send_sabm, send_sabme,
  start_t1, with_conn,
}
use tncd.L2.Outbound.{resend, retransmit_from, retransmit_loop, retransmit_range, stored_frame}

-- What a retransmission leaves alone.
record Same (l m : Link) : Type 0 where
  table : m.table ≡ l.table
  self : m.self ≡ l.self
  port : m.conn.port ≡ l.conn.port
  state : m.conn.state ≡ l.conn.state
  polls : m.conn.t1_polls ≡ l.conn.t1_polls

Same-trans : {k l m : Link} → Same k l → Same l m → Same k m
Same-trans a b = record {
  table = b.table ∙ a.table;
  self = b.self ∙ a.self;
  port = b.port ∙ a.port;
  state = b.state ∙ a.state;
  polls = b.polls ∙ a.polls;
}

Same-refl : (l : Link) → Same l l
Same-refl l = record { table = refl; self = refl; port = refl; state = refl; polls = refl }

Same-if : {l : Link} (b : Bool) (x y : Link) → Same l x → Same l y → Same l (if b then x else y)
Same-if true x y p q = p
Same-if false x y p q = q

resend-Same : (seq : ℕ) (f : Frame) (l : Link) → Same l (resend seq f l)
unfolding resend send_frame
resend-Same seq f l = record { table = refl; self = refl; port = refl; state = refl; polls = refl }

retransmit_loop-Same : (n seq to : ℕ) (l : Link) → Same l (retransmit_loop n seq to l)
unfolding retransmit_loop
retransmit_loop-Same zero seq to l = Same-refl l
retransmit_loop-Same (suc n) seq to l = elim (Option-cases (stored_frame l.conn seq)) [
  | inl e ↦ rw e (Same-if (seq == to) l l (Same-refl l) (Same-refl l))
  | inr (f, e) ↦ rw e (
      Same-if (seq == to) l _ (Same-refl l)
        (Same-trans (resend-Same seq f l) (retransmit_loop-Same n _ to _)))
]

send_enquiry-Same : (l : Link) → Same l (send_enquiry l)
unfolding send_enquiry send_frame
send_enquiry-Same l = record { table = refl; self = refl; port = refl; state = refl; polls = refl }

start_t1-Same : (l : Link) → Same l (start_t1 l)
unfolding start_t1 cancel_t1
start_t1-Same l = record { table = refl; self = refl; port = refl; state = refl; polls = refl }

send_disc-Same : (l : Link) → Same l (send_disc l)
unfolding send_disc send_frame
send_disc-Same l = record { table = refl; self = refl; port = refl; state = refl; polls = refl }

send_sabm-Same : (l : Link) → Same l (send_sabm l)
unfolding send_sabm send_frame
send_sabm-Same l = record { table = refl; self = refl; port = refl; state = refl; polls = refl }

send_sabme-Same : (l : Link) → Same l (send_sabme l)
unfolding send_sabme send_frame
send_sabme-Same l = record { table = refl; self = refl; port = refl; state = refl; polls = refl }

retransmit_from-Same : (from : ℕ) (l : Link) → Same l (retransmit_from from l)
unfolding retransmit_from retransmit_range
retransmit_from-Same from l = retransmit_loop-Same 256 from l.conn.send_seq l

-- What the owner is told when a link is given up in a state.
unfoldable pub farewell : ConnState → ℕ → Effect
farewell connecting r = hook_connect_failed r fail_timeout
farewell _ r = hook_disconnected r

-- T1 runs.
abbrev pub IsRunning : Link → Type 0
IsRunning l = (timer : ℕ) × (l.conn.t1 ≡ some timer)

start_t1-IsRunning : (l : Link) → IsRunning (start_t1 l)
unfolding start_t1
start_t1-IsRunning l = (_, refl)

-- One expiry that does not exhaust the retries.
pub record Retried (l m : Link) : Type 0 where
  pub table : m.table ≡ l.table
  pub self : m.self ≡ l.self
  pub port : m.conn.port ≡ l.conn.port
  pub state : m.conn.state ≡ l.conn.state
  pub polls : m.conn.t1_polls ≡ suc l.conn.t1_polls
  pub running : IsRunning m

-- The link is given up: its last state, and the last thing that happened.
pub record GivenUp (s : ConnState) (r : ℕ) (m : Link) : Type 0 where
  pub state : m.conn.state ≡ disconnected
  pub told : (before : List Effect) × (m.log ≡ farewell s r ∷ before)

told_retry :
    (l m : Link)
    → Same (with_conn l (record l.conn { t1_polls = l.conn.t1_polls + 1 })) (start_t1 m)
    → Retried l (start_t1 m)
told_retry l m s = record {
  running = start_t1-IsRunning m;
  table = s.table;
  self = s.self;
  port = s.port;
  state = s.state;
  polls = s.polls ∙ (omega arith);
}

-- A change of the connection that keeps the port, the state and the count.
Same-conn :
    (l : Link) (c d : Conn)
    → d.port ≡ c.port
    → d.state ≡ c.state
    → d.t1_polls ≡ c.t1_polls
    → Same (with_conn l c) (with_conn l d)
Same-conn l c d p s n = record { table = refl; self = refl; port = p; state = s; polls = n }

-- What one expiry of T1 does in a state in which T1 runs.
unfoldable pub Outcome : ConnState → Link → Link × Bool → Type 0
Outcome s l (m, true) = ((link_params l).n2_retry < suc l.conn.t1_polls) × GivenUp s l.self m
Outcome s l (m, false) = (suc l.conn.t1_polls ≤ (link_params l).n2_retry) × Retried l m

Outcome-if :
    (s : ConnState) (l x y : Link) (b : Bool)
    → (b ≡ true → Outcome s l (x, true))
    → (b ≡ false → Outcome s l (y, false))
    → Outcome s l (if b then (x, true) else (y, false))
Outcome-if s l x y true p q = p refl
Outcome-if s l x y false p q = q refl

t1_disconnecting-Outcome : (l : Link) → Outcome disconnecting l (t1_disconnecting l)
unfolding t1_disconnecting farewell Outcome
t1_disconnecting-Outcome l =
    let c = record l.conn { t1_polls = l.conn.t1_polls + 1 } in
    let p = link_params l in
    let d = record c { t1_value = setup_t1 p.t1_setup (length c.via) } in
    Outcome-if disconnecting l _ _ (ltb p.n2_retry c.t1_polls)
      (λ e. (ground arith, record { state = refl; told = (l.log, refl) }))
      (λ e. (
        ground arith,
        told_retry l _ (
            Same-trans (Same-conn l c d refl refl refl)
              (Same-trans (send_disc-Same (with_conn l d)) (start_t1-Same _))),
      ))

t1_connected-Outcome : (l : Link) → Outcome connected l (t1_connected l)
unfolding t1_connected farewell Outcome
t1_connected-Outcome l =
    let c = record l.conn { t1_polls = l.conn.t1_polls + 1 } in
    let m = send_enquiry (with_conn l c) in
    let e = send_enquiry-Same (with_conn l c) in
    let again = retransmit_from m.conn.last_acked m in
    let n = if ltb 1 c.t1_polls then again else m in
    let sent : Same (with_conn l c) n =
      Same-trans e (Same-if (ltb 1 c.t1_polls) again m (retransmit_from-Same _ m) (Same-refl m)) in
    Outcome-if connected l _ _ (ltb (link_params l).n2_retry c.t1_polls)
      (λ e. (ground arith, record { state = refl; told = (l.log, refl) }))
      (λ e. (
        ground arith,
        told_retry l _
            (Same-trans sent (Same-trans (Same-conn n n.conn _ refl refl refl) (start_t1-Same _))),
      ))

downgrade-facts :
    (k : ℕ) (c : Conn)
    → (((downgrade k c).port ≡ c.port) × ((downgrade k c).state ≡ c.state))
      × ((downgrade k c).t1_polls ≡ c.t1_polls)
downgrade-facts k c =
    elim (Bool-cases (c.modulo == 128 && (not c.tried_fallback && leb (k / 3) c.t1_polls))) [
      | inl e ↦ rw e ((refl, refl), refl)
      | inr e ↦ rw e ((refl, refl), refl)
    ]

t1_connecting-Outcome : (l : Link) → Outcome connecting l (t1_connecting l)
unfolding t1_connecting farewell Outcome
t1_connecting-Outcome l =
    let b = record l.conn { t1_polls = l.conn.t1_polls + 1 } in
    let p = link_params l in
    let c = downgrade p.n2_retry b in
    let same = downgrade-facts p.n2_retry b in
    let d = record c { t1_value = setup_t1 p.t1_setup (length c.via) } in
    let m = with_conn l d in
    Outcome-if connecting l _ _ (ltb p.n2_retry c.t1_polls)
      (λ e. (ground (arith, same.1), record { state = refl; told = (l.log, refl) }))
      (λ e. (
        ground (arith, same.1),
        told_retry l _ (
            Same-trans (Same-conn l b d same.0.0 same.0.1 same.1) (
              Same-trans
                (Same-if (c.modulo == 128) (send_sabme m) (send_sabm m) (send_sabme-Same m)
                  (send_sabm-Same m))
                (start_t1-Same _))),
      ))

t1_by_state-Outcome : (s : ConnState) (l : Link) → s ≢ disconnected → Outcome s l (t1_by_state s l)
unfolding t1_by_state
t1_by_state-Outcome disconnecting l h = t1_disconnecting-Outcome l
t1_by_state-Outcome connecting l h = t1_connecting-Outcome l
t1_by_state-Outcome connected l h = t1_connected-Outcome l
t1_by_state-Outcome disconnected l h = absurd (h refl)

Outcome-stopped :
    (s : ConnState) (l : Link) (r : Link × Bool)
    → Outcome s (with_conn l (record l.conn { t1 = none })) r
    → Outcome s l r
unfolding Outcome
Outcome-stopped s l (m, true) o = o
Outcome-stopped s l (m, false) (h, o) = (
  h,
  record {
    table = o.table;
    self = o.self;
    port = o.port;
    state = o.state;
    polls = o.polls;
    running = o.running;
  },
)

pub t1_expired-Outcome :
    (l : Link) → l.conn.state ≢ disconnected → Outcome l.conn.state l (t1_expired l)
unfolding t1_expired
t1_expired-Outcome l h = Outcome-stopped l.conn.state l _ (t1_by_state-Outcome l.conn.state _ h)
