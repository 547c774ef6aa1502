-- ===== src/L2/Sessions/Keeps.antt =====
-- ax25/l2/l2.go: what every operation on one connection leaves alone. It stays the same connection
-- of the same table, and reports no session count.
use tncd.Prelude.{
  Bool, Bytes, List, Option, [], arith, false, if◌then◌else◌, inl, inr, none, refl, some, true, ℕ,
  ◌==◌, ◌∙◌, ◌∷◌, ◌≡◌, ◌⊎◌,
}
use tncd.Ax25.Frame.{Frame}
use tncd.L2.State.{
  Conn, ConnState, Effect, cancelled, connected, connecting, disconnected, disconnecting,
  hook_connect_failed, hook_connected, hook_data, hook_defer, hook_disconnected, hook_port_sessions,
  send_ax25, timer_cancelled, timer_started,
}
use tncd.L2.Links.{
  Link, cancel_t1, cancel_t2, cancel_t3, schedule_t2, send_enquiry, send_frame, send_rr_response,
  start_t1, start_t3, with_conn,
}

-- The session count that the hook was last given for a port; 0 before the first report.
abbrev pub reported : ℕ → List Effect → ℕ
reported p [] = 0
reported p (hook_port_sessions q n ∷ log) =
    let earlier = reported p log in if q == p then n else earlier
reported p (send_ax25 _ _ ∷ log) = reported p log
reported p (hook_connected _ _ ∷ log) = reported p log
reported p (hook_connect_failed _ _ ∷ log) = reported p log
reported p (hook_data _ _ _ ∷ log) = reported p log
reported p (hook_disconnected _ ∷ log) = reported p log
reported p (hook_defer _ _ _ ∷ log) = reported p log
reported p (timer_started _ _ _ _ ∷ log) = reported p log
reported p (timer_cancelled _ ∷ log) = reported p log

pub record Keeps (l m : Link) : Type 0 where
  pub table : m.table ≡ l.table
  pub self : m.self ≡ l.self
  pub port : m.conn.port ≡ l.conn.port
  pub local : m.conn.local ≡ l.conn.local
  pub remote : m.conn.remote ≡ l.conn.remote
  pub reports : (p : ℕ) → reported p m.log ≡ reported p l.log

pub Keeps-refl : (l : Link) → Keeps l l
Keeps-refl l = record {
  table = refl;
  self = refl;
  port = refl;
  local = refl;
  remote = refl;
  reports = λ p. refl;
}

pub Keeps-trans : {l m n : Link} → Keeps l m → Keeps m n → Keeps l n
Keeps-trans a b = record {
  table = b.table ∙ a.table;
  self = b.self ∙ a.self;
  port = b.port ∙ a.port;
  local = b.local ∙ a.local;
  remote = b.remote ∙ a.remote;
  reports = λ p. b.reports p ∙ a.reports p;
}

pub reported-cancelled :
    (p : ℕ) (t : Option ℕ) (log : List Effect) → reported p (cancelled t log) ≡ reported p log
reported-cancelled p none log = refl
reported-cancelled p (some id) log = refl

-- A change of fields other than the address of the connection, and a silent addition to the log.
pub Keeps-conn :
    (l : Link) (c : Conn)
    → c.port ≡ l.conn.port
    → c.local ≡ l.conn.local
    → c.remote ≡ l.conn.remote
    → Keeps l (with_conn l c)
Keeps-conn l c p q r = record {
  table = refl;
  self = refl;
  port = p;
  local = q;
  remote = r;
  reports = λ p. refl;
}

pub send_frame-Keeps : (port : ℕ) (f : Frame) (l : Link) → Keeps l (send_frame port f l)
unfolding send_frame
send_frame-Keeps port f l = record {
  table = refl;
  self = refl;
  port = refl;
  local = refl;
  remote = refl;
  reports = λ p. refl;
}

pub cancel_t1-Keeps : (l : Link) → Keeps l (cancel_t1 l)
unfolding cancel_t1
cancel_t1-Keeps l = record {
  table = refl;
  self = refl;
  port = refl;
  local = refl;
  remote = refl;
  reports = λ p. reported-cancelled p l.conn.t1 l.log;
}

pub cancel_t2-Keeps : (l : Link) → Keeps l (cancel_t2 l)
unfolding cancel_t2
cancel_t2-Keeps l = record {
  table = refl;
  self = refl;
  port = refl;
  local = refl;
  remote = refl;
  reports = λ p. reported-cancelled p l.conn.t2 l.log;
}

pub cancel_t3-Keeps : (l : Link) → Keeps l (cancel_t3 l)
unfolding cancel_t3
cancel_t3-Keeps l = record {
  table = refl;
  self = refl;
  port = refl;
  local = refl;
  remote = refl;
  reports = λ p. reported-cancelled p l.conn.t3 l.log;
}

pub start_t1-Keeps : (l : Link) → Keeps l (start_t1 l)
unfolding start_t1
start_t1-Keeps l = record {
  table = refl;
  self = refl;
  port = refl;
  local = refl;
  remote = refl;
  reports = λ p. reported-cancelled p l.conn.t1 l.log;
}

pub schedule_t2-Keeps : (src dst : Bytes) (l : Link) → Keeps l (schedule_t2 src dst l)
unfolding schedule_t2
schedule_t2-Keeps src dst l = record {
  table = refl;
  self = refl;
  port = refl;
  local = refl;
  remote = refl;
  reports = λ p. reported-cancelled p l.conn.t2 l.log;
}

pub start_t3-Keeps : (l : Link) → Keeps l (start_t3 l)
unfolding start_t3
start_t3-Keeps l = record {
  table = ground arith;
  self = ground arith;
  port = ground arith;
  local = ground arith;
  remote = ground arith;
  reports = λ p. ground (arith, reported-cancelled p l.conn.t3 l.log);
}

pub send_enquiry-Keeps : (l : Link) → Keeps l (send_enquiry l)
unfolding send_enquiry
send_enquiry-Keeps l = record {
  table = refl;
  self = refl;
  port = refl;
  local = refl;
  remote = refl;
  reports = λ p. refl;
}

pub send_rr_response-Keeps : (src dst : Bytes) (l : Link) → Keeps l (send_rr_response src dst l)
unfolding send_rr_response
send_rr_response-Keeps src dst l = send_frame-Keeps _ _ l

pub Keeps-if :
    {l : Link} (b : Bool) {x y : Link} → Keeps l x → Keeps l y → Keeps l (if b then x else y)
Keeps-if true h k = h
Keeps-if false h k = k

pub Keeps-if_pair :
    {l : Link} (b : Bool) (x y : Link × Bool)
    → Keeps l x.0
    → Keeps l y.0
    → Keeps l (if b then x else y).0
Keeps-if_pair true x y h k = h
Keeps-if_pair false x y h k = k

pub state_cases :
    (s : ConnState)
    → (s ≡ disconnected) ⊎ ((s ≡ connecting) ⊎ ((s ≡ connected) ⊎ (s ≡ disconnecting)))
state_cases disconnected = inl refl
state_cases connecting = inr (inl refl)
state_cases connected = inr (inr (inl refl))
state_cases disconnecting = inr (inr (inr refl))
