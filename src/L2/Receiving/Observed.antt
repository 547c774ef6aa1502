-- ===== src/L2/Receiving/Observed.antt =====
-- ax25/l2/l2.go: what the owner of a link and its peer see of the log, and the operations that leave
-- the receiving half alone.
use tncd.Prelude.{
  Bool, Bytes, List, Option, [], arith, false, if◌then◌else◌, none, not, refl, some, true, ℕ, ◌&&◌,
  ◌+◌, ◌∙◌, ◌∷◌, ◌≡◌,
}
use tncd.Ax25.Frame.{Frame, is_s}
use tncd.L2.State.{
  Conn, ConnKey, Effect, cancelled, frame_of, hook_connect_failed, hook_connected, hook_data,
  hook_defer, hook_disconnected, hook_port_sessions, send_ax25, stamped, timer_cancelled,
  timer_started, update,
}
use tncd.L2.Links.{
  Link, cancel_t1, cancel_t2, i_frame_of, schedule_t2, send_frame, start_t1, with_conn,
}

-- The payloads handed to the owner, newest first.
abbrev pub delivered : List Effect → List (ℕ × Bytes)
delivered [] = []
delivered (hook_data r pid info ∷ log) = (pid, info) ∷ delivered log
delivered (send_ax25 _ _ ∷ log) = delivered log
delivered (hook_connected _ _ ∷ log) = delivered log
delivered (hook_connect_failed _ _ ∷ log) = delivered log
delivered (hook_disconnected _ ∷ log) = delivered log
delivered (hook_defer _ _ _ ∷ log) = delivered log
delivered (hook_port_sessions _ _ ∷ log) = delivered log
delivered (timer_started _ _ _ _ ∷ log) = delivered log
delivered (timer_cancelled _ ∷ log) = delivered log

-- A supervisory response with F=1.
abbrev pub is_final : Frame → Bool
is_final f = is_s f.type && (not f.command && f.pf)

-- The number of supervisory responses with F=1 that went out.
abbrev pub finals : List Effect → ℕ
finals [] = 0
finals (send_ax25 _ f ∷ log) = (if is_final f then 1 else 0) + finals log
finals (hook_data _ _ _ ∷ log) = finals log
finals (hook_connected _ _ ∷ log) = finals log
finals (hook_connect_failed _ _ ∷ log) = finals log
finals (hook_disconnected _ ∷ log) = finals log
finals (hook_defer _ _ _ ∷ log) = finals log
finals (hook_port_sessions _ _ ∷ log) = finals log
finals (timer_started _ _ _ _ ∷ log) = finals log
finals (timer_cancelled _ ∷ log) = finals log

-- The receiving half of the link stays, nothing is delivered and no poll is answered.
pub record Spares (l m : Link) : Type 0 where
  pub table : m.table ≡ l.table
  pub port : m.conn.port ≡ l.conn.port
  pub state : m.conn.state ≡ l.conn.state
  pub modulo : m.conn.modulo ≡ l.conn.modulo
  pub recv_seq : m.conn.recv_seq ≡ l.conn.recv_seq
  pub rej_sent : m.conn.rej_sent ≡ l.conn.rej_sent
  pub srej_enabled : m.conn.srej_enabled ≡ l.conn.srej_enabled
  pub rx_buf : m.conn.rx_buf ≡ l.conn.rx_buf
  pub srej_sent : m.conn.srej_sent ≡ l.conn.srej_sent
  pub silent : delivered m.log ≡ delivered l.log
  pub unanswered : finals m.log ≡ finals l.log

pub Spares-refl : (l : Link) → Spares l l
Spares-refl l = record {
  table = refl;
  port = refl;
  state = refl;
  modulo = refl;
  recv_seq = refl;
  rej_sent = refl;
  srej_enabled = refl;
  rx_buf = refl;
  srej_sent = refl;
  silent = refl;
  unanswered = refl;
}

pub Spares-trans : {l m n : Link} → Spares l m → Spares m n → Spares l n
Spares-trans a b = record {
  table = b.table ∙ a.table;
  port = b.port ∙ a.port;
  state = b.state ∙ a.state;
  modulo = b.modulo ∙ a.modulo;
  recv_seq = b.recv_seq ∙ a.recv_seq;
  rej_sent = b.rej_sent ∙ a.rej_sent;
  srej_enabled = b.srej_enabled ∙ a.srej_enabled;
  rx_buf = b.rx_buf ∙ a.rx_buf;
  srej_sent = b.srej_sent ∙ a.srej_sent;
  silent = b.silent ∙ a.silent;
  unanswered = b.unanswered ∙ a.unanswered;
}

pub Spares-if :
    {l : Link} (b : Bool) {x y : Link} → Spares l x → Spares l y → Spares l (if b then x else y)
Spares-if true h k = h
Spares-if false h k = k

pub delivered-cancelled :
    (t : Option ℕ) (log : List Effect) → delivered (cancelled t log) ≡ delivered log
delivered-cancelled none log = refl
delivered-cancelled (some id) log = refl

pub finals-cancelled : (t : Option ℕ) (log : List Effect) → finals (cancelled t log) ≡ finals log
finals-cancelled none log = refl
finals-cancelled (some id) log = refl

-- Stamping the modulo changes nothing that the peer answers to.
pub is_final-stamped :
    (heap : ℕ → Conn) (conns : List (ConnKey × ℕ)) (port : ℕ) (f : Frame)
    → is_final (stamped heap conns port f) ≡ is_final f
unfolding stamped
is_final-stamped heap conns port f = ground arith

pub cancel_t1-Spares : (l : Link) → Spares l (cancel_t1 l)
unfolding cancel_t1
cancel_t1-Spares l = record {
  table = refl;
  port = refl;
  state = refl;
  modulo = refl;
  recv_seq = refl;
  rej_sent = refl;
  srej_enabled = refl;
  rx_buf = refl;
  srej_sent = refl;
  silent = delivered-cancelled l.conn.t1 l.log;
  unanswered = finals-cancelled l.conn.t1 l.log;
}

pub cancel_t2-Spares : (l : Link) → Spares l (cancel_t2 l)
unfolding cancel_t2
cancel_t2-Spares l = record {
  table = refl;
  port = refl;
  state = refl;
  modulo = refl;
  recv_seq = refl;
  rej_sent = refl;
  srej_enabled = refl;
  rx_buf = refl;
  srej_sent = refl;
  silent = delivered-cancelled l.conn.t2 l.log;
  unanswered = finals-cancelled l.conn.t2 l.log;
}

pub start_t1-Spares : (l : Link) → Spares l (start_t1 l)
unfolding start_t1
start_t1-Spares l = record {
  table = refl;
  port = refl;
  state = refl;
  modulo = refl;
  recv_seq = refl;
  rej_sent = refl;
  srej_enabled = refl;
  rx_buf = refl;
  srej_sent = refl;
  silent = delivered-cancelled l.conn.t1 l.log;
  unanswered = finals-cancelled l.conn.t1 l.log;
}

pub schedule_t2-Spares : (src dst : Bytes) (l : Link) → Spares l (schedule_t2 src dst l)
unfolding schedule_t2
schedule_t2-Spares src dst l = record {
  table = refl;
  port = refl;
  state = refl;
  modulo = refl;
  recv_seq = refl;
  rej_sent = refl;
  srej_enabled = refl;
  rx_buf = refl;
  srej_sent = refl;
  silent = delivered-cancelled l.conn.t2 l.log;
  unanswered = finals-cancelled l.conn.t2 l.log;
}

-- Sending a frame that is no final response.
pub send_frame-Spares :
    (port : ℕ) (f : Frame) (l : Link) → is_final f ≡ false → Spares l (send_frame port f l)
unfolding send_frame
send_frame-Spares port f l h =
    let g = is_final-stamped (update l.table.heap l.self l.conn) l.table.conns port f in
    record {
      table = refl;
      port = refl;
      state = refl;
      modulo = refl;
      recv_seq = refl;
      rej_sent = refl;
      srej_enabled = refl;
      rx_buf = refl;
      srej_sent = refl;
      silent = refl;
      unanswered = rw (g, h) (omega arith);
    }

-- A final response answers one poll.
pub finals-send_frame :
    (port : ℕ) (f : Frame) (l : Link)
    → finals (send_frame port f l).log ≡ (if is_final f then 1 else 0) + finals l.log
unfolding send_frame
finals-send_frame port f l =
    rw (is_final-stamped (update l.table.heap l.self l.conn) l.table.conns port f)

-- A change of the sending half.
pub Spares-conn :
    (l : Link) (c : Conn)
    → c.port ≡ l.conn.port
    → c.state ≡ l.conn.state
    → c.modulo ≡ l.conn.modulo
    → c.recv_seq ≡ l.conn.recv_seq
    → c.rej_sent ≡ l.conn.rej_sent
    → c.srej_enabled ≡ l.conn.srej_enabled
    → c.rx_buf ≡ l.conn.rx_buf
    → c.srej_sent ≡ l.conn.srej_sent
    → Spares l (with_conn l c)
Spares-conn l c e0 e1 e2 e3 e4 e5 e6 e7 = record {
  table = refl;
  port = e0;
  state = e1;
  modulo = e2;
  recv_seq = e3;
  rej_sent = e4;
  srej_enabled = e5;
  rx_buf = e6;
  srej_sent = e7;
  silent = refl;
  unanswered = refl;
}

pub i_frame_not_final :
    (c : Conn) (ns pid : ℕ) (info : Bytes) → is_final (i_frame_of c ns pid info) ≡ false
unfolding i_frame_of frame_of
i_frame_not_final c ns pid info = refl
