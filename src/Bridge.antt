-- ===== src/Bridge.antt =====
-- internal/bridge/bridge.go: frames to and from the ports. The sinks of raw and of monitored frames,
-- the TX sinks and the sends to a port are outputs in a log, newest first; the frames that the table
-- sends in answer come back through its `SendAX25` hook. Its other hooks, the log lines and the hex
-- dumps are left out. A port is a number that is not negative, and the frame counters are uint64.
pub mod Repeats
pub mod Ring
pub mod Echoes
use tncd.Prelude.{
  Bool, Bytes, List, Result, [], bit_and, bytes_eq, drop, err, false, get_or, if◌then◌else◌, leb,
  length, ltb, not, ok, suc, take, zero, ℕ, ◌%◌, ◌&&◌, ◌++◌, ◌+◌, ◌-◌, ◌==◌, ◌||◌, ◌∷◌,
}
use tncd.Ax25.Address.{Address, to_string}
use tncd.Ax25.Frame.{Frame, ParseError, bytes, is_i, is_s, parse, parse_modulo}
use tncd.L2.State.{Effect, Table, modulo_for}
use tncd.L2.State
use tncd.L2.Events.{on_frame}

pub data Output : Type 0 where
  to_port : (port : ℕ) (raw : Bytes) → Output
  command_to_port : (port cmd : ℕ) (value : Bytes) → Output
  tx_frame : (port : ℕ) → Frame → Output
  raw_rx : (port : ℕ) (raw : Bytes) → Output
  monitored : (port : ℕ) → Frame → Output

pub record Bridge : Type 0 where
  pub table : Table
  -- Whether each port is online.
  pub ports : List Bool
  pub has_tx_sinks : Bool
  pub sent_frames : List Bytes
  pub rx_frames : List ℕ
  pub tx_frames : List ℕ
  pub last_rx : List ℕ
  pub relinks : List ℕ
  pub outputs : List Output

abbrev pub echo_ring_size : ℕ
echo_ring_size = 20

-- The loop of `normalizeHBits`, on the via addresses.
unfoldable pub clear_h_bits : Bytes → Bytes
clear_h_bits (a ∷ b ∷ c ∷ d ∷ e ∷ f ∷ ssid ∷ rest) =
    let more = clear_h_bits rest in
    let cleared = bit_and ssid 0x7F in
    a ∷ b ∷ c ∷ d ∷ e ∷ f ∷ cleared ∷ (if bit_and cleared 0x01 == 0 then more else rest)
clear_h_bits raw = raw

unfoldable pub normalize_h_bits : Bytes → Bytes
unfolding clear_h_bits
normalize_h_bits raw =
    if ltb 13 (length raw) && bit_and (get_or raw 13 0) 0x01 == 0
    then take 14 raw ++ clear_h_bits (drop 14 raw)
    else raw

unfoldable pub track_sent : Bytes → List Bytes → List Bytes
track_sent norm ring = (if leb echo_ring_size (length ring) then drop 1 ring else ring) ++ norm ∷ []

unfoldable pub is_echo : Bytes → List Bytes → Bool
is_echo norm [] = false
is_echo norm (s ∷ ring) = bytes_eq s norm || is_echo norm ring

-- The entry of a port, if there is one.
unfoldable pub at_port : ℕ → (ℕ → ℕ) → List ℕ → List ℕ
at_port port change [] = []
at_port zero change (n ∷ ns) = change n ∷ ns
at_port (suc port) change (n ∷ ns) = n ∷ at_port port change ns

abbrev counted : ℕ → ℕ
counted n = (n + 1) % 18446744073709551616

unfoldable pub port_online : ℕ → Bridge → Bool
port_online port b = get_or b.ports port false

abbrev tx_output : ℕ → Result ParseError Frame → List Output → List Output
tx_output port (ok f) outputs = tx_frame port f ∷ outputs
tx_output port (err e) outputs = outputs

unfoldable pub send_to_kiss : ℕ → Bytes → Bridge → Bridge
unfolding port_online track_sent normalize_h_bits at_port
send_to_kiss port raw b =
    if not (port_online port b)
    then b
    else (let outputs = to_port port raw ∷ b.outputs in
        record b {
          sent_frames = track_sent (normalize_h_bits raw) b.sent_frames;
          tx_frames = at_port port counted b.tx_frames;
          outputs = if b.has_tx_sinks then tx_output port (parse raw) outputs else outputs;
        })

unfoldable pub send_kiss_command : ℕ → ℕ → Bytes → Bridge → Bridge
unfolding port_online
send_kiss_command port cmd value b =
    if not (port_online port b)
    then b
    else record b { outputs = command_to_port port cmd value ∷ b.outputs }

-- `SendAX25`
unfoldable pub send_ax25 : ℕ → Frame → Bridge → Bridge
unfolding send_to_kiss
send_ax25 port f b = send_to_kiss port (bytes f) b

-- Stage 2 of `OnKISSFrame`: an I- or S-frame is read again with the modulo of its connection.
abbrev or_first : Frame → Result ParseError Frame → Frame
or_first f (ok g) = g
or_first f (err e) = f

unfoldable pub at_modulo : Table → ℕ → Bytes → Frame → Frame
at_modulo t port raw f =
    let local = to_string f.dst in
    let remote = to_string f.src in
    if (is_i f.type || is_s f.type) && modulo_for t.heap t.conns port local remote == 128
    then or_first f (parse_modulo raw 128)
    else f

-- Whether a digipeater has not yet repeated the frame.
unfoldable pub unrepeated : List Address → Bool
unrepeated [] = false
unrepeated (v ∷ via) = not v.crh || unrepeated via

-- The frames among the effects of the table, newest first, that its `SendAX25` hook hands to the bridge.
unfoldable pub hand_on : List Effect → Bridge → Bridge
unfolding send_ax25
hand_on [] b = b
hand_on (State.send_ax25 port f ∷ earlier) b = send_ax25 port f (hand_on earlier b)
hand_on (_ ∷ earlier) b = hand_on earlier b

-- What the table has done since it was the first one.
abbrev effects_since : Table → Table → List Effect
effects_since t u = take (length u.log - length t.log) u.log

-- `OnFrame` of the table, with what the hook does.
unfoldable pub table_on_frame : ℕ → Frame → Bridge → Bridge
unfolding hand_on
table_on_frame port f b =
    let table = on_frame b.table port f in
    hand_on (effects_since b.table table) (record b { table = table })

-- The counters of the port, before the frame is handed on.
unfoldable pub count_received : ℕ → ℕ → Bridge → Bridge
unfolding at_port
count_received port now b = record b {
  rx_frames = at_port port counted b.rx_frames;
  last_rx = at_port port (λ _. now) b.last_rx;
  relinks = at_port port (λ _. 0) b.relinks;
}

-- The rest of `OnKISSFrame`, with the frame.
unfoldable pub receive_frame : ℕ → Bytes → ℕ → Frame → Bridge → Bridge
unfolding count_received unrepeated table_on_frame
receive_frame port raw now f b =
    let heard = count_received port now b in
    let after = if unrepeated f.via then heard else table_on_frame port f heard in
    record after { outputs = monitored port f ∷ raw_rx port raw ∷ after.outputs }

abbrev receive_parsed : ℕ → Bytes → ℕ → Result ParseError Frame → Bridge → Bridge
receive_parsed port raw now (ok f) b = receive_frame port raw now (at_modulo b.table port raw f) b
receive_parsed port raw now (err e) b = b

unfoldable pub on_kiss_frame : ℕ → Bytes → ℕ → Bridge → Bridge
unfolding normalize_h_bits is_echo receive_frame at_modulo
on_kiss_frame port raw now b =
    if is_echo (normalize_h_bits raw) b.sent_frames
    then b
    else receive_parsed port raw now (parse raw) b
