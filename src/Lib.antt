-- ===== src/Lib.antt =====
-- tncd is a packet-radio controller: it speaks KISS to radios, AX.25 connected mode to the stations
-- behind them, and AGWPE, KISS, rigctl and HTTP to its clients. This library models its protocol
-- core: the KISS framing and the demultiplexer of a port, the AX.25 codecs and the connected-mode
-- state machine, the wire formats of AGWPE and of the Benshi radios, and the rig control that tunes
-- a radio for packet and puts it back.
--
-- How the parts interact: bytes from a radio go through the decoder of kiss/framing.go; a frame is
-- dropped by internal/bridge/bridge.go if it is an echo of one sent, and else read by `ParseModulo`
-- of ax25/frame.go with the modulo that the connection table names; the table of ax25/l2/l2.go then
-- changes its connections, sends frames, starts timers and calls the hooks of the bridge. Clients
-- act on the table by `Connect`, `Disconnect`, `SendData` and `RemoveOwned`.
--
-- A port that also carries rig control is read by the demultiplexer of kiss/demux.go instead. The
-- number of connections on a port and the rigctl clients go to the gate of
-- internal/bridge/riggate.go, which calls `AcquireSession` and `ReleaseSession` of internal/rig.
--
-- Files and sources:
--   Kiss/Framing       kiss/framing.go: `WrapData`, `WrapCommand`, `WrapCommandBytes`, `Decoder`
--   Kiss/Demux         kiss/demux.go: `Feed`, `scan`, `feedKISSRun`, `feedGaia`, `attach`, `detach`
--   Kiss/Pacing        kiss/pacing.go: `delayFor`, `airTime`, `maxLead`
--   Ax25/Address       ax25/address.go: `ParseAddress`, `String`, `encode`, `decodeAddress`
--   Ax25/Frame         ax25/frame.go: `FrameType`, `Frame`, `ParseModulo`, `Bytes`
--   Ax25/Xid           ax25/xid.go: `XIDParams.Encode`, `ParseXID`
--   Agwpe              agwpe/agwpe.go: `ParseHeader`, `Build`
--   Benshi/Frame       benshi/frame.go: `Frame.Bytes`, `Decoder.Feed`
--   Benshi/Message     benshi/message.go: `Message.Bytes`, `DecodeMessage`
--   Benshi/Settings    benshi/settings.go, benshi/settingsrec.go: the settings record and its patches
--   Benshi/Channel     benshi/rfch.go: the channel record, `WithFreq`
--   Benshi/Records     benshi/bss.go, benshi/devinfo.go
--   Bridge             internal/bridge/bridge.go: `SendToKISS`, `SendAX25`, `OnKISSFrame`
--   Rig                internal/rig/rig.go: `SetFreq`, `GetFreq`, `Teardown`, `activeChannel`
--   Rig/Sessions       internal/rig/session.go: `AcquireSession`, `ReleaseSession`, and what they call
--   RigGate            internal/bridge/riggate.go: `rigGate`, its operations and the bridge's hooks
--   RigGate/Threads    internal/bridge/riggate.go: the goroutines at one gate as a step relation
--   L2/State           ax25/l2/conn.go, and the table of ax25/l2/l2.go: `Conn`, `Table`, keys,
--                      `getOrCreate`, `remove`, `sendFrame`, `cmdFrame`, `respFrame`
--   L2/Links           ax25/l2/l2.go: timers and supervisory frames of one connection
--   L2/Outbound        ax25/l2/l2.go: `SendData`, `drainOutbound`, `ackFrames`, `retransmitRange`
--   L2/Inbound         ax25/l2/l2.go: `dispatchI`, `dispatchS`, `dispatchXID`, `sendSREJHoles`
--   L2/Setup           ax25/l2/l2.go: `Connect`, `Disconnect`, `dispatchSABM` to `dispatchFRMR`
--   L2/Events          ax25/l2/l2.go: `OnFrame`, `t1Expired`, `RemoveOwned`, `PortOffline`, and
--                      `step`, the table under everything that the environment may do
--   L2/Sessions        the proofs on the connection table
--   L2/Receiving       the proofs on the receiving half of a link
--   L2/Sending         the proofs on the sending half of a link
--   L2/Window          the proof on the window of the sending half
--   L2/Bounds          the proofs on its queue and on the size of its I-frames
--   L2/Retries         the proofs on one expiry of T1
--   L2/Timers          the proofs on T1
--   L2/Foreign         the proof on frames between other stations
--   Prelude            shared tests, list functions, result type and association lists
--   Tests              runs at concrete inputs
--
-- State: a `*Conn` is its place in the heap of `Table`, so that a pointer kept by a timer or a
-- client stays valid when the connection has left the table. An operation on one connection works
-- on a `Link`, the connection taken out of its table. A call of a hook or of the clock is an
-- `Effect` in the log, newest first. A timer is a number; the expiry of a timer that is not the
-- connection's present one is stale and does nothing, as in the source.
--
-- Numbers: a byte is a number below 256, and uint8 arithmetic wraps where the source's does. A time
-- or a duration is a number of nanoseconds, and a clock does not run backwards. A map is an
-- association list; the order of an iteration over a map is that of the list.
--
-- Fuel: the loop over digipeaters has the eight places that are left, the loop over XID parameters
-- the length of its bytes (each round takes two at least), `drainOutbound` the length of its queue
-- (each round takes an entry), the delivery of buffered frames the size of the buffer (each round
-- removes one), the loop of `sendSREJHoles` the modulo, as in the source, the chunks of a payload
-- its length, `Feed` of kiss/demux.go twice the number of its bytes and two more (a false start of
-- a control frame is looked at twice), `drain` of riggate.go any number from two on (it ends when
-- nothing comes in between two of its rounds, see the results), `findVFOChannel` the ids up to 255,
-- `Decoder.Feed` of benshi/frame.go one more than the length of its buffer (each round but the last
-- takes a byte), and `retransmitRange` 256 rounds (there are at most 128 sequence numbers).
--
-- Not modelled: `DeriveParams`, which computes in floating point (the parameters of a port are
-- arguments); text forms for debugging; a hook that calls back into the table before it returns (a
-- client's reaction is a later step); the exchange of one command with a radio (`request` of
-- internal/rig/rig.go), a parameter; everything around the core, which is I/O, configuration and
-- front ends. `strings.ToUpper` and `strings.TrimSpace` are those of ASCII.
pub mod Prelude
pub mod Kiss
pub mod Ax25
pub mod L2
pub mod Agwpe
pub mod Benshi
pub mod RigGate
pub mod Bridge
pub mod Rig
pub mod Tests
