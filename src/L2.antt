-- ===== src/L2.antt =====
-- The package `ax25/l2`: the connected-mode state machine.
pub mod State
pub mod Links
pub mod Outbound
pub mod Inbound
pub mod Setup
pub mod Events
pub mod Sessions
pub mod Receiving
pub mod Foreign
pub mod Retries
pub mod Timers
pub mod Sending
pub mod Bounds
pub mod Window
