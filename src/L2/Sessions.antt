-- ===== src/L2/Sessions.antt =====
-- ax25/l2/l2.go: the connection table. Its bound, its keys, and the session counts it reports.
pub mod Keeps
pub mod Outbound
pub mod Inbound
pub mod Setup
pub mod Keys
pub mod Valid
pub mod Events
