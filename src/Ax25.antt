-- ===== src/Ax25.antt =====
-- The package `ax25`: addresses, frames and XID parameters on the wire.
pub mod Address
pub mod Frame
pub mod Xid
