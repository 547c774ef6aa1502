-- ===== src/L2/Receiving.antt =====
-- ax25/l2/l2.go: the receiving half of an established link.
pub mod Observed
pub mod Sender
pub mod Sequence
pub mod Stream
pub mod Selective
