-- ===== src/Benshi.antt =====
-- The package `benshi`: the control protocol of Benshi radios.
pub mod Message
pub mod Frame
pub mod Settings
pub mod Channel
pub mod Records
