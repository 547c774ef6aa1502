-- ===== src/Kiss.antt =====
-- The package `kiss`: the framing of AX.25 frames on the link to a TNC.
pub mod Framing
pub mod Demux
pub mod Pacing
