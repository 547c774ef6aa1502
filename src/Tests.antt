-- ===== src/Tests.antt =====
-- Runs of the model at concrete inputs.
mod Codecs
mod Links
mod Radio
mod Ports
mod Records
mod Rigs
mod Bridges
