-- ===== src/Rce.antt =====
-- src/rce.c: remote command entry. Messages that come over the network are run as shell commands
-- while it is enabled, and two messages enable and disable it.
pub mod Config
pub mod Process
pub mod Control
pub mod Init
