-- ===== src/Worker.antt =====
-- The daemons of worker/: what they share, and one child for each of them.
pub mod Action
pub mod World
pub mod Verifier
pub mod Runner
