-- ===== src/Protocol/Instructions.antt =====
-- cli/kswarm_cli/protocol.py: the instructions that the callers send, one function per builder.
pub mod Workers
pub mod Jobs
pub mod Settlement
pub mod Authority
pub mod OpenJob
mod Examples
