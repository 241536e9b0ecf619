-- ===== src/Aggregate.antt =====
-- cli/kswarm_cli/aggregate.py: the MFA3 aggregate artifact and the journal that its reduction commits.
pub mod Error
pub mod Merkle
pub mod Combiner
pub mod Receipt
pub mod Fields
pub mod Reduce
pub mod Journal
