-- ===== src/Protocol.antt =====
-- cli/kswarm_cli/protocol.py: the accounts and the instructions of the on-chain program.
pub mod Accounts
pub mod Addresses
pub mod Decode
pub mod Fixture
pub mod Floors
pub mod Instructions
