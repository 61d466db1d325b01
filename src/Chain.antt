-- ===== src/Chain.antt =====
-- The chain objects: src/chain.
pub mod Types
pub mod Script
pub mod Point
pub mod Header
pub mod Witness
pub mod Output
pub mod Input
pub mod Transaction
pub mod SignatureHash
pub mod Patterns
pub mod Sigops
pub mod Verify
pub mod Compact
pub mod Amounts
pub mod Prevout
pub mod Points
pub mod Checks
pub mod ProofOfWork
pub mod Retarget
pub mod Block
mod Tests
