-- ===== src/Consensus.antt =====
-- febft-pbft-consensus/src/bft/consensus.
pub mod Accessory
pub mod Decision
pub mod Guard
pub mod TboQueue
pub mod Instances
