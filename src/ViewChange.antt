-- ===== src/ViewChange.antt =====
-- The view change protocol, of febft-pbft-consensus/src/bft/sync.
pub mod Messages
pub mod Queue
pub mod Synchronizer
pub mod Sound
pub mod Collects
pub mod Replica
pub mod Finalize
pub mod Begin
pub mod Layers
pub mod Stopping
pub mod Syncing
pub mod Process
pub mod Poll
pub mod Runs
