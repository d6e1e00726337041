-- ===== src/Log.antt =====
-- febft-pbft-consensus/src/bft/log.
pub mod Decisions
pub mod Deciding
pub mod Decided
pub mod Install
pub mod Keys
