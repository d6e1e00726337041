-- ===== src/Tests.antt =====
-- Runs at concrete inputs.
mod Concrete
mod Views
mod Logs
mod Decisions
mod Progress
mod Replicas
mod Collected
mod Stopped
mod Synced
mod Instances
