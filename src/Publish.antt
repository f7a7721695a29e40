-- ===== src/Publish.antt =====
-- bridge/publish/publish.go: from local holdings to what one Swarm is told.
pub mod Policy
pub mod Snapshot
pub mod Diff
pub mod Preview
