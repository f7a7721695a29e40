-- ===== src/Protocol.antt =====
-- protocol/: the shared vocabulary of Host, Bridge and relay.
pub mod Availability
pub mod Destination
pub mod Digest
pub mod Ids
pub mod Manifest
