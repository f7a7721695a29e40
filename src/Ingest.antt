-- ===== src/Ingest.antt =====
-- bridge/ingest: from a verified staged payload to an active source.
pub mod Reconcile
pub mod Flow
pub mod Receive
