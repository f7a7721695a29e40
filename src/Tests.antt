-- ===== src/Tests.antt =====
-- The theorems at concrete inputs, and runs of the definitions.
mod Protocol
mod Auth
mod Preservation
mod Publish
mod Ingest
mod Relay
mod Transport
mod Verify
mod Destination
mod Reference
