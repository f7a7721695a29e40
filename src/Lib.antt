-- ===== src/Lib.antt =====
-- RomM Swarm: the core of the Bridges, the Host and their shared protocol.
--
-- A Bridge stands beside a RomM server, scans its library, and tells a Swarm which verified files
-- it holds; a Host keeps the inventories, authenticates the Bridges and reports how well each
-- file is preserved. A receiving Bridge takes a transfer through a state machine before the file
-- counts as a source.
--
-- The parts, and the files that model them:
--
-- protocol/destination.go is Protocol.Destination: the states of a transfer at its destination,
--   `CanTransition` (can_transition) and `Transition` (transition). Protocol.Destination.Legal
--   and .Paths are about single moves and sequences of moves.
-- protocol/ids.go is Protocol.Ids: identifiers, their encoding and validation, and revisions,
--   which wrap around at 2 ^ 64.
-- protocol/digest.go is Protocol.Digest: `Compare` and its levels of strength.
-- protocol/manifest.go is Protocol.Manifest and Protocol.Availability: items, manifests, deltas
--   and their validation.
-- auth/refresh.go is Auth.Refresh: the verifier of refresh credentials over the in-memory store.
--   An operation takes the store and returns it with its result; the save hook stands for a save
--   that fails. `Rotate` is rotate and rotate_family.
-- preservation/risk.go is Preservation.Risk: `Assess` (assess) and `ComputeCoverage`
--   (compute_coverage), the two loops of `Assess` being note_all and count_all.
-- bridge/publish/publish.go is Publish.Policy, .Snapshot, .Diff and .Preview.
-- bridge/ingest/reconcile.go is Ingest.Reconcile: `Await` (await) over the turns of its loop, each
--   with what the library answered and the clock showed; `classify` is classify.
-- bridge/ingest/flow.go is Ingest.Flow, the in-memory journal and `advance`, and Ingest.Receive,
--   the flow `Receive`: it calls `Await` and moves by Protocol.Destination, and the staging area,
--   the uploader, the publisher and the manifest answer as arguments.
-- relay/relay.go is Relay: its operations on the grants and the count of active sessions, each of
--   them what the code does under its locks; `pipe` is begin_pipe and end_pipe. Relay.Sessions has
--   the sessions that are open, which the code counts only, and the steps of their goroutines.
-- reference/set.go is Reference and Reference.Lookup: a catalogue, its tables and `Lookup`.
--   reference/profile.go is Reference.Profile, `Apply` being apply; reference/classify.go is
--   Reference.Classify, `Classify` being classify, and reference/name.go is Reference.Names. The
--   child modules of each are about what it finds or selects.
-- verify/analyze.go gives Verify the result of an analysis, which `Classify` takes. Of verify/adapter.go,
--   Verify.Registry has the registry and `selectAdapter`; verify/genesis.go is Verify.Genesis, with the
--   encoder of internal/romfixture/romfixture.go, and Verify.Genesis.Streaming reads its stream.
-- bridge/destination/staging.go is Destination.Staging, and bridge/destination/publish.go is
--   Destination.Paths (`safeJoin`, `within`), Destination.Publisher (`Publish`) and
--   Destination.Preflight. An operation takes the files, contents under paths, and returns them with
--   its result; Destination.Os holds the answers of the operating system.
-- bridge/transport/transport.go is Transport: `Send` (send) and `sendFrom` (send_from) over what the
--   dials and the writes come to, in their order.
--
-- How it is modelled. A Go string is the list of its bytes; the texts whose case matters are ASCII.
-- A duration or an instant is a number of nanoseconds, the zero time 0. The sums of bytes that the
-- code adds up in an int64, those of a preview and of a grant, are ℤ and wrap around at 2 ^ 63
-- (Common.Integers.add_int64); counts of list members, which fit an int, are ℕ. An error is a constructor
-- without its message. A map is an association list, and a set the list of its members. SHA-256,
-- the hash of a token, the tokens minted and the clock's readings are arguments. All loops are over
-- lists but that of `splitTags`, which has fuel for one turn more than the name has bytes, and a
-- wait that has not ended after its turns is `none`; a reader that collects a stream has one turn
-- more than the bytes it is to give. A sort that may meet equal elements is an
-- argument with what package sort promises, Common.Sorters.Sorter.
--
-- The modules below Common carry what the parts share: texts and their order, association lists,
-- sets, sorting. Tests runs the definitions and applies the theorems at concrete inputs.
--
-- Not modelled: the copying of bytes by the relay; dialling and the receiving side of the
-- transport; the reader of catalogue files; the verifiers of the cartridge formats but that of
-- the Mega Drive; the Host's directory and its SQL stores; HTTP servers, pages and clients, the
-- RomM client, the scanner and the command-line programs, which are input and output around these
-- parts.
pub mod Common
pub mod Protocol
pub mod Auth
pub mod Preservation
pub mod Publish
pub mod Ingest
pub mod Verify
pub mod Transport
pub mod Reference
pub mod Destination
pub mod Relay
mod Tests
