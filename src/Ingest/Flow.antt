-- ===== src/Ingest/Flow.antt =====
-- bridge/ingest/flow.go: the receiving flow over the in-memory journal. The messages of the
-- transitions are left out.
pub mod Journal
use rom_m_swarm.Common.{
  ℕ, ◌+◌, Text, text_eq, ltb, Bool, true, false, not, ◌&&◌, Option, none, some, List, [], ◌∷◌, ◌++◌,
  get, put, last?, if◌then◌else◌,
}
use rom_m_swarm.Protocol.Digest.{Digest}
use rom_m_swarm.Protocol.Destination.{
  DestinationState, DestinationMode, api_only, filesystem_publication, other_mode, receiving,
  verified_in_staging, awaiting_romm_ingestion, romm_matched, source_active, cancelled,
  verification_conflict, quarantined, other, state_eq, valid, transition, TransitionError,
  hand_off_state,
}
use rom_m_swarm.Ingest.Reconcile.{
  Expected, ExpectedError, validate_expected, Round, AwaitError, AwaitResult, await,
}

pub record Transition : Type 0 where
  pub from : DestinationState
  pub to : DestinationState
  pub time : ℕ

abbrev pub MemoryJournal : Type 0
MemoryJournal = List (Text × List Transition)

-- A transfer that the map does not hold has the nil slice.
unfoldable pub history : MemoryJournal → Text → List Transition
history j id = elim (get id j) [ none ↦ [] | some h ↦ h ]

unfoldable pub current : MemoryJournal → Text → Option DestinationState
current j id = elim (last? (history j id)) [ none ↦ none | some t ↦ some t.to ]

pub data FlowError : Type 0 where
  illegal : TransitionError → FlowError
  bad_start bad_mode no_uploader no_publisher : FlowError
  upload_failed publication_refused republication_failed : FlowError
  unexpected : ExpectedError → FlowError
  not_awaited : AwaitError → FlowError

-- The journal after `Append`, and its error.
unfoldable pub append : MemoryJournal → Text → Transition → MemoryJournal × Option FlowError
append j id t = elim (current j id) [
  | some from ↦ elim (transition from t.to) [
    | some e ↦ (j, some (illegal e))
    | none ↦ (put id (history j id ++ t ∷ []) j, none)
  ]
  | none ↦
      if not (state_eq t.to receiving)
      then (j, some bad_start)
      else (put id (history j id ++ t ∷ []) j, none)
]

-- The state that `advance` moves from, the empty string where none is known, and the error of its
-- own test.
unfoldable pub start_of : Option DestinationState → DestinationState
start_of none = other []
start_of (some s) = s

unfoldable pub own_test : DestinationState → DestinationState → Option TransitionError
own_test from to = if state_eq from (other []) then none else transition from to

unfoldable pub advance :
    ℕ → MemoryJournal → Text → DestinationState → MemoryJournal × Option FlowError
advance now j id to =
    let from = start_of (current j id) in
    elim (own_test from to) [
      | some e ↦ (j, some (illegal e))
      | none ↦ append j id (record { from = from; to = to; time = now })
    ]
