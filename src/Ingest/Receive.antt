-- ===== src/Ingest/Receive.antt =====
-- bridge/ingest/flow.go: `Receive`, over the in-memory journal.
pub mod Recorded
pub mod Activation
pub mod Success
use rom_m_swarm.Common.{
  ℕ, Text, ltb, Bool, true, false, not, ◌&&◌, Option, none, some, List, [], if◌then◌else◌,
}
use rom_m_swarm.Protocol.Digest.{Digest}
use rom_m_swarm.Protocol.Destination.{
  DestinationState, DestinationMode, api_only, filesystem_publication, other_mode, receiving,
  verified_in_staging, awaiting_romm_ingestion, romm_matched, source_active, cancelled,
  verification_conflict, quarantined, other, state_eq, valid, hand_off_state,
}
use rom_m_swarm.Ingest.Reconcile.{
  Expected, validate_expected, Round, AwaitError, AwaitResult, await,
}
use rom_m_swarm.Ingest.Flow.{
  MemoryJournal, FlowError, bad_mode, no_uploader, no_publisher, upload_failed, publication_refused,
  republication_failed, unexpected, not_awaited, advance,
}

-- What the flow's collaborators answer. `has_space`, `stages` and `verifies` are the staging area's
-- `CheckSpace`, `Receive` and `Verify`; an uploader, a publisher or a manifest that is not
-- configured is `none`, and one that is says whether its call succeeds; `library`, `timeout`,
-- `started` and `rounds` are what `Await` reads. No transfer records a state twice, so the clock's
-- reading at a record is a function of the state.
pub record Answers : Type 0 where
  pub has_space : ℕ → Bool
  pub stages : Bool
  pub verifies : Digest → Bool
  pub uploader : Option Bool
  pub publisher : Option Bool
  pub library : Bool
  pub timeout : ℕ
  pub started : ℕ
  pub rounds : List Round
  pub manifest : Option Bool
  pub clock : DestinationState → ℕ

-- The two values that `Receive` returns.
pub record Returned : Type 0 where
  pub state : DestinationState
  pub error : Option FlowError

-- The journal, and what was returned; `none` while `Await` still waits.
abbrev pub Run : Type 0
Run = MemoryJournal × Option Returned

unfoldable pub failed : FlowError → Option Returned
failed e = some (record { state = other []; error = some e })

unfoldable pub reached : DestinationState → Option Returned
reached s = some (record { state = s; error = none })

-- `if err := f.advance(...); err != nil { return "", err }`
unfoldable pub advance_then : MemoryJournal × Option FlowError → (MemoryJournal → Run) → Run
advance_then (j, some e) rest = (j, failed e)
advance_then (j, none) rest = rest j

module _ (w : Answers) (id : Text) where
  -- `_ = f.advance(...); return s, err`
  unfoldable pub stop : DestinationState → Option FlowError → MemoryJournal → Run
  stop s error j = ((advance (w.clock s) j id s).0, some (record { state = s; error = error }))

  unfoldable pub move : DestinationState → (MemoryJournal → Run) → MemoryJournal → Run
  move s rest j = advance_then (advance (w.clock s) j id s) rest

  unfoldable pub finish : MemoryJournal → Run
  finish j = (j, reached source_active)

  -- From `romm_matched` on.
  unfoldable pub activate : MemoryJournal → Run
  activate j = elim w.manifest [
    | some republished ↦
        if not republished
        then stop quarantined (some republication_failed) j
        else move source_active finish j
    | none ↦ move source_active finish j
  ]

  -- The state of the wait has been recorded.
  unfoldable pub conclude : DestinationState → MemoryJournal → Run
  conclude s j = if not (state_eq s romm_matched) then (j, reached s) else activate j

  -- What becomes of the result of the wait.
  unfoldable pub take_result : AwaitResult → MemoryJournal → Run
  take_result a j = elim a.error [
    | some e ↦
        if state_eq a.result.state (other [])
        then (j, failed (not_awaited e))
        else move a.result.state (conclude a.result.state) j
    | none ↦ move a.result.state (conclude a.result.state) j
  ]

  module _ (expected : Expected) where
    unfoldable pub watch : MemoryJournal → Run
    watch j = elim (await w.library w.timeout expected w.started w.rounds) [
      | none ↦ (j, none)
      | some a ↦ take_result a j
    ]

    unfoldable pub wait : MemoryJournal → Run
    wait j = move awaiting_romm_ingestion watch j

    unfoldable pub uploaded : Bool → MemoryJournal → Run
    uploaded sent j = if sent then wait j else stop verification_conflict (some upload_failed) j

    -- The two flows of the destination modes, at their hand-off state.
    unfoldable pub hand_over : DestinationMode → DestinationState → MemoryJournal → Run
    hand_over api_only s j = elim w.uploader [
      | none ↦ (j, failed no_uploader)
      | some sent ↦ move s (uploaded sent) j
    ]
    hand_over filesystem_publication s j = elim w.publisher [
      | none ↦ (j, failed no_publisher)
      | some published ↦
          if published then move s wait j else stop cancelled (some publication_refused) j
    ]
    hand_over (other_mode m) s j = wait j

    unfoldable pub verified : DestinationMode → MemoryJournal → Run
    verified mode j = elim (hand_off_state mode) [
      | none ↦ (j, failed bad_mode)
      | some s ↦ hand_over mode s j
    ]

    unfoldable pub stage_payload : DestinationMode → MemoryJournal → Run
    stage_payload mode j =
        if ltb 0 expected.canonical.size && not (w.has_space expected.canonical.size)
        then stop cancelled none j
        else if not w.stages
        then stop cancelled none j
        else if not (w.verifies expected.canonical)
        then stop verification_conflict none j
        else move verified_in_staging (verified mode) j

    unfoldable pub receive : DestinationMode → MemoryJournal → Run
    receive mode j =
        if not (valid mode) then (j, failed bad_mode) else elim (validate_expected expected) [
          | some e ↦ (j, failed (unexpected e))
          | none ↦ move receiving (stage_payload mode) j
        ]
