-- ===== src/Ingest/Receive/Success.antt =====
-- The flow comes to an active source where every collaborator does its part.
use rom_m_swarm.Common.{ℕ, text_eq, ap, ◌∙◌, ◌≡◌, ◌≢◌, refl, true, false, Text, none, some, arith}
use rom_m_swarm.Protocol.Destination.{
  DestinationState, DestinationMode, api_only, filesystem_publication, other_mode, receiving,
  verified_in_staging, uploading_to_romm, published_to_filesystem, awaiting_romm_ingestion,
  romm_matched, source_active, state_eq, hand_off_state, valid, can_transition,
}
use rom_m_swarm.Ingest.Reconcile.{Expected, AwaitResult, await, validate_expected}
use rom_m_swarm.Ingest.Flow.{MemoryJournal, current, append, start_of, own_test, advance}
use rom_m_swarm.Ingest.Flow.Journal.{current-advance, advance_legal}
use rom_m_swarm.Ingest.Receive.{
  Answers, Run, reached, move, finish, activate, conclude, take_result, watch, wait, uploaded,
  hand_over, verified, stage_payload, receive,
}
use rom_m_swarm.Ingest.Receive.Recorded.{move-on}

-- The collaborator of a destination mode is configured, and its call succeeds.
abbrev pub HandsOver : Answers → DestinationMode → Type 0
HandsOver w api_only = w.uploader ≡ some true
HandsOver w filesystem_publication = w.publisher ≡ some true
HandsOver w (other_mode s) = ⊥

-- Every collaborator does its part, and the wait ends in a match.
pub record Cooperates (w : Answers) (expected : Expected) (mode : DestinationMode) : Type 0 where
  pub complete : validate_expected expected ≡ none
  pub space : w.has_space expected.canonical.size ≡ true
  pub staged : w.stages ≡ true
  pub checked : w.verifies expected.canonical ≡ true
  pub handed : HandsOver w mode
  pub outcome : AwaitResult
  pub awaited : await w.library w.timeout expected w.started w.rounds ≡ some outcome
  pub in_order : outcome.error ≡ none
  pub is_matched : outcome.result.state ≡ romm_matched
  pub not_refused : w.manifest ≢ some false

-- A part of the flow that returns an active source and no error.
abbrev pub Succeeds : Run → Type 0
Succeeds run = run.1 ≡ some (record { state = source_active; error = none })

module _ (w : Answers) (id : Text) where
  move-Succeeds :
      (from s : DestinationState) (rest : MemoryJournal → Run) (j : MemoryJournal)
      → current j id ≡ some from
      → can_transition from s ≡ true
      → ((j' : MemoryJournal) → current j' id ≡ some s → Succeeds (rest j'))
      → Succeeds (move w id s rest j)
  move-Succeeds from s rest j c m h =
      let o = advance_legal (w.clock s) j id from s c m in
      rw (move-on w id s rest j o)
        (h (advance (w.clock s) j id s).0 (current-advance (w.clock s) j id s o))

  -- A transfer that the journal does not know starts at `receiving`.
  begins :
      (now : ℕ) (j : MemoryJournal) → current j id ≡ none → (advance now j id receiving).1 ≡ none
  unfolding advance append own_test start_of state_eq text_eq
  begins now j c = ground arith

  module _ (expected : Expected) (mode : DestinationMode) (g : Cooperates w expected mode) where
    activate-Succeeds :
        (j : MemoryJournal) → current j id ≡ some romm_matched → Succeeds (activate w id j)
    unfolding activate can_transition finish reached
    activate-Succeeds j c =
        let k = move-Succeeds romm_matched source_active (finish w id) j c refl (λ j' c'. refl) in
        ground (arith, k, g.not_refused)

    conclude-Succeeds :
        (s : DestinationState)
        → s ≡ romm_matched
        → (j : MemoryJournal) → current j id ≡ some s
        → Succeeds (conclude w id s j)
    unfolding conclude state_eq
    conclude-Succeeds s e j c = rw e (activate-Succeeds j (c ∙ ap some e))

    take_result-Succeeds :
        (a : AwaitResult) (j : MemoryJournal)
        → a.error ≡ none
        → a.result.state ≡ romm_matched
        → current j id ≡ some awaiting_romm_ingestion
        → Succeeds (take_result w id a j)
    unfolding take_result can_transition
    take_result-Succeeds a j e m c =
        let k =
          move-Succeeds awaiting_romm_ingestion a.result.state (conclude w id a.result.state) j c
            (rw m refl) (conclude-Succeeds a.result.state m) in
        ground (arith, k)

    watch-Succeeds :
        (j : MemoryJournal)
        → current j id ≡ some awaiting_romm_ingestion
        → Succeeds (watch w id expected j)
    unfolding watch
    watch-Succeeds j c =
        rw (g.awaited, watch) (take_result-Succeeds g.outcome j g.in_order g.is_matched c)

    wait-Succeeds :
        (s : DestinationState) (j : MemoryJournal)
        → current j id ≡ some s
        → can_transition s awaiting_romm_ingestion ≡ true
        → Succeeds (wait w id expected j)
    unfolding wait
    wait-Succeeds s j c m =
        move-Succeeds s awaiting_romm_ingestion (watch w id expected) j c m watch-Succeeds

    hand_over-Succeeds :
        (m : DestinationMode) (s : DestinationState) (j : MemoryJournal)
        → HandsOver w m
        → hand_off_state m ≡ some s
        → current j id ≡ some verified_in_staging
        → Succeeds (hand_over w id expected m s j)
    unfolding hand_over hand_off_state can_transition uploaded
    hand_over-Succeeds api_only s j h o c =
        let k =
          move-Succeeds verified_in_staging s (uploaded w id expected true) j c (ground arith)
            (λ j' c'. wait-Succeeds s j' c' (ground arith)) in
        ground (arith, k)
    hand_over-Succeeds filesystem_publication s j h o c =
        let k =
          move-Succeeds verified_in_staging s (wait w id expected) j c (ground arith)
            (λ j' c'. wait-Succeeds s j' c' (ground arith)) in
        ground (arith, k)
    hand_over-Succeeds (other_mode m) s j h o c = absurd h

    known_mode :
        (m : DestinationMode)
        → HandsOver w m
        → (valid m ≡ true) × ((s : DestinationState) × (hand_off_state m ≡ some s))
    unfolding valid hand_off_state
    known_mode api_only h = (refl, (uploading_to_romm, refl))
    known_mode filesystem_publication h = (refl, (published_to_filesystem, refl))
    known_mode (other_mode m) h = absurd h

    verified-Succeeds :
        (j : MemoryJournal)
        → current j id ≡ some verified_in_staging
        → Succeeds (verified w id expected mode j)
    unfolding verified
    verified-Succeeds j c =
        let (v, (s, o)) = known_mode mode g.handed in
        rw (o, verified) (hand_over-Succeeds mode s j g.handed o c)

    stage_payload-Succeeds :
        (j : MemoryJournal)
        → current j id ≡ some receiving
        → Succeeds (stage_payload w id expected mode j)
    unfolding stage_payload can_transition
    stage_payload-Succeeds j c =
        let k =
          move-Succeeds receiving verified_in_staging (verified w id expected mode) j c refl
            verified-Succeeds in
        ground (arith, k, g.space, g.staged, g.checked)

    -- Where the journal does not know the transfer, the expectation is valid, there is
    -- space, staging and verification succeed, the mode's collaborator is configured and
    -- succeeds, the wait returns a match without an error, and republication is not refused,
    -- `Receive` returns `source_active` without an error.
    pub receive_succeeds :
        (j : MemoryJournal)
        → current j id ≡ none
        → (receive w id expected mode j).1 ≡ some (record { state = source_active; error = none })
    unfolding receive
    receive_succeeds j c =
        let (v, (s, o)) = known_mode mode g.handed in
        let start = begins (w.clock receiving) j c in
        let k : Succeeds (move w id receiving (stage_payload w id expected mode) j) =
          rw (move-on w id receiving (stage_payload w id expected mode) j start) (
            stage_payload-Succeeds (advance (w.clock receiving) j id receiving).0
              (current-advance (w.clock receiving) j id receiving start)) in
        ground (arith, k, v, g.complete)
