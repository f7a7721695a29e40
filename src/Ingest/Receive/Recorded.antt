-- ===== src/Ingest/Receive/Recorded.antt =====
-- The flow and its journal: legal histories, of this transfer only, that end where the flow ends.
use rom_m_swarm.Common.{
  Text, ◌≡◌, ◌≢◌, refl, Bool, true, false, Option, none, some, [], arith, Option-cases, Bool-cases,
  inl, inr, ◌∙◌,
}
use rom_m_swarm.Protocol.Destination.{
  DestinationState, DestinationMode, api_only, filesystem_publication, other_mode, receiving,
  verified_in_staging, uploading_to_romm, awaiting_romm_ingestion, romm_matched, source_active,
  cancelled, verification_conflict, quarantined, other, state_eq, state_eq→≡, can_transition,
  hand_off_state, valid,
}
use rom_m_swarm.Ingest.Reconcile.{Expected, AwaitResult, await, validate_expected}
use rom_m_swarm.Ingest.Flow.{MemoryJournal, history, current, FlowError, advance}
use rom_m_swarm.Ingest.Flow.Journal.{
  IsLegal, advance-IsLegal, advance_other, current-advance, advance_legal,
}
use rom_m_swarm.Ingest.Receive.{
  Answers, Returned, Run, failed, reached, advance_then, stop, move, finish, activate, conclude,
  take_result, watch, wait, uploaded, hand_over, verified, stage_payload, receive,
}

-- What a part of the flow does to the journal it is given.
pub record Keeps (id : Text) (j : MemoryJournal) (run : Run) : Type 0 where
  pub legal : IsLegal j → IsLegal run.0
  pub others : (k : Text) → id ≢ k → history run.0 k ≡ history j k
  pub recorded :
      (r : Returned) → run.1 ≡ some r → r.state ≢ other [] → current run.0 id ≡ some r.state

failed-Keeps : (id : Text) (j : MemoryJournal) (e : FlowError) → Keeps id j (j, failed e)
unfolding failed
failed-Keeps id j e = record {
  legal = λ l. l;
  others = λ k n. refl;
  recorded = λ r h n. ground arith;
}

reached-Keeps :
    (id : Text) (j : MemoryJournal) (s : DestinationState)
    → current j id ≡ some s
    → Keeps id j (j, reached s)
unfolding reached
reached-Keeps id j s c = record {
  legal = λ l. l;
  others = λ k n. refl;
  recorded = λ r h n. ground arith;
}

module _ (w : Answers) (id : Text) where
  stop-Keeps :
      (from s : DestinationState) (error : Option FlowError) (j : MemoryJournal)
      → current j id ≡ some from
      → can_transition from s ≡ true
      → Keeps id j (stop w id s error j)
  unfolding stop
  stop-Keeps from s error j c m = record {
    legal = advance-IsLegal (w.clock s) j id s;
    others = λ k n. advance_other (w.clock s) j id k s n;
    recorded = λ r h n.
        ground
          (arith, current-advance (w.clock s) j id s (advance_legal (w.clock s) j id from s c m));
  }

  pub move-on :
      (s : DestinationState) (rest : MemoryJournal → Run) (j : MemoryJournal)
      → (advance (w.clock s) j id s).1 ≡ none
      → move w id s rest j ≡ rest (advance (w.clock s) j id s).0
  unfolding move advance_then
  move-on s rest j e = ground arith

  pub move-failed :
      (s : DestinationState) (rest : MemoryJournal → Run) (j : MemoryJournal) {x : FlowError}
      → (advance (w.clock s) j id s).1 ≡ some x
      → move w id s rest j ≡ ((advance (w.clock s) j id s).0, failed x)
  unfolding move advance_then
  move-failed s rest j e = ground arith

  move-Keeps :
      (s : DestinationState) (rest : MemoryJournal → Run) (j : MemoryJournal)
      → ((j' : MemoryJournal) → current j' id ≡ some s → Keeps id j' (rest j'))
      → Keeps id j (move w id s rest j)
  unfolding failed
  move-Keeps s rest j h = elim (Option-cases (advance (w.clock s) j id s).1) [
    | inl e ↦
        let j' = (advance (w.clock s) j id s).0 in
        let k = h j' (current-advance (w.clock s) j id s e) in
        rw (move-on s rest j e) (record {
          legal = λ l. k.legal (advance-IsLegal (w.clock s) j id s l);
          others = λ i n. k.others i n ∙ advance_other (w.clock s) j id i s n;
          recorded = k.recorded;
        })
    | inr (x, e) ↦ rw (move-failed s rest j e) (record {
      legal = advance-IsLegal (w.clock s) j id s;
      others = λ i n. advance_other (w.clock s) j id i s n;
      recorded = λ r h n. ground arith;
    })
  ]

  activate-Keeps :
      (j : MemoryJournal) → current j id ≡ some romm_matched → Keeps id j (activate w id j)
  unfolding finish activate move can_transition
  activate-Keeps j c = elim (Option-cases w.manifest) [
    | inl e ↦ rw (e, activate) on
    | inr (true, e) ↦ rw (e, activate) on
    | inr (false, e) ↦ rw (e, activate) (stop-Keeps romm_matched quarantined _ j c refl)
  ]
    where
      on : Keeps id j (move w id source_active (finish w id) j)
      on = move-Keeps source_active (finish w id) j (λ j' c'. reached-Keeps id j' source_active c')

  conclude-Keeps :
      (s : DestinationState) (j : MemoryJournal)
      → current j id ≡ some s
      → Keeps id j (conclude w id s j)
  unfolding conclude
  conclude-Keeps s j c = elim (Bool-cases (state_eq s romm_matched)) [
    | inl e ↦ rw (e, conclude) (activate-Keeps j (rw (state_eq→≡ s romm_matched e) at c))
    | inr e ↦ rw (e, conclude) (reached-Keeps id j s c)
  ]

  take_result-Keeps : (a : AwaitResult) (j : MemoryJournal) → Keeps id j (take_result w id a j)
  unfolding take_result move
  take_result-Keeps a j = elim (Option-cases a.error) [
    | inl e ↦ rw (e, take_result) on
    | inr (x, e) ↦ elim (Bool-cases (state_eq a.result.state (other []))) [
      | inl z ↦ rw (e, take_result, z) (failed-Keeps id j _)
      | inr z ↦ rw (e, take_result, z) on
    ]
  ]
    where
      on : Keeps id j (move w id a.result.state (conclude w id a.result.state) j)
      on =
          move-Keeps a.result.state (conclude w id a.result.state) j (conclude-Keeps a.result.state)

  module _ (expected : Expected) where
    watch-Keeps : (j : MemoryJournal) → Keeps id j (watch w id expected j)
    unfolding watch
    watch-Keeps j = elim (Option-cases (await w.library w.timeout expected w.started w.rounds)) [
      | inl e ↦
          rw (e, watch) (record { legal = λ l. l; others = λ k n. refl; recorded = λ r h n. cc })
      | inr (a, e) ↦ rw (e, watch) (take_result-Keeps a j)
    ]

    wait-Keeps : (j : MemoryJournal) → Keeps id j (wait w id expected j)
    unfolding wait
    wait-Keeps j =
        move-Keeps awaiting_romm_ingestion (watch w id expected) j (λ j' c. watch-Keeps j')

    uploaded-Keeps :
        (s : DestinationState) (sent : Bool)
        → s ≡ uploading_to_romm
        → (j : MemoryJournal) → current j id ≡ some s
        → Keeps id j (uploaded w id expected sent j)
    unfolding uploaded can_transition
    uploaded-Keeps s true e j c = wait-Keeps j
    uploaded-Keeps s false e j c = stop-Keeps s verification_conflict _ j c (rw e refl)

    hand_over-Keeps :
        (mode : DestinationMode) (s : DestinationState) (j : MemoryJournal)
        → hand_off_state mode ≡ some s
        → current j id ≡ some verified_in_staging
        → Keeps id j (hand_over w id expected mode s j)
    unfolding hand_off_state hand_over move can_transition
    hand_over-Keeps api_only s j h c = elim (Option-cases w.uploader) [
      | inl e ↦ rw (e, hand_over) (failed-Keeps id j _)
      | inr (true, e) ↦
          rw (e, hand_over)
            (move-Keeps s (uploaded w id expected true) j (uploaded-Keeps s true (ground arith)))
      | inr (false, e) ↦
          rw (e, hand_over)
            (move-Keeps s (uploaded w id expected false) j (uploaded-Keeps s false (ground arith)))
    ]
    hand_over-Keeps filesystem_publication s j h c = elim (Option-cases w.publisher) [
      | inl e ↦ rw (e, hand_over) (failed-Keeps id j _)
      | inr (true, e) ↦
          rw (e, hand_over) (move-Keeps s (wait w id expected) j (λ j' c'. wait-Keeps j'))
      | inr (false, e) ↦ rw (e, hand_over) (stop-Keeps verified_in_staging cancelled _ j c refl)
    ]
    hand_over-Keeps (other_mode m) s j h c = cc

    verified-Keeps :
        (mode : DestinationMode) (j : MemoryJournal)
        → current j id ≡ some verified_in_staging
        → Keeps id j (verified w id expected mode j)
    unfolding verified
    verified-Keeps mode j c = elim (Option-cases (hand_off_state mode)) [
      | inl e ↦ rw (e, verified) (failed-Keeps id j _)
      | inr (s, e) ↦ rw (e, verified) (hand_over-Keeps mode s j e c)
    ]

    stage_payload-Keeps :
        (mode : DestinationMode) (j : MemoryJournal)
        → current j id ≡ some receiving
        → Keeps id j (stage_payload w id expected mode j)
    unfolding stage_payload can_transition
    stage_payload-Keeps mode j c = ground (
      arith,
      stop-Keeps receiving cancelled none j c refl,
      stop-Keeps receiving verification_conflict none j c refl,
      move-Keeps verified_in_staging (verified w id expected mode) j (verified-Keeps mode),
    )

    receive-Keeps :
        (mode : DestinationMode) (j : MemoryJournal) → Keeps id j (receive w id expected mode j)
    unfolding receive
    receive-Keeps mode j = elim (Bool-cases (valid mode)) [
      | inr e ↦ rw (e, receive) (failed-Keeps id j _)
      | inl e ↦ elim (Option-cases (validate_expected expected)) [
        | inl v ↦
            rw (e, receive, v)
              (move-Keeps receiving (stage_payload w id expected mode) j (stage_payload-Keeps mode))
        | inr (x, v) ↦ rw (e, receive, v) (failed-Keeps id j _)
      ]
    ]

    pub receive-IsLegal :
        (mode : DestinationMode) (j : MemoryJournal)
        → IsLegal j
        → IsLegal (receive w id expected mode j).0
    receive-IsLegal mode j = (receive-Keeps mode j).legal

    -- `Receive`, whatever its collaborators answer, leaves every history of a legal journal
    -- a legal path from `receiving`, and the history of every other transfer as it was.
    pub receive_journals :
        (mode : DestinationMode) (j : MemoryJournal) (k : Text)
        → IsLegal j
        → id ≢ k
        → IsLegal (receive w id expected mode j).0
          × (history (receive w id expected mode j).0 k ≡ history j k)
    receive_journals mode j k l n = (receive-IsLegal mode j l, (receive-Keeps mode j).others k n)

    -- Where `Receive` returns a state other than the empty one, with an error or without,
    -- that state is the transfer's current one in the journal.
    pub receive_recorded :
        (mode : DestinationMode) (j : MemoryJournal) (r : Returned)
        → (receive w id expected mode j).1 ≡ some r
        → r.state ≢ other []
        → current (receive w id expected mode j).0 id ≡ some r.state
    receive_recorded mode j = (receive-Keeps mode j).recorded
