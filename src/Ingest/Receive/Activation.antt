-- ===== src/Ingest/Receive/Activation.antt =====
-- What an activation rests on, and when the flow comes to one.
use rom_m_swarm.Common.{
  ◌+◌, Text, ◌≡◌, ◌≢◌, ◌⊎◌, Bool, true, false, none, some, List, [], ◌∷◌, last?, arith,
  Option-cases, Bool-cases, inl, inr, ◌∙◌, ap,
}
use rom_m_swarm.Protocol.Destination.{
  DestinationState, DestinationMode, api_only, filesystem_publication, other_mode, receiving,
  verified_in_staging, awaiting_romm_ingestion, uploading_to_romm, published_to_filesystem,
  romm_matched, source_active, state_eq, state_eq→≡, hand_off_state,
}
use rom_m_swarm.Protocol.Destination.Paths.{follows, end_of, after_hand_off, activation_paths}
use rom_m_swarm.Ingest.Reconcile.{
  Expected, AwaitResult, await, validate_expected, effective_timeout,
}
use rom_m_swarm.Ingest.Reconcile.Evidence.{MatchedIn, await_matched, await_not_active}
use rom_m_swarm.Ingest.Flow.{Transition, MemoryJournal, history, current, advance}
use rom_m_swarm.Ingest.Flow.Journal.{IsLegal, is_legal, states_of}
use rom_m_swarm.Ingest.Receive.{
  Answers, Returned, Run, failed, reached, stop, move, activate, conclude, take_result, watch, wait,
  uploaded, hand_over, verified, stage_payload, receive,
}
use rom_m_swarm.Ingest.Receive.Recorded.{move-on, move-failed, receive-IsLegal, receive_recorded}

-- Where a part of the flow ends in an active source, `E` holds.
abbrev pub Needs {ℓ} : Run → Type ℓ → Type ℓ
Needs run E = (r : Returned) → run.1 ≡ some r → r.state ≡ source_active → E

module _ (w : Answers) (id : Text) where
  move-Needs {ℓ} :
      {E : Type ℓ} (s : DestinationState) (rest : MemoryJournal → Run) (j : MemoryJournal)
      → ((j' : MemoryJournal) → Needs (rest j') E)
      → Needs (move w id s rest j) E
  unfolding failed
  move-Needs s rest j h r e a = elim (Option-cases (advance (w.clock s) j id s).1) [
    | inl o ↦ h (advance (w.clock s) j id s).0 r (rw (move-on w id s rest j o) at e) a
    | inr (x, o) ↦ absurd (let f = rw (move-failed w id s rest j o) at e in ground arith)
  ]

  activate-Needs : (j : MemoryJournal) → Needs (activate w id j) (w.manifest ≢ some false)
  unfolding activate stop
  activate-Needs j r e a m = ground arith

  conclude-Needs :
      (s : DestinationState) (j : MemoryJournal)
      → s ≢ source_active
      → Needs (conclude w id s j) ((s ≡ romm_matched) × (w.manifest ≢ some false))
  unfolding conclude reached
  conclude-Needs s j n r e a = elim (Bool-cases (state_eq s romm_matched)) [
    | inl m ↦ (state_eq→≡ s romm_matched m, activate-Needs j r (rw m at e) a)
    | inr m ↦ ground arith
  ]

  take_result-Needs :
      (a : AwaitResult) (j : MemoryJournal)
      → a.result.state ≢ source_active
      → Needs (take_result w id a j) ((a.result.state ≡ romm_matched) × (w.manifest ≢ some false))
  unfolding take_result failed
  take_result-Needs a j n r e s =
      let k =
        move-Needs a.result.state (conclude w id a.result.state) j
          (λ j'. conclude-Needs a.result.state j' n) r in
      ground (arith, k)

  module _ (expected : Expected) where
    -- What an activation rests on, from the wait on.
    record Watched : Type 0 where
      outcome : AwaitResult
      awaited : await w.library w.timeout expected w.started w.rounds ≡ some outcome
      is_matched : outcome.result.state ≡ romm_matched
      not_refused : w.manifest ≢ some false

    watch-Needs : (j : MemoryJournal) → Needs (watch w id expected j) Watched
    unfolding watch
    watch-Needs j r e s =
        elim (Option-cases (await w.library w.timeout expected w.started w.rounds)) [
          | inl o ↦ ground arith
          | inr (a, o) ↦
              let n = await_not_active w.library w.timeout expected w.started w.rounds a o in
              let k = take_result-Needs a j n r (rw (o, watch) at e) s in
              record { outcome = a; awaited = o; is_matched = k.0; not_refused = k.1 }
        ]

    wait-Needs : (j : MemoryJournal) → Needs (wait w id expected j) Watched
    unfolding wait
    wait-Needs j = move-Needs awaiting_romm_ingestion (watch w id expected) j watch-Needs

    uploaded-Needs :
        (sent : Bool) (j : MemoryJournal) → Needs (uploaded w id expected sent j) Watched
    unfolding uploaded stop
    uploaded-Needs true j r e s = wait-Needs j r e s
    uploaded-Needs false j r e s = absurd (ground arith)

    hand_over-Needs :
        (mode : DestinationMode) (s : DestinationState) (j : MemoryJournal)
        → Needs (hand_over w id expected mode s j) Watched
    unfolding hand_over failed stop
    hand_over-Needs api_only s j r e a = elim (Option-cases w.uploader) [
      | inl o ↦ absurd (ground arith)
      | inr (sent, o) ↦
          move-Needs s (uploaded w id expected sent) j (uploaded-Needs sent) r (ground arith) a
    ]
    hand_over-Needs filesystem_publication s j r e a = elim (Option-cases w.publisher) [
      | inl o ↦ absurd (ground arith)
      | inr (true, o) ↦ move-Needs s (wait w id expected) j wait-Needs r (ground arith) a
      | inr (false, o) ↦ absurd (ground arith)
    ]
    hand_over-Needs (other_mode m) s j r e a = wait-Needs j r e a

    verified-Needs :
        (mode : DestinationMode) (j : MemoryJournal) → Needs (verified w id expected mode j) Watched
    unfolding verified failed
    verified-Needs mode j r e a = elim (Option-cases (hand_off_state mode)) [
      | inl o ↦ absurd (ground arith)
      | inr (s, o) ↦ hand_over-Needs mode s j r (rw (o, verified) at e) a
    ]

    stage_payload-Needs :
        (mode : DestinationMode) (j : MemoryJournal)
        → Needs
            (stage_payload w id expected mode j)
            ((w.verifies expected.canonical ≡ true) × Watched)
    unfolding stage_payload stop
    stage_payload-Needs mode j r e a =
        let k =
          move-Needs verified_in_staging (verified w id expected mode) j (verified-Needs mode) r in
        elim (Bool-cases (w.verifies expected.canonical)) [
          | inl v ↦ (v, k (ground arith) a)
          | inr v ↦ absurd (ground arith)
        ]

    receive-Needs :
        (mode : DestinationMode) (j : MemoryJournal)
        → Needs
            (receive w id expected mode j)
            ((validate_expected expected ≡ none) × (w.verifies expected.canonical ≡ true) × Watched)
    unfolding receive failed
    receive-Needs mode j r e a =
        let k =
          move-Needs receiving (stage_payload w id expected mode) j (stage_payload-Needs mode) r in
        elim (Option-cases (validate_expected expected)) [
          | inl v ↦ let (p, q) = k (ground arith) a in (v, p, q)
          | inr (x, v) ↦ absurd (ground arith)
        ]

    -- What the journal and the collaborators say of a transfer that became an active source.
    pub record Activated (run : Run) : Type 0 where
      pub valid_expectation : validate_expected expected ≡ none
      pub payload_verified : w.verifies expected.canonical ≡ true
      pub outcome : AwaitResult
      pub matched :
          MatchedIn expected (w.started + effective_timeout w.timeout) 0 w.rounds outcome.result
      pub republished : w.manifest ≢ some false
      pub path :
          (states_of (history run.0 id)
            ≡ receiving ∷ verified_in_staging ∷ uploading_to_romm ∷ after_hand_off)
          ⊎ (states_of (history run.0 id)
              ≡ receiving ∷ verified_in_staging ∷ published_to_filesystem ∷ after_hand_off)

    last-end_of :
        (t x : Transition) (ts : List Transition)
        → last? (t ∷ ts) ≡ some x
        → end_of t.to (states_of ts) ≡ x.to
    unfolding states_of
    last-end_of t x [] h = ground arith
    last-end_of t x (u ∷ us) h = last-end_of u x us h

    active_path :
        (h : List Transition) (x : Transition)
        → is_legal h ≡ true
        → last? h ≡ some x
        → x.to ≡ source_active
        → (states_of h ≡ receiving ∷ verified_in_staging ∷ uploading_to_romm ∷ after_hand_off)
          ⊎ (states_of h
              ≡ receiving ∷ verified_in_staging ∷ published_to_filesystem ∷ after_hand_off)
    unfolding is_legal states_of
    active_path [] x l e a = cc
    active_path (t ∷ ts) x l e a =
        let s = state_eq→≡ t.to receiving (ground arith) in
        let f : follows receiving (states_of ts) ≡ true = ground arith in
        let z : end_of receiving (states_of ts) ≡ source_active =
          rw s at (last-end_of t x ts e ∙ a) in
        ground (arith, activation_paths (states_of ts) f z)

    recorded_path :
        (j : MemoryJournal)
        → is_legal (history j id) ≡ true
        → current j id ≡ some source_active
        → (states_of (history j id)
            ≡ receiving ∷ verified_in_staging ∷ uploading_to_romm ∷ after_hand_off)
          ⊎ (states_of (history j id)
              ≡ receiving ∷ verified_in_staging ∷ published_to_filesystem ∷ after_hand_off)
    unfolding current
    recorded_path j l c = elim (Option-cases (last? (history j id))) [
      | inl e ↦ absurd (ground arith)
      | inr (x, e) ↦ active_path (history j id) x l e (ground arith)
    ]

    -- Where `Receive`, on a journal whose histories are legal, returns `source_active`, the
    -- expectation was valid, the staged payload was verified against it, a turn of the wait
    -- observed an item that is present, agrees strongly with the expected digest and is
    -- filed under no platform or the expected one, no turn before it settled the wait,
    -- republication was not refused, and the recorded states are the API-only or the
    -- filesystem path.
    pub receive_activates :
        (mode : DestinationMode) (j : MemoryJournal) (r : Returned)
        → IsLegal j
        → (receive w id expected mode j).1 ≡ some r
        → r.state ≡ source_active
        → Activated (receive w id expected mode j)
    receive_activates mode j r l e a =
        let n = receive-Needs mode j r e a in
        let c = receive_recorded w id expected mode j r e (λ z. ground arith) in
        let s = receive-IsLegal w id expected mode j l in
        record {
          valid_expectation = n.0;
          payload_verified = n.1;
          outcome = n.2.outcome;
          matched =
              await_matched w.library w.timeout expected w.started w.rounds n.2.outcome n.2.awaited
                n.2.is_matched;
          republished = n.2.not_refused;
          path = recorded_path (receive w id expected mode j).0 (s id) (c ∙ ap some a);
        }
