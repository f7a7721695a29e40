-- ===== src/Tests/Ingest.antt =====
-- The receiving flow at concrete inputs.
use rom_m_swarm.Common.{
  ◌+◌, ◌≤◌, Text, codes, text_eq, text_eq_iff, ◌≡◌, ◌≢◌, refl, true, false, none, some, [], ◌∷◌,
  get, put, length, arith,
}
use rom_m_swarm.Protocol.Ids.{validate, lower_byte, upper_byte}
use rom_m_swarm.Protocol.Digest.{Digest, compare, cmp, cmp_then, normalized}
use rom_m_swarm.Protocol.Destination.{
  filesystem_publication, receiving, romm_matched, source_active, other, state_eq, valid,
  transition, known, can_transition, hand_off_state,
}
use rom_m_swarm.Protocol.Destination.Paths.{follows}
use rom_m_swarm.Ingest.Reconcile.{
  Expected, Round, AwaitResult, await, await_rounds, settles, classify, agrees_strongly, ends,
  effective_timeout, validate_expected,
}
use rom_m_swarm.Ingest.Reconcile.Evidence.{MatchedIn, await_matched, await_deadline}
use rom_m_swarm.Ingest.Flow.{
  Transition, MemoryJournal, history, current, append, advance, start_of, own_test,
}
use rom_m_swarm.Ingest.Flow.Journal.{IsLegal, is_legal, states_of, append-IsLegal}
use rom_m_swarm.Ingest.Receive.{
  Answers, receive, stage_payload, verified, hand_over, wait, watch, take_result, conclude,
  activate, finish, move, advance_then, reached,
}
use rom_m_swarm.Ingest.Receive.Recorded.{receive_journals, receive_recorded}
use rom_m_swarm.Ingest.Receive.Success.{Cooperates, receive_succeeds}
use rom_m_swarm.Ingest.Receive.Activation.{Activated, receive_activates}

apart : (x y : Text) → text_eq x y ≡ false → x ≢ y
apart x y h e = ground (arith, text_eq_iff x y)

abbrev digest : Digest
digest = record { size = 8; crc32 = []; md5 = []; sha1 = []; sha256 = codes "00ff" }

abbrev expected : Expected
expected = record {
  platform = codes "gb";
  file_id = codes "fil_00000000000000000000000000";
  canonical = digest;
  reference = none;
}

-- A turn before the library has the item, and one with it.
abbrev early : Round
early = record { answer = none; after_error = 20; at_test = 20; at_end = 20; cancels = false }

abbrev indexed : Round
indexed = record {
  answer = some (record { present = true; platform = []; canonical = digest; name = codes "x" });
  after_error = 30;
  at_test = 30;
  at_end = 31;
  cancels = false;
}

abbrev outcome : AwaitResult
outcome = record {
  result = record { state = romm_matched; attempts = 2; started = 10; ended = 31 };
  error = none;
}

await_run : await true 100 expected 10 (early ∷ indexed ∷ []) ≡ some outcome
unfolding await await_rounds settles classify agrees_strongly ends effective_timeout
    validate_expected compare cmp cmp_then normalized text_eq validate lower_byte upper_byte
await_run = refl

await_matched_example :
    MatchedIn expected (10 + effective_timeout 100) 0 (early ∷ indexed ∷ []) outcome.result
await_matched_example =
    await_matched true 100 expected 10 (early ∷ indexed ∷ []) outcome await_run refl

await_deadline_example :
    (a : AwaitResult) × (await true 5 expected 10 (early ∷ indexed ∷ []) ≡ some a)
    × (a.result.attempts ≤ length (early ∷ indexed ∷ []))
unfolding effective_timeout
await_deadline_example = await_deadline true 5 expected 10 (early ∷ indexed ∷ []) refl

abbrev answers : Answers
answers = record {
  has_space = λ n. true;
  stages = true;
  verifies = λ d. true;
  uploader = none;
  publisher = some true;
  library = true;
  timeout = 100;
  started = 10;
  rounds = early ∷ indexed ∷ [];
  manifest = some true;
  clock = λ s. 7;
}

abbrev transfer : Text
transfer = codes "t"

abbrev empty_journal : MemoryJournal
empty_journal = []

empty_IsLegal : IsLegal empty_journal
unfolding history get is_legal
empty_IsLegal id = refl

receive_run :
    (receive answers transfer expected filesystem_publication empty_journal).1
    ≡ some (record { state = source_active; error = none })
unfolding receive stage_payload verified hand_over wait watch take_result conclude activate finish
    move advance_then reached advance append start_of own_test history current get put await
    await_rounds settles classify agrees_strongly ends effective_timeout validate_expected compare
    cmp cmp_then normalized text_eq validate lower_byte upper_byte state_eq valid transition known
    can_transition hand_off_state
receive_run = refl

receive_activates_example :
    Activated answers transfer expected
      (receive answers transfer expected filesystem_publication empty_journal)
receive_activates_example =
    receive_activates answers transfer expected filesystem_publication empty_journal
      (record { state = source_active; error = none }) empty_IsLegal receive_run refl

receive_recorded_example :
    current (receive answers transfer expected filesystem_publication empty_journal).0 transfer
    ≡ some source_active
receive_recorded_example =
    receive_recorded answers transfer expected filesystem_publication empty_journal
      (record { state = source_active; error = none }) receive_run (λ e. ground (arith, e))

abbrev busy_journal : MemoryJournal
busy_journal = (codes "u", record { from = other []; to = receiving; time = 3 } ∷ []) ∷ []

busy_IsLegal : IsLegal busy_journal
unfolding history get is_legal follows states_of state_eq
busy_IsLegal id = ground arith

receive_journals_example :
    IsLegal (receive answers transfer expected filesystem_publication busy_journal).0
    × (history (receive answers transfer expected filesystem_publication busy_journal).0 (codes "u")
        ≡ history busy_journal (codes "u"))
unfolding text_eq
receive_journals_example =
    receive_journals answers transfer expected filesystem_publication busy_journal (codes "u")
      busy_IsLegal (apart transfer (codes "u") refl)

abbrev first_record : Transition
first_record = record { from = other []; to = receiving; time = 7 }

append-IsLegal_example : IsLegal (append empty_journal transfer first_record).0
append-IsLegal_example = append-IsLegal empty_journal transfer first_record empty_IsLegal

answers-Cooperates : Cooperates answers expected filesystem_publication
unfolding validate_expected text_eq validate lower_byte upper_byte
answers-Cooperates = record {
  complete = refl;
  space = refl;
  staged = refl;
  checked = refl;
  handed = refl;
  outcome = outcome;
  awaited = await_run;
  in_order = refl;
  is_matched = refl;
  not_refused = λ e. ground (arith, e);
}

unknown_transfer : current empty_journal transfer ≡ none
unfolding current history get
unknown_transfer = refl

receive_succeeds_example :
    (receive answers transfer expected filesystem_publication empty_journal).1
    ≡ some (record { state = source_active; error = none })
receive_succeeds_example =
    receive_succeeds answers transfer expected filesystem_publication answers-Cooperates
      empty_journal unknown_transfer
