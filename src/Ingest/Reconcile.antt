-- ===== src/Ingest/Reconcile.antt =====
-- bridge/ingest/reconcile.go: the wait until the local RomM reports the expected item.
-- The messages of a result are left out. The library and the clock are what the rounds of the loop
-- see of them: one `Round` for each turn of the loop.
pub mod Evidence
use rom_m_swarm.Common.{
  ℕ, ◌+◌, Text, text_eq, ltb, Bool, true, false, not, ◌&&◌, Option, none, some, List, [], ◌∷◌,
  if◌then◌else◌,
}
use rom_m_swarm.Protocol.Ids.{IdError, validate, prefix_file}
use rom_m_swarm.Protocol.Digest.{Digest, compare, strength_strong}
use rom_m_swarm.Protocol.Destination.{
  DestinationState, romm_matched, romm_unmatched, ingestion_timeout, default_ingestion_timeout,
  other,
}
use rom_m_swarm.Protocol.Manifest.{ReferenceMatch}

pub record Expected : Type 0 where
  pub platform : Text
  pub file_id : Text
  pub canonical : Digest
  pub reference : Option ReferenceMatch

pub data ExpectedError : Type 0 where
  no_platform no_digest : ExpectedError
  bad_file : IdError → ExpectedError

-- The error of `Expected.Validate`, `none` for nil.
unfoldable pub validate_expected : Expected → Option ExpectedError
validate_expected e =
    if text_eq e.platform []
    then some no_platform
    else if text_eq e.canonical.sha256 []
    then some no_digest
    else elim (validate prefix_file e.file_id) [ some x ↦ some (bad_file x) | none ↦ none ]

pub record Observation : Type 0 where
  pub present : Bool
  pub platform : Text
  pub canonical : Digest
  pub name : Text

-- The first two results of `classify` on an agreement: whether it is compatible and strong.
unfoldable pub agrees_strongly : ℕ × Bool → Bool
agrees_strongly (strength, ok) = ok && not (ltb strength strength_strong)

-- `none` where `classify` has not decided.
unfoldable pub classify : Expected → Observation → Option DestinationState
classify expected obs =
    if text_eq obs.canonical.sha256 []
    then none
    else if not (agrees_strongly (compare obs.canonical expected.canonical))
    then some romm_unmatched
    else if not (text_eq obs.platform []) && not (text_eq obs.platform expected.platform)
    then some romm_unmatched
    else some romm_matched

-- A turn of the loop: what `Observe` answers, `none` for an error; the clock where an error is
-- held against the deadline, where the deadline is tested, and where a result is made; and whether
-- the context is done before the poll interval is over.
pub record Round : Type 0 where
  pub answer : Option Observation
  pub after_error : ℕ
  pub at_test : ℕ
  pub at_end : ℕ
  pub cancels : Bool

-- `Elapsed` is `ended` less `started`.
pub record Waited : Type 0 where
  pub state : DestinationState
  pub attempts : ℕ
  pub started : ℕ
  pub ended : ℕ

pub data AwaitError : Type 0 where
  bad_expectation : ExpectedError → AwaitError
  no_library context_done : AwaitError

-- The two values that `Await` returns.
pub record AwaitResult : Type 0 where
  pub result : Waited
  pub error : Option AwaitError

unfoldable pub ends : DestinationState → Option AwaitError → ℕ → ℕ → Round → AwaitResult
ends state error attempts started r = record {
  result = record { state = state; attempts = attempts; started = started; ended = r.at_end };
  error = error;
}

-- What the observation of a turn settles: an error past the deadline, or a decision.
unfoldable pub settles : Expected → ℕ → Round → Option DestinationState
settles expected deadline r = elim r.answer [
  | none ↦ if ltb deadline r.after_error then some ingestion_timeout else none
  | some obs ↦ if obs.present then classify expected obs else none
]

-- The loop, from a number of attempts made; `none` while it still waits after the rounds given.
unfoldable pub await_rounds : Expected → ℕ → ℕ → ℕ → List Round → Option AwaitResult
await_rounds expected started deadline attempts [] = none
await_rounds expected started deadline attempts (r ∷ rs) =
    let rest = await_rounds expected started deadline (attempts + 1) rs in
    elim (settles expected deadline r) [
      | some s ↦ some (ends s none (attempts + 1) started r)
      | none ↦
          if not (ltb r.at_test deadline)
          then some (ends ingestion_timeout none (attempts + 1) started r)
          else if r.cancels
          then some (ends ingestion_timeout (some context_done) (attempts + 1) started r)
          else rest
    ]

unfoldable pub effective_timeout : ℕ → ℕ
effective_timeout t = if ltb 0 t then t else default_ingestion_timeout

-- The zero `Result`.
unfoldable pub no_result : Option AwaitError → AwaitResult
no_result e = record {
  result = record { state = other []; attempts = 0; started = 0; ended = 0 };
  error = e;
}

-- `library` says whether one was configured; `started` is the first reading of the clock.
unfoldable pub await : Bool → ℕ → Expected → ℕ → List Round → Option AwaitResult
await library timeout expected started rounds = elim (validate_expected expected) [
  | some e ↦ some (no_result (some (bad_expectation e)))
  | none ↦
      if not library
      then some (no_result (some no_library))
      else await_rounds expected started (started + effective_timeout timeout) 0 rounds
]
