-- ===== src/Protocol/Destination.antt =====
-- protocol/destination.go: the receiving side's destination state machine.
-- A state is a Go string; `other s` is any string that is not one of the twelve constants, the
-- empty string included. The map `transitions` is a function into lists, `none` off its keys.
pub mod Legal
pub mod Paths
use rom_m_swarm.Common.{
  ℕ, Text, text_eq, eq→≡, text_eq_refl, ◌≡◌, refl, ap, ◌==◌, Bool, true, false, not, Option, none,
  some, List, [], ◌∷◌, any, arith, if◌then◌else◌, length,
}

pub data DestinationState : Type 0 where
  receiving verified_in_staging uploading_to_romm published_to_filesystem : DestinationState
  awaiting_romm_ingestion romm_matched source_active : DestinationState
  cancelled verification_conflict romm_unmatched ingestion_timeout quarantined : DestinationState
  other : Text → DestinationState

pub data DestinationMode : Type 0 where
  api_only filesystem_publication : DestinationMode
  other_mode : Text → DestinationMode

unfoldable pub valid : DestinationMode → Bool
valid api_only = true
valid filesystem_publication = true
valid (other_mode s) = false

-- Equality of the strings: the constants are distinct.
index : DestinationState → ℕ
index receiving = 0
index verified_in_staging = 1
index uploading_to_romm = 2
index published_to_filesystem = 3
index awaiting_romm_ingestion = 4
index romm_matched = 5
index source_active = 6
index cancelled = 7
index verification_conflict = 8
index romm_unmatched = 9
index ingestion_timeout = 10
index quarantined = 11
index (other s) = 12

unfoldable pub state_eq : DestinationState → DestinationState → Bool
unfolding index
state_eq (other s) (other t) = text_eq s t
state_eq a b = index a == index b

pub state_eq→≡ : (a b : DestinationState) → state_eq a b ≡ true → a ≡ b
unfolding state_eq
state_eq→≡ (other s) (other t) h = ap other (eq→≡ s t h)
state_eq→≡ _ b h = ground arith

pub state_eq_refl : (a : DestinationState) → state_eq a a ≡ true
unfolding state_eq
state_eq_refl (other s) = text_eq_refl s
state_eq_refl receiving = refl
state_eq_refl _ = refl

unfoldable pub transitions : DestinationState → Option (List DestinationState)
transitions receiving = some (verified_in_staging ∷ verification_conflict ∷ cancelled ∷ [])
transitions verified_in_staging =
    some (uploading_to_romm ∷ published_to_filesystem ∷ cancelled ∷ [])
transitions uploading_to_romm = some (awaiting_romm_ingestion ∷ verification_conflict ∷ [])
transitions published_to_filesystem = some (awaiting_romm_ingestion ∷ [])
transitions awaiting_romm_ingestion = some (romm_matched ∷ romm_unmatched ∷ ingestion_timeout ∷ [])
transitions romm_matched = some (source_active ∷ [])
transitions (other s) = none
transitions _ = some []

unfoldable pub quarantinable_from : DestinationState → Bool
quarantinable_from receiving = true
quarantinable_from verified_in_staging = true
quarantinable_from uploading_to_romm = true
quarantinable_from published_to_filesystem = true
quarantinable_from awaiting_romm_ingestion = true
quarantinable_from romm_matched = true
quarantinable_from source_active = true
quarantinable_from _ = false

unfoldable pub known : DestinationState → Bool
unfolding transitions
known s = elim (transitions s) [ none ↦ false | some next ↦ true ]

unfoldable pub terminal : DestinationState → Bool
unfolding transitions
terminal s = elim (transitions s) [ none ↦ false | some next ↦ length next == 0 ]

unfoldable pub needs_review : DestinationState → Bool
needs_review verification_conflict = true
needs_review romm_unmatched = true
needs_review ingestion_timeout = true
needs_review quarantined = true
needs_review _ = false

unfoldable pub is_source : DestinationState → Bool
unfolding state_eq
is_source s = state_eq s source_active

unfoldable pub counts_toward_coverage : DestinationState → Bool
unfolding state_eq
counts_toward_coverage s = state_eq s source_active

-- Indexing a missing key of the map gives the nil slice.
unfoldable pub can_transition : DestinationState → DestinationState → Bool
unfolding state_eq transitions quarantinable_from
can_transition from to =
    if state_eq to quarantined then quarantinable_from from else elim (transitions from) [
      | none ↦ false
      | some next ↦ any (λ allowed. state_eq allowed to) next
    ]

pub data TransitionError : Type 0 where
  unknown_source unknown_target illegal_transition : TransitionError

-- The error of `Transition`, `none` for nil.
unfoldable pub transition : DestinationState → DestinationState → Option TransitionError
unfolding known can_transition
transition from to =
    if not (known from)
    then some unknown_source
    else if not (known to)
    then some unknown_target
    else if not (can_transition from to)
    then some illegal_transition
    else none

unfoldable pub hand_off_state : DestinationMode → Option DestinationState
hand_off_state api_only = some uploading_to_romm
hand_off_state filesystem_publication = some published_to_filesystem
hand_off_state (other_mode s) = none

-- time.Duration counts nanoseconds.
abbrev pub default_ingestion_timeout : ℕ
default_ingestion_timeout = 1800000000000

abbrev pub ingestion_poll_interval : ℕ
ingestion_poll_interval = 15000000000
