-- ===== src/Protocol/Destination/Paths.antt =====
-- The paths through the destination machine: a transfer's history is the list of its states.
use rom_m_swarm.Common.{
  ◌+◌, ◌≤◌, ◌≡◌, ◌≢◌, refl, ap, ◌⊎◌, Bool, true, ◌&&◌, some, List, [], ◌∷◌, length, arith,
}
use rom_m_swarm.Protocol.Destination.{
  DestinationState, DestinationMode, hand_off_state, receiving, verified_in_staging,
  uploading_to_romm, published_to_filesystem, awaiting_romm_ingestion, romm_matched, source_active,
  cancelled, can_transition,
}
use rom_m_swarm.Protocol.Destination.Legal.{stage, stage-can_transition, stage-le}

-- The states `ts` follow `s` one after the other, each by a legal move.
unfoldable pub follows : DestinationState → List DestinationState → Bool
follows s [] = true
follows s (t ∷ ts) = can_transition s t && follows t ts

-- The last state of a path from `s`.
abbrev pub end_of : DestinationState → List DestinationState → DestinationState
end_of s [] = s
end_of s (t ∷ ts) = end_of t ts

-- A sequence of legal moves is no longer than 7 less the stage of the state it starts from,
-- where the stage is at most 7.
pub length-follows :
    (s : DestinationState) (ts : List DestinationState)
    → follows s ts ≡ true
    → length ts + stage s ≤ 7
unfolding follows
length-follows s [] h = omega (arith, stage-le s)
length-follows s (t ∷ ts) h = ground (arith, stage-can_transition s t, length-follows t ts)

stage_mono :
    (s : DestinationState) (ts : List DestinationState)
    → follows s ts ≡ true
    → stage s ≤ stage (end_of s ts)
unfolding follows
stage_mono s [] h = omega arith
stage_mono s (t ∷ ts) h = ground (arith, stage-can_transition s t, stage_mono t ts)

-- A path to `source_active`, taken backwards from its end.
abbrev Activates : DestinationState → List DestinationState → Type 0
Activates s ts = (follows s ts ≡ true) × (end_of s ts ≡ source_active)

from_active : (ts : List DestinationState) → Activates source_active ts → ts ≡ []
unfolding follows stage
from_active [] h = refl
from_active (t ∷ ts) h =
    ground (arith, stage-can_transition source_active t, stage_mono t ts, ap stage h.1)

from_matched : (ts : List DestinationState) → Activates romm_matched ts → ts ≡ source_active ∷ []
unfolding follows can_transition stage
from_matched [] h = cc
from_matched (t ∷ ts) h = ground (arith, from_active ts, stage_mono t ts, ap stage h.1)

from_awaiting :
    (ts : List DestinationState)
    → Activates awaiting_romm_ingestion ts
    → ts ≡ romm_matched ∷ source_active ∷ []
unfolding follows can_transition stage
from_awaiting [] h = cc
from_awaiting (t ∷ ts) h = ground (arith, from_matched ts, stage_mono t ts, ap stage h.1)

-- What follows the hand-off on the way to activation.
abbrev pub after_hand_off : List DestinationState
after_hand_off = awaiting_romm_ingestion ∷ romm_matched ∷ source_active ∷ []

from_uploading : (ts : List DestinationState) → Activates uploading_to_romm ts → ts ≡ after_hand_off
unfolding follows can_transition stage
from_uploading [] h = cc
from_uploading (t ∷ ts) h = ground (arith, from_awaiting ts, stage_mono t ts, ap stage h.1)

from_published :
    (ts : List DestinationState) → Activates published_to_filesystem ts → ts ≡ after_hand_off
unfolding follows can_transition stage
from_published [] h = cc
from_published (t ∷ ts) h = ground (arith, from_awaiting ts, stage_mono t ts, ap stage h.1)

from_verified :
    (ts : List DestinationState)
    → Activates verified_in_staging ts
    → (ts ≡ uploading_to_romm ∷ after_hand_off) ⊎ (ts ≡ published_to_filesystem ∷ after_hand_off)
unfolding follows can_transition stage
from_verified [] h = cc
from_verified (t ∷ ts) h =
    ground (arith, from_uploading ts, from_published ts, stage_mono t ts, ap stage h.1)

-- A sequence of legal moves from `receiving` that ends in `source_active` is the API-only path
-- or the filesystem path, state by state: `verified_in_staging`, then one of the two hand-off
-- states, then `awaiting_romm_ingestion`, `romm_matched` and `source_active`.
pub activation_paths :
    (ts : List DestinationState)
    → follows receiving ts ≡ true
    → end_of receiving ts ≡ source_active
    → (ts ≡ verified_in_staging ∷ uploading_to_romm ∷ after_hand_off)
      ⊎ (ts ≡ verified_in_staging ∷ published_to_filesystem ∷ after_hand_off)
unfolding follows can_transition stage
activation_paths [] h e = cc
activation_paths (t ∷ ts) h e = ground (arith, from_verified ts, stage_mono t ts, ap stage e)

late :
    (s : DestinationState) (ts : List DestinationState)
    → 2 ≤ stage s
    → s ≢ cancelled
    → follows s ts ≡ true
    → end_of s ts ≢ cancelled
unfolding follows can_transition stage
late s [] h n f e = n e
late s (t ∷ ts) h n f e =
    late t ts (ground (arith, stage-can_transition s t)) (ground arith) (ground arith) e

-- No sequence of legal moves that starts at the hand-off state of a destination mode ends in
-- `cancelled`.
pub no_cancel_after_hand_off :
    (mode : DestinationMode) (s : DestinationState) (ts : List DestinationState)
    → hand_off_state mode ≡ some s
    → follows s ts ≡ true
    → end_of s ts ≢ cancelled
unfolding hand_off_state stage
no_cancel_after_hand_off mode s ts h f = late s ts (ground arith) (ground arith) f
