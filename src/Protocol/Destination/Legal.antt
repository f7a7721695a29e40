-- ===== src/Protocol/Destination/Legal.antt =====
-- Which moves of the destination machine are legal.
use rom_m_swarm.Common.{ℕ, ◌<◌, ◌≤◌, ◌≡◌, ◌↔◌, true, none, arith}
use rom_m_swarm.Protocol.Destination.{
  DestinationState, receiving, verified_in_staging, uploading_to_romm, published_to_filesystem,
  awaiting_romm_ingestion, romm_matched, source_active, quarantined, other, can_transition,
  transition, terminal,
}

-- `Transition` returns no error exactly where `CanTransition` holds: its tests for unknown
-- states refuse no legal move.
pub transition-can_transition :
    (from to : DestinationState) → (transition from to ≡ none) ↔ (can_transition from to ≡ true)
unfolding transition
transition-can_transition from to = (λ h. ground arith, λ h. ground arith)

-- A legal move out of a state that `Terminal` accepts is the one from `source_active` to
-- `quarantined`.
pub terminal_moves :
    (s t : DestinationState)
    → terminal s ≡ true
    → can_transition s t ≡ true
    → (s ≡ source_active) × (t ≡ quarantined)
unfolding terminal can_transition
terminal_moves s t h k = ground arith

-- A move into `source_active` is legal exactly from `romm_matched`.
pub into_source_active :
    (s : DestinationState) → (can_transition s source_active ≡ true) ↔ (s ≡ romm_matched)
unfolding can_transition
into_source_active s = (λ h. ground arith, λ h. ground arith)

-- Steps from the start, the review and terminal states last.
unfoldable pub stage : DestinationState → ℕ
stage receiving = 0
stage verified_in_staging = 1
stage uploading_to_romm = 2
stage published_to_filesystem = 2
stage awaiting_romm_ingestion = 3
stage romm_matched = 4
stage source_active = 5
stage (other s) = 7
stage _ = 6

pub stage-can_transition : (s t : DestinationState) → can_transition s t ≡ true → stage s < stage t
unfolding can_transition stage
stage-can_transition s t h = ground arith

pub stage-le : (s : DestinationState) → stage s ≤ 7
unfolding stage
stage-le s = ground arith

pub to_known : (s t : DestinationState) → can_transition s t ≡ true → stage t ≤ 6
unfolding can_transition stage
to_known s t h = ground arith
