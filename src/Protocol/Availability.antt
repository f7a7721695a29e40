-- ===== src/Protocol/Availability.antt =====
-- protocol/manifest.go: the Host's view of whether a source can serve.
use rom_m_swarm.Common.{Text, Bool, true, false}

pub data Availability : Type 0 where
  available offline stale removed : Availability
  other : Text → Availability

unfoldable pub counts_toward_resilience : Availability → Bool
counts_toward_resilience available = true
counts_toward_resilience _ = false

-- `r.Availability == AvailRemoved`
unfoldable pub is_removed : Availability → Bool
is_removed removed = true
is_removed _ = false
