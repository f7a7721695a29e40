-- ===== src/Verify.antt =====
-- verify/adapter.go and verify/analyze.go: what an analysis of a file says, adapters and the choice
-- among them.
pub mod Genesis
pub mod Registry
use rom_m_swarm.Common.{ℕ, Text, Bool, List, Option}
use rom_m_swarm.Protocol.Digest.{Digest}
use rom_m_swarm.Protocol.Manifest.{ContainerInfo, AdapterRef}

-- Confidence: the constants count up from `ConfidenceNone`.
abbrev pub Confidence : Type 0
Confidence = ℕ

abbrev pub confidence_none : Confidence
confidence_none = 0

abbrev pub confidence_weak : Confidence
confidence_weak = 1

abbrev pub confidence_strong : Confidence
confidence_strong = 2

pub record Result : Type 0 where
  pub name : Text
  pub platform : Text
  pub stored : Digest
  pub container : Option ContainerInfo
  pub canonical : Digest
  pub adapter : AdapterRef
  pub confidence : Confidence
  pub canonicalized : Bool
  pub notes : List Text
