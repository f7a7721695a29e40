-- ===== src/Destination.antt =====
-- bridge/destination: the files that a transfer passes through. A file system is the contents of
-- its files under their paths. Of the operating system, an answer that the code cannot foresee is
-- an argument.
pub mod Paths
pub mod Staging
pub mod Publisher
pub mod Preflight
use rom_m_swarm.Common.{ℕ, Text, Bool, List, Option}
use rom_m_swarm.Protocol.Digest.{Digest}

abbrev pub Files : Type 0
Files = List (Text × Text)

-- What `EvalSymlinks` answers.
pub data Resolution : Type 0 where
  resolved_to : Text → Resolution
  not_there : Resolution
  not_resolved : Resolution

pub record Os : Type 0 where
  -- The hashes and the length of some bytes, as `DigestReader` and the hasher give them.
  pub digest : Text → Digest
  pub absolute : Text → Option Text
  pub eval_symlinks : Text → Resolution
  pub makes_dir : Text → Bool
  -- `Lstat` fails for another reason than that nothing is there.
  pub fails_to_check : Text → Bool
  pub device_of : Text → Option ℕ
  pub opens : Text → Bool
  -- The name that `CreateTemp` chooses in a directory.
  pub creates_temp : Text → Option Text
  pub copies : Bool
  pub syncs : Bool
  pub closes : Bool
  pub changes_mode : Bool
  pub links : Bool
  pub opens_dir : Text → Bool
  pub removes : Text → Bool
  -- What other processes do to the files between the check of the destination and the link.
  pub meanwhile : Files → Files
