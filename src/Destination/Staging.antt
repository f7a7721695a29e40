-- ===== src/Destination/Staging.antt =====
-- bridge/destination/staging.go: the directory that downloads land in. The path of a staged file is
-- its name in this directory.
pub mod Cleanup
use rom_m_swarm.Common.{
  ℕ, zero, suc, ◌+◌, ◌-◌, ◌*◌, ◌^◌, ◌%◌, Text, codes, text_eq, ◌==◌, ltb, leb, Bool, true, false,
  not, ◌&&◌, ◌||◌, List, [], ◌∷◌, ◌++◌, Option, none, some, length, drop, get, put, remove,
  trim_space, ℤ, pos, negsuc, lt_int, wrap_int64, is_suffix, if◌then◌else◌,
}
use rom_m_swarm.Protocol.Digest.{Digest, compare, strength_none, strength_strong}
use rom_m_swarm.Destination.{Files, Os}

abbrev pub part_suffix : Text
part_suffix = codes ".part"

-- In nanoseconds.
abbrev pub default_abandoned_after : ℕ
default_abandoned_after = 48 * 3600 * 1000000000

abbrev pub space_headroom : ℕ
space_headroom = 2

-- The name of a transfer's file in the staging directory.
unfoldable pub path_for : Text → Text
path_for id = id ++ part_suffix

pub data StagingError : Type 0 where
  insufficient_space no_free_space : StagingError
  cannot_open cannot_write cannot_flush cannot_remove cannot_read : StagingError
  mismatch too_weak : StagingError

-- An int64 product: `expectedSize * SpaceHeadroom`.
unfoldable pub space_needed : ℕ → ℤ
space_needed size = wrap_int64 (size * space_headroom)

-- `free` is what `freeSpace` reports, `none` for its error; a size below 0 is no hypothesis of a
-- caller, and 0 is unknown.
unfoldable pub check_space : Option ℕ → ℕ → Option StagingError
check_space free size = if size == 0 then none else elim free [
  | none ↦ some no_free_space
  | some n ↦ if lt_int (pos n) (space_needed size) then some insufficient_space else none
]

-- What reading the source came to: all of it, or what was copied before an error.
pub record Source : Type 0 where
  pub bytes : Text
  pub is_whole : Bool

pub data Received : Type 0 where
  received_bytes : ℕ → Received
  not_received : ℕ → StagingError → Received

-- `O_TRUNC` empties a file that is there, so a transfer starts from nothing.
unfoldable pub receive_file : Os → Text → Source → Files → Received × Files
receive_file os id src fs =
    if not (os.opens (path_for id))
    then (not_received 0 cannot_open, fs)
    else if not src.is_whole
    then (not_received (length src.bytes) cannot_write, put (path_for id) src.bytes fs)
    else if not os.syncs
    then (not_received (length src.bytes) cannot_flush, put (path_for id) src.bytes fs)
    else (received_bytes (length src.bytes), put (path_for id) src.bytes fs)

-- A file that is not there is no error.
unfoldable pub abandon : Os → Text → Files → Option StagingError × Files
abandon os id fs = elim (get (path_for id) fs) [
  | none ↦ (none, fs)
  | some bytes ↦
      if not (os.removes (path_for id))
      then (some cannot_remove, fs)
      else (none, remove (path_for id) fs)
]

-- The check of a digest: strong agreement, and nothing that disagrees.
abbrev pub accept : ℕ × Bool → Option StagingError
accept (strength, ok) =
    if not ok then some mismatch else if ltb strength strength_strong then some too_weak else none

-- `Verify`, with the digest that it computed.
abbrev pub verify_bytes : Os → Text → Digest → Option Text → Option Digest × Option StagingError
verify_bytes os path expected none = (none, some cannot_open)
verify_bytes os path expected (some bytes) =
    if not (os.opens path)
    then (none, some cannot_open)
    else (some (os.digest bytes), accept (compare (os.digest bytes) expected))

unfoldable pub verify_staged : Os → Text → Digest → Files → Option Digest × Option StagingError
verify_staged os id expected fs = verify_bytes os (path_for id) expected (get (path_for id) fs)

-- One entry of the staging directory: its name, whether it is a directory, and the time of its last
-- change, `none` where `Info` fails.
pub record DirEntry : Type 0 where
  pub name : Text
  pub is_dir : Bool
  pub mod_time : Option ℕ

-- The number of files removed and the first error.
pub record Cleaned : Type 0 where
  pub removed : ℕ
  pub first_error : Option StagingError

abbrev pub first_of : Option StagingError → StagingError → Option StagingError
first_of none e = some e
first_of (some d) e = some d

abbrev pub failed_entry : StagingError → Cleaned × Files → Cleaned × Files
failed_entry e (done, fs) = (record done { first_error = first_of done.first_error e }, fs)

-- The age of a file, 0 where the change lies in the future.
abbrev pub is_recent : ℕ → ℕ → ℕ → Bool
is_recent older_than now mod_time = ltb (now - mod_time) older_than

unfoldable pub clean_aged : Os → ℕ → ℕ → DirEntry → Option ℕ → Cleaned × Files → Cleaned × Files
clean_aged os older_than now e none (done, fs) = failed_entry cannot_read (done, fs)
clean_aged os older_than now e (some mod_time) (done, fs) =
    if is_recent older_than now mod_time
    then (done, fs)
    else if not (os.removes e.name)
    then failed_entry cannot_remove (done, fs)
    else (record done { removed = suc done.removed }, remove e.name fs)

unfoldable pub clean_entry : Os → ℕ → ℕ → DirEntry → Cleaned × Files → Cleaned × Files
clean_entry os older_than now e (done, fs) =
    if e.is_dir || not (is_suffix part_suffix e.name)
    then (done, fs)
    else clean_aged os older_than now e e.mod_time (done, fs)

unfoldable pub clean_entries : Os → ℕ → ℕ → List DirEntry → Cleaned × Files → Cleaned × Files
clean_entries os older_than now [] c = c
clean_entries os older_than now (e ∷ es) c =
    clean_entries os older_than now es (clean_entry os older_than now e c)

-- `older_than` is 0 for the default; `entries` is `none` where the directory cannot be read.
unfoldable pub cleanup_abandoned : Os → ℕ → ℕ → Option (List DirEntry) → Files → Cleaned × Files
cleanup_abandoned os older_than now none fs =
    (record { removed = 0; first_error = some cannot_read }, fs)
cleanup_abandoned os older_than now (some entries) fs =
    let window = if older_than == 0 then default_abandoned_after else older_than in
    clean_entries os window now entries (record { removed = 0; first_error = none }, fs)
