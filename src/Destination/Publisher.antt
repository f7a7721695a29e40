-- ===== src/Destination/Publisher.antt =====
-- bridge/destination/publish.go: `Publish`, with `resolve` and the copy onto the library's own file
-- system. Paths of files are texts; a hard link is a second name with the same contents.
pub mod Safety
pub mod Contents
pub mod Verified
use rom_m_swarm.Common.{
  ℕ, Text, codes, text_eq, ◌==◌, ltb, Bool, true, false, not, ◌&&◌, ◌||◌, List, [], ◌∷◌, ◌++◌,
  Option, none, some, get, put, remove, split, trim_space, if◌then◌else◌,
}
use rom_m_swarm.Protocol.Digest.{Digest, compare}
use rom_m_swarm.Destination.{Files, Os, Resolution, resolved_to, not_there, not_resolved}
use rom_m_swarm.Destination.Paths.{
  Components, JoinError, joined_at, refused, Joined, safe_join, clean, parent,
}
use rom_m_swarm.Destination.Staging.{accept}

pub data PublishError : Type 0 where
  cannot_resolve cannot_make_dir destination_exists cannot_check no_device : PublishError
  cannot_open_staged cannot_create_temp cannot_copy cannot_flush_copy cannot_close_copy :
      PublishError
  copy_mismatch cannot_change_mode cannot_link cannot_flush_dir : PublishError
  bad_path : JoinError → PublishError

pub data Published : Type 0 where
  published_at : Text → Published
  not_published : PublishError → Published

abbrev pub components_of : Text → Components
components_of path = clean [] (split b'/' path)

abbrev pub render : Components → Text
render [] = []
render (c ∷ cs) = b'/' ∷ c ++ render cs

-- A path that is not there yet is taken as it stands.
abbrev pub taken_as : Text → Resolution → Option Text
taken_as abs (resolved_to path) = some path
taken_as abs not_there = some abs
taken_as abs not_resolved = none

abbrev pub resolve_absolute : Os → Option Text → Option Text
resolve_absolute os none = none
resolve_absolute os (some abs) = taken_as abs (os.eval_symlinks abs)

unfoldable pub resolve : Os → Text → Option Text
resolve os path =
    if text_eq (trim_space path) [] then none else resolve_absolute os (os.absolute path)

-- `os.Remove` whose error is not looked at.
unfoldable pub discard : Os → Text → Files → Files
discard os path fs = if os.removes path then remove path fs else fs

pub data Copied : Type 0 where
  copied_to : Text → Copied
  not_copied : PublishError → Copied

-- The copy once its temporary file is there: flushed, closed and verified again.
unfoldable pub finish_copy : Os → Text → Text → Digest → Files → Copied × Files
finish_copy os tmp bytes expected fs =
    let whole = put tmp bytes fs in
    if not os.copies
    then (not_copied cannot_copy, discard os tmp (put tmp [] fs))
    else if not os.syncs
    then (not_copied cannot_flush_copy, discard os tmp whole)
    else if not os.closes
    then (not_copied cannot_close_copy, discard os tmp whole)
    else elim (accept (compare (os.digest bytes) expected)) [
      | some e ↦ (not_copied copy_mismatch, discard os tmp whole)
      | none ↦
          if not os.changes_mode
          then (not_copied cannot_change_mode, discard os tmp whole)
          else (copied_to tmp, whole)
    ]

abbrev pub copy_bytes : Os → Option Text → Option Text → Digest → Files → Copied × Files
copy_bytes os none tmp expected fs = (not_copied cannot_open_staged, fs)
copy_bytes os (some bytes) none expected fs = (not_copied cannot_create_temp, fs)
copy_bytes os (some bytes) (some tmp) expected fs = finish_copy os tmp bytes expected fs

unfoldable pub copy_to_destination : Os → Text → Text → Digest → Files → Copied × Files
copy_to_destination os pub_dir staged expected fs =
    let opened = if os.opens staged then get staged fs else none in
    copy_bytes os opened (os.creates_temp pub_dir) expected fs

-- `os.Link`: a name that is taken is an error, as is a source that is not there.
abbrev pub link_bytes : Text → Option Text → Option Text → Files → Option PublishError × Files
link_bytes final source (some taken) fs = (some destination_exists, fs)
link_bytes final none none fs = (some cannot_link, fs)
link_bytes final (some bytes) none fs = (none, put final bytes fs)

unfoldable pub link_file : Os → Text → Text → Files → Option PublishError × Files
link_file os source final fs =
    if not os.links
    then (some cannot_link, fs)
    else link_bytes final (get source fs) (get final fs) fs

-- After the link: the directory is flushed; without a copy the staged name is removed.
abbrev pub after_link :
    Os → Text → Text → Text → Bool → Option PublishError × Files → Published × Files
after_link os staged final dir was_copied (some e, fs) = (not_published e, fs)
after_link os staged final dir was_copied (none, fs) =
    if not (os.opens_dir dir)
    then (not_published cannot_flush_dir, fs)
    else (published_at final, if was_copied then fs else discard os staged fs)

-- The deferred removal of the copy.
abbrev pub drop_copy : Os → Text → Published × Files → Published × Files
drop_copy os tmp (r, fs) = (r, discard os tmp fs)

abbrev pub link_copy : Os → Text → Text → Text → Copied × Files → Published × Files
link_copy os staged final dir (not_copied e, fs) = (not_published e, fs)
link_copy os staged final dir (copied_to tmp, fs) =
    drop_copy os tmp (after_link os staged final dir true (link_file os tmp final fs))

-- From the devices on. The other processes have acted since the check of the destination.
abbrev pub link_on_device :
    Os → Text → Text → Text → Text → Digest → Option ℕ → Option ℕ → Files → Published × Files
link_on_device os pub_dir staged final dir expected none dest_dev fs = (not_published no_device, fs)
link_on_device os pub_dir staged final dir expected (some a) none fs = (not_published no_device, fs)
link_on_device os pub_dir staged final dir expected (some a) (some b) fs =
    if not (a == b)
    then link_copy os staged final dir (copy_to_destination os pub_dir staged expected fs)
    else after_link os staged final dir false (link_file os staged final fs)

-- The check that nothing is at the destination, and what follows.
abbrev pub check_destination :
    Os → Text → Text → Text → Text → Digest → Option Text → Files → Published × Files
check_destination os pub_dir staged final dir expected (some taken) fs =
    (not_published destination_exists, fs)
check_destination os pub_dir staged final dir expected none fs =
    if os.fails_to_check final
    then (not_published cannot_check, fs)
    else link_on_device os pub_dir staged final dir expected (os.device_of staged)
        (os.device_of dir) (os.meanwhile fs)

abbrev pub publish_joined : Os → Text → Text → Digest → Joined → Files → Published × Files
publish_joined os pub_dir staged expected (refused e) fs = (not_published (bad_path e), fs)
publish_joined os pub_dir staged expected (joined_at path) fs =
    let final = render path in
    let dir = render (parent path) in
    if not (os.makes_dir dir)
    then (not_published cannot_make_dir, fs)
    else check_destination os pub_dir staged final dir expected (get final fs) fs

abbrev pub publish_in : Os → Option Text → Text → Text → Text → Digest → Files → Published × Files
publish_in os none pub_dir staged rel expected fs = (not_published cannot_resolve, fs)
publish_in os (some root) pub_dir staged rel expected fs =
    publish_joined os pub_dir staged expected (safe_join (components_of root) rel) fs

-- `Publish` for a configured library root and the publication staging directory of the report.
unfoldable pub publish : Os → Text → Text → Text → Text → Digest → Files → Published × Files
publish os library_root pub_dir staged rel expected fs =
    publish_in os (resolve os library_root) pub_dir staged rel expected fs
