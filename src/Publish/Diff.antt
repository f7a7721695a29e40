-- ===== src/Publish/Diff.antt =====
-- bridge/publish/publish.go: `Diff`. Go walks its maps in any order; the entries are sorted after.
pub mod Changes
pub mod Rescan
use rom_m_swarm.Common.{
  ℕ, suc, ◌+◌, Text, codes, text_eq, text_lt, ltb, ◌==◌, Bool, true, false, not, ◌&&◌, ◌||◌, Option,
  none, some, List, [], ◌∷◌, ◌++◌, get, put, contains, length, sort_by, by_key, any, if◌then◌else◌,
}
use rom_m_swarm.Protocol.Ids.{IdError, Revision, next, validate, prefix_swarm, prefix_alias}
use rom_m_swarm.Protocol.Availability.{Availability}
use rom_m_swarm.Protocol.Availability
use rom_m_swarm.Protocol.Manifest.{
  Item, Manifest, ManifestError, Delta, DeltaEntry, DeltaError, DeltaOp, add, update, tombstone,
  other_op, ReferenceMatch, publishable, schema_version, compute_fingerprints, validate_manifest,
  validate_delta,
}
use rom_m_swarm.Publish.Policy.{
  Policy, permits, Error, bad_swarm, bad_alias, shares_nothing, wrong_policy, nothing_to_publish,
  bad_manifest, bad_delta, Result, ok, err, Membership, validate_membership, validate_policy,
}
use rom_m_swarm.Publish.Snapshot.{is_empty, snapshot, select, selected, built, checked, file_key}

-- A later item with the same id takes the place of an earlier one.
unfoldable pub index_from : List (Text × Item) → List Item → List (Text × Item)
index_from m [] = m
index_from m (i ∷ is) = index_from (put i.file_id i m) is

unfoldable pub index_by_file : List Item → List (Text × Item)
unfolding index_from
index_by_file is = index_from [] is

unfoldable pub match_eq : ReferenceMatch → ReferenceMatch → Bool
match_eq a b =
    text_eq a.family b.family
    && (text_eq a.set_name b.set_name
        && (text_eq a.set_version b.set_version
            && (text_eq a.entry_name b.entry_name
                && (text_eq a.canonical_key b.canonical_key && a.strength == b.strength))))

unfoldable pub reference_changed : Option ReferenceMatch → Option ReferenceMatch → Bool
reference_changed none none = false
reference_changed none (some b) = true
reference_changed (some a) none = true
reference_changed (some a) (some b) = not (match_eq a b)

unfoldable pub availability_eq : Availability → Availability → Bool
availability_eq Availability.available Availability.available = true
availability_eq Availability.offline Availability.offline = true
availability_eq Availability.stale Availability.stale = true
availability_eq Availability.removed Availability.removed = true
availability_eq (Availability.other s) (Availability.other t) = text_eq s t
availability_eq _ _ = false

unfoldable pub changed : Item → Item → Bool
changed before after =
    not (text_eq before.canonical.sha256 after.canonical.sha256)
    || (not (availability_eq before.availability after.availability)
        || (not (text_eq before.platform after.platform)
            || (not (
                  text_eq before.adapter.id after.adapter.id
                  && text_eq before.adapter.version after.adapter.version)
                || reference_changed before.reference after.reference)))

-- The loop over `after`, where an entry compares with what `before` holds.
unfoldable pub change_of : Text → Option Item → Item → List DeltaEntry
change_of id none i = record { op = add; file_id = id; item = some i } ∷ []
change_of id (some old) i =
    if changed old i then record { op = update; file_id = id; item = some i } ∷ [] else []

unfoldable pub changes : List (Text × Item) → List (Text × Item) → List DeltaEntry
changes before [] = []
changes before ((id, i) ∷ after) = change_of id (get id before) i ++ changes before after

-- The loop over `before`.
unfoldable pub removal_of : Text → Option Item → List DeltaEntry
removal_of id none = record { op = tombstone; file_id = id; item = none } ∷ []
removal_of id (some i) = []

unfoldable pub removals : List (Text × Item) → List (Text × Item) → List DeltaEntry
removals after [] = []
removals after ((id, i) ∷ before) = removal_of id (get id after) ++ removals after before

-- The operations are strings, and entries are ordered by them first.
abbrev pub op_text : DeltaOp → Text
op_text add = codes "add"
op_text update = codes "update"
op_text tombstone = codes "tombstone"
op_text (other_op s) = s

unfoldable pub entry_less : DeltaEntry → DeltaEntry → Bool
entry_less a b =
    if not (text_eq (op_text a.op) (op_text b.op))
    then text_lt (op_text a.op) (op_text b.op)
    else text_lt a.file_id b.file_id

unfoldable pub entries_between : List Item → List Item → List DeltaEntry
entries_between previous current =
    let before = index_by_file previous in
    let after = index_by_file current in changes before after ++ removals after before

module _ (sha256 : Text → Text) where
  -- `Diff` once the current items are known: nothing to tell is `ok none`.
  unfoldable pub diff_items : Manifest → Membership → List Item → ℕ → Result (Option Delta)
  unfolding is_empty
  diff_items previous m current now =
      let entries = entries_between previous.items current in
      let delta : Delta = record {
        schema = schema_version;
        swarm = m.swarm;
        alias = m.alias;
        from_revision = previous.revision;
        to_revision = next previous.revision;
        entries = sort_by entry_less entries;
        emitted_at = now;
      } in
      if is_empty entries then ok none else elim (validate_delta sha256 delta) [
        | some e ↦ err (bad_delta e)
        | none ↦ ok (some delta)
      ]

  -- A snapshot with nothing in it counts as a manifest with no items.
  unfoldable pub diff_from : Manifest → Membership → Result Manifest → ℕ → Result (Option Delta)
  diff_from previous m (ok current) now = diff_items previous m current.items now
  diff_from previous m (err nothing_to_publish) now = diff_items previous m [] now
  diff_from previous m (err e) now = err e

  unfoldable pub diff : Manifest → Membership → List Item → ℕ → Result (Option Delta)
  unfolding diff_from
  diff previous m holdings now = elim (validate_membership m) [
    | some e ↦ err e
    | none ↦
        diff_from previous m
          (snapshot sha256 (record m { revision = previous.revision }) holdings now) now
  ]
