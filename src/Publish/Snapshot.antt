-- ===== src/Publish/Snapshot.antt =====
-- bridge/publish/publish.go: `Snapshot`.
pub mod Filtering
use rom_m_swarm.Common.{
  ℕ, suc, ◌+◌, Text, codes, text_eq, text_lt, ltb, ◌==◌, Bool, true, false, not, ◌&&◌, ◌||◌, Option,
  none, some, List, [], ◌∷◌, ◌++◌, get, put, contains, length, sort_by, by_key, any, if◌then◌else◌,
}
use rom_m_swarm.Protocol.Ids.{IdError, Revision, next, validate, prefix_swarm, prefix_alias}
use rom_m_swarm.Protocol.Availability.{Availability}
use rom_m_swarm.Protocol.Availability
use rom_m_swarm.Protocol.Manifest.{
  Item, Manifest, ManifestError, Delta, DeltaEntry, DeltaError, DeltaOp, add, update, tombstone,
  other_op, ReferenceMatch, publishable, schema_version, compute_fingerprints, validate_manifest,
  validate_delta,
}
use rom_m_swarm.Publish.Policy.{
  Policy, permits, Error, bad_swarm, bad_alias, shares_nothing, wrong_policy, nothing_to_publish,
  bad_manifest, bad_delta, Result, ok, err, Membership, validate_membership, validate_policy,
}

-- The loop of `Snapshot`, with the set of the file ids seen.
unfoldable pub select : Policy → List Text → List Item → List Item
select p seen [] = []
select p seen (i ∷ is) =
    let skip = select p seen is in
    let keep = select p (i.file_id ∷ seen) is in
    if not (permits p i) then skip else if contains i.file_id seen then skip else i ∷ keep

abbrev pub file_key : Item → Text
file_key i = i.file_id

unfoldable pub selected : Policy → List Item → List Item
selected p holdings = sort_by (by_key file_key) (select p [] holdings)

unfoldable pub is_empty {ℓ} : {A : Type ℓ} → List A → Bool
is_empty [] = true
is_empty (x ∷ xs) = false

module _ (sha256 : Text → Text) where
  -- The literal of `Snapshot`, with its fingerprints.
  unfoldable pub built : Membership → List Item → ℕ → Manifest
  built m items now = compute_fingerprints sha256 (record {
    schema = schema_version;
    swarm = m.swarm;
    alias = m.alias;
    revision = next m.revision;
    generated_at = now;
    items = items;
    fingerprints = [];
  })

  unfoldable pub checked : Manifest → Result Manifest
  checked man = elim (validate_manifest sha256 man) [
    | some e ↦ err (bad_manifest e)
    | none ↦ ok man
  ]

  -- `now` is the argument `at`.
  unfoldable pub snapshot : Membership → List Item → ℕ → Result Manifest
  unfolding is_empty
  snapshot m holdings now = elim (validate_membership m) [
    | some e ↦ err e
    | none ↦
        let items = selected m.policy holdings in
        if is_empty (select m.policy [] holdings)
        then err nothing_to_publish
        else checked (built m items now)
  ]
