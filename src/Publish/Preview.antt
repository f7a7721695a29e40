-- ===== src/Publish/Preview.antt =====
-- bridge/publish/publish.go: `PreviewPolicy`.
pub mod Totals
use rom_m_swarm.Common.{
  ℕ, suc, ◌+◌, ℤ, pos, add_int64, Text, codes, text_eq, text_lt, ltb, ◌==◌, Bool, true, false, not,
  ◌&&◌, ◌||◌, Option, none, some, List, [], ◌∷◌, ◌++◌, get, put, contains, length, sort_by, by_key,
  any, if◌then◌else◌,
}
use rom_m_swarm.Protocol.Ids.{IdError, Revision, next, validate, prefix_swarm, prefix_alias}
use rom_m_swarm.Protocol.Availability.{Availability}
use rom_m_swarm.Protocol.Availability
use rom_m_swarm.Protocol.Manifest.{
  Item, Manifest, ManifestError, Delta, DeltaEntry, DeltaError, DeltaOp, add, update, tombstone,
  other_op, ReferenceMatch, publishable, schema_version, compute_fingerprints, validate_manifest,
  validate_delta,
}
use rom_m_swarm.Publish.Policy.{
  Policy, permits, Error, bad_swarm, bad_alias, shares_nothing, wrong_policy, nothing_to_publish,
  bad_manifest, bad_delta, Result, ok, err, Membership, validate_membership, validate_policy,
}

pub data Reason : Type 0 where
  not_verified excluded_individually platform_excluded too_large platform_not_shared : Reason

unfoldable pub withheld_reason : Policy → Item → Reason
withheld_reason p i =
    if not (publishable i.classification)
    then not_verified
    else if contains i.file_id p.excluded_files
    then excluded_individually
    else if contains i.platform p.excluded_platforms
    then platform_excluded
    else if ltb 0 p.max_item_bytes && ltb p.max_item_bytes i.canonical.size
    then too_large
    else platform_not_shared

-- `withheld_reasons` is a map from five constant strings, as a function.
pub record Preview : Type 0 where
  pub swarm : Text
  pub published : ℕ
  pub withheld : ℕ
  pub published_bytes : ℤ
  pub by_platform : List (Text × ℕ)
  pub withheld_reasons : Reason → ℕ

-- m[k]++
abbrev pub or_zero : Option ℕ → ℕ
or_zero none = 0
or_zero (some n) = n

reason_eq : Reason → Reason → Bool
reason_eq not_verified not_verified = true
reason_eq excluded_individually excluded_individually = true
reason_eq platform_excluded platform_excluded = true
reason_eq too_large too_large = true
reason_eq platform_not_shared platform_not_shared = true
reason_eq _ _ = false

unfoldable pub preview_item : Policy → Item → Preview → Preview
unfolding reason_eq
preview_item p i v =
    if permits p i
    then record v {
      published = v.published + 1;
      published_bytes = add_int64 v.published_bytes i.canonical.size;
      by_platform = put i.platform (or_zero (get i.platform v.by_platform) + 1) v.by_platform;
    }
    else record v {
      withheld = v.withheld + 1;
      withheld_reasons = λ r.
          if reason_eq (withheld_reason p i) r
          then v.withheld_reasons r + 1
          else v.withheld_reasons r;
    }

unfoldable pub preview_from : Policy → List Item → Preview → Preview
preview_from p [] v = v
preview_from p (i ∷ is) v = preview_from p is (preview_item p i v)

unfoldable pub blank_preview : Policy → Preview
blank_preview p = record {
  swarm = p.swarm;
  published = 0;
  withheld = 0;
  published_bytes = pos 0;
  by_platform = [];
  withheld_reasons = λ r. 0;
}

unfoldable pub preview_policy : Policy → List Item → Preview
preview_policy p holdings = preview_from p holdings (blank_preview p)
