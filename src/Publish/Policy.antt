-- ===== src/Publish/Policy.antt =====
-- bridge/publish/publish.go: sharing policies and memberships.
use rom_m_swarm.Common.{
  ℕ, Text, text_eq, ltb, ◌==◌, Bool, true, false, not, ◌&&◌, Option, none, some, List, contains,
  length, if◌then◌else◌,
}
use rom_m_swarm.Protocol.Ids.{IdError, Revision, validate, prefix_swarm, prefix_alias}
use rom_m_swarm.Protocol.Manifest.{Item, ManifestError, DeltaError, publishable}

pub record Policy : Type 0 where
  pub swarm : Text
  pub share_all : Bool
  pub platforms : List Text
  pub excluded_platforms : List Text
  pub excluded_files : List Text
  pub max_item_bytes : ℕ

unfoldable pub permits : Policy → Item → Bool
permits p i =
    if not (publishable i.classification)
    then false
    else if contains i.file_id p.excluded_files
    then false
    else if contains i.platform p.excluded_platforms
    then false
    else if ltb 0 p.max_item_bytes && ltb p.max_item_bytes i.canonical.size
    then false
    else if p.share_all
    then true
    else contains i.platform p.platforms

pub data Error : Type 0 where
  bad_swarm bad_alias : IdError → Error
  shares_nothing wrong_policy nothing_to_publish : Error
  bad_manifest : ManifestError → Error
  bad_delta : DeltaError → Error

pub data Result {ℓ} (A : Type ℓ) : Type ℓ where
  ok : A → Result A
  err : Error → Result A

unfoldable pub validate_policy : Policy → Option Error
validate_policy p = elim (validate prefix_swarm p.swarm) [
  | some e ↦ some (bad_swarm e)
  | none ↦ if not p.share_all && length p.platforms == 0 then some shares_nothing else none
]

pub record Membership : Type 0 where
  pub swarm : Text
  pub alias : Text
  pub policy : Policy
  pub revision : Revision

unfoldable pub validate_membership : Membership → Option Error
validate_membership m = elim (validate prefix_swarm m.swarm) [
  | some e ↦ some (bad_swarm e)
  | none ↦ elim (validate prefix_alias m.alias) [
    | some e ↦ some (bad_alias e)
    | none ↦
        if not (text_eq m.policy.swarm m.swarm) then some wrong_policy else validate_policy m.policy
  ]
]
