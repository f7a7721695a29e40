-- ===== src/Protocol/Manifest.antt =====
-- protocol/manifest.go: items, manifests and deltas, with their validation. SHA-256 is an argument,
-- a function from bytes to bytes.
use rom_m_swarm.Common.{
  ℕ, ◌+◌, ◌/◌, ◌%◌, Text, text_eq, ◌==◌, Bool, true, false, not, ◌&&◌, ◌||◌, Option, none, some,
  List, [], ◌∷◌, ◌++◌, get, put, contains, length, text_lt, sort_by, if◌then◌else◌,
}
use rom_m_swarm.Protocol.Ids.{
  IdError, Revision, is_zero, next, validate, prefix_swarm, prefix_alias, prefix_file,
  file_id_from_canonical_digest,
}
use rom_m_swarm.Protocol.Availability.{Availability}
use rom_m_swarm.Protocol.Destination.{DestinationState}
use rom_m_swarm.Protocol.Digest.{Digest}

pub data Classification : Type 0 where
  unmatched matched_unverified verified_excluded verified_eligible conflict : Classification
  other_class : Text → Classification

-- `Classification.Publishable`
unfoldable pub publishable : Classification → Bool
publishable verified_eligible = true
publishable _ = false

pub record ReferenceMatch : Type 0 where
  pub family : Text
  pub set_name : Text
  pub set_version : Text
  pub entry_name : Text
  pub canonical_key : Text
  pub strength : ℕ

pub record AdapterRef : Type 0 where
  pub id : Text
  pub version : Text

pub record ContainerMember : Type 0 where
  pub name : Text
  pub size : ℕ
  pub crc32 : Text

pub record ContainerInfo : Type 0 where
  pub kind : Text
  pub members : List ContainerMember

pub record Item : Type 0 where
  pub file_id : Text
  pub game_id : Text
  pub platform : Text
  pub stored : Digest
  pub container : Option ContainerInfo
  pub canonical : Digest
  pub adapter : AdapterRef
  pub classification : Classification
  pub reference : Option ReferenceMatch
  pub notes : List Text
  pub availability : Availability
  pub destination : DestinationState
  pub last_verified_at : ℕ

pub data ItemError : Type 0 where
  bad_file_id : IdError → ItemError
  missing_platform missing_sha256 id_mismatch missing_reference missing_adapter : ItemError

abbrev pub schema_version : ℕ
schema_version = 1

pub record Manifest : Type 0 where
  pub schema : ℕ
  pub swarm : Text
  pub alias : Text
  pub revision : Revision
  pub generated_at : ℕ
  pub items : List Item
  pub fingerprints : List (Text × Text)

pub data ManifestError : Type 0 where
  bad_schema zero_revision duplicate_file not_publishable : ManifestError
  bad_swarm bad_alias : IdError → ManifestError
  bad_item : ItemError → ManifestError

unfoldable pub is_none {ℓ} : {A : Type ℓ} → Option A → Bool
is_none none = true
is_none (some a) = false

abbrev or_nil : Option (List Text) → List Text
or_nil none = []
or_nil (some ids) = ids

module _ (sha256 : Text → Text) where
  -- The error of `Item.Validate`, `none` for nil.
  unfoldable pub validate_item : Item → Option ItemError
  unfolding is_none
  validate_item i = elim (validate prefix_file i.file_id) [
    | some e ↦ some (bad_file_id e)
    | none ↦
        if text_eq i.platform []
        then some missing_platform
        else if text_eq i.canonical.sha256 []
        then some missing_sha256
        else if not (text_eq (file_id_from_canonical_digest sha256 i.canonical.sha256) i.file_id)
        then some id_mismatch
        else if publishable i.classification && is_none i.reference
        then some missing_reference
        else if text_eq i.adapter.id [] || text_eq i.adapter.version []
        then some missing_adapter
        else none
  ]

  -- The loop of `Manifest.Validate`, with the set of the file ids seen.
  unfoldable pub validate_items : List Text → List Item → Option ManifestError
  validate_items seen [] = none
  validate_items seen (i ∷ is) =
      let rest = validate_items (i.file_id ∷ seen) is in
      elim (validate_item i) [
        | some e ↦ some (bad_item e)
        | none ↦
            if contains i.file_id seen
            then some duplicate_file
            else if not (publishable i.classification)
            then some not_publishable
            else rest
      ]

  unfoldable pub validate_manifest : Manifest → Option ManifestError
  validate_manifest m =
      if not (m.schema == schema_version)
      then some bad_schema
      else elim (validate prefix_swarm m.swarm) [
        | some e ↦ some (bad_swarm e)
        | none ↦ elim (validate prefix_alias m.alias) [
          | some e ↦ some (bad_alias e)
          | none ↦ if is_zero m.revision then some zero_revision else validate_items [] m.items
        ]
      ]

  -- The file ids of each platform, in the order of the items.
  unfoldable pub group : List Item → List (Text × List Text) → List (Text × List Text)
  group [] m = m
  group (i ∷ is) m = group is (put i.platform (or_nil (get i.platform m) ++ i.file_id ∷ []) m)

  hex_digit : ℕ → ℕ
  hex_digit n =
      if n == 10
      then b'a'
      else if n == 11
      then b'b'
      else if n == 12
      then b'c'
      else if n == 13
      then b'd'
      else if n == 14
      then b'e'
      else if n == 15
      then b'f'
      else n + b'0'

  hex : Text → Text
  unfolding hex_digit
  hex [] = []
  hex (b ∷ bs) = hex_digit (b / 16) ∷ hex_digit (b % 16) ∷ hex bs

  -- What the hasher is given: each id and a zero byte.
  joined : List Text → Text
  joined [] = []
  joined (id ∷ ids) = id ++ 0 ∷ joined ids

  unfoldable pub fingerprint_all : List (Text × List Text) → List (Text × Text)
  unfolding hex joined
  fingerprint_all [] = []
  fingerprint_all ((p, ids) ∷ m) =
      (p, hex (sha256 (joined (sort_by text_lt ids)))) ∷ fingerprint_all m

  unfoldable pub compute_fingerprints : Manifest → Manifest
  unfolding group fingerprint_all
  compute_fingerprints m = record m { fingerprints = fingerprint_all (group m.items []) }

pub data DeltaOp : Type 0 where
  add update tombstone : DeltaOp
  other_op : Text → DeltaOp

pub record DeltaEntry : Type 0 where
  pub op : DeltaOp
  pub file_id : Text
  pub item : Option Item

pub record Delta : Type 0 where
  pub schema : ℕ
  pub swarm : Text
  pub alias : Text
  pub from_revision : Revision
  pub to_revision : Revision
  pub entries : List DeltaEntry
  pub emitted_at : ℕ

pub data DeltaError : Type 0 where
  wrong_schema wrong_revision no_entries item_absent item_present entry_not_publishable : DeltaError
  unknown_op : DeltaError
  wrong_swarm wrong_alias wrong_file_id : IdError → DeltaError
  wrong_item : ItemError → DeltaError

module _ (sha256 : Text → Text) where
  -- The cases on the operation and the item of one entry.
  unfoldable pub validate_change : DeltaOp → Option Item → Option DeltaError
  validate_change (other_op s) i = some unknown_op
  validate_change tombstone none = none
  validate_change tombstone (some i) = some item_present
  validate_change _ none = some item_absent
  validate_change _ (some i) = elim (validate_item sha256 i) [
    | some e ↦ some (wrong_item e)
    | none ↦ if not (publishable i.classification) then some entry_not_publishable else none
  ]

  unfoldable pub validate_entries : List DeltaEntry → Option DeltaError
  validate_entries [] = none
  validate_entries (e ∷ es) =
      let rest = validate_entries es in
      elim (validate prefix_file e.file_id) [
        | some x ↦ some (wrong_file_id x)
        | none ↦ elim (validate_change e.op e.item) [ some x ↦ some x | none ↦ rest ]
      ]

  unfoldable pub validate_delta : Delta → Option DeltaError
  validate_delta d =
      if not (d.schema == schema_version)
      then some wrong_schema
      else elim (validate prefix_swarm d.swarm) [
        | some e ↦ some (wrong_swarm e)
        | none ↦ elim (validate prefix_alias d.alias) [
          | some e ↦ some (wrong_alias e)
          | none ↦
              if not (d.to_revision == next d.from_revision)
              then some wrong_revision
              else if length d.entries == 0
              then some no_entries
              else validate_entries d.entries
        ]
      ]
