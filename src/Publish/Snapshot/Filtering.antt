-- ===== src/Publish/Snapshot/Filtering.antt =====
-- What a snapshot holds: the permitted holdings, one for each file, and nothing else.
use rom_m_swarm.Common.{
  ℕ, Text, text_eq, text_eq_iff, text_eq_refl, ◌≡◌, refl, Bool, true, false, not, ◌&&◌, none, List,
  [], ◌∷◌, contains, any, All, All-weaken, arith, if◌then◌else◌, Bool-cases, inl, inr, ap, ◌∙◌, sym,
  by_key, has_key, distinct_keys, ascending, any-sort_by, All-sort_by, sort_by-ascending, In,
}
use rom_m_swarm.Protocol.Ids.{next}
use rom_m_swarm.Protocol.Manifest.{Item, Manifest, compute_fingerprints, validate_manifest}
use rom_m_swarm.Publish.Policy.{Policy, permits, ok, Membership, validate_membership}
use rom_m_swarm.Publish.Snapshot.{select, selected, snapshot, built, checked, file_key, is_empty}

select-permits :
    (p : Policy) (seen : List Text) (h : List Item)
    → All (λ i. permits p i ≡ true) (select p seen h)
unfolding select
select-permits p seen [] = tt
select-permits p seen (i ∷ is) =
    ground (arith, select-permits p seen is, select-permits p (i.file_id ∷ seen) is)

-- A holding is offered if the policy permits it and it has this id.
abbrev pub offers : Policy → Text → Item → Bool
offers p k i = permits p i && text_eq i.file_id k

has_key-select :
    (p : Policy) (seen : List Text) (h : List Item) (k : Text)
    → has_key file_key k (select p seen h) ≡ (not (contains k seen) && any (offers p k) h)
unfolding select contains
has_key-select p seen [] k = ground arith
has_key-select p seen (i ∷ is) k = ground (
  arith,
  has_key-select p seen is k,
  has_key-select p (i.file_id ∷ seen) is k,
  text_eq_iff i.file_id k,
)

distinct_keys-select :
    (p : Policy) (seen : List Text) (h : List Item)
    → distinct_keys file_key (select p seen h) ≡ true
unfolding select contains
distinct_keys-select p seen [] = refl
distinct_keys-select p seen (i ∷ is) = ground (
  arith,
  distinct_keys-select p seen is,
  distinct_keys-select p (i.file_id ∷ seen) is,
  has_key-select p (i.file_id ∷ seen) is i.file_id,
  text_eq_refl i.file_id,
)

select-In : (p : Policy) (seen : List Text) (h : List Item) → All (λ i. In i h) (select p seen h)
unfolding select
select-In p seen [] = tt
select-In p seen (i ∷ is) =
    let wider = λ (xs : List Item) (a : All (λ j. In j is) xs).
      All-weaken (λ j. In j is) (λ j. In j (i ∷ is)) xs (λ j m. inr m) a in
    elim (Bool-cases (permits p i)) [
      | inl e ↦ elim (Bool-cases (contains i.file_id seen)) [
        | inl c ↦ rw (e, c) (wider (select p seen is) (select-In p seen is))
        | inr c ↦
            rw (e, c)
              (inl refl, wider (select p (i.file_id ∷ seen) is) (select-In p (i.file_id ∷ seen) is))
      ]
      | inr e ↦ rw e (wider (select p seen is) (select-In p seen is))
    ]

module _ (sha256 : Text → Text) where
  -- A snapshot that is made is the manifest of the selected holdings, and passes its validation.
  pub record Made (m : Membership) (h : List Item) (now : ℕ) (man : Manifest) : Type 0 where
    pub member : validate_membership m ≡ none
    pub non_empty : is_empty (select m.policy [] h) ≡ false
    pub is_built : man ≡ built sha256 m (selected m.policy h) now
    pub is_valid : validate_manifest sha256 man ≡ none

  pub snapshot-Made :
      (m : Membership) (h : List Item) (now : ℕ) (man : Manifest)
      → snapshot sha256 m h now ≡ ok man
      → Made m h now man
  unfolding snapshot checked
  snapshot-Made m h now man e = record {
    member = ground arith;
    non_empty = ground arith;
    is_built = ground arith;
    is_valid = ground arith;
  }

  -- What a snapshot says: every item is permitted by the policy and is one of the holdings; a file
  -- is listed exactly if some permitted holding has it, and once, in the order of the ids; the
  -- revision is the next one, and swarm and alias are the membership's.
  pub record Says (m : Membership) (h : List Item) (man : Manifest) : Type 0 where
    pub permitted : All (λ i. permits m.policy i ≡ true) man.items
    pub held : All (λ i. In i h) man.items
    pub listed : (k : Text) → has_key file_key k man.items ≡ any (offers m.policy k) h
    pub in_order : ascending file_key man.items ≡ true
    pub revision_is : man.revision ≡ next m.revision
    pub swarm_is : man.swarm ≡ m.swarm
    pub alias_is : man.alias ≡ m.alias

  pub built_items : (m : Membership) (is : List Item) (now : ℕ) → (built sha256 m is now).items ≡ is
  unfolding built compute_fingerprints
  built_items m is now = refl

  -- Where `Snapshot` succeeds, every item of the manifest is permitted by the policy and is
  -- one of the holdings; a file is listed exactly if a permitted holding has it; the items are
  -- in strictly ascending order of their file ids; the revision is the next one, and the swarm
  -- and the alias are the membership's.
  pub snapshot-Says :
      (m : Membership) (h : List Item) (now : ℕ) (man : Manifest)
      → snapshot sha256 m h now ≡ ok man
      → Says m h man
  unfolding built compute_fingerprints selected contains
  snapshot-Says m h now man e =
      let d = snapshot-Made m h now man e in
      rw d.is_built (record {
        permitted =
            All-sort_by (by_key file_key) (λ i. permits m.policy i ≡ true) (select m.policy [] h)
              (select-permits m.policy [] h);
        held =
            All-sort_by (by_key file_key) (λ i. In i h) (select m.policy [] h)
              (select-In m.policy [] h);
        listed = λ k.
            any-sort_by (by_key file_key) (λ i. text_eq i.file_id k) (select m.policy [] h)
            ∙ has_key-select m.policy [] h k;
        in_order =
            sort_by-ascending file_key (select m.policy [] h) (distinct_keys-select m.policy [] h);
        revision_is = refl;
        swarm_is = refl;
        alias_is = refl;
      })

-- The holdings that the policy permits.
abbrev pub visible : Policy → List Item → List Item
visible p [] = []
visible p (i ∷ is) = if permits p i then i ∷ visible p is else visible p is

select-visible :
    (p : Policy) (seen : List Text) (h : List Item) → select p seen (visible p h) ≡ select p seen h
unfolding select
select-visible p seen [] = refl
select-visible p seen (i ∷ is) = elim (Bool-cases (permits p i)) [
  | inl e ↦ rw (e, e, select-visible p seen is, select-visible p (i.file_id ∷ seen) is)
  | inr e ↦ rw (e, select-visible p seen is)
]

-- Two lists of holdings that agree on what the policy permits have the same snapshot, its
-- fingerprints and its errors included.
pub snapshot_hidden :
    (sha256 : Text → Text) (m : Membership) (h g : List Item) (now : ℕ)
    → visible m.policy h ≡ visible m.policy g
    → snapshot sha256 m h now ≡ snapshot sha256 m g now
unfolding snapshot selected
snapshot_hidden sha256 m h g now e =
    let same : select m.policy [] h ≡ select m.policy [] g =
      sym (select-visible m.policy [] h)
      ∙ ap (select m.policy []) e
      ∙ select-visible m.policy [] g in
    ground (arith, same)
