-- ===== src/Publish/Diff/Rescan.antt =====
-- `Diff` as a whole: what its delta does, and when it has nothing to tell.
use rom_m_swarm.Common.{
  ℕ, Text, text_eq_iff, text_eq_refl, ◌≡◌, refl, true, false, Option, none, some, List, [], ◌∷◌,
  get, Unique, arith, Bool-cases, Option-cases, inl, inr, ap, ◌∙◌, sort_by,
}
use rom_m_swarm.Protocol.Availability.{Availability}
use rom_m_swarm.Protocol.Ids.{Revision, next, is_zero}
use rom_m_swarm.Protocol.Manifest.{
  Item, Manifest, ReferenceMatch, Delta, DeltaEntry, validate_manifest, compute_fingerprints,
}
use rom_m_swarm.Publish.Policy.{
  Result, ok, err, nothing_to_publish, Membership, validate_membership,
}
use rom_m_swarm.Publish.Snapshot.{snapshot, built, checked, selected, is_empty}
use rom_m_swarm.Publish.Snapshot.Filtering.{built_items, snapshot-Made}
use rom_m_swarm.Publish.Diff.{
  index_by_file, changed, availability_eq, reference_changed, match_eq, change_of, changes,
  removal_of, removals, entries_between, entry_less, diff, diff_from, diff_items,
}
use rom_m_swarm.Publish.Diff.Changes.{Index, apply, Agree, apply-entries, index-Unique}

-- The items that the Swarm is to know of: a snapshot with nothing in it stands for no items.
abbrev pub current_items : Result Manifest → Option (List Item)
current_items (ok man) = some man.items
current_items (err nothing_to_publish) = some []
current_items (err _) = none

-- What a reader of the outcome holds afterwards.
abbrev pub after_diff : Option Delta → Index → Index
after_diff none m = m
after_diff (some d) m = apply d.entries m

-- A delta goes from the previous revision to the next.
abbrev pub Advances : Manifest → Option Delta → Type 0
Advances previous none = Unit {0}
Advances previous (some d) =
    (d.from_revision ≡ previous.revision) × (d.to_revision ≡ next previous.revision)

module _ (sha256 : Text → Text) where
  -- A delta takes the reader from the previous revision's items to the items of the snapshot made
  -- now, file by file; without one, they are the same already. Its revisions are the previous one and the next.
  pub record Brings (previous : Manifest) (current : List Item) (out : Option Delta) : Type 0 where
    pub reaches :
        (k : Text)
        → Agree
            (get k (after_diff out (index_by_file previous.items)))
            (get k (index_by_file current))
    pub revisions : Advances previous out

  empty_sort : (es : List DeltaEntry) → is_empty es ≡ true → sort_by entry_less es ≡ []
  unfolding is_empty sort_by
  empty_sort [] h = refl
  empty_sort (e ∷ es) h = cc

  diff_items-Brings :
      (previous : Manifest) (m : Membership) (current : List Item) (now : ℕ) (out : Option Delta)
      → diff_items sha256 previous m current now ≡ ok out
      → Brings previous current out
  unfolding diff_items apply
  diff_items-Brings previous m current now out e =
      let es = entries_between previous.items current in
      let reach = apply-entries previous.items current in
      elim (Bool-cases (is_empty es)) [
        | inl z ↦
            let o : out ≡ none = ground arith in
            rw o (record { reaches = λ k. rw (empty_sort es z) at (reach k); revisions = tt })
        | inr z ↦ told out z e
      ]
    where
      told :
          (out : Option Delta)
          → is_empty (entries_between previous.items current) ≡ false
          → diff_items sha256 previous m current now ≡ ok out
          → Brings previous current out
      told none z e = ground arith
      told (some d) z e = record {
        reaches = λ k.
            let same : d.entries ≡ sort_by entry_less (entries_between previous.items current) =
              ground arith in
            rw same (apply-entries previous.items current k);
        revisions = ground arith;
      }

  diff_from-Brings :
      (previous : Manifest) (m : Membership) (s : Result Manifest) (now : ℕ) (out : Option Delta)
      → diff_from sha256 previous m s now ≡ ok out
      → (current : List Item) × (current_items s ≡ some current) × Brings previous current out
  unfolding diff_from
  diff_from-Brings previous m (ok man) now out e =
      (man.items, refl, diff_items-Brings previous m man.items now out e)
  diff_from-Brings previous m (err nothing_to_publish) now out e =
      ([], refl, diff_items-Brings previous m [] now out e)
  diff_from-Brings previous m (err _) now out e = cc

  -- Where `Diff` succeeds, the snapshot that it makes is made or is empty; its outcome,
  -- applied to the previous manifest's items, gives for each file the snapshot's item or one
  -- without a difference that `changed` sees; and the revisions of a delta are the previous
  -- one and the next.
  pub diff-Brings :
      (previous : Manifest) (m : Membership) (h : List Item) (now : ℕ) (out : Option Delta)
      → diff sha256 previous m h now ≡ ok out
      → (current : List Item) × (current_items
            (snapshot sha256 (record m { revision = previous.revision }) h now)
          ≡ some current)
        × Brings previous current out
  unfolding diff
  diff-Brings previous m h now out e = elim (Option-cases (validate_membership m)) [
    | inl v ↦ diff_from-Brings previous m _ now out (rw (v, diff) at e)
    | inr (x, v) ↦ ground arith
  ]

availability_eq_refl : (a : Availability) → availability_eq a a ≡ true
unfolding availability_eq
availability_eq_refl (Availability.other s) = text_eq_refl s
availability_eq_refl Availability.available = refl
availability_eq_refl _ = refl

reference_changed_self : (r : Option ReferenceMatch) → reference_changed r r ≡ false
unfolding reference_changed match_eq
reference_changed_self none = refl
reference_changed_self (some r) = ground (
  arith,
  text_eq_refl r.family,
  text_eq_refl r.set_name,
  text_eq_refl r.set_version,
  text_eq_refl r.entry_name,
  text_eq_refl r.canonical_key,
)

changed_self : (i : Item) → changed i i ≡ false
unfolding changed
changed_self i = ground (
  arith,
  text_eq_refl i.canonical.sha256,
  availability_eq_refl i.availability,
  text_eq_refl i.platform,
  text_eq_refl i.adapter.id,
  text_eq_refl i.adapter.version,
  reference_changed_self i.reference,
)

changes_self :
    (before after : Index)
    → ((k : Text) (i : Item) → get k after ≡ some i → get k before ≡ some i)
    → Unique after
    → changes before after ≡ []
unfolding changes change_of get
changes_self before [] h u = refl
changes_self before ((id, i) ∷ after) h u =
    let here : get id before ≡ some i = h id i (ground (arith, text_eq_refl id)) in
    let later = λ (k : Text) (j : Item) (e : get k after ≡ some j).
      let g : get k before ≡ some j = h k j (ground (arith, text_eq_iff id k, u.0)) in g in
    rw (here, changed_self i) (changes_self before after later u.1)

removals_self :
    (after before : Index)
    → ((k : Text) (i : Item) → get k before ≡ some i → get k after ≡ some i)
    → Unique before
    → removals after before ≡ []
unfolding removals removal_of get
removals_self after [] h u = refl
removals_self after ((id, i) ∷ before) h u =
    let here : get id after ≡ some i = h id i (ground (arith, text_eq_refl id)) in
    let later = λ (k : Text) (j : Item) (e : get k before ≡ some j).
      let g : get k after ≡ some j = h k j (ground (arith, text_eq_iff id k, u.0)) in g in
    rw here (removals_self after before later u.1)

entries_self : (is : List Item) → entries_between is is ≡ []
unfolding entries_between
entries_self is = rw (
  changes_self (index_by_file is) (index_by_file is) (λ k i e. e) (index-Unique is),
  removals_self (index_by_file is) (index_by_file is) (λ k i e. e) (index-Unique is),
)

-- The revision and the time are no part of what validation reads of a built manifest, but for a
-- revision of zero.
valid_again :
    (sha256 : Text → Text) (m : Membership) (is : List Item) (t1 t2 : ℕ) (r : Revision)
    → validate_manifest sha256 (built sha256 m is t1) ≡ none
    → is_zero (next r) ≡ false
    → validate_manifest sha256 (built sha256 (record m { revision = r }) is t2) ≡ none
unfolding validate_manifest built compute_fingerprints
valid_again sha256 m is t1 t2 r v z = ground arith

member_again :
    (m : Membership) (r : Revision)
    → validate_membership (record m { revision = r }) ≡ validate_membership m
unfolding validate_membership
member_again m r = refl

snapshot_again :
    (sha256 : Text → Text) (m : Membership) (h : List Item) (t1 t2 : ℕ) (man : Manifest)
    → snapshot sha256 m h t1 ≡ ok man
    → is_zero (next man.revision) ≡ false
    → snapshot sha256 (record m { revision = man.revision }) h t2
      ≡ ok (built sha256 (record m { revision = man.revision }) man.items t2)
unfolding snapshot checked
snapshot_again sha256 m h t1 t2 man e z =
    let d = snapshot-Made sha256 m h t1 man e in
    let s : man.items ≡ selected m.policy h =
      ap (λ (x : Manifest). x.items) d.is_built ∙ built_items sha256 m (selected m.policy h) t1 in
    let v : validate_manifest sha256 (built sha256 m (selected m.policy h) t1) ≡ none =
      rw d.is_built at d.is_valid in
    let w = valid_again sha256 m (selected m.policy h) t1 t2 man.revision v z in
    ground (arith, member_again m man.revision, d.member, d.non_empty, s, w)

-- Where a snapshot of some holdings was made and the revision after its own is not 0, `Diff` of
-- the same holdings against it, at any time, reports no change.
pub diff_rescan :
    (sha256 : Text → Text) (m : Membership) (h : List Item) (t1 t2 : ℕ) (man : Manifest)
    → snapshot sha256 m h t1 ≡ ok man
    → is_zero (next man.revision) ≡ false
    → diff sha256 man m h t2 ≡ ok none
unfolding diff diff_from diff_items is_empty built compute_fingerprints
diff_rescan sha256 m h t1 t2 man e z =
    let d = snapshot-Made sha256 m h t1 man e in
    rw (d.member, diff) (rw (snapshot_again sha256 m h t1 t2 man e z, entries_self man.items))
