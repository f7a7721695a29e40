-- ===== src/Publish/Diff/Changes.antt =====
-- A delta says exactly what changed: applied to the previous manifest it gives the current one.
use rom_m_swarm.Common.{
  Text, text_eq, text_eq_iff, ◌≡◌, ◌⊎◌, refl, true, false, Option, none, some, List, [], ◌∷◌, ◌++◌,
  get, put, get-put, remove, get-remove, Unique, put-Unique, arith, if◌then◌else◌, Bool-cases,
  Option-cases, inl, inr, ap₂, or_else, ◌∙◌, sort_by, has_key, distinct_keys, find_key,
  find-sort_by, distinct_keys-sort_by,
}
use rom_m_swarm.Common.{find_absent, find-append, distinct_keys-append}
use rom_m_swarm.Protocol.Manifest.{Item, DeltaEntry, add, update, tombstone}
use rom_m_swarm.Publish.Diff.{
  index_by_file, index_from, changed, change_of, changes, removal_of, removals, entries_between,
  entry_less,
}

abbrev pub Index : Type 0
Index = List (Text × Item)

index_from-Unique : (m : Index) (is : List Item) → Unique m → Unique (index_from m is)
unfolding index_from
index_from-Unique m [] u = u
index_from-Unique m (i ∷ is) u =
    index_from-Unique (put i.file_id i m) is (put-Unique i.file_id i m u)

pub index-Unique : (is : List Item) → Unique (index_by_file is)
unfolding index_by_file
index-Unique is = index_from-Unique [] is tt

abbrev pub entry_key : DeltaEntry → Text
entry_key e = e.file_id

-- What a reader of the delta does with one entry: an item that comes with it is stored under its
-- id, and an entry without an item removes the id.
unfoldable pub apply_entry : DeltaEntry → Index → Index
apply_entry e m = elim e.item [ none ↦ remove e.file_id m | some i ↦ put e.file_id i m ]

unfoldable pub apply : List DeltaEntry → Index → Index
apply [] m = m
apply (e ∷ es) m = apply es (apply_entry e m)

-- What an entry leaves under its own id.
abbrev left_by : Option DeltaEntry → Option Item → Option Item
left_by none old = old
left_by (some e) old = e.item

get-apply_entry :
    (k : Text) (e : DeltaEntry) (m : Index)
    → get k (apply_entry e m) ≡ (if text_eq e.file_id k then e.item else get k m)
unfolding apply_entry
get-apply_entry k e m = stored e.item
  where
    stored :
        (o : Option Item)
        → get k (elim o [ none ↦ remove e.file_id m | some i ↦ put e.file_id i m ])
          ≡ (if text_eq e.file_id k then o else get k m)
    stored none = get-remove e.file_id k m
    stored (some i) = get-put e.file_id k i m

get-apply :
    (k : Text) (es : List DeltaEntry) (m : Index)
    → distinct_keys entry_key es ≡ true
    → get k (apply es m) ≡ left_by (find_key entry_less entry_key k es) (get k m)
unfolding apply find_key
get-apply k [] m h = refl
get-apply k (e ∷ es) m h = ground (
  arith,
  get-apply k es (apply_entry e m),
  get-apply_entry k e m,
  find_absent entry_less entry_key k es,
  text_eq_iff e.file_id k,
)

-- The entry of an id among the additions and updates.
abbrev change_at : Text → Option Item → Option Item → Option DeltaEntry
change_at k old none = none
change_at k none (some i) = some (record { op = add; file_id = k; item = some i })
change_at k (some o) (some i) =
    if changed o i then some (record { op = update; file_id = k; item = some i }) else none

abbrev removal_at : Text → Option Item → Option Item → Option DeltaEntry
removal_at k none new = none
removal_at k (some o) none = some (record { op = tombstone; file_id = k; item = none })
removal_at k (some o) (some i) = none

has_key-changes :
    (k : Text) (before after : Index)
    → get k after ≡ none
    → has_key entry_key k (changes before after) ≡ false
unfolding changes change_of get
has_key-changes k before [] h = refl
has_key-changes k before ((id, i) ∷ after) h =
    ground (arith, has_key-changes k before after, get id before)

find-changes :
    (k : Text) (before after : Index)
    → Unique after
    → find_key entry_less entry_key k (changes before after)
      ≡ change_at k (get k before) (get k after)
unfolding changes change_of get find_key
find-changes k before [] u = refl
find-changes k before ((id, i) ∷ after) u =
    ground (arith, find-changes k before after u.1, u.0, text_eq_iff id k)

distinct_keys-changes :
    (before after : Index) → Unique after → distinct_keys entry_key (changes before after) ≡ true
unfolding changes change_of
distinct_keys-changes before [] u = refl
distinct_keys-changes before ((id, i) ∷ after) u =
    ground (arith, distinct_keys-changes before after u.1, has_key-changes id before after u.0)

has_key-removals :
    (k : Text) (after before : Index)
    → get k before ≡ none
    → has_key entry_key k (removals after before) ≡ false
unfolding removals removal_of get
has_key-removals k after [] h = refl
has_key-removals k after ((id, i) ∷ before) h = ground (arith, has_key-removals k after before)

find-removals :
    (k : Text) (after before : Index)
    → Unique before
    → find_key entry_less entry_key k (removals after before)
      ≡ removal_at k (get k before) (get k after)
unfolding removals removal_of get find_key
find-removals k after [] u = refl
find-removals k after ((id, i) ∷ before) u =
    ground (arith, find-removals k after before u.1, u.0, text_eq_iff id k)

distinct_keys-removals :
    (after before : Index) → Unique before → distinct_keys entry_key (removals after before) ≡ true
unfolding removals removal_of
distinct_keys-removals after [] u = refl
distinct_keys-removals after ((id, i) ∷ before) u =
    ground (arith, distinct_keys-removals after before u.1, has_key-removals id after before u.0)

-- A file that is still there has no tombstone.
kept-removals :
    (k : Text) (after before : Index) {i : Item}
    → get k after ≡ some i
    → has_key entry_key k (removals after before) ≡ false
unfolding removals removal_of
kept-removals k after [] h = refl
kept-removals k after ((id, j) ∷ before) h =
    ground (arith, kept-removals k after before h, text_eq_iff id k)

entries_distinct :
    (before after : Index)
    → Unique before
    → Unique after
    → distinct_keys entry_key (changes before after ++ removals after before) ≡ true
entries_distinct before after u v =
    distinct_keys-append entry_less entry_key (changes before after) (removals after before)
      (distinct_keys-changes before after v) (distinct_keys-removals after before u)
      λ k h. elim (Option-cases (get k after)) [
        | inl e ↦ ground (arith, has_key-changes k before after e)
        | inr (i, e) ↦ kept-removals k after before e
      ]

-- Two readings of one file agree: both are absent, or both are there with no difference that a
-- Swarm is told of.
abbrev pub Agree : Option Item → Option Item → Type 0
Agree none none = Unit {0}
Agree (some x) (some y) = (x ≡ y) ⊎ (changed x y ≡ false)
Agree _ _ = ⊥

-- The two loops together, at one file.
settle :
    (k : Text) (old new : Option Item)
    → Agree (left_by (or_else (change_at k old new) (removal_at k old new)) old) new
settle k none none = tt
settle k none (some i) = inl refl
settle k (some o) none = tt
settle k (some o) (some i) = elim (Bool-cases (changed o i)) [
  | inl e ↦ rw e (inl refl)
  | inr e ↦ rw e (inr e)
]

-- The entries of a delta, applied in their order to the previous items, give the current items.
pub apply-entries :
    (previous current : List Item) (k : Text)
    → Agree
        (get k
          (apply (sort_by entry_less (entries_between previous current)) (index_by_file previous)))
        (get k (index_by_file current))
unfolding entries_between
apply-entries previous current k =
    let before = index_by_file previous in
    let after = index_by_file current in
    let es = changes before after ++ removals after before in
    let d = entries_distinct before after (index-Unique previous) (index-Unique current) in
    let found : find_key entry_less entry_key k (sort_by entry_less es)
        ≡ or_else (change_at k (get k before) (get k after))
            (removal_at k (get k before) (get k after)) =
      find-sort_by entry_less entry_key k es d
      ∙ find-append entry_less entry_key k (changes before after) (removals after before)
      ∙ ap₂ or_else (find-changes k before after (index-Unique current))
          (find-removals k after before (index-Unique previous)) in
    rw
      (
        get-apply k (sort_by entry_less es) before
            (distinct_keys-sort_by entry_less entry_key es ∙ d),
        found,
      )
      (settle k (get k before) (get k after))
