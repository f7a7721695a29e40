-- ===== src/Reference/Profile/OneGame.antt =====
-- What `Apply` selects: eligible entries and, under 1G1R, one for each key.
use rom_m_swarm.Common.{
  ℕ, Text, text_lt_irrefl, ◌==◌, ◌≡◌, ◌↔◌, ◌⊎◌, inl, inr, refl, sym, ap, ◌∙◌, subst, true, false,
  not, List, [], ◌∷◌, some, any, In, In-any, any-In, In-append, In-All, get_elem?, Table, bucket,
  tabulate, tabulate_lem, tabulate-Unique, In-bucket, bucket-In, Unique, Ordered, lt_int_asym,
  Bool-cases, ==→eq, arith, if◌then◌else◌,
}
use rom_m_swarm.Reference.{Entry, Set}
use rom_m_swarm.Reference.Profile.{
  Profile, Selection, Sorters, eligible, preferred, prefers, group_key, include_eligible,
  include_index, represent, represent_all, apply, includes,
}

pub includes-In : (sel : Selection) (i : ℕ) → (includes sel i ≡ true) ↔ In i sel.included
unfolding includes
includes-In sel i = (
  λ h.
      let (j, k, e) = In-any (λ j. j == i) sel.included h in
      subst (λ x. In x sel.included) (==→eq j i e) k,
  λ h. any-In (λ j. j == i) i sel.included h (ground arith),
)

include_index-In : (i j : ℕ) (is : List ℕ) → In j (include_index i is) ↔ (In j is ⊎ (j ≡ i))
unfolding include_index
include_index-In i j is =
    let a = In-append j is (i ∷ []) in
    elim (Bool-cases (any (λ j. j == i) is)) [
      | inl e ↦ rw e (
        λ h. inl h,
        λ h. elim h [
          | inl k ↦ k
          | inr k ↦
              let (l, m, f) = In-any (λ j. j == i) is e in
              subst (λ x. In x is) (==→eq l i f ∙ sym k) m
        ],
      )
      | inr e ↦ rw e (
        λ h. elim (a.0 h) [ inl k ↦ inl k | inr (inl k) ↦ inr k | inr (inr k) ↦ absurd k ],
        λ h. a.1 (elim h [ inl k ↦ inl k | inr k ↦ inr (inl k) ]),
      )
    ]

-- The first of the indexes.
abbrev pub Heads : ℕ → List ℕ → Type 0
Heads i is = (rest : List ℕ) × (is ≡ i ∷ rest)

heads : {i j : ℕ} {is js : List ℕ} → i ∷ is ≡ j ∷ js → i ≡ j
heads e = cc

head-of : (is : List ℕ) (j : ℕ) → In j is → (i : ℕ) × Heads i is
head-of [] j h = absurd h
head-of (i ∷ is) j h = (i, (is, refl))

represent-In :
    (key : Text) (is : List ℕ) (i : ℕ) (sel : Selection)
    → In i (represent key is sel).included ↔ (In i sel.included ⊎ Heads i is)
represent-In key [] i sel = (λ h. inl h, λ h. elim h [ inl k ↦ k | inr (r, e) ↦ absurd cc ])
represent-In key (best ∷ others) i sel =
    let k = include_index-In best i sel.included in
    (
      λ h. elim (k.0 h) [ inl a ↦ inl a | inr a ↦ inr (others, ap (λ x. x ∷ others) (sym a)) ],
      λ h. k.1 (elim h [ inl a ↦ inl a | inr (r, e) ↦ inr cc ]),
    )

module _ (sort : List ℕ → List ℕ) where
  -- The index is the first of a sorted bucket of the table.
  abbrev pub Represents : Table → ℕ → Type 0
  Represents m i = (k : Text) × (is : List ℕ) × In (k, is) m × Heads i (sort is)

  represent_all-In :
      (m : Table) (i : ℕ) (sel : Selection)
      → In i (represent_all sort m sel).included ↔ (In i sel.included ⊎ Represents m i)
  unfolding represent_all
  represent_all-In [] i sel = (λ h. inl h, λ h. elim h [ inl k ↦ k | inr (k, is, a, b) ↦ absurd a ])
  represent_all-In ((l, js) ∷ m) i sel =
      let here = represent-In l (sort js) i sel in
      let there = represent_all-In m i (represent l (sort js) sel) in
      (
        λ h. elim (there.0 h) [
          | inl a ↦ elim (here.0 a) [ inl b ↦ inl b | inr b ↦ inr (l, js, inl refl, b) ]
          | inr (k, is, a, b) ↦ inr (k, is, inr a, b)
        ],
        λ h. there.1 (elim h [
          | inl a ↦ inl (here.1 (inl a))
          | inr (k, is, inl e, (r, b)) ↦ inl (here.1 (inr (r, ap (λ x. sort x.1) (sym e) ∙ b)))
          | inr (k, is, inr a, b) ↦ inr (k, is, a, b)
        ]),
      )

-- What stands in the table of eligible entries.
group_lem :
    (p : Profile) (es : List Entry) (k : Text) (i : ℕ)
    → In i (bucket k (tabulate (group_key p) 0 es []))
      ↔ ((e : Entry) × (get_elem? es i ≡ some e) × (eligible p e ≡ true) × (e.canonical_key ≡ k))
unfolding group_key
group_lem p es k i =
    let t = tabulate_lem (group_key p) k i es in
    (
      λ h. let (e, f, g) = t.0 h in (e, f, ground arith, ground arith),
      λ (e, f, g, h). t.1 (e, f, ground arith),
    )

preferred_irrefl : (p : Profile) (e : Entry) → preferred p e e ≡ false
unfolding preferred
preferred_irrefl p e =
    ground (arith, lt_int_asym e.revision_rank e.revision_rank, text_lt_irrefl e.rom_name)

-- No eligible entry of the same key is preferred to the entry.
abbrev pub Best : Profile → List Entry → Entry → Type 0
Best p es e =
    (j : ℕ) (f : Entry)
    → get_elem? es j ≡ some f
    → eligible p f ≡ true
    → f.canonical_key ≡ e.canonical_key
    → preferred p f e ≡ false

module _ (sorters : Sorters) (p : Profile) (s : Set) (one : p.one_game_per_canonical ≡ true) where
  abbrev pub table : Table
  table = tabulate (group_key p) 0 s.entries []

  table-Unique : Unique table
  table-Unique = tabulate-Unique (group_key p) 0 s.entries [] tt

  none_yet : Selection
  none_yet = record { profile = p; set = s; included = []; chosen = [] }

  apply_one : apply sorters p s ≡ represent_all ((sorters p s.entries).sort) table none_yet
  unfolding apply none_yet
  apply_one =
      ap
        (λ b.
          if not b
          then record none_yet { included = include_eligible p 0 s.entries }
          else represent_all ((sorters p s.entries).sort) table none_yet)
        one

  pub apply-In :
      (i : ℕ)
      → (includes (apply sorters p s) i ≡ true) ↔ Represents ((sorters p s.entries).sort) table i
  unfolding none_yet
  apply-In i =
      let all = represent_all-In ((sorters p s.entries).sort) table i none_yet in
      let any = includes-In (represent_all ((sorters p s.entries).sort) table none_yet) i in
      (
        λ h. elim (all.0 (any.0 (subst (λ sel. includes sel i ≡ true) apply_one h))) [
          | inl a ↦ absurd a
          | inr r ↦ r
        ],
        λ r. subst (λ sel. includes sel i ≡ true) (sym apply_one) (any.1 (all.1 (inr r))),
      )

  prefers_lem :
      (i j : ℕ) (e f : Entry)
      → get_elem? s.entries i ≡ some e
      → get_elem? s.entries j ≡ some f
      → prefers p s.entries i j ≡ preferred p e f
  unfolding prefers
  prefers_lem i j e f h k = rw (h, k) refl

  -- The head of a sorted bucket is the best of its key.
  pub represents-Best :
      (i : ℕ) (k : Text) (is : List ℕ)
      → In (k, is) table
      → Heads i ((sorters p s.entries).sort is)
      → (e : Entry) × (get_elem? s.entries i ≡ some e)
        × (eligible p e ≡ true)
        × (e.canonical_key ≡ k)
        × Best p s.entries e
  represents-Best i k is h (rest, b) =
      let sorter = sorters p s.entries in
      let full = In-bucket k is table h table-Unique in
      let first = (sorter.keeps i is).0 (subst (In i) (sym b) (inl refl)) in
      let (e, f, g, c) = (group_lem p s.entries k i).0 (subst (In i) (sym full) first) in
      let ordered = subst (Ordered (prefers p s.entries)) b (sorter.sorted is) in
      (
        e,
        f,
        g,
        c,
        λ j e' f' g' c'.
            let member = (group_lem p s.entries k j).1 (e', f', g', c' ∙ c) in
            let among = subst (In j) b ((sorter.keeps j is).1 (subst (In j) full member)) in
            elim among [
              | inl same ↦ let equal : e' ≡ e = cc in rw equal (preferred_irrefl p e)
              | inr later ↦
                  sym (prefers_lem j i e' e f' f)
                  ∙ In-All (λ x. prefers p s.entries x i ≡ false) j rest later ordered.0
            ],
      )

  -- Under a profile with one game for each key, for every eligible entry of the catalogue
  -- there is an included entry of its key, to which no eligible entry of the key is preferred
  -- by region, revision and file name; and every included entry of this key is that one.
  pub apply_chooses :
      (j : ℕ) (f : Entry)
      → get_elem? s.entries j ≡ some f
      → eligible p f ≡ true
      → (i : ℕ) × (e : Entry) × (get_elem? s.entries i ≡ some e)
        × (includes (apply sorters p s) i ≡ true)
        × (e.canonical_key ≡ f.canonical_key)
        × Best p s.entries e
        × ((k : ℕ) (g : Entry)
            → get_elem? s.entries k ≡ some g
            → includes (apply sorters p s) k ≡ true
            → g.canonical_key ≡ f.canonical_key
            → k ≡ i)
  apply_chooses j f at el =
      let sorter = sorters p s.entries in
      let (is, h, m) =
        bucket-In f.canonical_key j table
          ((group_lem p s.entries f.canonical_key j).1 (f, at, el, refl)) in
      let (i, (rest, b)) = head-of (sorter.sort is) j ((sorter.keeps j is).1 m) in
      let (e, at', el', key, best) = represents-Best i f.canonical_key is h (rest, b) in
      (
        i,
        e,
        at',
        (apply-In i).1 (f.canonical_key, is, h, (rest, b)),
        key,
        best,
        λ k g ag inc gk.
            let (key', is', h', (rest', b')) = (apply-In k).0 inc in
            let (g', ag', el'', key'', best') = represents-Best k key' is' h' (rest', b') in
            let same : f.canonical_key ≡ key' = cc in
            let buckets : is ≡ is' =
              sym (In-bucket f.canonical_key is table h table-Unique)
              ∙ ap (λ x. bucket x table) same
              ∙ In-bucket key' is' table h' table-Unique in
            heads (sym b' ∙ ap sorter.sort (sym buckets) ∙ b),
      )
