-- ===== src/Reference/Classify/Evidence.antt =====
-- What stands behind the classification of a held file.
use rom_m_swarm.Common.{
  ℕ, Text, text_eq, text_eq_iff, ≡→eq, ◌≢◌, ltb, ◌≡◌, ◌⊎◌, inl, inr, refl, sym, ap, ◌∙◌, subst,
  true, false, not, List, [], ◌∷◌, Option, none, some, map, In, All, In-All, All-In, get_elem?,
  contains, Table, tabulate, distinct, distinct_mono, Sorter, trim_space, Bool-cases, arith,
  if◌then◌else◌,
}
use rom_m_swarm.Protocol.Digest.{normalized, compare, strength_none}
use rom_m_swarm.Protocol.Manifest.{publishable, unmatched, conflict}
use rom_m_swarm.Verify.{Result}
use rom_m_swarm.Reference.{Entry, Set, index}
use rom_m_swarm.Reference.Lookup.{Match, comes_before, lookup}
use rom_m_swarm.Reference.Lookup.Soundness.{Confirmed, lookup-Confirmed, entries_same, indexed_lem}
use rom_m_swarm.Reference.Profile.{
  Profile, Selection, Sorters, eligible, represent, represent_all, group_key, apply, includes,
}
use rom_m_swarm.Reference.Profile.Included.{EligibleAt, apply-EligibleAt}
use rom_m_swarm.Reference.Classify.{
  Outcome, titles_agree, best_match, reference_of, judge, match_key, judge_matches, judge_found,
  classify,
}

-- Two members of a list with at most one distinct string are equal.
distinct_pair :
    (a b : Text) (ks : List Text)
    → contains a ks ≡ true
    → contains b ks ≡ true
    → ltb 1 (distinct ks) ≡ false
    → a ≡ b
unfolding distinct contains
distinct_pair a b ks h k few =
    let sub : (c : Text) → contains c (a ∷ b ∷ []) ≡ true → contains c ks ≡ true =
      λ c m. ground (arith, text_eq_iff a c, text_eq_iff b c) in
    ground (arith, distinct_mono (a ∷ b ∷ []) ks sub, text_eq_iff b a)

In-contains :
    (m : Match) (ms : List Match) → In m ms → contains (match_key m) (map match_key ms) ≡ true
unfolding contains
In-contains m [] h = absurd h
In-contains m (n ∷ ms) (inl e) =
    ground (arith, ≡→eq (match_key n) (match_key m) (sym (ap match_key e)))
In-contains m (n ∷ ms) (inr i) = ground (arith, In-contains m ms i)

best_match-In :
    (sel : Selection) (first : Match) (ms : List Match)
    → (best_match sel first ms ≡ first) ⊎ In (best_match sel first ms) ms
unfolding best_match
best_match-In sel first [] = inl refl
best_match-In sel first (m ∷ ms) = elim (Bool-cases (includes sel m.index)) [
  | inl e ↦ inr (inl (ap (λ b. if b then m else best_match sel first ms) e))
  | inr e ↦
      let same : best_match sel first (m ∷ ms) ≡ best_match sel first ms =
        ap (λ b. if b then m else best_match sel first ms) e in
      subst (λ x. (x ≡ first) ⊎ In x (m ∷ ms)) (sym same)
        (elim (best_match-In sel first ms) [ inl k ↦ inl k | inr k ↦ inr (inr k) ])
]

-- What `judge` found where it lets the item be published.
judge-publishable :
    (sel : Selection) (title : Text) (best : Match)
    → publishable (judge sel title best).classification ≡ true
    → (includes sel best.index ≡ true)
      × ((judge sel title best).match ≡ some (reference_of sel best))
      × ((trim_space title ≡ [])
          ⊎ (titles_agree (trim_space title) best.entry.canonical_key ≡ true))
unfolding judge publishable
judge-publishable sel title best h = (
  ground arith,
  ground arith,
  elim (Bool-cases (text_eq (trim_space title) [])) [
    | inl e ↦ inl ((text_eq_iff (trim_space title) []).0 e)
    | inr e ↦ inr (ground arith)
  ],
)

-- The same of the whole list of matches.
judge_matches-publishable :
    (sel : Selection) (title : Text) (ms : List Match)
    → publishable (judge_matches sel title ms).classification ≡ true
    → (best : Match) × In best ms
      × (includes sel best.index ≡ true)
      × ((judge_matches sel title ms).match ≡ some (reference_of sel best))
      × ((trim_space title ≡ [])
          ⊎ (titles_agree (trim_space title) best.entry.canonical_key ≡ true))
      × All (λ m. match_key m ≡ match_key best) ms
unfolding judge_matches publishable
judge_matches-publishable sel title [] h = absurd (ground arith)
judge_matches-publishable sel title (m ∷ ms) h =
    elim (Bool-cases (ltb 1 (distinct (map match_key (m ∷ ms))))) [
      | inl e ↦ absurd (ground arith)
      | inr e ↦
          let best = best_match sel m (m ∷ ms) in
          let member : In best (m ∷ ms) = elim (best_match-In sel m (m ∷ ms)) [
            | inl k ↦ inl k
            | inr k ↦ k
          ] in
          let judged : judge_matches sel title (m ∷ ms) ≡ judge sel title best =
            ap
              (λ b.
                if b
                then record { classification = conflict; match = none }
                else judge sel title best)
              e in
          let (inc, named, fits) =
            judge-publishable sel title best
              (subst (λ o. publishable o.classification ≡ true) judged h) in
          (
            best,
            member,
            inc,
            ap Outcome.match judged ∙ named,
            fits,
            All-In (λ x. match_key x ≡ match_key best) (m ∷ ms)
                (λ x k.
                  distinct_pair (match_key x) (match_key best) (map match_key (m ∷ ms))
                    (In-contains x (m ∷ ms) k) (In-contains best (m ∷ ms) member) e),
          )
    ]

-- What stands behind a publishable outcome: an entry of the catalogue that the profile lets pass
-- and that the canonical digest agrees with, of one game with every other match, and a title that
-- does not disagree. The outcome names the entry.
pub record Evidence (sorter : Sorter comes_before) (p : Profile) (s : Set) (res : Result)
    (title : Text) (o : Outcome) : Type 0 where
  pub position : ℕ
  pub entry : Entry
  pub strength : ℕ
  pub matches : List Match
  pub canonical : res.canonicalized ≡ true
  pub listed : get_elem? s.entries position ≡ some entry
  pub passes : eligible p entry ≡ true
  pub agrees : compare (normalized res.canonical) entry.digest ≡ (strength, true)
  pub some_strength : strength ≢ strength_none
  pub looked_up : lookup sorter res.canonical (index s) ≡ some matches
  pub one_game : All (λ m. m.entry.canonical_key ≡ entry.canonical_key) matches
  pub title_fits :
      (trim_space title ≡ []) ⊎ (titles_agree (trim_space title) entry.canonical_key ≡ true)
  pub names_entry :
      o.match
      ≡ some (record {
        family = s.family;
        set_name = s.name;
        set_version = s.version;
        entry_name = entry.rom_name;
        canonical_key = entry.canonical_key;
        strength = strength;
      })

represent-set : (k : Text) (is : List ℕ) (sel : Selection) → (represent k is sel).set ≡ sel.set
represent-set k [] sel = refl
represent-set k (i ∷ is) sel = refl

represent_all-set :
    (sort : List ℕ → List ℕ) (m : Table) (sel : Selection)
    → (represent_all sort m sel).set ≡ sel.set
unfolding represent_all
represent_all-set sort [] sel = refl
represent_all-set sort ((k, is) ∷ m) sel =
    represent_all-set sort m (represent k (sort is) sel) ∙ represent-set k (sort is) sel

apply-set : (sorters : Sorters) (p : Profile) (s : Set) → (apply sorters p s).set ≡ s
unfolding apply
apply-set sorters p s =
    let sel : Selection = record { profile = p; set = s; included = []; chosen = [] } in
    let all =
      represent_all-set ((sorters p s.entries).sort) (tabulate (group_key p) 0 s.entries []) sel in
    elim (Bool-cases p.one_game_per_canonical) [ inl e ↦ simp e all | inr e ↦ simp e refl ]

reference_lem :
    (sorters : Sorters) (p : Profile) (s : Set) (m : Match)
    → reference_of (apply sorters p (index s)) m ≡ record {
      family = s.family;
      set_name = s.name;
      set_version = s.version;
      entry_name = m.entry.rom_name;
      canonical_key = m.entry.canonical_key;
      strength = m.strength;
    }
unfolding reference_of
reference_lem sorters p s m = rw (apply-set sorters p (index s), indexed_lem s) refl

-- Where the classification of a canonicalized file or not, against a catalogue that was indexed
-- and a profile applied to it, is publishable, the file was canonicalized, an entry of the
-- catalogue passes the profile's filters, the whole comparison of the canonical digest with the
-- entry's agrees with some strength, every match of the lookup is of the entry's game, the
-- library's title is blank or agrees with it, and the outcome names the entry and the strength.
-- This holds for every sort that puts no element before a lesser one.
pub classify-Evidence :
    (sorters : Sorters) (sorter : Sorter comes_before) (p : Profile) (s : Set) (res : Result)
    (title : Text) (o : Outcome)
    → classify sorter (some res) (apply sorters p (index s)) title ≡ some o
    → publishable o.classification ≡ true
    → Evidence sorter p s res title o
unfolding classify publishable
classify-Evidence sorters sorter p s res title o h allowed =
    let sel = apply sorters p (index s) in
    let (ms, found, confirmed, ordered) = lookup-Confirmed sorter res.canonical s in
    let looked : lookup sorter res.canonical sel.set ≡ some ms =
      ap (lookup sorter res.canonical) (apply-set sorters p (index s)) ∙ found in
    elim (Bool-cases res.canonicalized) [
      | inl e ↦
          let step : classify sorter (some res) sel title ≡ some (judge_matches sel title ms) =
            ap
              (λ b.
                if not b
                then some (record { classification = unmatched; match = none })
                else judge_found sel title (lookup sorter res.canonical sel.set))
              e
            ∙ ap (judge_found sel title) looked in
          let is_o : judge_matches sel title ms ≡ o = cc in
          let (best, member, inc, named, fits, same) =
            judge_matches-publishable sel title ms
              (subst (λ x. publishable x.classification ≡ true) (sym is_o) allowed) in
          let c =
            In-All (Confirmed (normalized res.canonical) s.entries) best ms member confirmed in
          let (f, at, el) =
            subst (λ es. EligibleAt p es best.index) (entries_same s)
              (apply-EligibleAt sorters p (index s) best.index inc) in
          let equal : f ≡ best.entry = cc in
          record {
            position = best.index;
            entry = best.entry;
            strength = best.strength;
            matches = ms;
            canonical = e;
            listed = c.0;
            passes = subst (λ x. eligible p x ≡ true) equal el;
            agrees = c.1;
            some_strength = λ q. ground arith;
            looked_up = found;
            one_game = same;
            title_fits = fits;
            names_entry =
                ap Outcome.match (sym is_o) ∙ named ∙ ap some (reference_lem sorters p s best);
          }
      | inr e ↦ absurd (ground arith)
    ]

-- Against a catalogue that was indexed the classification of any file, or of none, gives an
-- outcome: no index that the lookup reads is out of range.
pub classify_total :
    (sorters : Sorters) (sorter : Sorter comes_before) (p : Profile) (s : Set) (res : Option Result)
    (title : Text)
    → (o : Outcome) × (classify sorter res (apply sorters p (index s)) title ≡ some o)
unfolding classify
classify_total sorters sorter p s none title =
    (record { classification = unmatched; match = none }, refl)
classify_total sorters sorter p s (some res) title =
    let sel = apply sorters p (index s) in
    let (ms, found, confirmed, ordered) = lookup-Confirmed sorter res.canonical s in
    let looked : lookup sorter res.canonical sel.set ≡ some ms =
      ap (lookup sorter res.canonical) (apply-set sorters p (index s)) ∙ found in
    elim (Bool-cases res.canonicalized) [
      | inl e ↦ (judge_matches sel title ms, simp (e, looked) refl)
      | inr e ↦ (record { classification = unmatched; match = none }, simp e refl)
    ]
