-- ===== src/Reference/Profile/Included.antt =====
-- That every entry that `Apply` includes passes the profile's filters.
use rom_m_swarm.Common.{
  ℕ, suc, ◌+◌, ◌≡◌, inl, inr, refl, ap, subst, true, not, List, [], ◌∷◌, some, In, get_elem?,
  tabulate, Bool-cases, arith, if◌then◌else◌,
}
use rom_m_swarm.Reference.{Entry, Set}
use rom_m_swarm.Reference.Profile.{
  Profile, Selection, Sorters, eligible, include_eligible, represent_all, group_key, apply,
  includes,
}
use rom_m_swarm.Reference.Profile.OneGame.{includes-In, apply-In, represents-Best}

-- The index stands for an entry that passes the filters.
abbrev pub EligibleAt : Profile → List Entry → ℕ → Type 0
EligibleAt p es i = (e : Entry) × (get_elem? es i ≡ some e) × (eligible p e ≡ true)

later :
    (p : Profile) (b i : ℕ) (e : Entry) (es : List Entry)
    → (n : ℕ) × (i ≡ suc b + n) × EligibleAt p es n
    → (n : ℕ) × (i ≡ b + n) × EligibleAt p (e ∷ es) n
later p b i e es (n, k, a) = (suc n, omega arith, a)

include_eligible-EligibleAt :
    (p : Profile) (b i : ℕ) (es : List Entry)
    → In i (include_eligible p b es)
    → (n : ℕ) × (i ≡ b + n) × EligibleAt p es n
unfolding include_eligible
include_eligible-EligibleAt p b i [] = absurd
include_eligible-EligibleAt p b i (e ∷ es) =
    let rest = include_eligible-EligibleAt p (suc b) i es in
    elim (Bool-cases (eligible p e)) [
      | inl g ↦ rw g (λ h. elim h [
        | inl k ↦ (0, omega arith, (e, refl, g))
        | inr k ↦ later p b i e es (rest k)
      ])
      | inr g ↦ rw g (λ h. later p b i e es (rest h))
    ]

-- Whether or not the profile wants one game for each key, an included index stands for an entry
-- that passes the profile's filters.
pub apply-EligibleAt :
    (sorters : Sorters) (p : Profile) (s : Set) (i : ℕ)
    → includes (apply sorters p s) i ≡ true
    → EligibleAt p s.entries i
unfolding apply
apply-EligibleAt sorters p s i h = elim (Bool-cases p.one_game_per_canonical) [
  | inl one ↦
      let (k, is, m, b) = (apply-In sorters p s one i).0 h in
      let (e, at, el, key, best) = represents-Best sorters p s one i k is m b in (e, at, el)
  | inr all ↦
      let member = (includes-In (apply sorters p s) i).0 h in
      let sel : Selection = record { profile = p; set = s; included = []; chosen = [] } in
      let same : (apply sorters p s).included ≡ include_eligible p 0 s.entries =
        ap
          (λ b.
            (if not b
              then record sel { included = include_eligible p 0 s.entries }
              else represent_all ((sorters p s.entries).sort)
                  (tabulate (group_key p) 0 s.entries []) sel).included)
          all in
      let (n, k, a) = include_eligible-EligibleAt p 0 i s.entries (subst (In i) same member) in
      subst (EligibleAt p s.entries) (omega arith) a
]
