-- ===== src/Common/Tables.antt =====
-- Go maps from strings to slices of indexes, filled by a loop over a slice:
-- `for i := range xs { m[k] = append(m[k], i) }`.
use Prim.Native.Nat.{ℕ, zero, suc, ◌+◌}
use mathlib.Core.Path.{◌≡◌, refl, sym, ap, subst}
use mathlib.Core.List.{List, [], ◌∷◌, ◌++◌}
use mathlib.Core.Option.{Option, none, some}
use mathlib.Core.Logic.{◌⊎◌, ◌↔◌, inl, inr}
use native.Mathlib.Omega.{arith}
use rom_m_swarm.Common.Tests.{if◌then◌else◌, Bool-cases}
use rom_m_swarm.Common.Texts.{Text, text_eq, text_eq_iff, text_eq_refl}
use rom_m_swarm.Common.Lists.{In, In-append, get_elem?}
use rom_m_swarm.Common.Maps.{get, put, get-put, Unique, put-Unique}

abbrev pub Table : Type 0
Table = List (Text × List ℕ)

abbrev or_nil : Option (List ℕ) → List ℕ
or_nil none = []
or_nil (some is) = is

-- m[k], nil where the key is absent.
unfoldable pub bucket : Text → Table → List ℕ
bucket k m = or_nil (get k m)

-- One turn: an element without a key is passed over.
unfoldable pub enter : Option Text → ℕ → Table → Table
enter none i m = m
enter (some k) i m = put k (bucket k m ++ i ∷ []) m

bucket-put :
    (l k : Text) (v : List ℕ) (m : Table)
    → bucket k (put l v m) ≡ (if text_eq l k then v else bucket k m)
unfolding bucket
bucket-put l k v m = ground (arith, get-put l k v m)

enter_same :
    (k : Text) (i j : ℕ) (m : Table)
    → In j (bucket k (enter (some k) i m)) ↔ (In j (bucket k m) ⊎ ((j ≡ i) × (some k ≡ some k)))
unfolding enter
enter_same k i j m =
    let a = In-append j (bucket k m) (i ∷ []) in
    rw (bucket-put k k (bucket k m ++ i ∷ []) m, text_eq_refl k)
      (
        λ h. elim (a.0 h) [ inl b ↦ inl b | inr (inl b) ↦ inr (b, refl) | inr (inr b) ↦ absurd b ],
        λ h. a.1 (elim h [ inl b ↦ inl b | inr (b, c) ↦ inr (inl b) ]),
      )

enter_lem :
    (k : Text) (o : Option Text) (i j : ℕ) (m : Table)
    → In j (bucket k (enter o i m)) ↔ (In j (bucket k m) ⊎ ((j ≡ i) × (o ≡ some k)))
unfolding enter
enter_lem k none i j m = (λ h. inl h, λ h. elim h [ inl a ↦ a | inr (a, b) ↦ absurd cc ])
enter_lem k (some l) i j m = elim (Bool-cases (text_eq l k)) [
  | inl e ↦ rw (sym ((text_eq_iff l k).0 e)) (enter_same l i j m)
  | inr e ↦
      rw (bucket-put l k (bucket l m ++ i ∷ []) m, e)
        (
          λ h. inl h,
          λ h. elim h [ inl a ↦ a | inr (a, b) ↦ absurd (ground (arith, text_eq_iff l k)) ],
        )
]

enter-Unique : (o : Option Text) (i : ℕ) (m : Table) → Unique m → Unique (enter o i m)
unfolding enter
enter-Unique none i m u = u
enter-Unique (some k) i m u = put-Unique k (bucket k m ++ i ∷ []) m u

module _ {A : Type 0} (key : A → Option Text) where
  unfoldable pub tabulate : ℕ → List A → Table → Table
  tabulate i [] m = m
  tabulate i (x ∷ xs) m = tabulate (suc i) xs (enter (key x) i m)

  -- The element at this index has this key.
  abbrev pub Keyed : List A → ℕ → Text → Type 0
  Keyed xs i k = (x : A) × (get_elem? xs i ≡ some x) × (key x ≡ some k)

  tabulate_from :
      (k : Text) (i j : ℕ) (xs : List A) (m : Table)
      → In j (bucket k (tabulate i xs m))
        ↔ (In j (bucket k m) ⊎ ((n : ℕ) × (j ≡ i + n) × Keyed xs n k))
  unfolding tabulate
  tabulate_from k i j [] m =
      (λ h. inl h, λ h. elim h [ inl a ↦ a | inr (n, e, (x, f, g)) ↦ absurd cc ])
  tabulate_from k i j (x ∷ xs) m =
      let here = enter_lem k (key x) i j m in
      let there = tabulate_from k (suc i) j xs (enter (key x) i m) in
      (
        λ h. elim (there.0 h) [
          | inl a ↦ elim (here.0 a) [
            | inl b ↦ inl b
            | inr (e, g) ↦ inr (0, omega arith, (x, refl, g))
          ]
          | inr (n, e, f) ↦ inr (suc n, omega arith, f)
        ],
        λ h. elim h [
          | inl a ↦ there.1 (inl (here.1 (inl a)))
          | inr (zero, e, (y, f, g)) ↦ there.1 (inl (here.1 (inr (omega arith, cc))))
          | inr (suc n, e, f) ↦ there.1 (inr (n, omega arith, f))
        ],
      )

  same_index : (j n : ℕ) → j ≡ 0 + n → j ≡ n
  same_index j n e = omega arith

  -- From an empty table, the bucket of a key holds the indexes of the elements with this key.
  pub tabulate_lem :
      (k : Text) (j : ℕ) (xs : List A) → In j (bucket k (tabulate 0 xs [])) ↔ Keyed xs j k
  unfolding bucket get
  tabulate_lem k j xs =
      let t = tabulate_from k 0 j xs [] in
      (
        λ h. elim (t.0 h) [ inl a ↦ absurd a | inr (n, e, f) ↦ rw (same_index j n e) f ],
        λ f. t.1 (inr (j, omega arith, f)),
      )

  pub tabulate-Unique : (i : ℕ) (xs : List A) (m : Table) → Unique m → Unique (tabulate i xs m)
  unfolding tabulate
  tabulate-Unique i [] m u = u
  tabulate-Unique i (x ∷ xs) m u =
      tabulate-Unique (suc i) xs (enter (key x) i m) (enter-Unique (key x) i m u)

In-get : (k : Text) (is : List ℕ) (m : Table) → In (k, is) m → get k m ≡ none → ⊥
unfolding get
In-get k is [] h n = h
In-get k is ((l, js) ∷ m) (inl e) n =
    let same : k ≡ l = ap (λ x. x.0) e in ground (arith, text_eq_iff l k)
In-get k is ((l, js) ∷ m) (inr i) n = elim (Bool-cases (text_eq l k)) [
  | inl e ↦ ground arith
  | inr e ↦ In-get k is m i (ground arith)
]

-- The entries of a map with unique keys are what its keys hold.
pub In-bucket : (k : Text) (is : List ℕ) (m : Table) → In (k, is) m → Unique m → bucket k m ≡ is
unfolding bucket get
In-bucket k is [] h u = absurd h
In-bucket k is ((l, js) ∷ m) (inl e) u =
    let same : l ≡ k = sym (ap (λ x. x.0) e) in
    let value : is ≡ js = ap (λ x. x.1) e in ground (arith, text_eq_iff l k)
In-bucket k is ((l, js) ∷ m) (inr i) u =
    let later = In-bucket k is m i u.1 in
    elim (Bool-cases (text_eq l k)) [
      | inl e ↦ absurd (In-get k is m i (subst (λ x. get x m ≡ none) ((text_eq_iff l k).0 e) u.0))
      | inr e ↦ rw e later
    ]

pub bucket-In :
    (k : Text) (i : ℕ) (m : Table) → In i (bucket k m) → (is : List ℕ) × In (k, is) m × In i is
unfolding bucket get
bucket-In k i [] = absurd
bucket-In k i ((l, js) ∷ m) = elim (Bool-cases (text_eq l k)) [
  | inl e ↦ rw e (λ h. (js, inl (ap (λ x. (x, js)) (sym ((text_eq_iff l k).0 e))), h))
  | inr e ↦ rw e (λ h. let (is, a, b) = bucket-In k i m h in (is, inr a, b))
]
