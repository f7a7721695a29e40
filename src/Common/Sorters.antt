-- ===== src/Common/Sorters.antt =====
-- `sort.Slice` where elements may be equal under the order, as an interface: what package sort
-- documents, which leaves the order of equal elements open. Stable insertion fills it.
use mathlib.Core.Path.{◌≡◌}
use mathlib.Core.Bool.{Bool, true, false}
use mathlib.Core.List.{List, [], ◌∷◌}
use mathlib.Core.Logic.{◌↔◌, inl, inr}
use rom_m_swarm.Common.Tests.{if◌then◌else◌, Bool-cases}
use rom_m_swarm.Common.Lists.{All, In, All-weaken}

module _ {A : Type 0} (less : A → A → Bool) where
  -- No element is less than one before it.
  abbrev pub Ordered : List A → Type 0
  Ordered [] = Unit
  Ordered (x ∷ xs) = All (λ y. less y x ≡ false) xs × Ordered xs

  pub record Sorter : Type 0 where
    pub sort : List A → List A
    pub keeps : (x : A) (xs : List A) → In x (sort xs) ↔ In x xs
    pub sorted : (xs : List A) → Ordered (sort xs)

  unfoldable pub insert_stable : A → List A → List A
  insert_stable x [] = x ∷ []
  insert_stable x (y ∷ ys) = if less y x then y ∷ insert_stable x ys else x ∷ y ∷ ys

  unfoldable pub sort_stable : List A → List A
  sort_stable [] = []
  sort_stable (x ∷ xs) = insert_stable x (sort_stable xs)

  insert_stable-In : (x z : A) (xs : List A) → In z (insert_stable x xs) ↔ In z (x ∷ xs)
  unfolding insert_stable
  insert_stable-In x z [] = (λ h. h, λ h. h)
  insert_stable-In x z (y ∷ ys) =
      let k = insert_stable-In x z ys in
      elim (Bool-cases (less y x)) [
        | inl e ↦ rw e (
          λ h. elim h [
            | inl a ↦ inr (inl a)
            | inr i ↦ elim (k.0 i) [ inl a ↦ inl a | inr b ↦ inr (inr b) ]
          ],
          λ h. elim h [
            | inl a ↦ inr (k.1 (inl a))
            | inr (inl a) ↦ inl a
            | inr (inr b) ↦ inr (k.1 (inr b))
          ],
        )
        | inr e ↦ rw e (λ h. h, λ h. h)
      ]

  pub sort_stable-In : (z : A) (xs : List A) → In z (sort_stable xs) ↔ In z xs
  unfolding sort_stable
  sort_stable-In z [] = (λ h. h, λ h. h)
  sort_stable-In z (x ∷ xs) =
      let k = sort_stable-In z xs in
      let i = insert_stable-In x z (sort_stable xs) in
      (
        λ h. elim (i.0 h) [ inl a ↦ inl a | inr b ↦ inr (k.0 b) ],
        λ h. i.1 (elim h [ inl a ↦ inl a | inr b ↦ inr (k.1 b) ]),
      )

  -- A strict weak order: nothing is less both ways, and "not less" is transitive.
  pub record IsWeakOrder : Type 0 where
    pub asym : (x y : A) → less x y ≡ true → less y x ≡ false
    pub step : (x y z : A) → less y x ≡ false → less z y ≡ false → less z x ≡ false

  module _ (weak : IsWeakOrder) where
    All-insert_stable :
        (P : A → Type 0) (x : A) (xs : List A) → P x → All P xs → All P (insert_stable x xs)
    unfolding insert_stable
    All-insert_stable P x [] h a = (h, tt)
    All-insert_stable P x (y ∷ ys) h a = elim (Bool-cases (less y x)) [
      | inl e ↦ rw e (a.0, All-insert_stable P x ys h a.1)
      | inr e ↦ rw e (h, a)
    ]

    insert_stable-Ordered : (x : A) (xs : List A) → Ordered xs → Ordered (insert_stable x xs)
    unfolding insert_stable
    insert_stable-Ordered x [] o = (tt, tt)
    insert_stable-Ordered x (y ∷ ys) o = elim (Bool-cases (less y x)) [
      | inl e ↦ rw e (
        All-insert_stable (λ z. less z y ≡ false) x ys (weak.asym y x e) o.0,
        insert_stable-Ordered x ys o.1,
      )
      | inr e ↦ rw e (
        (
          e,
          All-weaken (λ z. less z y ≡ false) (λ z. less z x ≡ false) ys (λ z h. weak.step x y z e h)
              o.0,
        ),
        o,
      )
    ]

    pub sort_stable-Ordered : (xs : List A) → Ordered (sort_stable xs)
    unfolding sort_stable
    sort_stable-Ordered [] = tt
    sort_stable-Ordered (x ∷ xs) = insert_stable-Ordered x (sort_stable xs) (sort_stable-Ordered xs)

    abbrev pub stable_sorter : Sorter
    stable_sorter = record {
      sort = sort_stable;
      keeps = sort_stable-In;
      sorted = sort_stable-Ordered;
    }
