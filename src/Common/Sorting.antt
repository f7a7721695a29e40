-- ===== src/Common/Sorting.antt =====
-- `sort.Slice` as insertion sort. It is not stable in Go; where two elements are never equal under
-- the order, as in each use here, the sorted slice is the only one.
use mathlib.Core.Path.{◌≡◌, refl}
use mathlib.Core.Bool.{Bool, true, false, ◌||◌, not, ◌&&◌}
use mathlib.Core.List.{List, [], ◌∷◌, ◌++◌}
use mathlib.Core.Logic.{inl, inr}
use mathlib.Core.Option.{Option, none, some}
use native.Mathlib.Omega.{arith}
use rom_m_swarm.Common.Tests.{if◌then◌else◌, Bool-cases}
use rom_m_swarm.Common.Lists.{any, all, All}
use rom_m_swarm.Common.Texts.{
  Text, text_eq, text_eq_iff, text_eq_refl, text_lt, text_lt_trans, text_lt_total,
}

abbrev pub or_else {ℓ} : {A : Type ℓ} → Option A → Option A → Option A
or_else none y = y
or_else (some x) y = some x

module _ {ℓ} {A : Type ℓ} (less : A → A → Bool) where
  unfoldable pub insert_by : A → List A → List A
  insert_by x [] = x ∷ []
  insert_by x (y ∷ ys) = if less x y then x ∷ y ∷ ys else y ∷ insert_by x ys

  unfoldable pub sort_by : List A → List A
  unfolding insert_by
  sort_by [] = []
  sort_by (x ∷ xs) = insert_by x (sort_by xs)

  any-insert_by : (p : A → Bool) (x : A) (xs : List A) → any p (insert_by x xs) ≡ (p x || any p xs)
  unfolding insert_by
  any-insert_by p x [] = refl
  any-insert_by p x (y ∷ ys) = ground (arith, any-insert_by p x ys)

  -- Sorting keeps what holds of some element, and what holds of all.
  pub any-sort_by : (p : A → Bool) (xs : List A) → any p (sort_by xs) ≡ any p xs
  unfolding sort_by
  any-sort_by p [] = refl
  any-sort_by p (x ∷ xs) = ground (arith, any-insert_by p x (sort_by xs), any-sort_by p xs)

  All-insert_by {κ} :
      (P : A → Type κ) (x : A) (xs : List A) → P x → All P xs → All P (insert_by x xs)
  unfolding insert_by
  All-insert_by P x [] h hs = (h, tt)
  All-insert_by P x (y ∷ ys) h hs = elim (Bool-cases (less x y)) [
    | inl e ↦ rw e (h, hs)
    | inr e ↦ rw e (hs.0, All-insert_by P x ys h hs.1)
  ]

  pub All-sort_by {κ} : (P : A → Type κ) (xs : List A) → All P xs → All P (sort_by xs)
  unfolding sort_by
  All-sort_by P [] h = tt
  All-sort_by P (x ∷ xs) h = All-insert_by P x (sort_by xs) h.0 (All-sort_by P xs h.1)

module _ {ℓ} {A : Type ℓ} (key : A → Text) where
  abbrev pub by_key : A → A → Bool
  by_key x y = text_lt (key x) (key y)

  -- Some element has this key.
  abbrev pub has_key : Text → List A → Bool
  has_key k = any (λ x. text_eq (key x) k)

  -- No key is there twice.
  abbrev pub distinct_keys : List A → Bool
  distinct_keys [] = true
  distinct_keys (x ∷ xs) = not (has_key (key x) xs) && distinct_keys xs

  -- Each key is below those that follow.
  abbrev pub ascending : List A → Bool
  ascending [] = true
  ascending (x ∷ xs) = all (by_key x) xs && ascending xs

  all_above :
      (x y : A) (ys : List A)
      → text_lt (key x) (key y) ≡ true
      → all (by_key y) ys ≡ true
      → all (by_key x) ys ≡ true
  all_above x y [] h a = refl
  all_above x y (z ∷ zs) h a =
      ground (arith, all_above x y zs, text_lt_trans (key x) (key y) (key z))

  all-insert_by :
      (p : A → Bool) (x : A) (xs : List A) → all p (insert_by by_key x xs) ≡ (p x && all p xs)
  unfolding insert_by
  all-insert_by p x [] = refl
  all-insert_by p x (y ∷ ys) = ground (arith, all-insert_by p x ys)

  insert_by-ascending :
      (x : A) (xs : List A)
      → has_key (key x) xs ≡ false
      → ascending xs ≡ true
      → ascending (insert_by by_key x xs) ≡ true
  unfolding insert_by
  insert_by-ascending x [] h a = refl
  insert_by-ascending x (y ∷ ys) h a = ground (
    arith,
    insert_by-ascending x ys,
    all_above x y ys,
    all-insert_by (by_key y) x ys,
    text_lt_total (key x) (key y),
    text_eq_iff (key y) (key x),
  )

  -- A slice with distinct keys is sorted strictly.
  pub sort_by-ascending :
      (xs : List A) → distinct_keys xs ≡ true → ascending (sort_by by_key xs) ≡ true
  unfolding sort_by
  sort_by-ascending [] h = refl
  sort_by-ascending (x ∷ xs) h = ground (
    arith,
    sort_by-ascending xs,
    any-sort_by by_key (λ y. text_eq (key y) (key x)) xs,
    insert_by-ascending x (sort_by by_key xs),
  )

module _ {ℓ} {A : Type ℓ} (less : A → A → Bool) (key : A → Text) where
  -- The first element with this key.
  unfoldable pub find_key : Text → List A → Option A
  find_key k [] = none
  find_key k (x ∷ xs) = if text_eq (key x) k then some x else find_key k xs

  pub find_absent : (k : Text) (xs : List A) → has_key key k xs ≡ false → find_key k xs ≡ none
  unfolding find_key
  find_absent k [] h = refl
  find_absent k (x ∷ xs) h = ground (arith, find_absent k xs)

  distinct_keys-insert_by :
      (x : A) (xs : List A)
      → distinct_keys key (insert_by less x xs)
        ≡ (not (has_key key (key x) xs) && distinct_keys key xs)
  unfolding insert_by
  distinct_keys-insert_by x [] = refl
  distinct_keys-insert_by x (y ∷ ys) = ground (
    arith,
    distinct_keys-insert_by x ys,
    any-insert_by less (λ z. text_eq (key z) (key y)) x ys,
    text_eq_iff (key x) (key y),
    text_eq_iff (key y) (key x),
  )

  pub distinct_keys-sort_by :
      (xs : List A) → distinct_keys key (sort_by less xs) ≡ distinct_keys key xs
  unfolding sort_by
  distinct_keys-sort_by [] = refl
  distinct_keys-sort_by (x ∷ xs) = ground (
    arith,
    distinct_keys-insert_by x (sort_by less xs),
    distinct_keys-sort_by xs,
    any-sort_by less (λ z. text_eq (key z) (key x)) xs,
  )

  find-insert_by :
      (k : Text) (x : A) (xs : List A)
      → has_key key (key x) xs ≡ false
      → find_key k (insert_by less x xs) ≡ find_key k (x ∷ xs)
  unfolding insert_by find_key
  find-insert_by k x [] h = refl
  find-insert_by k x (y ∷ ys) h = ground (
    arith,
    find-insert_by k x ys,
    text_eq_iff (key x) k,
    text_eq_iff (key y) k,
    text_eq_iff (key y) (key x),
  )

  -- Where no key is there twice, sorting does not change what is found under a key.
  pub find-sort_by :
      (k : Text) (xs : List A)
      → distinct_keys key xs ≡ true
      → find_key k (sort_by less xs) ≡ find_key k xs
  unfolding sort_by find_key
  find-sort_by k [] h = refl
  find-sort_by k (x ∷ xs) h = ground (
    arith,
    find-sort_by k xs,
    find-insert_by k x (sort_by less xs),
    any-sort_by less (λ z. text_eq (key z) (key x)) xs,
  )

  pub find-append :
      (k : Text) (xs ys : List A) → find_key k (xs ++ ys) ≡ or_else (find_key k xs) (find_key k ys)
  unfolding find_key
  find-append k [] ys = refl
  find-append k (x ∷ xs) ys = ground (arith, find-append k xs ys)

  pub has_key-append :
      (k : Text) (xs ys : List A)
      → has_key key k (xs ++ ys) ≡ (has_key key k xs || has_key key k ys)
  has_key-append k [] ys = refl
  has_key-append k (x ∷ xs) ys = ground (arith, has_key-append k xs ys)

  -- Two parts with distinct keys and no key in common.
  pub distinct_keys-append :
      (xs ys : List A)
      → distinct_keys key xs ≡ true
      → distinct_keys key ys ≡ true
      → ((k : Text) → has_key key k xs ≡ true → has_key key k ys ≡ false)
      → distinct_keys key (xs ++ ys) ≡ true
  distinct_keys-append [] ys h k d = k
  distinct_keys-append (x ∷ xs) ys h k d = ground (
    arith,
    distinct_keys-append xs ys,
    λ (z : Text). d z,
    d (key x),
    has_key-append (key x) xs ys,
    text_eq_refl (key x),
  )
