-- ===== src/Publish/Preview/Totals.antt =====
-- The counts of a preview.
use rom_m_swarm.Common.{
  ℕ, ◌+◌, ap, ◌∙◌, refl, Bool-cases, inl, inr, pos, wrap_int64, add_int64, add_int64-wrap_int64,
  Text, ◌≡◌, List, [], ◌∷◌, get, put, length, arith, if◌then◌else◌,
}
use rom_m_swarm.Protocol.Manifest.{Item}
use rom_m_swarm.Publish.Policy.{Policy, permits}
use rom_m_swarm.Publish.Preview.{
  Preview, Reason, not_verified, excluded_individually, platform_excluded, too_large,
  platform_not_shared, withheld_reason, preview_item, preview_from, preview_policy, or_zero,
  reason_eq, blank_preview,
}

abbrev pub total : List (Text × ℕ) → ℕ
total [] = 0
total ((k, n) ∷ m) = n + total m

total-put : (k : Text) (m : List (Text × ℕ)) → total (put k (or_zero (get k m) + 1) m) ≡ total m + 1
unfolding put get
total-put k [] = omega arith
total-put k ((j, n) ∷ m) = ground (arith, total-put k m)

abbrev pub sum_reasons : (Reason → ℕ) → ℕ
sum_reasons f =
    f not_verified
    + f excluded_individually
    + f platform_excluded
    + f too_large
    + f platform_not_shared

-- How many holdings a policy permits, and their bytes.
abbrev pub permitted_count : Policy → List Item → ℕ
permitted_count p [] = 0
permitted_count p (i ∷ is) = (if permits p i then 1 else 0) + permitted_count p is

abbrev pub permitted_bytes : Policy → List Item → ℕ
permitted_bytes p [] = 0
permitted_bytes p (i ∷ is) = (if permits p i then i.canonical.size else 0) + permitted_bytes p is

pub record Adds (p : Policy) (is : List Item) (v w : Preview) : Type 0 where
  pub published_is : w.published ≡ v.published + permitted_count p is
  pub all_counted : w.published + w.withheld ≡ v.published + v.withheld + length is
  pub platforms_sum : total w.by_platform + v.published ≡ w.published + total v.by_platform
  pub reasons_sum :
      sum_reasons w.withheld_reasons + v.withheld ≡ w.withheld + sum_reasons v.withheld_reasons

one_reason :
    (p : Policy) (i : Item) (f : Reason → ℕ)
    → sum_reasons (λ r. if reason_eq (withheld_reason p i) r then f r + 1 else f r)
      ≡ sum_reasons f + 1
unfolding reason_eq
one_reason p i f = by_reason (withheld_reason p i)
  where
    by_reason :
        (x : Reason) → sum_reasons (λ r. if reason_eq x r then f r + 1 else f r) ≡ sum_reasons f + 1
    by_reason not_verified = omega arith
    by_reason _ = omega arith

preview_from-Adds : (p : Policy) (is : List Item) (v : Preview) → Adds p is v (preview_from p is v)
unfolding preview_from preview_item
preview_from-Adds p [] v = ground arith
preview_from-Adds p (i ∷ is) v = ground (
  arith,
  preview_from-Adds p is (preview_item p i v),
  one_reason p i v.withheld_reasons,
  total-put i.platform v.by_platform,
)

permitted_first :
    (p : Policy) (i : Item) (is : List Item) (a : ℕ)
    → a + (if permits p i then i.canonical.size else 0) + permitted_bytes p is
      ≡ a + permitted_bytes p (i ∷ is)
permitted_first p i is a = omega arith

plus_zero : (a : ℕ) → a ≡ a + 0
plus_zero a = omega arith

item_bytes :
    (p : Policy) (i : Item) (v : Preview) (a : ℕ)
    → v.published_bytes ≡ wrap_int64 a
    → (preview_item p i v).published_bytes
      ≡ wrap_int64 (a + (if permits p i then i.canonical.size else 0))
unfolding preview_item
item_bytes p i v a h = elim (Bool-cases (permits p i)) [
  | inl e ↦
      simp e (ap (λ x. add_int64 x i.canonical.size) h ∙ add_int64-wrap_int64 a i.canonical.size)
  | inr e ↦ simp e (h ∙ ap wrap_int64 (plus_zero a))
]

-- The sum of the bytes wraps as an int64 does, at every addition or once.
preview_from-bytes :
    (p : Policy) (is : List Item) (v : Preview) (a : ℕ)
    → v.published_bytes ≡ wrap_int64 a
    → (preview_from p is v).published_bytes ≡ wrap_int64 (a + permitted_bytes p is)
unfolding preview_from
preview_from-bytes p [] v a h = h ∙ ap wrap_int64 (plus_zero a)
preview_from-bytes p (i ∷ is) v a h =
    preview_from-bytes p is (preview_item p i v) _ (item_bytes p i v a h)
    ∙ ap wrap_int64 (permitted_first p i is a)

zero_bytes : pos 0 ≡ wrap_int64 0
unfolding wrap_int64
zero_bytes = refl

-- A preview counts every holding as published or withheld: published are the holdings that the
-- policy permits, with their bytes; the counts of the platforms add up to the published, and
-- those of the reasons to the withheld. The bytes are the int64 that their sum wraps around to.
pub preview-counts :
    (p : Policy) (holdings : List Item)
    → ((preview_policy p holdings).published ≡ permitted_count p holdings)
      × ((preview_policy p holdings).published + (preview_policy p holdings).withheld
          ≡ length holdings)
      × ((preview_policy p holdings).published_bytes ≡ wrap_int64 (permitted_bytes p holdings))
      × (total (preview_policy p holdings).by_platform ≡ (preview_policy p holdings).published)
      × (sum_reasons (preview_policy p holdings).withheld_reasons
          ≡ (preview_policy p holdings).withheld)
unfolding preview_policy blank_preview
preview-counts p holdings =
    let a = preview_from-Adds p holdings (blank_preview p) in
    let bytes = preview_from-bytes p holdings (blank_preview p) 0 zero_bytes in ground arith
