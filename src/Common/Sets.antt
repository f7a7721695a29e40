-- ===== src/Common/Sets.antt =====
-- Finite sets of strings as lists: membership by a test, and the number of distinct elements.
use Prim.Native.Nat.{ℕ, suc, ◌≤◌}
use mathlib.Core.Path.{◌≡◌, refl}
use mathlib.Core.Logic.{inl, inr}
use mathlib.Core.Bool.{Bool, true, false, ◌||◌, not, ◌&&◌}
use mathlib.Core.List.{List, [], ◌∷◌}
use native.Mathlib.Omega.{arith}
use rom_m_swarm.Common.Tests.{if◌then◌else◌, Bool-cases}
use rom_m_swarm.Common.Texts.{Text, text_eq, text_eq_iff, text_eq_refl}

unfoldable pub contains : Text → List Text → Bool
contains k [] = false
contains k (j ∷ js) = text_eq j k || contains k js

-- How many different strings a list holds.
unfoldable pub distinct : List Text → ℕ
distinct [] = 0
distinct (k ∷ ks) = if contains k ks then distinct ks else suc (distinct ks)

unfoldable pub without : Text → List Text → List Text
without k [] = []
without k (j ∷ js) = if text_eq j k then without k js else j ∷ without k js

pub contains-without :
    (k j : Text) (ks : List Text) → contains j (without k ks) ≡ (not (text_eq k j) && contains j ks)
unfolding contains without
contains-without k j [] = ground arith
contains-without k j (i ∷ is) =
    ground (arith, contains-without k j is, text_eq_iff i k, text_eq_iff i j, text_eq_iff k j)

without_absent : (k : Text) (ks : List Text) → contains k ks ≡ false → without k ks ≡ ks
unfolding contains without
without_absent k [] h = refl
without_absent k (j ∷ js) h = ground (arith, without_absent k js)

distinct-without :
    (k : Text) (ks : List Text) → contains k ks ≡ true → distinct ks ≡ suc (distinct (without k ks))
unfolding contains without distinct
distinct-without k [] h = ground arith
distinct-without k (j ∷ js) h = ground (
  arith,
  distinct-without k js,
  contains-without k j js,
  text_eq_iff j k,
  text_eq_iff k j,
  without_absent k js,
)

-- `k` is not in `ks`, so what is in `ks` is not `k`.
sub_without :
    (a k : Text) (ks ls : List Text)
    → contains k ks ≡ false
    → contains a ks ≡ true
    → contains a ls ≡ true
    → contains a (without k ls) ≡ true
sub_without a k ks ls e m h = ground (arith, contains-without k a ls, text_eq_iff k a)

-- A set that lies in another has no more elements.
pub distinct_mono :
    (ks ls : List Text)
    → ((a : Text) → contains a ks ≡ true → contains a ls ≡ true)
    → distinct ks ≤ distinct ls
unfolding contains distinct
distinct_mono [] ls h = omega arith
distinct_mono (k ∷ ks) ls h = elim (Bool-cases (contains k ks)) [
  | inl e ↦ rw e (distinct_mono ks ls (λ a m. h a (ground arith)))
  | inr e ↦
      let inside : contains k ls ≡ true = h k (ground (arith, text_eq_refl k)) in
      let sub =
        λ (a : Text) (m : contains a ks ≡ true). sub_without a k ks ls e m (h a (ground arith)) in
      rw e (omega (arith, distinct-without k ls inside, distinct_mono ks (without k ls) sub))
]

pub distinct_same :
    (ks ls : List Text) → ((a : Text) → contains a ks ≡ contains a ls) → distinct ks ≡ distinct ls
distinct_same ks ls h = omega (
  arith,
  distinct_mono ks ls (λ a m. ground (arith, h a)),
  distinct_mono ls ks (λ a m. ground (arith, h a)),
)
