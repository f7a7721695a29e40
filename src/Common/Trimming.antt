-- ===== src/Common/Trimming.antt =====
-- What trimming keeps.
use Prim.Native.Nat.{ℕ, ◌≤◌}
use mathlib.Core.Path.{◌≡◌}
use mathlib.Core.Bool.{Bool, true, false}
use mathlib.Core.List.{[], ◌∷◌, ◌++◌}
use native.Mathlib.Omega.{arith}
use rom_m_swarm.Common.Texts.{Text, text_eq}
use rom_m_swarm.Common.Lists.{length}
use rom_m_swarm.Common.Strings.{is_space, trim_left, trim_right, trim_func, trim_space}

module _ (p : ℕ → Bool) where
  trim_left-length : (s : Text) → length (trim_left p s) ≤ length s
  unfolding trim_left
  trim_left-length [] = omega arith
  trim_left-length (c ∷ cs) = ground (arith, trim_left-length cs)

  trim_right-length : (s : Text) → length (trim_right p s) ≤ length s
  unfolding trim_right
  trim_right-length [] = omega arith
  trim_right-length (c ∷ cs) = ground (arith, trim_right-length cs)

  trim_right-keeps : (s : Text) (x : ℕ) → p x ≡ false → trim_right p (s ++ x ∷ []) ≡ s ++ x ∷ []
  unfolding trim_right text_eq
  trim_right-keeps [] x h = ground arith
  trim_right-keeps (c ∷ []) x h = ground (arith, trim_right-keeps [] x)
  trim_right-keeps (c ∷ d ∷ s) x h = ground (arith, trim_right-keeps (d ∷ s) x)

  trim_right-drops : (s : Text) (x : ℕ) → p x ≡ true → trim_right p (s ++ x ∷ []) ≡ trim_right p s
  unfolding trim_right text_eq
  trim_right-drops [] x h = ground arith
  trim_right-drops (c ∷ s) x h = ground (arith, trim_right-drops s x)

pub trim_space-length : (s : Text) → length (trim_space s) ≤ length s
unfolding trim_space trim_func
trim_space-length s =
    omega (arith, trim_left-length is_space s, trim_right-length is_space (trim_left is_space s))

-- A string that begins and ends with bytes that are no spaces.
pub trim_space-keeps :
    (c x : ℕ) (s : Text)
    → is_space c ≡ false
    → is_space x ≡ false
    → trim_space (c ∷ s ++ x ∷ []) ≡ c ∷ s ++ x ∷ []
unfolding trim_space trim_func trim_left
trim_space-keeps c x s h k = rw h (trim_right-keeps is_space (c ∷ s) x k)

-- A space at the end of a string that begins with no space.
pub trim_space-drops :
    (c x : ℕ) (s : Text)
    → is_space c ≡ false
    → is_space x ≡ true
    → trim_space (c ∷ s ++ x ∷ []) ≡ trim_space (c ∷ s)
unfolding trim_space trim_func trim_left
trim_space-drops c x s h k = rw h (trim_right-drops is_space (c ∷ s) x k)
