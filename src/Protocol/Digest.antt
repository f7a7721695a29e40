-- ===== src/Protocol/Digest.antt =====
-- protocol/digest.go: digests and how strongly two of them agree. The sums themselves come from
-- the hash functions, which are arguments elsewhere.
pub mod Agreement
use rom_m_swarm.Common.{
  ℕ, Text, text_eq, ◌==◌, ltb, Bool, true, false, not, ◌&&◌, ◌||◌, [], if◌then◌else◌,
}
use rom_m_swarm.Protocol.Ids.{to_lower}

pub record Digest : Type 0 where
  pub size : ℕ
  pub crc32 : Text
  pub md5 : Text
  pub sha1 : Text
  pub sha256 : Text

unfoldable pub normalized : Digest → Digest
normalized d = record d {
  crc32 = to_lower d.crc32;
  md5 = to_lower d.md5;
  sha1 = to_lower d.sha1;
  sha256 = to_lower d.sha256;
}

-- StrengthLevel: the constants count up from `StrengthNone`.
abbrev pub strength_none : ℕ
strength_none = 0

abbrev pub strength_weak : ℕ
strength_weak = 1

abbrev pub strength_catalogue : ℕ
strength_catalogue = 2

abbrev pub strength_strong : ℕ
strength_strong = 3

-- The closure `cmp`: whether the pair is compatible, and the best level so far.
unfoldable pub cmp : Text → Text → ℕ → ℕ → Bool × ℕ
cmp x y level best =
    if text_eq x [] || text_eq y []
    then (true, best)
    else if not (text_eq x y)
    then (false, best)
    else if ltb best level
    then (true, level)
    else (true, best)

-- A comparison that must succeed before the next is made.
unfoldable pub cmp_then : Bool × ℕ → (ℕ → ℕ × Bool) → ℕ × Bool
cmp_then (fits, best) rest = if not fits then (strength_none, false) else rest best

unfoldable pub compare : Digest → Digest → ℕ × Bool
compare d other =
    let a = normalized d in
    let b = normalized other in
    if not (a.size == 0) && (not (b.size == 0) && not (a.size == b.size))
    then (strength_none, false)
    else cmp_then (cmp a.crc32 b.crc32 strength_weak strength_none) λ best.
      cmp_then (cmp a.md5 b.md5 strength_catalogue best) λ best.
        cmp_then (cmp a.sha1 b.sha1 strength_catalogue best)
          λ best. cmp_then (cmp a.sha256 b.sha256 strength_strong best) λ best. (best, true)
