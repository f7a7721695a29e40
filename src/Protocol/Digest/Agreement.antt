-- ===== src/Protocol/Digest/Agreement.antt =====
-- What an agreement of two digests means.
use rom_m_swarm.Common.{
  ℕ, Text, text_eq, text_eq_iff, ◌≡◌, ◌↔◌, ◌≤◌, refl, ◌==◌, ltb, Bool, true, not, ◌&&◌, ◌||◌, [],
  arith, if◌then◌else◌,
}
use mathlib.Core.Path.{fun_ext}
use rom_m_swarm.Protocol.Ids.{to_lower}
use rom_m_swarm.Protocol.Digest.{
  Digest, compare, normalized, cmp, cmp_then, strength_none, strength_weak, strength_catalogue,
  strength_strong,
}

-- Two sums can belong to one payload: one is unknown, or they are equal.
unfoldable pub compatible : Text → Text → Bool
compatible x y = text_eq x [] || (text_eq y [] || text_eq x y)

-- Both sums are known and equal.
unfoldable pub confirmed : Text → Text → Bool
confirmed x y = not (text_eq x []) && (not (text_eq y []) && text_eq x y)

cmp_lem :
    (x y : Text) (level best : ℕ)
    → cmp x y level best ≡ (compatible x y, if confirmed x y && ltb best level then level else best)
unfolding cmp compatible confirmed
cmp_lem x y level best = ground arith

confirmed-compatible : (x y : Text) → confirmed x y ≡ true → compatible x y ≡ true
unfolding confirmed compatible
confirmed-compatible x y h = ground arith

abbrev pub sizes_fit : Digest → Digest → Bool
sizes_fit a b = a.size == 0 || (b.size == 0 || a.size == b.size)

-- `Compare` reports strong agreement exactly where, up to the case of the sums, both digests
-- know the same SHA-256, no other sum known on both sides differs, and the sizes are equal or
-- one of them is 0.
pub compare_strong :
    (d e : Digest)
    → (compare d e ≡ (strength_strong, true)) ↔ (
        (sizes_fit d e ≡ true)
        × (compatible (to_lower d.crc32) (to_lower e.crc32) ≡ true)
        × (compatible (to_lower d.md5) (to_lower e.md5) ≡ true)
        × (compatible (to_lower d.sha1) (to_lower e.sha1) ≡ true)
        × (confirmed (to_lower d.sha256) (to_lower e.sha256) ≡ true))
unfolding compare cmp_then normalized
compare_strong d e =
    rw
      (
        cmp_lem (to_lower d.crc32),
        cmp_lem (to_lower d.md5),
        cmp_lem (to_lower d.sha1),
        cmp_lem (to_lower d.sha256),
      )
      (let c = confirmed-compatible (to_lower d.sha256) (to_lower e.sha256) in
        (λ h. ground arith, λ h. ground arith))

cmp_comm : (x y : Text) (level best : ℕ) → cmp x y level best ≡ cmp y x level best
unfolding cmp
cmp_comm x y level best = ground (arith, text_eq_iff x y, text_eq_iff y x)

cmp_then_same :
    (p q : Bool × ℕ) (f g : ℕ → ℕ × Bool)
    → p ≡ q
    → ((best : ℕ) → f best ≡ g best)
    → cmp_then p f ≡ cmp_then q g
cmp_then_same p q f g e h = rw (e, fun_ext h)

-- `Compare` does not depend on the order of its two digests.
pub compare_comm : (d e : Digest) → compare d e ≡ compare e d
unfolding compare normalized
compare_comm d e =
    let rest =
      cmp_then_same _ _ _ _
        (cmp_comm (to_lower d.crc32) (to_lower e.crc32) strength_weak strength_none)
        (λ b.
          cmp_then_same _ _ _ _ (cmp_comm (to_lower d.md5) (to_lower e.md5) strength_catalogue b)
            (λ b.
              cmp_then_same _ _ _ _
                (cmp_comm (to_lower d.sha1) (to_lower e.sha1) strength_catalogue b)
                (λ b.
                  cmp_then_same _ _ (λ best. (best, true)) (λ best. (best, true))
                    (cmp_comm (to_lower d.sha256) (to_lower e.sha256) strength_strong b)
                    (λ b. refl)))) in
    ground (arith, rest)

-- No agreement is more than strong.
pub compare_bound : (d e : Digest) → (compare d e).0 ≤ strength_strong
unfolding compare cmp cmp_then normalized
compare_bound d e = ground arith
