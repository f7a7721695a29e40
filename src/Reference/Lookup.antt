-- ===== src/Reference/Lookup.antt =====
-- reference/set.go: `Lookup`. It indexes `Entries` by the stored numbers: an index out of range
-- would panic, here `none`.
pub mod Soundness
pub mod Completeness
use rom_m_swarm.Common.{
  ℕ, Text, text_eq, text_lt, ◌==◌, ltb, Bool, true, false, not, ◌&&◌, ◌||◌, List, [], ◌∷◌, Option,
  none, some, length, get_elem?, Table, bucket, Sorter, if◌then◌else◌,
}
use rom_m_swarm.Protocol.Digest.{Digest, normalized, compare, strength_none}
use rom_m_swarm.Reference.{Entry, Set}

pub record Match : Type 0 where
  pub index : ℕ
  pub entry : Entry
  pub strength : ℕ

-- A case of the switch: the sum is known and the table has an index for it.
unfoldable pub has_bucket : Text → Table → Bool
has_bucket k m = not (text_eq k []) && ltb 0 (length (bucket k m))

unfoldable pub candidates : Digest → Set → List ℕ
candidates d s =
    if has_bucket d.sha256 s.by_sha256
    then bucket d.sha256 s.by_sha256
    else if has_bucket d.sha1 s.by_sha1
    then bucket d.sha1 s.by_sha1
    else if has_bucket d.md5 s.by_md5
    then bucket d.md5 s.by_md5
    else if has_bucket d.crc32 s.by_crc
    then bucket d.crc32 s.by_crc
    else []

-- The whole comparison decides whether a candidate is a match.
abbrev pub keep : ℕ → Entry → ℕ × Bool → List Match → List Match
keep i e (strength, ok) out =
    if not ok || strength == strength_none
    then out
    else record { index = i; entry = e; strength = strength } ∷ out

abbrev pub recheck_one : Digest → ℕ → Option Entry → Option (List Match) → Option (List Match)
recheck_one d i none rest = none
recheck_one d i (some e) none = none
recheck_one d i (some e) (some out) = some (keep i e (compare d e.digest) out)

unfoldable pub recheck : Digest → List Entry → List ℕ → Option (List Match)
recheck d es [] = some []
recheck d es (i ∷ is) = recheck_one d i (get_elem? es i) (recheck d es is)

-- The order of the matches: stronger first, then by the name of the file.
unfoldable pub comes_before : Match → Match → Bool
comes_before a b =
    if not (a.strength == b.strength)
    then ltb b.strength a.strength
    else text_lt a.entry.rom_name b.entry.rom_name

abbrev pub sort_matches : Sorter comes_before → Option (List Match) → Option (List Match)
sort_matches sorter none = none
sort_matches sorter (some out) = some (sorter.sort out)

unfoldable pub lookup : Sorter comes_before → Digest → Set → Option (List Match)
lookup sorter canonical s =
    let d = normalized canonical in sort_matches sorter (recheck d s.entries (candidates d s))
