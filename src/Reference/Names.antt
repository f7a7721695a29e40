-- ===== src/Reference/Names.antt =====
-- reference/name.go: names of catalogue entries and their tags. The loop of `splitTags` runs on
-- fuel, one more than the length of the name.
pub mod Splitting
use rom_m_swarm.Common.{
  ℕ, zero, suc, ◌+◌, ◌-◌, ◌*◌, ◌/◌, ◌%◌, ◌^◌, Text, codes, text_eq, ◌==◌, ltb, leb, Bool, true,
  false, not, ◌&&◌, ◌||◌, List, [], ◌∷◌, ◌++◌, Option, none, some, map, any, all, length, last?,
  drop, contains, get, trim_space, trim_func, is_digit, is_space, fields, join, split, split_n, ℤ,
  pos, negsuc, wrap_int64, atoi, unsigned, starts_with, if◌then◌else◌,
}
use rom_m_swarm.Protocol.Ids.{to_lower}

pub record NameMeta : Type 0 where
  pub canonical_key : Text
  pub regions : List Text
  pub languages : List Text
  pub revision : Text
  pub revision_rank : ℤ
  pub flags : List Text
  pub is_bios : Bool

abbrev pub known_regions : List (Text × Text)
known_regions =
    (codes "world", codes "World")
    ∷ (codes "usa", codes "USA")
    ∷ (codes "europe", codes "Europe")
    ∷ (codes "japan", codes "Japan")
    ∷ (codes "asia", codes "Asia")
    ∷ (codes "australia", codes "Australia")
    ∷ (codes "brazil", codes "Brazil")
    ∷ (codes "canada", codes "Canada")
    ∷ (codes "china", codes "China")
    ∷ (codes "korea", codes "Korea")
    ∷ (codes "taiwan", codes "Taiwan")
    ∷ (codes "russia", codes "Russia")
    ∷ (codes "france", codes "France")
    ∷ (codes "germany", codes "Germany")
    ∷ (codes "italy", codes "Italy")
    ∷ (codes "spain", codes "Spain")
    ∷ (codes "netherlands", codes "Netherlands")
    ∷ (codes "sweden", codes "Sweden")
    ∷ (codes "norway", codes "Norway")
    ∷ (codes "denmark", codes "Denmark")
    ∷ (codes "finland", codes "Finland")
    ∷ (codes "portugal", codes "Portugal")
    ∷ (codes "greece", codes "Greece")
    ∷ (codes "hong kong", codes "Hong Kong")
    ∷ (codes "india", codes "India")
    ∷ (codes "israel", codes "Israel")
    ∷ (codes "mexico", codes "Mexico")
    ∷ (codes "new zealand", codes "New Zealand")
    ∷ (codes "poland", codes "Poland")
    ∷ (codes "scandinavia", codes "Scandinavia")
    ∷ (codes "south africa", codes "South Africa")
    ∷ (codes "switzerland", codes "Switzerland")
    ∷ (codes "turkey", codes "Turkey")
    ∷ (codes "united kingdom", codes "United Kingdom")
    ∷ (codes "belgium", codes "Belgium")
    ∷ (codes "austria", codes "Austria")
    ∷ (codes "ireland", codes "Ireland")
    ∷ (codes "latin america", codes "Latin America")
    ∷ (codes "unknown", codes "Unknown")
    ∷ []

abbrev pub known_languages : List Text
known_languages =
    codes "en"
    ∷ codes "ja"
    ∷ codes "fr"
    ∷ codes "de"
    ∷ codes "es"
    ∷ codes "it"
    ∷ codes "nl"
    ∷ codes "pt"
    ∷ codes "sv"
    ∷ codes "no"
    ∷ codes "da"
    ∷ codes "fi"
    ∷ codes "zh"
    ∷ codes "ko"
    ∷ codes "ru"
    ∷ codes "pl"
    ∷ codes "cs"
    ∷ codes "hu"
    ∷ codes "el"
    ∷ codes "tr"
    ∷ codes "ar"
    ∷ codes "he"
    ∷ codes "ca"
    ∷ codes "sl"
    ∷ codes "hr"
    ∷ codes "sk"
    ∷ codes "ro"
    ∷ codes "bg"
    ∷ codes "uk"
    ∷ codes "et"
    ∷ codes "lv"
    ∷ codes "lt"
    ∷ codes "id"
    ∷ codes "ms"
    ∷ codes "th"
    ∷ codes "vi"
    ∷ codes "hi"
    ∷ codes "gd"
    ∷ codes "af"
    ∷ codes "sq"
    ∷ codes "eu"
    ∷ codes "fa"
    ∷ []

-- What stands before and after the last occurrence of a byte.
abbrev pub cut_here : ℕ → ℕ → Text → Option (Text × Text) → Option (Text × Text)
cut_here sep c cs none = if c == sep then some ([], cs) else none
cut_here sep c cs (some (before, after)) = some (c ∷ before, after)

unfoldable pub cut_last : ℕ → Text → Option (Text × Text)
cut_last sep [] = none
cut_last sep (c ∷ cs) = cut_here sep c cs (cut_last sep cs)

-- s[:len(s)-1]
unfoldable pub drop_last : Text → Text
drop_last [] = []
drop_last (c ∷ []) = []
drop_last (c ∷ d ∷ s) = c ∷ drop_last (d ∷ s)

-- The opening bracket for the last byte, if that closes one.
abbrev pub opening : Option ℕ → Option ℕ
opening none = none
opening (some c) = if c == b')' then some b'(' else if c == b']' then some b'[' else none

-- One turn: the trailing group that is cut off, with what stands before it.
abbrev pub group_of : Option (Text × Text) → Option (Text × Text)
group_of none = none
group_of (some (before, after)) = some (before, trim_space (drop_last after))

abbrev pub peel_by : Option ℕ → Text → Option (Text × Text)
peel_by none trimmed = none
peel_by (some bracket) trimmed = group_of (cut_last bracket trimmed)

unfoldable pub peel : Text → Option (Text × Text)
peel trimmed = peel_by (opening (last? trimmed)) trimmed

-- A turn of the loop, `next` being those that follow: `tags` are the ones to the right of `base`.
abbrev pub split_turn :
    Option (Text × Text)
    → (Text → List Text → Option (List Text × Text))
    → List Text
    → Text
    → Option (List Text × Text)
split_turn none next tags trimmed = some (tags, trimmed)
split_turn (some (before, tag)) next tags trimmed = next before (tag ∷ tags)

-- `none` where the fuel ends.
unfoldable pub split_loop : ℕ → Text → List Text → Option (List Text × Text)
split_loop zero base tags = none
split_loop (suc fuel) base tags =
    split_turn (peel (trim_space base)) (split_loop fuel) tags (trim_space base)

unfoldable pub split_tags : Text → Option (List Text × Text)
split_tags s = split_loop (suc (length s)) s []

unfoldable pub normalize_key : Text → Text
normalize_key s = join (codes " ") (fields (trim_space s))

unfoldable pub is_region_tag : Text → Bool
is_region_tag tag =
    all (λ p. elim (get (to_lower (trim_space p)) known_regions) [ none ↦ false | some r ↦ true ])
      (split b',' tag)

unfoldable pub known_parts : List Text → List Text
known_parts [] = []
known_parts (p ∷ ps) = elim (get (to_lower (trim_space p)) known_regions) [
  | none ↦ known_parts ps
  | some canonical ↦ canonical ∷ known_parts ps
]

unfoldable pub split_regions : Text → List Text
split_regions tag = known_parts (split b',' tag)

unfoldable pub is_language_tag : Text → Bool
is_language_tag tag = all (λ p. contains (to_lower (trim_space p)) known_languages) (split b',' tag)

unfoldable pub split_languages : Text → List Text
split_languages tag = map (λ p. to_lower (trim_space p)) (split b',' tag)

-- The first two bytes are `v` and a digit.
unfoldable pub is_version : Text → Bool
is_version [] = false
is_version (c ∷ []) = false
is_version (c ∷ d ∷ s) = c == b'v' && is_digit d

unfoldable pub is_revision_tag : Text → Bool
is_revision_tag tag =
    let lower = to_lower tag in
    starts_with lower (codes "rev ") || text_eq lower (codes "rev") || is_version lower

-- One part of a version: a part that is no number ends the loop, as does the last scale. The
-- bytes that are not digits are trimmed, so no part is negative.
abbrev pub add_part : Option ℤ → ℕ → ℕ → ℕ → ℕ
add_part none rank scale next = rank
add_part (some (negsuc n)) rank scale next = rank
add_part (some (pos n)) rank scale next = if scale / 100 == 0 then rank + n * scale else next

abbrev pub part_value : Option ℤ → ℕ
part_value none = 0
part_value (some (negsuc n)) = 0
part_value (some (pos n)) = n

-- The loop over the parts of a version, the rank being kept as a number whose low 64 bits count.
unfoldable pub version_rank : ℕ → ℕ → List Text → ℕ
version_rank rank scale [] = rank
version_rank rank scale (p ∷ ps) =
    let n = atoi (trim_func (λ r. not (is_digit r)) p) in
    add_part n rank scale (version_rank (rank + part_value n * scale) (scale / 100) ps)

-- A letter revision, `a` being the first.
unfoldable pub letter_rank : Text → ℤ
letter_rank [] = pos 1
letter_rank (c ∷ []) = if leb b'a' c && leb c b'z' then pos (c - b'a' + 1) else pos 1
letter_rank (c ∷ d ∷ s) = pos 1

unfoldable pub revision_rank : Text → ℤ
revision_rank tag =
    let lower = to_lower (trim_space tag) in
    let rest = trim_space (drop 3 lower) in
    if starts_with lower (codes "rev")
    then (if text_eq rest []
        then pos 1
        else elim (atoi rest) [ some n ↦ n | none ↦ letter_rank rest ])
    else if ltb 1 (length lower) && starts_with lower (codes "v")
    then wrap_int64 (version_rank 0 10000 (split_n 3 b'.' (drop 1 lower)))
    else pos 0

-- One turn of the loop over the tags.
unfoldable pub read_tag : Text → NameMeta → NameMeta
read_tag tag meta =
    if is_region_tag tag
    then record meta { regions = meta.regions ++ split_regions tag }
    else if is_language_tag tag
    then record meta { languages = meta.languages ++ split_languages tag }
    else if is_revision_tag tag
    then record meta { revision = tag; revision_rank = revision_rank tag }
    else record meta {
      flags = meta.flags ++ tag ∷ [];
      is_bios = if text_eq (to_lower tag) (to_lower (codes "BIOS")) then true else meta.is_bios;
    }

unfoldable pub read_tags : List Text → NameMeta → NameMeta
read_tags [] meta = meta
read_tags (tag ∷ tags) meta = read_tags tags (read_tag tag meta)

-- The prefix of a BIOS entry, and what is left of the name.
unfoldable pub cut_bios : Text → Bool × Text
cut_bios name =
    let work = trim_space name in
    if starts_with work (codes "[BIOS]") then (true, trim_space (drop 6 work)) else (false, work)

abbrev pub meta_of : Bool → Option (List Text × Text) → Option NameMeta
meta_of bios none = none
meta_of bios (some (tags, base)) = some (
    read_tags tags (record {
      canonical_key = normalize_key base;
      regions = [];
      languages = [];
      revision = [];
      revision_rank = pos 0;
      flags = [];
      is_bios = bios;
    }))

unfoldable pub parse_name : Text → Option NameMeta
parse_name name = meta_of (cut_bios name).0 (split_tags (cut_bios name).1)
