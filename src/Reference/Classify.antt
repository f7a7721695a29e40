-- ===== src/Reference/Classify.antt =====
-- reference/classify.go: what a held file is. The notes, which are messages, are left out.
pub mod Evidence
use rom_m_swarm.Common.{
  ℕ, Text, codes, text_eq, ◌==◌, ltb, leb, Bool, true, false, not, ◌&&◌, ◌||◌, List, [], ◌∷◌,
  Option, none, some, map, length, contains, distinct, trim_space, fields_func, join, contains_text,
  Sorter, if◌then◌else◌,
}
use rom_m_swarm.Protocol.Ids.{to_lower}
use rom_m_swarm.Protocol.Digest.{Digest}
use rom_m_swarm.Protocol.Manifest.{
  Classification, unmatched, matched_unverified, verified_excluded, verified_eligible, conflict,
  ReferenceMatch,
}
use rom_m_swarm.Verify.{Result}
use rom_m_swarm.Reference.Lookup.{Match, lookup, comes_before}
use rom_m_swarm.Reference.Profile.{Selection, includes}

pub record Outcome : Type 0 where
  pub classification : Classification
  pub match : Option ReferenceMatch

abbrev pub leading_articles : List Text
leading_articles =
    codes "the"
    ∷ codes "a"
    ∷ codes "an"
    ∷ codes "le"
    ∷ codes "la"
    ∷ codes "les"
    ∷ codes "l"
    ∷ codes "der"
    ∷ codes "die"
    ∷ codes "das"
    ∷ codes "el"
    ∷ codes "los"
    ∷ codes "las"
    ∷ codes "il"
    ∷ codes "lo"
    ∷ codes "gli"
    ∷ codes "de"
    ∷ codes "het"
    ∷ []

unfoldable pub is_separator : ℕ → Bool
is_separator r =
    let is_letter = leb b'a' r && leb r b'z' in
    let is_digit = leb b'0' r && leb r b'9' in not is_letter && not is_digit

unfoldable pub drop_leading : List Text → List Text
drop_leading [] = []
drop_leading (w ∷ []) = w ∷ []
drop_leading (w ∷ v ∷ ws) = if contains w leading_articles then v ∷ ws else w ∷ v ∷ ws

unfoldable pub drop_trailing : List Text → List Text
drop_trailing [] = []
drop_trailing (w ∷ []) = w ∷ []
drop_trailing (w ∷ v ∷ []) = if contains v leading_articles then w ∷ [] else w ∷ v ∷ []
drop_trailing (w ∷ v ∷ u ∷ ws) = w ∷ drop_trailing (v ∷ u ∷ ws)

unfoldable pub normalize_title : Text → Text
normalize_title s = join [] (drop_trailing (drop_leading (fields_func is_separator (to_lower s))))

unfoldable pub titles_agree : Text → Text → Bool
titles_agree a b =
    let na = normalize_title a in
    let nb = normalize_title b in
    if text_eq na [] || text_eq nb []
    then true
    else text_eq na nb || contains_text na nb || contains_text nb na

-- The first match that the profile includes, else the first of all.
unfoldable pub best_match : Selection → Match → List Match → Match
best_match sel first [] = first
best_match sel first (m ∷ ms) =
    let later = best_match sel first ms in if includes sel m.index then m else later

unfoldable pub reference_of : Selection → Match → ReferenceMatch
reference_of sel best = record {
  family = sel.set.family;
  set_name = sel.set.name;
  set_version = sel.set.version;
  entry_name = best.entry.rom_name;
  canonical_key = best.entry.canonical_key;
  strength = best.strength;
}

-- The end of `Classify`, from the best match on.
unfoldable pub judge : Selection → Text → Match → Outcome
judge sel metadata_title best =
    let title = trim_space metadata_title in
    let ref_match = some (reference_of sel best) in
    if not (text_eq title []) && not (titles_agree title best.entry.canonical_key)
    then record { classification = conflict; match = ref_match }
    else if not (includes sel best.index)
    then record { classification = verified_excluded; match = ref_match }
    else record { classification = verified_eligible; match = ref_match }

abbrev pub match_key : Match → Text
match_key m = m.entry.canonical_key

-- `Classify` once the matches are known.
unfoldable pub judge_matches : Selection → Text → List Match → Outcome
judge_matches sel metadata_title [] =
    if not (text_eq (trim_space metadata_title) [])
    then record { classification = matched_unverified; match = none }
    else record { classification = unmatched; match = none }
judge_matches sel metadata_title (m ∷ ms) =
    if ltb 1 (distinct (map match_key (m ∷ ms)))
    then record { classification = conflict; match = none }
    else judge sel metadata_title (best_match sel m (m ∷ ms))

abbrev pub judge_found : Selection → Text → Option (List Match) → Option Outcome
judge_found sel metadata_title none = none
judge_found sel metadata_title (some matches) = some (judge_matches sel metadata_title matches)

-- `none` where the lookup panics. A nil result is `none`.
unfoldable pub classify : Sorter comes_before → Option Result → Selection → Text → Option Outcome
classify sorter none sel metadata_title = some (record { classification = unmatched; match = none })
classify sorter (some res) sel metadata_title =
    if not res.canonicalized
    then some (record { classification = unmatched; match = none })
    else judge_found sel metadata_title (lookup sorter res.canonical sel.set)
