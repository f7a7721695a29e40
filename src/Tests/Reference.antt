-- ===== src/Tests/Reference.antt =====
-- Catalogues, profiles and classification at concrete inputs.
use rom_m_swarm.Common.{
  ℕ, codes, text_eq, text_lt, ◌≡◌, refl, true, false, none, some, List, [], ◌∷◌, get, put, bucket,
  enter, tabulate, get_elem?, pos, lt_int, trim_space, trim_func, trim_left, trim_right, is_space,
  In, distinct, contains, fields_func, fields_from, join, contains_text, starts_with, insert_stable,
  sort_stable,
}
use rom_m_swarm.Protocol.Ids.{to_lower, lower_byte}
use rom_m_swarm.Protocol.Digest.{Digest, normalized, compare, cmp, cmp_then, strength_strong}
use rom_m_swarm.Protocol.Manifest.{verified_eligible, publishable}
use rom_m_swarm.Verify.{Result, confidence_strong}
use rom_m_swarm.Reference.{Entry, Set, index, index_from, index_entry, known_sum}
use rom_m_swarm.Reference.Lookup.{Match, comes_before, lookup, candidates, has_bucket, recheck}
use rom_m_swarm.Reference.Lookup.Completeness.{lookup_strong}
use rom_m_swarm.Reference.Profile.{
  default_profile, eligible, excluded, region_priority, rank_regions, rank_region, equal_fold,
  preferred, prefers, group_key, include_index, represent_all, apply, includes,
}
use rom_m_swarm.Reference.Profile.OneGame.{Best, apply_chooses}
use rom_m_swarm.Reference.Profile.Order.{match_sorter, index_sorters}
use rom_m_swarm.Reference.Classify.{
  Outcome, classify, judge_matches, judge, best_match, reference_of, titles_agree, normalize_title,
  is_separator, drop_leading, drop_trailing,
}
use rom_m_swarm.Reference.Classify.Evidence.{Evidence, classify-Evidence, classify_total}
use rom_m_swarm.Reference.Names.{split_tags}
use rom_m_swarm.Reference.Names.Splitting.{tagged, followed_by, split_tags-tagged}

abbrev sum : Digest
sum = record { size = 8; crc32 = []; md5 = []; sha1 = codes "5a"; sha256 = codes "c0ffee" }

abbrev usa : Entry
usa = record {
  game_name = codes "Tetris (USA)";
  rom_name = codes "Tetris (USA).gb";
  canonical_key = codes "Tetris";
  regions = codes "USA" ∷ [];
  languages = [];
  revision = [];
  revision_rank = pos 0;
  flags = [];
  is_bios = false;
  digest = record sum { sha256 = codes "C0FFEE" };
}

abbrev world : Entry
world = record usa {
  rom_name = codes "Tetris (World).gb";
  regions = codes "World" ∷ [];
  digest = record sum { sha1 = codes "77"; sha256 = codes "bad" };
}

abbrev catalogue : Set
catalogue = record {
  family = codes "no-intro";
  name = codes "GB";
  description = [];
  version = codes "1";
  date = [];
  author = [];
  homepage = [];
  import_digest = sum;
  platform = codes "gb";
  entries = world ∷ usa ∷ [];
  by_sha256 = [];
  by_sha1 = [];
  by_md5 = [];
  by_crc = [];
}

usa_agrees : compare sum usa.digest ≡ (strength_strong, true)
unfolding compare cmp_then cmp normalized to_lower lower_byte text_eq
usa_agrees = refl

lookup_strong_example :
    (first : Match) × (rest : List Match) × (lookup match_sorter sum (index catalogue)
      ≡ some (first ∷ rest))
    × In (record { index = 1; entry = usa; strength = strength_strong }) (first ∷ rest)
    × (first.strength ≡ strength_strong)
lookup_strong_example = lookup_strong match_sorter sum catalogue 1 usa refl usa_agrees

eligible-usa : eligible default_profile usa ≡ true
unfolding eligible excluded region_priority rank_regions rank_region equal_fold to_lower lower_byte
    text_eq
eligible-usa = refl

apply_chooses_example :
    (i : ℕ) × (e : Entry) × (get_elem? catalogue.entries i ≡ some e)
    × (includes (apply index_sorters default_profile catalogue) i ≡ true)
    × (e.canonical_key ≡ usa.canonical_key)
    × Best default_profile catalogue.entries e
    × ((k : ℕ) (g : Entry)
        → get_elem? catalogue.entries k ≡ some g
        → includes (apply index_sorters default_profile catalogue) k ≡ true
        → g.canonical_key ≡ usa.canonical_key
        → k ≡ i)
apply_chooses_example =
    apply_chooses index_sorters default_profile catalogue refl 1 usa refl eligible-usa

abbrev held : Result
held = record {
  name = codes "tetris.gb";
  platform = codes "gb";
  stored = sum;
  container = none;
  canonical = sum;
  adapter = record { id = codes "nintendo.gb"; version = codes "1" };
  confidence = confidence_strong;
  canonicalized = true;
  notes = [];
}

abbrev verified : Outcome
verified = record {
  classification = verified_eligible;
  match = some (record {
    family = codes "no-intro";
    set_name = codes "GB";
    set_version = codes "1";
    entry_name = codes "Tetris (USA).gb";
    canonical_key = codes "Tetris";
    strength = strength_strong;
  });
}

held_verified :
    classify match_sorter
      (some held)
      (apply index_sorters default_profile (index catalogue))
      (codes "The Tetris")
    ≡ some verified
unfolding classify lookup apply recheck candidates has_bucket text_eq normalized to_lower bucket get
    represent_all tabulate index index_from index_entry enter group_key eligible excluded lt_int put
    contains distinct contains_text fields_from fields_func is_space join starts_with trim_func
    trim_left trim_right trim_space text_lt cmp cmp_then compare lower_byte best_match drop_leading
    drop_trailing is_separator judge judge_matches normalize_title reference_of titles_agree
    comes_before equal_fold include_index includes preferred prefers rank_region rank_regions
    region_priority known_sum insert_stable sort_stable
held_verified = refl

verified_publishable : publishable verified.classification ≡ true
unfolding publishable
verified_publishable = refl

classify-Evidence_example :
    Evidence match_sorter default_profile catalogue held (codes "The Tetris") verified
classify-Evidence_example =
    classify-Evidence index_sorters match_sorter default_profile catalogue held (codes "The Tetris")
      verified held_verified verified_publishable

classify_total_example :
    (o : Outcome) × (classify match_sorter
        (some held)
        (apply index_sorters default_profile (index catalogue))
        []
      ≡ some o)
classify_total_example =
    classify_total index_sorters match_sorter default_profile catalogue (some held) []

t_letter : is_space b'T' ≡ false
unfolding is_space
t_letter = refl

split_tags-tagged_example :
    split_tags (tagged (codes "Tetris (USA)") (codes "Rev 1"))
    ≡ followed_by (trim_space (codes "Rev 1") ∷ []) (split_tags (codes "Tetris (USA)"))
split_tags-tagged_example =
    split_tags-tagged b'T' (codes "etris (USA)") (codes "Rev 1") t_letter refl
