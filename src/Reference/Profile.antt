-- ===== src/Reference/Profile.antt =====
-- reference/profile.go: profiles, and the entries of a catalogue that a profile selects.
pub mod OneGame
pub mod Included
pub mod Order
use rom_m_swarm.Common.{
  ℕ, suc, Text, codes, text_eq, text_lt, ◌==◌, ltb, Bool, true, false, not, ◌&&◌, ◌||◌, List, [],
  ◌∷◌, ◌++◌, Option, none, some, any, length, get, put, get_elem?, Table, tabulate, Sorter, sort_by,
  ℤ, lt_int, if◌then◌else◌,
}
use rom_m_swarm.Protocol.Ids.{to_lower}
use rom_m_swarm.Reference.{Entry, Set}

pub record Profile : Type 0 where
  pub name : Text
  pub version : Text
  pub regions : List Text
  pub excluded_flags : List Text
  pub include_bios : Bool
  pub include_untagged_region : Bool
  pub one_game_per_canonical : Bool

abbrev pub default_profile : Profile
default_profile = record {
  name = codes "North America plus World 1G1R";
  version = codes "1";
  regions = codes "USA" ∷ codes "Canada" ∷ codes "World" ∷ [];
  excluded_flags =
      codes "Beta"
      ∷ codes "Proto"
      ∷ codes "Prototype"
      ∷ codes "Demo"
      ∷ codes "Sample"
      ∷ codes "Kiosk"
      ∷ codes "Program"
      ∷ codes "Test Program"
      ∷ codes "Debug"
      ∷ codes "Pirate"
      ∷ codes "Unl"
      ∷ [];
  include_bios = false;
  include_untagged_region = true;
  one_game_per_canonical = true;
}

unfoldable pub profile_ref : Profile → Text
profile_ref p = p.name ++ codes " v" ++ p.version

-- `strings.EqualFold`
unfoldable pub equal_fold : Text → Text → Bool
equal_fold a b = text_eq (to_lower a) (to_lower b)

-- `best < 0 || i < best`, the negative `best` being `none`.
abbrev pub improves : ℕ → Option ℕ → Bool
improves i none = true
improves i (some best) = ltb i best

-- The loops over the allowed regions and over the entry's regions.
unfoldable pub rank_region : Text → ℕ → List Text → Option ℕ → Option ℕ
rank_region r i [] best = best
rank_region r i (allowed ∷ more) best =
    rank_region r (suc i) more (if equal_fold r allowed && improves i best then some i else best)

unfoldable pub rank_regions : List Text → List Text → Option ℕ → Option ℕ
rank_regions [] allowed best = best
rank_regions (r ∷ rs) allowed best = rank_regions rs allowed (rank_region r 0 allowed best)

abbrev pub found_rank : Option ℕ → ℕ × Bool
found_rank none = (0, false)
found_rank (some best) = (best, true)

unfoldable pub region_priority : Profile → Entry → ℕ × Bool
region_priority p e =
    if length e.regions == 0
    then (if p.include_untagged_region then (length p.regions, true) else (0, false))
    else found_rank (rank_regions e.regions p.regions none)

unfoldable pub excluded : Profile → Entry → Bool
excluded p e = any (λ f. any (equal_fold f) p.excluded_flags) e.flags

unfoldable pub eligible : Profile → Entry → Bool
eligible p e =
    if e.is_bios && not p.include_bios
    then false
    else if excluded p e
    then false
    else (region_priority p e).1

pub record Selection : Type 0 where
  pub profile : Profile
  pub set : Set
  pub included : List ℕ
  pub chosen : List (Text × ℕ)

-- Better region first, then the newest revision, then the name of the file.
unfoldable pub preferred : Profile → Entry → Entry → Bool
preferred p a b =
    let pa = (region_priority p a).0 in
    let pb = (region_priority p b).0 in
    if not (pa == pb)
    then ltb pa pb
    else if lt_int b.revision_rank a.revision_rank
    then true
    else if lt_int a.revision_rank b.revision_rank
    then false
    else text_lt a.rom_name b.rom_name

-- The same on indexes of the catalogue; each index that is sorted is in range.
abbrev pub both_preferred : Profile → Option Entry → Option Entry → Bool
both_preferred p (some a) (some b) = preferred p a b
both_preferred p none b = false
both_preferred p (some a) none = true

unfoldable pub prefers : Profile → List Entry → ℕ → ℕ → Bool
prefers p es i j = both_preferred p (get_elem? es i) (get_elem? es j)

unfoldable pub group_key : Profile → Entry → Option Text
group_key p e = if eligible p e then some e.canonical_key else none

-- The loop without 1G1R: included[i] = true for each eligible entry.
unfoldable pub include_eligible : Profile → ℕ → List Entry → List ℕ
include_eligible p i [] = []
include_eligible p i (e ∷ es) =
    let rest = include_eligible p (suc i) es in if eligible p e then i ∷ rest else rest

-- included[i] = true, the map being the list of the included indexes.
unfoldable pub include_index : ℕ → List ℕ → List ℕ
include_index i is = if any (λ j. j == i) is then is else is ++ i ∷ []

-- The first of the sorted indexes represents its key. No bucket is empty.
abbrev pub represent : Text → List ℕ → Selection → Selection
represent key [] sel = sel
represent key (best ∷ others) sel = record sel {
  chosen = put key best sel.chosen;
  included = include_index best sel.included;
}

abbrev pub Sorters : Type 0
Sorters = (p : Profile) (es : List Entry) → Sorter (prefers p es)

-- The loop over `byKey`.
unfoldable pub represent_all : (List ℕ → List ℕ) → Table → Selection → Selection
represent_all sort [] sel = sel
represent_all sort ((key, indices) ∷ more) sel =
    represent_all sort more (represent key (sort indices) sel)

unfoldable pub apply : Sorters → Profile → Set → Selection
apply sorters p s =
    let sel : Selection = record { profile = p; set = s; included = []; chosen = [] } in
    if not p.one_game_per_canonical
    then record sel { included = include_eligible p 0 s.entries }
    else represent_all ((sorters p s.entries).sort) (tabulate (group_key p) 0 s.entries []) sel

unfoldable pub includes : Selection → ℕ → Bool
includes sel i = any (λ j. j == i) sel.included

unfoldable pub included_indices : Selection → List ℕ
included_indices sel = sort_by ltb sel.included

unfoldable pub size : Selection → ℕ
size sel = length sel.included

-- The entry that 1G1R chose for a key; an index out of range would panic.
unfoldable pub chosen_for : Selection → Text → Option Entry
chosen_for sel key = elim (get key sel.chosen) [
  | none ↦ none
  | some i ↦ get_elem? sel.set.entries i
]
