-- ===== src/Reference.antt =====
-- reference/set.go: one imported catalogue and its tables from hashes to entries.
pub mod Lookup
pub mod Profile
pub mod Names
pub mod Classify
use rom_m_swarm.Common.{
  ℕ, suc, Text, codes, text_eq, text_lt, Bool, List, [], ◌∷◌, ◌++◌, Option, none, some, contains,
  sort_by, Table, enter, ℤ, if◌then◌else◌,
}
use rom_m_swarm.Protocol.Digest.{Digest, normalized}

pub record Entry : Type 0 where
  pub game_name : Text
  pub rom_name : Text
  pub canonical_key : Text
  pub regions : List Text
  pub languages : List Text
  pub revision : Text
  pub revision_rank : ℤ
  pub flags : List Text
  pub is_bios : Bool
  pub digest : Digest

pub record Set : Type 0 where
  pub family : Text
  pub name : Text
  pub description : Text
  pub version : Text
  pub date : Text
  pub author : Text
  pub homepage : Text
  pub import_digest : Digest
  pub platform : Text
  pub entries : List Entry
  pub by_sha256 : Table
  pub by_sha1 : Table
  pub by_md5 : Table
  pub by_crc : Table

-- A sum that is known.
unfoldable pub known_sum : Text → Option Text
known_sum t = if text_eq t [] then none else some t

-- One turn of the loop of `index`.
unfoldable pub index_entry : ℕ → Entry → Set → Set
index_entry i e s =
    let d = normalized e.digest in
    record s {
      by_sha256 = enter (known_sum d.sha256) i s.by_sha256;
      by_sha1 = enter (known_sum d.sha1) i s.by_sha1;
      by_md5 = enter (known_sum d.md5) i s.by_md5;
      by_crc = enter (known_sum d.crc32) i s.by_crc;
    }

unfoldable pub index_from : ℕ → List Entry → Set → Set
index_from i [] s = s
index_from i (e ∷ es) s = index_from (suc i) es (index_entry i e s)

unfoldable pub index : Set → Set
index s =
    index_from 0 s.entries (record s { by_sha256 = []; by_sha1 = []; by_md5 = []; by_crc = [] })

unfoldable pub set_ref : Set → Text
set_ref s = s.family ++ codes " " ++ s.name ++ codes " " ++ s.version

unfoldable pub distinct_canonical : List Text → List Entry → List Text
distinct_canonical seen [] = []
distinct_canonical seen (e ∷ es) =
    let rest = distinct_canonical seen es in
    let fresh = distinct_canonical (e.canonical_key ∷ seen) es in
    if contains e.canonical_key seen then rest else e.canonical_key ∷ fresh

unfoldable pub canonical_keys : Set → List Text
canonical_keys s = sort_by text_lt (distinct_canonical [] s.entries)
