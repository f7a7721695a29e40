-- ===== src/Destination/Staging/Cleanup.antt =====
-- What the cleanup of the staging directory removes, and what the check of free space promises.
use rom_m_swarm.Common.{
  ℕ, ◌*◌, ◌^◌, ◌≤◌, ◌<◌, Text, text_eq, ◌==◌, ◌≡◌, ◌↔◌, inl, inr, Bool, false, not, ◌&&◌, ◌||◌,
  List, [], ◌∷◌, Option, none, some, any, get, get-remove, lt_int, wrap_int64, is_suffix,
  Bool-cases, arith, if◌then◌else◌,
}
use rom_m_swarm.Destination.{Files, Os}
use rom_m_swarm.Destination.Staging.{
  DirEntry, Cleaned, part_suffix, default_abandoned_after, space_needed, check_space, is_recent,
  clean_aged, clean_entry, clean_entries, cleanup_abandoned,
}

-- The age of an entry, none where `Info` fails.
abbrev pub aged : ℕ → ℕ → Option ℕ → Bool
aged window now none = false
aged window now (some mod_time) = not (is_recent window now mod_time)

-- The entry is an abandoned download of this name.
abbrev pub abandoned : ℕ → ℕ → Text → DirEntry → Bool
abandoned window now path e =
    text_eq e.name path
    && (not e.is_dir && (is_suffix part_suffix e.name && aged window now e.mod_time))

module _ (os : Os) (window now : ℕ) (path bytes : Text) where
  clean_aged-get :
      (e : DirEntry) (m : Option ℕ) (done : Cleaned) (fs : Files)
      → get path fs ≡ some bytes
      → (text_eq e.name path && aged window now m) ≡ false
      → get path (clean_aged os window now e m (done, fs)).1 ≡ some bytes
  unfolding clean_aged
  clean_aged-get e none done fs k h = k
  clean_aged-get e (some m) done fs k h = ground (arith, get-remove e.name path fs)

  clean_entry-get :
      (e : DirEntry) (done : Cleaned) (fs : Files)
      → get path fs ≡ some bytes
      → abandoned window now path e ≡ false
      → get path (clean_entry os window now e (done, fs)).1 ≡ some bytes
  unfolding clean_entry
  clean_entry-get e done fs k h =
      elim (Bool-cases (e.is_dir || not (is_suffix part_suffix e.name))) [
        | inl s ↦ simp s k
        | inr s ↦ simp s (clean_aged-get e e.mod_time done fs k (ground arith))
      ]

  clean_entries-get :
      (es : List DirEntry) (c : Cleaned × Files)
      → get path c.1 ≡ some bytes
      → any (abandoned window now path) es ≡ false
      → get path (clean_entries os window now es c).1 ≡ some bytes
  unfolding clean_entries
  clean_entries-get [] c k h = k
  clean_entries-get (e ∷ es) c k h =
      clean_entries-get es (clean_entry os window now e c)
        (clean_entry-get e c.0 c.1 k (ground arith)) (ground arith)

abbrev pub window_of : ℕ → ℕ
window_of older_than = if older_than == 0 then default_abandoned_after else older_than

-- The cleanup of the staging directory keeps every file that its listing does not show as a
-- regular file with the suffix of a download and last changed at least the window ago.
pub cleanup-get :
    (os : Os) (older_than now : ℕ) (entries : List DirEntry) (path bytes : Text) (fs : Files)
    → get path fs ≡ some bytes
    → any (abandoned (window_of older_than) now path) entries ≡ false
    → get path (cleanup_abandoned os older_than now (some entries) fs).1 ≡ some bytes
unfolding cleanup_abandoned
cleanup-get os older_than now entries path bytes fs k h =
    clean_entries-get os (window_of older_than) now path bytes entries
      (record { removed = 0; first_error = none }, fs) k h

-- For a payload of less than 2 ^ 62 bytes, and where the free space is known, the check of the
-- space passes exactly where twice the size is free.
pub check_space_lem :
    (free size : ℕ) → size < 2 ^ 62 → (check_space (some free) size ≡ none) ↔ (size * 2 ≤ free)
unfolding check_space space_needed wrap_int64 lt_int
check_space_lem free size small = (λ h. ground arith, λ h. ground arith)
