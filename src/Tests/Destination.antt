-- ===== src/Tests/Destination.antt =====
-- Staging, preflight and publication at concrete inputs.
use rom_m_swarm.Common.{
  ◌⊎◌, ℕ, ◌≤◌, ◌*◌, Text, codes, text_eq, ◌≡◌, ◌↔◌, refl, true, false, Option, none, some, [], ◌∷◌,
  get, put, length, split, arith, any, ◌||◌, if◌then◌else◌, trim_space, trim_func, trim_left,
  trim_right, is_space, starts_with, is_suffix,
}
use rom_m_swarm.Protocol.Ids.{to_lower, lower_byte}
use rom_m_swarm.Protocol.Digest.{Digest, compare, cmp, cmp_then, normalized}
use rom_m_swarm.Destination.{Files, Os, resolved_to}
use rom_m_swarm.Destination.Paths.{join_path, safe_join, within, stays, relative, clean, parent}
use rom_m_swarm.Destination.Staging.{
  DirEntry, verify_staged, path_for, check_space, cleanup_abandoned,
}
use rom_m_swarm.Destination.Staging.Cleanup.{abandoned, window_of, cleanup-get, check_space_lem}
use rom_m_swarm.Destination.Publisher.{
  PublishError, not_published, publish, published_at, resolve, discard, finish_copy,
  copy_to_destination, link_file,
}
use rom_m_swarm.Destination.Publisher.Safety.{Kept, publish-Kept}
use rom_m_swarm.Destination.Publisher.Verified.{Verified, publish-Verified}
use rom_m_swarm.Destination.Preflight.{Config, Platform, preflight, report_ok, default_publish_dir}
use rom_m_swarm.Destination.Preflight.Passed.{Fit, preflight-Fit}

-- The hash of some bytes stands for itself.
abbrev sums : Text → Digest
sums b = record { size = length b; crc32 = []; md5 = []; sha1 = []; sha256 = b }

-- Downloads land on device 1, and all else is on device 2.
abbrev device : Text → Option ℕ
device path = if text_eq path (codes "7.part") || text_eq path (codes "/in") then some 1 else some 2

abbrev box : Os
box = record {
  digest = sums;
  absolute = λ p. some p;
  eval_symlinks = λ p. resolved_to p;
  makes_dir = λ p. true;
  fails_to_check = λ p. false;
  device_of = device;
  opens = λ p. true;
  creates_temp = λ d. some (codes "/out/1.tmp");
  copies = true;
  syncs = true;
  closes = true;
  changes_mode = true;
  links = true;
  opens_dir = λ p. true;
  removes = λ p. true;
  meanwhile = λ fs. fs;
}

abbrev game : Text
game = codes "ab"

abbrev files : Files
files = (codes "/lib/gb/other", codes "cd") ∷ (codes "7.part", game) ∷ []

game_verified : verify_staged box (codes "7") (sums game) files ≡ (some (sums game), none)
unfolding verify_staged path_for get text_eq compare cmp cmp_then normalized to_lower lower_byte
game_verified = refl

game_published :
    (publish box
      (codes "/lib")
      (codes "/out")
      (path_for (codes "7"))
      (codes "gb/game")
      (sums game)
      files).0
    ≡ published_at (codes "/lib/gb/game")
unfolding publish path_for get put text_eq compare cmp cmp_then normalized to_lower lower_byte
    resolve discard finish_copy copy_to_destination link_file safe_join join_path within stays
    relative clean parent split trim_space trim_func trim_left trim_right is_space starts_with
game_published = refl

publish-Verified_example :
    Verified box
      (codes "/lib")
      (codes "/lib/gb/game")
      (sums game)
      files
      (publish box
        (codes "/lib")
        (codes "/out")
        (path_for (codes "7"))
        (codes "gb/game")
        (sums game)
        files).1
publish-Verified_example =
    publish-Verified box (codes "/lib") (codes "/out") (codes "7") (codes "gb/game")
      (codes "/lib/gb/game") (sums game) (sums game) files game_verified refl game_published

-- Another process puts a file at the destination after the check.
abbrev racing : Os
racing = record box { meanwhile = λ fs. put (codes "/lib/gb/game") (codes "cd") fs }

came_later : Kept (codes "/lib/gb/game") (codes "cd") (racing.meanwhile files)
unfolding put get text_eq
came_later = refl

publish-Kept_example :
    ((e : PublishError) × (publish racing
          (codes "/lib")
          (codes "/out")
          (codes "7.part")
          (codes "gb/game")
          (sums game)
          files
        ≡ (not_published e, files)))
    ⊎ Kept
        (codes "/lib/gb/game")
        (codes "cd")
        (publish racing
          (codes "/lib")
          (codes "/out")
          (codes "7.part")
          (codes "gb/game")
          (sums game)
          files).1
publish-Kept_example =
    publish-Kept racing (codes "/lib") (codes "/out") (codes "7.part") (codes "gb/game")
      (codes "/lib/gb/game") (codes "cd") (sums game) files (λ e. absurd cc) (λ e. absurd cc)
      came_later

abbrev old : DirEntry
old = record { name = codes "7.part"; is_dir = false; mod_time = some 10 }

abbrev note : DirEntry
note = record { name = codes "note"; is_dir = false; mod_time = some 10 }

note_there :
    get (codes "note") ((codes "7.part", game) ∷ (codes "note", codes "hi") ∷ [])
    ≡ some (codes "hi")
unfolding get text_eq
note_there = refl

note_kept : any (abandoned (window_of 5) 100 (codes "note")) (old ∷ note ∷ []) ≡ false
unfolding is_suffix text_eq
note_kept = refl

cleanup-get_example :
    get
      (codes "note")
      (cleanup_abandoned box 5 100
        (some (old ∷ note ∷ []))
        ((codes "7.part", game) ∷ (codes "note", codes "hi") ∷ [])).1
    ≡ some (codes "hi")
cleanup-get_example =
    cleanup-get box 5 100 (old ∷ note ∷ []) (codes "note") (codes "hi")
      ((codes "7.part", game) ∷ (codes "note", codes "hi") ∷ []) note_there note_kept

check_space_lem_example : (check_space (some 9) 4 ≡ none) ↔ (4 * 2 ≤ 9)
check_space_lem_example = check_space_lem 9 4 (omega arith)

abbrev platform_here : Platform
platform_here = record {
  filesystem_supported = true;
  is_dir = λ p. true;
  probe_writable = λ p. true;
}

abbrev settings : Config
settings = record {
  library_root = codes "/lib";
  receive_staging_dir = codes "/in";
  publish_staging_dir = [];
}

settings_ok : report_ok (preflight box platform_here settings) ≡ true
unfolding preflight report_ok default_publish_dir text_eq resolve within stays relative clean parent
    split trim_space trim_func trim_left trim_right is_space
settings_ok = refl

preflight-Fit_example : Fit box platform_here settings (preflight box platform_here settings)
preflight-Fit_example = preflight-Fit box platform_here settings settings_ok
