-- ===== src/Tests/Publish.antt =====
-- Publication at concrete inputs: the digest of bytes is their last sixteen.
use rom_m_swarm.Common.{
  wrap_int64, ◌+◌, ◌-◌, Text, codes, text_eq, ◌≡◌, refl, true, none, some, List, [], ◌∷◌, ◌++◌,
  length, drop, replicate, contains, sort_by, text_lt, get, put,
}
use rom_m_swarm.Protocol.Ids.{
  next, is_zero, validate, file_id_from_canonical_digest, lower_byte, upper_byte,
}
use rom_m_swarm.Protocol.Availability
use rom_m_swarm.Protocol.Destination.{source_active}
use rom_m_swarm.Protocol.Manifest.{
  Item, Manifest, verified_eligible, conflict, publishable, Delta, tombstone, validate_delta,
  validate_entries, validate_change, compute_fingerprints, validate_manifest, validate_items,
  validate_item,
}
use rom_m_swarm.Publish.Policy.{
  Policy, permits, ok, Membership, validate_membership, validate_policy,
}
use rom_m_swarm.Publish.Snapshot.{snapshot, built, select, selected, checked}
use rom_m_swarm.Publish.Snapshot.Filtering.{Says, snapshot-Says, visible, snapshot_hidden}
use rom_m_swarm.Publish.Diff.{
  availability_eq, reference_changed, match_eq, diff, diff_items, entries_between, changes,
  removals, removal_of, change_of, changed, index_by_file,
}
use rom_m_swarm.Publish.Diff.Rescan.{current_items, Brings, diff-Brings, diff_rescan}
use rom_m_swarm.Publish.Preview.{preview_policy}
use rom_m_swarm.Publish.Preview.Totals.{
  total, sum_reasons, permitted_count, permitted_bytes, preview-counts,
}

last_bytes : Text → Text
last_bytes t = drop (length t - 16) (t ++ replicate 16 0)

-- The sums stand for SHA-256 in hexadecimal.
abbrev item_of : Text → Text → Item
item_of platform sum = record {
  file_id = file_id_from_canonical_digest last_bytes sum;
  game_id = [];
  platform = platform;
  stored = record { size = 8; crc32 = []; md5 = []; sha1 = []; sha256 = sum };
  container = none;
  canonical = record { size = 8; crc32 = []; md5 = []; sha1 = []; sha256 = sum };
  adapter = record { id = codes "gb"; version = codes "1" };
  classification = verified_eligible;
  reference = some (record {
    family = codes "no-intro";
    set_name = codes "gb";
    set_version = codes "1";
    entry_name = codes "e";
    canonical_key = codes "k";
    strength = 3;
  });
  notes = [];
  availability = Availability.available;
  destination = source_active;
  last_verified_at = 1;
}

abbrev first_game : Item
first_game = item_of (codes "gb") (codes "00000000000000aa")

abbrev second_game : Item
second_game = item_of (codes "gb") (codes "00000000000000bb")

abbrev withheld_game : Item
withheld_game = record (item_of (codes "gb") (codes "00000000000000cc")) {
  classification = conflict;
}

abbrev policy : Policy
policy = record {
  swarm = codes "swm_00000000000000000000000000";
  share_all = true;
  platforms = [];
  excluded_platforms = [];
  excluded_files = [];
  max_item_bytes = 0;
}

abbrev member : Membership
member = record {
  swarm = codes "swm_00000000000000000000000000";
  alias = codes "sba_00000000000000000000000000";
  policy = policy;
  revision = 1;
}

abbrev holdings : List Item
holdings = first_game ∷ withheld_game ∷ second_game ∷ first_game ∷ []

abbrev listing : Manifest
listing = built last_bytes member (first_game ∷ second_game ∷ []) 9

snapshot_run : snapshot last_bytes member holdings 9 ≡ ok listing
unfolding snapshot validate_membership validate text_eq lower_byte upper_byte validate_policy select
    selected permits publishable contains checked built compute_fingerprints validate_manifest
    validate_items validate_item sort_by last_bytes file_id_from_canonical_digest is_zero next
    text_lt
snapshot_run = refl

snapshot-Says_example : Says last_bytes member holdings listing
snapshot-Says_example = snapshot-Says last_bytes member holdings 9 listing snapshot_run

same_visible : visible policy holdings ≡ visible policy (first_game ∷ second_game ∷ first_game ∷ [])
unfolding permits publishable contains
same_visible = refl

snapshot_hidden_example :
    snapshot last_bytes member holdings 9
    ≡ snapshot last_bytes member (first_game ∷ second_game ∷ first_game ∷ []) 9
snapshot_hidden_example =
    snapshot_hidden last_bytes member holdings (first_game ∷ second_game ∷ first_game ∷ []) 9
      same_visible

diff_rescan_example : diff last_bytes listing member holdings 20 ≡ ok none
unfolding is_zero next built compute_fingerprints
diff_rescan_example = diff_rescan last_bytes member holdings 9 20 listing snapshot_run refl

-- The first game is gone.
abbrev farewell : Delta
farewell = record {
  schema = 1;
  swarm = member.swarm;
  alias = member.alias;
  from_revision = 2;
  to_revision = 3;
  entries = record { op = tombstone; file_id = first_game.file_id; item = none } ∷ [];
  emitted_at = 20;
}

diff_run : diff last_bytes listing member (second_game ∷ []) 20 ≡ ok (some farewell)
unfolding diff diff_items snapshot validate_membership validate text_eq lower_byte upper_byte
    validate_policy select selected permits publishable contains checked built compute_fingerprints
    validate_manifest validate_items validate_item sort_by last_bytes file_id_from_canonical_digest
    is_zero next text_lt entries_between changes removals removal_of change_of changed index_by_file
    get put validate_delta validate_entries validate_change availability_eq reference_changed
    match_eq
diff_run = refl

diff-Brings_example :
    (current : List Item) × (current_items
        (snapshot last_bytes (record member { revision = listing.revision }) (second_game ∷ []) 20)
      ≡ some current)
    × Brings last_bytes listing current (some farewell)
diff-Brings_example =
    diff-Brings last_bytes listing member (second_game ∷ []) 20 (some farewell) diff_run

preview-counts_example :
    ((preview_policy policy holdings).published ≡ permitted_count policy holdings)
    × ((preview_policy policy holdings).published + (preview_policy policy holdings).withheld
        ≡ length holdings)
    × ((preview_policy policy holdings).published_bytes
        ≡ wrap_int64 (permitted_bytes policy holdings))
    × (total (preview_policy policy holdings).by_platform
        ≡ (preview_policy policy holdings).published)
    × (sum_reasons (preview_policy policy holdings).withheld_reasons
        ≡ (preview_policy policy holdings).withheld)
preview-counts_example = preview-counts policy holdings
