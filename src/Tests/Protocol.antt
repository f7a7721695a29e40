-- ===== src/Tests/Protocol.antt =====
-- The protocol package at concrete inputs.
use rom_m_swarm.Common.{
  Text, codes, text_eq, ◌≡◌, ◌≢◌, ◌⊎◌, ◌↔◌, refl, true, none, List, [], ◌∷◌, replicate,
}
use rom_m_swarm.Protocol.Destination.{
  DestinationState, verified_in_staging, uploading_to_romm, published_to_filesystem,
  awaiting_romm_ingestion, romm_matched, cancelled, api_only, can_transition, hand_off_state,
}
use rom_m_swarm.Protocol.Destination.Paths.{
  follows, end_of, after_hand_off, activation_paths, no_cancel_after_hand_off,
}
use rom_m_swarm.Protocol.Digest.{Digest, compare, normalized, cmp_then, cmp, strength_strong}
use rom_m_swarm.Protocol.Digest.Agreement.{compare_strong, sizes_fit, compatible, confirmed}
use rom_m_swarm.Protocol.Ids.{validate, encode, to_lower, lower_byte, prefix_bridge}
use rom_m_swarm.Protocol.Ids.Minting.{validate-encode}

abbrev api_path : List DestinationState
api_path = verified_in_staging ∷ uploading_to_romm ∷ after_hand_off

activation_paths_example :
    (api_path ≡ verified_in_staging ∷ uploading_to_romm ∷ after_hand_off)
    ⊎ (api_path ≡ verified_in_staging ∷ published_to_filesystem ∷ after_hand_off)
unfolding follows can_transition
activation_paths_example = activation_paths api_path refl refl

no_cancel_after_hand_off_example :
    end_of uploading_to_romm (awaiting_romm_ingestion ∷ romm_matched ∷ []) ≢ cancelled
unfolding follows can_transition hand_off_state
no_cancel_after_hand_off_example =
    no_cancel_after_hand_off api_only uploading_to_romm
      (awaiting_romm_ingestion ∷ romm_matched ∷ []) refl refl

-- One payload, with the case of the sums and the sums known differing.
abbrev catalogued : Digest
catalogued = record { size = 4; crc32 = codes "ab"; md5 = []; sha1 = []; sha256 = codes "00FF" }

abbrev measured : Digest
measured = record {
  size = 4;
  crc32 = codes "AB";
  md5 = codes "12";
  sha1 = [];
  sha256 = codes "00ff";
}

compare_strong_example : (compare catalogued measured ≡ (strength_strong, true)) ↔ (
    (sizes_fit catalogued measured ≡ true)
    × (compatible (to_lower catalogued.crc32) (to_lower measured.crc32) ≡ true)
    × (compatible (to_lower catalogued.md5) (to_lower measured.md5) ≡ true)
    × (compatible (to_lower catalogued.sha1) (to_lower measured.sha1) ≡ true)
    × (confirmed (to_lower catalogued.sha256) (to_lower measured.sha256) ≡ true))
compare_strong_example = compare_strong catalogued measured

compare-measured : compare catalogued measured ≡ (strength_strong, true)
unfolding compare normalized cmp_then cmp text_eq to_lower lower_byte
compare-measured = refl

abbrev random_bytes : Text
random_bytes = replicate 16 171

validate-encode_example : validate prefix_bridge (encode prefix_bridge random_bytes) ≡ none
validate-encode_example = validate-encode prefix_bridge random_bytes refl

encode_bytes_run : encode prefix_bridge random_bytes ≡ codes "brg_nentqaxbnentqaxbnentqaxbnc"
unfolding encode lower_byte
encode_bytes_run = refl
