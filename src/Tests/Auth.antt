-- ===== src/Tests/Auth.antt =====
-- The Host's verifier at concrete inputs: the hash of a token is the token after a mark.
use rom_m_swarm.Common.{
  Text, codes, text_eq, text_eq_iff, ◌≡◌, ◌≢◌, refl, true, false, none, some, List, [], ◌∷◌, arith,
  get,
}
use rom_m_swarm.Protocol.Ids.{validate, prefix_bridge, lower_byte, upper_byte}
use rom_m_swarm.Auth.Refresh.{
  FamilyState, unknown_token, family_revoked, reuse_detected, ok, err, MemoryStore, load, kill,
  rotate, rotate_family, authenticate, enroll, advanced, reissued, issue, grace, rotated, recovered,
  token_rotated, token_grace_used,
}
use rom_m_swarm.Auth.Refresh.Frame.{rotate_other, rotate_refused}
use rom_m_swarm.Auth.Refresh.Recovery.{Live, twice, late}
use rom_m_swarm.Auth.Refresh.Crash.{first, second, third, crash_recovery, late_reuse}
use rom_m_swarm.Auth.Refresh.Revoked.{
  Call, rotates, authenticates, revokes, IsRevoked, run, revoked_for_good, enroll_revives,
}

mark : Text → Text
mark t = 35 ∷ t

apart : (x y : Text) → text_eq x y ≡ false → x ≢ y
apart x y h e = ground (arith, text_eq_iff x y)

abbrev bridge : Text
bridge = codes "brg_nentqaxbnentqaxbnentqaxbnc"

abbrev other_bridge : Text
other_bridge = codes "brg_00000000000000000000000000"

abbrev family : FamilyState
family = record {
  bridge_id = bridge;
  current_hash = 35 ∷ codes "t0";
  previous_hash = [];
  previous_issued_at = 0;
  previous_consumed = false;
  generation = 1;
  revoked = false;
  revoked_reason = [];
}

abbrev store : MemoryStore
store = record { families = (bridge, family) ∷ []; save_hook = λ s. false }

family_Live : Live store bridge family
unfolding load get text_eq
family_Live = record { held = refl; keyed = refl; live = refl }

crash_recovery_example :
    ((first mark 0 10 20 30
        (codes "t1")
        (codes "t2")
        (codes "t3")
        bridge
        (codes "t0")
        store
        family).1
      ≡ ok (issue mark rotated token_rotated 10 (codes "t1") family))
    × ((second mark 0 10 20 30
          (codes "t1")
          (codes "t2")
          (codes "t3")
          bridge
          (codes "t0")
          store
          family).1
        ≡ ok (
            issue mark recovered token_grace_used 20
              (codes "t2")
              (advanced mark 10 (codes "t1") family)))
    × (authenticate mark bridge
          (codes "t2")
          (second mark 0 10 20 30
            (codes "t1")
            (codes "t2")
            (codes "t3")
            bridge
            (codes "t0")
            store
            family).0
        ≡ ok tt)
    × (authenticate mark bridge
          (codes "t1")
          (second mark 0 10 20 30
            (codes "t1")
            (codes "t2")
            (codes "t3")
            bridge
            (codes "t0")
            store
            family).0
        ≡ err unknown_token)
    × ((third mark 0 10 20 30
          (codes "t1")
          (codes "t2")
          (codes "t3")
          bridge
          (codes "t0")
          store
          family).1
        ≡ err reuse_detected)
    × (load
          (third mark 0 10 20 30
            (codes "t1")
            (codes "t2")
            (codes "t3")
            bridge
            (codes "t0")
            store
            family).0
          bridge
        ≡ some (kill (reissued mark (codes "t2") (advanced mark 10 (codes "t1") family)) twice))
unfolding mark grace text_eq
crash_recovery_example =
    crash_recovery mark 0 10 20 30 (codes "t1") (codes "t2") (codes "t3") bridge (codes "t0") store
      family family_Live (λ s. refl) refl (apart (mark (codes "t0")) [] refl)
      (apart (mark (codes "t0")) (mark (codes "t1")) refl)
      (apart (mark (codes "t0")) (mark (codes "t2")) refl) (omega arith)
      (apart (mark (codes "t1")) (mark (codes "t2")) refl)

late_reuse_example :
    ((second mark 5 10 20 30
        (codes "t1")
        (codes "t2")
        (codes "t3")
        bridge
        (codes "t0")
        store
        family).1
      ≡ err reuse_detected)
    × (load
          (second mark 5 10 20 30
            (codes "t1")
            (codes "t2")
            (codes "t3")
            bridge
            (codes "t0")
            store
            family).0
          bridge
        ≡ some (kill (advanced mark 10 (codes "t1") family) late))
unfolding mark grace text_eq
late_reuse_example =
    late_reuse mark 5 10 20 30 (codes "t1") (codes "t2") (codes "t3") bridge (codes "t0") store
      family family_Live (λ s. refl) refl (apart (mark (codes "t0")) [] refl)
      (apart (mark (codes "t0")) (mark (codes "t1")) refl)
      (apart (mark (codes "t0")) (mark (codes "t2")) refl) (omega arith)

abbrev other_family : FamilyState
other_family = record family { bridge_id = other_bridge; current_hash = 35 ∷ codes "u0" }

-- The other Bridge has rotated and its token u0 was captured.
abbrev captured : MemoryStore
captured = record store {
  families = (bridge, family) ∷ (other_bridge, advanced mark 5 (codes "u1") other_family) ∷ [];
}

-- The previous token, presented by a different Bridge, is unknown, and nothing is revoked.
stolen_run :
    rotate mark 0 10 (codes "t1") bridge (codes "u0") captured ≡ (captured, err unknown_token)
unfolding rotate rotate_family mark load get text_eq
stolen_run = refl

rotate_other_example :
    (load (rotate mark 0 10 (codes "t1") bridge (codes "u0") captured).0 other_bridge
      ≡ load captured other_bridge)
    × ((rotate mark 0 20
          (codes "u2")
          other_bridge
          (codes "u1")
          (rotate mark 0 10 (codes "t1") bridge (codes "u0") captured).0).1
        ≡ (rotate mark 0 20 (codes "u2") other_bridge (codes "u1") captured).1)
unfolding text_eq
rotate_other_example =
    rotate_other mark 0 10 20 (codes "t1") (codes "u2") bridge (codes "u0") (codes "u1") captured
      other_bridge (apart bridge other_bridge refl)

unknown_run : (rotate mark 0 10 (codes "t1") bridge (codes "guess") store).1 ≡ err unknown_token
unfolding rotate rotate_family mark load get text_eq
unknown_run = refl

rotate_refused_example : (rotate mark 0 10 (codes "t1") bridge (codes "guess") store).0 ≡ store
rotate_refused_example =
    rotate_refused mark 0 10 (codes "t1") bridge (codes "guess") store unknown_run (λ e. cc)

abbrev dead_store : MemoryStore
dead_store = record {
  families = (bridge, record family { revoked = true; current_hash = [] }) ∷ [];
  save_hook = λ s. false;
}

dead_IsRevoked : IsRevoked dead_store bridge
unfolding load get text_eq
dead_IsRevoked = record {
  family = record family { revoked = true; current_hash = [] };
  held = refl;
  dead = refl;
}

abbrev calls : List Call
calls =
    rotates 10 (codes "t1") bridge (codes "t0")
    ∷ authenticates bridge (codes "t0")
    ∷ revokes bridge (codes "lost")
    ∷ []

revoked_for_good_example :
    (rotate mark 0 50 (codes "t9") bridge (codes "t0") (run mark 0 dead_store calls)
      ≡ (run mark 0 dead_store calls, err family_revoked))
    × (authenticate mark bridge (codes "t0") (run mark 0 dead_store calls) ≡ err family_revoked)
revoked_for_good_example =
    revoked_for_good mark 0 dead_store calls bridge 50 (codes "t9") (codes "t0") dead_IsRevoked

bridge_valid : validate prefix_bridge bridge ≡ none
unfolding validate text_eq lower_byte upper_byte
bridge_valid = refl

enroll_revives_example :
    authenticate mark bridge (codes "t5") (enroll mark (codes "t5") bridge dead_store).0 ≡ ok tt
enroll_revives_example =
    enroll_revives mark 0 (codes "t5") bridge dead_store bridge_valid (λ s. refl)
