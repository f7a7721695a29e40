-- ===== src/Auth/Refresh/Recovery.antt =====
-- The protocol of one family: the normal path, the recovery of a Bridge that lost its new token,
-- and what two uses of a spent token lead to.
use rom_m_swarm.Common.{
  ℕ, ◌+◌, ◌≤◌, ◌<◌, Text, codes, text_eq_iff, ◌≡◌, ◌≢◌, refl, true, false, some, [], arith, ◌∙◌,
}
use rom_m_swarm.Auth.Refresh.{
  FamilyState, reuse_detected, Result, ok, err, MemoryStore, Rotation, load, save, save_then, kill,
  revoke_family, rotate_family, rotate, advanced, reissued, issue, grace, rotated, recovered,
  token_rotated, token_grace_used,
}
use rom_m_swarm.Auth.Refresh.Frame.{load-save_then}

-- The store holds this family for this Bridge, and it is not revoked.
pub record Live (st : MemoryStore) (bridge : Text) (s : FamilyState) : Type 0 where
  pub held : load st bridge ≡ some s
  pub keyed : s.bridge_id ≡ bridge
  pub live : s.revoked ≡ false

-- The test's hook lets every save through.
abbrev pub Saves : MemoryStore → Type 0
Saves st = (s : FamilyState) → st.save_hook s ≡ false

-- The reasons that a revocation records.
abbrev pub twice : Text
twice = codes "the previous credential was presented twice"

abbrev pub late : Text
late = codes "the previous credential was presented after the recovery window closed"

-- What one call does to a live family: its result, and the family held afterwards.
pub record Does (st : MemoryStore) (bridge : Text) (call : MemoryStore × Result Rotation)
    (r : Result Rotation) (s' : FamilyState) : Type 0 where
  pub result : call.1 ≡ r
  pub now_held : load call.0 bridge ≡ some s'
  pub hook_kept : call.0.save_hook ≡ st.save_hook

module _ (hash : Text → Text) where
  rotate-Live :
      (window now : ℕ) (fresh bridge presented : Text) (st : MemoryStore) (s : FamilyState)
      → Live st bridge s
      → rotate hash window now fresh bridge presented st
        ≡ rotate_family hash window now fresh presented s st
  unfolding rotate
  rotate-Live window now fresh bridge presented st s l =
      rw (l.held, rotate) (ground (arith, text_eq_iff s.bridge_id bridge, l.keyed, l.live))

  save_Does :
      (st : MemoryStore) (bridge : Text) (s' : FamilyState) (r : Result Rotation)
      → Saves st
      → s'.bridge_id ≡ bridge
      → Does st bridge (save_then st s' r) r s'
  unfolding save_then save
  save_Does st bridge s' r v k = record {
    result = ground (arith, v s');
    now_held =
        rw (load-save_then st s' r bridge) (ground (arith, v s', text_eq_iff s'.bridge_id bridge));
    hook_kept = ground (arith, v s');
  }

  module _ (window now : ℕ) (fresh presented : Text) (s : FamilyState) (st : MemoryStore) where
    family_current :
        hash presented ≡ s.current_hash
        → rotate_family hash window now fresh presented s st
          ≡ save_then st
              (advanced hash now fresh s)
              (ok (issue hash rotated token_rotated now fresh s))
    unfolding rotate_family
    family_current e = ground (arith, text_eq_iff (hash presented) s.current_hash)

    -- The presented token is the previous one, and not the current one.
    abbrev Spent : Type 0
    Spent =
        (hash presented ≢ s.current_hash)
        × (hash presented ≡ s.previous_hash)
        × (s.previous_hash ≢ [])

    family_previous :
        Spent
        → s.previous_consumed ≡ false
        → now ≤ s.previous_issued_at + grace window
        → rotate_family hash window now fresh presented s st
          ≡ save_then st
              (reissued hash fresh s)
              (ok (issue hash recovered token_grace_used now fresh s))
    unfolding rotate_family
    family_previous p c t = ground (
      arith,
      text_eq_iff (hash presented) s.current_hash,
      text_eq_iff (hash presented) s.previous_hash,
      text_eq_iff s.previous_hash [],
    )

    family_twice :
        Spent
        → s.previous_consumed ≡ true
        → rotate_family hash window now fresh presented s st
          ≡ save_then st (kill s twice) (err reuse_detected)
    unfolding rotate_family revoke_family
    family_twice p c = ground (
      arith,
      text_eq_iff (hash presented) s.current_hash,
      text_eq_iff (hash presented) s.previous_hash,
      text_eq_iff s.previous_hash [],
    )

    family_late :
        Spent
        → s.previous_consumed ≡ false
        → s.previous_issued_at + grace window < now
        → rotate_family hash window now fresh presented s st
          ≡ save_then st (kill s late) (err reuse_detected)
    unfolding rotate_family revoke_family
    family_late p c t = ground (
      arith,
      text_eq_iff (hash presented) s.current_hash,
      text_eq_iff (hash presented) s.previous_hash,
      text_eq_iff s.previous_hash [],
    )

  module _ (window now : ℕ) (fresh bridge presented : Text) (st : MemoryStore) (s : FamilyState)
      (l : Live st bridge s) (v : Saves st) where
    abbrev call : MemoryStore × Result Rotation
    call = rotate hash window now fresh bridge presented st

    Does-by :
        (s' : FamilyState) (r : Result Rotation)
        → rotate_family hash window now fresh presented s st ≡ save_then st s' r
        → s'.bridge_id ≡ s.bridge_id
        → Does st bridge call r s'
    Does-by s' r e k =
        rw (rotate-Live window now fresh bridge presented st s l, e)
          (save_Does st bridge s' r v (k ∙ l.keyed))

    -- The current token rotates: a new token, and the old one kept as the previous.
    pub rotate_current :
        hash presented ≡ s.current_hash
        → Does st bridge call
            (ok (issue hash rotated token_rotated now fresh s))
            (advanced hash now fresh s)
    unfolding advanced
    rotate_current e = Does-by _ _ (family_current window now fresh presented s st e) refl

    -- The previous token, inside the window and for the first time, recovers.
    pub rotate_previous :
        Spent window now fresh presented s st
        → s.previous_consumed ≡ false
        → now ≤ s.previous_issued_at + grace window
        → Does st bridge call
            (ok (issue hash recovered token_grace_used now fresh s))
            (reissued hash fresh s)
    unfolding reissued
    rotate_previous p c t = Does-by _ _ (family_previous window now fresh presented s st p c t) refl

    -- The previous token, presented again after a recovery, revokes the family.
    pub rotate_twice :
        Spent window now fresh presented s st
        → s.previous_consumed ≡ true
        → Does st bridge call (err reuse_detected) (kill s twice)
    unfolding kill
    rotate_twice p c = Does-by _ _ (family_twice window now fresh presented s st p c) refl

    -- The previous token, after the window, revokes the family.
    pub rotate_late :
        Spent window now fresh presented s st
        → s.previous_consumed ≡ false
        → s.previous_issued_at + grace window < now
        → Does st bridge call (err reuse_detected) (kill s late)
    unfolding kill
    rotate_late p c t = Does-by _ _ (family_late window now fresh presented s st p c t) refl
