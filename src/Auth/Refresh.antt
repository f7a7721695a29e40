-- ===== src/Auth/Refresh.antt =====
-- auth/refresh.go: the Host's verifier of refresh credentials, over the in-memory store.
-- An operation takes the store and returns it with the result. The clock's reading (nanoseconds
-- since the zero time) and the token that `NewToken` mints are arguments; so is the hash of a
-- token, SHA-256 in hexadecimal.
pub mod Crash
pub mod Frame
pub mod Recovery
pub mod Revoked
use rom_m_swarm.Common.{
  ℕ, ◌+◌, ◌%◌, ◌^◌, Text, codes, text_eq, ltb, ◌==◌, Bool, true, false, not, ◌&&◌, Option, none,
  some, List, [], get, put, if◌then◌else◌,
}
use rom_m_swarm.Protocol.Ids.{IdError, validate, prefix_bridge}

abbrev pub grace_window : ℕ
grace_window = 45000000000

abbrev pub access_token_lifetime : ℕ
access_token_lifetime = 300000000000

pub record FamilyState : Type 0 where
  pub bridge_id : Text
  pub current_hash : Text
  pub previous_hash : Text
  pub previous_issued_at : ℕ
  pub previous_consumed : Bool
  pub generation : ℕ
  pub revoked : Bool
  pub revoked_reason : Text

pub data Error : Type 0 where
  unknown_token family_revoked reuse_detected wrong_bridge persisting : Error
  bad_bridge : IdError → Error

pub data Result {ℓ} (A : Type ℓ) : Type ℓ where
  ok : A → Result A
  err : Error → Result A

pub data Outcome : Type 0 where
  rotated recovered : Outcome

pub data EventKind : Type 0 where
  token_rotated token_grace_used : EventKind

pub record Rotation : Type 0 where
  pub outcome : Outcome
  pub refresh : Text
  pub access_expires_at : ℕ
  pub generation : ℕ
  pub event : EventKind

-- MemoryStore; `save_hook s` says that the hook returns an error for `s`.
pub record MemoryStore : Type 0 where
  pub families : List (Text × FamilyState)
  pub save_hook : FamilyState → Bool

unfoldable pub load : MemoryStore → Text → Option FamilyState
load st id = get id st.families

-- The store after `Save`, and whether it returned nil.
unfoldable pub save : MemoryStore → FamilyState → MemoryStore × Bool
save st s =
    if st.save_hook s
    then (st, false)
    else (record st { families = put s.bridge_id s st.families }, true)

-- `if err := Save(state); err != nil { return fail }; return r`
unfoldable pub save_then {ℓ} :
    {A : Type ℓ} → MemoryStore → FamilyState → Result A → MemoryStore × Result A
save_then st s r = let (st', saved) = save st s in if saved then (st', r) else (st', err persisting)

-- uint64
abbrev pub bump : ℕ → ℕ
bump n = (n + 1) % 2 ^ 64

unfoldable pub grace : ℕ → ℕ
grace g = if ltb 0 g then g else grace_window

unfoldable pub kill : FamilyState → Text → FamilyState
kill s reason = record s {
  revoked = true;
  revoked_reason = reason;
  previous_hash = [];
  current_hash = [];
}

-- The verifier's `revoke`: it reports reuse once the revocation is saved.
unfoldable pub revoke_family : MemoryStore → FamilyState → Text → MemoryStore × Result Rotation
revoke_family st s reason = save_then st (kill s reason) (err reuse_detected)

module _ (hash : Text → Text) where
  unfoldable pub enroll : Text → Text → MemoryStore → MemoryStore × Result Text
  enroll fresh bridge st = elim (validate prefix_bridge bridge) [
    | some e ↦ (st, err (bad_bridge e))
    | none ↦
        save_then st
          (record {
            bridge_id = bridge;
            current_hash = hash fresh;
            previous_hash = [];
            previous_issued_at = 0;
            previous_consumed = false;
            generation = 1;
            revoked = false;
            revoked_reason = [];
          })
          (ok fresh)
  ]

  -- The normal path: what is saved.
  unfoldable pub advanced : ℕ → Text → FamilyState → FamilyState
  advanced now fresh s = record s {
    previous_hash = s.current_hash;
    previous_issued_at = now;
    previous_consumed = false;
    current_hash = hash fresh;
    generation = bump s.generation;
  }

  -- The recovery path: what is saved.
  unfoldable pub reissued : Text → FamilyState → FamilyState
  reissued fresh s = record s {
    previous_consumed = true;
    current_hash = hash fresh;
    generation = bump s.generation;
  }

  unfoldable pub issue : Outcome → EventKind → ℕ → Text → FamilyState → Rotation
  issue outcome event now fresh s = record {
    outcome = outcome;
    refresh = fresh;
    access_expires_at = now + access_token_lifetime;
    generation = bump s.generation;
    event = event;
  }

  -- `Rotate` from the hash on. The clock's difference exceeds the window when the time passed is
  -- more than the window; a clock that went back gives a negative difference.
  unfoldable pub rotate_family :
      ℕ → ℕ → Text → Text → FamilyState → MemoryStore → MemoryStore × Result Rotation
  rotate_family window now fresh presented s st =
      if text_eq (hash presented) s.current_hash
      then save_then st (advanced now fresh s) (ok (issue rotated token_rotated now fresh s))
      else if not (text_eq s.previous_hash []) && text_eq (hash presented) s.previous_hash
      then (if s.previous_consumed
          then revoke_family st s (codes "the previous credential was presented twice")
          else if ltb (s.previous_issued_at + grace window) now
          then revoke_family st s
              (codes "the previous credential was presented after the recovery window closed")
          else save_then st (reissued fresh s) (ok (issue recovered token_grace_used now fresh s)))
      else (st, err unknown_token)

  unfoldable pub rotate : ℕ → ℕ → Text → Text → Text → MemoryStore → MemoryStore × Result Rotation
  rotate window now fresh bridge presented st = elim (load st bridge) [
    | none ↦ (st, err unknown_token)
    | some s ↦
        if s.revoked
        then (st, err family_revoked)
        else if not (text_eq s.bridge_id bridge)
        then (st, err wrong_bridge)
        else rotate_family window now fresh presented s st
  ]

  unfoldable pub authenticate : Text → Text → MemoryStore → Result (Unit {0})
  authenticate bridge presented st = elim (load st bridge) [
    | none ↦ err unknown_token
    | some s ↦
        if s.revoked
        then err family_revoked
        else if not (text_eq s.bridge_id bridge)
        then err wrong_bridge
        else if not (text_eq (hash presented) s.current_hash)
        then err unknown_token
        else ok tt
  ]

  -- The state that `ReEnroll` saves.
  unfoldable pub renewed : Text → FamilyState → FamilyState
  renewed fresh s = record s {
    revoked = false;
    revoked_reason = [];
    current_hash = hash fresh;
    previous_hash = [];
    previous_consumed = false;
    previous_issued_at = 0;
    generation = bump s.generation;
  }

  unfoldable pub re_enroll : Text → Text → MemoryStore → MemoryStore × Result Text
  re_enroll fresh bridge st = elim (load st bridge) [
    | none ↦ (st, err unknown_token)
    | some s ↦ save_then st (renewed fresh s) (ok fresh)
  ]

unfoldable pub revoke : Text → Text → MemoryStore → MemoryStore × Result (Unit {0})
revoke bridge reason st = elim (load st bridge) [
  | none ↦ (st, err unknown_token)
  | some s ↦ save_then st (kill s reason) (ok tt)
]
