-- ===== src/Auth/Refresh/Revoked.antt =====
-- A revoked family: what keeps it revoked, and what does not.
use rom_m_swarm.Common.{
  ℕ, Text, text_eq, text_eq_iff, text_eq_refl, ◌≡◌, inl, inr, refl, true, false, none, some, List,
  [], ◌∷◌, arith, Option-cases, Bool-cases,
}
use rom_m_swarm.Protocol.Ids.{validate, prefix_bridge}
use rom_m_swarm.Auth.Refresh.{
  FamilyState, family_revoked, Result, ok, err, MemoryStore, load, save_then, kill, rotate,
  authenticate, enroll, revoke,
}
use rom_m_swarm.Auth.Refresh.Frame.{load-save_then, load-rotate}

-- The calls that need no owner's decision on re-enrolment.
pub data Call : Type 0 where
  rotates : ℕ → Text → Text → Text → Call
  authenticates : Text → Text → Call
  revokes : Text → Text → Call

-- The store holds a revoked family for this Bridge.
pub record IsRevoked (st : MemoryStore) (bridge : Text) : Type 0 where
  pub family : FamilyState
  pub held : load st bridge ≡ some family
  pub dead : family.revoked ≡ true

module _ (hash : Text → Text) (window : ℕ) where
  unfoldable pub step : MemoryStore → Call → MemoryStore
  step st (rotates now fresh bridge presented) =
      (rotate hash window now fresh bridge presented st).0
  step st (authenticates bridge presented) = st
  step st (revokes bridge reason) = (revoke bridge reason st).0

  unfoldable pub run : MemoryStore → List Call → MemoryStore
  run st [] = st
  run st (c ∷ cs) = run (step st c) cs

  pub rotate-IsRevoked :
      (now : ℕ) (fresh presented id : Text) (st : MemoryStore)
      → IsRevoked st id
      → rotate hash window now fresh id presented st ≡ (st, err family_revoked)
  unfolding rotate
  rotate-IsRevoked now fresh presented id st r = rw (r.held, rotate) (ground (arith, r.dead))

  save_IsRevoked {ℓ} :
      {A : Type ℓ} (st : MemoryStore) (s : FamilyState) (x : Result A) (id : Text)
      → s.revoked ≡ true
      → IsRevoked st id
      → IsRevoked (save_then st s x).0 id
  save_IsRevoked st s x id d r = elim (Bool-cases (st.save_hook s)) [
    | inl e ↦ record {
      family = r.family;
      held = rw (load-save_then st s x id, e) r.held;
      dead = r.dead;
    }
    | inr e ↦ elim (Bool-cases (text_eq s.bridge_id id)) [
      | inl k ↦ record { family = s; held = rw (load-save_then st s x id, e, k); dead = d }
      | inr k ↦ record {
        family = r.family;
        held = rw (load-save_then st s x id, e, k) r.held;
        dead = r.dead;
      }
    ]
  ]

  rotate_keeps :
      (now : ℕ) (fresh bridge presented id : Text) (st : MemoryStore)
      → IsRevoked st id
      → IsRevoked (rotate hash window now fresh bridge presented st).0 id
  rotate_keeps now fresh bridge presented id st r = elim (Bool-cases (text_eq bridge id)) [
    | inl e ↦ rw ((text_eq_iff bridge id).0 e, rotate-IsRevoked now fresh presented id st r) r
    | inr e ↦ record {
      family = r.family;
      held =
          rw
            (load-rotate hash window now fresh bridge presented st id
              (λ p. ground (arith, text_eq_iff bridge id, p)))
            r.held;
      dead = r.dead;
    }
  ]

  revoke_keeps :
      (bridge reason id : Text) (st : MemoryStore)
      → IsRevoked st id
      → IsRevoked (revoke bridge reason st).0 id
  unfolding revoke kill
  revoke_keeps bridge reason id st r = elim (Option-cases (load st bridge)) [
    | inl e ↦ rw (e, revoke) r
    | inr (s, e) ↦ rw (e, revoke) (save_IsRevoked st (kill s reason) (ok tt) id refl r)
  ]

  pub run-IsRevoked :
      (st : MemoryStore) (cs : List Call) (id : Text) → IsRevoked st id → IsRevoked (run st cs) id
  unfolding run step
  run-IsRevoked st [] id r = r
  run-IsRevoked st (rotates now fresh bridge presented ∷ cs) id r =
      run-IsRevoked (rotate hash window now fresh bridge presented st).0 cs id
        (rotate_keeps now fresh bridge presented id st r)
  run-IsRevoked st (authenticates bridge presented ∷ cs) id r = run-IsRevoked st cs id r
  run-IsRevoked st (revokes bridge reason ∷ cs) id r =
      run-IsRevoked (revoke bridge reason st).0 cs id (revoke_keeps bridge reason id st r)

  -- Where a Bridge's family is revoked, after any sequence of calls of `Rotate`,
  -- `Authenticate` and `Revoke`, of any Bridges, `Rotate` and `Authenticate` refuse whatever
  -- token is presented for it with the error of a revoked family, and `Rotate` changes
  -- nothing.
  pub revoked_for_good :
      (st : MemoryStore) (cs : List Call) (id : Text) (now : ℕ) (fresh presented : Text)
      → IsRevoked st id
      → (rotate hash window now fresh id presented (run st cs) ≡ (run st cs, err family_revoked))
        × (authenticate hash id presented (run st cs) ≡ err family_revoked)
  unfolding authenticate
  revoked_for_good st cs id now fresh presented r =
      let d = run-IsRevoked st cs id r in
      (
        rotate-IsRevoked now fresh presented id (run st cs) d,
        rw (d.held, authenticate) (ground (arith, d.dead)),
      )

  -- Where the identifier is valid and saves succeed, the token of `Enroll` is accepted at
  -- once, whatever the store held, a revoked family of that Bridge included.
  pub enroll_revives :
      (fresh id : Text) (st : MemoryStore)
      → validate prefix_bridge id ≡ none
      → ((s : FamilyState) → st.save_hook s ≡ false)
      → authenticate hash id fresh (enroll hash fresh id st).0 ≡ ok tt
  unfolding authenticate enroll
  enroll_revives fresh id st h v =
      rw (h, enroll)
        (rw (load-save_then st _ (ok fresh) id, authenticate, v _, text_eq_refl id)
          (ground (arith, text_eq_refl id, text_eq_refl (hash fresh))))
