-- ===== src/Auth/Refresh/Frame.antt =====
-- What a call of the verifier writes: the presenting Bridge's family and nothing else.
use rom_m_swarm.Common.{
  ap, refl, ℕ, Text, text_eq, text_eq_iff, ◌≡◌, ◌≢◌, inl, inr, some, get-put, arith, Option-cases,
  if◌then◌else◌,
}
use rom_m_swarm.Auth.Refresh.{
  FamilyState, Error, reuse_detected, Result, err, MemoryStore, load, save, save_then, kill,
  revoke_family, rotate_family, rotate, advanced, reissued,
}

-- A save that succeeds is read back under its own key, and no other key changes.
pub load-save_then {ℓ} :
    {A : Type ℓ} (st : MemoryStore) (s : FamilyState) (r : Result A) (id : Text)
    → load (save_then st s r).0 id ≡ (
        if st.save_hook s
        then load st id
        else if text_eq s.bridge_id id
        then some s
        else load st id)
unfolding load save_then save
load-save_then st s r id = ground (arith, get-put s.bridge_id id s st.families)

pub save_then_other {ℓ} :
    {A : Type ℓ} (st : MemoryStore) (s : FamilyState) (r : Result A) (id : Text)
    → s.bridge_id ≢ id
    → load (save_then st s r).0 id ≡ load st id
save_then_other st s r id ne = ground (arith, load-save_then st s r id, text_eq_iff s.bridge_id id)

-- The hook is the test's, and no call changes it.
pub hook-save_then {ℓ} :
    {A : Type ℓ} (st : MemoryStore) (s : FamilyState) (r : Result A)
    → (save_then st s r).0.save_hook ≡ st.save_hook
unfolding save_then save
hook-save_then st s r = ground arith

save_then_result {ℓ} :
    {A : Type ℓ} (st st' : MemoryStore) (s : FamilyState) (r : Result A)
    → st.save_hook ≡ st'.save_hook
    → (save_then st s r).1 ≡ (save_then st' s r).1
unfolding save_then save
save_then_result st st' s r h = ground (arith, ap (λ f. f s) h)

module _ (hash : Text → Text) where
  rotate_family_other :
      (window now : ℕ) (fresh presented : Text) (s : FamilyState) (st : MemoryStore) (id : Text)
      → s.bridge_id ≢ id
      → load (rotate_family hash window now fresh presented s st).0 id ≡ load st id
  unfolding rotate_family revoke_family advanced reissued kill
  rotate_family_other window now fresh presented s st id ne = grind (arith, save_then_other)

  rotate_family_hook :
      (window now : ℕ) (fresh presented : Text) (s : FamilyState) (st : MemoryStore)
      → (rotate_family hash window now fresh presented s st).0.save_hook ≡ st.save_hook
  unfolding rotate_family revoke_family
  rotate_family_hook window now fresh presented s st = grind (arith, hook-save_then)

  hook-rotate :
      (window now : ℕ) (fresh bridge presented : Text) (st : MemoryStore)
      → (rotate hash window now fresh bridge presented st).0.save_hook ≡ st.save_hook
  unfolding rotate
  hook-rotate window now fresh bridge presented st = grind (arith, rotate_family_hook)

  rotate_family_result :
      (window now : ℕ) (fresh presented : Text) (s : FamilyState) (st st' : MemoryStore)
      → st.save_hook ≡ st'.save_hook
      → (rotate_family hash window now fresh presented s st).1
        ≡ (rotate_family hash window now fresh presented s st').1
  unfolding rotate_family revoke_family
  rotate_family_result window now fresh presented s st st' h = grind (arith, save_then_result)

  -- What a rotation returns depends on the store by the presenting Bridge's family only.
  rotate_result :
      (window now : ℕ) (fresh bridge presented : Text) (st st' : MemoryStore)
      → load st bridge ≡ load st' bridge
      → st.save_hook ≡ st'.save_hook
      → (rotate hash window now fresh bridge presented st).1
        ≡ (rotate hash window now fresh bridge presented st').1
  unfolding rotate
  rotate_result window now fresh bridge presented st st' e h =
      elim (Option-cases (load st' bridge)) [
        | inl n ↦ rw (e, n, rotate) refl
        | inr (s, n) ↦
            rw (e, n, rotate)
              (ground (arith, rotate_family_result window now fresh presented s st st' h))
      ]

  pub load-rotate :
      (window now : ℕ) (fresh bridge presented : Text) (st : MemoryStore) (id : Text)
      → bridge ≢ id
      → load (rotate hash window now fresh bridge presented st).0 id ≡ load st id
  unfolding rotate
  load-rotate window now fresh bridge presented st id ne = elim (Option-cases (load st bridge)) [
    | inl e ↦ rw (e, rotate)
    | inr (s, e) ↦
        rw (e, rotate)
          (ground (
            arith,
            text_eq_iff s.bridge_id bridge,
            rotate_family_other window now fresh presented s st id,
          ))
  ]

  -- A rotation, whatever its outcome, leaves the family held for every other Bridge as it was,
  -- and the next rotation of that Bridge returns what it would have returned without it. This
  -- holds too where the token presented is the other Bridge's current or previous one.
  pub rotate_other :
      (window now later : ℕ) (fresh next bridge presented token : Text) (st : MemoryStore)
      (id : Text)
      → bridge ≢ id
      → (load (rotate hash window now fresh bridge presented st).0 id ≡ load st id)
        × ((rotate hash window later next id token
              (rotate hash window now fresh bridge presented st).0).1
            ≡ (rotate hash window later next id token st).1)
  rotate_other window now later fresh next bridge presented token st id ne =
      let same = load-rotate window now fresh bridge presented st id ne in
      (
        same,
        rotate_result window later next id token _ st same
            (hook-rotate window now fresh bridge presented st),
      )

  -- A rotation that returns an error other than reuse leaves the whole store as it was.
  pub rotate_refused :
      (window now : ℕ) (fresh bridge presented : Text) (st : MemoryStore) {e : Error}
      → (rotate hash window now fresh bridge presented st).1 ≡ err e
      → e ≢ reuse_detected
      → (rotate hash window now fresh bridge presented st).0 ≡ st
  unfolding rotate rotate_family save_then save revoke_family
  rotate_refused window now fresh bridge presented st h ne = ground arith
