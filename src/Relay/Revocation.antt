-- ===== src/Relay/Revocation.antt =====
-- A revoked grant stays revoked.
use rom_m_swarm.Common.{
  add_int64, ℕ, Text, text_eq, text_eq_iff, text_eq_refl, ◌≡◌, refl, Bool, true, false, none, some,
  List, [], ◌∷◌, get, get-put, arith, if◌then◌else◌, Bool-cases, inl, inr,
}
use rom_m_swarm.Relay.{
  Config, Server, GrantState, ConnectFrame, Event, handles, expires, relays, begins, ends, revokes,
  grant_revoked, step, run, handle, expire, pair_and_relay, begin_pipe, end_pipe, revoke, admit,
  release, write, meet, state, validate_frame,
}

-- The server holds this grant as revoked.
unfoldable pub is_revoked : Text → Server → Bool
is_revoked g s = elim (get g s.grants) [ none ↦ false | some st ↦ st.revoked ]

is_revoked-write :
    (g k : Text) (st : GrantState) (s : Server)
    → is_revoked g (write k st s) ≡ (if text_eq k g then st.revoked else is_revoked g s)
unfolding is_revoked write
is_revoked-write g k st s = ground (arith, get-put k g st s.grants)

state-revoked :
    (now : ℕ) (g : Text) (s : Server) → is_revoked g s ≡ true → (state now g s).revoked ≡ true
unfolding is_revoked state
state-revoked now g s h = ground arith

is_revoked-release : (g : Text) (s : Server) → is_revoked g (release s) ≡ is_revoked g s
unfolding release is_revoked
is_revoked-release g s = ground arith

is_revoked-admit :
    (c : Config) (g : Text) (s : Server) → is_revoked g (admit c s).0 ≡ is_revoked g s
unfolding admit is_revoked
is_revoked-admit c g s = ground arith

-- A write that keeps the flag of a grant keeps what is revoked.
write_keeps :
    (now : ℕ) (g k : Text) (st : GrantState) (s : Server)
    → ((state now k s).revoked ≡ true → st.revoked ≡ true)
    → is_revoked g s ≡ true
    → is_revoked g (write k st s) ≡ true
write_keeps now g k st s m h = elim (Bool-cases (text_eq k g)) [
  | inl e ↦
      let same = (text_eq_iff k g).0 e in
      rw (is_revoked-write g k st s, e) (m (rw same (state-revoked now g s h)))
  | inr e ↦ rw (is_revoked-write g k st s, e) h
]

meet_keeps :
    (f : ConnectFrame) (conn : ℕ) (st : GrantState) → (meet f conn st).0.revoked ≡ st.revoked
unfolding meet
meet_keeps f conn st = ground arith

step-is_revoked :
    (c : Config) (g : Text) (s : Server) (e : Event)
    → is_revoked g s ≡ true
    → is_revoked g (step c s e) ≡ true
unfolding step handle expire pair_and_relay begin_pipe end_pipe revoke
step-is_revoked c g s (handles now conn f) h =
    let st = state now f.grant s in
    ground (
      arith,
      write_keeps now g f.grant st s (λ x. x) h,
      write_keeps now g f.grant (meet f conn st).0 s (λ x. rw (meet_keeps f conn st) x) h,
    )
step-is_revoked c g s (expires now grant conn) h =
    ground
      (arith, write_keeps now g grant (record (state now grant s) { waiting = none }) s (λ x. x) h)
step-is_revoked c g s (relays a b) h =
    ground (arith, is_revoked-release g (admit c s).0, is_revoked-admit c g s)
step-is_revoked c g s (begins now grant src dst) h =
    let st = state now grant s in
    ground (
      arith,
      is_revoked-release g s,
      is_revoked-release g (write grant (record st { active_pair = none }) s),
      write_keeps now g grant (record st { active_pair = none }) s (λ x. x) h,
      write_keeps now g grant (record st { active_pair = some (src, dst) }) s (λ x. x) h,
    )
step-is_revoked c g s (ends now grant n) h =
    let st = state now grant s in
    let st' = record st { bytes_relayed = add_int64 st.bytes_relayed n; active_pair = none } in
    rw (is_revoked-release g (write grant st' s)) (write_keeps now g grant st' s (λ x. x) h)
step-is_revoked c g s (revokes now grant) h =
    write_keeps now g grant (record (state now grant s) { revoked = true; waiting = none }) s
      (λ x. refl) h

run-is_revoked :
    (c : Config) (g : Text) (s : Server) (es : List Event)
    → is_revoked g s ≡ true
    → is_revoked g (run c s es) ≡ true
unfolding run
run-is_revoked c g s [] h = h
run-is_revoked c g s (e ∷ es) h = run-is_revoked c g (step c s e) es (step-is_revoked c g s e h)

revoke-is_revoked : (now : ℕ) (g : Text) (s : Server) → is_revoked g (revoke now g s).0 ≡ true
unfolding revoke
revoke-is_revoked now g s =
    rw
      (
        is_revoked-write g g (record (state now g s) { revoked = true; waiting = none }) s,
        text_eq_refl g,
      )
      refl

-- After a revocation of a grant, whatever operations of any connections follow, a valid frame
-- for the grant is refused as revoked, and no session of it begins to copy.
pub revoked_grant :
    (c : Config) (s : Server) (es : List Event) (n1 n2 conn src dst : ℕ) (f : ConnectFrame)
    → validate_frame f ≡ none
    → ((handle n2 conn f (run c (revoke n1 f.grant s).0 es)).1 ≡ grant_revoked)
      × ((begin_pipe c n2 f.grant src dst (run c (revoke n1 f.grant s).0 es)).1 ≡ none)
unfolding handle begin_pipe
revoked_grant c s es n1 n2 conn src dst f v =
    let r = run-is_revoked c f.grant (revoke n1 f.grant s).0 es (revoke-is_revoked n1 f.grant s) in
    let t = state-revoked n2 f.grant (run c (revoke n1 f.grant s).0 es) r in
    (ground (arith, t), ground (arith, t))
