-- ===== src/Auth/Refresh/Crash.antt =====
-- Whole histories of one family: a crash between the Host's commit and the Bridge's, and a thief.
use rom_m_swarm.Common.{
  ℕ, ◌+◌, ◌≤◌, ◌<◌, Text, text_eq, text_eq_iff, ◌≡◌, ◌≢◌, refl, some, [], arith, if◌then◌else◌, ◌∙◌,
}
use rom_m_swarm.Auth.Refresh.{
  FamilyState, unknown_token, reuse_detected, Result, ok, err, MemoryStore, Rotation, load, kill,
  rotate, authenticate, advanced, reissued, issue, grace, rotated, recovered, token_rotated,
  token_grace_used,
}
use rom_m_swarm.Auth.Refresh.Recovery.{
  Live, Saves, Does, twice, late, rotate_current, rotate_previous, rotate_twice, rotate_late,
}

module _ (hash : Text → Text) where
  -- What `Authenticate` accepts of a live family.
  pub authenticate-Live :
      (bridge presented : Text) (st : MemoryStore) (s : FamilyState)
      → Live st bridge s
      → authenticate hash bridge presented st
        ≡ (if text_eq (hash presented) s.current_hash then ok tt else err unknown_token)
  unfolding authenticate
  authenticate-Live bridge presented st s l =
      rw (l.held, authenticate) (ground (arith, text_eq_iff s.bridge_id bridge, l.keyed, l.live))

  module _ (window n1 n2 n3 : ℕ) (f1 f2 f3 bridge t : Text) (st : MemoryStore)
      (s : FamilyState) where
    abbrev pub first : MemoryStore × Result Rotation
    first = rotate hash window n1 f1 bridge t st

    abbrev pub second : MemoryStore × Result Rotation
    second = rotate hash window n2 f2 bridge t first.0

    abbrev pub third : MemoryStore × Result Rotation
    third = rotate hash window n3 f3 bridge t second.0

    -- The Bridge holds the current token `t` and crashes before it stores the one that the first
    -- rotation issued. The hashes of the tokens that are told apart differ.
    module _ (l : Live st bridge s) (v : Saves st) (e : hash t ≡ s.current_hash) (n : hash t ≢ [])
        (d1 : hash t ≢ hash f1) (d2 : hash t ≢ hash f2) where
      first-Does :
          Does st bridge first
            (ok (issue hash rotated token_rotated n1 f1 s))
            (advanced hash n1 f1 s)
      first-Does = rotate_current hash window n1 f1 bridge t st s l v e

      first-Saves : Saves first.0
      first-Saves x = rw first-Does.hook_kept (v x)

      first-Live : Live first.0 bridge (advanced hash n1 f1 s)
      unfolding advanced
      first-Live = record { held = first-Does.now_held; keyed = l.keyed; live = l.live }

      second-Does :
          n2 ≤ n1 + grace window
          → Does first.0 bridge second
              (ok (issue hash recovered token_grace_used n2 f2 (advanced hash n1 f1 s)))
              (reissued hash f2 (advanced hash n1 f1 s))
      unfolding advanced
      second-Does w =
          rotate_previous hash window n2 f2 bridge t first.0 (advanced hash n1 f1 s) first-Live
            first-Saves (d1, e, λ z. n (e ∙ z)) refl w

      second-Live :
          n2 ≤ n1 + grace window → Live second.0 bridge (reissued hash f2 (advanced hash n1 f1 s))
      unfolding advanced reissued
      second-Live w = record { held = (second-Does w).now_held; keyed = l.keyed; live = l.live }

      third-Does :
          n2 ≤ n1 + grace window
          → Does second.0 bridge third
              (err reuse_detected)
              (kill (reissued hash f2 (advanced hash n1 f1 s)) twice)
      unfolding advanced reissued
      third-Does w =
          rotate_twice hash window n3 f3 bridge t second.0
            (reissued hash f2 (advanced hash n1 f1 s)) (second-Live w)
            (λ x. rw (second-Does w).hook_kept (first-Saves x)) (d2, e, λ z. n (e ∙ z)) refl

      late-Does :
          n1 + grace window < n2
          → Does first.0 bridge second (err reuse_detected) (kill (advanced hash n1 f1 s) late)
      unfolding advanced
      late-Does w =
          rotate_late hash window n2 f2 bridge t first.0 (advanced hash n1 f1 s) first-Live
            first-Saves (d1, e, λ z. n (e ∙ z)) refl w

      -- Let the store hold an unrevoked family of a Bridge, let every save succeed, let
      -- the Bridge present its current token, whose hash is not empty, three times, the
      -- second time within the recovery window of the first, and let that hash differ from
      -- those of the first two tokens issued, which differ from each other. Then the first
      -- presentation rotates and the second recovers; after it the token of the second is
      -- accepted and that of the first is not; the third, at any time, is reported as
      -- reuse, and the family is revoked with both hashes empty.
      pub crash_recovery :
          n2 ≤ n1 + grace window
          → hash f1 ≢ hash f2
          → (first.1 ≡ ok (issue hash rotated token_rotated n1 f1 s))
            × (second.1 ≡ ok (issue hash recovered token_grace_used n2 f2 (advanced hash n1 f1 s)))
            × (authenticate hash bridge f2 second.0 ≡ ok tt)
            × (authenticate hash bridge f1 second.0 ≡ err unknown_token)
            × (third.1 ≡ err reuse_detected)
            × (load third.0 bridge ≡ some (kill (reissued hash f2 (advanced hash n1 f1 s)) twice))
      unfolding reissued
      crash_recovery w d3 = (
        first-Does.result,
        (second-Does w).result,
        rw (authenticate-Live bridge f2 second.0 _ (second-Live w))
            (ground (arith, text_eq_iff (hash f2) (hash f2))),
        rw (authenticate-Live bridge f1 second.0 _ (second-Live w))
            (ground (arith, text_eq_iff (hash f1) (hash f2))),
        (third-Does w).result,
        (third-Does w).now_held,
      )

      -- Let the store hold an unrevoked family of a Bridge, let every save succeed, let
      -- the Bridge present its current token, whose hash is not empty, twice, the second
      -- time after the recovery window of the first, and let that hash differ from those
      -- of the tokens issued. Then the second presentation is reported as reuse, and the
      -- family is revoked with both hashes empty.
      pub late_reuse :
          n1 + grace window < n2
          → (second.1 ≡ err reuse_detected)
            × (load second.0 bridge ≡ some (kill (advanced hash n1 f1 s) late))
      late_reuse w = ((late-Does w).result, (late-Does w).now_held)
