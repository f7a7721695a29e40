-- ===== src/Preservation/Risk/Summaries.antt =====
-- The map of summaries after the first loop of `Assess`: what it holds for each alias is decided
-- by which claims the input has, not by their order or number.
use rom_m_swarm.Common.{
  ℕ, Text, text_eq, text_eq_iff, ◌≡◌, refl, Bool, not, ◌&&◌, ◌||◌, List, [], ◌∷◌, get, put, get-put,
  any, contains, arith, if◌then◌else◌, Bool-cases, inl, inr, ap, ◌∙◌,
}
use rom_m_swarm.Protocol.Availability.{counts_toward_resilience, is_removed}
use rom_m_swarm.Preservation.Risk.{
  Replica, Rules, BridgeSummary, add, note, note_all, fresh_claim, or_new, no_summary, domain_key,
}

abbrev pub Summaries : Type 0
Summaries = List (Text × BridgeSummary)

-- The summary of one alias; that of an absent alias is blank.
abbrev pub at : Text → Summaries → BridgeSummary
at a m = or_new (get a m)

at-put :
    (a b : Text) (s : BridgeSummary) (m : Summaries)
    → at a (put b s m) ≡ (if text_eq b a then s else at a m)
at-put a b s m = rw (get-put b a s m) (ground arith)

-- The claims of one Bridge.
abbrev pub of_bridge : Text → (Replica → Bool) → Replica → Bool
of_bridge a p r = text_eq r.alias a && p r

abbrev pub kept : Replica → Bool
kept r = not (is_removed r.availability)

module _ (rules : Rules) (now : ℕ) where
  abbrev pub fresh_in : Text → Replica → Bool
  fresh_in k r = kept r && (fresh_claim rules now r && text_eq (domain_key r) k)

  -- One claim, on the summary of any alias.
  unfoldable pub note_at : Text → Replica → BridgeSummary → BridgeSummary
  note_at a r s = if text_eq r.alias a then note rules now r s else s

  at-note :
      (a : Text) (r : Replica) (m : Summaries)
      → at a (put r.alias (note rules now r (at r.alias m)) m) ≡ note_at a r (at a m)
  unfolding note_at
  at-note a r m =
      rw (at-put a r.alias (note rules now r (at r.alias m)) m)
        (elim (Bool-cases (text_eq r.alias a)) [
          | inl e ↦ rw (e, (text_eq_iff r.alias a).0 e)
          | inr e ↦ rw e
        ])

  -- What a summary says, against what claims there are.
  pub record Tells (a : Text) (s s' : BridgeSummary) (rs : List Replica) : Type 0 where
    pub removed_is :
        s'.removed ≡ (s.removed || any (of_bridge a (λ r. is_removed r.availability)) rs)
    pub present_is : s'.present ≡ (s.present || any (of_bridge a kept) rs)
    pub online_is : s'.online ≡ (
        s.online || any (of_bridge a (λ r. kept r && counts_toward_resilience r.availability)) rs)
    pub recent_is :
        (k : Text)
        → contains k s'.recent_domains
          ≡ (contains k s.recent_domains || any (of_bridge a (fresh_in k)) rs)

  contains-add :
      (k j : Text) (ks : List Text) → contains k (add j ks) ≡ (text_eq j k || contains k ks)
  unfolding add contains
  contains-add k j ks = ground (arith, text_eq_iff j k, text_eq_iff k j)

  unfoldable pub fold_at : Text → BridgeSummary → List Replica → BridgeSummary
  fold_at a s [] = s
  fold_at a s (r ∷ rs) = fold_at a (note_at a r s) rs

  pub at-note_all :
      (a : Text) (m : Summaries) (rs : List Replica)
      → at a (note_all rules now m rs) ≡ fold_at a (at a m) rs
  unfolding note_all fold_at
  at-note_all a m [] = refl
  at-note_all a m (r ∷ rs) =
      at-note_all a (put r.alias (note rules now r (at r.alias m)) m) rs
      ∙ ap (λ s. fold_at a s rs) (at-note a r m)

  fold_at-Tells : (a : Text) (s : BridgeSummary) (rs : List Replica) → Tells a s (fold_at a s rs) rs
  unfolding fold_at note_at note
  fold_at-Tells a s [] = record {
    removed_is = ground arith;
    present_is = ground arith;
    online_is = ground arith;
    recent_is = λ k. ground arith;
  }
  fold_at-Tells a s (r ∷ rs) =
      let t = fold_at-Tells a (note_at a r s) rs in
      record {
        removed_is = ground (arith, t.removed_is);
        present_is = ground (arith, t.present_is);
        online_is = ground (arith, t.online_is);
        recent_is =
            λ k. ground (arith, t.recent_is k, contains-add k (domain_key r) s.recent_domains);
      }

  -- What the map says of an alias after all claims.
  pub note_all-Tells :
      (a : Text) (rs : List Replica) → Tells a no_summary (at a (note_all rules now [] rs)) rs
  unfolding get
  note_all-Tells a rs = rw (at-note_all a [] rs) (fold_at-Tells a no_summary rs)
