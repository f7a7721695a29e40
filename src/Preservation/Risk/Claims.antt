-- ===== src/Preservation/Risk/Claims.antt =====
-- An assessment is a function of the set of claims: their order, and the order in which Go walks
-- the map, do not matter, and a record that is there twice counts once.
use rom_m_swarm.Common.{
  Unique, In, any-In, In-any, ℕ, ◌≤◌, Text, text_eq_refl, ◌≡◌, ◌↔◌, refl, Bool, true, false, ◌&&◌,
  List, [], ◌∷◌, get, any, contains, distinct, distinct_mono, distinct_same, arith, Bool-eq, ◌∙◌,
  sym,
}
use rom_m_swarm.Protocol.Availability.{counts_toward_resilience, is_removed}
use rom_m_swarm.Preservation.Risk.{
  Replica, Rules, Assessment, BridgeSummary, Tally, note, note_all, no_summary, skipped, count_all,
  fresh_claim, domain_key, assess, tally, risk_of,
}
use rom_m_swarm.Preservation.Risk.Summaries.{
  Summaries, at, Tells, note_all-Tells, note_at, fold_at, at-note_all, kept, of_bridge, fresh_in,
}
use rom_m_swarm.Preservation.Risk.Counts.{
  note_all-Unique, live, live_online, passing, contains-passing, count_all-confirmed,
  count_all-online,
}
use rom_m_swarm.Preservation.Risk.Domains.{
  IsNodup, add-IsNodup, gives, gives_same, gives_live, given, given_by, given_of, count_all-domains,
  count_all-IsNodup,
}

abbrev pub SameClaims : List Replica → List Replica → Type 0
SameClaims rs ss = (r : Replica) → In r rs ↔ In r ss

any_mono :
    (p : Replica → Bool) (rs ss : List Replica)
    → ((r : Replica) → In r rs → In r ss)
    → any p rs ≡ true
    → any p ss ≡ true
any_mono p rs ss sub h = let (r, i, g) = In-any p rs h in any-In p r ss (sub r i) g

any_same : (p : Replica → Bool) (rs ss : List Replica) → SameClaims rs ss → any p rs ≡ any p ss
any_same p rs ss h =
    Bool-eq (any p rs) (any p ss) (any_mono p rs ss (λ r. (h r).0))
      (any_mono p ss rs (λ r. (h r).1))

any_weaken :
    (p q : Replica → Bool) (rs : List Replica)
    → ((r : Replica) → p r ≡ true → q r ≡ true)
    → any p rs ≡ true
    → any q rs ≡ true
any_weaken p q [] h e = cc
any_weaken p q (r ∷ rs) h e = ground (arith, h r, any_weaken p q rs h)

gives_some : (k : Text) (ds : List Text) → gives k ds ≡ true → (d : Text) × (contains d ds ≡ true)
unfolding gives contains
gives_some k [] h = cc
gives_some k (d ∷ ds) h = (d, ground (arith, text_eq_refl d))

eq_of_fields :
    (x y : Assessment)
    → x.confirmed ≡ y.confirmed
    → x.online ≡ y.online
    → x.independent ≡ y.independent
    → x.risk ≡ y.risk
    → x.rules_version ≡ y.rules_version
    → x ≡ y
eq_of_fields x y c o i k v = ground arith

module _ (rules : Rules) (now : ℕ) where
  blank : live no_summary ≡ false
  unfolding skipped
  blank = refl

  blank_online : live_online no_summary ≡ false
  unfolding skipped
  blank_online = refl

  -- The map after the first loop.
  abbrev noted : List Replica → Summaries
  noted rs = note_all rules now [] rs

  noted-Unique : (rs : List Replica) → Unique (noted rs)
  noted-Unique rs = note_all-Unique rules now [] rs tt

  fold_at-IsNodup :
      (a : Text) (s : BridgeSummary) (rs : List Replica)
      → IsNodup s.recent_domains
      → IsNodup (fold_at rules now a s rs).recent_domains
  unfolding fold_at note_at note
  fold_at-IsNodup a s [] h = h
  fold_at-IsNodup a s (r ∷ rs) h =
      fold_at-IsNodup a (note_at rules now a r s) rs
        (ground (arith, add-IsNodup (domain_key r) s.recent_domains))

  noted-IsNodup : (a : Text) (rs : List Replica) → IsNodup (at a (noted rs)).recent_domains
  unfolding distinct get
  noted-IsNodup a rs = rw (at-note_all rules now a [] rs) (fold_at-IsNodup a no_summary rs refl)

  tally_domains :
      (k : Text) (rs : List Replica) → contains k (tally rs rules now).domains ≡ given k (noted rs)
  unfolding tally contains
  tally_domains k rs =
      ground
        (arith, count_all-domains k (noted rs) (record { confirmed = 0; online = 0; domains = [] }))

  assess_counts :
      (rs : List Replica)
      → ((assess rs rules now).confirmed ≡ distinct (passing live (noted rs)))
        × ((assess rs rules now).online ≡ distinct (passing live_online (noted rs)))
        × ((assess rs rules now).independent ≡ distinct (tally rs rules now).domains)
        × ((assess rs rules now).risk
            ≡ risk_of rules
                (assess rs rules now).confirmed
                (assess rs rules now).online
                (assess rs rules now).independent)
        × ((assess rs rules now).rules_version ≡ rules.version)
  unfolding assess tally distinct risk_of passing note_all count_all
  assess_counts [] = (refl, refl, refl, refl, refl)
  assess_counts (r ∷ rs) =
      let m = noted (r ∷ rs) in
      let u = noted-Unique (r ∷ rs) in
      let t : Tally = record { confirmed = 0; online = 0; domains = [] } in
      (
        omega (arith, count_all-confirmed m t u),
        omega (arith, count_all-online m t u),
        sym (count_all-IsNodup m t refl),
        refl,
        refl,
      )

  module _ (rs ss : List Replica) (h : SameClaims rs ss) (a : Text) where
    said : Tells rules now a no_summary (at a (noted rs)) rs
    said = note_all-Tells rules now a rs

    said' : Tells rules now a no_summary (at a (noted ss)) ss
    said' = note_all-Tells rules now a ss

    same_live : live (at a (noted rs)) ≡ live (at a (noted ss))
    unfolding skipped
    same_live = ground (
      arith,
      said.removed_is,
      said'.removed_is,
      said.present_is,
      said'.present_is,
      any_same (of_bridge a (λ r. is_removed r.availability)) rs ss h,
      any_same (of_bridge a kept) rs ss h,
    )

    same_online : live_online (at a (noted rs)) ≡ live_online (at a (noted ss))
    same_online = ground (
      arith,
      same_live,
      said.online_is,
      said'.online_is,
      any_same (of_bridge a (λ r. kept r && counts_toward_resilience r.availability)) rs ss h,
    )

    same_recent :
        (k : Text)
        → contains k (at a (noted rs)).recent_domains ≡ contains k (at a (noted ss)).recent_domains
    same_recent k = ground (
      arith,
      said.recent_is k,
      said'.recent_is k,
      any_same (of_bridge a (fresh_in rules now k)) rs ss h,
    )

    same_gives : (k : Text) → gives_live k (at a (noted rs)) ≡ gives_live k (at a (noted ss))
    unfolding gives_live
    same_gives k = ground (
      arith,
      same_live,
      gives_same k (at a (noted rs)).recent_domains (at a (noted ss)).recent_domains
          (noted-IsNodup a rs) (noted-IsNodup a ss) same_recent,
    )

  given_mono :
      (rs ss : List Replica)
      → ((a k : Text)
          → gives_live k (at a (noted rs)) ≡ true
          → gives_live k (at a (noted ss)) ≡ true)
      → distinct (tally rs rules now).domains ≤ distinct (tally ss rules now).domains
  given_mono rs ss h = distinct_mono _ _ (λ k e.
      let (a, g) = given_by k (noted rs) (noted-Unique rs) (rw (tally_domains k rs) at e) in
      rw (tally_domains k ss) (given_of k a (noted ss) (h a k g)))

  -- Two inputs that hold the same records, in whatever order and however often, have the same
  -- assessment in every field.
  pub assess_same :
      (rs ss : List Replica) → SameClaims rs ss → assess rs rules now ≡ assess ss rules now
  assess_same rs ss h =
      let (c, o, i, k, v) = assess_counts rs in
      let (c', o', i', k', v') = assess_counts ss in
      let confirmed : (assess rs rules now).confirmed ≡ (assess ss rules now).confirmed =
        c
        ∙ distinct_same (passing live (noted rs)) (passing live (noted ss)) (λ a. ground (
          arith,
          contains-passing live blank a (noted rs) (noted-Unique rs),
          contains-passing live blank a (noted ss) (noted-Unique ss),
          same_live rs ss h a,
        ))
        ∙ sym c' in
      let online : (assess rs rules now).online ≡ (assess ss rules now).online =
        o
        ∙ distinct_same (passing live_online (noted rs)) (passing live_online (noted ss)) (λ a.
          ground (
            arith,
            contains-passing live_online blank_online a (noted rs) (noted-Unique rs),
            contains-passing live_online blank_online a (noted ss) (noted-Unique ss),
            same_online rs ss h a,
          ))
        ∙ sym o' in
      let le = given_mono rs ss (λ a k e. sym (same_gives rs ss h a k) ∙ e) in
      let ge = given_mono ss rs (λ a k e. same_gives rs ss h a k ∙ e) in
      let independent : (assess rs rules now).independent ≡ (assess ss rules now).independent =
        omega arith in
      eq_of_fields _ _ confirmed online independent
        (k ∙ rw (confirmed, online, independent) (sym k')) (v ∙ sym v')

  -- The recent domains of a summary are those of the Bridge's fresh claims.
  recent_fresh :
      (a d : Text) (rs : List Replica)
      → contains d (at a (noted rs)).recent_domains ≡ any (of_bridge a (fresh_in rules now d)) rs
  unfolding contains
  recent_fresh a d rs = ground (arith, (note_all-Tells rules now a rs).recent_is d)

  -- A claim that is not fresh leaves what its Bridge gives as it was, or takes it away.
  stale_gives :
      (r : Replica) (rs : List Replica)
      → fresh_claim rules now r ≡ false
      → (a k : Text) → gives_live k (at a (noted (r ∷ rs))) ≡ true
      → gives_live k (at a (noted rs)) ≡ true
  unfolding gives_live skipped
  stale_gives r rs f a k g =
      let t = note_all-Tells rules now a (r ∷ rs) in
      let u = note_all-Tells rules now a rs in
      let same = λ (d : Text).
        let e : contains d (at a (noted (r ∷ rs))).recent_domains
            ≡ contains d (at a (noted rs)).recent_domains =
          ground (arith, recent_fresh a d (r ∷ rs), recent_fresh a d rs) in
        e in
      let gs =
        gives_same k (at a (noted (r ∷ rs))).recent_domains (at a (noted rs)).recent_domains
          (noted-IsNodup a (r ∷ rs)) (noted-IsNodup a rs) same in
      let (d, m) = gives_some k (at a (noted (r ∷ rs))).recent_domains (ground arith) in
      let w =
        any_weaken (of_bridge a (fresh_in rules now d)) (of_bridge a kept) rs
          (λ x h. ground arith) in
      ground
        (arith, gs, same d, m, recent_fresh a d rs, w, t.removed_is, u.removed_is, u.present_is)

  -- A further claim that is not both available and recently verified never raises the number
  -- of independent replicas.
  pub assess_stale_claim :
      (r : Replica) (rs : List Replica)
      → fresh_claim rules now r ≡ false
      → (assess (r ∷ rs) rules now).independent ≤ (assess rs rules now).independent
  assess_stale_claim r rs f =
      let (c, o, i, k, v) = assess_counts (r ∷ rs) in
      let (c', o', i', k', v') = assess_counts rs in
      let le = given_mono (r ∷ rs) rs (stale_gives r rs f) in omega arith
