-- ===== src/Preservation/Risk/Partition.antt =====
-- The bounds between the counts of an assessment, and the partition that a coverage reports.
use rom_m_swarm.Common.{
  ℕ, suc, ◌+◌, ◌≤◌, Text, ◌≡◌, ◌≢◌, ◌↔◌, refl, true, List, [], ◌∷◌, get, put, length, All, arith,
}
use rom_m_swarm.Preservation.Risk.{
  Replica, Rules, Assessment, BridgeSummary, Tally, Coverage, add, note, note_all, add_domains,
  count_bridge, count_all, tally, assess, risk_of, missing, count_assessment, cover_all,
  compute_coverage, blank_coverage, replicas_of, fresh_claim, or_new,
}

-- A Bridge with a fresh claim is online.
abbrev pub IsSound : BridgeSummary → Type 0
IsSound s = s.recent_domains ≢ [] → s.online ≡ true

note-IsSound :
    (rules : Rules) (now : ℕ) (r : Replica) (s : BridgeSummary)
    → IsSound s
    → IsSound (note rules now r s)
unfolding note fresh_claim
note-IsSound rules now r s h ne = ground arith

abbrev AllSound : List (Text × BridgeSummary) → Type 0
AllSound = All (λ e. IsSound e.1)

get-IsSound : (k : Text) (m : List (Text × BridgeSummary)) → AllSound m → IsSound (or_new (get k m))
unfolding get
get-IsSound k [] h ne = absurd (ne refl)
get-IsSound k ((j, s) ∷ m) h ne = ground (arith, h.0, get-IsSound k m h.1)

put-IsSound :
    (k : Text) (s : BridgeSummary) (m : List (Text × BridgeSummary))
    → IsSound s
    → AllSound m
    → AllSound (put k s m)
unfolding put
put-IsSound k s [] hs h = (hs, tt)
put-IsSound k s ((j, s') ∷ m) hs h = ground (arith, put-IsSound k s m hs h.1)

note_all-IsSound :
    (rules : Rules) (now : ℕ) (m : List (Text × BridgeSummary)) (rs : List Replica)
    → AllSound m
    → AllSound (note_all rules now m rs)
unfolding note_all
note_all-IsSound rules now m [] h = h
note_all-IsSound rules now m (r ∷ rs) h =
    note_all-IsSound rules now (put r.alias (note rules now r (or_new (get r.alias m))) m) rs
      (put-IsSound r.alias _ m (note-IsSound rules now r _ (get-IsSound r.alias m h)) h)

abbrev Ordered : Tally → Type 0
Ordered t = (length t.domains ≤ t.online) × (t.online ≤ t.confirmed)

count_bridge-Ordered :
    (s : BridgeSummary) (t : Tally) → IsSound s → Ordered t → Ordered (count_bridge s t)
unfolding count_bridge add_domains add
count_bridge-Ordered s t h o = bounded s.recent_domains h o
  where
    bounded :
        (ds : List Text)
        → (ds ≢ [] → s.online ≡ true)
        → Ordered t
        → Ordered (count_bridge (record s { recent_domains = ds }) t)
    bounded [] h o = ground arith
    bounded (d ∷ []) h o = ground (arith, h (λ e. cc))
    bounded (d ∷ e ∷ ds) h o = ground (arith, h (λ z. cc))

count_all-Ordered :
    (m : List (Text × BridgeSummary)) (t : Tally) → AllSound m → Ordered t → Ordered (count_all m t)
unfolding count_all
count_all-Ordered [] t h o = o
count_all-Ordered ((a, s) ∷ m) t h o =
    count_all-Ordered m (count_bridge s t) h.1 (count_bridge-Ordered s t h.0 o)

-- In every assessment the independent replicas are no more than the online sources, and those no
-- more than the confirmed ones.
pub assess_bounds :
    (rs : List Replica) (rules : Rules) (now : ℕ)
    → ((assess rs rules now).independent ≤ (assess rs rules now).online)
      × ((assess rs rules now).online ≤ (assess rs rules now).confirmed)
unfolding assess tally
assess_bounds [] rules now = omega arith
assess_bounds (r ∷ rs) rules now =
    count_all-Ordered _ _ (note_all-IsSound rules now [] (r ∷ rs) tt) (omega arith)

-- The risk of an assessment is `missing` exactly where no source is confirmed.
pub assess_missing :
    (rs : List Replica) (rules : Rules) (now : ℕ)
    → ((assess rs rules now).risk ≡ missing) ↔ ((assess rs rules now).confirmed ≡ 0)
unfolding assess risk_of
assess_missing [] rules now = (λ h. refl, λ h. refl)
assess_missing (r ∷ rs) rules now = (λ h. ground arith, λ h. ground arith)

-- The counters of a coverage after some entries have been counted.
pub record IsPartition (n : ℕ) (c : Coverage) : Type 0 where
  pub states_sum : c.resilient + c.fragile + c.at_risk + c.stale + c.unavailable + c.missing ≡ n
  pub content_sum : c.content + c.missing ≡ n
  pub available_le : c.available ≤ c.content
  pub resilient_le : c.resilient ≤ c.content

count_assessment-IsPartition :
    (a : Assessment) (c : Coverage) (n : ℕ)
    → (a.risk ≡ missing) ↔ (a.confirmed ≡ 0)
    → a.online ≤ a.confirmed
    → IsPartition n c
    → IsPartition (n + 1) (count_assessment a c)
unfolding count_assessment
count_assessment-IsPartition a c n m o p = ground (arith, m.0, m.1)

cover_all-IsPartition :
    (m : List (Text × List Replica)) (rules : Rules) (now : ℕ) (ids : List Text) (c : Coverage)
    (n : ℕ)
    → IsPartition n c
    → IsPartition (n + length ids) (cover_all m rules now ids c)
unfolding cover_all
cover_all-IsPartition m rules now [] c n p = let e : n + 0 ≡ n = omega arith in rw e p
cover_all-IsPartition m rules now (id ∷ ids) c n p =
    let rs = replicas_of m id in
    let q =
      count_assessment-IsPartition (assess rs rules now) c n (assess_missing rs rules now)
        (assess_bounds rs rules now).1 p in
    let e : n + 1 + length ids ≡ n + suc (length ids) = omega arith in
    rw e at
      (cover_all-IsPartition m rules now ids (count_assessment (assess rs rules now) c) (n + 1) q)

-- In every coverage the six risk counters add up to the number of expected entries, and so do
-- the entries with content and the missing ones; the entries that can be served now and the
-- resilient ones are each no more than those with content.
pub compute_coverage-IsPartition :
    (platform profile_ref set_ref : Text) (expected : List Text) (m : List (Text × List Replica))
    (rules : Rules) (now : ℕ)
    → IsPartition
        (length expected)
        (compute_coverage platform profile_ref set_ref expected m rules now)
unfolding compute_coverage blank_coverage
compute_coverage-IsPartition platform profile_ref set_ref expected m rules now =
    let e : 0 + length expected ≡ length expected = omega arith in
    let z : IsPartition 0 (blank_coverage platform profile_ref set_ref expected rules) =
      ground arith in
    rw e at (
      cover_all-IsPartition m rules now expected
        (blank_coverage platform profile_ref set_ref expected rules) 0 z)
