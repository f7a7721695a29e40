-- ===== src/Tests/Preservation.antt =====
-- Preservation risk at concrete inputs.
use rom_m_swarm.Common.{
  ℕ, ◌≤◌, codes, text_eq, ◌≡◌, refl, false, [], ◌∷◌, arith, get, put, contains,
}
use rom_m_swarm.Protocol.Availability.{Availability, counts_toward_resilience, is_removed}
use rom_m_swarm.Preservation.Risk.{
  Replica, default_rules, assess, compute_coverage, fresh_claim, recently_revalidated, tally,
  count_all, note_all, count_bridge, skipped, note, add_domains, add, domain_key, risk_of, fragile,
}
use rom_m_swarm.Preservation.Risk.Claims.{SameClaims, assess_same, assess_stale_claim}
use rom_m_swarm.Preservation.Risk.Partition.{IsPartition, compute_coverage-IsPartition}

abbrev seen : ℕ
seen = 5000

abbrev alice : Replica
alice = record {
  alias = codes "alice";
  failure_domain = codes "home";
  availability = Availability.available;
  last_verified_at = seen;
}

abbrev bob : Replica
bob = record alice { alias = codes "bob"; failure_domain = codes "attic" }

abbrev gone : Replica
gone = record alice { alias = codes "carol"; availability = Availability.offline }

same_claims : SameClaims (alice ∷ bob ∷ []) (bob ∷ alice ∷ alice ∷ [])
same_claims r = (λ h. ground arith, λ h. ground arith)

assess_same_example :
    assess (alice ∷ bob ∷ []) default_rules 6000
    ≡ assess (bob ∷ alice ∷ alice ∷ []) default_rules 6000
assess_same_example =
    assess_same default_rules 6000 (alice ∷ bob ∷ []) (bob ∷ alice ∷ alice ∷ []) same_claims

gone_stale : fresh_claim default_rules 6000 gone ≡ false
unfolding fresh_claim recently_revalidated counts_toward_resilience
gone_stale = refl

assess_stale_claim_example :
    (assess (gone ∷ alice ∷ []) default_rules 6000).independent
    ≤ (assess (alice ∷ []) default_rules 6000).independent
assess_stale_claim_example = assess_stale_claim default_rules 6000 gone (alice ∷ []) gone_stale

compute_coverage-IsPartition_example : IsPartition 2 (
    compute_coverage
      (codes "gb")
      (codes "p")
      (codes "s")
      (codes "x" ∷ codes "y" ∷ [])
      ((codes "x", alice ∷ bob ∷ []) ∷ [])
      default_rules
      6000)
compute_coverage-IsPartition_example =
    compute_coverage-IsPartition (codes "gb") (codes "p") (codes "s") (codes "x" ∷ codes "y" ∷ [])
      ((codes "x", alice ∷ bob ∷ []) ∷ []) default_rules 6000

two_sources :
    ((assess (alice ∷ bob ∷ gone ∷ []) default_rules 6000).confirmed ≡ 3)
    × ((assess (alice ∷ bob ∷ gone ∷ []) default_rules 6000).independent ≡ 2)
    × ((assess (alice ∷ bob ∷ gone ∷ []) default_rules 6000).risk ≡ fragile)
unfolding assess tally count_all note_all put text_eq count_bridge skipped note is_removed get
    add_domains fresh_claim recently_revalidated counts_toward_resilience add contains domain_key
    risk_of
two_sources = (refl, refl, refl)
