-- ===== src/Preservation/Risk.antt =====
-- preservation/risk.go: `Assess` and `ComputeCoverage`.
-- Instants and durations are nanoseconds; the instant 0 is the zero time. The map of summaries is
-- an association list, and `set` is a `map[string]bool` whose values are all true.
pub mod Summaries
pub mod Claims
pub mod Counts
pub mod Domains
pub mod Partition
use rom_m_swarm.Common.{
  ℕ, ◌+◌, Text, codes, text_eq, ltb, leb, ◌==◌, Bool, true, false, not, ◌&&◌, ◌||◌, Option, none,
  some, List, [], ◌∷◌, get, put, contains, length, if◌then◌else◌,
}
use rom_m_swarm.Protocol.Availability.{Availability, counts_toward_resilience, is_removed}

pub data RiskState : Type 0 where
  resilient fragile at_risk stale unavailable missing : RiskState

unfoldable pub needs_replication : RiskState → Bool
needs_replication resilient = false
needs_replication _ = true

pub record Replica : Type 0 where
  pub alias : Text
  pub failure_domain : Text
  pub availability : Availability
  pub last_verified_at : ℕ

pub record Rules : Type 0 where
  pub version : Text
  pub revalidation_window : ℕ
  pub at_risk_at : ℕ
  pub fragile_at : ℕ
  pub resilient_at : ℕ

abbrev pub default_rules : Rules
default_rules = record {
  version = codes "2";
  revalidation_window = 2592000000000000;
  at_risk_at = 1;
  fragile_at = 2;
  resilient_at = 3;
}

pub record Assessment : Type 0 where
  pub confirmed : ℕ
  pub online : ℕ
  pub independent : ℕ
  pub risk : RiskState
  pub rules_version : Text

unfoldable pub recently_revalidated : Replica → Rules → ℕ → Bool
recently_revalidated r rules now =
    if r.last_verified_at == 0
    then false
    else if ltb now r.last_verified_at
    then false
    else leb now (r.last_verified_at + rules.revalidation_window)

-- set[k] = true
unfoldable pub add : Text → List Text → List Text
add k ks = if contains k ks then ks else k ∷ ks

pub record BridgeSummary : Type 0 where
  pub removed : Bool
  pub present : Bool
  pub online : Bool
  pub recent_domains : List Text

abbrev pub no_summary : BridgeSummary
no_summary = record { removed = false; present = false; online = false; recent_domains = [] }

abbrev pub unknown : Text
unknown = codes "unknown"

-- The bucket of a failure domain.
unfoldable pub domain_key : Replica → Text
domain_key r = if text_eq r.failure_domain [] then unknown else r.failure_domain

-- A replica's claim counts toward independence.
unfoldable pub fresh_claim : Rules → ℕ → Replica → Bool
fresh_claim rules now r =
    recently_revalidated r rules now && counts_toward_resilience r.availability

-- The body of the first loop, on the summary of the replica's Bridge.
unfoldable pub note : Rules → ℕ → Replica → BridgeSummary → BridgeSummary
note rules now r s = if is_removed r.availability then record s { removed = true } else record s {
  present = true;
  online = counts_toward_resilience r.availability || s.online;
  recent_domains =
      if fresh_claim rules now r then add (domain_key r) s.recent_domains else s.recent_domains;
}

abbrev pub or_new : Option BridgeSummary → BridgeSummary
or_new none = no_summary
or_new (some s) = s

unfoldable pub note_all :
    Rules → ℕ → List (Text × BridgeSummary) → List Replica → List (Text × BridgeSummary)
note_all rules now m [] = m
note_all rules now m (r ∷ rs) =
    note_all rules now (put r.alias (note rules now r (or_new (get r.alias m))) m) rs

-- What one Bridge adds to the set of domains, by the number of its own.
unfoldable pub add_domains : List Text → List Text → List Text
add_domains [] domains = domains
add_domains (d ∷ []) domains = add d domains
add_domains (d ∷ e ∷ ds) domains = add unknown domains

pub record Tally : Type 0 where
  pub confirmed : ℕ
  pub online : ℕ
  pub domains : List Text

unfoldable pub skipped : BridgeSummary → Bool
skipped s = s.removed || not s.present

-- The body of the second loop.
unfoldable pub count_bridge : BridgeSummary → Tally → Tally
count_bridge s t = if skipped s then t else record {
  confirmed = t.confirmed + 1;
  online = if s.online then t.online + 1 else t.online;
  domains = add_domains s.recent_domains t.domains;
}

unfoldable pub count_all : List (Text × BridgeSummary) → Tally → Tally
count_all [] t = t
count_all ((a, s) ∷ m) t = count_all m (count_bridge s t)

unfoldable pub risk_of : Rules → ℕ → ℕ → ℕ → RiskState
risk_of rules confirmed online independent =
    if confirmed == 0
    then missing
    else if leb rules.resilient_at independent
    then resilient
    else if leb rules.fragile_at independent
    then fragile
    else if leb rules.at_risk_at independent
    then at_risk
    else if ltb 0 online
    then stale
    else unavailable

unfoldable pub tally : List Replica → Rules → ℕ → Tally
tally rs rules now =
    count_all (note_all rules now [] rs) (record { confirmed = 0; online = 0; domains = [] })

assess_tally : Rules → Tally → Assessment
assess_tally rules t = record {
  confirmed = t.confirmed;
  online = t.online;
  independent = length t.domains;
  risk = risk_of rules t.confirmed t.online (length t.domains);
  rules_version = rules.version;
}

unfoldable pub assess : List Replica → Rules → ℕ → Assessment
unfolding assess_tally
assess [] rules now = record {
  confirmed = 0;
  online = 0;
  independent = 0;
  risk = missing;
  rules_version = rules.version;
}
assess (r ∷ rs) rules now = assess_tally rules (tally (r ∷ rs) rules now)

pub record Coverage : Type 0 where
  pub platform : Text
  pub profile_ref : Text
  pub set_ref : Text
  pub rules_version : Text
  pub expected : ℕ
  pub content : ℕ
  pub available : ℕ
  pub resilient : ℕ
  pub at_risk : ℕ
  pub fragile : ℕ
  pub stale : ℕ
  pub unavailable : ℕ
  pub missing : ℕ
  pub playability_known : Bool

count_risk : RiskState → Coverage → Coverage
count_risk resilient c = record c { resilient = c.resilient + 1 }
count_risk fragile c = record c { fragile = c.fragile + 1 }
count_risk at_risk c = record c { at_risk = c.at_risk + 1 }
count_risk stale c = record c { stale = c.stale + 1 }
count_risk unavailable c = record c { unavailable = c.unavailable + 1 }
count_risk missing c = record c { missing = c.missing + 1 }

-- One round of the loop of `ComputeCoverage`.
unfoldable pub count_assessment : Assessment → Coverage → Coverage
unfolding count_risk
count_assessment a c = count_risk a.risk (record c {
  content = if ltb 0 a.confirmed then c.content + 1 else c.content;
  available = if ltb 0 a.online then c.available + 1 else c.available;
})

-- A missing key of the map gives no replicas.
abbrev pub replicas_of : List (Text × List Replica) → Text → List Replica
replicas_of m id = elim (get id m) [ none ↦ [] | some rs ↦ rs ]

unfoldable pub cover_all : List (Text × List Replica) → Rules → ℕ → List Text → Coverage → Coverage
cover_all m rules now [] c = c
cover_all m rules now (id ∷ ids) c =
    cover_all m rules now ids (count_assessment (assess (replicas_of m id) rules now) c)

-- The literal that the loop starts from.
unfoldable pub blank_coverage : Text → Text → Text → List Text → Rules → Coverage
blank_coverage platform profile_ref set_ref expected rules = record {
  platform = platform;
  profile_ref = profile_ref;
  set_ref = set_ref;
  rules_version = rules.version;
  expected = length expected;
  content = 0;
  available = 0;
  resilient = 0;
  at_risk = 0;
  fragile = 0;
  stale = 0;
  unavailable = 0;
  missing = 0;
  playability_known = false;
}

unfoldable pub compute_coverage :
    Text → Text → Text → List Text → List (Text × List Replica) → Rules → ℕ → Coverage
compute_coverage platform profile_ref set_ref expected m rules now =
    cover_all m rules now expected (blank_coverage platform profile_ref set_ref expected rules)
