-- ===== src/Preservation/Risk/Domains.antt =====
-- The set of independent failure domains that the second loop of `Assess` collects.
use rom_m_swarm.Common.{
  Unique, Text, text_eq, text_eq_iff, text_eq_refl, ◌≡◌, refl, Bool, true, false, ◌&&◌, ◌||◌, none,
  List, [], ◌∷◌, get, length, contains, distinct, distinct_same, arith, Bool-cases, inl, inr, ◌∙◌,
  sym,
}
use rom_m_swarm.Preservation.Risk.{
  BridgeSummary, Tally, add, add_domains, count_bridge, count_all, unknown,
}
use rom_m_swarm.Preservation.Risk.Summaries.{Summaries, at}
use rom_m_swarm.Preservation.Risk.Counts.{live}

-- A list that holds nothing twice.
abbrev pub IsNodup : List Text → Type 0
IsNodup ks = distinct ks ≡ length ks

pub add-IsNodup : (k : Text) (ks : List Text) → IsNodup ks → IsNodup (add k ks)
unfolding add distinct
add-IsNodup k ks h = ground arith

contains-add :
    (k j : Text) (ks : List Text) → contains k (add j ks) ≡ (text_eq j k || contains k ks)
unfolding add contains
contains-add k j ks = ground (arith, text_eq_iff j k, text_eq_iff k j)

-- The domain that a Bridge's own set stands for is `k`.
unfoldable pub gives : Text → List Text → Bool
gives k [] = false
gives k (d ∷ []) = text_eq d k
gives k (d ∷ e ∷ ds) = text_eq unknown k

lengths :
    (ds es : List Text)
    → IsNodup ds
    → IsNodup es
    → ((a : Text) → contains a ds ≡ contains a es)
    → length ds ≡ length es
lengths ds es n m h = sym n ∙ distinct_same ds es h ∙ m

-- Two sets with the same elements stand for the same domain.
pub gives_same :
    (k : Text) (ds es : List Text)
    → IsNodup ds
    → IsNodup es
    → ((a : Text) → contains a ds ≡ contains a es)
    → gives k ds ≡ gives k es
unfolding gives contains
gives_same k [] [] n m h = refl
gives_same k [] (e ∷ es) n m h = ground (arith, h e, text_eq_refl e)
gives_same k (d ∷ ds) [] n m h = ground (arith, h d, text_eq_refl d)
gives_same k (d ∷ []) (e ∷ []) n m h = ground (arith, h d, text_eq_refl d, text_eq_iff e d)
gives_same k (d ∷ []) (e ∷ e' ∷ es) n m h =
    absurd (omega (arith, lengths (d ∷ []) (e ∷ e' ∷ es) n m h))
gives_same k (d ∷ d' ∷ ds) (e ∷ []) n m h =
    absurd (omega (arith, lengths (d ∷ d' ∷ ds) (e ∷ []) n m h))
gives_same k (d ∷ d' ∷ ds) (e ∷ e' ∷ es) n m h = refl

contains-add_domains :
    (k : Text) (ds ks : List Text) → contains k (add_domains ds ks) ≡ (gives k ds || contains k ks)
unfolding add_domains gives
contains-add_domains k [] ks = refl
contains-add_domains k (d ∷ []) ks = contains-add k d ks
contains-add_domains k (d ∷ e ∷ ds) ks = contains-add k unknown ks

add_domains-IsNodup : (ds ks : List Text) → IsNodup ks → IsNodup (add_domains ds ks)
unfolding add_domains
add_domains-IsNodup [] ks h = h
add_domains-IsNodup (d ∷ []) ks h = add-IsNodup d ks h
add_domains-IsNodup (d ∷ e ∷ ds) ks h = add-IsNodup unknown ks h

-- Some live entry stands for the domain `k`.
unfoldable pub gives_live : Text → BridgeSummary → Bool
gives_live k s = live s && gives k s.recent_domains

unfoldable pub given : Text → Summaries → Bool
given k [] = false
given k ((a, s) ∷ m) = gives_live k s || given k m

pub count_all-domains :
    (k : Text) (m : Summaries) (t : Tally)
    → contains k (count_all m t).domains ≡ (given k m || contains k t.domains)
unfolding count_all count_bridge given gives_live
count_all-domains k [] t = refl
count_all-domains k ((a, s) ∷ m) t = ground (
  arith,
  count_all-domains k m (count_bridge s t),
  contains-add_domains k s.recent_domains t.domains,
)

pub count_all-IsNodup :
    (m : Summaries) (t : Tally) → IsNodup t.domains → IsNodup (count_all m t).domains
unfolding count_all count_bridge
count_all-IsNodup [] t h = h
count_all-IsNodup ((a, s) ∷ m) t h =
    count_all-IsNodup m (count_bridge s t)
      (ground (arith, add_domains-IsNodup s.recent_domains t.domains))

given_further :
    (k a b : Text) (s : BridgeSummary) (m : Summaries)
    → get a m ≡ none
    → gives_live k (at b m) ≡ true
    → gives_live k (at b ((a, s) ∷ m)) ≡ true
unfolding get gives_live gives
given_further k a b s m u g = ground (arith, text_eq_iff a b)

-- A domain is given exactly if the summary of some alias gives it.
pub given_by :
    (k : Text) (m : Summaries)
    → Unique m
    → given k m ≡ true
    → (a : Text) × (gives_live k (at a m) ≡ true)
unfolding given get
given_by k [] u h = cc
given_by k ((a, s) ∷ m) u h = elim (Bool-cases (gives_live k s)) [
  | inl e ↦ (a, rw (text_eq_refl a) e)
  | inr e ↦ let (b, g) = given_by k m u.1 (ground arith) in (b, given_further k a b s m u.0 g)
]

pub given_of : (k a : Text) (m : Summaries) → gives_live k (at a m) ≡ true → given k m ≡ true
unfolding given get gives_live gives
given_of k a [] h = ground arith
given_of k a ((b, s) ∷ m) h = ground (arith, given_of k a m)
