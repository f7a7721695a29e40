-- ===== src/Preservation/Risk/Counts.antt =====
-- The second loop of `Assess`: its counts are sizes of sets of aliases and of domains, whatever
-- order the map is walked in.
use rom_m_swarm.Common.{
  ℕ, ◌+◌, Text, text_eq_iff, ◌≡◌, refl, Bool, false, not, ◌&&◌, List, [], ◌∷◌, get, put, Unique,
  put-Unique, contains, distinct, arith, if◌then◌else◌, sym,
}
use rom_m_swarm.Preservation.Risk.{
  Replica, Rules, BridgeSummary, Tally, note, note_all, no_summary, skipped, count_bridge,
  count_all,
}
use rom_m_swarm.Preservation.Risk.Summaries.{Summaries, at}

pub note_all-Unique :
    (rules : Rules) (now : ℕ) (m : Summaries) (rs : List Replica)
    → Unique m
    → Unique (note_all rules now m rs)
unfolding note_all
note_all-Unique rules now m [] u = u
note_all-Unique rules now m (r ∷ rs) u =
    note_all-Unique rules now (put r.alias (note rules now r (at r.alias m)) m) rs
      (put-Unique r.alias _ m u)

-- The aliases whose summary passes a test.
unfoldable pub passing : (BridgeSummary → Bool) → Summaries → List Text
passing q [] = []
passing q ((a, s) ∷ m) = if q s then a ∷ passing q m else passing q m

module _ (q : BridgeSummary → Bool) (blank : q no_summary ≡ false) where
  pub contains-passing :
      (a : Text) (m : Summaries) → Unique m → contains a (passing q m) ≡ q (at a m)
  unfolding passing contains get
  contains-passing a [] u = sym blank
  contains-passing a ((b, s) ∷ m) u =
      ground (arith, contains-passing a m u.1, text_eq_iff b a, u.0, blank)

-- Live summaries, and those of Bridges that are also online.
abbrev pub live : BridgeSummary → Bool
live s = not (skipped s)

abbrev pub live_online : BridgeSummary → Bool
live_online s = live s && s.online

pub count_all-confirmed :
    (m : Summaries) (t : Tally)
    → Unique m
    → (count_all m t).confirmed ≡ t.confirmed + distinct (passing live m)
unfolding count_all count_bridge passing distinct skipped
count_all-confirmed [] t u = omega arith
count_all-confirmed ((a, s) ∷ m) t u =
    ground
      (arith, count_all-confirmed m (count_bridge s t) u.1, contains-passing live refl a m u.1, u.0)

pub count_all-online :
    (m : Summaries) (t : Tally)
    → Unique m
    → (count_all m t).online ≡ t.online + distinct (passing live_online m)
unfolding count_all count_bridge passing distinct skipped
count_all-online [] t u = omega arith
count_all-online ((a, s) ∷ m) t u = ground (
  arith,
  count_all-online m (count_bridge s t) u.1,
  contains-passing live_online refl a m u.1,
  u.0,
)
