-- ===== src/Relay/Admission.antt =====
-- How many sessions are open.
use rom_m_swarm.Common.{◌+◌, ◌≤◌, ◌≡◌, ap, List, [], ◌∷◌, ◌++◌, length, arith}
use rom_m_swarm.Relay.{
  Config, Server, step, handle, expire, pair_and_relay, begin_pipe, end_pipe, revoke, admit,
  release, write, most_active,
}
use rom_m_swarm.Relay.Sessions.{
  Relaying, idle, Step, arrives, times_out, is_revoked, is_refused, is_admitted, returns, copies,
  finishes, Reaches, here, next,
}

length-without {ℓ} :
    {A : Type ℓ} (x : A) (xs ys : List A) → length (xs ++ x ∷ ys) ≡ length (xs ++ ys) + 1
length-without x [] ys = omega arith
length-without x (z ∷ xs) ys = ground (arith, length-without x xs ys)

-- The counter is the number of open sessions, and within the configured number.
abbrev pub IsCounted : Config → Relaying → Type 0
IsCounted c w =
    (w.server.active ≡ length w.admitted + length w.copying) × (w.server.active ≤ most_active c)

Step-IsCounted : {c : Config} {w v : Relaying} → Step c w v → IsCounted c w → IsCounted c v
unfolding step handle expire pair_and_relay begin_pipe end_pipe revoke admit release write
Step-IsCounted (arrives w now conn f) h = ground arith
Step-IsCounted (times_out w now conn grant) h = ground arith
Step-IsCounted (is_revoked w now grant) h = h
Step-IsCounted (is_refused w a b e) h = ground arith
Step-IsCounted (is_admitted w grant a b e) h = ground arith
Step-IsCounted (returns w xs ys grant now src dst e r) h =
    ground (arith, length-without grant xs ys, ap length e)
Step-IsCounted (copies w xs ys grant now src dst budget e r) h =
    ground (arith, length-without grant xs ys, ap length e)
Step-IsCounted (finishes w xs ys grant now n budget e le) h =
    ground (arith, length-without (grant, budget) xs ys, ap length e)

Reaches-IsCounted : {c : Config} {w v : Relaying} → IsCounted c w → Reaches c w v → IsCounted c v
Reaches-IsCounted h here = h
Reaches-IsCounted h (next r st) = Step-IsCounted st (Reaches-IsCounted h r)

-- From a server without sessions, after any operations in which each admitted pairing enters the
-- copy once or returns from it at once, and each copy ends once, the counter of active sessions
-- is the number of sessions that are open, and no more are open than the configuration allows.
pub open_sessions :
    (c : Config) (s : Server) (w : Relaying)
    → s.active ≡ 0
    → Reaches c (idle s) w
    → (w.server.active ≡ length w.admitted + length w.copying)
      × (length w.admitted + length w.copying ≤ most_active c)
open_sessions c s w z r =
    let counted : IsCounted c (idle s) = (ground arith, omega arith) in
    let reached = Reaches-IsCounted counted r in ground arith
