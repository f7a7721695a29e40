-- ===== src/Relay/Sessions.antt =====
-- relay/relay.go: the sessions that are open, each a call of `pairAndRelay` that was admitted and
-- whose `pipe` has not returned. The code has no list of them; the server's counter stands for it.
use rom_m_swarm.Common.{ℕ, Text, ◌≡◌, ◌≤◌, Bool, true, false, none, some, List, [], ◌∷◌, ◌++◌}
use rom_m_swarm.Relay.{
  ConnectFrame, Config, Server, handles, expires, relays, begins, ends, revokes, step,
  pair_and_relay, begin_pipe,
}

-- The server, the grants of the sessions that are admitted and have not reached the copy, and
-- those of the sessions that copy, each with the bytes that it may copy.
pub record Relaying : Type 0 where
  pub server : Server
  pub admitted : List Text
  pub copying : List (Text × ℕ)

abbrev pub idle : Server → Relaying
idle s = record { server = s; admitted = []; copying = [] }

-- One operation of any goroutine. A pairing that is admitted and acknowledged calls `pipe` once;
-- `pipe` copies once for its budget or returns at once.
pub data Step (c : Config) : Relaying → Relaying → Type 0 where
  arrives :
      (w : Relaying) (now conn : ℕ) (f : ConnectFrame)
      → Step c w (record w { server = step c w.server (handles now conn f) })
  times_out :
      (w : Relaying) (now conn : ℕ) (grant : Text)
      → Step c w (record w { server = step c w.server (expires now grant conn) })
  is_revoked :
      (w : Relaying) (now : ℕ) (grant : Text)
      → Step c w (record w { server = step c w.server (revokes now grant) })
  is_refused :
      (w : Relaying) (to_source to_sink : Bool)
      → (pair_and_relay c to_source to_sink w.server).1 ≡ false
      → Step c w (record w { server = step c w.server (relays to_source to_sink) })
  is_admitted :
      (w : Relaying) (grant : Text) (to_source to_sink : Bool)
      → (pair_and_relay c to_source to_sink w.server).1 ≡ true
      → Step c w (record w {
        server = step c w.server (relays to_source to_sink);
        admitted = grant ∷ w.admitted;
      })
  returns :
      (w : Relaying) (xs ys : List Text) (grant : Text) (now src dst : ℕ)
      → w.admitted ≡ xs ++ grant ∷ ys
      → (begin_pipe c now grant src dst w.server).1 ≡ none
      → Step c w
          (record w { server = step c w.server (begins now grant src dst); admitted = xs ++ ys })
  copies :
      (w : Relaying) (xs ys : List Text) (grant : Text) (now src dst budget : ℕ)
      → w.admitted ≡ xs ++ grant ∷ ys
      → (begin_pipe c now grant src dst w.server).1 ≡ some budget
      → Step c w (record {
        server = step c w.server (begins now grant src dst);
        admitted = xs ++ ys;
        copying = (grant, budget) ∷ w.copying;
      })
  finishes :
      (w : Relaying) (xs ys : List (Text × ℕ)) (grant : Text) (now n budget : ℕ)
      → w.copying ≡ xs ++ (grant, budget) ∷ ys
      → n ≤ budget
      → Step c w (record w { server = step c w.server (ends now grant n); copying = xs ++ ys })

pub data Reaches (c : Config) (w : Relaying) : Relaying → Type 0 where
  here : Reaches c w w
  next : {u v : Relaying} → Reaches c w u → Step c u v → Reaches c w v
