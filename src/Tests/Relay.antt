-- ===== src/Tests/Relay.antt =====
-- The relay at concrete inputs.
use rom_m_swarm.Common.{
  ◌≤◌, ◌+◌, ◌++◌, length, wrap_int64, bits, add_int64, Text, codes, text_eq, ◌≡◌, refl, true, none,
  some, List, [], ◌∷◌, get, put, pos, arith,
}
use rom_m_swarm.Protocol.Ids.{validate, lower_byte, upper_byte}
use rom_m_swarm.Relay.{
  Role, source, sink, ConnectFrame, Config, Server, Event, handles, relays, begins, ends, run, step,
  handle, revoke, begin_pipe, end_pipe, remaining, positive, pair_and_relay, admit, release, write,
  state, meet, paired, same_role, known_role, is_negative, validate_frame, grant_revoked, max_bytes,
  longest, most_active,
}
use rom_m_swarm.Relay.Sessions.{
  Relaying, idle, arrives, is_admitted, copies, finishes, Reaches, here, next,
}
use rom_m_swarm.Relay.Admission.{open_sessions}
use rom_m_swarm.Relay.Revocation.{revoked_grant}

abbrev grant : Text
grant = codes "grt_00000000000000000000000000"

abbrev frame : Role → ConnectFrame
frame role = record {
  grant = grant;
  role = role;
  source_bridge = codes "brg_00000000000000000000000000";
  sink_bridge = codes "brg_00000000000000000000000001";
  resume_offset = pos 0;
}

abbrev config : Config
config = record { max_bytes_per_grant = 100; max_duration = 1000; max_concurrent = 2 }

abbrev fresh_server : Server
fresh_server = record { grants = []; active = 0 }

-- One session of 60 bytes.
abbrev session : List Event
session =
    handles 1 7 (frame source)
    ∷ handles 2 8 (frame sink)
    ∷ relays true true
    ∷ begins 3 grant 7 8
    ∷ ends 4 grant 60
    ∷ []

-- Two pairings of one grant, each begun before the other ended.
abbrev overlapping : List Event
overlapping =
    handles 1 7 (frame source)
    ∷ handles 2 8 (frame sink)
    ∷ relays true true
    ∷ begins 3 grant 7 8
    ∷ handles 4 9 (frame source)
    ∷ handles 5 10 (frame sink)
    ∷ relays true true
    ∷ begins 6 grant 9 10
    ∷ []

-- The second pairing has the whole budget again, and a revocation closes its connections only.
overlapping-run :
    ((begin_pipe config 6 grant 9 10 (run config fresh_server overlapping)).1 ≡ some 100)
    × ((revoke 7 grant (run config fresh_server overlapping)).1 ≡ 9 ∷ 10 ∷ [])
unfolding run step handle validate_frame validate text_eq lower_byte upper_byte known_role
    is_negative meet paired same_role state write get put pair_and_relay admit release begin_pipe
    max_bytes longest most_active revoke remaining positive wrap_int64 bits add_int64
overlapping-run = (refl, refl)

-- The second session copies while the first one has ended.
abbrev one_open : Relaying
one_open = record {
  server = run config fresh_server (overlapping ++ ends 7 grant 60 ∷ []);
  admitted = [];
  copying = (grant, 100) ∷ [];
}

one_open_reached : Reaches config (idle fresh_server) one_open
unfolding run step handle validate_frame validate text_eq lower_byte upper_byte known_role
    is_negative meet paired same_role state write get put pair_and_relay admit release begin_pipe
    remaining positive max_bytes longest most_active wrap_int64 bits add_int64 end_pipe
one_open_reached =
    let first = next (next here (arrives _ 1 7 (frame source))) (arrives _ 2 8 (frame sink)) in
    let copying =
      next (next first (is_admitted _ grant true true refl))
        (copies _ [] [] grant 3 7 8 100 refl refl) in
    let second = next (next copying (arrives _ 4 9 (frame source))) (arrives _ 5 10 (frame sink)) in
    let both =
      next (next second (is_admitted _ grant true true refl))
        (copies _ [] [] grant 6 9 10 100 refl refl) in
    next both (finishes _ ((grant, 100) ∷ []) [] grant 7 60 100 refl (omega arith))

open_sessions_example :
    (one_open.server.active ≡ length one_open.admitted + length one_open.copying)
    × (length one_open.admitted + length one_open.copying ≤ most_active config)
open_sessions_example = open_sessions config fresh_server one_open refl one_open_reached

frame_valid : validate_frame (frame source) ≡ none
unfolding validate_frame validate text_eq lower_byte upper_byte known_role is_negative
frame_valid = refl

revoked_grant_example :
    ((handle 20 11 (frame source) (run config (revoke 9 grant fresh_server).0 session)).1
      ≡ grant_revoked)
    × ((begin_pipe config 20 grant 7 8 (run config (revoke 9 grant fresh_server).0 session)).1
        ≡ none)
revoked_grant_example =
    revoked_grant config fresh_server session 9 20 11 7 8 (frame source) frame_valid
