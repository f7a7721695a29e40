-- ===== src/Transport.antt =====
-- bridge/transport/transport.go: `Send` over the connections that the router dials. A connection is
-- what its writes come to, and a dial fails or gives a connection with its route and its offset.
pub mod Whole
use rom_m_swarm.Common.{
  ℕ, ◌+◌, ◌-◌, ◌*◌, max, min, Text, ltb, ◌==◌, Bool, true, false, not, List, [], ◌∷◌, ◌++◌, Option,
  none, some, length, take, drop, if◌then◌else◌,
}

pub data Route : Type 0 where
  route_direct route_relay : Route

abbrev pub default_chunk_size : ℕ
default_chunk_size = 64 * 1024

-- 0 stands for a size that is not positive.
abbrev pub chunk_size : ℕ → ℕ
chunk_size configured = if configured == 0 then default_chunk_size else configured

-- A write takes all its bytes, or fails after some of them.
pub data Write : Type 0 where
  takes_all : Write
  fails_after : ℕ → Write

-- The bytes written by `sendFrom` and whether it returned an error.
abbrev pub Sent : Type 0
Sent = Text × Bool

abbrev pub after_bytes : Text → Sent → Sent
after_bytes read (later, failed) = (read ++ later, failed)

-- A chunk that was read: shorter than asked for, it came with the end of the source.
abbrev pub write_chunk : Write → Text → Bool → Bool → Sent → Sent
write_chunk (fails_after k) read is_short at_end next = (take k read, true)
write_chunk takes_all read is_short at_end next =
    if is_short then (read, not at_end) else after_bytes read next

-- `sendFrom`; where no write is left the connection fails.
unfoldable pub send_from : Text → ℕ → ℕ → List Write → ℕ → Sent
send_from src size chunk [] offset = ([], ltb offset size)
send_from src size chunk (w ∷ ws) offset =
    let n = min chunk (size - offset) in
    let read = take n (drop offset src) in
    let next = send_from src size chunk ws (offset + length read) in
    if not (ltb offset size)
    then ([], false)
    else if length read == 0
    then ([], true)
    else write_chunk w read (ltb (length read) n) (not (ltb (offset + length read) size)) next

-- What a dial at an offset gives: the route, the offset that is answered, and the writes.
pub record Connection : Type 0 where
  pub route : Route
  pub actual_offset : ℕ → ℕ
  pub writes : List Write

-- The bytes written, connection after connection, the routes, and whether `Send` returned an error.
pub record Delivery : Type 0 where
  pub bytes : Text
  pub routes : List Route
  pub failed : Bool

abbrev pub same_route : Route → Option Route → Bool
same_route route_direct (some route_direct) = true
same_route route_direct (some route_relay) = false
same_route route_relay (some route_direct) = false
same_route route_relay (some route_relay) = true
same_route r none = false

abbrev pub note_route : Route → Option Route → Delivery → Delivery
note_route r last d = if same_route r last then d else record d { routes = r ∷ d.routes }

abbrev pub resume : Text → Bool → Delivery → Delivery
resume sent failed next =
    if not failed
    then record { bytes = sent; routes = []; failed = false }
    else record next { bytes = sent ++ next.bytes }

-- The loop of `Send`; a dial that fails, and the end of the context, end it with an error.
unfoldable pub send : Text → ℕ → ℕ → List (Option Connection) → Option Route → ℕ → Delivery
send src size chunk [] last offset = record { bytes = []; routes = []; failed = ltb offset size }
send src size chunk (none ∷ dials) last offset = record {
  bytes = [];
  routes = [];
  failed = ltb offset size;
}
send src size chunk (some c ∷ dials) last offset =
    let start = max offset (c.actual_offset offset) in
    let sent = send_from src size chunk c.writes start in
    let next = send src size chunk dials (some c.route) (start + length sent.0) in
    if not (ltb offset size)
    then record { bytes = []; routes = []; failed = false }
    else note_route c.route last (resume sent.0 sent.1 next)
