-- ===== src/Relay.antt =====
-- relay/relay.go: pairing, admission, budgets and revocation. A connection is a number. An operation
-- is what the code does under one lock; the bytes themselves and the channel between the two
-- waiting goroutines are left out.
pub mod Revocation
pub mod Admission
pub mod Sessions
use rom_m_swarm.Common.{
  ℕ, ◌+◌, ◌-◌, ◌%◌, ◌^◌, Text, text_eq, ltb, leb, ◌==◌, Bool, true, false, not, ◌&&◌, ◌||◌, Option,
  none, some, List, [], ◌∷◌, ◌++◌, get, put, ℤ, pos, negsuc, wrap_int64, bits, add_int64,
  if◌then◌else◌,
}
use rom_m_swarm.Protocol.Ids.{IdError, validate, prefix_grant, prefix_bridge}

pub data Role : Type 0 where
  source sink : Role
  other_role : Text → Role

pub record ConnectFrame : Type 0 where
  pub grant : Text
  pub role : Role
  pub source_bridge : Text
  pub sink_bridge : Text
  pub resume_offset : ℤ

pub data FrameError : Type 0 where
  bad_grant bad_source bad_sink : IdError → FrameError
  unknown_role same_bridge negative_offset : FrameError

unfoldable pub known_role : Role → Bool
known_role (other_role s) = false
known_role _ = true

unfoldable pub same_role : Role → Role → Bool
same_role source source = true
same_role sink sink = true
same_role (other_role s) (other_role t) = text_eq s t
same_role _ _ = false

unfoldable pub is_negative : ℤ → Bool
is_negative (pos n) = false
is_negative (negsuc n) = true

-- The error of `validateFrame`, `none` for nil.
unfoldable pub validate_frame : ConnectFrame → Option FrameError
validate_frame f = elim (validate prefix_grant f.grant) [
  | some e ↦ some (bad_grant e)
  | none ↦
      if not (known_role f.role)
      then some unknown_role
      else elim (validate prefix_bridge f.source_bridge) [
        | some e ↦ some (bad_source e)
        | none ↦ elim (validate prefix_bridge f.sink_bridge) [
          | some e ↦ some (bad_sink e)
          | none ↦
              if text_eq f.source_bridge f.sink_bridge
              then some same_bridge
              else if is_negative f.resume_offset
              then some negative_offset
              else none
        ]
      ]
]

pub record Config : Type 0 where
  pub max_bytes_per_grant : ℕ
  pub max_duration : ℕ
  pub max_concurrent : ℕ

unfoldable pub max_bytes : Config → ℕ
max_bytes c = if ltb 0 c.max_bytes_per_grant then c.max_bytes_per_grant else 4294967296

unfoldable pub longest : Config → ℕ
longest c = if ltb 0 c.max_duration then c.max_duration else 7200000000000

unfoldable pub most_active : Config → ℕ
most_active c = if ltb 0 c.max_concurrent then c.max_concurrent else 64

pub record GrantState : Type 0 where
  pub first_seen : ℕ
  pub bytes_relayed : ℤ
  pub revoked : Bool
  pub waiting : Option (ℕ × Role)
  pub active_pair : Option (ℕ × ℕ)

pub record Server : Type 0 where
  pub grants : List (Text × GrantState)
  pub active : ℕ

-- `state`, which creates what is missing at the first call.
unfoldable pub state : ℕ → Text → Server → GrantState
state now grant s = elim (get grant s.grants) [
  | some st ↦ st
  | none ↦ record {
    first_seen = now;
    bytes_relayed = pos 0;
    revoked = false;
    waiting = none;
    active_pair = none;
  }
]

unfoldable pub write : Text → GrantState → Server → Server
write grant st s = record s { grants = put grant st s.grants }

abbrev pub waiting_conns : Option (ℕ × Role) → List ℕ
waiting_conns none = []
waiting_conns (some (c, r)) = c ∷ []

abbrev pub active_conns : Option (ℕ × ℕ) → List ℕ
active_conns none = []
active_conns (some (c, d)) = c ∷ d ∷ []

-- The server after `Revoke`, and the connections that it closes.
unfoldable pub revoke : ℕ → Text → Server → Server × List ℕ
revoke now grant s =
    let st = state now grant s in
    (
      write grant (record st { revoked = true; waiting = none }) s,
      waiting_conns st.waiting ++ active_conns st.active_pair,
    )

unfoldable pub admit : Config → Server → Server × Bool
admit c s =
    if leb (most_active c) s.active then (s, false) else (record s { active = s.active + 1 }, true)

unfoldable pub release : Server → Server
release s = if ltb 0 s.active then record s { active = s.active - 1 } else s

pub data Arrival : Type 0 where
  malformed : FrameError → Arrival
  grant_revoked waits : Arrival
  pairs : ℕ → ℕ → ℤ → Arrival

-- Which of the two is the source; the offset is what the relay has recorded.
unfoldable pub paired : Role → ℕ → ℕ → ℤ → Arrival
paired source conn peer offset = pairs conn peer offset
paired _ conn peer offset = pairs peer conn offset

-- A connection that finds no counterpart becomes the waiting one.
unfoldable pub meet : ConnectFrame → ℕ → GrantState → GrantState × Arrival
meet f conn st = elim st.waiting [
  | none ↦ (record st { waiting = some (conn, f.role) }, waits)
  | some (peer, role) ↦
      if same_role role f.role
      then (record st { waiting = some (conn, f.role) }, waits)
      else (record st { waiting = none }, paired f.role conn peer st.bytes_relayed)
]

-- `handle`, from a frame that was read up to the wait or the pairing.
unfoldable pub handle : ℕ → ℕ → ConnectFrame → Server → Server × Arrival
handle now conn f s = elim (validate_frame f) [
  | some e ↦ (s, malformed e)
  | none ↦
      let st = state now f.grant s in
      let (st', arrival) = meet f conn st in
      if st.revoked then (write f.grant st s, grant_revoked) else (write f.grant st' s, arrival)
]

-- The end of a wait for a counterpart.
unfoldable pub expire : ℕ → Text → ℕ → Server → Server
expire now grant conn s =
    let st = state now grant s in
    elim st.waiting [
      | none ↦ s
      | some (c, r) ↦ if c == conn then write grant (record st { waiting = none }) s else s
    ]

-- `pairAndRelay`: whether the pair goes on to `pipe`, given which acknowledgements are sent.
unfoldable pub pair_and_relay : Config → Bool → Bool → Server → Server × Bool
pair_and_relay c to_source to_sink s =
    let (s', admitted) = admit c s in
    if not admitted
    then (s', false)
    else if not (to_source && to_sink)
    then (release s', false)
    else (s', true)

unfoldable pub positive : ℤ → Option ℕ
positive (pos n) = if ltb 0 n then some n else none
positive (negsuc n) = none

-- The bytes that are left to a grant, `none` where the difference is not positive.
unfoldable pub remaining : Config → GrantState → Option ℕ
remaining c st = positive (wrap_int64 (max_bytes c + (2 ^ 64 - bits st.bytes_relayed)))

-- `pipe` up to the copy: the budget of the session, `none` where it returns at once.
unfoldable pub begin_pipe : Config → ℕ → Text → ℕ → ℕ → Server → Server × Option ℕ
begin_pipe c now grant src dst s =
    let st = state now grant s in
    if st.revoked then (release s, none) else elim (remaining c st) [
      | none ↦ (release (write grant (record st { active_pair = none }) s), none)
      | some budget ↦
          if leb (st.first_seen + longest c) now
          then (release (write grant (record st { active_pair = none }) s), none)
          else (write grant (record st { active_pair = some (src, dst) }) s, some budget)
    ]

-- `pipe` after `n` bytes were copied.
unfoldable pub end_pipe : ℕ → Text → ℕ → Server → Server
end_pipe now grant n s =
    let st = state now grant s in
    let total = add_int64 st.bytes_relayed n in
    release (write grant (record st { bytes_relayed = total; active_pair = none }) s)

-- One operation on the server, of any goroutine.
pub data Event : Type 0 where
  handles : ℕ → ℕ → ConnectFrame → Event
  expires : ℕ → Text → ℕ → Event
  relays : Bool → Bool → Event
  begins : ℕ → Text → ℕ → ℕ → Event
  ends : ℕ → Text → ℕ → Event
  revokes : ℕ → Text → Event

unfoldable pub step : Config → Server → Event → Server
step c s (handles now conn f) = (handle now conn f s).0
step c s (expires now grant conn) = expire now grant conn s
step c s (relays to_source to_sink) = (pair_and_relay c to_source to_sink s).0
step c s (begins now grant src dst) = (begin_pipe c now grant src dst s).0
step c s (ends now grant n) = end_pipe now grant n s
step c s (revokes now grant) = (revoke now grant s).0

unfoldable pub run : Config → Server → List Event → Server
run c s [] = s
run c s (e ∷ es) = run c (step c s e) es
