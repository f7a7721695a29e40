-- ===== src/Tests/Transport.antt =====
-- Sending at concrete inputs.
use rom_m_swarm.Common.{
  Text, codes, ◌≡◌, refl, false, Option, none, some, List, [], ◌∷◌, length, arith,
}
use rom_m_swarm.Transport.{
  Connection, takes_all, fails_after, route_direct, route_relay, send, send_from,
}
use rom_m_swarm.Transport.Whole.{send_whole}

abbrev payload : Text
payload = codes "abcdef"

-- The direct connection breaks off within the second write, and the relay takes the rest.
abbrev broken : Connection
broken = record {
  route = route_direct;
  actual_offset = λ offset. offset;
  writes = takes_all ∷ fails_after 1 ∷ [];
}

abbrev relayed : Connection
relayed = record {
  route = route_relay;
  actual_offset = λ offset. offset;
  writes = takes_all ∷ takes_all ∷ [];
}

abbrev dials : List (Option Connection)
dials = some broken ∷ some relayed ∷ []

payload_sent : (send payload (length payload) 2 dials none 0).failed ≡ false
unfolding send send_from
payload_sent = refl

send_whole_example : (send payload (length payload) 2 dials none 0).bytes ≡ payload
send_whole_example =
    send_whole payload 2 dials ((λ offset. omega arith), ((λ offset. omega arith), tt)) payload_sent
