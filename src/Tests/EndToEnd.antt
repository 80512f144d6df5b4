-- ===== src/Tests/EndToEnd.antt =====
-- A client and a server that exchange a read and an update of the element 7, and a client's packets.
use cache_system_of_lease_me.Base.{
  ℕ, ◌+◌, ◌%◌, ◌^◌, ◌≤◌, ◌<◌, ◌≡◌, refl, List, [], ◌∷◌, some, none, arith, ◌==◌, if◌then◌else◌,
}
use cache_system_of_lease_me.Outcome.{done}
use cache_system_of_lease_me.Common.{default_expire_millisecond, operation_ok}
use cache_system_of_lease_me.Common.Remaining.{difference, expire_milliseconds_of_timestamp}
use cache_system_of_lease_me.EndToEnd.Remaining.{remaining_of_response}
use cache_system_of_lease_me.Standard.Map.{lookup}
use cache_system_of_lease_me.DataCenter.Invariant.{content}
use cache_system_of_lease_me.SnowFlake
use cache_system_of_lease_me.SnowFlake.{generate_uniform_id}
use cache_system_of_lease_me.SnowFlake.Distinct.{new-IsMachine}
use cache_system_of_lease_me.Server.{Server, new_server, op_response_of}
use cache_system_of_lease_me.Server.Operations
use cache_system_of_lease_me.Client.{
  Client, CacheClientOperation, Handles, new_client, read_cache_async, update_cache_async,
}
use cache_system_of_lease_me.Client
use cache_system_of_lease_me.Client.Requests.{next_id, new_operation}
use cache_system_of_lease_me.EndToEnd.Reading.{handled, read_round_trip}
use cache_system_of_lease_me.EndToEnd.Writing.{update_round_trip}
use cache_system_of_lease_me.DataCenter.Unleased.{IsUnleased}
use cache_system_of_lease_me.Tests.{sample, sample-IsSteady, center_of}
use cache_system_of_lease_me.Tests.Data.{center_of-IsCenter, center_of-IsPrompt}
use cache_system_of_lease_me.Tests.Format.{format, format-IsFaithful, format-IsWritten}
use cache_system_of_lease_me.Tests.Messages.{no_timers, server, server-IsCenter}

-- May 2019.
abbrev clock : ℕ → ℕ
clock i = 1559000000000 + i

abbrev handles : Handles
handles handle result expire cache_id cache_data s = done tt s

abbrev client : Client
client = record (new_client 5 3) { socket = 4 }

abbrev held : Server
held = record (new_server no_timers) { center = center_of (42 ∷ 0 ∷ []) 2 }

first_id : 0 < next_id clock client
unfolding generate_uniform_id SnowFlake.new_snow_flake SnowFlake.datacenter_bits
    SnowFlake.worker_bits
first_id = omega arith

first_low : 0 < next_id clock client % 2 ^ 32
unfolding generate_uniform_id SnowFlake.new_snow_flake SnowFlake.datacenter_bits
    SnowFlake.worker_bits
first_low = omega arith

nothing_waits : lookup (next_id clock client) client.requests ≡ none
unfolding lookup
nothing_waits = refl

held_value : content held.center 7 ≡ some (42 ∷ 0 ∷ [])
unfolding content lookup
held_value = refl

unheard_held : lookup (next_id clock client) held.wait_acks ≡ none
unfolding lookup
unheard_held = refl

read_round_trip_example :
    (c1 : Client) × (s1 : Server) × (request : List ℕ) × (response : List ℕ) × (expire : ℕ)
    × (read_cache_async format clock 7 9 client ≡ done tt c1)
    × (c1.sent ≡ (4, request) ∷ [])
    × (Operations.on_receive format 3 request held ≡ done tt s1)
    × (s1.sent ≡ (3, response) ∷ [])
    × (1200 ≤ expire)
    × (Client.on_receive format handles response c1
        ≡ handled format handles 7 expire (42 ∷ 0 ∷ []) (new_operation clock 7 9 client) c1)
    × ((j : ℕ) → content s1.center j ≡ content held.center j)
read_round_trip_example =
    read_round_trip format sample-IsSteady format-IsWritten format-IsFaithful clock handles 7 9 3
      (42 ∷ 0 ∷ []) client held (new-IsMachine 5 3 (omega arith) (omega arith)) nothing_waits
      first_id (omega arith) (omega arith) (omega arith) (omega arith, (omega arith, tt))
      (center_of-IsCenter (42 ∷ 0 ∷ []) 2) (center_of-IsPrompt (42 ∷ 0 ∷ [])) unheard_held
      held_value

unheard : lookup (next_id clock client) server.wait_acks ≡ none
unfolding lookup
unheard = refl

server-IsUnleased : IsUnleased 7 server.center
unfolding lookup
server-IsUnleased el h = absurd (cc)

update_round_trip_example :
    (c1 : Client) × (s1 : Server) × (request : List ℕ) × (response : List ℕ) × (expire : ℕ)
    × (update_cache_async format clock 7 (43 ∷ []) 9 client ≡ done tt c1)
    × (c1.sent ≡ (4, request) ∷ [])
    × (Operations.on_receive format 3 request server ≡ done tt s1)
    × (s1.sent ≡ (3, response) ∷ [])
    × (1000 + default_expire_millisecond ≤ expire)
    × (Client.on_receive format handles response c1
        ≡ handled format handles 7 expire (43 ∷ []) (new_operation clock 7 9 client) c1)
    × ((j : ℕ) → content s1.center j ≡ (if 7 == j then some (43 ∷ []) else content server.center j))
update_round_trip_example =
    update_round_trip format sample-IsSteady format-IsWritten format-IsFaithful clock handles 7 9 3
      (43 ∷ []) client server (new-IsMachine 5 3 (omega arith) (omega arith)) nothing_waits
      first_low (omega arith) (omega arith) (omega arith) (omega arith, tt) server-IsCenter
      server-IsUnleased unheard

-- Ten seconds are left.
remaining_of_response_example :
    expire_milliseconds_of_timestamp
      (op_response_of 1559000011000 7 [] operation_ok).expire
      1559000001000
    ≡ difference 1559000011000 1559000001000
remaining_of_response_example =
    remaining_of_response 1559000011000 1559000001000 7 [] operation_ok (omega arith) (omega arith)
