-- ===== src/Tests/Messages.antt =====
-- The theorems about the server, with a small wire format and the sample data center.
use cache_system_of_lease_me.Base.{
  false, ℕ, ◌≡◌, refl, List, [], ◌∷◌, Option, none, some, arith, ◌==◌, if◌then◌else◌,
}
use cache_system_of_lease_me.Outcome.{done, undefined}
use cache_system_of_lease_me.Standard.Map.{lookup}
use cache_system_of_lease_me.TimerQueue.{Timers}
use cache_system_of_lease_me.TimerQueue.Count.{count}
use cache_system_of_lease_me.DataCenter.Invariant.{IsCenter}
use cache_system_of_lease_me.DataCenter.Reads.{IsPrompt}
use cache_system_of_lease_me.Message.{
  CacheMessageHeader, CacheReadRequest, CacheUpdateRequest, CacheMessage, Wire, IsWritten,
  header_magic,
}
use cache_system_of_lease_me.Message.Header.{IsAvailable}
use cache_system_of_lease_me.Server.{WaitCacheAck, Server, new_server}
use cache_system_of_lease_me.Server.Operations.{process_read, on_receive}
use cache_system_of_lease_me.Server.WaitAcks.{timer_handle, ack_at}
use cache_system_of_lease_me.Server.Dispatch.{
  unavailable, route, on_receive_drops, on_receive_routes,
}
use cache_system_of_lease_me.Server.Requests.{ReadServed, process_read-ReadServed}
use cache_system_of_lease_me.Server.Acks.{on_receive_ack-undefined, timer_handle_resends}
use cache_system_of_lease_me.Tests.{sample, sample-IsSteady}
use mathlib.Core.List.{Nodup-nil}

abbrev pub header : ℕ → CacheMessageHeader
header type = record { magic = header_magic; version = 1; type = type; op_id = 5 }

abbrev pub read_seven : CacheReadRequest
read_seven = record { timestamp = 0; expire = 0; cache_id = 7 }

abbrev pub update_seven : CacheUpdateRequest
update_seven = record { timestamp = 0; expire = 0; cache_id = 7; cache_data = 43 ∷ [] }

abbrev pub message : ℕ → CacheMessage
message type = record {
  header = some (header type);
  read_request = some read_seven;
  update_request = some update_seven;
  op_response = none;
}

-- A packet of one number is a message of that type; written, a message begins with a 1.
abbrev pub wire : Wire
wire = record { parse = parse; serialize = λ m. 1 ∷ [] }
  where
    parse : List ℕ → Option CacheMessage
    parse [] = none
    parse (type ∷ _) = some (message type)

wire-IsWritten : IsWritten wire
wire-IsWritten m h there typed e = cc

abbrev pub no_timers : Timers
no_timers = record { timer_queue = []; mutex = false; reads = 0 }

abbrev pub server : Server
server = new_server no_timers

pub server-IsCenter : IsCenter server.center
unfolding lookup count
server-IsCenter = record {
  ready = record {
    valid = record { heap = λ i p q. absurd (omega arith); distinct = Nodup-nil; not_null = tt };
    unheld = refl;
  };
  leased = λ e el h. absurd (cc);
  absent = λ e h. refl;
}

pub server-IsPrompt : IsPrompt 7 server.center
unfolding lookup
server-IsPrompt el h g = absurd (cc)

five_is_free : lookup 5 server.wait_acks ≡ none
unfolding lookup
five_is_free = refl

process_read-ReadServed_example :
    (s' : Server) × (process_read wire 3 (message 0x1001) server ≡ done tt s')
    × ReadServed wire 3 read_seven (header 0x1001) server s'
process_read-ReadServed_example =
    process_read-ReadServed wire sample-IsSteady wire-IsWritten 3 read_seven (header 0x1001)
      (message 0x1001) server server-IsCenter server-IsPrompt (omega arith) refl five_is_free refl

unknown-not-IsAvailable : ¬ IsAvailable (header 0x2000)
unknown-not-IsAvailable a = absurd (omega (arith, a.known))

on_receive_drops_example : on_receive wire 3 (0x2000 ∷ []) server ≡ done tt server
on_receive_drops_example =
    on_receive_drops wire 3 (0x2000 ∷ []) server
      (unavailable (message 0x2000) (header 0x2000) refl refl unknown-not-IsAvailable)

ack-IsAvailable : IsAvailable (header 0x1005)
ack-IsAvailable = record {
  magic = refl;
  known = (omega arith, omega arith);
  numbered = omega arith;
}

on_receive_routes_example :
    on_receive wire 3 (0x1005 ∷ []) server ≡ route wire 0x1005 3 (message 0x1005) 5 server
on_receive_routes_example =
    on_receive_routes wire 3 (0x1005 ∷ []) (message 0x1005) (header 0x1005) server refl refl
      ack-IsAvailable

abbrev pub waiting : WaitCacheAck
waiting = record { address = 9; socket = 3; message = message 0x1002; op_id = 5; timer_id = 10 }

abbrev pub waiting_server : Server
waiting_server = record server { wait_acks = (5, waiting) ∷ [] }

pub waits_for_five : lookup 5 waiting_server.wait_acks ≡ some waiting
unfolding lookup
waits_for_five = refl

waits_at_nine : ack_at 9 waiting_server.wait_acks ≡ some waiting
unfolding ack_at
waits_at_nine = refl

on_receive_ack-undefined_example :
    (s' : Server) × (on_receive wire 3 (0x1005 ∷ []) waiting_server ≡ undefined s')
    × (lookup 5 s'.wait_acks ≡ none)
on_receive_ack-undefined_example =
    on_receive_ack-undefined wire 3 (0x1005 ∷ []) (message 0x1005) (header 0x1005) waiting_server
      waiting refl refl ack-IsAvailable refl waits_for_five

timer_handle_resends_example :
    (s' : Server) × (timer_handle wire 9 waiting_server ≡ done tt s')
    × (s'.sent ≡ (3, 1 ∷ []) ∷ [])
    × (lookup 5 s'.wait_acks ≡ none)
    × ((j : ℕ)
        → lookup j s'.wait_acks ≡ (if 5 == j then none else lookup j waiting_server.wait_acks))
    × (s'.center ≡ waiting_server.center)
timer_handle_resends_example =
    timer_handle_resends wire 9 waiting_server waiting waiting waits_at_nine waits_for_five
      (omega arith) (λ e. cc)
