-- ===== src/Tests/Clients.antt =====
-- A client with one read that waits, and the packets that it gets.
use cache_system_of_lease_me.Base.{
  ℕ, ◌+◌, ◌≡◌, refl, List, [], ◌∷◌, Option, some, none, arith, ◌==◌, if◌then◌else◌,
}
use cache_system_of_lease_me.Outcome.{done, thrown, csn, error_sys_routine}
use cache_system_of_lease_me.Standard.Map.{lookup}
use cache_system_of_lease_me.Message.{CacheMessage, CacheOpResponse, Wire}
use cache_system_of_lease_me.Message.Header.{IsAvailable}
use cache_system_of_lease_me.Message.Forms.{read_form, update_form}
use cache_system_of_lease_me.Client.{
  Client, CacheClientOperation, Handles, new_client, prepare_header, read_cache_async,
  update_cache_async, on_receive,
}
use cache_system_of_lease_me.Client.Requests.{
  next_id, Requested, read_cache_async-Requested, update_cache_async-Requested,
}
use cache_system_of_lease_me.Client.Responses.{
  unknown, other_id, on_receive_ignores, on_receive_refuses, on_receive_completes,
}

abbrev clock : ℕ → ℕ
clock i = 1559000000000 + i

abbrev fresh_client : Client
fresh_client = record (new_client 5 3) { socket = 4 }

abbrev operation : CacheClientOperation
operation = record { op_id = 5; cache_id = 7; handle = 9; socket = 4 }

abbrev waiting_client : Client
waiting_client = record fresh_client { requests = (5, operation) ∷ [] }

abbrev response : ℕ → CacheOpResponse
response cache_id = record {
  result = 0;
  timestamp = 0;
  expire = 11000;
  cache_id = cache_id;
  cache_data = 42 ∷ [];
}

-- A read response of an operation, for a cache id.
abbrev answer : ℕ → ℕ → CacheMessage
answer op_id cache_id = record {
  header = some (prepare_header 0x1002 op_id);
  read_request = none;
  update_request = none;
  op_response = some (response cache_id);
}

-- Two numbers are such a response; a message is written as a 1.
abbrev wire : Wire
wire = record { parse = parse; serialize = λ m. 1 ∷ [] }
  where
    parse : List ℕ → Option CacheMessage
    parse (op_id ∷ cache_id ∷ []) = some (answer op_id cache_id)
    parse _ = none

-- The handle forgets the clock's readings.
abbrev handles : Handles
handles handle result expire cache_id cache_data s = done tt (record s { reads = 0 })

answer-IsAvailable : IsAvailable (prepare_header 0x1002 5)
answer-IsAvailable = record {
  magic = refl;
  known = (omega arith, omega arith);
  numbered = omega arith;
}

waits_for_five : lookup 5 waiting_client.requests ≡ some operation
unfolding lookup
waits_for_five = refl

six_is_unknown : lookup 6 waiting_client.requests ≡ none
unfolding lookup
six_is_unknown = refl

on_receive_ignores_example :
    on_receive wire handles (6 ∷ 7 ∷ []) waiting_client ≡ done tt waiting_client
on_receive_ignores_example =
    on_receive_ignores wire handles (6 ∷ 7 ∷ []) waiting_client
      (unknown (answer 6 7) (prepare_header 0x1002 6) refl refl six_is_unknown)

on_receive_refuses_example :
    on_receive wire handles (5 ∷ 8 ∷ []) waiting_client
    ≡ thrown (csn error_sys_routine) waiting_client
on_receive_refuses_example =
    on_receive_refuses wire handles (5 ∷ 8 ∷ []) (answer 5 8) (prepare_header 0x1002 5)
      waiting_client operation refl refl answer-IsAvailable waits_for_five
      (other_id (response 8) refl (λ e. omega (arith, e)))

on_receive_completes_example :
    (s' : Client) × (on_receive wire handles (5 ∷ 7 ∷ []) waiting_client ≡ done tt s')
    × (s'.sent ≡ (4, 1 ∷ []) ∷ [])
    × ((j : ℕ) → lookup j s'.requests ≡ (if 5 == j then none else lookup j waiting_client.requests))
on_receive_completes_example =
    on_receive_completes wire handles (5 ∷ 7 ∷ []) (answer 5 7) (prepare_header 0x1002 5)
      (response 7) waiting_client (record waiting_client { reads = 0 }) operation operation refl
      refl answer-IsAvailable waits_for_five refl refl refl waits_for_five (omega arith) (λ e. cc)

read_cache_async-Requested_example :
    (s' : Client) × (read_cache_async wire clock 7 9 fresh_client ≡ done tt s')
    × Requested wire clock 7 9
        (read_form (next_id clock fresh_client) 7 1559000000001 200)
        fresh_client
        s'
read_cache_async-Requested_example =
    read_cache_async-Requested wire clock 7 9 fresh_client (omega arith) (λ e. cc)

update_cache_async-Requested_example :
    (s' : Client) × (update_cache_async wire clock 7 (43 ∷ []) 9 fresh_client ≡ done tt s')
    × Requested wire clock 7 9
        (update_form (next_id clock fresh_client) 7 (43 ∷ []) 1559000000001 200)
        fresh_client
        s'
update_cache_async-Requested_example =
    update_cache_async-Requested wire clock 7 (43 ∷ []) 9 fresh_client (omega arith) (λ e. cc)
