-- ===== src/Client.antt =====
-- cache_system/include/protobuf_message_client_impl.h. The protobuf arena, which every message comes
-- from, is left out, as for the server.
pub mod Responses
pub mod Requests
use cache_system_of_lease_me.Base.{
  ℕ, suc, ◌%◌, ◌^◌, List, [], ◌∷◌, Option, none, some, ◌==◌, not, if◌then◌else◌,
}
use cache_system_of_lease_me.Outcome.{
  error_sys_routine, M, done, undefined, ◌>>=◌, ◌>>◌, pure, throw, gets, modify, zoom,
}
use cache_system_of_lease_me.Standard.Map.{lookup, emplace, erase}
use cache_system_of_lease_me.Message.{
  CacheDataType, CacheMessageHeader, CacheReadRequest, CacheUpdateRequest, CacheOpResponse,
  CacheMessage, Wire, header_magic, header_of, header_available, do_send_cache_message,
  read_request_type, update_request_type, operation_ack_type,
}
use cache_system_of_lease_me.SnowFlake.{SnowFlake, new_snow_flake, generate_uniform_id}

-- CacheClientOperation. The object of a request is shared between the map and the call that makes
-- it; `do_send_request` sets `cache_id_` before anything else, so the entry has it from the start.
-- `cache_data_` of an update, which only goes into the request, is left out. A handle is a number.
pub record CacheClientOperation : Type 0 where
  pub op_id : ℕ
  pub cache_id : ℕ
  pub handle : ℕ
  pub socket : ℕ

-- ProtobufMessageClientImpl: the requests that wait for a response, the generator of ids and the
-- bound socket; with how often the client's clock has been read, and the packets that have gone
-- out.
pub record Client : Type 0 where
  pub requests : List (ℕ × CacheClientOperation)
  pub snowflake : SnowFlake
  pub socket : ℕ
  pub reads : ℕ
  pub sent : List (ℕ × List ℕ)

-- The constructor; no socket is bound.
abbrev pub new_client : ℕ → ℕ → Client
new_client datacenter_id worker_id = record {
  requests = [];
  snowflake = new_snow_flake datacenter_id worker_id;
  socket = 0;
  reads = 0;
  sent = [];
}

-- The closures that the program's user hands over, with the result, the lease's end, the cache id
-- and the data of the response. They may call the client.
abbrev pub Handles : Type 0
Handles = ℕ → ℕ → ℕ → ℕ → CacheDataType → M Client (Unit {0})

-- CacheClientOperation::prepare_header. HEADER_VERSION is 1.
abbrev pub prepare_header : ℕ → ℕ → CacheMessageHeader
prepare_header type op_id = record { magic = header_magic; version = 1; type = type; op_id = op_id }

-- The message of do_send_ack: the header of the response, of which every part is set anew.
abbrev pub ack_message : ℕ → CacheMessage
ack_message op_id = record {
  header = some (prepare_header operation_ack_type op_id);
  read_request = none;
  update_request = none;
  op_response = none;
}

-- The messages of the two do_send_request; `now` is the time stamp.
abbrev pub read_message : ℕ → ℕ → ℕ → ℕ → CacheMessage
read_message op_id cache_id now expire_time_ms = record {
  header = some (prepare_header read_request_type op_id);
  read_request =
      some (record { timestamp = now % 2 ^ 64; expire = expire_time_ms; cache_id = cache_id });
  update_request = none;
  op_response = none;
}

abbrev pub update_message : ℕ → ℕ → CacheDataType → ℕ → ℕ → CacheMessage
update_message op_id cache_id cache_data now expire_time_ms = record {
  header = some (prepare_header update_request_type op_id);
  read_request = none;
  update_request = some (record {
    timestamp = now % 2 ^ 64;
    expire = expire_time_ms;
    cache_id = cache_id;
    cache_data = cache_data;
  });
  op_response = none;
}

module _ (w : Wire) where
  abbrev pub send : ℕ → CacheMessage → M Client (Unit {0})
  send socket message =
      zoom (λ s. s.sent) (λ x s. record s { sent = x }) (do_send_cache_message w socket message)

  abbrev pub do_send_ack : CacheClientOperation → M Client (Unit {0})
  do_send_ack op = send op.socket (ack_message op.op_id)

  -- requests_.erase(iterator), undefined if the handle has taken the entry away.
  unfoldable pub end_request : ℕ → M Client (Unit {0})
  unfolding lookup erase
  end_request op_id s = elim (lookup op_id s.requests) [
    | none ↦ undefined s
    | some op ↦ done tt (record s { requests = erase op_id s.requests })
  ]

  module _ (handles : Handles) where
    -- The call of the handle, and the acknowledgement.
    abbrev pub handle_response : CacheClientOperation → CacheOpResponse → M Client (Unit {0})
    handle_response op r =
        handles op.handle r.result r.expire r.cache_id r.cache_data >> do_send_ack op

    unfoldable pub process_response : CacheClientOperation → CacheMessage → M Client (Unit {0})
    process_response op response s = elim response.op_response [
      | none ↦ throw error_sys_routine s
      | some r ↦
          if not (op.cache_id == r.cache_id)
          then throw error_sys_routine s
          else handle_response op r s
    ]

    -- on_receive, from the search for the request on.
    unfoldable pub match_request : ℕ → CacheMessage → M Client (Unit {0})
    unfolding lookup process_response end_request
    match_request op_id message s = elim (lookup op_id s.requests) [
      | none ↦ done tt s
      | some op ↦ (process_response op message >> end_request op_id) s
    ]

    unfoldable pub on_receive : List ℕ → M Client (Unit {0})
    unfolding match_request
    on_receive bytes s = elim (w.parse bytes) [
      | none ↦ done tt s
      | some message ↦
          if not (header_available message)
          then done tt s
          else match_request (header_of message).op_id message s
    ]

  module _ (clock : ℕ → ℕ) where
    abbrev pub get_time_stamp : M Client ℕ
    get_time_stamp s = done (clock s.reads) (record s { reads = suc s.reads })

    abbrev pub generate : M Client ℕ
    generate = do
      now ← get_time_stamp
      λ s.
          let (op_id, snowflake) = generate_uniform_id now s.snowflake in
          done op_id (record s { snowflake = snowflake })

    -- A new request, entered under its id.
    abbrev pub enter_request : ℕ → ℕ → M Client CacheClientOperation
    enter_request cache_id handle = do
      op_id ← generate
      socket ← gets (λ s. s.socket)
      let op : CacheClientOperation = record {
        op_id = op_id;
        cache_id = cache_id;
        handle = handle;
        socket = socket;
      }
      modify (λ s. record s { requests = emplace op_id op s.requests })
      pure op

    -- The 200 is the lease time of the request, in milliseconds.
    unfoldable pub read_cache_async : ℕ → ℕ → M Client (Unit {0})
    unfolding emplace generate_uniform_id
    read_cache_async cache_id handle = do
      op ← enter_request cache_id handle
      now ← get_time_stamp
      send op.socket (read_message op.op_id cache_id now 200)

    unfoldable pub update_cache_async : ℕ → CacheDataType → ℕ → M Client (Unit {0})
    unfolding emplace generate_uniform_id
    update_cache_async cache_id cache_data handle = do
      op ← enter_request cache_id handle
      now ← get_time_stamp
      send op.socket (update_message op.op_id cache_id cache_data now 200)
