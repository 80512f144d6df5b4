-- ===== src/Server/Operations.antt =====
-- The operations of the server and the dispatch of packets (protobuf_message_server_impl.h).
use cache_system_of_lease_me.Base.{ℕ, List, [], none, some, ltb, ◌==◌, not, if◌then◌else◌}
use cache_system_of_lease_me.Outcome.{
  error_sys_routine, M, done, undefined, ◌>>=◌, ◌>>◌, pure, throw, modify,
}
use cache_system_of_lease_me.Common.{
  OpResult, operation_ok, operation_defer, operation_retry, operation_error_argument,
  operation_error_no_data, update_handle,
}
use cache_system_of_lease_me.Standard.Map.{lookup, emplace, erase}
use cache_system_of_lease_me.TimerQueue.{Platform}
use cache_system_of_lease_me.DataCenter.{Center}
use cache_system_of_lease_me.DataCenter
use cache_system_of_lease_me.Message.{
  CacheReadRequest, CacheUpdateRequest, CacheMessage, Wire, header_available, read_response_type,
  update_response_type, printed,
}
use cache_system_of_lease_me.Server.{
  Server, on_center, header_of, op_id32, op_response_of, response_to, index_of, remember, is_defer,
}
use cache_system_of_lease_me.Server.WaitAcks.{answer, unregister_wait_ack}

-- CacheUpdateRequestOperation::update_handle, which has the same temporary.
unfoldable pub update_handled : OpResult → ℕ → M Server (Unit {0})
unfolding lookup erase
update_handled operation_ok op_id s = elim (lookup op_id s.defer_messages) [
  | none ↦ throw error_sys_routine s
  | some message ↦ undefined (record s { defer_messages = erase op_id s.defer_messages })
]
update_handled operation_defer op_id s = throw error_sys_routine s
update_handled operation_retry op_id s = throw error_sys_routine s
update_handled operation_error_argument op_id s = throw error_sys_routine s
update_handled operation_error_no_data op_id s = throw error_sys_routine s

module _ (w : Wire) ⦃p : Platform⦄ where
  unfoldable pub query_cache_center : CacheReadRequest → CacheMessage → M Server (Unit {0})
  query_cache_center r request = do
    modify (λ s. record s { cache_id = r.cache_id })
    (ret, out) ← on_center (DataCenter.read_op r.cache_id (op_id32 request))
    modify (remember ret out)

  abbrev pub read_response : CacheMessage → Server → CacheMessage
  read_response request s =
      response_to read_response_type request
        (op_response_of s.timestamp s.cache_id s.cache_data s.ret)

  abbrev pub serve_read : CacheReadRequest → ℕ → CacheMessage → M Server (Unit {0})
  serve_read r socket request =
      query_cache_center r request >> λ s. answer w (λ m. m) socket (read_response request s) s

  -- CacheReadRequestOperation::on_process.
  unfoldable pub process_read : ℕ → CacheMessage → M Server (Unit {0})
  process_read socket request s = elim request.read_request [
    | none ↦ done tt s
    | some r ↦ serve_read r socket request s
  ]

  -- update_cache_center.
  unfoldable pub update_cache_center :
      ℕ → CacheUpdateRequest → CacheMessage → M Server (OpResult × ℕ)
  update_cache_center socket u request = do
    (ret, expire) ←
        on_center
          (DataCenter.update_op [] u.cache_id u.cache_data (op_id32 request) (update_handle socket))
    modify (λ s. record s {
      defer_messages =
          if is_defer ret
          then emplace (op_id32 request) request s.defer_messages
          else s.defer_messages;
    })
    pure (ret, expire)

  abbrev pub update_response : CacheMessage → CacheUpdateRequest → OpResult → ℕ → CacheMessage
  update_response request u ret expire =
      response_to update_response_type request (op_response_of expire u.cache_id u.cache_data ret)

  abbrev pub reply_update :
      CacheUpdateRequest → ℕ → CacheMessage → OpResult → ℕ → M Server (Unit {0})
  reply_update u socket request ret expire =
      if is_defer ret
      then pure tt
      else answer w printed socket (update_response request u ret expire)

  abbrev pub serve_update : CacheUpdateRequest → ℕ → CacheMessage → M Server (Unit {0})
  serve_update u socket request = update_cache_center socket u request >>= λ (ret, expire).
      reply_update u socket request ret expire

  -- CacheUpdateRequestOperation::on_process.
  unfoldable pub process_update : ℕ → CacheMessage → M Server (Unit {0})
  process_update socket request s = elim request.update_request [
    | none ↦ done tt s
    | some u ↦ serve_update u socket request s
  ]

  -- CacheAckOperation::on_process.
  abbrev pub process_ack : CacheMessage → M Server (Unit {0})
  process_ack request = unregister_wait_ack (header_of request).op_id

  -- on_process of the object at an index of `message_op_`.
  unfoldable pub on_process : ℕ → ℕ → CacheMessage → M Server (Unit {0})
  on_process index socket request =
      if index == 0
      then process_read socket request
      else if index == 2
      then process_update socket request
      else if index == 4
      then process_ack request
      else pure tt

  -- ProtobufMessageServerImpl::on_receive.
  unfoldable pub on_receive : ℕ → List ℕ → M Server (Unit {0})
  on_receive socket bytes s = elim (w.parse bytes) [
    | none ↦ done tt s
    | some request ↦
        if not (header_available request)
        then done tt s
        else if not (ltb (index_of request) 6)
        then throw error_sys_routine s
        else on_process (index_of request) socket request s
  ]
