-- ===== src/EndToEnd/Writing.antt =====
-- update_cache_async of a client, on_receive of the server, and on_receive of the client
-- (protobuf_message_client_impl.h, protobuf_message_server_impl.h), for an element without a lease.
use cache_system_of_lease_me.Base.{
  ℕ, suc, ◌+◌, ◌%◌, ◌^◌, ◌≤◌, ◌<◌, ◌≡◌, ◌≢◌, refl, sym, ap, ◌∙◌, List, [], ◌∷◌, ◌++◌, none, some,
  arith, ◌==◌, ◌&&◌, if◌then◌else◌,
}
use cache_system_of_lease_me.Outcome.{done}
use cache_system_of_lease_me.Common.{
  OpResult, operation_ok, operation_defer, operation_retry, default_expire_millisecond,
}
use cache_system_of_lease_me.Standard.Map.{lookup}
use cache_system_of_lease_me.TimerQueue.{Platform, IsSteady, Timers}
use cache_system_of_lease_me.DataCenter.Invariant.{IsCenter, content, managed_in}
use cache_system_of_lease_me.DataCenter.Stored.{is_ok}
use cache_system_of_lease_me.DataCenter.Unleased.{
  IsUnleased, IsUnleased-IsPromptTwice, Target-idle, Updated-applied,
}
use cache_system_of_lease_me.Message.Forms.{update_form}
use cache_system_of_lease_me.Message.{
  CacheDataType, CacheMessage, Wire, IsWritten, update_response_type,
}
use cache_system_of_lease_me.Message.Fitting.{IsBytes, IsFitting, IsFaithful}
use cache_system_of_lease_me.SnowFlake.Distinct.{IsMachine, id_fits}
use cache_system_of_lease_me.Server.{Server, op_id32, op_response_of}
use cache_system_of_lease_me.Server.Operations
use cache_system_of_lease_me.Server.Dispatch.{on_receive_routes}
use cache_system_of_lease_me.Server.UpdateRequests.{
  Reply, kept_back, let_through, put_off, UpdateServed, process_update-UpdateServed,
}
use cache_system_of_lease_me.Client.{
  Client, Handles, prepare_header, update_message, update_cache_async,
}
use cache_system_of_lease_me.Client
use cache_system_of_lease_me.Client.Responses.{on_receive_matches}
use cache_system_of_lease_me.Client.Requests.{
  next_id, new_operation, update_cache_async-Requested, Requested-waits,
}
use cache_system_of_lease_me.EndToEnd.Reading.{prepared-IsAvailable, prepared-HeaderFits, handled}

ok-not_defer : operation_ok ≢ operation_defer
ok-not_defer h = cc

ok-not_retry : operation_ok ≢ operation_retry
ok-not_retry h = cc

-- The response to an update that was let through.
abbrev pub update_answer : ℕ → ℕ → ℕ → CacheDataType → CacheMessage
update_answer op_id id expire v = record {
  header = some (prepare_header update_response_type op_id);
  read_request = none;
  update_request = none;
  op_response = some (op_response_of expire id v operation_ok);
}

update_answer-IsFitting :
    (op_id id expire : ℕ) (v : CacheDataType)
    → op_id < 2 ^ 64
    → id < 2 ^ 32
    → IsBytes v
    → IsFitting (update_answer op_id id expire v)
update_answer-IsFitting op_id id expire v op_fits fits bytes = record {
  header = prepared-HeaderFits update_response_type op_id (omega arith) op_fits;
  read_request = tt;
  update_request = tt;
  op_response = (omega arith, omega arith, omega arith, fits, bytes);
}

update_message-IsFitting :
    (op_id id now : ℕ) (v : CacheDataType)
    → op_id < 2 ^ 64
    → id < 2 ^ 32
    → IsBytes v
    → IsFitting (update_message op_id id v now 200)
update_message-IsFitting op_id id now v op_fits fits bytes = record {
  header = prepared-HeaderFits 0x1003 op_id (omega arith) op_fits;
  read_request = tt;
  update_request = (omega arith, omega arith, fits, bytes);
  op_response = tt;
}

module _ (w : Wire) ⦃p : Platform⦄ where
  -- What the server makes of an update request for an unleased id.
  pub record UpdateDone (socket op_id id : ℕ) (v : CacheDataType) (s s1 : Server) : Type 0 where
    pub expire : ℕ
    pub full_term : p.clock s.center.timers.reads + default_expire_millisecond ≤ expire
    pub sent : s1.sent ≡ s.sent ++ (socket, w.serialize (update_answer op_id id expire v)) ∷ []
    pub kept : IsCenter s1.center
    pub values : (j : ℕ) → content s1.center j ≡ (if id == j then some v else content s.center j)

  Reply-sent :
      (socket op_id id now expire : ℕ) (v : CacheDataType) (ret : OpResult) (s s1 : Server)
      → ret ≡ operation_ok
      → Reply w socket
          (record { timestamp = now % 2 ^ 64; expire = 200; cache_id = id; cache_data = v })
          (prepare_header 0x1003 op_id)
          (update_message op_id id v now 200)
          ret
          expire
          s
          s1
      → s1.sent ≡ s.sent ++ (socket, w.serialize (update_answer op_id id expire v)) ∷ []
  Reply-sent socket op_id id now expire v ret s s1 ok (kept_back defers x y z) =
      absurd (ok-not_defer (sym ok ∙ defers))
  Reply-sent socket op_id id now expire v ret s s1 ok (let_through _ a) = a.sent
  Reply-sent socket op_id id now expire v ret s s1 ok (put_off retries a) =
      absurd (ok-not_retry (sym ok ∙ retries))

  served-UpdateDone :
      (socket op_id id now : ℕ) (v : CacheDataType) (s s1 : Server)
      → IsUnleased id s.center
      → UpdateServed w socket
          (record { timestamp = now % 2 ^ 64; expire = 200; cache_id = id; cache_data = v })
          (prepare_header 0x1003 op_id)
          (update_message op_id id v now 200)
          s
          s1
      → UpdateDone socket op_id id v s s1
  served-UpdateDone socket op_id id now v s s1 free u =
      let z = u.settled in
      let (ok, full) =
        Updated-applied id (op_id32 (update_message op_id id v now 200)) u.expire
          (managed_in z.c1 z.el) z.m u.ret (Target-idle [] id s.center z.c1 z.el free z.target)
          z.answer in
      record {
        expire = u.expire;
        full_term = omega (arith, full, ap (λ (q : Timers). p.clock q.reads) z.target.queue);
        sent = Reply-sent socket op_id id now u.expire v u.ret s s1 ok u.reply;
        kept = u.kept;
        values = λ j.
            u.values j ∙ ap (λ r. if is_ok r && id == j then some v else content s.center j) ok;
      }

  pub server_updates :
      IsSteady p
      → IsWritten w
      → (socket op_id id now : ℕ) (v : CacheDataType) (bytes : List ℕ) (s : Server)
      → IsCenter s.center
      → IsUnleased id s.center
      → 0 < socket
      → 0 < op_id % 2 ^ 32
      → lookup op_id s.wait_acks ≡ none
      → w.parse bytes ≡ some (update_message op_id id v now 200)
      → (s1 : Server) × (Operations.on_receive w socket bytes s ≡ done tt s1)
        × UpdateDone socket op_id id v s s1
  server_updates steady writes socket op_id id now v bytes s k free bound pos fresh parsed =
      let (s1, serves, u) =
        process_update-UpdateServed w steady writes socket
          (record { timestamp = now % 2 ^ 64; expire = 200; cache_id = id; cache_data = v })
          (prepare_header 0x1003 op_id) (update_message op_id id v now 200) s k
          (IsUnleased-IsPromptTwice id s.center free) bound refl pos fresh refl in
      (
        s1,
        on_receive_routes w socket bytes (update_message op_id id v now 200)
              (prepare_header 0x1003 op_id) s parsed refl
              (prepared-IsAvailable 0x1003 op_id (omega arith) (omega arith) (omega arith))
            ∙ serves,
        served-UpdateDone socket op_id id now v s s1 free u,
      )

  -- The server's clock is not set back, protobuf carries over unchanged what fits into its fields,
  -- and writes no message with a header as no bytes. The client and the server have bound sockets,
  -- the client's generator is one that its constructor made, its next id is none of a request that
  -- waits at the client or of an answer that waits at the server, and its low 32 bits are not all
  -- zero, the invariant of the server's data center holds, and the cache id has no element there yet, or one without a lease. Then the request that
  -- `update_cache_async` sends makes the server take the data in, and no other value changes; and
  -- the server sends a response that makes the client call the handle with the result ok, the data
  -- and the end of a lease of the full term, in 32 bits; after the handle the client sends the
  -- acknowledgement and ends the request.
  pub update_round_trip :
      IsSteady p
      → IsWritten w
      → IsFaithful w
      → (clock : ℕ → ℕ) (handles : Handles) (id handle socket : ℕ) (v : CacheDataType) (c : Client)
        (s : Server)
      → IsMachine c.snowflake
      → lookup (next_id clock c) c.requests ≡ none
      → 0 < next_id clock c % 2 ^ 32
      → 0 < c.socket
      → 0 < socket
      → id < 2 ^ 32
      → IsBytes v
      → IsCenter s.center
      → IsUnleased id s.center
      → lookup (next_id clock c) s.wait_acks ≡ none
      → (c1 : Client) × (s1 : Server) × (request : List ℕ) × (response : List ℕ) × (expire : ℕ)
        × (update_cache_async w clock id v handle c ≡ done tt c1)
        × (c1.sent ≡ c.sent ++ (c.socket, request) ∷ [])
        × (Operations.on_receive w socket request s ≡ done tt s1)
        × (s1.sent ≡ s.sent ++ (socket, response) ∷ [])
        × (p.clock s.center.timers.reads + default_expire_millisecond ≤ expire)
        × (Client.on_receive w handles response c1
            ≡ handled w handles id expire v (new_operation clock id handle c) c1)
        × ((j : ℕ) → content s1.center j ≡ (if id == j then some v else content s.center j))
  update_round_trip steady writes faithful clock handles id handle socket v c s machine fresh pos
        bound served fits bytes k free unheard =
      let op_id = next_id clock c in
      let now = clock (suc c.reads) in
      let op_fits = id_fits (clock c.reads) c.snowflake machine in
      let request = w.serialize (update_message op_id id v now 200) in
      let (c1, asks, r) =
        update_cache_async-Requested w clock id v handle c bound (writes _ _ refl (omega arith)) in
      let (s1, serves, sent) =
        server_updates steady writes socket op_id id now v request s k free served pos unheard
          (faithful _ (update_message-IsFitting op_id id now v op_fits fits bytes)) in
      (
        c1,
        s1,
        request,
        w.serialize (update_answer op_id id sent.expire v),
        sent.expire,
        asks,
        r.sent,
        serves,
        sent.sent,
        sent.full_term,
        on_receive_matches w handles _ (update_answer op_id id sent.expire v)
            (prepare_header update_response_type op_id)
            (op_response_of sent.expire id v operation_ok) c1 (new_operation clock id handle c)
            (faithful _ (update_answer-IsFitting op_id id sent.expire v op_fits fits bytes)) refl
            (prepared-IsAvailable update_response_type op_id (omega arith) (omega arith)
              (omega arith))
            (Requested-waits w clock id handle (update_form op_id id v (now % 2 ^ 64) 200) c c1 r
              fresh)
            refl refl,
        sent.values,
      )
