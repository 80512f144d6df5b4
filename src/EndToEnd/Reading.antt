-- ===== src/EndToEnd/Reading.antt =====
-- read_cache_async of a client, on_receive of the server, and on_receive of the client
-- (protobuf_message_client_impl.h, protobuf_message_server_impl.h).
use cache_system_of_lease_me.Base.{
  ℕ, suc, ◌%◌, ◌^◌, ◌≤◌, ◌<◌, ◌≡◌, refl, sym, ap, ◌∙◌, List, [], ◌∷◌, ◌++◌, Option, none, some,
  arith,
}
use cache_system_of_lease_me.Outcome.{Outcome, done, ◌>>◌}
use cache_system_of_lease_me.Common.{OpResult, operation_ok}
use cache_system_of_lease_me.Standard.Map.{lookup}
use cache_system_of_lease_me.TimerQueue.{Platform, IsSteady}
use cache_system_of_lease_me.StateManager.{Managed}
use cache_system_of_lease_me.StateManager.Operations.{Read, granted_read, protected_read}
use cache_system_of_lease_me.DataCenter.{Center}
use cache_system_of_lease_me.DataCenter.Invariant.{IsCenter, content, some_eq, some_ne_none}
use cache_system_of_lease_me.DataCenter.Reads.{Answered, missed, hit, IsPrompt}
use cache_system_of_lease_me.Message.{
  CacheDataType, CacheMessage, Wire, IsWritten, read_response_type,
}
use cache_system_of_lease_me.Message.Header.{IsAvailable}
use cache_system_of_lease_me.Message.Forms.{ack_form, read_form}
use cache_system_of_lease_me.Message.Fitting.{IsBytes, HeaderFits, IsFitting, IsFaithful}
use cache_system_of_lease_me.SnowFlake.Distinct.{IsMachine, id_fits}
use cache_system_of_lease_me.Server.{Server, op_response_of}
use cache_system_of_lease_me.Server.Operations
use cache_system_of_lease_me.Server.Dispatch.{on_receive_routes}
use cache_system_of_lease_me.Server.Requests.{
  ReadReply, has_value, no_data, ReadServed, process_read-ReadServed,
}
use cache_system_of_lease_me.Client.{
  CacheClientOperation, Client, Handles, prepare_header, read_message, read_cache_async,
  handle_response, end_request,
}
use cache_system_of_lease_me.Client
use cache_system_of_lease_me.Client.Responses.{on_receive_matches}
use cache_system_of_lease_me.Client.Requests.{
  next_id, new_operation, read_cache_async-Requested, Requested-waits,
}

-- A header of the protocol's known types is available and fits.
pub prepared-IsAvailable :
    (type op_id : ℕ)
    → 0x1001 ≤ type
    → type ≤ 0x1006
    → 0 < op_id
    → IsAvailable (prepare_header type op_id)
prepared-IsAvailable type op_id low high pos = record {
  magic = refl;
  known = (low, high);
  numbered = pos;
}

pub prepared-HeaderFits :
    (type op_id : ℕ) → type ≤ 0x1006 → op_id < 2 ^ 64 → HeaderFits (prepare_header type op_id)
prepared-HeaderFits type op_id high fits = (omega arith, omega arith, omega arith, fits)

module _ ⦃p : Platform⦄ where
  Read-later_than :
      (e expire : ℕ) (s m : Managed) → Read e s expire m → p.clock s.timers.reads ≤ expire
  Read-later_than e expire s m (granted_read n g) = omega (arith, g.full_term)
  Read-later_than e expire s m (protected_read is at left) = omega (arith, at)

  -- A read of an id with the value `v` is answered with it.
  Answered-value :
      {T : Type 0} (id : ℕ) (v : T) (c c' : Center T) (ret : OpResult) (out : Option (ℕ × T))
      → content c id ≡ some v
      → Answered id c ret out c'
      → (expire : ℕ) × (ret ≡ operation_ok)
        × (out ≡ some (expire, v))
        × (p.clock c.timers.reads ≤ expire)
  Answered-value id v c c' ret out there (missed none_there x y left) =
      absurd (some_ne_none (sym there ∙ none_there))
  Answered-value id v c c' ret out there (hit el m expire found x y z a left) = (
    expire,
    y,
    z ∙ ap (λ u. some (expire, u)) (some_eq (sym x ∙ there)),
    Read-later_than id expire _ m a,
  )

-- The response that carries the value.
abbrev pub value_message : ℕ → ℕ → ℕ → CacheDataType → CacheMessage
value_message op_id id expire v = record {
  header = some (prepare_header read_response_type op_id);
  read_request = none;
  update_request = none;
  op_response = some (op_response_of expire id v operation_ok);
}

value_message-IsFitting :
    (op_id id expire : ℕ) (v : CacheDataType)
    → op_id < 2 ^ 64
    → id < 2 ^ 32
    → IsBytes v
    → IsFitting (value_message op_id id expire v)
value_message-IsFitting op_id id expire v op_fits fits bytes = record {
  header = prepared-HeaderFits read_response_type op_id (omega arith) op_fits;
  read_request = tt;
  update_request = tt;
  op_response = (omega arith, omega arith, omega arith, fits, bytes);
}

read_message-IsFitting :
    (op_id id now : ℕ) → op_id < 2 ^ 64 → id < 2 ^ 32 → IsFitting (read_message op_id id now 200)
read_message-IsFitting op_id id now op_fits fits = record {
  header = prepared-HeaderFits 0x1001 op_id (omega arith) op_fits;
  read_request = (omega arith, omega arith, fits);
  update_request = tt;
  op_response = tt;
}

module _ (w : Wire) ⦃p : Platform⦄ where
  -- What the server makes of a read request for an id with the value `v`.
  pub record ValueSent (socket op_id id : ℕ) (v : CacheDataType) (s s1 : Server) : Type 0 where
    pub expire : ℕ
    pub later : p.clock s.center.timers.reads ≤ expire
    pub sent : s1.sent ≡ s.sent ++ (socket, w.serialize (value_message op_id id expire v)) ∷ []
    pub kept : IsCenter s1.center
    pub values : (j : ℕ) → content s1.center j ≡ content s.center j

  ReadReply-sent :
      (socket op_id id now expire : ℕ) (v : CacheDataType) (out : Option (ℕ × CacheDataType))
      (s s1 : Server)
      → content s.center id ≡ some v
      → out ≡ some (expire, v)
      → ReadReply w socket
          (record { timestamp = now % 2 ^ 64; expire = 200; cache_id = id })
          (prepare_header 0x1001 op_id)
          out
          s
          s1
      → s1.sent ≡ s.sent ++ (socket, w.serialize (value_message op_id id expire v)) ∷ []
  ReadReply-sent socket op_id id now expire v out s s1 there is (has_value e u x some_out sends) =
      sends
      ∙ ap
          (λ (a : ℕ × CacheDataType).
            s.sent ++ (socket, w.serialize (value_message op_id id a.0 a.1)) ∷ [])
          (some_eq (sym some_out ∙ is))
  ReadReply-sent socket op_id id now expire v out s s1 there is (no_data nothing x y) =
      absurd (some_ne_none (sym there ∙ nothing))

  served-ValueSent :
      (socket op_id id now : ℕ) (v : CacheDataType) (s s1 : Server)
      → content s.center id ≡ some v
      → ReadServed w socket
          (record { timestamp = now % 2 ^ 64; expire = 200; cache_id = id })
          (prepare_header 0x1001 op_id)
          s
          s1
      → ValueSent socket op_id id v s s1
  served-ValueSent socket op_id id now v s s1 there r =
      let (expire, ok, out_lem, later) =
        Answered-value id v s.center r.c r.ret r.out there r.answered in
      record {
        expire = expire;
        later = later;
        sent = ReadReply-sent socket op_id id now expire v r.out s s1 there out_lem r.reply;
        kept = r.kept;
        values = r.values;
      }

  pub server_reads :
      IsSteady p
      → IsWritten w
      → (socket op_id id now : ℕ) (v : CacheDataType) (bytes : List ℕ) (s : Server)
      → IsCenter s.center
      → IsPrompt id s.center
      → 0 < socket
      → 0 < op_id
      → lookup op_id s.wait_acks ≡ none
      → content s.center id ≡ some v
      → w.parse bytes ≡ some (read_message op_id id now 200)
      → (s1 : Server) × (Operations.on_receive w socket bytes s ≡ done tt s1)
        × ValueSent socket op_id id v s s1
  server_reads steady writes socket op_id id now v bytes s k prompt bound pos fresh there parsed =
      let (s1, serves, r) =
        process_read-ReadServed w steady writes socket
          (record { timestamp = now % 2 ^ 64; expire = 200; cache_id = id })
          (prepare_header 0x1001 op_id) (read_message op_id id now 200) s k prompt bound refl fresh
          refl in
      (
        s1,
        on_receive_routes w socket bytes (read_message op_id id now 200)
              (prepare_header 0x1001 op_id) s parsed refl
              (prepared-IsAvailable 0x1001 op_id (omega arith) (omega arith) pos)
            ∙ serves,
        served-ValueSent socket op_id id now v s s1 there r,
      )

  -- The handle of a read with the value, and what the client does after it.
  abbrev pub handled :
      Handles → ℕ → ℕ → CacheDataType → CacheClientOperation → Client → Outcome Client (Unit {0})
  handled handles id expire v op =
      handles op.handle 0 (expire % 2 ^ 32) id v
      >> Client.send w op.socket (ack_form op.op_id)
      >> end_request w op.op_id

  -- The server's clock is not set back, protobuf carries over unchanged what fits
  -- into its fields, and writes no message with a header as no bytes. The client and the server
  -- have bound sockets, the client's generator is one that its constructor made, its next id is not
  -- null, and none of a request that waits at the client or of an answer that waits at the server,
  -- the invariant of the server's data center holds, and it has the value `v` for the cache id, read
  -- before the end of its lease where it is guaranteed.
  -- Then the request that `read_cache_async` sends makes the server send a response, which makes
  -- the client call the handle with the result ok, the value `v` and an end of the lease, in 32
  -- bits, that is not in the past; after the handle the client sends the acknowledgement and ends
  -- the request. The server's values stay.
  pub read_round_trip :
      IsSteady p
      → IsWritten w
      → IsFaithful w
      → (clock : ℕ → ℕ) (handles : Handles) (id handle socket : ℕ) (v : CacheDataType) (c : Client)
        (s : Server)
      → IsMachine c.snowflake
      → lookup (next_id clock c) c.requests ≡ none
      → 0 < next_id clock c
      → 0 < c.socket
      → 0 < socket
      → id < 2 ^ 32
      → IsBytes v
      → IsCenter s.center
      → IsPrompt id s.center
      → lookup (next_id clock c) s.wait_acks ≡ none
      → content s.center id ≡ some v
      → (c1 : Client) × (s1 : Server) × (request : List ℕ) × (response : List ℕ) × (expire : ℕ)
        × (read_cache_async w clock id handle c ≡ done tt c1)
        × (c1.sent ≡ c.sent ++ (c.socket, request) ∷ [])
        × (Operations.on_receive w socket request s ≡ done tt s1)
        × (s1.sent ≡ s.sent ++ (socket, response) ∷ [])
        × (p.clock s.center.timers.reads ≤ expire)
        × (Client.on_receive w handles response c1
            ≡ handled handles id expire v (new_operation clock id handle c) c1)
        × ((j : ℕ) → content s1.center j ≡ content s.center j)
  read_round_trip steady writes faithful clock handles id handle socket v c s machine fresh pos
        bound served fits bytes k prompt unheard there =
      let op_id = next_id clock c in
      let now = clock (suc c.reads) in
      let op_fits = id_fits (clock c.reads) c.snowflake machine in
      let request = w.serialize (read_message op_id id now 200) in
      let (c1, asks, r) =
        read_cache_async-Requested w clock id handle c bound (writes _ _ refl (omega arith)) in
      let (s1, serves, sent) =
        server_reads steady writes socket op_id id now v request s k prompt served pos unheard there
          (faithful _ (read_message-IsFitting op_id id now op_fits fits)) in
      (
        c1,
        s1,
        request,
        w.serialize (value_message op_id id sent.expire v),
        sent.expire,
        asks,
        r.sent,
        serves,
        sent.sent,
        sent.later,
        on_receive_matches w handles _ (value_message op_id id sent.expire v)
            (prepare_header read_response_type op_id) (op_response_of sent.expire id v operation_ok)
            c1 (new_operation clock id handle c)
            (faithful _ (value_message-IsFitting op_id id sent.expire v op_fits fits bytes)) refl
            (prepared-IsAvailable read_response_type op_id (omega arith) (omega arith) pos)
            (Requested-waits w clock id handle (read_form op_id id (now % 2 ^ 64) 200) c c1 r fresh)
            refl refl,
        sent.values,
      )
