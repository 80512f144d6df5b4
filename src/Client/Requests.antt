-- ===== src/Client/Requests.antt =====
-- read_cache_async and update_cache_async of protobuf_message_client_impl.h: what goes out, and what
-- waits for its response.
use cache_system_of_lease_me.Base.{
  ℕ, suc, ◌%◌, ◌^◌, ◌<◌, ◌≡◌, ◌≢◌, refl, sym, ap, ◌∙◌, List, [], ◌∷◌, ◌++◌, Option, none, some,
  arith, ◌==◌, if◌then◌else◌, Option-cases, inl, inr, ℕ_discrete,
}
use cache_system_of_lease_me.Outcome.{done}
use cache_system_of_lease_me.Standard.Map.{lookup, emplace, lookup-emplace, emplace_again}
use cache_system_of_lease_me.Message.{CacheDataType, CacheMessage, Wire}
use cache_system_of_lease_me.Message.Forms.{read_form, update_form}
use cache_system_of_lease_me.SnowFlake.{generate_uniform_id}
use cache_system_of_lease_me.Client.{
  CacheClientOperation, Client, send, read_cache_async, update_cache_async,
}
use cache_system_of_lease_me.Client.Responses.{send-done}

module _ (clock : ℕ → ℕ) where
  -- The next id of the client.
  abbrev pub next_id : Client → ℕ
  next_id s = (generate_uniform_id (clock s.reads) s.snowflake).0

  abbrev pub new_operation : ℕ → ℕ → Client → CacheClientOperation
  new_operation cache_id handle s = record {
    op_id = next_id s;
    cache_id = cache_id;
    handle = handle;
    socket = s.socket;
  }

-- The operation that an id has, or a new one.
abbrev pub first_of : Option CacheClientOperation → CacheClientOperation → CacheClientOperation
first_of none op = op
first_of (some old) op = old

-- A request enters the map under its id, unless that is there.
entered-lookup :
    (k j : ℕ) (op : CacheClientOperation) (m : List (ℕ × CacheClientOperation))
    → lookup j (emplace k op m) ≡ (if k == j then some (first_of (lookup k m) op) else lookup j m)
entered-lookup k j op m = elim (Option-cases (lookup k m)) [
  | inl fresh ↦ lookup-emplace k j op m fresh ∙ rw fresh
  | inr (old, held) ↦ ap (lookup j) (emplace_again k op m old held) ∙ elim (ℕ_discrete k j) [
    | yes same ↦ ap (λ i. lookup i m) (sym same) ∙ ground (arith, same, held)
    | no other ↦ ground (arith, other)
  ]
]

module _ (w : Wire) (clock : ℕ → ℕ) where
  -- A request that has gone out: the message, on the client's socket. The entry for its response
  -- stands beside those of the other requests; where its id has one already, that one stays.
  pub record Requested (cache_id handle : ℕ) (message : CacheMessage) (s s' : Client) : Type 0 where
    pub sent : s'.sent ≡ s.sent ++ (s.socket, w.serialize message) ∷ []
    pub waits :
        (j : ℕ)
        → lookup j s'.requests ≡ (
            if next_id clock s == j
            then some (
                first_of
                  (lookup (next_id clock s) s.requests)
                  (new_operation clock cache_id handle s))
            else lookup j s.requests)
    pub snowflake : s'.snowflake ≡ (generate_uniform_id (clock s.reads) s.snowflake).1
    pub socket : s'.socket ≡ s.socket
    pub reads : s'.reads ≡ suc (suc s.reads)

  abbrev entered : ℕ → ℕ → Client → Client
  entered cache_id handle s = record s {
    requests = emplace (next_id clock s) (new_operation clock cache_id handle s) s.requests;
    snowflake = (generate_uniform_id (clock s.reads) s.snowflake).1;
    reads = suc (suc s.reads);
  }

  -- A request with a new id waits.
  pub Requested-waits :
      (cache_id handle : ℕ) (message : CacheMessage) (s s' : Client)
      → Requested cache_id handle message s s'
      → lookup (next_id clock s) s.requests ≡ none
      → lookup (next_id clock s) s'.requests ≡ some (new_operation clock cache_id handle s)
  Requested-waits cache_id handle message s s' r fresh =
      r.waits (next_id clock s)
      ∙ ground (arith, ap (λ o. first_of o (new_operation clock cache_id handle s)) fresh)

  sent-Requested :
      (cache_id handle : ℕ) (message : CacheMessage) (s : Client)
      → 0 < s.socket
      → w.serialize message ≢ []
      → (s' : Client) × (send w s.socket message (entered cache_id handle s) ≡ done tt s')
        × Requested cache_id handle message s s'
  sent-Requested cache_id handle message s bound written = (
    _,
    send-done w s.socket message (entered cache_id handle s) bound written,
    record {
      sent = refl;
      waits = λ j.
          entered-lookup (next_id clock s) j (new_operation clock cache_id handle s) s.requests;
      snowflake = refl;
      socket = refl;
      reads = refl;
    },
  )

  -- On a bound socket, where the message is written as at least one byte, the call returns: a read
  -- request with the protocol's header and the client's next id, the cache id, a lease time of 200
  -- milliseconds and the time of the second reading of the clock goes out. Under that id the
  -- operation waits for its response, the others as before; but where an operation waits under it
  -- already, that one stays, and the new one has no entry.
  pub read_cache_async-Requested :
      (cache_id handle : ℕ) (s : Client)
      → 0 < s.socket
      → w.serialize (read_form (next_id clock s) cache_id (clock (suc s.reads) % 2 ^ 64) 200) ≢ []
      → (s' : Client) × (read_cache_async w clock cache_id handle s ≡ done tt s')
        × Requested cache_id handle
            (read_form (next_id clock s) cache_id (clock (suc s.reads) % 2 ^ 64) 200)
            s
            s'
  unfolding read_cache_async
  read_cache_async-Requested cache_id handle s bound written =
      sent-Requested cache_id handle
        (read_form (next_id clock s) cache_id (clock (suc s.reads) % 2 ^ 64) 200) s bound written

  -- On a bound socket, where the message is written as at least one byte, the call returns: an
  -- update request with the protocol's header and the client's next id, the cache id, the data, a
  -- lease time of 200 milliseconds and the time of the second reading of the clock goes out. Under
  -- that id the operation waits for its response, the others as before; but where an operation waits
  -- under it already, that one stays, and the new one has no entry.
  pub update_cache_async-Requested :
      (cache_id : ℕ) (cache_data : CacheDataType) (handle : ℕ) (s : Client)
      → 0 < s.socket
      → w.serialize
          (update_form (next_id clock s) cache_id cache_data (clock (suc s.reads) % 2 ^ 64) 200)
        ≢ []
      → (s' : Client) × (update_cache_async w clock cache_id cache_data handle s ≡ done tt s')
        × Requested cache_id handle
            (update_form (next_id clock s) cache_id cache_data (clock (suc s.reads) % 2 ^ 64) 200)
            s
            s'
  unfolding update_cache_async
  update_cache_async-Requested cache_id cache_data handle s bound written =
      sent-Requested cache_id handle
        (update_form (next_id clock s) cache_id cache_data (clock (suc s.reads) % 2 ^ 64) 200) s
        bound written
