-- ===== src/Server/UpdateRequests.antt =====
-- The update requests of the server (protobuf_message_server_impl.h), answered or kept.
use cache_system_of_lease_me.Base.{
  ℕ, ◌<◌, ◌≡◌, ◌≢◌, refl, sym, ap, ◌∙◌, subst, false, [], ◌∷◌, ◌++◌, ◌%◌, ◌^◌, Option, none, some,
  arith, ◌==◌, ◌&&◌, if◌then◌else◌,
}
use cache_system_of_lease_me.Outcome.{done, bind-done, zoom-done}
use cache_system_of_lease_me.Common.{
  OpResult, operation_ok, operation_defer, operation_retry, UpdateCallHandler, update_handle,
  call_handle,
}
use cache_system_of_lease_me.Standard.Map.{emplace, lookup}
use cache_system_of_lease_me.TimerQueue.{Platform, IsSteady}
use cache_system_of_lease_me.DataCenter.{Center}
use cache_system_of_lease_me.DataCenter
use cache_system_of_lease_me.DataCenter.Invariant.{IsCenter, content, managed_in}
use cache_system_of_lease_me.StateManager.{Managed}
use cache_system_of_lease_me.StateManager.Updates.{Updated, applied, deferred, turned_away}
use cache_system_of_lease_me.DataCenter.Updates.{Settled, IsPromptTwice, update_op_correct}
use cache_system_of_lease_me.DataCenter.Stored.{is_ok}
use cache_system_of_lease_me.Message.{
  CacheDataType, CacheMessage, CacheMessageHeader, CacheUpdateRequest, Wire, IsWritten,
  update_response_type, printed,
}
use cache_system_of_lease_me.Server.{
  Server, on_center, header_of, op_id32, is_defer, result_code, WaitCacheAck,
}
use cache_system_of_lease_me.Server.Operations.{
  update_cache_center, update_response, serve_update, reply_update, process_update,
}
use cache_system_of_lease_me.Server.WaitAcks.{answer}
use cache_system_of_lease_me.Server.Requests.{same_map, response_to-form}
use cache_system_of_lease_me.Message.Forms.{response_form}
use cache_system_of_lease_me.Message.Header.{header_of-some}
use cache_system_of_lease_me.Server.Answers.{answer-AnswerSent, AnswerSent-waits}

-- The results that an update has.
pub data IsAnswer : OpResult → Type 0 where
  says_ok : IsAnswer operation_ok
  says_defer : IsAnswer operation_defer
  says_retry : IsAnswer operation_retry

module _ ⦃p : Platform⦄ where
  Updated-IsAnswer :
      (e id expire : ℕ) (f : Option UpdateCallHandler) (s m : Managed) (r : OpResult)
      → Updated e id f s r expire m
      → IsAnswer r
  Updated-IsAnswer e id expire f s m r (applied is ok g) = subst IsAnswer (sym ok) says_ok
  Updated-IsAnswer e id expire f s m r (deferred is ok kept st h x) =
      subst IsAnswer (sym ok) says_defer
  Updated-IsAnswer e id expire f s m r (turned_away is ok x left) =
      subst IsAnswer (sym ok) says_retry

module _ (w : Wire) where
  -- A response has gone out, and waits beside the others.
  pub record Answers (socket : ℕ) (u : CacheUpdateRequest) (h : CacheMessageHeader)
      (result expire : ℕ) (s s' : Server) : Type 0 where
    pub sent :
        s'.sent
        ≡ s.sent
          ++ (
            socket,
            w.serialize (response_form 0x1004 h result (expire % 2 ^ 32) u.cache_id u.cache_data),
          )
            ∷ []
    pub ack : WaitCacheAck
    pub waits : lookup h.op_id s'.wait_acks ≡ some ack
    pub others : (j : ℕ) → h.op_id ≢ j → lookup j s'.wait_acks ≡ lookup j s.wait_acks
    pub deferred : s'.defer_messages ≡ s.defer_messages

  module _ ⦃p : Platform⦄ where
    -- The server after the center's update.
    abbrev pub updated : OpResult → CacheMessage → Center CacheDataType → Server → Server
    updated ret request c s = record s {
      center = c;
      defer_messages =
          if is_defer ret
          then emplace (op_id32 request) request s.defer_messages
          else s.defer_messages;
    }

    pub update_cache_center-done :
        (socket : ℕ) (u : CacheUpdateRequest) (request : CacheMessage) (s : Server) (ret : OpResult)
        (expire : ℕ) (c : Center CacheDataType)
        → DataCenter.update_op [] u.cache_id u.cache_data
            (op_id32 request)
            (update_handle socket)
            s.center
          ≡ done (ret, expire) c
        → update_cache_center w socket u request s ≡ done (ret, expire) (updated ret request c s)
    unfolding update_cache_center
    update_cache_center-done socket u request s ret expire c updates =
        bind-done
          (on_center (
            DataCenter.update_op [] u.cache_id u.cache_data (op_id32 request)
              (update_handle socket)))
          _ s
          (zoom-done (λ (x : Server). x.center) (λ y (x : Server). record x { center = y })
            (DataCenter.update_op [] u.cache_id u.cache_data (op_id32 request)
              (update_handle socket))
            s updates)

    -- What goes out for an update request with the header `h`: nothing, and the message is kept, if
    -- the update is deferred; else a response with the result ok or retry, which waits for its
    -- acknowledgement.
    pub data Reply (socket : ℕ) (u : CacheUpdateRequest) (h : CacheMessageHeader)
        (request : CacheMessage) (ret : OpResult) (expire : ℕ) (s s' : Server) : Type 0 where
      kept_back :
          ret ≡ operation_defer
          → s'.sent ≡ s.sent
          → s'.wait_acks ≡ s.wait_acks
          → s'.defer_messages ≡ emplace (op_id32 request) request s.defer_messages
          → Reply socket u h request ret expire s s'
      let_through :
          ret ≡ operation_ok
          → Answers socket u h 0 expire s s'
          → Reply socket u h request ret expire s s'
      put_off :
          ret ≡ operation_retry
          → Answers socket u h 2 expire s s'
          → Reply socket u h request ret expire s s'

    pub record UpdateServed (socket : ℕ) (u : CacheUpdateRequest) (h : CacheMessageHeader)
        (request : CacheMessage) (s s' : Server) : Type 0 where
      pub ret : OpResult
      pub expire : ℕ
      pub c : Center CacheDataType
      pub op_id_lem : op_id32 request ≡ h.op_id % 2 ^ 32
      pub settled :
          Settled [] u.cache_id u.cache_data
            (op_id32 request)
            (update_handle socket)
            s.center
            ret
            expire
            c
      pub reply : Reply socket u h request ret expire s s'
      pub kept : IsCenter s'.center
      pub values :
          (j : ℕ)
          → content s'.center j
            ≡ (if is_ok ret && u.cache_id == j then some u.cache_data else content s.center j)

    -- An update that is not deferred is answered.
    answer-Answers :
        IsSteady p
        → IsWritten w
        → (socket : ℕ) (u : CacheUpdateRequest) (h : CacheMessageHeader) (request : CacheMessage)
          (s : Server) (ret : OpResult) (expire : ℕ) (c : Center CacheDataType)
        → IsCenter c
        → 0 < socket
        → request.header ≡ some h
        → lookup h.op_id s.wait_acks ≡ none
        → is_defer ret ≡ false
        → (s' : Server) × (answer w printed socket
              (update_response w request u ret expire)
              (updated ret request c s)
            ≡ done tt s')
          × Answers socket u h (result_code ret) expire s s'
          × IsCenter s'.center
          × (s'.center.map ≡ c.map)
    answer-Answers steady writes socket u h request s ret expire c k bound headed fresh answers =
        let is_h = header_of-some request h headed in
        let g = record (header_of request) { type = update_response_type } in
        let m = update_response w request u ret expire in
        let unknown : lookup (header_of request).op_id s.wait_acks ≡ none =
          ap (λ (x : CacheMessageHeader). lookup x.op_id s.wait_acks) is_h ∙ fresh in
        let (s', sends, b) =
          answer-AnswerSent w steady printed socket m g (updated ret request c s) k bound refl refl
            unknown (writes _ _ refl (omega arith)) in
        let (waits, others) =
          AnswerSent-waits w socket m g h (updated ret request c s) s' b unknown
            (ap (λ (x : CacheMessageHeader). x.op_id) is_h) in
        (
          s',
          sends,
          record {
            sent =
                b.sent
                ∙ ap (λ x. s.sent ++ (socket, w.serialize x) ∷ [])
                    (response_to-form update_response_type request h expire u.cache_id u.cache_data
                      ret headed);
            ack = b.ack;
            waits = waits;
            others = others;
            deferred = b.deferred ∙ rw answers;
          },
          b.kept,
          b.same,
        )

    -- The rest of the call, once the center has decided.
    replies :
        IsSteady p
        → IsWritten w
        → (socket : ℕ) (u : CacheUpdateRequest) (h : CacheMessageHeader) (request : CacheMessage)
          (s : Server) (ret : OpResult) (expire : ℕ) (c : Center CacheDataType)
        → IsCenter c
        → 0 < socket
        → request.header ≡ some h
        → lookup h.op_id s.wait_acks ≡ none
        → IsAnswer ret
        → (s' : Server) × (reply_update w u socket request ret expire (updated ret request c s)
            ≡ done tt s')
          × Reply socket u h request ret expire s s'
          × IsCenter s'.center
          × (s'.center.map ≡ c.map)
    replies steady writes socket u h request s _ expire c k bound headed fresh says_defer =
        (updated operation_defer request c s, refl, kept_back refl refl refl refl, k, refl)
    replies steady writes socket u h request s _ expire c k bound headed fresh says_ok =
        let (s', sends, a, k', same) =
          answer-Answers steady writes socket u h request s operation_ok expire c k bound headed
            fresh refl in
        (s', sends, let_through refl a, k', same)
    replies steady writes socket u h request s _ expire c k bound headed fresh says_retry =
        let (s', sends, a, k', same) =
          answer-Answers steady writes socket u h request s operation_retry expire c k bound headed
            fresh refl in
        (s', sends, put_off refl a, k', same)

    pub process_update-UpdateServed :
        IsSteady p
        → IsWritten w
        → (socket : ℕ) (u : CacheUpdateRequest) (h : CacheMessageHeader) (request : CacheMessage)
          (s : Server)
        → IsCenter s.center
        → IsPromptTwice u.cache_id s.center
        → 0 < socket
        → request.header ≡ some h
        → 0 < h.op_id % 2 ^ 32
        → lookup h.op_id s.wait_acks ≡ none
        → request.update_request ≡ some u
        → (s' : Server) × (process_update w socket request s ≡ done tt s')
          × UpdateServed socket u h request s s'
    unfolding process_update
    process_update-UpdateServed steady writes socket u h request s k prompt bound headed numbered
          fresh there =
        let is_id : op_id32 request ≡ h.op_id % 2 ^ 32 =
          ap (λ (x : CacheMessageHeader). x.op_id % 2 ^ 32) (header_of-some request h headed) in
        let (ret, expire, c, updates, z, k', same) =
          update_op_correct steady [] u.cache_id (op_id32 request) u.cache_data
            (update_handle socket) s.center k prompt (omega (arith, is_id, numbered)) in
        let (s', ends, reply, kept, map_lem) =
          replies steady writes socket u h request s ret expire c k' bound headed fresh (
            Updated-IsAnswer u.cache_id (op_id32 request) expire (some (call_handle u.cache_id))
              (managed_in z.c1 z.el) z.m ret z.answer) in
        (
          s',
          subst
              (λ o.
                elim o [ none ↦ done tt s | some x ↦ serve_update w x socket request s ]
                ≡ done tt s')
              (sym there)
              (bind-done (update_cache_center w socket u request) _ s
                  (update_cache_center-done socket u request s ret expire c updates)
                ∙ ends),
          record {
            ret = ret;
            expire = expire;
            c = c;
            op_id_lem = is_id;
            settled = z;
            reply = reply;
            kept = kept;
            values = λ j. same_map s'.center c j map_lem ∙ same j;
          },
        )
