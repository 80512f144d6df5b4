-- ===== src/Server/Repeats.antt =====
-- A request whose operation id is that of an answer that waits already
-- (protobuf_message_server_impl.h): the new answer is not registered, and its parts are released
-- before it is sent.
use cache_system_of_lease_me.Base.{
  ℕ, ◌<◌, ◌≡◌, ◌≢◌, refl, sym, ap, ◌∙◌, subst, All, map, List, [], ◌∷◌, ◌++◌, none, some, arith,
  ◌%◌, ◌^◌, ◌==◌, false,
}
use cache_system_of_lease_me.Outcome.{csn, error_sys_routine, done, thrown, undefined, bind-done}
use cache_system_of_lease_me.Common.{operation_ok, update_handle}
use cache_system_of_lease_me.Standard.Map.{lookup, emplace_again}
use cache_system_of_lease_me.TimerQueue.{Platform, IsSteady, Timers, resend}
use cache_system_of_lease_me.TimerQueue.Queue.{Added}
use cache_system_of_lease_me.DataCenter.{Center}
use cache_system_of_lease_me.DataCenter.Invariant.{IsCenter, content, managed_in}
use cache_system_of_lease_me.DataCenter.Stored.{is_ok}
use cache_system_of_lease_me.DataCenter.Reads.{IsPrompt, read_op_correct}
use cache_system_of_lease_me.DataCenter.Updates.{update_op_correct}
use cache_system_of_lease_me.DataCenter.Unleased.{
  IsUnleased, IsUnleased-IsPromptTwice, Target-idle, Updated-applied,
}
use cache_system_of_lease_me.Message.{
  CacheMessage, CacheMessageHeader, CacheReadRequest, CacheUpdateRequest, Wire, printed,
  read_response_type, update_response_type, do_send_cache_message,
}
use cache_system_of_lease_me.Message.Forms.{empty_form, bare_form}
use cache_system_of_lease_me.Message.Header.{header_of-some}
use cache_system_of_lease_me.Server.{WaitCacheAck, Server, header_of, op_id32, remember}
use cache_system_of_lease_me.Server.Operations.{
  query_cache_center, read_response, serve_read, process_read, update_response, process_update,
  update_cache_center, serve_update,
}
use cache_system_of_lease_me.Server.WaitAcks.{
  ack_at, timer_handle, left_of, send, register_wait_ack, answer,
}
use cache_system_of_lease_me.Server.Answers.{Registered, register_wait_ack-Registered, send-done}
use cache_system_of_lease_me.Server.Requests.{query-done, same_map}
use cache_system_of_lease_me.Server.UpdateRequests.{updated, update_cache_center-done}

ack_at-none :
    (address : ℕ) (acks : List (ℕ × WaitCacheAck))
    → All (λ a. a ≢ address) (map (λ e. e.1.address) acks)
    → ack_at address acks ≡ none
unfolding ack_at
ack_at-none address [] h = refl
ack_at-none address ((k, ack) ∷ acks) h =
    let other : (ack.address == address) ≡ false = ground (arith, h.0) in
    rw other (ack_at-none address acks h.1)

module _ (w : Wire) ⦃p : Platform⦄ where
  -- What a repeated answer leaves: the answers that wait as they were, and in the queue a timer for
  -- an object that is gone, which is undefined behaviour when it fires.
  pub record Dangling (s s' : Server) : Type 0 where
    pub same : s'.wait_acks ≡ s.wait_acks
    pub address : ℕ
    pub before : Timers
    pub armed_timer : Added (resend address) 500 1 before s'.center.timers
    pub fires : timer_handle w address s' ≡ undefined s'

  timer_handle-gone :
      (address : ℕ) (s : Server)
      → ack_at address s.wait_acks ≡ none
      → timer_handle w address s ≡ undefined s
  unfolding timer_handle
  timer_handle-gone address s gone = rw (gone, timer_handle)

  Registered-Dangling :
      (socket : ℕ) (message : CacheMessage) (h : CacheMessageHeader) (s s1 s' : Server)
      (waiting : WaitCacheAck)
      → lookup h.op_id s.wait_acks ≡ some waiting
      → (r : Registered w socket message h s s1) → s'.wait_acks ≡ s1.wait_acks
      → s'.center ≡ s1.center
      → Dangling s s'
  Registered-Dangling socket message h s s1 s' waiting held r acks center =
      let kept = acks ∙ r.waits ∙ emplace_again h.op_id r.ack s.wait_acks waiting held in
      record {
        same = kept;
        address = r.ack.address;
        before = s.center.timers;
        armed_timer =
            subst
              (λ (c : Center (List ℕ)). Added (resend r.ack.address) 500 1 s.center.timers c.timers)
              (sym center) r.armed_timer;
        fires =
            timer_handle-gone r.ack.address s' (
              ap (ack_at r.ack.address) kept ∙ ack_at-none r.ack.address s.wait_acks r.new_address);
      }

  -- The queue and the waiting answers of a server are what counts.
  Dangling-of : (s s2 s' : Server) → s2.wait_acks ≡ s.wait_acks → Dangling s2 s' → Dangling s s'
  Dangling-of s s2 s' e d = record {
    same = d.same ∙ e;
    address = d.address;
    before = d.before;
    armed_timer = d.armed_timer;
    fires = d.fires;
  }

  send-thrown :
      (socket : ℕ) (message : CacheMessage) (s : Server)
      → 0 < socket
      → w.serialize message ≡ []
      → send w socket message s ≡ thrown (csn error_sys_routine) s
  unfolding do_send_cache_message
  send-thrown socket message s bound empty =
      let tested : (socket == 0) ≡ false = ground arith in rw (tested, empty)

  -- A repeated answer is sent without its parts.
  answer-repeated :
      IsSteady p
      → (between : CacheMessage → CacheMessage) (socket : ℕ) (message : CacheMessage)
        (h : CacheMessageHeader) (s : Server) (waiting : WaitCacheAck)
      → IsCenter s.center
      → message.header ≡ some h
      → lookup h.op_id s.wait_acks ≡ some waiting
      → (s1 : Server) × (answer w between socket message s ≡ send w socket (between empty_form) s1)
        × Registered w socket message h s s1
  unfolding answer
  answer-repeated steady between socket message h s waiting k there held =
      let (s1, registers, r) = register_wait_ack-Registered w steady socket message h s k there in
      (
        s1,
        bind-done (register_wait_ack w socket message) (λ m. send w socket (between m)) s registers
            ∙ ap (λ o. send w socket (between (left_of w o message)) s1) held,
        r,
      )

  -- The clock is not set back, protobuf writes a message without any part as no bytes, the
  -- invariant of the center holds, and a guaranteed element is read before its lease is over. A
  -- read request on a bound socket whose operation id is that of an answer that waits is not
  -- answered: the call throws, no packet goes out, and the answers that wait stay. The queue keeps
  -- a timer for an object that is gone, which is undefined behaviour when it fires.
  pub process_read_repeated :
      IsSteady p
      → w.serialize empty_form ≡ []
      → (socket : ℕ) (r : CacheReadRequest) (h : CacheMessageHeader) (request : CacheMessage)
        (s : Server) (waiting : WaitCacheAck)
      → IsCenter s.center
      → IsPrompt r.cache_id s.center
      → 0 < socket
      → request.header ≡ some h
      → lookup h.op_id s.wait_acks ≡ some waiting
      → request.read_request ≡ some r
      → (s' : Server) × (process_read w socket request s ≡ thrown (csn error_sys_routine) s')
        × (s'.sent ≡ s.sent)
        × Dangling s s'
  unfolding process_read
  process_read_repeated steady empty socket r h request s waiting k prompt bound headed held there =
      let (ret, out, c, reads, a, k', same) =
        read_op_correct steady r.cache_id (op_id32 request) s.center k prompt in
      let s2 = remember ret out (record s { cache_id = r.cache_id; center = c }) in
      let known : lookup (header_of request).op_id s.wait_acks ≡ some waiting =
        ap (λ (x : CacheMessageHeader). lookup x.op_id s.wait_acks)
          (header_of-some request h headed)
        ∙ held in
      let (s1, answers, b) =
        answer-repeated steady (λ m. m) socket (read_response w request s2)
          (record (header_of request) { type = read_response_type }) s2 waiting k' refl known in
      (
        s1,
        subst
            (λ o.
              elim o [ none ↦ done tt s | some x ↦ serve_read w x socket request s ]
              ≡ thrown (csn error_sys_routine) s1)
            (sym there)
            (bind-done (query_cache_center w r request)
                (λ _ t. answer w (λ m. m) socket (read_response w request t) t) s
                (query-done w r request s ret out c reads)
              ∙ answers
              ∙ send-thrown socket empty_form s1 bound empty),
        b.sent,
        Dangling-of s s2 s1 refl (
            Registered-Dangling socket (read_response w request s2)
              (record (header_of request) { type = read_response_type }) s2 s1 s1 waiting known b
              refl refl),
      )

  -- The clock is not set back, protobuf writes the message with nothing but a default header as at
  -- least one byte, the invariant of the center holds, and the cache id has no element yet, or one
  -- without a lease. An update request
  -- on a bound socket whose operation id is that of an answer that waits, and has low 32 bits that
  -- are not all zero, takes effect, but what goes out is not its response: it is the message with
  -- nothing but a default header. The answers that wait stay, and the queue keeps a timer for an
  -- object that is gone, which is undefined behaviour when it fires.
  pub process_update_repeated :
      IsSteady p
      → w.serialize bare_form ≢ []
      → (socket : ℕ) (u : CacheUpdateRequest) (h : CacheMessageHeader) (request : CacheMessage)
        (s : Server) (waiting : WaitCacheAck)
      → IsCenter s.center
      → IsUnleased u.cache_id s.center
      → 0 < socket
      → request.header ≡ some h
      → 0 < h.op_id % 2 ^ 32
      → lookup h.op_id s.wait_acks ≡ some waiting
      → request.update_request ≡ some u
      → (s' : Server) × (process_update w socket request s ≡ done tt s')
        × (s'.sent ≡ s.sent ++ (socket, w.serialize bare_form) ∷ [])
        × (content s'.center u.cache_id ≡ some u.cache_data)
        × Dangling s s'
  unfolding process_update
  process_update_repeated steady written socket u h request s waiting k free bound headed numbered
        held there =
      let is_h = header_of-some request h headed in
      let is_id : op_id32 request ≡ h.op_id % 2 ^ 32 =
        ap (λ (x : CacheMessageHeader). x.op_id % 2 ^ 32) is_h in
      let (ret, expire, c, updates, z, k', same) =
        update_op_correct steady [] u.cache_id (op_id32 request) u.cache_data (update_handle socket)
          s.center k (IsUnleased-IsPromptTwice u.cache_id s.center free)
          (omega (arith, is_id, numbered)) in
      let (ok, _) =
        Updated-applied u.cache_id (op_id32 request) expire (managed_in z.c1 z.el) z.m ret
          (Target-idle [] u.cache_id s.center z.c1 z.el free z.target) z.answer in
      let s2 = updated w operation_ok request c s in
      let known : lookup (header_of request).op_id s.wait_acks ≡ some waiting =
        ap (λ (x : CacheMessageHeader). lookup x.op_id s.wait_acks) is_h ∙ held in
      let m = update_response w request u operation_ok expire in
      let g = record (header_of request) { type = update_response_type } in
      let (s1, answers, b) = answer-repeated steady printed socket m g s2 waiting k' refl known in
      let s3 = record s1 { sent = s1.sent ++ (socket, w.serialize bare_form) ∷ [] } in
      (
        s3,
        subst
            (λ o.
              elim o [ none ↦ done tt s | some x ↦ serve_update w x socket request s ] ≡ done tt s3)
            (sym there)
            (bind-done (update_cache_center w socket u request) _ s (
                update_cache_center-done w socket u request s operation_ok expire c
                  (updates ∙ ap (λ x. done (x, expire) c) ok))
              ∙ answers
              ∙ send-done w socket bare_form s1 bound written),
        ap (λ x. x ++ (socket, w.serialize bare_form) ∷ []) b.sent,
        same_map s1.center c u.cache_id b.same ∙ same u.cache_id ∙ ground (arith, ap is_ok ok),
        Dangling-of s s2 s3 refl
            (Registered-Dangling socket m g s2 s1 s3 waiting known b refl refl),
      )
