-- ===== src/Server/Answers.antt =====
-- The answers of the server (protobuf_message_server_impl.h): register_wait_ack, the sending, and
-- what an acknowledgement does.
use cache_system_of_lease_me.Base.{
  ℕ, ◌<◌, ◌≡◌, ◌≢◌, refl, sym, ◌∙◌, subst, ap, All, map, List, Bool, false, [], ◌∷◌, ◌++◌, none,
  some, arith,
}
use cache_system_of_lease_me.Outcome.{
  done, throw, error_sys_routine, undefined, bind-done, zoom-done,
}
use cache_system_of_lease_me.Standard.Map.{lookup, emplace, erase, lookup-erase, lookup-emplace}
use cache_system_of_lease_me.TimerQueue.{
  Platform, IsSteady, resend, Timers, EventTimer, add_timer, ids,
}
use cache_system_of_lease_me.TimerQueue.Count.{count, count-perm, count-cons}
use cache_system_of_lease_me.TimerQueue.Queue.{new_timer, Added, add_timer-Added}
use cache_system_of_lease_me.StateManager.Lease.{mine, pending}
use cache_system_of_lease_me.DataCenter.{Center}
use cache_system_of_lease_me.DataCenter.Invariant.{IsCenter, Retains-IsCenter}
use cache_system_of_lease_me.Message.{CacheMessage, CacheMessageHeader, Wire, do_send_cache_message}
use cache_system_of_lease_me.Message.Sending.{sends}
use cache_system_of_lease_me.Server.{WaitCacheAck, Server, on_queue}
use cache_system_of_lease_me.Server.WaitAcks.{
  new_ack_address, left_of, send, register_wait_ack, register_ack, answer, unregister_wait_ack,
}

All-front : (P : ℕ → Type 0) (xs ys : List ℕ) → All P (xs ++ ys) → All P xs
All-front P [] ys h = tt
All-front P (x ∷ xs) ys h = (h.0, All-front P xs ys h.1)

module _ ⦃p : Platform⦄ where
  Added-same :
      (P : EventTimer → Bool) (a : ℕ) (q q' : Timers)
      → Added (resend a) 500 1 q q'
      → P (new_timer (resend a) 500 1 q) ≡ false
      → count P q'.timer_queue ≡ count P q.timer_queue
  Added-same P a q q' b unseen = ground (
    arith,
    unseen,
    count-perm P b.same,
    count-cons P (new_timer (resend a) 500 1 q) q.timer_queue,
  )

module _ {T : Type 0} ⦃p : Platform⦄ where
  -- The timer of an answer is no element's.
  Added-IsCenter :
      IsSteady p
      → (a : ℕ) (c : Center T) (q : Timers) → IsCenter c
      → Added (resend a) 500 1 c.timers q
      → IsCenter (record c { timers = q })
  Added-IsCenter steady a c q k b = Retains-IsCenter steady c q k (record {
    ready = record { valid = b.valid; unheld = b.unheld };
    later = omega (arith, b.one_read);
    mine_lem = λ e. Added-same (mine e) a c.timers q b (ground arith);
    pending_lem = λ e m. Added-same (pending e m) a c.timers q b (ground arith);
  })

module _ (w : Wire) where
  pub send-done :
      (socket : ℕ) (message : CacheMessage) (s : Server)
      → 0 < socket
      → w.serialize message ≢ []
      → send w socket message s
        ≡ done tt (record s { sent = s.sent ++ (socket, w.serialize message) ∷ [] })
  send-done socket message s bound written =
      zoom-done (λ (x : Server). x.sent) (λ y (x : Server). record x { sent = y })
        (do_send_cache_message w socket message) s (sends w socket message s.sent bound written)

  module _ ⦃p : Platform⦄ where
    -- What register_wait_ack leaves of the server: an entry for the answer unless the operation had
    -- one, and a timer in the queue for the object at a new address.
    pub record Registered (socket : ℕ) (message : CacheMessage) (h : CacheMessageHeader)
        (s s' : Server) : Type 0 where
      pub kept : IsCenter s'.center
      pub same : s'.center.map ≡ s.center.map
      pub sent : s'.sent ≡ s.sent
      pub ack : WaitCacheAck
      pub ack_message : ack.message ≡ message
      pub ack_op_id : ack.op_id ≡ h.op_id
      pub new_address : All (λ a. a ≢ ack.address) (map (λ e. e.1.address) s.wait_acks)
      pub waits : s'.wait_acks ≡ emplace h.op_id ack s.wait_acks
      pub armed_timer : Added (resend ack.address) 500 1 s.center.timers s'.center.timers
      pub deferred : s'.defer_messages ≡ s.defer_messages

    pub register_wait_ack-Registered :
        IsSteady p
        → (socket : ℕ) (message : CacheMessage) (h : CacheMessageHeader) (s : Server)
        → IsCenter s.center
        → message.header ≡ some h
        → (s' : Server) × (register_wait_ack w socket message s
            ≡ done (left_of w (lookup h.op_id s.wait_acks) message) s')
          × Registered socket message h s s'
    unfolding register_wait_ack register_ack
    register_wait_ack-Registered steady socket message h s k there =
        let address = new_ack_address w s in
        let (q, adds, b) =
          add_timer-Added (resend address) 500 1 s.center.timers k.ready.valid k.ready.unheld
            (omega arith) in
        let ack : WaitCacheAck = record {
          address = address;
          socket = socket;
          message = message;
          op_id = h.op_id;
          timer_id = (new_timer (resend address) 500 1 s.center.timers).timer_id;
        } in
        let s1 = record s {
          center = record s.center { timers = q };
          wait_acks = emplace h.op_id ack s.wait_acks;
        } in
        let m1 = left_of w (lookup h.op_id s.wait_acks) message in
        let registers : register_ack w socket message h.op_id s ≡ done m1 s1 =
          bind-done (on_queue (add_timer (resend address) 500 1)) _ s (
            zoom-done (λ (x : Server). x.center.timers)
              (λ t (x : Server). record x { center = record x.center { timers = t } })
              (add_timer (resend address) 500 1) s adds) in
        (
          s1,
          subst
              (λ o.
                elim o [
                  | none ↦ throw error_sys_routine s
                  | some h' ↦ register_ack w socket message h'.op_id s
                ]
                ≡ done m1 s1)
              (sym there) registers,
          record {
            kept = Added-IsCenter steady address s.center q k b;
            same = refl;
            sent = refl;
            ack = ack;
            ack_message = refl;
            ack_op_id = refl;
            new_address =
                All-front (λ a. a ≢ address) (map (λ e. e.1.address) s.wait_acks)
                  (ids s.center.timers.timer_queue)
                  (p.new_address_fresh
                    (map (λ e. e.1.address) s.wait_acks ++ ids s.center.timers.timer_queue));
            waits = refl;
            armed_timer = b;
            deferred = refl;
          },
        )

    -- What an answer leaves: it has gone out, its entry waits, and a timer for it runs in the
    -- queue.
    pub record AnswerSent (socket : ℕ) (message : CacheMessage) (h : CacheMessageHeader)
        (s s' : Server) : Type 0 where
      pub kept : IsCenter s'.center
      pub same : s'.center.map ≡ s.center.map
      pub sent : s'.sent ≡ s.sent ++ (socket, w.serialize message) ∷ []
      pub ack : WaitCacheAck
      pub ack_message : ack.message ≡ message
      pub ack_op_id : ack.op_id ≡ h.op_id
      pub waits : s'.wait_acks ≡ emplace h.op_id ack s.wait_acks
      pub armed_timer : Added (resend ack.address) 500 1 s.center.timers s'.center.timers
      pub deferred : s'.defer_messages ≡ s.defer_messages

    -- An answer with a header, on a bound socket, of an operation that does not wait, goes out and
    -- waits for its acknowledgement.
    pub answer-AnswerSent :
        IsSteady p
        → (between : CacheMessage → CacheMessage) (socket : ℕ) (message : CacheMessage)
          (h : CacheMessageHeader) (s : Server)
        → IsCenter s.center
        → 0 < socket
        → message.header ≡ some h
        → between message ≡ message
        → lookup h.op_id s.wait_acks ≡ none
        → w.serialize message ≢ []
        → (s' : Server) × (answer w between socket message s ≡ done tt s')
          × AnswerSent socket message h s s'
    unfolding answer
    answer-AnswerSent steady between socket message h s k bound there same fresh written =
        let (s1, registers, r) = register_wait_ack-Registered steady socket message h s k there in
        let left : between (left_of w (lookup h.op_id s.wait_acks) message) ≡ message =
          ap (λ o. between (left_of w o message)) fresh ∙ same in
        (
          record s1 { sent = s1.sent ++ (socket, w.serialize message) ∷ [] },
          bind-done (register_wait_ack w socket message) (λ m. send w socket (between m)) s
                registers
              ∙ ap (λ m. send w socket m s1) left
              ∙ send-done socket message s1 bound written,
          record {
            kept = r.kept;
            same = r.same;
            sent = ap (λ x. x ++ (socket, w.serialize message) ∷ []) r.sent;
            ack = r.ack;
            ack_message = r.ack_message;
            ack_op_id = r.ack_op_id;
            waits = r.waits;
            armed_timer = r.armed_timer;
            deferred = r.deferred;
          },
        )

    -- The entry of an answer stands beside those of the others.
    pub AnswerSent-waits :
        (socket : ℕ) (message : CacheMessage) (h g : CacheMessageHeader) (s s' : Server)
        → (b : AnswerSent socket message h s s') → lookup h.op_id s.wait_acks ≡ none
        → h.op_id ≡ g.op_id
        → (lookup g.op_id s'.wait_acks ≡ some b.ack)
          × ((j : ℕ) → g.op_id ≢ j → lookup j s'.wait_acks ≡ lookup j s.wait_acks)
    AnswerSent-waits socket message h g s s' b fresh same = (
      ap (lookup g.op_id) b.waits
          ∙ lookup-emplace h.op_id g.op_id b.ack s.wait_acks fresh
          ∙ ground (arith, same),
      λ j other.
          ap (lookup j) b.waits
          ∙ lookup-emplace h.op_id j b.ack s.wait_acks fresh
          ∙ ground (arith, same, other),
    )

-- The acknowledgement of an answer that waits erases its entry and then reads it: undefined
-- behaviour. One that does not wait changes nothing.
pub unregister_wait_ack-undefined :
    (op_id : ℕ) (s : Server) (ack : WaitCacheAck)
    → lookup op_id s.wait_acks ≡ some ack
    → (s' : Server) × (unregister_wait_ack op_id s ≡ undefined s')
      × (lookup op_id s'.wait_acks ≡ none)
unfolding unregister_wait_ack
unregister_wait_ack-undefined op_id s ack found = (
  record s { wait_acks = erase op_id s.wait_acks },
  rw (found, unregister_wait_ack),
  lookup-erase op_id op_id s.wait_acks ∙ ground arith,
)
