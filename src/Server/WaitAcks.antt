-- ===== src/Server/WaitAcks.antt =====
-- The answers that wait for an acknowledgement (WaitCacheAck and CacheWaitAcktManager of
-- protobuf_message_server_impl.h).
use cache_system_of_lease_me.Base.{
  ℕ, List, [], ◌∷◌, ◌++◌, map, Option, none, some, ◌==◌, if◌then◌else◌,
}
use cache_system_of_lease_me.Outcome.{
  error_sys_routine, M, done, undefined, ◌>>=◌, ◌>>◌, throw, gets, modify, pure,
}
use cache_system_of_lease_me.Standard.Map.{lookup, emplace, erase}
use cache_system_of_lease_me.TimerQueue.{Platform, resend, add_timer, ids}
use cache_system_of_lease_me.Message.{CacheMessage, Wire, released, do_send_cache_message}
use cache_system_of_lease_me.Server.{WaitCacheAck, Server, on_queue, on_sent}

-- CacheWaitAcktManager::expire_handle.
unfoldable pub expire_handle : ℕ → M Server (Unit {0})
unfolding lookup erase
expire_handle op_id s = elim (lookup op_id s.wait_acks) [
  | none ↦ throw error_sys_routine s
  | some ack ↦ done tt (record s { wait_acks = erase op_id s.wait_acks })
]

-- CacheWaitAcktManager::unregister_wait_ack. The ContainerIteratorRaii is a temporary, which
-- erases the entry at once; the next line reads the entry through the invalid iterator.
unfoldable pub unregister_wait_ack : ℕ → M Server (Unit {0})
unfolding lookup erase
unregister_wait_ack op_id s = elim (lookup op_id s.wait_acks) [
  | none ↦ done tt s
  | some ack ↦ undefined (record s { wait_acks = erase op_id s.wait_acks })
]

-- The waiting answer at an address.
unfoldable pub ack_at : ℕ → List (ℕ × WaitCacheAck) → Option WaitCacheAck
ack_at address [] = none
ack_at address ((_, ack) ∷ rest) = if ack.address == address then some ack else ack_at address rest

module _ (w : Wire) where
  abbrev pub send : ℕ → CacheMessage → M Server (Unit {0})
  send socket message = on_sent (do_send_cache_message w socket message)

  -- WaitCacheAck::timer_handle of the object at an address; undefined if it is gone.
  unfoldable pub timer_handle : ℕ → M Server (Unit {0})
  unfolding ack_at do_send_cache_message expire_handle
  timer_handle address s = elim (ack_at address s.wait_acks) [
    | none ↦ undefined s
    | some ack ↦ (send ack.socket ack.message >> expire_handle ack.op_id) s
  ]

  module _ ⦃p : Platform⦄ where
    -- An object of a new address.
    abbrev pub new_ack_address : Server → ℕ
    new_ack_address s =
        p.new_address (map (λ e. e.1.address) s.wait_acks ++ ids s.center.timers.timer_queue)

    -- The message after register_wait_ack. Where the operation's id waits already, `emplace` takes
    -- nothing in, and the new WaitCacheAck dies with the call: its base class, CacheMessageRaii,
    -- releases the parts of the message.
    abbrev pub left_of : Option WaitCacheAck → CacheMessage → CacheMessage
    left_of none message = message
    left_of (some waiting) message = released message

    -- CacheWaitAcktManager::register_wait_ack, from the check of the header on, with what it leaves
    -- of the message.
    unfoldable pub register_ack : ℕ → CacheMessage → ℕ → M Server CacheMessage
    unfolding lookup emplace
    register_ack socket message op_id = do
      address ← gets new_ack_address
      timer_id ← on_queue (add_timer (resend address) 500 1)
      waiting ← gets (λ s. lookup op_id s.wait_acks)
      modify (λ s. record s {
        wait_acks =
            emplace op_id
              record {
                address = address;
                socket = socket;
                message = message;
                op_id = op_id;
                timer_id = timer_id;
              }
              s.wait_acks;
      })
      pure (left_of waiting message)

    unfoldable pub register_wait_ack : ℕ → CacheMessage → M Server CacheMessage
    unfolding register_ack
    register_wait_ack socket message s = elim message.header [
      | none ↦ throw error_sys_routine s
      | some h ↦ register_ack socket message h.op_id s
    ]

    -- An answer is registered and sent; `between` is what comes between the two: nothing for a
    -- read, and PRINTF_MESSAGE_INFO for an update.
    unfoldable pub answer : (CacheMessage → CacheMessage) → ℕ → CacheMessage → M Server (Unit {0})
    unfolding register_wait_ack
    answer between socket response =
        register_wait_ack socket response >>= λ message. send socket (between message)
