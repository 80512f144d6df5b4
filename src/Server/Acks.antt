-- ===== src/Server/Acks.antt =====
-- The end of an answer's wait (protobuf_message_server_impl.h): its acknowledgement, or the timer
-- that sends it again.
use cache_system_of_lease_me.Base.{
  ℕ, ◌<◌, ◌≡◌, ◌≢◌, refl, sym, ◌∙◌, subst, List, [], ◌∷◌, ◌++◌, none, some, arith, ◌==◌,
  if◌then◌else◌,
}
use cache_system_of_lease_me.Outcome.{done, undefined, ◌>>◌, bind-done}
use cache_system_of_lease_me.Standard.Map.{lookup, erase, lookup-erase}
use cache_system_of_lease_me.TimerQueue.{Platform}
use cache_system_of_lease_me.Message.{CacheMessage, CacheMessageHeader, Wire}
use cache_system_of_lease_me.Message.Header.{IsAvailable}
use cache_system_of_lease_me.Server.{WaitCacheAck, Server}
use cache_system_of_lease_me.Server.Operations.{on_receive}
use cache_system_of_lease_me.Server.WaitAcks.{ack_at, expire_handle, timer_handle, send}
use cache_system_of_lease_me.Server.Answers.{send-done, unregister_wait_ack-undefined}
use cache_system_of_lease_me.Server.Dispatch.{route, on_receive_routes}

module _ (w : Wire) where
  -- A packet that parses to an acknowledgement, with an available header, of an answer that waits
  -- is undefined behaviour: the answer's entry is erased, and then read for the timer that should
  -- be stopped.
  pub on_receive_ack-undefined :
      ⦃p : Platform⦄
      → (socket : ℕ) (bytes : List ℕ) (m : CacheMessage) (h : CacheMessageHeader) (s : Server)
        (ack : WaitCacheAck)
      → w.parse bytes ≡ some m
      → m.header ≡ some h
      → IsAvailable h
      → h.type ≡ 0x1005
      → lookup h.op_id s.wait_acks ≡ some ack
      → (s' : Server) × (on_receive w socket bytes s ≡ undefined s')
        × (lookup h.op_id s'.wait_acks ≡ none)
  on_receive_ack-undefined socket bytes m h s ack parsed there a is waits =
      let (s', ends, gone) = unregister_wait_ack-undefined h.op_id s ack waits in
      (
        s',
        on_receive_routes w socket bytes m h s parsed there a
            ∙ subst (λ t. route w t socket m h.op_id s ≡ undefined s') (sym is) ends,
        gone,
      )

  expire_handle-done :
      (op_id : ℕ) (s : Server) (ack : WaitCacheAck)
      → lookup op_id s.wait_acks ≡ some ack
      → expire_handle op_id s ≡ done tt (record s { wait_acks = erase op_id s.wait_acks })
  unfolding expire_handle
  expire_handle-done op_id s ack waits = rw (waits, expire_handle)

  -- The timer of an answer that waits, on a bound socket, and which is written as at least one
  -- byte, sends the answer once more and ends the wait of its operation, and of no other; the data
  -- center stays as it is.
  pub timer_handle_resends :
      (address : ℕ) (s : Server) (ack waiting : WaitCacheAck)
      → ack_at address s.wait_acks ≡ some ack
      → lookup ack.op_id s.wait_acks ≡ some waiting
      → 0 < ack.socket
      → w.serialize ack.message ≢ []
      → (s' : Server) × (timer_handle w address s ≡ done tt s')
        × (s'.sent ≡ s.sent ++ (ack.socket, w.serialize ack.message) ∷ [])
        × (lookup ack.op_id s'.wait_acks ≡ none)
        × ((j : ℕ)
            → lookup j s'.wait_acks ≡ (if ack.op_id == j then none else lookup j s.wait_acks))
        × (s'.center ≡ s.center)
  unfolding timer_handle
  timer_handle_resends address s ack waiting at_address waits bound written =
      let s1 = record s { sent = s.sent ++ (ack.socket, w.serialize ack.message) ∷ [] } in
      (
        record s1 { wait_acks = erase ack.op_id s.wait_acks },
        subst
            (λ o.
              elim o [
                | none ↦ undefined s
                | some a ↦ (send w a.socket a.message >> expire_handle a.op_id) s
              ]
              ≡ done tt (record s1 { wait_acks = erase ack.op_id s.wait_acks }))
            (sym at_address)
            (bind-done (send w ack.socket ack.message) _ s
                (send-done w ack.socket ack.message s bound written)
              ∙ expire_handle-done ack.op_id s1 waiting waits),
        refl,
        lookup-erase ack.op_id ack.op_id s.wait_acks ∙ ground arith,
        λ j. lookup-erase ack.op_id j s.wait_acks,
        refl,
      )
