-- ===== src/Message/Sending.antt =====
-- do_send_cache_message of protobuf_message_common.h on a bound socket.
use cache_system_of_lease_me.Base.{
  ℕ, ◌<◌, ◌≡◌, ◌≢◌, false, List, [], ◌∷◌, ◌++◌, arith, ◌==◌, List-cases, inl, inr,
}
use cache_system_of_lease_me.Outcome.{done}
use cache_system_of_lease_me.Message.{CacheMessage, Wire, do_send_cache_message}

module _ (w : Wire) where
  -- A message that is written as at least one byte goes out.
  pub sends :
      (socket : ℕ) (message : CacheMessage) (sent : List (ℕ × List ℕ))
      → 0 < socket
      → w.serialize message ≢ []
      → do_send_cache_message w socket message sent
        ≡ done tt (sent ++ (socket, w.serialize message) ∷ [])
  unfolding do_send_cache_message
  sends socket message sent bound written =
      let tested : (socket == 0) ≡ false = ground arith in
      elim (List-cases (w.serialize message)) [
        | inl empty ↦ absurd (written empty)
        | inr (b, bs, e) ↦ rw (tested, e)
      ]
