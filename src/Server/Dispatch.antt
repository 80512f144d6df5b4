-- ===== src/Server/Dispatch.antt =====
-- on_receive of protobuf_message_server_impl.h: which packets are dropped, and where the others go.
use cache_system_of_lease_me.Base.{
  ℕ, ◌-◌, ◌≤◌, ◌≡◌, ap, ◌∙◌, subst, true, false, List, none, some, arith, ltb, ◌==◌, if◌then◌else◌,
}
use cache_system_of_lease_me.Outcome.{M, done, pure}
use cache_system_of_lease_me.TimerQueue.{Platform}
use cache_system_of_lease_me.Message.{CacheMessage, CacheMessageHeader, Wire, header_available}
use cache_system_of_lease_me.Message.Header.{
  IsAvailable, IsAvailable-check_header, header_of-some, header_available-some,
  header_available-none, header_available-refuses,
}
use cache_system_of_lease_me.Server.{Server, header_of, index_of}
use cache_system_of_lease_me.Server.Operations.{
  process_read, process_update, on_process, on_receive,
}
use cache_system_of_lease_me.Server.WaitAcks.{unregister_wait_ack}

module _ (w : Wire) where
  -- The packets that are no message of the protocol.
  pub data Dropped (bytes : List ℕ) : Type 0 where
    unparsed : w.parse bytes ≡ none → Dropped bytes
    headless : (m : CacheMessage) → w.parse bytes ≡ some m → m.header ≡ none → Dropped bytes
    unavailable :
        (m : CacheMessage) (h : CacheMessageHeader)
        → w.parse bytes ≡ some m
        → m.header ≡ some h
        → ¬ IsAvailable h
        → Dropped bytes

  module _ ⦃p : Platform⦄ where
    -- The operations by the message's type: a read request, an update request, an
    -- acknowledgement, and nothing for the others.
    abbrev pub route : ℕ → ℕ → CacheMessage → ℕ → M Server (Unit {0})
    route type socket m op_id =
        if type == 0x1001
        then process_read w socket m
        else if type == 0x1003
        then process_update w socket m
        else if type == 0x1005
        then unregister_wait_ack op_id
        else pure tt

    routed :
        (type socket : ℕ) (m : CacheMessage) (s : Server)
        → 0x1001 ≤ type
        → type ≤ 0x1006
        → on_process w (type - 0x1001) socket m s ≡ route type socket m (header_of m).op_id s
    unfolding on_process
    routed type socket m s low high = ground arith

    refused :
        (socket : ℕ) (bytes : List ℕ) (m : CacheMessage) (s : Server)
        → w.parse bytes ≡ some m
        → header_available m ≡ false
        → on_receive w socket bytes s ≡ done tt s
    unfolding on_receive
    refused socket bytes m s parsed no_header = rw (parsed, on_receive, no_header)

    -- A packet that does not parse, has no header, or has one with another magic number, an
    -- unknown type or no operation id is dropped: the call returns and nothing changes.
    pub on_receive_drops :
        (socket : ℕ) (bytes : List ℕ) (s : Server)
        → Dropped bytes
        → on_receive w socket bytes s ≡ done tt s
    unfolding on_receive
    on_receive_drops socket bytes s (unparsed fails) = rw (fails, on_receive)
    on_receive_drops socket bytes s (headless m parsed missing) =
        refused socket bytes m s parsed (header_available-none m missing)
    on_receive_drops socket bytes s (unavailable m h parsed there bad) =
        refused socket bytes m s parsed (header_available-refuses m h there bad)

    -- A packet that parses to a message with an available header goes to the operation of its
    -- type; the check of the bounds of the dispatch table never throws.
    pub on_receive_routes :
        (socket : ℕ) (bytes : List ℕ) (m : CacheMessage) (h : CacheMessageHeader) (s : Server)
        → w.parse bytes ≡ some m
        → m.header ≡ some h
        → IsAvailable h
        → on_receive w socket bytes s ≡ route h.type socket m h.op_id s
    unfolding on_receive
    on_receive_routes socket bytes m h s parsed there a =
        let good : header_available m ≡ true =
          header_available-some m h there ∙ IsAvailable-check_header h a in
        let is_h = header_of-some m h there in
        let type_lem : (header_of m).type ≡ h.type = ap (λ (x : CacheMessageHeader). x.type) is_h in
        let at_index : index_of m ≡ h.type - 0x1001 = omega (arith, type_lem, a.known) in
        let in_range : ltb (h.type - 0x1001) 6 ≡ true = ground (arith, a.known) in
        rw (parsed, on_receive, good, at_index, in_range)
          (subst
            (λ (x : CacheMessageHeader).
              on_process w (h.type - 0x1001) socket m s ≡ route h.type socket m x.op_id s)
            is_h (routed h.type socket m s a.known.0 a.known.1))
