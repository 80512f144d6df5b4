-- ===== src/Client/Responses.antt =====
-- on_receive of protobuf_message_client_impl.h: which packets a client ignores, refuses and answers.
use cache_system_of_lease_me.Base.{
  ℕ, ◌<◌, ◌≡◌, ◌≢◌, refl, sym, ap, ◌∙◌, Bool-cases, inl, inr, true, false, List, [], ◌∷◌, ◌++◌,
  none, some, arith, ◌==◌, if◌then◌else◌,
}
use cache_system_of_lease_me.Outcome.{
  csn, error_sys_routine, done, thrown, ◌>>◌, bind-done, bind-same, bind-thrown, zoom-done,
}
use cache_system_of_lease_me.Standard.Map.{lookup, erase, lookup-erase}
use cache_system_of_lease_me.Message.{
  CacheMessage, CacheMessageHeader, CacheOpResponse, Wire, header_available, do_send_cache_message,
}
use cache_system_of_lease_me.Message.Header.{
  IsAvailable, IsAvailable-check_header, check_header-IsAvailable, header_of-some,
  header_available-some, header_available-none, header_available-refuses,
}
use cache_system_of_lease_me.Message.Forms.{ack_form}
use cache_system_of_lease_me.Message.Sending.{sends}
use cache_system_of_lease_me.Client.{
  CacheClientOperation, Client, Handles, send, end_request, handle_response, process_response,
  match_request, on_receive,
}

module _ (w : Wire) where
  pub send-done :
      (socket : ℕ) (message : CacheMessage) (s : Client)
      → 0 < socket
      → w.serialize message ≢ []
      → send w socket message s
        ≡ done tt (record s { sent = s.sent ++ (socket, w.serialize message) ∷ [] })
  send-done socket message s bound written =
      zoom-done (λ (x : Client). x.sent) (λ y (x : Client). record x { sent = y })
        (do_send_cache_message w socket message) s (sends w socket message s.sent bound written)

  -- The packets that are no message of the protocol, or are of an operation that does not wait.
  pub data IsIgnored (bytes : List ℕ) (s : Client) : Type 0 where
    unparsed : w.parse bytes ≡ none → IsIgnored bytes s
    headless : (m : CacheMessage) → w.parse bytes ≡ some m → m.header ≡ none → IsIgnored bytes s
    unavailable :
        (m : CacheMessage) (h : CacheMessageHeader)
        → w.parse bytes ≡ some m
        → m.header ≡ some h
        → ¬ IsAvailable h
        → IsIgnored bytes s
    unknown :
        (m : CacheMessage) (h : CacheMessageHeader)
        → w.parse bytes ≡ some m
        → m.header ≡ some h
        → lookup h.op_id s.requests ≡ none
        → IsIgnored bytes s

  -- The messages that are no response to the request.
  pub data IsWrong (op : CacheClientOperation) (m : CacheMessage) : Type 0 where
    no_response : m.op_response ≡ none → IsWrong op m
    other_id :
        (r : CacheOpResponse) → m.op_response ≡ some r → r.cache_id ≢ op.cache_id → IsWrong op m

  module _ (handles : Handles) where
    on_receive_asks :
        (bytes : List ℕ) (m : CacheMessage) (h : CacheMessageHeader) (s : Client)
        → w.parse bytes ≡ some m
        → m.header ≡ some h
        → IsAvailable h
        → on_receive w handles bytes s ≡ match_request w handles h.op_id m s
    unfolding on_receive
    on_receive_asks bytes m h s parsed there a =
        let good : header_available m ≡ true =
          header_available-some m h there ∙ IsAvailable-check_header h a in
        let is_h = header_of-some m h there in
        rw (parsed, on_receive, good)
          (ap (λ (x : CacheMessageHeader). match_request w handles x.op_id m s) is_h)

    match_request-none :
        (op_id : ℕ) (m : CacheMessage) (s : Client)
        → lookup op_id s.requests ≡ none
        → match_request w handles op_id m s ≡ done tt s
    unfolding match_request
    match_request-none op_id m s missing = rw (missing, match_request)

    match_request-some :
        (op_id : ℕ) (m : CacheMessage) (s : Client) (op : CacheClientOperation)
        → lookup op_id s.requests ≡ some op
        → match_request w handles op_id m s
          ≡ (process_response w handles op m >> end_request w op_id) s
    unfolding match_request
    match_request-some op_id m s op waits = rw (waits, match_request)

    turned_down :
        (bytes : List ℕ) (m : CacheMessage) (s : Client)
        → w.parse bytes ≡ some m
        → header_available m ≡ false
        → on_receive w handles bytes s ≡ done tt s
    unfolding on_receive
    turned_down bytes m s parsed bad = rw (parsed, on_receive, bad)

    -- A packet that does not parse, has no header, has one with another magic number, an unknown
    -- type or no operation id, or belongs to an operation that does not wait for a response, is
    -- ignored: the call returns and nothing changes.
    pub on_receive_ignores :
        (bytes : List ℕ) (s : Client) → IsIgnored bytes s → on_receive w handles bytes s ≡ done tt s
    unfolding on_receive
    on_receive_ignores bytes s (unparsed fails) = rw (fails, on_receive)
    on_receive_ignores bytes s (headless m parsed missing) =
        turned_down bytes m s parsed (header_available-none m missing)
    on_receive_ignores bytes s (unavailable m h parsed there bad) =
        turned_down bytes m s parsed (header_available-refuses m h there bad)
    on_receive_ignores bytes s (unknown m h parsed there missing) =
        elim (Bool-cases (header_available m)) [
          | inl good ↦
              on_receive_asks bytes m h s parsed there
                (check_header-IsAvailable h (sym (header_available-some m h there) ∙ good))
              ∙ match_request-none h.op_id m s missing
          | inr bad ↦ turned_down bytes m s parsed bad
        ]

    process_response-refused :
        (op : CacheClientOperation) (m : CacheMessage) (s : Client)
        → IsWrong op m
        → process_response w handles op m s ≡ thrown (csn error_sys_routine) s
    unfolding process_response
    process_response-refused op m s (no_response missing) = rw (missing, process_response)
    process_response-refused op m s (other_id r there other) =
        let tested : (op.cache_id == r.cache_id) ≡ false = ground arith in
        rw (there, process_response, tested)

    -- A message of an operation that waits, with an available header, but without a response or
    -- with the response for another cache id, is refused with an exception: the handle is not
    -- called, no acknowledgement goes out, and the operation waits on.
    pub on_receive_refuses :
        (bytes : List ℕ) (m : CacheMessage) (h : CacheMessageHeader) (s : Client)
        (op : CacheClientOperation)
        → w.parse bytes ≡ some m
        → m.header ≡ some h
        → IsAvailable h
        → lookup h.op_id s.requests ≡ some op
        → IsWrong op m
        → on_receive w handles bytes s ≡ thrown (csn error_sys_routine) s
    on_receive_refuses bytes m h s op parsed there a waits wrong =
        on_receive_asks bytes m h s parsed there a
        ∙ match_request-some h.op_id m s op waits
        ∙ bind-thrown (process_response w handles op m) _ s (process_response-refused op m s wrong)

    process_response-handled :
        (op : CacheClientOperation) (m : CacheMessage) (r : CacheOpResponse) (s : Client)
        → m.op_response ≡ some r
        → r.cache_id ≡ op.cache_id
        → process_response w handles op m s ≡ handle_response w handles op r s
    unfolding process_response
    process_response-handled op m r s there same =
        let tested : (op.cache_id == r.cache_id) ≡ true = ground arith in
        rw (there, process_response, tested)

    -- The response to a request that waits goes to its handle, and after that an acknowledgement
    -- out.
    pub on_receive_matches :
        (bytes : List ℕ) (m : CacheMessage) (h : CacheMessageHeader) (r : CacheOpResponse)
        (s : Client) (op : CacheClientOperation)
        → w.parse bytes ≡ some m
        → m.header ≡ some h
        → IsAvailable h
        → lookup h.op_id s.requests ≡ some op
        → m.op_response ≡ some r
        → r.cache_id ≡ op.cache_id
        → on_receive w handles bytes s ≡ (handle_response w handles op r >> end_request w h.op_id) s
    on_receive_matches bytes m h r s op parsed there a waits response same =
        on_receive_asks bytes m h s parsed there a
        ∙ match_request-some h.op_id m s op waits
        ∙ bind-same (process_response w handles op m) (handle_response w handles op r) _ s
            (process_response-handled op m r s response same)

    end_request-done :
        (op_id : ℕ) (s : Client) (op : CacheClientOperation)
        → lookup op_id s.requests ≡ some op
        → end_request w op_id s ≡ done tt (record s { requests = erase op_id s.requests })
    unfolding end_request
    end_request-done op_id s op waits = rw (waits, end_request)

    -- A packet is a response, with an available header, to an operation that waits, and has its
    -- cache id; the operation has a bound socket, its acknowledgement is written as at least one
    -- byte, and its handle returns and leaves its entry there. Then the handle has been called with
    -- the result, the lease's end and the data of the response; the acknowledgement goes out after
    -- that, with the protocol's header, its type and the operation's id; and the operation waits no longer, others being as the handle
    -- left them.
    pub on_receive_completes :
        (bytes : List ℕ) (m : CacheMessage) (h : CacheMessageHeader) (r : CacheOpResponse)
        (s s1 : Client) (op op1 : CacheClientOperation)
        → w.parse bytes ≡ some m
        → m.header ≡ some h
        → IsAvailable h
        → lookup h.op_id s.requests ≡ some op
        → m.op_response ≡ some r
        → r.cache_id ≡ op.cache_id
        → handles op.handle r.result r.expire r.cache_id r.cache_data s ≡ done tt s1
        → lookup h.op_id s1.requests ≡ some op1
        → 0 < op.socket
        → w.serialize (ack_form op.op_id) ≢ []
        → (s' : Client) × (on_receive w handles bytes s ≡ done tt s')
          × (s'.sent ≡ s1.sent ++ (op.socket, w.serialize (ack_form op.op_id)) ∷ [])
          × ((j : ℕ) → lookup j s'.requests ≡ (if h.op_id == j then none else lookup j s1.requests))
    on_receive_completes bytes m h r s s1 op op1 parsed there a waits response same returns kept
          bound written =
        let s2 = record s1 {
          sent = s1.sent ++ (op.socket, w.serialize (ack_form op.op_id)) ∷ [];
        } in
        (
          record s2 { requests = erase h.op_id s1.requests },
          on_receive_matches bytes m h r s op parsed there a waits response same
              ∙ bind-done (handle_response w handles op r) _ s (
                  bind-done (handles op.handle r.result r.expire r.cache_id r.cache_data) _ s
                    returns
                  ∙ send-done op.socket (ack_form op.op_id) s1 bound written)
              ∙ end_request-done h.op_id s2 op1 kept,
          refl,
          λ j. lookup-erase h.op_id j s1.requests,
        )
