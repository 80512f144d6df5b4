-- ===== src/Server/Requests.antt =====
-- The read and the update requests of the server (protobuf_message_server_impl.h), from the message
-- to the answer that goes out.
use mathlib.Core.Option
use cache_system_of_lease_me.Base.{
  ℕ, ◌%◌, ◌^◌, ◌<◌, ◌≡◌, ◌≢◌, List, refl, sym, ap, ◌∙◌, subst, [], ◌∷◌, ◌++◌, Option, none, some,
  arith,
}
use cache_system_of_lease_me.Outcome.{done, bind-done, zoom-done}
use cache_system_of_lease_me.Common.{OpResult}
use cache_system_of_lease_me.Standard.Map.{lookup}
use cache_system_of_lease_me.TimerQueue.{Platform, IsSteady}
use cache_system_of_lease_me.DataCenter.{Center}
use cache_system_of_lease_me.DataCenter
use cache_system_of_lease_me.DataCenter.Invariant.{IsCenter, content}
use cache_system_of_lease_me.DataCenter.Reads.{missed, hit, Answered, IsPrompt, read_op_correct}
use cache_system_of_lease_me.Message.{
  CacheDataType, CacheMessage, CacheMessageHeader, CacheReadRequest, Wire, IsWritten,
  read_response_type,
}
use cache_system_of_lease_me.Message.Forms.{response_form}
use cache_system_of_lease_me.Message.Header.{header_of-some}
use cache_system_of_lease_me.Server.{
  Server, on_center, header_of, op_id32, op_response_of, response_to, told_expire, told_value,
  remember, result_code, WaitCacheAck,
}
use cache_system_of_lease_me.Server.Operations.{
  query_cache_center, read_response, serve_read, process_read,
}
use cache_system_of_lease_me.Server.WaitAcks.{answer}
use cache_system_of_lease_me.Server.Answers.{answer-AnswerSent, AnswerSent-waits}

pub same_map : (c d : Center CacheDataType) (j : ℕ) → c.map ≡ d.map → content c j ≡ content d j
unfolding content
same_map c d j e = ap (λ m. Option.map (λ el. el.value) (lookup j m)) e

-- A response as it is written out field by field.
pub response_to-form :
    (type : ℕ) (request : CacheMessage) (h : CacheMessageHeader) (timestamp cache_id : ℕ)
    (cache_data : CacheDataType) (ret : OpResult)
    → request.header ≡ some h
    → response_to type request (op_response_of timestamp cache_id cache_data ret)
      ≡ response_form type h (result_code ret) (timestamp % 2 ^ 32) cache_id cache_data
response_to-form type request h timestamp cache_id cache_data ret there =
    ap (λ x. response_form type x (result_code ret) (timestamp % 2 ^ 32) cache_id cache_data)
      (header_of-some request h there)

module _ (w : Wire) ⦃p : Platform⦄ where
  pub query-done :
      (r : CacheReadRequest) (request : CacheMessage) (s : Server) (ret : OpResult)
      (out : Option (ℕ × CacheDataType)) (c : Center CacheDataType)
      → DataCenter.read_op r.cache_id (op_id32 request) s.center ≡ done (ret, out) c
      → query_cache_center w r request s
        ≡ done tt (remember ret out (record s { cache_id = r.cache_id; center = c }))
  unfolding query_cache_center
  query-done r request s ret out c reads =
      bind-done (on_center (DataCenter.read_op r.cache_id (op_id32 request))) _
        (record s { cache_id = r.cache_id })
        (zoom-done (λ (x : Server). x.center) (λ y (x : Server). record x { center = y })
          (DataCenter.read_op r.cache_id (op_id32 request)) (record s { cache_id = r.cache_id })
          reads)

  -- What goes out for a read request with the header `h`: the value and the end of the lease, or
  -- the result of no data, with the time and the data of the read request before.
  pub data ReadReply (socket : ℕ) (r : CacheReadRequest) (h : CacheMessageHeader)
      (out : Option (ℕ × CacheDataType)) (s s' : Server) : Type 0 where
    has_value :
        (expire : ℕ) (v : CacheDataType)
        → content s.center r.cache_id ≡ some v
        → out ≡ some (expire, v)
        → s'.sent
          ≡ s.sent
            ++ (socket, w.serialize (response_form 0x1002 h 0 (expire % 2 ^ 32) r.cache_id v)) ∷ []
        → ReadReply socket r h out s s'
    no_data :
        content s.center r.cache_id ≡ none
        → out ≡ none
        → s'.sent
          ≡ s.sent
            ++ (
              socket,
              w.serialize (response_form 0x1002 h 4 (s.timestamp % 2 ^ 32) r.cache_id s.cache_data),
            )
              ∷ []
        → ReadReply socket r h out s s'

  -- What a read request leaves: the center's answer, in a response that has gone out and waits for
  -- its acknowledgement.
  pub record ReadServed (socket : ℕ) (r : CacheReadRequest) (h : CacheMessageHeader) (s s' : Server)
      : Type 0 where
    pub ret : OpResult
    pub out : Option (ℕ × CacheDataType)
    pub c : Center CacheDataType
    pub answered : Answered r.cache_id s.center ret out c
    pub reply : ReadReply socket r h out s s'
    pub ack : WaitCacheAck
    pub waits : lookup h.op_id s'.wait_acks ≡ some ack
    pub others : (j : ℕ) → h.op_id ≢ j → lookup j s'.wait_acks ≡ lookup j s.wait_acks
    pub kept : IsCenter s'.center
    pub values : (j : ℕ) → content s'.center j ≡ content s.center j
    pub deferred : s'.defer_messages ≡ s.defer_messages

  sent_out : ℕ → CacheMessage → Server → List (ℕ × List ℕ)
  sent_out socket m s = s.sent ++ (socket, w.serialize m) ∷ []

  Answered-ReadReply :
      (socket : ℕ) (r : CacheReadRequest) (h : CacheMessageHeader) (ret : OpResult)
      (out : Option (ℕ × CacheDataType)) (c : Center CacheDataType) (s s' : Server)
      → Answered r.cache_id s.center ret out c
      → s'.sent
        ≡ sent_out socket
            (response_form 0x1002 h
              (result_code ret)
              (told_expire out s.timestamp % 2 ^ 32)
              r.cache_id
              (told_value out s.cache_data))
            s
      → ReadReply socket r h out s s'
  unfolding sent_out
  Answered-ReadReply socket r h ret out c s s' (missed nothing is none_out x) sends =
      no_data nothing none_out (
        sends ∙ (λ i.
          sent_out socket
            (response_form 0x1002 h (result_code (is i))
              (told_expire (none_out i) s.timestamp % 2 ^ 32) r.cache_id
              (told_value (none_out i) s.cache_data))
            s))
  Answered-ReadReply socket r h ret out c s s' (hit el m expire x there is some_out a left) sends =
      has_value expire el.value there some_out (
        sends ∙ (λ i.
          sent_out socket
            (response_form 0x1002 h (result_code (is i))
              (told_expire (some_out i) s.timestamp % 2 ^ 32) r.cache_id
              (told_value (some_out i) s.cache_data))
            s))

  -- The clock is not set back, protobuf writes no message with a header as no bytes, the invariant
  -- of the center holds, a guaranteed element is read before its lease is over, and no answer to
  -- the operation's id waits. A read request on a bound socket is answered: the response goes out
  -- with the header of the request but for the type, and with the result ok, the value and the
  -- lease's end in 32 bits; where the center has no data, with the result that says so, and the
  -- time and the data of the read request before. The answer waits for its acknowledgement beside
  -- the others, and the invariant and the values of the center are kept.
  pub process_read-ReadServed :
      IsSteady p
      → IsWritten w
      → (socket : ℕ) (r : CacheReadRequest) (h : CacheMessageHeader) (request : CacheMessage)
        (s : Server)
      → IsCenter s.center
      → IsPrompt r.cache_id s.center
      → 0 < socket
      → request.header ≡ some h
      → lookup h.op_id s.wait_acks ≡ none
      → request.read_request ≡ some r
      → (s' : Server) × (process_read w socket request s ≡ done tt s') × ReadServed socket r h s s'
  unfolding process_read sent_out
  process_read-ReadServed steady writes socket r h request s k prompt bound headed fresh there =
      let (ret, out, c, reads, a, k', same) =
        read_op_correct steady r.cache_id (op_id32 request) s.center k prompt in
      let s2 = remember ret out (record s { cache_id = r.cache_id; center = c }) in
      let is_h = header_of-some request h headed in
      let unknown : lookup (header_of request).op_id s.wait_acks ≡ none =
        ap (λ (x : CacheMessageHeader). lookup x.op_id s.wait_acks) is_h ∙ fresh in
      let (s', answers, b) =
        answer-AnswerSent w steady (λ m. m) socket (read_response w request s2)
          (record (header_of request) { type = read_response_type }) s2 k' bound refl refl unknown
          (writes _ _ refl (omega arith)) in
      let (waits, others) =
        AnswerSent-waits w socket (read_response w request s2)
          (record (header_of request) { type = read_response_type }) h s2 s' b unknown
          (ap (λ (x : CacheMessageHeader). x.op_id) is_h) in
      (
        s',
        subst
            (λ o.
              elim o [ none ↦ done tt s | some x ↦ serve_read w x socket request s ] ≡ done tt s')
            (sym there)
            (bind-done (query_cache_center w r request)
                (λ _ t. answer w (λ m. m) socket (read_response w request t) t) s
                (query-done r request s ret out c reads)
              ∙ answers),
        record {
          ret = ret;
          out = out;
          c = c;
          answered = a;
          reply = Answered-ReadReply socket r h ret out c s s' a (
              b.sent
              ∙ ap (λ m. sent_out socket m s)
                  (response_to-form read_response_type request h (told_expire out s.timestamp)
                    r.cache_id (told_value out s.cache_data) ret headed));
          ack = b.ack;
          waits = waits;
          others = others;
          kept = b.kept;
          values = λ j. same_map s'.center c j b.same ∙ same j;
          deferred = b.deferred;
        },
      )
