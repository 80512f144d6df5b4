-- ===== src/Server.antt =====
-- cache_system/include/protobuf_message_server_impl.h. The protobuf arena, which every message comes
-- from, is left out, and messages are values. A message whose parts are released (~CacheMessageRaii)
-- is read again in one place, where an answer's WaitCacheAck is not taken into the map: there the
-- answer is sent as it is after the release.
pub mod WaitAcks
pub mod Operations
pub mod Dispatch
pub mod Answers
pub mod Requests
pub mod UpdateRequests
pub mod Acks
pub mod Repeats
pub use cache_system_of_lease_me.Message.{header_of}
use cache_system_of_lease_me.Base.{
  ℕ, ◌+◌, ◌-◌, ◌%◌, ◌^◌, Bool, true, false, List, [], ◌∷◌, ◌++◌, map, Option, none, some, ltb, ◌==◌,
  not, if◌then◌else◌,
}
use cache_system_of_lease_me.Outcome.{
  error_sys_routine, M, done, undefined, ◌>>=◌, ◌>>◌, pure, throw, gets, modify, zoom,
}
use cache_system_of_lease_me.Common.{
  OpResult, operation_ok, operation_defer, operation_retry, operation_error_argument,
  operation_error_no_data, update_handle,
}
use cache_system_of_lease_me.Standard.Map.{lookup, emplace, erase}
use cache_system_of_lease_me.TimerQueue.{Platform, Timers, resend, add_timer, ids}
use cache_system_of_lease_me.DataCenter.{Center}
use cache_system_of_lease_me.DataCenter
use cache_system_of_lease_me.Message.{
  CacheDataType, CacheMessageHeader, CacheReadRequest, CacheUpdateRequest, CacheOpResponse,
  CacheMessage, Wire, header_available, read_request_type, read_response_type, update_response_type,
}

-- WaitCacheAck; `address` is the object's, and `op_id` stands in its custom handle.
pub record WaitCacheAck : Type 0 where
  pub address : ℕ
  pub socket : ℕ
  pub message : CacheMessage
  pub op_id : ℕ
  pub timer_id : ℕ

-- The objects of a server: the data center with the timer queue, the answers that wait for an
-- acknowledgement, the members of the read operation, the kept messages of the update operation,
-- and the packets that have gone out, the first one first, each with its socket. 0 stands for a
-- null socket.
pub record Server : Type 0 where
  pub center : Center CacheDataType
  pub wait_acks : List (ℕ × WaitCacheAck)
  pub timestamp : ℕ
  pub cache_id : ℕ
  pub cache_data : CacheDataType
  pub ret : OpResult
  pub defer_messages : List (ℕ × CacheMessage)
  pub sent : List (ℕ × List ℕ)

-- The constructors.
abbrev pub new_server : Timers → Server
new_server q = record {
  center = record { map = []; timers = q };
  wait_acks = [];
  timestamp = 0;
  cache_id = 0;
  cache_data = [];
  ret = operation_ok;
  defer_messages = [];
  sent = [];
}

abbrev pub on_center : {A : Type 0} → M (Center CacheDataType) A → M Server A
on_center = zoom (λ s. s.center) (λ c s. record s { center = c })

abbrev pub on_queue : {A : Type 0} → M Timers A → M Server A
on_queue = zoom (λ s. s.center.timers) (λ q s. record s { center = record s.center { timers = q } })

abbrev pub on_sent : {A : Type 0} → M (List (ℕ × List ℕ)) A → M Server A
on_sent = zoom (λ s. s.sent) (λ x s. record s { sent = x })

abbrev pub result_code : OpResult → ℕ
result_code operation_ok = 0
result_code operation_defer = 1
result_code operation_retry = 2
result_code operation_error_argument = 3
result_code operation_error_no_data = 4

-- The operation id as the operations take it, in 32 bits.
abbrev pub op_id32 : CacheMessage → ℕ
op_id32 m = (header_of m).op_id % 2 ^ 32

-- prepare_op_response: `expire` has 32 bits.
abbrev pub op_response_of : ℕ → ℕ → CacheDataType → OpResult → CacheOpResponse
op_response_of timestamp cache_id cache_data ret = record {
  result = result_code ret;
  timestamp = 0;
  expire = timestamp % 2 ^ 32;
  cache_id = cache_id;
  cache_data = cache_data;
}

-- prepare_response_message of the read and of the update operation.
abbrev pub response_to : ℕ → CacheMessage → CacheOpResponse → CacheMessage
response_to type request body = record {
  header = some (record (header_of request) { type = type });
  read_request = none;
  update_request = none;
  op_response = some body;
}

-- `(uint32_t)(type - kReadRequest)`.
abbrev pub index_of : CacheMessage → ℕ
index_of request = ((header_of request).type + (2 ^ 32 - read_request_type)) % 2 ^ 32

-- `*expire` and `*value` after the center's read, which writes them where it finds the element.
abbrev pub told_expire : Option (ℕ × CacheDataType) → ℕ → ℕ
told_expire none old = old
told_expire (some (expire, v)) old = expire

abbrev pub told_value : Option (ℕ × CacheDataType) → CacheDataType → CacheDataType
told_value none old = old
told_value (some (expire, v)) old = v

-- What the read operation remembers of the center's answer.
abbrev pub remember : OpResult → Option (ℕ × CacheDataType) → Server → Server
remember ret out s = record s {
  ret = ret;
  timestamp = told_expire out s.timestamp;
  cache_data = told_value out s.cache_data;
}

abbrev pub is_defer : OpResult → Bool
is_defer operation_ok = false
is_defer operation_defer = true
is_defer operation_retry = false
is_defer operation_error_argument = false
is_defer operation_error_no_data = false
