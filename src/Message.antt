-- ===== src/Message.antt =====
-- The messages of cache_system/proto/cache_message.proto, and protobuf_message_common.h.
pub mod Header
pub mod Sending
pub mod Fitting
pub mod Forms
use cache_system_of_lease_me.Base.{
  ℕ, ◌≡◌, ◌≢◌, ◌<◌, Bool, true, false, List, [], ◌∷◌, ◌++◌, Option, none, some, ltb, ◌==◌, ◌&&◌,
  ◌||◌, not, if◌then◌else◌,
}
use cache_system_of_lease_me.Outcome.{error_sys_routine, M, done, throw}

-- `bytes`, which the C++ code sees as std::string.
abbrev pub CacheDataType : Type 0
CacheDataType = List ℕ

-- CacheMessageType. The wire may carry any 32-bit value; a negative one is its word.
abbrev pub read_request_type : ℕ
read_request_type = 0x1001

abbrev pub read_response_type : ℕ
read_response_type = 0x1002

abbrev pub update_request_type : ℕ
update_request_type = 0x1003

abbrev pub update_response_type : ℕ
update_response_type = 0x1004

abbrev pub operation_ack_type : ℕ
operation_ack_type = 0x1005

abbrev pub invalidate_cache_type : ℕ
invalidate_cache_type = 0x1006

pub record CacheMessageHeader : Type 0 where
  pub magic : ℕ
  pub version : ℕ
  pub type : ℕ
  pub op_id : ℕ

pub record CacheReadRequest : Type 0 where
  pub timestamp : ℕ
  pub expire : ℕ
  pub cache_id : ℕ

pub record CacheUpdateRequest : Type 0 where
  pub timestamp : ℕ
  pub expire : ℕ
  pub cache_id : ℕ
  pub cache_data : CacheDataType

pub record CacheOpResponse : Type 0 where
  pub result : ℕ
  pub timestamp : ℕ
  pub expire : ℕ
  pub cache_id : ℕ
  pub cache_data : CacheDataType

-- A part that is not there is `none`.
pub record CacheMessage : Type 0 where
  pub header : Option CacheMessageHeader
  pub read_request : Option CacheReadRequest
  pub update_request : Option CacheUpdateRequest
  pub op_response : Option CacheOpResponse

-- What protobuf does with the bytes on the wire.
pub record Wire : Type 0 where
  pub parse : List ℕ → Option CacheMessage
  pub serialize : CacheMessage → List ℕ

abbrev pub header_magic : ℕ
header_magic = 0x34EC27D9

-- header_available of a header that is there.
unfoldable pub check_header : CacheMessageHeader → Bool
check_header h =
    if not (h.magic == header_magic)
    then false
    else if ltb h.type read_request_type || ltb invalidate_cache_type h.type
    then false
    else not (h.op_id == 0)

unfoldable pub header_available : CacheMessage → Bool
unfolding check_header
header_available message = elim message.header [ none ↦ false | some h ↦ check_header h ]

-- protobuf writes a field that does not have its default value.
abbrev pub IsWritten : Wire → Type 0
IsWritten w =
    (m : CacheMessage) (h : CacheMessageHeader)
    → m.header ≡ some h
    → 0 < h.type
    → w.serialize m ≢ []

-- The header of a message, or the default one.
abbrev pub header_of : CacheMessage → CacheMessageHeader
header_of m = elim m.header [
  | none ↦ record { magic = 0; version = 0; type = 0; op_id = 0 }
  | some h ↦ h
]

-- ~CacheMessageRaii: every part of the message that is there is released.
abbrev pub released : CacheMessage → CacheMessage
released m = record {
  header = none;
  read_request = none;
  update_request = none;
  op_response = none;
}

-- PRINTF_MESSAGE_INFO: mutable_header makes a default header where there is none.
abbrev pub printed : CacheMessage → CacheMessage
printed m = record m { header = some (header_of m) }

module _ (w : Wire) where
  -- do_send_cache_message, over the packets that have gone out, the first one first, each with its
  -- socket. 0 stands for a null socket.
  unfoldable pub do_send_cache_message : ℕ → CacheMessage → M (List (ℕ × List ℕ)) (Unit {0})
  do_send_cache_message socket message sent =
      if socket == 0 then throw error_sys_routine sent else elim (w.serialize message) [
        | [] ↦ throw error_sys_routine sent
        | b ∷ bs ↦ done tt (sent ++ (socket, b ∷ bs) ∷ [])
      ]
