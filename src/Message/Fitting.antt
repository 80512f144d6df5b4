-- ===== src/Message/Fitting.antt =====
-- The messages that protobuf carries over unchanged (cache_system/proto/cache_message.proto): those
-- whose numbers fit into their fields.
use cache_system_of_lease_me.Base.{◌^◌, ◌<◌, ◌≡◌, Option, none, some, All}
use cache_system_of_lease_me.Message.{
  CacheDataType, CacheMessageHeader, CacheReadRequest, CacheUpdateRequest, CacheOpResponse,
  CacheMessage, Wire,
}

abbrev pub IsBytes : CacheDataType → Type 0
IsBytes = All (λ b. b < 256)

-- The enumeration has no negative values.
abbrev pub HeaderFits : CacheMessageHeader → Type 0
HeaderFits h = (h.magic < 2 ^ 32) × (h.version < 2 ^ 32) × (h.type < 2 ^ 31) × (h.op_id < 2 ^ 64)

abbrev pub ReadFits : CacheReadRequest → Type 0
ReadFits r = (r.timestamp < 2 ^ 64) × (r.expire < 2 ^ 32) × (r.cache_id < 2 ^ 32)

abbrev pub UpdateFits : CacheUpdateRequest → Type 0
UpdateFits u =
    (u.timestamp < 2 ^ 64) × (u.expire < 2 ^ 32) × (u.cache_id < 2 ^ 32) × IsBytes u.cache_data

abbrev pub ResponseFits : CacheOpResponse → Type 0
ResponseFits r =
    (r.result < 2 ^ 32)
    × (r.timestamp < 2 ^ 64)
    × (r.expire < 2 ^ 32)
    × (r.cache_id < 2 ^ 32)
    × IsBytes r.cache_data

-- A predicate on a part that may be missing.
abbrev pub IfThere : {A : Type 0} → (A → Type 0) → Option A → Type 0
IfThere P none = Unit
IfThere P (some x) = P x

pub record IsFitting (m : CacheMessage) : Type 0 where
  pub header : IfThere HeaderFits m.header
  pub read_request : IfThere ReadFits m.read_request
  pub update_request : IfThere UpdateFits m.update_request
  pub op_response : IfThere ResponseFits m.op_response

-- What was written parses to the message that it was written from.
abbrev pub IsFaithful : Wire → Type 0
IsFaithful w = (m : CacheMessage) → IsFitting m → w.parse (w.serialize m) ≡ some m
