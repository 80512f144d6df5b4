-- ===== src/EndToEnd/Remaining.antt =====
-- How long a lease runs, as the server's answer tells it (protobuf_message_server_impl.h) and as the
-- client computes it (common.h).
use cache_system_of_lease_me.Base.{ℕ, ◌+◌, ◌^◌, ◌≤◌, ◌<◌, ◌≡◌}
use cache_system_of_lease_me.Common.{OpResult}
use cache_system_of_lease_me.Common.Remaining.{
  difference, expire_milliseconds_of_timestamp, expire_of_cut,
}
use cache_system_of_lease_me.Message.{CacheDataType}
use cache_system_of_lease_me.Server.{op_response_of}

-- The client's clock stands less than 2^31 milliseconds before the time stamp that the server
-- answers with, and no more than 2^31 milliseconds behind it. Then expire_milliseconds_of_timestamp
-- of the answer's `expire` is the time from the client's clock to the time stamp, negative where it
-- is over, though the field has only the low 32 bits of the time stamp.
pub remaining_of_response :
    (timestamp now cache_id : ℕ) (cache_data : CacheDataType) (r : OpResult)
    → timestamp < now + 2 ^ 31
    → now ≤ timestamp + 2 ^ 31
    → expire_milliseconds_of_timestamp (op_response_of timestamp cache_id cache_data r).expire now
      ≡ difference timestamp now
remaining_of_response timestamp now cache_id cache_data r above below =
    expire_of_cut timestamp now above below
