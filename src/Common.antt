-- ===== src/Common.antt =====
-- cache_system/include/common.h: the results of operations; and the callbacks and the lease time
-- of cache_system/include/cache_data_center.h.
pub mod Remaining
use cache_system_of_lease_me.Base.{ℕ}

-- OpResult.
pub data OpResult : Type 0 where
  operation_ok operation_defer operation_retry operation_error_argument operation_error_no_data :
      OpResult

-- kDefaultExpireMillisecond.
abbrev pub default_expire_millisecond : ℕ
default_expire_millisecond = 10000

-- The values of UpdateCallHandler that the program makes: CacheElement::call_handle bound to the
-- element of a cache id, CacheUpdateRequestOperation::update_handle bound to a socket, and the
-- lambda of sample/server.cc, which prints.
pub data UpdateCallHandler : Type 0 where
  call_handle update_handle : ℕ → UpdateCallHandler
  print_status : UpdateCallHandler
