-- ===== src/StateManager.antt =====
-- cache_system/include/cache_state_manager.h: the lease of one cache element as a state machine
-- over the timer queue. `this` is the cache id of the element that holds the manager; it stands
-- in the closures that the manager hands to the queue.
pub mod Expire
pub mod Lease
pub mod Isolation
pub mod Operations
pub mod Updates
pub mod Refusals
pub mod Expiry
pub mod Late
pub mod Front
pub mod Holding
use cache_system_of_lease_me.Base.{
  ℕ, ◌+◌, ◌-◌, ◌%◌, ◌^◌, ◌<◌, ◌≡◌, Bool, true, false, Option, none, some, ltb, ◌==◌, ◌&&◌, ◌||◌,
  if◌then◌else◌,
}
use cache_system_of_lease_me.Outcome.{
  error_ill_argument, error_sys_routine, M, done, ◌>>=◌, ◌>>◌, pure, throw, gets, modify, zoom,
}
use cache_system_of_lease_me.Common.{
  OpResult, operation_ok, operation_defer, operation_retry, default_expire_millisecond,
  UpdateCallHandler,
}
use cache_system_of_lease_me.TimerQueue.{
  Platform, TimerCall, guarantee_over, protection_over, Timers, get_time_stamp, add_timer,
  del_timer,
}

-- CacheState, and with it the object of `states_` that the manager stands in.
pub data CacheState : Type 0 where
  cache_idle cache_guaranteed cache_update_protected : CacheState

pub record CacheStateManager : Type 0 where
  pub timer_id : ℕ
  pub expire_time : ℕ
  pub op_id : ℕ
  pub callhandle : Option UpdateCallHandler
  pub current_state : CacheState

-- The constructor.
abbrev pub new_manager : CacheStateManager
new_manager = record {
  timer_id = 0;
  expire_time = 0;
  op_id = 0;
  callhandle = none;
  current_state = cache_idle;
}

-- The manager and the timer queue, on which its methods act.
pub record Managed : Type 0 where
  pub manager : CacheStateManager
  pub timers : Timers

abbrev pub with_timers : Timers → Managed → Managed
with_timers q s = record s { timers = q }

abbrev pub with_manager : (CacheStateManager → CacheStateManager) → Managed → Managed
with_manager f s = record s { manager = f s.manager }

abbrev pub on_queue : {A : Type 0} → M Timers A → M Managed A
on_queue = zoom (λ s. s.timers) with_timers

abbrev pub set_timer_id : ℕ → M Managed (Unit {0})
set_timer_id id = modify (with_manager (λ m. record m { timer_id = id }))

abbrev pub set_expire_time : ℕ → M Managed (Unit {0})
set_expire_time t = modify (with_manager (λ m. record m { expire_time = t }))

abbrev pub set_op_id : ℕ → M Managed (Unit {0})
set_op_id id = modify (with_manager (λ m. record m { op_id = id }))

abbrev pub set_call_handle : Option UpdateCallHandler → M Managed (Unit {0})
set_call_handle f = modify (with_manager (λ m. record m { callhandle = f }))

abbrev pub expire_time : M Managed ℕ
expire_time = gets (λ s. s.manager.expire_time)

-- `(int32_t)(expire - now)` as a 32-bit word, and whether that integer is positive.
unfoldable pub timer_delay : ℕ → ℕ → ℕ
timer_delay expire now = (expire + (2 ^ 32 - now % 2 ^ 32)) % 2 ^ 32

abbrev pub is_positive32 : ℕ → Bool
is_positive32 w = ltb 0 w && ltb w (2 ^ 31)

abbrev pub is_null : Option UpdateCallHandler → Bool
is_null none = true
is_null (some f) = false

module _ ⦃p : Platform⦄ where
  -- Disarms the running timer, if the lease has not run out.
  unfoldable pub stop_expire : M Managed (Unit {0})
  unfolding get_time_stamp del_timer
  stop_expire s =
      if s.manager.timer_id == 0
      then done tt s
      else (do
        now ← on_queue (get_time_stamp 0)
        if ltb now s.manager.expire_time
            then on_queue (del_timer s.manager.timer_id) >> set_timer_id 0
            else pure tt)
          s

  unfoldable pub start_expire : TimerCall → ℕ → M Managed (Unit {0})
  unfolding get_time_stamp
  start_expire call_back timeout_ms = do
    stop_expire
    expire ← on_queue (get_time_stamp timeout_ms)
    set_expire_time expire
    id ← on_queue (add_timer call_back timeout_ms 1)
    set_timer_id id

  -- CacheUpdateProtectedState::enter_state.
  unfoldable pub enter_protected : ℕ → M Managed (Unit {0})
  unfolding get_time_stamp timer_delay
  enter_protected this = do
    expire ← expire_time
    now ← on_queue (get_time_stamp 0)
    let delay = timer_delay expire now
    if is_positive32 delay
        then start_expire (protection_over this) delay
        else throw error_sys_routine

  -- enter_state of the three states.
  unfoldable pub enter_state : ℕ → CacheState → M Managed (Unit {0})
  enter_state this cache_idle = set_timer_id 0 >> set_expire_time 0
  enter_state this cache_guaranteed = start_expire (guarantee_over this) default_expire_millisecond
  enter_state this cache_update_protected = enter_protected this

  unfoldable pub set_cache_state : ℕ → CacheState → M Managed (Unit {0})
  set_cache_state this state =
      enter_state this state >> modify (with_manager (λ m. record m { current_state = state }))

  -- Renews the lease and hands its end out.
  abbrev pub guarantee : ℕ → M Managed (OpResult × ℕ)
  guarantee this = do
    set_cache_state this cache_guaranteed
    expire ← expire_time
    pure (operation_ok, expire)

  -- read_op of the three states. The second part of the result is what `*tp` receives.
  unfoldable pub read_in : CacheState → ℕ → ℕ → M Managed (OpResult × ℕ)
  unfolding get_time_stamp
  read_in cache_idle this op_id = guarantee this
  read_in cache_guaranteed this op_id = set_op_id op_id >> guarantee this
  read_in cache_update_protected this op_id = do
    now ← on_queue (get_time_stamp 0)
    pure (operation_ok, now)

  unfoldable pub read_op : ℕ → ℕ → M Managed (OpResult × ℕ)
  read_op this op_id s = read_in s.manager.current_state this op_id s

  -- update_op of the three states.
  unfoldable pub update_in :
      CacheState → ℕ → ℕ → Option UpdateCallHandler → M Managed (OpResult × ℕ)
  update_in cache_idle this op_id f = guarantee this
  update_in cache_guaranteed this op_id f =
      if op_id == 0 || is_null f then throw error_ill_argument else (do
        set_op_id op_id
        set_call_handle f
        set_cache_state this cache_update_protected
        expire ← expire_time
        pure (operation_defer, expire))
  update_in cache_update_protected this op_id f =
      if op_id == 0
      then throw error_ill_argument
      else (do expire ← expire_time; pure (operation_retry, expire))

  unfoldable pub update_op : ℕ → ℕ → Option UpdateCallHandler → M Managed (OpResult × ℕ)
  update_op this op_id f s = update_in s.manager.current_state this op_id f s

  -- The closure of CacheGuaranteedState::enter_state.
  unfoldable pub on_guarantee_over : ℕ → M Managed (Unit {0})
  on_guarantee_over this = set_cache_state this cache_idle

  -- The closure of CacheUpdateProtectedState::enter_state up to the call of the handler, and the
  -- handler with its arguments.
  unfoldable pub on_protection_over : ℕ → M Managed (Option UpdateCallHandler × ℕ × ℕ)
  on_protection_over this = do
    set_cache_state this cache_guaranteed
    gets (λ s. (s.manager.callhandle, s.manager.op_id, s.manager.expire_time))
