-- ===== src/Tests.antt =====
-- A platform and the states of the tests: the element 7 under a lease, and its data center.
pub mod Queue
pub mod Leases
pub mod Data
pub mod Ticks
pub mod Messages
pub mod Start
pub mod Ids
pub mod Format
pub mod EndToEnd
pub mod Clients
pub mod Packets
pub mod Traces
pub mod Lines
pub mod Repeats
use mathlib.Core.List.{Nodup-cons, Nodup-nil, not-mem-nil}
use cache_system_of_lease_me.Base.{
  ℕ, zero, suc, ◌+◌, ◌*◌, ◌≤◌, ◌<◌, ◌≡◌, ◌≢◌, refl, List, [], ◌∷◌, arith, All, Nodup, Option, none,
  some, false,
}
use cache_system_of_lease_me.Common.{UpdateCallHandler, call_handle, update_handle}
use cache_system_of_lease_me.Standard.Vector.{length}
use cache_system_of_lease_me.Standard.Heap.{IsHeap, key_at}
use cache_system_of_lease_me.Standard.Map.{lookup}
use cache_system_of_lease_me.TimerQueue.{
  Platform, IsSteady, TimerCall, guarantee_over, protection_over, EventTimer, Timers, IsValid, ids,
  expire_of,
}
use cache_system_of_lease_me.TimerQueue.Count.{count, All-map}
use cache_system_of_lease_me.StateManager.{
  CacheState, cache_idle, cache_guaranteed, cache_update_protected, CacheStateManager, new_manager,
  Managed,
}
use cache_system_of_lease_me.StateManager.Expire.{IsReady}
use cache_system_of_lease_me.StateManager.Lease.{IsLeased}
use cache_system_of_lease_me.DataCenter.{CacheElement, Center}
use cache_system_of_lease_me.DataCenter.Invariant.{IsCenter, managed_in}

abbrev pub sum : List ℕ → ℕ
sum [] = 0
sum (a ∷ ns) = a + sum ns

pub sum_fresh : (ns : List ℕ) → All (λ a. a ≤ sum ns) ns
sum_fresh [] = tt
sum_fresh (a ∷ ns) = (omega arith, All-map (λ b h. omega arith) ns (sum_fresh ns))

-- A clock that goes on by 100 milliseconds from one reading to the next.
instance abbrev pub sample : Platform
sample = record {
  clock = λ i. 1000 + 100 * i;
  new_address = λ live. suc (sum live);
  new_address_pos = λ live. omega arith;
  new_address_fresh = λ live. All-map (λ a h e. omega arith) live (sum_fresh live);
}

pub sample-IsSteady : IsSteady sample
sample-IsSteady i j h = omega arith

abbrev pub timer : TimerCall → EventTimer
timer c = record { timer_id = 1; repeat = 1; timeout_ms = 10000; expire_time = 11000; callback = c }

-- The queue with that timer, after `reads` readings of the clock.
abbrev pub queue : TimerCall → ℕ → Timers
queue c reads = record { timer_queue = timer c ∷ []; mutex = false; reads = reads }

abbrev pub manager : CacheState → CacheStateManager
manager st = record {
  timer_id = 1;
  expire_time = 11000;
  op_id = 5;
  callhandle = some (call_handle 7);
  current_state = st;
}

abbrev pub leased : ℕ → Managed
leased reads = record {
  manager = manager cache_guaranteed;
  timers = queue (guarantee_over 7) reads;
}

abbrev pub protected : ℕ → Managed
protected reads = record {
  manager = manager cache_update_protected;
  timers = queue (protection_over 7) reads;
}

pub queue-IsValid : (c : TimerCall) → IsValid (timer c ∷ [])
queue-IsValid c = record {
  heap = λ i p q. absurd (omega arith);
  distinct = Nodup-cons.1 (not-mem-nil, Nodup-nil);
  not_null = (omega arith, tt);
}

pub queue-IsReady : (c : TimerCall) (reads : ℕ) → IsReady (queue c reads)
queue-IsReady c reads = record { valid = queue-IsValid c; unheld = refl }

pub leased-IsLeased : (reads : ℕ) → IsLeased 7 (leased reads)
unfolding count
leased-IsLeased reads = record {
  ready = queue-IsReady (guarantee_over 7) reads;
  idle = λ h. absurd (cc);
  running = λ _. (omega arith, refl, refl);
  handled = λ h. absurd (cc);
  short = omega arith;
}

-- The element 7 in a data center, beside nothing else.
abbrev pub element_of : {T : Type 0} → T → CacheStateManager → CacheElement T
element_of v m = record { op_id = 0; value = v; temp_value = v; call = none; state = m }

abbrev pub center_of : {T : Type 0} → T → ℕ → Center T
center_of v reads = record {
  map = (7, element_of v (manager cache_guaranteed)) ∷ [];
  timers = queue (guarantee_over 7) reads;
}

-- With the number 42.
abbrev pub element : CacheStateManager → CacheElement ℕ
element m = element_of 42 m

abbrev pub center : ℕ → Center ℕ
center reads = center_of 42 reads
