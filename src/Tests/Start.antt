-- ===== src/Tests/Start.antt =====
-- The first update of a data center.
use mathlib.Core.List.{Nodup-nil}
use cache_system_of_lease_me.Base.{ℕ, ◌≡◌, refl, [], arith, false}
use cache_system_of_lease_me.Outcome.{done, pure}
use cache_system_of_lease_me.Common.{operation_ok, print_status}
use cache_system_of_lease_me.Standard.Map.{lookup, assign, emplace}
use cache_system_of_lease_me.Standard.Heap
use cache_system_of_lease_me.Standard.Vector
use cache_system_of_lease_me.TimerQueue.{Timers}
use cache_system_of_lease_me.TimerQueue
use cache_system_of_lease_me.StateManager
use cache_system_of_lease_me.StateManager.Expire.{IsReady}
use cache_system_of_lease_me.DataCenter.{Center, update_op, update_element, store}
use cache_system_of_lease_me.DataCenter.Invariant.{IsCenter}
use cache_system_of_lease_me.DataCenter.Updates.{IsPromptTwice}
use cache_system_of_lease_me.DataCenter.Steps.{updates}
use cache_system_of_lease_me.DataCenter.Moves.{calls, rest, move}
use cache_system_of_lease_me.DataCenter.Reachable.{new_center, reachable-IsCenter}
use cache_system_of_lease_me.Tests.{sample, sample-IsSteady}

abbrev idle_queue : Timers
idle_queue = record { timer_queue = []; mutex = false; reads = 0 }

idle_queue-IsReady : IsReady idle_queue
idle_queue-IsReady = record {
  valid = record { heap = λ i p q. absurd (omega arith); distinct = Nodup-nil; not_null = tt };
  unheld = refl;
}

abbrev start : Center ℕ
start = new_center idle_queue

start-IsPromptTwice : IsPromptTwice 7 start
unfolding lookup
start-IsPromptTwice el h g = absurd (cc)

-- The first update makes the element and gives it a lease.
first :
    (expire : ℕ) × (c : Center ℕ) × (update_op 0 7 42 1 print_status start
      ≡ done (operation_ok, expire) c)
unfolding update_op lookup emplace update_element store StateManager.update_op
    StateManager.update_in StateManager.set_cache_state StateManager.enter_state
    StateManager.start_expire StateManager.stop_expire TimerQueue.get_time_stamp
    TimerQueue.add_timer TimerQueue.emplace_timer TimerQueue.lock_guard TimerQueue.lock
    Heap.push_heap Heap.sift_up Heap.key_at Vector.swap assign
first = (_, _, refl)

reachable-IsCenter_example : IsCenter first.1
reachable-IsCenter_example =
    reachable-IsCenter sample-IsSteady (λ _. pure tt) (λ _. pure tt)
      (λ a c held. (record { same = refl; held = held; later = omega arith }, refl)) idle_queue
      first.1 idle_queue-IsReady refl
      (move start first.1 first.1
        (calls (
          updates 0 7 1 42 print_status operation_ok first.0 start-IsPromptTwice (omega arith)
            first.2))
        (rest first.1))
