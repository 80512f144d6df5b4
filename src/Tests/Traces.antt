-- ===== src/Tests/Traces.antt =====
-- What clients see of the sample data center: a read of the element 7, and an update that is kept
-- back.
use cache_system_of_lease_me.Base.{
  ℕ, ◌≡◌, refl, subst, true, false, List, [], ◌∷◌, some, arith, All,
}
use cache_system_of_lease_me.Outcome.{done, pure}
use cache_system_of_lease_me.Common.{operation_ok, operation_defer, update_handle, call_handle}
use cache_system_of_lease_me.Standard.Map.{lookup, assign}
use cache_system_of_lease_me.Standard.Heap.{push_heap, sift_up, key_at}
use cache_system_of_lease_me.TimerQueue.{
  EventTimer, guarantee_over, protection_over, lock, lock_guard, get_time_stamp, emplace_timer,
  add_timer, del_timer,
}
use cache_system_of_lease_me.StateManager.{
  cache_guaranteed, cache_update_protected, stop_expire, start_expire, enter_state, enter_protected,
  set_cache_state, read_in, update_in, timer_delay,
}
use cache_system_of_lease_me.StateManager
use cache_system_of_lease_me.DataCenter.{
  Center, read_op, update_op, read_element, update_element, store,
}
use cache_system_of_lease_me.StateManager.Updates.{in_time_twice}
use cache_system_of_lease_me.DataCenter.Invariant.{managed_in, some_eq}
use cache_system_of_lease_me.DataCenter.Updates.{IsPromptTwice}
use cache_system_of_lease_me.DataCenter.LeaseStore.{Event, found, kept_back, Behaves, Coherent}
use cache_system_of_lease_me.DataCenter.View.{view}
use cache_system_of_lease_me.DataCenter.Refinement.{
  Runs, reads, updates, run, rest, center_refines_store, readers_agree,
}
use cache_system_of_lease_me.Tests.{sample, sample-IsSteady, center, manager, element, timer}
use cache_system_of_lease_me.Tests.Data.{center-IsCenter, center_of-IsPrompt}
use cache_system_of_lease_me.Tests.Ticks.{no_answer, no_answer-IsQuietAck}

-- A timer of the element 7.
abbrev armed_until : ℕ → ℕ → EventTimer
armed_until id expire = record {
  timer_id = id;
  repeat = 1;
  timeout_ms = 10000;
  expire_time = expire;
  callback = guarantee_over 7;
}

abbrev disarmed : EventTimer → EventTimer
disarmed t = record t { repeat = 0 }

-- After the read: a lease until 11300.
abbrev after_read : Center ℕ
after_read = record {
  map = (7, element (record (manager cache_guaranteed) { timer_id = 2; expire_time = 11300 })) ∷ [];
  timers = record {
    timer_queue = disarmed (timer (guarantee_over 7)) ∷ armed_until 2 11400 ∷ [];
    mutex = false;
    reads = 5;
  };
}

asked : read_op 7 5 (center 2) ≡ done (operation_ok, some (11300, 42)) after_read
unfolding read_op read_element StateManager.read_op read_in set_cache_state enter_state start_expire
    stop_expire add_timer emplace_timer del_timer lock lock_guard get_time_stamp push_heap sift_up
    key_at lookup assign
asked = refl

-- After the update: the value 43 waits, and the lease goes on until 11500.
abbrev after_update : Center ℕ
after_update = record {
  map =
      (
        7,
        record {
          op_id = 6;
          value = 42;
          temp_value = 43;
          call = some (update_handle 3);
          state = record {
            timer_id = 4;
            expire_time = 11500;
            op_id = 6;
            callhandle = some (call_handle 7);
            current_state = cache_update_protected;
          };
        },
      )
      ∷ [];
  timers = record {
    timer_queue =
        disarmed (timer (guarantee_over 7))
        ∷ disarmed (armed_until 2 11400)
        ∷ record {
          timer_id = 4;
          repeat = 1;
          timeout_ms = 9800;
          expire_time = 11600;
          callback = protection_over 7;
        }
        ∷ [];
    mutex = false;
    reads = 9;
  };
}

told : update_op 0 7 43 6 (update_handle 3) after_read ≡ done (operation_defer, 11500) after_update
unfolding update_op update_element StateManager.update_op update_in store set_cache_state
    enter_state enter_protected timer_delay start_expire stop_expire add_timer emplace_timer
    del_timer lock lock_guard get_time_stamp push_heap sift_up key_at lookup assign
told = refl

after_read-IsPromptTwice : IsPromptTwice 7 after_read
unfolding lookup
after_read-IsPromptTwice el there g =
    subst (λ x. in_time_twice (managed_in after_read x) ≡ true) (some_eq there) refl

-- The read and the update.
abbrev trace : List (Event ℕ)
trace = found 7 42 11300 ∷ kept_back 7 43 11500 ∷ []

both : Runs (λ _. pure tt) no_answer (center 2) trace after_update
both =
    run (center 2) after_read after_update (found 7 42 11300) (kept_back 7 43 11500 ∷ [])
      (reads 7 5 operation_ok (some (11300, 42)) (center_of-IsPrompt 42) asked)
      (run after_read after_update after_update (kept_back 7 43 11500) []
        (updates 0 7 6 43 (update_handle 3) operation_defer 11500 after_read-IsPromptTwice
          (omega arith) told)
        (rest after_update))

center_refines_store_example : Behaves 1200 (view (center 2)) trace 1900 (view after_update)
center_refines_store_example =
    center_refines_store (λ _. pure tt) no_answer sample-IsSteady (no_answer-IsQuietAck (Unit {0}))
      (center 2) after_update trace (center-IsCenter 2) both

readers_agree_example : All (Coherent {T = ℕ} 7 42) (kept_back 7 43 11500 ∷ [])
readers_agree_example =
    readers_agree (λ _. pure tt) no_answer sample-IsSteady (no_answer-IsQuietAck (Unit {0})) 11300 7
      42 (center 2) after_update (kept_back 7 43 11500 ∷ []) (center-IsCenter 2) both (omega arith)
