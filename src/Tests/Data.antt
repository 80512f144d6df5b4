-- ===== src/Tests/Data.antt =====
-- The theorems about the data center at the sample state.
use cache_system_of_lease_me.Base.{
  ℕ, ◌≡◌, refl, [], ◌∷◌, arith, true, Option, some, ◌==◌, ◌&&◌, if◌then◌else◌, inl, inr, Bool-cases,
  sym, subst,
}
use cache_system_of_lease_me.Outcome.{done, blocked, pure}
use cache_system_of_lease_me.Common.{
  OpResult, operation_ok, operation_defer, UpdateCallHandler, update_handle,
}
use cache_system_of_lease_me.Standard.Map.{lookup, assign}
use cache_system_of_lease_me.Standard.Heap
use cache_system_of_lease_me.Standard.Vector
use cache_system_of_lease_me.TimerQueue
use cache_system_of_lease_me.StateManager
use cache_system_of_lease_me.TimerQueue.{
  guarantee_over, protection_over, resend, Timers, EventTimer, tick,
}
use cache_system_of_lease_me.TimerQueue.Count.{count}
use cache_system_of_lease_me.StateManager.{Managed, cache_guaranteed, cache_update_protected}
use cache_system_of_lease_me.StateManager.Expire.{in_time}
use cache_system_of_lease_me.StateManager.Updates.{in_time_twice}
use cache_system_of_lease_me.StateManager.Lease.{IsLeased}
use cache_system_of_lease_me.DataCenter.{
  CacheElement, Center, read_op, update_op, update_element, store, call_handle_of, put_back,
}
use cache_system_of_lease_me.DataCenter.Invariant.{
  some_eq, some_ne_none, content, IsCenter, managed_in,
}
use cache_system_of_lease_me.DataCenter.Reads.{Answered, IsPrompt, with_state, read_op_correct}
use cache_system_of_lease_me.DataCenter.Updates.{Settled, IsPromptTwice, update_op_correct}
use cache_system_of_lease_me.DataCenter.Stored.{is_ok}
use cache_system_of_lease_me.DataCenter.Completion.{promoted, deferred_completes}
use cache_system_of_lease_me.DataCenter.Lasting.{Lasts}
use cache_system_of_lease_me.DataCenter.Steps.{updates, stop, step}
use cache_system_of_lease_me.DataCenter.Promise.{lease_promise}
use cache_system_of_lease_me.DataCenter.Deadlock.{center_host, tick_deadlock}
use cache_system_of_lease_me.Tests.{
  element_of, center_of, sample, sample-IsSteady, timer, queue, queue-IsReady, manager, element,
  center, leased-IsLeased,
}

-- Nothing but the element 7 is there.
pub found_seven :
    {T : Type 0} (v : T) (reads e : ℕ) (el : CacheElement T)
    → lookup e (center_of v reads).map ≡ some el
    → (7 ≡ e) × (element_of v (manager cache_guaranteed) ≡ el)
unfolding lookup
found_seven v reads e el h = elim (Bool-cases (7 == e)) [
  | inl same ↦ (ground arith, some_eq (rw same at h))
  | inr other ↦ absurd (some_ne_none (sym (rw other at h)))
]

pub center_of-IsCenter : {T : Type 0} (v : T) (reads : ℕ) → IsCenter (center_of v reads)
unfolding lookup count
center_of-IsCenter v reads = record {
  ready = queue-IsReady (guarantee_over 7) reads;
  leased = λ e el h.
      let (same, is) = found_seven v reads e el h in
      subst (λ x. IsLeased x (managed_in (center_of v reads) el)) same
        (subst (λ y. IsLeased 7 (managed_in (center_of v reads) y)) is (leased-IsLeased reads));
  absent = λ e h. ground arith;
}

pub center-IsCenter : (reads : ℕ) → IsCenter (center reads)
center-IsCenter reads = center_of-IsCenter 42 reads

pub center_of-IsPrompt : {T : Type 0} (v : T) → IsPrompt 7 (center_of v 2)
center_of-IsPrompt v el h g =
    subst (λ y. in_time (managed_in (center_of v 2) y) ≡ true) (found_seven v 2 7 el h).1 refl

center-IsPrompt : IsPrompt 7 (center 2)
center-IsPrompt = center_of-IsPrompt 42

center-IsPromptTwice : IsPromptTwice 7 (center 2)
center-IsPromptTwice el h g =
    subst (λ y. in_time_twice (managed_in (center 2) y) ≡ true) (found_seven 42 2 7 el h).1 refl

read_op_correct_example :
    (r : OpResult) × (out : Option (ℕ × ℕ)) × (c' : Center ℕ) × (read_op 7 6 (center 2)
      ≡ done (r, out) c')
    × Answered 7 (center 2) r out c'
    × IsCenter c'
    × ((j : ℕ) → content c' j ≡ content (center 2) j)
read_op_correct_example =
    read_op_correct sample-IsSteady 7 6 (center 2) (center-IsCenter 2) center-IsPrompt

abbrev handler : UpdateCallHandler
handler = update_handle 3

update_op_correct_example :
    (r : OpResult) × (expire : ℕ) × (c' : Center ℕ) × (update_op 0 7 43 6 handler (center 2)
      ≡ done (r, expire) c')
    × Settled 0 7 43 6 handler (center 2) r expire c'
    × IsCenter c'
    × ((j : ℕ) → content c' j ≡ (if is_ok r && 7 == j then some 43 else content (center 2) j))
update_op_correct_example =
    update_op_correct sample-IsSteady 0 7 6 43 handler (center 2) (center-IsCenter 2)
      center-IsPromptTwice (omega arith)

-- The element 7 under update protection, its timer due at the next reading.
abbrev protected_center : Center ℕ
protected_center = record {
  map = (7, element (manager cache_update_protected)) ∷ [];
  timers = queue (protection_over 7) 200;
}

protected_found : lookup 7 protected_center.map ≡ some (element (manager cache_update_protected))
unfolding lookup
protected_found = refl

tick_deadlock_example :
    (c' : Center ℕ) × (tick (center_host (λ _. pure tt) (λ _. pure tt)) protected_center
      ≡ blocked c')
tick_deadlock_example =
    tick_deadlock (λ _. pure tt) (λ _. pure tt) (timer (protection_over 7)) [] protected_center 7
      (element (manager cache_update_protected)) refl refl (omega arith) refl (omega arith)
      protected_found

deferred :
    (expire : ℕ) × (c' : Center ℕ) × (update_op 0 7 43 6 handler (center 2)
      ≡ done (operation_defer, expire) c')
unfolding update_op lookup update_element store StateManager.update_op StateManager.update_in
    StateManager.set_cache_state StateManager.enter_state StateManager.enter_protected
    StateManager.start_expire StateManager.stop_expire StateManager.timer_delay
    TimerQueue.get_time_stamp TimerQueue.add_timer TimerQueue.del_timer TimerQueue.emplace_timer
    TimerQueue.lock_guard TimerQueue.lock Heap.push_heap Heap.sift_up Heap.key_at Vector.swap assign
deferred = (_, _, refl)

deferred_completes_example :
    (el : CacheElement ℕ) × (lookup 7 deferred.1.map ≡ some el)
    × ((j : ℕ) → content deferred.1 j ≡ content (center 2) j)
    × ((m : Managed)
        → (call_handle_of 0 operation_ok (with_state m el)
            ≡ done handler (promoted 0 43 (with_state m el)))
          × ((j : ℕ)
              → content (put_back 7 (promoted 0 43 (with_state m el)) deferred.1) j
                ≡ (if 7 == j then some 43 else content (center 2) j)))
deferred_completes_example =
    deferred_completes sample-IsSteady 0 7 6 deferred.0 43 handler (center 2) deferred.1
      (center-IsCenter 2) center-IsPromptTwice (omega arith) deferred.2

pub seven-Lasts : Lasts 11000 7 42 (center 2)
unfolding content lookup
seven-Lasts = record {
  el = element (manager cache_guaranteed);
  found = refl;
  busy = λ e. cc;
  value = refl;
  lasting = omega arith;
}

lease_promise_example : IsCenter deferred.1 × Lasts 11000 7 42 deferred.1
lease_promise_example =
    lease_promise sample-IsSteady 11000 7 42 (center 2) deferred.1 (center-IsCenter 2) seven-Lasts (
      step (center 2) deferred.1 deferred.1
        (updates 0 7 6 43 handler operation_defer deferred.0 center-IsPromptTwice (omega arith)
          deferred.2)
        (stop deferred.1))
