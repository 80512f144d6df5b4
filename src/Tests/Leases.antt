-- ===== src/Tests/Leases.antt =====
-- The theorems about the state manager at a lease that runs, that is over, and that is protected.
use cache_system_of_lease_me.Base.{ℕ, ◌≡◌, refl, [], arith, false, some}
use mathlib.Core.List.{Nodup-nil}
use mathlib.Core.List.Perm
use cache_system_of_lease_me.Outcome.{done, thrown, csn, error_sys_routine}
use cache_system_of_lease_me.Common.{OpResult, operation_ok, call_handle}
use cache_system_of_lease_me.TimerQueue.{guarantee_over, Timers}
use cache_system_of_lease_me.StateManager.{
  Managed, cache_idle, read_op, update_op, on_guarantee_over, with_timers,
}
use cache_system_of_lease_me.StateManager.Expire.{IsReady}
use cache_system_of_lease_me.StateManager.Lease.{IsLeased}
use cache_system_of_lease_me.StateManager.Operations.{Read, read_op-Read}
use cache_system_of_lease_me.StateManager.Updates.{Updated, update_op-Updated, noted}
use cache_system_of_lease_me.StateManager.Refusals.{lease_over, update_op_errors}
use cache_system_of_lease_me.StateManager.Expiry.{on_guarantee_over-IsLeased}
use cache_system_of_lease_me.StateManager.Late.{BrokenLease, late_read}
use cache_system_of_lease_me.Tests.{sample, sample-IsSteady, timer, leased, leased-IsLeased}

read_op-Read_example :
    (expire : ℕ) × (s' : Managed) × (read_op 7 6 (leased 2) ≡ done (operation_ok, expire) s')
    × Read 7 (leased 2) expire s'
read_op-Read_example = read_op-Read sample-IsSteady 7 6 (leased 2) (leased-IsLeased 2) (λ _. refl)

update_op-Updated_example :
    (r : OpResult) × (expire : ℕ) × (s' : Managed) × (update_op 7 6
        (some (call_handle 7))
        (leased 2)
      ≡ done (r, expire) s')
    × Updated 7 6 (some (call_handle 7)) (leased 2) r expire s'
update_op-Updated_example =
    update_op-Updated sample-IsSteady 7 6 (some (call_handle 7)) (leased 2) (leased-IsLeased 2)
      (λ _. refl) (omega arith) refl

update_op_errors_example :
    update_op 7 6 (some (call_handle 7)) (leased 200)
    ≡ thrown (csn error_sys_routine) (noted 6 (some (call_handle 7)) (leased 200))
update_op_errors_example =
    update_op_errors 7 6 (some (call_handle 7)) (leased 200)
      (noted 6 (some (call_handle 7)) (leased 200)) error_sys_routine
      (lease_over refl (omega arith) refl (omega arith) (omega arith) refl refl)

late_read_example : (expire : ℕ) × (s' : Managed) × BrokenLease 7 6 (leased 200) s' expire
late_read_example = late_read sample-IsSteady 7 6 (leased 200) (leased-IsLeased 200) refl refl

abbrev no_timers : Timers
no_timers = record { timer_queue = []; mutex = false; reads = 201 }

no_timers-IsReady : IsReady no_timers
no_timers-IsReady = record {
  valid = record { heap = λ i p q. absurd (omega arith); distinct = Nodup-nil; not_null = tt };
  unheld = refl;
}

on_guarantee_over-IsLeased_example :
    (s' : Managed) × (on_guarantee_over 7 (leased 200) ≡ done tt s')
    × (s'.manager.current_state ≡ cache_idle)
    × IsLeased 7 (with_timers no_timers s')
on_guarantee_over-IsLeased_example =
    on_guarantee_over-IsLeased 7 (leased 200) (timer (guarantee_over 7)) [] no_timers
      (leased-IsLeased 200) refl refl Perm.rfl no_timers-IsReady Perm.rfl
