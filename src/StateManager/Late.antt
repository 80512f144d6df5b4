-- ===== src/StateManager/Late.antt =====
-- A read between the end of a lease and the tick that would clean up (cache_state_manager.h).
use cache_system_of_lease_me.Base.{
  ℕ, ◌+◌, ◌≤◌, ◌≡◌, ◌≢◌, refl, ◌∙◌, subst, sym, Bool, false, arith, Option,
}
use cache_system_of_lease_me.Outcome.{done}
use cache_system_of_lease_me.Common.{operation_ok, default_expire_millisecond, UpdateCallHandler}
use cache_system_of_lease_me.TimerQueue.{Platform, IsSteady, EventTimer}
use cache_system_of_lease_me.TimerQueue.Count.{count, count-perm, count-cons}
use cache_system_of_lease_me.StateManager.{
  cache_guaranteed, cache_idle, Managed, read_op, read_in, update_op, on_guarantee_over,
  set_cache_state, enter_state,
}
use cache_system_of_lease_me.StateManager.Expire.{IsReady, in_time, stopped}
use cache_system_of_lease_me.StateManager.Lease.{mine, pending, IsLeased}
use cache_system_of_lease_me.StateManager.Operations.{in_state, guaranteed-done, with_op_id}
use cache_system_of_lease_me.StateManager.Updates.{update_idle}
use cache_system_of_lease_me.StateManager.Expiry.{over, stopped_late, stopped_kept}

module _ ⦃p : Platform⦄ where
  -- What a late read leaves, and what follows from it.
  pub record BrokenLease (e id : ℕ) (s s' : Managed) (expire : ℕ) : Type 0 where
    -- The read hands out a lease of the full term.
    pub reads : read_op e id s ≡ done (operation_ok, expire) s'
    pub term : p.clock s.timers.reads + default_expire_millisecond ≤ expire
    -- The timer of the old lease is still armed beside the new one.
    pub stale : 1 ≤ count (pending e s.manager) s'.timers.timer_queue
    pub two_armed : count (mine e) s'.timers.timer_queue ≡ 2
    -- When its closure runs, the next update is applied at once, whatever is left of the lease.
    pub applied :
        (id' : ℕ) (f : Option UpdateCallHandler)
        → (s1 : Managed) × (on_guarantee_over e s' ≡ done tt s1)
          × (expire' : ℕ) × (s2 : Managed) × (update_op e id' f s1
              ≡ done (operation_ok, expire') s2)

  after_over :
      (e id' : ℕ) (f : Option UpdateCallHandler) (s : Managed)
      → IsReady s.timers
      → (s1 : Managed) × (on_guarantee_over e s ≡ done tt s1)
        × (expire' : ℕ) × (s2 : Managed) × (update_op e id' f s1 ≡ done (operation_ok, expire') s2)
  unfolding on_guarantee_over set_cache_state enter_state update_op
  after_over e id' f s r =
      let (s1, grants, b) = guaranteed-done e (over s) r in
      (over s, refl, s1.manager.expire_time, _, update_idle e id' f (over s) ∙ grants)

  -- The clock is not set back, and the invariant of the manager holds. A read of a guaranteed
  -- manager whose lease is over, but whose timer has not fired yet, hands out a new lease and
  -- leaves the old timer armed beside the new one; when the closure of a guarantee runs after
  -- that, the manager is idle and lets the next update through at once.
  pub late_read :
      IsSteady p
      → (e id : ℕ) (s : Managed) → IsLeased e s
      → s.manager.current_state ≡ cache_guaranteed
      → in_time s ≡ false
      → (expire : ℕ) × (s' : Managed) × BrokenLease e id s s' expire
  unfolding read_op read_in
  late_read steady e id s l is late =
      let s0 = with_op_id id s in
      let (s1, grants, b) = guaranteed-done e s0 l.ready in
      let busy : s.manager.current_state ≢ cache_idle = λ k. cc in
      let same = λ (P : EventTimer → Bool). count-perm P (rw (stopped_late s0 late) at b.same) in
      (
        s1.manager.expire_time,
        in_state cache_guaranteed s1,
        record {
          reads =
              subst
                (λ st.
                  read_in st e id s
                  ≡ done (operation_ok, s1.manager.expire_time) (in_state cache_guaranteed s1))
                (sym is) grants;
          term =
              ground (arith, steady s.timers.reads (stopped s0).timers.reads, (stopped_kept s0).2);
          stale = ground (
            arith,
            l.running busy,
            same (pending e s.manager),
            count-cons (pending e s.manager) b.timer s.timers.timer_queue,
          );
          two_armed = ground (
            arith,
            l.running busy,
            same (mine e),
            count-cons (mine e) b.timer s.timers.timer_queue,
          );
          applied = λ id' f. after_over e id' f (in_state cache_guaranteed s1) b.ready;
        },
      )
