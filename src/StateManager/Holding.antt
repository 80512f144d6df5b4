-- ===== src/StateManager/Holding.antt =====
-- What a read and an update leave of a lease that runs (cache_state_manager.h): the manager stays
-- busy, and the lease ends no sooner.
use cache_system_of_lease_me.Base.{ℕ, ◌≤◌, ◌≢◌, sym, ap, ◌∙◌, Option, arith}
use cache_system_of_lease_me.Common.{OpResult, UpdateCallHandler}
use cache_system_of_lease_me.TimerQueue.{Platform}
use cache_system_of_lease_me.StateManager.{
  Managed, cache_idle, cache_guaranteed, cache_update_protected,
}
use cache_system_of_lease_me.StateManager.Lease.{IsLeased}
use cache_system_of_lease_me.StateManager.Operations.{Read, granted_read, protected_read}
use cache_system_of_lease_me.StateManager.Updates.{Updated, applied, deferred, turned_away}

guaranteed-not_idle : cache_guaranteed ≢ cache_idle
guaranteed-not_idle h = cc

protected-not_idle : cache_update_protected ≢ cache_idle
protected-not_idle h = cc

module _ ⦃p : Platform⦄ where
  -- The lease of `s` runs on in `m`.
  pub record Runs (s m : Managed) : Type 0 where
    pub busy : m.manager.current_state ≢ cache_idle
    pub longer : s.manager.expire_time ≤ m.manager.expire_time

  pub Read-Runs : (e expire : ℕ) (s m : Managed) → IsLeased e s → Read e s expire m → Runs s m
  Read-Runs e expire s m l (granted_read n g) = record {
    busy = λ idle. guaranteed-not_idle (sym g.state ∙ idle);
    longer = omega (arith, l.short, g.full_term, g.expire_lem);
  }
  Read-Runs e expire s m l (protected_read is at left) = record {
    busy = λ idle.
        protected-not_idle
          (sym is ∙ sym (ap (λ (x : Managed). x.manager.current_state) left) ∙ idle);
    longer = omega (arith, ap (λ (x : Managed). x.manager.expire_time) left);
  }

  pub Updated-Runs :
      (e op_id expire : ℕ) (f : Option UpdateCallHandler) (s m : Managed) (r : OpResult)
      → Updated e op_id f s r expire m
      → s.manager.current_state ≢ cache_idle
      → Runs s m
  Updated-Runs e op_id expire f s m r (applied is ok g) n = absurd (n is)
  Updated-Runs e op_id expire f s m r (deferred is ok kept st h x) n = record {
    busy = λ idle. protected-not_idle (sym st ∙ idle);
    longer = omega (arith, x.0, x.1);
  }
  Updated-Runs e op_id expire f s m r (turned_away is ok x left) n = record {
    busy = λ idle. n (sym (ap (λ (y : Managed). y.manager.current_state) left) ∙ idle);
    longer = omega (arith, ap (λ (y : Managed). y.manager.expire_time) left);
  }

  -- The clock is read, never unread.
  pub Read-later :
      (e expire : ℕ) (s m : Managed) → Read e s expire m → s.timers.reads ≤ m.timers.reads
  Read-later e expire s m (granted_read n g) = g.spares.later
  Read-later e expire s m (protected_read is at left) =
      omega (arith, ap (λ (x : Managed). x.timers.reads) left)

  pub Updated-later :
      (e op_id expire : ℕ) (f : Option UpdateCallHandler) (s m : Managed) (r : OpResult)
      → Updated e op_id f s r expire m
      → s.timers.reads ≤ m.timers.reads
  Updated-later e op_id expire f s m r (applied is ok g) = g.spares.later
  Updated-later e op_id expire f s m r (deferred is ok kept st h x) = kept.1.later
  Updated-later e op_id expire f s m r (turned_away is ok x left) =
      omega (arith, ap (λ (y : Managed). y.timers.reads) left)
