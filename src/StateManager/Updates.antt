-- ===== src/StateManager/Updates.antt =====
-- update_op of the manager (cache_state_manager.h) on every branch.
use cache_system_of_lease_me.Base.{
  ℕ, suc, ◌+◌, ◌-◌, ◌≤◌, ◌<◌, ◌≡◌, refl, ap, ◌∙◌, subst, sym, Bool, true, false, arith, ltb, ◌==◌,
  inl, inr, Option,
}
use cache_system_of_lease_me.Outcome.{done, bind-done}
use cache_system_of_lease_me.Common.{
  OpResult, operation_ok, operation_defer, operation_retry, default_expire_millisecond,
  UpdateCallHandler,
}
use cache_system_of_lease_me.TimerQueue.{
  Platform, IsSteady, TimerCall, protection_over, get_time_stamp,
}
use cache_system_of_lease_me.StateManager.{
  CacheState, cache_idle, cache_guaranteed, cache_update_protected, CacheStateManager, Managed,
  is_null, start_expire, set_cache_state, enter_state, guarantee, update_in, update_op, timer_delay,
  is_positive32, enter_protected,
}
use cache_system_of_lease_me.StateManager.Expire.{stopped, Started, start_expire-Started}
use cache_system_of_lease_me.StateManager.Isolation.{Spares, Started-Spares}
use cache_system_of_lease_me.StateManager.Lease.{
  belongs, IsLeased, stopped-IsDisarmed, Started-IsLeased,
}
use cache_system_of_lease_me.StateManager.Operations.{in_state, Granted, granted}

-- Where the lease runs for a while, the 32-bit delay is the time that is left.
timer_delay-exact :
    (expire now : ℕ)
    → now < expire
    → expire ≤ now + default_expire_millisecond
    → (timer_delay expire now ≡ expire - now) × (is_positive32 (timer_delay expire now) ≡ true)
unfolding timer_delay
timer_delay-exact expire now h k =
    let exact : timer_delay expire now ≡ expire - now = omega arith in
    (exact, rw exact (ground arith))

module _ ⦃p : Platform⦄ where
  -- What an update returns and leaves. An idle manager lets it through and hands out a lease; a
  -- guaranteed one keeps it with its handler, for no shorter than the lease; a protected one
  -- turns it away.
  pub data Updated (e id : ℕ) (f : Option UpdateCallHandler) (s : Managed) (r : OpResult)
      (expire : ℕ) (s' : Managed) : Type 0 where
    applied :
        s.manager.current_state ≡ cache_idle
        → r ≡ operation_ok
        → Granted e s s' expire
        → Updated e id f s r expire s'
    deferred :
        s.manager.current_state ≡ cache_guaranteed
        → r ≡ operation_defer
        → IsLeased e s' × Spares e s.timers s'.timers
        → s'.manager.current_state ≡ cache_update_protected
        → (s'.manager.callhandle ≡ f) × (s'.manager.op_id ≡ id)
        → (expire ≡ s'.manager.expire_time) × (s.manager.expire_time ≤ expire)
        → Updated e id f s r expire s'
    turned_away :
        s.manager.current_state ≡ cache_update_protected
        → r ≡ operation_retry
        → expire ≡ s.manager.expire_time
        → s' ≡ s
        → Updated e id f s r expire s'

  -- The manager with the update taken down, and the clock read for the delay.
  abbrev pub noted : ℕ → Option UpdateCallHandler → Managed → Managed
  noted id f s = record {
    manager = record s.manager { op_id = id; callhandle = f };
    timers = record s.timers { reads = suc s.timers.reads };
  }

  noted-IsLeased :
      IsSteady p
      → (e id : ℕ) (f : Option UpdateCallHandler) (s : Managed)
      → s.manager.current_state ≡ cache_guaranteed
      → IsLeased e s
      → IsLeased e (noted id f s)
  noted-IsLeased steady e id f s g l = record {
    ready = record { valid = l.ready.valid; unheld = l.ready.unheld };
    idle = l.idle;
    running = l.running;
    handled = λ k. absurd (cc);
    short = omega (arith, l.short, steady s.timers.reads (suc s.timers.reads) (omega arith));
  }

  -- Still runs at the second reading from now.
  abbrev pub in_time_twice : Managed → Bool
  in_time_twice s = ltb (p.clock (suc s.timers.reads) + 0) s.manager.expire_time

  -- Entering the state starts a timer for the time that is left.
  enter_protected-start :
      (e id : ℕ) (f : Option UpdateCallHandler) (s : Managed)
      → IsLeased e s
      → p.clock s.timers.reads < s.manager.expire_time
      → enter_protected e (record s { manager = record s.manager { op_id = id; callhandle = f } })
        ≡ start_expire
            (protection_over e)
            (s.manager.expire_time - p.clock s.timers.reads)
            (noted id f s)
  unfolding enter_protected get_time_stamp
  enter_protected-start e id f s l runs =
      let now : p.clock s.timers.reads + 0 ≡ p.clock s.timers.reads = omega arith in
      let (exact, positive) =
        timer_delay-exact s.manager.expire_time (p.clock s.timers.reads) runs l.short in
      rw (now, positive, exact)

  set_protected :
      IsSteady p
      → (e id : ℕ) (f : Option UpdateCallHandler) (s : Managed)
      → s.manager.current_state ≡ cache_guaranteed
      → IsLeased e s
      → in_time_twice s ≡ true
      → (s1 : Managed) × (set_cache_state e cache_update_protected
            (record s { manager = record s.manager { op_id = id; callhandle = f } })
          ≡ done tt (in_state cache_update_protected s1))
        × Started
            (protection_over e)
            (s.manager.expire_time - p.clock s.timers.reads)
            (stopped (noted id f s))
            s1
  unfolding set_cache_state enter_state
  set_protected steady e id f s g l prompt =
      let noted_s = noted id f s in
      let left = s.manager.expire_time - p.clock s.timers.reads in
      let (s1, starts, b) =
        start_expire-Started (protection_over e) left noted_s
          (noted-IsLeased steady e id f s g l).ready in
      let enters =
        enter_protected-start e id f s l
          (ground (arith, steady s.timers.reads (suc s.timers.reads) (omega arith))) in
      (s1, bind-done (enter_protected e) _ _ (enters ∙ starts), b)

  noted-Spares :
      (e ms id : ℕ) (c : TimerCall) (f : Option UpdateCallHandler) (s s1 : Managed)
      → IsLeased e (noted id f s)
      → Started c ms (stopped (noted id f s)) s1
      → belongs e c ≡ true
      → Spares e s.timers s1.timers
  noted-Spares e ms id c f s s1 l b own =
      let z = Started-Spares e ms c (noted id f s) s1 l b own in
      record { later = omega (arith, z.later); same = z.same }

  deferred_update :
      IsSteady p
      → (e id : ℕ) (f : Option UpdateCallHandler) (s : Managed)
      → s.manager.current_state ≡ cache_guaranteed
      → IsLeased e s
      → in_time_twice s ≡ true
      → 0 < id
      → is_null f ≡ false
      → (expire : ℕ) × (s' : Managed) × (update_in cache_guaranteed e id f s
          ≡ done (operation_defer, expire) s')
        × Updated e id f s operation_defer expire s'
  unfolding update_in
  deferred_update steady e id f s g l prompt pos given =
      let (s1, sets, b) = set_protected steady e id f s g l prompt in
      let tested : (id == 0) ≡ false = ground arith in
      let kept : ((stopped (noted id f s)).manager.callhandle ≡ f)
          × ((stopped (noted id f s)).manager.op_id ≡ id) =
        ground arith in
      (
        s1.manager.expire_time,
        in_state cache_update_protected s1,
        rw (tested, given) (bind-done (set_cache_state e cache_update_protected) _ _ sets),
        deferred g refl
            ((
              Started-IsLeased steady e (s.manager.expire_time - p.clock s.timers.reads)
                  (protection_over e) cache_update_protected (stopped (noted id f s)) s1
                  (stopped-IsDisarmed e (noted id f s) (noted-IsLeased steady e id f s g l)
                    (inr prompt))
                  b (ground arith) (omega (arith, l.short)) (λ _. (rw kept.0 given, rw kept.1 pos)),
              noted-Spares e _ id (protection_over e) f s s1 (noted-IsLeased steady e id f s g l) b
                  (ground arith),
            ))
            refl
            (
              ap (λ (m : CacheStateManager). m.callhandle) b.manager ∙ kept.0,
              ap (λ (m : CacheStateManager). m.op_id) b.manager ∙ kept.1,
            )
            (
              refl,
              ground (
                arith,
                steady s.timers.reads (suc s.timers.reads) (omega arith),
                steady (suc s.timers.reads) (suc (suc s.timers.reads)) (omega arith),
              ),
            ),
      )

  pub update_idle :
      (e id : ℕ) (f : Option UpdateCallHandler) (s : Managed)
      → update_in cache_idle e id f s ≡ guarantee e s
  unfolding update_in
  update_idle e id f s = refl

  update_protected :
      (e id : ℕ) (f : Option UpdateCallHandler) (s : Managed)
      → 0 < id
      → update_in cache_update_protected e id f s ≡ done (operation_retry, s.manager.expire_time) s
  unfolding update_in
  update_protected e id f s pos = let tested : (id == 0) ≡ false = ground arith in rw tested

  -- The clock is not set back, and the invariant of the manager holds. An update with an operation
  -- id and a handler returns: it is let through, kept until the lease is over, or turned away, by
  -- the manager's state, and leaves what `Updated` says, the invariant in each case that changes
  -- the state. A guaranteed manager must meet it while its lease runs at the call's second clock
  -- reading.
  pub update_op-Updated :
      IsSteady p
      → (e id : ℕ) (f : Option UpdateCallHandler) (s : Managed) → IsLeased e s
      → (s.manager.current_state ≡ cache_guaranteed → in_time_twice s ≡ true)
      → 0 < id
      → is_null f ≡ false
      → (r : OpResult) × (expire : ℕ) × (s' : Managed) × (update_op e id f s ≡ done (r, expire) s')
        × Updated e id f s r expire s'
  unfolding update_op
  update_op-Updated steady e id f s l prompt pos given = go s.manager.current_state refl
    where
      go :
          (st : CacheState)
          → s.manager.current_state ≡ st
          → (r : OpResult) × (expire : ℕ) × (s' : Managed) × (update_in st e id f s
              ≡ done (r, expire) s')
            × Updated e id f s r expire s'
      go cache_idle is =
          let (expire, s', grants, g) = granted steady e s l (inl is) in
          (operation_ok, expire, s', update_idle e id f s ∙ grants, applied is refl g)
      go cache_guaranteed is =
          let (expire, s', defers, u) =
            deferred_update steady e id f s is l (prompt is) pos given in
          (operation_defer, expire, s', defers, u)
      go cache_update_protected is = (
        operation_retry,
        s.manager.expire_time,
        s,
        update_protected e id f s pos,
        turned_away is refl refl refl,
      )

  -- An update keeps the invariant, and spares the other elements.
  pub Updated-kept :
      (e id : ℕ) (f : Option UpdateCallHandler) (s s' : Managed) (r : OpResult) (expire : ℕ)
      → IsLeased e s
      → Updated e id f s r expire s'
      → IsLeased e s' × Spares e s.timers s'.timers
  Updated-kept e id f s s' r expire l (applied is ok g) = (g.leased, g.spares)
  Updated-kept e id f s s' r expire l (deferred is ok kept st h x) = kept
  Updated-kept e id f s s' r expire l (turned_away is ok x left) =
      subst (λ (y : Managed). IsLeased e y × Spares e s.timers y.timers) (sym left)
        (l, record { later = omega arith; same = λ P f. refl })
