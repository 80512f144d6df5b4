-- ===== src/StateManager/Operations.antt =====
-- read_op of the manager (cache_state_manager.h).
use cache_system_of_lease_me.Base.{
  ℕ, suc, ◌+◌, ◌≤◌, ◌≡◌, ◌≢◌, refl, subst, sym, true, arith, inl, inr, ◌⊎◌,
}
use cache_system_of_lease_me.Outcome.{done, bind-done}
use cache_system_of_lease_me.Common.{operation_ok, default_expire_millisecond}
use cache_system_of_lease_me.TimerQueue.{Platform, IsSteady, guarantee_over, get_time_stamp}
use cache_system_of_lease_me.StateManager.{
  CacheState, cache_idle, cache_guaranteed, cache_update_protected, Managed, start_expire,
  set_cache_state, enter_state, guarantee, read_in, read_op,
}
use cache_system_of_lease_me.StateManager.Expire.{
  IsReady, in_time, stopped, Started, start_expire-Started,
}
use cache_system_of_lease_me.StateManager.Isolation.{Spares, Started-Spares}
use cache_system_of_lease_me.StateManager.Lease.{IsLeased, stopped-IsDisarmed, Started-IsLeased}

abbrev pub in_state : CacheState → Managed → Managed
in_state st s = record s { manager = record s.manager { current_state = st } }

module _ ⦃p : Platform⦄ where
  pub set_guaranteed :
      (e : ℕ) (s : Managed)
      → IsReady s.timers
      → (s1 : Managed) × (set_cache_state e cache_guaranteed s
          ≡ done tt (in_state cache_guaranteed s1))
        × Started (guarantee_over e) default_expire_millisecond (stopped s) s1
  unfolding set_cache_state enter_state
  set_guaranteed e s r =
      let (s1, starts, b) =
        start_expire-Started (guarantee_over e) default_expire_millisecond s r in
      (s1, bind-done (start_expire (guarantee_over e) default_expire_millisecond) _ s starts, b)

  pub guaranteed-done :
      (e : ℕ) (s : Managed)
      → IsReady s.timers
      → (s1 : Managed) × (guarantee e s
          ≡ done (operation_ok, s1.manager.expire_time) (in_state cache_guaranteed s1))
        × Started (guarantee_over e) default_expire_millisecond (stopped s) s1
  guaranteed-done e s r =
      let (s1, sets, b) = set_guaranteed e s r in
      (s1, bind-done (set_cache_state e cache_guaranteed) _ s sets, b)

  -- A lease handed out: until when, and what it leaves.
  pub record Granted (e : ℕ) (s s' : Managed) (expire : ℕ) : Type 0 where
    pub leased : IsLeased e s'
    pub spares : Spares e s.timers s'.timers
    pub state : s'.manager.current_state ≡ cache_guaranteed
    pub expire_lem : expire ≡ s'.manager.expire_time
    pub full_term : p.clock s.timers.reads + default_expire_millisecond ≤ expire

  pub granted :
      IsSteady p
      → (e : ℕ) (s : Managed) → IsLeased e s
      → (s.manager.current_state ≡ cache_idle) ⊎ (in_time s ≡ true)
      → (expire : ℕ) × (s' : Managed) × (guarantee e s ≡ done (operation_ok, expire) s')
        × Granted e s s' expire
  granted steady e s l prompt =
      let (s1, grants, b) = guaranteed-done e s l.ready in
      (
        s1.manager.expire_time,
        in_state cache_guaranteed s1,
        grants,
        record {
          leased =
              Started-IsLeased steady e default_expire_millisecond (guarantee_over e)
                cache_guaranteed (stopped s) s1 (stopped-IsDisarmed e s l prompt) b (ground arith)
                (omega arith) (λ k. absurd (cc));
          spares =
              Started-Spares e default_expire_millisecond (guarantee_over e) s s1 l b
                (ground arith);
          state = refl;
          expire_lem = refl;
          full_term = ground (arith, steady s.timers.reads (suc s.timers.reads) (omega arith));
        },
      )

  abbrev pub with_op_id : ℕ → Managed → Managed
  with_op_id id s = record s { manager = record s.manager { op_id = id } }

  pub with_op_id-IsLeased :
      (e id : ℕ) (s : Managed)
      → s.manager.current_state ≡ cache_guaranteed
      → IsLeased e s
      → IsLeased e (with_op_id id s)
  with_op_id-IsLeased e id s g l = record {
    ready = l.ready;
    idle = l.idle;
    running = l.running;
    handled = λ k. absurd (cc);
    short = l.short;
  }

  -- What a read returns and leaves: outside update protection a lease of the full term, and under
  -- it the present time and nothing changed but the clock read.
  pub data Read (e : ℕ) (s : Managed) (expire : ℕ) (s' : Managed) : Type 0 where
    granted_read :
        s.manager.current_state ≢ cache_update_protected
        → Granted e s s' expire
        → Read e s expire s'
    protected_read :
        s.manager.current_state ≡ cache_update_protected
        → expire ≡ p.clock s.timers.reads + 0
        → s' ≡ record s { timers = record s.timers { reads = suc s.timers.reads } }
        → Read e s expire s'

  read_in-Read :
      IsSteady p
      → (e id : ℕ) (st : CacheState) (s : Managed) → s.manager.current_state ≡ st
      → IsLeased e s
      → (st ≡ cache_guaranteed → in_time s ≡ true)
      → (expire : ℕ) × (s' : Managed) × (read_in st e id s ≡ done (operation_ok, expire) s')
        × Read e s expire s'
  unfolding read_in get_time_stamp
  read_in-Read steady e id cache_idle s is l prompt =
      let (expire, s', grants, g) = granted steady e s l (inl is) in
      (expire, s', grants, granted_read (λ k. cc) g)
  read_in-Read steady e id cache_guaranteed s is l prompt =
      let (expire, s', grants, g) =
        granted steady e (with_op_id id s) (with_op_id-IsLeased e id s is l) (inr (prompt refl)) in
      (
        expire,
        s',
        grants,
        granted_read (λ k. cc)
            (record {
              leased = g.leased;
              spares = g.spares;
              state = g.state;
              expire_lem = g.expire_lem;
              full_term = g.full_term;
            }),
      )
  read_in-Read steady e id cache_update_protected s is l prompt =
      (_, _, refl, protected_read is refl refl)

  -- The clock is not set back, and the invariant of the manager holds. A read returns. While the
  -- manager is idle, or guaranteed with its lease still running, it hands out a lease of the full
  -- term from the present on, keeps the invariant and spares the timers of other elements; under
  -- update protection it hands out the present time and changes nothing but the count of clock
  -- readings.
  pub read_op-Read :
      IsSteady p
      → (e id : ℕ) (s : Managed) → IsLeased e s
      → (s.manager.current_state ≡ cache_guaranteed → in_time s ≡ true)
      → (expire : ℕ) × (s' : Managed) × (read_op e id s ≡ done (operation_ok, expire) s')
        × Read e s expire s'
  unfolding read_op
  read_op-Read steady e id s l prompt =
      read_in-Read steady e id s.manager.current_state s refl l prompt

  -- The invariants outlast one more reading of the clock.
  ticked-IsLeased :
      IsSteady p
      → (e : ℕ) (s : Managed) → IsLeased e s
      → IsLeased e (record s { timers = record s.timers { reads = suc s.timers.reads } })
  ticked-IsLeased steady e s l = record {
    ready = record { valid = l.ready.valid; unheld = l.ready.unheld };
    idle = l.idle;
    running = l.running;
    handled = l.handled;
    short = omega (arith, l.short, steady s.timers.reads (suc s.timers.reads) (omega arith));
  }

  -- A read keeps the invariant, and spares the other elements.
  pub Read-kept :
      IsSteady p
      → (e expire : ℕ) (s s' : Managed) → IsLeased e s
      → Read e s expire s'
      → IsLeased e s' × Spares e s.timers s'.timers
  Read-kept steady e expire s s' l (granted_read n g) = (g.leased, g.spares)
  Read-kept steady e expire s s' l (protected_read is at left) =
      subst (λ (x : Managed). IsLeased e x × Spares e s.timers x.timers) (sym left)
        (ticked-IsLeased steady e s l, record { later = omega arith; same = λ P f. refl })
