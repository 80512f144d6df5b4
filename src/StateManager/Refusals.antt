-- ===== src/StateManager/Refusals.antt =====
-- The refusals of update_op (cache_state_manager.h).
use cache_system_of_lease_me.Base.{
  ℕ, suc, ◌+◌, ◌^◌, ◌≤◌, ◌<◌, ◌≡◌, ◌≢◌, refl, subst, sym, true, false, arith, ◌==◌, Bool-cases, inl,
  inr, ◌⊎◌, Option,
}
use cache_system_of_lease_me.Outcome.{
  thrown, csn, error_ill_argument, error_sys_routine, bind-thrown, Code,
}
use cache_system_of_lease_me.Common.{UpdateCallHandler}
use cache_system_of_lease_me.TimerQueue.{Platform, get_time_stamp}
use cache_system_of_lease_me.StateManager.{
  CacheState, cache_idle, cache_guaranteed, cache_update_protected, Managed, is_null,
  set_cache_state, enter_state, update_in, update_op, timer_delay, is_positive32, enter_protected,
}
use cache_system_of_lease_me.StateManager.Updates.{noted}

timer_delay_past :
    (expire now : ℕ)
    → expire ≤ now
    → now ≤ expire + 2 ^ 31
    → is_positive32 (timer_delay expire (now + 0)) ≡ false
unfolding timer_delay
timer_delay_past expire now h k = ground (arith, word expire now h k)
  where
    word :
        (expire now : ℕ)
        → expire ≤ now
        → now ≤ expire + 2 ^ 31
        → (timer_delay expire (now + 0) ≡ 0) ⊎ (2 ^ 31 ≤ timer_delay expire (now + 0))
    word expire now h k = omega arith

module _ ⦃p : Platform⦄ where
  no_operation_id :
      (e : ℕ) (f : Option UpdateCallHandler) (s : Managed) (st : CacheState)
      → st ≢ cache_idle
      → update_in st e 0 f s ≡ thrown (csn error_ill_argument) s
  unfolding update_in
  no_operation_id e f s cache_idle n = absurd (n refl)
  no_operation_id e f s cache_guaranteed n = refl
  no_operation_id e f s cache_update_protected n = refl

  no_handler :
      (e id : ℕ) (f : Option UpdateCallHandler) (s : Managed)
      → is_null f ≡ true
      → update_in cache_guaranteed e id f s ≡ thrown (csn error_ill_argument) s
  unfolding update_in
  no_handler e id f s h = elim (Bool-cases (id == 0)) [
    | inl zero_id ↦ rw zero_id
    | inr some_id ↦ rw (some_id, h)
  ]

  enter_protected-thrown :
      (e : ℕ) (s : Managed)
      → s.manager.expire_time ≤ p.clock s.timers.reads
      → p.clock s.timers.reads ≤ s.manager.expire_time + 2 ^ 31
      → enter_protected e s
        ≡ thrown
            (csn error_sys_routine)
            (record s { timers = record s.timers { reads = suc s.timers.reads } })
  unfolding enter_protected get_time_stamp
  enter_protected-thrown e s over near =
      let past = timer_delay_past s.manager.expire_time (p.clock s.timers.reads) over near in
      rw past

  over_update :
      (e id : ℕ) (f : Option UpdateCallHandler) (s : Managed)
      → 0 < id
      → is_null f ≡ false
      → s.manager.expire_time ≤ p.clock s.timers.reads
      → p.clock s.timers.reads ≤ s.manager.expire_time + 2 ^ 31
      → update_in cache_guaranteed e id f s ≡ thrown (csn error_sys_routine) (noted id f s)
  unfolding update_in set_cache_state enter_state
  over_update e id f s pos given over near =
      let tested : (id == 0) ≡ false = ground arith in
      let sA = record s { manager = record s.manager { op_id = id; callhandle = f } } in
      rw (tested, given)
        (bind-thrown (set_cache_state e cache_update_protected) _ sA
          (bind-thrown (enter_protected e) _ sA (enter_protected-thrown e sA over near)))

  -- When an update is refused, with which code, and what it leaves.
  pub data Refused (id : ℕ) (f : Option UpdateCallHandler) (s : Managed) (code : Code)
      (s' : Managed) : Type 0 where
    no_operation :
        s.manager.current_state ≢ cache_idle
        → id ≡ 0
        → code ≡ error_ill_argument
        → s' ≡ s
        → Refused id f s code s'
    null_handler :
        s.manager.current_state ≡ cache_guaranteed
        → is_null f ≡ true
        → code ≡ error_ill_argument
        → s' ≡ s
        → Refused id f s code s'
    lease_over :
        s.manager.current_state ≡ cache_guaranteed
        → 0 < id
        → is_null f ≡ false
        → s.manager.expire_time ≤ p.clock s.timers.reads
        → p.clock s.timers.reads ≤ s.manager.expire_time + 2 ^ 31
        → code ≡ error_sys_routine
        → s' ≡ noted id f s
        → Refused id f s code s'

  -- The errors: outside the idle state an update without an operation id is refused, and a
  -- guaranteed manager refuses one without a handler too; where its lease has run out by the first
  -- clock reading, at most 2 ^ 31 milliseconds ago, it refuses an update with both, the operation
  -- and its handler already taken down.
  pub update_op_errors :
      (e id : ℕ) (f : Option UpdateCallHandler) (s s' : Managed) (code : Code)
      → Refused id f s code s'
      → update_op e id f s ≡ thrown (csn code) s'
  unfolding update_op
  update_op_errors e id f s s' code r = go r
    where
      Throws : Code → Managed → CacheState → ℕ → Type 0
      Throws c s1 st i = update_in st e i f s ≡ thrown (csn c) s1

      moved :
          {c : Code} {s1 : Managed}
          → code ≡ c
          → s' ≡ s1
          → Throws c s1 s.manager.current_state id
          → Throws code s' s.manager.current_state id
      moved {c} {s1} hc hs h =
          subst (λ x. Throws x s' s.manager.current_state id) (sym hc)
            (subst (λ x. Throws c x s.manager.current_state id) (sym hs) h)

      go : Refused id f s code s' → Throws code s' s.manager.current_state id
      go (no_operation n none_given hc hs) = moved hc hs (
          subst (λ i. Throws error_ill_argument s s.manager.current_state i) (sym none_given)
            (no_operation_id e f s s.manager.current_state n))
      go (null_handler is h hc hs) =
          moved hc hs
            (subst (λ st. Throws error_ill_argument s st id) (sym is) (no_handler e id f s h))
      go (lease_over is pos given past near hc hs) = moved hc hs (
          subst (λ st. Throws error_sys_routine (noted id f s) st id) (sym is)
            (over_update e id f s pos given past near))
