-- ===== src/StateManager/Expiry.antt =====
-- The closures that the states hand to the timer queue (cache_state_manager.h), and the wait in
-- which `tick` ends when it runs the second of them.
use mathlib.Core.List.Perm
use cache_system_of_lease_me.Base.{
  ℕ, ◌+◌, ◌≤◌, ◌≡◌, ◌≢◌, refl, ap, ◌∙◌, true, false, List, ◌∷◌, Perm, arith, ◌==◌, Bool-cases, inl,
  inr, ◌⊎◌,
}
use cache_system_of_lease_me.Outcome.{done, blocked, bind-done, bind-blocked, map_state}
use cache_system_of_lease_me.Common.{default_expire_millisecond}
use cache_system_of_lease_me.TimerQueue.{
  Platform, IsSteady, TimerCall, guarantee_over, EventTimer, Timers, get_time_stamp, add_timer,
  del_timer,
}
use cache_system_of_lease_me.TimerQueue.Queue.{add_timer_refuses, del_timer-blocked}
use cache_system_of_lease_me.TimerQueue.Count.{count, count-perm, count-cons}
use cache_system_of_lease_me.StateManager.{
  cache_idle, cache_guaranteed, cache_update_protected, CacheStateManager, Managed, stop_expire,
  start_expire, set_cache_state, enter_state, on_guarantee_over, on_protection_over, with_timers,
  on_queue,
}
use cache_system_of_lease_me.StateManager.Expire.{IsReady, in_time, stopped}
use cache_system_of_lease_me.StateManager.Lease.{mine, IsLeased, Started-IsLeased}
use cache_system_of_lease_me.StateManager.Operations.{in_state, set_guaranteed}

-- The manager when its lease is over.
abbrev pub over : Managed → Managed
over s = record s {
  manager = record s.manager { timer_id = 0; expire_time = 0; current_state = cache_idle };
}

module _ ⦃p : Platform⦄ where
  -- Without its one armed timer the queue has none of the element.
  unarmed :
      {e : ℕ} {s : Managed} {t : EventTimer} (rest : List EventTimer)
      → IsLeased e s
      → s.manager.current_state ≢ cache_idle
      → Perm s.timers.timer_queue (t ∷ rest)
      → mine e t ≡ true
      → count (mine e) rest ≡ 0
  unarmed {e} {s} {t} rest l busy split own =
      let (_, one, _) = l.running busy in
      ground (arith, one, count-perm (mine e) split, count-cons (mine e) t rest)

  pub on_guarantee_over-done : (e : ℕ) (s : Managed) → on_guarantee_over e s ≡ done tt (over s)
  unfolding on_guarantee_over set_cache_state enter_state
  on_guarantee_over-done e s = refl

  -- A manager whose lease is over, with its timer `t` out of the queue, keeps the invariant.
  pub over-IsLeased :
      (e : ℕ) (s : Managed) (t : EventTimer) (rest : List EventTimer) (q : Timers)
      → IsLeased e s
      → s.manager.current_state ≢ cache_idle
      → mine e t ≡ true
      → Perm s.timers.timer_queue (t ∷ rest)
      → IsReady q
      → Perm q.timer_queue rest
      → IsLeased e (with_timers q (over s))
  over-IsLeased e s t rest q l busy own split r kept = record {
    ready = r;
    idle = λ _. (refl, refl, count-perm (mine e) kept ∙ unarmed rest l busy split own);
    running = λ n. absurd (n refl);
    handled = λ k. absurd (cc);
    short = omega arith;
  }

  -- The invariant of a guaranteed manager holds, and `t` is its timer in the queue. The
  -- guarantee's closure makes the manager idle, and with `t` taken out of the queue, which is then
  -- `q` and in order, the invariant holds again.
  pub on_guarantee_over-IsLeased :
      (e : ℕ) (s : Managed) (t : EventTimer) (rest : List EventTimer) (q : Timers)
      → IsLeased e s
      → s.manager.current_state ≡ cache_guaranteed
      → mine e t ≡ true
      → Perm s.timers.timer_queue (t ∷ rest)
      → IsReady q
      → Perm q.timer_queue rest
      → (s' : Managed) × (on_guarantee_over e s ≡ done tt s')
        × (s'.manager.current_state ≡ cache_idle)
        × IsLeased e (with_timers q s')
  on_guarantee_over-IsLeased e s t rest q l g own split r kept = (
    over s,
    on_guarantee_over-done e s,
    refl,
    over-IsLeased e s t rest q l (λ k. cc) own split r kept,
  )

  stop_expire-held :
      (s : Managed)
      → s.timers.mutex ≡ true
      → ((s' : Managed) × (stop_expire s ≡ blocked s'))
        ⊎ ((s' : Managed) × (stop_expire s ≡ done tt s') × (s'.timers.mutex ≡ true))
  unfolding stop_expire get_time_stamp
  stop_expire-held s held = elim (Bool-cases (s.manager.timer_id == 0)) [
    | inl unset ↦ rw unset (inr (s, refl, held))
    | inr set ↦ rw set (elim (Bool-cases (in_time s)) [
      | inl runs ↦ rw runs (
          inl (
            _,
            bind-blocked (on_queue (del_timer s.manager.timer_id)) _ _
                (ap (map_state _) (del_timer-blocked s.manager.timer_id _ held)),
          ))
      | inr late ↦ rw late (inr (_, refl, held))
    ])
  ]

  start_expire-blocked :
      (c : TimerCall) (ms : ℕ) (s : Managed)
      → s.timers.mutex ≡ true
      → (s' : Managed) × (start_expire c ms s ≡ blocked s')
  unfolding start_expire get_time_stamp
  start_expire-blocked c ms s held = elim (stop_expire-held s held) [
    | inl (s', waits) ↦ (s', bind-blocked stop_expire _ s waits)
    | inr (s', stops, held') ↦ (
      _,
      bind-done stop_expire _ s stops
          ∙ bind-blocked (on_queue (add_timer c ms 1)) _ _
              (ap (map_state _) (add_timer_refuses c ms 1 _ held')),
    )
  ]

  -- The protection's closure wants the timer queue's mutex. Run by `tick`, which holds it, the
  -- closure waits for ever: the kept update is not applied and no answer goes out.
  pub on_protection_over-blocked :
      (e : ℕ) (s : Managed)
      → s.timers.mutex ≡ true
      → (s' : Managed) × (on_protection_over e s ≡ blocked s')
  unfolding on_protection_over set_cache_state enter_state
  on_protection_over-blocked e s held =
      let (s', waits) = start_expire-blocked (guarantee_over e) default_expire_millisecond s held in
      (
        s',
        bind-blocked (set_cache_state e cache_guaranteed) _ s
            (bind-blocked (start_expire (guarantee_over e) default_expire_millisecond) _ s waits),
      )

  pub stopped_late :
      (s : Managed) → in_time s ≡ false → (stopped s).timers.timer_queue ≡ s.timers.timer_queue
  stopped_late s late = ground arith

  pub stopped_kept :
      (s : Managed)
      → ((stopped s).manager.callhandle ≡ s.manager.callhandle)
        × ((stopped s).manager.op_id ≡ s.manager.op_id)
        × (s.timers.reads ≤ (stopped s).timers.reads)
  stopped_kept s = ground arith

  -- Where the mutex is free and the lease over, the protection's closure starts a new lease and
  -- names the handler, the operation and the new lease's end, with which the handler is called;
  -- once its timer is out of the queue, the invariant holds.
  pub on_protection_over-IsLeased :
      IsSteady p
      → (e : ℕ) (s : Managed) (t : EventTimer) (rest : List EventTimer) → IsLeased e s
      → s.manager.current_state ≡ cache_update_protected
      → in_time s ≡ false
      → mine e t ≡ true
      → Perm s.timers.timer_queue (t ∷ rest)
      → (s' : Managed) × (new : EventTimer) × (on_protection_over e s
          ≡ done (s.manager.callhandle, s.manager.op_id, s'.manager.expire_time) s')
        × (p.clock s.timers.reads + default_expire_millisecond ≤ s'.manager.expire_time)
        × Perm s'.timers.timer_queue (new ∷ t ∷ rest)
        × ((q : Timers)
            → IsReady q
            → s'.timers.reads ≤ q.reads
            → Perm q.timer_queue (new ∷ rest)
            → IsLeased e (with_timers q s'))
  unfolding on_protection_over
  on_protection_over-IsLeased steady e s t rest l is late own split =
      let (s1, sets, b) = set_guaranteed e s l.ready in
      let whole : Perm s1.timers.timer_queue (b.timer ∷ t ∷ rest) =
        Perm.trans b.same (Perm.cons b.timer (rw (stopped_late s late) split)) in
      let kept = stopped_kept s in
      (
        in_state cache_guaranteed s1,
        b.timer,
        bind-done (set_cache_state e cache_guaranteed) _ s sets ∙ (λ i.
            done
              (
                (ap (λ (m : CacheStateManager). m.callhandle) b.manager ∙ kept.0) i,
                (ap (λ (m : CacheStateManager). m.op_id) b.manager ∙ kept.1) i,
                s1.manager.expire_time,
              )
              (in_state cache_guaranteed s1)),
        ground (arith, steady s.timers.reads (stopped s).timers.reads, kept.2),
        whole,
        λ q r later gone.
            Started-IsLeased steady e default_expire_millisecond (guarantee_over e) cache_guaranteed
              (record (stopped s) { timers = record (stopped s).timers { timer_queue = rest } })
              (with_timers q s1) (unarmed rest l (λ k. cc) split own)
              (record {
                ready = r;
                id = b.id;
                expire = b.expire;
                manager = b.manager;
                expire_lem = b.expire_lem;
                id_pos = b.id_pos;
                timer = b.timer;
                timer_lem = b.timer_lem;
                same = gone;
                reads = omega (arith, b.reads);
              })
              (ground arith) (omega arith) (λ k. absurd (cc)),
      )
