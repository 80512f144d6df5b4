-- ===== src/DataCenter/Deadlock.antt =====
-- The data center as the program that runs the timer queue: the closures of
-- cache_state_manager.h when `tick` (timer_queue.cc) calls them.
use cache_system_of_lease_me.Base.{
  ℕ, suc, ◌+◌, ◌≤◌, ◌<◌, ◌≡◌, refl, sym, ap, ◌∙◌, subst, List, [], ◌∷◌, Option, none, some, arith,
  true, false, ltb, leb,
}
use cache_system_of_lease_me.Outcome.{
  M, done, blocked, undefined, ◌>>=◌, ◌>>◌, bind-done, bind-blocked, zoom-done, finally-blocked,
  map_state,
}
use cache_system_of_lease_me.Common.{UpdateCallHandler}
use cache_system_of_lease_me.Standard.Map.{lookup}
use cache_system_of_lease_me.TimerQueue.{
  Platform, TimerCall, guarantee_over, protection_over, resend, EventTimer, Host, lock, rounds,
  on_timers, front_expired, fire, fire_front, settle_front, tick_round, tick_loop, tick,
  decrement_front,
}
use cache_system_of_lease_me.TimerQueue.Front.{lock-free}
use cache_system_of_lease_me.TimerQueue.Tick.{front_expired-done}
use cache_system_of_lease_me.StateManager.{Managed, on_guarantee_over, on_protection_over}
use cache_system_of_lease_me.StateManager.Expiry.{on_protection_over-blocked}
use cache_system_of_lease_me.DataCenter.{
  CacheElement, Center, at_element, focus, put_back, on_state, with_managed,
}

module _ {T : Type 0} ⦃p : Platform⦄ where
  -- The manager of an element. Elements are never removed: without one, `this` would dangle.
  unfoldable pub on_manager : {A : Type 0} → ℕ → M Managed A → M (Center T) A
  unfolding lookup
  on_manager this m c = elim (lookup this c.map) [
    | none ↦ undefined c
    | some el ↦ at_element this el (on_state m) c
  ]

  -- A closure's run. `run_handler` is what the handler of an update does with its operation and
  -- the lease's end, and `resend_ack` the timer of an unacknowledged answer.
  unfoldable pub call_back :
      (run_handler : Option UpdateCallHandler × ℕ × ℕ → M (Center T) (Unit {0}))
      → (resend_ack : ℕ → M (Center T) (Unit {0})) → TimerCall
      → M (Center T) (Unit {0})
  unfolding on_manager
  call_back run_handler resend_ack (guarantee_over this) = on_manager this (on_guarantee_over this)
  call_back run_handler resend_ack (protection_over this) =
      on_manager this (on_protection_over this) >>= run_handler
  call_back run_handler resend_ack (resend ack) = resend_ack ack

  module _ (run_handler : Option UpdateCallHandler × ℕ × ℕ → M (Center T) (Unit {0}))
      (resend_ack : ℕ → M (Center T) (Unit {0})) where
    abbrev pub center_host : Host (Center T)
    center_host = record {
      timers = λ c. c.timers;
      with_timers = λ q c. record c { timers = q };
      call = call_back run_handler resend_ack;
      timers-with_timers = λ q c. refl;
    }

    protection_over-blocked :
        (e : ℕ) (el : CacheElement T) (c : Center T)
        → lookup e c.map ≡ some el
        → c.timers.mutex ≡ true
        → (c' : Center T) × (call_back run_handler resend_ack (protection_over e) c ≡ blocked c')
    unfolding call_back on_manager
    protection_over-blocked e el c found held =
        let (s', waits) =
          on_protection_over-blocked e (record { manager = el.state; timers = c.timers }) held in
        let at_once : on_manager e (on_protection_over e) c
            ≡ blocked (put_back e (with_managed s' (focus el c)) c) =
          rw (found, on_manager)
            (ap
              (λ o.
                map_state (λ s. put_back e s c) (map_state (λ m. with_managed m (focus el c)) o))
              waits) in
        (_, bind-blocked (on_manager e (on_protection_over e)) run_handler c at_once)

    fire-blocked :
        (t : EventTimer) (ts : List EventTimer) (c c' : Center T)
        → c.timers.timer_queue ≡ t ∷ ts
        → 0 < t.repeat
        → call_back run_handler resend_ack t.callback c ≡ blocked c'
        → fire_front center_host c ≡ blocked c'
    unfolding fire_front fire
    fire-blocked t ts c c' front runs waits =
        let armed_front : ltb 0 t.repeat ≡ true = ground arith in
        subst (λ r. fire center_host r c ≡ blocked c') (sym front)
          (rw armed_front (
            bind-blocked (call_back run_handler resend_ack t.callback)
              (λ _. on_timers center_host decrement_front) c waits))

    pub tick_round-blocked :
        (t : EventTimer) (ts : List EventTimer) (c : Center T) (e : ℕ) (el : CacheElement T)
        → c.timers.timer_queue ≡ t ∷ ts
        → c.timers.mutex ≡ false
        → 0 < t.repeat
        → t.callback ≡ protection_over e
        → lookup e c.map ≡ some el
        → (c' : Center T) × (tick_round center_host c ≡ blocked c')
    unfolding tick_round
    tick_round-blocked t ts c e el front free runs back found =
        let c1 = record c { timers = record c.timers { mutex = true } } in
        let (c', waits) = protection_over-blocked e el c1 found refl in
        let fires =
          fire-blocked t ts c1 c' front runs
            (subst (λ k. call_back run_handler resend_ack k c1 ≡ blocked c') (sym back) waits) in
        (
          _,
          bind-done (on_timers center_host lock) _ c (
                zoom-done (λ (x : Center T). x.timers) (λ q (x : Center T). record x { timers = q })
                  lock c (lock-free c.timers free))
              ∙ finally-blocked (fire_front center_host >> on_timers center_host settle_front) _ c1
                  (bind-blocked (fire_front center_host) (λ _. on_timers center_host settle_front)
                    c1 fires),
        )

    tick_loop-blocked :
        (k : ℕ) (t : EventTimer) (ts : List EventTimer) (c : Center T) (e : ℕ) (el : CacheElement T)
        → c.timers.timer_queue ≡ t ∷ ts
        → c.timers.mutex ≡ false
        → 0 < t.repeat
        → t.callback ≡ protection_over e
        → t.expire_time ≤ p.clock c.timers.reads
        → lookup e c.map ≡ some el
        → (c' : Center T) × (tick_loop center_host (suc k) c ≡ blocked c')
    unfolding tick_loop
    tick_loop-blocked k t ts c e el front free runs back due found =
        let c1 = record c { timers = record c.timers { reads = suc c.timers.reads } } in
        let (c', waits) = tick_round-blocked t ts c1 e el front free runs back found in
        let is_due : leb t.expire_time (p.clock c.timers.reads + 0) ≡ true = ground arith in
        (
          c',
          bind-done (on_timers center_host front_expired) _ c (
                zoom-done (λ (x : Center T). x.timers) (λ q (x : Center T). record x { timers = q })
                  front_expired c (front_expired-done c.timers t ts front))
              ∙ rw is_due (bind-blocked (tick_round center_host) _ c1 waits),
        )

    -- The mutex is free, and the front of the queue is the timer of an update protection, due,
    -- with a run left and its element there. Whatever the handlers and the other closures do,
    -- `tick` then waits for ever: the closure wants the mutex that `tick` holds.
    pub tick_deadlock :
        (t : EventTimer) (ts : List EventTimer) (c : Center T) (e : ℕ) (el : CacheElement T)
        → c.timers.timer_queue ≡ t ∷ ts
        → c.timers.mutex ≡ false
        → 0 < t.repeat
        → t.callback ≡ protection_over e
        → t.expire_time ≤ p.clock c.timers.reads
        → lookup e c.map ≡ some el
        → (c' : Center T) × (tick center_host c ≡ blocked c')
    unfolding tick
    tick_deadlock t ts c e el front free runs back due found =
        let (c', waits) =
          tick_loop-blocked (rounds (t ∷ ts)) t ts c e el front free runs back due found in
        (
          c',
          subst (λ r. Starts r c') (sym front)
              (subst (λ k. tick_loop center_host k c ≡ blocked c') {x = suc (rounds (t ∷ ts))}
                (omega arith) waits),
        )
      where
        Starts : List EventTimer → Center T → Type 0
        Starts r c' =
            elim r [ [] ↦ done tt c | u ∷ us ↦ tick_loop center_host (rounds (u ∷ us) + 1) c ]
            ≡ blocked c'
