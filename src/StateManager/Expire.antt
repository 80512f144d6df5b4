-- ===== src/StateManager/Expire.antt =====
-- stop_expire and start_expire (cache_state_manager.h): what they do to the timer queue.
use cache_system_of_lease_me.Base.{
  ℕ, suc, ◌+◌, ◌≤◌, ◌<◌, ◌≡◌, refl, ◌∙◌, Bool, false, ◌∷◌, map, Perm, arith, ltb, ◌==◌,
  if◌then◌else◌, Bool-cases, inl, inr,
}
use cache_system_of_lease_me.Outcome.{done, bind-done, zoom-done}
use cache_system_of_lease_me.TimerQueue.{
  Platform, TimerCall, EventTimer, Timers, IsValid, add_timer, disable, ids,
}
use cache_system_of_lease_me.TimerQueue.Queue.{new_timer, add_timer-Added, disabled-IsValid}
use cache_system_of_lease_me.StateManager.{
  Managed, stop_expire, start_expire, on_queue, with_timers,
}

module _ ⦃p : Platform⦄ where
  -- The queue is in order and its mutex free.
  pub record IsReady (q : Timers) : Type 0 where
    pub valid : IsValid q.timer_queue
    pub unheld : q.mutex ≡ false

  -- The lease still runs at the clock's next reading.
  abbrev pub in_time : Managed → Bool
  in_time s = ltb (p.clock s.timers.reads + 0) s.manager.expire_time

  -- What `stop_expire` leaves.
  abbrev pub stopped : Managed → Managed
  stopped s =
      if s.manager.timer_id == 0
      then s
      else if in_time s
      then record {
        manager = record s.manager { timer_id = 0 };
        timers = record {
          timer_queue = map (disable s.manager.timer_id) s.timers.timer_queue;
          mutex = false;
          reads = suc s.timers.reads;
        };
      }
      else record s { timers = record s.timers { reads = suc s.timers.reads } }

  pub stop_expire-stopped :
      (s : Managed)
      → IsReady s.timers
      → (stop_expire s ≡ done tt (stopped s)) × IsReady (stopped s).timers
  unfolding stop_expire
  stop_expire-stopped s r = elim (Bool-cases (s.manager.timer_id == 0)) [
    | inl none_set ↦ rw none_set (refl, r)
    | inr set ↦ rw set (elim (Bool-cases (in_time s)) [
      | inl runs ↦
          rw (runs, r.unheld)
            (
              refl,
              record {
                valid = disabled-IsValid s.manager.timer_id s.timers.timer_queue r.valid;
                unheld = refl;
              },
            )
      | inr over ↦ rw over (refl, record { valid = r.valid; unheld = r.unheld })
    ])
  ]

  -- What `start_expire` leaves of a manager and queue `s` on which `stop_expire` has run: a timer
  -- of one run for the closure, and its address and the lease's end in the manager.
  pub record Started (c : TimerCall) (ms : ℕ) (s s' : Managed) : Type 0 where
    pub ready : IsReady s'.timers
    pub id : ℕ
    pub expire : ℕ
    pub manager : s'.manager ≡ record s.manager { timer_id = id; expire_time = expire }
    pub expire_lem : expire ≡ p.clock s.timers.reads + ms
    pub id_pos : 0 < id
    pub timer : EventTimer
    pub timer_lem : timer ≡ record {
      timer_id = id;
      repeat = 1;
      timeout_ms = ms;
      expire_time = p.clock (suc s.timers.reads) + ms;
      callback = c;
    }
    pub same : Perm s'.timers.timer_queue (timer ∷ s.timers.timer_queue)
    pub reads : suc (suc s.timers.reads) ≤ s'.timers.reads

  pub start_expire-Started :
      (c : TimerCall) (ms : ℕ) (s : Managed)
      → IsReady s.timers
      → (s' : Managed) × (start_expire c ms s ≡ done tt s') × Started c ms (stopped s) s'
  unfolding start_expire
  start_expire-Started c ms s r =
      let (stops, r1) = stop_expire-stopped s r in
      let q1 = record (stopped s).timers { reads = suc (stopped s).timers.reads } in
      let (q2, adds, a) = add_timer-Added c ms 1 q1 r1.valid r1.unheld (omega arith) in
      (
        record {
          manager = record (stopped s).manager {
            timer_id = (new_timer c ms 1 q1).timer_id;
            expire_time = p.clock (stopped s).timers.reads + ms;
          };
          timers = q2;
        },
        bind-done stop_expire _ s stops
            ∙ bind-done (on_queue (add_timer c ms 1)) _ _
                (zoom-done (λ (x : Managed). x.timers) with_timers (add_timer c ms 1) _ adds),
        record {
          ready = record { valid = a.valid; unheld = a.unheld };
          id = (new_timer c ms 1 q1).timer_id;
          expire = p.clock (stopped s).timers.reads + ms;
          manager = refl;
          expire_lem = refl;
          id_pos = p.new_address_pos (ids q1.timer_queue);
          timer = new_timer c ms 1 q1;
          timer_lem = refl;
          same = a.same;
          reads = omega (arith, a.one_read);
        },
      )
