-- ===== src/DataCenter/Tick.antt =====
-- `tick` (timer_queue.cc) over a data center (cache_data_center.h): which leases it ends, and what it
-- keeps.
use cache_system_of_lease_me.Base.{
  ℕ, suc, ◌≤◌, ◌<◌, ◌≡◌, refl, true, List, ◌∷◌, Option, arith, Bool-cases, inl, inr,
}
use cache_system_of_lease_me.Outcome.{
  M, Thrown, done, thrown, Exits, Exits-map, Exits-wait, Exits-done, Exits-thrown,
}
use cache_system_of_lease_me.Common.{UpdateCallHandler}
use cache_system_of_lease_me.TimerQueue.{
  Platform, IsSteady, TimerCall, guarantee_over, protection_over, resend, EventTimer, rounds,
  tick_round, tick,
}
use cache_system_of_lease_me.TimerQueue.Queue.{armed}
use cache_system_of_lease_me.TimerQueue.Loop.{looked, Left, IsKept, tick-Inv}
use cache_system_of_lease_me.DataCenter.{Center}
use cache_system_of_lease_me.DataCenter.Invariant.{IsCenter, Retains-IsCenter}
use cache_system_of_lease_me.DataCenter.Deadlock.{center_host}
use cache_system_of_lease_me.DataCenter.Lapses.{Ran, Ran-trans, Ran-refl, stays}
use cache_system_of_lease_me.DataCenter.Fronts.{protecting, protecting-IsHeard}
use cache_system_of_lease_me.DataCenter.RoundEffects.{IsQuietAck}
use cache_system_of_lease_me.DataCenter.RoundEnds.{
  IsProtecting, Ends, silent-Ends, resend-Ends, guarantee-Ends, protection-Ends,
}

module _ {T : Type 0} ⦃p : Platform⦄
    (run_handler : Option UpdateCallHandler × ℕ × ℕ → M (Center T) (Unit {0}))
    (resend_ack : ℕ → M (Center T) (Unit {0})) where
  round-Ends :
      (E : Type 0)
      → IsSteady p
      → IsQuietAck E resend_ack
      → (c : Center T) (t : EventTimer) (ts : List EventTimer) → IsCenter c
      → c.timers.timer_queue ≡ t ∷ ts
      → t.expire_time ≤ p.clock c.timers.reads
      → Ends run_handler resend_ack E c (t ∷ ts) (tick_round (center_host run_handler resend_ack) c)
  round-Ends E steady quiet c t ts i front due = elim (Bool-cases (armed t)) [
    | inl runs ↦ by_call t.callback refl runs
    | inr spent ↦
        silent-Ends run_handler resend_ack E steady c t ts i front (ground arith)
          (λ runs. absurd (ground arith))
  ]
    where
      by_call :
          (k : TimerCall)
          → t.callback ≡ k
          → armed t ≡ true
          → Ends run_handler resend_ack E c
              (t ∷ ts)
              (tick_round (center_host run_handler resend_ack) c)
      by_call (guarantee_over e) back runs =
          guarantee-Ends run_handler resend_ack E steady c t ts e i front due back runs
      by_call (protection_over e) back runs =
          protection-Ends run_handler resend_ack E c t ts e i front back runs
      by_call (resend a) back runs =
          resend-Ends run_handler resend_ack E steady quiet c t ts a i front back

  -- A reading of the clock.
  looked-Ran :
      IsSteady p
      → (c : Center T) → IsCenter c
      → Ran c (looked (center_host run_handler resend_ack) c)
  looked-Ran steady c i = record {
    kept =
        Retains-IsCenter steady c (record c.timers { reads = suc c.timers.reads }) i
          (record {
            ready = record { valid = i.ready.valid; unheld = i.ready.unheld };
            later = omega arith;
            mine_lem = λ e. refl;
            pending_lem = λ e m. refl;
          });
    later = omega arith;
    fewer = λ P heard. omega arith;
    lapses = λ e. stays refl;
  }

  Ran-IsKept :
      (E : Type 0)
      → IsSteady p
      → IsQuietAck E resend_ack
      → (c : Center T)
      → IsKept
          (center_host run_handler resend_ack)
          (IsProtecting run_handler resend_ack c)
          (Ran c)
          (λ c'. E × Ran c c')
  Ran-IsKept E steady quiet c = record {
    reading = λ c1 r.
        Ran-trans steady c c1 (looked (center_host run_handler resend_ack) c1) r
          (looked-Ran steady c1 r.kept);
    round = λ c1 t ts r front due.
        let c2 = looked (center_host run_handler resend_ack) c1 in
        Exits-wait (IsProtecting run_handler resend_ack c2) (IsProtecting run_handler resend_ack c)
          (λ _ c'. Ran c c' × (rounds c'.timers.timer_queue < rounds (t ∷ ts))) (λ c'. E × Ran c c')
          (tick_round (center_host run_handler resend_ack) c2)
          (λ some_left. omega (arith, r.fewer protecting protecting-IsHeard))
          (Exits-map (IsProtecting run_handler resend_ack c2)
            (λ _ c'. Ran c2 c' × (rounds c'.timers.timer_queue < rounds (t ∷ ts)))
            (λ _ c'. Ran c c' × (rounds c'.timers.timer_queue < rounds (t ∷ ts)))
            (λ c'. E × Ran c2 c') (λ c'. E × Ran c c')
            (tick_round (center_host run_handler resend_ack) c2)
            (λ _ c' (s, fewer). (Ran-trans steady c c2 c' r s, fewer))
            (λ c' (x, s). (x, Ran-trans steady c c2 c' r s))
            (round-Ends E steady quiet c2 t ts r.kept front
              (omega (arith, steady c1.timers.reads (suc c1.timers.reads)))));
  }

  -- The clock is not set back, the invariant of the center holds, and the timer of an
  -- unacknowledged answer ends, by an exception only where `E` holds, and leaves the queue and the
  -- elements alone. Then `tick` ends, and never in undefined behaviour; it can wait for ever only
  -- if an update protection has an armed timer, and throws only where `E` holds. After a return or
  -- an exception the invariant of the center holds, every class of armed timers of elements has as
  -- many of them as before at most, and each element is as it was, or was guaranteed, its lease is
  -- over at the clock's next reading, and it is idle with the same value. After a return the queue
  -- is empty, or its front is later than one of the call's readings of the clock.
  pub tick-Ran :
      (E : Type 0)
      → IsSteady p
      → IsQuietAck E resend_ack
      → (c : Center T) → IsCenter c
      → Exits
          (IsProtecting run_handler resend_ack c)
          (Left (center_host run_handler resend_ack) (Ran c))
          (λ c'. E × Ran c c')
          (tick (center_host run_handler resend_ack) c)
  tick-Ran E steady quiet c i =
      tick-Inv (center_host run_handler resend_ack) (IsProtecting run_handler resend_ack c) (Ran c)
        (λ c'. E × Ran c c') (Ran-IsKept E steady quiet c) c (Ran-refl c i)

  pub tick_returns :
      IsSteady p
      → IsQuietAck (Unit {0}) resend_ack
      → (c c' : Center T) → IsCenter c
      → tick (center_host run_handler resend_ack) c ≡ done tt c'
      → Ran c c'
  tick_returns steady quiet c c' i runs =
      (Exits-done (IsProtecting run_handler resend_ack c)
        (Left (center_host run_handler resend_ack) (Ran c)) (λ x. Unit {0} × Ran c x)
        (tick (center_host run_handler resend_ack) c) runs (tick-Ran (Unit {0}) steady quiet c i)).0

  pub tick_throws :
      IsSteady p
      → IsQuietAck (Unit {0}) resend_ack
      → (c c' : Center T) (x : Thrown) → IsCenter c
      → tick (center_host run_handler resend_ack) c ≡ thrown x c'
      → Ran c c'
  tick_throws steady quiet c c' x i runs =
      (Exits-thrown (IsProtecting run_handler resend_ack c)
        (Left (center_host run_handler resend_ack) (Ran c)) (λ y. Unit {0} × Ran c y)
        (tick (center_host run_handler resend_ack) c) runs (tick-Ran (Unit {0}) steady quiet c i)).1
