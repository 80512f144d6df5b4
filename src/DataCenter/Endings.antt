-- ===== src/DataCenter/Endings.antt =====
-- Leases end (cache_data_center.h, timer_queue.cc): where no update is kept back, `tick` makes every
-- element idle whose timer is due.
use cache_system_of_lease_me.Base.{
  ℕ, ◌+◌, ◌≤◌, ◌<◌, ◌≡◌, ◌≢◌, refl, sym, ap, ◌∙◌, subst, Bool, List, [], ◌∷◌, Option, some, arith,
  All, List-cases, inl, inr, ◌&&◌, leb, not,
}
use cache_system_of_lease_me.Outcome.{M, done, Exits-returns}
use cache_system_of_lease_me.Common.{UpdateCallHandler}
use cache_system_of_lease_me.Standard.Heap.{IsHeap}
use cache_system_of_lease_me.Standard.Map.{lookup}
use cache_system_of_lease_me.TimerQueue.{
  Platform, IsSteady, EventTimer, Timers, Host, expire_of, tick,
}
use cache_system_of_lease_me.TimerQueue.Count.{count, count-nil}
use cache_system_of_lease_me.TimerQueue.Loop.{IsOver, Left}
use cache_system_of_lease_me.TimerQueue.Tick.{front_later}
use cache_system_of_lease_me.StateManager.{CacheStateManager, cache_guaranteed, cache_idle}
use cache_system_of_lease_me.StateManager.Lease.{pending}
use cache_system_of_lease_me.DataCenter.{CacheElement, Center}
use cache_system_of_lease_me.DataCenter.Invariant.{IsCenter, some_eq}
use cache_system_of_lease_me.DataCenter.Deadlock.{center_host}
use cache_system_of_lease_me.DataCenter.Fronts.{protecting, pending-IsHeard}
use cache_system_of_lease_me.DataCenter.Lapses.{Lapses, stays, lapsed, idled, Ran}
use cache_system_of_lease_me.DataCenter.RoundEffects.{IsQuietAck}
use cache_system_of_lease_me.DataCenter.RoundEnds.{IsProtecting}
use cache_system_of_lease_me.DataCenter.Tick.{tick-Ran}

-- Where all timers are later than `n`, a test that asks for that too passes as many.
count_later :
    (P : EventTimer → Bool) (n : ℕ) (ts : List EventTimer)
    → All (λ t. n < t.expire_time) ts
    → count P ts ≡ count (λ t. P t && not (leb t.expire_time n)) ts
unfolding count
count_later P n [] h = refl
count_later P n (t ∷ ts) h = ground (arith, h.0, count_later P n ts h.1)

count_split :
    (P Q : EventTimer → Bool) (ts : List EventTimer)
    → count (λ t. P t && Q t) ts + count (λ t. P t && not (Q t)) ts ≡ count P ts
unfolding count
count_split P Q [] = refl
count_split P Q (t ∷ ts) = ground (arith, count_split P Q ts)

guaranteed_busy :
    (m : CacheStateManager) → m.current_state ≡ cache_guaranteed → m.current_state ≢ cache_idle
guaranteed_busy m g idle = contradiction (sym g ∙ idle)
  where
    contradiction : cache_guaranteed ≡ cache_idle → ⊥
    contradiction h = cc

module _ {T : Type 0} ⦃p : Platform⦄ where
  -- A timer that the element waits for and that is due at the clock's next reading.
  abbrev pub due_for : ℕ → CacheElement T → ℕ → EventTimer → Bool
  due_for e el now t = pending e el.state t && leb t.expire_time now

  -- An element whose one timer was due has none later than that.
  none_later :
      (e : ℕ) (el : CacheElement T) (c : Center T)
      → IsCenter c
      → lookup e c.map ≡ some el
      → el.state.current_state ≡ cache_guaranteed
      → count (due_for e el (p.clock c.timers.reads)) c.timers.timer_queue ≡ 1
      → count
          (λ t. pending e el.state t && not (leb t.expire_time (p.clock c.timers.reads)))
          c.timers.timer_queue
        ≡ 0
  none_later e el c i found g due =
      let (_, _, pend) = (i.leased e el found).running (guaranteed_busy el.state g) in
      omega (
        arith,
        due,
        pend,
        count_split (pending e el.state) (λ t. leb t.expire_time (p.clock c.timers.reads))
            c.timers.timer_queue,
      )

  -- An element that is still guaranteed when the loop is over has a timer later than the start.
  still_later :
      IsSteady p
      → (e : ℕ) (el : CacheElement T) (c c' : Center T) (h : Host (Center T)) → IsCenter c'
      → lookup e c'.map ≡ some el
      → el.state.current_state ≡ cache_guaranteed
      → ((x : Center T) → h.timers x ≡ x.timers)
      → IsOver h (Ran c) c'
      → count
          (λ t. pending e el.state t && not (leb t.expire_time (p.clock c.timers.reads)))
          c'.timers.timer_queue
        ≡ 1
  still_later steady e el c c' h i found g its over =
      let (_, _, pend) = (i.leased e el found).running (guaranteed_busy el.state g) in
      elim (List-cases c'.timers.timer_queue) [
        | inl empty ↦
            absurd (none_pending (subst (λ r. count (pending e el.state) r ≡ 1) empty pend))
        | inr (t, ts, front) ↦
            let (w0, r0, later) = over t ts (ap (λ (q : Timers). q.timer_queue) (its c') ∙ front) in
            let start : p.clock c.timers.reads ≤ p.clock (h.timers w0).reads = omega (
              arith,
              steady c.timers.reads w0.timers.reads r0.later,
              ap (λ (q : Timers). p.clock q.reads) (its w0),
            ) in
            sym (
              count_later (pending e el.state) (p.clock c.timers.reads) c'.timers.timer_queue (
                subst (All (λ u. p.clock c.timers.reads < u.expire_time)) (sym front) (
                  front_later (p.clock c.timers.reads) t ts
                    (subst (λ r. IsHeap expire_of r) front i.ready.valid.heap)
                    (omega (arith, start, later)))))
            ∙ pend
      ]
    where
      none_pending : count (pending e el.state) [] ≡ 1 → ⊥
      none_pending h = omega (arith, h, count-nil (pending e el.state))

  module _ (run_handler : Option UpdateCallHandler × ℕ × ℕ → M (Center T) (Unit {0}))
      (resend_ack : ℕ → M (Center T) (Unit {0})) where
    -- So the element has lapsed.
    due-Lapses :
        IsSteady p
        → (e : ℕ) (el : CacheElement T) (c c' : Center T) → IsCenter c
        → lookup e c.map ≡ some el
        → el.state.current_state ≡ cache_guaranteed
        → count (due_for e el (p.clock c.timers.reads)) c.timers.timer_queue ≡ 1
        → Left (center_host run_handler resend_ack) (Ran c) tt c'
        → Lapses c'.timers.reads (lookup e c.map) (lookup e c'.map)
        → lookup e c'.map ≡ some (idled el)
    due-Lapses steady e el c c' i found g due (r, over) (stays same) = absurd (
        omega (
          arith,
          r.fewer (λ t. pending e el.state t && not (leb t.expire_time (p.clock c.timers.reads)))
              (λ t h. pending-IsHeard e el.state t (ground arith)),
          none_later e el c i found g due,
          still_later steady e el c c' (center_host run_handler resend_ack) r.kept (same ∙ found) g
              (λ x. refl) over,
        ))
    due-Lapses steady e el c c' i found g due left (lapsed el1 there g1 over idle) =
        idle ∙ ap (λ x. some (idled x)) (some_eq (sym there ∙ found))

    -- The clock is not set back, the invariant of the center holds, no update is kept back, so that
    -- no update protection has an armed timer, and the timer of an unacknowledged answer returns
    -- and leaves the queue and the elements alone. Then `tick` returns, and a guaranteed element
    -- whose timer is due at the first reading of the clock is idle after it, with the same value;
    -- the invariant of the center holds again.
    pub tick_ends_lease :
        IsSteady p
        → IsQuietAck ⊥ resend_ack
        → (c : Center T) → IsCenter c
        → count protecting c.timers.timer_queue ≡ 0
        → (e : ℕ) (el : CacheElement T) → lookup e c.map ≡ some el
        → el.state.current_state ≡ cache_guaranteed
        → count (due_for e el (p.clock c.timers.reads)) c.timers.timer_queue ≡ 1
        → (c' : Center T) × (tick (center_host run_handler resend_ack) c ≡ done tt c')
          × (lookup e c'.map ≡ some (idled el))
          × IsCenter c'
    tick_ends_lease steady quiet c i unprotected e el found g due =
        let (_, c', ends, left) =
          Exits-returns (IsProtecting run_handler resend_ack c)
            (Left (center_host run_handler resend_ack) (Ran c)) (λ c'. ⊥ × Ran c c')
            (tick (center_host run_handler resend_ack) c) (λ some_left. omega (arith, unprotected))
            (λ _ x. x.0) (tick-Ran run_handler resend_ack ⊥ steady quiet c i) in
        (c', ends, due-Lapses steady e el c c' i found g due left (left.0.lapses e), left.0.kept)
