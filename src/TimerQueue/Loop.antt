-- ===== src/TimerQueue/Loop.antt =====
-- The loop of `tick` (timer_queue.cc) as a rule for invariants: what every round keeps, the call
-- keeps.
use cache_system_of_lease_me.Base.{
  ℕ, zero, suc, ◌+◌, ◌≤◌, ◌<◌, ◌≡◌, refl, ap, ◌∙◌, subst, sym, Bool, true, false, if◌then◌else◌,
  List, [], ◌∷◌, arith, leb, inl, inr, List-cases,
}
use cache_system_of_lease_me.Outcome.{◌>>◌, pure, done, Exits, Exits-bind, Exits-zoom}
use cache_system_of_lease_me.TimerQueue.{
  Platform, EventTimer, Timers, Host, rounds, continue, front_expired, on_timers, tick_round,
  tick_loop, tick,
}
use cache_system_of_lease_me.TimerQueue.Tick.{front_expired-done, Exits-continue}

cons_head : {t u : EventTimer} {ts us : List EventTimer} → t ∷ ts ≡ u ∷ us → t ≡ u
cons_head e = cc

cons_empty : {t : EventTimer} {ts : List EventTimer} → t ∷ ts ≡ [] → ⊥
cons_empty e = cc

module _ ⦃p : Platform⦄ {W : Type 0} (h : Host W) where
  -- The program once the loop has read the clock.
  abbrev pub looked : W → W
  looked w = h.with_timers (record (h.timers w) { reads = suc (h.timers w).reads }) w

  -- The front, if there is one, is later than a reading of the clock that was taken where `Inv` held.
  abbrev pub IsOver : (W → Type 0) → W → Type 0
  IsOver Inv w =
      (t : EventTimer) (ts : List EventTimer)
      → (h.timers w).timer_queue ≡ t ∷ ts
      → (w0 : W) × Inv w0 × (p.clock (h.timers w0).reads < t.expire_time)

  looked-IsOver :
      (Inv : W → Type 0) (w : W) (t : EventTimer) (ts : List EventTimer)
      → Inv w
      → (h.timers w).timer_queue ≡ t ∷ ts
      → p.clock (h.timers w).reads < t.expire_time
      → IsOver Inv (looked w)
  looked-IsOver Inv w t ts i e later u us e' =
      let there = h.timers-with_timers (record (h.timers w) { reads = suc (h.timers w).reads }) w in
      let front : t ∷ ts ≡ u ∷ us = sym e ∙ sym (ap (λ (q : Timers). q.timer_queue) there) ∙ e' in
      (
        w,
        i,
        subst (λ (x : EventTimer). p.clock (h.timers w).reads < x.expire_time) (cons_head front)
            later,
      )

  empty-IsOver : (Inv : W → Type 0) (w : W) → (h.timers w).timer_queue ≡ [] → IsOver Inv w
  empty-IsOver Inv w empty t ts e = absurd (cons_empty (sym e ∙ empty))

  -- A property that readings of the clock and rounds with a front that is due keep, where each
  -- such round takes a run or a timer away. `X` holds after an exception.
  pub record IsKept (B : Type 0) (Inv X : W → Type 0) : Type 0 where
    pub reading : (w : W) → Inv w → Inv (looked w)
    pub round :
        (w : W) (t : EventTimer) (ts : List EventTimer)
        → Inv (looked w)
        → (h.timers w).timer_queue ≡ t ∷ ts
        → t.expire_time ≤ p.clock (h.timers w).reads
        → Exits B
            (λ _ w'. Inv w' × (rounds (h.timers w').timer_queue < rounds (t ∷ ts)))
            X
            (tick_round h (looked w))

  -- What a call leaves that returns.
  abbrev pub Left : (W → Type 0) → Unit {0} → W → Type 0
  Left Inv _ w = Inv w × IsOver Inv w

  module _ (B : Type 0) (Inv X : W → Type 0) (k : IsKept B Inv X) where
    -- The body of the loop after a front that is due or not, where the rest of the loop is known.
    goes :
        (fuel : ℕ) (w : W) (t : EventTimer) (ts : List EventTimer) (due : Bool)
        → (h.timers w).timer_queue ≡ t ∷ ts
        → rounds (t ∷ ts) < suc fuel
        → Inv w
        → Inv (looked w)
        → (due ≡ true → t.expire_time ≤ p.clock (h.timers w).reads)
        → (due ≡ false → p.clock (h.timers w).reads < t.expire_time)
        → ((w' : W) (u : EventTimer) (us : List EventTimer)
            → (h.timers w').timer_queue ≡ u ∷ us
            → rounds (u ∷ us) < fuel
            → Inv w'
            → Exits B (Left Inv) X (tick_loop h fuel w'))
        → Exits B (Left Inv) X (
            (if due
                then (tick_round h >> λ w'.
                    continue h (tick_loop h fuel) (h.timers w').timer_queue w')
                else pure tt)
              (looked w))
    goes fuel w t ts true e f i i' due later rest =
        Exits-bind B (λ _ w'. Inv w' × (rounds (h.timers w').timer_queue < rounds (t ∷ ts)))
          (Left Inv) X (tick_round h) _ (looked w) (k.round w t ts i' e (due refl))
          λ _ w' (i2, fewer).
            Exits-continue B h (Left Inv) X (tick_loop h fuel) (h.timers w').timer_queue w'
              (λ empty. (i2, empty-IsOver Inv w' empty))
              (λ u us more.
                rest w' u us more (subst (λ r. rounds r < fuel) more (omega (arith, f, fewer))) i2)
    goes fuel w t ts false e f i i' due later rest = (i', looked-IsOver Inv w t ts i e (later refl))

    tick_loop-Inv :
        (fuel : ℕ) (w : W) (t : EventTimer) (ts : List EventTimer)
        → (h.timers w).timer_queue ≡ t ∷ ts
        → rounds (t ∷ ts) < fuel
        → Inv w
        → Exits B (Left Inv) X (tick_loop h fuel w)
    unfolding tick_loop
    tick_loop-Inv zero w t ts e f i = elim f [ ]
    tick_loop-Inv (suc fuel) w t ts e f i =
        Exits-bind B
          (λ due w'. (w' ≡ looked w) × (due ≡ leb t.expire_time (p.clock (h.timers w).reads + 0)))
          (Left Inv) X (on_timers h front_expired) _ w
          (Exits-zoom B _ X h.timers h.with_timers front_expired w
            (rw (front_expired-done (h.timers w) t ts e) (refl, refl)))
          λ due w1 (e1, due_lem).
            subst
              (λ w'. Exits B (Left Inv) X (
                (if due
                    then (tick_round h >> λ w''.
                        continue h (tick_loop h fuel) (h.timers w'').timer_queue w'')
                    else pure tt)
                  w'))
              (sym e1)
              (goes fuel w t ts due e f i (k.reading w i) (λ is. ground (arith, due_lem, is))
                (λ is. ground (arith, due_lem, is)) (tick_loop-Inv fuel))

    -- The property holds after the call, which has enough fuel; on a return the queue is empty or
    -- its front not due.
    pub tick-Inv : (w : W) → Inv w → Exits B (Left Inv) X (tick h w)
    unfolding tick
    tick-Inv w i = elim (List-cases (h.timers w).timer_queue) [
      | inl empty ↦ subst Good (sym empty) (i, empty-IsOver Inv w empty)
      | inr (t, ts, e) ↦
          subst Good (sym e) (tick_loop-Inv (rounds (t ∷ ts) + 1) w t ts e (omega arith) i)
    ]
      where
        Good : List EventTimer → Type 0
        Good r =
            Exits B (Left Inv) X
              (elim r [ [] ↦ done tt w | t ∷ ts ↦ tick_loop h (rounds (t ∷ ts) + 1) w ])
