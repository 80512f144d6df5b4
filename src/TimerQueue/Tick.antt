-- ===== src/TimerQueue/Tick.antt =====
-- `tick` (timer_queue.cc): the loop ends, and leaves a valid queue with nothing due.
use cache_system_of_lease_me.Base.{
  ℕ, zero, suc, ◌+◌, ◌≤◌, ◌<◌, ◌≡◌, refl, ap, ◌∙◌, subst, sym, false, List, [], ◌∷◌, arith, leb,
  All, inl, inr, ◌⊎◌, Bool-cases, List-cases,
}
use cache_system_of_lease_me.Outcome.{◌>>◌, M, done, Exits, Exits-bind, Exits-zoom, Exits-map}
use cache_system_of_lease_me.Standard.Heap.{IsHeap}
use cache_system_of_lease_me.Standard.Heap.Order.{front_least}
use cache_system_of_lease_me.TimerQueue.{
  Platform, EventTimer, Timers, Host, IsQuiet, IsValid, expire_of, rounds, continue, front_expired,
  on_timers, tick_round, tick_loop, tick,
}
use cache_system_of_lease_me.TimerQueue.Count.{All-map}
use cache_system_of_lease_me.TimerQueue.Rounds.{Rounded, Broken}
use cache_system_of_lease_me.TimerQueue.Turns.{tick_round-Rounded}

module _ ⦃p : Platform⦄ where
  -- Every timer expires after the clock's reading number `i`.
  abbrev pub NothingDue : ℕ → List EventTimer → Type 0
  NothingDue i ts = All (λ t. p.clock i < t.expire_time) ts

  -- The queue is empty, or nothing of it was due at a reading that the call made.
  abbrev pub IsClean : ℕ → Timers → Type 0
  IsClean start q =
      (q.timer_queue ≡ []) ⊎ ((i : ℕ) × (start ≤ i) × (i < q.reads) × NothingDue i q.timer_queue)

  pub record Ticked (start : ℕ) (q : Timers) : Type 0 where
    pub valid : IsValid q.timer_queue
    pub unheld : q.mutex ≡ false
    pub clean : IsClean start q

  -- What an exception of a callback leaves.
  pub record Interrupted (q : Timers) : Type 0 where
    pub valid : IsValid q.timer_queue
    pub unheld : q.mutex ≡ false

  pub front_expired-done :
      (q : Timers) (t : EventTimer) (ts : List EventTimer)
      → q.timer_queue ≡ t ∷ ts
      → front_expired q
        ≡ done (leb t.expire_time (p.clock q.reads + 0)) (record q { reads = suc q.reads })
  unfolding front_expired
  front_expired-done q t ts e = ground arith

  not_due_lt : (a b : ℕ) → leb a (b + 0) ≡ false → b < a
  not_due_lt a b h = ground arith

  -- If the front of a heap is not due, nothing is.
  pub front_later :
      (n : ℕ) (t : EventTimer) (ts : List EventTimer)
      → IsHeap expire_of (t ∷ ts)
      → n < t.expire_time
      → All (λ u. n < u.expire_time) (t ∷ ts)
  front_later n t ts h later = All-map (λ u le. omega arith) (t ∷ ts) (front_least expire_of t ts h)

  pub Exits-continue :
      {W : Type 0} (B : Type 0) (h : Host W) (P : Unit {0} → W → Type 0) (X : W → Type 0)
      (rest : M W (Unit {0})) (ts : List EventTimer) (w : W)
      → (ts ≡ [] → P tt w)
      → ((t : EventTimer) (us : List EventTimer) → ts ≡ t ∷ us → Exits B P X (rest w))
      → Exits B P X (continue h rest ts w)
  unfolding continue
  Exits-continue B h P X rest [] w none more = none refl
  Exits-continue B h P X rest (t ∷ us) w none more = more t us refl

  module _ {W : Type 0} (h : Host W) (B : Type 0) (quiet : IsQuiet B h) where
    -- A round and what comes after it, where the rest of the loop is known to end.
    round-Ticked :
        (k start : ℕ) (w : W) (t : EventTimer) (ts : List EventTimer)
        → (h.timers w).timer_queue ≡ t ∷ ts
        → (h.timers w).mutex ≡ false
        → IsValid (h.timers w).timer_queue
        → ((w' : W) (u : EventTimer) (us : List EventTimer)
            → Rounded (h.timers w) (h.timers w')
            → (h.timers w').timer_queue ≡ u ∷ us
            → Exits B
                (λ _ w''. Ticked start (h.timers w''))
                (λ w''. Interrupted (h.timers w''))
                (tick_loop h k w'))
        → Exits B
            (λ _ w'. Ticked start (h.timers w'))
            (λ w'. Interrupted (h.timers w'))
            ((tick_round h >> λ w'. continue h (tick_loop h k) (h.timers w').timer_queue w') w)
    round-Ticked k start w t ts e free v rest =
        Exits-bind B (λ _ w'. Rounded (h.timers w) (h.timers w'))
          (λ _ w'. Ticked start (h.timers w')) (λ w'. Interrupted (h.timers w')) (tick_round h) _ w
          (Exits-map B (λ _ w'. Rounded (h.timers w) (h.timers w'))
            (λ _ w'. Rounded (h.timers w) (h.timers w')) (λ w'. Broken (h.timers w) (h.timers w'))
            (λ w'. Interrupted (h.timers w')) (tick_round h w) (λ _ _ r. r)
            (λ w' b. record { valid = subst IsValid (sym b.same) v; unheld = b.unheld })
            (tick_round-Rounded h B quiet w t ts e free v))
          λ _ w' r.
            Exits-continue B h (λ _ w''. Ticked start (h.timers w''))
              (λ w''. Interrupted (h.timers w'')) (tick_loop h k) (h.timers w').timer_queue w'
              (λ empty. record { valid = r.valid; unheld = r.unheld; clean = inl empty })
              (λ u us more. rest w' u us r more)

    tick_loop-Ticked :
        (k start : ℕ) (w : W) (t : EventTimer) (ts : List EventTimer)
        → (h.timers w).timer_queue ≡ t ∷ ts
        → rounds (t ∷ ts) < k
        → (h.timers w).mutex ≡ false
        → IsValid (h.timers w).timer_queue
        → start ≤ (h.timers w).reads
        → Exits B
            (λ _ w'. Ticked start (h.timers w'))
            (λ w'. Interrupted (h.timers w'))
            (tick_loop h k w)
    unfolding tick_loop
    tick_loop-Ticked zero start w t ts e f free v s = elim f [ ]
    tick_loop-Ticked (suc k) start w t ts e f free v s =
        Exits-bind B
          (λ due w'.
            (h.timers w' ≡ record (h.timers w) { reads = suc (h.timers w).reads })
            × (due ≡ leb t.expire_time (p.clock (h.timers w).reads + 0)))
          (λ _ w'. Ticked start (h.timers w')) (λ w'. Interrupted (h.timers w'))
          (on_timers h front_expired) _ w
          (Exits-zoom B _ (λ w'. Interrupted (h.timers w')) h.timers h.with_timers front_expired w
            (rw (front_expired-done (h.timers w) t ts e) (h.timers-with_timers _ w, refl)))
          λ due w1 (e1, due_lem). elim (Bool-cases due) [
            | inl yes_due ↦ rw yes_due (
                round-Ticked k start w1 t ts (queue w1 e1 ∙ e)
                  (ap (λ (x : Timers). x.mutex) e1 ∙ free) (valid w1 e1)
                  λ w2 u us r more.
                    tick_loop-Ticked k start w2 u us more
                      (omega (arith, r.fewer, ap rounds more, ap rounds (queue w1 e1 ∙ e))) r.unheld
                      r.valid (omega (arith, r.later, ap (λ (x : Timers). x.reads) e1)))
            | inr not_due ↦ rw not_due (record {
              valid = valid w1 e1;
              unheld = ap (λ (x : Timers). x.mutex) e1 ∙ free;
              clean = later w1 e1 (sym due_lem ∙ not_due);
            })
          ]
      where
        queue :
            (w1 : W)
            → h.timers w1 ≡ record (h.timers w) { reads = suc (h.timers w).reads }
            → (h.timers w1).timer_queue ≡ (h.timers w).timer_queue
        queue w1 e1 = ap (λ (x : Timers). x.timer_queue) e1

        valid :
            (w1 : W)
            → h.timers w1 ≡ record (h.timers w) { reads = suc (h.timers w).reads }
            → IsValid (h.timers w1).timer_queue
        valid w1 e1 = subst IsValid (sym (queue w1 e1)) v

        later :
            (w1 : W)
            → h.timers w1 ≡ record (h.timers w) { reads = suc (h.timers w).reads }
            → leb t.expire_time (p.clock (h.timers w).reads + 0) ≡ false
            → IsClean start (h.timers w1)
        later w1 e1 not_due = inr (
          (h.timers w).reads,
          s,
          omega (arith, ap (λ (x : Timers). x.reads) e1),
          subst (λ r. NothingDue (h.timers w).reads r) (sym (queue w1 e1 ∙ e))
              (front_later (p.clock (h.timers w).reads) t ts
                (subst (λ r. IsHeap expire_of r) e v.heap) (not_due_lt _ _ not_due)),
        )

    -- Where callbacks leave the queue alone, `tick` ends from a valid queue with a free mutex, and
    -- it does not run into undefined behaviour. On a return the queue is valid, the mutex free,
    -- and no timer that is left was due at a clock reading that the call made; a callback's
    -- exception leaves the queue valid and the mutex free too; and only a callback that waits for
    -- ever (which `B` may exclude) makes it wait.
    pub tick-Ticked :
        (w : W)
        → IsValid (h.timers w).timer_queue
        → (h.timers w).mutex ≡ false
        → Exits B
            (λ _ w'. Ticked (h.timers w).reads (h.timers w'))
            (λ w'. Interrupted (h.timers w'))
            (tick h w)
    unfolding tick
    tick-Ticked w v free = elim (List-cases (h.timers w).timer_queue) [
      | inl empty ↦ subst Good (sym empty) (record { valid = v; unheld = free; clean = inl empty })
      | inr (t, ts, e) ↦ subst Good (sym e) (
          tick_loop-Ticked (rounds (t ∷ ts) + 1) (h.timers w).reads w t ts e (omega arith) free v
            (omega arith))
    ]
      where
        Good : List EventTimer → Type 0
        Good r =
            Exits B (λ _ w'. Ticked (h.timers w).reads (h.timers w'))
              (λ w'. Interrupted (h.timers w'))
              (elim r [ [] ↦ done tt w | t ∷ ts ↦ tick_loop h (rounds (t ∷ ts) + 1) w ])
