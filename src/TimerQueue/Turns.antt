-- ===== src/TimerQueue/Turns.antt =====
-- The rounds of `tick` (timer_queue.cc): the lock, the front's callback, and the front's removal.
use cache_system_of_lease_me.Base.{
  ◌<◌, ◌≡◌, refl, ap, ◌∙◌, subst, sym, true, false, List, ◌∷◌, arith, ltb, inl, inr, Bool-cases,
}
use cache_system_of_lease_me.Outcome.{
  ◌>>◌, Exits, Exits-bind, Exits-finally, Exits-zoom, Exits-map, finally,
}
use cache_system_of_lease_me.TimerQueue.{
  Platform, TimerCall, EventTimer, Timers, Host, IsValid, decrement_front, settle_front, IsQuiet,
  Held, lock, unlock, fire, on_timers, fire_front, tick_round,
}
use cache_system_of_lease_me.TimerQueue.Front.{decrement_front-done, lock-free}
use cache_system_of_lease_me.TimerQueue.Rounds.{Fired, Rounded, Broken, Turned, Fired-Rounded}

module _ ⦃p : Platform⦄ where
  module _ {W : Type 0} (h : Host W) where
    abbrev pub release : W → W
    release w = h.with_timers (unlock (h.timers w)) w

    -- The program while a round holds the mutex of the queue.
    abbrev pub locked : W → W
    locked w = h.with_timers (record (h.timers w) { mutex = true }) w

    -- A property of the program's other parts.
    abbrev pub IsApart : (W → Type 0) → Type 0
    IsApart C = (q : Timers) (w : W) → C w → C (h.with_timers q w)

    -- What a callback must do for its round: leave the queue alone, with `C` on a return and `D` on
    -- an exception.
    abbrev pub Calls : Type 0 → (W → Type 0) → (W → Type 0) → TimerCall → W → Type 0
    Calls B C D call w =
        Exits B (λ _ w'. Held (h.timers w) (h.timers w') × C w')
          (λ w'. Held (h.timers w) (h.timers w') × D w') (h.call call w)

    module _ (B : Type 0) (C D : W → Type 0) (apart : IsApart C) where
      fire-Fired :
          (w : W) (t : EventTimer) (ts : List EventTimer)
          → (h.timers w).timer_queue ≡ t ∷ ts
          → (h.timers w).mutex ≡ true
          → (t.repeat ≡ 0 → C w)
          → (0 < t.repeat → Calls B C D t.callback w)
          → Exits B
              (λ _ w'. Fired t ts (h.timers w) (h.timers w') × C w')
              (λ w'. Held (h.timers w) (h.timers w') × D w')
              (fire h (t ∷ ts) w)
      unfolding fire
      fire-Fired w t ts e held none_left calls = elim (Bool-cases (ltb 0 t.repeat)) [
        | inl runs ↦ rw runs (
            Exits-bind B (λ _ w'. Held (h.timers w) (h.timers w') × C w')
              (λ _ w'. Fired t ts (h.timers w) (h.timers w') × C w')
              (λ w'. Held (h.timers w) (h.timers w') × D w') (h.call t.callback)
              (λ _. on_timers h decrement_front) w (calls (ground arith))
              λ _ w' (k, c).
                Exits-zoom B (λ _ w''. Fired t ts (h.timers w) (h.timers w'') × C w'')
                  (λ w''. Held (h.timers w) (h.timers w'') × D w'') h.timers h.with_timers
                  decrement_front w' (decremented w' k c))
        | inr done_already ↦ rw done_already (
          record { front = ground arith; held = held; later = omega arith },
          none_left (ground arith),
        )
      ]
        where
          decremented :
              (w' : W)
              → Held (h.timers w) (h.timers w')
              → C w'
              → Exits B
                  (λ _ q'.
                    Fired t ts (h.timers w) (h.timers (h.with_timers q' w'))
                    × C (h.with_timers q' w'))
                  (λ q'.
                    Held (h.timers w) (h.timers (h.with_timers q' w')) × D (h.with_timers q' w'))
                  (decrement_front (h.timers w'))
          decremented w' k c = rw (decrement_front-done (h.timers w') t ts (k.same ∙ e)) (
            subst (Fired t ts (h.timers w)) (sym (h.timers-with_timers _ w'))
                (record { front = refl; held = k.held; later = k.later }),
            apart _ w' c,
          )

      -- A round from a valid queue: what it makes of the queue, and what its callback leaves.
      pub tick_round-Turned :
          IsApart D
          → (w : W) (t : EventTimer) (ts : List EventTimer) → (h.timers w).timer_queue ≡ t ∷ ts
          → (h.timers w).mutex ≡ false
          → IsValid (h.timers w).timer_queue
          → (t.repeat ≡ 0 → C (locked w))
          → (0 < t.repeat → Calls B C D t.callback (locked w))
          → Exits B
              (λ _ w'. Rounded (h.timers w) (h.timers w') × Turned t ts (h.timers w') × C w')
              (λ w'. Broken (h.timers w) (h.timers w') × D w')
              (tick_round h w)
      unfolding tick_round
      tick_round-Turned apart_d w t ts e free v none_left calls =
          Exits-bind B (λ _ w'. w' ≡ locked w) Good Bad (on_timers h lock)
            (λ _. finally (fire_front h >> on_timers h settle_front) (release)) w
            (Exits-zoom B (λ _ w'. w' ≡ locked w) Bad h.timers h.with_timers lock w
              (rw (lock-free (h.timers w) free) refl))
            λ _ w1 e1.
              Exits-finally B Good Bad (fire_front h >> on_timers h settle_front) (release) w1 (
                Exits-bind B (λ _ w2. Fired t ts (h.timers w) (h.timers w2) × C w2)
                  (λ a w2. Good a (release w2)) (λ w2. Bad (release w2)) (fire_front h)
                  (λ _. on_timers h settle_front) w1 (subst Fires (sym e1) fired)
                  λ _ w2 f. settled w2 f.0 f.1)
        where
          Good : Unit {0} → W → Type 0
          Good _ w' = Rounded (h.timers w) (h.timers w') × Turned t ts (h.timers w') × C w'

          Bad : W → Type 0
          Bad w' = Broken (h.timers w) (h.timers w') × D w'

          Fires : W → Type 0
          Fires w1 =
              Exits B (λ _ w2. Fired t ts (h.timers w) (h.timers w2) × C w2)
                (λ w2. Bad (release w2)) (fire_front h w1)

          at_locked : h.timers (locked w) ≡ record (h.timers w) { mutex = true }
          at_locked = h.timers-with_timers (record (h.timers w) { mutex = true }) w

          same : (h.timers (locked w)).timer_queue ≡ (h.timers w).timer_queue
          same = ap (λ (x : Timers). x.timer_queue) at_locked

          read : (h.timers (locked w)).reads ≡ (h.timers w).reads
          read = ap (λ (x : Timers). x.reads) at_locked

          fired : Fires (locked w)
          fired =
              subst
                (λ r.
                  Exits B (λ _ w2. Fired t ts (h.timers w) (h.timers w2) × C w2)
                    (λ w2. Bad (release w2)) (fire h r (locked w)))
                (sym (same ∙ e))
                (Exits-map B (λ _ w2. Fired t ts (h.timers (locked w)) (h.timers w2) × C w2)
                  (λ _ w2. Fired t ts (h.timers w) (h.timers w2) × C w2)
                  (λ w2. Held (h.timers (locked w)) (h.timers w2) × D w2) (λ w2. Bad (release w2))
                  (fire h (t ∷ ts) (locked w))
                  (λ _ w2 (f, c). (
                    record { front = f.front; held = f.held; later = omega (arith, f.later, read) },
                    c,
                  ))
                  (λ w2 (k, d). (
                    subst (Broken (h.timers w))
                        (sym (h.timers-with_timers (unlock (h.timers w2)) w2))
                        (record {
                          same = k.same ∙ same;
                          unheld = refl;
                          later = omega (arith, k.later, read);
                        }),
                    apart_d _ w2 d,
                  ))
                  (fire-Fired (locked w) t ts (same ∙ e) (ap (λ (x : Timers). x.mutex) at_locked)
                    none_left calls))

          settled :
              (w2 : W)
              → Fired t ts (h.timers w) (h.timers w2)
              → C w2
              → Exits B
                  (λ a w3. Good a (release w3))
                  (λ w3. Bad (release w3))
                  (on_timers h settle_front w2)
          settled w2 f c =
              let (q2, ends, r, turned) = Fired-Rounded (h.timers w) (h.timers w2) t ts e v f in
              let after : h.timers (release (h.with_timers q2 w2)) ≡ unlock q2 =
                h.timers-with_timers _ _ ∙ ap unlock (h.timers-with_timers q2 w2) in
              Exits-zoom B (λ a w3. Good a (release w3)) (λ w3. Bad (release w3)) h.timers
                h.with_timers settle_front w2
                (rw ends (
                  subst (Rounded (h.timers w)) (sym after) r,
                  subst (Turned t ts) (sym after) turned,
                  apart _ (h.with_timers q2 w2) (apart q2 w2 c),
                ))

    -- Where no callback touches the queue, no round is more than that.
    pub tick_round-Rounded :
        (B : Type 0)
        → IsQuiet B h
        → (w : W) (t : EventTimer) (ts : List EventTimer) → (h.timers w).timer_queue ≡ t ∷ ts
        → (h.timers w).mutex ≡ false
        → IsValid (h.timers w).timer_queue
        → Exits B
            (λ _ w'. Rounded (h.timers w) (h.timers w'))
            (λ w'. Broken (h.timers w) (h.timers w'))
            (tick_round h w)
    tick_round-Rounded B quiet w t ts e free v =
        let held : (h.timers (locked w)).mutex ≡ true =
          ap (λ (x : Timers). x.mutex)
            (h.timers-with_timers (record (h.timers w) { mutex = true }) w) in
        Exits-map B
          (λ _ w'. Rounded (h.timers w) (h.timers w') × Turned t ts (h.timers w') × Unit {0})
          (λ _ w'. Rounded (h.timers w) (h.timers w'))
          (λ w'. Broken (h.timers w) (h.timers w') × Unit {0})
          (λ w'. Broken (h.timers w) (h.timers w')) (tick_round h w) (λ _ w' k. k.0) (λ w' k. k.0)
          (tick_round-Turned B (λ _. Unit {0}) (λ _. Unit {0}) (λ _ _ _. tt) (λ _ _ _. tt) w t ts e
            free v (λ _. tt)
            (λ _.
              Exits-map B (λ _ w'. Held (h.timers (locked w)) (h.timers w'))
                (λ _ w'. Held (h.timers (locked w)) (h.timers w') × Unit {0})
                (λ w'. Held (h.timers (locked w)) (h.timers w'))
                (λ w'. Held (h.timers (locked w)) (h.timers w') × Unit {0})
                (h.call t.callback (locked w)) (λ _ w' k. (k, tt)) (λ w' k. (k, tt))
                (quiet t.callback (locked w) held)))
