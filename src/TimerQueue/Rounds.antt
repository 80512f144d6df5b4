-- ===== src/TimerQueue/Rounds.antt =====
-- One round of the loop of `tick` (timer_queue.cc): what it leaves of the queue.
use cache_system_of_lease_me.Base.{
  ◌-◌, ◌≤◌, ◌<◌, ◌≡◌, refl, Perm, subst, sym, true, false, List, ◌∷◌, Nodup, arith, All,
}
use cache_system_of_lease_me.Outcome.{done}
use cache_system_of_lease_me.Standard.Heap.{IsHeap}
use cache_system_of_lease_me.TimerQueue.{
  Platform, EventTimer, Timers, IsValid, expire_of, ids, settle_front, rounds, unlock,
}
use cache_system_of_lease_me.TimerQueue.Front.{
  settle_front-Settled, Settled, Settled-IsValid, Settled-rounds, IsHeap-below,
}

-- The queue between the callback and the removal.
pub record Fired (t : EventTimer) (ts : List EventTimer) (q q' : Timers) : Type 0 where
  pub front : q'.timer_queue ≡ record t { repeat = t.repeat - 1 } ∷ ts
  pub held : q'.mutex ≡ true
  pub later : q.reads ≤ q'.reads

-- What a round that ends its block leaves.
pub record Rounded (q q' : Timers) : Type 0 where
  pub valid : IsValid q'.timer_queue
  pub unheld : q'.mutex ≡ false
  pub fewer : rounds q'.timer_queue < rounds q.timer_queue
  pub later : q.reads ≤ q'.reads

-- What a round leaves that the callback ends by an exception: the front stays.
pub record Broken (q q' : Timers) : Type 0 where
  pub same : q'.timer_queue ≡ q.timer_queue
  pub unheld : q'.mutex ≡ false
  pub later : q.reads ≤ q'.reads

-- What a round makes of its front: one without a second run is gone, another is armed anew.
pub record Turned (t : EventTimer) (ts : List EventTimer) (q' : Timers) : Type 0 where
  pub gone : t.repeat ≤ 1 → Perm q'.timer_queue ts
  pub anew :
      1 < t.repeat → (u : EventTimer) × (u.callback ≡ t.callback) × Perm q'.timer_queue (u ∷ ts)

module _ ⦃p : Platform⦄ where
  Settled-Turned :
      (t : EventTimer) (ts : List EventTimer) (q q' : Timers)
      → Settled (record t { repeat = t.repeat - 1 }) ts q q'
      → Turned t ts q'
  Settled-Turned t ts q q' s = record {
    gone = λ few. (s.gone (omega arith)).0;
    anew = λ more. (_, refl, (s.anew (omega arith)).0);
  }

  pub Fired-Rounded :
      (q q1 : Timers) (t : EventTimer) (ts : List EventTimer)
      → q.timer_queue ≡ t ∷ ts
      → IsValid q.timer_queue
      → Fired t ts q q1
      → (q2 : Timers) × (settle_front q1 ≡ done tt q2)
        × Rounded q (unlock q2)
        × Turned t ts (unlock q2)
  Fired-Rounded q q1 t ts e v f =
      let u = record t { repeat = t.repeat - 1 } in
      let heap = subst (λ r. IsHeap expire_of r) e v.heap in
      let (q2, settled, s) = settle_front-Settled q1 u ts f.front (λ x. IsHeap-below t x ts heap) in
      let not_null = subst (λ r. All (λ x. 0 < x.timer_id) r) e v.not_null in
      let distinct = subst (λ r. Nodup (ids r)) e v.distinct in
      let valid = Settled-IsValid u ts q1 q2 distinct not_null.0 not_null.1 s in
      let turned = Settled-Turned t ts q1 q2 s in
      (
        q2,
        settled,
        record {
          valid = record {
            heap = valid.heap;
            distinct = valid.distinct;
            not_null = valid.not_null;
          };
          unheld = refl;
          fewer =
              subst (λ r. rounds q2.timer_queue < rounds r) (sym e) (Settled-rounds t ts q1 q2 s);
          later = omega (arith, f.later, s.later);
        },
        record { gone = turned.gone; anew = turned.anew },
      )
