-- ===== src/StateManager/Front.antt =====
-- The timer of an element in front of the queue (cache_state_manager.h): it is the one that the
-- element's state waits for.
use cache_system_of_lease_me.Base.{ℕ, ◌≡◌, refl, ap, true, List, ◌∷◌, arith, inl, inr}
use cache_system_of_lease_me.TimerQueue.{Platform, guarantee_over, EventTimer}
use cache_system_of_lease_me.TimerQueue.Count.{count, count-cons, count-le}
use cache_system_of_lease_me.StateManager.{
  CacheState, cache_idle, cache_guaranteed, cache_update_protected, Managed,
}
use cache_system_of_lease_me.StateManager.Lease.{
  awaits, mine, pending, pending-mine_only, idle_or_not, IsLeased,
}

pub awaits_guarantee :
    (e k : ℕ) (st : CacheState) → awaits e st (guarantee_over k) ≡ true → st ≡ cache_guaranteed
awaits_guarantee e k cache_idle h = absurd (cc)
awaits_guarantee e k cache_guaranteed h = refl
awaits_guarantee e k cache_update_protected h = absurd (cc)

module _ ⦃p : Platform⦄ where
  -- It is the one that the element waits for.
  pub front-pending :
      (e : ℕ) (m : Managed) (t : EventTimer) (ts : List EventTimer)
      → IsLeased e m
      → m.timers.timer_queue ≡ t ∷ ts
      → mine e t ≡ true
      → pending e m.manager t ≡ true
  front-pending e m t ts l front own = elim (idle_or_not m.manager.current_state) [
    | inl idle ↦
        let (_, _, none_armed) = l.idle idle in
        absurd
          (ground (arith, none_armed, ap (count (mine e)) front, count-cons (mine e) t ts, own))
    | inr busy ↦
        let (_, one, pend) = l.running busy in
        ground (
          arith,
          one,
          pend,
          ap (count (mine e)) front,
          ap (count (pending e m.manager)) front,
          count-cons (mine e) t ts,
          count-cons (pending e m.manager) t ts,
          count-le (pending e m.manager) (mine e) (pending-mine_only e m.manager) ts,
          own,
        )
  ]
