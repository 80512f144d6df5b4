-- ===== src/StateManager/Isolation.antt =====
-- The elements share one timer queue (cache_state_manager.h): a call on one leaves the armed
-- timers of the others.
use cache_system_of_lease_me.Base.{
  ℕ, ◌≤◌, ◌≡◌, ◌≢◌, refl, ◌∙◌, Bool, true, false, List, map, arith, not, inl, inr, ◌&&◌, ◌==◌,
}
use cache_system_of_lease_me.TimerQueue.{
  Platform, IsSteady, TimerCall, guarantee_over, protection_over, resend, EventTimer, Timers,
  disable,
}
use cache_system_of_lease_me.TimerQueue.Queue.{armed}
use cache_system_of_lease_me.TimerQueue.Count.{
  count, count-perm, count-cons, count-disable, count_disjoint, count-id-le,
}
use cache_system_of_lease_me.StateManager.{CacheStateManager, Managed}
use cache_system_of_lease_me.StateManager.Expire.{IsReady, stopped, Started}
use cache_system_of_lease_me.StateManager.Lease.{
  belongs, mine, pending, pending-mine_only, idle_or_not, IsLeased,
}

-- A test that only armed timers of others pass.
abbrev pub IsForeign : ℕ → (EventTimer → Bool) → Type 0
IsForeign e P = (t : EventTimer) → P t ≡ true → (armed t && not (belongs e t.callback)) ≡ true

-- What a call on the element `e` does to the queue.
pub record Spares (e : ℕ) (q q' : Timers) : Type 0 where
  pub later : q.reads ≤ q'.reads
  pub same :
      (P : EventTimer → Bool) → IsForeign e P → count P q'.timer_queue ≡ count P q.timer_queue

foreign_disabled :
    (e : ℕ) (P : EventTimer → Bool)
    → IsForeign e P
    → (t : EventTimer) → P (record t { repeat = 0 }) ≡ false
foreign_disabled e P f t = ground (arith, f (record t { repeat = 0 }))

-- The pending timer is the only one at the manager's address, so disarming that address spares
-- the others.
disable-spares :
    (e : ℕ) (m : CacheStateManager) (ts : List EventTimer) (P : EventTimer → Bool)
    → IsForeign e P
    → count (λ t. t.timer_id == m.timer_id) ts ≤ 1
    → count (pending e m) ts ≡ 1
    → count P (map (disable m.timer_id) ts) ≡ count P ts
disable-spares e m ts P f one pend = omega (
  arith,
  count-disable P m.timer_id (foreign_disabled e P f) ts,
  count_disjoint (λ t. P t && t.timer_id == m.timer_id) (pending e m)
      (λ t. t.timer_id == m.timer_id) (λ t h. ground arith) (λ t h. ground arith)
      (λ t h. ground (arith, f t, pending-mine_only e m t)) ts,
)

belongs_apart : (e e' : ℕ) (c : TimerCall) → e' ≢ e → belongs e' c ≡ true → belongs e c ≡ false
belongs_apart e e' (guarantee_over this) n h = ground arith
belongs_apart e e' (protection_over this) n h = ground arith
belongs_apart e e' (resend ack) n h = refl

module _ ⦃p : Platform⦄ where
  stopped-Spares : (e : ℕ) (s : Managed) → IsLeased e s → Spares e s.timers (stopped s).timers
  stopped-Spares e s l = record { later = ground arith; same = λ P f. same P f }
    where
      same :
          (P : EventTimer → Bool)
          → IsForeign e P
          → count P (stopped s).timers.timer_queue ≡ count P s.timers.timer_queue
      same P f = elim (idle_or_not s.manager.current_state) [
        | inl idle ↦ ground (arith, l.idle idle)
        | inr busy ↦
            let (_, _, pend) = l.running busy in
            ground (
              arith,
              disable-spares e s.manager s.timers.timer_queue P f
                  (count-id-le s.manager.timer_id s.timers.timer_queue l.ready.valid.distinct) pend,
            )
      ]

  -- A timer started for the element spares the others.
  pub Started-Spares :
      (e ms : ℕ) (c : TimerCall) (s s' : Managed)
      → IsLeased e s
      → Started c ms (stopped s) s'
      → belongs e c ≡ true
      → Spares e s.timers s'.timers
  Started-Spares e ms c s s' l b own =
      let z = stopped-Spares e s l in
      record {
        later = omega (arith, z.later, b.reads);
        same = λ P f. ground (
          arith,
          z.same P f,
          count-perm P b.same,
          count-cons P b.timer (stopped s).timers.timer_queue,
          f b.timer,
        );
      }

  pub IsForeign-mine : (e e' : ℕ) → e' ≢ e → IsForeign e (mine e')
  IsForeign-mine e e' n t h = ground (arith, belongs_apart e e' t.callback n)

  IsForeign-pending : (e e' : ℕ) (m : CacheStateManager) → e' ≢ e → IsForeign e (pending e' m)
  IsForeign-pending e e' m n t h = IsForeign-mine e e' n t (pending-mine_only e' m t h)

  -- So the invariant of another element outlasts the call.
  pub Spares-IsLeased :
      IsSteady p
      → (e e' : ℕ) (m : CacheStateManager) (q q' : Timers) → e' ≢ e
      → Spares e q q'
      → IsReady q'
      → IsLeased e' (record { manager = m; timers = q })
      → IsLeased e' (record { manager = m; timers = q' })
  Spares-IsLeased steady e e' m q q' n z r l = record {
    ready = r;
    idle = λ h. let (a, b, c) = l.idle h in (a, b, z.same (mine e') (IsForeign-mine e e' n) ∙ c);
    running = λ h.
        let (a, b, c) = l.running h in
        (
          a,
          z.same (mine e') (IsForeign-mine e e' n) ∙ b,
          z.same (pending e' m) (IsForeign-pending e e' m n) ∙ c,
        );
    handled = l.handled;
    short = omega (arith, l.short, steady q.reads q'.reads z.later);
  }
