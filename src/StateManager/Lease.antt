-- ===== src/StateManager/Lease.antt =====
-- The invariant of a manager and the timer queue (cache_state_manager.h): a lease that runs has
-- exactly one armed timer, which lasts as long as the lease, and an idle manager has none.
use cache_system_of_lease_me.Base.{
  ℕ, suc, ◌+◌, ◌≤◌, ◌<◌, ◌≡◌, ◌≢◌, refl, Bool, true, false, List, map, arith, leb, ◌==◌, ◌&&◌, inl,
  inr, ◌⊎◌,
}
use cache_system_of_lease_me.Common.{default_expire_millisecond}
use cache_system_of_lease_me.TimerQueue.{
  Platform, IsSteady, TimerCall, guarantee_over, protection_over, resend, EventTimer, disable,
}
use cache_system_of_lease_me.TimerQueue.Queue.{armed}
use cache_system_of_lease_me.TimerQueue.Count.{
  count, count-cons, count-perm, count-le, count-disable,
}
use cache_system_of_lease_me.StateManager.{
  CacheState, cache_idle, cache_guaranteed, cache_update_protected, CacheStateManager, Managed,
  is_null,
}
use cache_system_of_lease_me.StateManager.Expire.{IsReady, in_time, stopped, Started}

-- The closures of the element `e`.
abbrev pub belongs : ℕ → TimerCall → Bool
belongs e (guarantee_over this) = this == e
belongs e (protection_over this) = this == e
belongs e (resend ack) = false

-- The closure that a state waits for.
abbrev pub awaits : ℕ → CacheState → TimerCall → Bool
awaits e cache_guaranteed (guarantee_over this) = this == e
awaits e cache_update_protected (protection_over this) = this == e
awaits e _ _ = false

-- An armed timer of the element.
abbrev pub mine : ℕ → EventTimer → Bool
mine e t = armed t && belongs e t.callback

-- A timer with one run left, at the manager's address and for its state, that fires no sooner than
-- the lease ends.
abbrev pub pending : ℕ → CacheStateManager → EventTimer → Bool
pending e m t =
    t.repeat == 1
    && awaits e m.current_state t.callback
    && t.timer_id == m.timer_id
    && leb m.expire_time t.expire_time

module _ ⦃p : Platform⦄ where
  pub record IsLeased (e : ℕ) (s : Managed) : Type 0 where
    pub ready : IsReady s.timers
    pub idle :
        s.manager.current_state ≡ cache_idle
        → (s.manager.timer_id ≡ 0)
          × (s.manager.expire_time ≡ 0)
          × (count (mine e) s.timers.timer_queue ≡ 0)
    pub running :
        s.manager.current_state ≢ cache_idle
        → (0 < s.manager.timer_id)
          × (count (mine e) s.timers.timer_queue ≡ 1)
          × (count (pending e s.manager) s.timers.timer_queue ≡ 1)
    pub handled :
        s.manager.current_state ≡ cache_update_protected
        → (is_null s.manager.callhandle ≡ false) × (0 < s.manager.op_id)
    pub short : s.manager.expire_time ≤ p.clock s.timers.reads + default_expire_millisecond

  -- No timer of the element is armed.
  abbrev pub IsDisarmed : ℕ → Managed → Type 0
  IsDisarmed e s = count (mine e) s.timers.timer_queue ≡ 0

pub awaits-belongs :
    (e : ℕ) (st : CacheState) (c : TimerCall) → awaits e st c ≡ true → belongs e c ≡ true
awaits-belongs e cache_idle c h = cc
awaits-belongs e cache_guaranteed (guarantee_over this) h = h
awaits-belongs e cache_guaranteed (protection_over this) h = cc
awaits-belongs e cache_guaranteed (resend ack) h = cc
awaits-belongs e cache_update_protected (guarantee_over this) h = cc
awaits-belongs e cache_update_protected (protection_over this) h = h
awaits-belongs e cache_update_protected (resend ack) h = cc

awaits-not_idle : (e : ℕ) (st : CacheState) (c : TimerCall) → awaits e st c ≡ true → st ≢ cache_idle
awaits-not_idle e cache_idle c h = cc
awaits-not_idle e cache_guaranteed c h = λ k. cc
awaits-not_idle e cache_update_protected c h = λ k. cc

-- The pending timer is the element's and has the manager's address.
pub pending-mine :
    (e : ℕ) (m : CacheStateManager) (t : EventTimer)
    → pending e m t ≡ true
    → (mine e t && t.timer_id == m.timer_id) ≡ true
pending-mine e m t h = ground (arith, awaits-belongs e m.current_state t.callback)

pub pending-mine_only :
    (e : ℕ) (m : CacheStateManager) (t : EventTimer) → pending e m t ≡ true → mine e t ≡ true
pending-mine_only e m t h = ground (arith, pending-mine e m t)

pub idle_or_not : (st : CacheState) → (st ≡ cache_idle) ⊎ (st ≢ cache_idle)
idle_or_not cache_idle = inl refl
idle_or_not cache_guaranteed = inr (λ k. cc)
idle_or_not cache_update_protected = inr (λ k. cc)

-- Disarming the manager's address disarms the element.
disarmed_count :
    (e : ℕ) (m : CacheStateManager) (ts : List EventTimer)
    → count (mine e) ts ≡ 1
    → count (pending e m) ts ≡ 1
    → count (mine e) (map (disable m.timer_id) ts) ≡ 0
disarmed_count e m ts one pend = omega (
  arith,
  count-disable (mine e) m.timer_id (λ t. refl) ts,
  count-le (pending e m) (λ t. mine e t && t.timer_id == m.timer_id) (pending-mine e m) ts,
)

module _ ⦃p : Platform⦄ where
  -- Where the manager is idle or its lease still runs, `stop_expire` disarms the element.
  pub stopped-IsDisarmed :
      (e : ℕ) (s : Managed)
      → IsLeased e s
      → (s.manager.current_state ≡ cache_idle) ⊎ (in_time s ≡ true)
      → IsDisarmed e (stopped s)
  stopped-IsDisarmed e s l (inl idle) =
      let (unset, _, none_armed) = l.idle idle in ground (arith, unset, none_armed)
  stopped-IsDisarmed e s l (inr runs) = elim (idle_or_not s.manager.current_state) [
    | inl idle ↦ absurd (ground (arith, l.idle idle))
    | inr not_idle ↦
        let (set, one, pend) = l.running not_idle in
        let disarmed = disarmed_count e s.manager s.timers.timer_queue one pend in
        ground (arith, disarmed)
  ]

  -- `stop_expire` touches no more of the manager than the timer's address.
  pub stopped_manager :
      (s : Managed) (id expire : ℕ)
      → record (stopped s).manager { timer_id = id; expire_time = expire }
        ≡ record s.manager { timer_id = id; expire_time = expire }
  stopped_manager s id expire = ground arith

  -- A timer started for a disarmed element is its lease.
  pub Started-IsLeased :
      IsSteady p
      → (e ms : ℕ) (c : TimerCall) (st : CacheState) (s s' : Managed) → IsDisarmed e s
      → Started c ms s s'
      → awaits e st c ≡ true
      → ms ≤ default_expire_millisecond
      → (st ≡ cache_update_protected
          → (is_null s.manager.callhandle ≡ false) × (0 < s.manager.op_id))
      → IsLeased e (record s' { manager = record s'.manager { current_state = st } })
  Started-IsLeased steady e ms c st s s' d b fits brief handled = record {
    ready = b.ready;
    idle = λ idle. absurd (awaits-not_idle e st c fits idle);
    running = λ _. (ground arith, one, pend);
    handled = λ k. let (f, id) = handled k in (ground arith, ground arith);
    short = ground (arith, steady s.timers.reads s'.timers.reads);
  }
    where
      m' : CacheStateManager
      m' = record s'.manager { current_state = st }

      one : count (mine e) s'.timers.timer_queue ≡ 1
      one = ground (
        arith,
        count-perm (mine e) b.same,
        count-cons (mine e) b.timer s.timers.timer_queue,
        awaits-belongs e st c,
      )

      -- The clock does not fall between the lease's end and the timer's.
      pend : count (pending e m') s'.timers.timer_queue ≡ 1
      pend = ground (
        arith,
        count-perm (pending e m') b.same,
        count-cons (pending e m') b.timer s.timers.timer_queue,
        count-le (pending e m') (mine e) (pending-mine_only e m') s.timers.timer_queue,
        steady s.timers.reads (suc s.timers.reads) (omega arith),
      )
