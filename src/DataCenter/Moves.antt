-- ===== src/DataCenter/Moves.antt =====
-- The life of a data center (cache_data_center.h): reads, updates and runs of the timer queue
-- (timer_queue.cc) in any order.
use cache_system_of_lease_me.Base.{ℕ, ◌≤◌, ◌<◌, ◌≡◌, sym, ap, ◌∙◌, Option, arith}
use cache_system_of_lease_me.Outcome.{M, Thrown, done, thrown}
use cache_system_of_lease_me.Common.{UpdateCallHandler}
use cache_system_of_lease_me.Standard.Map.{lookup}
use cache_system_of_lease_me.TimerQueue.{Platform, IsSteady, tick}
use cache_system_of_lease_me.DataCenter.{CacheElement, Center}
use cache_system_of_lease_me.DataCenter.Invariant.{IsCenter, some_eq}
use cache_system_of_lease_me.DataCenter.Deadlock.{center_host}
use cache_system_of_lease_me.DataCenter.Lapses.{Lapses, stays, lapsed, Ran, Ran-content}
use cache_system_of_lease_me.DataCenter.RoundEffects.{IsQuietAck}
use cache_system_of_lease_me.DataCenter.Tick.{tick_returns, tick_throws}
use cache_system_of_lease_me.DataCenter.Lasting.{Lasts}
use cache_system_of_lease_me.DataCenter.Steps.{Step, Step-Keeps}

module _ {T : Type 0} ⦃p : Platform⦄ where
  -- A run of the queue does not reach a lease that ends later.
  Lapses-Lasts :
      (n id : ℕ) (v : T) (c c' : Center T)
      → Lasts n id v c
      → Ran c c'
      → p.clock c'.timers.reads < n
      → Lapses c'.timers.reads (lookup id c.map) (lookup id c'.map)
      → Lasts n id v c'
  Lapses-Lasts n id v c c' h r early (stays same) = record {
    el = h.el;
    found = same ∙ h.found;
    busy = h.busy;
    value = Ran-content c c' r id ∙ h.value;
    lasting = h.lasting;
  }
  Lapses-Lasts n id v c c' h r early (lapsed el there g over left) =
      let same : el ≡ h.el = some_eq (sym there ∙ h.found) in
      absurd (
        omega
          (arith, early, over, h.lasting, ap (λ (x : CacheElement T). x.state.expire_time) same))

  module _ (run_handler : Option UpdateCallHandler × ℕ × ℕ → M (Center T) (Unit {0}))
      (resend_ack : ℕ → M (Center T) (Unit {0})) where
    -- A read or an update that returns, or a run of the timer queue that returns or throws.
    pub data Move (c c' : Center T) : Type 0 where
      calls : Step c c' → Move c c'
      ticks : tick (center_host run_handler resend_ack) c ≡ done tt c' → Move c c'
      ticks_thrown :
          (x : Thrown) → tick (center_host run_handler resend_ack) c ≡ thrown x c' → Move c c'

    pub data Moves : Center T → Center T → Type 0 where
      rest : (c : Center T) → Moves c c
      move : (c c1 c' : Center T) → Move c c1 → Moves c1 c' → Moves c c'

    -- What a move keeps, before the time `n`.
    abbrev pub Keeps : Center T → Center T → Type 0
    Keeps c c' =
        IsCenter c'
        × (c.timers.reads ≤ c'.timers.reads)
        × ((n id : ℕ) (v : T) → p.clock c'.timers.reads < n → Lasts n id v c → Lasts n id v c')

    Ran-Keeps : (c c' : Center T) → Ran c c' → Keeps c c'
    Ran-Keeps c c' r =
        (r.kept, r.later, λ n id v early h. Lapses-Lasts n id v c c' h r early (r.lapses id))

    Move-Keeps :
        IsSteady p
        → IsQuietAck (Unit {0}) resend_ack
        → (c c' : Center T) → IsCenter c
        → Move c c'
        → Keeps c c'
    Move-Keeps steady quiet c c' i (calls s) =
        let (i', later, keeps) = Step-Keeps steady c c' i s in (i', later, λ n id v _. keeps n id v)
    Move-Keeps steady quiet c c' i (ticks runs) =
        Ran-Keeps c c' (tick_returns run_handler resend_ack steady quiet c c' i runs)
    Move-Keeps steady quiet c c' i (ticks_thrown x runs) =
        Ran-Keeps c c' (tick_throws run_handler resend_ack steady quiet c c' x i runs)

    pub Moves-Keeps :
        IsSteady p
        → IsQuietAck (Unit {0}) resend_ack
        → (c c' : Center T) → IsCenter c
        → Moves c c'
        → Keeps c c'
    Moves-Keeps steady quiet c c' i (rest _) = (i, omega arith, λ n id v _ h. h)
    Moves-Keeps steady quiet c c' i (move _ c1 _ m ms) =
        let (i1, later, keeps) = Move-Keeps steady quiet c c1 i m in
        let (i', later', keeps') = Moves-Keeps steady quiet c1 c' i1 ms in
        (
          i',
          omega (arith, later, later'),
          λ n id v early h. keeps' n id v early (
              keeps n id v (omega (arith, early, steady c1.timers.reads c'.timers.reads later')) h),
        )

    -- The clock is not set back, the timer of an unacknowledged answer ends and leaves the queue
    -- and the elements alone, and the invariant of the center holds. A lease that runs to the time
    -- `n` at least is kept until then: from a center whose element `id` has the value `v` under a
    -- lease or under update protection to `n`, any sequence of reads, updates and runs of the timer
    -- queue, which may also end by an exception, leads to a center whose element `id` has the value
    -- `v` under a lease or update protection to `n`, as long as the clock's next reading is before
    -- `n`. Each read and update must meet a guaranteed element before the end of its lease, and an
    -- update needs an operation id.
    pub lease_kept :
        IsSteady p
        → IsQuietAck (Unit {0}) resend_ack
        → (n id : ℕ) (v : T) (c c' : Center T) → IsCenter c
        → Lasts n id v c
        → Moves c c'
        → p.clock c'.timers.reads < n
        → IsCenter c' × Lasts n id v c'
    lease_kept steady quiet n id v c c' i h ms early =
        let (i', _, keeps) = Moves-Keeps steady quiet c c' i ms in (i', keeps n id v early h)
