-- ===== src/DataCenter/Reachable.antt =====
-- The invariant of the data center (cache_data_center.h) from its start on.
use cache_system_of_lease_me.Base.{ℕ, ◌≡◌, refl, [], Option}
use cache_system_of_lease_me.Outcome.{M}
use cache_system_of_lease_me.Common.{UpdateCallHandler}
use cache_system_of_lease_me.Standard.Map.{lookup}
use cache_system_of_lease_me.TimerQueue.{Platform, IsSteady, Timers}
use cache_system_of_lease_me.TimerQueue.Count.{count}
use cache_system_of_lease_me.StateManager.Expire.{IsReady}
use cache_system_of_lease_me.DataCenter.{Center}
use cache_system_of_lease_me.DataCenter.Invariant.{IsCenter}
use cache_system_of_lease_me.DataCenter.RoundEffects.{IsQuietAck}
use cache_system_of_lease_me.DataCenter.Moves.{Moves, Moves-Keeps}

module _ {T : Type 0} ⦃p : Platform⦄ where
  -- The constructor, with a timer queue.
  abbrev pub new_center : Timers → Center T
  new_center q = record { map = []; timers = q }

  new_center-IsCenter : (q : Timers) → IsReady q → q.timer_queue ≡ [] → IsCenter (new_center q)
  unfolding lookup count
  new_center-IsCenter q r empty = record {
    ready = r;
    leased = λ e el found. absurd (cc);
    absent = λ e missing. rw empty refl;
  }

  -- The clock is not set back, and the timer of an unacknowledged answer ends and leaves the queue
  -- and the elements alone. From a new data center over an empty timer queue in order, every center
  -- that reads, updates and runs of the timer queue lead to satisfies the invariant; a read or an
  -- update must meet a guaranteed element before the end of its lease, and an update needs an
  -- operation id.
  pub reachable-IsCenter :
      IsSteady p
      → (run_handler : Option UpdateCallHandler × ℕ × ℕ → M (Center T) (Unit {0}))
        (resend_ack : ℕ → M (Center T) (Unit {0}))
      → IsQuietAck (Unit {0}) resend_ack
      → (q : Timers) (c : Center T) → IsReady q
      → q.timer_queue ≡ []
      → Moves run_handler resend_ack (new_center q) c
      → IsCenter c
  reachable-IsCenter steady run_handler resend_ack quiet q c r empty runs =
      (Moves-Keeps run_handler resend_ack steady quiet (new_center q) c
        (new_center-IsCenter q r empty) runs).0
