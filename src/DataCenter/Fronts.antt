-- ===== src/DataCenter/Fronts.antt =====
-- The timers in front of the queue (timer_queue.cc) that are of no concern to the elements of a data
-- center (cache_data_center.h): disarmed ones and those of answers.
use cache_system_of_lease_me.Base.{
  ℕ, ◌-◌, ◌≡◌, refl, ap, ◌∙◌, Bool, true, false, List, ◌∷◌, arith, ℕ_discrete, ◌&&◌, not,
}
use cache_system_of_lease_me.TimerQueue.{
  TimerCall, guarantee_over, protection_over, resend, EventTimer, Timers,
}
use cache_system_of_lease_me.TimerQueue.Queue.{armed}
use cache_system_of_lease_me.TimerQueue.Count.{count, count-cons, count-perm}
use cache_system_of_lease_me.TimerQueue.Rounds.{Turned}
use cache_system_of_lease_me.StateManager.{CacheStateManager}
use cache_system_of_lease_me.StateManager.Lease.{belongs, mine, pending, pending-mine_only}

abbrev pub protects : TimerCall → Bool
protects (guarantee_over this) = false
protects (protection_over this) = true
protects (resend ack) = false

-- An armed timer of an update protection.
abbrev pub protecting : EventTimer → Bool
protecting t = armed t && protects t.callback

abbrev pub answers : TimerCall → Bool
answers (guarantee_over this) = false
answers (protection_over this) = false
answers (resend ack) = true

-- A test that only armed timers of elements pass.
abbrev pub IsHeard : (EventTimer → Bool) → Type 0
IsHeard P = (t : EventTimer) → P t ≡ true → (armed t && not (answers t.callback)) ≡ true

-- A front whose round is of no concern to the elements.
abbrev pub IsSilent : EventTimer → Type 0
IsSilent t = (armed t && not (answers t.callback)) ≡ false

belongs-answers : (e : ℕ) (c : TimerCall) → belongs e c ≡ true → answers c ≡ false
belongs-answers e (guarantee_over this) h = refl
belongs-answers e (protection_over this) h = refl
belongs-answers e (resend ack) h = absurd (cc)

pub mine-IsHeard : (e : ℕ) → IsHeard (mine e)
mine-IsHeard e t h = ground (arith, belongs-answers e t.callback)

pub pending-IsHeard : (e : ℕ) (m : CacheStateManager) → IsHeard (pending e m)
pending-IsHeard e m t h = mine-IsHeard e t (pending-mine_only e m t h)

protects-answers : (c : TimerCall) → protects c ≡ true → answers c ≡ false
protects-answers (guarantee_over this) h = absurd (cc)
protects-answers (protection_over this) h = refl
protects-answers (resend ack) h = absurd (cc)

pub protecting-IsHeard : IsHeard protecting
protecting-IsHeard t h = ground (arith, protects-answers t.callback)

-- A round with a silent front leaves as many timers that an element waits for.
pub Turned-count :
    (P : EventTimer → Bool)
    → IsHeard P
    → (t : EventTimer) (ts : List EventTimer) (q' : Timers) → IsSilent t
    → Turned t ts q'
    → count P q'.timer_queue ≡ count P (t ∷ ts)
Turned-count P heard t ts q' silent turned = elim (ℕ_discrete (t.repeat - 1) 0) [
  | yes once ↦ ground (arith, count-perm P (turned.gone (omega arith)), count-cons P t ts, heard t)
  | no again ↦
      let (u, same, left) = turned.anew (omega arith) in
      let unheard : answers u.callback ≡ true = ap answers same ∙ ground arith in
      ground (arith, count-perm P left, count-cons P u ts, count-cons P t ts, heard t, heard u)
]
