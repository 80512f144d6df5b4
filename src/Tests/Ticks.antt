-- ===== src/Tests/Ticks.antt =====
-- Runs of the timer queue at the sample data center, before and at the end of the lease.
use cache_system_of_lease_me.Base.{ℕ, ◌≡◌, refl, arith, some}
use cache_system_of_lease_me.Outcome.{M, done, pure, Exits}
use cache_system_of_lease_me.Standard.Map.{lookup}
use cache_system_of_lease_me.TimerQueue.{tick, tick_loop, front_expired, rounds, get_time_stamp}
use cache_system_of_lease_me.TimerQueue.Count.{count}
use cache_system_of_lease_me.TimerQueue.Loop.{Left}
use cache_system_of_lease_me.StateManager.{cache_guaranteed}
use cache_system_of_lease_me.DataCenter.{Center}
use cache_system_of_lease_me.DataCenter.Invariant.{IsCenter}
use cache_system_of_lease_me.DataCenter.Deadlock.{center_host}
use cache_system_of_lease_me.DataCenter.Fronts.{protecting}
use cache_system_of_lease_me.DataCenter.Lapses.{idled, Ran}
use cache_system_of_lease_me.DataCenter.RoundEffects.{IsQuietAck}
use cache_system_of_lease_me.DataCenter.RoundEnds.{IsProtecting}
use cache_system_of_lease_me.DataCenter.Tick.{tick-Ran}
use cache_system_of_lease_me.DataCenter.Endings.{due_for, tick_ends_lease}
use cache_system_of_lease_me.DataCenter.Lasting.{Lasts}
use cache_system_of_lease_me.DataCenter.Moves.{ticks, rest, move, lease_kept}
use cache_system_of_lease_me.Tests.{sample, sample-IsSteady, manager, element, center}
use cache_system_of_lease_me.Tests.Data.{center-IsCenter, seven-Lasts}

-- No answer waits.
abbrev pub no_answer : ℕ → M (Center ℕ) (Unit {0})
no_answer a = pure tt

pub no_answer-IsQuietAck : (E : Type 0) → IsQuietAck E no_answer
no_answer-IsQuietAck E a c held = (record { same = refl; held = held; later = omega arith }, refl)

tick-Ran_example :
    Exits
      (IsProtecting (λ _. pure tt) no_answer (center 2))
      (Left (center_host (λ _. pure tt) no_answer) (Ran (center 2)))
      (λ c'. ⊥ × Ran (center 2) c')
      (tick (center_host (λ _. pure tt) no_answer) (center 2))
tick-Ran_example =
    tick-Ran (λ _. pure tt) no_answer ⊥ sample-IsSteady (no_answer-IsQuietAck ⊥) (center 2)
      (center-IsCenter 2)

unprotected : (reads : ℕ) → count protecting (center reads).timers.timer_queue ≡ 0
unfolding count
unprotected reads = refl

-- By then the timer of the element 7 is due.
seven_is_due :
    count
      (due_for 7 (element (manager cache_guaranteed)) (sample.clock 100))
      (center 100).timers.timer_queue
    ≡ 1
unfolding count
seven_is_due = refl

seven_is_there : lookup 7 (center 100).map ≡ some (element (manager cache_guaranteed))
unfolding lookup
seven_is_there = refl

tick_ends_lease_example :
    (c' : Center ℕ) × (tick (center_host (λ _. pure tt) no_answer) (center 100) ≡ done tt c')
    × (lookup 7 c'.map ≡ some (idled (element (manager cache_guaranteed))))
    × IsCenter c'
tick_ends_lease_example =
    tick_ends_lease (λ _. pure tt) no_answer sample-IsSteady (no_answer-IsQuietAck ⊥) (center 100)
      (center-IsCenter 100) (unprotected 100) 7 (element (manager cache_guaranteed)) seven_is_there
      refl seven_is_due

-- Nothing is due at the third reading.
early : tick (center_host (λ _. pure tt) no_answer) (center 2) ≡ done tt (center 3)
unfolding tick tick_loop front_expired rounds get_time_stamp
early = refl

lease_kept_example : IsCenter (center 3) × Lasts 11000 7 42 (center 3)
lease_kept_example =
    lease_kept (λ _. pure tt) no_answer sample-IsSteady (no_answer-IsQuietAck (Unit {0})) 11000 7 42
      (center 2) (center 3) (center-IsCenter 2) seven-Lasts
      (move (center 2) (center 3) (center 3) (ticks early) (rest (center 3))) (omega arith)
