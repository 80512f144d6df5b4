-- ===== src/Tests/Queue.antt =====
-- Runs of the timer queue, and the theorems about it at the sample state.
use cache_system_of_lease_me.Base.{ℕ, ◌+◌, ◌≡◌, refl, arith, Bool, false, not, ◌==◌, ◌&&◌}
use cache_system_of_lease_me.Outcome.{done, Exits}
use cache_system_of_lease_me.TimerQueue.{
  guarantee_over, resend, EventTimer, Timers, Host, IsQuiet, IsValid, ids, add_timer, del_timer,
  tick,
}
use cache_system_of_lease_me.TimerQueue.Count.{count}
use cache_system_of_lease_me.TimerQueue.Queue.{
  armed, new_timer, Added, add_timer-Added, del_timer_correct,
}
use cache_system_of_lease_me.TimerQueue.Tick.{Ticked, Interrupted, tick-Ticked}
use cache_system_of_lease_me.Tests.{sample, queue, queue-IsValid}

abbrev start : Timers
start = queue (guarantee_over 7) 2

add_timer-Added_example :
    (q' : Timers) × (add_timer (resend 3) 500 1 start
      ≡ done (new_timer (resend 3) 500 1 start).timer_id q')
    × Added (resend 3) 500 1 start q'
add_timer-Added_example =
    add_timer-Added (resend 3) 500 1 start (queue-IsValid (guarantee_over 7)) refl (omega arith)

del_timer_correct_example :
    (q' : Timers) × (del_timer 1 start ≡ done tt q')
    × IsValid q'.timer_queue
    × (ids q'.timer_queue ≡ ids start.timer_queue)
    × (count (λ t. armed t && t.timer_id == 1) q'.timer_queue ≡ 0)
    × ((P : EventTimer → Bool)
        → count (λ t. P t && not (t.timer_id == 1)) q'.timer_queue
          ≡ count (λ t. P t && not (t.timer_id == 1)) start.timer_queue)
    × (q'.mutex ≡ false)
    × (q'.reads ≡ start.reads)
del_timer_correct_example = del_timer_correct 1 start (queue-IsValid (guarantee_over 7)) refl

-- A program whose closures count their runs.
record Counter : Type 0 where
  runs : ℕ
  timers : Timers

abbrev counter : Host Counter
counter = record {
  timers = λ w. w.timers;
  with_timers = λ q w. record w { timers = q };
  call = λ c w. done tt (record w { runs = w.runs + 1 });
  timers-with_timers = λ q w. refl;
}

counter-IsQuiet : IsQuiet ⊥ counter
counter-IsQuiet c w held = record { same = refl; held = held; later = omega arith }

abbrev begin : Counter
begin = record { runs = 0; timers = queue (guarantee_over 7) 200 }

tick-Ticked_example :
    Exits ⊥ (λ _ w'. Ticked 200 w'.timers) (λ w'. Interrupted w'.timers) (tick counter begin)
tick-Ticked_example =
    tick-Ticked counter ⊥ counter-IsQuiet begin (queue-IsValid (guarantee_over 7)) refl
