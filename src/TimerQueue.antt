-- ===== src/TimerQueue.antt =====
-- cache_system/include/timer_queue.h and cache_system/src/timer_queue.cc: the heap timer.
pub mod Count
pub mod Queue
pub mod Front
pub mod Rounds
pub mod Turns
pub mod Tick
pub mod Loop
use cache_system_of_lease_me.Base.{
  ℕ, zero, suc, ◌+◌, ◌-◌, ◌≤◌, ◌<◌, ◌≡◌, ◌≢◌, Bool, true, false, List, [], ◌∷◌, ◌++◌, map, Nodup,
  arith, leb, ltb, ◌==◌, if◌then◌else◌, All,
}
use cache_system_of_lease_me.Outcome.{
  error_ill_argument, M, done, blocked, undefined, out_of_fuel, ◌>>=◌, ◌>>◌, pure, throw, modify,
  finally, zoom, Exits,
}
use cache_system_of_lease_me.Standard.Vector.{length, take}
use cache_system_of_lease_me.Standard.Heap.{push_heap, pop_heap, IsHeap}

-- The closures that the program hands to `add_timer`, with what they capture: `this` of a cache
-- element's state manager, by the element's cache id, or the address of a WaitCacheAck.
pub data TimerCall : Type 0 where
  guarantee_over protection_over : ℕ → TimerCall
  resend : ℕ → TimerCall

-- EventTimer. `timer_id` is the object's address.
pub record EventTimer : Type 0 where
  pub timer_id : ℕ
  pub repeat : ℕ
  pub timeout_ms : ℕ
  pub expire_time : ℕ
  pub callback : TimerCall

-- What the process takes from its surroundings: the readings of the system clock in milliseconds,
-- and the allocator, whose addresses are not null and not in use.
pub record Platform : Type 0 where
  pub clock : ℕ → ℕ
  pub new_address : List ℕ → ℕ
  pub new_address_pos : (live : List ℕ) → 0 < new_address live
  pub new_address_fresh : (live : List ℕ) → All (λ a. a ≢ new_address live) live

-- The clock is not set back.
abbrev pub IsSteady : Platform → Type 0
IsSteady p = (i j : ℕ) → i ≤ j → p.clock i ≤ p.clock j

-- The queue, its mutex (`true` while held), and how often the clock has been read.
pub record Timers : Type 0 where
  pub timer_queue : List EventTimer
  pub mutex : Bool
  pub reads : ℕ

abbrev pub expire_of : EventTimer → ℕ
expire_of t = t.expire_time

abbrev pub ids : List EventTimer → List ℕ
ids = map (λ t. t.timer_id)

unfoldable pub lock : M Timers (Unit {0})
lock q = if q.mutex then blocked q else done tt (record q { mutex = true })

abbrev pub unlock : Timers → Timers
unlock q = record q { mutex = false }

-- std::lock_guard around a block.
unfoldable pub lock_guard : {A : Type 0} → M Timers A → M Timers A
unfolding lock
lock_guard m = lock >> finally m unlock

module _ ⦃p : Platform⦄ where
  unfoldable pub get_time_stamp : ℕ → M Timers ℕ
  get_time_stamp milliseconds q =
      done (p.clock q.reads + milliseconds) (record q { reads = suc q.reads })

  -- emplace_back of a new EventTimer, and push_heap.
  unfoldable pub emplace_timer : TimerCall → ℕ → ℕ → M Timers ℕ
  unfolding get_time_stamp
  emplace_timer callback timeout_ms repeat = do
    expire ← get_time_stamp timeout_ms
    id ← (λ q. done (p.new_address (ids q.timer_queue)) q)
    modify (λ q. record q {
      timer_queue = push_heap expire_of (
          q.timer_queue
          ++ record {
            timer_id = id;
            repeat = repeat;
            timeout_ms = timeout_ms;
            expire_time = expire;
            callback = callback;
          }
            ∷ []);
    })
    pure id

  unfoldable pub add_timer : TimerCall → ℕ → ℕ → M Timers ℕ
  unfolding emplace_timer lock_guard
  add_timer callback timeout_ms repeat =
      if repeat == 0
      then throw error_ill_argument
      else lock_guard (emplace_timer callback timeout_ms repeat)

abbrev pub disable : ℕ → EventTimer → EventTimer
disable id t = if t.timer_id == id then record t { repeat = 0 } else t

unfoldable pub del_timer : ℕ → M Timers (Unit {0})
unfolding lock_guard
del_timer id = lock_guard (modify (λ q. record q { timer_queue = map (disable id) q.timer_queue }))

-- A program that runs the queue: where the queue stands in its state, and what its closures do.
pub record Host (W : Type 0) : Type 0 where
  pub timers : W → Timers
  pub with_timers : Timers → W → W
  pub call : TimerCall → M W (Unit {0})
  pub timers-with_timers : (q : Timers) (w : W) → timers (with_timers q w) ≡ q

-- The queue as a callback under the mutex finds it and leaves it.
pub record Held (q q' : Timers) : Type 0 where
  pub same : q'.timer_queue ≡ q.timer_queue
  pub held : q'.mutex ≡ true
  pub later : q.reads ≤ q'.reads

-- What the loop of `tick` relies on: a callback that returns or throws has left the queue alone.
-- `B` says whether callbacks may wait for ever, as in `Exits`.
abbrev pub IsQuiet : {W : Type 0} → Type 0 → Host W → Type 0
IsQuiet {W} B h =
    (c : TimerCall) (w : W)
    → (h.timers w).mutex ≡ true
    → Exits B (λ _ w'. Held (h.timers w) (h.timers w')) (λ w'. Held (h.timers w) (h.timers w'))
        (h.call c w)

-- `timer->repeat_--`, which stands behind the test `timer->repeat_ > 0`.
unfoldable pub decrement_front : M Timers (Unit {0})
decrement_front q = elim q.timer_queue [
  | [] ↦ undefined q
  | t ∷ ts ↦ done tt (record q { timer_queue = record t { repeat = t.repeat - 1 } ∷ ts })
]

abbrev pub pop_back : List EventTimer → List EventTimer
pop_back ts = take (length ts - 1) ts

-- The rounds that the loop of `tick` needs at most: each takes a run or a timer away.
unfoldable pub rounds : List EventTimer → ℕ
rounds [] = 0
rounds (t ∷ ts) = (if t.repeat == 0 then 1 else t.repeat) + rounds ts

module _ ⦃p : Platform⦄ where
  unfoldable pub front_expired : M Timers Bool
  unfolding get_time_stamp
  front_expired q = elim q.timer_queue [
    | [] ↦ undefined q
    | t ∷ _ ↦ (do now ← get_time_stamp 0; pure (leb t.expire_time now)) q
  ]

  -- The front goes if it has no run left, and is armed anew otherwise.
  unfoldable pub settle_front : M Timers (Unit {0})
  unfolding get_time_stamp
  settle_front q = elim q.timer_queue [
    | [] ↦ undefined q
    | t ∷ ts ↦
        if t.repeat == 0
        then done tt (record q { timer_queue = pop_back (pop_heap expire_of (t ∷ ts)) })
        else (do
          expire ← get_time_stamp t.timeout_ms
          modify (λ q'. record q' {
            timer_queue =
                push_heap expire_of (pop_heap expire_of (record t { expire_time = expire } ∷ ts));
          }))
            q
  ]

  module _ {W : Type 0} (h : Host W) where
    abbrev pub on_timers : {A : Type 0} → M Timers A → M W A
    on_timers = zoom h.timers h.with_timers

    -- The front's closure, if a run is left.
    unfoldable pub fire : List EventTimer → M W (Unit {0})
    unfolding decrement_front
    fire [] w = undefined w
    fire (t ∷ _) w =
        if ltb 0 t.repeat then (h.call t.callback >> on_timers decrement_front) w else done tt w

    unfoldable pub fire_front : M W (Unit {0})
    unfolding fire
    fire_front w = fire (h.timers w).timer_queue w

    -- The body of the loop of `tick`, under its lock_guard.
    unfoldable pub tick_round : M W (Unit {0})
    unfolding lock fire_front settle_front
    tick_round =
        on_timers lock
        >> finally (fire_front >> on_timers settle_front)
            (λ w. h.with_timers (unlock (h.timers w)) w)

    -- Breaks the loop where the queue is empty.
    unfoldable pub continue : M W (Unit {0}) → List EventTimer → M W (Unit {0})
    continue rest [] w = done tt w
    continue rest (_ ∷ _) w = rest w

    unfoldable pub tick_loop : ℕ → M W (Unit {0})
    unfolding continue
    tick_loop zero w = out_of_fuel w
    tick_loop (suc k) w =
        (on_timers front_expired >>= λ due.
        if due
        then (tick_round >> λ w'. continue (tick_loop k) (h.timers w').timer_queue w')
        else pure tt)
          w

    unfoldable pub tick : M W (Unit {0})
    unfolding tick_loop front_expired tick_round rounds
    tick w = elim (h.timers w).timer_queue [
      | [] ↦ done tt w
      | t ∷ ts ↦ tick_loop (rounds (t ∷ ts) + 1) w
    ]

-- The heap order by expiry, and addresses that are not null and told apart.
pub record IsValid (ts : List EventTimer) : Type 0 where
  pub heap : IsHeap expire_of ts
  pub distinct : Nodup (ids ts)
  pub not_null : All (λ t. 0 < t.timer_id) ts
