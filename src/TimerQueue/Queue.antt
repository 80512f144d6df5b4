-- ===== src/TimerQueue/Queue.antt =====
-- add_timer and del_timer (timer_queue.cc) on every branch, and what they do to a valid queue.
use mathlib.Core.List.{Nodup-cons}
use mathlib.Core.List.Perm
use native.Mathlib.Bridge.{le_prop}
use cache_system_of_lease_me.Base.{
  ℕ, zero, suc, ◌+◌, ◌<◌, ◌≡◌, refl, ap, Bool, true, false, List, [], ◌∷◌, ◌++◌, map, Perm, arith,
  ltb, All, ◌==◌, ◌&&◌, ◌||◌, not, if◌then◌else◌,
}
use cache_system_of_lease_me.Outcome.{done, thrown, blocked, csn, error_ill_argument}
use cache_system_of_lease_me.Standard.Vector.{length}
use cache_system_of_lease_me.Standard.Heap.{push_heap, key_at, parent}
use cache_system_of_lease_me.Standard.Heap.Push.{push_heap_restores}
use cache_system_of_lease_me.TimerQueue.{
  Platform, TimerCall, EventTimer, Timers, IsValid, expire_of, ids, add_timer, del_timer, disable,
}
use cache_system_of_lease_me.TimerQueue.Count.{count, All-perm, concat-perm, not-mem_of_ne}

module _ ⦃p : Platform⦄ where
  -- The object that `emplace_back` makes.
  abbrev pub new_timer : TimerCall → ℕ → ℕ → Timers → EventTimer
  new_timer c ms r q = record {
    timer_id = p.new_address (ids q.timer_queue);
    repeat = r;
    timeout_ms = ms;
    expire_time = p.clock q.reads + ms;
    callback = c;
  }

  -- What `add_timer` leaves behind it.
  pub record Added (c : TimerCall) (ms r : ℕ) (q q' : Timers) : Type 0 where
    pub valid : IsValid q'.timer_queue
    pub same : Perm q'.timer_queue (new_timer c ms r q ∷ q.timer_queue)
    pub unheld : q'.mutex ≡ false
    pub one_read : q'.reads ≡ suc q.reads

  pushed-IsValid :
      (c : TimerCall) (ms r : ℕ) (q : Timers)
      → IsValid q.timer_queue
      → Added c ms r q (record q {
        timer_queue = push_heap expire_of (q.timer_queue ++ new_timer c ms r q ∷ []);
        mutex = false;
        reads = suc q.reads;
      })
  pushed-IsValid c ms r q v =
      let t = new_timer c ms r q in
      let (heap, same) = push_heap_restores expire_of q.timer_queue t v.heap in
      let all = Perm.trans same (concat-perm q.timer_queue t) in
      record {
        valid = record {
          heap = heap;
          distinct = Perm.nodup (Perm.symm (Perm.map (λ u. u.timer_id) all)) (
              Nodup-cons.1 (
                not-mem_of_ne _ (ids q.timer_queue) (p.new_address_fresh (ids q.timer_queue)),
                v.distinct,
              ));
          not_null =
              All-perm (λ u. 0 < u.timer_id) (λ u. le_prop) (Perm.symm all)
                (p.new_address_pos (ids q.timer_queue), v.not_null);
        };
        same = all;
        unheld = refl;
        one_read = refl;
      }

  -- On a valid queue with a free mutex, and with a repeat count, `add_timer` returns the address
  -- of a timer that is new to the queue and expires the timeout after the clock's reading; it adds
  -- that timer and no other, frees the mutex and leaves the queue valid.
  pub add_timer-Added :
      (c : TimerCall) (ms r : ℕ) (q : Timers)
      → IsValid q.timer_queue
      → q.mutex ≡ false
      → 0 < r
      → (q' : Timers) × (add_timer c ms r q ≡ done (new_timer c ms r q).timer_id q')
        × Added c ms r q q'
  unfolding add_timer
  add_timer-Added c ms r q v free pos = (_, ground arith, pushed-IsValid c ms r q v)

  -- The two other branches: no repeat count is refused, and a held mutex is waited for.
  pub add_timer_refuses :
      (c : TimerCall) (ms r : ℕ) (q : Timers)
      → (r == 0 || q.mutex) ≡ true
      → add_timer c ms r q ≡ (if r == 0 then thrown (csn error_ill_argument) q else blocked q)
  unfolding add_timer
  add_timer_refuses c ms r q h = ground arith

ids-disable : (id : ℕ) (ts : List EventTimer) → ids (map (disable id) ts) ≡ ids ts
ids-disable id [] = refl
ids-disable id (t ∷ ts) = ground (arith, ids-disable id ts)

length-disable : (id : ℕ) (ts : List EventTimer) → length (map (disable id) ts) ≡ length ts
length-disable id [] = refl
length-disable id (t ∷ ts) = ap suc (length-disable id ts)

key_at-disable :
    (id : ℕ) (ts : List EventTimer) (i : ℕ)
    → key_at expire_of (map (disable id) ts) i ≡ key_at expire_of ts i
unfolding key_at
key_at-disable id [] i = refl
key_at-disable id (t ∷ ts) zero = ground arith
key_at-disable id (t ∷ ts) (suc i) = key_at-disable id ts i

All-disable :
    (id : ℕ) (ts : List EventTimer)
    → All (λ t. 0 < t.timer_id) ts
    → All (λ t. 0 < t.timer_id) (map (disable id) ts)
All-disable id [] h = tt
All-disable id (t ∷ ts) h = (ground arith, All-disable id ts h.1)

pub disabled-IsValid : (id : ℕ) (ts : List EventTimer) → IsValid ts → IsValid (map (disable id) ts)
disabled-IsValid id ts v = record {
  heap = λ c pos inside. ground (
    arith,
    length-disable id ts,
    v.heap c,
    key_at-disable id ts c,
    key_at-disable id ts (parent c),
  );
  distinct = rw (ids-disable id ts) v.distinct;
  not_null = All-disable id ts v.not_null;
}

-- Armed: the closure still has runs to come.
abbrev pub armed : EventTimer → Bool
armed t = ltb 0 t.repeat

count_disarmed :
    (id : ℕ) (ts : List EventTimer)
    → count (λ t. armed t && t.timer_id == id) (map (disable id) ts) ≡ 0
unfolding count
count_disarmed id [] = refl
count_disarmed id (t ∷ ts) = ground (arith, count_disarmed id ts)

count_spared :
    (P : EventTimer → Bool) (id : ℕ) (ts : List EventTimer)
    → count (λ t. P t && not (t.timer_id == id)) (map (disable id) ts)
      ≡ count (λ t. P t && not (t.timer_id == id)) ts
unfolding count
count_spared P id [] = refl
count_spared P id (t ∷ ts) = ground (arith, count_spared P id ts)

-- On a free and valid queue `del_timer` disarms the timers of that address, and leaves every other
-- one, the order of expiry, the validity of the queue and its mutex as they were.
pub del_timer_correct :
    (id : ℕ) (q : Timers)
    → IsValid q.timer_queue
    → q.mutex ≡ false
    → (q' : Timers) × (del_timer id q ≡ done tt q')
      × IsValid q'.timer_queue
      × (ids q'.timer_queue ≡ ids q.timer_queue)
      × (count (λ t. armed t && t.timer_id == id) q'.timer_queue ≡ 0)
      × ((P : EventTimer → Bool)
          → count (λ t. P t && not (t.timer_id == id)) q'.timer_queue
            ≡ count (λ t. P t && not (t.timer_id == id)) q.timer_queue)
      × (q'.mutex ≡ false)
      × (q'.reads ≡ q.reads)
unfolding del_timer
del_timer_correct id q v free = (
  record q { timer_queue = map (disable id) q.timer_queue; mutex = false },
  rw free,
  disabled-IsValid id q.timer_queue v,
  ids-disable id q.timer_queue,
  count_disarmed id q.timer_queue,
  λ P. count_spared P id q.timer_queue,
  refl,
  refl,
)

pub del_timer-blocked : (id : ℕ) (q : Timers) → q.mutex ≡ true → del_timer id q ≡ blocked q
unfolding del_timer
del_timer-blocked id q held = rw held
