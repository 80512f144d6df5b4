-- ===== src/TimerQueue/Front.antt =====
-- The front of the queue in a round of `tick` (timer_queue.cc): it loses a run, and is removed or
-- armed anew.
use mathlib.Core.List.{Nodup-cons}
use mathlib.Core.List.Perm
use native.Mathlib.Bridge.{le_prop}
use cache_system_of_lease_me.Base.{
  ℕ, zero, suc, ◌+◌, ◌-◌, ◌≤◌, ◌<◌, ◌≡◌, refl, ap, true, false, List, [], ◌∷◌, ◌++◌, Perm, Nodup,
  ℕ_discrete, arith, if◌then◌else◌, ◌==◌, All,
}
use cache_system_of_lease_me.Outcome.{done}
use cache_system_of_lease_me.Standard.Vector.{length, length-append, take-append}
use cache_system_of_lease_me.Standard.Heap.{push_heap, IsHeap, key_at, parent}
use cache_system_of_lease_me.Standard.Heap.Push.{push_heap_restores}
use cache_system_of_lease_me.Standard.Heap.Pop.{IsHeapBelow, pop_heap_restores}
use cache_system_of_lease_me.TimerQueue.{
  Platform, EventTimer, Timers, IsValid, expire_of, ids, decrement_front, settle_front, pop_back,
  rounds, lock,
}
use cache_system_of_lease_me.TimerQueue.Count.{total, total-perm, All-perm, concat-perm}

-- What a round owes of a timer: a run, or its removal.
abbrev pub weight : EventTimer → ℕ
weight t = if t.repeat == 0 then 1 else t.repeat

pub rounds-total : (ts : List EventTimer) → rounds ts ≡ total weight ts
unfolding rounds total
rounds-total [] = refl
rounds-total (t ∷ ts) = ap (λ (n : ℕ). weight t + n) (rounds-total ts)

pub rounds-perm : {ts us : List EventTimer} → Perm ts us → rounds ts ≡ rounds us
rounds-perm {ts} {us} p = omega (arith, rounds-total ts, rounds-total us, total-perm weight p)

key_at-head :
    (t u : EventTimer) (ts : List EventTimer) (i : ℕ)
    → u.expire_time ≡ t.expire_time
    → key_at expire_of (u ∷ ts) i ≡ key_at expire_of (t ∷ ts) i
unfolding key_at
key_at-head t u ts zero e = e
key_at-head t u ts (suc i) e = refl

key_at-tail :
    (t u : EventTimer) (ts : List EventTimer) (i : ℕ)
    → 0 < i
    → key_at expire_of (u ∷ ts) i ≡ key_at expire_of (t ∷ ts) i
unfolding key_at
key_at-tail t u ts zero pos = elim pos [ ]
key_at-tail t u ts (suc i) pos = refl

-- The heap order of a queue looks at no more of its front than the expiry, and off the root not
-- even at that.
pub IsHeap-head :
    (t u : EventTimer) (ts : List EventTimer)
    → u.expire_time ≡ t.expire_time
    → IsHeap expire_of (t ∷ ts)
    → IsHeap expire_of (u ∷ ts)
IsHeap-head t u ts e h c pos inside =
    omega (arith, h c pos inside, key_at-head t u ts c e, key_at-head t u ts (parent c) e)

pub IsHeap-below :
    (t u : EventTimer) (ts : List EventTimer)
    → IsHeap expire_of (t ∷ ts)
    → IsHeapBelow expire_of (u ∷ ts)
IsHeap-below t u ts h c pos inside = omega (
  arith,
  h c (omega arith) inside,
  key_at-tail t u ts c (omega arith),
  key_at-tail t u ts (parent c) pos,
)

pop_back-append : (ts : List EventTimer) (t : EventTimer) → pop_back (ts ++ t ∷ []) ≡ ts
pop_back-append ts t = rw (last, take-append ts (t ∷ []))
  where
    last : length (ts ++ t ∷ []) - 1 ≡ length ts
    last = omega (arith, length-append ts (t ∷ []))

module _ ⦃p : Platform⦄ where
  abbrev pub rearmed : EventTimer → Timers → EventTimer
  rearmed t q = record t { expire_time = p.clock q.reads + t.timeout_ms }

  -- `settle_front` on a queue whose edges off the root are in order: the front is removed if it
  -- has no run left, and is armed anew otherwise; the rest of the queue is the same.
  pub record Settled (t : EventTimer) (ts : List EventTimer) (q q' : Timers) : Type 0 where
    pub heap : IsHeap expire_of q'.timer_queue
    pub gone : t.repeat ≡ 0 → Perm q'.timer_queue ts × (q'.reads ≡ q.reads)
    pub anew : 0 < t.repeat → Perm q'.timer_queue (rearmed t q ∷ ts) × (q'.reads ≡ suc q.reads)
    pub later : q.reads ≤ q'.reads

  pub settle_front-Settled :
      (q : Timers) (t : EventTimer) (ts : List EventTimer)
      → q.timer_queue ≡ t ∷ ts
      → ((u : EventTimer) → IsHeapBelow expire_of (u ∷ ts))
      → (q' : Timers) × (settle_front q ≡ done tt q') × Settled t ts q q'
  unfolding settle_front
  settle_front-Settled q t ts e h = elim (ℕ_discrete t.repeat 0) [
    | yes none_left ↦
        let (rest, popped, heap, same) = pop_heap_restores expire_of t ts (h t) in
        (
          record q { timer_queue = rest },
          rw (e, settle_front) (ground (arith, popped, pop_back-append rest t)),
          record {
            heap = heap;
            gone = λ _. (same, refl);
            anew = λ pos. absurd (omega arith);
            later = omega arith;
          },
        )
    | no runs_left ↦
        let u = rearmed t q in
        let (rest, popped, heap, same) = pop_heap_restores expire_of u ts (h u) in
        let (heap', same') = push_heap_restores expire_of rest u heap in
        (
          record q { timer_queue = push_heap expire_of (rest ++ u ∷ []); reads = suc q.reads },
          rw (e, settle_front) (ground (arith, popped)),
          record {
            heap = heap';
            gone = λ zero_left. absurd (runs_left zero_left);
            anew =
                λ _. (Perm.trans same' (Perm.trans (concat-perm rest u) (Perm.cons u same)), refl);
            later = omega arith;
          },
        )
  ]

  pub Settled-IsValid :
      (t : EventTimer) (ts : List EventTimer) (q q' : Timers)
      → Nodup (t.timer_id ∷ ids ts)
      → 0 < t.timer_id
      → All (λ u. 0 < u.timer_id) ts
      → Settled t ts q q'
      → IsValid q'.timer_queue
  Settled-IsValid t ts q q' distinct pos rest s = elim (ℕ_discrete t.repeat 0) [
    | yes none_left ↦
        let same = Perm.symm (s.gone none_left).0 in
        record {
          heap = s.heap;
          distinct = Perm.nodup (Perm.map (λ u. u.timer_id) same) (Nodup-cons.0 distinct).1;
          not_null = All-perm (λ u. 0 < u.timer_id) (λ u. le_prop) same rest;
        }
    | no runs_left ↦
        let same = Perm.symm (s.anew (omega arith)).0 in
        record {
          heap = s.heap;
          distinct = Perm.nodup (Perm.map (λ u. u.timer_id) same) distinct;
          not_null = All-perm (λ u. 0 < u.timer_id) (λ u. le_prop) same (pos, rest);
        }
  ]

  -- The front has fewer runs left, or is gone.
  pub Settled-rounds :
      (t : EventTimer) (ts : List EventTimer) (q q' : Timers)
      → Settled (record t { repeat = t.repeat - 1 }) ts q q'
      → rounds q'.timer_queue < rounds (t ∷ ts)
  unfolding rounds
  Settled-rounds t ts q q' s = elim (ℕ_discrete (t.repeat - 1) 0) [
    | yes none_left ↦ ground (arith, rounds-perm (s.gone none_left).0)
    | no runs_left ↦ ground (arith, rounds-perm (s.anew (omega arith)).0)
  ]

  pub decrement_front-done :
      (q : Timers) (t : EventTimer) (ts : List EventTimer)
      → q.timer_queue ≡ t ∷ ts
      → decrement_front q
        ≡ done tt (record q { timer_queue = record t { repeat = t.repeat - 1 } ∷ ts })
  unfolding decrement_front
  decrement_front-done q t ts e = ground arith

  pub lock-free : (q : Timers) → q.mutex ≡ false → lock q ≡ done tt (record q { mutex = true })
  unfolding lock
  lock-free q e = rw e
