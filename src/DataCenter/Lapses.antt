-- ===== src/DataCenter/Lapses.antt =====
-- What a run of the timer queue (timer_queue.cc) does to the elements of a data center
-- (cache_data_center.h): their leases lapse, and nothing else changes.
use mathlib.Core.Option
use cache_system_of_lease_me.Base.{
  ℕ, ◌≤◌, ◌≡◌, refl, sym, ap, ◌∙◌, subst, Bool, Option, some, arith,
}
use cache_system_of_lease_me.Standard.Map.{lookup}
use cache_system_of_lease_me.TimerQueue.{Platform, IsSteady, EventTimer}
use cache_system_of_lease_me.TimerQueue.Count.{count}
use cache_system_of_lease_me.StateManager.{cache_idle, cache_guaranteed}
use cache_system_of_lease_me.DataCenter.{CacheElement, Center}
use cache_system_of_lease_me.DataCenter.Fronts.{IsHeard}
use cache_system_of_lease_me.DataCenter.Invariant.{content, IsCenter, some_eq}

module _ {T : Type 0} where
  -- An element whose lease is over.
  abbrev pub idled : CacheElement T → CacheElement T
  idled el = record el {
    state = record el.state { timer_id = 0; expire_time = 0; current_state = cache_idle };
  }

  module _ ⦃p : Platform⦄ where
    -- The entry of one cache id before and after, when the clock's reading number `n` is due: it is
    -- the same, or was guaranteed for no longer than that reading and is idle.
    pub data Lapses (n : ℕ) (o o' : Option (CacheElement T)) : Type 0 where
      stays : o' ≡ o → Lapses n o o'
      lapsed :
          (el : CacheElement T)
          → o ≡ some el
          → el.state.current_state ≡ cache_guaranteed
          → el.state.expire_time ≤ p.clock n
          → o' ≡ some (idled el)
          → Lapses n o o'

    -- Any number of rounds of the timer queue.
    pub record Ran (c c' : Center T) : Type 0 where
      pub kept : IsCenter c'
      pub later : c.timers.reads ≤ c'.timers.reads
      pub fewer :
          (P : EventTimer → Bool)
          → IsHeard P
          → count P c'.timers.timer_queue ≤ count P c.timers.timer_queue
      pub lapses : (e : ℕ) → Lapses c'.timers.reads (lookup e c.map) (lookup e c'.map)

    later-Lapses :
        IsSteady p
        → (n n' : ℕ) (o o' : Option (CacheElement T)) → n ≤ n'
        → Lapses n o o'
        → Lapses n' o o'
    later-Lapses steady n n' o o' le (stays same) = stays same
    later-Lapses steady n n' o o' le (lapsed el there g over left) =
        lapsed el there g (omega (arith, over, steady n n' le)) left

    -- An idle element does not lapse once more.
    Lapses-trans :
        IsSteady p
        → (n n' : ℕ) (o o1 o' : Option (CacheElement T)) → n ≤ n'
        → Lapses n o o1
        → Lapses n' o1 o'
        → Lapses n' o o'
    Lapses-trans steady n n' o o1 o' le (stays same) l = subst (λ x. Lapses n' x o') same l
    Lapses-trans steady n n' o o1 o' le (lapsed el there g over left) (stays same) =
        lapsed el there g (omega (arith, over, steady n n' le)) (same ∙ left)
    Lapses-trans steady n n' o o1 o' le (lapsed el there g over left)
          (lapsed el1 there1 g1 over1 left1) =
        absurd (
          idle_guaranteed
            (ap (λ (x : CacheElement T). x.state.current_state) (some_eq (sym left ∙ there1)) ∙ g1))
      where
        idle_guaranteed : cache_idle ≡ cache_guaranteed → ⊥
        idle_guaranteed h = cc

    pub Ran-trans : IsSteady p → (a b c : Center T) → Ran a b → Ran b c → Ran a c
    Ran-trans steady a b c r s = record {
      kept = s.kept;
      later = omega (arith, r.later, s.later);
      fewer = λ P heard. omega (arith, r.fewer P heard, s.fewer P heard);
      lapses = λ e.
          Lapses-trans steady b.timers.reads c.timers.reads (lookup e a.map) (lookup e b.map)
            (lookup e c.map) s.later (r.lapses e) (s.lapses e);
    }

    pub Ran-refl : (c : Center T) → IsCenter c → Ran c c
    Ran-refl c i = record {
      kept = i;
      later = omega arith;
      fewer = λ P heard. omega arith;
      lapses = λ e. stays refl;
    }

    Lapses-content :
        (n e : ℕ) (c c' : Center T)
        → Lapses n (lookup e c.map) (lookup e c'.map)
        → content c' e ≡ content c e
    unfolding content
    Lapses-content n e c c' (stays same) = ap (Option.map (λ (el : CacheElement T). el.value)) same
    Lapses-content n e c c' (lapsed el there g over left) =
        ap (Option.map (λ (el : CacheElement T). el.value)) left
        ∙ sym (ap (Option.map (λ (el : CacheElement T). el.value)) there)

    -- No value changes.
    pub Ran-content : (c c' : Center T) → Ran c c' → (e : ℕ) → content c' e ≡ content c e
    Ran-content c c' r e = Lapses-content c'.timers.reads e c c' (r.lapses e)
