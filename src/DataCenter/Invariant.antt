-- ===== src/DataCenter/Invariant.antt =====
-- The invariant of the data center (cache_data_center.h): every element keeps its lease in the
-- timer queue that they share; and the map of values that a client sees.
use mathlib.Core.Option
use cache_system_of_lease_me.Base.{
  ℕ, ◌≤◌, ◌≡◌, refl, sym, ◌∙◌, subst, Option, none, some, arith, ℕ_discrete,
}
use cache_system_of_lease_me.Standard.Map.{
  lookup, assign, emplace, lookup-assign_self, lookup-assign_ne, lookup-emplace_self,
  lookup-emplace_ne,
}
use cache_system_of_lease_me.TimerQueue.{Platform, IsSteady, Timers}
use cache_system_of_lease_me.TimerQueue.Count.{count}
use cache_system_of_lease_me.StateManager.{CacheStateManager, Managed, new_manager}
use cache_system_of_lease_me.StateManager.Expire.{IsReady}
use cache_system_of_lease_me.StateManager.Lease.{mine, pending, IsLeased}
use cache_system_of_lease_me.StateManager.Isolation.{Spares, Spares-IsLeased, IsForeign-mine}
use cache_system_of_lease_me.DataCenter.{CacheElement, Center, new_element}

pub some_ne_none {ℓ} : {A : Type ℓ} {a : A} → some a ≡ none → ⊥
some_ne_none h = cc

pub some_eq {ℓ} : {A : Type ℓ} {a b : A} → some a ≡ some b → a ≡ b
some_eq h = cc

module _ ⦃p : Platform⦄ where
  new_IsLeased :
      (q : Timers) (id : ℕ)
      → IsReady q
      → count (mine id) q.timer_queue ≡ 0
      → IsLeased id (record { manager = new_manager; timers = q })
  new_IsLeased q id r none_armed = record {
    ready = r;
    idle = λ _. (refl, refl, none_armed);
    running = λ n. absurd (n refl);
    handled = λ k. absurd (cc);
    short = omega arith;
  }

module _ ⦃p : Platform⦄ where
  -- The queue `q'` is in order, and has as many timers of every element as `q`.
  pub record Retains (q q' : Timers) : Type 0 where
    pub ready : IsReady q'
    pub later : q.reads ≤ q'.reads
    pub mine_lem : (e : ℕ) → count (mine e) q'.timer_queue ≡ count (mine e) q.timer_queue
    pub pending_lem :
        (e : ℕ) (m : CacheStateManager)
        → count (pending e m) q'.timer_queue ≡ count (pending e m) q.timer_queue

module _ {T : Type 0} where
  -- The values, as a function from cache ids.
  unfoldable pub content : Center T → ℕ → Option T
  content c k = Option.map (λ el. el.value) (lookup k c.map)

  abbrev pub managed_in : Center T → CacheElement T → Managed
  managed_in c el = record { manager = el.state; timers = c.timers }

  module _ ⦃p : Platform⦄ where
    pub record IsCenter (c : Center T) : Type 0 where
      pub ready : IsReady c.timers
      pub leased :
          (e : ℕ) (el : CacheElement T) → lookup e c.map ≡ some el → IsLeased e (managed_in c el)
      pub absent : (e : ℕ) → lookup e c.map ≡ none → count (mine e) c.timers.timer_queue ≡ 0

    -- A change of the queue that no element notices keeps the center's invariant.
    pub Retains-IsCenter :
        IsSteady p
        → (c : Center T) (q : Timers) → IsCenter c
        → Retains c.timers q
        → IsCenter (record c { timers = q })
    Retains-IsCenter steady c q v k = record {
      ready = k.ready;
      leased = λ e el found.
          let l = v.leased e el found in
          record {
            ready = k.ready;
            idle = λ h. let (a, b, none_armed) = l.idle h in (a, b, k.mine_lem e ∙ none_armed);
            running = λ h.
                let (a, one, pend) = l.running h in
                (a, k.mine_lem e ∙ one, k.pending_lem e el.state ∙ pend);
            handled = l.handled;
            short = omega (arith, l.short, steady c.timers.reads q.reads k.later);
          };
      absent = λ e missing. k.mine_lem e ∙ v.absent e missing;
    }

    -- A call on the element `id` that keeps its invariant and spares the others keeps the center's.
    pub assign-IsCenter :
        IsSteady p
        → (c : Center T) (id : ℕ) (el el' : CacheElement T) (q : Timers) → IsCenter c
        → lookup id c.map ≡ some el
        → IsReady q
        → IsLeased id (record { manager = el'.state; timers = q })
        → Spares id c.timers q
        → IsCenter (record { map = assign id el' c.map; timers = q })
    assign-IsCenter steady c id el el' q v found r l z = record {
      ready = r;
      leased = λ e el1 h. elim (ℕ_discrete id e) [
        | yes same ↦
            subst (λ x. IsLeased x (record { manager = el1.state; timers = q })) same
              (subst
                (λ (y : CacheElement T). IsLeased id (record { manager = y.state; timers = q }))
                (some_eq (
                  sym (lookup-assign_self id el' c.map el found)
                  ∙ subst (λ x. lookup x (assign id el' c.map) ≡ some el1) (sym same) h))
                l)
        | no other ↦
            Spares-IsLeased steady id e el1.state c.timers q (λ x. other (sym x)) z r
              (v.leased e el1 (sym (lookup-assign_ne id e el' c.map el found other) ∙ h))
      ];
      absent = λ e h. elim (ℕ_discrete id e) [
        | yes same ↦ absurd (
            some_ne_none (
              sym (lookup-assign_self id el' c.map el found)
              ∙ subst (λ x. lookup x (assign id el' c.map) ≡ none) (sym same) h))
        | no other ↦
            z.same (mine e) (IsForeign-mine id e (λ x. other (sym x)))
            ∙ v.absent e (sym (lookup-assign_ne id e el' c.map el found other) ∙ h)
      ];
    }

    -- A new element is idle.
    pub emplace-IsCenter :
        (blank : T) (c : Center T) (id : ℕ)
        → IsCenter c
        → lookup id c.map ≡ none
        → IsCenter (record c { map = emplace id (new_element blank) c.map })
    emplace-IsCenter blank c id v missing = record {
      ready = v.ready;
      leased = λ e el1 h. elim (ℕ_discrete id e) [
        | yes same ↦
            subst (λ x. IsLeased x (record { manager = el1.state; timers = c.timers })) same
              (subst
                (λ (y : CacheElement T).
                  IsLeased id (record { manager = y.state; timers = c.timers }))
                (some_eq (
                  sym (lookup-emplace_self id (new_element blank) c.map missing)
                  ∙ subst (λ x. lookup x (emplace id (new_element blank) c.map) ≡ some el1)
                      (sym same) h))
                (new_IsLeased c.timers id v.ready (v.absent id missing)))
        | no other ↦
            v.leased e el1
              (sym (lookup-emplace_ne id e (new_element blank) c.map missing other) ∙ h)
      ];
      absent = λ e h. elim (ℕ_discrete id e) [
        | yes same ↦ absurd (
            some_ne_none (
              sym (lookup-emplace_self id (new_element blank) c.map missing)
              ∙ subst (λ x. lookup x (emplace id (new_element blank) c.map) ≡ none) (sym same) h))
        | no other ↦
            v.absent e (sym (lookup-emplace_ne id e (new_element blank) c.map missing other) ∙ h)
      ];
    }
