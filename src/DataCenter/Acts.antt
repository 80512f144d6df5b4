-- ===== src/DataCenter/Acts.antt =====
-- What the calls of a data center (cache_data_center.h) and the runs of its timer queue do to the
-- store of values under leases that it stands for.
use cache_system_of_lease_me.Base.{
  ℕ, ◌≡◌, ◌≢◌, refl, sym, ap, ◌∙◌, subst, Option, none, some, arith, if◌then◌else◌, ◌⊎◌, inl, inr,
  ℕ_discrete,
}
use cache_system_of_lease_me.Common.{OpResult, UpdateCallHandler, call_handle}
use cache_system_of_lease_me.Standard.Map.{lookup}
use cache_system_of_lease_me.TimerQueue.{Platform, IsSteady, Timers}
use cache_system_of_lease_me.StateManager.{
  CacheStateManager, CacheState, Managed, cache_idle, cache_guaranteed, cache_update_protected,
}
use cache_system_of_lease_me.StateManager.Operations.{Read, granted_read, protected_read}
use cache_system_of_lease_me.StateManager.Updates.{Updated, applied, deferred, turned_away}
use cache_system_of_lease_me.DataCenter.{CacheElement, Element, Center, put_back}
use cache_system_of_lease_me.DataCenter.Invariant.{IsCenter, managed_in}
use cache_system_of_lease_me.DataCenter.Lapses.{idled, Lapses, stays, lapsed, Ran}
use cache_system_of_lease_me.DataCenter.Reads.{Answered, missed, hit, with_state}
use cache_system_of_lease_me.DataCenter.Stored.{Target, stored, store-value, store-state, is_ok}
use cache_system_of_lease_me.DataCenter.Updates.{Settled}
use cache_system_of_lease_me.DataCenter.LeaseStore.{
  free, closing, Event, nothing_found, found, passed, Sets, Releases, holds, releases, Allows,
  misses, lends, glimpses, writes, keeps_back, refuses, passes,
}
use cache_system_of_lease_me.DataCenter.View.{
  hold_in, granted-Outlasts, cell_of, view, answer_of, reply_of, view_found, view_same,
  view-put_back, cell_in, view_missing, Sets-Same,
}

module _ {T : Type 0} where
  module _ ⦃p : Platform⦄ where
    -- From one center to another.
    abbrev pub Acts : Center T → Event T → Center T → Type 0
    Acts c e c' = Allows (p.clock c.timers.reads) (p.clock c'.timers.reads) (view c) (view c') e

    hit-Acts :
        IsSteady p
        → (id expire : ℕ) (el : CacheElement T) (m : Managed) (c : Center T) → IsCenter c
        → lookup id c.map ≡ some el
        → Read id (managed_in c el) expire m
        → Acts c (found id el.value expire) (put_back id (with_state m el) c)
    hit-Acts steady id expire el m c i there (granted_read other g) =
        lends id expire (cell_of el) (view_found id el c there)
          (granted-Outlasts el.state.current_state expire el.state.expire_time other
            (omega (arith, (i.leased id el there).short, g.full_term)))
          g.full_term
          (subst (λ cell. Sets id cell (view c) (view (put_back id (with_state m el) c)))
            (cell_in (with_state m el).element el.value cache_guaranteed expire refl g.state
              (sym g.expire_lem))
            (view-put_back id el (with_state m el) c there))
    hit-Acts steady id expire el m c i there (protected_read is at left) =
        glimpses id expire el.state.expire_time el.value
          (view_found id el c there
            ∙ ap some
                (cell_in el el.value cache_update_protected el.state.expire_time refl is refl))
          (omega (
            arith,
            at,
            steady c.timers.reads m.timers.reads
                (omega (arith, ap (λ (x : Managed). x.timers.reads) left)),
          ))
          (Sets-Same id (cell_of el) (view c) (view (put_back id (with_state m el) c))
            (view_found id el c there)
            (subst (λ cell. Sets id cell (view c) (view (put_back id (with_state m el) c)))
              (ap (λ (x : Managed). cell_of (with_state x el).element) left)
              (view-put_back id el (with_state m el) c there)))

    pub Answered-Acts :
        IsSteady p
        → (id : ℕ) (r : OpResult) (out : Option (ℕ × T)) (c c' : Center T) → IsCenter c
        → Answered id c r out c'
        → Acts c (answer_of id out) c'
    Answered-Acts steady id r out c c' i (missed nothing x is left) =
        subst (λ o. Acts c (answer_of id o) c') (sym is)
          (subst (Acts c (nothing_found id)) (sym left)
            (misses id (view_missing id c nothing) (λ j. refl)))
    Answered-Acts steady id r out c c' i (hit el m expire there _ x is a left) =
        subst (λ o. Acts c (answer_of id o) c') (sym is)
          (subst (Acts c (found id el.value expire)) (sym left)
            (hit-Acts steady id expire el m c i there a))

    -- The element that an update finds or makes is free if it is idle.
    Target-unheld :
        (blank : T) (id : ℕ) (el : CacheElement T) (c c1 : Center T)
        → Target blank id c el c1
        → el.state.current_state ≡ cache_idle
        → (view c id ≡ none)
          ⊎ ((old : T) × (view c id ≡ some (record { value = old; hold = free })))
    Target-unheld blank id el c c1 t is = elim t.old_or_new [
      | inl same ↦ inr (
        el.value,
        view_found id el c (ap (λ (x : Center T). lookup id x.map) (sym same) ∙ t.found)
            ∙ ap some (cell_in el el.value cache_idle el.state.expire_time refl is refl),
      )
      | inr (nothing, new) ↦ inl (view_missing id c nothing)
    ]

    -- It was there before if it is not idle.
    Target-found :
        (blank : T) (id : ℕ) (el : CacheElement T) (c c1 : Center T)
        → Target blank id c el c1
        → el.state.current_state ≢ cache_idle
        → lookup id c.map ≡ some el
    Target-found blank id el c c1 t busy = elim t.old_or_new [
      | inl same ↦ ap (λ (x : Center T). lookup id x.map) (sym same) ∙ t.found
      | inr (nothing, new) ↦ absurd (busy (ap (λ (x : CacheElement T). x.state.current_state) new))
    ]

    -- An element put back after an update is the only one changed.
    Target-Sets :
        (blank : T) (id : ℕ) (el : CacheElement T) (s : Element T) (c c1 : Center T)
        → Target blank id c el c1
        → Sets id (cell_of s.element) (view c) (view (put_back id s c1))
    Target-Sets blank id el s c c1 t j = elim (ℕ_discrete id j) [
      | yes same ↦ view-put_back id el s c1 t.found j ∙ ground (arith, same)
      | no other ↦
          view-put_back id el s c1 t.found j
          ∙ ground (arith, other, view_same j c c1 (t.rest j other))
    ]

    -- The cell of an element after an update with the result `r`.
    stored_cell :
        (r : OpResult) (v w : T) (op_id n : ℕ) (f : UpdateCallHandler) (m : Managed)
        (el : CacheElement T) (st : CacheState)
        → (if is_ok r then v else el.value) ≡ w
        → m.manager.current_state ≡ st
        → m.manager.expire_time ≡ n
        → cell_of (stored r v op_id f m el).element ≡ record { value = w; hold = hold_in st n }
    stored_cell r v w op_id n f m el st has is until =
        cell_in (stored r v op_id f m el).element w st n
          (store-value r v op_id f (with_state m el).element ∙ has)
          (ap (λ (x : CacheStateManager). x.current_state)
              (store-state r v op_id f (with_state m el).element)
            ∙ is)
          (ap (λ (x : CacheStateManager). x.expire_time)
              (store-state r v op_id f (with_state m el).element)
            ∙ until)

    pub Settled-Acts :
        (blank : T) (id op_id expire : ℕ) (v : T) (f : UpdateCallHandler) (r : OpResult)
        (c c' : Center T)
        → Settled blank id v op_id f c r expire c'
        → Acts c (reply_of id v expire r) c'
    Settled-Acts blank id op_id expire v f r c c' z =
        subst (Acts c (reply_of id v expire r)) (sym z.left) (by_answer z.answer)
      where
        after : Center T
        after = put_back id (stored r v op_id f z.m z.el) z.c1

        changed :
            (w : T) (st : CacheState) (n : ℕ)
            → (if is_ok r then v else z.el.value) ≡ w
            → z.m.manager.current_state ≡ st
            → z.m.manager.expire_time ≡ n
            → Sets id (record { value = w; hold = hold_in st n }) (view c) (view after)
        changed w st n has is until =
            subst (λ cell. Sets id cell (view c) (view after))
              (stored_cell r v w op_id n f z.m z.el st has is until)
              (Target-Sets blank id z.el (stored r v op_id f z.m z.el) c z.c1 z.target)

        there :
            (st : CacheState)
            → z.el.state.current_state ≡ st
            → st ≢ cache_idle
            → view c id
              ≡ some (record { value = z.el.value; hold = hold_in st z.el.state.expire_time })
        there st is busy =
            view_found id z.el c
              (Target-found blank id z.el c z.c1 z.target (λ idle. busy (sym is ∙ idle)))
            ∙ ap some (cell_in z.el z.el.value st z.el.state.expire_time refl is refl)

        by_answer :
            Updated id op_id (some (call_handle id)) (managed_in z.c1 z.el) r expire z.m
            → Acts c (reply_of id v expire r) after
        by_answer (applied is ok g) =
            subst (λ x. Acts c (reply_of id v expire x) after) (sym ok)
              (writes id expire v (Target-unheld blank id z.el c z.c1 z.target is)
                (omega (arith, g.full_term, ap (λ (q : Timers). p.clock q.reads) z.target.queue))
                (changed v cache_guaranteed expire (ground (arith, ok)) g.state (sym g.expire_lem)))
        by_answer (deferred is ok kept st h x) =
            subst (λ y. Acts c (reply_of id v expire y) after) (sym ok)
              (keeps_back id z.el.state.expire_time expire z.el.value v
                (there cache_guaranteed is (λ e. cc)) x.1
                (changed z.el.value cache_update_protected expire (ground (arith, ok)) st
                  (sym x.0)))
        by_answer (turned_away is ok x left) =
            subst (λ y. Acts c (reply_of id v expire y) after) (sym ok)
              (refuses id expire z.el.value v
                (there cache_update_protected is (λ e. cc)
                  ∙ ap (λ n. some (record { value = z.el.value; hold = closing n })) (sym x))
                (Sets-Same id (record { value = z.el.value; hold = closing z.el.state.expire_time })
                  (view c) (view after) (there cache_update_protected is (λ e. cc))
                  (changed z.el.value cache_update_protected z.el.state.expire_time
                    (ground (arith, ok)) (ap (λ (y : Managed). y.manager.current_state) left ∙ is)
                    (ap (λ (y : Managed). y.manager.expire_time) left))))

    Lapses-Releases :
        (id : ℕ) (c c' : Center T)
        → Lapses c'.timers.reads (lookup id c.map) (lookup id c'.map)
        → Releases (p.clock c'.timers.reads) (view c id) (view c' id)
    Lapses-Releases id c c' (stays same) = holds (view_same id c c' same)
    Lapses-Releases id c c' (lapsed el there g over left) =
        releases el.value el.state.expire_time
          (view_found id el c there
            ∙ ap some (cell_in el el.value cache_guaranteed el.state.expire_time refl g refl))
          over (view_found id (idled el) c' left)

    pub Ran-Acts : (c c' : Center T) → Ran c c' → Acts c passed c'
    Ran-Acts c c' r = passes (λ id. Lapses-Releases id c c' (r.lapses id))
