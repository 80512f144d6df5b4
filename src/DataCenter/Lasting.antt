-- ===== src/DataCenter/Lasting.antt =====
-- How long a value of a data center lasts (cache_data_center.h), over reads and updates.
use cache_system_of_lease_me.Base.{
  ℕ, ◌≤◌, ◌≡◌, ◌≢◌, refl, sym, ap, ◌∙◌, subst, false, Option, some, arith, ◌==◌, ◌&&◌,
  if◌then◌else◌, inl, inr, ℕ_discrete,
}
use cache_system_of_lease_me.Common.{OpResult, UpdateCallHandler, call_handle}
use cache_system_of_lease_me.Standard.Map.{lookup, lookup-assign_self, lookup-assign_ne}
use cache_system_of_lease_me.TimerQueue.{Platform, Timers}
use cache_system_of_lease_me.StateManager.{CacheStateManager, Managed, cache_idle}
use cache_system_of_lease_me.StateManager.Operations.{Read}
use cache_system_of_lease_me.StateManager.Updates.{Updated, applied, deferred, turned_away}
use cache_system_of_lease_me.StateManager.Holding.{
  Read-Runs, Updated-Runs, Read-later, Updated-later,
}
use cache_system_of_lease_me.DataCenter.{CacheElement, Element, Center, put_back}
use cache_system_of_lease_me.DataCenter.Invariant.{
  some_eq, some_ne_none, content, managed_in, IsCenter,
}
use cache_system_of_lease_me.DataCenter.Reads.{Answered, missed, hit, with_state}
use cache_system_of_lease_me.DataCenter.Updates.{Settled}
use cache_system_of_lease_me.DataCenter.Stored.{is_ok, Target, stored, store-state}

module _ ⦃p : Platform⦄ where
  -- An update of a busy manager is not let through.
  Updated-refused :
      (e op_id expire : ℕ) (f : Option UpdateCallHandler) (s m : Managed) (r : OpResult)
      → Updated e op_id f s r expire m
      → s.manager.current_state ≢ cache_idle
      → is_ok r ≡ false
  Updated-refused e op_id expire f s m r (applied is ok g) n = absurd (n is)
  Updated-refused e op_id expire f s m r (deferred is ok kept st h x) n = ap is_ok ok
  Updated-refused e op_id expire f s m r (turned_away is ok x left) n = ap is_ok ok

module _ {T : Type 0} where
  -- The element `id` has the value `v`, under a lease or under update protection, to the time `n` at
  -- least.
  pub record Lasts (n id : ℕ) (v : T) (c : Center T) : Type 0 where
    pub el : CacheElement T
    pub found : lookup id c.map ≡ some el
    pub busy : el.state.current_state ≢ cache_idle
    pub value : content c id ≡ some v
    pub lasting : n ≤ el.state.expire_time

  -- An element put back with a busy manager is the one that is held, or leaves it alone.
  put_back-Lasts :
      (n id k : ℕ) (v : T) (el : CacheElement T) (s : Element T) (c c1 : Center T)
      → Lasts n id v c
      → lookup k c1.map ≡ some el
      → (k ≢ id → lookup id c1.map ≡ lookup id c.map)
      → (k ≡ id → (s.element.state.current_state ≢ cache_idle) × (n ≤ s.element.state.expire_time))
      → content (put_back k s c1) id ≡ some v
      → Lasts n id v (put_back k s c1)
  put_back-Lasts n id k v el s c c1 h found rest busy value = elim (ℕ_discrete k id) [
    | yes same ↦ record {
      el = s.element;
      found =
          subst (λ x. lookup x (put_back k s c1).map ≡ some s.element) same
            (lookup-assign_self k s.element c1.map el found);
      busy = (busy same).0;
      value = value;
      lasting = (busy same).1;
    }
    | no other ↦ record {
      el = h.el;
      found = lookup-assign_ne k id s.element c1.map el found other ∙ rest other ∙ h.found;
      busy = h.busy;
      value = value;
      lasting = h.lasting;
    }
  ]

  module _ ⦃p : Platform⦄ where
    hit-Lasts :
        (n id k expire : ℕ) (v : T) (el : CacheElement T) (m : Managed) (c : Center T)
        → IsCenter c
        → Lasts n id v c
        → lookup k c.map ≡ some el
        → Read k (managed_in c el) expire m
        → content (put_back k (with_state m el) c) id ≡ some v
        → Lasts n id v (put_back k (with_state m el) c)
    hit-Lasts n id k expire v el m c i h found a value =
        put_back-Lasts n id k v el (with_state m el) c c h found (λ _. refl)
          (λ is.
            let r = Read-Runs k expire (managed_in c el) m (i.leased k el found) a in
            let same : el ≡ h.el = some_eq (sym found ∙ ap (λ x. lookup x c.map) is ∙ h.found) in
            (
              r.busy,
              omega (
                arith,
                r.longer,
                h.lasting,
                ap (λ (x : CacheElement T). x.state.expire_time) same,
              ),
            ))
          value

    pub Answered-later :
        (k : ℕ) (r : OpResult) (out : Option (ℕ × T)) (c c' : Center T)
        → Answered k c r out c'
        → c.timers.reads ≤ c'.timers.reads
    Answered-later k r out c c' (missed none_there x y left) =
        omega (arith, ap (λ (x : Center T). x.timers.reads) left)
    Answered-later k r out c c' (hit el m expire found x y z a left) = omega (
      arith,
      ap (λ (x : Center T). x.timers.reads) left,
      Read-later k expire (managed_in c el) m a,
    )

    pub Answered-Lasts :
        (n id k : ℕ) (v : T) (r : OpResult) (out : Option (ℕ × T)) (c c' : Center T)
        → IsCenter c
        → Answered k c r out c'
        → content c' id ≡ content c id
        → Lasts n id v c
        → Lasts n id v c'
    Answered-Lasts n id k v r out c c' i (missed none_there x y left) same h =
        subst (Lasts n id v) (sym left) h
    Answered-Lasts n id k v r out c c' i (hit el m expire found x y z a left) same h =
        subst (Lasts n id v) (sym left) (
          hit-Lasts n id k expire v el m c i h found a
            (ap (λ x. content x id) (sym left) ∙ same ∙ h.value))

    -- The element that an update finds at a held id is the held one.
    same-Target :
        (n id k : ℕ) (v blank : T) (el : CacheElement T) (c c1 : Center T)
        → (h : Lasts n id v c) → Target blank k c el c1
        → k ≡ id
        → el ≡ h.el
    same-Target n id k v blank el c c1 h t is = elim t.old_or_new [
      | inl same ↦ some_eq (
          sym t.found
          ∙ ap (λ (x : Center T). lookup k x.map) same
          ∙ ap (λ x. lookup x c.map) is
          ∙ h.found)
      | inr (nothing, new) ↦ absurd (some_ne_none (sym h.value ∙ ap (content c) (sym is) ∙ nothing))
    ]

    module _ (blank : T) (k op_id expire : ℕ) (u : T) (f : UpdateCallHandler) (r : OpResult)
        (c c' : Center T) (z : Settled blank k u op_id f c r expire c') where
      -- The held element is busy when the update meets it.
      met_busy :
          (n id : ℕ) (v : T)
          → Lasts n id v c
          → k ≡ id
          → (z.el.state.current_state ≢ cache_idle) × (n ≤ z.el.state.expire_time)
      met_busy n id v h is =
          subst
            (λ (x : CacheElement T).
              (x.state.current_state ≢ cache_idle) × (n ≤ x.state.expire_time))
            (sym (same-Target n id k v blank z.el c z.c1 h z.target is)) (h.busy, h.lasting)

      Settled-value :
          (n id : ℕ) (v : T)
          → Lasts n id v c
          → content c' id ≡ (if is_ok r && k == id then some u else content c id)
          → content c' id ≡ some v
      Settled-value n id v h same = elim (ℕ_discrete k id) [
        | yes is ↦
            same
            ∙ ground (
              arith,
              Updated-refused k op_id expire (some (call_handle k)) (managed_in z.c1 z.el) z.m r
                  z.answer (met_busy n id v h is).0,
              h.value,
            )
        | no other ↦ same ∙ ground (arith, other, h.value)
      ]

      pub Settled-Lasts :
          (n id : ℕ) (v : T)
          → content c' id ≡ (if is_ok r && k == id then some u else content c id)
          → Lasts n id v c
          → Lasts n id v c'
      Settled-Lasts n id v same h = subst (Lasts n id v) (sym z.left) (
          put_back-Lasts n id k v z.el (stored r u op_id f z.m z.el) c z.c1 h z.target.found
            (z.target.rest id)
            (λ is.
              let met = met_busy n id v h is in
              let runs =
                Updated-Runs k op_id expire (some (call_handle k)) (managed_in z.c1 z.el) z.m r
                  z.answer met.0 in
              subst
                (λ (x : CacheStateManager). (x.current_state ≢ cache_idle) × (n ≤ x.expire_time))
                (sym (store-state r u op_id f (with_state z.m z.el).element))
                (runs.busy, omega (arith, runs.longer, met.1)))
            (ap (λ x. content x id) (sym z.left) ∙ Settled-value n id v h same))

      pub Settled-later : c.timers.reads ≤ c'.timers.reads
      Settled-later = omega (
        arith,
        Updated-later k op_id expire (some (call_handle k)) (managed_in z.c1 z.el) z.m r z.answer,
        ap (λ (q : Timers). q.reads) z.target.queue,
        ap (λ (x : Center T). x.timers.reads) z.left,
      )
