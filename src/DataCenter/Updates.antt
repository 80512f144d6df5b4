-- ===== src/DataCenter/Updates.antt =====
-- CacheDataCenter::update_op and CacheElement::call_handle (cache_data_center.h).
use cache_system_of_lease_me.Base.{
  ℕ, ◌≡◌, ◌<◌, refl, sym, ◌∙◌, subst, none, some, arith, ◌==◌, ◌&&◌, if◌then◌else◌, true,
  Option-cases, inl, inr, ℕ_discrete,
}
use cache_system_of_lease_me.Outcome.{done, bind-done, zoom-done}
use cache_system_of_lease_me.Common.{OpResult, UpdateCallHandler, call_handle}
use cache_system_of_lease_me.Standard.Map.{lookup, emplace}
use cache_system_of_lease_me.TimerQueue.{Platform, IsSteady}
use cache_system_of_lease_me.StateManager.{
  Managed, CacheState, cache_guaranteed, cache_idle, new_manager,
}
use cache_system_of_lease_me.StateManager
use cache_system_of_lease_me.StateManager.Lease.{IsLeased}
use cache_system_of_lease_me.StateManager.Updates.{
  Updated, applied, deferred, turned_away, update_op-Updated, Updated-kept, in_time_twice,
}
use cache_system_of_lease_me.DataCenter.{
  CacheElement, Center, at_element, focus, put_back, on_state, managed, with_managed,
  update_element, update_op, new_element,
}
use cache_system_of_lease_me.DataCenter.Invariant.{
  content, managed_in, IsCenter, assign-IsCenter, emplace-IsCenter,
}
use cache_system_of_lease_me.DataCenter.Reads.{with_state}
use cache_system_of_lease_me.DataCenter.Stored.{
  Target, is_ok, new-Target, store-state, stored, stored-content,
}

module _ {T : Type 0} where
  module _ ⦃p : Platform⦄ where
    -- What an update leaves: the state manager's answer for the element found or made, which
    -- takes the value in as `stored` says.
    pub record Settled (blank : T) (id : ℕ) (v : T) (op_id : ℕ) (f : UpdateCallHandler)
        (c : Center T) (r : OpResult) (expire : ℕ) (c' : Center T) : Type 0 where
      pub el : CacheElement T
      pub c1 : Center T
      pub m : Managed
      pub target : Target blank id c el c1
      pub answer : Updated id op_id (some (call_handle id)) (managed_in c1 el) r expire m
      pub left : c' ≡ put_back id (stored r v op_id f m el) c1

    -- A guaranteed element is updated while its lease runs at the second reading of the clock.
    abbrev pub IsPromptTwice : ℕ → Center T → Type 0
    IsPromptTwice id c =
        (el : CacheElement T)
        → lookup id c.map ≡ some el
        → el.state.current_state ≡ cache_guaranteed
        → in_time_twice (managed_in c el) ≡ true

    update_element-done :
        (id op_id expire : ℕ) (v : T) (f : UpdateCallHandler) (c : Center T) (el : CacheElement T)
        (r : OpResult) (m : Managed)
        → StateManager.update_op id op_id (some (call_handle id)) (managed_in c el)
          ≡ done (r, expire) m
        → at_element id el (update_element id v op_id f) c
          ≡ done (r, expire) (put_back id (stored r v op_id f m el) c)
    unfolding update_element
    update_element-done id op_id expire v f c el r m updates =
        zoom-done (focus el) (put_back id) (update_element id v op_id f) c (
          bind-done (on_state (StateManager.update_op id op_id (some (call_handle id)))) _ _ (
            zoom-done managed with_managed (StateManager.update_op id op_id (some (call_handle id)))
              _ updates))

    update_found :
        (blank : T) (id op_id : ℕ) (v : T) (f : UpdateCallHandler) (c : Center T)
        (el : CacheElement T)
        → lookup id c.map ≡ some el
        → update_op blank id v op_id f c ≡ at_element id el (update_element id v op_id f) c
    unfolding update_op update_element
    update_found blank id op_id v f c el found = rw (found, update_op)

    update_missing :
        (blank : T) (id op_id : ℕ) (v : T) (f : UpdateCallHandler) (c : Center T)
        → lookup id c.map ≡ none
        → update_op blank id v op_id f c
          ≡ at_element id
              (new_element blank)
              (update_element id v op_id f)
              (record c { map = emplace id (new_element blank) c.map })
    unfolding update_op update_element
    update_missing blank id op_id v f c missing = rw (missing, update_op)

    -- The update of an element that is there.
    update_present :
        IsSteady p
        → (id op_id : ℕ) (v : T) (f : UpdateCallHandler) (c : Center T) (el : CacheElement T)
        → IsCenter c
        → lookup id c.map ≡ some el
        → (el.state.current_state ≡ cache_guaranteed → in_time_twice (managed_in c el) ≡ true)
        → 0 < op_id
        → (r : OpResult) × (expire : ℕ) × (m : Managed) × (at_element id el
              (update_element id v op_id f)
              c
            ≡ done (r, expire) (put_back id (stored r v op_id f m el) c))
          × Updated id op_id (some (call_handle id)) (managed_in c el) r expire m
          × IsCenter (put_back id (stored r v op_id f m el) c)
    update_present steady id op_id v f c el k found prompt pos =
        let l = k.leased id el found in
        let (r, expire, m, updates, u) =
          update_op-Updated steady id op_id (some (call_handle id)) (managed_in c el) l prompt pos
            refl in
        let (l', z) =
          Updated-kept id op_id (some (call_handle id)) (managed_in c el) m r expire l u in
        let el' = (stored r v op_id f m el).element in
        (
          r,
          expire,
          m,
          update_element-done id op_id expire v f c el r m updates,
          u,
          assign-IsCenter steady c id el el' m.timers k found l'.ready
              (subst (λ x. IsLeased id (record { manager = x; timers = m.timers }))
                (sym (store-state r v op_id f (with_state m el).element)) l')
              z,
        )

    -- The clock is not set back, and the invariant of the center holds. With an operation id an
    -- update returns, also where the element is new: it is let through, kept until the lease is
    -- over, or turned away, as the state manager of the element decides. An element in the
    -- guaranteed state must meet it while its lease runs at the second reading of the clock. The
    -- invariant of the center is kept, and its values stay but for the one of an update let
    -- through.
    pub update_op_correct :
        IsSteady p
        → (blank : T) (id op_id : ℕ) (v : T) (f : UpdateCallHandler) (c : Center T) → IsCenter c
        → IsPromptTwice id c
        → 0 < op_id
        → (r : OpResult) × (expire : ℕ) × (c' : Center T) × (update_op blank id v op_id f c
            ≡ done (r, expire) c')
          × Settled blank id v op_id f c r expire c'
          × IsCenter c'
          × ((j : ℕ) → content c' j ≡ (if is_ok r && id == j then some v else content c j))
    update_op_correct steady blank id op_id v f c k prompt pos =
        elim (Option-cases (lookup id c.map)) [
          | inl missing ↦
              let c1 = record c { map = emplace id (new_element blank) c.map } in
              let target = new-Target blank id c missing in
              let (r, expire, m, updates, u, k') =
                update_present steady id op_id v f c1 (new_element blank)
                  (emplace-IsCenter blank c id k missing) target.found (λ h. absurd (cc)) pos in
              (
                r,
                expire,
                put_back id (stored r v op_id f m (new_element blank)) c1,
                update_missing blank id op_id v f c missing ∙ updates,
                record {
                  el = new_element blank;
                  c1 = c1;
                  m = m;
                  target = target;
                  answer = u;
                  left = refl;
                },
                k',
                λ j.
                    stored-content r v op_id id j f m (new_element blank) c1 target.found
                    ∙ fresh_content r v id j f c c1 m target
                        (answered_ok id op_id expire f c1 m r u),
              )
          | inr (el, found) ↦
              let (r, expire, m, updates, u, k') =
                update_present steady id op_id v f c el k found (prompt el found) pos in
              (
                r,
                expire,
                put_back id (stored r v op_id f m el) c,
                update_found blank id op_id v f c el found ∙ updates,
                record {
                  el = el;
                  c1 = c;
                  m = m;
                  target = record {
                    found = found;
                    queue = refl;
                    other = λ j n. refl;
                    rest = λ j n. refl;
                    old_or_new = inl refl;
                  };
                  answer = u;
                  left = refl;
                },
                k',
                λ j. stored-content r v op_id id j f m el c found,
              )
        ]
      where
        answered_ok :
            (id op_id expire : ℕ) (f : UpdateCallHandler) (c1 : Center T) (m : Managed)
            (r : OpResult)
            → Updated id op_id
                (some (call_handle id))
                (managed_in c1 (new_element blank))
                r
                expire
                m
            → is_ok r ≡ true
        answered_ok id op_id expire f c1 m r (applied is ok g) = rw ok refl
        answered_ok id op_id expire f c1 m r (deferred is ok x y z w) = absurd (cc)
        answered_ok id op_id expire f c1 m r (turned_away is ok x y) = absurd (cc)

        fresh_content :
            (r : OpResult) (v : T) (id j : ℕ) (f : UpdateCallHandler) (c c1 : Center T)
            (m : Managed)
            → Target blank id c (new_element blank) c1
            → is_ok r ≡ true
            → (if is_ok r && id == j then some v else content c1 j)
              ≡ (if is_ok r && id == j then some v else content c j)
        fresh_content r v id j f c c1 m target ok = elim (ℕ_discrete id j) [
          | yes same ↦ ground (arith, ok, same)
          | no other ↦ ground (arith, target.other j other)
        ]
