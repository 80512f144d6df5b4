-- ===== src/DataCenter/Completion.antt =====
-- A kept update that completes: update_op and then call_handle (cache_data_center.h).
use cache_system_of_lease_me.Base.{
  ℕ, ◌≡◌, ◌<◌, refl, sym, ap, ◌∙◌, subst, some, arith, ◌==◌, if◌then◌else◌,
}
use cache_system_of_lease_me.Outcome.{done, thrown, blocked, undefined, out_of_fuel, Outcome}
use cache_system_of_lease_me.Common.{OpResult, operation_ok, operation_defer, UpdateCallHandler}
use cache_system_of_lease_me.Standard.Map.{lookup, lookup-assign_self}
use cache_system_of_lease_me.TimerQueue.{Platform, IsSteady}
use cache_system_of_lease_me.StateManager.{Managed}
use cache_system_of_lease_me.DataCenter.{
  CacheElement, Element, Center, put_back, store, call_handle_of, update_op,
}
use cache_system_of_lease_me.DataCenter.Invariant.{content, IsCenter}
use cache_system_of_lease_me.DataCenter.Reads.{with_state, content-put_back}
use cache_system_of_lease_me.DataCenter.Updates.{IsPromptTwice, update_op_correct}
use cache_system_of_lease_me.DataCenter.Stored.{stored}

abbrev result_of : {S A : Type 0} → A → Outcome S A → A
result_of a (done b s) = b
result_of a _ = a

abbrev pub state_of : {S A : Type 0} → Outcome S A → S
state_of (done b s) = s
state_of (thrown x s) = s
state_of (blocked s) = s
state_of (undefined s) = s
state_of (out_of_fuel s) = s

module _ {T : Type 0} where
  -- The element with the kept value in place.
  abbrev pub promoted : T → T → Element T → Element T
  promoted blank v s = record s { element = record s.element { value = v; temp_value = blank } }

  handled :
      (blank v : T) (op_id : ℕ) (f : UpdateCallHandler) (r : OpResult) (el : CacheElement T)
      (m : Managed)
      → r ≡ operation_defer
      → call_handle_of blank operation_ok (with_state m (store r v op_id f el))
        ≡ done f (promoted blank v (with_state m (store r v op_id f el)))
  unfolding call_handle_of store
  handled blank v op_id f r el m is = rw is refl

  module _ ⦃p : Platform⦄ where
    -- The clock is not set back, the invariant of the center holds, the update has an operation
    -- id, and a guaranteed element meets it while its lease runs at the second reading of the
    -- clock. If the update is deferred, its element is there, the values are still the old ones,
    -- and `call_handle` with an ok, whatever the state manager and the timer queue have become by
    -- then, runs the handler that came with the update; the value of the update is then the one of
    -- its cache id, and the other values are those from before.
    pub deferred_completes :
        IsSteady p
        → (blank : T) (id op_id expire : ℕ) (v : T) (f : UpdateCallHandler) (c c' : Center T)
        → IsCenter c
        → IsPromptTwice id c
        → 0 < op_id
        → update_op blank id v op_id f c ≡ done (operation_defer, expire) c'
        → (el : CacheElement T) × (lookup id c'.map ≡ some el)
          × ((j : ℕ) → content c' j ≡ content c j)
          × ((m : Managed)
              → (call_handle_of blank operation_ok (with_state m el)
                  ≡ done f (promoted blank v (with_state m el)))
                × ((j : ℕ)
                    → content (put_back id (promoted blank v (with_state m el)) c') j
                      ≡ (if id == j then some v else content c j)))
    deferred_completes steady blank id op_id expire v f c c' k prompt pos defers =
        let (r, expire', c2, updates, z, k', same) =
          update_op_correct steady blank id op_id v f c k prompt pos in
        let el' = (stored r v op_id f z.m z.el).element in
        let is_defer : r ≡ operation_defer =
          ap (λ (x : OpResult × ℕ). x.0)
            (ap (result_of {A = OpResult × ℕ} (r, expire')) (sym updates ∙ defers)) in
        let is_c2 : c2 ≡ c' = ap state_of (sym updates ∙ defers) in
        let found : lookup id c'.map ≡ some el' =
          subst (λ (x : Center T). lookup id x.map ≡ some el') (sym z.left ∙ is_c2)
            (lookup-assign_self id el' z.c1.map z.el z.target.found) in
        let kept : (j : ℕ) → content c' j ≡ content c j =
          λ j. subst (λ x. content x j ≡ content c j) is_c2 (same j ∙ ground (arith, is_defer)) in
        (
          el',
          found,
          kept,
          λ m. (
            handled blank v op_id f r (with_state z.m z.el).element m is_defer,
            λ j.
                content-put_back id j el' (promoted blank v (with_state m el')) c' found
                ∙ ground (arith, kept j),
          ),
        )
