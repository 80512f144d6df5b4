-- ===== src/DataCenter/Stored.antt =====
-- What CacheElement::update_op stores (cache_data_center.h), and the element that an update of the
-- center finds or makes.
use mathlib.Core.Option
use cache_system_of_lease_me.Base.{
  ℕ, ◌≡◌, ◌≢◌, refl, ap, ◌∙◌, subst, none, some, arith, ◌==◌, ◌&&◌, if◌then◌else◌, true, false,
  Bool, inr, ℕ_discrete, ◌⊎◌,
}
use cache_system_of_lease_me.Common.{
  OpResult, operation_ok, operation_defer, operation_retry, operation_error_argument,
  operation_error_no_data, UpdateCallHandler,
}
use cache_system_of_lease_me.Standard.Map.{lookup, emplace, lookup-emplace, lookup-emplace_self}
use cache_system_of_lease_me.StateManager.{Managed}
use cache_system_of_lease_me.DataCenter.{
  CacheElement, Element, Center, put_back, store, new_element,
}
use cache_system_of_lease_me.DataCenter.Invariant.{content}
use cache_system_of_lease_me.DataCenter.Reads.{
  with_state, content-put_back, content_found, content_missing,
}

abbrev pub is_ok : OpResult → Bool
is_ok operation_ok = true
is_ok operation_defer = false
is_ok operation_retry = false
is_ok operation_error_argument = false
is_ok operation_error_no_data = false

module _ {T : Type 0} where
  -- The element after an update with the result `r`.
  abbrev pub stored : OpResult → T → ℕ → UpdateCallHandler → Managed → CacheElement T → Element T
  stored r v op_id f m el = record {
    element = store r v op_id f (with_state m el).element;
    timers = m.timers;
  }

  pub store-value :
      (r : OpResult) (v : T) (op_id : ℕ) (f : UpdateCallHandler) (el : CacheElement T)
      → (store r v op_id f el).value ≡ (if is_ok r then v else el.value)
  unfolding store
  store-value operation_ok v op_id f el = refl
  store-value operation_defer v op_id f el = refl
  store-value operation_retry v op_id f el = refl
  store-value operation_error_argument v op_id f el = refl
  store-value operation_error_no_data v op_id f el = refl

  pub store-state :
      (r : OpResult) (v : T) (op_id : ℕ) (f : UpdateCallHandler) (el : CacheElement T)
      → (store r v op_id f el).state ≡ el.state
  unfolding store
  store-state operation_ok v op_id f el = refl
  store-state operation_defer v op_id f el = refl
  store-state operation_retry v op_id f el = refl
  store-state operation_error_argument v op_id f el = refl
  store-state operation_error_no_data v op_id f el = refl

  -- The value is replaced by an update that is let through and by no other.
  pub stored-content :
      (r : OpResult) (v : T) (op_id id j : ℕ) (f : UpdateCallHandler) (m : Managed)
      (el : CacheElement T) (c : Center T)
      → lookup id c.map ≡ some el
      → content (put_back id (stored r v op_id f m el) c) j
        ≡ (if is_ok r && id == j then some v else content c j)
  stored-content r v op_id id j f m el c found = elim (ℕ_discrete id j) [
    | yes same ↦
        subst
          (λ k.
            content (put_back id (stored r v op_id f m el) c) k
            ≡ (if is_ok r && id == k then some v else content c k))
          same
          (content-put_back id id el (stored r v op_id f m el) c found
            ∙ ground (
              arith,
              store-value r v op_id f (with_state m el).element,
              content_found id el c found,
            ))
    | no other ↦ content-put_back id j el (stored r v op_id f m el) c found ∙ ground arith
  ]

  -- The element that an update finds or makes, in a center that has it.
  pub record Target (blank : T) (id : ℕ) (c : Center T) (el : CacheElement T) (c1 : Center T)
      : Type 0 where
    pub found : lookup id c1.map ≡ some el
    pub queue : c1.timers ≡ c.timers
    pub other : (j : ℕ) → id ≢ j → content c1 j ≡ content c j
    pub rest : (j : ℕ) → id ≢ j → lookup j c1.map ≡ lookup j c.map
    pub old_or_new : (c1 ≡ c) ⊎ ((content c id ≡ none) × (el ≡ new_element blank))

  pub new-Target :
      (blank : T) (id : ℕ) (c : Center T)
      → lookup id c.map ≡ none
      → Target blank id c
          (new_element blank)
          (record c { map = emplace id (new_element blank) c.map })
  unfolding content
  new-Target blank id c missing = record {
    found = lookup-emplace_self id (new_element blank) c.map missing;
    queue = refl;
    other = λ j n.
        ap (Option.map (λ (el : CacheElement T). el.value))
          (lookup-emplace id j (new_element blank) c.map missing ∙ ground arith);
    rest = λ j n. lookup-emplace id j (new_element blank) c.map missing ∙ ground arith;
    old_or_new = inr (content_missing id c missing, refl);
  }
