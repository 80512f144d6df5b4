-- ===== src/DataCenter/Reads.antt =====
-- CacheDataCenter::read_op (cache_data_center.h).
use cache_system_of_lease_me.Base.{
  ℕ, ◌≡◌, refl, ◌∙◌, subst, Option, none, some, arith, ◌==◌, if◌then◌else◌, true, Bool-cases,
  Option-cases, inl, inr, ℕ_discrete,
}
use cache_system_of_lease_me.Outcome.{done, bind-done, zoom-done}
use cache_system_of_lease_me.Common.{OpResult, operation_ok, operation_error_no_data}
use cache_system_of_lease_me.Standard.Map.{lookup, lookup-assign}
use cache_system_of_lease_me.TimerQueue.{Platform, IsSteady}
use cache_system_of_lease_me.StateManager.{Managed, CacheState, cache_guaranteed}
use cache_system_of_lease_me.StateManager
use cache_system_of_lease_me.StateManager.Expire.{in_time}
use cache_system_of_lease_me.StateManager.Operations.{Read, read_op-Read, Read-kept}
use cache_system_of_lease_me.DataCenter.{
  CacheElement, Element, Center, at_element, focus, put_back, on_state, managed, with_managed,
  read_element, read_op,
}
use cache_system_of_lease_me.DataCenter.Invariant.{content, managed_in, IsCenter, assign-IsCenter}

module _ {T : Type 0} where
  -- The element after a call of its manager, with the queue.
  abbrev pub with_state : Managed → CacheElement T → Element T
  with_state m el = record { element = record el { state = m.manager }; timers = m.timers }

  pub content-put_back :
      (id j : ℕ) (el : CacheElement T) (s : Element T) (c : Center T)
      → lookup id c.map ≡ some el
      → content (put_back id s c) j ≡ (if id == j then some s.element.value else content c j)
  unfolding content
  content-put_back id j el s c found = elim (Bool-cases (id == j)) [
    | inl same ↦ rw (lookup-assign id j s.element c.map el found, same)
    | inr other ↦ rw (lookup-assign id j s.element c.map el found, other)
  ]

  pub content_found :
      (id : ℕ) (el : CacheElement T) (c : Center T)
      → lookup id c.map ≡ some el
      → content c id ≡ some el.value
  unfolding content
  content_found id el c found = rw found

  pub content_missing : (id : ℕ) (c : Center T) → lookup id c.map ≡ none → content c id ≡ none
  unfolding content
  content_missing id c missing = rw missing

  -- The value stays, so the contents do.
  same_content :
      (id j : ℕ) (el : CacheElement T) (s : Element T) (c : Center T)
      → lookup id c.map ≡ some el
      → s.element.value ≡ el.value
      → content (put_back id s c) j ≡ content c j
  same_content id j el s c found v = elim (ℕ_discrete id j) [
    | yes same ↦
        subst (λ k. content (put_back id s c) k ≡ content c k) same
          (content-put_back id id el s c found ∙ ground (arith, v, content_found id el c found))
    | no other ↦ content-put_back id j el s c found ∙ ground arith
  ]

  module _ ⦃p : Platform⦄ where
    -- What a read answers: a miss and nothing changed, or the value of the element with its lease.
    pub data Answered (id : ℕ) (c : Center T) (r : OpResult) (out : Option (ℕ × T)) (c' : Center T)
        : Type 0 where
      missed :
          content c id ≡ none
          → r ≡ operation_error_no_data
          → out ≡ none
          → c' ≡ c
          → Answered id c r out c'
      hit :
          (el : CacheElement T) (m : Managed) (expire : ℕ)
          → lookup id c.map ≡ some el
          → content c id ≡ some el.value
          → r ≡ operation_ok
          → out ≡ some (expire, el.value)
          → Read id (managed_in c el) expire m
          → c' ≡ put_back id (with_state m el) c
          → Answered id c r out c'

    -- A guaranteed element is read before its lease runs out.
    abbrev pub IsPrompt : ℕ → Center T → Type 0
    IsPrompt id c =
        (el : CacheElement T)
        → lookup id c.map ≡ some el
        → el.state.current_state ≡ cache_guaranteed
        → in_time (managed_in c el) ≡ true

    read_element-done :
        (id op_id : ℕ) (c : Center T) (el : CacheElement T) (expire : ℕ) (m : Managed)
        → StateManager.read_op id op_id (managed_in c el) ≡ done (operation_ok, expire) m
        → read_element id op_id (focus el c)
          ≡ done (operation_ok, expire, el.value) (with_state m el)
    unfolding read_element
    read_element-done id op_id c el expire m reads =
        bind-done (on_state (StateManager.read_op id op_id)) _ _
          (zoom-done managed with_managed (StateManager.read_op id op_id) _ reads)

    read_hit :
        (id op_id : ℕ) (c : Center T) (el : CacheElement T) (expire : ℕ) (m : Managed)
        → lookup id c.map ≡ some el
        → StateManager.read_op id op_id (managed_in c el) ≡ done (operation_ok, expire) m
        → read_op id op_id c
          ≡ done (operation_ok, some (expire, el.value)) (put_back id (with_state m el) c)
    unfolding read_op
    read_hit id op_id c el expire m found reads =
        rw (found, read_op)
          (bind-done (at_element id el (read_element id op_id)) _ c (
            zoom-done (focus el) (put_back id) (read_element id op_id) c
              (read_element-done id op_id c el expire m reads)))

    read_miss :
        (id op_id : ℕ) (c : Center T)
        → lookup id c.map ≡ none
        → read_op id op_id c ≡ done (operation_error_no_data, none) c
    unfolding read_op
    read_miss id op_id c missing = rw (missing, read_op)

    -- The clock is not set back, and the invariant of the center holds. A read returns. A cache id
    -- that is not there is answered with "no data", and nothing changes; one that is there is
    -- answered with the value that the center holds for it and with the lease of the state
    -- manager; in the guaranteed state it must be read before its lease is over. The invariant of
    -- the center is kept, and so are all its values.
    pub read_op_correct :
        IsSteady p
        → (id op_id : ℕ) (c : Center T) → IsCenter c
        → IsPrompt id c
        → (r : OpResult) × (out : Option (ℕ × T)) × (c' : Center T) × (read_op id op_id c
            ≡ done (r, out) c')
          × Answered id c r out c'
          × IsCenter c'
          × ((j : ℕ) → content c' j ≡ content c j)
    read_op_correct steady id op_id c v prompt = elim (Option-cases (lookup id c.map)) [
      | inl missing ↦ (
        operation_error_no_data,
        none,
        c,
        read_miss id op_id c missing,
        missed (content_missing id c missing) refl refl refl,
        v,
        λ j. refl,
      )
      | inr (el, found) ↦
          let l = v.leased id el found in
          let (expire, m, reads, a) =
            read_op-Read steady id op_id (managed_in c el) l (prompt el found) in
          let (l', z) = Read-kept steady id expire (managed_in c el) m l a in
          (
            operation_ok,
            some (expire, el.value),
            put_back id (with_state m el) c,
            read_hit id op_id c el expire m found reads,
            hit el m expire found (content_found id el c found) refl refl a refl,
            assign-IsCenter steady c id el (with_state m el).element m.timers v found l'.ready l' z,
            λ j. same_content id j el (with_state m el) c found refl,
          )
    ]
