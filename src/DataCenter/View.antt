-- ===== src/DataCenter/View.antt =====
-- The store of values under leases that a data center (cache_data_center.h) stands for.
use mathlib.Core.Option
use cache_system_of_lease_me.Base.{
  ℕ, ◌≤◌, ◌≡◌, ◌≢◌, refl, sym, ap, ◌∙◌, Option, none, some, arith, ◌==◌, inl, inr, ℕ_discrete,
  Bool-cases, Option-cases,
}
use cache_system_of_lease_me.Common.{
  OpResult, operation_ok, operation_defer, operation_retry, operation_error_argument,
  operation_error_no_data,
}
use cache_system_of_lease_me.Standard.Map.{lookup, lookup-assign}
use cache_system_of_lease_me.StateManager.{
  CacheState, cache_idle, cache_guaranteed, cache_update_protected,
}
use cache_system_of_lease_me.DataCenter.{CacheElement, Element, Center, put_back}
use cache_system_of_lease_me.DataCenter.Invariant.{content, some_ne_none}
use cache_system_of_lease_me.DataCenter.Reads.{content_found}
use cache_system_of_lease_me.DataCenter.LeaseStore.{
  Hold, free, lent, closing, Cell, Store, Event, nothing_found, found, written, kept_back, refused,
  failed, Sets, Same, Outlasts,
}

-- The hold that a manager's state stands for.
abbrev pub hold_in : CacheState → ℕ → Hold
hold_in cache_idle n = free
hold_in cache_guaranteed n = lent n
hold_in cache_update_protected n = closing n

pub granted-Outlasts :
    (st : CacheState) (n m : ℕ) → st ≢ cache_update_protected → m ≤ n → Outlasts n (hold_in st m)
granted-Outlasts cache_idle n m other le = tt
granted-Outlasts cache_guaranteed n m other le = le
granted-Outlasts cache_update_protected n m other le = absurd (other refl)

module _ {T : Type 0} where
  abbrev pub cell_of : CacheElement T → Cell T
  cell_of el = record {
    value = el.value;
    hold = hold_in el.state.current_state el.state.expire_time;
  }

  -- The store that a center stands for.
  unfoldable pub view : Center T → Store T
  view c id = Option.map cell_of (lookup id c.map)

  -- What a client sees of a read that returns.
  abbrev pub answer_of : ℕ → Option (ℕ × T) → Event T
  answer_of id none = nothing_found id
  answer_of id (some (n, v)) = found id v n

  -- And of an update.
  abbrev pub reply_of : ℕ → T → ℕ → OpResult → Event T
  reply_of id v n operation_ok = written id v n
  reply_of id v n operation_defer = kept_back id v n
  reply_of id v n operation_retry = refused id v n
  reply_of id v n operation_error_argument = failed id
  reply_of id v n operation_error_no_data = failed id

  pub view_found :
      (id : ℕ) (el : CacheElement T) (c : Center T)
      → lookup id c.map ≡ some el
      → view c id ≡ some (cell_of el)
  unfolding view
  view_found id el c there = rw there

  pub view_same :
      (id : ℕ) (c c' : Center T) → lookup id c'.map ≡ lookup id c.map → view c' id ≡ view c id
  unfolding view
  view_same id c c' same = rw same

  -- An element put back is seen as its cell.
  pub view-put_back :
      (id : ℕ) (el : CacheElement T) (s : Element T) (c : Center T)
      → lookup id c.map ≡ some el
      → Sets id (cell_of s.element) (view c) (view (put_back id s c))
  unfolding view
  view-put_back id el s c there j = elim (Bool-cases (id == j)) [
    | inl same ↦ rw (lookup-assign id j s.element c.map el there, same)
    | inr other ↦ rw (lookup-assign id j s.element c.map el there, other)
  ]

  -- An element whose manager is in the state `st` until `n`.
  pub cell_in :
      (el : CacheElement T) (v : T) (st : CacheState) (n : ℕ)
      → el.value ≡ v
      → el.state.current_state ≡ st
      → el.state.expire_time ≡ n
      → cell_of el ≡ record { value = v; hold = hold_in st n }
  cell_in el v st n has is until = cc

  pub view_missing : (id : ℕ) (c : Center T) → content c id ≡ none → view c id ≡ none
  unfolding view content
  view_missing id c missing = elim (Option-cases (lookup id c.map)) [
    | inl nothing ↦ rw nothing
    | inr (el, there) ↦ absurd (some_ne_none (sym (content_found id el c there) ∙ missing))
  ]

  pub Sets-Same :
      (id : ℕ) (cell : Cell T) (s s' : Store T) → s id ≡ some cell → Sets id cell s s' → Same s s'
  Sets-Same id cell s s' there sets j = elim (ℕ_discrete id j) [
    | yes same ↦ sets j ∙ ground (arith, same) ∙ sym there ∙ ap s same
    | no other ↦ sets j ∙ ground (arith, other)
  ]
