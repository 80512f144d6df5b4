-- ===== src/DataCenter.antt =====
-- cache_system/include/cache_data_center.h: CacheElement and CacheDataCenter. The mutexes of the
-- two are held within single calls only and never twice by one thread, so they are left out.
pub mod Invariant
pub mod Reads
pub mod Stored
pub mod Updates
pub mod Completion
pub mod Deadlock
pub mod Lasting
pub mod Steps
pub mod Promise
pub mod Reachable
pub mod Lapses
pub mod Fronts
pub mod RoundEffects
pub mod RoundEnds
pub mod Tick
pub mod Endings
pub mod Moves
pub mod LeaseStore
pub mod Coherence
pub mod View
pub mod Acts
pub mod Unleased
pub mod Refinement
use cache_system_of_lease_me.Base.{ℕ, List, [], Option, none, some}
use cache_system_of_lease_me.Outcome.{
  M, done, thrown, bad_function_call, ◌>>=◌, ◌>>◌, pure, gets, modify, zoom,
}
use cache_system_of_lease_me.Common.{
  OpResult, operation_ok, operation_defer, operation_retry, operation_error_argument,
  operation_error_no_data, UpdateCallHandler, call_handle,
}
use cache_system_of_lease_me.Standard.Map.{lookup, assign, emplace}
use cache_system_of_lease_me.TimerQueue.{Platform, Timers}
use cache_system_of_lease_me.StateManager.{CacheStateManager, new_manager, Managed}
use cache_system_of_lease_me.StateManager

-- `call_` is null until an update is kept. `op_id_`, which the constructor leaves unset and nobody
-- reads, starts at 0.
pub record CacheElement (T : Type 0) : Type 0 where
  pub op_id : ℕ
  pub value : T
  pub temp_value : T
  pub call : Option UpdateCallHandler
  pub state : CacheStateManager

-- An element and the timer queue, on which its methods act.
pub record Element (T : Type 0) : Type 0 where
  pub element : CacheElement T
  pub timers : Timers

-- `map_` of the data center, and the timer queue.
pub record Center (T : Type 0) : Type 0 where
  pub map : List (ℕ × CacheElement T)
  pub timers : Timers

module _ {T : Type 0} where
  abbrev pub managed : Element T → Managed
  managed s = record { manager = s.element.state; timers = s.timers }

  abbrev pub with_managed : Managed → Element T → Element T
  with_managed m s = record { element = record s.element { state = m.manager }; timers = m.timers }

  abbrev pub on_state : {A : Type 0} → M Managed A → M (Element T) A
  on_state = zoom managed with_managed

  abbrev pub with_element : (CacheElement T → CacheElement T) → Element T → Element T
  with_element f s = record s { element = f s.element }

  -- What an update leaves of the element once the state manager has decided.
  unfoldable pub store : OpResult → T → ℕ → UpdateCallHandler → CacheElement T → CacheElement T
  store operation_ok v op_id f el = record el { value = v }
  store operation_defer v op_id f el = record el { temp_value = v; op_id = op_id; call = some f }
  store operation_retry v op_id f el = el
  store operation_error_argument v op_id f el = el
  store operation_error_no_data v op_id f el = el

  -- CacheElement::call_handle up to the call of `call_`: the callback that runs next, or the
  -- exception of an empty one. `blank` is what a moved-from value holds.
  unfoldable pub call_handle_of : T → OpResult → M (Element T) UpdateCallHandler
  call_handle_of blank status = settle status >> λ s. elim s.element.call [
    | none ↦ thrown bad_function_call s
    | some f ↦ done f s
  ]
    where
      settle : OpResult → M (Element T) (Unit {0})
      settle operation_ok =
          modify (with_element (λ el. record el { value = el.temp_value; temp_value = blank }))
      settle operation_defer = pure tt
      settle operation_retry = pure tt
      settle operation_error_argument = pure tt
      settle operation_error_no_data = pure tt

  -- The element of a cache id with the queue, and the center with it put back.
  abbrev pub focus : CacheElement T → Center T → Element T
  focus el c = record { element = el; timers = c.timers }

  abbrev pub put_back : ℕ → Element T → Center T → Center T
  put_back cache_id s c = record { map = assign cache_id s.element c.map; timers = s.timers }

  abbrev pub at_element : {A : Type 0} → ℕ → CacheElement T → M (Element T) A → M (Center T) A
  at_element cache_id el = zoom (focus el) (put_back cache_id)

  abbrev pub new_element : T → CacheElement T
  new_element blank = record {
    op_id = 0;
    value = blank;
    temp_value = blank;
    call = none;
    state = new_manager;
  }

  module _ ⦃p : Platform⦄ where
    -- CacheElement::read_op.
    unfoldable pub read_element : ℕ → ℕ → M (Element T) (OpResult × ℕ × T)
    read_element this op_id s =
        (on_state (StateManager.read_op this op_id) >>= λ (r, expire).
        pure (r, expire, s.element.value))
          s

    -- CacheElement::update_op.
    unfoldable pub update_element : ℕ → T → ℕ → UpdateCallHandler → M (Element T) (OpResult × ℕ)
    unfolding store
    update_element this v op_id f =
        on_state (StateManager.update_op this op_id (some (call_handle this))) >>= λ (r, expire).
        modify (with_element (store r v op_id f)) >> pure (r, expire)

    -- CacheDataCenter::read_op. `none` stands for `*expire` and `*value` left as they were.
    unfoldable pub read_op : ℕ → ℕ → M (Center T) (OpResult × Option (ℕ × T))
    unfolding read_element lookup
    read_op cache_id op_id c = elim (lookup cache_id c.map) [
      | none ↦ done (operation_error_no_data, none) c
      | some el ↦
          (at_element cache_id el (read_element cache_id op_id) >>= λ (r, expire, v).
          pure (r, some (expire, v)))
            c
    ]

    -- CacheDataCenter::update_op; `blank` is the value of a new element.
    unfoldable pub update_op : T → ℕ → T → ℕ → UpdateCallHandler → M (Center T) (OpResult × ℕ)
    unfolding update_element lookup emplace
    update_op blank cache_id v op_id f c = elim (lookup cache_id c.map) [
      | none ↦
          let el = new_element blank in
          at_element cache_id el (update_element cache_id v op_id f)
            (record c { map = emplace cache_id el c.map })
      | some el ↦ at_element cache_id el (update_element cache_id v op_id f) c
    ]
