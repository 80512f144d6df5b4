-- ===== src/DataCenter/Unleased.antt =====
-- Updates of an element that nobody holds a lease on (cache_data_center.h).
use cache_system_of_lease_me.Base.{ℕ, ◌+◌, ◌≤◌, ◌≡◌, ◌≢◌, sym, ap, ◌∙◌, some, inl, inr}
use cache_system_of_lease_me.Common.{
  OpResult, operation_ok, default_expire_millisecond, call_handle,
}
use cache_system_of_lease_me.Standard.Map.{lookup}
use cache_system_of_lease_me.TimerQueue.{Platform}
use cache_system_of_lease_me.StateManager.{
  Managed, cache_idle, cache_guaranteed, cache_update_protected,
}
use cache_system_of_lease_me.StateManager.Updates.{Updated, applied, deferred, turned_away}
use cache_system_of_lease_me.DataCenter.{CacheElement, Center}
use cache_system_of_lease_me.DataCenter.Stored.{Target}
use cache_system_of_lease_me.DataCenter.Updates.{IsPromptTwice}

idle-not_guaranteed : cache_idle ≢ cache_guaranteed
idle-not_guaranteed h = cc

idle-not_protected : cache_idle ≢ cache_update_protected
idle-not_protected h = cc

module _ ⦃p : Platform⦄ where
  pub Updated-applied :
      (e id expire : ℕ) (s m : Managed) (r : OpResult)
      → s.manager.current_state ≡ cache_idle
      → Updated e id (some (call_handle e)) s r expire m
      → (r ≡ operation_ok) × (p.clock s.timers.reads + default_expire_millisecond ≤ expire)
  Updated-applied e id expire s m r idle (applied is ok g) = (ok, g.full_term)
  Updated-applied e id expire s m r idle (deferred is ok kept st h x) =
      absurd (idle-not_guaranteed (sym idle ∙ is))
  Updated-applied e id expire s m r idle (turned_away is ok x left) =
      absurd (idle-not_protected (sym idle ∙ is))

module _ {T : Type 0} where
  -- The id has no element yet, or one that nobody holds a lease on.
  abbrev pub IsUnleased : ℕ → Center T → Type 0
  IsUnleased id c =
      (el : CacheElement T) → lookup id c.map ≡ some el → el.state.current_state ≡ cache_idle

  module _ ⦃p : Platform⦄ where
    pub IsUnleased-IsPromptTwice : (id : ℕ) (c : Center T) → IsUnleased id c → IsPromptTwice id c
    IsUnleased-IsPromptTwice id c free el found g =
        absurd (idle-not_guaranteed (sym (free el found) ∙ g))

    pub Target-idle :
        (blank : T) (id : ℕ) (c c1 : Center T) (el : CacheElement T)
        → IsUnleased id c
        → Target blank id c el c1
        → el.state.current_state ≡ cache_idle
    Target-idle blank id c c1 el free t = elim t.old_or_new [
      | inl same ↦ free el (ap (λ (x : Center T). lookup id x.map) (sym same) ∙ t.found)
      | inr (nothing, new) ↦ ap (λ (x : CacheElement T). x.state.current_state) new
    ]
