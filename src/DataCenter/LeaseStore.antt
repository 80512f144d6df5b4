-- ===== src/DataCenter/LeaseStore.antt =====
-- What a data center (cache_data_center.h) is for: a store of values under leases, without managers,
-- timers and closures.
use cache_system_of_lease_me.Base.{
  ℕ, ◌+◌, ◌≤◌, ◌≡◌, ◌≢◌, List, [], ◌∷◌, Option, none, some, ◌==◌, if◌then◌else◌, ◌⊎◌,
}
use cache_system_of_lease_me.Common.{default_expire_millisecond}

-- Who holds a value: nobody, readers until a time, or readers with an update that waits for them.
pub data Hold : Type 0 where
  free : Hold
  lent : ℕ → Hold
  closing : ℕ → Hold

pub record Cell (T : Type 0) : Type 0 where
  pub value : T
  pub hold : Hold

abbrev pub Store : Type 0 → Type 0
Store T = ℕ → Option (Cell T)

-- What a client sees of a call, and the passing of time. The number behind a value is the time that
-- the call returns.
pub data Event (T : Type 0) : Type 0 where
  nothing_found : ℕ → Event T
  found : ℕ → T → ℕ → Event T
  written : ℕ → T → ℕ → Event T
  kept_back : ℕ → T → ℕ → Event T
  refused : ℕ → T → ℕ → Event T
  failed : ℕ → Event T
  passed : Event T

-- A lease until `n` outlasts what was lent before.
abbrev pub Outlasts : ℕ → Hold → Type 0
Outlasts n free = Unit {0}
Outlasts n (lent m) = m ≤ n
Outlasts n (closing m) = ⊥

-- The hold lasts until `n` at least.
abbrev pub Lasts : ℕ → Hold → Type 0
Lasts n free = ⊥
Lasts n (lent m) = n ≤ m
Lasts n (closing m) = n ≤ m

module _ {T : Type 0} where
  -- The store `s'` is `s` but for one cell.
  abbrev pub Sets : ℕ → Cell T → Store T → Store T → Type 0
  Sets id cell s s' = (j : ℕ) → s' j ≡ (if id == j then some cell else s j)

  abbrev pub Same : Store T → Store T → Type 0
  Same s s' = (j : ℕ) → s' j ≡ s j

  -- A lease may be over when the time is `now`.
  pub data Releases (now : ℕ) (o o' : Option (Cell T)) : Type 0 where
    holds : o' ≡ o → Releases now o o'
    releases :
        (v : T) (n : ℕ)
        → o ≡ some (record { value = v; hold = lent n })
        → n ≤ now
        → o' ≡ some (record { value = v; hold = free })
        → Releases now o o'

  -- What the store may do from the time `from` to the time `to`. `failed` never happens.
  pub data Allows (from to : ℕ) (s : Store T) (s' : Store T) : Event T → Type 0 where
    misses : (id : ℕ) → s id ≡ none → Same s s' → Allows from to s s' (nothing_found id)
    lends :
        (id n : ℕ) (cell : Cell T)
        → s id ≡ some cell
        → Outlasts n cell.hold
        → from + default_expire_millisecond ≤ n
        → Sets id (record cell { hold = lent n }) s s'
        → Allows from to s s' (found id cell.value n)
    glimpses :
        (id n m : ℕ) (v : T)
        → s id ≡ some (record { value = v; hold = closing m })
        → n ≤ to
        → Same s s'
        → Allows from to s s' (found id v n)
    writes :
        (id n : ℕ) (v : T)
        → (s id ≡ none) ⊎ ((old : T) × (s id ≡ some (record { value = old; hold = free })))
        → from + default_expire_millisecond ≤ n
        → Sets id (record { value = v; hold = lent n }) s s'
        → Allows from to s s' (written id v n)
    keeps_back :
        (id m n : ℕ) (old v : T)
        → s id ≡ some (record { value = old; hold = lent m })
        → m ≤ n
        → Sets id (record { value = old; hold = closing n }) s s'
        → Allows from to s s' (kept_back id v n)
    refuses :
        (id n : ℕ) (old v : T)
        → s id ≡ some (record { value = old; hold = closing n })
        → Same s s'
        → Allows from to s s' (refused id v n)
    passes : ((j : ℕ) → Releases to (s j) (s' j)) → Allows from to s s' passed

  -- What it may do over several events.
  pub data Behaves : ℕ → Store T → List (Event T) → ℕ → Store T → Type 0 where
    ends : (now : ℕ) (s : Store T) → Behaves now s [] now s
    acts :
        (from mid to : ℕ) (s s1 s' : Store T) (e : Event T) (es : List (Event T))
        → from ≤ mid
        → Allows from mid s s1 e
        → Behaves mid s1 es to s'
        → Behaves from s (e ∷ es) to s'

  -- Nobody is told another value of `id` than `v`, and nobody that it has changed.
  abbrev pub Coherent : ℕ → T → Event T → Type 0
  Coherent id v (found k w n) = k ≡ id → w ≡ v
  Coherent id v (written k w n) = k ≢ id
  Coherent id v _ = Unit {0}

  -- The value `v` is held until `n` at least.
  pub record Held (n : ℕ) (v : T) (o : Option (Cell T)) : Type 0 where
    pub cell : Cell T
    pub there : o ≡ some cell
    pub value : cell.value ≡ v
    pub lasting : Lasts n cell.hold
