-- ===== src/DataCenter/Promise.antt =====
-- What a lease promises its holder (cache_data_center.h), over any sequence of calls between two
-- ticks of the timer queue.
use cache_system_of_lease_me.Base.{ℕ}
use cache_system_of_lease_me.TimerQueue.{Platform, IsSteady}
use cache_system_of_lease_me.DataCenter.{Center}
use cache_system_of_lease_me.DataCenter.Invariant.{IsCenter}
use cache_system_of_lease_me.DataCenter.Lasting.{Lasts}
use cache_system_of_lease_me.DataCenter.Steps.{Steps, stop, step, Step-Keeps}

module _ {T : Type 0} where
  module _ ⦃p : Platform⦄ where
    -- The clock is not set back, and the invariant of the center holds. From a center whose
    -- element `id` has the value `v` under a lease or under update protection, to the time `n` at
    -- least, no sequence of reads and updates of any elements, each before the end of the lease
    -- that it meets and each update with an operation id, changes the value of `id` or shortens its
    -- lease: until the timer queue runs, its value is `v`, the element stays leased or protected,
    -- to the time `n` at least, and the invariant holds.
    pub lease_promise :
        IsSteady p
        → (n id : ℕ) (v : T) (c c' : Center T) → IsCenter c
        → Lasts n id v c
        → Steps c c'
        → IsCenter c' × Lasts n id v c'
    lease_promise steady n id v c c' i h (stop _) = (i, h)
    lease_promise steady n id v c c' i h (step _ c1 _ s rest) =
        let (i1, _, keeps) = Step-Keeps steady c c1 i s in
        lease_promise steady n id v c1 c' i1 (keeps n id v h) rest
