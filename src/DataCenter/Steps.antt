-- ===== src/DataCenter/Steps.antt =====
-- The reads and updates of a data center (cache_data_center.h) as a step relation.
use cache_system_of_lease_me.Base.{ℕ, ◌≤◌, ◌<◌, ◌≡◌, sym, ap, ◌∙◌, subst, Option}
use cache_system_of_lease_me.Outcome.{done}
use cache_system_of_lease_me.Common.{OpResult, UpdateCallHandler}
use cache_system_of_lease_me.TimerQueue.{Platform, IsSteady}
use cache_system_of_lease_me.DataCenter.{Center, read_op, update_op}
use cache_system_of_lease_me.DataCenter.Invariant.{IsCenter}
use cache_system_of_lease_me.DataCenter.Reads.{IsPrompt, read_op_correct}
use cache_system_of_lease_me.DataCenter.Updates.{IsPromptTwice, update_op_correct}
use cache_system_of_lease_me.DataCenter.Completion.{state_of}
use cache_system_of_lease_me.DataCenter.Lasting.{
  Lasts, Answered-later, Answered-Lasts, Settled-Lasts, Settled-later,
}

module _ {T : Type 0} where
  module _ ⦃p : Platform⦄ where
    -- A call on the center that returns. A guaranteed element is called before its lease is over.
    pub data Step (c c' : Center T) : Type 0 where
      reads :
          (id op_id : ℕ) (r : OpResult) (out : Option (ℕ × T))
          → IsPrompt id c
          → read_op id op_id c ≡ done (r, out) c'
          → Step c c'
      updates :
          (blank : T) (id op_id : ℕ) (v : T) (f : UpdateCallHandler) (r : OpResult) (expire : ℕ)
          → IsPromptTwice id c
          → 0 < op_id
          → update_op blank id v op_id f c ≡ done (r, expire) c'
          → Step c c'

    pub data Steps : Center T → Center T → Type 0 where
      stop : (c : Center T) → Steps c c
      step : (c c1 c' : Center T) → Step c c1 → Steps c1 c' → Steps c c'

    -- What a step keeps.
    abbrev pub Keeps : Center T → Center T → Type 0
    Keeps c c' =
        IsCenter c'
        × (c.timers.reads ≤ c'.timers.reads)
        × ((n id : ℕ) (v : T) → Lasts n id v c → Lasts n id v c')

    Step-read :
        IsSteady p
        → (k op_id : ℕ) (r : OpResult) (out : Option (ℕ × T)) (c c' : Center T) → IsCenter c
        → IsPrompt k c
        → read_op k op_id c ≡ done (r, out) c'
        → Keeps c c'
    Step-read steady k op_id r out c c' i prompt runs =
        let (r2, out2, c2, reads_lem, a, i2, same) = read_op_correct steady k op_id c i prompt in
        subst (Keeps c) (ap state_of (sym reads_lem ∙ runs)) (
          i2,
          Answered-later k r2 out2 c c2 a,
          λ n id v. Answered-Lasts n id k v r2 out2 c c2 i a (same id),
        )

    Step-update :
        IsSteady p
        → (blank : T) (k op_id expire : ℕ) (u : T) (f : UpdateCallHandler) (r : OpResult)
          (c c' : Center T)
        → IsCenter c
        → IsPromptTwice k c
        → 0 < op_id
        → update_op blank k u op_id f c ≡ done (r, expire) c'
        → Keeps c c'
    Step-update steady blank k op_id expire u f r c c' i prompt pos runs =
        let (r2, e2, c2, updates_lem, z, i2, same) =
          update_op_correct steady blank k op_id u f c i prompt pos in
        subst (Keeps c) (ap state_of (sym updates_lem ∙ runs)) (
          i2,
          Settled-later blank k op_id e2 u f r2 c c2 z,
          λ n id v. Settled-Lasts blank k op_id e2 u f r2 c c2 z n id v (same id),
        )

    pub Step-Keeps : IsSteady p → (c c' : Center T) → IsCenter c → Step c c' → Keeps c c'
    Step-Keeps steady c c' i (reads k op_id r out prompt runs) =
        Step-read steady k op_id r out c c' i prompt runs
    Step-Keeps steady c c' i (updates blank k op_id u f r expire prompt pos runs) =
        Step-update steady blank k op_id expire u f r c c' i prompt pos runs
