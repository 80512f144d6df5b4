-- ===== src/DataCenter/Refinement.antt =====
-- A data center (cache_data_center.h) with its timer queue (timer_queue.cc) implements the store of
-- values under leases.
use cache_system_of_lease_me.Base.{ℕ, ◌≤◌, ◌<◌, ◌≡◌, sym, ◌∙◌, subst, List, [], ◌∷◌, Option, All}
use cache_system_of_lease_me.Outcome.{M, Outcome, Thrown, done, thrown}
use cache_system_of_lease_me.Common.{OpResult, UpdateCallHandler}
use cache_system_of_lease_me.TimerQueue.{Platform, IsSteady, tick}
use cache_system_of_lease_me.DataCenter.{Center, read_op, update_op}
use cache_system_of_lease_me.DataCenter.Invariant.{IsCenter}
use cache_system_of_lease_me.DataCenter.Deadlock.{center_host}
use cache_system_of_lease_me.DataCenter.Lapses.{Ran}
use cache_system_of_lease_me.DataCenter.RoundEffects.{IsQuietAck}
use cache_system_of_lease_me.DataCenter.Tick.{tick_returns, tick_throws}
use cache_system_of_lease_me.DataCenter.Reads.{IsPrompt, read_op_correct}
use cache_system_of_lease_me.DataCenter.Updates.{IsPromptTwice, update_op_correct}
use cache_system_of_lease_me.DataCenter.Lasting.{Answered-later, Settled-later}
use cache_system_of_lease_me.DataCenter.LeaseStore.{
  Event, found, passed, Behaves, ends, acts, Coherent,
}
use cache_system_of_lease_me.DataCenter.Coherence.{Behaves-Coherent}
use cache_system_of_lease_me.DataCenter.View.{view, answer_of, reply_of}
use cache_system_of_lease_me.DataCenter.Acts.{Acts, Answered-Acts, Settled-Acts, Ran-Acts}

module _ {T : Type 0} ⦃p : Platform⦄ where
  -- From one center in order to another, by an event.
  abbrev pub Follows : Center T → Event T → Center T → Type 0
  Follows c e c' = IsCenter c' × (c.timers.reads ≤ c'.timers.reads) × Acts c e c'

  -- A call that returns does what its answer says.
  abbrev Tells : {A : Type 0} → (A → Event T) → Center T → Outcome (Center T) A → Type 0
  Tells told c (done a c') = Follows c (told a) c'
  Tells told c _ = Unit {0}

  read_told : ℕ → OpResult × Option (ℕ × T) → Event T
  read_told id (r, out) = answer_of id out

  update_told : ℕ → T → OpResult × ℕ → Event T
  update_told id v (r, expire) = reply_of id v expire r

  read-Follows :
      IsSteady p
      → (id op_id : ℕ) (r : OpResult) (out : Option (ℕ × T)) (c c' : Center T) → IsCenter c
      → IsPrompt id c
      → read_op id op_id c ≡ done (r, out) c'
      → Follows c (answer_of id out) c'
  unfolding read_told
  read-Follows steady id op_id r out c c' i prompt runs =
      let (r2, out2, c2, reads, a, i2, _) = read_op_correct steady id op_id c i prompt in
      subst (Tells (read_told id) c) (sym reads ∙ runs)
        (i2, Answered-later id r2 out2 c c2 a, Answered-Acts steady id r2 out2 c c2 i a)

  update-Follows :
      IsSteady p
      → (blank : T) (id op_id expire : ℕ) (v : T) (f : UpdateCallHandler) (r : OpResult)
        (c c' : Center T)
      → IsCenter c
      → IsPromptTwice id c
      → 0 < op_id
      → update_op blank id v op_id f c ≡ done (r, expire) c'
      → Follows c (reply_of id v expire r) c'
  unfolding update_told
  update-Follows steady blank id op_id expire v f r c c' i prompt pos runs =
      let (r2, e2, c2, updates, z, i2, _) =
        update_op_correct steady blank id op_id v f c i prompt pos in
      subst (Tells (update_told id v) c) (sym updates ∙ runs) (
        i2,
        Settled-later blank id op_id e2 v f r2 c c2 z,
        Settled-Acts blank id op_id e2 v f r2 c c2 z,
      )

  module _ (run_handler : Option UpdateCallHandler × ℕ × ℕ → M (Center T) (Unit {0}))
      (resend_ack : ℕ → M (Center T) (Unit {0})) where
    -- What the program does, with what its clients see of it: a read or an update that returns, or
    -- a run of the timer queue that returns or throws. A guaranteed element is called before its
    -- lease is over.
    pub data Does (c c' : Center T) : Event T → Type 0 where
      reads :
          (id op_id : ℕ) (r : OpResult) (out : Option (ℕ × T))
          → IsPrompt id c
          → read_op id op_id c ≡ done (r, out) c'
          → Does c c' (answer_of id out)
      updates :
          (blank : T) (id op_id : ℕ) (v : T) (f : UpdateCallHandler) (r : OpResult) (expire : ℕ)
          → IsPromptTwice id c
          → 0 < op_id
          → update_op blank id v op_id f c ≡ done (r, expire) c'
          → Does c c' (reply_of id v expire r)
      ticks : tick (center_host run_handler resend_ack) c ≡ done tt c' → Does c c' passed
      ticks_thrown :
          (x : Thrown)
          → tick (center_host run_handler resend_ack) c ≡ thrown x c'
          → Does c c' passed

    pub data Runs : Center T → List (Event T) → Center T → Type 0 where
      rest : (c : Center T) → Runs c [] c
      run :
          (c c1 c' : Center T) (e : Event T) (es : List (Event T))
          → Does c c1 e
          → Runs c1 es c'
          → Runs c (e ∷ es) c'

    Ran-Follows : (c c' : Center T) → Ran c c' → Follows c passed c'
    Ran-Follows c c' r = (r.kept, r.later, Ran-Acts c c' r)

    Does-Follows :
        IsSteady p
        → IsQuietAck (Unit {0}) resend_ack
        → (c c' : Center T) (e : Event T) → IsCenter c
        → Does c c' e
        → Follows c e c'
    Does-Follows steady quiet c c' _ i (reads id op_id r out prompt runs) =
        read-Follows steady id op_id r out c c' i prompt runs
    Does-Follows steady quiet c c' _ i (updates blank id op_id v f r expire prompt pos runs) =
        update-Follows steady blank id op_id expire v f r c c' i prompt pos runs
    Does-Follows steady quiet c c' _ i (ticks runs) =
        Ran-Follows c c' (tick_returns run_handler resend_ack steady quiet c c' i runs)
    Does-Follows steady quiet c c' _ i (ticks_thrown x runs) =
        Ran-Follows c c' (tick_throws run_handler resend_ack steady quiet c c' x i runs)

    -- The clock is not set back, the timer of an unacknowledged answer ends and leaves the queue
    -- and the elements alone, and the invariant of the center holds. Then all that clients see of a
    -- sequence of reads, updates and runs of the timer queue, which may also end by an exception,
    -- is what the store of values under leases may do, from the store that the first center stands
    -- for to the one that the last stands for, at the clock's next readings. Each read and update
    -- must meet a guaranteed element before the end of its lease, and an update needs an operation
    -- id.
    pub center_refines_store :
        IsSteady p
        → IsQuietAck (Unit {0}) resend_ack
        → (c c' : Center T) (es : List (Event T)) → IsCenter c
        → Runs c es c'
        → Behaves (p.clock c.timers.reads) (view c) es (p.clock c'.timers.reads) (view c')
    center_refines_store steady quiet c c' _ i (rest _) = ends (p.clock c.timers.reads) (view c)
    center_refines_store steady quiet c c' _ i (run _ c1 _ e es does runs) =
        let (i1, later, a) = Does-Follows steady quiet c c1 e i does in
        acts (p.clock c.timers.reads) (p.clock c1.timers.reads) (p.clock c'.timers.reads) (view c)
          (view c1) (view c') e es (steady c.timers.reads c1.timers.reads later) a
          (center_refines_store steady quiet c1 c' es i1 runs)

    -- The clock is not set back, the timer of an unacknowledged answer ends and leaves the queue
    -- and the elements alone, and the invariant of the center holds. Where a client's read of the
    -- element `id` is answered with the value `v` and a lease until `n`, and a sequence of reads,
    -- updates and runs of the timer queue follows that is over before `n`, no read in it finds
    -- another value of `id`, and no update of `id` takes effect. Each read and update must meet a
    -- guaranteed element before the end of its lease, and an update needs an operation id.
    pub readers_agree :
        IsSteady p
        → IsQuietAck (Unit {0}) resend_ack
        → (n id : ℕ) (v : T) (c c' : Center T) (es : List (Event T)) → IsCenter c
        → Runs c (found id v n ∷ es) c'
        → p.clock c'.timers.reads < n
        → All (Coherent id v) es
    readers_agree steady quiet n id v c c' es i runs early =
        Behaves-Coherent n id (p.clock c.timers.reads) (p.clock c'.timers.reads) v (view c)
          (view c') es early (center_refines_store steady quiet c c' (found id v n ∷ es) i runs)
