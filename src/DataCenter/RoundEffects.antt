-- ===== src/DataCenter/RoundEffects.antt =====
-- The rounds of `tick` (timer_queue.cc) over a data center (cache_data_center.h), by the front of
-- the queue: a disarmed timer, the one of an answer, of a guarantee or of an update protection.
use cache_system_of_lease_me.Base.{
  ℕ, ◌+◌, ◌≤◌, ◌≡◌, sym, ap, ◌∙◌, subst, Bool, true, List, ◌∷◌, some, arith, Option-cases,
  ℕ_discrete, inl, inr, Perm, if◌then◌else◌,
}
use mathlib.Core.List.Perm
use cache_system_of_lease_me.Outcome.{M, Exits}
use cache_system_of_lease_me.Standard.Map.{lookup, assign, lookup-assign_self, lookup-assign_ne}
use cache_system_of_lease_me.TimerQueue.{
  Platform, IsSteady, IsValid, guarantee_over, EventTimer, Held,
}
use cache_system_of_lease_me.TimerQueue.Count.{count, count-cons, count-perm}
use cache_system_of_lease_me.TimerQueue.Rounds.{Rounded, Broken, Turned}
use cache_system_of_lease_me.StateManager.{cache_guaranteed}
use cache_system_of_lease_me.StateManager.Expire.{IsReady}
use cache_system_of_lease_me.StateManager.Expiry.{over-IsLeased}
use cache_system_of_lease_me.StateManager.Lease.{awaits, mine, pending}
use cache_system_of_lease_me.StateManager.Front.{awaits_guarantee, front-pending}
use cache_system_of_lease_me.DataCenter.{CacheElement, Center}
use cache_system_of_lease_me.DataCenter.Invariant.{
  IsCenter, managed_in, Retains-IsCenter, assign-IsCenter,
}
use cache_system_of_lease_me.DataCenter.Lapses.{idled, Lapses, stays, lapsed, Ran}
use cache_system_of_lease_me.DataCenter.Fronts.{
  IsHeard, IsSilent, mine-IsHeard, pending-IsHeard, Turned-count,
}

module _ {T : Type 0} where
  module _ ⦃p : Platform⦄ where
    -- What the timer of an answer must do: leave the queue and the elements alone, and end, by an
    -- exception only where `E` holds.
    abbrev pub IsQuietAck : Type 0 → (ℕ → M (Center T) (Unit {0})) → Type 0
    IsQuietAck E resend_ack =
        (a : ℕ) (c : Center T)
        → c.timers.mutex ≡ true
        → Exits ⊥ (λ _ c'. Held c.timers c'.timers × (c'.map ≡ c.map))
            (λ c'. Held c.timers c'.timers × (E × (c'.map ≡ c.map))) (resend_ack a c)

    -- A round with a silent front.
    pub Silent-Ran :
        IsSteady p
        → (c c' : Center T) (t : EventTimer) (ts : List EventTimer) → IsCenter c
        → c.timers.timer_queue ≡ t ∷ ts
        → IsSilent t
        → Rounded c.timers c'.timers
        → Turned t ts c'.timers
        → c'.map ≡ c.map
        → Ran c c'
    Silent-Ran steady c c' t ts i e silent r turned same = record {
      kept =
          subst (λ m. IsCenter (record { map = m; timers = c'.timers })) (sym same)
            (Retains-IsCenter steady c c'.timers i (record {
              ready = record { valid = r.valid; unheld = r.unheld };
              later = r.later;
              mine_lem = λ k. counted (mine k) (mine-IsHeard k);
              pending_lem = λ k m. counted (pending k m) (pending-IsHeard k m);
            }));
      later = r.later;
      fewer = λ P heard. omega (arith, counted P heard);
      lapses = λ k. stays (ap (lookup k) same);
    }
      where
        counted :
            (P : EventTimer → Bool)
            → IsHeard P
            → count P c'.timers.timer_queue ≡ count P c.timers.timer_queue
        counted P heard = Turned-count P heard t ts c'.timers silent turned ∙ ap (count P) (sym e)

    -- An exception of the callback leaves the queue and the elements.
    pub Broken-Ran :
        IsSteady p
        → (c c' : Center T) → IsCenter c
        → Broken c.timers c'.timers
        → c'.map ≡ c.map
        → Ran c c'
    Broken-Ran steady c c' i b same = record {
      kept =
          subst (λ m. IsCenter (record { map = m; timers = c'.timers })) (sym same)
            (Retains-IsCenter steady c c'.timers i (record {
              ready = record {
                valid = subst IsValid (sym b.same) i.ready.valid;
                unheld = b.unheld;
              };
              later = b.later;
              mine_lem = λ k. ap (count (mine k)) b.same;
              pending_lem = λ k m. ap (count (pending k m)) b.same;
            }));
      later = b.later;
      fewer = λ P heard. omega (arith, ap (count P) b.same);
      lapses = λ k. stays (ap (lookup k) same);
    }

    -- The element of an armed timer is there.
    pub front_found :
        (c : Center T) (t : EventTimer) (ts : List EventTimer) (e : ℕ)
        → IsCenter c
        → c.timers.timer_queue ≡ t ∷ ts
        → mine e t ≡ true
        → (el : CacheElement T) × (lookup e c.map ≡ some el)
    front_found c t ts e i front own = elim (Option-cases (lookup e c.map)) [
      | inl missing ↦ absurd (
          ground
            (arith, i.absent e missing, ap (count (mine e)) front, count-cons (mine e) t ts, own))
      | inr there ↦ there
    ]

    assign-Lapses :
        (c : Center T) (n e k : ℕ) (el : CacheElement T)
        → lookup e c.map ≡ some el
        → el.state.current_state ≡ cache_guaranteed
        → el.state.expire_time ≤ p.clock n
        → Lapses n (lookup k c.map) (lookup k (assign e (idled el) c.map))
    assign-Lapses c n e k el found g over = elim (ℕ_discrete e k) [
      | yes same ↦
          subst (λ x. Lapses n (lookup x c.map) (lookup x (assign e (idled el) c.map))) same
            (lapsed el found g over (lookup-assign_self e (idled el) c.map el found))
      | no other ↦ stays (lookup-assign_ne e k (idled el) c.map el found other)
    ]

    -- A round with the timer of a guarantee, due and with its one run left.
    pub guarantee-Ran :
        IsSteady p
        → (c c' : Center T) (t : EventTimer) (ts : List EventTimer) (e : ℕ) (el : CacheElement T)
        → IsCenter c
        → c.timers.timer_queue ≡ t ∷ ts
        → t.expire_time ≤ p.clock c.timers.reads
        → t.callback ≡ guarantee_over e
        → mine e t ≡ true
        → lookup e c.map ≡ some el
        → Rounded c.timers c'.timers
        → Turned t ts c'.timers
        → c'.map ≡ assign e (idled el) c.map
        → Ran c c'
    guarantee-Ran steady c c' t ts e el i front due back own found r turned same =
        let l = i.leased e el found in
        let pend = front-pending e (managed_in c el) t ts l front own in
        let g =
          awaits_guarantee e e el.state.current_state
            (subst (λ k. awaits e el.state.current_state k ≡ true) back (ground arith)) in
        let ready : IsReady c'.timers = record { valid = r.valid; unheld = r.unheld } in
        let left = turned.gone (ground arith) in
        let whole : Perm c.timers.timer_queue (t ∷ ts) =
          subst (λ (r : List EventTimer). Perm c.timers.timer_queue r) front
            (Perm.refl c.timers.timer_queue) in
        let counted : (P : EventTimer → Bool)
            → count P c.timers.timer_queue
              ≡ (if P t then 1 else 0) + count P c'.timers.timer_queue =
          λ P.
            count-perm P whole
            ∙ count-cons P t ts
            ∙ ap (λ (n : ℕ). (if P t then 1 else 0) + n) (sym (count-perm P left)) in
        let l' =
          over-IsLeased e (managed_in c el) t ts c'.timers l (λ k. cc) own whole ready left in
        record {
          kept =
              subst (λ m. IsCenter (record { map = m; timers = c'.timers })) (sym same)
                (assign-IsCenter steady c e el (idled el) c'.timers i found ready l'
                  (record { later = r.later; same = λ P f. ground (arith, f t, counted P) }));
          later = r.later;
          fewer = λ P heard. omega (arith, counted P);
          lapses = λ k.
              subst (λ m. Lapses c'.timers.reads (lookup k c.map) (lookup k m)) (sym same)
                (assign-Lapses c c'.timers.reads e k el found g
                  (ground (arith, steady c.timers.reads c'.timers.reads r.later)));
        }
