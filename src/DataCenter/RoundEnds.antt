-- ===== src/DataCenter/RoundEnds.antt =====
-- How a round of `tick` (timer_queue.cc) over a data center (cache_data_center.h) ends, by the front
-- of the queue.
use cache_system_of_lease_me.Base.{
  ℕ, ◌≤◌, ◌<◌, ◌≡◌, refl, sym, ap, subst, true, false, List, ◌∷◌, Option, some, arith, ◌&&◌, not,
}
use cache_system_of_lease_me.Outcome.{M, done, map_state, Outcome, Exits, Exits-map, Exits-wait}
use cache_system_of_lease_me.Common.{UpdateCallHandler}
use cache_system_of_lease_me.Standard.Map.{lookup, assign}
use cache_system_of_lease_me.TimerQueue.{
  Platform, IsSteady, guarantee_over, protection_over, resend, EventTimer, Held, Host, rounds,
  tick_round,
}
use cache_system_of_lease_me.TimerQueue.Queue.{armed}
use cache_system_of_lease_me.TimerQueue.Count.{count, count-cons}
use cache_system_of_lease_me.TimerQueue.Rounds.{Rounded, Broken, Turned}
use cache_system_of_lease_me.TimerQueue.Turns.{tick_round-Turned, locked, Calls}
use cache_system_of_lease_me.StateManager.Expiry.{on_guarantee_over-done}
use cache_system_of_lease_me.StateManager.Lease.{mine, belongs}
use cache_system_of_lease_me.DataCenter.{CacheElement, Center, focus, put_back, with_managed}
use cache_system_of_lease_me.DataCenter.Invariant.{IsCenter, managed_in}
use cache_system_of_lease_me.DataCenter.Deadlock.{
  call_back, center_host, on_manager, tick_round-blocked,
}
use cache_system_of_lease_me.DataCenter.Lapses.{idled, Ran}
use cache_system_of_lease_me.DataCenter.RoundEffects.{
  IsQuietAck, Silent-Ran, Broken-Ran, front_found, guarantee-Ran,
}
use cache_system_of_lease_me.DataCenter.Fronts.{IsSilent, answers, protects, protecting}

module _ {T : Type 0} ⦃p : Platform⦄
    (run_handler : Option UpdateCallHandler × ℕ × ℕ → M (Center T) (Unit {0}))
    (resend_ack : ℕ → M (Center T) (Unit {0})) where
  abbrev pub host : Host (Center T)
  host = center_host run_handler resend_ack

  -- A call waits for ever only where an update protection has an armed timer.
  abbrev pub IsProtecting : Center T → Type 0
  IsProtecting c = 0 < count protecting c.timers.timer_queue

  -- How a round ends.
  abbrev pub Ends : Type 0 → Center T → List EventTimer → Outcome (Center T) (Unit {0}) → Type 0
  Ends E c ts =
      Exits (IsProtecting c) (λ _ c'. Ran c c' × (rounds c'.timers.timer_queue < rounds ts))
        (λ c'. E × Ran c c')

  -- A round with a silent front, whose callback leaves the queue and the elements alone.
  pub silent-Ends :
      (E : Type 0)
      → IsSteady p
      → (c : Center T) (t : EventTimer) (ts : List EventTimer) → IsCenter c
      → c.timers.timer_queue ≡ t ∷ ts
      → IsSilent t
      → (0 < t.repeat
          → Calls host
              (IsProtecting c)
              (λ c'. c'.map ≡ c.map)
              (λ c'. E × (c'.map ≡ c.map))
              t.callback
              (locked host c))
      → Ends E c (t ∷ ts) (tick_round host c)
  silent-Ends E steady c t ts i front silent calls =
      Exits-map (IsProtecting c)
        (λ _ c'. Rounded c.timers c'.timers × Turned t ts c'.timers × (c'.map ≡ c.map))
        (λ _ c'. Ran c c' × (rounds c'.timers.timer_queue < rounds (t ∷ ts)))
        (λ c'. Broken c.timers c'.timers × (E × (c'.map ≡ c.map))) (λ c'. E × Ran c c')
        (tick_round host c)
        (λ _ c' (r, turned, same). (
          Silent-Ran steady c c' t ts i front silent r turned same,
          subst (λ u. rounds c'.timers.timer_queue < rounds u) front r.fewer,
        ))
        (λ c' (b, (thrown_ok, same)). (thrown_ok, Broken-Ran steady c c' i b same))
        (tick_round-Turned host (IsProtecting c) (λ c'. c'.map ≡ c.map) (λ c'. E × (c'.map ≡ c.map))
          (λ _ _ same. same) (λ _ _ same. same) c t ts front i.ready.unheld i.ready.valid
          (λ _. refl) calls)

  resent :
      (E : Type 0)
      → IsQuietAck E resend_ack
      → (a : ℕ) (c : Center T) → c.timers.mutex ≡ true
      → Exits ⊥
          (λ _ c'. Held c.timers c'.timers × (c'.map ≡ c.map))
          (λ c'. Held c.timers c'.timers × (E × (c'.map ≡ c.map)))
          (call_back run_handler resend_ack (resend a) c)
  unfolding call_back
  resent E quiet a c held = quiet a c held

  pub resend-Ends :
      (E : Type 0)
      → IsSteady p
      → IsQuietAck E resend_ack
      → (c : Center T) (t : EventTimer) (ts : List EventTimer) (a : ℕ) → IsCenter c
      → c.timers.timer_queue ≡ t ∷ ts
      → t.callback ≡ resend a
      → Ends E c (t ∷ ts) (tick_round host c)
  resend-Ends E steady quiet c t ts a i front back =
      silent-Ends E steady c t ts i front
        (subst (λ k. (armed t && not (answers k)) ≡ false) (sym back) (ground arith))
        λ _.
          subst
            (λ k.
              Calls host (IsProtecting c) (λ c'. c'.map ≡ c.map) (λ c'. E × (c'.map ≡ c.map)) k
                (locked host c))
            (sym back)
            (Exits-wait ⊥ (IsProtecting c)
              (λ _ c'. Held (locked host c).timers c'.timers × (c'.map ≡ c.map))
              (λ c'. Held (locked host c).timers c'.timers × (E × (c'.map ≡ c.map)))
              (call_back run_handler resend_ack (resend a) (locked host c)) (λ never. absurd never)
              (resent E quiet a (locked host c) refl))

  on_guarantee_over-called :
      (e : ℕ) (el : CacheElement T) (c : Center T)
      → lookup e c.map ≡ some el
      → call_back run_handler resend_ack (guarantee_over e) c
        ≡ done tt (record c { map = assign e (idled el) c.map })
  unfolding call_back on_manager
  on_guarantee_over-called e el c found =
      rw (found, on_manager)
        (ap (λ o. map_state (λ s. put_back e s c) (map_state (λ m. with_managed m (focus el c)) o))
          (on_guarantee_over-done e (managed_in c el)))

  pub guarantee-Ends :
      (E : Type 0)
      → IsSteady p
      → (c : Center T) (t : EventTimer) (ts : List EventTimer) (e : ℕ) → IsCenter c
      → c.timers.timer_queue ≡ t ∷ ts
      → t.expire_time ≤ p.clock c.timers.reads
      → t.callback ≡ guarantee_over e
      → armed t ≡ true
      → Ends E c (t ∷ ts) (tick_round host c)
  guarantee-Ends E steady c t ts e i front due back runs =
      let own : mine e t ≡ true =
        subst (λ k. (armed t && belongs e k) ≡ true) (sym back) (ground arith) in
      let (el, found) = front_found c t ts e i front own in
      Exits-map (IsProtecting c)
        (λ _ c'.
          Rounded c.timers c'.timers × Turned t ts c'.timers × (c'.map ≡ assign e (idled el) c.map))
        (λ _ c'. Ran c c' × (rounds c'.timers.timer_queue < rounds (t ∷ ts)))
        (λ c'. Broken c.timers c'.timers × ⊥) (λ c'. E × Ran c c') (tick_round host c)
        (λ _ c' (r, turned, same). (
          guarantee-Ran steady c c' t ts e el i front due back own found r turned same,
          subst (λ u. rounds c'.timers.timer_queue < rounds u) front r.fewer,
        ))
        (λ c' (_, never). absurd never)
        (tick_round-Turned host (IsProtecting c) (λ c'. c'.map ≡ assign e (idled el) c.map) (λ _. ⊥)
          (λ _ _ same. same) (λ _ _ never. never) c t ts front i.ready.unheld i.ready.valid
          (λ spent. absurd (ground arith))
          λ _.
            subst
              (λ k.
                Calls host (IsProtecting c) (λ c'. c'.map ≡ assign e (idled el) c.map) (λ _. ⊥) k
                  (locked host c))
              (sym back)
              (subst
                (λ o.
                  Exits (IsProtecting c)
                    (λ _ c'.
                      Held (locked host c).timers c'.timers × (c'.map ≡ assign e (idled el) c.map))
                    (λ c'. Held (locked host c).timers c'.timers × ⊥) o)
                (sym (on_guarantee_over-called e el (locked host c) found))
                (record { same = refl; held = refl; later = omega arith }, refl)))

  pub protection-Ends :
      (E : Type 0) (c : Center T) (t : EventTimer) (ts : List EventTimer) (e : ℕ)
      → IsCenter c
      → c.timers.timer_queue ≡ t ∷ ts
      → t.callback ≡ protection_over e
      → armed t ≡ true
      → Ends E c (t ∷ ts) (tick_round host c)
  protection-Ends E c t ts e i front back runs =
      let own : mine e t ≡ true =
        subst (λ k. (armed t && belongs e k) ≡ true) (sym back) (ground arith) in
      let (el, found) = front_found c t ts e i front own in
      let (c', waits) =
        tick_round-blocked run_handler resend_ack t ts c e el front i.ready.unheld (ground arith)
          back found in
      subst (Ends E c (t ∷ ts)) (sym waits) (
        subst (λ r. 0 < count protecting r) (sym front)
          (ground (arith, count-cons protecting t ts, ap protects back)))
