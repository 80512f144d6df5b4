-- ===== src/DataCenter/Coherence.antt =====
-- The store of values under leases that a data center is (cache_data_center.h): what a lease promises
-- to its holder.
use cache_system_of_lease_me.Base.{
  ℕ, ◌≤◌, ◌<◌, ◌≡◌, refl, sym, ap, ◌∙◌, subst, List, ◌∷◌, Option, none, some, arith, All, ◌⊎◌, inl,
  inr, ℕ_discrete,
}
use cache_system_of_lease_me.DataCenter.Invariant.{some_eq, some_ne_none}
use cache_system_of_lease_me.DataCenter.LeaseStore.{
  Hold, free, lent, closing, Cell, Store, Event, found, Sets, Releases, holds, releases, Outlasts,
  Lasts, Allows, misses, lends, glimpses, writes, keeps_back, refuses, passes, Behaves, ends, acts,
  Coherent, Held,
}

-- A lease that outlasts a hold lasts as long.
Outlasts-Lasts : (n m : ℕ) (h : Hold) → Outlasts m h → Lasts n h → n ≤ m
Outlasts-Lasts n m free o l = absurd l
Outlasts-Lasts n m (lent k) o l = omega (arith, o, l)
Outlasts-Lasts n m (closing k) o l = absurd o

module _ {T : Type 0} where
  same-Held : (n : ℕ) (v : T) (o o' : Option (Cell T)) → o' ≡ o → Held n v o → Held n v o'
  same-Held n v o o' same h = subst (Held n v) (sym same) h

  Sets-Held :
      (n k id : ℕ) (v : T) (cell : Cell T) (s s' : Store T)
      → Sets k cell s s'
      → (k ≡ id → (cell.value ≡ v) × Lasts n cell.hold)
      → Held n v (s id)
      → Held n v (s' id)
  Sets-Held n k id v cell s s' sets new h = elim (ℕ_discrete k id) [
    | yes same ↦ record {
      cell = cell;
      there = sets id ∙ ground (arith, same);
      value = (new same).0;
      lasting = (new same).1;
    }
    | no other ↦ same-Held n v (s id) (s' id) (sets id ∙ ground (arith, other)) h
  ]

  -- The cell that is held is the one that is there.
  Held-cell :
      (n k id : ℕ) (v : T) (cell : Cell T) (s : Store T)
      → s k ≡ some cell
      → (h : Held n v (s id)) → k ≡ id
      → cell ≡ h.cell
  Held-cell n k id v cell s there h same = some_eq (sym there ∙ ap s same ∙ h.there)

  -- A lease that is not over is not released.
  Releases-Held :
      (n now : ℕ) (v : T) (o o' : Option (Cell T))
      → now < n
      → Releases now o o'
      → Held n v o
      → Held n v o'
  Releases-Held n now v o o' early (holds same) h = same-Held n v o o' same h
  Releases-Held n now v o o' early (releases w m there over left) h = absurd (
      omega (
        arith,
        early,
        over,
        subst (λ (c : Cell T). Lasts n c.hold) (some_eq (sym h.there ∙ there)) h.lasting,
      ))

  -- A value that is held beyond the time of an event is told by it, and held on.
  Allows-Held :
      (n id from to : ℕ) (v : T) (s s' : Store T) (e : Event T)
      → to < n
      → Allows from to s s' e
      → Held n v (s id)
      → Coherent id v e × Held n v (s' id)
  Allows-Held n id from to v s s' _ early (misses k missing same) h =
      (tt, same-Held n v (s id) (s' id) (same id) h)
  Allows-Held n id from to v s s' _ early (lends k m cell there outlasts full sets) h =
      let is = Held-cell n k id v cell s there h in
      let told = λ (e : k ≡ id). ap (λ (c : Cell T). c.value) (is e) ∙ h.value in
      (
        told,
        Sets-Held n k id v (record cell { hold = lent m }) s s' sets
            (λ e. (
              told e,
              Outlasts-Lasts n m cell.hold outlasts
                  (subst (λ (c : Cell T). Lasts n c.hold) (sym (is e)) h.lasting),
            ))
            h,
      )
  Allows-Held n id from to v s s' _ early (glimpses k m l w there now same) h = (
    λ e. ap (λ (c : Cell T). c.value) (Held-cell n k id v _ s there h e) ∙ h.value,
    same-Held n v (s id) (s' id) (same id) h,
  )
  Allows-Held n id from to v s s' _ early (writes k m w unheld full sets) h =
      let other = λ (e : k ≡ id). not_held k w unheld e in
      (
        other,
        Sets-Held n k id v (record { value = w; hold = lent m }) s s' sets (λ e. absurd (other e))
            h,
      )
    where
      not_held :
          (k : ℕ) (w : T)
          → (s k ≡ none) ⊎ ((old : T) × (s k ≡ some (record { value = old; hold = free })))
          → k ≡ id
          → ⊥
      not_held k w (inl missing) e = some_ne_none (sym h.there ∙ ap s (sym e) ∙ missing)
      not_held k w (inr (old, there)) e =
          subst (λ (c : Cell T). Lasts n c.hold) (sym (Held-cell n k id v _ s there h e)) h.lasting
  Allows-Held n id from to v s s' _ early (keeps_back k m l old w there longer sets) h =
      let is = Held-cell n k id v _ s there h in
      (
        tt,
        Sets-Held n k id v (record { value = old; hold = closing l }) s s' sets
            (λ e. (
              ap (λ (c : Cell T). c.value) (is e) ∙ h.value,
              omega (arith, longer, subst (λ (c : Cell T). Lasts n c.hold) (sym (is e)) h.lasting),
            ))
            h,
      )
  Allows-Held n id from to v s s' _ early (refuses k m old w there same) h =
      (tt, same-Held n v (s id) (s' id) (same id) h)
  Allows-Held n id from to v s s' _ early (passes released) h =
      (tt, Releases-Held n to v (s id) (s' id) early (released id) h)

  Behaves-later :
      (from to : ℕ) (s s' : Store T) (es : List (Event T)) → Behaves from s es to s' → from ≤ to
  Behaves-later from to s s' _ (ends _ _) = omega arith
  Behaves-later from to s s' _ (acts _ mid _ _ s1 _ e es later a b) =
      omega (arith, later, Behaves-later mid to s1 s' es b)

  Behaves-Held :
      (n id from to : ℕ) (v : T) (s s' : Store T) (es : List (Event T))
      → to < n
      → Behaves from s es to s'
      → Held n v (s id)
      → All (Coherent id v) es
  Behaves-Held n id from to v s s' _ early (ends _ _) h = tt
  Behaves-Held n id from to v s s' _ early (acts _ mid _ _ s1 _ e es later a b) h =
      let past = Behaves-later mid to s1 s' es b in
      let (told, h1) = Allows-Held n id from mid v s s1 e (omega (arith, early, past)) a h in
      (told, Behaves-Held n id mid to v s1 s' es early b h1)

  found-Held :
      (n id from to : ℕ) (v : T) (s s' : Store T)
      → to < n
      → Allows from to s s' (found id v n)
      → Held n v (s' id)
  found-Held n id from to _ s s' early (lends _ _ cell there outlasts full sets) = record {
    cell = record cell { hold = lent n };
    there = sets id ∙ ground arith;
    value = refl;
    lasting = omega arith;
  }
  found-Held n id from to v s s' early (glimpses _ _ m _ there now same) =
      absurd (omega (arith, early, now))

  -- Once a reader has the value `v` until `n`, nobody is told another value before that time.
  pub Behaves-Coherent :
      (n id from to : ℕ) (v : T) (s s' : Store T) (es : List (Event T))
      → to < n
      → Behaves from s (found id v n ∷ es) to s'
      → All (Coherent id v) es
  Behaves-Coherent n id from to v s s' es early (acts _ mid _ _ s1 _ _ _ later a b) =
      let past = Behaves-later mid to s1 s' es b in
      Behaves-Held n id mid to v s1 s' es early b
        (found-Held n id from mid v s s1 (omega (arith, early, past)) a)
