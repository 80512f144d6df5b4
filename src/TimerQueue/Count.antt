-- ===== src/TimerQueue/Count.antt =====
-- Counting and comparing timers in a queue whose order the heap algorithms change.
use mathlib.Core.List.{
  Permᴰ, perm_middle, append-nil, not-mem-nil, mem-cons, mem-cons_of_mem, mem-cons_self, Nodup-cons,
}
use mathlib.Core.Logic.{∥∥₁_elim}
use mathlib.Core.Logic.Or
use native.Mathlib.Nat.{ℕ_set}
use cache_system_of_lease_me.Base.{
  ℕ, ◌+◌, ◌≡◌, ◌≢◌, refl, ap, subst, ◌∙◌, Bool, List, [], ◌∷◌, ◌++◌, Mem, Perm, arith,
  if◌then◌else◌, ◌&&◌, ◌==◌, ◌≤◌, map, Bool, true, false, Nodup, ℕ_discrete, All,
}
use cache_system_of_lease_me.TimerQueue.{EventTimer, ids, disable}

-- How many timers pass a test.
unfoldable pub count : (EventTimer → Bool) → List EventTimer → ℕ
count P [] = 0
count P (t ∷ ts) = (if P t then 1 else 0) + count P ts

pub count-nil : (P : EventTimer → Bool) → count P [] ≡ 0
unfolding count
count-nil P = refl

pub count-cons :
    (P : EventTimer → Bool) (t : EventTimer) (ts : List EventTimer)
    → count P (t ∷ ts) ≡ (if P t then 1 else 0) + count P ts
unfolding count
count-cons P t ts = refl

-- A weight summed over the timers.
unfoldable pub total : (EventTimer → ℕ) → List EventTimer → ℕ
total f [] = 0
total f (t ∷ ts) = f t + total f ts

Permᴰ-total : (f : EventTimer → ℕ) {ts us : List EventTimer} → Permᴰ ts us → total f ts ≡ total f us
unfolding total
Permᴰ-total f Permᴰ.nil = refl
Permᴰ-total f (Permᴰ.cons e p) = λ i. f (e i) + Permᴰ-total f p i
Permᴰ-total f (Permᴰ.swap t u) = omega (arith, ap f t, ap f u)
Permᴰ-total f (Permᴰ.trans p q) = Permᴰ-total f p ∙ Permᴰ-total f q

pub total-perm :
    (f : EventTimer → ℕ) {ts us : List EventTimer} → Perm ts us → total f ts ≡ total f us
total-perm f p = ∥∥₁_elim p (ℕ_set _ _) (Permᴰ-total f)

pub count-total :
    (P : EventTimer → Bool) (ts : List EventTimer)
    → count P ts ≡ total (λ t. if P t then 1 else 0) ts
unfolding count total
count-total P [] = refl
count-total P (t ∷ ts) = ap (λ (n : ℕ). (if P t then 1 else 0) + n) (count-total P ts)

pub count-perm :
    (P : EventTimer → Bool) {ts us : List EventTimer} → Perm ts us → count P ts ≡ count P us
count-perm P {ts} {us} p =
    omega (arith, count-total P ts, count-total P us, total-perm (λ t. if P t then 1 else 0) p)

Permᴰ-All : (P : EventTimer → Type 0) {ts us : List EventTimer} → Permᴰ ts us → All P ts → All P us
Permᴰ-All P Permᴰ.nil h = h
Permᴰ-All P (Permᴰ.cons e p) h = (subst P e h.0, Permᴰ-All P p h.1)
Permᴰ-All P (Permᴰ.swap t u) h = (subst P u h.1.0, (subst P t h.0, h.1.1))
Permᴰ-All P (Permᴰ.trans p q) h = Permᴰ-All P q (Permᴰ-All P p h)

All-prop :
    (P : EventTimer → Type 0)
    → ((t : EventTimer) → IsProp (P t))
    → (ts : List EventTimer) → IsProp (All P ts)
All-prop P pr [] = λ a b. refl
All-prop P pr (t ∷ ts) = hlevel (pr t, All-prop P pr ts)

pub All-perm :
    (P : EventTimer → Type 0)
    → ((t : EventTimer) → IsProp (P t))
    → {ts us : List EventTimer} → Perm ts us
    → All P ts
    → All P us
All-perm P pr p h = ∥∥₁_elim p (All-prop P pr _) (λ q. Permᴰ-All P q h)

pub All-map {ℓ κ} :
    {A : Type ℓ} {P Q : A → Type κ} → ((a : A) → P a → Q a) → (ts : List A) → All P ts → All Q ts
All-map k [] h = tt
All-map k (t ∷ ts) h = (k t h.0, All-map k ts h.1)

pub concat-perm : (ts : List EventTimer) (t : EventTimer) → Perm (ts ++ t ∷ []) (t ∷ ts)
concat-perm ts t = rw (append-nil ts) at (perm_middle {a = t} ts [])

-- An address that differs from all those of a list does not stand in it.
pub not-mem_of_ne : (a : ℕ) (xs : List ℕ) → All (λ x. x ≢ a) xs → ¬ Mem a xs
not-mem_of_ne a [] h m = not-mem-nil m
not-mem_of_ne a (x ∷ xs) h m =
    Or.elim (λ u v. absurd u) (mem-cons.0 m) (λ e. h.0 (ground arith)) (not-mem_of_ne a xs h.1)

-- Fewer timers pass a stronger test.
pub count-le :
    (P Q : EventTimer → Bool)
    → ((t : EventTimer) → P t ≡ true → Q t ≡ true)
    → (ts : List EventTimer) → count P ts ≤ count Q ts
unfolding count
count-le P Q h [] = omega arith
count-le P Q h (t ∷ ts) = ground (arith, h t, count-le P Q h ts)

-- Two tests that exclude each other pass together no more timers than a test that both imply.
pub count_disjoint :
    (P Q R : EventTimer → Bool)
    → ((t : EventTimer) → P t ≡ true → R t ≡ true)
    → ((t : EventTimer) → Q t ≡ true → R t ≡ true)
    → ((t : EventTimer) → P t ≡ true → Q t ≡ false)
    → (ts : List EventTimer) → count P ts + count Q ts ≤ count R ts
unfolding count
count_disjoint P Q R hp hq no_both [] = omega arith
count_disjoint P Q R hp hq no_both (t ∷ ts) =
    ground (arith, hp t, hq t, no_both t, count_disjoint P Q R hp hq no_both ts)

-- Disarming an address takes away the armed timers of that address, and no other.
pub count-disable :
    (P : EventTimer → Bool) (id : ℕ)
    → ((t : EventTimer) → P (record t { repeat = 0 }) ≡ false)
    → (ts : List EventTimer)
    → count P (map (disable id) ts) + count (λ t. P t && t.timer_id == id) ts ≡ count P ts
unfolding count
count-disable P id h [] = omega arith
count-disable P id h (t ∷ ts) = ground (arith, h t, count-disable P id h ts)

-- Where addresses are told apart, one timer at most has a given one.
count-id_zero :
    (id : ℕ) (ts : List EventTimer) → ¬ Mem id (ids ts) → count (λ t. t.timer_id == id) ts ≡ 0
unfolding count
count-id_zero id [] h = omega arith
count-id_zero id (t ∷ ts) h =
    ground (arith, h' t ts h, count-id_zero id ts (λ m. h (mem-cons_of_mem t.timer_id m)))
  where
    h' : (t : EventTimer) (ts : List EventTimer) → ¬ Mem id (t.timer_id ∷ ids ts) → t.timer_id ≢ id
    h' t ts h e = h (rw e mem-cons_self)

pub count-id-le :
    (id : ℕ) (ts : List EventTimer) → Nodup (ids ts) → count (λ t. t.timer_id == id) ts ≤ 1
unfolding count
count-id-le id [] h = omega arith
count-id-le id (t ∷ ts) h = elim (ℕ_discrete t.timer_id id) [
  | yes e ↦
      omega (arith, count-id_zero id ts (rw e at (Nodup-cons.0 h).0), bool_le (t.timer_id == id))
  | no n ↦ ground (arith, count-id-le id ts (Nodup-cons.0 h).1)
]
  where
    bool_le : (b : Bool) → (if b then 1 else 0) ≤ 1
    bool_le true = omega arith
    bool_le false = omega arith
