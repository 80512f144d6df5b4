-- ===== src/Standard/Heap/Order.antt =====
-- The heap order, and how a swap changes the keys.
use cache_system_of_lease_me.Base.{
  ℕ, zero, suc, ◌≤◌, ◌<◌, ◌≡◌, refl, List, [], ◌∷◌, ◌++◌, Perm, arith, ◌==◌, if◌then◌else◌, All,
}
use cache_system_of_lease_me.Standard.Vector.{
  length, swap, get_elem?-some, get_elem?-swap, swap-perm,
}
use cache_system_of_lease_me.Standard.Heap.{parent, key_at, IsHeap}

module _ {ℓ} {A : Type ℓ} (key : A → ℕ) where
  pub key_at-swap :
      (xs : List A) (i j c : ℕ)
      → i < length xs
      → j < length xs
      → key_at key (swap xs i j) c
        ≡ (if j == c then key_at key xs i else if i == c then key_at key xs j else key_at key xs c)
  unfolding key_at
  key_at-swap xs i j c hi hj =
      let (x, hx) = get_elem?-some xs i hi in
      let (y, hy) = get_elem?-some xs j hj in
      ground (arith, hx, hy, get_elem?-swap xs i j x y hx hy hi hj c)

  pub swap_same : (xs : List A) (i j : ℕ) → i < length xs → j < length xs → Perm (swap xs i j) xs
  swap_same xs i j hi hj =
      let (x, hx) = get_elem?-some xs i hi in
      let (y, hy) = get_elem?-some xs j hj in swap-perm xs i j x y hx hy hi hj

  root_least_below :
      (k : ℕ) (xs : List A) (i : ℕ)
      → IsHeap key xs
      → i < k
      → i < length xs
      → key_at key xs 0 ≤ key_at key xs i
  root_least_below zero xs i h f p = absurd (omega arith)
  root_least_below (suc k) xs zero h f p = omega arith
  root_least_below (suc k) xs (suc i) h f p = omega (
    arith,
    h (suc i) (omega arith) p,
    root_least_below k xs (parent (suc i)) h (omega arith) (omega arith),
  )

  -- The root of a heap has the least key.
  pub root_least :
      (xs : List A) (i : ℕ) → IsHeap key xs → i < length xs → key_at key xs 0 ≤ key_at key xs i
  root_least xs i h p = root_least_below (suc i) xs i h (omega arith) p

  All-of_keys :
      (xs : List A) (n : ℕ)
      → ((i : ℕ) → i < length xs → n ≤ key_at key xs i)
      → All (λ x. n ≤ key x) xs
  unfolding key_at
  All-of_keys [] n h = tt
  All-of_keys (x ∷ xs) n h = (h 0 (omega arith), All-of_keys xs n (λ i p. h (suc i) (omega arith)))

  -- The front of a heap has the least key of all entries.
  pub front_least : (x : A) (xs : List A) → IsHeap key (x ∷ xs) → All (λ y. key x ≤ key y) (x ∷ xs)
  unfolding key_at
  front_least x xs h = All-of_keys (x ∷ xs) (key x) (λ i p. root_least (x ∷ xs) i h p)

  -- An index inside the first part of a vector reads that part.
  pub key_at-append :
      (xs ys : List A) (i : ℕ) → i < length xs → key_at key (xs ++ ys) i ≡ key_at key xs i
  unfolding key_at
  key_at-append [] ys i h = absurd (omega arith)
  key_at-append (x ∷ xs) ys zero h = refl
  key_at-append (x ∷ xs) ys (suc i) h = key_at-append xs ys i (omega arith)
