-- ===== src/Standard/Heap/Pop.antt =====
-- pop_heap moves the front to the end, and restores the heap order of the rest.
use mathlib.Core.List.{perm_middle, append-nil}
use mathlib.Core.List.Perm
use cache_system_of_lease_me.Base.{
  ℕ, zero, suc, ◌+◌, ◌-◌, ◌*◌, ◌≤◌, ◌<◌, ◌≡◌, ◌≢◌, ◌⊎◌, refl, List, [], ◌∷◌, ◌++◌, Perm, arith, ltb,
  ◌&&◌, ℕ_discrete, inl, inr, Bool-cases,
}
use cache_system_of_lease_me.Standard.Vector.{
  length, swap, take, drop, length-swap, length-take, drop_last, get_elem?-some, get_elem?-swap,
  take-append-drop,
}
use cache_system_of_lease_me.Standard.Heap.{
  parent, key_at, IsHeap, lesser_child, sift_down, pop_heap,
}
use cache_system_of_lease_me.Standard.Heap.Order.{key_at-swap, key_at-append, swap_same}

module _ {ℓ} {A : Type ℓ} (key : A → ℕ) where
  -- Only the edges below `i` may be out of order.
  record Falling (xs : List A) (i : ℕ) : Type 0 where
    edges :
        (c : ℕ) → 0 < c → c < length xs → parent c ≢ i → key_at key xs (parent c) ≤ key_at key xs c
    bridged :
        (c : ℕ)
        → 0 < c
        → c < length xs
        → parent c ≡ i
        → 0 < i
        → key_at key xs (parent i) ≤ key_at key xs c

  -- The child that moves up is inside, hangs below `i`, and is no larger than its sibling.
  lesser_child_lem :
      (xs : List A) (i : ℕ)
      → 2 * i + 1 < length xs
      → (lesser_child key xs i < length xs)
        × (0 < lesser_child key xs i)
        × (parent (lesser_child key xs i) ≡ i)
        × ((c : ℕ)
            → 0 < c
            → c < length xs
            → parent c ≡ i
            → key_at key xs (lesser_child key xs i) ≤ key_at key xs c)
  unfolding lesser_child
  lesser_child_lem xs i h =
      (ground arith, ground arith, ground arith, λ c p q r. least c (sides c p r) q)
    where
      sides : (c : ℕ) → 0 < c → parent c ≡ i → (c ≡ 2 * i + 1) ⊎ (c ≡ 2 * i + 2)
      sides c p r = omega arith

      least :
          (c : ℕ)
          → (c ≡ 2 * i + 1) ⊎ (c ≡ 2 * i + 2)
          → c < length xs
          → key_at key xs (lesser_child key xs i) ≤ key_at key xs c
      least c (inl e) q = rw e (ground arith)
      least c (inr e) q = rw e (ground arith)

  swap-Falling :
      (xs : List A) (i j : ℕ)
      → Falling xs i
      → i < length xs
      → j < length xs
      → 0 < j
      → parent j ≡ i
      → ((c : ℕ) → 0 < c → c < length xs → parent c ≡ i → key_at key xs j ≤ key_at key xs c)
      → key_at key xs j < key_at key xs i
      → Falling (swap xs i j) j
  swap-Falling xs i j f hi hj pos child least below =
      grind (arith, length-swap xs i j, key_at-swap key xs i j)

  -- Where the loop stops, the entry at `i` is no larger than its children.
  settled-IsHeap :
      (xs : List A) (i : ℕ)
      → Falling xs i
      → (2 * i + 1 < length xs → key_at key xs i ≤ key_at key xs (lesser_child key xs i))
      → IsHeap key xs
  settled-IsHeap xs i f stop c p q = elim (ℕ_discrete (parent c) i) [
    | yes e ↦
        let h : 2 * i + 1 < length xs = omega arith in
        rw e (omega (arith, stop h, (lesser_child_lem xs i h).3 c p q e))
    | no n ↦ f.edges c p q n
  ]

  sift_down_restores :
      (k : ℕ) (xs : List A) (i : ℕ)
      → length xs ≤ i + k
      → Falling xs i
      → IsHeap key (sift_down key k xs i) × Perm (sift_down key k xs i) xs
  unfolding sift_down
  sift_down_restores zero xs i f r = (λ c p q. r.edges c p q (λ e. omega arith), Perm.rfl)
  sift_down_restores (suc k) xs i f r =
      elim (Bool-cases (
        ltb (2 * i + 1) (length xs)
        && ltb (key_at key xs (lesser_child key xs i)) (key_at key xs i))) [
          | inl e ↦
              let j = lesser_child key xs i in
              let (inside, pos, child, least) = lesser_child_lem xs i (ground arith) in
              let hi : i < length xs = ground arith in
              let (heap, same) =
                sift_down_restores k (swap xs i j) j (omega (arith, length-swap xs i j))
                  (swap-Falling xs i j r hi inside pos child least (ground arith)) in
              rw e (heap, Perm.trans same (swap_same key xs i j hi inside))
          | inr e ↦ rw e (settled-IsHeap xs i r (λ h. ground arith), Perm.rfl)
        ]

  -- The edges that do not touch the root are in order.
  abbrev pub IsHeapBelow : List A → Type 0
  IsHeapBelow xs =
      (c : ℕ) → 0 < parent c → c < length xs → key_at key xs (parent c) ≤ key_at key xs c

  module _ (x : A) (xs : List A) where
    abbrev n : ℕ
    n = length xs

    abbrev swapped : List A
    swapped = swap (x ∷ xs) 0 n

    abbrev cut : List A
    cut = take n swapped

    length-swapped : length swapped ≡ suc n
    length-swapped = length-swap (x ∷ xs) 0 n

    length-cut : length cut ≡ n
    length-cut = length-take n swapped (omega (arith, length-swapped))

    drop-swapped : drop n swapped ≡ x ∷ []
    drop-swapped =
        let (y, hy) = get_elem?-some (x ∷ xs) n (omega arith) in
        drop_last n swapped x length-swapped
          (ground (arith, get_elem?-swap (x ∷ xs) 0 n x y refl hy (omega arith) (omega arith) n))

    cut-append : cut ++ x ∷ [] ≡ swapped
    cut-append = rw (← drop-swapped) (take-append-drop n swapped)

    cut-perm : Perm cut xs
    cut-perm = Perm.cons_inv (
        Perm.trans (Perm.symm (rw (append-nil cut) at (perm_middle {a = x} cut [])))
          (rw cut-append (swap_same key (x ∷ xs) 0 n (omega arith) (omega arith))))

    cut-Falling : IsHeapBelow (x ∷ xs) → Falling cut 0
    cut-Falling h = record {
      edges = λ c p q r. ground (arith, length-cut, h c, cut_key c, cut_key (parent c));
      bridged = λ c p q r s. absurd (omega arith);
    }
      where
        cut_key : (c : ℕ) → c < n → 0 < c → key_at key cut c ≡ key_at key (x ∷ xs) c
        cut_key c p pos = ground (
          arith,
          length-cut,
          cut-append,
          key_at-append key cut (x ∷ []) c,
          key_at-swap key (x ∷ xs) 0 n c (omega arith) (omega arith),
        )

    -- `pop_heap` moves the front to the end and makes a heap of the rest, also where only the
    -- front is out of order.
    pub pop_heap_restores :
        IsHeapBelow (x ∷ xs)
        → (rest : List A) × (pop_heap key (x ∷ xs) ≡ rest ++ x ∷ [])
          × IsHeap key rest
          × Perm rest xs
    unfolding pop_heap
    pop_heap_restores h =
        let (heap, same) = sift_down_restores n cut 0 (omega (arith, length-cut)) (cut-Falling h) in
        (sift_down key n cut 0, rw (last, drop-swapped), heap, Perm.trans same cut-perm)
      where
        last : suc n - 1 ≡ n
        last = omega arith
