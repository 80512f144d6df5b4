-- ===== src/Standard/Heap/Push.antt =====
-- push_heap restores the heap order.
use mathlib.Core.List.Perm
use cache_system_of_lease_me.Base.{
  ℕ, zero, suc, ◌+◌, ◌-◌, ◌≤◌, ◌<◌, ◌≡◌, ◌≢◌, List, [], ◌∷◌, ◌++◌, Perm, arith, ltb, ◌&&◌, inl, inr,
  Bool-cases,
}
use cache_system_of_lease_me.Standard.Vector.{length, swap, length-swap, length-append}
use cache_system_of_lease_me.Standard.Heap.{parent, key_at, IsHeap, sift_up, push_heap}
use cache_system_of_lease_me.Standard.Heap.Order.{key_at-swap, key_at-append, swap_same}

module _ {ℓ} {A : Type ℓ} (key : A → ℕ) where
  -- Only the edge above `i` may be out of order.
  record Rising (xs : List A) (i : ℕ) : Type 0 where
    inside : i < length xs
    edges : (c : ℕ) → 0 < c → c < length xs → c ≢ i → key_at key xs (parent c) ≤ key_at key xs c
    bridged :
        (c : ℕ)
        → 0 < c
        → c < length xs
        → parent c ≡ i
        → 0 < i
        → key_at key xs (parent i) ≤ key_at key xs c

  swap-Rising :
      (xs : List A) (i : ℕ)
      → Rising xs i
      → 0 < i
      → key_at key xs i < key_at key xs (parent i)
      → Rising (swap xs i (parent i)) (parent i)
  swap-Rising xs i r pos below =
      grind (arith, length-swap xs i (parent i), key_at-swap key xs i (parent i))

  sift_up_restores :
      (k : ℕ) (xs : List A) (i : ℕ)
      → i < k
      → Rising xs i
      → IsHeap key (sift_up key k xs i) × Perm (sift_up key k xs i) xs
  unfolding sift_up
  sift_up_restores zero xs i f r = absurd (omega arith)
  sift_up_restores (suc k) xs i f r =
      elim (Bool-cases (ltb 0 i && ltb (key_at key xs i) (key_at key xs (parent i)))) [
        | inl e ↦
            let (heap, same) =
              sift_up_restores k (swap xs i (parent i)) (parent i) (ground arith)
                (swap-Rising xs i r (ground arith) (ground arith)) in
            rw e (heap, Perm.trans same (swap_same key xs i (parent i) r.inside (ground arith)))
        | inr e ↦ rw e (λ c p q. ground (arith, r.edges c), Perm.rfl)
      ]

  -- Where all but the last entry form a heap, `push_heap` makes a heap of the same entries.
  pub push_heap_restores :
      (xs : List A) (x : A)
      → IsHeap key xs
      → IsHeap key (push_heap key (xs ++ x ∷ []))
        × Perm (push_heap key (xs ++ x ∷ [])) (xs ++ x ∷ [])
  unfolding push_heap
  push_heap_restores xs x h = sift_up_restores _ _ _ (omega (arith, size)) rising
    where
      size : length (xs ++ x ∷ []) ≡ length xs + 1
      size = length-append xs (x ∷ [])

      rising : Rising (xs ++ x ∷ []) (length (xs ++ x ∷ []) - 1)
      rising = record {
        inside = omega (arith, size);
        edges = λ c p q r. ground (
          arith,
          size,
          h c,
          key_at-append key xs (x ∷ []) c,
          key_at-append key xs (x ∷ []) (parent c),
        );
        bridged = λ c p q r s. absurd (omega (arith, size));
      }
