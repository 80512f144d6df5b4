-- ===== src/Standard/Heap.antt =====
-- std::push_heap and std::pop_heap of <algorithm>, on a vector whose entries are compared by a
-- key. The comparator of the source puts the least key at the front, so the heap is a min-heap.
-- The standard fixes the result up to the order of equal keys; here entries move by swaps.
pub mod Order
pub mod Push
pub mod Pop
use cache_system_of_lease_me.Base.{
  ℕ, zero, suc, ◌+◌, ◌-◌, ◌*◌, ◌/◌, ◌≤◌, ◌<◌, ◌≡◌, List, [], ◌++◌, Option, none, some, ltb, ◌&&◌,
  if◌then◌else◌,
}
use cache_system_of_lease_me.Standard.Vector.{length, get_elem?, take, drop, swap}

abbrev pub parent : ℕ → ℕ
parent c = (c - 1) / 2

module _ {ℓ} {A : Type ℓ} (key : A → ℕ) where
  -- The key at an index, 0 outside the vector.
  unfoldable pub key_at : List A → ℕ → ℕ
  key_at xs i = elim (get_elem? xs i) [ none ↦ 0 | some x ↦ key x ]

  -- Moves the entry at `i` towards the front until its parent is no larger.
  unfoldable pub sift_up : ℕ → List A → ℕ → List A
  unfolding key_at
  sift_up zero xs i = xs
  sift_up (suc k) xs i =
      let up = sift_up k (swap xs i (parent i)) (parent i) in
      if ltb 0 i && ltb (key_at xs i) (key_at xs (parent i)) then up else xs

  -- The child of `i` with the lesser key; the left child exists.
  unfoldable pub lesser_child : List A → ℕ → ℕ
  unfolding key_at
  lesser_child xs i =
      if ltb (2 * i + 2) (length xs) && ltb (key_at xs (2 * i + 2)) (key_at xs (2 * i + 1))
      then 2 * i + 2
      else 2 * i + 1

  -- Moves the entry at `i` towards the leaves until no child is smaller.
  unfoldable pub sift_down : ℕ → List A → ℕ → List A
  unfolding key_at lesser_child
  sift_down zero xs i = xs
  sift_down (suc k) xs i =
      let down = sift_down k (swap xs i (lesser_child xs i)) (lesser_child xs i) in
      if ltb (2 * i + 1) (length xs) && ltb (key_at xs (lesser_child xs i)) (key_at xs i)
      then down
      else xs

  -- The last entry joins the heap of those before it.
  unfoldable pub push_heap : List A → List A
  unfolding sift_up swap
  push_heap xs = sift_up (length xs) xs (length xs - 1)

  -- The front goes to the end, and the rest becomes a heap.
  unfoldable pub pop_heap : List A → List A
  unfolding sift_down swap
  pop_heap xs =
      let last = length xs - 1 in
      let swapped = swap xs 0 last in sift_down last (take last swapped) 0 ++ drop last swapped

  -- No entry has a smaller key than its parent.
  abbrev pub IsHeap : List A → Type 0
  IsHeap xs = (c : ℕ) → 0 < c → c < length xs → key_at xs (parent c) ≤ key_at xs c
