-- ===== src/Standard/Map.antt =====
-- std::map and std::unordered_map with number keys, as association lists. The order of the
-- entries, which the program does not look at, is that of insertion.
use cache_system_of_lease_me.Base.{
  ℕ, ◌≡◌, ◌≢◌, refl, List, [], ◌∷◌, Option, none, some, arith, ◌==◌, if◌then◌else◌,
}

module _ {ℓ} {V : Type ℓ} where
  -- `find`, and the value that the iterator points to.
  unfoldable pub lookup : ℕ → List (ℕ × V) → Option V
  lookup k [] = none
  lookup k ((j, v) ∷ m) = if j == k then some v else lookup k m

  -- A write through an iterator: changes the value of a key that is there.
  unfoldable pub assign : ℕ → V → List (ℕ × V) → List (ℕ × V)
  assign k v [] = []
  assign k v ((j, w) ∷ m) = if j == k then (j, v) ∷ m else (j, w) ∷ assign k v m

  -- `emplace`: a key that is there keeps its value.
  unfoldable pub emplace : ℕ → V → List (ℕ × V) → List (ℕ × V)
  emplace k v [] = (k, v) ∷ []
  emplace k v ((j, w) ∷ m) = if j == k then (j, w) ∷ m else (j, w) ∷ emplace k v m

  -- `erase`.
  unfoldable pub erase : ℕ → List (ℕ × V) → List (ℕ × V)
  erase k [] = []
  erase k ((j, w) ∷ m) = let rest = erase k m in if j == k then rest else (j, w) ∷ rest

  pub lookup-assign :
      (k j : ℕ) (v : V) (m : List (ℕ × V)) (w : V)
      → lookup k m ≡ some w
      → lookup j (assign k v m) ≡ (if k == j then some v else lookup j m)
  unfolding lookup assign
  lookup-assign k j v [] w h = absurd (cc)
  lookup-assign k j v ((i, u) ∷ m) w h = ground (arith, lookup-assign k j v m w)

  pub lookup-emplace :
      (k j : ℕ) (v : V) (m : List (ℕ × V))
      → lookup k m ≡ none
      → lookup j (emplace k v m) ≡ (if k == j then some v else lookup j m)
  unfolding lookup emplace
  lookup-emplace k j v [] h = refl
  lookup-emplace k j v ((i, u) ∷ m) h = ground (arith, lookup-emplace k j v m)

  pub lookup-assign_self :
      (k : ℕ) (v : V) (m : List (ℕ × V)) (w : V)
      → lookup k m ≡ some w
      → lookup k (assign k v m) ≡ some v
  lookup-assign_self k v m w h = ground (arith, lookup-assign k k v m w)

  pub lookup-assign_ne :
      (k j : ℕ) (v : V) (m : List (ℕ × V)) (w : V)
      → lookup k m ≡ some w
      → k ≢ j
      → lookup j (assign k v m) ≡ lookup j m
  lookup-assign_ne k j v m w h n = ground (arith, lookup-assign k j v m w)

  pub lookup-emplace_self :
      (k : ℕ) (v : V) (m : List (ℕ × V)) → lookup k m ≡ none → lookup k (emplace k v m) ≡ some v
  lookup-emplace_self k v m h = ground (arith, lookup-emplace k k v m)

  pub lookup-emplace_ne :
      (k j : ℕ) (v : V) (m : List (ℕ × V))
      → lookup k m ≡ none
      → k ≢ j
      → lookup j (emplace k v m) ≡ lookup j m
  lookup-emplace_ne k j v m h n = ground (arith, lookup-emplace k j v m)

  -- A key that is there stays as it is.
  pub emplace_again :
      (k : ℕ) (v : V) (m : List (ℕ × V)) (w : V) → lookup k m ≡ some w → emplace k v m ≡ m
  unfolding lookup emplace
  emplace_again k v [] w h = absurd (cc)
  emplace_again k v ((i, u) ∷ m) w h = ground (arith, emplace_again k v m w)

  pub lookup-erase :
      (k j : ℕ) (m : List (ℕ × V)) → lookup j (erase k m) ≡ (if k == j then none else lookup j m)
  unfolding lookup erase
  lookup-erase k j [] = ground arith
  lookup-erase k j ((i, u) ∷ m) = ground (arith, lookup-erase k j m)
