-- ===== src/Standard/Vector.antt =====
-- std::vector as a list under native indices.
use mathlib.Core.List.Perm
use cache_system_of_lease_me.Base.{
  ℕ, zero, suc, ◌+◌, ◌≤◌, ◌<◌, ◌≡◌, refl, ap, ◌∙◌, List, [], ◌∷◌, ◌++◌, Perm, Option, none, some,
  arith, ◌==◌, if◌then◌else◌,
}

module _ {ℓ} {A : Type ℓ} where
  abbrev pub length : List A → ℕ
  length [] = 0
  length (_ ∷ xs) = suc (length xs)

  abbrev pub get_elem? : List A → ℕ → Option A
  get_elem? [] i = none
  get_elem? (x ∷ xs) zero = some x
  get_elem? (x ∷ xs) (suc i) = get_elem? xs i

  abbrev pub set : List A → ℕ → A → List A
  set [] i v = []
  set (x ∷ xs) zero v = v ∷ xs
  set (x ∷ xs) (suc i) v = x ∷ set xs i v

  abbrev pub take : ℕ → List A → List A
  take zero xs = []
  take (suc n) [] = []
  take (suc n) (x ∷ xs) = x ∷ take n xs

  abbrev pub drop : ℕ → List A → List A
  drop zero xs = xs
  drop (suc n) [] = []
  drop (suc n) (x ∷ xs) = drop n xs

  pub length-append : (xs ys : List A) → length (xs ++ ys) ≡ length xs + length ys
  length-append [] ys = omega arith
  length-append (x ∷ xs) ys = omega (arith, length-append xs ys)

  pub length-set : (xs : List A) (i : ℕ) (v : A) → length (set xs i v) ≡ length xs
  length-set [] i v = refl
  length-set (x ∷ xs) zero v = refl
  length-set (x ∷ xs) (suc i) v = ap suc (length-set xs i v)

  pub take-append-drop : (n : ℕ) (xs : List A) → take n xs ++ drop n xs ≡ xs
  take-append-drop zero xs = refl
  take-append-drop (suc n) [] = refl
  take-append-drop (suc n) (x ∷ xs) = ap (◌∷◌ x) (take-append-drop n xs)

  pub take-append : (xs ys : List A) → take (length xs) (xs ++ ys) ≡ xs
  take-append [] ys = refl
  take-append (x ∷ xs) ys = ap (◌∷◌ x) (take-append xs ys)

  pub length-take : (n : ℕ) (xs : List A) → n ≤ length xs → length (take n xs) ≡ n
  length-take zero xs h = refl
  length-take (suc n) [] h = absurd (omega arith)
  length-take (suc n) (x ∷ xs) h = ap suc (length-take n xs (omega arith))

  pub drop_last :
      (n : ℕ) (xs : List A) (x : A)
      → length xs ≡ suc n
      → get_elem? xs n ≡ some x
      → drop n xs ≡ x ∷ []
  drop_last zero (y ∷ []) x h e = ground arith
  drop_last (suc n) (y ∷ xs) x h e = drop_last n xs x (omega arith) e
  drop_last n xs x h e = absurd (omega arith)

  pub get_elem?-some : (xs : List A) (i : ℕ) → i < length xs → (x : A) × (get_elem? xs i ≡ some x)
  get_elem?-some [] i h = absurd (omega arith)
  get_elem?-some (x ∷ xs) zero h = (x, refl)
  get_elem?-some (x ∷ xs) (suc i) h = get_elem?-some xs i (omega arith)

  pub get_elem?-set :
      (xs : List A) (i j : ℕ) (v : A)
      → i < length xs
      → get_elem? (set xs i v) j ≡ (if i == j then some v else get_elem? xs j)
  get_elem?-set [] i j v h = absurd (omega arith)
  get_elem?-set (x ∷ xs) zero zero v h = refl
  get_elem?-set (x ∷ xs) zero (suc j) v h = ground arith
  get_elem?-set (x ∷ xs) (suc i) zero v h = ground arith
  get_elem?-set (x ∷ xs) (suc i) (suc j) v h = ground (arith, get_elem?-set xs i j v)

  -- A write trades the old entry for the new one.
  pub set-perm :
      (xs : List A) (i : ℕ) (x v : A) → get_elem? xs i ≡ some x → Perm (x ∷ set xs i v) (v ∷ xs)
  set-perm [] i x v h = absurd (cc)
  set-perm (y ∷ xs) zero x v h = subst_head (ground arith) (Perm.swap v y xs)
    where
      subst_head : y ≡ x → Perm (y ∷ v ∷ xs) (v ∷ y ∷ xs) → Perm (x ∷ v ∷ xs) (v ∷ y ∷ xs)
      subst_head e p = rw (← e) p
  set-perm (y ∷ xs) (suc i) x v h =
      Perm.trans (Perm.swap y x (set xs i v))
        (Perm.trans (Perm.cons y (set-perm xs i x v h)) (Perm.swap v y xs))

  -- std::swap on two entries.
  unfoldable pub swap : List A → ℕ → ℕ → List A
  swap xs i j = elim (get_elem? xs i) [
    | none ↦ xs
    | some x ↦ elim (get_elem? xs j) [ none ↦ xs | some y ↦ set (set xs i y) j x ]
  ]

  pub length-swap : (xs : List A) (i j : ℕ) → length (swap xs i j) ≡ length xs
  unfolding swap
  length-swap xs i j =
      elim (get_elem? xs i)
        as (λ r.
          length (elim r [
            | none ↦ xs
            | some x ↦ elim (get_elem? xs j) [ none ↦ xs | some y ↦ set (set xs i y) j x ]
          ])
          ≡ length xs) [
            | none ↦ refl
            | some x ↦
                elim (get_elem? xs j)
                  as (λ r.
                    length (elim r [ none ↦ xs | some y ↦ set (set xs i y) j x ]) ≡ length xs) [
                      | none ↦ refl
                      | some y ↦ length-set (set xs i y) j x ∙ length-set xs i y
                    ]
          ]

module _ {ℓ} {A : Type ℓ} (xs : List A) (i j : ℕ) (x y : A) (hx : get_elem? xs i ≡ some x)
    (hy : get_elem? xs j ≡ some y) (hi : i < length xs) (hj : j < length xs) where
  pub get_elem?-swap :
      (c : ℕ)
      → get_elem? (swap xs i j) c
        ≡ (if j == c then some x else if i == c then some y else get_elem? xs c)
  unfolding swap
  get_elem?-swap c =
      rw (
        hx,
        swap,
        hy,
        get_elem?-set (set xs i y) j c x (rw length-set hj),
        get_elem?-set xs i c y hi,
      )

  pub swap-perm : Perm (swap xs i j) xs
  unfolding swap
  swap-perm =
      rw (hx, swap, hy)
        (Perm.cons_inv (
          Perm.trans (set-perm (set xs i y) j y x (ground (arith, get_elem?-set xs i j y)))
            (set-perm xs i x y hx)))
