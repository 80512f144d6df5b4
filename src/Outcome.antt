-- ===== src/Outcome.antt =====
-- How a call of a C++ function ends, and the state monad over it. The exceptions are those of
-- common.h and the one that an empty std::function throws.
use cache_system_of_lease_me.Base.{◌≡◌, refl, ap, subst}

-- Exception::Code of common.h.
pub data Code : Type 0 where
  error_out_of_range error_ill_argument error_sys_routine error_read_format error_ill_usage
        error_read error_write :
      Code

pub data Thrown : Type 0 where
  csn : Code → Thrown
  bad_function_call : Thrown

-- A returned value; an exception; a wait for a mutex that the same thread holds; undefined
-- behaviour; a loop whose fuel ran out. Each has the state at that point.
pub data Outcome (S A : Type 0) : Type 0 where
  done : A → S → Outcome S A
  thrown : Thrown → S → Outcome S A
  blocked undefined out_of_fuel : S → Outcome S A

abbrev pub M : Type 0 → Type 0 → Type 0
M S A = S → Outcome S A

infixl 5 ◌>>=◌ ◌>>◌
abbrev pub ◌>>=◌ : {S A B : Type 0} → M S A → (A → M S B) → M S B
◌>>=◌ m f s = elim (m s) [
  | done a s' ↦ f a s'
  | thrown e s' ↦ thrown e s'
  | blocked s' ↦ blocked s'
  | undefined s' ↦ undefined s'
  | out_of_fuel s' ↦ out_of_fuel s'
]

abbrev pub ◌>>◌ : {S B : Type 0} → M S (Unit {0}) → M S B → M S B
m >> k = m >>= λ _. k

abbrev pub pure : {S A : Type 0} → A → M S A
pure a s = done a s

abbrev pub throw : {S A : Type 0} → Code → M S A
throw e s = thrown (csn e) s

abbrev pub gets : {S A : Type 0} → (S → A) → M S A
gets f s = done (f s) s

abbrev pub modify : {S : Type 0} → (S → S) → M S (Unit {0})
modify f s = done tt (f s)

-- A destructor that runs when a block is left by a return or by an exception.
abbrev pub finally : {S A : Type 0} → M S A → (S → S) → M S A
finally m f s = elim (m s) [
  | done a s' ↦ done a (f s')
  | thrown e s' ↦ thrown e (f s')
  | blocked s' ↦ blocked s'
  | undefined s' ↦ undefined s'
  | out_of_fuel s' ↦ out_of_fuel s'
]

abbrev pub map_state : {S T A : Type 0} → (T → S) → Outcome T A → Outcome S A
map_state f (done a t) = done a (f t)
map_state f (thrown e t) = thrown e (f t)
map_state f (blocked t) = blocked (f t)
map_state f (undefined t) = undefined (f t)
map_state f (out_of_fuel t) = out_of_fuel (f t)

pub map_state-map_state :
    {S T U A : Type 0} (f : T → S) (g : U → T) (o : Outcome U A)
    → map_state f (map_state g o) ≡ map_state (λ u. f (g u)) o
map_state-map_state f g (done a u) = refl
map_state-map_state f g (thrown e u) = refl
map_state-map_state f g (blocked u) = refl
map_state-map_state f g (undefined u) = refl
map_state-map_state f g (out_of_fuel u) = refl

-- A call on a part of the state.
abbrev pub zoom : {S T A : Type 0} → (S → T) → (T → S → S) → M T A → M S A
zoom get put m s = map_state (λ t. put t s) (m (get s))

-- A step that returns is followed by the rest.
pub bind-done :
    {S A B : Type 0} (m : M S A) (f : A → M S B) (s : S) {a : A} {s' : S}
    → m s ≡ done a s'
    → (m >>= f) s ≡ f a s'
bind-done m f s e = rw (e, ◌>>=◌)

-- An exception ends the block.
pub bind-thrown :
    {S A B : Type 0} (m : M S A) (f : A → M S B) (s : S) {x : Thrown} {s' : S}
    → m s ≡ thrown x s'
    → (m >>= f) s ≡ thrown x s'
bind-thrown m f s e = rw (e, ◌>>=◌)

pub bind-blocked :
    {S A B : Type 0} (m : M S A) (f : A → M S B) (s : S) {s' : S}
    → m s ≡ blocked s'
    → (m >>= f) s ≡ blocked s'
bind-blocked m f s e = rw (e, ◌>>=◌)

-- Steps that end alike do so before the same rest.
pub bind-same :
    {S A B : Type 0} (m m' : M S A) (f : A → M S B) (s : S)
    → m s ≡ m' s
    → (m >>= f) s ≡ (m' >>= f) s
bind-same m m' f s e = rw (e, ◌>>=◌)

pub finally-blocked :
    {S A : Type 0} (m : M S A) (f : S → S) (s : S) {s' : S}
    → m s ≡ blocked s'
    → finally m f s ≡ blocked s'
finally-blocked m f s e = rw (e, finally)

pub zoom-done :
    {S T A : Type 0} (get : S → T) (put : T → S → S) (m : M T A) (s : S) {a : A} {t : T}
    → m (get s) ≡ done a t
    → zoom get put m s ≡ done a (put t s)
zoom-done get put m s e = ap (map_state (λ t. put t s)) e

-- A call that returns does so with `P`, and one that throws leaves `X`. It never runs out of fuel
-- or into undefined behaviour, and waits for ever only where `W` holds: with ⊥ for `W`, never.
abbrev pub Exits : {S A : Type 0} → Type 0 → (A → S → Type 0) → (S → Type 0) → Outcome S A → Type 0
Exits W P X (done a s) = P a s
Exits W P X (thrown e s) = X s
Exits W P X (blocked s) = W
Exits W P X (undefined s) = ⊥
Exits W P X (out_of_fuel s) = ⊥

pub Exits-bind :
    {S A B : Type 0} (W : Type 0) (P : A → S → Type 0) (Q : B → S → Type 0) (X : S → Type 0)
    (m : M S A) (f : A → M S B) (s : S)
    → Exits W P X (m s)
    → ((a : A) (s' : S) → P a s' → Exits W Q X (f a s'))
    → Exits W Q X ((m >>= f) s)
Exits-bind {S} {A} {B} W P Q X m f s h k = go (m s) h
  where
    go :
        (o : Outcome S A)
        → Exits W P X o
        → Exits W Q X (elim o [
          | done a s' ↦ f a s'
          | thrown e s' ↦ thrown e s'
          | blocked s' ↦ blocked s'
          | undefined s' ↦ undefined s'
          | out_of_fuel s' ↦ out_of_fuel s'
        ])
    go (done a s') h = k a s' h
    go (thrown e s') h = h
    go (blocked s') h = h
    go (undefined s') h = h
    go (out_of_fuel s') h = h

pub Exits-finally :
    {S A : Type 0} (W : Type 0) (P : A → S → Type 0) (X : S → Type 0) (m : M S A) (f : S → S)
    (s : S)
    → Exits W (λ a s'. P a (f s')) (λ s'. X (f s')) (m s)
    → Exits W P X (finally m f s)
Exits-finally {S} {A} W P X m f s h = go (m s) h
  where
    go :
        (o : Outcome S A)
        → Exits W (λ a s'. P a (f s')) (λ s'. X (f s')) o
        → Exits W P X (elim o [
          | done a s' ↦ done a (f s')
          | thrown e s' ↦ thrown e (f s')
          | blocked s' ↦ blocked s'
          | undefined s' ↦ undefined s'
          | out_of_fuel s' ↦ out_of_fuel s'
        ])
    go (done a s') h = h
    go (thrown e s') h = h
    go (blocked s') h = h
    go (undefined s') h = h
    go (out_of_fuel s') h = h

pub Exits-zoom :
    {S T A : Type 0} (W : Type 0) (P : A → S → Type 0) (X : S → Type 0) (get : S → T)
    (put : T → S → S) (m : M T A) (s : S)
    → Exits W (λ a t. P a (put t s)) (λ t. X (put t s)) (m (get s))
    → Exits W P X (zoom get put m s)
Exits-zoom {S} {T} {A} W P X get put m s h = go (m (get s)) h
  where
    go :
        (o : Outcome T A)
        → Exits W (λ a t. P a (put t s)) (λ t. X (put t s)) o
        → Exits W P X (map_state (λ t. put t s) o)
    go (done a s') h = h
    go (thrown e s') h = h
    go (blocked s') h = h
    go (undefined s') h = h
    go (out_of_fuel s') h = h

pub Exits-map :
    {S A : Type 0} (W : Type 0) (P Q : A → S → Type 0) (X Y : S → Type 0) (o : Outcome S A)
    → ((a : A) (s : S) → P a s → Q a s)
    → ((s : S) → X s → Y s)
    → Exits W P X o
    → Exits W Q Y o
Exits-map W P Q X Y (done a s) f g h = f a s h
Exits-map W P Q X Y (thrown e s) f g h = g s h
Exits-map W P Q X Y (blocked s) f g h = h
Exits-map W P Q X Y (undefined s) f g h = h
Exits-map W P Q X Y (out_of_fuel s) f g h = h

-- A weaker condition for a wait.
pub Exits-wait :
    {S A : Type 0} (V W : Type 0) (P : A → S → Type 0) (X : S → Type 0) (o : Outcome S A)
    → (V → W)
    → Exits V P X o
    → Exits W P X o
Exits-wait V W P X (done a s) f h = h
Exits-wait V W P X (thrown e s) f h = h
Exits-wait V W P X (blocked s) f h = f h
Exits-wait V W P X (undefined s) f h = h
Exits-wait V W P X (out_of_fuel s) f h = h

-- A call that is known to have returned has done so as promised.
pub Exits-done :
    {S A : Type 0} (W : Type 0) (P : A → S → Type 0) (X : S → Type 0) (o : Outcome S A) {a : A}
    {s : S}
    → o ≡ done a s
    → Exits W P X o
    → P a s
Exits-done W P X o e h = subst (Exits W P X) e h

pub Exits-thrown :
    {S A : Type 0} (W : Type 0) (P : A → S → Type 0) (X : S → Type 0) (o : Outcome S A) {x : Thrown}
    {s : S}
    → o ≡ thrown x s
    → Exits W P X o
    → X s
Exits-thrown W P X o e h = subst (Exits W P X) e h

-- A call that neither waits nor throws returns.
pub Exits-returns :
    {S A : Type 0} (W : Type 0) (P : A → S → Type 0) (X : S → Type 0) (o : Outcome S A)
    → ¬ W
    → ((s : S) → ¬ X s)
    → Exits W P X o
    → (a : A) × (s : S) × (o ≡ done a s) × P a s
Exits-returns W P X (done a s) no_wait no_throw h = (a, s, refl, h)
Exits-returns W P X (thrown e s) no_wait no_throw h = absurd (no_throw s h)
Exits-returns W P X (blocked s) no_wait no_throw h = absurd (no_wait h)
Exits-returns W P X (undefined s) no_wait no_throw h = absurd h
Exits-returns W P X (out_of_fuel s) no_wait no_throw h = absurd h
