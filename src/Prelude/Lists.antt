-- ===== src/Prelude/Lists.antt =====
-- Lists measured and indexed by native numbers, under the library's names, and the `Option` monad.
use Prim.Native.Nat.{ℕ, zero, suc, ◌+◌, ◌≤◌}
use mathlib.Core.Logic.{◌≢◌, inl, inr}
use mathlib.Core.Path.{◌≡◌, refl}
use mathlib.Core.Bool.{Bool, true, false, ◌&&◌}
use mathlib.Core.List.{List, [], ◌∷◌, ◌++◌}
use mathlib.Core.Option.{Option, none, some}
use native.Mathlib.Omega.{arith}
use gwsockets.Prelude.Tests.{indicator, Bool-cases}

infixl 5 ◌>>=◌
abbrev pub ◌>>=◌ {ℓ κ} : {A : Type ℓ} {B : Type κ} → Option A → (A → Option B) → Option B
none >>= f = none
some a >>= f = f a

module _ {ℓ} {A : Type ℓ} where
  abbrev pub length : List A → ℕ
  length [] = 0
  length (x ∷ xs) = suc (length xs)

  abbrev pub get_elem? : List A → ℕ → Option A
  get_elem? [] i = none
  get_elem? (x ∷ xs) zero = some x
  get_elem? (x ∷ xs) (suc i) = get_elem? xs i

  -- The list without the element at a position.
  abbrev pub erase_idx : List A → ℕ → List A
  erase_idx [] i = []
  erase_idx (x ∷ xs) zero = xs
  erase_idx (x ∷ xs) (suc i) = x ∷ erase_idx xs i

  abbrev pub drop : ℕ → List A → List A
  drop zero xs = xs
  drop (suc n) [] = []
  drop (suc n) (x ∷ xs) = drop n xs

  abbrev pub take : ℕ → List A → List A
  take zero xs = []
  take (suc n) [] = []
  take (suc n) (x ∷ xs) = x ∷ take n xs

  -- `std::all_of` over the whole range.
  abbrev pub all : (A → Bool) → List A → Bool
  all p [] = true
  all p (x ∷ xs) = p x && all p xs

  abbrev pub is_empty : List A → Bool
  is_empty [] = true
  is_empty (x ∷ xs) = false

  pub length-append : (xs ys : List A) → length (xs ++ ys) ≡ length xs + length ys
  length-append [] ys = omega arith
  length-append (x ∷ xs) ys = omega (arith, length-append xs ys)

  -- How many elements pass a test.
  pub count : (A → Bool) → List A → ℕ
  count p [] = 0
  count p (x ∷ xs) = indicator (p x) + count p xs

  pub count-append : (p : A → Bool) (xs ys : List A) → count p (xs ++ ys) ≡ count p xs + count p ys
  unfolding count
  count-append p [] ys = omega arith
  count-append p (x ∷ xs) ys = omega (arith, count-append p xs ys)

  pub count-snoc :
      (p : A → Bool) (xs : List A) (x : A) → count p (xs ++ x ∷ []) ≡ count p xs + indicator (p x)
  unfolding count
  count-snoc p xs x = omega (arith, count-append p xs (x ∷ []))

  -- Taking one element out.
  pub count-erase_idx :
      (p : A → Bool) (xs : List A) (i : ℕ) (x : A)
      → get_elem? xs i ≡ some x
      → count p xs ≡ indicator (p x) + count p (erase_idx xs i)
  unfolding count
  count-erase_idx p [] i x e = ground arith
  count-erase_idx p (y ∷ xs) zero x e = ground arith
  count-erase_idx p (y ∷ xs) (suc i) x e = omega (arith, count-erase_idx p xs i x e)

  -- A test that only passes where another one does counts no more than 0 if that one does.
  pub count-eq-zero :
      (p q : A → Bool)
      → ((x : A) → q x ≡ true → p x ≡ true)
      → (xs : List A) → count p xs ≡ 0
      → count q xs ≡ 0
  unfolding count
  count-eq-zero p q imp [] h = refl
  count-eq-zero p q imp (x ∷ xs) h = ground (arith, imp x, count-eq-zero p q imp xs)

  -- Where no element passes the one test, all pass another.
  pub all-count :
      (p q : A → Bool)
      → ((x : A) → p x ≡ false → q x ≡ true)
      → (xs : List A) → count p xs ≡ 0
      → all q xs ≡ true
  unfolding count
  all-count p q imp [] h = refl
  all-count p q imp (x ∷ xs) h = ground (arith, imp x, all-count p q imp xs)

  pub count-nil : (p : A → Bool) → count p [] ≡ 0
  unfolding count
  count-nil p = refl

-- What holds of the result, if there is one.
abbrev pub Post {ℓ} : {A : Type ℓ} → (A → Type 0) → Option A → Type 0
Post P none = Unit {0}
Post P (some a) = P a

pub Post-bind {ℓ κ} :
    {A : Type ℓ} {B : Type κ} (P : A → Type 0) (Q : B → Type 0) (m : Option A) (f : A → Option B)
    → Post P m
    → ((a : A) → P a → Post Q (f a))
    → Post Q (m >>= f)
Post-bind P Q none f h k = tt
Post-bind P Q (some a) f h k = k a h

-- The same, with the equation of the first result.
pub Post->>= {ℓ κ} :
    {A : Type ℓ} {B : Type κ} (Q : B → Type 0) (m : Option A) (f : A → Option B)
    → ((a : A) → m ≡ some a → Post Q (f a))
    → Post Q (m >>= f)
Post->>= Q none f k = tt
Post->>= Q (some a) f k = k a refl

pub Post-map {ℓ} :
    {A : Type ℓ} {P Q : A → Type 0} (m : Option A) → ((a : A) → P a → Q a) → Post P m → Post Q m
Post-map none f h = tt
Post-map (some a) f h = f a h

-- Two computations that have results, the second whatever the first leaves.
pub bind-ne-none {ℓ κ} :
    {A : Type ℓ} {B : Type κ} (P : A → Type 0) (m : Option A) (f : A → Option B)
    → Post P m
    → m ≢ none
    → ((a : A) → m ≡ some a → P a → f a ≢ none)
    → (m >>= f) ≢ none
bind-ne-none P none f h t k = λ e. absurd (t refl)
bind-ne-none P (some a) f h t k = k a refl h

-- A count of one at least finds an element that passes.
pub exists_of_count {ℓ} :
    {A : Type ℓ} (p : A → Bool) (xs : List A)
    → 1 ≤ count p xs
    → (i : ℕ) × (x : A) × (get_elem? xs i ≡ some x) × (p x ≡ true)
unfolding count
exists_of_count p [] h = absurd (omega arith)
exists_of_count p (x ∷ xs) h = elim (Bool-cases (p x)) [
  | inl e ↦ (0, x, refl, e)
  | inr e ↦ let (i, found, at, now) = exists_of_count p xs (ground arith) in (suc i, found, at, now)
]
