-- ===== src/Lua/Addresses.antt =====
-- src/GLua.cpp: lemmas on collections of addresses.
use gwsockets.Prelude.{
  ℕ, ltb, ◌+◌, ◌≤◌, ◌≡◌, refl, ◌⊎◌, subst, Bool, true, false, not, ◌&&◌, ◌||◌, ◌==◌, List, [], ◌∷◌,
  ◌++◌, Option, none, some, arith, Post, Bool-cases, inl, inr, if◌then◌else◌, ==_iff,
}
use gwsockets.Lua.Registry.{find, update, erase, is_member, insert}
use gwsockets.Lua.Think.{remove}

-- A test, and a look at an optional value, between two results that both keep a property.
pub Post-branch {ℓ} :
    {B : Type ℓ} (Q : B → Type 0) (b : Bool) (x y : Option B)
    → Post Q x
    → Post Q y
    → Post Q (if b then x else y)
Post-branch Q true x y h h' = h
Post-branch Q false x y h h' = h'

-- The same, with what the test says.
pub Post-test {ℓ} :
    {B : Type ℓ} (Q : B → Type 0) (b : Bool) (x y : Option B)
    → (b ≡ true → Post Q x)
    → (b ≡ false → Post Q y)
    → Post Q (if b then x else y)
Post-test Q true x y h h' = h refl
Post-test Q false x y h h' = h' refl

pub Post-option {ℓ κ} :
    {A : Type ℓ} {B : Type κ} (Q : B → Type 0) (o : Option A) (x : Option B) (f : A → Option B)
    → Post Q x
    → ((a : A) → o ≡ some a → Post Q (f a))
    → Post Q (elim o [ none ↦ x | some a ↦ f a ])
Post-option Q none x f h k = h
Post-option Q (some a) x f h k = k a refl

-- Whether there is something at an address.
abbrev pub present {ℓ} : {A : Type ℓ} → Option A → Bool
present none = false
present (some a) = true

-- An address above all that are taken.
abbrev pub above {ℓ} : {A : Type ℓ} → List (ℕ × A) → ℕ
above [] = 1
above ((q, a) ∷ l) = let rest = above l in if ltb q rest then rest else q + 1

pub find-above {ℓ} : {A : Type ℓ} (p : ℕ) (l : List (ℕ × A)) → above l ≤ p → find p l ≡ none
unfolding find
find-above p [] h = refl
find-above p ((q, a) ∷ l) h = ground (arith, find-above p l, ==_iff q p)

module _ {ℓ} {A : Type ℓ} (p q : ℕ) where
  pub present-update :
      (a : A) (l : List (ℕ × A)) → present (find q (update p a l)) ≡ present (find q l)
  unfolding find update
  present-update a [] = refl
  present-update a ((r, b) ∷ l) = ground (arith, present-update a l)

  pub present-erase :
      (l : List (ℕ × A)) → present (find q (erase p l)) ≡ (not (q == p) && present (find q l))
  unfolding find erase
  present-erase [] = ground arith
  present-erase ((r, b) ∷ l) = ground (arith, present-erase l)

  pub present-snoc :
      (a : A) (l : List (ℕ × A))
      → present (find q (l ++ (p, a) ∷ [])) ≡ (present (find q l) || (p == q))
  unfolding find
  present-snoc a [] = ground arith
  present-snoc a ((r, b) ∷ l) = ground (arith, present-snoc a l)

-- Where an object comes from that is found after a change.
module _ {ℓ} {A : Type ℓ} (p q : ℕ) (b : A) where
  pub find-update :
      (a : A) (l : List (ℕ × A))
      → find q (update p a l) ≡ some b
      → ((q ≡ p) × (b ≡ a)) ⊎ (find q l ≡ some b)
  unfolding find update
  find-update a [] e = absurd (ground arith)
  find-update a ((r, c) ∷ l) e = ground (arith, find-update a l)

  pub find-erase :
      (l : List (ℕ × A)) → find q (erase p l) ≡ some b → ((q == p) ≡ false) × (find q l ≡ some b)
  unfolding find erase
  find-erase [] e = absurd (ground arith)
  find-erase ((r, c) ∷ l) e = ground (arith, find-erase l)

  pub find-snoc :
      (a : A) (l : List (ℕ × A))
      → find q (l ++ (p, a) ∷ []) ≡ some b
      → ((q ≡ p) × (b ≡ a)) ⊎ (find q l ≡ some b)
  unfolding find
  find-snoc a [] e = ground arith
  find-snoc a ((r, c) ∷ l) e = ground (arith, find-snoc a l)

-- What becomes of an object after a change.
module _ {ℓ} {A : Type ℓ} (p q : ℕ) (b : A) where
  pub find_updated :
      (a : A) (l : List (ℕ × A))
      → find q l ≡ some b
      → find q (update p a l) ≡ some (if q == p then a else b)
  unfolding find update
  find_updated a [] e = absurd (ground arith)
  find_updated a ((r, c) ∷ l) e = ground (arith, find_updated a l)

  pub find_kept :
      (l : List (ℕ × A)) → find q l ≡ some b → (q == p) ≡ false → find q (erase p l) ≡ some b
  unfolding find erase
  find_kept [] e d = absurd (ground arith)
  find_kept ((r, c) ∷ l) e d = ground (arith, find_kept l)

  pub find_before :
      (a : A) (l : List (ℕ × A)) → find q l ≡ some b → find q (l ++ (p, a) ∷ []) ≡ some b
  unfolding find
  find_before a [] e = absurd (ground arith)
  find_before a ((r, c) ∷ l) e = ground (arith, find_before a l)

pub is_member-remove :
    (p q : ℕ) (l : List ℕ) → is_member q (remove p l) ≡ (not (q == p) && is_member q l)
unfolding is_member
is_member-remove p q [] = ground arith
is_member-remove p q (r ∷ l) = ground (arith, is_member-remove p q l)

pub is_member-snoc :
    (p q : ℕ) (l : List ℕ) → is_member q (l ++ p ∷ []) ≡ (is_member q l || (p == q))
unfolding is_member
is_member-snoc p q [] = ground arith
is_member-snoc p q (r ∷ l) = ground (arith, is_member-snoc p q l)

pub is_member-insert :
    (p q : ℕ) (l : List ℕ) → is_member q (insert p l) ≡ (is_member q l || (p == q))
unfolding insert
is_member-insert p q l = elim (Bool-cases (is_member p l)) [
  | inl e ↦ rw e (elim (Bool-cases (p == q)) [
    | inl s ↦ rw (s, ← (==_iff p q).0 s, e) refl
    | inr d ↦ ground arith
  ])
  | inr e ↦ rw e (is_member-snoc p q l)
]

abbrev pub distinct : List ℕ → Bool
distinct [] = true
distinct (p ∷ l) = not (is_member p l) && distinct l

pub distinct-snoc :
    (p : ℕ) (l : List ℕ) → is_member p l ≡ false → distinct l ≡ true → distinct (l ++ p ∷ []) ≡ true
unfolding is_member
distinct-snoc p [] e d = refl
distinct-snoc p (q ∷ l) e d = ground (arith, distinct-snoc p l, is_member-snoc p q l)

pub distinct-insert : (p : ℕ) (l : List ℕ) → distinct l ≡ true → distinct (insert p l) ≡ true
unfolding insert
distinct-insert p l d = elim (Bool-cases (is_member p l)) [
  | inl e ↦ rw e d
  | inr e ↦ rw e (distinct-snoc p l e d)
]

pub distinct-remove : (p : ℕ) (l : List ℕ) → distinct l ≡ true → distinct (remove p l) ≡ true
distinct-remove p [] d = refl
distinct-remove p (q ∷ l) d = ground (arith, distinct-remove p l, is_member-remove p q l)

pub not_among :
    (p q : ℕ) (l : List ℕ) → is_member p l ≡ false → is_member q l ≡ true → (q == p) ≡ false
not_among p q l e e' = elim (Bool-cases (q == p)) [
  | inl same ↦ absurd (ground (arith, subst (λ k. is_member k l ≡ true) ((==_iff q p).0 same) e'))
  | inr other ↦ other
]
