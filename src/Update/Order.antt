-- ===== src/Update/Order.antt =====
-- src/UpdateChecker.h: `compareVersions` is an order.
use gwsockets.Prelude.{
  ℕ, zero, suc, ◌+◌, ◌≡◌, ◌≢◌, ◌≤◌, ◌<◌, refl, sym, subst, ◌∙◌, inl, inr, true, false, not, ◌==◌,
  List, [], ◌∷◌, length, Bytes, arith, Bool-cases, if◌then◌else◌,
}
use gwsockets.Update.{
  ℤ, pos, negsuc, same_int, less_int, max, at, compare_from, compare_lists, split_versions,
  compare_versions,
}

-- The result for the arguments in the other order.
abbrev pub opposite : ℤ → ℤ
opposite (pos zero) = pos 0
opposite (pos (suc n)) = negsuc n
opposite (negsuc n) = pos (suc n)

module _ (a b c : ℤ) where
  same_sym : same_int a b ≡ same_int b a
  same_sym = ground arith

  less_asym : same_int a b ≡ false → less_int b a ≡ not (less_int a b)
  less_asym h = ground arith

  same_eq : same_int a b ≡ true → a ≡ b
  same_eq h = ground arith

  less_trans :
      less_int a b ≡ true → less_int b c ≡ true → (less_int a c ≡ true) × (same_int a c ≡ false)
  less_trans h h' = ground arith

  less_different : less_int a b ≡ true → same_int a b ≡ false
  less_different h = ground arith

compare_from-opposite :
    (n i : ℕ) (l r : List ℤ) → compare_from n i r l ≡ opposite (compare_from n i l r)
unfolding compare_from
compare_from-opposite zero i l r = refl
compare_from-opposite (suc n) i l r = ground (
  arith,
  compare_from-opposite n (i + 1) l r,
  same_sym (at l i) (at r i) (pos 0),
  less_asym (at l i) (at r i) (pos 0),
)

at_beyond : (l : List ℤ) (i : ℕ) → length l ≤ i → at l i ≡ pos 0
unfolding at
at_beyond [] i h = refl
at_beyond (x ∷ l) zero h = absurd (omega arith)
at_beyond (x ∷ l) (suc i) h = at_beyond l i (omega arith)

compare_beyond :
    (n i : ℕ) (l r : List ℤ) → length l ≤ i → length r ≤ i → compare_from n i l r ≡ pos 0
unfolding compare_from
compare_beyond zero i l r h h' = refl
compare_beyond (suc n) i l r h h' =
    rw (at_beyond l i h, at_beyond r i h')
      (compare_beyond n (i + 1) l r (omega arith) (omega arith))

-- More rounds than elements change nothing.
compare_longer :
    (m n i : ℕ) (l r : List ℤ)
    → n ≤ m
    → length l ≤ i + n
    → length r ≤ i + n
    → compare_from m i l r ≡ compare_from n i l r
unfolding compare_from
compare_longer m zero i l r h p q = compare_beyond m i l r (omega arith) (omega arith)
compare_longer zero (suc n) i l r h p q = absurd (omega arith)
compare_longer (suc m) (suc n) i l r h p q =
    rw (compare_longer m n (i + 1) l r (omega arith) (omega arith) (omega arith)) refl

compare_from_trans :
    (n i : ℕ) (a b c : List ℤ)
    → compare_from n i a b ≢ pos 1
    → compare_from n i b c ≢ pos 1
    → compare_from n i a c ≢ pos 1
unfolding compare_from
compare_from_trans zero i a b c h h' = h
compare_from_trans (suc n) i a b c h h' =
    trans_step (at a i) (at b i) (at c i) _ _ _ (compare_from_trans n (i + 1) a b c) h h'
  where
    trans_step :
        (x y z p q r : ℤ)
        → (p ≢ pos 1 → q ≢ pos 1 → r ≢ pos 1)
        → (if not (same_int x y) then (if less_int x y then negsuc 0 else pos 1) else p) ≢ pos 1
        → (if not (same_int y z) then (if less_int y z then negsuc 0 else pos 1) else q) ≢ pos 1
        → (if not (same_int x z) then (if less_int x z then negsuc 0 else pos 1) else r) ≢ pos 1
    trans_step x y z p q r later h h' = ground arith

compare_lists-longer :
    (m : ℕ) (l r : List ℤ) → length l ≤ m → length r ≤ m → compare_from m 0 l r ≡ compare_lists l r
unfolding compare_lists
compare_lists-longer m l r h h' =
    compare_longer m (max (length l) (length r)) 0 l r (ground arith) (ground arith) (ground arith)

compare_lists_trans :
    (a b c : List ℤ)
    → compare_lists a b ≢ pos 1
    → compare_lists b c ≢ pos 1
    → compare_lists a c ≢ pos 1
compare_lists_trans a b c h h' = rw (← compare_lists-longer n a c (omega arith) (omega arith)) (
    compare_from_trans n 0 a b c (rw (compare_lists-longer n a b (omega arith) (omega arith)) h)
      (rw (compare_lists-longer n b c (omega arith) (omega arith)) h'))
  where
    n : ℕ
    n = length a + (length b + length c)

compare_versions-opposite :
    (width : ℕ) (left right : Bytes)
    → compare_versions width right left ≡ opposite (compare_versions width left right)
unfolding compare_versions compare_lists
compare_versions-opposite width left right =
    rw (max_comm (length (split_versions width right)) (length (split_versions width left)))
      (compare_from-opposite _ 0 (split_versions width left) (split_versions width right))
  where
    max_comm : (m n : ℕ) → max m n ≡ max n m
    max_comm m n = ground arith

compare_versions_trans :
    (width : ℕ) (first second third : Bytes)
    → compare_versions width first second ≢ pos 1
    → compare_versions width second third ≢ pos 1
    → compare_versions width first third ≢ pos 1
unfolding compare_versions
compare_versions_trans width first second third h h' =
    compare_lists_trans (split_versions width first) (split_versions width second)
      (split_versions width third) h h'

zero_step :
    (x y p : ℤ)
    → (if not (same_int x y) then (if less_int x y then negsuc 0 else pos 1) else p) ≡ pos 0
    → (x ≡ y) × (p ≡ pos 0)
zero_step x y p h = ground arith

compare_from_zero :
    (n i : ℕ) (l r : List ℤ)
    → compare_from n i l r ≡ pos 0
    → (j : ℕ) → i ≤ j
    → j < i + n
    → at l j ≡ at r j
unfolding compare_from
compare_from_zero zero i l r h j low high = absurd (omega arith)
compare_from_zero (suc n) i l r h j low high = elim (Bool-cases (i == j)) [
  | inl e ↦ subst (λ k. at l k ≡ at r k) (ground arith) (zero_step (at l i) (at r i) _ h).0
  | inr e ↦
      compare_from_zero n (i + 1) l r (zero_step (at l i) (at r i) _ h).1 j (ground arith)
        (omega arith)
]

compare_versions_zero :
    (width : ℕ) (left right : Bytes)
    → compare_versions width left right ≡ pos 0
    → (i : ℕ) → at (split_versions width left) i ≡ at (split_versions width right) i
unfolding compare_versions
compare_versions_zero width left right h i =
    compare_from_zero n 0 l r (compare_lists-longer n l r (omega arith) (omega arith) ∙ h) i
      (omega arith) (omega arith)
  where
    l : List ℤ
    l = split_versions width left

    r : List ℤ
    r = split_versions width right

    n : ℕ
    n = length l + length r + i + 1

compare_from_first :
    (n i j : ℕ) (l r : List ℤ)
    → i ≤ j
    → j < i + n
    → ((k : ℕ) → k < j → at l k ≡ at r k)
    → less_int (at l j) (at r j) ≡ true
    → compare_from n i l r ≡ negsuc 0
unfolding compare_from
compare_from_first zero i j l r low high same less = absurd (omega arith)
compare_from_first (suc n) i j l r low high same less = elim (Bool-cases (i == j)) [
  | inl e ↦
      let there : less_int (at l i) (at r i) ≡ true =
        subst (λ k. less_int (at l k) (at r k) ≡ true) (ground arith) less in
      rw (less_different (at l i) (at r i) (pos 0) there, there) refl
  | inr e ↦ rw (same i (ground arith)) (
      same_step (at r i) _
        (compare_from_first n (i + 1) j l r (ground arith) (omega arith) same less))
]
  where
    same_step :
        (x p : ℤ)
        → p ≡ negsuc 0
        → (if not (same_int x x) then (if less_int x x then negsuc 0 else pos 1) else p) ≡ negsuc 0
    same_step x p h = ground arith

compare_versions_first :
    (width : ℕ) (left right : Bytes) (i : ℕ)
    → ((k : ℕ) → k < i → at (split_versions width left) k ≡ at (split_versions width right) k)
    → less_int (at (split_versions width left) i) (at (split_versions width right) i) ≡ true
    → compare_versions width left right ≡ negsuc 0
unfolding compare_versions
compare_versions_first width left right i same less =
    sym (compare_lists-longer n l r (omega arith) (omega arith))
    ∙ compare_from_first n 0 i l r (omega arith) (omega arith) same less
  where
    l : List ℤ
    l = split_versions width left

    r : List ℤ
    r = split_versions width right

    n : ℕ
    n = length l + length r + i + 1

-- The comparison is the lexicographic order of the numbers of the versions, where a missing place counts
-- as 0: the version with the smaller number at the first place where they differ is the older one, and
-- the result is -1 if that is the left one; with the arguments exchanged the result is the opposite;
-- what is not newer than a second version is not newer than a third that the second is not newer than;
-- and two versions that compare as equal have the same number at each place.
pub compare_versions_order :
    (width : ℕ)
    → ((left right : Bytes) (i : ℕ)
        → ((k : ℕ) → k < i → at (split_versions width left) k ≡ at (split_versions width right) k)
        → less_int (at (split_versions width left) i) (at (split_versions width right) i) ≡ true
        → compare_versions width left right ≡ negsuc 0)
      × ((left right : Bytes)
          → compare_versions width right left ≡ opposite (compare_versions width left right))
      × ((first second third : Bytes)
          → compare_versions width first second ≢ pos 1
          → compare_versions width second third ≢ pos 1
          → compare_versions width first third ≢ pos 1)
      × ((left right : Bytes)
          → compare_versions width left right ≡ pos 0
          → (i : ℕ) → at (split_versions width left) i ≡ at (split_versions width right) i)
compare_versions_order width = (
  compare_versions_first width,
  compare_versions-opposite width,
  compare_versions_trans width,
  compare_versions_zero width,
)
