-- ===== src/Queue/Search.antt =====
-- src/BlockingQueue.h: the three methods that look for an element.
use gwsockets.Prelude.{
  ℕ, zero, suc, ◌+◌, ◌<◌, ◌≤◌, ◌≡◌, refl, sym, ap, ◌∙◌, length-append, ◌⊎◌, inl, inr, Bool, true,
  false, none, some, List, [], ◌∷◌, ◌++◌, length, erase_idx, drop, get_elem?, ◌==◌, arith,
  Bool-cases, all, not,
}
use gwsockets.Queue.{
  BlockingQueue, find_if, iter_swap, swap_to_front_if, remove_if, kept, remove, write_at,
}

module _ {ℓ} {A : Type ℓ} where
  -- The first match behind a list without one.
  find_if-append :
      (func : A → Bool) (xs : List A) (y : A) (zs : List A)
      → all (λ x. not (func x)) xs ≡ true
      → func y ≡ true
      → find_if func (xs ++ y ∷ zs) ≡ length xs
  unfolding find_if
  find_if-append func [] y zs none_before h = ground arith
  find_if-append func (x ∷ xs) y zs none_before h = ground (arith, find_if-append func xs y zs)

  erase_idx-append :
      (xs : List A) (y : A) (zs : List A) → erase_idx (xs ++ y ∷ zs) (length xs) ≡ xs ++ zs
  erase_idx-append [] y zs = refl
  erase_idx-append (x ∷ xs) y zs = ap (◌∷◌ x) (erase_idx-append xs y zs)

  length-middle : (xs : List A) (y : A) (zs : List A) → length xs < length (xs ++ y ∷ zs)
  length-middle [] y zs = omega arith
  length-middle (x ∷ xs) y zs = omega (arith, length-middle xs y zs)

  find_if_none :
      (func : A → Bool) (xs : List A)
      → all (λ x. not (func x)) xs ≡ true
      → find_if func xs ≡ length xs
  unfolding find_if
  find_if_none func [] h = refl
  find_if_none func (x ∷ xs) h = ground (arith, find_if_none func xs)

  remove_if_behind :
      (func : A → Bool) (x : A) (xs : List A) (y : A) (zs : List A)
      → all (λ z. not (func z)) (x ∷ xs) ≡ true
      → func y ≡ true
      → remove_if func (record { backing_queue = x ∷ xs ++ y ∷ zs })
        ≡ (record { backing_queue = x ∷ xs ++ zs }, true)
  unfolding remove_if
  remove_if_behind func x xs y zs none_before h =
      rw (find_if-append func (x ∷ xs) y zs none_before h)
        (ground (arith, length-middle (x ∷ xs) y zs, erase_idx-append xs y zs))

  remove_if_front :
      (func : A → Bool) (y : A) (zs : List A)
      → func y ≡ true
      → remove_if func (record { backing_queue = y ∷ zs })
        ≡ (record { backing_queue = y ∷ zs }, false)
  unfolding remove_if find_if
  remove_if_front func y zs h = ground arith

  remove_if_none :
      (func : A → Bool) (xs : List A)
      → all (λ z. not (func z)) xs ≡ true
      → remove_if func (record { backing_queue = xs }) ≡ (record { backing_queue = xs }, false)
  unfolding remove_if
  remove_if_none func xs h = rw (find_if_none func xs h) (ground arith)

  -- A list has no match, or a first one.
  first_match :
      (func : A → Bool) (xs : List A)
      → (all (λ z. not (func z)) xs ≡ true)
        ⊎ ((before : List A) × (y : A) × (zs : List A) × (xs ≡ before ++ y ∷ zs)
            × (all (λ z. not (func z)) before ≡ true)
            × (func y ≡ true))
  first_match func [] = inl refl
  first_match func (x ∷ xs) = elim (Bool-cases (func x)) [
    | inl e ↦ inr ([], x, xs, refl, refl, e)
    | inr e ↦ elim (first_match func xs) [
      | inl h ↦ inl (ground arith)
      | inr (before, y, zs, q, h, k) ↦ inr (x ∷ before, y, zs, ap (◌∷◌ x) q, ground arith, k)
    ]
  ]

  -- `remove_if` takes the first match out and returns true if it is behind the front. If nothing
  -- matches, and also if the front matches, whatever else does, the queue stays and the result is false.
  pub remove_if_lem :
      (func : A → Bool) (queue : List A)
      → ((remove_if func (record { backing_queue = queue })
            ≡ (record { backing_queue = queue }, false))
          × ((all (λ z. not (func z)) queue ≡ true)
              ⊎ ((y : A) × (zs : List A) × (queue ≡ y ∷ zs) × (func y ≡ true))))
        ⊎ ((x : A) × (xs : List A) × (y : A) × (zs : List A) × (queue ≡ x ∷ xs ++ y ∷ zs)
            × (all (λ z. not (func z)) (x ∷ xs) ≡ true)
            × (func y ≡ true)
            × (remove_if func (record { backing_queue = queue })
                ≡ (record { backing_queue = x ∷ xs ++ zs }, true)))
  remove_if_lem func queue = elim (first_match func queue) [
    | inl h ↦ inl (remove_if_none func queue h, inl h)
    | inr ([], y, zs, q, h, k) ↦ inl (rw q (remove_if_front func y zs k), inr (y, zs, q, k))
    | inr (x ∷ xs, y, zs, q, h, k) ↦
        inr (x, xs, y, zs, q, h, k, rw q (remove_if_behind func x xs y zs h k))
  ]

  write_at-append :
      (xs : List A) (y v : A) (zs : List A) → write_at (xs ++ y ∷ zs) (length xs) v ≡ xs ++ v ∷ zs
  unfolding write_at
  write_at-append [] y v zs = refl
  write_at-append (x ∷ xs) y v zs = ap (◌∷◌ x) (write_at-append xs y v zs)

  get_elem?-append :
      (xs : List A) (y : A) (zs : List A) → get_elem? (xs ++ y ∷ zs) (length xs) ≡ some y
  get_elem?-append [] y zs = refl
  get_elem?-append (x ∷ xs) y zs = get_elem?-append xs y zs

  iter_swap-append :
      (x : A) (xs : List A) (y : A) (zs : List A)
      → iter_swap (x ∷ xs ++ y ∷ zs) (suc (length xs)) ≡ y ∷ xs ++ x ∷ zs
  unfolding iter_swap
  iter_swap-append x xs y zs =
      rw (get_elem?-append xs y zs, iter_swap) (ap (◌∷◌ y) (write_at-append xs y x zs))

  -- `swap_to_front_if` exchanges the first match with the front and returns true, provided that
  -- the match is not the front itself; every other element keeps its place.
  pub swap_to_front_if_behind :
      (func : A → Bool) (x : A) (xs : List A) (y : A) (zs : List A)
      → all (λ z. not (func z)) (x ∷ xs) ≡ true
      → func y ≡ true
      → swap_to_front_if func (record { backing_queue = x ∷ xs ++ y ∷ zs })
        ≡ (record { backing_queue = y ∷ xs ++ x ∷ zs }, true)
  unfolding swap_to_front_if
  swap_to_front_if_behind func x xs y zs none_before h =
      rw (find_if-append func (x ∷ xs) y zs none_before h)
        (ground (arith, length-middle (x ∷ xs) y zs, iter_swap-append x xs y zs))

  -- `remove` by `operator==`.
  length-kept :
      (same : A → A → Bool) (elem : A) (xs : List A) → length (kept same elem xs) ≤ length xs
  unfolding kept
  length-kept same elem [] = omega arith
  length-kept same elem (x ∷ xs) = ground (arith, length-kept same elem xs)

  length-erase_idx : (xs : List A) (i : ℕ) → i < length xs → length (erase_idx xs i) + 1 ≡ length xs
  length-erase_idx [] i h = absurd (omega arith)
  length-erase_idx (x ∷ xs) zero h = omega arith
  length-erase_idx (x ∷ xs) (suc i) h = omega (arith, length-erase_idx xs i (omega arith))

  length-drop : (n : ℕ) (xs : List A) → n ≤ length xs → length (drop n xs) + n ≡ length xs
  length-drop zero xs h = omega arith
  length-drop (suc n) [] h = absurd (omega arith)
  length-drop (suc n) (x ∷ xs) h = omega (arith, length-drop n xs (omega arith))

  length-moved :
      (same : A → A → Bool) (elem : A) (xs : List A)
      → length (kept same elem xs ++ drop (length (kept same elem xs)) xs) ≡ length xs
  length-moved same elem xs = omega (
    arith,
    length-append (kept same elem xs) (drop (length (kept same elem xs)) xs),
    length-drop (length (kept same elem xs)) xs (length-kept same elem xs),
  )

  one_less :
      (same : A → A → Bool) (elem : A) (xs : List A)
      → (length (kept same elem xs) == length xs) ≡ false
      → length (
            erase_idx
              (kept same elem xs ++ drop (length (kept same elem xs)) xs)
              (length (kept same elem xs)))
          + 1
        ≡ length xs
  one_less same elem xs e =
      length-erase_idx _ _ (ground (arith, length-moved same elem xs, length-kept same elem xs))
      ∙ length-moved same elem xs

  -- As many elements are kept as there are exactly if none is equal to the argument.
  all-kept :
      (same : A → A → Bool) (elem : A) (xs : List A)
      → (length (kept same elem xs) == length xs) ≡ all (λ x. not (same x elem)) xs
  unfolding kept
  all-kept same elem [] = refl
  all-kept same elem (x ∷ xs) = ground (arith, all-kept same elem xs, length-kept same elem xs)

  -- `remove` is undefined exactly if no element is equal to the argument; otherwise it makes the
  -- queue shorter by one, however many elements are equal.
  pub remove_one_place :
      (same : A → A → Bool) (elem : A) (q : BlockingQueue A)
      → ((all (λ x. not (same x elem)) q.backing_queue ≡ true) × (remove same elem q ≡ none))
        ⊎ ((all (λ x. not (same x elem)) q.backing_queue ≡ false)
            × (r : BlockingQueue A) × (remove same elem q ≡ some r)
            × (length r.backing_queue + 1 ≡ length q.backing_queue))
  unfolding remove
  remove_one_place same elem q =
      elim (Bool-cases (length (kept same elem q.backing_queue) == length q.backing_queue)) [
        | inl e ↦ inl (sym (all-kept same elem q.backing_queue) ∙ e, rw e refl)
        | inr e ↦ inr (
          sym (all-kept same elem q.backing_queue) ∙ e,
          record {
            backing_queue =
                erase_idx
                  (kept same elem q.backing_queue
                    ++ drop (length (kept same elem q.backing_queue)) q.backing_queue)
                  (length (kept same elem q.backing_queue));
          },
          rw e refl,
          one_less same elem q.backing_queue e,
        )
      ]
