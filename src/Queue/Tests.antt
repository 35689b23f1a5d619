-- ===== src/Queue/Tests.antt =====
-- src/BlockingQueue.h: the theorems at concrete inputs.
use gwsockets.Prelude.{
  all, not, false, List, ◌++◌, all, not, ℕ, ◌+◌, ◌≡◌, ◌⊎◌, refl, Bool, true, false, some, none, [],
  ◌∷◌, length, ◌==◌,
}
use gwsockets.Queue.{BlockingQueue, empty_queue, remove_if, remove}
use gwsockets.Queue.Order.{put_all, take_many, take_many-put_all}
use gwsockets.Queue.Search.{remove_if_lem, remove_one_place}

abbrev is_seven : ℕ → Bool
is_seven n = n == 7

take_many-put_all_example :
    take_many {A = ℕ} 5 (put_all (1 ∷ 2 ∷ 3 ∷ []) (record { backing_queue = 8 ∷ 9 ∷ [] }))
    ≡ some (8 ∷ 9 ∷ 1 ∷ 2 ∷ 3 ∷ [], empty_queue)
take_many-put_all_example =
    take_many-put_all (1 ∷ 2 ∷ 3 ∷ []) (record { backing_queue = 8 ∷ 9 ∷ [] })

-- The front is one of two matches.
remove_if_lem_example :
    ((remove_if is_seven (record { backing_queue = 7 ∷ 1 ∷ 7 ∷ [] })
        ≡ (record { backing_queue = 7 ∷ 1 ∷ 7 ∷ [] }, false))
      × ((all (λ z. not (is_seven z)) (7 ∷ 1 ∷ 7 ∷ []) ≡ true)
          ⊎ ((y : ℕ) × (zs : List ℕ) × (7 ∷ 1 ∷ 7 ∷ [] ≡ y ∷ zs) × (is_seven y ≡ true))))
    ⊎ ((x : ℕ) × (xs : List ℕ) × (y : ℕ) × (zs : List ℕ) × (7 ∷ 1 ∷ 7 ∷ [] ≡ x ∷ xs ++ y ∷ zs)
        × (all (λ z. not (is_seven z)) (x ∷ xs) ≡ true)
        × (is_seven y ≡ true)
        × (remove_if is_seven (record { backing_queue = 7 ∷ 1 ∷ 7 ∷ [] })
            ≡ (record { backing_queue = x ∷ xs ++ zs }, true)))
remove_if_lem_example = remove_if_lem is_seven (7 ∷ 1 ∷ 7 ∷ [])

remove_one_place_example :
    ((all (λ x. not (x == 7)) (7 ∷ 1 ∷ 7 ∷ []) ≡ true)
      × (remove ◌==◌ 7 (record { backing_queue = 7 ∷ 1 ∷ 7 ∷ [] }) ≡ none))
    ⊎ ((all (λ x. not (x == 7)) (7 ∷ 1 ∷ 7 ∷ []) ≡ false)
        × (r : BlockingQueue ℕ) × (remove ◌==◌ 7 (record { backing_queue = 7 ∷ 1 ∷ 7 ∷ [] })
            ≡ some r)
        × (length r.backing_queue + 1 ≡ 3))
remove_one_place_example = remove_one_place ◌==◌ 7 (record { backing_queue = 7 ∷ 1 ∷ 7 ∷ [] })

-- Of `7, 1, 7` the element 1 stays, and one 7 that should be gone.
remove_run :
    remove ◌==◌ 7 (record { backing_queue = 7 ∷ 1 ∷ 7 ∷ [] })
    ≡ some (record { backing_queue = 1 ∷ 7 ∷ [] })
unfolding remove
remove_run = refl
