-- ===== src/Queue/Order.antt =====
-- src/BlockingQueue.h: the order in which `put`, `take` and `clear` hand elements on.
use mathlib.Core.List.{append-nil, append_assoc}
use gwsockets.Prelude.{
  ℕ, zero, suc, ◌≡◌, refl, ap, subst, Option, some, List, [], ◌∷◌, ◌++◌, length, ◌>>=◌,
}
use gwsockets.Queue.{BlockingQueue, empty_queue, put, take}

module _ {ℓ} {A : Type ℓ} where
  -- A producer that puts a list of elements, one call each.
  unfoldable pub put_all : List A → BlockingQueue A → BlockingQueue A
  put_all [] q = q
  put_all (x ∷ xs) q = put_all xs (put x q)

  -- A consumer that takes a number of elements, one call each; `none` if one call blocks.
  unfoldable pub take_many : ℕ → BlockingQueue A → Option (List A × BlockingQueue A)
  take_many zero q = some ([], q)
  take_many (suc n) q = do (x, q') ← take q; (xs, q'') ← take_many n q'; some (x ∷ xs, q'')

  put_all-backing :
      (xs : List A) (q : BlockingQueue A) → (put_all xs q).backing_queue ≡ q.backing_queue ++ xs
  unfolding put_all put
  put_all-backing [] q = simp append-nil
  put_all-backing (x ∷ xs) q = simp (put_all-backing xs (put x q), append_assoc)

  take_many-backing :
      (xs ys : List A)
      → take_many (length xs) (record { backing_queue = xs ++ ys })
        ≡ some (xs, record { backing_queue = ys })
  unfolding take_many take
  take_many-backing [] ys = refl
  take_many-backing (x ∷ xs) ys = rw (take_many-backing xs ys)

  put_all-queue :
      (xs : List A) (q : BlockingQueue A)
      → put_all xs q ≡ record { backing_queue = q.backing_queue ++ xs }
  put_all-queue xs q = ap (λ l. record { backing_queue = l }) (put_all-backing xs q)

  take_many-all :
      (xs : List A)
      → take_many (length xs) (record { backing_queue = xs })
        ≡ some (xs, record { backing_queue = [] })
  take_many-all xs =
      subst
        (λ l.
          take_many (length xs) (record { backing_queue = l })
          ≡ some (xs, record { backing_queue = [] }))
        (append-nil xs) (take_many-backing xs [])

  -- What is put by any number of calls comes out in the same order, behind what the queue held
  -- before; no call blocks, and nothing is left.
  pub take_many-put_all :
      (xs : List A) (q : BlockingQueue A)
      → take_many (length (q.backing_queue ++ xs)) (put_all xs q)
        ≡ some (q.backing_queue ++ xs, empty_queue)
  unfolding empty_queue
  take_many-put_all xs q = rw (put_all-queue xs q) (take_many-all (q.backing_queue ++ xs))
