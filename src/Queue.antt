-- ===== src/Queue.antt =====
-- src/BlockingQueue.h: a queue behind a recursive mutex. Every method holds the mutex for its whole
-- length, so a method is one function on the backing deque; the front of the list is the front of the
-- deque. `take` blocks on an empty queue, which is `none` here. `func` and `operator==` are arguments.
pub mod Order
pub mod Search
mod Tests
use gwsockets.Prelude.{
  ℕ, zero, suc, ◌-◌, Bool, true, false, not, ◌&&◌, Option, none, some, List, [], ◌∷◌, ◌++◌, length,
  erase_idx, drop, get_elem?, ◌==◌, if◌then◌else◌,
}

pub record BlockingQueue {ℓ} (A : Type ℓ) : Type ℓ where
  pub backing_queue : List A

module _ {ℓ} {A : Type ℓ} where
  unfoldable pub empty_queue : BlockingQueue A
  empty_queue = record { backing_queue = [] }

  unfoldable pub put : A → BlockingQueue A → BlockingQueue A
  put elem q = record { backing_queue = q.backing_queue ++ elem ∷ [] }

  unfoldable pub size : BlockingQueue A → ℕ
  size q = length q.backing_queue

  unfoldable pub empty : BlockingQueue A → Bool
  unfolding size
  empty q = size q == 0

  -- `std::find_if`: the position of the first match, or the length.
  unfoldable pub find_if : (A → Bool) → List A → ℕ
  find_if func [] = 0
  find_if func (x ∷ xs) = let rest = suc (find_if func xs) in if func x then 0 else rest

  pub write_at : List A → ℕ → A → List A
  write_at [] i v = []
  write_at (x ∷ xs) zero v = v ∷ xs
  write_at (x ∷ xs) (suc i) v = x ∷ write_at xs i v

  -- `std::iter_swap(pos, begin())`.
  unfoldable pub iter_swap : List A → ℕ → List A
  unfolding write_at
  iter_swap [] pos = []
  iter_swap (x ∷ xs) zero = x ∷ xs
  iter_swap (x ∷ xs) (suc pos) = elim (get_elem? xs pos) [
    | none ↦ x ∷ xs
    | some y ↦ y ∷ write_at xs pos x
  ]

  unfoldable pub swap_to_front_if : (A → Bool) → BlockingQueue A → BlockingQueue A × Bool
  unfolding find_if iter_swap
  swap_to_front_if func q =
      let pos = find_if func q.backing_queue in
      if not (pos == 0) && not (pos == length q.backing_queue)
      then (record { backing_queue = iter_swap q.backing_queue pos }, true)
      else (q, false)

  unfoldable pub remove_if : (A → Bool) → BlockingQueue A → BlockingQueue A × Bool
  unfolding find_if
  remove_if func q =
      let pos = find_if func q.backing_queue in
      if not (pos == 0) && not (pos == length q.backing_queue)
      then (record { backing_queue = erase_idx q.backing_queue pos }, true)
      else (q, false)

  unfoldable pub kept : (A → A → Bool) → A → List A → List A
  kept same elem [] = []
  kept same elem (x ∷ xs) = let rest = kept same elem xs in if same x elem then rest else x ∷ rest

  -- `std::remove` moves what is kept to the front and leaves the tail as it was (for a type that is
  -- moved by copying); `erase` of one iterator drops one element. `erase(end())`, when nothing was
  -- equal, is undefined: `none`.
  unfoldable pub remove : (A → A → Bool) → A → BlockingQueue A → Option (BlockingQueue A)
  unfolding kept
  remove same elem q =
      let front = kept same elem q.backing_queue in
      let moved = front ++ drop (length front) q.backing_queue in
      if length front == length q.backing_queue
      then none
      else some (record { backing_queue = erase_idx moved (length front) })

  take_front : List A → Option (A × BlockingQueue A)
  take_front [] = none
  take_front (x ∷ xs) = some (x, record { backing_queue = xs })

  unfoldable pub take : BlockingQueue A → Option (A × BlockingQueue A)
  unfolding take_front
  take q = take_front q.backing_queue

  -- The content, and the queue afterwards.
  unfoldable pub clear : BlockingQueue A → List A × BlockingQueue A
  clear q = (q.backing_queue, record { backing_queue = [] })
