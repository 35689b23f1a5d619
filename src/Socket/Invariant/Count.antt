-- ===== src/Socket/Invariant/Count.antt =====
-- src/GWSocket.h: the count of the operations in flight when one starts, when one completes, and when
-- the generation moves on.
use gwsockets.Prelude.{
  ℕ, ◌+◌, ◌≡◌, Bool, true, false, all, all-count, some, List, [], ◌∷◌, ◌++◌, ◌==◌, count,
  count-eq-zero, count-snoc, count-nil, count-erase_idx, get_elem?, erase_idx, indicator, arith,
}
use gwsockets.Socket.State.{Action, Operation}
use gwsockets.Socket.Invariant.Defs.{
  is_resolve, is_late_setup, is_read, is_write, is_close, live, in_future, tally, plus, nothing,
}

pub tally-empty : (g : ℕ) → tally g [] ≡ nothing
unfolding tally
tally-empty g = simp count-nil

pub tally-launch :
    (g : ℕ) (a : Action) (ops : List Operation)
    → tally g (ops ++ record { expected = g; action = a } ∷ []) ≡ plus a (tally g ops)
unfolding tally
tally-launch g a ops = ground (
  arith,
  snoc (live g is_resolve),
  snoc (live g is_late_setup),
  snoc (live g is_read),
  snoc (live g is_write),
  snoc (live g is_close),
  snoc (in_future g),
)
  where
    snoc :
        (test : Operation → Bool)
        → count test (ops ++ record { expected = g; action = a } ∷ [])
          ≡ count test ops + indicator (test (record { expected = g; action = a }))
    snoc test = count-snoc test ops (record { expected = g; action = a })

-- The operation that completes was one of the current generation, or not.
module _ (g : ℕ) (ops : List Operation) (i : ℕ) (op : Operation)
    (at : get_elem? ops i ≡ some op) where
  pub tally_complete : op.expected ≡ g → tally g ops ≡ plus op.action (tally g (erase_idx ops i))
  unfolding tally
  tally_complete e = ground (
    arith,
    count-erase_idx (live g is_resolve) ops i op at,
    count-erase_idx (live g is_late_setup) ops i op at,
    count-erase_idx (live g is_read) ops i op at,
    count-erase_idx (live g is_write) ops i op at,
    count-erase_idx (live g is_close) ops i op at,
    count-erase_idx (in_future g) ops i op at,
  )

  pub tally-stale :
      (op.expected == g) ≡ false
      → (tally g ops).future ≡ 0
      → tally g ops ≡ tally g (erase_idx ops i)
  unfolding tally
  tally-stale e past = ground (
    arith,
    count-erase_idx (live g is_resolve) ops i op at,
    count-erase_idx (live g is_late_setup) ops i op at,
    count-erase_idx (live g is_read) ops i op at,
    count-erase_idx (live g is_write) ops i op at,
    count-erase_idx (live g is_close) ops i op at,
    count-erase_idx (in_future g) ops i op at,
  )

-- No operation belongs to the next generation yet.
pub tally-next :
    (g : ℕ) (ops : List Operation) → (tally g ops).future ≡ 0 → tally (g + 1) ops ≡ nothing
unfolding tally
tally-next g ops past = ground (
  arith,
  none_live is_resolve,
  none_live is_late_setup,
  none_live is_read,
  none_live is_write,
  none_live is_close,
  count-eq-zero (in_future g) (in_future (g + 1)) (λ op h. ground arith) ops past,
)
  where
    none_live : (test : Action → Bool) → count (live (g + 1) test) ops ≡ 0
    none_live test = count-eq-zero (in_future g) (live (g + 1) test) (λ op h. ground arith) ops past

-- No write of the current generation is in flight, and no operation of a later one.
module _ (g : ℕ) (q : Operation → Bool) (ops : List Operation) where
  pub all-idle :
      ((op : Operation) → live g is_write op ≡ false → q op ≡ true)
      → (tally g ops).writes ≡ 0
      → all q ops ≡ true
  unfolding tally
  all-idle imp h = all-count (live g is_write) q imp ops h

  pub all-past :
      ((op : Operation) → in_future g op ≡ false → q op ≡ true)
      → (tally g ops).future ≡ 0
      → all q ops ≡ true
  unfolding tally
  all-past imp h = all-count (in_future g) q imp ops h
