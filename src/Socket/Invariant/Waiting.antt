-- ===== src/Socket/Invariant/Waiting.antt =====
-- src/GWSocket.cpp: by the invariant, a socket that is not disconnected waits for a handler.
use gwsockets.Prelude.{
  ℕ, ◌+◌, ◌≤◌, ◌≡◌, ◌≢◌, refl, inl, inr, Bool, List, some, arith, count, get_elem?, exists_of_count,
  ◌⊎◌,
}
use gwsockets.Socket.State.{
  Socket, SocketState, connecting, connected, disconnect_requested, disconnecting, disconnected,
  Action, Operation,
}
use gwsockets.Socket.Invariant.Defs.{
  Inv, Tally, tally, live, is_resolve, is_late_setup, is_read, is_close,
}

-- An operation that is in flight and whose handler the guard will let through.
abbrev pub Waits : Socket → Type 0
Waits s =
    (i : ℕ) × (op : Operation) × (get_elem? s.operations i ≡ some op) × (op.expected ≡ s.generation)

counted :
    (g : ℕ) (test : Action → Bool) (ops : List Operation)
    → 1 ≤ count (live g test) ops
    → (i : ℕ) × (op : Operation) × (get_elem? ops i ≡ some op) × (op.expected ≡ g)
counted g test ops h =
    let (i, op, at, passes) = exists_of_count (live g test) ops h in (i, op, at, ground arith)

one_of : (a b c : ℕ) → a + b + c ≡ 1 → (1 ≤ a) ⊎ (1 ≤ b) ⊎ (1 ≤ c)
one_of a b c h = ground arith

attempt-Waits :
    (s : Socket) (n : Tally)
    → tally s.generation s.operations ≡ n
    → n.resolves + n.late_setups + n.reads ≡ 1
    → Waits s
unfolding tally
attempt-Waits s n e h = elim (one_of n.resolves n.late_setups n.reads h) [
  | inl r ↦ counted s.generation is_resolve s.operations (ground arith)
  | inr (inl l) ↦ counted s.generation is_late_setup s.operations (ground arith)
  | inr (inr l) ↦ counted s.generation is_read s.operations (ground arith)
]

attempts :
    (n : Tally)
    → n.resolves + n.late_setups ≡ 1
    → n.resolves + n.late_setups + n.reads ≤ 1
    → n.resolves + n.late_setups + n.reads ≡ 1
attempts n h k = omega arith

pub state-Waits :
    (state : SocketState) (s : Socket) → s.state ≡ state → Inv s → s.state ≢ disconnected → Waits s
unfolding tally
state-Waits connecting s e inv up =
    attempt-Waits s (tally s.generation s.operations) refl
      (attempts (tally s.generation s.operations) (inv.when_connecting e).0 inv.one_pipeline)
state-Waits connected s e inv up =
    counted s.generation is_read s.operations (omega (arith, (inv.when_connected e).0))
state-Waits disconnect_requested s e inv up =
    attempt-Waits s (tally s.generation s.operations) refl (inv.when_requested e).0
state-Waits disconnecting s e inv up =
    counted s.generation is_close s.operations (omega (arith, inv.when_disconnecting e))
state-Waits disconnected s e inv up = absurd (up e)
