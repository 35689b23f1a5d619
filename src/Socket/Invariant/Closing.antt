-- ===== src/Socket/Invariant/Closing.antt =====
-- src/GWSocket.cpp: `doClose` and what leads to it at once, and the invariant.
use gwsockets.Prelude.{◌+◌, ◌≡◌, ◌⊎◌, inl, inr, true, false, arith, Bytes}
use gwsockets.Socket.State.{Socket, disconnecting, disconnected, in_error}
use gwsockets.Socket.Stream.{report}
use gwsockets.Socket.Close.{do_close, close_now, error_connection}
use gwsockets.Socket.Invariant.Defs.{tally, Inv, NoWrap}
use gwsockets.Socket.Invariant.Count.{tally-next}

-- `do_close` by its parts.
module _ (reason : Bytes) (s : Socket) where
  pub do_close-state : (do_close reason s).state ≡ disconnected
  unfolding do_close
  do_close-state = ground arith

  pub do_close-writing : (do_close reason s).writing ≡ false
  unfolding do_close
  do_close-writing = ground arith

  pub do_close-operations : (do_close reason s).operations ≡ s.operations
  unfolding do_close
  do_close-operations = ground arith

  pub do_close-generation : NoWrap s → (do_close reason s).generation ≡ s.generation + 1
  unfolding do_close
  do_close-generation h = ground arith

  pub do_close-Inv :
      NoWrap s → (tally s.generation s.operations).future ≡ 0 → Inv (do_close reason s)
  do_close-Inv h past =
      rw (do_close-operations, do_close-generation h, tally-next s.generation s.operations past)
        (ground (arith, do_close-state, do_close-writing))

abbrev pub IsClosing : Socket → Type 0
IsClosing s = (s.state ≡ disconnected) ⊎ (s.state ≡ disconnecting)

-- Closing at once does nothing to a socket that is closing already, and closes any other.
module _ (reason : Bytes) (s : Socket) where
  pub close_now_cases :
      (IsClosing s × (close_now reason s ≡ (s, false)))
      ⊎ ((¬ IsClosing s)
          × (close_now reason s ≡ (do_close reason (record s { state = disconnecting }), true)))
  unfolding close_now
  close_now_cases = ground arith

  pub error_connection_cases :
      (IsClosing s × (error_connection reason s ≡ (s, false)))
      ⊎ ((¬ IsClosing s)
          × (error_connection reason s ≡ (
            do_close reason (report in_error reason (record s { state = disconnecting })),
            true,
          )))
  unfolding error_connection
  error_connection_cases = ground arith

  module _ (h : NoWrap s) (past : (tally s.generation s.operations).future ≡ 0) where
    pub close_now-Inv : (IsClosing s → Inv s) → Inv (close_now reason s).0
    close_now-Inv already = elim close_now_cases [
      | inl (closing, e) ↦ rw e (already closing)
      | inr (_, e) ↦ rw e (do_close-Inv reason _ h past)
    ]

    pub error_connection-Inv : (IsClosing s → Inv s) → Inv (error_connection reason s).0
    unfolding report
    error_connection-Inv already = elim error_connection_cases [
      | inl (closing, e) ↦ rw e (already closing)
      | inr (_, e) ↦ rw e (do_close-Inv reason _ h past)
    ]
