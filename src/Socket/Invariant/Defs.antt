-- ===== src/Socket/Invariant/Defs.antt =====
-- src/GWSocket.cpp: how many operations of the current generation a socket has in flight, of each
-- sort, and what that has to do with its state between two calls.
use gwsockets.Prelude.{
  ℕ, ◌+◌, ◌^◌, ◌≤◌, ◌<◌, ◌≡◌, Bool, true, false, ◌&&◌, Option, none, List, ◌==◌, ltb, count,
  indicator,
}
use gwsockets.Socket.State.{
  Socket, SocketState, connecting, connected, disconnect_requested, disconnecting, disconnected,
  Action, resolve, connect, tls_handshake, handshake, read, close_stream, Operation, Stream,
}

abbrev pub is_resolve : Action → Bool
is_resolve (resolve host service) = true
is_resolve _ = false

-- The later operations of a connection attempt: they have a stream.
abbrev pub is_late_setup : Action → Bool
is_late_setup (connect endpoints) = true
is_late_setup (tls_handshake host path) = true
is_late_setup (handshake host path fields) = true
is_late_setup _ = false

abbrev pub is_read : Action → Bool
is_read read = true
is_read _ = false

abbrev pub is_write : Action → Bool
is_write (Action.write message binary) = true
is_write _ = false

abbrev pub is_close : Action → Bool
is_close close_stream = true
is_close _ = false

-- An operation whose handler `guardGeneration` would still invoke.
abbrev pub live : ℕ → (Action → Bool) → Operation → Bool
live generation test op = (op.expected == generation) && test op.action

abbrev pub in_future : ℕ → Operation → Bool
in_future generation op = ltb generation op.expected

-- The operations in flight, by sort, and those of later generations.
pub record Tally : Type 0 where
  pub resolves : ℕ
  pub late_setups : ℕ
  pub reads : ℕ
  pub writes : ℕ
  pub closes : ℕ
  pub future : ℕ

unfoldable pub tally : ℕ → List Operation → Tally
tally generation ops = record {
  resolves = count (live generation is_resolve) ops;
  late_setups = count (live generation is_late_setup) ops;
  reads = count (live generation is_read) ops;
  writes = count (live generation is_write) ops;
  closes = count (live generation is_close) ops;
  future = count (in_future generation) ops;
}

-- One more operation of the current generation.
abbrev pub plus : Action → Tally → Tally
plus a n = record {
  resolves = n.resolves + indicator (is_resolve a);
  late_setups = n.late_setups + indicator (is_late_setup a);
  reads = n.reads + indicator (is_read a);
  writes = n.writes + indicator (is_write a);
  closes = n.closes + indicator (is_close a);
  future = n.future;
}

abbrev pub nothing : Tally
nothing = record { resolves = 0; late_setups = 0; reads = 0; writes = 0; closes = 0; future = 0 }

-- What the state, the flag `writing` and the stream say about the operations in flight.
pub record Fits (state : SocketState) (writing : Bool) (ws : Option Stream) (n : Tally)
    : Type 0 where
  pub no_future : n.future ≡ 0
  pub one_pipeline : n.resolves + n.late_setups + n.reads ≤ 1
  pub one_output : n.writes + n.closes ≡ indicator writing
  pub when_disconnected :
      state ≡ disconnected
      → (n.resolves ≡ 0) × (n.late_setups ≡ 0) × (n.reads ≡ 0) × (writing ≡ false)
  pub when_connecting : state ≡ connecting → (n.resolves + n.late_setups ≡ 1) × (writing ≡ false)
  pub when_connected : state ≡ connected → (n.reads ≡ 1) × (n.closes ≡ 0)
  pub when_requested :
      state ≡ disconnect_requested → (n.resolves + n.late_setups + n.reads ≡ 1) × (n.closes ≡ 0)
  pub when_disconnecting : state ≡ disconnecting → n.closes ≡ 1
  pub without_stream : ws ≡ none → (n.late_setups ≡ 0) × (n.reads ≡ 0) × (writing ≡ false)

-- The invariant of a socket between two calls.
abbrev pub Inv : Socket → Type 0
Inv s = Fits s.state s.writing s.ws (tally s.generation s.operations)

-- The next step of the generation does not wrap.
abbrev pub NoWrap : Socket → Type 0
NoWrap s = s.generation + 1 < 2 ^ 32
