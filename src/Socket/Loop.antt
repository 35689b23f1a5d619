-- ===== src/Socket/Loop.antt =====
-- src/GWSocket.h, `guardGeneration`, and the calls that reach one socket: those of its methods by the
-- Lua functions, and those of its completion handlers by `io_context::poll`. Everything runs in one
-- thread, so a history is a list of such calls.
use gwsockets.Prelude.{
  ℕ, Bool, not, ◌==◌, Bytes, List, [], ◌∷◌, ◌++◌, Option, none, some, ◌>>=◌, get_elem?, erase_idx,
  if◌then◌else◌,
}
use gwsockets.Platform.{Platform, ErrorCode}
use gwsockets.Queue.{clear}
use gwsockets.Socket.State.{
  Socket, Action, resolve, connect, tls_handshake, handshake, read, close_stream, Operation,
  no_reason,
}
use gwsockets.Socket.Close.{close_now, clear_queue, on_disconnected}
use gwsockets.Socket.Write.{write, close, on_write}
use gwsockets.Socket.Connect.{
  open_socket, host_resolved_step, socket_connected, ssl_handshake_complete, handshake_completed,
  on_read, decorate, X509Error, verify_certificate,
}
use gwsockets.Socket.Config.{
  set_cookie, set_header, set_per_message_deflate, set_disable_context_takeover,
}

-- What an operation leaves for its handler: the error code, the addresses that were resolved, the
-- bytes that were read, and the close reason that the stream holds by then.
pub record Completion : Type 0 where
  pub code : ErrorCode
  pub endpoints : List ℕ
  pub bytes : Bytes
  pub reason : Bytes

-- `closes`, `writes` and `completes` say whether a `compare_exchange_weak` on the way fails spuriously.
pub data Call : Type 0 where
  opens : Bool → Call
  closes : Bool → Call
  closes_now : Call
  writes : Bool → Bytes → Bool → Call
  clears_queue : Call
  sets_cookie : Bytes → Bytes → Call
  sets_header : Bytes → Bytes → Call
  sets_deflate : Bool → Call
  sets_takeover : Bool → Call
  verifies : Bool → X509Error → Call
  takes_messages : Call
  completes : Bool → ℕ → Completion → Call

-- A read appends to the buffer that it was given, also if it fails half-way.
unfoldable pub receive : Action → Bytes → Socket → Socket
receive read bytes s = record s { read_buffer = s.read_buffer ++ bytes }
receive _ bytes s = s

-- The close reason is a part of the stream.
unfoldable pub note_reason : Bytes → Socket → Socket
note_reason reason s = record s {
  ws = elim s.ws [ none ↦ none | some stream ↦ some (record stream { reason = reason }) ];
}

module _ (platform : Platform) where
  -- The handler of each operation.
  unfoldable pub handle : Bool → Action → Completion → Socket → Option Socket
  handle spurious (resolve host service) c s = host_resolved_step platform c.code c.endpoints s
  handle spurious (connect endpoints) c s = socket_connected platform c.code s
  handle spurious (tls_handshake host path) c s =
      ssl_handshake_complete platform spurious c.code host path decorate s
  handle spurious (handshake host path fields) c s = handshake_completed platform spurious c.code s
  handle spurious read c s = on_read platform c.code s
  handle spurious (Action.write message binary) c s = on_write platform spurious c.code s
  handle spurious close_stream c s = some (on_disconnected platform c.code s)

  -- The lambda of `guardGeneration`.
  unfoldable pub guard_generation : Bool → Operation → Completion → Socket → Option Socket
  guard_generation spurious op c s =
      if not (s.generation == op.expected)
      then some s
      else handle spurious op.action c (note_reason c.reason s)

  -- `io_context::poll` calls the handler at a position of the list, if there is one.
  unfoldable pub complete : Bool → ℕ → Completion → Socket → Option Socket
  complete spurious i c s = elim (get_elem? s.operations i) [
    | none ↦ some s
    | some op ↦
        guard_generation spurious op c
          (receive op.action c.bytes (record s { operations = erase_idx s.operations i }))
  ]

  unfoldable pub step : Call → Socket → Option Socket
  step (opens should_clear_queue) s = some (open_socket should_clear_queue s)
  step (closes spurious) s = (close spurious s >>= λ r. some r.0)
  step closes_now s = some (close_now no_reason s).0
  step (writes spurious message binary) s = write spurious message binary s
  step clears_queue s = some (clear_queue s)
  step (sets_cookie key value) s = some (set_cookie platform key value s).0
  step (sets_header key value) s = some (set_header platform key value s).0
  step (sets_deflate value) s = some (set_per_message_deflate value s)
  step (sets_takeover value) s = some (set_disable_context_takeover value s)
  step (verifies preverified error) s = some (verify_certificate preverified error s).0
  step takes_messages s = some (record s { message_queue = (clear s.message_queue).1 })
  step (completes spurious i c) s = complete spurious i c s

  unfoldable pub run : List Call → Socket → Option Socket
  run [] s = some s
  run (call ∷ calls) s = (step call s >>= λ t. run calls t)
