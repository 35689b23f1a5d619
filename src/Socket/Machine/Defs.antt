-- ===== src/Socket/Machine/Defs.antt =====
-- src/GWSocket.cpp and the subclasses as a transition system: one constructor for each way in which a
-- call can change a socket, with the state in which it is possible and the state that it leaves.
use gwsockets.Prelude.{
  ℕ, ◌+◌, ◌%◌, ◌^◌, ◌≡◌, ◌≢◌, ◌⊎◌, Bool, true, false, none, some, Option, List, [], ◌∷◌, ◌++◌,
  Bytes, codes, to_string, get_elem?, erase_idx, if◌then◌else◌,
}
use gwsockets.Socket.State.{
  Socket, Stream, connecting, connected, disconnect_requested, disconnecting, disconnected, Action,
  resolve, connect, tls_handshake, handshake, read, close_stream, Operation, GwSocketMessageOut,
  GwSocketMessageIn, out_message, out_disconnect, out_of_type, in_connected, in_message, in_error,
}
use gwsockets.Socket.Stream.{launch, report}
use gwsockets.Socket.Close.{do_close}
use gwsockets.Socket.Loop.{receive, note_reason, Completion}
use gwsockets.Socket.Invariant.{IsClosing, MayWrite, is_write, is_close}

-- Closing at once: nothing happens to a socket that is closing already.
pub data Ends (s u : Socket) : Type 0 where
  already : IsClosing s → u ≡ s → Ends s u
  closed :
      (r : Bytes) → (¬ IsClosing s) → u ≡ do_close r (record s { state = disconnecting }) → Ends s u
  errored :
      (r : Bytes)
      → (¬ IsClosing s)
      → u ≡ do_close r (report in_error r (record s { state = disconnecting }))
      → Ends s u

-- `checkWriting`.
pub data Writes (s u : Socket) : Type 0 where
  rests : (¬ MayWrite s) ⊎ (s.writing ≡ true) ⊎ (s.write_queue ≡ []) → u ≡ s → Writes s u
  sends :
      (m : GwSocketMessageOut) (rest : List GwSocketMessageOut) (stream : Stream)
      → MayWrite s
      → s.writing ≡ false
      → s.write_queue ≡ m ∷ rest
      → m.type ≡ out_message
      → s.ws ≡ some stream
      → u
        ≡ launch (Action.write m.message m.binary) (record s {
          writing = true;
          write_queue = rest;
          message_to_write = m.message;
          ws = some (record stream { binary = m.binary });
          sent = s.sent ++ (m.message, m.binary) ∷ [];
        })
      → Writes s u
  shuts :
      (m : GwSocketMessageOut) (rest : List GwSocketMessageOut)
      → s.state ≡ disconnect_requested
      → s.writing ≡ false
      → s.write_queue ≡ m ∷ rest
      → m.type ≡ out_disconnect
      → s.ws ≢ none
      → u
        ≡ launch close_stream
            (record s { writing = true; write_queue = rest; state = disconnecting })
      → Writes s u
  gives_up :
      (m : GwSocketMessageOut) (rest : List GwSocketMessageOut)
      → MayWrite s
      → s.writing ≡ false
      → s.write_queue ≡ m ∷ rest
      → m.type ≡ out_disconnect
      → Ends (record s { writing = true; write_queue = rest }) u
      → Writes s u

-- The operation that the handler of another one starts while a connection is set up.
pub data Follows : Action → Action → Type 0 where
  resolved : (host service : Bytes) (e : List ℕ) → Follows (resolve host service) (connect e)
  connected_tls : (e : List ℕ) (host path : Bytes) → Follows (connect e) (tls_handshake host path)
  connected_plain :
      (e : List ℕ) (host path : Bytes) (fields : List (Bytes × Bytes))
      → Follows (connect e) (handshake host path fields)
  secured :
      (host path host' path' : Bytes) (fields : List (Bytes × Bytes))
      → Follows (tls_handshake host path) (handshake host' path' fields)

abbrev pub is_handshake : Action → Bool
is_handshake (handshake host path fields) = true
is_handshake _ = false

-- The handler of an operation of the current generation, the operation being taken out already.
pub data Handles (a : Action) (s u : Socket) : Type 0 where
  follows :
      (next : Action) (ws : Option Stream)
      → Follows a next
      → ws ≢ none
      → u ≡ launch next (record s { ws = ws })
      → Handles a s u
  upgrades :
      (t : Socket)
      → is_handshake a ≡ true
      → s.state ≡ connecting
      → s.ws ≢ none
      → t ≡ launch read (report in_connected (codes "Connected") (record s { state = connected }))
      → Writes t u
      → Handles a s u
  receives :
      a ≡ read
      → s.ws ≢ none
      → u ≡ launch read (record (report in_message s.read_buffer s) { read_buffer = [] })
      → Handles a s u
  written : is_write a ≡ true → Writes (record s { writing = false }) u → Handles a s u
  breaks :
      (ws : Option Stream)
      → is_close a ≡ false
      → (ws ≡ none → s.ws ≡ none)
      → Ends (record s { ws = ws }) u
      → Handles a s u
  disconnects : (r : Bytes) → a ≡ close_stream → u ≡ do_close r s → Handles a s u

-- One call, of the interface or of a completion handler.
pub data Moves (s u : Socket) : Type 0 where
  stays : u ≡ s → Moves s u
  configures :
      (cookies headers : List (Bytes × Bytes))
      → s.state ≡ disconnected
      → u ≡ record s { cookies = cookies; headers = headers }
      → Moves s u
  adjusts :
      (deflate takeover : Bool)
      → u ≡ record s { per_message_deflate = deflate; disable_context_takeover = takeover }
      → Moves s u
  empties : u ≡ record s { write_queue = [] } → Moves s u
  attempts :
      (clear : Bool)
      → s.state ≡ disconnected
      → u
        ≡ launch (resolve s.host (to_string s.port)) (record s {
          state = connecting;
          generation = (s.generation + 1) % 2 ^ 32;
          write_queue = if clear then [] else s.write_queue;
        })
      → Moves s u
  requests :
      s.state ≡ connecting
      → u ≡ record s {
        state = disconnect_requested;
        write_queue = s.write_queue ++ out_of_type out_disconnect ∷ [];
      }
      → Moves s u
  requests_connected :
      s.state ≡ connected
      → Writes
          (record s {
            state = disconnect_requested;
            write_queue = s.write_queue ++ out_of_type out_disconnect ∷ [];
          })
          u
      → Moves s u
  ends : Ends s u → Moves s u
  ignores :
      (i : ℕ) (op : Operation) (bytes : Bytes)
      → get_elem? s.operations i ≡ some op
      → op.expected ≢ s.generation
      → u ≡ receive op.action bytes (record s { operations = erase_idx s.operations i })
      → Moves s u
  completes :
      (i : ℕ) (op : Operation) (c : Completion)
      → get_elem? s.operations i ≡ some op
      → op.expected ≡ s.generation
      → Handles op.action
          (note_reason c.reason
            (receive op.action c.bytes (record s { operations = erase_idx s.operations i })))
          u
      → Moves s u

-- The same, with the messages that the call hands to the callbacks and those that it is given to send.
pub data Advances (delivered : List GwSocketMessageIn) (written : List (Bytes × Bool))
    (s u : Socket) : Type 0 where
  moves : delivered ≡ [] → written ≡ [] → Moves s u → Advances delivered written s u
  enqueues :
      (m : Bytes) (b : Bool)
      → delivered ≡ []
      → written ≡ (m, b) ∷ []
      → Writes
          (record s {
            write_queue =
                s.write_queue ++ record { type = out_message; message = m; binary = b } ∷ [];
          })
          u
      → Advances delivered written s u
  drains :
      delivered ≡ s.message_queue.backing_queue
      → written ≡ []
      → u ≡ record s { message_queue = record { backing_queue = [] } }
      → Advances delivered written s u
