-- ===== src/Socket/Machine/Intact.antt =====
-- src/GWSocket.h, `messageToWrite`: the bytes of a write, in the histories of a socket.
use gwsockets.Prelude.{
  refl, ℕ, ◌+◌, ◌^◌, ◌<◌, ◌≡◌, Bool, some, List, [], ◌∷◌, Bytes, bytes_eq_sound, arith, Post,
  Post-map, Post-bind, get_elem?, length,
}
use gwsockets.Platform.{Platform}
use gwsockets.Socket.State.{Socket, SocketKind, new_socket, Action, Operation}
use gwsockets.Socket.Loop.{Call, step, run}
use gwsockets.Socket.Invariant.{Inv, step-Inv, new_socket-Inv}
use gwsockets.Socket.Machine.Frame.{Frame, step-Frame}
use gwsockets.Socket.Machine.Histories.{Post-both}
use gwsockets.Socket.Machine.Streams.{all-get_elem?}
use gwsockets.Socket.Machine.Buffer.{writes_well, AllBuffered, step-AllBuffered}

pub run_from-AllBuffered :
    (platform : Platform) (calls : List Call) (s : Socket)
    → Inv s
    → AllBuffered s
    → s.generation + length calls < 2 ^ 32
    → Post AllBuffered (run platform calls s)
unfolding run
run_from-AllBuffered platform [] s inv b few = b
run_from-AllBuffered platform (call ∷ calls) s inv b few =
    Post-bind (λ t. (Inv t × Frame s t) × AllBuffered t) AllBuffered (step platform call s) _
      (Post-both (λ t. Inv t × Frame s t) AllBuffered _
        (Post-both Inv (Frame s) _ (step-Inv platform call s inv (omega arith))
          (step-Frame platform call s))
        (step-AllBuffered platform call s inv (omega arith) b))
      (λ t r.
        run_from-AllBuffered platform calls t r.0.0 r.1 (omega (arith, r.0.1.next_generation)))

-- Every write of the current connection that is in flight has its bytes in `messageToWrite`.
abbrev pub Intact : Socket → Type 0
Intact s =
    (i : ℕ) (op : Operation) (message : Bytes) (binary : Bool)
    → get_elem? s.operations i ≡ some op
    → op.expected ≡ s.generation
    → op.action ≡ Action.write message binary
    → s.message_to_write ≡ message

pub AllBuffered-Intact : (s : Socket) → AllBuffered s → Intact s
AllBuffered-Intact s b i op message binary at now w = ground (
  arith,
  all-get_elem? (writes_well s.generation s.message_to_write) s.operations i op b at,
  bytes_eq_sound message s.message_to_write,
)

-- The buffer that the stream writes from stays as it is: after any history of fewer than 2 ^ 32 calls
-- and completions of a new socket, each write in flight that was started since the generation last
-- moved on is of the message that `messageToWrite` holds, so the string was not assigned since.
pub run-Intact :
    (platform : Platform) (kind : SocketKind) (host : Bytes) (port : ℕ) (path : Bytes)
    (calls : List Call)
    → length calls < 2 ^ 32
    → Post Intact (run platform calls (new_socket kind host port path))
unfolding new_socket
run-Intact platform kind host port path calls few =
    Post-map (run platform calls _) AllBuffered-Intact (
      run_from-AllBuffered platform calls _ (new_socket-Inv kind host port path) refl (omega arith))
