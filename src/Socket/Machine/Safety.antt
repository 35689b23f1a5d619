-- ===== src/Socket/Machine/Safety.antt =====
-- src/GWSocket.cpp: histories that never go through a null stream.
use gwsockets.Prelude.{
  ℕ, ◌≡◌, ◌≢◌, Bool, true, false, all, List, [], ◌∷◌, none, some, Bytes, arith, Option-cases, inl,
  inr, subst, Post, refl,
}
use gwsockets.Platform.{Platform}
use gwsockets.Socket.State.{Socket, SocketKind, new_socket}
use gwsockets.Socket.Loop.{Call, writes, step, run}
use gwsockets.Socket.NullStream.{LateWrite}
use gwsockets.Socket.Machine.Streams.{Backed, Keeps, step-Keeps}
use gwsockets.Socket.Machine.Total.{total_step}

-- A history without the one write that NullStream names.
pub data Timely (platform : Platform) : Socket → List Call → Type 0 where
  ended : (s : Socket) → Timely platform s []
  continued :
      (s : Socket) (call : Call) (calls : List Call)
      → ¬ LateWrite s call
      → ((t : Socket) → step platform call s ≡ some t → Timely platform t calls)
      → Timely platform s (call ∷ calls)

run_from-ne-none :
    (platform : Platform) (calls : List Call) (s : Socket)
    → Backed s
    → Timely platform s calls
    → run platform calls s ≢ none
unfolding run
run_from-ne-none platform _ s backed (Timely.ended _) = λ e. absurd (ground arith)
run_from-ne-none platform _ s backed (Timely.continued _ call calls not_late next) =
    elim (Option-cases (step platform call s)) [
      | inl e ↦ absurd (total_step platform call s backed not_late e)
      | inr (t, e) ↦ rw e (
          run_from-ne-none platform calls t
            ((subst (Post (Keeps s)) e (step-Keeps platform call s)).backed backed) (next t e))
    ]

-- A history of calls and completions of a new socket has a result, however long it is, so no step of
-- it goes through a null stream, unless it writes to a socket that was asked to disconnect before it
-- had a stream.
pub run-ne-none :
    (platform : Platform) (kind : SocketKind) (host : Bytes) (port : ℕ) (path : Bytes)
    (calls : List Call)
    → Timely platform (new_socket kind host port path) calls
    → run platform calls (new_socket kind host port path) ≢ none
unfolding new_socket
run-ne-none platform kind host port path calls timely =
    run_from-ne-none platform calls _ (λ w. (refl, λ c. absurd (ground arith))) timely

abbrev pub is_no_write : Call → Bool
is_no_write (writes spurious message binary) = false
is_no_write _ = true

not_late : (s : Socket) (call : Call) → is_no_write call ≡ true → ¬ LateWrite s call
not_late s _ h (LateWrite.late_write spurious m b r w) = absurd (ground arith)

-- Without writes a history is timely.
pub all-Timely :
    (platform : Platform) (calls : List Call) (s : Socket)
    → all is_no_write calls ≡ true
    → Timely platform s calls
all-Timely platform [] s h = Timely.ended s
all-Timely platform (call ∷ calls) s h =
    Timely.continued s call calls (not_late s call (ground arith))
      (λ t e. all-Timely platform calls t (ground arith))
