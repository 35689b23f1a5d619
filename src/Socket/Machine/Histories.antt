-- ===== src/Socket/Machine/Histories.antt =====
-- src/GWSocket.cpp: histories of a socket, from its construction.
use gwsockets.Prelude.{
  ℕ, ◌+◌, ◌^◌, ◌<◌, ◌≡◌, Option, none, some, List, [], ◌∷◌, ◌++◌, ◌⊎◌, Bytes, arith, Post,
  Post-bind, length, ◌>>=◌,
}
use gwsockets.Platform.{Platform}
use gwsockets.Socket.State.{
  Socket, SocketKind, new_socket, GwSocketMessageIn, connected, disconnected,
}
use gwsockets.Socket.Loop.{Call, step, run}
use gwsockets.Socket.Invariant.{tally-empty, Inv, step-Inv, new_socket-Inv}
use gwsockets.Socket.Machine.Frame.{Frame, step-Frame}
use gwsockets.Socket.Machine.Sound.{delivered, written, step-Advances}
use gwsockets.Socket.Machine.Defs.{Advances}
use gwsockets.Socket.Machine.Reports.{opened}
use gwsockets.Socket.Machine.Protocol.{down, up, heard, Told, Advances-Told}

pub Post-both :
    {A : Type 0} (P Q : A → Type 0) (m : Option A) → Post P m → Post Q m → Post (λ a. P a × Q a) m
Post-both P Q none p q = tt
Post-both P Q (some a) p q = (p, q)

run_from-Inv :
    (platform : Platform) (calls : List Call) (s : Socket)
    → Inv s
    → s.generation + length calls < 2 ^ 32
    → Post Inv (run platform calls s)
unfolding run
run_from-Inv platform [] s inv h = inv
run_from-Inv platform (call ∷ calls) s inv h =
    Post-bind (λ t. Inv t × Frame s t) Inv (step platform call s) _
      (Post-both Inv (Frame s) _ (step-Inv platform call s inv (omega arith))
        (step-Frame platform call s))
      (λ t r. run_from-Inv platform calls t r.0 (omega (arith, r.1.next_generation)))

-- After any history of calls and completions of a new socket, fewer than 2 ^ 32 of them, however the
-- peer, the resolver and the Lua code interleave, the invariant holds: of the operations of the current
-- generation, one sets up or reads at most, one writes or closes exactly if `writing` is set, and there is
-- none if the socket is disconnected; none is of a later generation. Operations of earlier generations may
-- still be in flight.
pub run-Inv :
    (platform : Platform) (kind : SocketKind) (host : Bytes) (port : ℕ) (path : Bytes)
    (calls : List Call)
    → length calls < 2 ^ 32
    → Post Inv (run platform calls (new_socket kind host port path))
unfolding new_socket
run-Inv platform kind host port path calls h =
    run_from-Inv platform calls _ (new_socket-Inv kind host port path) (omega arith)

-- A history with the messages that the callbacks got.
unfoldable pub converse :
    Platform
    → List Call
    → List GwSocketMessageIn × Socket
    → Option (List GwSocketMessageIn × Socket)
converse platform [] (taken, s) = some (taken, s)
converse platform (call ∷ calls) (taken, s) = do
  t ← step platform call s
  converse platform calls (taken ++ delivered call s, t)

pub converse-Told :
    (platform : Platform) (calls : List Call) (taken : List GwSocketMessageIn) (s : Socket)
    → Inv s
    → Told taken s
    → s.generation + length calls < 2 ^ 32
    → Post (λ r. Inv r.1 × Told r.0 r.1) (converse platform calls (taken, s))
unfolding converse
converse-Told platform [] taken s inv told h = (inv, told)
converse-Told platform (call ∷ calls) taken s inv told h =
    Post-bind (λ t. (Inv t × Frame s t) × Advances (delivered call s) (written call) s t) _
      (step platform call s) _
      (Post-both _ _ _
        (Post-both Inv (Frame s) _ (step-Inv platform call s inv (omega arith))
          (step-Frame platform call s))
        (step-Advances platform call s))
      (λ t r.
        converse-Told platform calls _ t r.0.0 (Advances-Told taken r.1 inv (omega arith) told)
          (omega (arith, r.0.1.next_generation)))

pub new_socket-Told :
    (kind : SocketKind) (host : Bytes) (port : ℕ) (path : Bytes)
    → Told [] (new_socket kind host port path)
unfolding new_socket heard
new_socket-Told kind host port path = rw (tally-empty 0) (ground arith)

-- What the callbacks got and what waits for them, in the protocol of the reports.
abbrev pub Orderly : List GwSocketMessageIn × Socket → Type 0
Orderly (taken, s) =
    let p = heard down (taken ++ s.message_queue.backing_queue) in
    ((p ≡ down) ⊎ (p ≡ up)) × (s.state ≡ disconnected → p ≡ down) × (s.state ≡ connected → p ≡ up)

pub Told-Orderly :
    (taken : List GwSocketMessageIn) (s : Socket) → Inv s → Told taken s → Orderly (taken, s)
Told-Orderly taken s inv told =
    (told.settled, told.when_disconnected, λ c. told.when_reading (inv.when_connected c).0)

-- The calls of `open` in a history.
unfoldable pub attempts : List Call → ℕ
attempts [] = 0
attempts (call ∷ calls) = opened call + attempts calls
