-- ===== src/Socket/Machine/Frame.antt =====
-- src/GWSocket.cpp: what a call leaves alone.
use gwsockets.Prelude.{◌+◌, ◌≤◌, ◌≡◌, ◌≢◌, Bool, Bytes, List, erase_idx, arith, Post, Post-map}
use gwsockets.Platform.{Platform}
use gwsockets.Socket.State.{Socket, disconnected, Action, read, GwSocketMessageIn}
use gwsockets.Socket.Stream.{launch, report}
use gwsockets.Socket.Close.{do_close}
use gwsockets.Socket.Loop.{receive, note_reason, Call, step}
use gwsockets.Socket.Machine.Defs.{Ends, Writes, Handles, Moves, Advances}
use gwsockets.Socket.Machine.Sound.{step-Advances}

-- The address and the class of a socket stay, its generation moves on by one at most, and its cookies
-- and headers stay unless it is disconnected.
pub record Frame (s t : Socket) : Type 0 where
  pub same_kind : t.kind ≡ s.kind
  pub same_host : t.host ≡ s.host
  pub same_port : t.port ≡ s.port
  pub same_path : t.path ≡ s.path
  pub frozen_cookies : s.state ≢ disconnected → t.cookies ≡ s.cookies
  pub frozen_headers : s.state ≢ disconnected → t.headers ≡ s.headers
  pub next_generation : t.generation ≤ s.generation + 1

-- The same where nothing is configured, from a socket of the same generation.
record Same (s t : Socket) : Type 0 where
  same_kind : t.kind ≡ s.kind
  same_host : t.host ≡ s.host
  same_port : t.port ≡ s.port
  same_path : t.path ≡ s.path
  same_cookies : t.cookies ≡ s.cookies
  same_headers : t.headers ≡ s.headers
  next_generation : t.generation ≤ s.generation + 1

Ends-Same : {s u : Socket} → Ends s u → Same s u
unfolding do_close
Ends-Same (Ends.already c e) = ground arith
Ends-Same (Ends.closed r c e) = ground arith
Ends-Same (Ends.errored r c e) = ground arith

Writes-Same : {s u : Socket} → Writes s u → Same s u
unfolding launch
Writes-Same (Writes.rests why e) = ground arith
Writes-Same (Writes.sends m rest stream may idle q t w e) = ground arith
Writes-Same (Writes.shuts m rest may idle q t w e) = ground arith
Writes-Same (Writes.gives_up m rest may idle q t ends) = ground (arith, Ends-Same ends)

Handles-Same : {a : Action} {s u : Socket} → Handles a s u → Same s u
unfolding launch do_close report
Handles-Same (Handles.follows next ws f w e) = ground arith
Handles-Same (Handles.upgrades t h c w e writes) = ground (arith, Writes-Same writes)
Handles-Same (Handles.receives a w e) = ground arith
Handles-Same (Handles.written a writes) = ground (arith, Writes-Same writes)
Handles-Same (Handles.breaks ws a w ends) = ground (arith, Ends-Same ends)
Handles-Same (Handles.disconnects r a e) = ground arith

receive-Same :
    (a : Action) (bytes : Bytes) (s : Socket)
    → Same s (receive a bytes s) × ((receive a bytes s).generation ≡ s.generation)
unfolding receive
receive-Same read bytes s = ground arith
receive-Same _ bytes s = ground arith

Moves-Frame : {s u : Socket} → Moves s u → Frame s u
unfolding launch note_reason
Moves-Frame (Moves.stays e) = ground arith
Moves-Frame (Moves.configures cookies headers d e) = ground arith
Moves-Frame (Moves.adjusts d t e) = ground arith
Moves-Frame (Moves.empties e) = ground arith
Moves-Frame (Moves.attempts c d e) = ground arith
Moves-Frame (Moves.requests c e) = ground arith
Moves-Frame (Moves.requests_connected c w) = ground (arith, Writes-Same w)
Moves-Frame (Moves.ends ends) = ground (arith, Ends-Same ends)
Moves-Frame {s} (Moves.ignores i op bytes at g e) =
    ground
      (arith, receive-Same op.action bytes (record s { operations = erase_idx s.operations i }))
Moves-Frame {s} (Moves.completes i op c at g h) = ground (
  arith,
  Handles-Same h,
  receive-Same op.action c.bytes (record s { operations = erase_idx s.operations i }),
)

Advances-Frame :
    {d : List GwSocketMessageIn} {w : List (Bytes × Bool)} {s u : Socket}
    → Advances d w s u
    → Frame s u
Advances-Frame (Advances.moves d w m) = Moves-Frame m
Advances-Frame (Advances.enqueues m b d e w) = ground (arith, Writes-Same w)
Advances-Frame (Advances.drains d w e) = ground arith

-- Whatever a call does, and whatever an operation completes with, the class, the host, the port and
-- the path of a socket stay, its generation moves on by one at most, and the cookies and headers of a
-- socket that is not disconnected stay as they were when the connection was opened.
pub step-Frame :
    (platform : Platform) (call : Call) (s : Socket) → Post (Frame s) (step platform call s)
step-Frame platform call s =
    Post-map (step platform call s) (λ u a. Advances-Frame a) (step-Advances platform call s)
