-- ===== src/Socket/Machine/Reports.antt =====
-- src/GWSocket.cpp: how many times a socket says that it is disconnected.
use gwsockets.Prelude.{
  ℕ, ◌+◌, ◌%◌, ◌^◌, ◌≤◌, ◌≡◌, ◌≢◌, refl, ap, ◌∙◌, inl, inr, false, List, [], ◌∷◌, ◌++◌, Bytes, Post,
  Post-map, arith, codes, erase_idx,
}
use gwsockets.Platform.{Platform}
use gwsockets.Queue.{BlockingQueue, put, clear}
use gwsockets.Socket.State.{
  Socket, SocketState, connected, disconnecting, disconnected, Action, GwsMessageInType,
  in_connected, in_message, in_error, in_disconnected, GwSocketMessageIn,
}
use gwsockets.Socket.Stream.{launch, report, close_socket}
use gwsockets.Socket.Close.{do_close, clear_queue}
use gwsockets.Socket.Loop.{
  Completion, Call, opens, closes, closes_now, writes, clears_queue, sets_cookie, sets_header,
  sets_deflate, sets_takeover, verifies, takes_messages, completes, step, receive, note_reason,
}
use gwsockets.Socket.Invariant.{Inv, Completing, arrival-Completing, arrival-keeps, receive-keeps}
use gwsockets.Socket.Machine.Defs.{Ends, Writes, Handles}
use gwsockets.Socket.Machine.Sound.{delivered}
use gwsockets.Socket.Machine.Protocol.{close_socket-queue}
use gwsockets.Socket.Machine.Calls.{Obeys, Completes, step-Obeys}

abbrev pub is_end : GwsMessageInType → ℕ
is_end in_disconnected = 1
is_end _ = 0

-- The reports among these that the socket is disconnected.
unfoldable pub count_ends : List GwSocketMessageIn → ℕ
count_ends [] = 0
count_ends (m ∷ ms) = is_end m.type + count_ends ms

pub count_ends-append :
    (xs ys : List GwSocketMessageIn) → count_ends (xs ++ ys) ≡ count_ends xs + count_ends ys
unfolding count_ends
count_ends-append [] ys = omega arith
count_ends-append (x ∷ xs) ys = omega (arith, count_ends-append xs ys)

-- One more is to come unless the socket is disconnected.
abbrev pub to_come : SocketState → ℕ
to_come disconnected = 0
to_come _ = 1

-- The reports that wait, with the one to come.
abbrev pub due : Socket → ℕ
due s = count_ends s.message_queue.backing_queue + to_come s.state

report-count :
    (type : GwsMessageInType) (message : Bytes) (s : Socket)
    → count_ends (report type message s).message_queue.backing_queue
      ≡ count_ends s.message_queue.backing_queue + is_end type
unfolding report put count_ends
report-count type message s = count_ends-append s.message_queue.backing_queue _ ∙ omega arith

do_close-due :
    (r : Bytes) (s : Socket) → due (do_close r s) ≡ count_ends s.message_queue.backing_queue + 1
unfolding do_close clear_queue
do_close-due r s =
    let next = record s { generation = (s.generation + 1) % 2 ^ 32 } in
    let closed = clear_queue (close_socket next) in
    let reported =
      report-count in_disconnected r (record closed { state = disconnected; writing = false }) in
    let queue =
      ap (λ (q : BlockingQueue GwSocketMessageIn). count_ends q.backing_queue)
        (close_socket-queue next) in
    omega (arith, reported, queue)

Ends-due : {s u : Socket} → Ends s u → due u ≡ due s
unfolding report
Ends-due (Ends.already c e) = rw e refl
Ends-due {s} (Ends.closed r c e) =
    rw (e, do_close-due r (record s { state = disconnecting })) (ground arith)
Ends-due {s} (Ends.errored r c e) =
    rw
      (
        e,
        do_close-due r (report in_error r (record s { state = disconnecting })),
        report-count in_error r (record s { state = disconnecting }),
      )
      (ground arith)

Writes-due : {s u : Socket} → Writes s u → due u ≡ due s
unfolding launch
Writes-due (Writes.rests why e) = rw e refl
Writes-due (Writes.sends m rest stream may idle q t w e) = rw e refl
Writes-due (Writes.shuts m rest may idle q t w e) = rw e (ground arith)
Writes-due (Writes.gives_up m rest may idle q t ends) = Ends-due ends

Handles-due : {a : Action} {s u : Socket} → Handles a s u → s.state ≢ disconnected → due u ≡ due s
unfolding launch report
Handles-due {s = s} (Handles.follows next ws f w e) up = rw e refl
Handles-due {s = s} (Handles.upgrades t hs c w e next_writes) up =
    Writes-due next_writes
    ∙ rw e (
        ground
          (arith, report-count in_connected (codes "Connected") (record s { state = connected })))
Handles-due {s = s} (Handles.receives a w e) up =
    rw e (ground (arith, report-count in_message s.read_buffer s))
Handles-due (Handles.written a next_writes) up = Writes-due next_writes
Handles-due (Handles.breaks ws a w ends) up = Ends-due ends
Handles-due {s = s} (Handles.disconnects r a e) up = rw (e, do_close-due r s) (ground arith)

Completing-up : (a : Action) (s : Socket) → Completing a s → s.state ≢ disconnected
Completing-up (Action.resolve host service) s fits =
    λ down. ground (arith, fits.when_disconnected down)
Completing-up (Action.connect endpoints) s fits =
    λ down. ground (arith, fits.when_disconnected down)
Completing-up (Action.tls_handshake host path) s fits =
    λ down. ground (arith, fits.when_disconnected down)
Completing-up (Action.handshake host path fields) s fits =
    λ down. ground (arith, fits.when_disconnected down)
Completing-up Action.read s fits = λ down. ground (arith, fits.when_disconnected down)
Completing-up (Action.write m b) s fits =
    λ down. ground (arith, fits.when_disconnected down, fits.one_output)
Completing-up Action.close_stream s fits =
    λ down. ground (arith, fits.when_disconnected down, fits.one_output)

Completes-due :
    (platform : Platform) (i : ℕ) (c : Completion) (s u : Socket)
    → Completes platform i c s u
    → Inv s
    → due u ≡ due s
Completes-due platform i c s u (inl (gone, e)) inv = rw e refl
Completes-due platform i c s u (inr (op, at, inl (old, e))) inv = rw e (
    receive-keeps (λ state queue g ops. count_ends queue + to_come state ≡ due s) op.action c.bytes
      (record s { operations = erase_idx s.operations i }) refl)
Completes-due platform i c s u (inr (op, at, inr (now, handles))) inv =
    Handles-due handles (
      Completing-up op.action
        (note_reason c.reason
          (receive op.action c.bytes (record s { operations = erase_idx s.operations i })))
        (arrival-Completing c.bytes c.reason s i op at now inv))
    ∙ arrival-keeps (λ state queue g ops. count_ends queue + to_come state ≡ due s) op.action
        c.bytes c.reason (record s { operations = erase_idx s.operations i }) refl

-- A call of `open` may add one.
abbrev pub opened : Call → ℕ
opened (opens clear) = 1
opened _ = 0

Obeys-due :
    (platform : Platform) (s : Socket)
    → Inv s
    → (call : Call) (u : Socket) → Obeys platform call s u
    → count_ends (delivered call s) + due u ≤ due s + opened call
unfolding delivered launch clear count_ends
Obeys-due platform s inv (opens clear) u (inl (up, e)) = rw e (omega arith)
Obeys-due platform s inv (opens clear) u (inr (down, e)) = rw e (ground arith)
Obeys-due platform s inv (closes spurious) u (inl (other, e)) = rw e (omega arith)
Obeys-due platform s inv (closes spurious) u (inr (inl (c, e))) = rw e (ground arith)
Obeys-due platform s inv (closes spurious) u (inr (inr (c, w))) = ground (arith, Writes-due w)
Obeys-due platform s inv closes_now u (inl (c, e)) = rw e (omega arith)
Obeys-due platform s inv closes_now u (inr (c, e)) = omega (arith, Ends-due (Ends.closed _ c e))
Obeys-due platform s inv (writes spurious m b) u w = omega (arith, Writes-due w)
Obeys-due platform s inv clears_queue u e = rw e (omega arith)
Obeys-due platform s inv (sets_cookie key value) u e = rw e (ground arith)
Obeys-due platform s inv (sets_header key value) u e = rw e (ground arith)
Obeys-due platform s inv (sets_deflate value) u e = rw e (omega arith)
Obeys-due platform s inv (sets_takeover value) u e = rw e (omega arith)
Obeys-due platform s inv (verifies p x) u (inl (ok, e)) = rw e (omega arith)
Obeys-due platform s inv (verifies p x) u (inr (bad, ends)) = omega (arith, Ends-due ends)
Obeys-due platform s inv takes_messages u e = rw e (omega arith)
Obeys-due platform s inv (completes spurious i c) u done =
    omega (arith, Completes-due platform i c s u done inv)

pub step-due :
    (platform : Platform) (call : Call) (s : Socket)
    → Inv s
    → Post (λ u. count_ends (delivered call s) + due u ≤ due s + opened call) (step platform call s)
step-due platform call s inv =
    Post-map (step platform call s) (λ u obeys. Obeys-due platform s inv call u obeys)
      (step-Obeys platform call s)
