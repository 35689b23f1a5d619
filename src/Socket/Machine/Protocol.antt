-- ===== src/Socket/Machine/Protocol.antt =====
-- src/GWSocket.cpp: the order in which a socket reports to the Lua callbacks.
use mathlib.Core.List.{append_assoc, append-nil}
use native.Mathlib.Nat.{mod-eq_of_lt}
use gwsockets.Prelude.{
  ◌+◌, ◌%◌, ◌^◌, ◌<◌, ◌≡◌, ◌≢◌, refl, ap, ◌∙◌, ◌⊎◌, Bool, false, List, [], ◌∷◌, ◌++◌, Bytes, arith,
  codes,
}
use gwsockets.Queue.{BlockingQueue, put}
use gwsockets.Socket.State.{
  Socket, SocketState, connecting, connected, disconnecting, disconnected, Action, read,
  GwsMessageInType, in_connected, in_message, in_error, in_disconnected, GwSocketMessageIn,
}
use gwsockets.Socket.Stream.{launch, report, close_socket}
use gwsockets.Socket.Close.{do_close, clear_queue}
use gwsockets.Socket.Invariant.{
  is_read, Tally, tally, plus, Inv, NoWrap, tally-launch, tally-next, tally_complete, tally-stale,
  receive-keeps, arrival-keeps, arrival-Completing, do_close-operations, do_close-generation,
  Completing,
}
use gwsockets.Socket.Machine.Defs.{Ends, Writes, Follows, Handles, Moves, Advances}

-- What the callbacks have been told: that there is no connection, that there is one, that it has
-- failed; or something out of order.
pub data Phase : Type 0 where
  down up failing wrong : Phase

unfoldable pub hear : Phase → GwsMessageInType → Phase
hear down in_connected = up
hear down in_error = failing
hear down in_disconnected = down
hear up in_message = up
hear up in_error = failing
hear up in_disconnected = down
hear failing in_disconnected = down
hear _ _ = wrong

unfoldable pub heard : Phase → List GwSocketMessageIn → Phase
heard p [] = p
heard p (m ∷ ms) = heard (hear p m.type) ms

pub heard-append :
    (p : Phase) (xs ys : List GwSocketMessageIn) → heard p (xs ++ ys) ≡ heard (heard p xs) ys
unfolding heard
heard-append p [] ys = refl
heard-append p (x ∷ xs) ys = heard-append (hear p x.type) xs ys

-- The phase after the messages that were taken and those that wait.
abbrev pub phase : List GwSocketMessageIn → Socket → Phase
phase taken s = heard down (taken ++ s.message_queue.backing_queue)

-- What the state and the operations in flight say about the phase.
pub record Tells (state : SocketState) (p : Phase) (n : Tally) : Type 0 where
  pub settled : (p ≡ down) ⊎ (p ≡ up)
  pub when_disconnected : state ≡ disconnected → p ≡ down
  pub when_connecting : state ≡ connecting → p ≡ down
  pub when_reading : n.reads ≡ 1 → p ≡ up

abbrev pub Told : List GwSocketMessageIn → Socket → Type 0
Told taken s = Tells s.state (phase taken s) (tally s.generation s.operations)

Follows-read : {a next : Action} → Follows a next → (is_read a ≡ false) × (is_read next ≡ false)
Follows-read (Follows.resolved host service e) = (refl, refl)
Follows-read (Follows.connected_tls e host path) = (refl, refl)
Follows-read (Follows.connected_plain e host path fields) = (refl, refl)
Follows-read (Follows.secured host path host' path' fields) = (refl, refl)

pub close_socket-queue : (s : Socket) → (close_socket s).message_queue ≡ s.message_queue
unfolding close_socket
close_socket-queue s = ground arith

module _ (taken : List GwSocketMessageIn) where
  phase-report :
      (type : GwsMessageInType) (message : Bytes) (s : Socket)
      → phase taken (report type message s) ≡ hear (phase taken s) type
  unfolding report put heard
  phase-report type message s =
      rw (← append_assoc taken s.message_queue.backing_queue)
        (heard-append down (taken ++ s.message_queue.backing_queue) _)

  launch-Told :
      (a : Action) (s : Socket)
      → Tells s.state (phase taken s) (plus a (tally s.generation s.operations))
      → Told taken (launch a s)
  unfolding launch
  launch-Told a s h = rw (tally-launch s.generation a s.operations) h

  phase-do_close :
      (reason : Bytes) (s : Socket)
      → phase taken (do_close reason s) ≡ hear (phase taken s) in_disconnected
  unfolding do_close clear_queue
  phase-do_close reason s =
      let next = record s { generation = (s.generation + 1) % 2 ^ 32 } in
      let closed = clear_queue (close_socket next) in
      phase-report in_disconnected reason (record closed { state = disconnected; writing = false })
      ∙ ap
          (λ (q : BlockingQueue GwSocketMessageIn).
            hear (heard down (taken ++ q.backing_queue)) in_disconnected)
          (close_socket-queue next)

  do_close-Told :
      (reason : Bytes) (s : Socket)
      → NoWrap s
      → (tally s.generation s.operations).future ≡ 0
      → phase taken s ≢ wrong
      → Told taken (do_close reason s)
  do_close-Told reason s h past p =
      rw
        (
          phase-do_close reason s,
          do_close-operations reason s,
          do_close-generation reason s h,
          tally-next s.generation s.operations past,
        )
        (unfold hear in ground arith)

  -- The last report on a connection, after an error or without one.
  Ends-Told :
      {s u : Socket}
      → Ends s u
      → NoWrap s
      → (tally s.generation s.operations).future ≡ 0
      → Tells s.state (phase taken s) (tally s.generation s.operations)
      → Told taken u
  unfolding hear report
  Ends-Told (Ends.already c e) h past told = rw e told
  Ends-Told {s} (Ends.closed r c e) h past told =
      rw e (do_close-Told r (record s { state = disconnecting }) h past (ground arith))
  Ends-Told {s} (Ends.errored r c e) h past told = rw e (
      do_close-Told r (report in_error r (record s { state = disconnecting })) h past
        (ground (arith, phase-report in_error r (record s { state = disconnecting }))))

  Writes-Told :
      {s u : Socket}
      → Writes s u
      → NoWrap s
      → (tally s.generation s.operations).future ≡ 0
      → Tells s.state (phase taken s) (tally s.generation s.operations)
      → Told taken u
  Writes-Told (Writes.rests why e) h past told = rw e told
  Writes-Told (Writes.sends m rest stream may idle q t w e) h past told =
      rw e (launch-Told _ _ (ground arith))
  Writes-Told (Writes.shuts m rest may idle q t w e) h past told =
      rw e (launch-Told _ _ (ground arith))
  Writes-Told (Writes.gives_up m rest may idle q t ends) h past told = Ends-Told ends h past told

  launch-future :
      (a : Action) (s : Socket)
      → (tally (launch a s).generation (launch a s).operations).future
        ≡ (tally s.generation s.operations).future
  unfolding launch
  launch-future a s = rw (tally-launch s.generation a s.operations)

  upgraded-Told :
      (s : Socket)
      → s.state ≡ connecting
      → (tally s.generation s.operations).reads ≡ 0
      → phase taken s ≡ down
      → Told taken
          (launch read (report in_connected (codes "Connected") (record s { state = connected })))
  unfolding report hear
  upgraded-Told s c r p = launch-Told read _ (
      ground
        (arith, phase-report in_connected (codes "Connected") (record s { state = connected })))

  received-Told :
      (s : Socket)
      → s.state ≢ disconnected
      → s.state ≢ connecting
      → (tally s.generation s.operations).reads ≡ 0
      → phase taken s ≡ up
      → Told taken (launch read (record (report in_message s.read_buffer s) { read_buffer = [] }))
  unfolding report hear
  received-Told s d c r p =
      launch-Told read _ (ground (arith, phase-report in_message s.read_buffer s))

  Handles-Told :
      {a : Action} {s u : Socket}
      → Handles a s u
      → NoWrap s
      → Completing a s
      → Tells s.state (phase taken s) (plus a (tally s.generation s.operations))
      → Told taken u
  unfolding launch report hear
  Handles-Told {s} (Handles.follows next ws f w e) h fits told =
      rw e (launch-Told next (record s { ws = ws }) (ground (arith, Follows-read f)))
  Handles-Told {s} (Handles.upgrades t hs c w e writes) h fits told =
      let ready = record s { state = connected } in
      Writes-Told writes (rw e h)
        (rw (e, launch-future read (report in_connected (codes "Connected") ready)) fits.no_future)
        (rw e (upgraded-Told s c (ground arith) (told.when_connecting c)))
  Handles-Told {s} (Handles.receives a w e) h fits told =
      rw e (received-Told s (ground arith) (ground arith) (ground arith) (ground arith))
  Handles-Told (Handles.written a writes) h fits told =
      Writes-Told writes h fits.no_future (ground arith)
  Handles-Told (Handles.breaks ws a w ends) h fits told =
      Ends-Told ends h fits.no_future (ground arith)
  Handles-Told (Handles.disconnects r a e) h fits told =
      rw e (do_close-Told r _ h fits.no_future (ground arith))

  Moves-Told : {s u : Socket} → Moves s u → Inv s → NoWrap s → Told taken s → Told taken u
  Moves-Told (Moves.stays e) inv h told = rw e told
  Moves-Told (Moves.configures cookies headers d e) inv h told = rw e told
  Moves-Told (Moves.adjusts d t e) inv h told = rw e told
  Moves-Told (Moves.empties e) inv h told = rw e told
  Moves-Told {s} (Moves.attempts c d e) inv h told = rw e (
      launch-Told _ _
        (rw (mod-eq_of_lt h, tally-next s.generation s.operations inv.no_future) (ground arith)))
  Moves-Told (Moves.requests c e) inv h told = rw e (ground arith)
  Moves-Told (Moves.requests_connected c w) inv h told =
      Writes-Told w h inv.no_future (ground arith)
  Moves-Told (Moves.ends ends) inv h told = Ends-Told ends h inv.no_future told
  Moves-Told {s} (Moves.ignores i op bytes at g e) inv h told = rw e (
      receive-keeps (λ st q g' ops. Tells st (heard down (taken ++ q)) (tally g' ops)) op.action
        bytes _
        (rw (← tally-stale s.generation s.operations i op at (ground arith) inv.no_future) told))
  Moves-Told {s} (Moves.completes i op c at g handles) inv h told =
      Handles-Told handles
        (arrival-keeps (λ st q g' ops. g' + 1 < 2 ^ 32) op.action c.bytes c.reason _ h)
        (arrival-Completing c.bytes c.reason s i op at g inv)
        (arrival-keeps
          (λ st q g' ops. Tells st (heard down (taken ++ q)) (plus op.action (tally g' ops)))
          op.action c.bytes c.reason _
          (rw (← tally_complete s.generation s.operations i op at g) told))

  -- Between two calls the callbacks know whether there is a connection.
  pub Advances-Told :
      {d : List GwSocketMessageIn} {w : List (Bytes × Bool)} {s u : Socket}
      → Advances d w s u
      → Inv s
      → NoWrap s
      → Told taken s
      → Told (taken ++ d) u
  Advances-Told (Advances.moves e w m) inv h told = rw (e, append-nil) (Moves-Told m inv h told)
  Advances-Told (Advances.enqueues m b e e' w) inv h told =
      rw (e, append-nil) (Writes-Told w h inv.no_future told)
  Advances-Told (Advances.drains e w e') inv h told = rw (e', e, append-nil) told
