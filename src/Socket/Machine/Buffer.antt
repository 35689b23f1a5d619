-- ===== src/Socket/Machine/Buffer.antt =====
-- src/GWSocket.h, `messageToWrite`: the stream writes from this string, so it has to stay as it is
-- until the handler of the write is called.
use gwsockets.Prelude.{
  refl, subst, ℕ, ◌+◌, ◌%◌, ◌^◌, ◌<◌, ◌≡◌, Bool, true, false, some, List, [], ◌∷◌, ◌++◌, Bytes,
  codes, bytes_eq, bytes_eq_refl, not, ◌||◌, arith, all, Post, Post-map, erase_idx,
}
use gwsockets.Platform.{Platform}
use gwsockets.Socket.State.{
  Socket, in_connected, in_message, connected, connecting, disconnecting, Action, read,
  close_stream, Operation, GwSocketMessageIn,
}
use gwsockets.Socket.Stream.{launch, report, close_socket}
use gwsockets.Socket.Close.{do_close}
use gwsockets.Socket.Loop.{receive, note_reason, Call, step}
use gwsockets.Socket.Invariant.{
  is_write, live, tally, Inv, NoWrap, Completing, arrival-Completing, arrival-keeps, tally-launch,
  all-idle, all-past,
}
use gwsockets.Socket.Machine.Defs.{Ends, Writes, Follows, Handles, Moves, Advances}
use gwsockets.Socket.Machine.Sound.{step-Advances}
use gwsockets.Socket.Machine.Streams.{all-erase_idx, all-snoc}

-- A write takes its bytes from a buffer that holds them.
abbrev pub writes_from : Bytes → Action → Bool
writes_from m (Action.write m' b) = bytes_eq m' m
writes_from m _ = true

abbrev pub writes_well : ℕ → Bytes → Operation → Bool
writes_well g m op = not (live g is_write op) || writes_from m op.action

abbrev pub AllBuffered : Socket → Type 0
AllBuffered s = all (writes_well s.generation s.message_to_write) s.operations ≡ true

launch-AllBuffered :
    (a : Action) (s : Socket)
    → writes_from s.message_to_write a ≡ true
    → AllBuffered s
    → AllBuffered (launch a s)
unfolding launch
launch-AllBuffered a s h b = all-snoc _ s.operations _ b (ground arith)

-- What lets the generation move on: no operation belongs to the next one.
abbrev MovesOn : Socket → Type 0
MovesOn s = NoWrap s × ((tally s.generation s.operations).future ≡ 0)

later-AllBuffered :
    (m : Bytes) (s : Socket)
    → MovesOn s
    → all (writes_well ((s.generation + 1) % 2 ^ 32) m) s.operations ≡ true
later-AllBuffered m s (few, past) = all-past s.generation _ s.operations (λ op k. ground arith) past

do_close-AllBuffered : (r : Bytes) (s : Socket) → MovesOn s → AllBuffered (do_close r s)
unfolding do_close report close_socket
do_close-AllBuffered r s may_move = ground (arith, later-AllBuffered s.message_to_write s)

Ends-AllBuffered : {s u : Socket} → Ends s u → MovesOn s → AllBuffered s → AllBuffered u
unfolding report
Ends-AllBuffered (Ends.already c e) may_move b = rw e b
Ends-AllBuffered (Ends.closed r c e) may_move b = rw e (do_close-AllBuffered r _ may_move)
Ends-AllBuffered (Ends.errored r c e) may_move b = rw e (do_close-AllBuffered r _ may_move)

-- The next write waits until none is in flight.
Writes-AllBuffered :
    {s u : Socket}
    → Writes s u
    → MovesOn s
    → (s.writing ≡ false → (tally s.generation s.operations).writes ≡ 0)
    → AllBuffered s
    → AllBuffered u
Writes-AllBuffered (Writes.rests why e) may_move h b = rw e b
Writes-AllBuffered {s} (Writes.sends m rest stream may idle q t w e) may_move h b = rw e (
    launch-AllBuffered (Action.write m.message m.binary)
      (record s {
        writing = true;
        write_queue = rest;
        message_to_write = m.message;
        ws = some (record stream { binary = m.binary });
        sent = s.sent ++ (m.message, m.binary) ∷ [];
      })
      (bytes_eq_refl m.message)
      (all-idle s.generation _ s.operations (λ op k. ground arith) (h idle)))
Writes-AllBuffered {s} (Writes.shuts m rest may idle q t w e) may_move h b = rw e (
    launch-AllBuffered close_stream
      (record s { writing = true; write_queue = rest; state = disconnecting }) refl b)
Writes-AllBuffered (Writes.gives_up m rest may idle q t ends) may_move h b =
    Ends-AllBuffered ends may_move b

Follows-writes_from : {a next : Action} → Follows a next → (m : Bytes) → writes_from m next ≡ true
Follows-writes_from (Follows.resolved host service e) m = refl
Follows-writes_from (Follows.connected_tls e host path) m = refl
Follows-writes_from (Follows.connected_plain e host path fields) m = refl
Follows-writes_from (Follows.secured host path host' path' fields) m = refl

-- The socket after the handshake.
abbrev upgraded : Socket → Socket
upgraded s = launch read (report in_connected (codes "Connected") (record s { state = connected }))

-- Nothing is being written then.
upgraded-ready :
    (a : Action) (s : Socket)
    → Completing a s
    → NoWrap s
    → s.state ≡ connecting
    → MovesOn (upgraded s) × ((tally (upgraded s).generation (upgraded s).operations).writes ≡ 0)
unfolding launch report
upgraded-ready a s inv few c = ground (
  arith,
  tally-launch s.generation read s.operations,
  inv.no_future,
  inv.one_output,
  inv.when_connecting c,
)

Handles-AllBuffered :
    {a : Action} {s u : Socket}
    → Handles a s u
    → Completing a s
    → NoWrap s
    → AllBuffered s
    → AllBuffered u
unfolding report
Handles-AllBuffered {a} {s} (Handles.follows next ws f w e) inv few b =
    rw e
      (launch-AllBuffered next (record s { ws = ws }) (Follows-writes_from f s.message_to_write) b)
Handles-AllBuffered {a} {s} {u} (Handles.upgrades t h c w e writes) inv few b =
    let ready = upgraded-ready a s inv few c in
    Writes-AllBuffered (subst (λ x. Writes x u) e writes) ready.0 (λ i. ready.1)
      (launch-AllBuffered read
        (report in_connected (codes "Connected") (record s { state = connected })) refl b)
Handles-AllBuffered {a} {s} (Handles.receives r w e) inv few b = rw e (
    launch-AllBuffered read (record (report in_message s.read_buffer s) { read_buffer = [] }) refl
      b)
Handles-AllBuffered {a} {s} (Handles.written r writes) inv few b =
    Writes-AllBuffered writes (few, inv.no_future) (λ i. ground (arith, inv.one_output)) b
Handles-AllBuffered (Handles.breaks ws c w ends) inv few b =
    Ends-AllBuffered ends (few, inv.no_future) b
Handles-AllBuffered {a} {s} (Handles.disconnects r c e) inv few b =
    rw e (do_close-AllBuffered r s (few, inv.no_future))

receive-AllBuffered :
    (a : Action) (bytes : Bytes) (s : Socket) → AllBuffered s → AllBuffered (receive a bytes s)
unfolding receive
receive-AllBuffered read bytes s b = b
receive-AllBuffered _ bytes s b = b

taken-AllBuffered :
    (i : ℕ) (op : Operation) (bytes : Bytes) (s : Socket)
    → AllBuffered s
    → AllBuffered (receive op.action bytes (record s { operations = erase_idx s.operations i }))
taken-AllBuffered i op bytes s b =
    receive-AllBuffered op.action bytes (record s { operations = erase_idx s.operations i })
      (all-erase_idx _ s.operations i b)

Moves-AllBuffered : {s u : Socket} → Moves s u → Inv s → NoWrap s → AllBuffered s → AllBuffered u
unfolding note_reason launch
Moves-AllBuffered (Moves.stays e) inv few b = rw e b
Moves-AllBuffered (Moves.configures cookies headers d e) inv few b = rw e b
Moves-AllBuffered (Moves.adjusts d t e) inv few b = rw e b
Moves-AllBuffered (Moves.empties e) inv few b = rw e b
Moves-AllBuffered {s} (Moves.attempts c d e) inv few b = rw e (
    all-snoc _ s.operations _ (later-AllBuffered s.message_to_write s (few, inv.no_future))
      (ground arith))
Moves-AllBuffered (Moves.requests c e) inv few b = rw e b
Moves-AllBuffered (Moves.requests_connected c w) inv few b =
    Writes-AllBuffered w (few, inv.no_future) (λ i. ground (arith, inv.one_output)) b
Moves-AllBuffered (Moves.ends ends) inv few b = Ends-AllBuffered ends (few, inv.no_future) b
Moves-AllBuffered {s} (Moves.ignores i op bytes at g e) inv few b =
    rw e (taken-AllBuffered i op bytes s b)
Moves-AllBuffered {s} (Moves.completes i op c at g h) inv few b =
    Handles-AllBuffered h (arrival-Completing c.bytes c.reason s i op at g inv)
      (arrival-keeps (λ st q g ops. g + 1 < 2 ^ 32) op.action c.bytes c.reason
        (record s { operations = erase_idx s.operations i }) few)
      (taken-AllBuffered i op c.bytes s b)

Advances-AllBuffered :
    {d : List GwSocketMessageIn} {w : List (Bytes × Bool)} {s u : Socket}
    → Advances d w s u
    → Inv s
    → NoWrap s
    → AllBuffered s
    → AllBuffered u
Advances-AllBuffered (Advances.moves d w m) inv few b = Moves-AllBuffered m inv few b
Advances-AllBuffered (Advances.enqueues m t d e w) inv few b =
    Writes-AllBuffered w (few, inv.no_future) (λ i. ground (arith, inv.one_output)) b
Advances-AllBuffered (Advances.drains d w e) inv few b = rw e b

pub step-AllBuffered :
    (platform : Platform) (call : Call) (s : Socket)
    → Inv s
    → NoWrap s
    → AllBuffered s
    → Post AllBuffered (step platform call s)
step-AllBuffered platform call s inv few b =
    Post-map (step platform call s) (λ u a. Advances-AllBuffered a inv few b)
      (step-Advances platform call s)
