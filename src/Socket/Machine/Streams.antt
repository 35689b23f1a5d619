-- ===== src/Socket/Machine/Streams.antt =====
-- src/GWSocket.cpp: a socket keeps its stream, and without one it has nothing to do with a stream. This
-- holds however often the generation wraps.
use gwsockets.Prelude.{
  refl, ℕ, zero, suc, ◌≡◌, ◌≢◌, Bool, true, none, some, List, [], ◌∷◌, ◌++◌, Bytes, arith, all,
  Post, Post-map, get_elem?, erase_idx,
}
use gwsockets.Platform.{Platform}
use gwsockets.Socket.State.{Socket, connected, Action, read, Operation, GwSocketMessageIn}
use gwsockets.Socket.Stream.{launch, report, close_socket}
use gwsockets.Socket.Close.{do_close}
use gwsockets.Socket.Loop.{receive, note_reason, Call, step}
use gwsockets.Socket.Invariant.{is_resolve}
use gwsockets.Socket.Machine.Defs.{Ends, Writes, Handles, Moves, Advances}
use gwsockets.Socket.Machine.Sound.{step-Advances}

abbrev pub resolves_host : Operation → Bool
resolves_host op = is_resolve op.action

-- A socket without a stream is not connected, and its operations in flight resolve its host.
abbrev pub Backed : Socket → Type 0
Backed s = s.ws ≡ none → (all resolves_host s.operations ≡ true) × (s.state ≢ connected)

module _ (p : Operation → Bool) where
  pub all-erase_idx :
      (ops : List Operation) (i : ℕ) → all p ops ≡ true → all p (erase_idx ops i) ≡ true
  all-erase_idx [] i h = h
  all-erase_idx (op ∷ ops) zero h = ground arith
  all-erase_idx (op ∷ ops) (suc i) h = ground (arith, all-erase_idx ops i)

  pub all-snoc :
      (ops : List Operation) (op : Operation)
      → all p ops ≡ true
      → p op ≡ true
      → all p (ops ++ op ∷ []) ≡ true
  all-snoc [] op h k = ground arith
  all-snoc (op' ∷ ops) op h k = ground (arith, all-snoc ops op)

  pub all-get_elem? :
      (ops : List Operation) (i : ℕ) (op : Operation)
      → all p ops ≡ true
      → get_elem? ops i ≡ some op
      → p op ≡ true
  all-get_elem? [] i op h e = absurd (ground arith)
  all-get_elem? (op' ∷ ops) zero op h e = ground arith
  all-get_elem? (op' ∷ ops) (suc i) op h e = all-get_elem? ops i op (ground arith) e

-- The stream stays, and what comes without one.
pub record Keeps (s u : Socket) : Type 0 where
  pub stream : u.ws ≡ none → s.ws ≡ none
  pub backed : Backed s → Backed u

Ends-Keeps : {s u : Socket} → Ends s u → Keeps s u
unfolding do_close report close_socket
Ends-Keeps (Ends.already c e) = ground arith
Ends-Keeps (Ends.closed r c e) = ground arith
Ends-Keeps (Ends.errored r c e) = ground arith

Writes-Keeps : {s u : Socket} → Writes s u → Keeps s u
unfolding launch
Writes-Keeps (Writes.rests why e) = ground arith
Writes-Keeps (Writes.sends m rest stream may idle q t w e) = ground arith
Writes-Keeps (Writes.shuts m rest may idle q t w e) = ground arith
Writes-Keeps (Writes.gives_up m rest may idle q t ends) = ground (arith, Ends-Keeps ends)

-- What a handler starts needs a stream.
Handles-Keeps :
    {a : Action} {s u : Socket}
    → Handles a s u
    → (u.ws ≡ none → s.ws ≡ none) × ((s.ws ≡ none → is_resolve a ≡ true) → Backed s → Backed u)
unfolding launch do_close report close_socket
Handles-Keeps (Handles.follows next ws f w e) = ground arith
Handles-Keeps (Handles.upgrades t h c w e writes) = ground (arith, Writes-Keeps writes)
Handles-Keeps (Handles.receives a w e) = ground arith
Handles-Keeps (Handles.written a writes) = ground (arith, Writes-Keeps writes)
Handles-Keeps (Handles.breaks ws a w ends) = ground (arith, Ends-Keeps ends)
Handles-Keeps (Handles.disconnects r a e) = ground arith

receive-Keeps : (a : Action) (bytes : Bytes) (s : Socket) → Keeps s (receive a bytes s)
unfolding receive
receive-Keeps read bytes s = ground arith
receive-Keeps _ bytes s = ground arith

-- The operation is taken out, and the stream holds what it has received and the close reason.
taken-Keeps :
    {s : Socket} (i : ℕ) (op : Operation) (bytes : Bytes)
    → Keeps s (receive op.action bytes (record s { operations = erase_idx s.operations i }))
taken-Keeps {s} i op bytes = ground (
  arith,
  all-erase_idx resolves_host s.operations i,
  receive-Keeps op.action bytes (record s { operations = erase_idx s.operations i }),
)

pub arrival-Keeps :
    {s : Socket} (reason : Bytes) (i : ℕ) (op : Operation) (bytes : Bytes)
    → Keeps s (
        note_reason reason
          (receive op.action bytes (record s { operations = erase_idx s.operations i })))
unfolding note_reason
arrival-Keeps {s} reason i op bytes = ground (arith, taken-Keeps {s = s} i op bytes)

Moves-Keeps : {s u : Socket} → Moves s u → Keeps s u
unfolding launch
Moves-Keeps (Moves.stays e) = ground arith
Moves-Keeps (Moves.configures cookies headers d e) = ground arith
Moves-Keeps (Moves.adjusts d t e) = ground arith
Moves-Keeps (Moves.empties e) = ground arith
Moves-Keeps {s} (Moves.attempts c d e) = rw e (record {
  stream = λ w. w;
  backed = λ b w. (all-snoc resolves_host s.operations _ (b w).0 refl, λ c. absurd (ground arith));
})
Moves-Keeps (Moves.requests c e) = ground arith
Moves-Keeps (Moves.requests_connected c w) = ground (arith, Writes-Keeps w)
Moves-Keeps (Moves.ends ends) = Ends-Keeps ends
Moves-Keeps {s} {u} (Moves.ignores i op bytes at g e) = rw e (taken-Keeps i op bytes)
Moves-Keeps {s} {u} (Moves.completes i op c at g h) =
    let came = arrival-Keeps c.reason i op c.bytes in
    record {
      stream = λ w. came.stream ((Handles-Keeps h).0 w);
      backed = λ b.
          (Handles-Keeps h).1
            (λ w. all-get_elem? resolves_host s.operations i op (b (came.stream w)).0 at)
            (came.backed b);
    }

Advances-Keeps :
    {d : List GwSocketMessageIn} {w : List (Bytes × Bool)} {s u : Socket}
    → Advances d w s u
    → Keeps s u
Advances-Keeps (Advances.moves d w m) = Moves-Keeps m
Advances-Keeps (Advances.enqueues m b d e w) = ground (arith, Writes-Keeps w)
Advances-Keeps (Advances.drains d w e) = ground arith

pub step-Keeps :
    (platform : Platform) (call : Call) (s : Socket) → Post (Keeps s) (step platform call s)
step-Keeps platform call s =
    Post-map (step platform call s) (λ u a. Advances-Keeps a) (step-Advances platform call s)
