-- ===== src/Socket/Invariant/Steps.antt =====
-- src/GWSocket.cpp and src/SSLWebSocket.cpp: every call keeps the invariant, and so do histories.
use gwsockets.Prelude.{
  ℕ, ◌+◌, ◌%◌, ◌^◌, to_string, if◌then◌else◌, ◌≡◌, ◌≢◌, refl, sym, ◌∙◌, ◌⊎◌, inl, inr, Bool, true,
  false, none, some, List, [], Bytes, Option-cases, Post, Post-bind, arith, get_elem?, erase_idx,
}
use gwsockets.Platform.{Platform}
use gwsockets.Socket.State.{
  Socket, SocketKind, SocketState, connecting, disconnected, Action, resolve, read, Operation,
  no_reason, new_socket, GwSocketMessageIn,
}
use gwsockets.Socket.Stream.{launch}
use gwsockets.Socket.Close.{clear_queue, error_connection}
use gwsockets.Socket.Write.{close}
use gwsockets.Socket.Connect.{open_socket, verify_certificate, certificate_message, X509Error}
use gwsockets.Socket.Config.{
  set_cookie, set_header, set_per_message_deflate, set_disable_context_takeover,
}
use gwsockets.Socket.Loop.{
  Completion, handle, receive, note_reason, guard_generation, complete, Call, opens, closes,
  closes_now, writes, clears_queue, sets_cookie, sets_header, sets_deflate, sets_takeover, verifies,
  takes_messages, completes, step,
}
use gwsockets.Socket.Invariant.Defs.{Fits, tally, Tally, plus, Inv, NoWrap, nothing}
use gwsockets.Socket.Invariant.Count.{tally-empty, tally-next, tally_complete, tally-stale}
use gwsockets.Socket.Invariant.Closing.{close_now-Inv, error_connection-Inv}
use gwsockets.Socket.Invariant.Writing.{launch-Inv, write-Inv, close-Inv}
use gwsockets.Socket.Invariant.Handlers.{Completing, handle-Inv}

pub new_socket-Inv :
    (kind : SocketKind) (host : Bytes) (port : ℕ) (path : Bytes)
    → Inv (new_socket kind host port path)
unfolding new_socket
new_socket-Inv kind host port path = rw (tally-empty 0) (ground arith)

pub open_socket_cases :
    (clear : Bool) (s : Socket)
    → ((s.state ≢ disconnected) × (open_socket clear s ≡ s))
      ⊎ ((s.state ≡ disconnected)
          × (open_socket clear s
              ≡ launch (resolve s.host (to_string s.port)) (record s {
                state = connecting;
                generation = (s.generation + 1) % 2 ^ 32;
                write_queue = if clear then [] else s.write_queue;
              })))
unfolding open_socket clear_queue
open_socket_cases clear s = ground arith

open_socket-Inv : (clear : Bool) (s : Socket) → Inv s → NoWrap s → Inv (open_socket clear s)
open_socket-Inv clear s inv h = elim (open_socket_cases clear s) [
  | inl (_, e) ↦ rw e inv
  | inr (down, e) ↦ rw e (launch-Inv _ _ (rw (one_more, next) (ground arith)))
]
  where
    one_more : (s.generation + 1) % 2 ^ 32 ≡ s.generation + 1
    one_more = omega arith

    next : tally (s.generation + 1) s.operations ≡ nothing
    next = tally-next s.generation s.operations inv.no_future

pub verify_certificate_cases :
    (p : Bool) (e : X509Error) (s : Socket)
    → (verify_certificate p e s ≡ (s, true))
      ⊎ ((m : Bytes) × (verify_certificate p e s ≡ ((error_connection m s).0, false)))
unfolding verify_certificate
verify_certificate_cases p e s = elim (Option-cases (certificate_message e)) [
  | inl q ↦ inl (ground arith)
  | inr (m, q) ↦ inr (m, ground arith)
]

verify_certificate-Inv :
    (p : Bool) (e : X509Error) (s : Socket) → Inv s → NoWrap s → Inv (verify_certificate p e s).0
verify_certificate-Inv p e s inv h = elim (verify_certificate_cases p e s) [
  | inl q ↦ rw q inv
  | inr (m, q) ↦ rw q (error_connection-Inv m s h inv.no_future (λ closing. inv))
]

-- What the stream fills in does not matter here.
module _ (f : Tally → Tally) (s : Socket)
    (fits : Fits s.state s.writing s.ws (f (tally s.generation s.operations))) where
  pub receive-Fits :
      (a : Action) (bytes : Bytes)
      → let t = receive a bytes s in
        Fits t.state t.writing t.ws (f (tally t.generation t.operations))
  unfolding receive
  receive-Fits read bytes = fits
  receive-Fits _ bytes = fits

  pub note_reason-Fits :
      (reason : Bytes)
      → let t = note_reason reason s in
        Fits t.state t.writing t.ws (f (tally t.generation t.operations))
  unfolding note_reason
  note_reason-Fits reason = ground arith

-- The operations, the state and the reports stay when a completion arrives.
pub receive-keeps :
    (p : SocketState → List GwSocketMessageIn → ℕ → List Operation → Type 0) (a : Action)
    (bytes : Bytes) (s : Socket)
    → p s.state s.message_queue.backing_queue s.generation s.operations
    → let t = receive a bytes s in p t.state t.message_queue.backing_queue t.generation t.operations
unfolding receive
receive-keeps p read bytes s h = h
receive-keeps p _ bytes s h = h

pub arrival-keeps :
    (p : SocketState → List GwSocketMessageIn → ℕ → List Operation → Type 0) (a : Action)
    (bytes : Bytes) (reason : Bytes) (s : Socket)
    → p s.state s.message_queue.backing_queue s.generation s.operations
    → let t = note_reason reason (receive a bytes s) in
      p t.state t.message_queue.backing_queue t.generation t.operations
unfolding note_reason
arrival-keeps p a bytes reason s h = receive-keeps p a bytes s h

pub receive-generation :
    (a : Action) (bytes : Bytes) (s : Socket) → (receive a bytes s).generation ≡ s.generation
receive-generation a bytes s = receive-keeps (λ st q g ops. g ≡ s.generation) a bytes s refl

note_reason-generation :
    (reason : Bytes) (s : Socket) → (note_reason reason s).generation ≡ s.generation
unfolding note_reason
note_reason-generation reason s = refl

-- The operation that is called was in flight.
pub arrival-Completing :
    (bytes reason : Bytes) (s : Socket) (i : ℕ) (op : Operation)
    → get_elem? s.operations i ≡ some op
    → op.expected ≡ s.generation
    → Inv s
    → Completing op.action (
        note_reason reason
          (receive op.action bytes (record s { operations = erase_idx s.operations i })))
arrival-Completing bytes reason s i op at q inv =
    note_reason-Fits (plus op.action) _
      (receive-Fits (plus op.action) _
        (rw (← tally_complete s.generation s.operations i op at q) inv) op.action bytes)
      reason

pub guard_generation_cases :
    (platform : Platform) (spurious : Bool) (op : Operation) (c : Completion) (s : Socket)
    → ((op.expected ≢ s.generation) × (guard_generation platform spurious op c s ≡ some s))
      ⊎ ((op.expected ≡ s.generation)
          × (guard_generation platform spurious op c s
              ≡ handle platform spurious op.action c (note_reason c.reason s)))
unfolding guard_generation
guard_generation_cases platform spurious op c s = ground arith

pub complete_cases :
    (platform : Platform) (spurious : Bool) (i : ℕ) (c : Completion) (s : Socket)
    → ((get_elem? s.operations i ≡ none) × (complete platform spurious i c s ≡ some s))
      ⊎ ((op : Operation) × (get_elem? s.operations i ≡ some op)
          × (complete platform spurious i c s
              ≡ guard_generation platform spurious op c
                  (receive op.action c.bytes (record s { operations = erase_idx s.operations i }))))
unfolding complete
complete_cases platform spurious i c s = elim (Option-cases (get_elem? s.operations i)) [
  | inl e ↦ inl (e, ground arith)
  | inr (op, e) ↦ inr (op, e, ground arith)
]

-- A completion does nothing to the operations of the generation, or calls the handler of one that was
-- in flight.
pub Completing-cases :
    (platform : Platform) (spurious : Bool) (i : ℕ) (c : Completion) (s : Socket)
    → Inv s
    → ((t : Socket) × Inv t × (complete platform spurious i c s ≡ some t))
      ⊎ ((a : Action) × (t : Socket) × Completing a t
          × (t.generation ≡ s.generation)
          × (complete platform spurious i c s ≡ handle platform spurious a c t))
Completing-cases platform spurious i c s inv = elim (complete_cases platform spurious i c s) [
  | inl (_, e) ↦ inl (s, inv, e)
  | inr (op, at, e) ↦ elim (guard_generation_cases platform spurious op c (taken op)) [
    | inl (old, e') ↦ inl (
      taken op,
      receive-Fits (λ n. n) _ (stale op at (λ q. old (q ∙ sym (same op)))) op.action c.bytes,
      e ∙ e',
    )
    | inr (now, e') ↦ inr (
      op.action,
      note_reason c.reason (taken op),
      arrival-Completing c.bytes c.reason s i op at (now ∙ same op) inv,
      note_reason-generation c.reason _ ∙ same op,
      e ∙ e',
    )
  ]
]
  where
    taken : Operation → Socket
    taken op = receive op.action c.bytes (record s { operations = erase_idx s.operations i })

    same : (op : Operation) → (taken op).generation ≡ s.generation
    same op = receive-generation op.action c.bytes _

    stale :
        (op : Operation)
        → get_elem? s.operations i ≡ some op
        → op.expected ≢ s.generation
        → Fits s.state s.writing s.ws (tally s.generation (erase_idx s.operations i))
    stale op at q =
        rw (← tally-stale s.generation s.operations i op at (ground arith) inv.no_future) inv

complete-Inv :
    (platform : Platform) (spurious : Bool) (i : ℕ) (c : Completion) (s : Socket)
    → Inv s
    → NoWrap s
    → Post Inv (complete platform spurious i c s)
complete-Inv platform spurious i c s inv h = elim (Completing-cases platform spurious i c s inv) [
  | inl (t, i, e) ↦ rw e i
  | inr (a, t, fits, same, e) ↦ rw e (handle-Inv platform spurious a c t (rw same h) fits)
]

-- Setters do not touch what the invariant speaks of.
setter-Inv :
    (platform : Platform) (key value : Bytes) (s : Socket)
    → Inv s
    → Inv (set_cookie platform key value s).0 × Inv (set_header platform key value s).0
unfolding set_cookie set_header
setter-Inv platform key value s inv = (ground arith, ground arith)

-- Every call of the interface, and every completion of an operation with any outcome, keeps the
-- invariant of a socket, as long as the generation does not wrap; a step into a null stream has no
-- result. The invariant says of the current generation: at most one operation of a connection
-- attempt or read is in flight; exactly one write or close is if `writing` is set, and none
-- otherwise; a disconnected socket has nothing in flight; a connecting one has one operation of its
-- attempt; a connected one has one read and no close; a disconnecting one has a close in flight.
pub step-Inv :
    (platform : Platform) (call : Call) (s : Socket)
    → Inv s
    → NoWrap s
    → Post Inv (step platform call s)
unfolding step clear_queue set_per_message_deflate set_disable_context_takeover
step-Inv platform (opens clear) s inv h = open_socket-Inv clear s inv h
step-Inv platform (closes spurious) s inv h =
    Post-bind (λ r. Inv r.0) Inv (close spurious s) _ (close-Inv spurious s inv h) (λ r i. i)
step-Inv platform closes_now s inv h = close_now-Inv no_reason s h inv.no_future (λ closing. inv)
step-Inv platform (writes spurious m b) s inv h = write-Inv spurious m b s inv h
step-Inv platform clears_queue s inv h = inv
step-Inv platform (sets_cookie key value) s inv h = (setter-Inv platform key value s inv).0
step-Inv platform (sets_header key value) s inv h = (setter-Inv platform key value s inv).1
step-Inv platform (sets_deflate value) s inv h = inv
step-Inv platform (sets_takeover value) s inv h = inv
step-Inv platform (verifies p e) s inv h = verify_certificate-Inv p e s inv h
step-Inv platform takes_messages s inv h = inv
step-Inv platform (completes spurious i c) s inv h = complete-Inv platform spurious i c s inv h
