-- ===== src/Socket/Machine/Delivery.antt =====
-- src/GWSocket.cpp: the messages that a socket sends, against those that it was given.
use mathlib.Core.List.{append_assoc, append-nil}
use gwsockets.Prelude.{
  ℕ, ◌≡◌, refl, sym, ap, subst, ◌∙◌, ◌⊎◌, inl, inr, Bool, true, false, List, [], ◌∷◌, ◌++◌, Bytes,
  arith, Post, Post-map, if◌then◌else◌, erase_idx,
}
use gwsockets.Platform.{Platform}
use gwsockets.Socket.State.{
  Socket, disconnect_requested, Action, read, GwSocketMessageOut, GwsMessageOutType, out_message,
  out_disconnect, out_of_type, GwSocketMessageIn,
}
use gwsockets.Socket.Stream.{launch, report, close_socket}
use gwsockets.Socket.Close.{do_close, clear_queue}
use gwsockets.Socket.Loop.{receive, note_reason, Call, step}
use gwsockets.Socket.Machine.Defs.{Ends, Writes, Handles, Moves, Advances, moves, enqueues, drains}
use gwsockets.Socket.Machine.Sound.{written, step-Advances}

content : GwsMessageOutType → GwSocketMessageOut → List (Bytes × Bool) → List (Bytes × Bool)
content out_message m rest = (m.message, m.binary) ∷ rest
content out_disconnect m rest = rest

-- The messages of the queue, without the requests to disconnect.
unfoldable pub queued : List GwSocketMessageOut → List (Bytes × Bool)
unfolding content
queued [] = []
queued (m ∷ rest) = content m.type m (queued rest)

-- What was handed to the stream, and what waits to be.
abbrev pub outgoing : Socket → List (Bytes × Bool)
outgoing s = s.sent ++ queued s.write_queue

-- The outgoing messages of `s` with those that a call brings, or nothing but what was handed to the
-- stream before.
abbrev pub Delivers : List (Bytes × Bool) → Socket → Socket → Type 0
Delivers new s u = (outgoing u ≡ outgoing s ++ new) ⊎ ((u.write_queue ≡ []) × (u.sent ≡ s.sent))

content-append :
    (type : GwsMessageOutType) (x : GwSocketMessageOut) (xs ys : List (Bytes × Bool))
    → content type x (xs ++ ys) ≡ content type x xs ++ ys
unfolding content
content-append out_message x xs ys = refl
content-append out_disconnect x xs ys = refl

queued-snoc :
    (q : List GwSocketMessageOut) (m : GwSocketMessageOut)
    → queued (q ++ m ∷ []) ≡ queued q ++ queued (m ∷ [])
unfolding queued
queued-snoc [] m = refl
queued-snoc (x ∷ q) m =
    ap (content x.type x) (queued-snoc q m) ∙ content-append x.type x (queued q) (queued (m ∷ []))

-- Nothing new: the outgoing messages stay, or those that wait are dropped.
abbrev Keeps : Socket → Socket → Type 0
Keeps s u = (outgoing u ≡ outgoing s) ⊎ ((u.write_queue ≡ []) × (u.sent ≡ s.sent))

Ends-Keeps : {s u : Socket} → Ends s u → Keeps s u
unfolding do_close clear_queue close_socket report
Ends-Keeps (Ends.already c e) = inl (rw e)
Ends-Keeps (Ends.closed r c e) = inr (ground arith)
Ends-Keeps (Ends.errored r c e) = inr (ground arith)

Ends-dropping : {s u : Socket} → Ends s u → (u ≡ s) ⊎ ((u.write_queue ≡ []) × (u.sent ≡ s.sent))
unfolding do_close clear_queue close_socket report
Ends-dropping (Ends.already c e) = inl e
Ends-dropping (Ends.closed r c e) = inr (ground arith)
Ends-dropping (Ends.errored r c e) = inr (ground arith)

Writes-Keeps : {s u : Socket} → Writes s u → Keeps s u
unfolding launch queued
Writes-Keeps (Writes.rests why e) = inl (rw e)
Writes-Keeps {s} (Writes.sends m rest stream may idle q t w e) =
    inl
      (rw (e, q) (rw (t, queued) (append_assoc s.sent ((m.message, m.binary) ∷ []) (queued rest))))
Writes-Keeps {s} (Writes.shuts m rest may idle q t w e) = inl (rw (e, q) (rw (t, queued) refl))
Writes-Keeps {s} {u} (Writes.gives_up m rest may idle q t ends) = elim (Ends-dropping ends) [
  | inl e ↦ inl (rw (e, q) (rw (t, queued) refl))
  | inr dropped ↦ inr dropped
]

Handles-Keeps : {a : Action} {s u : Socket} → Handles a s u → Keeps s u
unfolding launch do_close clear_queue close_socket report
Handles-Keeps (Handles.follows next ws f w e) = inl (rw e)
Handles-Keeps {a} {s} {u} (Handles.upgrades t h c w e writes) =
    subst (λ r. Keeps r u) e (Writes-Keeps writes)
Handles-Keeps (Handles.receives a w e) = inl (rw e)
Handles-Keeps (Handles.written a writes) = Writes-Keeps writes
Handles-Keeps (Handles.breaks ws a w ends) = Ends-Keeps ends
Handles-Keeps (Handles.disconnects r a e) = inr (ground arith)

-- Nothing new, in the form of a call that brings nothing.
Keeps-Delivers : (s u : Socket) → Keeps s u → Delivers [] s u
Keeps-Delivers s u (inl e) = inl (e ∙ sym (append-nil (outgoing s)))
Keeps-Delivers s u (inr dropped) = inr dropped

attempt-Keeps :
    (clear : Bool) (s : Socket)
    → Keeps s (record s { write_queue = if clear then [] else s.write_queue })
attempt-Keeps true s = inr (refl, refl)
attempt-Keeps false s = inl refl

request-Keeps :
    (s : Socket)
    → outgoing (record s { write_queue = s.write_queue ++ out_of_type out_disconnect ∷ [] })
      ≡ outgoing s
unfolding queued content
request-Keeps s =
    ap (◌++◌ s.sent) (queued-snoc s.write_queue (out_of_type out_disconnect) ∙ append-nil _)

requested-Keeps :
    (s u : Socket)
    → Keeps
        (record s {
          state = disconnect_requested;
          write_queue = s.write_queue ++ out_of_type out_disconnect ∷ [];
        })
        u
    → Keeps s u
requested-Keeps s u (inl k) = inl (k ∙ request-Keeps s)
requested-Keeps s u (inr dropped) = inr dropped

completed-Keeps :
    (a : Action) (bytes reason : Bytes) (i : ℕ) (s u : Socket)
    → Keeps
        (note_reason reason (receive a bytes (record s { operations = erase_idx s.operations i })))
        u
    → Keeps s u
unfolding receive note_reason
completed-Keeps read bytes reason i s u k = k
completed-Keeps _ bytes reason i s u k = k

received-Keeps :
    (a : Action) (bytes : Bytes) (i : ℕ) (s : Socket)
    → Keeps s (receive a bytes (record s { operations = erase_idx s.operations i }))
unfolding receive
received-Keeps read bytes i s = inl refl
received-Keeps _ bytes i s = inl refl

-- A call to `write` appends to what is outgoing.
write-Delivers :
    (m : Bytes) (b : Bool) (s u : Socket)
    → Keeps
        (record s {
          write_queue =
              s.write_queue ++ record { type = out_message; message = m; binary = b } ∷ [];
        })
        u
    → Delivers ((m, b) ∷ []) s u
unfolding queued content
write-Delivers m b s u (inl e) = inl (
    e
    ∙ (ap (◌++◌ s.sent)
          (queued-snoc s.write_queue (record { type = out_message; message = m; binary = b }))
        ∙ sym (append_assoc s.sent (queued s.write_queue) ((m, b) ∷ []))))
write-Delivers m b s u (inr dropped) = inr dropped

Moves-Keeps : {s u : Socket} → Moves s u → Keeps s u
unfolding launch note_reason
Moves-Keeps (Moves.stays e) = inl (rw e)
Moves-Keeps (Moves.configures cookies headers d e) = inl (rw e)
Moves-Keeps (Moves.adjusts d t e) = inl (rw e)
Moves-Keeps (Moves.empties e) = inr (ground arith)
Moves-Keeps {s} {u} (Moves.attempts c d e) = subst (λ r. Keeps s r) (sym e) (attempt-Keeps c s)
Moves-Keeps {s} (Moves.requests c e) = inl (rw e (request-Keeps s))
Moves-Keeps {s} {u} (Moves.requests_connected c w) = requested-Keeps s u (Writes-Keeps w)
Moves-Keeps (Moves.ends ends) = Ends-Keeps ends
Moves-Keeps {s} {u} (Moves.ignores i op bytes at g e) =
    subst (λ r. Keeps s r) (sym e) (received-Keeps op.action bytes i s)
Moves-Keeps {s} {u} (Moves.completes i op c at g h) =
    completed-Keeps op.action c.bytes c.reason i s u (Handles-Keeps h)

Advances-Delivers :
    {delivered : List GwSocketMessageIn} {written : List (Bytes × Bool)} {s u : Socket}
    → Advances delivered written s u
    → Delivers written s u
unfolding queued content
Advances-Delivers {s = s} {u} (moves d w m) =
    subst (λ l. Delivers l s u) (sym w) (Keeps-Delivers s u (Moves-Keeps m))
Advances-Delivers {s = s} {u} (enqueues m b d w writes) =
    subst (λ l. Delivers l s u) (sym w) (write-Delivers m b s u (Writes-Keeps writes))
Advances-Delivers {s = s} {u} (drains d w e) =
    subst (λ l. Delivers l s u) (sym w) (Keeps-Delivers s u (inl (rw e)))

-- No message is lost, doubled or overtaken: what was handed to the stream followed by what waits
-- grows by the message of the call, if it is a `write`, at the end, and else stays; unless the call
-- hands nothing over and leaves an empty queue, as `open` with `shouldClearQueue`, `clearQueue` and
-- every close do.
pub step_delivery :
    (platform : Platform) (call : Call) (s : Socket)
    → Post (Delivers (written call) s) (step platform call s)
step_delivery platform call s =
    Post-map (step platform call s) (λ u a. Advances-Delivers a) (step-Advances platform call s)
