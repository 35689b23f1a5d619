-- ===== src/Socket/Invariant/Writing.antt =====
-- src/GWSocket.cpp: `checkWriting`, its callers, and the invariant.
use gwsockets.Prelude.{
  ◌≡◌, ◌≢◌, refl, ◌⊎◌, inl, inr, Bool, true, false, none, some, List, [], ◌∷◌, ◌++◌, Post,
  Post-bind, ◌>>=◌, arith, Bytes, Option-cases,
}
use gwsockets.Socket.State.{
  Socket, connecting, connected, disconnect_requested, disconnecting, Action, GwSocketMessageOut,
  GwsMessageOutType, out_message, out_disconnect, Stream, close_stream, no_reason, out_of_type,
}
use gwsockets.Socket.Stream.{launch, async_write, async_close_socket}
use gwsockets.Socket.Close.{close_now}
use gwsockets.Socket.Write.{send, send_front, check_writing, write, close}
use gwsockets.Socket.Invariant.Defs.{Fits, tally, plus, Inv, NoWrap}
use gwsockets.Socket.Invariant.Count.{tally-launch}
use gwsockets.Socket.Invariant.Closing.{close_now-Inv}

pub launch-Inv :
    (a : Action) (s : Socket)
    → Fits s.state s.writing s.ws (plus a (tally s.generation s.operations))
    → Inv (launch a s)
unfolding launch
launch-Inv a s h = rw (tally-launch s.generation a s.operations) h

-- The two operations that `check_writing` starts need a stream.
module _ (s : Socket) where
  pub async_write_cases :
      (m : Bytes) (b : Bool)
      → ((s.ws ≡ none) × (async_write m b s ≡ none))
        ⊎ ((stream : Stream) × (s.ws ≡ some stream)
            × (async_write m b s
                ≡ some (
                    launch (Action.write m b) (record s {
                      message_to_write = m;
                      ws = some (record stream { binary = b });
                      sent = s.sent ++ (m, b) ∷ [];
                    }))))
  unfolding async_write
  async_write_cases m b = elim (Option-cases s.ws) [
    | inl e ↦ inl (e, ground arith)
    | inr (stream, e) ↦ inr (stream, e, ground arith)
  ]

  pub async_close_socket_cases :
      ((s.ws ≡ none) × (async_close_socket s ≡ none))
      ⊎ ((s.ws ≢ none) × (async_close_socket s ≡ some (launch close_stream s)))
  unfolding async_close_socket
  async_close_socket_cases = elim (Option-cases s.ws) [
    | inl e ↦ inl (e, ground arith)
    | inr (stream, e) ↦ inr (λ h. cc, ground arith)
  ]

pub send-disconnect_cases :
    (spurious : Bool) (m : GwSocketMessageOut) (s : Socket)
    → ((s.state ≡ disconnect_requested)
        × (spurious ≡ false)
        × (send spurious m out_disconnect s
            ≡ async_close_socket (record s { state = disconnecting })))
      ⊎ (((s.state ≢ disconnect_requested) ⊎ (spurious ≡ true))
          × (send spurious m out_disconnect s ≡ some (close_now no_reason s).0))
unfolding send
send-disconnect_cases true m s = inr (ground arith, ground arith)
send-disconnect_cases false m s = ground arith

abbrev pub MayWrite : Socket → Type 0
MayWrite s = (s.state ≡ connected) ⊎ (s.state ≡ disconnect_requested)

-- A socket that may write starts its next message, or closes.
module _ (s : Socket) (inv : Inv s) (idle : s.writing ≡ false) (may : MayWrite s) where
  abbrev popped : List GwSocketMessageOut → Socket
  popped rest = record s { writing = true; write_queue = rest }

  send_message-Inv :
      (m : Bytes) (b : Bool) (rest : List GwSocketMessageOut)
      → Post Inv (async_write m b (popped rest))
  send_message-Inv m b rest = elim (async_write_cases (popped rest) m b) [
    | inl (_, e) ↦ rw e tt
    | inr (stream, e, e') ↦ rw e' (launch-Inv _ _ (ground arith))
  ]

  send_close-Inv :
      (rest : List GwSocketMessageOut)
      → Post Inv (async_close_socket (record (popped rest) { state = disconnecting }))
  send_close-Inv rest =
      elim (async_close_socket_cases (record (popped rest) { state = disconnecting })) [
        | inl (_, e) ↦ rw e tt
        | inr (e, e') ↦ rw e' (launch-Inv _ _ (ground arith))
      ]

  send-Inv :
      (spurious : Bool) (m : GwSocketMessageOut) (type : GwsMessageOutType)
      (rest : List GwSocketMessageOut)
      → NoWrap s
      → Post Inv (send spurious m type (popped rest))
  unfolding send
  send-Inv spurious m out_message rest h = send_message-Inv m.message m.binary rest
  send-Inv spurious m out_disconnect rest h =
      elim (send-disconnect_cases spurious m (popped rest)) [
        | inl (_, _, e) ↦ rw e (send_close-Inv rest)
        | inr (_, e) ↦
            rw e (close_now-Inv no_reason (popped rest) h inv.no_future (λ closing. ground arith))
      ]

  send_front-Inv :
      (spurious : Bool) (queue : List GwSocketMessageOut)
      → NoWrap s
      → s.write_queue ≡ queue
      → Post Inv (send_front spurious queue s)
  unfolding send_front
  send_front-Inv spurious [] h e = inv
  send_front-Inv spurious (m ∷ rest) h e = send-Inv spurious m m.type rest h

pub check_writing_cases :
    (spurious : Bool) (s : Socket)
    → (MayWrite s
        × (s.writing ≡ false)
        × (check_writing spurious s ≡ send_front spurious s.write_queue s))
      ⊎ (((¬ MayWrite s) ⊎ (s.writing ≡ true)) × (check_writing spurious s ≡ some s))
unfolding check_writing
check_writing_cases spurious s = ground arith

pub check_writing-Inv :
    (spurious : Bool) (s : Socket) → Inv s → NoWrap s → Post Inv (check_writing spurious s)
check_writing-Inv spurious s inv h = elim (check_writing_cases spurious s) [
  | inl (may, idle, e) ↦ rw e (send_front-Inv s inv idle may spurious s.write_queue h refl)
  | inr (_, e) ↦ rw e inv
]

pub write-Inv :
    (spurious : Bool) (m : Bytes) (b : Bool) (s : Socket)
    → Inv s
    → NoWrap s
    → Post Inv (write spurious m b s)
unfolding write
write-Inv spurious m b s inv h = check_writing-Inv spurious _ inv h

pub close_cases :
    (spurious : Bool) (s : Socket)
    → let requested = record s {
      state = disconnect_requested;
      write_queue = s.write_queue ++ out_of_type out_disconnect ∷ [];
    } in
      (((s.state ≢ connecting) × (s.state ≢ connected)) × (close spurious s ≡ some (s, false)))
      ⊎ ((s.state ≡ connecting) × (close spurious s ≡ some (requested, true)))
      ⊎ ((s.state ≡ connected)
          × (close spurious s ≡ (check_writing spurious requested >>= λ t. some (t, true))))
unfolding close
close_cases spurious s = ground arith

pub close-Inv :
    (spurious : Bool) (s : Socket) → Inv s → NoWrap s → Post (λ r. Inv r.0) (close spurious s)
close-Inv spurious s inv h = elim (close_cases spurious s) [
  | inl (_, e) ↦ rw e inv
  | inr (inl (c, e)) ↦ rw e (ground arith)
  | inr (inr (c, e)) ↦ rw e (
      Post-bind _ _ (check_writing spurious _) _ (check_writing-Inv spurious _ (ground arith) h)
        (λ t i. i))
]
