-- ===== src/Socket/Machine/Calls.antt =====
-- src/GWSocket.cpp and src/SSLWebSocket.cpp: what each call of the interface, and each completion, may do.
use gwsockets.Prelude.{
  ℕ, ◌+◌, ◌%◌, ◌^◌, ◌≡◌, ◌≢◌, refl, sym, ◌∙◌, ◌⊎◌, inl, inr, Bool, ◌&&◌, [], ◌∷◌, ◌++◌, none, some,
  to_string, Post, Post-bind, Post-map, arith, get_elem?, erase_idx, if◌then◌else◌, Option-cases,
}
use gwsockets.Platform.{Platform}
use gwsockets.Socket.State.{
  Socket, connecting, connected, disconnect_requested, disconnecting, disconnected, same_state,
  resolve, Operation, no_reason, out_message, out_disconnect, out_of_type,
}
use gwsockets.Socket.Stream.{launch}
use gwsockets.Socket.Close.{clear_queue, do_close}
use gwsockets.Socket.Write.{check_writing, write, close}
use gwsockets.Socket.Connect.{verify_certificate, X509Error, x509_ok, certificate_message}
use gwsockets.Socket.Endings.{accepted, refused}
use gwsockets.Queue.{clear}
use gwsockets.Socket.Config.{
  assign, is_token, is_cookie_value, is_field_value, set_cookie, set_header,
  set_per_message_deflate, set_disable_context_takeover,
}
use gwsockets.Socket.Loop.{
  Completion, handle, receive, note_reason, complete, Call, opens, closes, closes_now, writes,
  clears_queue, sets_cookie, sets_header, sets_deflate, sets_takeover, verifies, takes_messages,
  completes, step,
}
use gwsockets.Socket.Invariant.{
  IsClosing, close_cases, open_socket_cases, close_now_cases, complete_cases,
  guard_generation_cases, receive-generation,
}
use gwsockets.Socket.Machine.Defs.{Ends, Writes, Handles}
use gwsockets.Socket.Machine.Handling.{error_connection-Ends, check_writing-Writes, handle-Handles}

module _ (platform : Platform) where
  -- The completion of the operation at a place: nothing but its bytes if it belongs to an earlier
  -- generation, its handler otherwise.
  abbrev pub Completes : ℕ → Completion → Socket → Socket → Type 0
  Completes i c s u =
      ((get_elem? s.operations i ≡ none) × (u ≡ s))
      ⊎ ((op : Operation) × (get_elem? s.operations i ≡ some op)
          × (((op.expected ≢ s.generation)
                × (u
                    ≡ receive op.action c.bytes
                        (record s { operations = erase_idx s.operations i })))
              ⊎ ((op.expected ≡ s.generation)
                  × Handles op.action
                      (note_reason c.reason (
                        receive op.action c.bytes
                          (record s { operations = erase_idx s.operations i })))
                      u)))

  -- What a call may make of a socket.
  abbrev pub Obeys : Call → Socket → Socket → Type 0
  Obeys (opens clear) s u =
      ((s.state ≢ disconnected) × (u ≡ s))
      ⊎ ((s.state ≡ disconnected)
          × (u
              ≡ launch (resolve s.host (to_string s.port)) (record s {
                state = connecting;
                generation = (s.generation + 1) % 2 ^ 32;
                write_queue = if clear then [] else s.write_queue;
              })))
  Obeys (closes spurious) s u =
      (((s.state ≢ connecting) × (s.state ≢ connected)) × (u ≡ s))
      ⊎ ((s.state ≡ connecting)
          × (u ≡ record s {
            state = disconnect_requested;
            write_queue = s.write_queue ++ out_of_type out_disconnect ∷ [];
          }))
      ⊎ ((s.state ≡ connected)
          × Writes
              (record s {
                state = disconnect_requested;
                write_queue = s.write_queue ++ out_of_type out_disconnect ∷ [];
              })
              u)
  Obeys closes_now s u =
      (IsClosing s × (u ≡ s))
      ⊎ ((¬ IsClosing s) × (u ≡ do_close no_reason (record s { state = disconnecting })))
  Obeys (writes spurious m b) s u =
      Writes
        (record s {
          write_queue =
              s.write_queue ++ record { type = out_message; message = m; binary = b } ∷ [];
        })
        u
  Obeys clears_queue s u = u ≡ record s { write_queue = [] }
  Obeys (sets_cookie key value) s u = u ≡ (
      if is_token platform key && is_cookie_value value && same_state s.state disconnected
      then record s { cookies = assign key value s.cookies }
      else s)
  Obeys (sets_header key value) s u = u ≡ (
      if is_token platform key && is_field_value platform value && same_state s.state disconnected
      then record s { headers = assign key value s.headers }
      else s)
  Obeys (sets_deflate value) s u = u ≡ record s { per_message_deflate = value }
  Obeys (sets_takeover value) s u = u ≡ record s { disable_context_takeover = value }
  Obeys (verifies preverified error) s u =
      ((error ≡ x509_ok) × (u ≡ s)) ⊎ ((error ≢ x509_ok) × Ends s u)
  Obeys takes_messages s u = u ≡ record s { message_queue = record { backing_queue = [] } }
  Obeys (completes spurious i c) s u = Completes i c s u

  complete-Completes :
      (spurious : Bool) (i : ℕ) (c : Completion) (s : Socket)
      → Post (Completes i c s) (complete platform spurious i c s)
  complete-Completes spurious i c s = elim (complete_cases platform spurious i c s) [
    | inl (gone, e) ↦ rw e (inl (gone, refl))
    | inr (op, at, e) ↦
        rw e
          (elim (guard_generation_cases platform spurious op c
            (receive op.action c.bytes (record s { operations = erase_idx s.operations i }))) [
              | inl (old, e') ↦ rw e' (inr (op, at, inl ((λ g. old (g ∙ sym (same op))), refl)))
              | inr (now, e') ↦ rw e' (
                  Post-map (handle platform spurious op.action c _)
                    (λ u h. inr (op, at, inr (now ∙ same op, h)))
                    (handle-Handles platform spurious op.action c _))
            ])
  ]
    where
      same :
          (op : Operation)
          → (receive op.action c.bytes
              (record s { operations = erase_idx s.operations i })).generation
            ≡ s.generation
      same op = receive-generation op.action c.bytes _

  verify_certificate-Obeys :
      (p : Bool) (e : X509Error) (s : Socket) → Obeys (verifies p e) s (verify_certificate p e s).0
  unfolding verify_certificate
  verify_certificate-Obeys p e s = elim (Option-cases (certificate_message e)) [
    | inl q ↦ inl (accepted e q, ground arith)
    | inr (m, q) ↦ inr (refused e m q, rw (q, verify_certificate) (error_connection-Ends m s))
  ]

  close-Obeys :
      (spurious : Bool) (s : Socket) → Post (λ r. Obeys (closes spurious) s r.0) (close spurious s)
  close-Obeys spurious s = elim (close_cases spurious s) [
    | inl (why, e) ↦ rw e (inl (why, refl))
    | inr (inl (c, e)) ↦ rw e (inr (inl (c, refl)))
    | inr (inr (c, e)) ↦ rw e (
        Post-bind _ (λ r. Obeys (closes spurious) s r.0) (check_writing spurious _) _
          (check_writing-Writes spurious _) (λ t w. inr (inr (c, w))))
  ]

  -- What each call does, with any arguments and any outcome of the operation that completes, is what the
  -- specification of that call allows: `open` starts an attempt exactly if the socket is disconnected,
  -- `close` asks for the end exactly if there is a connection or an attempt, `closeNow` closes exactly if
  -- nothing closes yet, cookies and headers are set exactly if they are valid and the socket is
  -- disconnected, a certificate with an error ends the connection, and a completion of an earlier
  -- generation leaves no more than its bytes.
  pub step-Obeys : (call : Call) (s : Socket) → Post (Obeys call s) (step platform call s)
  unfolding step clear_queue set_per_message_deflate set_disable_context_takeover write clear
      set_cookie set_header
  step-Obeys (opens clear) s = open_socket_cases clear s
  step-Obeys (closes spurious) s =
      Post-bind (λ r. Obeys (closes spurious) s r.0) (Obeys (closes spurious) s) (close spurious s)
        _ (close-Obeys spurious s) (λ r m. m)
  step-Obeys closes_now s = elim (close_now_cases no_reason s) [
    | inl (c, e) ↦ inl (c, rw e refl)
    | inr (c, e) ↦ inr (c, rw e refl)
  ]
  step-Obeys (writes spurious m b) s = check_writing-Writes spurious _
  step-Obeys clears_queue s = refl
  step-Obeys (sets_cookie key value) s = ground arith
  step-Obeys (sets_header key value) s = ground arith
  step-Obeys (sets_deflate value) s = refl
  step-Obeys (sets_takeover value) s = refl
  step-Obeys (verifies p e) s = verify_certificate-Obeys p e s
  step-Obeys takes_messages s = refl
  step-Obeys (completes spurious i c) s = complete-Completes spurious i c s
