-- ===== src/Socket/NullStream.antt =====
-- src/GWSocket.cpp, src/WebSocket.cpp and src/SSLWebSocket.cpp: when `getWS()->` goes through the null
-- pointer.
use gwsockets.Prelude.{
  ℕ, ◌≡◌, ◌≢◌, ◌⊎◌, inl, inr, Bool, true, false, none, List, [], ◌∷◌, ◌++◌, Bytes, arith, codes,
  Option-cases, refl,
}
use gwsockets.Platform.{Platform, ErrorCode}
use gwsockets.Socket.State.{
  Socket, connected, disconnect_requested, disconnecting, Action, resolve, connect, tls_handshake,
  handshake, read, close_stream, GwSocketMessageOut, GwsMessageOutType, out_message, out_disconnect,
  in_connected, out_of_type,
}
use gwsockets.Socket.Stream.{
  launch, reset_ws, async_read, async_write, async_close_socket, async_handshake,
  websocket_handshake, report,
}
use gwsockets.Socket.Write.{send, send_front, check_writing, write, close, on_write}
use gwsockets.Socket.Connect.{
  async_connect, host_resolved_step, socket_connected, handshake_completed, ssl_handshake_complete,
  on_read, decorate,
}
use gwsockets.Socket.Loop.{Completion, handle, complete, Call, closes, writes, completes, step}
use gwsockets.Socket.Invariant.{
  Inv, Completing, is_resolve, MayWrite, close_cases, Completing-cases,
}

-- With a stream no operation on it fails.
module _ (s : Socket) (stream : s.ws ≢ none) where
  async_write-ne-none : (m : Bytes) (b : Bool) → async_write m b s ≢ none
  unfolding async_write
  async_write-ne-none m b = ground arith

  async_close_socket-ne-none : async_close_socket s ≢ none
  unfolding async_close_socket
  async_close_socket-ne-none = ground arith

  async_read-ne-none : async_read s ≢ none
  unfolding async_read
  async_read-ne-none = ground arith

send-ne-none :
    (spurious : Bool) (m : GwSocketMessageOut) (type : GwsMessageOutType) (s : Socket)
    → s.ws ≢ none
    → send spurious m type s ≢ none
unfolding send
send-ne-none spurious m out_message s h = async_write-ne-none s h m.message m.binary
send-ne-none spurious m out_disconnect s h =
    ground (arith, async_close_socket-ne-none (record s { state = disconnecting }))

send_front-ne-none :
    (spurious : Bool) (queue : List GwSocketMessageOut) (s : Socket)
    → s.ws ≢ none
    → send_front spurious queue s ≢ none
unfolding send_front
send_front-ne-none spurious [] s h = ground arith
send_front-ne-none spurious (m ∷ rest) s h = send-ne-none spurious m m.type _ h

pub check_writing-ne-none :
    (spurious : Bool) (s : Socket)
    → (s.ws ≢ none) ⊎ (¬ MayWrite s)
    → check_writing spurious s ≢ none
unfolding check_writing
check_writing-ne-none spurious s (inl h) =
    ground (arith, send_front-ne-none spurious s.write_queue s h)
check_writing-ne-none spurious s (inr h) = ground arith

module _ (platform : Platform) (ec : ErrorCode) (s : Socket) where
  pub on_write-ne-none : (spurious : Bool) → s.ws ≢ none → on_write platform spurious ec s ≢ none
  unfolding on_write
  on_write-ne-none spurious h =
      ground (arith, check_writing-ne-none spurious (record s { writing = false }) (inl h))

  pub on_read-ne-none : s.ws ≢ none → on_read platform ec s ≢ none
  unfolding on_read async_read report
  on_read-ne-none h = ground arith

  websocket_handshake-ne-none :
      (host path : Bytes) (d : Socket → List (Bytes × Bytes))
      → s.ws ≢ none
      → websocket_handshake host path d s ≢ none
  unfolding websocket_handshake
  websocket_handshake-ne-none host path d h = ground arith

  pub handshake_completed-ne-none :
      (spurious : Bool) → s.ws ≢ none → handshake_completed platform spurious ec s ≢ none
  unfolding handshake_completed async_read report launch
  handshake_completed-ne-none spurious h = ground (
    arith,
    check_writing-ne-none spurious
        (launch read (report in_connected (codes "Connected") (record s { state = connected })))
        (inl h),
  )

  pub host_resolved_step-ne-none : (e : List ℕ) → host_resolved_step platform ec e s ≢ none
  unfolding host_resolved_step async_connect reset_ws
  host_resolved_step-ne-none e = ground arith

  pub socket_connected-ne-none : s.ws ≢ none → socket_connected platform ec s ≢ none
  unfolding socket_connected async_handshake websocket_handshake
  socket_connected-ne-none h = ground arith

  pub ssl_handshake_complete-ne-none :
      (spurious : Bool) (host path : Bytes)
      → s.ws ≢ none
      → ssl_handshake_complete platform spurious ec host path decorate s ≢ none
  unfolding ssl_handshake_complete
  ssl_handshake_complete-ne-none spurious host path h = ground (
    arith,
    websocket_handshake-ne-none host path decorate h,
    handshake_completed-ne-none spurious h,
  )

-- Only the handler of the resolver can do without a stream.
pub handle-ne-none :
    (platform : Platform) (spurious : Bool) (a : Action) (c : Completion) (s : Socket)
    → (s.ws ≡ none → is_resolve a ≡ true)
    → handle platform spurious a c s ≢ none
unfolding handle
handle-ne-none platform spurious (resolve host service) c s h =
    host_resolved_step-ne-none platform c.code s c.endpoints
handle-ne-none platform spurious (connect endpoints) c s h =
    socket_connected-ne-none platform c.code s (λ w. absurd (ground arith))
handle-ne-none platform spurious (tls_handshake host path) c s h =
    ssl_handshake_complete-ne-none platform c.code s spurious host path (λ w. absurd (ground arith))
handle-ne-none platform spurious (handshake host path fields) c s h =
    handshake_completed-ne-none platform c.code s spurious (λ w. absurd (ground arith))
handle-ne-none platform spurious read c s h =
    on_read-ne-none platform c.code s (λ w. absurd (ground arith))
handle-ne-none platform spurious (Action.write m b) c s h =
    on_write-ne-none platform c.code s spurious (λ w. absurd (ground arith))
handle-ne-none platform spurious close_stream c s h = ground arith

-- An operation that is in flight has its stream, unless it resolves the host.
backed_operation : (a : Action) (s : Socket) → Completing a s → s.ws ≡ none → is_resolve a ≡ true
backed_operation (resolve host service) s fits w = refl
backed_operation read s fits w = absurd (ground arith)
backed_operation close_stream s fits w = absurd (ground arith)
backed_operation _ s fits w = absurd (ground arith)

complete-ne-none :
    (platform : Platform) (spurious : Bool) (i : ℕ) (c : Completion) (s : Socket)
    → Inv s
    → complete platform spurious i c s ≢ none
complete-ne-none platform spurious i c s inv = elim (Completing-cases platform spurious i c s inv) [
  | inl (t, _, e) ↦ rw e (λ h. cc)
  | inr (a, t, fits, _, e) ↦
      rw e (handle-ne-none platform spurious a c t (backed_operation a t fits))
]

pub close-ne-none :
    (spurious : Bool) (s : Socket) → (s.ws ≡ none → s.state ≢ connected) → close spurious s ≢ none
close-ne-none spurious s h = elim (close_cases spurious s) [
  | inl (_, e) ↦ rw e (λ h. cc)
  | inr (inl (_, e)) ↦ rw e (λ h. cc)
  | inr (inr (c, e)) ↦ rw e (
      ground (
        arith,
        check_writing-ne-none spurious
            (record s {
              state = disconnect_requested;
              write_queue = s.write_queue ++ out_of_type out_disconnect ∷ [];
            })
            (inl (ground arith)),
      ))
]

-- A write to a socket that was asked to disconnect before it had a stream.
pub data LateWrite (s : Socket) : Call → Type 0 where
  late_write :
      (spurious : Bool) (m : Bytes) (b : Bool)
      → s.state ≡ disconnect_requested
      → s.ws ≡ none
      → LateWrite s (writes spurious m b)

pub write-ne-none :
    (spurious : Bool) (m : Bytes) (b : Bool) (s : Socket)
    → (s.ws ≡ none → s.state ≢ connected)
    → ¬ LateWrite s (writes spurious m b)
    → write spurious m b s ≢ none
unfolding write
write-ne-none spurious m b s inv h = elim (Option-cases s.ws) [
  | inl w ↦ check_writing-ne-none spurious _ (
      inr (λ may. elim may [
        | inl c ↦ absurd (ground arith)
        | inr r ↦ h (LateWrite.late_write spurious m b r w)
      ]))
  | inr (stream, e) ↦ check_writing-ne-none spurious _ (inl (λ q. cc))
]

-- On a socket that satisfies the invariant no call and no completion goes through a null stream, but
-- a write after `close` while the host of the first connection is being resolved.
pub step-ne-none :
    (platform : Platform) (call : Call) (s : Socket)
    → Inv s
    → ¬ LateWrite s call
    → step platform call s ≢ none
unfolding step
step-ne-none platform (writes spurious m b) s inv h =
    write-ne-none spurious m b s (λ w. ground arith) h
step-ne-none platform (closes spurious) s inv h =
    ground (arith, close-ne-none spurious s (λ w. ground arith))
step-ne-none platform (completes spurious i c) s inv h =
    complete-ne-none platform spurious i c s inv
step-ne-none platform _ s inv h = ground arith

send-none :
    (m : GwSocketMessageOut) (type : GwsMessageOutType) (s : Socket)
    → s.state ≡ disconnect_requested
    → s.ws ≡ none
    → send false m type s ≡ none
unfolding send async_write async_close_socket
send-none m out_message s r w = ground arith
send-none m out_disconnect s r w = ground arith

send_front-none :
    (queue : List GwSocketMessageOut) (m : GwSocketMessageOut) (s : Socket)
    → s.state ≡ disconnect_requested
    → s.ws ≡ none
    → send_front false (queue ++ m ∷ []) s ≡ none
unfolding send_front
send_front-none [] m s r w = send-none m m.type _ r w
send_front-none (x ∷ rest) m s r w = send-none x x.type _ r w

-- And such a write does go through it, unless the exchange fails spuriously.
pub late_write_lem :
    (platform : Platform) (m : Bytes) (b : Bool) (s : Socket)
    → Inv s
    → s.state ≡ disconnect_requested
    → s.ws ≡ none
    → step platform (writes false m b) s ≡ none
unfolding step write check_writing
late_write_lem platform m b s inv r w = ground (
  arith,
  send_front-none s.write_queue (record { type = out_message; message = m; binary = b })
      (record s {
        write_queue = s.write_queue ++ record { type = out_message; message = m; binary = b } ∷ [];
      })
      r w,
)
