-- ===== src/Socket/Machine/Handling.antt =====
-- src/GWSocket.cpp and the subclasses: the completion handlers in the transition system.
use gwsockets.Prelude.{
  ℕ, ◌≡◌, ◌≢◌, refl, inl, inr, Bool, true, false, not, ◌||◌, none, some, List, [], ◌∷◌, ◌++◌, Bytes,
  codes, Post, Post->>=, Post-bind, Post-map, Bool-cases,
}
use gwsockets.Platform.{Platform, ErrorCode, failed}
use gwsockets.Socket.State.{
  Socket, connected, disconnecting, Action, resolve, connect, tls_handshake, handshake, read,
  close_stream, no_reason, in_connected, GwSocketMessageOut, GwsMessageOutType, out_message,
  out_disconnect,
}
use gwsockets.Socket.Stream.{
  launch, reset_ws, async_read, async_handshake, websocket_handshake, report,
}
use gwsockets.Socket.Close.{
  close_now, error_connection, on_disconnected, is_connection_closed_error,
}
use gwsockets.Socket.Write.{send, send_front, check_writing, on_write}
use gwsockets.Socket.Connect.{
  async_connect, host_resolved_step, socket_connected, handshake_completed, ssl_handshake_complete,
  on_read, connection_failed, decorate,
}
use gwsockets.Socket.Loop.{Completion, handle}
use gwsockets.Socket.Invariant.{
  Post-if, Post-exchange, Post-kind, MayWrite, async_write_cases, async_close_socket_cases,
  send-disconnect_cases, check_writing_cases, close_now_cases, error_connection_cases, is_close,
}
use gwsockets.Socket.Machine.Defs.{Ends, Writes, Follows, is_handshake, Handles}

pub close_now-Ends : (r : Bytes) (s : Socket) → Ends s (close_now r s).0
close_now-Ends r s = elim (close_now_cases r s) [
  | inl (c, e) ↦ Ends.already c (rw e)
  | inr (c, e) ↦ Ends.closed r c (rw e)
]

pub error_connection-Ends : (r : Bytes) (s : Socket) → Ends s (error_connection r s).0
error_connection-Ends r s = elim (error_connection_cases r s) [
  | inl (c, e) ↦ Ends.already c (rw e)
  | inr (c, e) ↦ Ends.errored r c (rw e)
]

-- `check_writing` at a socket that may write.
module _ (s : Socket) (may : MayWrite s) (idle : s.writing ≡ false) where
  send-Writes :
      (spurious : Bool) (m : GwSocketMessageOut) (type : GwsMessageOutType)
      (rest : List GwSocketMessageOut)
      → s.write_queue ≡ m ∷ rest
      → m.type ≡ type
      → Post (Writes s) (send spurious m type (record s { writing = true; write_queue = rest }))
  unfolding send
  send-Writes spurious m out_message rest q e =
      elim (async_write_cases (record s { writing = true; write_queue = rest }) m.message
        m.binary) [
          | inl (_, e') ↦ rw e' tt
          | inr (stream, w, e') ↦ rw e' (Writes.sends m rest stream may idle q e w refl)
        ]
  send-Writes spurious m out_disconnect rest q e =
      elim (send-disconnect_cases spurious m (record s { writing = true; write_queue = rest })) [
        | inl (r, _, e') ↦
            rw e'
              (elim (async_close_socket_cases
                (record s { writing = true; write_queue = rest; state = disconnecting })) [
                  | inl (_, e'') ↦ rw e'' tt
                  | inr (w, e'') ↦ rw e'' (Writes.shuts m rest r idle q e w refl)
                ])
        | inr (_, e') ↦ rw e' (Writes.gives_up m rest may idle q e (close_now-Ends no_reason _))
      ]

  send_front-Writes :
      (spurious : Bool) (queue : List GwSocketMessageOut)
      → s.write_queue ≡ queue
      → Post (Writes s) (send_front spurious queue s)
  unfolding send_front
  send_front-Writes spurious [] q = Writes.rests (inr (inr q)) refl
  send_front-Writes spurious (m ∷ rest) q = send-Writes spurious m m.type rest q refl

pub check_writing-Writes :
    (spurious : Bool) (s : Socket) → Post (Writes s) (check_writing spurious s)
check_writing-Writes spurious s = elim (check_writing_cases spurious s) [
  | inl (may, idle, e) ↦ rw e (send_front-Writes s may idle spurious s.write_queue refl)
  | inr (inl not_now, e) ↦ rw e (Writes.rests (inl not_now) refl)
  | inr (inr busy, e) ↦ rw e (Writes.rests (inr (inl busy)) refl)
]

-- The handlers.
module _ (platform : Platform) (ec : ErrorCode) (s : Socket) where
  close_now-Handles : (a : Action) (r : Bytes) → is_close a ≡ false → Handles a s (close_now r s).0
  close_now-Handles a r e = Handles.breaks s.ws e (λ q. q) (close_now-Ends r s)

  error_connection-Handles :
      (a : Action) (r : Bytes) → is_close a ≡ false → Handles a s (error_connection r s).0
  error_connection-Handles a r e = Handles.breaks s.ws e (λ q. q) (error_connection-Ends r s)

  on_write-Handles :
      (spurious : Bool) (m : Bytes) (b : Bool)
      → Post (Handles (Action.write m b) s) (on_write platform spurious ec s)
  unfolding on_write
  on_write-Handles spurious m b =
      Post-if _ (not (failed ec)) _ _
        (Post-map (check_writing spurious _) (λ u w. Handles.written refl w)
          (check_writing-Writes spurious _))
        (Post-if _ (is_connection_closed_error platform ec) _ _ (close_now-Handles _ _ refl)
          (error_connection-Handles _ _ refl))

  on_read-Handles : Post (Handles read s) (on_read platform ec s)
  unfolding on_read async_read report
  on_read-Handles =
      Post-if _ (not (failed ec)) _ _
        (Post->>= _ s.ws _ (λ stream e. Handles.receives refl (λ q. cc) refl))
        (Post-if _ (is_connection_closed_error platform ec) _ _ (close_now-Handles _ _ refl)
          (error_connection-Handles _ _ refl))

  websocket_handshake-Handles :
      (a : Action) (host path : Bytes) (decorator : Socket → List (Bytes × Bytes))
      → ((fields : List (Bytes × Bytes)) → Follows a (handshake host path fields))
      → Post (Handles a s) (websocket_handshake host path decorator s)
  unfolding websocket_handshake
  websocket_handshake-Handles a host path decorator next =
      Post->>= _ s.ws _ (λ stream e. Handles.follows _ s.ws (next (decorator s)) (λ q. cc) refl)

  handshake_completed-Handles :
      (spurious : Bool) (a : Action)
      → is_handshake a ≡ true
      → is_close a ≡ false
      → Post (Handles a s) (handshake_completed platform spurious ec s)
  unfolding handshake_completed async_read report
  handshake_completed-Handles spurious a e e' =
      Post-if _ (not (failed ec)) _ _
        (Post-exchange _ s.state _ _ (λ other. close_now-Handles a no_reason e')
          (λ fresh.
            Post-bind
              (λ t.
                (s.ws ≢ none)
                × (t
                    ≡ launch read
                        (report in_connected (codes "Connected") (record s { state = connected }))))
              (Handles a s) _ _ (Post->>= _ s.ws _ (λ stream w. ((λ q. cc), refl)))
              (λ t r.
                Post-map (check_writing spurious t) (λ u w. Handles.upgrades t e fresh r.0 r.1 w)
                  (check_writing-Writes spurious t))))
        (error_connection-Handles a _ e')

  handshake_failed :
      (spurious : Bool)
      → failed ec ≡ true
      → (r : Bytes) × (handshake_completed platform spurious ec s ≡ some (error_connection r s).0)
  unfolding handshake_completed
  handshake_failed spurious e = (connection_failed ++ platform.message ec, rw e)

  ssl_handshake_complete-Handles :
      (spurious : Bool) (host path : Bytes)
      → Post
          (Handles (tls_handshake host path) s)
          (ssl_handshake_complete platform spurious ec host path decorate s)
  unfolding ssl_handshake_complete
  ssl_handshake_complete-Handles spurious host path = elim (Bool-cases (failed ec)) [
    | inl e ↦ rw e (
        rw (handshake_failed spurious e).1
          (error_connection-Handles (tls_handshake host path) _ refl))
    | inr e ↦ rw e (
        websocket_handshake-Handles (tls_handshake host path) host path decorate
          (λ fields. Follows.secured host path host path fields))
  ]

  socket_connected-Handles :
      (endpoints : List ℕ) → Post (Handles (connect endpoints) s) (socket_connected platform ec s)
  unfolding socket_connected async_handshake
  socket_connected-Handles endpoints =
      Post-if _ (not (failed ec)) _ _
        (Post-kind _ s.kind _ _
          (websocket_handshake-Handles _ _ _ decorate (Follows.connected_plain endpoints _ _))
          (Post->>= _ s.ws _ (λ stream e.
            Handles.follows _ s.ws (Follows.connected_tls endpoints _ _) (λ q. cc) refl)))
        (error_connection-Handles _ _ refl)

  host_resolved_step-Handles :
      (host service : Bytes) (endpoints : List ℕ)
      → Post (Handles (resolve host service) s) (host_resolved_step platform ec endpoints s)
  unfolding host_resolved_step async_connect reset_ws
  host_resolved_step-Handles host service endpoints =
      Post-if _ (not (failed ec)) _ _
        (Post-kind _ s.kind _ _
          (Handles.follows _ _ (Follows.resolved host service endpoints) (λ q. cc) refl)
          (Post-if _ (not (platform.set_host_name s.host) || not (platform.set1_host s.host)) _ _
            (Handles.breaks _ refl (λ q. cc) (error_connection-Ends _ _))
            (Handles.follows _ _ (Follows.resolved host service endpoints) (λ q. cc) refl)))
        (error_connection-Handles _ _ refl)

-- The handler of any operation makes a move of the transition system.
pub handle-Handles :
    (platform : Platform) (spurious : Bool) (a : Action) (c : Completion) (s : Socket)
    → Post (Handles a s) (handle platform spurious a c s)
unfolding handle on_disconnected
handle-Handles platform spurious (resolve host service) c s =
    host_resolved_step-Handles platform c.code s host service c.endpoints
handle-Handles platform spurious (connect endpoints) c s =
    socket_connected-Handles platform c.code s endpoints
handle-Handles platform spurious (tls_handshake host path) c s =
    ssl_handshake_complete-Handles platform c.code s spurious host path
handle-Handles platform spurious (handshake host path fields) c s =
    handshake_completed-Handles platform c.code s spurious (handshake host path fields) refl refl
handle-Handles platform spurious read c s = on_read-Handles platform c.code s
handle-Handles platform spurious (Action.write m b) c s =
    on_write-Handles platform c.code s spurious m b
handle-Handles platform spurious close_stream c s = Handles.disconnects _ refl refl
