-- ===== src/Socket/Invariant/Handlers.antt =====
-- src/GWSocket.cpp and src/SSLWebSocket.cpp: the completion handlers and the invariant.
use gwsockets.Prelude.{
  ℕ, ◌≡◌, ◌≢◌, refl, Bool, true, false, none, some, Option, List, [], Bytes, Post, Post-bind,
  Post->>=, Post-map, arith, not, ◌||◌, if◌then◌else◌,
}
use gwsockets.Platform.{Platform, ErrorCode, failed}
use gwsockets.Socket.State.{
  Socket, SocketState, connecting, connected, disconnect_requested, disconnecting, disconnected,
  Action, resolve, connect, tls_handshake, handshake, read, close_stream, SocketKind, web_socket,
  ssl_web_socket,
}
use gwsockets.Socket.Stream.{
  launch, reset_ws, async_read, async_handshake, websocket_handshake, report,
}
use gwsockets.Socket.Close.{compare_exchange, on_disconnected, is_connection_closed_error}
use gwsockets.Socket.Write.{on_write}
use gwsockets.Socket.Connect.{
  async_connect, host_resolved_step, socket_connected, handshake_completed, ssl_handshake_complete,
  on_read, decorate,
}
use gwsockets.Socket.Loop.{Completion, handle}
use gwsockets.Socket.Invariant.Defs.{Fits, tally, plus, Inv, NoWrap}
use gwsockets.Socket.Invariant.Closing.{do_close-Inv, close_now-Inv, error_connection-Inv}
use gwsockets.Socket.Invariant.Writing.{launch-Inv, check_writing-Inv}

-- A socket at the moment when a handler is called: the operation is not in flight any more.
abbrev pub Completing : Action → Socket → Type 0
Completing a s = Fits s.state s.writing s.ws (plus a (tally s.generation s.operations))

-- A test between two results that both keep a property.
pub Post-if :
    (P : Socket → Type 0) (b : Bool) (x y : Option Socket)
    → Post P x
    → Post P y
    → Post P (if b then x else y)
Post-if P true x y hx hy = hx
Post-if P false x y hx hy = hy

-- The exchange of `handshakeCompleted`.
pub Post-exchange :
    (P : Socket → Type 0) (state : SocketState) (x : Option Socket)
    (f : SocketState → Option Socket)
    → (state ≢ connecting → Post P x)
    → (state ≡ connecting → Post P (f connected))
    → Post P (elim (compare_exchange connecting connected state) [ none ↦ x | some next ↦ f next ])
Post-exchange P connecting x f hx hf = hf refl
Post-exchange P connected x f hx hf = hx (λ e. cc)
Post-exchange P disconnect_requested x f hx hf = hx (λ e. cc)
Post-exchange P disconnecting x f hx hf = hx (λ e. cc)
Post-exchange P disconnected x f hx hf = hx (λ e. cc)

pub Post-kind :
    (P : Socket → Type 0) (kind : SocketKind) (x y : Option Socket)
    → Post P x
    → Post P y
    → Post P (elim kind [ web_socket ↦ x | ssl_web_socket ↦ y ])
Post-kind P web_socket x y hx hy = hx
Post-kind P ssl_web_socket x y hx hy = hy

async_read-Inv :
    (t : Socket)
    → NoWrap t
    → (t.ws ≢ none → Fits t.state t.writing t.ws (plus read (tally t.generation t.operations)))
    → Post (λ u. Inv u × NoWrap u) (async_read t)
unfolding async_read launch
async_read-Inv t h c = Post->>= _ t.ws _ (λ stream e. (launch-Inv read t (c (λ e'. cc)), h))

module _ (platform : Platform) (ec : ErrorCode) (s : Socket) (h : NoWrap s) where
  on_write-Inv :
      (spurious : Bool) (m : Bytes) (b : Bool)
      → Completing (Action.write m b) s
      → Post Inv (on_write platform spurious ec s)
  unfolding on_write
  on_write-Inv spurious m b c =
      Post-if Inv (not (failed ec)) _ _ (check_writing-Inv spurious _ (ground arith) h) (
        Post-if Inv (is_connection_closed_error platform ec) _ _
          (close_now-Inv _ s h c.no_future (λ closing. ground arith))
          (error_connection-Inv _ s h c.no_future (λ closing. ground arith)))

  on_read-Inv : Completing read s → Post Inv (on_read platform ec s)
  unfolding on_read report
  on_read-Inv c =
      Post-if Inv (not (failed ec)) _ _
        (Post-map (async_read _) (λ t i. i.0) (async_read-Inv _ h (λ _. c)))
        (Post-if Inv (is_connection_closed_error platform ec) _ _
          (close_now-Inv _ s h c.no_future (λ closing. ground arith))
          (error_connection-Inv _ s h c.no_future (λ closing. ground arith)))

  websocket_handshake-Inv :
      (host path : Bytes) (decorator : Socket → List (Bytes × Bytes))
      → (s.ws ≢ none
          → Fits s.state s.writing s.ws
              (plus (handshake host path (decorator s)) (tally s.generation s.operations)))
      → Post Inv (websocket_handshake host path decorator s)
  unfolding websocket_handshake
  websocket_handshake-Inv host path decorator c =
      Post->>= Inv s.ws _ (λ stream e. launch-Inv _ s (c (λ e'. cc)))

  handshake_completed-Inv :
      (spurious : Bool) (host path : Bytes) (fields : List (Bytes × Bytes))
      → Completing (handshake host path fields) s
      → Post Inv (handshake_completed platform spurious ec s)
  unfolding handshake_completed report
  handshake_completed-Inv spurious host path fields c =
      Post-if Inv (not (failed ec)) _ _
        (Post-exchange Inv s.state _ _
          (λ other. close_now-Inv _ s h c.no_future (λ closing. ground arith))
          (λ fresh.
            Post-bind (λ u. Inv u × NoWrap u) Inv (async_read _) _
              (async_read-Inv _ h (λ e. ground arith))
              (λ t i. check_writing-Inv spurious t i.0 i.1)))
        (error_connection-Inv _ s h c.no_future (λ closing. ground arith))

  ssl_handshake_complete-Inv :
      (spurious : Bool) (host path : Bytes)
      → Completing (tls_handshake host path) s
      → Post Inv (ssl_handshake_complete platform spurious ec host path decorate s)
  unfolding ssl_handshake_complete
  ssl_handshake_complete-Inv spurious host path c =
      Post-if Inv (not (failed ec)) _ _ (websocket_handshake-Inv host path decorate (λ _. c))
        (handshake_completed-Inv spurious host path [] c)

  socket_connected-Inv :
      (endpoints : List ℕ)
      → Completing (connect endpoints) s
      → Post Inv (socket_connected platform ec s)
  unfolding socket_connected async_handshake
  socket_connected-Inv endpoints c =
      Post-if Inv (not (failed ec)) _ _
        (Post-kind Inv s.kind _ _ (websocket_handshake-Inv _ _ decorate (λ _. c))
          (Post->>= Inv s.ws _ (λ stream e. launch-Inv _ s c)))
        (error_connection-Inv _ s h c.no_future (λ closing. ground arith))

  host_resolved_step-Inv :
      (host service : Bytes) (endpoints : List ℕ)
      → Completing (resolve host service) s
      → Post Inv (host_resolved_step platform ec endpoints s)
  unfolding host_resolved_step async_connect reset_ws
  host_resolved_step-Inv host service endpoints c =
      Post-if Inv (not (failed ec)) _ _
        (Post-kind Inv s.kind _ _ (launch-Inv _ _ (ground arith)) (
          Post-if Inv (not (platform.set_host_name s.host) || not (platform.set1_host s.host)) _ _
            (error_connection-Inv _ _ h c.no_future (λ closing. ground arith))
            (launch-Inv _ _ (ground arith))))
        (error_connection-Inv _ s h c.no_future (λ closing. ground arith))

-- The handler of any operation, whatever it is told.
pub handle-Inv :
    (platform : Platform) (spurious : Bool) (a : Action) (c : Completion) (s : Socket)
    → NoWrap s
    → Completing a s
    → Post Inv (handle platform spurious a c s)
unfolding handle on_disconnected
handle-Inv platform spurious (resolve host service) c s h fits =
    host_resolved_step-Inv platform c.code s h host service c.endpoints fits
handle-Inv platform spurious (connect endpoints) c s h fits =
    socket_connected-Inv platform c.code s h endpoints fits
handle-Inv platform spurious (tls_handshake host path) c s h fits =
    ssl_handshake_complete-Inv platform c.code s h spurious host path fits
handle-Inv platform spurious (handshake host path fields) c s h fits =
    handshake_completed-Inv platform c.code s h spurious host path fields fits
handle-Inv platform spurious read c s h fits = on_read-Inv platform c.code s h fits
handle-Inv platform spurious (Action.write m b) c s h fits =
    on_write-Inv platform c.code s h spurious m b fits
handle-Inv platform spurious close_stream c s h fits =
    do_close-Inv (platform.message c.code) s h fits.no_future
