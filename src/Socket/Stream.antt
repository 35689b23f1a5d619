-- ===== src/Socket/Stream.antt =====
-- src/WebSocket.h, src/WebSocket.cpp, src/SSLWebSocket.h and src/SSLWebSocket.cpp: the operations on
-- the stream. `none` is a member access through the null pointer that `getWS()` may return.
use gwsockets.Prelude.{Bool, true, false, Bytes, List, [], ◌∷◌, ◌++◌, Option, none, some, ◌>>=◌}
use gwsockets.Queue.{put}
use gwsockets.Socket.State.{
  Socket, web_socket, ssl_web_socket, verify_none, Action, handshake, tls_handshake, read, write,
  close_stream, GwsMessageInType,
}

-- Starts an operation whose handler is wrapped by `guardGeneration`.
unfoldable pub launch : Action → Socket → Socket
launch a s = record s {
  operations = s.operations ++ record { expected = s.generation; action = a } ∷ [];
}

-- A new stream in place of the old one, with the options of `permessage_deflate`.
unfoldable pub reset_ws : Socket → Socket
reset_ws s = record s {
  ws = some (record {
    client_enable = s.per_message_deflate;
    client_no_context_takeover = s.disable_context_takeover;
    binary = false;
    is_open = true;
    verify = verify_none;
    verify_callback = false;
    reason = [];
  });
}

-- Empty where there is no stream.
unfoldable pub get_close_reason : Socket → Bytes
get_close_reason s = elim s.ws [ none ↦ [] | some stream ↦ stream.reason ]

unfoldable pub async_read : Socket → Option Socket
async_read s = do _ ← s.ws; some (launch read s)

-- The message is kept in `message_to_write` while the stream writes from it.
unfoldable pub async_write : Bytes → Bool → Socket → Option Socket
async_write message binary s = do
  stream ← s.ws
  some (
      launch (write message binary) (record s {
        message_to_write = message;
        ws = some (record stream { binary = binary });
        sent = s.sent ++ (message, binary) ∷ [];
      }))

unfoldable pub async_close_socket : Socket → Option Socket
async_close_socket s = do _ ← s.ws; some (launch close_stream s)

unfoldable pub close_socket : Socket → Socket
close_socket s = elim s.ws [
  | none ↦ s
  | some stream ↦ record s { ws = some (record stream { is_open = false }) }
]

-- `WebSocket::asyncHandshake`: the decorator runs while the stream builds the request.
unfoldable pub websocket_handshake :
    Bytes → Bytes → (Socket → List (Bytes × Bytes)) → Socket → Option Socket
websocket_handshake host path decorator s = do
  _ ← s.ws
  some (launch (handshake host path (decorator s)) s)

-- `SSLWebSocket::asyncHandshake` begins with the handshake of TLS.
unfoldable pub async_handshake :
    Bytes → Bytes → (Socket → List (Bytes × Bytes)) → Socket → Option Socket
async_handshake host path decorator s = elim s.kind [
  | web_socket ↦ websocket_handshake host path decorator s
  | ssl_web_socket ↦ (s.ws >>= λ _. some (launch (tls_handshake host path) s))
]

-- `messageQueue.put`.
unfoldable pub report : GwsMessageInType → Bytes → Socket → Socket
report type message s = record s {
  message_queue = put (record { type = type; message = message }) s.message_queue;
}
