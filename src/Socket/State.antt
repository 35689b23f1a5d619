-- ===== src/Socket/State.antt =====
-- src/GWSocket.h, src/WebSocket.h and src/SSLWebSocket.h: the data of a socket.
use gwsockets.Prelude.{ℕ, Bool, true, false, Bytes, codes, List, [], Option, none}
use gwsockets.Queue.{BlockingQueue, empty_queue}

pub data GwsMessageInType : Type 0 where
  in_connected in_message in_error in_disconnected : GwsMessageInType

pub record GwSocketMessageIn : Type 0 where
  pub type : GwsMessageInType
  pub message : Bytes

pub data GwsMessageOutType : Type 0 where
  out_disconnect out_message : GwsMessageOutType

pub record GwSocketMessageOut : Type 0 where
  pub type : GwsMessageOutType
  pub message : Bytes
  pub binary : Bool

-- The constructor of a message without content.
abbrev pub out_of_type : GwsMessageOutType → GwSocketMessageOut
out_of_type t = record { type = t; message = []; binary = false }

pub data SocketState : Type 0 where
  connecting connected disconnect_requested disconnecting disconnected : SocketState

abbrev pub same_state : SocketState → SocketState → Bool
same_state connecting connecting = true
same_state connected connected = true
same_state disconnect_requested disconnect_requested = true
same_state disconnecting disconnecting = true
same_state disconnected disconnected = true
same_state _ _ = false

-- The two classes that derive from `GWSocket`.
pub data SocketKind : Type 0 where
  web_socket ssl_web_socket : SocketKind

-- `ssl::verify_mode` of a stream.
pub data VerifyMode : Type 0 where
  verify_none verify_peer : VerifyMode

-- `websocket::stream`, as far as the source sets or reads it: the options of the handshake, the mode
-- of writes, whether the lowest layer is open, and the close reason that the peer sent.
pub record Stream : Type 0 where
  pub client_enable : Bool
  pub client_no_context_takeover : Bool
  pub binary : Bool
  pub is_open : Bool
  pub verify : VerifyMode
  pub verify_callback : Bool
  pub reason : Bytes

-- An asynchronous operation that was started and whose handler has not been called yet.
pub data Action : Type 0 where
  resolve : Bytes → Bytes → Action
  connect : List ℕ → Action
  tls_handshake : Bytes → Bytes → Action
  handshake : Bytes → Bytes → List (Bytes × Bytes) → Action
  read : Action
  write : Bytes → Bool → Action
  close_stream : Action

-- `expected` is what `guardGeneration` captured.
pub record Operation : Type 0 where
  pub expected : ℕ
  pub action : Action

-- The fields of `GWSocket` and of its two subclasses. `operations` holds the handlers that the
-- io_context has yet to call, oldest first, and `sent` the messages that were handed to the stream.
pub record Socket : Type 0 where
  pub kind : SocketKind
  pub should_verify_certificate : Bool
  pub path : Bytes
  pub host : Bytes
  pub port : ℕ
  pub state : SocketState
  pub per_message_deflate : Bool
  pub disable_context_takeover : Bool
  pub writing : Bool
  pub message_to_write : Bytes
  pub generation : ℕ
  pub cookies : List (Bytes × Bytes)
  pub headers : List (Bytes × Bytes)
  pub read_buffer : Bytes
  pub write_queue : List GwSocketMessageOut
  pub message_queue : BlockingQueue GwSocketMessageIn
  pub ws : Option Stream
  pub operations : List Operation
  pub sent : List (Bytes × Bool)

-- The constructors of the two classes.
unfoldable pub new_socket : SocketKind → Bytes → ℕ → Bytes → Socket
unfolding empty_queue
new_socket kind host port path = record {
  kind = kind;
  should_verify_certificate = true;
  path = path;
  host = host;
  port = port;
  state = disconnected;
  per_message_deflate = false;
  disable_context_takeover = false;
  writing = false;
  message_to_write = [];
  generation = 0;
  cookies = [];
  headers = [];
  read_buffer = [];
  write_queue = [];
  message_queue = empty_queue;
  ws = none;
  operations = [];
  sent = [];
}

pub is_connected : Socket → Bool
is_connected s = same_state s.state connected

pub can_be_deleted : Socket → Bool
can_be_deleted s = same_state s.state disconnected

abbrev pub no_reason : Bytes
no_reason = codes "No reason specified"
