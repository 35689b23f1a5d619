-- ===== src/Stack/Methods.antt =====
-- src/GLua.cpp: the methods of the table of a socket as C functions, from their arguments on the stack
-- to their results, which are on the top of it.
use gwsockets.Prelude.{ℕ, Bool, true, false, codes, none, some, if◌then◌else◌}
use gwsockets.Platform.{Platform}
use gwsockets.Socket.State.{no_reason, is_connected}
use gwsockets.Socket.Close.{close_now, clear_queue}
use gwsockets.Socket.Write.{write, close}
use gwsockets.Socket.Connect.{open_socket}
use gwsockets.Socket.Config.{
  set_cookie, set_header, set_per_message_deflate, set_disable_context_takeover,
}
use gwsockets.Lua.{find}
use gwsockets.Lua.Functions.{refer, or_else}
use gwsockets.Stack.Api.{LuaBase, argument}
use gwsockets.Stack.Calls.{stack_of, push, c_str}
use gwsockets.Stack.Arguments.{
  M, Result, ◌>>=◌, ◌>>◌, pure, throw_error, lift, object, put_object, check_string, check_bool,
  optional_bool, get_cpp_object, only_disconnected,
}

-- The methods. A Boolean says whether the exchanges of the state fail spuriously.
pub data Method : Type 0 where
  m_open m_close_now m_clear_queue m_set_cookie m_set_header m_set_message_compression : Method
  m_set_disable_context_takeover m_is_connected : Method
  m_close m_write : Bool → Method

module _ (platform : Platform) (lua : LuaBase) (user_data_metatable : ℕ) where
  abbrev pub this : M lua ℕ
  this = get_cpp_object lua user_data_metatable

  -- The reference to the table: it is pushed, and `ReferenceCreate` takes it from the stack.
  unfoldable pub keep_table : ℕ → M lua (Unit {0})
  keep_table p r m = elim (find p m.socket_table_references) [
    | some reference ↦ some (Result.ok tt r m)
    | none ↦ elim (argument 1 (stack_of lua r)) [
      | none ↦ some (Result.refuses m)
      | some table ↦
          let (s, reference) = lua.reference_create (lua.push table r.state) in
          some (Result.ok tt (record r { state = s }) (refer p reference m))
    ]
  ]

  unfoldable pub c_close_now : M lua ℕ
  c_close_now = do
    p ← this
    s ← object lua p
    put_object lua p (close_now no_reason s).0
    pure lua 0

  unfoldable pub c_close : Bool → M lua ℕ
  c_close spurious = do
    p ← this
    s ← object lua p
    r ← lift lua (close spurious s)
    put_object lua p r.0
    pure lua 0

  unfoldable pub c_write : Bool → M lua ℕ
  c_write spurious = do
    message ← check_string lua 2
    p ← this
    binary ← optional_bool lua 3
    s ← object lua p
    t ← lift lua (write spurious message (or_else false binary) s)
    put_object lua p t
    pure lua 0

  unfoldable pub c_open : M lua ℕ
  c_open = do
    p ← this
    s ← object lua p
    only_disconnected lua s (codes "Cannot open socket that is already connected")
    should_clear_queue ← optional_bool lua 2
    keep_table p
    put_object lua p (open_socket (or_else true should_clear_queue) s)
    pure lua 0

  unfoldable pub c_clear_queue : M lua ℕ
  c_clear_queue = do p ← this; s ← object lua p; put_object lua p (clear_queue s); pure lua 0

  unfoldable pub c_set_cookie : M lua ℕ
  c_set_cookie = do
    p ← this
    s ← object lua p
    only_disconnected lua s (codes "Cannot set a cookie for an already connected websocket")
    key ← check_string lua 2
    value ← check_string lua 3
    let (t, set) = set_cookie platform (c_str key) (c_str value) s
    put_object lua p t
    if set then pure lua 0 else throw_error lua (codes "Invalid cookie name or value")

  unfoldable pub c_set_header : M lua ℕ
  c_set_header = do
    p ← this
    s ← object lua p
    only_disconnected lua s (codes "Cannot set header for an already connected websocket")
    key ← check_string lua 2
    value ← check_string lua 3
    let (t, set) = set_header platform (c_str key) (c_str value) s
    put_object lua p t
    if set then pure lua 0 else throw_error lua (codes "Invalid header name or value")

  unfoldable pub c_set_message_compression : M lua ℕ
  c_set_message_compression = do
    p ← this
    s ← object lua p
    only_disconnected lua s
        (codes "Cannot set message compression for an already connected websocket")
    value ← check_bool lua 2
    put_object lua p (set_per_message_deflate value s)
    pure lua 0

  unfoldable pub c_set_disable_context_takeover : M lua ℕ
  c_set_disable_context_takeover = do
    p ← this
    s ← object lua p
    only_disconnected lua s
        (codes "Cannot set compression takeover for an already connected websocket")
    value ← check_bool lua 2
    put_object lua p (set_disable_context_takeover value s)
    pure lua 0

  unfoldable pub c_is_connected : M lua ℕ
  c_is_connected = do
    p ← this
    s ← object lua p
    λ r. pure lua 1 (push lua (lua.boolean (is_connected s)) r)

  unfoldable pub call_method : Method → M lua ℕ
  unfolding c_open c_close c_close_now c_write c_clear_queue c_set_cookie c_set_header
      c_set_message_compression c_set_disable_context_takeover c_is_connected
  call_method m_open = c_open
  call_method m_close_now = c_close_now
  call_method m_clear_queue = c_clear_queue
  call_method m_set_cookie = c_set_cookie
  call_method m_set_header = c_set_header
  call_method m_set_message_compression = c_set_message_compression
  call_method m_set_disable_context_takeover = c_set_disable_context_takeover
  call_method m_is_connected = c_is_connected
  call_method (m_close spurious) = c_close spurious
  call_method (m_write spurious) = c_write spurious
