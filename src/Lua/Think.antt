-- ===== src/Lua/Think.antt =====
-- src/GLua.cpp: the timer function `webSocketThink` and the end of the module. The handlers that the
-- io_context calls are an argument, a list of events; so is the state of Lua, with what the callbacks ask.
use gwsockets.Prelude.{
  ◌++◌, ℕ, Bool, false, not, ◌&&◌, ◌==◌, Bytes, List, [], ◌∷◌, Option, none, some, ◌>>=◌, get_elem?,
  is_empty, if◌then◌else◌,
}
use gwsockets.Platform.{Platform}
use gwsockets.Queue.{clear}
use gwsockets.Socket.State.{Socket, disconnected, same_state, no_reason, GwSocketMessageIn}
use gwsockets.Socket.Close.{close_now}
use gwsockets.Socket.Write.{close}
use gwsockets.Socket.Loop.{Completion, complete}
use gwsockets.Lua.Registry.{Web, Module, find, erase, Reply, create_web_socket, delete_socket}
use gwsockets.Lua.Functions.{
  store, socket_close_now, socket_close, socket_write, socket_open, socket_clear_queue,
  socket_set_message_compression, socket_set_disable_context_takeover, socket_is_connected,
  socket_set_cookie, socket_set_header,
}

-- A handler of a socket, by its position among those of the socket, or one whose socket was deleted.
pub data Event : Type 0 where
  at_socket : ℕ → Bool → ℕ → Completion → Event
  at_orphan : ℕ → Event

-- What a script does with the module.
pub data Request : Type 0 where
  creates_web_socket : Bytes → Option Bool → Request
  calls_open : Option ℕ → Option Bool → ℕ → Request
  calls_close : Option ℕ → Bool → Request
  calls_close_now : Option ℕ → Request
  calls_write : Option ℕ → Bool → Bytes → Option Bool → Request
  calls_clear_queue : Option ℕ → Request
  calls_set_cookie : Option ℕ → Bytes → Bytes → Request
  calls_set_header : Option ℕ → Bytes → Bytes → Request
  calls_set_message_compression : Option ℕ → Bool → Request
  calls_set_disable_context_takeover : Option ℕ → Bool → Request
  calls_is_connected : Option ℕ → Request

-- What `webSocketThink` does with the state of Lua: it pushes the table of a socket and asks where the
-- stack ends then, hands a message to the callback in that table, pops the table and frees the
-- reference to it. A callback leaves the requests that it made.
pub record Scripts : Type 1 where
  pub State : Type 0
  pub reference_push : ℕ → State → State × ℕ
  pub hand_over : ℕ → GwSocketMessageIn → State → Option (State × List Request)
  pub pop : State → State
  pub reference_free : ℕ → State → State

abbrev pub remove : ℕ → List ℕ → List ℕ
remove p [] = []
remove p (q ∷ rest) = let later = remove p rest in if q == p then later else q ∷ later

module _ (platform : Platform) where
  -- `io_context::poll`; the handler of a deleted socket reads its generation.
  unfoldable pub call_handler : Event → Module → Option Module
  call_handler (at_socket p spurious i c) m = elim (find p m.all_sockets) [
    | none ↦ some m
    | some s ↦ (complete platform spurious i c s >>= λ t. some (store p t m))
  ]
  call_handler (at_orphan j) m = elim (get_elem? m.orphans j) [ none ↦ some m | some op ↦ none ]

  unfoldable pub poll : List Event → Module → Option Module
  poll [] m = some m
  poll (event ∷ events) m = (call_handler event m >>= λ m'. poll events m')

  -- The loop over `gcedSockets`: what is disconnected is deleted.
  unfoldable pub delete_gced : List ℕ → Module → Option Module
  delete_gced [] m = some m
  delete_gced (p ∷ rest) m =
      (find p m.all_sockets >>= λ s.
      if same_state s.state disconnected
      then delete_gced rest
          (record (delete_socket p s m) { gced_sockets = remove p m.gced_sockets })
      else delete_gced rest m)

  module _ (web : Web) where
    unfoldable pub perform : Request → Module → Option (Module × Reply)
    perform (creates_web_socket url verify) m = some (create_web_socket web url verify m)
    perform (calls_open this clear reference) m = socket_open this clear reference m
    perform (calls_close this spurious) m = socket_close this spurious m
    perform (calls_close_now this) m = socket_close_now this m
    perform (calls_write this spurious message binary) m =
        socket_write this spurious message binary m
    perform (calls_clear_queue this) m = socket_clear_queue this m
    perform (calls_set_cookie this key value) m = socket_set_cookie this platform key value m
    perform (calls_set_header this key value) m = socket_set_header this platform key value m
    perform (calls_set_message_compression this value) m =
        socket_set_message_compression this value m
    perform (calls_set_disable_context_takeover this value) m =
        socket_set_disable_context_takeover this value m
    perform (calls_is_connected this) m = socket_is_connected this m

    unfoldable pub perform_all : List Request → Module → Option Module
    perform_all [] m = some m
    perform_all (request ∷ requests) m = (perform request m >>= λ r. perform_all requests r.0)

  module _ (web : Web) (scripts : Scripts) where
    -- The callbacks for the messages of one socket, whose table is at an index of the stack.
    unfoldable pub call_back :
        ℕ → List GwSocketMessageIn → Module → scripts.State → Option (Module × scripts.State)
    call_back table_index [] m st = some (m, st)
    call_back table_index (message ∷ messages) m st =
        (scripts.hand_over table_index message st >>= λ r.
        perform_all web r.1 m >>= λ m'. call_back table_index messages m' r.0)

    -- The reference goes when the socket is disconnected and all its messages were handed on before.
    unfoldable pub drop_reference :
        ℕ → ℕ → List GwSocketMessageIn → Module → scripts.State → Option (Module × scripts.State)
    drop_reference p reference messages m st =
        (find p m.all_sockets >>= λ s.
        if same_state s.state disconnected && is_empty messages
        then some (
          record m { socket_table_references = erase p m.socket_table_references },
          scripts.reference_free reference st,
        )
        else some (m, st))

    -- One round of the loop over the copy of `socketTableReferences`.
    unfoldable pub visit : ℕ → ℕ → Module → scripts.State → Option (Module × scripts.State)
    visit p reference m st =
        (find p m.all_sockets >>= λ s.
        let (messages, queue) = clear s.message_queue in
        let m' = store p (record s { message_queue = queue }) m in
        let (pushed, table_index) = scripts.reference_push reference st in
        if is_empty messages && not (same_state s.state disconnected)
        then some (m', st)
        else (call_back table_index messages m' pushed >>= λ r.
            drop_reference p reference messages r.0 (scripts.pop r.1)))

    unfoldable pub visit_all :
        List (ℕ × ℕ) → Module → scripts.State → Option (Module × scripts.State)
    visit_all [] m st = some (m, st)
    visit_all ((p, reference) ∷ rest) m st =
        (visit p reference m st >>= λ r. visit_all rest r.0 r.1)

    unfoldable pub web_socket_think :
        List Event → Module → scripts.State → Option (Module × scripts.State)
    web_socket_think events m st = do
      polled ← poll events m
      kept ← delete_gced polled.gced_sockets polled
      visit_all kept.socket_table_references kept st

  -- The two loops of `GMOD_MODULE_CLOSE`. A Boolean says whether the exchanges of `close` fail
  -- spuriously.
  unfoldable pub close_referenced : Bool → List (ℕ × ℕ) → Module → Option Module
  close_referenced spurious [] m = some m
  close_referenced spurious ((p, reference) ∷ rest) m =
      (find p m.all_sockets >>= λ s.
      close spurious s >>= λ r. close_referenced spurious rest (store p r.0 m))

  unfoldable pub delete_all : List (ℕ × Socket) → Module → Module
  delete_all [] m = m
  delete_all ((p, s) ∷ rest) m =
      delete_all rest (record m { orphans = m.orphans ++ (close_now no_reason s).0.operations })

  -- The handlers that are left go with the io_context, uncalled.
  unfoldable pub module_close : Bool → List Event → Module → Option Module
  module_close spurious events m = do
    closing ← close_referenced spurious m.socket_table_references (record m { module_open = false })
    polled ← poll events closing
    some (record (delete_all polled.all_sockets polled) {
      all_sockets = [];
      socket_table_references = [];
      gced_sockets = [];
      orphans = [];
    })
