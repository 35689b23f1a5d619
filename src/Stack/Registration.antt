-- ===== src/Stack/Registration.antt =====
-- src/GLua.cpp: `GMOD_MODULE_OPEN`, with the fields that it sets.
use gwsockets.Prelude.{ℕ, Bytes, codes, List, [], ◌∷◌, ◌++◌, Option, some, ◌>>=◌, get_elem?}
use gwsockets.Stack.Api.{
  LuaBase, CFunction, c_create_web_socket, c_add_verify_path, c_web_socket_think, c_socket_open,
  c_socket_write, c_socket_close, c_socket_close_now, c_socket_set_cookie, c_socket_set_header,
  c_socket_set_message_compression, c_socket_set_disable_context_takeover, c_socket_is_connected,
  c_socket_clear_queue, c_socket_to_string, c_socket_gc_function, c_do_version_check,
}
use gwsockets.Stack.Calls.{Run, stack_of, push, pop, get_field, call}

-- The methods of the table of a socket.
unfoldable pub methods : List (Bytes × CFunction)
methods =
    (codes "open", c_socket_open)
    ∷ (codes "write", c_socket_write)
    ∷ (codes "close", c_socket_close)
    ∷ (codes "closeNow", c_socket_close_now)
    ∷ (codes "setCookie", c_socket_set_cookie)
    ∷ (codes "setHeader", c_socket_set_header)
    ∷ (codes "setMessageCompression", c_socket_set_message_compression)
    ∷ (codes "setDisableContextTakeover", c_socket_set_disable_context_takeover)
    ∷ (codes "isConnected", c_socket_is_connected)
    ∷ (codes "clearQueue", c_socket_clear_queue)
    ∷ []

-- What a script finds in the table `GWSockets`.
unfoldable pub library : List (Bytes × CFunction)
library =
    (codes "createWebSocket", c_create_web_socket) ∷ (codes "addVerifyPath", c_add_verify_path) ∷ []

module _ (lua : LuaBase) where
  -- `SetField` of the table below the value.
  unfoldable pub set_field : Bytes → Run lua → Run lua
  set_field k r = record r {
    state = lua.set_field k r.state;
    assigned = elim (stack_of lua r) [
      | v ∷ t ∷ rest ↦ r.assigned ++ (t, k, v) ∷ []
      | _ ↦ r.assigned
    ];
  }

  unfoldable pub register_all : List (Bytes × CFunction) → Run lua → Run lua
  unfolding set_field
  register_all [] r = r
  register_all ((k, f) ∷ functions) r =
      register_all functions (set_field k (push lua (lua.c_function f) r))

  abbrev pub create_table : Run lua → Run lua
  create_table r = record r { state = lua.create_table r.state }

  abbrev pub create_meta_table : Bytes → Run lua → Run lua
  create_meta_table k r = record r { state = (lua.create_meta_table k r.state).0 }

  -- `GMOD_MODULE_OPEN`, with the number of results that it announces; first what follows the timer.
  unfoldable pub after_timer : Run lua → Option (Run lua × ℕ)
  unfolding set_field register_all methods
  after_timer timed =
      let meta =
        create_meta_table (codes "WebSocket")
          (register_all methods (create_table (pop lua 2 timed))) in
      (get_elem? (stack_of lua meta) 1 >>= λ prototype.
      let indexed = set_field (codes "__index") (push lua prototype meta) in
      let described =
        set_field (codes "__tostring") (push lua (lua.c_function c_socket_to_string) indexed) in
      let user_data =
        create_meta_table (codes "UserDataMetatable") (pop lua 1 (pop lua 1 described)) in
      let finished =
        pop lua 1
          (set_field (codes "__gc") (push lua (lua.c_function c_socket_gc_function) user_data)) in
      call lua 0 0 (push lua (lua.c_function c_do_version_check) finished) >>= λ checked.
      some (checked, 1))

  unfoldable pub module_open : Run lua → Option (Run lua × ℕ)
  unfolding set_field register_all after_timer library
  module_open r =
      let named = pop lua 1 (
        set_field (codes "GWSockets")
          (register_all library (create_table (push lua lua.global_table r)))) in
      let timer =
        get_field lua (codes "Create")
          (get_field lua (codes "timer") (push lua lua.global_table named)) in
      (call lua 4 0 (
          push lua (lua.c_function c_web_socket_think) (
            push lua (lua.number 0)
              (push lua (lua.number 0) (push lua (lua.string (codes "__GWSocketTimer")) timer))))
        >>= λ timed. after_timer timed)

  -- The fields that a table is given for a list of functions.
  abbrev pub given : lua.Value → List (Bytes × CFunction) → List (lua.Value × Bytes × lua.Value)
  given t [] = []
  given t ((k, f) ∷ functions) = (t, k, lua.c_function f) ∷ given t functions
