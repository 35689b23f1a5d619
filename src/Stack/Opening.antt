-- ===== src/Stack/Opening.antt =====
-- src/GLua.cpp: what `GMOD_MODULE_OPEN` gives to Lua.
use gwsockets.Prelude.{◌≡◌, Bytes, codes, List, [], ◌∷◌, ◌++◌}
use gwsockets.Stack.Api.{
  LuaBase, CFunction, c_create_web_socket, c_add_verify_path, c_socket_open, c_socket_write,
  c_socket_close, c_socket_close_now, c_socket_set_cookie, c_socket_set_header,
  c_socket_set_message_compression, c_socket_set_disable_context_takeover, c_socket_is_connected,
  c_socket_clear_queue, c_socket_to_string, c_socket_gc_function,
}
use gwsockets.Stack.Calls.{Run, stack_of}
use gwsockets.Stack.Balance.{Has}
use gwsockets.Stack.Registration.{given}

-- What README.md says of the table of a socket and of `GWSockets`.
abbrev pub documented : List (Bytes × CFunction)
documented =
    (codes "open", c_socket_open)
    ∷ (codes "write", c_socket_write)
    ∷ (codes "close", c_socket_close)
    ∷ (codes "closeNow", c_socket_close_now)
    ∷ (codes "setCookie", c_socket_set_cookie)
    ∷ (codes "setHeader", c_socket_set_header)
    ∷ (codes "setMessageCompression", c_socket_set_message_compression)
    ∷ (codes "setDisableContextTakeover", c_socket_set_disable_context_takeover)
    ∷ (codes "isConnected", c_socket_is_connected)
    ∷ (codes "clearQueue", c_socket_clear_queue)
    ∷ []

abbrev pub documented_library : List (Bytes × CFunction)
documented_library =
    (codes "createWebSocket", c_create_web_socket) ∷ (codes "addVerifyPath", c_add_verify_path) ∷ []

module _ (lua : LuaBase) where
  -- A run with these values on its stack, which has set these fields.
  pub record At (values : List lua.Value) (fields : List (lua.Value × Bytes × lua.Value))
      (r : Run lua) : Type 0 where
    pub values_are : Has lua values r.state
    pub fields_are : r.assigned ≡ fields

  -- The fields that the module sets: the table `GWSockets` has the functions of the library; the tables
  -- of sockets find the methods through `__index`; the userdata of a socket has the finalizer.
  pub record Opened (r t : Run lua) : Type 0 where
    pub balanced : Has lua (stack_of lua r) t.state
    pub tables :
        (gws : lua.Value) × (prototype : lua.Value) × (meta : lua.Value) × (user_data : lua.Value)
        × (t.assigned
            ≡ (((((r.assigned ++ given lua gws documented_library)
                      ++ (lua.global_table, codes "GWSockets", gws) ∷ [])
                    ++ given lua prototype documented)
                  ++ (meta, codes "__index", prototype) ∷ [])
                ++ (meta, codes "__tostring", lua.c_function c_socket_to_string) ∷ [])
              ++ (user_data, codes "__gc", lua.c_function c_socket_gc_function) ∷ [])
