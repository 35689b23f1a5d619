-- ===== src/Lua/Functions.antt =====
-- src/GLua.cpp: the methods of the table of a socket, and its finalizer.
use gwsockets.Prelude.{
  ℕ, Bool, true, false, not, Bytes, codes, [], ◌∷◌, ◌++◌, Option, none, some, ◌>>=◌, if◌then◌else◌,
}
use gwsockets.Platform.{Platform}
use gwsockets.Socket.State.{Socket, disconnected, same_state, no_reason, is_connected}
use gwsockets.Socket.Close.{close_now, clear_queue}
use gwsockets.Socket.Write.{write, close}
use gwsockets.Socket.Connect.{open_socket}
use gwsockets.Socket.Config.{
  set_cookie, set_header, set_per_message_deflate, set_disable_context_takeover,
}
use gwsockets.Lua.Registry.{
  Module, find, update, erase, insert, Reply, replies_nothing, raises, replies, with_socket,
}

-- The socket at an address, changed.
abbrev pub store : ℕ → Socket → Module → Module
store p s m = record m { all_sockets = update p s m.all_sockets }

-- An optional Boolean argument.
abbrev pub or_else : Bool → Option Bool → Bool
or_else b none = b
or_else b (some c) = c

-- A reference to the table, the one that `ReferenceCreate` gives, unless there is one.
unfoldable pub refer : ℕ → ℕ → Module → Module
refer p reference m = elim (find p m.socket_table_references) [
  | some old ↦ m
  | none ↦ record m { socket_table_references = m.socket_table_references ++ (p, reference) ∷ [] }
]

module _ (this : Option ℕ) where
  unfoldable pub socket_close_now : Module → Option (Module × Reply)
  socket_close_now m =
      with_socket this (λ p s. some (store p (close_now no_reason s).0 m, replies_nothing)) m

  unfoldable pub socket_close : Bool → Module → Option (Module × Reply)
  socket_close spurious m =
      with_socket this (λ p s. (close spurious s >>= λ r. some (store p r.0 m, replies_nothing))) m

  unfoldable pub socket_write : Bool → Bytes → Option Bool → Module → Option (Module × Reply)
  socket_write spurious message binary m =
      with_socket this
        (λ p s.
          (write spurious message (or_else false binary) s >>= λ t.
          some (store p t m, replies_nothing)))
        m

  unfoldable pub socket_open : Option Bool → ℕ → Module → Option (Module × Reply)
  unfolding refer
  socket_open should_clear_queue reference m =
      with_socket this
        (λ p s.
          if not (same_state s.state disconnected)
          then some (m, raises (codes "Cannot open socket that is already connected"))
          else some (
            store p (open_socket (or_else true should_clear_queue) s) (refer p reference m),
            replies_nothing,
          ))
        m

  unfoldable pub socket_clear_queue : Module → Option (Module × Reply)
  socket_clear_queue m =
      with_socket this (λ p s. some (store p (clear_queue s) m, replies_nothing)) m

  unfoldable pub socket_set_message_compression : Bool → Module → Option (Module × Reply)
  socket_set_message_compression value m =
      with_socket this
        (λ p s.
          if not (same_state s.state disconnected)
          then some (
            m,
            raises (codes "Cannot set message compression for an already connected websocket"),
          )
          else some (store p (set_per_message_deflate value s) m, replies_nothing))
        m

  unfoldable pub socket_set_disable_context_takeover : Bool → Module → Option (Module × Reply)
  socket_set_disable_context_takeover value m =
      with_socket this
        (λ p s.
          if not (same_state s.state disconnected)
          then some (
            m,
            raises (codes "Cannot set compression takeover for an already connected websocket"),
          )
          else some (store p (set_disable_context_takeover value s) m, replies_nothing))
        m

  unfoldable pub socket_is_connected : Module → Option (Module × Reply)
  socket_is_connected m = with_socket this (λ p s. some (m, replies (is_connected s))) m

  module _ (platform : Platform) where
    unfoldable pub socket_set_cookie : Bytes → Bytes → Module → Option (Module × Reply)
    socket_set_cookie key value m =
        with_socket this
          (λ p s.
            if not (same_state s.state disconnected)
            then some (m, raises (codes "Cannot set a cookie for an already connected websocket"))
            else let (t, set) = set_cookie platform key value s in
              some (
                store p t m,
                if set then replies_nothing else raises (codes "Invalid cookie name or value"),
              ))
          m

    unfoldable pub socket_set_header : Bytes → Bytes → Module → Option (Module × Reply)
    socket_set_header key value m =
        with_socket this
          (λ p s.
            if not (same_state s.state disconnected)
            then some (m, raises (codes "Cannot set header for an already connected websocket"))
            else let (t, set) = set_header platform key value s in
              some (
                store p t m,
                if set then replies_nothing else raises (codes "Invalid header name or value"),
              ))
          m

-- The finalizer of the userdata at an address.
unfoldable pub socket_gc_function : ℕ → Module → Option Module
socket_gc_function p m =
    if not m.module_open
    then some m
    else (find p m.all_sockets >>= λ s. some (record m {
      socket_table_references = erase p m.socket_table_references;
      gced_sockets = insert p m.gced_sockets;
      all_sockets = update p (close_now no_reason s).0 m.all_sockets;
    }))
