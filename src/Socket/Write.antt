-- ===== src/Socket/Write.antt =====
-- src/GWSocket.cpp: the queue of outgoing messages. A Boolean argument says whether the
-- `compare_exchange_weak` of `checkWriting` fails spuriously, as the standard lets it.
use gwsockets.Prelude.{
  Bool, true, false, not, ◌&&◌, ◌||◌, Bytes, List, [], ◌∷◌, ◌++◌, Option, none, some, ◌>>=◌, codes,
  if◌then◌else◌,
}
use gwsockets.Platform.{Platform, ErrorCode, failed}
use gwsockets.Socket.State.{
  Socket, GwSocketMessageOut, GwsMessageOutType, out_disconnect, out_message, out_of_type,
  connecting, SocketState, connected, disconnect_requested, disconnecting, disconnected, same_state,
  no_reason,
}
use gwsockets.Socket.Stream.{async_write, async_close_socket}
use gwsockets.Socket.Close.{
  compare_exchange, close_now, error_connection, is_connection_closed_error,
}

abbrev compare_exchange_weak : Bool → SocketState → SocketState → SocketState → Option SocketState
compare_exchange_weak spurious expected desired current =
    if spurious then none else compare_exchange expected desired current

-- The `switch` of `checkWriting`.
unfoldable pub send : Bool → GwSocketMessageOut → GwsMessageOutType → Socket → Option Socket
send spurious m out_message s = async_write m.message m.binary s
send spurious m out_disconnect s =
    elim (compare_exchange_weak spurious disconnect_requested disconnecting s.state) [
      | some state ↦ async_close_socket (record s { state = state })
      | none ↦ some (close_now no_reason s).0
    ]

unfoldable pub send_front : Bool → List GwSocketMessageOut → Socket → Option Socket
send_front spurious [] s = some s
send_front spurious (m ∷ rest) s =
    send spurious m m.type (record s { writing = true; write_queue = rest })

unfoldable pub check_writing : Bool → Socket → Option Socket
check_writing spurious s =
    if (same_state s.state connected || same_state s.state disconnect_requested) && not s.writing
    then send_front spurious s.write_queue s
    else some s

unfoldable pub write : Bool → Bytes → Bool → Socket → Option Socket
write spurious message binary s = check_writing spurious (record s {
  write_queue =
      s.write_queue ++ record { type = out_message; message = message; binary = binary } ∷ [];
})

-- With the result of the method.
unfoldable pub close : Bool → Socket → Option (Socket × Bool)
close spurious s =
    if same_state s.state disconnected
      || same_state s.state disconnecting
      || same_state s.state disconnect_requested
    then some (s, false)
    else elim (compare_exchange s.state disconnect_requested s.state) [
      | none ↦ some (s, false)
      | some state ↦
          let requested = record s {
            state = state;
            write_queue = s.write_queue ++ out_of_type out_disconnect ∷ [];
          } in
          if same_state s.state connecting
          then some (requested, true)
          else (check_writing spurious requested >>= λ t. some (t, true))
    ]

module _ (platform : Platform) where
  unfoldable pub on_write : Bool → ErrorCode → Socket → Option Socket
  on_write spurious ec s =
      if not (failed ec)
      then check_writing spurious (record s { writing = false })
      else if is_connection_closed_error platform ec
      then some (close_now (codes "Connection closed by remote host") s).0
      else some (error_connection (platform.message ec) s).0
