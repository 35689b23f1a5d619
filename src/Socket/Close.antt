-- ===== src/Socket/Close.antt =====
-- src/GWSocket.cpp: the ways in which a socket becomes disconnected, and the errors that do it.
use gwsockets.Prelude.{
  ◌+◌, ◌%◌, ◌^◌, Bool, true, false, ◌||◌, Bytes, List, [], ◌∷◌, Option, none, some, if◌then◌else◌,
}
use gwsockets.Platform.{Platform, ErrorCode, same_code}
use gwsockets.Socket.State.{
  Socket, SocketState, connecting, connected, disconnecting, disconnected, same_state, in_error,
  in_disconnected,
}
use gwsockets.Socket.Stream.{close_socket, report}

-- `compare_exchange_strong`: the desired value if the current one is the expected one.
abbrev pub compare_exchange : SocketState → SocketState → SocketState → Option SocketState
compare_exchange expected desired current =
    if same_state current expected then some desired else none

unfoldable pub clear_queue : Socket → Socket
clear_queue s = record s { write_queue = [] }

-- `generation` is a 32-bit unsigned number.
unfoldable pub do_close : Bytes → Socket → Socket
unfolding close_socket clear_queue report
do_close reason s =
    let closed =
      clear_queue (close_socket (record s { generation = (s.generation + 1) % 2 ^ 32 })) in
    report in_disconnected reason (record closed { state = disconnected; writing = false })

-- The loop of `setDisconnectingCAS` on the state alone. The list holds what other threads store
-- between the load and the exchange of each attempt; it is empty where one thread runs everything.
unfoldable pub set_disconnecting_cas : List SocketState → SocketState → SocketState × Bool
set_disconnecting_cas [] state =
    if same_state state disconnected || same_state state disconnecting
    then (state, false)
    else (disconnecting, true)
set_disconnecting_cas (other ∷ others) state =
    let again = set_disconnecting_cas others other in
    if same_state state disconnected || same_state state disconnecting
    then (other, false)
    else if same_state other state
    then (disconnecting, true)
    else if same_state other connected || same_state other connecting
    then again
    else (other, false)

unfoldable pub close_now : Bytes → Socket → Socket × Bool
unfolding set_disconnecting_cas
close_now reason s =
    let (state, done) = set_disconnecting_cas [] s.state in
    if done then (do_close reason (record s { state = state }), true) else (s, false)

unfoldable pub error_connection : Bytes → Socket → Socket × Bool
unfolding set_disconnecting_cas
error_connection message s =
    let (state, done) = set_disconnecting_cas [] s.state in
    if done
    then (do_close message (report in_error message (record s { state = state })), true)
    else (s, false)

module _ (platform : Platform) where
  unfoldable pub on_disconnected : ErrorCode → Socket → Socket
  on_disconnected ec s = do_close (platform.message ec) s

  unfoldable pub is_connection_closed_error : ErrorCode → Bool
  is_connection_closed_error ec =
      same_code ec platform.eof
      || same_code ec platform.operation_aborted
      || same_code ec platform.stream_truncated
      || same_code ec platform.closed
