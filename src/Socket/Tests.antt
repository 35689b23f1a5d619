-- ===== src/Socket/Tests.antt =====
-- src/GWSocket.cpp: runs of one socket on a concrete platform, and the theorems at concrete inputs.
use mathlib.Core.List.{map}
use gwsockets.Prelude.{
  ℕ, ◌≡◌, refl, true, false, not, ◌&&◌, none, some, Option, List, [], ◌∷◌, ◌++◌, Bytes, codes,
  arith, Post, ◌==◌, leb, bytes_eq, to_string, digits_onto,
}
use gwsockets.Platform.{Platform, ErrorCode}
use gwsockets.Queue.{put, clear}
use gwsockets.Socket.State.{Socket, web_socket, new_socket, disconnect_requested}
use gwsockets.Socket.Stream.{
  launch, reset_ws, get_close_reason, async_read, async_write, async_close_socket, close_socket,
  websocket_handshake, async_handshake, report,
}
use gwsockets.Socket.Close.{
  clear_queue, do_close, set_disconnecting_cas, close_now, error_connection, on_disconnected,
  is_connection_closed_error,
}
use gwsockets.Socket.Write.{send, send_front, check_writing, write, close, on_write}
use gwsockets.Socket.Connect.{
  certificate_message, verify_certificate, cookie_header, decorate, host_with_port, open_socket,
  setup_verify, async_connect, host_resolved_step, socket_connected, handshake_completed,
  ssl_handshake_complete, on_read,
}
use gwsockets.Socket.Config.{
  assign, is_cookie_octet, is_cookie_value, set_per_message_deflate, set_disable_context_takeover,
  is_token, is_field_value, set_cookie, set_header,
}
use gwsockets.Socket.Loop.{
  Completion, receive, note_reason, handle, guard_generation, complete, Call, opens, closes, writes,
  completes, step, run,
}
use gwsockets.Socket.Invariant.{Inv, step-Inv, new_socket-Inv}
use gwsockets.Socket.NullStream.{LateWrite, late_write_lem}
use gwsockets.Socket.State.{out_of_type, out_disconnect, Action}
use mathlib.Core.List.{Sublist}
use gwsockets.Socket.Machine.{written}
use gwsockets.Socket.Machine.Delivery.{Delivers, step_delivery}
use gwsockets.Socket.Machine.Order.{all_written, run_order}
use gwsockets.Socket.Machine.Calls.{Obeys, step-Obeys}
use gwsockets.Socket.Machine.Histories.{run-Inv, converse}

-- To unfold this is to unfold all that a run calls.
unfoldable pub runs : Unit {0}
unfolding put clear new_socket digits_onto to_string bytes_eq launch reset_ws get_close_reason
    async_read async_write async_close_socket close_socket websocket_handshake async_handshake
    report clear_queue do_close set_disconnecting_cas close_now error_connection on_disconnected
    is_connection_closed_error send send_front check_writing write close on_write
    certificate_message verify_certificate cookie_header decorate host_with_port open_socket
    setup_verify async_connect host_resolved_step socket_connected handshake_completed
    ssl_handshake_complete on_read assign is_cookie_octet is_cookie_value set_per_message_deflate
    set_disable_context_takeover is_token is_field_value set_cookie set_header receive note_reason
    handle guard_generation complete step run converse
runs = tt

abbrev pub code : ℕ → ErrorCode
code n = record { value = n; category = 0 }

abbrev pub platform : Platform
platform = record {
  message = λ ec. codes "code " ++ to_string ec.value;
  eof = code 2;
  operation_aborted = code 125;
  stream_truncated = code 3;
  closed = code 1;
  is_token_char = λ c. leb 0x61 c && leb c 0x7A;
  is_text = λ c. leb 0x20 c && not (c == 0x7F);
  set_host_name = λ h. true;
  set1_host = λ h. true;
}

abbrev pub fresh : Socket
fresh = new_socket web_socket (codes "example.org") 8080 (codes "/chat")

abbrev pub outcome : ℕ → Bytes → Completion
outcome n bytes = record { code = code n; endpoints = 7 ∷ []; bytes = bytes; reason = [] }

abbrev pub connects : List Call
connects =
    opens true
    ∷ completes false 0 (outcome 0 [])
    ∷ completes false 0 (outcome 0 [])
    ∷ completes false 0 (outcome 0 [])
    ∷ []

abbrev pub talks : List Call
talks =
    connects
    ++ (writes false (codes "ping") false
        ∷ completes false 0 (outcome 0 (codes "pong"))
        ∷ closes false
        ∷ completes false 0 (outcome 0 [])
        ∷ completes false 1 (outcome 0 [])
        ∷ [])

abbrev reports : Option Socket → List Bytes
reports none = []
reports (some s) = map (λ m. m.message) s.message_queue.backing_queue

-- A whole life: connected, one message each way, an orderly close.
talks-reports :
    reports (run platform talks fresh) ≡ codes "Connected" ∷ codes "pong" ∷ codes "code 0" ∷ []
unfolding runs
talks-reports = refl

-- `open`, `close`, `write` in one frame.
late_write_run :
    run platform (opens true ∷ closes false ∷ writes false (codes "x") false ∷ []) fresh ≡ none
unfolding runs
late_write_run = refl

run-Inv_example : Post Inv (run platform talks fresh)
run-Inv_example =
    run-Inv platform web_socket (codes "example.org") 8080 (codes "/chat") talks (omega arith)

step-Inv_example : Post Inv (step platform (opens true) fresh)
unfolding new_socket
step-Inv_example =
    step-Inv platform (opens true) fresh
      (new_socket-Inv web_socket (codes "example.org") 8080 (codes "/chat")) (omega arith)

fresh-Inv : Inv fresh
fresh-Inv = new_socket-Inv web_socket (codes "example.org") 8080 (codes "/chat")

fresh_not_late : ¬ LateWrite fresh (writes false (codes "x") true)
unfolding new_socket
fresh_not_late (LateWrite.late_write spurious m b r w) = absurd (ground arith)

-- After `open` and `close` in one frame.
abbrev pub requested : Socket
requested = record fresh {
  state = disconnect_requested;
  generation = 1;
  write_queue = out_of_type out_disconnect ∷ [];
  operations =
      record { expected = 1; action = Action.resolve (codes "example.org") (codes "8080") } ∷ [];
}

requested-Inv : Inv requested
unfolding runs
requested-Inv =
    run-Inv platform web_socket (codes "example.org") 8080 (codes "/chat")
      (opens true ∷ closes false ∷ []) (omega arith)

late_write_lem_example : step platform (writes false (codes "x") true) requested ≡ none
unfolding new_socket
late_write_lem_example = late_write_lem platform (codes "x") true requested requested-Inv refl refl

step-Obeys_example : Post (Obeys platform (closes false) fresh) (step platform (closes false) fresh)
step-Obeys_example = step-Obeys platform (closes false) fresh

step_delivery_example :
    Post
      (Delivers (written (writes false (codes "x") true)) fresh)
      (step platform (writes false (codes "x") true) fresh)
step_delivery_example = step_delivery platform (writes false (codes "x") true) fresh

run_order_example :
    Post (λ t. Sublist t.sent (all_written (talks ++ talks))) (run platform (talks ++ talks) fresh)
run_order_example =
    run_order platform web_socket (codes "example.org") 8080 (codes "/chat") (talks ++ talks)
