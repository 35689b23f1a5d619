-- ===== src/Socket/Examples.antt =====
-- src/GWSocket.cpp: the theorems on endings, waiting and cookies at concrete inputs.
use gwsockets.Prelude.{
  none, ◌≡◌, ◌≢◌, refl, ◌⊎◌, true, false, some, List, [], ◌∷◌, ◌++◌, Bytes, codes, arith, Post,
}
use gwsockets.Socket.State.{
  Socket, web_socket, new_socket, disconnected, Action, Operation, out_message, out_disconnect,
  out_of_type,
}
use gwsockets.Socket.Connect.{
  verify_certificate, handshake_completed, cookie_header, cert_has_expired, x509_ok,
}
use gwsockets.Socket.Loop.{Call, writes, run}
use gwsockets.Socket.Invariant.{IsClosing, Waits}
use gwsockets.Socket.Endings.{verify_certificate_lem, handshake_after_close}
use gwsockets.Socket.Machine.Safety.{all-Timely, run-ne-none}
use gwsockets.Socket.Machine.Waiting.{run-Waits}
use gwsockets.Socket.Machine.Intact.{Intact, run-Intact}
use gwsockets.Socket.Headers.{all_on_one_line, set_headers, set_headers-all_on_one_line}
use gwsockets.Socket.Cookies.{parse_cookies, in_key, set_cookies, cookie_round_trip}
use gwsockets.Socket.Tests.{platform, fresh, connects, requested, talks, code}

verify_certificate_lem_example :
    ((cert_has_expired ≡ x509_ok)
      × (verify_certificate true cert_has_expired fresh ≡ (fresh, true)))
    ⊎ ((cert_has_expired ≢ x509_ok)
        × ((verify_certificate true cert_has_expired fresh).1 ≡ false)
        × IsClosing (verify_certificate true cert_has_expired fresh).0)
verify_certificate_lem_example = verify_certificate_lem true cert_has_expired fresh

abbrev resolving : Operation
resolving = record { expected = 1; action = Action.resolve (codes "example.org") (codes "8080") }

-- The first message is being written when the second one comes.
abbrev sends_two : List Call
sends_two = connects ++ writes false (codes "ping") false ∷ writes false (codes "pong") false ∷ []

run-Intact_example : Post Intact (run platform sends_two fresh)
run-Intact_example =
    run-Intact platform web_socket (codes "example.org") 8080 (codes "/chat") sends_two
      (omega arith)

run-Waits_example : Post (λ t. t.state ≢ disconnected → Waits t) (run platform talks fresh)
run-Waits_example =
    run-Waits platform web_socket (codes "example.org") 8080 (codes "/chat") talks (omega arith)

-- The second call is refused.
abbrev cookies : List (Bytes × Bytes)
cookies =
    (codes "session", codes "x=1")
    ∷ (codes "theme", codes "a; b=c")
    ∷ (codes "lang", codes "en")
    ∷ []

cookie_round_trip_example :
    parse_cookies (in_key []) (cookie_header true (set_cookies platform cookies fresh).cookies)
    ≡ (set_cookies platform cookies fresh).cookies
unfolding new_socket
cookie_round_trip_example = cookie_round_trip platform refl cookies fresh refl

-- `open`, `write`, `close`, and then the handshake.
abbrev written_early : Socket
written_early = record requested {
  write_queue =
      record { type = out_message; message = codes "hello"; binary = false }
      ∷ out_of_type out_disconnect
      ∷ [];
}

handshake_after_close_example :
    (t : Socket) × (handshake_completed platform false (code 0) written_early ≡ some t)
    × (t.state ≡ disconnected)
    × (t.write_queue ≡ [])
    × (t.sent ≡ written_early.sent)
handshake_after_close_example =
    handshake_after_close platform false (code 0) written_early refl refl

run-ne-none_example : run platform connects fresh ≢ none
run-ne-none_example =
    run-ne-none platform web_socket (codes "example.org") 8080 (codes "/chat") connects
      (all-Timely platform connects fresh refl)

-- The second call would add a line.
abbrev headers : List (Bytes × Bytes)
headers = (codes "origin", codes "here") ∷ (codes "a", 13 ∷ 10 ∷ codes "b: c") ∷ []

set_headers-all_on_one_line_example :
    all_on_one_line (set_headers platform headers fresh).headers ≡ true
unfolding new_socket all_on_one_line
set_headers-all_on_one_line_example =
    set_headers-all_on_one_line platform (refl, refl) (refl, refl) headers fresh refl
