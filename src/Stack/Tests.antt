-- ===== src/Stack/Tests.antt =====
-- src/GLua.cpp and src/UpdateChecker.h: the theorems at an interface that calls nothing.
use gwsockets.Prelude.{
  arith, ℕ, ◌+◌, ◌≤◌, ◌≡◌, ◌≢◌, refl, true, false, bytes_eq, Bytes, codes, List, [], ◌∷◌, Option,
  none, some, Post, drop, subst, Option-cases, inl, inr,
}
use gwsockets.Socket.Tests.{platform}
use gwsockets.Lua.Sweep.{no_web}
use gwsockets.Lua.{
  Web, Module, empty_module, find, create_web_socket, create_web_socket_from_url, is_member,
}
use gwsockets.Stack.Arguments.{check_string, optional_bool}
use gwsockets.Lua.Think.{Request, calls_open, calls_clear_queue}
use gwsockets.Stack.Timer.{lua_scripts}
use gwsockets.Socket.State.{
  Socket, new_socket, web_socket, GwSocketMessageIn, in_connected, in_message,
}
use gwsockets.Stack.Api.{CFunction}
use gwsockets.Stack.Calls.{
  Run, pcall, lua_print, throw_error_no_halt, add_verify_path, run_in_timer_of, print_message,
  check_version, do_version_check_of, c_str, hand_over,
}
use gwsockets.Stack.Quiet.{
  globals, pointer_to, table_of, text_of, quiet, held_first, remembered, start,
}
use gwsockets.Stack.Balance.{Leaves, helper_calls-Leaves}
use gwsockets.Stack.Methods.{m_open, m_close, m_set_cookie, call_method}
use gwsockets.Stack.Requests.{AgreesOn}
use gwsockets.Stack.Answers.{call_method-Agrees}
use gwsockets.Stack.Declining.{Declines, call_method-Declines}
use gwsockets.Stack.Creation.{
  Answered, create_object, push_socket, c_create_web_socket, c_create_web_socket-Answered,
}
use gwsockets.Stack.Lifetime.{
  Entry, enters_creation, enters_method, enters_to_string, enters_timer, enters_finalizer, enter,
  Allowed, enter_all-Lived,
}
use gwsockets.Lua.Rounds.{Civil}
use gwsockets.Lua.Keeping.{polite}
use gwsockets.Stack.Safety.{call_method-ne-none}
use gwsockets.Lua.System.{Step, Steps, created_at}
use gwsockets.Lua.Lives.{take_all, AllAllowed, Lived}

helper_calls-Leaves_example :
    ((m : ℕ) → m + 1 ≤ 1 → Leaves quiet (drop (m + 1) (table_of 7 ∷ [])) (pcall quiet m start))
    × ((str : Bytes) → Leaves quiet (globals ∷ table_of 7 ∷ []) (lua_print quiet str start))
    × ((str : Bytes) → Leaves quiet (table_of 7 ∷ []) (throw_error_no_halt quiet str start))
    × ((error : Option Bytes) → Leaves quiet (table_of 7 ∷ []) (add_verify_path quiet error start))
    × ((delay : ℕ) (func : CFunction)
        → Leaves quiet (table_of 7 ∷ []) (run_in_timer_of quiet delay func start))
    × ((str : Bytes) (red green blue : ℕ)
        → Leaves quiet (table_of 7 ∷ []) (print_message quiet str red green blue start))
    × Leaves quiet (table_of 7 ∷ []) (check_version quiet start)
    × Leaves quiet (table_of 7 ∷ []) (do_version_check_of quiet start)
helper_calls-Leaves_example = helper_calls-Leaves quiet start

abbrev greetings : List GwSocketMessageIn
greetings =
    record { type = in_connected; message = codes "Connected" }
    ∷ record { type = in_message; message = codes "hello" }
    ∷ []

-- A socket that is disconnected, with two reports; every callback clears its queue.
abbrev idle : Module
idle = record empty_module {
  all_sockets =
      (
        1,
        record (new_socket web_socket (codes "example.org") 80 (codes "/")) {
          message_queue = record { backing_queue = greetings };
        },
      )
      ∷ [];
  socket_table_references = (1, 3) ∷ [];
}

abbrev clearing : Run quiet → Run quiet → List Request
clearing r t = calls_clear_queue (some 1) ∷ []

-- `socket:open()`, of the socket at address 1.
call_method-Agrees_example :
    AgreesOn quiet 5 platform no_web idle start m_open (calls_open (some 1) none 1)
unfolding held_first new_socket
call_method-Agrees_example =
    call_method-Agrees platform no_web quiet 5 m_open start idle (table_of 7)
      (calls_open (some 1) none 1) refl (λ e. cc) refl

-- `socket:setCookie()`.
call_method-Declines_example :
    Declines ⊥ quiet idle (call_method platform quiet 5 m_set_cookie start idle)
unfolding held_first find new_socket
call_method-Declines_example =
    call_method-Declines platform quiet 5 m_set_cookie start idle (table_of 7) refl (λ e. cc)
      (λ p e. ground arith) refl

-- `GWSockets.createWebSocket("ws://example.org")`.
abbrev asked : Run quiet
asked = record start { state = remembered (text_of (codes "ws://example.org") ∷ []) }

abbrev parsing : Web
parsing = record no_web {
  parse = λ text.
      some (record { scheme = codes "ws"; host = codes "example.org"; port = []; path = [] });
}

c_create_web_socket-Answered_example :
    Answered quiet 5 asked idle
      (create_web_socket parsing (c_str (codes "ws://example.org")) none idle)
      (c_create_web_socket quiet 5 parsing 6 asked idle)
c_create_web_socket-Answered_example =
    c_create_web_socket-Answered quiet 5 6 parsing asked idle (codes "ws://example.org") refl

abbrev digits : ℕ → Bytes
digits p = codes "0x1"

abbrev without_requests : Run quiet → Run quiet → List Request
without_requests r t = []

abbrev collecting : Run quiet
collecting = record start { state = remembered (pointer_to 1 5 ∷ []) }

-- A socket is created, opened by `socket:open()`, visited by the timer and finalized.
abbrev session : List (Entry quiet)
session =
    enters_creation asked
    ∷ enters_method m_open start
    ∷ enters_to_string start
    ∷ enters_timer [] start
    ∷ enters_finalizer collecting
    ∷ []

without_requests-Civil : (m : Module) → Civil (lua_scripts quiet without_requests) m
without_requests-Civil m table_index message r =
    elim (Option-cases (hand_over quiet table_index message r)) [
      | inl e ↦ rw e tt
      | inr (t, e) ↦ rw e refl
    ]

session-AllAllowed :
    AllAllowed
      (enter platform parsing quiet 5 6 without_requests digits)
      (Allowed platform parsing quiet 5 6 without_requests digits)
      session
      empty_module
unfolding held_first enter c_create_web_socket create_object check_string optional_bool
    create_web_socket_from_url push_socket c_str is_member new_socket
session-AllAllowed = AllAllowed.goes_on _ _ _ tt (λ m e.
    AllAllowed.goes_on _ _ _
      (
        table_of 7,
        refl,
        λ request q.
            subst (Post (λ k. polite m.gced_sockets k ≡ true)) q (
              subst (Post (λ k. polite k.gced_sockets (calls_open (some 1) none 1) ≡ true)) e refl),
      )
      (λ m' e'. AllAllowed.goes_on _ _ _ tt (λ k i.
        AllAllowed.goes_on _ _ _ (without_requests-Civil k)
          (λ m'' e''. AllAllowed.goes_on _ _ _ tt (λ n i. AllAllowed.rests _)))))

enter_all-Lived_example :
    Post
      (Lived platform parsing)
      (take_all (enter platform parsing quiet 5 6 without_requests digits) session empty_module)
enter_all-Lived_example =
    enter_all-Lived platform parsing quiet 5 6 without_requests digits session session-AllAllowed

-- After `createWebSocket`.
abbrev resting : Socket
resting = record (new_socket web_socket (codes "example.org") 80 (codes "/")) {
  should_verify_certificate = true;
}

abbrev one_socket : Module
one_socket = created_at 1 resting empty_module

creating : Steps platform parsing empty_module 1 one_socket
unfolding create_web_socket_from_url new_socket bytes_eq
creating =
    Steps.onward 0 empty_module one_socket Steps.start
      (Step.creates (codes "ws://example.org") true resting refl refl)

-- `socket:close()`.
call_method-ne-none_example : call_method platform quiet 5 (m_close false) start one_socket ≢ none
unfolding held_first find is_member
call_method-ne-none_example =
    call_method-ne-none platform parsing quiet 5 (m_close false) start 1 one_socket (table_of 7)
      creating (omega arith) refl refl (λ request wanted. ground arith)
