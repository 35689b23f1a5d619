-- ===== src/Lua/Tests.antt =====
-- src/GLua.cpp: runs of the module, and the theorems at concrete inputs.
use gwsockets.Prelude.{
  zero, suc, ℕ, ◌+◌, subst, ◌≡◌, ◌≢◌, refl, Bool, true, false, codes, List, [], ◌∷◌, Option, none,
  some, ◌>>=◌, arith, Post, to_string, digits_onto, bytes_eq,
}
use gwsockets.Queue.{clear}
use gwsockets.Socket.State.{
  Socket, new_socket, web_socket, connecting, disconnected, Action, no_reason,
}
use gwsockets.Socket.Stream.{launch, report, close_socket}
use gwsockets.Socket.Close.{close_now, do_close, clear_queue, set_disconnecting_cas}
use gwsockets.Socket.Connect.{open_socket}
use gwsockets.Queue.{put}
use gwsockets.Socket.Tests.{platform, code, runs as socket_runs}
use gwsockets.Lua.Registry.{
  Web, UrlParts, Module, empty_module, find, update, erase, is_member, insert, with_socket,
  create_web_socket_from_url, create_web_socket, delete_socket,
}
use gwsockets.Lua.Functions.{refer, socket_close_now, socket_open, socket_gc_function}
use gwsockets.Lua.Think.{
  Event, at_socket, at_orphan, Scripts, creates_web_socket, calls_open, calls_close_now,
  call_handler, poll, delete_gced, perform, perform_all, call_back, drop_reference, visit,
  visit_all, web_socket_think, module_close,
}
use gwsockets.Lua.Holding.{Held, socket_gc_function-Held}
use gwsockets.Lua.Swept.{Swept, delete_gced-Swept}
use gwsockets.Lua.Biography.{history}
use gwsockets.Lua.Lifelike.{Lifelike, Steps-AllLifelike}
use gwsockets.Lua.Reached.{Reached}
use gwsockets.Lua.Sweep.{no_web}
use gwsockets.Lua.Addresses.{present}
use gwsockets.Lua.Collected.{Gone, web_socket_think-Gone}
use gwsockets.Socket.Invariant.{Waits}
use gwsockets.Lua.Lives.{empty-Sound}
use gwsockets.Lua.System.{Step, Steps, finalized}
use gwsockets.Lua.Staying.{AllBacked}
use gwsockets.Lua.Soundness.{Sound, Steps-Sound}
use gwsockets.Lua.Requests.{usable}
use gwsockets.Lua.Total.{web_socket_think-ne-none}
use gwsockets.Lua.Shutdown.{module_close-ne-none}
use gwsockets.Socket.Loop.{opens, step}
use gwsockets.Lua.Keeping.{perform-Held}
use gwsockets.Lua.Rounds.{Civil, web_socket_think-Steps}
use gwsockets.Lua.Creation.{Fresh, create_web_socket_from_url_lem}
use gwsockets.Lua.Deletion.{delete_gced_orphan}

-- To unfold this is to unfold all that the runs call.
runs : Unit {0}
unfolding clear put new_socket launch report close_socket close_now do_close clear_queue
    set_disconnecting_cas open_socket to_string digits_onto bytes_eq find update erase is_member
    insert with_socket create_web_socket_from_url create_web_socket delete_socket refer
    socket_close_now socket_open socket_gc_function call_handler poll delete_gced perform
    perform_all call_back drop_reference visit visit_all web_socket_think
runs = tt

abbrev parts : UrlParts
parts = record { scheme = codes "ws"; host = codes "example.org"; port = []; path = codes "/chat" }

abbrev web : Web
web = record no_web { parse = λ text. some parts }

-- Lua counts the callbacks, which ask for nothing.
abbrev silent : Scripts
silent = record {
  State = ℕ;
  reference_push = λ reference st. (st, 1);
  hand_over = λ table_index message st. some (st + 1, []);
  pop = λ st. st;
  reference_free = λ reference st. st;
}

abbrev waiting : Socket
waiting = new_socket web_socket (codes "example.org") 80 (codes "/chat")

-- After `createWebSocket`, and after `open`.
abbrev created : Module
created = record empty_module { all_sockets = (1, waiting) ∷ []; created = 1 }

created-Held : Held created
unfolding runs
created-Held =
    perform-Held platform web (creates_web_socket (codes "ws://example.org/chat") none) empty_module
      empty-Sound.held refl

abbrev opened : Module
opened = record created {
  all_sockets =
      (
        1,
        record waiting {
          state = connecting;
          generation = 1;
          operations =
              record { expected = 1; action = Action.resolve (codes "example.org") (codes "80") }
              ∷ [];
        },
      )
      ∷ [];
  socket_table_references = (1, 1) ∷ [];
}

opened-Held : Held opened
unfolding runs
opened-Held = perform-Held platform web (calls_open (some 1) none 1) created created-Held refl

-- The finalizer is called while the host is being resolved.
finalized-Held : Post Held (socket_gc_function 1 opened)
finalized-Held = socket_gc_function-Held 1 opened opened-Held

-- `open` and `closeNow`, two rounds of the timer, the finalizer.
abbrev forgotten : Option Module
forgotten = perform_all platform web (calls_close_now (some 1) ∷ []) opened >>= λ m.
    web_socket_think platform web silent [] m 0 >>= λ r.
    web_socket_think platform web silent [] r.0 r.1 >>= λ r'. socket_gc_function 1 r'.0

abbrev is_orphaned : Option (Module × ℕ) → Bool
is_orphaned none = true
is_orphaned (some r) = false

-- The resolver answers only after the next round, which has deleted the socket.
late_answer_run :
    (is_orphaned (forgotten >>= λ m. web_socket_think platform web silent [] m 0) ≡ false)
    × (is_orphaned (
          forgotten >>= λ m. web_socket_think platform web silent [] m 0 >>= λ r.
          web_socket_think platform web silent (at_orphan 0 ∷ []) r.0 r.1)
        ≡ true)
unfolding runs
late_answer_run = (refl, refl)

silent-Civil : (m : Module) → Civil silent m
silent-Civil m table_index message st = refl

create_web_socket_from_url_lem_example :
    Post (Fresh true parts) (create_web_socket_from_url web (codes "ws://example.org/chat") true)
create_web_socket_from_url_lem_example =
    create_web_socket_from_url_lem web (codes "ws://example.org/chat") true parts refl

abbrev attempt : Socket
attempt = record waiting {
  state = connecting;
  generation = 1;
  operations =
      record { expected = 1; action = Action.resolve (codes "example.org") (codes "80") } ∷ [];
}

attempt_is_up : attempt.state ≢ disconnected
attempt_is_up e = absurd (ground arith)

-- Finalized while the host is being resolved.
abbrev abandoned : Module
abandoned = record opened {
  all_sockets = (1, record attempt { state = disconnected; generation = 2 }) ∷ [];
  gced_sockets = 1 ∷ [];
  socket_table_references = [];
}

abandoned-Held : Held abandoned
unfolding find is_member
abandoned-Held = record {
  referenced = λ q r. absurd (ground arith);
  finalized = λ q r. ground arith;
  apart = λ q r. refl;
  once = refl;
}

delete_gced-Swept_example :
    (m' : Module) × (delete_gced platform (1 ∷ []) abandoned ≡ some m')
    × Held m'
    × Swept (1 ∷ []) abandoned m'
delete_gced-Swept_example = delete_gced-Swept platform abandoned abandoned-Held

delete_gced_orphan_example :
    (m' : Module) × (delete_gced platform (1 ∷ []) abandoned ≡ some m')
    × (j : ℕ) × (call_handler platform (at_orphan j) m' ≡ none)
unfolding find
delete_gced_orphan_example =
    delete_gced_orphan platform 1 (record attempt { state = disconnected; generation = 2 }) 0
      (record { expected = 1; action = Action.resolve (codes "example.org") (codes "80") })
      abandoned refl refl refl

web_socket_think-Steps_example :
    Post
      (λ r. (n : ℕ) × Steps platform web opened n r.0)
      (web_socket_think platform web silent [] opened 0)
web_socket_think-Steps_example =
    web_socket_think-Steps platform web silent [] opened 0 opened-Held (silent-Civil opened)

-- A socket is created and opened.
opening : Steps platform web empty_module 3 opened
unfolding runs step
opening =
    Steps.onward 2 _ opened
      (Steps.onward 1 created _
        (Steps.onward 0 empty_module created Steps.start
          (Step.creates (codes "ws://example.org/chat") true waiting refl refl))
        (Step.refers 1 1 waiting refl refl refl))
      (Step.calls 1 (opens true) waiting attempt refl (λ o. refl) refl refl)

opened-Sound : Sound 3 opened
opened-Sound = Steps-Sound platform web 0 empty_module 3 opened empty-Sound opening (omega arith)

opened-AllBacked : AllBacked opened
opened-AllBacked p s at = (opened-Sound.every p s at).backed

-- The resolver fails, and the callback opens the socket again.
abbrev stubborn : Scripts
stubborn = record silent {
  hand_over = λ table_index message st. some (st + 1, calls_open (some 1) none 1 ∷ []);
}

abbrev host_unknown : List Event
host_unknown =
    at_socket 1 false 0 (record { code = code 1; endpoints = []; bytes = []; reason = [] }) ∷ []

still_usable :
    Post
      (λ kept. usable kept (some 1) ≡ true)
      (poll platform host_unknown opened >>= λ polled.
        delete_gced platform polled.gced_sockets polled)
unfolding runs socket_runs
still_usable = refl

web_socket_think-ne-none_example :
    web_socket_think platform web stubborn host_unknown opened 0 ≢ none
web_socket_think-ne-none_example =
    web_socket_think-ne-none platform web stubborn host_unknown opened 0 opened-Held
      opened-AllBacked refl
      (λ kept e h table_index message st. (
        (st + 1, calls_open (some 1) none 1 ∷ []),
        refl,
        ground (arith, subst (Post (λ k. usable k (some 1) ≡ true)) e still_usable),
      ))

module_close-ne-none_example : module_close platform false host_unknown opened ≢ none
module_close-ne-none_example =
    module_close-ne-none platform false host_unknown opened opened-Held opened-AllBacked refl

Steps-AllLifelike_example :
    Lifelike platform (history platform web 1 empty_module 3 opened opening) attempt
unfolding find
Steps-AllLifelike_example =
    Steps-AllLifelike platform web 3 opened opening 1 attempt (omega arith) refl

-- The table of the socket is collected while the resolver works.
abbrev collected : Module
collected = finalized 1 attempt opened

abbrev left : Socket
left = (close_now no_reason attempt).0

collecting : Steps platform web empty_module 4 collected
unfolding find
collecting = Steps.onward 3 opened collected opening (Step.finalizes 1 attempt refl refl)

left_idle : ¬ Waits left
unfolding runs
left_idle (zero, op, at, now) = absurd (ground arith)
left_idle (suc i, op, at, now) = absurd (ground arith)

web_socket_think-Gone_example :
    (kept : Module) × (web_socket_think platform web silent [] collected 0
      ≡ visit_all platform web silent kept.socket_table_references kept 0)
    × Reached platform web collected kept
    × Gone 1 kept
    × (present (find 1 kept.socket_table_references) ≡ false)
unfolding runs
web_socket_think-Gone_example =
    web_socket_think-Gone platform web silent [] collected collected 0 4 1 left refl collecting
      (omega arith) refl refl left_idle
