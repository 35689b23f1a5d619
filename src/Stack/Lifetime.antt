-- ===== src/Stack/Lifetime.antt =====
-- src/GLua.cpp: the life of the module as Lua sees it, as calls of the C functions that the module gave it.
use gwsockets.Prelude.{
  Bytes, ℕ, ◌≡◌, ◌≢◌, refl, sym, ◌∙◌, subst, inl, inr, true, codes, List, Option, none, some, ◌>>=◌,
  Option-cases, Post, Post-bind, Post-map,
}
use gwsockets.Platform.{Platform}
use gwsockets.Lua.{Web, Module, Reply, empty_module, create_web_socket}
use gwsockets.Lua.Think.{Request, creates_web_socket, Event, perform, web_socket_think}
use gwsockets.Lua.Holding.{Held}
use gwsockets.Lua.System.{Steps}
use gwsockets.Lua.Reached.{Reached, here}
use gwsockets.Lua.Keeping.{polite, perform-Reached}
use gwsockets.Lua.Rounds.{Civil, web_socket_think-Steps, socket_gc_function-Step}
use gwsockets.Lua.Lives.{take_all, AllAllowed, Lived, all-Lived}
use gwsockets.Stack.Api.{LuaBase, argument}
use gwsockets.Stack.Calls.{Run, stack_of, c_str}
use gwsockets.Stack.Arguments.{Result, text_at, bool_at, check_string}
use gwsockets.Stack.Timer.{lua_scripts}
use gwsockets.Stack.Methods.{Method, call_method}
use gwsockets.Stack.Requests.{request_of, Agrees}
use gwsockets.Stack.Answers.{call_method-Agrees}
use gwsockets.Stack.Declining.{Declines, unwanted-Declines, call_method-refuses}
use gwsockets.Stack.Creation.{
  Answered, c_create_web_socket, c_create_web_socket-Answered, c_socket_gc_function,
  c_socket_gc_function_cases, c_socket_to_string,
}
use gwsockets.Stack.Printing.{Printed, c_socket_to_string-Printed}

-- The module that a C function leaves.
abbrev pub module_of : {lua : LuaBase} → Option (Result lua ℕ) → Option Module
module_of none = none
module_of (some (Result.ok n r m)) = some m
module_of (some (Result.throws e m)) = some m
module_of (some (Result.refuses m)) = some m

-- A call by Lua, with the run at that time: of a method, of createWebSocket, of `__tostring`, of the timer
-- function with the handlers that the io_context calls then, or of a finalizer. `addVerifyPath` and
-- `doVersionCheck` do not see the module.
pub data Entry (lua : LuaBase) : Type 0 where
  enters_method : Method → Run lua → Entry lua
  enters_creation : Run lua → Entry lua
  enters_to_string : Run lua → Entry lua
  enters_timer : List Event → Run lua → Entry lua
  enters_finalizer : Run lua → Entry lua

-- What follows for the module from what follows for the request.
Agrees-Post :
    (lua : LuaBase) (meta : ℕ) (P : Module → Type 0) (x : Option (Module × Reply))
    (y : Option (Result lua ℕ))
    → Agrees lua meta x y
    → Post (λ r. P r.0) x
    → Post P (module_of y)
Agrees-Post lua meta P x none a p = tt
Agrees-Post lua meta P (some (m, Reply.replies_nothing)) (some (Result.ok n r m')) a p =
    subst P (sym a.1) p
Agrees-Post lua meta P (some (m, Reply.replies b)) (some (Result.ok n r m')) a p =
    subst P (sym a.1) p
Agrees-Post lua meta P (some (m, Reply.raises e)) (some (Result.throws e' m')) a p =
    subst P (sym a.1) p
Agrees-Post lua meta P _ _ a p = absurd a

Answered-Post :
    (lua : LuaBase) (meta : ℕ) (P : Module → Type 0) (r : Run lua) (m : Module) (x : Module × Reply)
    (y : Option (Result lua ℕ))
    → Answered lua meta r m x y
    → P x.0
    → Post P (module_of y)
unfolding Answered
Answered-Post lua meta P r m (m', Reply.replies_socket p) (some (Result.ok n r' m'')) a h =
    subst P (sym a.1) h
Answered-Post lua meta P r m (m', Reply.prints_error e) (some (Result.ok n r' m'')) a h =
    subst P (a.1 ∙ sym a.2) h
Answered-Post lua meta P r m (m', Reply.prints_error e) (some (Result.refuses m'')) a h =
    subst P (a.0 ∙ sym a.1) h
Answered-Post lua meta P r m _ _ a h = absurd a

Printed-Post :
    (lua : LuaBase) (print_pointer : ℕ → Bytes) (P : Module → Type 0) (m : Module)
    (y : Option (Result lua ℕ))
    → Printed lua print_pointer m y
    → P m
    → Post P (module_of y)
Printed-Post lua print_pointer P m none a h = absurd a
Printed-Post lua print_pointer P m (some (Result.ok n r m')) a h = subst P (sym a.1) h
Printed-Post lua print_pointer P m (some (Result.throws e m')) a h = subst P (sym a) h
Printed-Post lua print_pointer P m (some (Result.refuses m')) a h = subst P (sym a) h

Declines-Post :
    (lua : LuaBase) (P : Module → Type 0) (m : Module) (y : Option (Result lua ℕ))
    → Declines (Unit {0}) lua m y
    → P m
    → Post P (module_of y)
Declines-Post lua P m none a h = tt
Declines-Post lua P m (some (Result.throws e m')) a h = subst P (sym a) h
Declines-Post lua P m (some (Result.refuses m')) a h = subst P (sym a) h
Declines-Post lua P m (some (Result.ok n r m')) a h = absurd a

module _ (platform : Platform) (web : Web) (lua : LuaBase)
    (user_data_metatable lua_socket_meta_table : ℕ) (requests : Run lua → Run lua → List Request)
    (print_pointer : ℕ → Bytes) where
  unfoldable pub enter : Entry lua → Module → Option Module
  enter (enters_method method r) m =
      module_of (call_method platform lua user_data_metatable method r m)
  enter (enters_creation r) m =
      module_of (c_create_web_socket lua user_data_metatable web lua_socket_meta_table r m)
  enter (enters_to_string r) m =
      module_of (c_socket_to_string lua user_data_metatable print_pointer r m)
  enter (enters_timer events r) m =
      (web_socket_think platform web (lua_scripts lua requests) events m r >>= λ u. some u.0)
  enter (enters_finalizer r) m = module_of (c_socket_gc_function lua user_data_metatable r m)

  -- A method is called on something, which is not the table of a socket that was finalized if the method
  -- is `open`; nor do the callbacks open one.
  abbrev pub Allowed : Entry lua → Module → Type 0
  Allowed (enters_method method r) m =
      (table : lua.Value) × (argument 1 (stack_of lua r) ≡ some table)
      × ((request : Request)
          → request_of lua user_data_metatable method r ≡ some request
          → polite m.gced_sockets request ≡ true)
  Allowed (enters_timer events r) m = Civil (lua_scripts lua requests) m
  Allowed _ m = Unit {0}

  abbrev Goes : Module → Module → Type 0
  Goes m m' = (n : ℕ) × Steps platform web m n m'

  stays : (m : Module) → Goes m m
  stays m = (0, Steps.start)

  perform-Goes :
      (request : Request) (m : Module)
      → Held m
      → polite m.gced_sockets request ≡ true
      → Post (λ r. Goes m r.0) (perform platform web request m)
  perform-Goes request m h polite_request =
      Post-map (perform platform web request m) (λ r k. (Reached.length k, Reached.path k))
        (perform-Reached platform web m request m (here platform web m h) polite_request)

  method-Goes :
      (method : Method) (r : Run lua) (m : Module)
      → Held m
      → Allowed (enters_method method r) m
      → Post (Goes m) (module_of (call_method platform lua user_data_metatable method r m))
  method-Goes method r m h (table, first, civil) =
      elim (Option-cases (lua.get_field_at 1 (codes "__CppUserData") r.state)) [
        | inl e ↦ rw (call_method-refuses platform lua user_data_metatable method r m e) (stays m)
        | inr (s, e) ↦
            let indexed : lua.get_field_at 1 (codes "__CppUserData") r.state ≢ none = λ e'. cc in
            elim (Option-cases (request_of lua user_data_metatable method r)) [
              | inl unwanted ↦
                  Declines-Post lua (Goes m) m _
                    (unwanted-Declines platform lua user_data_metatable r m table first indexed
                      (Unit {0}) (λ p points gone. tt) method unwanted)
                    (stays m)
              | inr (request, wanted) ↦
                  Agrees-Post lua user_data_metatable (Goes m) (perform platform web request m) _
                    (call_method-Agrees platform web lua user_data_metatable method r m table
                      request first indexed wanted)
                    (perform-Goes request m h (civil request wanted))
            ]
      ]

  creation-Goes :
      (r : Run lua) (m : Module)
      → Held m
      → Post
          (Goes m)
          (module_of (c_create_web_socket lua user_data_metatable web lua_socket_meta_table r m))
  unfolding c_create_web_socket check_string perform
  creation-Goes r m h = elim (Option-cases (text_at lua 1 (stack_of lua r))) [
    | inl missing ↦ rw missing (stays m)
    | inr (text, given) ↦
        Answered-Post lua user_data_metatable (Goes m) r m
          (create_web_socket web (c_str text) (bool_at lua 2 (stack_of lua r)) m) _
          (c_create_web_socket-Answered lua user_data_metatable lua_socket_meta_table web r m text
            given)
          (perform-Goes (creates_web_socket (c_str text) (bool_at lua 2 (stack_of lua r))) m h refl)
  ]

  finalizer-Goes :
      (r : Run lua) (m : Module)
      → Post (Goes m) (module_of (c_socket_gc_function lua user_data_metatable r m))
  finalizer-Goes r m = elim (c_socket_gc_function_cases lua user_data_metatable r m) [
    | inl e ↦ rw e (stays m)
    | inr (inl e) ↦ rw e tt
    | inr (inr (p, m', done, e)) ↦
        rw e (elim (subst (Post _) done (socket_gc_function-Step platform web p m)) [
          | inl (up, s) ↦ (1, Steps.onward 0 m m' Steps.start s)
          | inr (shut, same) ↦ subst (Goes m) (sym same) (stays m)
        ])
  ]

  enter-Goes :
      (entry : Entry lua) (m : Module) → Held m → Allowed entry m → Post (Goes m) (enter entry m)
  unfolding enter
  enter-Goes (enters_method method r) m h allowed = method-Goes method r m h allowed
  enter-Goes (enters_creation r) m h allowed = creation-Goes r m h
  enter-Goes (enters_to_string r) m h allowed =
      Printed-Post lua print_pointer (Goes m) m _
        (c_socket_to_string-Printed lua user_data_metatable print_pointer r m) (stays m)
  enter-Goes (enters_timer events r) m h civil =
      Post-bind _ _ (web_socket_think platform web (lua_scripts lua requests) events m r) _
        (web_socket_think-Steps platform web (lua_scripts lua requests) events m r h civil)
        (λ u path. path)
  enter-Goes (enters_finalizer r) m h allowed = finalizer-Goes r m

-- Whatever C functions of the module Lua calls one after the other since it was opened, so no finalizer
-- while a callback runs, provided that methods are called with a first argument and that neither a method
-- nor a callback opens a socket whose table was finalized: the module was reached by steps; if these are
-- fewer than 2 ^ 32, then the collections hold addresses of live objects, no finalized one twice or
-- referenced, every socket satisfies its invariant, one that is not disconnected is referenced, or
-- finalized and not deleted yet, and every socket is a new one after the calls that the steps make to it
-- since it was created, so it is as in a history of such calls: reports in order, nothing invented,
-- doubled or overtaken in what it sent, an operation to wait for unless it is disconnected, and no write
-- whose bytes were replaced. A call that uses a deleted object or a null stream ends what is looked at,
-- and so does an error of the timer.
pub enter_all-Lived :
    (platform : Platform) (web : Web) (lua : LuaBase)
    (user_data_metatable lua_socket_meta_table : ℕ) (requests : Run lua → Run lua → List Request)
    (print_pointer : ℕ → Bytes) (entries : List (Entry lua))
    → AllAllowed
        (enter platform web lua user_data_metatable lua_socket_meta_table requests print_pointer)
        (Allowed platform web lua user_data_metatable lua_socket_meta_table requests print_pointer)
        entries
        empty_module
    → Post (Lived platform web) (
        take_all
          (enter platform web lua user_data_metatable lua_socket_meta_table requests print_pointer)
          entries
          empty_module)
enter_all-Lived platform web lua meta socket_meta requests print_pointer entries allowed =
    all-Lived platform web (enter platform web lua meta socket_meta requests print_pointer)
      (Allowed platform web lua meta socket_meta requests print_pointer)
      (enter-Goes platform web lua meta socket_meta requests print_pointer) entries allowed
