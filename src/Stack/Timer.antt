-- ===== src/Stack/Timer.antt =====
-- src/GLua.cpp: `webSocketThink` with the stack of Lua, as the timer calls it.
use gwsockets.Prelude.{◌≢◌, ℕ, ◌≡◌, List, [], ◌∷◌, some, ◌>>=◌, length}
use gwsockets.Platform.{Platform}
use gwsockets.Socket.State.{Socket, disconnected}
use gwsockets.Lua.{Web, Module, find}
use gwsockets.Lua.Think.{Event, Request, Scripts, poll, delete_gced, visit}
use gwsockets.Stack.Api.{LuaBase}
use gwsockets.Stack.Calls.{Run, stack_of, pop, hand_over}
use gwsockets.Stack.Balance.{Has}
use gwsockets.Stack.Callbacks.{AllHanded}

-- The part of the timer that works on the stack. What a callback asks of the module follows from the
-- state before and after its call.
abbrev pub lua_scripts : (lua : LuaBase) → (Run lua → Run lua → List Request) → Scripts
lua_scripts lua requests = record {
  State = Run lua;
  reference_push = λ reference r.
      let pushed = record r { state = lua.reference_push reference r.state } in
      (pushed, length (stack_of lua pushed));
  hand_over = λ table_index message r.
      (hand_over lua table_index message r >>= λ t. some (t, requests r t));
  pop = pop lua 1;
  reference_free = λ reference r. record r { state = lua.reference_free reference r.state };
}

module _ (platform : Platform) (web : Web) (lua : LuaBase)
    (requests : Run lua → Run lua → List Request) where
  abbrev scripts : Scripts
  scripts = lua_scripts lua requests

  -- The visit of one socket: one that is not disconnected and has no message is passed by; otherwise its
  -- table is pushed, the callbacks are called for the messages that its queue holds, and the stack is
  -- left as it was.
  pub data Visited (p reference : ℕ) (m : Module) (r r' : Run lua) : Type 0 where
    passed_by :
        (s : Socket)
        → find p m.all_sockets ≡ some s
        → s.message_queue.backing_queue ≡ []
        → s.state ≢ disconnected
        → r' ≡ r
        → Visited p reference m r r'
    handed_on :
        (s : Socket) (table : lua.Value) (last : Run lua)
        → find p m.all_sockets ≡ some s
        → Has lua (table ∷ lua.stack r.state) (lua.reference_push reference r.state)
        → AllHanded lua table s.message_queue.backing_queue
            (record r { state = lua.reference_push reference r.state })
            last
        → r'.log ≡ last.log
        → Has lua (lua.stack r.state) r'.state
        → Visited p reference m r r'

  -- The visits of the sockets of the copy of `socketTableReferences`, in its order.
  pub data AllVisited : List (ℕ × ℕ) → Module → Run lua → Module → Run lua → Type 0 where
    finished : (m : Module) (r : Run lua) → AllVisited [] m r m r
    next :
        (p reference : ℕ) (rest : List (ℕ × ℕ)) (m : Module) (r : Run lua) (u : Module × Run lua)
        (m' : Module) (r' : Run lua)
        → visit platform web scripts p reference m r ≡ some u
        → Visited p reference m r u.1
        → AllVisited rest u.0 u.1 m' r'
        → AllVisited ((p, reference) ∷ rest) m r m' r'

-- What a round comes to, in the module and in the run.
abbrev pub Rounded :
    (platform : Platform) (web : Web) (lua : LuaBase)
    → (Run lua → Run lua → List Request)
    → List Event
    → Module × Run lua
    → Module × Run lua
    → Type 0
Rounded platform web lua requests events (m, r) (m', r') =
    (kept : Module) × ((poll platform events m >>= λ polled.
    delete_gced platform polled.gced_sockets polled)
      ≡ some kept)
    × AllVisited platform web lua requests kept.socket_table_references kept r m' r'
    × Has lua (lua.stack r.state) r'.state
