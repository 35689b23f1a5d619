-- ===== src/Lua/Histories.antt =====
-- src/GLua.cpp: the life of the module, from its opening on.
use gwsockets.Prelude.{
  ℕ, ◌≡◌, sym, subst, true, List, Option, some, ◌>>=◌, Post, Post-bind, Post-map, inl, inr,
}
use gwsockets.Platform.{Platform}
use gwsockets.Lua.Registry.{Web, Module, empty_module}
use gwsockets.Lua.Functions.{socket_gc_function}
use gwsockets.Lua.Think.{Event, Request, Scripts, perform, web_socket_think}
use gwsockets.Lua.Holding.{Held}
use gwsockets.Lua.System.{Steps}
use gwsockets.Lua.Reached.{Reached, here}
use gwsockets.Lua.Keeping.{polite, perform-Reached}
use gwsockets.Lua.Rounds.{Civil, web_socket_think-Steps, socket_gc_function-Step}
use gwsockets.Lua.Lives.{take_all, AllAllowed, Lived, all-Lived}

-- A script calls a function, the timer runs with what the scripts do in its callbacks, or the collector
-- calls a finalizer.
-- The state of Lua at a round of the timer is any.
pub data Turn (State : Type 0) : Type 0 where
  asks : Request → Turn State
  runs_timer : State → List Event → Turn State
  collects : ℕ → Turn State

module _ (platform : Platform) (web : Web) (scripts : Scripts) where
  unfoldable pub take_turn : Turn scripts.State → Module → Option Module
  take_turn (asks request) m = (perform platform web request m >>= λ r. some r.0)
  take_turn (runs_timer st events) m =
      (web_socket_think platform web scripts events m st >>= λ r. some r.0)
  take_turn (collects p) m = socket_gc_function p m

  abbrev pub take_turns : List (Turn scripts.State) → Module → Option Module
  take_turns turns m = take_all take_turn turns m

  -- No script opens a socket whose userdata was finalized.
  abbrev pub Fair : Turn scripts.State → Module → Type 0
  Fair (asks request) m = polite m.gced_sockets request ≡ true
  Fair (runs_timer st events) m = Civil scripts m
  Fair (collects p) m = Unit {0}

  abbrev pub AllFair : List (Turn scripts.State) → Module → Type 0
  AllFair turns m = AllAllowed take_turn Fair turns m

  turn-Steps :
      (turn : Turn scripts.State) (m : Module)
      → Held m
      → Fair turn m
      → Post (λ m'. (n : ℕ) × Steps platform web m n m') (take_turn turn m)
  unfolding take_turn
  turn-Steps (asks request) m h fair =
      Post-bind _ _ (perform platform web request m) _
        (perform-Reached platform web m request m (here platform web m h) fair)
        (λ r k. (Reached.length k, Reached.path k))
  turn-Steps (runs_timer st events) m h fair =
      Post-bind _ _ (web_socket_think platform web scripts events m st) _
        (web_socket_think-Steps platform web scripts events m st h fair) (λ r path. path)
  turn-Steps (collects p) m h fair =
      Post-map (socket_gc_function p m)
        (λ m' done. elim done [
          | inl (up, s) ↦ (1, Steps.onward 0 m m' Steps.start s)
          | inr (shut, same) ↦ (0, subst (Steps platform web m 0) (sym same) Steps.start)
        ])
        (socket_gc_function-Step platform web p m)

-- The module after any calls of scripts, rounds of the timer and finalizers since it was opened, none of
-- which opens a socket whose userdata was finalized, was reached by steps; if these are fewer than 2 ^
-- 32, then the collections hold addresses of live objects, no finalized one twice or referenced, every
-- socket satisfies its invariant, one that is not disconnected is referenced, or finalized and not
-- deleted yet, and every socket is a new one after the calls that the steps make to it since it was
-- created, so it is as in a history of such calls: reports in order, nothing invented, doubled or
-- overtaken in what it sent, an operation to wait for unless it is disconnected, and no write whose bytes
-- were replaced.
pub take_turns-Sound :
    (platform : Platform) (web : Web) (scripts : Scripts) (turns : List (Turn scripts.State))
    → AllFair platform web scripts turns empty_module
    → Post (Lived platform web) (take_turns platform web scripts turns empty_module)
take_turns-Sound platform web scripts turns fair =
    all-Lived platform web (take_turn platform web scripts) (Fair platform web scripts)
      (turn-Steps platform web scripts) turns fair
