-- ===== src/Lua/Lifelike.antt =====
-- src/GLua.cpp and src/GWSocket.cpp: what holds of a socket in its histories holds of the objects of the
-- module.
use mathlib.Core.List.Sublist
use mathlib.Core.List.{Sublist, sublist-append_left}
use gwsockets.Prelude.{
  ℕ, ◌+◌, ◌^◌, ◌<◌, ◌≡◌, ◌≢◌, refl, sym, subst, List, [], ◌∷◌, ◌++◌, some, arith, Post,
  Option-cases, length, inl, inr,
}
use gwsockets.Platform.{Platform}
use gwsockets.Socket.State.{Socket, new_socket, disconnected, GwSocketMessageIn}
use gwsockets.Socket.Loop.{Call, step, run}
use gwsockets.Socket.Invariant.{Inv, Waits, state-Waits, new_socket-Inv}
use gwsockets.Socket.Machine.{delivered}
use gwsockets.Socket.Machine.Histories.{
  converse, Orderly, converse-Told, new_socket-Told, Told-Orderly,
}
use gwsockets.Socket.Machine.Protocol.{Told}
use gwsockets.Socket.Machine.Delivery.{outgoing, queued}
use gwsockets.Socket.Machine.Order.{all_written, run_from_order}
use gwsockets.Socket.Machine.Buffer.{AllBuffered}
use gwsockets.Socket.Machine.Intact.{Intact, AllBuffered-Intact, run_from-AllBuffered}
use gwsockets.Lua.Registry.{Web, Module, empty_module, find}
use gwsockets.Lua.Creation.{IsNew}
use gwsockets.Lua.System.{Steps}
use gwsockets.Lua.Biography.{Leads, history, Steps-Biography, history_length}

-- A history with what its callbacks got leads where the history does.
run-converse :
    (platform : Platform) (calls : List Call) (taken : List GwSocketMessageIn) (s t : Socket)
    → run platform calls s ≡ some t
    → (all : List GwSocketMessageIn) × (converse platform calls (taken, s) ≡ some (all, t))
unfolding run converse
run-converse platform [] taken s t e = (taken, ground arith)
run-converse platform (call ∷ calls) taken s t e = elim (Option-cases (step platform call s)) [
  | inl gone ↦ absurd (ground arith)
  | inr (u, at) ↦ rw at (run-converse platform calls (taken ++ delivered call s) u t (ground arith))
]

-- A socket before its first call.
record Starts (s : Socket) : Type 0 where
  inv : Inv s
  told : Told [] s
  young : s.generation ≡ 0
  silent : outgoing s ≡ []
  buffered : AllBuffered s

IsNew-Starts : (s : Socket) → IsNew s → Starts s
unfolding new_socket queued
IsNew-Starts s (kind, host, port, path, b, e) = rw e (record {
  inv = new_socket-Inv kind host port path;
  told = new_socket-Told kind host port path;
  young = refl;
  silent = refl;
  buffered = refl;
})

-- The socket `s` after a history of a new socket, with what the callbacks got from it: the reports follow
-- the protocol, what was handed to the streams is a sublist of what was written, a socket that is not
-- disconnected waits for an operation, and a write in flight has its bytes.
pub record Lifelike (platform : Platform) (calls : List Call) (s : Socket) : Type 0 where
  pub new : Socket
  pub is_new : IsNew new
  pub taken : List GwSocketMessageIn
  pub lived : converse platform calls ([], new) ≡ some (taken, s)
  pub orderly : Orderly (taken, s)
  pub ordered : Sublist s.sent (all_written calls)
  pub waiting : s.state ≢ disconnected → Waits s
  pub intact : Intact s

Leads-Lifelike :
    (platform : Platform) (calls : List Call) (s : Socket)
    → length calls < 2 ^ 32
    → Leads platform calls s
    → Lifelike platform calls s
Leads-Lifelike platform calls s few (new, is_new, leads) =
    let starts = IsNew-Starts new is_new in
    let short : new.generation + length calls < 2 ^ 32 = omega (arith, starts.young) in
    let (taken, lived) = run-converse platform calls [] new s leads in
    let both =
      subst (Post (λ r. Inv r.1 × Told r.0 r.1)) lived
        (converse-Told platform calls [] new starts.inv starts.told short) in
    record {
      new = new;
      is_new = is_new;
      taken = taken;
      lived = lived;
      orderly = Told-Orderly taken s both.0 both.1;
      ordered = Sublist.trans (sublist-append_left s.sent (queued s.write_queue)) (
          subst (Post (λ t. Sublist (outgoing t) (all_written calls))) leads (
            run_from_order platform calls [] new
              (subst (λ l. Sublist l []) (sym starts.silent) (Sublist.refl []))));
      waiting = state-Waits s.state s refl both.0;
      intact = AllBuffered-Intact s (
          subst (Post AllBuffered) leads
            (run_from-AllBuffered platform calls new starts.inv starts.buffered short));
    }

-- After any path of fewer than 2 ^ 32 steps of the module since it was opened, every object in it is a new
-- socket after the calls that the path makes to its address once it was created there; of the reports,
-- what its callbacks got from it and what waits follow the protocol; what it handed to its streams is a
-- sublist of what those calls gave to `write`; it is disconnected or waits for an operation of its current
-- generation; and each write in flight of that generation is of the message that messageToWrite holds.
pub Steps-AllLifelike :
    (platform : Platform) (web : Web) (n : ℕ) (m : Module)
    (path : Steps platform web empty_module n m) (p : ℕ) (s : Socket)
    → n < 2 ^ 32
    → find p m.all_sockets ≡ some s
    → Lifelike platform (history platform web p empty_module n m path) s
Steps-AllLifelike platform web n m path p s few found =
    Leads-Lifelike platform (history platform web p empty_module n m path) s
      (omega (arith, history_length platform web p empty_module n m path))
      ((Steps-Biography platform web p n m path).alive s found)
