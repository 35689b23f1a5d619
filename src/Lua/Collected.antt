-- ===== src/Lua/Collected.antt =====
-- src/GLua.cpp: a socket whose table was collected is deleted in the end.
use gwsockets.Prelude.{
  ℕ, ◌^◌, ◌<◌, ◌≡◌, ◌≢◌, refl, subst, true, false, List, some, arith, Post, Bool-cases, inl, inr,
}
use gwsockets.Platform.{Platform}
use gwsockets.Socket.State.{Socket, disconnected, same_state}
use gwsockets.Socket.Invariant.{Waits}
use gwsockets.Lua.Registry.{Web, Module, empty_module, find, is_member}
use gwsockets.Lua.Think.{Event, Scripts, poll, visit_all, web_socket_think}
use gwsockets.Lua.Addresses.{present}
use gwsockets.Lua.System.{Steps}
use gwsockets.Lua.Reached.{Reached, Reached-Held, here, Steps-Held}
use gwsockets.Lua.Sweep.{delete_gced-Reached}
use gwsockets.Lua.Swept.{is_down, Swept, delete_gced_from}
use gwsockets.Lua.Lifelike.{Steps-AllLifelike}
use gwsockets.Lua.Lives.{empty-Sound}

-- Neither an object nor a finalized one has the address.
pub record Gone (p : ℕ) (m : Module) : Type 0 where
  pub absent : present (find p m.all_sockets) ≡ false
  pub forgotten : is_member p m.gced_sockets ≡ false

-- A socket that waits for nothing is disconnected.
idle-disconnected :
    (s : Socket)
    → (s.state ≢ disconnected → Waits s)
    → ¬ Waits s
    → same_state s.state disconnected ≡ true
idle-disconnected s waiting idle = elim (Bool-cases (same_state s.state disconnected)) [
  | inl down ↦ down
  | inr up ↦ absurd (idle (waiting (λ e. absurd (ground arith))))
]

delete_gced-Gone :
    (p : ℕ) (s : Socket) (polled kept : Module)
    → is_member p polled.gced_sockets ≡ true
    → find p polled.all_sockets ≡ some s
    → same_state s.state disconnected ≡ true
    → Swept polled.gced_sockets polled kept
    → Gone p kept
delete_gced-Gone p s polled kept gced at down swept =
    let down_there : is_down p polled ≡ true = rw (is_down, at) down in
    record {
      absent = rw (swept.objects p, gced, down_there) refl;
      forgotten = rw (swept.addresses p, gced, down_there) refl;
    }

-- A finalized socket for which no operation is in flight once the handlers of a round have been called is
-- deleted in this round: the module with which the round goes on to the callbacks has no object at its
-- address, no finalized one and no reference to one, and that module is what steps make of it after the
-- handlers. The module after the handlers is one that fewer than 2 ^ 32 steps reach since it was opened.
pub web_socket_think-Gone :
    (platform : Platform) (web : Web) (scripts : Scripts) (events : List Event) (m polled : Module)
    (st : scripts.State) (n : ℕ) (p : ℕ) (s : Socket)
    → poll platform events m ≡ some polled
    → Steps platform web empty_module n polled
    → n < 2 ^ 32
    → is_member p polled.gced_sockets ≡ true
    → find p polled.all_sockets ≡ some s
    → ¬ Waits s
    → (kept : Module) × (web_socket_think platform web scripts events m st
        ≡ visit_all platform web scripts kept.socket_table_references kept st)
      × Reached platform web polled kept
      × Gone p kept
      × (present (find p kept.socket_table_references) ≡ false)
unfolding web_socket_think
web_socket_think-Gone platform web scripts events m polled st n p s at_once path few gced at idle =
    let held = Steps-Held platform web empty_module n polled path empty-Sound.held in
    let (kept, done, reached) =
      delete_gced-Reached platform web polled polled (here platform web polled held) in
    let swept =
      subst (Post (Swept polled.gced_sockets polled)) done
        (delete_gced_from platform polled.gced_sockets polled held.once) in
    let down =
      idle-disconnected s (Steps-AllLifelike platform web n polled path p s few at).waiting idle in
    let gone = delete_gced-Gone p s polled kept gced at down swept in
    let kept_held = Reached-Held platform web reached in
    (
      kept,
      rw (at_once, done) refl,
      reached,
      gone,
      elim (Bool-cases (present (find p kept.socket_table_references))) [
        | inl there ↦ absurd (ground (arith, kept_held.referenced p there, gone.absent))
        | inr away ↦ away
      ],
    )
