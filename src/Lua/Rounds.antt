-- ===== src/Lua/Rounds.antt =====
-- src/GLua.cpp: a round of the timer keeps the addresses of the module those of live objects.
use gwsockets.Prelude.{
  Option, ℕ, ◌≡◌, some, refl, arith, ◌⊎◌, inl, inr, false, true, not, ◌&&◌, List, [], ◌∷◌, Post,
  Post-bind, Post->>=, Post-map, all, get_elem?, is_empty,
}
use gwsockets.Platform.{Platform}
use gwsockets.Queue.{clear}
use gwsockets.Socket.State.{Socket, disconnected, same_state, GwSocketMessageIn}
use gwsockets.Lua.Registry.{Web, Module, find}
use gwsockets.Lua.Functions.{store, socket_gc_function}
use gwsockets.Lua.System.{Step, Steps, unreferred}
use gwsockets.Socket.Loop.{complete, step, completes, takes_messages}
use gwsockets.Lua.Think.{
  Event, at_socket, at_orphan, call_handler, Scripts, perform_all, call_back, drop_reference, visit,
  visit_all, poll, web_socket_think,
}
use gwsockets.Lua.Addresses.{Post-branch, Post-test, Post-option}
use gwsockets.Lua.Holding.{Held}
use gwsockets.Lua.Reached.{Reached, extend, reach_call, here}
use gwsockets.Lua.Sweep.{delete_gced-Reached}
use gwsockets.Lua.Keeping.{polite, perform_all-Reached}

module _ (platform : Platform) (web : Web) (from : Module) where
  pub call_handler-Reached :
      (event : Event) (m : Module)
      → Reached platform web from m
      → Post (Reached platform web from) (call_handler platform event m)
  unfolding call_handler step
  call_handler-Reached (at_socket p spurious i c) m k =
      Post-option _ (find p m.all_sockets) _ _ k (λ s at.
        Post->>= _ (complete platform spurious i c s) _
          (λ t e. reach_call platform web k p (completes spurious i c) s t at refl e))
  call_handler-Reached (at_orphan j) m k = Post-option _ (get_elem? m.orphans j) _ _ k (λ op e. tt)

  pub poll-Reached :
      (events : List Event) (m : Module)
      → Reached platform web from m
      → Post (Reached platform web from) (poll platform events m)
  unfolding poll
  poll-Reached [] m k = k
  poll-Reached (event ∷ events) m k =
      Post-bind _ _ (call_handler platform event m) _ (call_handler-Reached event m k)
        (λ m' k'. poll-Reached events m' k')

-- What the callbacks do opens no finalized socket.
abbrev pub Civil : Scripts → Module → Type 0
Civil scripts m =
    (table_index : ℕ) (message : GwSocketMessageIn) (st : scripts.State)
    → Post (λ r. all (polite m.gced_sockets) r.1 ≡ true) (scripts.hand_over table_index message st)

module _ (platform : Platform) (web : Web) (scripts : Scripts) (from : Module)
    (civil : Civil scripts from) where
  abbrev pub Goes : Option (Module × scripts.State) → Type 0
  Goes result = Post (λ r. Reached platform web from r.0) result

  pub call_back-Reached :
      (table_index : ℕ) (messages : List GwSocketMessageIn) (m : Module) (st : scripts.State)
      → Reached platform web from m
      → Goes (call_back platform web scripts table_index messages m st)
  unfolding call_back
  call_back-Reached table_index [] m st k = k
  call_back-Reached table_index (message ∷ messages) m st k =
      Post-bind _ _ (scripts.hand_over table_index message st) _ (civil table_index message st)
        (λ r polite_requests.
          Post-bind _ _ (perform_all platform web r.1 m) _
            (perform_all-Reached platform web from r.1 m k polite_requests)
            (λ m' k'. call_back-Reached table_index messages m' r.0 k'))

  pub drop_reference-Reached :
      (p reference : ℕ) (messages : List GwSocketMessageIn) (m : Module) (st : scripts.State)
      → Reached platform web from m
      → Goes (drop_reference platform web scripts p reference messages m st)
  unfolding drop_reference
  drop_reference-Reached p reference messages m st k = Post->>= _ (find p m.all_sockets) _ (λ s at.
      Post-test _ (same_state s.state disconnected && is_empty messages) _ _
        (λ done.
          extend platform web k (unreferred p m) (Step.unrefers p s at (ground arith) refl)
            (λ q g. g))
        (λ more. k))

  pub visit-Reached :
      (p reference : ℕ) (m : Module) (st : scripts.State)
      → Reached platform web from m
      → Goes (visit platform web scripts p reference m st)
  unfolding visit step
  visit-Reached p reference m st k = Post->>= _ (find p m.all_sockets) _ (λ s at.
      Post-branch _ (is_empty (clear s.message_queue).0 && not (same_state s.state disconnected)) _
        _ (taken s at)
        (Post-bind _ _
          (call_back platform web scripts (scripts.reference_push reference st).1
            (clear s.message_queue).0 _ _)
          _ (call_back-Reached _ _ _ _ (taken s at))
          (λ r k'. drop_reference-Reached p reference _ r.0 _ k')))
    where
      taken :
          (s : Socket)
          → find p m.all_sockets ≡ some s
          → Reached platform web from
              (store p (record s { message_queue = (clear s.message_queue).1 }) m)
      taken s at = reach_call platform web k p takes_messages s _ at refl refl

  pub visit_all-Reached :
      (references : List (ℕ × ℕ)) (m : Module) (st : scripts.State)
      → Reached platform web from m
      → Goes (visit_all platform web scripts references m st)
  unfolding visit_all
  visit_all-Reached [] m st k = k
  visit_all-Reached ((p, reference) ∷ rest) m st k =
      Post-bind _ _ (visit platform web scripts p reference m st) _
        (visit-Reached p reference m st k) (λ r k'. visit_all-Reached rest r.0 r.1 k')

  web_socket_think-Reached :
      (events : List Event) (m : Module) (st : scripts.State)
      → Reached platform web from m
      → Goes (web_socket_think platform web scripts events m st)
  unfolding web_socket_think
  web_socket_think-Reached events m st k =
      Post-bind _ _ (poll platform events m) _ (poll-Reached platform web from events m k)
        (λ polled k'.
          let (kept, done, k'') = delete_gced-Reached platform web from polled k' in
          rw done (visit_all-Reached kept.socket_table_references kept st k''))

-- A round of the timer, of a module whose collections hold addresses of live objects, no finalized one
-- twice or referenced, whatever handlers it calls and whatever its callbacks do but to open a socket
-- whose userdata was finalized before, is a sequence of steps of the module: it calls the objects, opens
-- only those that are referenced, drops only references to disconnected objects, and deletes only
-- finalized objects that are disconnected.
pub web_socket_think-Steps :
    (platform : Platform) (web : Web) (scripts : Scripts) (events : List Event) (m : Module)
    (st : scripts.State)
    → Held m
    → Civil scripts m
    → Post
        (λ r. (n : ℕ) × Steps platform web m n r.0)
        (web_socket_think platform web scripts events m st)
web_socket_think-Steps platform web scripts events m st h civil =
    Post-map (web_socket_think platform web scripts events m st)
      (λ r k. (Reached.length k, Reached.path k))
      (web_socket_think-Reached platform web scripts m civil events m st (here platform web m h))

-- While the module is open a finalizer is a step of it, and no step in a module that is closed.
pub socket_gc_function-Step :
    (platform : Platform) (web : Web) (p : ℕ) (m : Module)
    → Post
        (λ m'.
          ((m.module_open ≡ true) × Step platform web m m') ⊎ ((m.module_open ≡ false) × (m' ≡ m)))
        (socket_gc_function p m)
unfolding socket_gc_function
socket_gc_function-Step platform web p m =
    Post-test _ (not m.module_open) _ _ (λ shut. inr (ground arith, refl))
      (λ up.
        Post->>= _ (find p m.all_sockets) _
          (λ s at. inl (ground arith, Step.finalizes p s at refl)))
