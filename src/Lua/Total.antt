-- ===== src/Lua/Total.antt =====
-- src/GLua.cpp: a round of the timer has a result.
use gwsockets.Prelude.{
  ℕ, ◌≡◌, ◌≢◌, refl, Bool, true, false, not, ◌&&◌, List, [], ◌∷◌, Option, none, some, ◌>>=◌, arith,
  all, Option-cases, inl, inr, bind-ne-none, Post, Post->>=, if◌then◌else◌, ==_refl, subst,
  get_elem?, is_empty,
}
use gwsockets.Platform.{Platform}
use gwsockets.Queue.{clear}
use gwsockets.Socket.State.{disconnected, same_state, Operation, GwSocketMessageIn}
use gwsockets.Socket.Loop.{complete, step, takes_messages}
use gwsockets.Socket.Machine.Total.{complete-ne-none}
use gwsockets.Lua.Registry.{Web, Module, find}
use gwsockets.Lua.Think.{
  Event, at_socket, at_orphan, call_handler, poll, delete_gced, Request, Scripts, perform_all,
  call_back, drop_reference, visit, visit_all, web_socket_think,
}
use gwsockets.Lua.Addresses.{present, Post-option}
use gwsockets.Lua.Holding.{Held}
use gwsockets.Lua.Staying.{AllBacked}
use gwsockets.Lua.Keeping.{polite, perform_all-Reached}
use gwsockets.Lua.Reached.{Reached, Reached-Held, reach_call, here}
use gwsockets.Lua.Sweep.{delete_gced-Reached}
use gwsockets.Lua.Rounds.{
  Civil, poll-Reached, call_handler-Reached, call_back-Reached, visit-Reached,
}
use gwsockets.Lua.Requests.{fits, fits-polite, usable, usable-found, perform_all-ne-none}

if-ne-none {ℓ} :
    {A : Type ℓ} (b : Bool) (x y : Option A) → x ≢ none → y ≢ none → (if b then x else y) ≢ none
if-ne-none true x y h k = h
if-ne-none false x y h k = k

all-polite :
    (m : Module) (requests : List Request)
    → all (fits m) requests ≡ true
    → all (polite m.gced_sockets) requests ≡ true
all-polite m [] h = refl
all-polite m (request ∷ requests) h = ground (arith, fits-polite m request, all-polite m requests)

-- The handlers of deleted sockets that are called have been called before.
abbrev pub calls_no_orphan : List Operation → Event → Bool
calls_no_orphan orphans (at_socket p spurious i c) = true
calls_no_orphan orphans (at_orphan j) = not (present (get_elem? orphans j))

module _ (platform : Platform) (web : Web) (from : Module) (backed : AllBacked from) where
  call_handler-ne-none :
      (event : Event) (m : Module)
      → Reached platform web from m
      → calls_no_orphan m.orphans event ≡ true
      → call_handler platform event m ≢ none
  unfolding call_handler
  call_handler-ne-none (at_socket p spurious i c) m k h =
      elim (Option-cases (find p m.all_sockets)) [
        | inl e ↦ rw (e, call_handler) (λ q. absurd (ground arith))
        | inr (s, e) ↦
            rw (e, call_handler)
              (ground (arith, complete-ne-none platform spurious i c s (k.backed backed p s e)))
      ]
  call_handler-ne-none (at_orphan j) m k h = ground arith

  call_handler_orphans :
      (event : Event) (m : Module)
      → Post (λ m'. m'.orphans ≡ m.orphans) (call_handler platform event m)
  unfolding call_handler
  call_handler_orphans (at_socket p spurious i c) m =
      Post-option _ (find p m.all_sockets) _ _ refl
        (λ s at. Post->>= _ (complete platform spurious i c s) _ (λ t e. refl))
  call_handler_orphans (at_orphan j) m = Post-option _ (get_elem? m.orphans j) _ _ refl (λ op e. tt)

  pub poll-ne-none :
      (events : List Event) (m : Module)
      → Reached platform web from m
      → all (calls_no_orphan m.orphans) events ≡ true
      → poll platform events m ≢ none
  unfolding poll
  poll-ne-none [] m k h = λ e. absurd (ground arith)
  poll-ne-none (event ∷ events) m k h =
      bind-ne-none (Reached platform web from) (call_handler platform event m) _
        (call_handler-Reached platform web from event m k)
        (call_handler-ne-none event m k (ground arith))
        (λ m' e k'. poll-ne-none events m' k' (
          rw (subst (Post (λ m''. m''.orphans ≡ m.orphans)) e (call_handler_orphans event m))
            (ground arith)))

-- The callbacks do their work, and what they ask fits the module.
abbrev pub Fitting : Scripts → Module → Type 0
Fitting scripts m =
    (table_index : ℕ) (message : GwSocketMessageIn) (st : scripts.State)
    → (r : scripts.State × List Request) × (scripts.hand_over table_index message st ≡ some r)
      × (all (fits m) r.1 ≡ true)

Fitting-Civil : (scripts : Scripts) (m : Module) → Fitting scripts m → Civil scripts m
Fitting-Civil scripts m fitting table_index message st =
    let (r, done, fit) = fitting table_index message st in rw done (all-polite m r.1 fit)

module _ (platform : Platform) (web : Web) (scripts : Scripts) (from : Module)
    (backed : AllBacked from) (fitting : Fitting scripts from) where
  call_back-ne-none :
      (table_index : ℕ) (messages : List GwSocketMessageIn) (m : Module) (st : scripts.State)
      → Reached platform web from m
      → call_back platform web scripts table_index messages m st ≢ none
  unfolding call_back
  call_back-ne-none table_index [] m st k = λ e. absurd (ground arith)
  call_back-ne-none table_index (message ∷ messages) m st k =
      let (r, done, fit) = fitting table_index message st in
      rw done (
        bind-ne-none (Reached platform web from) (perform_all platform web r.1 m) _
          (perform_all-Reached platform web from r.1 m k (all-polite from r.1 fit))
          (perform_all-ne-none platform web from backed r.1 m k fit)
          (λ m' e k'. call_back-ne-none table_index messages m' r.0 k'))

  drop_reference-ne-none :
      (p reference : ℕ) (messages : List GwSocketMessageIn) (m : Module) (st : scripts.State)
      → usable from (some p) ≡ true
      → Reached platform web from m
      → drop_reference platform web scripts p reference messages m st ≢ none
  unfolding drop_reference
  drop_reference-ne-none p reference messages m st u k =
      let (s, at) = usable-found platform web from m k p u in
      rw at (
        if-ne-none (same_state s.state disconnected && is_empty messages) _ _
          (λ e. absurd (ground arith)) (λ e. absurd (ground arith)))

  visit-ne-none :
      (p reference : ℕ) (m : Module) (st : scripts.State)
      → usable from (some p) ≡ true
      → Reached platform web from m
      → visit platform web scripts p reference m st ≢ none
  unfolding visit step
  visit-ne-none p reference m st u k =
      let (s, at) = usable-found platform web from m k p u in
      let taken =
        reach_call platform web k p takes_messages s
          (record s { message_queue = (clear s.message_queue).1 }) at refl refl in
      rw at (
        if-ne-none (is_empty (clear s.message_queue).0 && not (same_state s.state disconnected)) _ _
          (λ e. absurd (ground arith))
          (bind-ne-none (λ r. Reached platform web from r.0)
            (call_back platform web scripts (scripts.reference_push reference st).1
              (clear s.message_queue).0 _ _)
            _
            (call_back-Reached platform web scripts from (Fitting-Civil scripts from fitting) _ _ _
              _ taken)
            (call_back-ne-none _ _ _ _ taken)
            (λ r e k'. drop_reference-ne-none p reference _ r.0 _ u k')))

  visit_all-ne-none :
      (references : List (ℕ × ℕ)) (m : Module) (st : scripts.State)
      → ((p : ℕ) → present (find p references) ≡ true → usable from (some p) ≡ true)
      → Reached platform web from m
      → visit_all platform web scripts references m st ≢ none
  unfolding visit_all find
  visit_all-ne-none [] m st u k = λ e. absurd (ground arith)
  visit_all-ne-none ((p, reference) ∷ rest) m st u k =
      bind-ne-none (λ r. Reached platform web from r.0)
        (visit platform web scripts p reference m st) _
        (visit-Reached platform web scripts from (Fitting-Civil scripts from fitting) p reference m
          st k)
        (visit-ne-none p reference m st (u p (ground (arith, ==_refl p))) k)
        (λ r e k'. visit_all-ne-none rest r.0 r.1 (λ q i. u q (ground arith)) k')

-- A round of the timer has a result, so it uses no object that was deleted and no null stream, if the
-- addresses in the collections are those of live objects, no finalized one twice or referenced, each of
-- them that is connected or has an operation on a stream has its stream, the handlers that are called are
-- not those of deleted sockets, and the callbacks do not fail, ask for nothing of objects that were
-- finalized or never there and write only to sockets that have a stream once the handlers have been
-- called.
pub web_socket_think-ne-none :
    (platform : Platform) (web : Web) (scripts : Scripts) (events : List Event) (m : Module)
    (st : scripts.State)
    → Held m
    → AllBacked m
    → all (calls_no_orphan m.orphans) events ≡ true
    → ((kept : Module)
        → (poll platform events m >>= λ polled. delete_gced platform polled.gced_sockets polled)
          ≡ some kept
        → Held kept
        → Fitting scripts kept)
    → web_socket_think platform web scripts events m st ≢ none
unfolding web_socket_think
web_socket_think-ne-none platform web scripts events m st h backed quiet fit =
    bind-ne-none (Reached platform web m) (poll platform events m) _
      (poll-Reached platform web m events m (here platform web m h))
      (poll-ne-none platform web m backed events m (here platform web m h) quiet)
      (λ polled e k.
        let (kept, done, k') = delete_gced-Reached platform web m polled k in
        let h' = Reached-Held platform web k' in
        rw done (
          visit_all-ne-none platform web scripts kept (k'.backed backed) (fit kept (rw e done) h')
            kept.socket_table_references kept st
            (λ p r. ground (arith, h'.referenced p, h'.apart p)) (here platform web kept h')))
