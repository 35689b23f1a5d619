-- ===== src/Lua/Keeping.antt =====
-- src/GLua.cpp: what a script asks of the module is a sequence of its steps.
use gwsockets.Prelude.{
  ℕ, ◌≡◌, refl, ap, Bool, true, false, not, Bytes, List, [], ◌∷◌, Option, none, some, arith, Post,
  Post-bind, Post->>=, Post-map, Option-cases, all, inl, inr, if◌then◌else◌, ◌>>=◌,
}
use gwsockets.Platform.{Platform}
use gwsockets.Socket.Write.{close, write}
use gwsockets.Socket.State.{Socket, disconnected, same_state}
use gwsockets.Socket.Loop.{
  Call, closes, closes_now, writes, clears_queue, sets_cookie, sets_header, sets_deflate,
  sets_takeover, step,
}
use gwsockets.Socket.Machine.Ended.{is_open}
use gwsockets.Lua.Registry.{
  Web, Module, find, is_member, Reply, with_socket, create_web_socket, create_web_socket_from_url,
}
use gwsockets.Lua.Functions.{
  store, socket_close_now, socket_close, socket_write, socket_open, socket_clear_queue,
  socket_set_message_compression, socket_set_disable_context_takeover, socket_is_connected,
  socket_set_cookie, socket_set_header, or_else,
}
use gwsockets.Lua.Think.{
  Request, creates_web_socket, calls_open, calls_close, calls_close_now, calls_write,
  calls_clear_queue, calls_set_cookie, calls_set_header, calls_set_message_compression,
  calls_set_disable_context_takeover, calls_is_connected, perform, perform_all,
}
use gwsockets.Lua.Addresses.{Post-branch}
use gwsockets.Lua.Holding.{Held}
use gwsockets.Lua.System.{Step, created_at}
use gwsockets.Lua.Reached.{Reached, Reached-Held, extend, reach_call, reach_open, here}

-- A script does not open a socket whose userdata was finalized.
abbrev pub polite : List ℕ → Request → Bool
polite gced (calls_open (some p) clear reference) = not (is_member p gced)
polite gced _ = true

module _ (platform : Platform) (web : Web) (from : Module) where
  -- A method that changes nothing but the object.
  with_socket-Reached :
      (this : Option ℕ) (f : ℕ → Socket → Option (Module × Reply)) (m : Module)
      → Reached platform web from m
      → ((p : ℕ) (s : Socket)
          → find p m.all_sockets ≡ some s
          → Post (λ r. Reached platform web from r.0) (f p s))
      → Post (λ r. Reached platform web from r.0) (with_socket this f m)
  unfolding with_socket
  with_socket-Reached none f m k h = k
  with_socket-Reached (some p) f m k h = Post->>= _ (find p m.all_sockets) _ (λ s e. h p s e)

  -- A method that makes one call of the object, and one that only a disconnected socket has.
  call-Reached :
      (this : Option ℕ) (call : ℕ → Socket → Call) (next : ℕ → Socket → Socket)
      (reply : ℕ → Socket → Reply) (m : Module)
      → Reached platform web from m
      → ((p : ℕ) (s : Socket) → is_open (call p s) ≡ false)
      → ((p : ℕ) (s : Socket) → step platform (call p s) s ≡ some (next p s))
      → Post
          (λ r. Reached platform web from r.0)
          (with_socket this (λ p s. some (store p (next p s) m, reply p s)) m)
  call-Reached this call next reply m k shut does =
      with_socket-Reached this _ m k
        (λ p s at. reach_call platform web k p (call p s) s (next p s) at (shut p s) (does p s))

  guarded-Reached :
      (this : Option ℕ) (call : Call) (next : Socket → Socket) (reply : Socket → Reply)
      (error : Bytes) (m : Module)
      → Reached platform web from m
      → is_open call ≡ false
      → ((s : Socket) → step platform call s ≡ some (next s))
      → Post
          (λ r. Reached platform web from r.0)
          (with_socket this
            (λ p s.
              if not (same_state s.state disconnected)
              then some (m, Reply.raises error)
              else some (store p (next s) m, reply s))
            m)
  guarded-Reached this call next reply error m k shut does =
      with_socket-Reached this _ m k (λ p s at.
        Post-branch _ (not (same_state s.state disconnected)) _ _ k
          (reach_call platform web k p call s (next s) at shut (does s)))

  socket_open-Reached :
      (this : Option ℕ) (clear : Option Bool) (reference : ℕ) (m : Module)
      → Reached platform web from m
      → polite from.gced_sockets (calls_open this clear reference) ≡ true
      → Post (λ r. Reached platform web from r.0) (socket_open this clear reference m)
  unfolding socket_open with_socket
  socket_open-Reached none clear reference m k g = k
  socket_open-Reached (some p) clear reference m k g = Post->>= _ (find p m.all_sockets) _ (λ s at.
      Post-branch _ (not (same_state s.state disconnected)) _ _ k (
        reach_open platform web p reference (or_else true clear) s from m k at
          (ground (arith, k.no_more p))))

  create_web_socket-Reached :
      (url : Bytes) (verify : Option Bool) (m : Module)
      → Reached platform web from m
      → Reached platform web from (create_web_socket web url verify m).0
  unfolding create_web_socket
  create_web_socket-Reached url verify m k =
      elim (Option-cases
        (create_web_socket_from_url web url (elim verify [ none ↦ true | some b ↦ b ]))) [
          | inl e ↦ rw (e, create_web_socket) k
          | inr (s, e) ↦
              rw (e, create_web_socket)
                (extend platform web k (created_at (web.new_address m.created m.all_sockets) s m)
                  (Step.creates url _ s e refl) (λ q g. g))
        ]

module _ (platform : Platform) (web : Web) (from : Module) where
  -- A request of a script is a sequence of steps, unless it opens a socket whose userdata was
  -- finalized.
  pub perform-Reached :
      (request : Request) (m : Module)
      → Reached platform web from m
      → polite from.gced_sockets request ≡ true
      → Post (λ r. Reached platform web from r.0) (perform platform web request m)
  unfolding perform socket_close_now socket_close socket_write socket_clear_queue
      socket_set_message_compression socket_set_disable_context_takeover socket_is_connected
      socket_set_cookie socket_set_header step
  perform-Reached (creates_web_socket url verify) m k g =
      create_web_socket-Reached platform web from url verify m k
  perform-Reached (calls_open this clear reference) m k g =
      socket_open-Reached platform web from this clear reference m k g
  perform-Reached (calls_close this spurious) m k g =
      with_socket-Reached platform web from this _ m k (λ p s at.
        Post->>= _ (close spurious s) _ (λ r e.
          reach_call platform web k p (closes spurious) s r.0 at refl
            (ap (λ o. o >>= λ q. some q.0) e)))
  perform-Reached (calls_close_now this) m k g =
      call-Reached platform web from this (λ p s. closes_now) _ _ m k (λ p s. refl) (λ p s. refl)
  perform-Reached (calls_write this spurious message binary) m k g =
      with_socket-Reached platform web from this _ m k (λ p s at.
        Post->>= _ (write spurious message (or_else false binary) s) _ (λ t e.
          reach_call platform web k p (writes spurious message (or_else false binary)) s t at refl
            e))
  perform-Reached (calls_clear_queue this) m k g =
      call-Reached platform web from this (λ p s. clears_queue) _ _ m k (λ p s. refl) (λ p s. refl)
  perform-Reached (calls_set_cookie this key value) m k g =
      guarded-Reached platform web from this (sets_cookie key value) _ _ _ m k refl (λ s. refl)
  perform-Reached (calls_set_header this key value) m k g =
      guarded-Reached platform web from this (sets_header key value) _ _ _ m k refl (λ s. refl)
  perform-Reached (calls_set_message_compression this value) m k g =
      guarded-Reached platform web from this (sets_deflate value) _ _ _ m k refl (λ s. refl)
  perform-Reached (calls_set_disable_context_takeover this value) m k g =
      guarded-Reached platform web from this (sets_takeover value) _ _ _ m k refl (λ s. refl)
  perform-Reached (calls_is_connected this) m k g =
      with_socket-Reached platform web from this _ m k (λ p s at. k)

  pub perform_all-Reached :
      (requests : List Request) (m : Module)
      → Reached platform web from m
      → all (polite from.gced_sockets) requests ≡ true
      → Post (Reached platform web from) (perform_all platform web requests m)
  unfolding perform_all
  perform_all-Reached [] m k g = k
  perform_all-Reached (request ∷ requests) m k g =
      Post-bind _ _ (perform platform web request m) _ (perform-Reached request m k (ground arith))
        (λ r k'. perform_all-Reached requests r.0 k' (ground arith))

-- Whatever a script asks of the module, but to open a socket whose userdata was finalized, keeps the
-- addresses in the collections those of live objects.
pub perform-Held :
    (platform : Platform) (web : Web) (request : Request) (m : Module)
    → Held m
    → polite m.gced_sockets request ≡ true
    → Post (λ r. Held r.0) (perform platform web request m)
perform-Held platform web request m h civil =
    Post-map (perform platform web request m) (λ r k. Reached-Held platform web k)
      (perform-Reached platform web m request m (here platform web m h) civil)
