-- ===== src/Lua/Requests.antt =====
-- src/GLua.cpp: what a script asks of the sockets that it still has is done.
use gwsockets.Prelude.{
  ℕ, Bytes, ◌≡◌, ◌≢◌, refl, Bool, true, false, not, ◌&&◌, List, [], ◌∷◌, Option, none, some, arith,
  all, Option-cases, inl, inr, bind-ne-none, if◌then◌else◌,
}
use gwsockets.Platform.{Platform}
use gwsockets.Socket.State.{Socket}
use gwsockets.Socket.Write.{write}
use gwsockets.Socket.Loop.{writes}
use gwsockets.Socket.NullStream.{LateWrite, close-ne-none, write-ne-none}
use gwsockets.Lua.Registry.{Web, Module, find, is_member, Reply, with_socket}
use gwsockets.Lua.Functions.{
  socket_close_now, socket_close, socket_write, socket_open, socket_clear_queue,
  socket_set_message_compression, socket_set_disable_context_takeover, socket_is_connected,
  socket_set_cookie, socket_set_header, or_else,
}
use gwsockets.Lua.Think.{
  Request, creates_web_socket, calls_open, calls_close, calls_close_now, calls_write,
  calls_clear_queue, calls_set_cookie, calls_set_header, calls_set_message_compression,
  calls_set_disable_context_takeover, calls_is_connected, perform, perform_all,
}
use gwsockets.Lua.Addresses.{present}
use gwsockets.Lua.Staying.{AllBacked}
use gwsockets.Lua.Keeping.{polite, perform-Reached}
use gwsockets.Lua.Reached.{Reached}

-- The pointer in the table that a request is made of, and that of a request to write.
abbrev pub subject : Request → Option ℕ
subject (creates_web_socket url verify) = none
subject (calls_open this clear reference) = this
subject (calls_close this spurious) = this
subject (calls_close_now this) = this
subject (calls_write this spurious message binary) = this
subject (calls_clear_queue this) = this
subject (calls_set_cookie this key value) = this
subject (calls_set_header this key value) = this
subject (calls_set_message_compression this value) = this
subject (calls_set_disable_context_takeover this value) = this
subject (calls_is_connected this) = this

abbrev pub writes_to : Request → Option ℕ
writes_to (calls_write this spurious message binary) = this
writes_to _ = none

-- There is an object at an address, and its userdata was not finalized; there is one with a stream.
abbrev pub usable : Module → Option ℕ → Bool
usable m none = true
usable m (some p) = present (find p m.all_sockets) && not (is_member p m.gced_sockets)

abbrev pub streaming : Module → Option ℕ → Bool
streaming m none = true
streaming m (some p) = elim (find p m.all_sockets) [ none ↦ false | some s ↦ present s.ws ]

-- A request of a socket that its script still has, and no message for one without a stream.
abbrev pub fits : Module → Request → Bool
fits m request = usable m (subject request) && streaming m (writes_to request)

pub fits-polite :
    (m : Module) (request : Request) → fits m request ≡ true → polite m.gced_sockets request ≡ true
fits-polite m (calls_open (some p) clear reference) h = ground arith
fits-polite m (calls_open none clear reference) h = refl
fits-polite m _ h = refl

some_result : (b : Bool) (x y : Module × Reply) → (if b then some x else some y) ≢ none
some_result b x y e = absurd (ground arith)

not_late :
    (spurious : Bool) (message : Bytes) (binary : Bool) (s : Socket)
    → s.ws ≢ none
    → ¬ LateWrite s (writes spurious message binary)
not_late _ _ _ s stream (LateWrite.late_write spurious m b r w) = stream w

write_with_stream :
    (spurious : Bool) (message : Bytes) (binary : Bool) (s : Socket)
    → s.ws ≢ none
    → write spurious message binary s ≢ none
write_with_stream spurious message binary s stream =
    write-ne-none spurious message binary s (λ w. absurd (stream w))
      (not_late spurious message binary s stream)

module _ (platform : Platform) (web : Web) (from m : Module) (k : Reached platform web from m) where
  -- What could be used before can be used still.
  pub usable-found :
      (p : ℕ) → usable from (some p) ≡ true → (t : Socket) × (find p m.all_sockets ≡ some t)
  usable-found p h = elim (Option-cases (find p from.all_sockets)) [
    | inl e ↦ absurd (ground arith)
    | inr (s, e) ↦ let (t, at, w) = k.stays p (ground arith) s e in (t, at)
  ]

  with_socket-ne-none :
      (this : Option ℕ) (f : ℕ → Socket → Option (Module × Reply))
      → usable from this ≡ true
      → ((p : ℕ) (t : Socket) → find p m.all_sockets ≡ some t → f p t ≢ none)
      → with_socket this f m ≢ none
  unfolding with_socket
  with_socket-ne-none none f h g = λ e. absurd (ground arith)
  with_socket-ne-none (some p) f h g = let (t, at) = usable-found p h in rw at (g p t at)

  socket_write-ne-none :
      (this : Option ℕ) (spurious : Bool) (message : Bytes) (binary : Option Bool)
      → usable from this ≡ true
      → streaming from this ≡ true
      → socket_write this spurious message binary m ≢ none
  unfolding socket_write with_socket
  socket_write-ne-none none spurious message binary h g = λ e. absurd (ground arith)
  socket_write-ne-none (some p) spurious message binary h g =
      elim (Option-cases (find p from.all_sockets)) [
        | inl e ↦ absurd (ground arith)
        | inr (s, e) ↦
            let (t, at, w) = k.stays p (ground arith) s e in
            rw at (
              ground (
                arith,
                write_with_stream spurious message (or_else false binary) t
                    (λ q. ground (arith, w q)),
              ))
      ]

module _ (platform : Platform) (web : Web) (from : Module) (backed : AllBacked from) where
  pub perform-ne-none :
      (request : Request) (m : Module)
      → Reached platform web from m
      → fits from request ≡ true
      → perform platform web request m ≢ none
  unfolding perform socket_close_now socket_close socket_open socket_clear_queue
      socket_set_message_compression socket_set_disable_context_takeover socket_is_connected
      socket_set_cookie socket_set_header
  perform-ne-none (creates_web_socket url verify) m k h = λ e. absurd (ground arith)
  perform-ne-none (calls_open this clear reference) m k h =
      with_socket-ne-none platform web from m k this _ (ground arith) (λ p t at. some_result _ _ _)
  perform-ne-none (calls_close this spurious) m k h =
      with_socket-ne-none platform web from m k this _ (ground arith)
        (λ p t at. ground (arith, close-ne-none spurious t (λ w. (k.backed backed p t at w).1)))
  perform-ne-none (calls_write this spurious message binary) m k h =
      socket_write-ne-none platform web from m k this spurious message binary (ground arith)
        (ground arith)
  perform-ne-none (calls_set_cookie this key value) m k h =
      with_socket-ne-none platform web from m k this _ (ground arith) (λ p t at. some_result _ _ _)
  perform-ne-none (calls_set_header this key value) m k h =
      with_socket-ne-none platform web from m k this _ (ground arith) (λ p t at. some_result _ _ _)
  perform-ne-none (calls_set_message_compression this value) m k h =
      with_socket-ne-none platform web from m k this _ (ground arith) (λ p t at. some_result _ _ _)
  perform-ne-none (calls_set_disable_context_takeover this value) m k h =
      with_socket-ne-none platform web from m k this _ (ground arith) (λ p t at. some_result _ _ _)
  perform-ne-none (calls_close_now this) m k h =
      with_socket-ne-none platform web from m k this _ (ground arith)
        (λ p t at e. absurd (ground arith))
  perform-ne-none (calls_clear_queue this) m k h =
      with_socket-ne-none platform web from m k this _ (ground arith)
        (λ p t at e. absurd (ground arith))
  perform-ne-none (calls_is_connected this) m k h =
      with_socket-ne-none platform web from m k this _ (ground arith)
        (λ p t at e. absurd (ground arith))

  pub perform_all-ne-none :
      (requests : List Request) (m : Module)
      → Reached platform web from m
      → all (fits from) requests ≡ true
      → perform_all platform web requests m ≢ none
  unfolding perform_all
  perform_all-ne-none [] m k h = λ e. absurd (ground arith)
  perform_all-ne-none (request ∷ requests) m k h =
      bind-ne-none _ (perform platform web request m) _
        (perform-Reached platform web from request m k (fits-polite from request (ground arith)))
        (perform-ne-none request m k (ground arith))
        (λ r e k'. perform_all-ne-none requests r.0 k' (ground arith))
