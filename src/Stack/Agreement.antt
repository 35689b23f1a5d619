-- ===== src/Stack/Agreement.antt =====
-- src/GLua.cpp: the C functions of the table of a socket do what the scripts ask of the module.
use gwsockets.Prelude.{
  ℕ, ◌≡◌, ◌≢◌, refl, inl, inr, Bool, true, false, not, Bytes, codes, ◌∷◌, Option, none, some, arith,
  Bool-cases, Option-cases, if◌then◌else◌,
}
use gwsockets.Platform.{Platform}
use gwsockets.Socket.State.{Socket, disconnected, same_state, is_connected}
use gwsockets.Socket.Write.{close, write}
use gwsockets.Lua.{Web, Module, find, Reply, with_socket}
use gwsockets.Lua.Functions.{
  socket_close_now, socket_close, socket_write, socket_open, socket_clear_queue,
  socket_set_message_compression, socket_set_disable_context_takeover, socket_is_connected,
  socket_set_cookie, socket_set_header, refer, or_else,
}
use gwsockets.Lua.Think.{
  calls_open, calls_close, calls_close_now, calls_write, calls_clear_queue, calls_set_cookie,
  calls_set_header, calls_set_message_compression, calls_set_disable_context_takeover,
  calls_is_connected, perform,
}
use gwsockets.Stack.Api.{LuaBase, argument}
use gwsockets.Stack.Calls.{Run, stack_of, c_str}
use gwsockets.Stack.Arguments.{
  M, Result, go_on, pure, throw_error, object, only_disconnected, get_cpp_object, text_at, bool_at,
  check_string, check_bool, optional_bool,
}
use gwsockets.Stack.Methods.{
  m_open, m_close_now, m_clear_queue, m_set_cookie, m_set_header, m_set_message_compression,
  m_set_disable_context_takeover, m_is_connected, m_close, m_write, keep_table, call_method, c_open,
  c_close, c_close_now, c_write, c_clear_queue, c_set_cookie, c_set_header,
  c_set_message_compression, c_set_disable_context_takeover, c_is_connected,
}
use gwsockets.Stack.Requests.{
  argument_push, text_at_push, bool_at_push, pointer, Agrees, AgreesOn, reference_given,
  get_cpp_object_cases,
}

module _ (lua : LuaBase) (user_data_metatable : ℕ) (r : Run lua) (v : lua.Value)
    (first : argument 1 (stack_of lua r) ≡ some v)
    (indexed : lua.get_field_at 1 (codes "__CppUserData") r.state ≢ none) (platform : Platform)
    (web : Web) (m : Module) where
  -- A method that looks its object up first.
  pub with_socket-Agrees :
      (f : ℕ → Socket → Option (Module × Reply)) (k : ℕ → Socket → M lua ℕ)
      → ((p : ℕ) (o : Socket) (s : lua.State) (w : lua.Value)
          → find p m.all_sockets ≡ some o
          → lua.stack s ≡ w ∷ stack_of lua r
          → lua.is_bool w ≡ false
          → lua.text w ≡ none
          → lua.get_field_at 1 (codes "__CppUserData") r.state ≡ some s
          → Agrees lua user_data_metatable (f p o) (k p o (record r { state = s }) m))
      → Agrees lua user_data_metatable (with_socket (pointer lua user_data_metatable r) f m) (
          go_on
            (get_cpp_object lua user_data_metatable r m)
            (λ p r' m'. go_on (object lua p r' m') (k p)))
  unfolding with_socket
  with_socket-Agrees f k agree =
      elim (get_cpp_object_cases lua user_data_metatable r v first indexed m) [
        | inl (null, e) ↦ rw (null, e) (refl, refl)
        | inr (p, s, w, points, e, left, not_bool, not_text, got) ↦
            rw (points, e)
              (elim (Option-cases (find p m.all_sockets)) [
                | inl gone ↦ rw gone tt
                | inr (o, at) ↦ rw at (agree p o s w at left not_bool not_text got)
              ])
      ]

  pub guarded-Agrees :
      (o : Socket) (message : Bytes) (x : Option (Module × Reply)) (k : M lua ℕ) (r' : Run lua)
      → Agrees lua user_data_metatable x (k r' m)
      → Agrees lua user_data_metatable
          (if not (same_state o.state disconnected) then some (m, Reply.raises message) else x)
          (go_on (only_disconnected lua o message r' m) (λ _. k))
  guarded-Agrees o message x k r' agree = elim (Bool-cases (same_state o.state disconnected)) [
    | inl down ↦ rw down agree
    | inr up ↦ rw up (refl, refl)
  ]

  pub close_now-Agrees :
      AgreesOn lua user_data_metatable platform web m r m_close_now
        (calls_close_now (pointer lua user_data_metatable r))
  unfolding call_method c_close_now perform socket_close_now
  close_now-Agrees = with_socket-Agrees _ _ (λ p o s w at left b t got. (refl, refl))

  pub clear_queue-Agrees :
      AgreesOn lua user_data_metatable platform web m r m_clear_queue
        (calls_clear_queue (pointer lua user_data_metatable r))
  unfolding call_method c_clear_queue perform socket_clear_queue
  clear_queue-Agrees = with_socket-Agrees _ _ (λ p o s w at left b t got. (refl, refl))

  pub is_connected-Agrees :
      AgreesOn lua user_data_metatable platform web m r m_is_connected
        (calls_is_connected (pointer lua user_data_metatable r))
  unfolding call_method c_is_connected perform socket_is_connected
  is_connected-Agrees = with_socket-Agrees _ _ (λ p o s w at left b t got.
      (refl, refl, lua.stack s, lua.push_stack (lua.boolean (is_connected o)) s))

  pub close-Agrees :
      (spurious : Bool)
      → AgreesOn lua user_data_metatable platform web m r
          (m_close spurious)
          (calls_close (pointer lua user_data_metatable r) spurious)
  unfolding call_method c_close perform socket_close
  close-Agrees spurious = with_socket-Agrees _ _ (λ p o s w at left b t got.
      elim (Option-cases (close spurious o)) [
        | inl null ↦ rw null tt
        | inr (q, e) ↦ rw e (refl, refl)
      ])

  pub set_message_compression-Agrees :
      (value : Bool)
      → bool_at lua 2 (stack_of lua r) ≡ some value
      → AgreesOn lua user_data_metatable platform web m r m_set_message_compression
          (calls_set_message_compression (pointer lua user_data_metatable r) value)
  unfolding call_method c_set_message_compression perform socket_set_message_compression check_bool
  set_message_compression-Agrees value given = with_socket-Agrees _ _ (λ p o s w at left b t got.
      guarded-Agrees o _ _ _ (record r { state = s })
        (rw (left, bool_at_push lua user_data_metatable 2 w (stack_of lua r) b, given)
          (refl, refl)))

  pub set_disable_context_takeover-Agrees :
      (value : Bool)
      → bool_at lua 2 (stack_of lua r) ≡ some value
      → AgreesOn lua user_data_metatable platform web m r m_set_disable_context_takeover
          (calls_set_disable_context_takeover (pointer lua user_data_metatable r) value)
  unfolding call_method c_set_disable_context_takeover perform socket_set_disable_context_takeover
      check_bool
  set_disable_context_takeover-Agrees value given =
      with_socket-Agrees _ _ (λ p o s w at left b t got.
        guarded-Agrees o _ _ _ (record r { state = s })
          (rw (left, bool_at_push lua user_data_metatable 2 w (stack_of lua r) b, given)
            (refl, refl)))

  pub checked-Agrees :
      (u : Module) (valid : Bool) (message : Bytes) (r' : Run lua)
      → Agrees lua user_data_metatable
          (some (u, if valid then Reply.replies_nothing else Reply.raises message))
          ((if valid then pure lua 0 else throw_error lua message) r' u)
  checked-Agrees u true message r' = (refl, refl)
  checked-Agrees u false message r' = (refl, refl)

  module _ (key value : Bytes) (given : text_at lua 2 (stack_of lua r) ≡ some key)
      (given' : text_at lua 3 (stack_of lua r) ≡ some value) where
    pub set_cookie-Agrees :
        AgreesOn lua user_data_metatable platform web m r m_set_cookie
          (calls_set_cookie (pointer lua user_data_metatable r) (c_str key) (c_str value))
    unfolding call_method c_set_cookie perform socket_set_cookie check_string
    set_cookie-Agrees = with_socket-Agrees _ _ (λ p o s w at left b t got.
        guarded-Agrees o _ _ _ (record r { state = s })
          (rw
            (
              left,
              text_at_push lua user_data_metatable 2 w (stack_of lua r) t,
              given,
              left,
              text_at_push lua user_data_metatable 3 w (stack_of lua r) t,
              given',
            )
            (checked-Agrees _ _ _ (record r { state = s }))))

    pub set_header-Agrees :
        AgreesOn lua user_data_metatable platform web m r m_set_header
          (calls_set_header (pointer lua user_data_metatable r) (c_str key) (c_str value))
    unfolding call_method c_set_header perform socket_set_header check_string
    set_header-Agrees = with_socket-Agrees _ _ (λ p o s w at left b t got.
        guarded-Agrees o _ _ _ (record r { state = s })
          (rw
            (
              left,
              text_at_push lua user_data_metatable 2 w (stack_of lua r) t,
              given,
              left,
              text_at_push lua user_data_metatable 3 w (stack_of lua r) t,
              given',
            )
            (checked-Agrees _ _ _ (record r { state = s }))))

  given_lem :
      (s : lua.State)
      → lua.get_field_at 1 (codes "__CppUserData") r.state ≡ some s
      → reference_given lua user_data_metatable r ≡ (lua.reference_create (lua.push v s)).1
  given_lem s got = rw (reference_given, got, first) refl

  keep_table_lem :
      (p : ℕ) (r' : Run lua)
      → argument 1 (stack_of lua r') ≡ some v
      → (s : lua.State) × (keep_table platform lua user_data_metatable p r' m
          ≡ some (
              Result.ok tt
                (record r' { state = s })
                (refer p (lua.reference_create (lua.push v r'.state)).1 m)))
  unfolding keep_table refer
  keep_table_lem p r' there = elim (Option-cases (find p m.socket_table_references)) [
    | inl new ↦ ((lua.reference_create (lua.push v r'.state)).0, ground arith)
    | inr (reference, old) ↦ (r'.state, ground arith)
  ]

  pub open-Agrees : AgreesOn lua user_data_metatable platform web m r m_open (
      calls_open
        (pointer lua user_data_metatable r)
        (bool_at lua 2 (stack_of lua r))
        (reference_given lua user_data_metatable r))
  unfolding call_method c_open perform socket_open optional_bool
  open-Agrees = with_socket-Agrees _ _ (λ p o s w at left b t got.
      guarded-Agrees o _ _ _ (record r { state = s })
        (let (s', kept) =
            keep_table_lem p (record r { state = s })
              (rw left (argument_push 1 w v (stack_of lua r) first)) in
          rw
            (
              given_lem s got,
              left,
              bool_at_push lua user_data_metatable 2 w (stack_of lua r) b,
              kept,
            )
            (refl, refl)))

  pub write-Agrees :
      (spurious : Bool) (message : Bytes)
      → text_at lua 2 (stack_of lua r) ≡ some message
      → AgreesOn lua user_data_metatable platform web m r (m_write spurious) (
          calls_write
            (pointer lua user_data_metatable r)
            spurious
            message
            (bool_at lua 3 (stack_of lua r)))
  unfolding call_method c_write perform socket_write optional_bool check_string with_socket
  write-Agrees spurious message given =
      rw given (elim (get_cpp_object_cases lua user_data_metatable r v first indexed m) [
        | inl (null, e) ↦ rw (null, e) (refl, refl)
        | inr (p, s, w, points, e, left, not_bool, not_text, got) ↦
            rw (points, e, left, bool_at_push lua user_data_metatable 3 w (stack_of lua r) not_bool)
              (elim (Option-cases (find p m.all_sockets)) [
                | inl gone ↦ rw gone tt
                | inr (o, at) ↦
                    rw at
                      (elim (Option-cases (
                        write spurious message (or_else false (bool_at lua 3 (stack_of lua r)))
                          o)) [ inl null ↦ rw null tt | inr (u, done) ↦ rw done (refl, refl) ])
              ])
      ])
