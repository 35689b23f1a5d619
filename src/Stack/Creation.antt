-- ===== src/Stack/Creation.antt =====
-- src/GLua.cpp: `createWebSocket`, which leaves the table of a new socket on the stack, `__tostring` and
-- the finalizer, as C functions.
use gwsockets.Prelude.{
  ℕ, ◌+◌, ◌≡◌, ◌⊎◌, refl, subst, ◌∙◌, ap, inl, inr, Bool, true, not, Bytes, codes, [], ◌∷◌, ◌++◌,
  Option, none, some, Option-cases, Bool-cases, if◌then◌else◌, arith,
}
use gwsockets.Socket.State.{Socket}
use gwsockets.Lua.{Web, Module, Reply, create_web_socket, create_web_socket_from_url}
use gwsockets.Lua.Functions.{or_else, socket_gc_function}
use gwsockets.Stack.Api.{LuaBase, argument}
use gwsockets.Stack.Calls.{Run, stack_of, push, c_str, throw_error_no_halt}
use gwsockets.Stack.Balance.{Leaves, throw_error_no_halt-Leaves}
use gwsockets.Stack.Arguments.{
  M, Result, ◌>>=◌, pure, text_at, bool_at, check_string, optional_bool, get_cpp_object,
}

module _ (lua : LuaBase) (user_data_metatable : ℕ) where
  -- A table with the pointer and the metatable of the sockets.
  unfoldable pub push_socket : ℕ → ℕ → lua.State → lua.State
  push_socket lua_socket_meta_table p s = lua.set_meta_table (
      lua.push_meta_table lua_socket_meta_table (
        lua.set_field (codes "__CppUserData")
          (lua.push_user_type p user_data_metatable (lua.create_table s))))

  unfoldable pub create_object : Web → ℕ → Bytes → Bool → M lua ℕ
  unfolding push_socket
  create_object web lua_socket_meta_table url verify r m =
      elim (create_web_socket_from_url web url verify) [
        | some s ↦ some (
            Result.ok 1
              (record r {
                state =
                    push_socket lua_socket_meta_table (web.new_address m.created m.all_sockets)
                      r.state;
              })
              (record m {
                all_sockets = m.all_sockets ++ (web.new_address m.created m.all_sockets, s) ∷ [];
                created = m.created + 1;
              }))
        | none ↦
            elim (throw_error_no_halt lua
              (codes
                "Unable to create WebSocket! Invalid URL. Refer to the documentation for the proper URL format.")
              r) [ none ↦ some (Result.refuses m) | some t ↦ some (Result.ok 0 t m) ]
      ]

  unfoldable pub c_create_web_socket : Web → ℕ → M lua ℕ
  unfolding create_object c_str
  c_create_web_socket web lua_socket_meta_table = do
    url ← check_string lua 1
    verify ← optional_bool lua 2
    create_object web lua_socket_meta_table (c_str url) (or_else true verify)

  -- How a stream prints a pointer is an argument.
  unfoldable pub c_socket_to_string : (ℕ → Bytes) → M lua ℕ
  unfolding c_str
  c_socket_to_string print_pointer = do
    p ← get_cpp_object lua user_data_metatable
    λ r. pure lua 1 (push lua (lua.string (c_str (codes "GWSocket " ++ print_pointer p))) r)

  -- The finalizer; it uses a null pointer if its argument is not a userdata of the module.
  unfoldable pub c_socket_gc_function : M lua ℕ
  c_socket_gc_function r m =
      if not m.module_open then some (Result.ok 0 r m) else elim (argument 1 (stack_of lua r)) [
        | none ↦ none
        | some v ↦ elim (lua.user_type v user_data_metatable) [
          | none ↦ none
          | some p ↦ elim (socket_gc_function p m) [
            | none ↦ none
            | some m' ↦ some (Result.ok 0 r m')
          ]
        ]
      ]

  push_socket_lem :
      (lua_socket_meta_table p : ℕ) (s : lua.State)
      → (t : lua.Value) × (lua.stack (push_socket lua_socket_meta_table p s) ≡ t ∷ lua.stack s)
        × (lua.user_type
              (lua.field (push_socket lua_socket_meta_table p s) t (codes "__CppUserData"))
              user_data_metatable
            ≡ some p)
  unfolding push_socket
  push_socket_lem lua_socket_meta_table p s =
      let (t, created) = lua.create_table_stack s in
      let (u, pushed, points) =
        lua.push_user_type_stack p user_data_metatable (lua.create_table s) in
      let both = pushed ∙ ap (λ vs. u ∷ vs) created in
      let s' = lua.push_user_type p user_data_metatable (lua.create_table s) in
      let s'' = lua.set_field (codes "__CppUserData") s' in
      let (mt, there) = lua.push_meta_table_stack lua_socket_meta_table s'' in
      let held : lua.field (lua.push_meta_table lua_socket_meta_table s'') t (codes "__CppUserData")
          ≡ u =
        lua.push_meta_table_field lua_socket_meta_table s'' t (codes "__CppUserData")
        ∙ lua.set_field_field (codes "__CppUserData") s' u t (lua.stack s) both in
      let alone = lua.user_type_alone u user_data_metatable p points in
      (
        t,
        lua.set_meta_table_stack _ mt t (lua.stack s) (
            there
            ∙ ap (λ vs. mt ∷ vs)
                (lua.set_field_stack (codes "__CppUserData") s' u t (lua.stack s) both)),
        ap (λ w. lua.user_type w user_data_metatable)
              (lua.set_meta_table_field _ t (codes "__CppUserData") (rw held alone.2) ∙ held)
            ∙ points,
      )

-- How `createWebSocket` ends: with the table of a socket, in which `getCppObject` finds its pointer, as
-- the only result, and the socket in the module; or without a result and with the module as it was,
-- after an error was printed, or with an error of the function that prints it.
unfoldable pub Answered :
    (lua : LuaBase) (user_data_metatable : ℕ)
    → Run lua
    → Module
    → Module × Reply
    → Option (Result lua ℕ)
    → Type 0
Answered lua meta r m (m', Reply.replies_socket p) (some (Result.ok n r' m'')) =
    (n ≡ 1)
    × (m'' ≡ m')
    × (t : lua.Value) × (stack_of lua r' ≡ t ∷ stack_of lua r)
    × (lua.user_type (lua.field r'.state t (codes "__CppUserData")) meta ≡ some p)
Answered lua meta r m (m', Reply.prints_error e) (some (Result.ok n r' m'')) =
    (n ≡ 0) × (m' ≡ m) × (m'' ≡ m) × (stack_of lua r' ≡ stack_of lua r)
Answered lua meta r m (m', Reply.prints_error e) (some (Result.refuses m'')) = (m' ≡ m) × (m'' ≡ m)
Answered lua meta r m _ _ = ⊥

printed-Answered :
    (lua : LuaBase) (user_data_metatable : ℕ) (r : Run lua) (m : Module) (message : Bytes)
    → Answered lua user_data_metatable r m
        (m, Reply.prints_error message)
        (elim (throw_error_no_halt lua message r) [
          | none ↦ some (Result.refuses m)
          | some t ↦ some (Result.ok 0 t m)
        ])
unfolding Answered
printed-Answered lua meta r m message = elim (Option-cases (throw_error_no_halt lua message r)) [
  | inl e ↦ rw e (refl, refl)
  | inr (t, e) ↦ rw e (
    refl,
    refl,
    refl,
    subst (Leaves lua (stack_of lua r)) e (throw_error_no_halt-Leaves lua message r refl),
  )
]

abbrev bad_url : Bytes
bad_url =
    codes
      "Unable to create WebSocket! Invalid URL. Refer to the documentation for the proper URL format."

-- The socket of a URL at an address, or none.
made-Answered :
    (lua : LuaBase) (user_data_metatable lua_socket_meta_table p : ℕ) (r : Run lua) (m : Module)
    (o : Option Socket)
    → Answered lua user_data_metatable r m
        (elim o [
          | none ↦ (m, Reply.prints_error bad_url)
          | some s ↦ (
            record m { all_sockets = m.all_sockets ++ (p, s) ∷ []; created = m.created + 1 },
            Reply.replies_socket p,
          )
        ])
        (elim o [
          | none ↦ elim (throw_error_no_halt lua bad_url r) [
            | none ↦ some (Result.refuses m)
            | some t ↦ some (Result.ok 0 t m)
          ]
          | some s ↦ some (
              Result.ok 1
                (record r {
                  state = push_socket lua user_data_metatable lua_socket_meta_table p r.state;
                })
                (record m { all_sockets = m.all_sockets ++ (p, s) ∷ []; created = m.created + 1 }))
        ])
unfolding Answered
made-Answered lua meta socket_meta p r m none = printed-Answered lua meta r m bad_url
made-Answered lua meta socket_meta p r m (some s) =
    let (t, left, points) = push_socket_lem lua meta socket_meta p r.state in
    (refl, refl, t, left, points)

-- `createWebSocket` called with a text does what the request does to the module, and leaves a table
-- from which the methods get the new object, or nothing if the URL is bad; only the function of the
-- game that prints the error can make it end with one.
pub c_create_web_socket-Answered :
    (lua : LuaBase) (user_data_metatable lua_socket_meta_table : ℕ) (web : Web) (r : Run lua)
    (m : Module) (text : Bytes)
    → text_at lua 1 (stack_of lua r) ≡ some text
    → Answered lua user_data_metatable r m
        (create_web_socket web (c_str text) (bool_at lua 2 (stack_of lua r)) m)
        (c_create_web_socket lua user_data_metatable web lua_socket_meta_table r m)
unfolding Answered c_create_web_socket check_string optional_bool create_web_socket create_object
c_create_web_socket-Answered lua meta socket_meta web r m text given = rw given (
    made-Answered lua meta socket_meta (web.new_address m.created m.all_sockets) r m
      (create_web_socket_from_url web (c_str text) (or_else true (bool_at lua 2 (stack_of lua r)))))

-- The C function of the finalizer does nothing once the module was closed, uses a null pointer, or does
-- what the finalizer does for the pointer of its argument.
pub c_socket_gc_function_cases :
    (lua : LuaBase) (user_data_metatable : ℕ) (r : Run lua) (m : Module)
    → (c_socket_gc_function lua user_data_metatable r m ≡ some (Result.ok 0 r m))
      ⊎ (c_socket_gc_function lua user_data_metatable r m ≡ none)
      ⊎ ((p : ℕ) × (m' : Module) × (socket_gc_function p m ≡ some m')
          × (c_socket_gc_function lua user_data_metatable r m ≡ some (Result.ok 0 r m')))
unfolding c_socket_gc_function
c_socket_gc_function_cases lua meta r m = elim (Bool-cases m.module_open) [
  | inr shut ↦ inl (ground arith)
  | inl up ↦ elim (Option-cases (argument 1 (stack_of lua r))) [
    | inl nothing ↦ inr (inl (ground arith))
    | inr (v, at) ↦ elim (Option-cases (lua.user_type v meta)) [
      | inl null ↦ inr (inl (ground arith))
      | inr (p, points) ↦ elim (Option-cases (socket_gc_function p m)) [
        | inl gone ↦ inr (inl (ground arith))
        | inr (m', done) ↦ inr (inr (p, m', done, ground arith))
      ]
    ]
  ]
]
