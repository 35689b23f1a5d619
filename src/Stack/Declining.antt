-- ===== src/Stack/Declining.antt =====
-- src/GLua.cpp: what comes of a call of a method with arguments that it does not want.
use gwsockets.Prelude.{
  ℕ, ◌≡◌, ◌≢◌, refl, ◌⊎◌, ◌∷◌, inl, inr, Bool, false, Bytes, codes, Option, none, some, arith,
  Option-cases, Bool-cases,
}
use gwsockets.Platform.{Platform}
use gwsockets.Socket.State.{Socket, disconnected, same_state}
use gwsockets.Lua.{Module, find}
use gwsockets.Lua.Think.{Request}
use gwsockets.Stack.Api.{LuaBase, argument}
use gwsockets.Stack.Calls.{Run, stack_of}
use gwsockets.Stack.Arguments.{
  M, Result, go_on, ◌>>=◌, object, only_disconnected, text_at, bool_at, get_cpp_object,
  check_string, check_bool, get_field_at,
}
use gwsockets.Stack.Methods.{
  Method, m_open, m_close_now, m_clear_queue, m_set_cookie, m_set_header, m_set_message_compression,
  m_set_disable_context_takeover, m_is_connected, m_close, m_write, call_method, c_write,
  c_set_cookie, c_set_header, c_set_message_compression, c_set_disable_context_takeover, c_open,
  c_close, c_close_now, c_clear_queue, c_is_connected,
}
use gwsockets.Stack.Requests.{text_at_push, bool_at_push, pointer, request_of, get_cpp_object_cases}

-- An error, with the module as it was, unless it has no result for a reason.
abbrev pub Declines : Type 0 → (lua : LuaBase) → Module → Option (Result lua ℕ) → Type 0
Declines Reason lua m none = Reason
Declines Reason lua m (some (Result.throws e m')) = m' ≡ m
Declines Reason lua m (some (Result.refuses m')) = m' ≡ m
Declines Reason lua m (some (Result.ok n r m')) = ⊥

missing_text :
    (x y : Option Bytes) (make : Bytes → Bytes → Request)
    → elim x [
      | none ↦ none
      | some key ↦ elim y [ none ↦ none | some value ↦ some (make key value) ]
    ]
      ≡ none
    → (x ≡ none) ⊎ ((key : Bytes) × (x ≡ some key) × (y ≡ none))
missing_text none y make h = inl refl
missing_text (some key) none make h = inr (key, refl, refl)
missing_text (some key) (some value) make h = absurd (ground arith)

module _ (platform : Platform) (lua : LuaBase) (meta : ℕ) (r : Run lua) (m : Module) (v : lua.Value)
    (first : argument 1 (stack_of lua r) ≡ some v)
    (indexed : lua.get_field_at 1 (codes "__CppUserData") r.state ≢ none) (Reason : Type 0)
    (there : (p : ℕ) → pointer lua meta r ≡ some p → find p m.all_sockets ≡ none → Reason) where
  with_object-Declines :
      (k : ℕ → Socket → M lua ℕ)
      → ((p : ℕ) (o : Socket) (s : lua.State) (w : lua.Value)
          → lua.stack s ≡ w ∷ stack_of lua r
          → lua.is_bool w ≡ false
          → lua.text w ≡ none
          → Declines Reason lua m (k p o (record r { state = s }) m))
      → Declines Reason lua m
          (go_on (get_cpp_object lua meta r m) (λ p r' m'. go_on (object lua p r' m') (k p)))
  with_object-Declines k away = elim (get_cpp_object_cases lua meta r v first indexed m) [
    | inl (null, e) ↦ rw e refl
    | inr (p, s, w, points, e, left, not_bool, not_text, got) ↦
        rw e (elim (Option-cases (find p m.all_sockets)) [
          | inl gone ↦ rw gone (there p points gone)
          | inr (o, at) ↦ rw at (away p o s w left not_bool not_text)
        ])
  ]

  guarded-Declines :
      (o : Socket) (message : Bytes) (k : M lua ℕ) (r' : Run lua)
      → Declines Reason lua m (k r' m)
      → Declines Reason lua m (go_on (only_disconnected lua o message r' m) (λ _. k))
  guarded-Declines o message k r' away = elim (Bool-cases (same_state o.state disconnected)) [
    | inl down ↦ rw down away
    | inr up ↦ rw up refl
  ]

  texts-Declines :
      (s : lua.State) (w : lua.Value) (k : Bytes → Bytes → M lua ℕ)
      → lua.stack s ≡ w ∷ stack_of lua r
      → lua.text w ≡ none
      → (text_at lua 2 (stack_of lua r) ≡ none)
        ⊎ ((key : Bytes) × (text_at lua 2 (stack_of lua r) ≡ some key)
            × (text_at lua 3 (stack_of lua r) ≡ none))
      → Declines Reason lua m
          ((check_string lua 2 >>= λ key. check_string lua 3 >>= k key) (record r { state = s }) m)
  unfolding check_string
  texts-Declines s w k left no_text (inl e) =
      rw (left, text_at_push lua meta 2 w (stack_of lua r) no_text, e) refl
  texts-Declines s w k left no_text (inr (key, e, e')) =
      rw
        (
          left,
          text_at_push lua meta 2 w (stack_of lua r) no_text,
          e,
          left,
          text_at_push lua meta 3 w (stack_of lua r) no_text,
          e',
        )
        refl

  bool-Declines :
      (s : lua.State) (w : lua.Value) (k : Bool → M lua ℕ)
      → lua.stack s ≡ w ∷ stack_of lua r
      → lua.is_bool w ≡ false
      → bool_at lua 2 (stack_of lua r) ≡ none
      → Declines Reason lua m ((check_bool lua 2 >>= k) (record r { state = s }) m)
  unfolding check_bool
  bool-Declines s w k left not_bool e =
      rw (left, bool_at_push lua meta 2 w (stack_of lua r) not_bool, e) refl

  pub unwanted-Declines :
      (method : Method)
      → request_of lua meta method r ≡ none
      → Declines Reason lua m (call_method platform lua meta method r m)
  unfolding call_method c_write c_set_cookie c_set_header c_set_message_compression
      c_set_disable_context_takeover check_string
  unwanted-Declines (m_write spurious) h = elim (Option-cases (text_at lua 2 (stack_of lua r))) [
    | inl missing ↦ rw missing refl
    | inr (message, given) ↦ absurd (ground arith)
  ]
  unwanted-Declines m_set_cookie h = with_object-Declines _ (λ p o s w left b t.
      guarded-Declines o _ _ (record r { state = s })
        (texts-Declines s w _ left t (missing_text _ _ _ h)))
  unwanted-Declines m_set_header h = with_object-Declines _ (λ p o s w left b t.
      guarded-Declines o _ _ (record r { state = s })
        (texts-Declines s w _ left t (missing_text _ _ _ h)))
  unwanted-Declines m_set_message_compression h = with_object-Declines _ (λ p o s w left b t.
      guarded-Declines o _ _ (record r { state = s }) (bool-Declines s w _ left b (ground arith)))
  unwanted-Declines m_set_disable_context_takeover h = with_object-Declines _ (λ p o s w left b t.
      guarded-Declines o _ _ (record r { state = s }) (bool-Declines s w _ left b (ground arith)))
  unwanted-Declines m_open h = absurd (ground arith)
  unwanted-Declines m_close_now h = absurd (ground arith)
  unwanted-Declines m_clear_queue h = absurd (ground arith)
  unwanted-Declines m_is_connected h = absurd (ground arith)
  unwanted-Declines (m_close spurious) h = absurd (ground arith)

-- A method called on the table of a socket with an argument that it does not want, or without one that
-- it needs, ends with an error and changes nothing in the module: that of the socket that is not
-- disconnected, where the method asks for that first, or that of the argument.
pub call_method-Declines :
    (platform : Platform) (lua : LuaBase) (user_data_metatable : ℕ) (method : Method) (r : Run lua)
    (m : Module) (v : lua.Value)
    → argument 1 (stack_of lua r) ≡ some v
    → lua.get_field_at 1 (codes "__CppUserData") r.state ≢ none
    → ((p : ℕ) → pointer lua user_data_metatable r ≡ some p → find p m.all_sockets ≢ none)
    → request_of lua user_data_metatable method r ≡ none
    → Declines ⊥ lua m (call_method platform lua user_data_metatable method r m)
call_method-Declines platform lua meta method r m v first indexed there h =
    unwanted-Declines platform lua meta r m v first indexed ⊥ there method h

get_cpp_object-refuses :
    (lua : LuaBase) (meta : ℕ) (r : Run lua) (m : Module)
    → lua.get_field_at 1 (codes "__CppUserData") r.state ≡ none
    → get_cpp_object lua meta r m ≡ some (Result.refuses m)
unfolding get_cpp_object get_field_at
get_cpp_object-refuses lua meta r m e = ground arith

-- What cannot be indexed is refused by all.
pub call_method-refuses :
    (platform : Platform) (lua : LuaBase) (meta : ℕ) (method : Method) (r : Run lua) (m : Module)
    → lua.get_field_at 1 (codes "__CppUserData") r.state ≡ none
    → call_method platform lua meta method r m ≡ some (Result.refuses m)
unfolding call_method c_open c_close c_close_now c_write c_clear_queue c_set_cookie c_set_header
    c_set_message_compression c_set_disable_context_takeover c_is_connected check_string
call_method-refuses platform lua meta (m_write spurious) r m e =
    elim (Option-cases (text_at lua 2 (stack_of lua r))) [
      | inl missing ↦ rw missing refl
      | inr (message, given) ↦ rw (given, get_cpp_object-refuses lua meta r m e) refl
    ]
call_method-refuses platform lua meta _ r m e = rw (get_cpp_object-refuses lua meta r m e) refl
