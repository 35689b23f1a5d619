-- ===== src/Stack/Requests.antt =====
-- src/GLua.cpp: what a call of a C function asks of the module, by its arguments, and how it ends.
use gwsockets.Prelude.{
  ℕ, ◌<◌, ◌≡◌, ◌≢◌, refl, ◌⊎◌, inl, inr, false, codes, List, [], ◌∷◌, Option, none, some, arith,
  Option-cases, length, subst, Post,
}
use gwsockets.Platform.{Platform}
use gwsockets.Lua.{Web, Module, Reply}
use gwsockets.Lua.Think.{
  Request, calls_open, calls_close, calls_close_now, calls_write, calls_clear_queue,
  calls_set_cookie, calls_set_header, calls_set_message_compression,
  calls_set_disable_context_takeover, calls_is_connected, perform,
}
use gwsockets.Stack.Api.{LuaBase, argument}
use gwsockets.Stack.Calls.{Run, stack_of, c_str}
use gwsockets.Stack.Arguments.{Result, get_field_at, get_cpp_object, text_at, bool_at}
use gwsockets.Stack.Methods.{
  Method, m_open, m_close_now, m_clear_queue, m_set_cookie, m_set_header, m_set_message_compression,
  m_set_disable_context_takeover, m_is_connected, m_close, m_write, call_method,
}

argument_beyond {ℓ} :
    {A : Type ℓ} (i : ℕ) (values : List A) → length values < i → argument i values ≡ none
argument_beyond i [] h = refl
argument_beyond i (v ∷ below) h = ground (arith, argument_beyond i below)

pub argument_push {ℓ} :
    {A : Type ℓ} (i : ℕ) (w v : A) (values : List A)
    → argument i values ≡ some v
    → argument i (w ∷ values) ≡ some v
argument_push i w v values h = ground (arith, argument_beyond i values)

module _ (lua : LuaBase) (user_data_metatable : ℕ) where
  -- A value that is neither a text nor a Boolean does not show in what is read from the stack.
  pub text_at_push :
      (i : ℕ) (w : lua.Value) (values : List lua.Value)
      → lua.text w ≡ none
      → text_at lua i (w ∷ values) ≡ text_at lua i values
  text_at_push i w values h = ground (arith, argument_beyond i values)

  pub bool_at_push :
      (i : ℕ) (w : lua.Value) (values : List lua.Value)
      → lua.is_bool w ≡ false
      → bool_at lua i (w ∷ values) ≡ bool_at lua i values
  bool_at_push i w values h = ground (arith, argument_beyond i values)

  -- The pointer in the table that is the first argument.
  abbrev pub pointer : Run lua → Option ℕ
  pointer r = elim (argument 1 (stack_of lua r)) [
    | none ↦ none
    | some v ↦ lua.user_type (lua.field r.state v (codes "__CppUserData")) user_data_metatable
  ]

  -- The reference that `ReferenceCreate` gives to the table, once its field was pushed.
  abbrev pub reference_given : Run lua → ℕ
  reference_given r = elim (lua.get_field_at 1 (codes "__CppUserData") r.state) [
    | none ↦ 0
    | some s ↦ elim (argument 1 (stack_of lua r)) [
      | none ↦ 0
      | some table ↦ (lua.reference_create (lua.push table s)).1
    ]
  ]

  -- What a call of a method asks, by its arguments, if they are what it wants.
  abbrev pub request_of : Method → Run lua → Option Request
  request_of m_open r =
      some (calls_open (pointer r) (bool_at lua 2 (stack_of lua r)) (reference_given r))
  request_of m_close_now r = some (calls_close_now (pointer r))
  request_of m_clear_queue r = some (calls_clear_queue (pointer r))
  request_of m_is_connected r = some (calls_is_connected (pointer r))
  request_of (m_close spurious) r = some (calls_close (pointer r) spurious)
  request_of (m_write spurious) r = elim (text_at lua 2 (stack_of lua r)) [
    | none ↦ none
    | some t ↦ some (calls_write (pointer r) spurious t (bool_at lua 3 (stack_of lua r)))
  ]
  request_of m_set_cookie r = elim (text_at lua 2 (stack_of lua r)) [
    | none ↦ none
    | some key ↦ elim (text_at lua 3 (stack_of lua r)) [
      | none ↦ none
      | some value ↦ some (calls_set_cookie (pointer r) (c_str key) (c_str value))
    ]
  ]
  request_of m_set_header r = elim (text_at lua 2 (stack_of lua r)) [
    | none ↦ none
    | some key ↦ elim (text_at lua 3 (stack_of lua r)) [
      | none ↦ none
      | some value ↦ some (calls_set_header (pointer r) (c_str key) (c_str value))
    ]
  ]
  request_of m_set_message_compression r = elim (bool_at lua 2 (stack_of lua r)) [
    | none ↦ none
    | some value ↦ some (calls_set_message_compression (pointer r) value)
  ]
  request_of m_set_disable_context_takeover r = elim (bool_at lua 2 (stack_of lua r)) [
    | none ↦ none
    | some value ↦ some (calls_set_disable_context_takeover (pointer r) value)
  ]

  -- A C function ends as the request does: with the same module, the same error, and the results that
  -- it announces on the top of the stack.
  abbrev pub Agrees : Option (Module × Reply) → Option (Result lua ℕ) → Type 0
  Agrees none none = Unit {0}
  Agrees (some (m, Reply.replies_nothing)) (some (Result.ok n r m')) = (n ≡ 0) × (m' ≡ m)
  Agrees (some (m, Reply.replies b)) (some (Result.ok n r m')) =
      (n ≡ 1) × (m' ≡ m) × (below : List lua.Value) × (stack_of lua r ≡ lua.boolean b ∷ below)
  Agrees (some (m, Reply.raises e)) (some (Result.throws e' m')) = (e' ≡ e) × (m' ≡ m)
  Agrees _ _ = ⊥

  module _ (r : Run lua) (v : lua.Value) (first : argument 1 (stack_of lua r) ≡ some v)
      (indexed : lua.get_field_at 1 (codes "__CppUserData") r.state ≢ none) where
    -- `getCppObject` throws, or leaves a userdata on the stack, which is neither a text nor a Boolean.
    pub get_cpp_object_cases :
        (m : Module)
        → ((pointer r ≡ none)
            × (get_cpp_object lua user_data_metatable r m
                ≡ some (Result.throws (codes "[GWSockets] Expected GWSocket table") m)))
          ⊎ ((p : ℕ) × (s : lua.State) × (w : lua.Value) × (pointer r ≡ some p)
              × (get_cpp_object lua user_data_metatable r m
                  ≡ some (Result.ok p (record r { state = s }) m))
              × (lua.stack s ≡ w ∷ stack_of lua r)
              × (lua.is_bool w ≡ false)
              × (lua.text w ≡ none)
              × (lua.get_field_at 1 (codes "__CppUserData") r.state ≡ some s))
    unfolding get_cpp_object get_field_at
    get_cpp_object_cases m =
        elim (Option-cases (lua.get_field_at 1 (codes "__CppUserData") r.state)) [
          | inl e ↦ absurd (indexed e)
          | inr (s, e) ↦
              let left =
                subst
                  (Post (λ t.
                    lua.stack t ≡ lua.field r.state v (codes "__CppUserData") ∷ stack_of lua r))
                  e (lua.get_field_at_stack 1 (codes "__CppUserData") r.state v first) in
              elim (Option-cases
                (lua.user_type (lua.field r.state v (codes "__CppUserData")) user_data_metatable)) [
                  | inl null ↦ inl (ground arith, ground arith)
                  | inr (p, points) ↦ inr (
                    p,
                    s,
                    lua.field r.state v (codes "__CppUserData"),
                    ground arith,
                    ground arith,
                    left,
                    (lua.user_type_alone _ user_data_metatable p points).0,
                    (lua.user_type_alone _ user_data_metatable p points).1,
                    e,
                  )
                ]
        ]

  -- The C function, against the request.
  abbrev pub AgreesOn : Platform → Web → Module → Run lua → Method → Request → Type 0
  AgreesOn platform web m r method request =
      Agrees (perform platform web request m)
        (call_method platform lua user_data_metatable method r m)
