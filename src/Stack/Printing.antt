-- ===== src/Stack/Printing.antt =====
-- src/GLua.cpp: how `__tostring`, called as a C function, ends.
-- the finalizer, as C functions.
use gwsockets.Prelude.{
  ℕ, ◌≡◌, refl, inl, inr, Bytes, codes, List, ◌∷◌, ◌++◌, Option, none, some, Option-cases,
}
use gwsockets.Lua.{Module}
use gwsockets.Stack.Api.{LuaBase}
use gwsockets.Stack.Calls.{Run, stack_of, push, c_str}
use gwsockets.Stack.Arguments.{
  Result, pure, get_cpp_object, get_field_at, go_on, expected, top_pointer,
}
use gwsockets.Stack.Creation.{c_socket_to_string}

-- How `__tostring` ends: with a text as its only result, or with an error, and the module as it was.
abbrev pub Printed : (lua : LuaBase) → (ℕ → Bytes) → Module → Option (Result lua ℕ) → Type 0
Printed lua print_pointer m none = ⊥
Printed lua print_pointer m (some (Result.ok n r m')) =
    (n ≡ 1)
    × (m' ≡ m)
    × (p : ℕ) × (below : List lua.Value) × (stack_of lua r
        ≡ lua.string (c_str (codes "GWSocket " ++ print_pointer p)) ∷ below)
Printed lua print_pointer m (some (Result.throws e m')) = m' ≡ m
Printed lua print_pointer m (some (Result.refuses m')) = m' ≡ m

expected-Printed :
    (lua : LuaBase) (print_pointer : ℕ → Bytes) (r : Run lua) (m : Module) (o : Option ℕ)
    → Printed lua print_pointer m (
        go_on (expected lua o r m) (λ p r'.
          pure lua 1 (push lua (lua.string (c_str (codes "GWSocket " ++ print_pointer p))) r')))
expected-Printed lua print_pointer r m none = refl
expected-Printed lua print_pointer r m (some p) =
    (refl, refl, p, stack_of lua r, lua.push_stack _ r.state)

pub c_socket_to_string-Printed :
    (lua : LuaBase) (user_data_metatable : ℕ) (print_pointer : ℕ → Bytes) (r : Run lua) (m : Module)
    → Printed lua print_pointer m (c_socket_to_string lua user_data_metatable print_pointer r m)
unfolding c_socket_to_string get_cpp_object get_field_at
c_socket_to_string-Printed lua meta print_pointer r m =
    elim (Option-cases (lua.get_field_at 1 (codes "__CppUserData") r.state)) [
      | inl e ↦ rw (Printed, e) refl
      | inr (s, e) ↦
          rw (Printed, e)
            (expected-Printed lua print_pointer (record r { state = s }) m
              (top_pointer lua meta (lua.stack s)))
    ]
