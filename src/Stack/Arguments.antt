-- ===== src/Stack/Arguments.antt =====
-- src/GLua.cpp: `getCppObject`, and how a C function reads its arguments. A C function works on the
-- stack and on the module; it has no result if it uses a deleted object or a null stream.
use gwsockets.Prelude.{ℕ, Bool, not, Bytes, codes, Option, none, some, List, [], ◌∷◌, if◌then◌else◌}
use gwsockets.Socket.State.{Socket, disconnected, same_state}
use gwsockets.Lua.{Module, find}
use gwsockets.Lua.Functions.{store}
use gwsockets.Stack.Api.{LuaBase, argument}
use gwsockets.Stack.Calls.{Run, stack_of}

-- A C function goes on, ends with an error of its own (`ThrowError`), or ends with one of the interface,
-- for an argument that is not what a check wants.
pub data Result (lua : LuaBase) (A : Type 0) : Type 0 where
  ok : A → Run lua → Module → Result lua A
  throws : Bytes → Module → Result lua A
  refuses : Module → Result lua A

abbrev pub M : LuaBase → Type 0 → Type 0
M lua A = Run lua → Module → Option (Result lua A)

abbrev pub go_on :
    {lua : LuaBase} {A B : Type 0} → Option (Result lua A) → (A → M lua B) → Option (Result lua B)
go_on none f = none
go_on (some (Result.ok a r m)) f = f a r m
go_on (some (Result.throws message m)) f = some (Result.throws message m)
go_on (some (Result.refuses m)) f = some (Result.refuses m)

infixl 5 ◌>>=◌ ◌>>◌
abbrev pub ◌>>=◌ : {lua : LuaBase} {A B : Type 0} → M lua A → (A → M lua B) → M lua B
◌>>=◌ x f r m = go_on (x r m) f

abbrev pub ◌>>◌ : {lua : LuaBase} {B : Type 0} → M lua (Unit {0}) → M lua B → M lua B
◌>>◌ x y r m = go_on (x r m) (λ _. y)

module _ (lua : LuaBase) where
  abbrev pub pure : {A : Type 0} → A → M lua A
  pure a r m = some (Result.ok a r m)

  abbrev pub throw_error : {A : Type 0} → Bytes → M lua A
  throw_error message r m = some (Result.throws message m)

  abbrev pub lift : {A : Type 0} → Option A → M lua A
  lift o r m = elim o [ none ↦ none | some a ↦ some (Result.ok a r m) ]

  -- Of a value that is or is not there.
  abbrev pub needed : {A : Type 0} → Option A → M lua A
  needed o r m = elim o [ none ↦ some (Result.refuses m) | some a ↦ some (Result.ok a r m) ]

  -- The object behind a pointer, and its new contents.
  abbrev pub object : ℕ → M lua Socket
  object p r m = lift (find p m.all_sockets) r m

  abbrev pub put_object : ℕ → Socket → M lua (Unit {0})
  put_object p s r m = some (Result.ok tt r (store p s m))

  -- `GetString`, and `IsType` with `GetBool`, of the argument at an index.
  abbrev pub text_at : ℕ → List lua.Value → Option Bytes
  text_at i values = elim (argument i values) [ none ↦ none | some v ↦ lua.text v ]

  abbrev pub bool_at : ℕ → List lua.Value → Option Bool
  bool_at i values = elim (argument i values) [
    | none ↦ none
    | some v ↦ if lua.is_bool v then some (lua.bool_of v) else none
  ]

  unfoldable pub check_string : ℕ → M lua Bytes
  check_string i r m = needed (text_at i (stack_of lua r)) r m

  unfoldable pub check_bool : ℕ → M lua Bool
  check_bool i r m = needed (bool_at i (stack_of lua r)) r m

  unfoldable pub optional_bool : ℕ → M lua (Option Bool)
  optional_bool i r m = pure (bool_at i (stack_of lua r)) r m

  unfoldable pub get_field_at : ℕ → Bytes → M lua (Unit {0})
  get_field_at i k r m = elim (lua.get_field_at i k r.state) [
    | none ↦ some (Result.refuses m)
    | some s ↦ some (Result.ok tt (record r { state = s }) m)
  ]

  abbrev pub top_pointer : ℕ → List lua.Value → Option ℕ
  top_pointer user_data_metatable values = elim values [
    | [] ↦ none
    | v ∷ below ↦ lua.user_type v user_data_metatable
  ]

  abbrev pub expected : Option ℕ → M lua ℕ
  expected none = throw_error (codes "[GWSockets] Expected GWSocket table")
  expected (some p) = pure p

  -- The pointer in the table at the first index.
  unfoldable pub get_cpp_object : ℕ → M lua ℕ
  unfolding get_field_at
  get_cpp_object user_data_metatable = do
    _ ← get_field_at 1 (codes "__CppUserData")
    λ r. expected (top_pointer user_data_metatable (stack_of lua r)) r

  -- The first lines of the functions that configure a socket.
  abbrev pub only_disconnected : Socket → Bytes → M lua (Unit {0})
  only_disconnected s message r m =
      if not (same_state s.state disconnected)
      then some (Result.throws message m)
      else some (Result.ok tt r m)
