-- ===== src/Stack/Api.antt =====
-- src/GmodLUA/GarrysMod/Lua/LuaBase.h: what the module relies on in the interface of Lua. The game
-- implements it, so it is a record of operations and of what is documented of them.
use gwsockets.Prelude.{
  ℕ, ◌+◌, ◌≤◌, ◌≡◌, ◌==◌, Bool, false, Bytes, List, [], ◌∷◌, ◌++◌, none, some, Option, length, drop,
  Post, if◌then◌else◌,
}

-- The C functions that the module gives to Lua.
pub data CFunction : Type 0 where
  c_create_web_socket c_add_verify_path c_web_socket_think : CFunction
  c_socket_open c_socket_write c_socket_close c_socket_close_now : CFunction
  c_socket_set_cookie c_socket_set_header : CFunction
  c_socket_set_message_compression c_socket_set_disable_context_takeover : CFunction
  c_socket_is_connected c_socket_clear_queue c_socket_to_string c_socket_gc_function : CFunction
  c_do_version_check c_check_version c_fetch_successful c_fetch_failed c_print_outdated_version :
      CFunction

-- The value at an index of a stack that has its top first. Indices count from the bottom, from 1 on.
abbrev pub argument {ℓ} : {A : Type ℓ} → ℕ → List A → Option A
argument i [] = none
argument i (v ∷ below) = if i == length below + 1 then some v else argument i below

-- The stack of the running C function has its top first. `field` looks a key up in a table as it is in
-- a state, and `text` is what `GetString` finds. A call has no result if it raises an error, which
-- leaves the C function. `user_type` is the pointer of a userdata of a type, if it is not null. What a table holds under a key is
-- not looked up in its metatable.
pub record LuaBase : Type 1 where
  pub Value : Type 0
  pub State : Type 0
  pub stack : State → List Value
  pub global_table : Value
  pub string : Bytes → Value
  pub number : ℕ → Value
  pub c_function : CFunction → Value
  pub is_function : Value → Bool
  pub is_nil : Value → Bool
  pub boolean : Bool → Value
  pub is_bool : Value → Bool
  pub bool_of : Value → Bool
  pub user_type : Value → ℕ → Option ℕ
  pub text : Value → Option Bytes
  pub field : State → Value → Bytes → Value
  pub push : Value → State → State
  pub pop : ℕ → State → State
  pub get_field : Bytes → State → State
  pub get_field_at : ℕ → Bytes → State → Option State
  pub set_field : Bytes → State → State
  pub create_table : State → State
  pub create_meta_table : Bytes → State → State × ℕ
  pub set_meta_table : State → State
  pub push_meta_table : ℕ → State → State
  pub push_user_type : ℕ → ℕ → State → State
  pub call : ℕ → ℕ → State → Option State
  pub p_call : ℕ → State → State × Bool
  pub reference_create : State → State × ℕ
  pub reference_push : ℕ → State → State
  pub reference_free : ℕ → State → State
  pub push_stack : (v : Value) (s : State) → stack (push v s) ≡ v ∷ stack s
  pub pop_stack : (n : ℕ) (s : State) → stack (pop n s) ≡ drop n (stack s)
  pub get_field_stack :
      (k : Bytes) (s : State) (v : Value) (rest : List Value)
      → stack s ≡ v ∷ rest
      → stack (get_field k s) ≡ field s v k ∷ v ∷ rest
  pub get_field_at_stack :
      (i : ℕ) (k : Bytes) (s : State) (v : Value)
      → argument i (stack s) ≡ some v
      → Post (λ t. stack t ≡ field s v k ∷ stack s) (get_field_at i k s)
  pub set_field_stack :
      (k : Bytes) (s : State) (v t : Value) (rest : List Value)
      → stack s ≡ v ∷ t ∷ rest
      → stack (set_field k s) ≡ t ∷ rest
  pub create_table_stack : (s : State) → (t : Value) × (stack (create_table s) ≡ t ∷ stack s)
  pub create_meta_table_stack :
      (k : Bytes) (s : State) → (t : Value) × (stack (create_meta_table k s).0 ≡ t ∷ stack s)
  pub set_meta_table_stack :
      (s : State) (v t : Value) (rest : List Value)
      → stack s ≡ v ∷ t ∷ rest
      → stack (set_meta_table s) ≡ t ∷ rest
  pub set_field_field :
      (k : Bytes) (s : State) (v t : Value) (rest : List Value)
      → stack s ≡ v ∷ t ∷ rest
      → field (set_field k s) t k ≡ v
  pub set_meta_table_field :
      (s : State) (t : Value) (k : Bytes)
      → is_nil (field s t k) ≡ false
      → field (set_meta_table s) t k ≡ field s t k
  pub push_meta_table_field :
      (type : ℕ) (s : State) (t : Value) (k : Bytes)
      → field (push_meta_table type s) t k ≡ field s t k
  pub push_meta_table_stack :
      (type : ℕ) (s : State) → (v : Value) × (stack (push_meta_table type s) ≡ v ∷ stack s)
  pub push_user_type_stack :
      (p type : ℕ) (s : State)
      → (v : Value) × (stack (push_user_type p type s) ≡ v ∷ stack s) × (user_type v type ≡ some p)
  pub user_type_alone :
      (v : Value) (type p : ℕ)
      → user_type v type ≡ some p
      → (is_bool v ≡ false) × (text v ≡ none) × (is_nil v ≡ false)
  pub call_stack :
      (m n : ℕ) (s : State)
      → m + 1 ≤ length (stack s)
      → Post
          (λ t.
            (results : List Value) × (length results ≡ n)
            × (stack t ≡ results ++ drop (m + 1) (stack s)))
          (call m n s)
  pub p_call_stack :
      (m : ℕ) (s : State)
      → m + 1 ≤ length (stack s)
      → (error : Value) × (stack (p_call m s).0
          ≡ (if (p_call m s).1 then error ∷ drop (m + 1) (stack s) else drop (m + 1) (stack s)))
  pub reference_create_stack : (s : State) → stack (reference_create s).0 ≡ drop 1 (stack s)
  pub reference_push_stack :
      (r : ℕ) (s : State) → (v : Value) × (stack (reference_push r s) ≡ v ∷ stack s)
  pub reference_free_stack : (r : ℕ) (s : State) → stack (reference_free r s) ≡ stack s
