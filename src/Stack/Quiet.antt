-- ===== src/Stack/Quiet.antt =====
-- src/GmodLUA/GarrysMod/Lua/LuaBase.h: an interface of Lua that calls nothing, for the tests.
use gwsockets.Prelude.{
  arith, ℕ, zero, suc, ap, ◌+◌, ◌≡◌, refl, Bool, true, false, Bytes, codes, List, [], ◌∷◌, ◌++◌,
  Option, none, some, length, drop, bytes_eq, bytes_eq_refl, if◌then◌else◌, ◌==◌,
}
use gwsockets.Stack.Api.{LuaBase, CFunction}
use gwsockets.Stack.Calls.{Run}

pub data Thing : Type 0 where
  globals : Thing
  text_of : Bytes → Thing
  number_of : ℕ → Thing
  function_of : CFunction → Thing
  member : Bytes → Thing
  truth : Bool → Thing
  pointer_to : ℕ → ℕ → Thing
  table_of : ℕ → Thing

abbrev pub is_member_of : Thing → Bool
is_member_of (member k) = true
is_member_of _ = false

abbrev pub is_truth : Thing → Bool
is_truth (truth b) = true
is_truth _ = false

abbrev pub truth_of : Thing → Bool
truth_of (truth b) = b
truth_of _ = false

abbrev pub pointer_of : Thing → ℕ → Option ℕ
pointer_of (pointer_to p type) type' = if type == type' then some p else none
pointer_of _ type' = none

-- A stack, and the fields that all tables share.
pub record Memory : Type 0 where
  pub values : List Thing
  pub held : Bytes → Thing

abbrev pub store : Bytes → Memory → Memory
store k s = elim s.values [
  | [] ↦ s
  | v ∷ rest ↦ record { values = rest; held = λ k'. if bytes_eq k k' then v else s.held k' }
]

pub store_values :
    (k : Bytes) (s : Memory) (v t : Thing) (rest : List Thing)
    → s.values ≡ v ∷ t ∷ rest
    → (store k s).values ≡ t ∷ rest
store_values k s v t rest h = rw h refl

pub store_held :
    (k : Bytes) (s : Memory) (v t : Thing) (rest : List Thing)
    → s.values ≡ v ∷ t ∷ rest
    → (store k s).held k ≡ v
store_held k s v t rest h = rw h (rw (bytes_eq_refl k) refl)

pub same_pointer : (p type : ℕ) → pointer_of (pointer_to p type) type ≡ some p
same_pointer p type = ground arith

abbrev pub is_absent : Thing → Bool
is_absent v = false

abbrev pub text_in : Thing → Option Bytes
text_in (text_of text) = some text
text_in _ = none

pub pointer_alone :
    (v : Thing) (type p : ℕ)
    → pointer_of v type ≡ some p
    → (is_truth v ≡ false) × (text_in v ≡ none) × (is_absent v ≡ false)
pointer_alone (pointer_to q type) type' p h = (refl, refl, refl)
pointer_alone _ type p h = absurd (ground arith)

abbrev pub results : ℕ → List Thing
results zero = []
results (suc n) = globals ∷ results n

pub results_length : (n : ℕ) → length (results n) ≡ n
results_length zero = refl
results_length (suc n) = ap suc (results_length n)

-- A call has fixed results.
abbrev pub quiet : LuaBase
quiet = record {
  Value = Thing;
  State = Memory;
  stack = λ s. s.values;
  global_table = globals;
  string = text_of;
  number = number_of;
  c_function = function_of;
  is_function = is_member_of;
  is_nil = is_absent;
  boolean = truth;
  is_bool = is_truth;
  bool_of = truth_of;
  user_type = pointer_of;
  text = text_in;
  field = λ s t k. s.held k;
  push = λ v s. record s { values = v ∷ s.values };
  pop = λ n s. record s { values = drop n s.values };
  get_field = λ k s. record s { values = s.held k ∷ s.values };
  get_field_at = λ i k s. some (record s { values = s.held k ∷ s.values });
  set_field = store;
  create_table = λ s. record s { values = table_of (length s.values) ∷ s.values };
  create_meta_table = λ k s. (record s { values = table_of (length s.values) ∷ s.values }, 0);
  set_meta_table = λ s. record s { values = drop 1 s.values };
  push_meta_table = λ type s. record s { values = table_of type ∷ s.values };
  push_user_type = λ p type s. record s { values = pointer_to p type ∷ s.values };
  call = λ m n s. some (record s { values = results n ++ drop (m + 1) s.values });
  p_call = λ m s. (record s { values = drop (m + 1) s.values }, false);
  reference_create = λ s. (record s { values = drop 1 s.values }, 1);
  reference_push = λ r s. record s { values = table_of r ∷ s.values };
  reference_free = λ r s. s;
  push_stack = λ v s. refl;
  pop_stack = λ n s. refl;
  get_field_stack = λ k s v rest h. ap (λ vs. s.held k ∷ vs) h;
  get_field_at_stack = λ i k s v at. refl;
  set_field_stack = store_values;
  set_field_field = store_held;
  create_table_stack = λ s. (table_of (length s.values), refl);
  create_meta_table_stack = λ k s. (table_of (length s.values), refl);
  set_meta_table_stack = λ s v t rest h. ap (drop 1) h;
  set_meta_table_field = λ s t k h. refl;
  push_meta_table_field = λ type s t k. refl;
  push_meta_table_stack = λ type s. (table_of type, refl);
  push_user_type_stack = λ p type s. (pointer_to p type, refl, same_pointer p type);
  user_type_alone = pointer_alone;
  call_stack = λ m n s h. (results n, results_length n, refl);
  p_call_stack = λ m s h. (globals, refl);
  reference_create_stack = λ s. refl;
  reference_push_stack = λ r s. (table_of r, refl);
  reference_free_stack = λ r s. refl;
}

-- The socket of every table is at address 1.
unfoldable pub held_first : Bytes → Thing
unfolding bytes_eq
held_first k = if bytes_eq k (codes "__CppUserData") then pointer_to 1 5 else member k

abbrev pub remembered : List Thing → Memory
remembered values = record { values = values; held = held_first }

abbrev pub start : Run quiet
start = record { state = remembered (table_of 7 ∷ []); log = []; assigned = [] }
