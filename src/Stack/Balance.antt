-- ===== src/Stack/Balance.antt =====
-- src/GLua.cpp and src/UpdateChecker.h: what the calls of Lua leave on its stack.
use gwsockets.Prelude.{
  ℕ, ◌+◌, ◌≤◌, ◌≡◌, refl, ap, ◌∙◌, not, Bytes, codes, List, [], ◌∷◌, ◌++◌, Option, none, some,
  arith, Post, Post-bind, Post->>=, get_elem?, length, drop, if◌then◌else◌,
}
use gwsockets.Lua.Addresses.{Post-branch, Post-test}
use gwsockets.Stack.Api.{LuaBase, CFunction, c_check_version}
use gwsockets.Stack.Calls.{
  Run, stack_of, push, get_field, call, p_call, is_function_at, is_nil_at, lua_print,
  throw_error_no_halt, pcall, run_in_timer_of, print_message, check_version, do_version_check_of,
  add_verify_path,
}

pub no_results {ℓ} :
    {A : Type ℓ} (results rest : List A) → length results ≡ 0 → results ++ rest ≡ rest
no_results [] rest h = refl
no_results (a ∷ results) rest h = absurd (ground arith)

single {ℓ} :
    {A : Type ℓ} {rest whole : List A} (results : List A)
    → length results ≡ 1
    → whole ≡ results ++ rest
    → (a : A) × (whole ≡ a ∷ rest)
single [] one e = absurd (ground arith)
single (a ∷ results) one e = (a, e ∙ ap (λ vs. a ∷ vs) (no_results results _ (ground arith)))

module _ (lua : LuaBase) where
  -- A state whose stack holds just these values.
  abbrev pub Has : List lua.Value → lua.State → Type 0
  Has values s = lua.stack s ≡ values

  -- What a run leaves on the stack, if it raises no error.
  abbrev pub Leaves : List lua.Value → Option (Run lua) → Type 0
  Leaves values result = Post (λ t. Has values t.state) result

  pub push-Has :
      (v : lua.Value) (s : lua.State) {values : List lua.Value}
      → Has values s
      → Has (v ∷ values) (lua.push v s)
  push-Has v s h = lua.push_stack v s ∙ ap (λ vs. v ∷ vs) h

  pub pop-Has :
      (n : ℕ) (s : lua.State) {values : List lua.Value}
      → Has values s
      → Has (drop n values) (lua.pop n s)
  pop-Has n s h = lua.pop_stack n s ∙ ap (drop n) h

  -- A field of the global table, which is pushed first.
  abbrev pub global_state : Bytes → lua.State → lua.State
  global_state k s = lua.get_field k (lua.push lua.global_table s)

  abbrev pub global : Bytes → lua.State → lua.Value
  global k s = lua.field (lua.push lua.global_table s) lua.global_table k

  pub global-Has :
      (k : Bytes) (s : lua.State) {values : List lua.Value}
      → Has values s
      → Has (global k s ∷ lua.global_table ∷ values) (global_state k s)
  global-Has k s h = lua.get_field_stack k _ lua.global_table _ (push-Has lua.global_table s h)

  pub call-Leaves :
      (m : ℕ) (r : Run lua) {values : List lua.Value}
      → Has values r.state
      → m + 1 ≤ length values
      → Leaves (drop (m + 1) values) (call lua m 0 r)
  call-Leaves m r h enough =
      Post-bind _ _ (lua.call m 0 r.state) _ (lua.call_stack m 0 r.state (rw h enough))
        (λ t (results, none_left, after).
          after ∙ no_results results _ none_left ∙ ap (drop (m + 1)) h)

  one_result :
      (m : ℕ) (r : Run lua) {values : List lua.Value}
      → Has values r.state
      → m + 1 ≤ length values
      → Post (λ t. (v : lua.Value) × Has (v ∷ drop (m + 1) values) t.state) (call lua m 1 r)
  one_result m r h enough =
      Post-bind _ _ (lua.call m 1 r.state) _ (lua.call_stack m 1 r.state (rw h enough))
        (λ t (results, one, after).
          single results one (after ∙ ap (λ vs. results ++ drop (m + 1) vs) h))

  pub throw_error_no_halt-Leaves :
      (str : Bytes) (r : Run lua) {values : List lua.Value}
      → Has values r.state
      → Leaves values (throw_error_no_halt lua str r)
  unfolding throw_error_no_halt
  throw_error_no_halt-Leaves str r h =
      let found = global-Has (codes "ErrorNoHalt") r.state h in
      Post-branch _
        (not (
          is_function_at lua 0 (get_field lua (codes "ErrorNoHalt") (push lua lua.global_table r))))
        _ _ (pop-Has 2 _ found)
        (Post-bind _ _ (call lua 2 0 _) _
          (call-Leaves 2 _ (push-Has _ _ (push-Has _ _ found)) (omega arith))
          (λ t after. pop-Has 1 t.state after))

  add_verify_path-Leaves :
      (error : Option Bytes) (r : Run lua) {values : List lua.Value}
      → Has values r.state
      → Leaves values (add_verify_path lua error r)
  unfolding add_verify_path
  add_verify_path-Leaves none r h = h
  add_verify_path-Leaves (some message) r h = throw_error_no_halt-Leaves _ r h

  lua_print-Leaves :
      (str : Bytes) (r : Run lua) {values : List lua.Value}
      → Has values r.state
      → Leaves (lua.global_table ∷ values) (lua_print lua str r)
  unfolding lua_print
  lua_print-Leaves str r h =
      call-Leaves 1 _ (push-Has _ _ (global-Has (codes "print") r.state h)) (omega arith)

  -- The error message goes, whatever is done with it.
  pub pcall-Leaves :
      (m : ℕ) (r : Run lua) {values : List lua.Value}
      → Has values r.state
      → m + 1 ≤ length values
      → Leaves (drop (m + 1) values) (pcall lua m r)
  unfolding pcall
  pcall-Leaves m r h enough =
      let (error, after) = lua.p_call_stack m r.state (rw h enough) in
      Post-test _ (lua.p_call m r.state).1 _ _
        (λ failed.
          let left =
            after
            ∙ ap
                (λ b.
                  if b
                  then error ∷ drop (m + 1) (lua.stack r.state)
                  else drop (m + 1) (lua.stack r.state))
                failed
            ∙ ap (λ vs. error ∷ drop (m + 1) vs) h in
          Post->>= _ (get_elem? (lua.stack (lua.p_call m r.state).0) 0) _ (λ message at.
            Post->>= _ (lua.text message) _ (λ err e.
              Post-bind _ _ (throw_error_no_halt lua err (p_call lua m r).0) _
                (throw_error_no_halt-Leaves err (p_call lua m r).0 left)
                (λ t shown. pop-Has 1 t.state shown))))
        (λ well.
          after
          ∙ ap
              (λ b.
                if b
                then error ∷ drop (m + 1) (lua.stack r.state)
                else drop (m + 1) (lua.stack r.state))
              well
          ∙ ap (drop (m + 1)) h)

  run_in_timer_of-Leaves :
      (delay : ℕ) (func : CFunction) (r : Run lua) {values : List lua.Value}
      → Has values r.state
      → Leaves values (run_in_timer_of lua delay func r)
  unfolding run_in_timer_of
  run_in_timer_of-Leaves delay func r h =
      let timer = global-Has (codes "timer") r.state h in
      let simple = lua.get_field_stack (codes "Simple") _ _ _ timer in
      Post-branch _ (is_nil_at lua 0 (get_field lua (codes "timer") (push lua lua.global_table r)))
        _ _ (pop-Has 2 _ timer)
        (Post-branch _
          (is_nil_at lua 0 (
            get_field lua (codes "Simple")
              (get_field lua (codes "timer") (push lua lua.global_table r))))
          _ _ (pop-Has 3 _ simple)
          (Post-bind _ _ (call lua 2 0 _) _
            (call-Leaves 2 _ (push-Has _ _ (push-Has _ _ simple)) (omega arith))
            (λ t after. pop-Has 2 t.state after)))

  check_version-Leaves :
      (r : Run lua) {values : List lua.Value}
      → Has values r.state
      → Leaves values (check_version lua r)
  unfolding check_version
  check_version-Leaves r h =
      let http = global-Has (codes "http") r.state h in
      let fetch = lua.get_field_stack (codes "Fetch") _ _ _ http in
      Post-bind _ _ (call lua 3 0 _) _
        (call-Leaves 3 _ (push-Has _ _ (push-Has _ _ (push-Has _ _ fetch))) (omega arith))
        (λ t after. pop-Has 2 t.state after)

  print_message-Leaves :
      (str : Bytes) (red green blue : ℕ) (r : Run lua) {values : List lua.Value}
      → Has values r.state
      → Leaves values (print_message lua str red green blue r)
  unfolding print_message
  print_message-Leaves str red green blue r h =
      let color = global-Has (codes "Color") r.state h in
      Post-bind _ _ (call lua 3 1 _) _
        (one_result 3 _ (push-Has _ _ (push-Has _ _ (push-Has _ _ color))) (omega arith))
        (λ coloured (it, there).
          let taken = lua.reference_create_stack coloured.state ∙ ap (drop 1) there in
          let printing = lua.get_field_stack (codes "MsgC") _ _ _ taken in
          let (again, back) = lua.reference_push_stack (lua.reference_create coloured.state).1 _ in
          Post-bind _ _ (call lua 2 0 _) _
            (call-Leaves 2 _ (push-Has _ _ (back ∙ ap (λ vs. again ∷ vs) printing)) (omega arith))
            (λ t after. lua.reference_free_stack _ _ ∙ pop-Has 1 t.state after))

-- What the helpers leave on the stack, unless a function of the game raises an error: a protected call
-- takes the function and its arguments, whatever it comes to; `luaPrint` leaves the global table behind;
-- the others, with missing functions or without, leave the stack as it was.
pub helper_calls-Leaves :
    (lua : LuaBase) (r : Run lua)
    → ((m : ℕ)
        → m + 1 ≤ length (stack_of lua r)
        → Leaves lua (drop (m + 1) (stack_of lua r)) (pcall lua m r))
      × ((str : Bytes) → Leaves lua (lua.global_table ∷ stack_of lua r) (lua_print lua str r))
      × ((str : Bytes) → Leaves lua (stack_of lua r) (throw_error_no_halt lua str r))
      × ((error : Option Bytes) → Leaves lua (stack_of lua r) (add_verify_path lua error r))
      × ((delay : ℕ) (func : CFunction)
          → Leaves lua (stack_of lua r) (run_in_timer_of lua delay func r))
      × ((str : Bytes) (red green blue : ℕ)
          → Leaves lua (stack_of lua r) (print_message lua str red green blue r))
      × Leaves lua (stack_of lua r) (check_version lua r)
      × Leaves lua (stack_of lua r) (do_version_check_of lua r)
unfolding do_version_check_of
helper_calls-Leaves lua r = (
  λ m enough. pcall-Leaves lua m r refl enough,
  λ str. lua_print-Leaves lua str r refl,
  λ str. throw_error_no_halt-Leaves lua str r refl,
  λ error. add_verify_path-Leaves lua error r refl,
  λ delay func. run_in_timer_of-Leaves lua delay func r refl,
  λ str red green blue. print_message-Leaves lua str red green blue r refl,
  check_version-Leaves lua r refl,
  run_in_timer_of-Leaves lua 5 c_check_version r refl,
)
