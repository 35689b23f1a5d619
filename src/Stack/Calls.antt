-- ===== src/Stack/Calls.antt =====
-- src/GLua.cpp and src/UpdateChecker.h: the helpers that call functions of the game, and the callbacks
-- of a socket. A call that raises an error has no
-- result, and neither has the use of the null pointer that `GetString` gives for a value without text.
-- The calls are logged.
use gwsockets.Prelude.{
  ℕ, ◌-◌, Bool, false, not, ◌==◌, Bytes, codes, List, [], ◌∷◌, ◌++◌, Option, none, some, ◌>>=◌,
  get_elem?, take, length, if◌then◌else◌,
}
use gwsockets.Socket.State.{
  GwsMessageInType, in_connected, in_message, in_error, in_disconnected, GwSocketMessageIn,
}
use gwsockets.Stack.Api.{LuaBase, CFunction, c_check_version, c_fetch_successful, c_fetch_failed}

-- The names of the callbacks.
unfoldable pub callback_name : GwsMessageInType → Bytes
callback_name in_error = codes "onError"
callback_name in_connected = codes "onConnected"
callback_name in_message = codes "onMessage"
callback_name in_disconnected = codes "onDisconnected"

-- A C string ends at its first byte 0.
unfoldable pub c_str : Bytes → Bytes
c_str [] = []
c_str (c ∷ rest) = let later = c_str rest in if c == 0 then [] else c ∷ later

module _ (lua : LuaBase) where
  -- A call that was made: the function and its arguments, the last first.
  pub record Logged : Type 0 where
    pub function : lua.Value
    pub arguments : List lua.Value

  -- A state, with the calls that were made and the fields that were set: the table, the key, the value.
  pub record Run : Type 0 where
    pub state : lua.State
    pub log : List Logged
    pub assigned : List (lua.Value × Bytes × lua.Value)

  -- The operations of the interface, on a run.
  abbrev pub stack_of : Run → List lua.Value
  stack_of r = lua.stack r.state

  abbrev pub push : lua.Value → Run → Run
  push v r = record r { state = lua.push v r.state }

  abbrev pub pop : ℕ → Run → Run
  pop n r = record r { state = lua.pop n r.state }

  abbrev pub get_field : Bytes → Run → Run
  get_field k r = record r { state = lua.get_field k r.state }

  abbrev pub log_call : ℕ → List lua.Value → List Logged
  log_call m stack = elim (get_elem? stack m) [
    | none ↦ []
    | some f ↦ record { function = f; arguments = take m stack } ∷ []
  ]

  abbrev pub call : ℕ → ℕ → Run → Option Run
  call m n r =
      (lua.call m n r.state >>= λ t.
      some (record r { state = t; log = r.log ++ log_call m (lua.stack r.state) }))

  abbrev pub p_call : ℕ → Run → Run × Bool
  p_call m r = (
    record r { state = (lua.p_call m r.state).0; log = r.log ++ log_call m (lua.stack r.state) },
    (lua.p_call m r.state).1,
  )

  -- Tests of the value at a distance from the top.
  abbrev pub is_function_at : ℕ → Run → Bool
  is_function_at i r = elim (get_elem? (stack_of r) i) [ none ↦ false | some v ↦ lua.is_function v ]

  abbrev pub is_nil_at : ℕ → Run → Bool
  is_nil_at i r = elim (get_elem? (stack_of r) i) [ none ↦ false | some v ↦ lua.is_nil v ]

  -- `Push` of an index from the bottom, which counts from 1.
  abbrev pub push_index : ℕ → Run → Option Run
  push_index i r = (get_elem? (stack_of r) (length (stack_of r) - i) >>= λ v. some (push v r))

  unfoldable pub lua_print : Bytes → Run → Option Run
  unfolding c_str
  lua_print str r =
      call 1 0 (push (lua.string (c_str str)) (get_field (codes "print") (push lua.global_table r)))

  unfoldable pub throw_error_no_halt : Bytes → Run → Option Run
  unfolding c_str
  throw_error_no_halt str r =
      let found = get_field (codes "ErrorNoHalt") (push lua.global_table r) in
      if not (is_function_at 0 found)
      then some (pop 2 found)
      else (call 2 0 (push (lua.string (codes "\n")) (push (lua.string (c_str str)) found)) >>= λ t.
          some (pop 1 t))

  unfoldable pub pcall : ℕ → Run → Option Run
  pcall num_args r =
      let (t, failed) = p_call num_args r in
      if failed
      then (get_elem? (stack_of t) 0 >>= λ error.
          lua.text error >>= λ err. throw_error_no_halt err t >>= λ u. some (pop 1 u))
      else some t

  -- One message of the loop of `webSocketThink`: the callback is called with the table of the socket
  -- and the text.
  unfoldable pub hand_over : ℕ → GwSocketMessageIn → Run → Option Run
  hand_over table_index message r = do
    pushed ← push_index table_index (get_field (callback_name message.type) r)
    let ready = push (lua.string message.message) pushed in
        if is_function_at 2 ready then pcall 2 ready else some (pop 3 ready)

  unfoldable pub hand_on : ℕ → List GwSocketMessageIn → Run → Option Run
  hand_on table_index [] r = some r
  hand_on table_index (message ∷ messages) r =
      (hand_over table_index message r >>= λ t. hand_on table_index messages t)

  unfoldable pub call_callbacks : ℕ → List GwSocketMessageIn → Run → Option Run
  call_callbacks table_reference messages r =
      let pushed = record r { state = lua.reference_push table_reference r.state } in
      (hand_on (length (stack_of pushed)) messages pushed >>= λ t. some (pop 1 t))

  -- `addVerifyPath`, with the description of the error that the SSL context has, if any.
  unfoldable pub add_verify_path : Option Bytes → Run → Option Run
  add_verify_path none r = some r
  add_verify_path (some message) r =
      throw_error_no_halt (codes "Failed setting SSL verify path: " ++ message) r

  -- src/UpdateChecker.h.
  unfoldable pub run_in_timer_of : ℕ → CFunction → Run → Option Run
  run_in_timer_of delay func r =
      let timer = get_field (codes "timer") (push lua.global_table r) in
      let simple = get_field (codes "Simple") timer in
      if is_nil_at 0 timer
      then some (pop 2 timer)
      else if is_nil_at 0 simple
      then some (pop 3 simple)
      else (call 2 0 (push (lua.c_function func) (push (lua.number delay) simple)) >>= λ t.
          some (pop 2 t))

  unfoldable pub print_message : Bytes → ℕ → ℕ → ℕ → Run → Option Run
  unfolding c_str
  print_message str red green blue r = do
    coloured ← call 3 1 (
        push (lua.number blue) (
          push (lua.number green)
            (push (lua.number red) (get_field (codes "Color") (push lua.global_table r)))))
    let (s, ref) = lua.reference_create coloured.state in
        let printing = get_field (codes "MsgC") (record coloured { state = s }) in
        (call 2 0 (
            push (lua.string str)
              (record printing { state = lua.reference_push ref printing.state }))
          >>= λ t. some (record t { state = lua.reference_free ref (lua.pop 1 t.state) }))

  unfoldable pub check_version : Run → Option Run
  check_version r =
      (call 3 0 (
          push (lua.c_function c_fetch_failed) (
            push (lua.c_function c_fetch_successful) (
              push
                (lua.string
                  (codes "https://raw.githubusercontent.com/FredyH/GWSockets/master/version.txt"))
                (get_field (codes "Fetch") (get_field (codes "http") (push lua.global_table r))))))
        >>= λ t. some (pop 2 t))

  unfoldable pub do_version_check_of : Run → Option Run
  unfolding run_in_timer_of
  do_version_check_of r = run_in_timer_of 5 c_check_version r
