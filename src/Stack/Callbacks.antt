-- ===== src/Stack/Callbacks.antt =====
-- src/GLua.cpp: the callbacks that `webSocketThink` makes for the messages of one socket.
use gwsockets.Prelude.{
  ℕ, suc, ◌-◌, ◌≡◌, ◌⊎◌, inl, inr, refl, ap, true, false, not, Bytes, codes, List, [], ◌∷◌, ◌++◌,
  Option, none, some, arith, Post, Post-bind, Post-map, Post->>=, length, get_elem?, if◌then◌else◌,
}
use gwsockets.Socket.State.{GwSocketMessageIn}
use gwsockets.Lua.Addresses.{Post-branch, Post-test}
use gwsockets.Stack.Api.{LuaBase}
use gwsockets.Stack.Calls.{
  Logged, Run, push, pop, get_field, call, p_call, log_call, is_function_at, throw_error_no_halt,
  pcall, callback_name, hand_over, hand_on, call_callbacks, c_str,
}
use gwsockets.Stack.Balance.{Has, push-Has, pop-Has, global, global-Has, pcall-Leaves}

Post-both {ℓ} :
    {A : Type ℓ} (P Q : A → Type 0) (m : Option A) → Post P m → Post Q m → Post (λ a. P a × Q a) m
Post-both P Q none p q = tt
Post-both P Q (some a) p q = (p, q)

-- The second value from the top has the index of the values below it and one.
at_index {ℓ} :
    {A : Type ℓ} (top below : A) (rest : List A)
    → get_elem? (top ∷ below ∷ rest) (length (top ∷ below ∷ rest) - (suc (length rest)))
      ≡ some below
at_index top below rest = ap (get_elem? (top ∷ below ∷ rest)) (one (length rest))
  where
    one : (n : ℕ) → suc (suc n) - suc n ≡ 1
    one n = omega arith

module _ (lua : LuaBase) where
  -- Nothing more, or one call of `ErrorNoHalt` with a text.
  abbrev pub Extends : List (Logged lua) → List (Logged lua) → Type 0
  Extends log log' =
      (log' ≡ log)
      ⊎ ((s : lua.State) × (text : Bytes) × (log'
            ≡ log
              ++ record {
                function = global lua (codes "ErrorNoHalt") s;
                arguments = lua.string (codes "\n") ∷ lua.string text ∷ [];
              }
                ∷ []))

  throw_error_no_halt-Extends :
      (str : Bytes) (r : Run lua) → Post (λ t. Extends r.log t.log) (throw_error_no_halt lua str r)
  unfolding throw_error_no_halt
  throw_error_no_halt-Extends str r =
      Post-branch _
        (not (
          is_function_at lua 0 (get_field lua (codes "ErrorNoHalt") (push lua lua.global_table r))))
        _ _ (inl refl)
        (Post-bind _ _ (call lua 2 0 _) _
          (Post->>= (λ t. Extends r.log t.log) (lua.call 2 0 _) _
            (λ s e. inr (
              r.state,
              c_str str,
              ap (λ vs. r.log ++ log_call lua 2 vs)
                  (push-Has lua _ _
                    (push-Has lua _ _ (global-Has lua (codes "ErrorNoHalt") r.state refl))),
            )))
          (λ t more. more))

  -- The function below its arguments is called, and an error of it is reported.
  pcall-Extends :
      (r : Run lua) (a b f : lua.Value) {rest : List lua.Value}
      → Has lua (a ∷ b ∷ f ∷ rest) r.state
      → Post
          (λ t. Extends (r.log ++ record { function = f; arguments = a ∷ b ∷ [] } ∷ []) t.log)
          (pcall lua 2 r)
  unfolding pcall
  pcall-Extends r a b f h = rw (← once) (
      Post-branch _ (lua.p_call 2 r.state).1 _ _
        (Post->>= _ (get_elem? (lua.stack (lua.p_call 2 r.state).0) 0) _ (λ message at.
          Post->>= _ (lua.text message) _ (λ err e.
            Post-bind _ _ (throw_error_no_halt lua err (p_call lua 2 r).0) _
              (throw_error_no_halt-Extends err (p_call lua 2 r).0) (λ t more. more))))
        (inl refl))
    where
      once :
          log_call lua 2 (lua.stack r.state) ≡ record { function = f; arguments = a ∷ b ∷ [] } ∷ []
      once = rw h refl

  -- What becomes of one message: the function that the table has then under the name of its type is
  -- called with the table and the text, and an error of it is reported; what is no function is passed
  -- over.
  pub data Handed (table : lua.Value) (message : GwSocketMessageIn) (r t : Run lua) : Type 0 where
    passes :
        lua.is_function (lua.field r.state table (callback_name message.type)) ≡ false
        → t.log ≡ r.log
        → Handed table message r t
    calls :
        lua.is_function (lua.field r.state table (callback_name message.type)) ≡ true
        → Extends
            (r.log
              ++ record {
                function = lua.field r.state table (callback_name message.type);
                arguments = lua.string message.message ∷ table ∷ [];
              }
                ∷ [])
            t.log
        → Handed table message r t

  -- All messages, in their order, each in the state of Lua that the one before left.
  pub data AllHanded (table : lua.Value) : List GwSocketMessageIn → Run lua → Run lua → Type 0 where
    finished : (r : Run lua) → AllHanded table [] r r
    next :
        (message : GwSocketMessageIn) (messages : List GwSocketMessageIn) (r t u : Run lua)
        → Handed table message r t
        → AllHanded table messages t u
        → AllHanded table (message ∷ messages) r u

  -- The callback, the table and the text are on the stack, and the callback is called if it can be.
  abbrev callback_in : GwSocketMessageIn → lua.Value → Run lua → lua.Value
  callback_in message table r = lua.field r.state table (callback_name message.type)

  abbrev ready : GwSocketMessageIn → lua.Value → Run lua → Run lua
  ready message table r =
      push lua (lua.string message.message)
        (push lua table (get_field lua (callback_name message.type) r))

  module _ (message : GwSocketMessageIn) (r : Run lua) (table : lua.Value) (rest : List lua.Value)
      (h : Has lua (table ∷ rest) r.state) where
    ready-Has :
        Has lua
          (lua.string message.message ∷ table ∷ callback_in message table r ∷ table ∷ rest)
          (ready message table r).state
    ready-Has =
        push-Has lua _ _
          (push-Has lua _ _ (lua.get_field_stack (callback_name message.type) r.state table rest h))

    hand_over_lem : hand_over lua (suc (length rest)) message r ≡ (
        if lua.is_function (callback_in message table r)
        then pcall lua 2 (ready message table r)
        else some (pop lua 3 (ready message table r)))
    unfolding hand_over
    hand_over_lem =
        rw
          (
            lua.get_field_stack (callback_name message.type) r.state table rest h,
            at_index (callback_in message table r) table rest,
          )
          (ap
            (λ b.
              if b
              then pcall lua 2 (ready message table r)
              else some (pop lua 3 (ready message table r)))
            (ap (λ vs. elim (get_elem? vs 2) [ none ↦ false | some v ↦ lua.is_function v ])
              ready-Has))

    pub hand_over-Handed :
        Post
          (λ t. Has lua (table ∷ rest) t.state × Handed table message r t)
          (hand_over lua (suc (length rest)) message r)
    hand_over-Handed = rw hand_over_lem (
        Post-test _ (lua.is_function (callback_in message table r)) _ _
          (λ e.
            Post-both _ _ (pcall lua 2 (ready message table r))
              (pcall-Leaves lua 2 (ready message table r) ready-Has (omega arith))
              (Post-map (pcall lua 2 (ready message table r)) (λ t more. Handed.calls e more)
                (pcall-Extends (ready message table r) (lua.string message.message) table
                  (callback_in message table r) ready-Has)))
          (λ e. (pop-Has lua 3 (ready message table r).state ready-Has, Handed.passes e refl)))

  hand_on-AllHanded :
      (messages : List GwSocketMessageIn) (r : Run lua) (table : lua.Value) (rest : List lua.Value)
      → Has lua (table ∷ rest) r.state
      → Post
          (λ t. Has lua (table ∷ rest) t.state × AllHanded table messages r t)
          (hand_on lua (suc (length rest)) messages r)
  unfolding hand_on
  hand_on-AllHanded [] r table rest h = (h, AllHanded.finished r)
  hand_on-AllHanded (message ∷ messages) r table rest h =
      Post-bind _ _ (hand_over lua (suc (length rest)) message r) _
        (hand_over-Handed message r table rest h)
        (λ t (there, one).
          Post-map (hand_on lua (suc (length rest)) messages t)
            (λ u (left, more). (left, AllHanded.next message messages r t u one more))
            (hand_on-AllHanded messages t table rest there))

-- The callbacks for the messages of a socket, unless one of them raises an error outside of a protected
-- call: for each message, in order, the function that the table of the socket has at that moment under
-- the name of the type of the message is called once, with the table and the text, or passed over if it
-- is no function; the stack is left as it was.
pub call_callbacks-AllHanded :
    (lua : LuaBase) (table_reference : ℕ) (messages : List GwSocketMessageIn) (r : Run lua)
    → Post
        (λ t.
          Has lua (lua.stack r.state) t.state
          × (table : lua.Value) × (last : Run lua) × AllHanded lua table messages
              (record r { state = lua.reference_push table_reference r.state })
              last
          × (t.log ≡ last.log))
        (call_callbacks lua table_reference messages r)
unfolding call_callbacks
call_callbacks-AllHanded lua table_reference messages r =
    let (table, pushed) = lua.reference_push_stack table_reference r.state in
    rw pushed (
      Post-bind _ _ (hand_on lua (suc (length (lua.stack r.state))) messages _) _
        (hand_on-AllHanded lua messages
          (record r { state = lua.reference_push table_reference r.state }) table
          (lua.stack r.state) pushed)
        (λ t (left, handed). (pop-Has lua 1 t.state left, table, t, handed, refl)))
