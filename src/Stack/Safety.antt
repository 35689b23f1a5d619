-- ===== src/Stack/Safety.antt =====
-- src/GLua.cpp: what a script does with the sockets that it still has, as calls of C functions, uses no
-- null pointer.
use gwsockets.Prelude.{
  ℕ, ◌^◌, ◌<◌, ◌≡◌, ◌≢◌, refl, subst, sym, ap, inl, inr, true, codes, Option, none, some, arith,
  Option-cases,
}
use gwsockets.Platform.{Platform}
use gwsockets.Lua.{Web, Module, Reply, empty_module}
use gwsockets.Lua.Think.{Request, calls_set_cookie, calls_set_header, perform}
use gwsockets.Lua.System.{Steps}
use gwsockets.Lua.Lives.{empty-Sound}
use gwsockets.Lua.Soundness.{Sound, Steps-Sound}
use gwsockets.Lua.Staying.{AllBacked}
use gwsockets.Lua.Reached.{here}
use gwsockets.Lua.Requests.{subject, writes_to, usable, streaming, perform-ne-none}
use gwsockets.Stack.Api.{LuaBase, argument}
use gwsockets.Stack.Calls.{Run, stack_of, c_str}
use gwsockets.Stack.Arguments.{Result, text_at}
use gwsockets.Stack.Methods.{
  Method, m_open, m_close_now, m_clear_queue, m_set_cookie, m_set_header, m_set_message_compression,
  m_set_disable_context_takeover, m_is_connected, m_close, m_write, call_method,
}
use gwsockets.Stack.Requests.{pointer, request_of, Agrees}
use gwsockets.Stack.Answers.{two_texts, call_method-Agrees}
use gwsockets.Stack.Declining.{Declines, call_method-Declines, call_method-refuses}

-- What a call asks is asked of the socket in its first argument.
request_of-subject :
    (lua : LuaBase) (meta : ℕ) (method : Method) (r : Run lua) (request : Request)
    → request_of lua meta method r ≡ some request
    → subject request ≡ pointer lua meta r
request_of-subject lua meta m_set_cookie r request h =
    let (key, value, given, given', e) =
      two_texts (text_at lua 2 (stack_of lua r)) (text_at lua 3 (stack_of lua r))
        (λ k t. calls_set_cookie (pointer lua meta r) (c_str k) (c_str t)) request h in
    ap subject (sym e)
request_of-subject lua meta m_set_header r request h =
    let (key, value, given, given', e) =
      two_texts (text_at lua 2 (stack_of lua r)) (text_at lua 3 (stack_of lua r))
        (λ k t. calls_set_header (pointer lua meta r) (c_str k) (c_str t)) request h in
    ap subject (sym e)
request_of-subject lua meta m_open r request h = ground arith
request_of-subject lua meta m_close_now r request h = ground arith
request_of-subject lua meta m_clear_queue r request h = ground arith
request_of-subject lua meta m_is_connected r request h = ground arith
request_of-subject lua meta (m_close spurious) r request h = ground arith
request_of-subject lua meta (m_write spurious) r request h = ground arith
request_of-subject lua meta m_set_message_compression r request h = ground arith
request_of-subject lua meta m_set_disable_context_takeover r request h = ground arith

Agrees-ne-none :
    (lua : LuaBase) (meta : ℕ) (x : Option (Module × Reply)) (y : Option (Result lua ℕ))
    → Agrees lua meta x y
    → x ≢ none
    → y ≢ none
Agrees-ne-none lua meta none y a there = absurd (there refl)
Agrees-ne-none lua meta (some (m, Reply.replies_nothing)) none a there = absurd a
Agrees-ne-none lua meta (some (m, Reply.replies b)) none a there = absurd a
Agrees-ne-none lua meta (some (m, Reply.raises e)) none a there = absurd a
Agrees-ne-none lua meta (some (m, Reply.prints_error e)) none a there = absurd a
Agrees-ne-none lua meta (some (m, Reply.replies_socket p)) none a there = absurd a
Agrees-ne-none lua meta (some x) (some y) a there = λ e. absurd (ground arith)

Declines-ne-none :
    (lua : LuaBase) (m : Module) (y : Option (Result lua ℕ)) → Declines ⊥ lua m y → y ≢ none
Declines-ne-none lua m none d = absurd d
Declines-ne-none lua m (some y) d = λ e. absurd (ground arith)

-- In a module that fewer than 2 ^ 32 steps reach since it was opened: a method called on anything, with
-- whatever arguments, uses no null pointer and no deleted object, provided that the socket in the first
-- argument, if it is one, is still there and not finalized, and that it has a stream if a text is
-- written to it.
pub call_method-ne-none :
    (platform : Platform) (web : Web) (lua : LuaBase) (user_data_metatable : ℕ) (method : Method)
    (r : Run lua) (n : ℕ) (m : Module) (v : lua.Value)
    → Steps platform web empty_module n m
    → n < 2 ^ 32
    → argument 1 (stack_of lua r) ≡ some v
    → usable m (pointer lua user_data_metatable r) ≡ true
    → ((request : Request)
        → request_of lua user_data_metatable method r ≡ some request
        → streaming m (writes_to request) ≡ true)
    → call_method platform lua user_data_metatable method r m ≢ none
call_method-ne-none platform web lua meta method r n m v path few first use_it stream =
    let sound : Sound n m =
      subst (λ k. Sound k m) (omega arith)
        (Steps-Sound platform web 0 empty_module n m empty-Sound path (omega arith)) in
    let backed : AllBacked m = λ p s at. (sound.every p s at).backed in
    elim (Option-cases (lua.get_field_at 1 (codes "__CppUserData") r.state)) [
      | inl e ↦
          rw (call_method-refuses platform lua meta method r m e) (λ e'. absurd (ground arith))
      | inr (s, e) ↦
          let indexed : lua.get_field_at 1 (codes "__CppUserData") r.state ≢ none = λ e'. cc in
          elim (Option-cases (request_of lua meta method r)) [
            | inl unwanted ↦ Declines-ne-none lua m _ (
                call_method-Declines platform lua meta method r m v first indexed
                  (λ p points gone. ground (arith, subst (λ o. usable m o ≡ true) points use_it))
                  unwanted)
            | inr (request, wanted) ↦
                Agrees-ne-none lua meta (perform platform web request m) _
                  (call_method-Agrees platform web lua meta method r m v request first indexed
                    wanted)
                  (perform-ne-none platform web m backed request m (here platform web m sound.held)
                    (rw
                      (
                        request_of-subject lua meta method r request wanted,
                        use_it,
                        stream request wanted,
                      )
                      refl))
          ]
    ]
