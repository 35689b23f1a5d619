-- ===== src/Stack/Answers.antt =====
-- src/GLua.cpp: what comes of a call of a method of a socket with arguments that it wants.
use gwsockets.Prelude.{
  ℕ, ◌≡◌, ◌≢◌, refl, inl, inr, subst, Bytes, codes, Option, none, some, arith, Option-cases,
}
use gwsockets.Platform.{Platform}
use gwsockets.Lua.{Web, Module}
use gwsockets.Lua.Think.{Request, calls_set_cookie, calls_set_header}
use gwsockets.Stack.Api.{LuaBase, argument}
use gwsockets.Stack.Calls.{Run, stack_of, c_str}
use gwsockets.Stack.Arguments.{text_at, bool_at}
use gwsockets.Stack.Methods.{
  Method, m_open, m_close_now, m_clear_queue, m_set_cookie, m_set_header, m_set_message_compression,
  m_set_disable_context_takeover, m_is_connected, m_close, m_write,
}
use gwsockets.Stack.Requests.{pointer, request_of, AgreesOn}
use gwsockets.Stack.Agreement.{
  open-Agrees, close_now-Agrees, clear_queue-Agrees, is_connected-Agrees, close-Agrees,
  write-Agrees, set_cookie-Agrees, set_header-Agrees, set_message_compression-Agrees,
  set_disable_context_takeover-Agrees,
}

-- Two texts are given where a request needs both.
pub two_texts :
    (x y : Option Bytes) (make : Bytes → Bytes → Request) (request : Request)
    → elim x [
      | none ↦ none
      | some key ↦ elim y [ none ↦ none | some value ↦ some (make key value) ]
    ]
      ≡ some request
    → (key value : Bytes) × (x ≡ some key) × (y ≡ some value) × (make key value ≡ request)
two_texts none y make request h = absurd (ground arith)
two_texts (some key) none make request h = absurd (ground arith)
two_texts (some key) (some value) make request h = (key, value, refl, refl, ground arith)

-- A method of the table of a socket, called with arguments that it wants, does what the request of
-- these arguments does to the module: it leaves the same module, ends with the same error, and has as
-- many results on the top of the stack as it announces, the same. What is not given reads as such,
-- although `getCppObject` has pushed a value in its place.
pub call_method-Agrees :
    (platform : Platform) (web : Web) (lua : LuaBase) (user_data_metatable : ℕ) (method : Method)
    (r : Run lua) (m : Module) (v : lua.Value) (request : Request)
    → argument 1 (stack_of lua r) ≡ some v
    → lua.get_field_at 1 (codes "__CppUserData") r.state ≢ none
    → request_of lua user_data_metatable method r ≡ some request
    → AgreesOn lua user_data_metatable platform web m r method request
call_method-Agrees platform web lua meta m_open r m v request first indexed h =
    subst (AgreesOn lua meta platform web m r m_open) (cc)
      (open-Agrees lua meta r v first indexed platform web m)
call_method-Agrees platform web lua meta m_close_now r m v request first indexed h =
    subst (AgreesOn lua meta platform web m r m_close_now) (cc)
      (close_now-Agrees lua meta r v first indexed platform web m)
call_method-Agrees platform web lua meta m_clear_queue r m v request first indexed h =
    subst (AgreesOn lua meta platform web m r m_clear_queue) (cc)
      (clear_queue-Agrees lua meta r v first indexed platform web m)
call_method-Agrees platform web lua meta m_is_connected r m v request first indexed h =
    subst (AgreesOn lua meta platform web m r m_is_connected) (cc)
      (is_connected-Agrees lua meta r v first indexed platform web m)
call_method-Agrees platform web lua meta (m_close spurious) r m v request first indexed h =
    subst (AgreesOn lua meta platform web m r (m_close spurious)) (cc)
      (close-Agrees lua meta r v first indexed platform web m spurious)
call_method-Agrees platform web lua meta (m_write spurious) r m v request first indexed h =
    elim (Option-cases (text_at lua 2 (stack_of lua r))) [
      | inl missing ↦ absurd (ground arith)
      | inr (message, given) ↦
          subst (AgreesOn lua meta platform web m r (m_write spurious)) (ground arith)
            (write-Agrees lua meta r v first indexed platform web m spurious message given)
    ]
call_method-Agrees platform web lua meta m_set_cookie r m v request first indexed h =
    let (key, value, given, given', e) =
      two_texts (text_at lua 2 (stack_of lua r)) (text_at lua 3 (stack_of lua r))
        (λ k t. calls_set_cookie (pointer lua meta r) (c_str k) (c_str t)) request h in
    subst (AgreesOn lua meta platform web m r m_set_cookie) e
      (set_cookie-Agrees lua meta r v first indexed platform web m key value given given')
call_method-Agrees platform web lua meta m_set_header r m v request first indexed h =
    let (key, value, given, given', e) =
      two_texts (text_at lua 2 (stack_of lua r)) (text_at lua 3 (stack_of lua r))
        (λ k t. calls_set_header (pointer lua meta r) (c_str k) (c_str t)) request h in
    subst (AgreesOn lua meta platform web m r m_set_header) e
      (set_header-Agrees lua meta r v first indexed platform web m key value given given')
call_method-Agrees platform web lua meta m_set_message_compression r m v request first indexed h =
    elim (Option-cases (bool_at lua 2 (stack_of lua r))) [
      | inl missing ↦ absurd (ground arith)
      | inr (value, given) ↦
          subst (AgreesOn lua meta platform web m r m_set_message_compression) (ground arith)
            (set_message_compression-Agrees lua meta r v first indexed platform web m value given)
    ]
call_method-Agrees platform web lua meta m_set_disable_context_takeover r m v request first indexed
      h =
    elim (Option-cases (bool_at lua 2 (stack_of lua r))) [
      | inl missing ↦ absurd (ground arith)
      | inr (value, given) ↦
          subst (AgreesOn lua meta platform web m r m_set_disable_context_takeover) (ground arith) (
            set_disable_context_takeover-Agrees lua meta r v first indexed platform web m value
              given)
    ]
