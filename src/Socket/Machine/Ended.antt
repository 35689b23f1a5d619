-- ===== src/Socket/Machine/Ended.antt =====
-- src/GWSocket.cpp: a disconnected socket stays so until it is opened.
use gwsockets.Prelude.{
  ℕ, ◌≡◌, ◌≢◌, inl, inr, Bool, true, false, arith, Post, Post-bind, erase_idx, ◌∙◌,
}
use gwsockets.Platform.{Platform}
use gwsockets.Socket.State.{
  no_reason, Socket, disconnected, Action, Operation, read, resolve, close_stream,
}
use gwsockets.Socket.Write.{check_writing, write, close}
use gwsockets.Socket.Config.{
  set_cookie, set_header, set_per_message_deflate, set_disable_context_takeover,
}
use gwsockets.Socket.Close.{clear_queue}
use gwsockets.Socket.Loop.{
  note_reason, receive, Completion, complete, Call, opens, closes, closes_now, writes, clears_queue,
  sets_cookie, sets_header, sets_deflate, sets_takeover, verifies, takes_messages, completes, step,
}
use gwsockets.Socket.Invariant.{
  Inv, Completing, close_cases, check_writing_cases, close_now_cases, verify_certificate_cases,
  error_connection_cases, arrival-keeps, receive-generation, complete_cases, guard_generation_cases,
  receive-keeps, arrival-Completing,
}

abbrev pub is_open : Call → Bool
is_open (opens clear) = true
is_open _ = false

-- A disconnected socket has no handler left that `guardGeneration` would invoke.
no_Completing : (a : Action) (s : Socket) → Completing a s → s.state ≢ disconnected
no_Completing (resolve host service) s fits down = absurd (ground arith)
no_Completing read s fits down = absurd (ground arith)
no_Completing close_stream s fits down = absurd (ground arith)
no_Completing _ s fits down = absurd (ground arith)

abbrev Down : Socket → Type 0
Down s = s.state ≡ disconnected

module _ (s : Socket) (down : Down s) where
  check_writing-Down : (spurious : Bool) → Post Down (check_writing spurious s)
  check_writing-Down spurious = elim (check_writing_cases spurious s) [
    | inl (may, _, e) ↦ absurd (ground arith)
    | inr (_, e) ↦ rw e down
  ]

  close-Down : (spurious : Bool) → Post (λ r. Down r.0) (close spurious s)
  close-Down spurious = elim (close_cases spurious s) [
    | inl (_, e) ↦ rw e down
    | inr (inl (c, e)) ↦ absurd (ground arith)
    | inr (inr (c, e)) ↦ absurd (ground arith)
  ]

  complete-Down :
      (platform : Platform) (spurious : Bool) (i : ℕ) (c : Completion)
      → Inv s
      → Post Down (complete platform spurious i c s)
  complete-Down platform spurious i c inv = elim (complete_cases platform spurious i c s) [
    | inl (_, e) ↦ rw e down
    | inr (op, at, e) ↦ rw e (elim (guard_generation_cases platform spurious op c (taken op)) [
      | inl (_, e') ↦
          rw e' (receive-keeps (λ st q g ops. st ≡ disconnected) op.action c.bytes (rest op) down)
      | inr (now, e') ↦ absurd (
          no_Completing op.action (note_reason c.reason (taken op))
            (arrival-Completing c.bytes c.reason s i op at
              (now ∙ receive-generation op.action c.bytes (rest op)) inv)
            (arrival-keeps (λ st q g ops. st ≡ disconnected) op.action c.bytes c.reason (rest op)
              down))
    ])
  ]
    where
      rest : Operation → Socket
      rest op = record s { operations = erase_idx s.operations i }

      taken : Operation → Socket
      taken op = receive op.action c.bytes (rest op)

-- A disconnected socket stays disconnected, whatever is called and whatever completes, until it is
-- opened.
pub step-disconnected :
    (platform : Platform) (call : Call) (s : Socket)
    → Inv s
    → s.state ≡ disconnected
    → is_open call ≡ false
    → Post (λ t. t.state ≡ disconnected) (step platform call s)
unfolding step clear_queue set_per_message_deflate set_disable_context_takeover write set_cookie
    set_header
step-disconnected platform (opens clear) s inv down o = absurd (ground arith)
step-disconnected platform (closes spurious) s inv down o =
    Post-bind (λ r. Down r.0) Down (close spurious s) _ (close-Down s down spurious) (λ r d. d)
step-disconnected platform closes_now s inv down o = elim (close_now_cases no_reason s) [
  | inl (_, e) ↦ rw e down
  | inr (busy, e) ↦ absurd (busy (inl down))
]
step-disconnected platform (writes spurious m b) s inv down o = check_writing-Down _ down spurious
step-disconnected platform clears_queue s inv down o = down
step-disconnected platform (sets_cookie key value) s inv down o = ground arith
step-disconnected platform (sets_header key value) s inv down o = ground arith
step-disconnected platform (sets_deflate value) s inv down o = down
step-disconnected platform (sets_takeover value) s inv down o = down
step-disconnected platform (verifies p x) s inv down o = elim (verify_certificate_cases p x s) [
  | inl e ↦ rw e down
  | inr (m, e) ↦ rw e (elim (error_connection_cases m s) [
    | inl (_, e') ↦ rw e' down
    | inr (busy, e') ↦ absurd (busy (inl down))
  ])
]
step-disconnected platform takes_messages s inv down o = down
step-disconnected platform (completes spurious i c) s inv down o =
    complete-Down s down platform spurious i c inv
