-- ===== src/Socket/Machine/Sound.antt =====
-- src/GWSocket.cpp and the subclasses: the code only makes the moves of the transition system.
use gwsockets.Prelude.{
  ℕ, ◌≡◌, refl, ap, sym, subst, ◌∙◌, ◌⊎◌, inl, inr, Bool, some, List, [], ◌∷◌, Bytes, Post,
  Post-bind, Post-map, arith, get_elem?, erase_idx,
}
use gwsockets.Platform.{Platform}
use gwsockets.Socket.State.{Socket, disconnected, Operation, no_reason, GwSocketMessageIn}
use gwsockets.Socket.Close.{clear_queue}
use gwsockets.Socket.Write.{check_writing, write, close}
use gwsockets.Socket.Connect.{open_socket, verify_certificate, X509Error}
use gwsockets.Queue.{clear}
use gwsockets.Socket.Config.{
  assign, set_cookie, set_header, set_per_message_deflate, set_disable_context_takeover,
}
use gwsockets.Socket.Loop.{
  Completion, handle, receive, note_reason, guard_generation, complete, Call, opens, closes,
  closes_now, writes, clears_queue, sets_cookie, sets_header, sets_deflate, sets_takeover, verifies,
  takes_messages, completes, step,
}
use gwsockets.Socket.Invariant.{
  close_cases, open_socket_cases, verify_certificate_cases, complete_cases, guard_generation_cases,
  receive-generation,
}
use gwsockets.Socket.Machine.Defs.{Handles, Moves, Advances, moves, enqueues, drains}
use gwsockets.Socket.Machine.Handling.{
  close_now-Ends, error_connection-Ends, check_writing-Writes, handle-Handles,
}

guard_generation-Moves :
    (platform : Platform) (spurious : Bool) (i : ℕ) (op : Operation) (c : Completion) (s t : Socket)
    → get_elem? s.operations i ≡ some op
    → t ≡ receive op.action c.bytes (record s { operations = erase_idx s.operations i })
    → Post (Moves s) (guard_generation platform spurious op c t)
guard_generation-Moves platform spurious i op c s t at q =
    elim (guard_generation_cases platform spurious op c t) [
      | inl (old, e) ↦ rw e (Moves.ignores i op c.bytes at (λ g. old (g ∙ sym same)) q)
      | inr (now, e) ↦ rw e (
          Post-map (handle platform spurious op.action c (note_reason c.reason t))
            (λ u h.
              Moves.completes i op c at (now ∙ same)
                (subst (λ r. Handles op.action (note_reason c.reason r) u) q h))
            (handle-Handles platform spurious op.action c (note_reason c.reason t)))
    ]
  where
    same : t.generation ≡ s.generation
    same = ap (λ r. r.generation) q ∙ receive-generation op.action c.bytes _

open_socket-Moves : (clear : Bool) (s : Socket) → Moves s (open_socket clear s)
open_socket-Moves clear s = elim (open_socket_cases clear s) [
  | inl (_, e) ↦ Moves.stays e
  | inr (down, e) ↦ Moves.attempts clear down e
]

close-Moves : (spurious : Bool) (s : Socket) → Post (λ r. Moves s r.0) (close spurious s)
close-Moves spurious s = elim (close_cases spurious s) [
  | inl (_, e) ↦ rw e (Moves.stays refl)
  | inr (inl (c, e)) ↦ rw e (Moves.requests c refl)
  | inr (inr (c, e)) ↦ rw e (
      Post-bind _ (λ r. Moves s r.0) (check_writing spurious _) _ (check_writing-Writes spurious _)
        (λ t w. Moves.requests_connected c w))
]

verify_certificate-Moves :
    (p : Bool) (e : X509Error) (s : Socket) → Moves s (verify_certificate p e s).0
verify_certificate-Moves p e s = elim (verify_certificate_cases p e s) [
  | inl q ↦ rw q (Moves.stays refl)
  | inr (m, q) ↦ rw q (Moves.ends (error_connection-Ends m s))
]

module _ (platform : Platform) (key value : Bytes) (s : Socket) where
  set_cookie_cases :
      ((set_cookie platform key value s).0 ≡ s)
      ⊎ ((s.state ≡ disconnected)
          × ((set_cookie platform key value s).0
              ≡ record s { cookies = assign key value s.cookies }))
  unfolding set_cookie
  set_cookie_cases = ground arith

  set_header_cases :
      ((set_header platform key value s).0 ≡ s)
      ⊎ ((s.state ≡ disconnected)
          × ((set_header platform key value s).0
              ≡ record s { headers = assign key value s.headers }))
  unfolding set_header
  set_header_cases = ground arith

  set_cookie-Moves : Moves s (set_cookie platform key value s).0
  set_cookie-Moves = elim set_cookie_cases [
    | inl e ↦ Moves.stays e
    | inr (down, e) ↦ Moves.configures (assign key value s.cookies) s.headers down e
  ]

  set_header-Moves : Moves s (set_header platform key value s).0
  set_header-Moves = elim set_header_cases [
    | inl e ↦ Moves.stays e
    | inr (down, e) ↦ Moves.configures s.cookies (assign key value s.headers) down e
  ]

complete-Moves :
    (platform : Platform) (spurious : Bool) (i : ℕ) (c : Completion) (s : Socket)
    → Post (Moves s) (complete platform spurious i c s)
complete-Moves platform spurious i c s = elim (complete_cases platform spurious i c s) [
  | inl (_, e) ↦ rw e (Moves.stays refl)
  | inr (op, at, e) ↦ rw e (guard_generation-Moves platform spurious i op c s _ at refl)
]

-- What a call hands to the callbacks: `webSocketThink` takes all messages, any other call none.
unfoldable pub delivered : Call → Socket → List GwSocketMessageIn
delivered takes_messages s = (clear s.message_queue).0
delivered _ s = []

-- What a call gives the socket to send.
unfoldable pub written : Call → List (Bytes × Bool)
written (writes spurious m b) = (m, b) ∷ []
written _ = []

-- Every call makes one move of the transition system, whatever its arguments and the outcome of the
-- operation that completes; a step into a null stream has no result.
pub step-Advances :
    (platform : Platform) (call : Call) (s : Socket)
    → Post (Advances (delivered call s) (written call) s) (step platform call s)
unfolding step clear_queue set_per_message_deflate set_disable_context_takeover write clear
    delivered written
step-Advances platform (opens clear) s = moves refl refl (open_socket-Moves clear s)
step-Advances platform (closes spurious) s =
    Post-bind (λ r. Moves s r.0) (Advances [] [] s) (close spurious s) _ (close-Moves spurious s)
      (λ r m. moves refl refl m)
step-Advances platform closes_now s = moves refl refl (Moves.ends (close_now-Ends no_reason s))
step-Advances platform (writes spurious m b) s =
    Post-map (check_writing spurious _) (λ u w. enqueues m b refl refl w)
      (check_writing-Writes spurious _)
step-Advances platform clears_queue s = moves refl refl (Moves.empties refl)
step-Advances platform (sets_cookie key value) s =
    moves refl refl (set_cookie-Moves platform key value s)
step-Advances platform (sets_header key value) s =
    moves refl refl (set_header-Moves platform key value s)
step-Advances platform (sets_deflate value) s =
    moves refl refl (Moves.adjusts value s.disable_context_takeover refl)
step-Advances platform (sets_takeover value) s =
    moves refl refl (Moves.adjusts s.per_message_deflate value refl)
step-Advances platform (verifies p e) s = moves refl refl (verify_certificate-Moves p e s)
step-Advances platform takes_messages s = drains refl refl refl
step-Advances platform (completes spurious i c) s =
    Post-map (complete platform spurious i c s) (λ u m. moves refl refl m)
      (complete-Moves platform spurious i c s)
