-- ===== src/Socket/Machine/Total.antt =====
-- src/GWSocket.cpp: the calls that have a result, however often the generation wraps.
use gwsockets.Prelude.{ℕ, ◌≢◌, inl, inr, Bool, none, arith, erase_idx}
use gwsockets.Platform.{Platform}
use gwsockets.Socket.State.{Socket}
use gwsockets.Socket.NullStream.{LateWrite, write-ne-none, handle-ne-none, close-ne-none}
use gwsockets.Socket.Loop.{
  receive, note_reason, complete, Completion, Call, closes, writes, completes, step,
}
use gwsockets.Socket.Invariant.{complete_cases, guard_generation_cases}
use gwsockets.Socket.Machine.Streams.{resolves_host, Backed, all-get_elem?, arrival-Keeps}

pub complete-ne-none :
    (platform : Platform) (spurious : Bool) (i : ℕ) (c : Completion) (s : Socket)
    → Backed s
    → complete platform spurious i c s ≢ none
complete-ne-none platform spurious i c s b = elim (complete_cases platform spurious i c s) [
  | inl (_, e) ↦ rw e (λ h. cc)
  | inr (op, at, e) ↦
      rw e
        (elim (guard_generation_cases platform spurious op c
          (receive op.action c.bytes (record s { operations = erase_idx s.operations i }))) [
            | inl (_, e') ↦ rw e' (λ h. cc)
            | inr (_, e') ↦ rw e' (
                handle-ne-none platform spurious op.action c
                  (note_reason c.reason (
                    receive op.action c.bytes (record s { operations = erase_idx s.operations i })))
                  (λ w.
                    all-get_elem? resolves_host s.operations i op
                      (b ((arrival-Keeps c.reason i op c.bytes).stream w)).0 at))
          ])
]

-- No call and no completion goes through a null stream, but a write after `close` while the host of
-- the first connection is being resolved. The generation may wrap.
pub total_step :
    (platform : Platform) (call : Call) (s : Socket)
    → Backed s
    → ¬ LateWrite s call
    → step platform call s ≢ none
unfolding step
total_step platform (writes spurious m b) s h late =
    write-ne-none spurious m b s (λ w. (h w).1) late
total_step platform (closes spurious) s h late =
    ground (arith, close-ne-none spurious s (λ w. (h w).1))
total_step platform (completes spurious i c) s h late = complete-ne-none platform spurious i c s h
total_step platform _ s h late = ground arith
