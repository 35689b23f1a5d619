-- ===== src/Socket/Machine/Order.antt =====
-- src/GWSocket.cpp: what a history of a socket hands to the stream, against what it was given.
use mathlib.Core.List.Sublist
use mathlib.Core.List.{Sublist, append_assoc, append-nil, sublist-append_left}
use gwsockets.Prelude.{
  sym, subst, inl, inr, Bool, List, [], ◌∷◌, ◌++◌, Bytes, ℕ, Post, Post-bind, Post-map,
}
use gwsockets.Platform.{Platform}
use gwsockets.Socket.State.{Socket, SocketKind, new_socket}
use gwsockets.Socket.Loop.{Call, step, run}
use gwsockets.Socket.Machine.Sound.{written}
use gwsockets.Socket.Machine.Delivery.{outgoing, queued, Delivers, step_delivery}

-- All that a history gives the socket to send.
unfoldable pub all_written : List Call → List (Bytes × Bool)
all_written [] = []
all_written (call ∷ calls) = written call ++ all_written calls

Delivers-Sublist :
    (new given : List (Bytes × Bool)) (s u : Socket)
    → Sublist (outgoing s) given
    → Delivers new s u
    → Sublist (outgoing u) (given ++ new)
unfolding queued
Delivers-Sublist new given s u sub (inl e) =
    subst (λ l. Sublist l (given ++ new)) (sym e) (Sublist.append sub (Sublist.refl new))
Delivers-Sublist new given s u sub (inr (empty, same)) =
    subst (λ l. Sublist l (given ++ new)) (rw (empty, same) (sym (append-nil s.sent)))
      (Sublist.trans (sublist-append_left s.sent (queued s.write_queue))
        (Sublist.trans sub (sublist-append_left given new)))

pub run_from_order :
    (platform : Platform) (calls : List Call) (given : List (Bytes × Bool)) (s : Socket)
    → Sublist (outgoing s) given
    → Post (λ t. Sublist (outgoing t) (given ++ all_written calls)) (run platform calls s)
unfolding run all_written
run_from_order platform [] given s sub = Sublist.trans sub (sublist-append_left given [])
run_from_order platform (call ∷ calls) given s sub =
    Post-bind (Delivers (written call) s) _ (step platform call s) _ (step_delivery platform call s)
      (λ t d.
        subst (λ l. Post (λ u. Sublist (outgoing u) l) (run platform calls t))
          (append_assoc given (written call) (all_written calls))
          (run_from_order platform calls (given ++ written call) t
            (Delivers-Sublist (written call) given s t sub d)))

-- After any history of a new socket, what was handed to its streams is a sublist of the messages of
-- the calls to `write`: none invented or doubled, none overtaken, across any number of connections.
pub run_order :
    (platform : Platform) (kind : SocketKind) (host : Bytes) (port : ℕ) (path : Bytes)
    (calls : List Call)
    → Post
        (λ t. Sublist t.sent (all_written calls))
        (run platform calls (new_socket kind host port path))
unfolding new_socket queued
run_order platform kind host port path calls =
    Post-map (run platform calls (new_socket kind host port path))
      (λ t sub. Sublist.trans (sublist-append_left t.sent (queued t.write_queue)) sub)
      (run_from_order platform calls [] _ (Sublist.refl []))
