-- ===== src/Socket/Machine/Waiting.antt =====
-- src/GWSocket.cpp: what a socket that is not disconnected waits for.
use gwsockets.Prelude.{ℕ, ◌^◌, ◌<◌, ◌≢◌, refl, List, Bytes, Post, Post-map, length}
use gwsockets.Platform.{Platform}
use gwsockets.Socket.State.{SocketKind, disconnected, new_socket}
use gwsockets.Socket.Loop.{Call, run}
use gwsockets.Socket.Invariant.{Waits, state-Waits}
use gwsockets.Socket.Machine.Histories.{run-Inv}

-- After any history of a new socket of fewer than 2 ^ 32 calls and completions, if it is not disconnected
-- then an operation of its current generation is in flight, whose handler the guard will let through.
-- That operation may be the read alone: it need not be one that ends the connection.
pub run-Waits :
    (platform : Platform) (kind : SocketKind) (host : Bytes) (port : ℕ) (path : Bytes)
    (calls : List Call)
    → length calls < 2 ^ 32
    → Post
        (λ t. t.state ≢ disconnected → Waits t)
        (run platform calls (new_socket kind host port path))
run-Waits platform kind host port path calls h =
    Post-map (run platform calls (new_socket kind host port path))
      (λ t inv. state-Waits t.state t refl inv) (run-Inv platform kind host port path calls h)
