-- ===== src/Socket/Endings.antt =====
-- src/GWSocket.cpp and src/SSLWebSocket.cpp: how connections end.
use gwsockets.Prelude.{
  ℕ, ◌≡◌, ◌≢◌, refl, ◌⊎◌, inl, inr, Bool, true, false, Bytes, List, [], ◌∷◌, Option, none, some,
  erase_idx, arith, Option-cases, if◌then◌else◌,
}
use gwsockets.Platform.{Platform, ErrorCode, failed}
use gwsockets.Socket.State.{
  Socket, SocketState, connecting, connected, disconnect_requested, disconnecting, disconnected,
  Operation, no_reason,
}
use gwsockets.Socket.Stream.{report, close_socket}
use gwsockets.Socket.Close.{
  set_disconnecting_cas, do_close, close_now, error_connection, clear_queue,
}
use gwsockets.Socket.Connect.{
  X509Error, x509_ok, certificate_message, verify_certificate, handshake_completed,
}
use gwsockets.Socket.Loop.{Completion, receive}
use gwsockets.Socket.Invariant.{IsClosing, close_now_cases, error_connection_cases, do_close-state}

-- A state in which `setDisconnectingCAS` goes on.
abbrev pub is_open : SocketState → Bool
is_open connecting = true
is_open connected = true
is_open _ = false

abbrev pub all_open : List SocketState → Bool
all_open [] = true
all_open (state ∷ rest) = if is_open state then all_open rest else false

-- Whatever other threads store between the attempts, `setDisconnectingCAS` either takes the socket to
-- the state DISCONNECTING and returns true, or returns false, and then the socket was at some moment
-- in a state other than CONNECTING and CONNECTED.
pub set_disconnecting_cas_lem :
    (others : List SocketState) (state : SocketState)
    → (set_disconnecting_cas others state ≡ (disconnecting, true))
      ⊎ (((set_disconnecting_cas others state).1 ≡ false) × (all_open (state ∷ others) ≡ false))
unfolding set_disconnecting_cas
set_disconnecting_cas_lem [] state = ground arith
set_disconnecting_cas_lem (other ∷ others) state =
    ground (arith, set_disconnecting_cas_lem others other)

close_now-IsClosing : (r : Bytes) (s : Socket) → IsClosing (close_now r s).0
close_now-IsClosing r s = elim (close_now_cases r s) [
  | inl (c, e) ↦ rw e c
  | inr (c, e) ↦ rw e (inl (do_close-state r _))
]

error_connection-IsClosing : (r : Bytes) (s : Socket) → IsClosing (error_connection r s).0
error_connection-IsClosing r s = elim (error_connection_cases r s) [
  | inl (c, e) ↦ rw e c
  | inr (c, e) ↦ rw e (inl (do_close-state r _))
]

pub accepted : (e : X509Error) → certificate_message e ≡ none → e ≡ x509_ok
unfolding certificate_message
accepted x509_ok q = refl
accepted e q = ground arith

pub refused : (e : X509Error) (m : Bytes) → certificate_message e ≡ some m → e ≢ x509_ok
unfolding certificate_message
refused e m q ok = absurd (ground arith)

-- The certificate check accepts exactly if OpenSSL found no error, and then changes nothing; any error
-- makes it refuse and leaves the socket disconnected or disconnecting, whatever `preverified` says.
pub verify_certificate_lem :
    (preverified : Bool) (error : X509Error) (s : Socket)
    → ((error ≡ x509_ok) × (verify_certificate preverified error s ≡ (s, true)))
      ⊎ ((error ≢ x509_ok)
          × ((verify_certificate preverified error s).1 ≡ false)
          × IsClosing (verify_certificate preverified error s).0)
unfolding verify_certificate
verify_certificate_lem preverified error s = elim (Option-cases (certificate_message error)) [
  | inl q ↦ inl (accepted error q, ground arith)
  | inr (m, q) ↦
      inr (
        refused error m q,
        ground arith,
        rw (q, verify_certificate) (error_connection-IsClosing m s),
      )
]

module _ (platform : Platform) where
  -- A result, and the socket in it is disconnected, unless it waits for its close already.
  abbrev Closes : Bool → Socket → Option Socket → Type 0
  Closes was_close s o =
      (t : Socket) × (o ≡ some t)
      × ((t.state ≡ disconnected)
          ⊎ ((was_close ≡ false) × (s.state ≡ disconnecting) × (t.state ≡ disconnecting)))

  module _ (spurious : Bool) (i : ℕ) (op : Operation) (c : Completion) (s : Socket) where
    taken : Socket
    taken = receive op.action c.bytes (record s { operations = erase_idx s.operations i })

  -- A socket that was asked to close before its handshake had completed drops its queue when the
  -- handshake succeeds: it is disconnected at once, and nothing that was written is sent.
  pub handshake_after_close :
      (spurious : Bool) (ec : ErrorCode) (s : Socket)
      → s.state ≡ disconnect_requested
      → failed ec ≡ false
      → (t : Socket) × (handshake_completed platform spurious ec s ≡ some t)
        × (t.state ≡ disconnected)
        × (t.write_queue ≡ [])
        × (t.sent ≡ s.sent)
  unfolding handshake_completed close_now do_close clear_queue close_socket report
  handshake_after_close spurious ec s asked good =
      ((close_now no_reason s).0, ground arith, ground arith, ground arith, ground arith)
