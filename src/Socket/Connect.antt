-- ===== src/Socket/Connect.antt =====
-- src/GWSocket.cpp, src/WebSocket.cpp and src/SSLWebSocket.cpp: from `open` to the first read, and
-- the handler of reads.
use gwsockets.Prelude.{
  ℕ, ◌+◌, ◌%◌, ◌^◌, Bool, true, false, not, ◌||◌, ◌==◌, Bytes, List, [], ◌∷◌, ◌++◌, Option, none,
  some, ◌>>=◌, codes, to_string, is_empty, if◌then◌else◌,
}
use gwsockets.Platform.{Platform, ErrorCode, failed}
use gwsockets.Socket.State.{
  Socket, web_socket, ssl_web_socket, Stream, verify_none, verify_peer, resolve, connect,
  connecting, connected, disconnected, no_reason, in_connected, in_message,
}
use gwsockets.Socket.Stream.{
  launch, reset_ws, get_close_reason, async_read, async_handshake, websocket_handshake, report,
}
use gwsockets.Socket.Close.{
  compare_exchange, clear_queue, close_now, error_connection, is_connection_closed_error,
}
use gwsockets.Socket.Write.{check_writing}

-- The results of `X509_STORE_CTX_get_error` that `verifyCertificate` names.
pub data X509Error : Type 0 where
  unable_to_get_issuer_cert cert_not_yet_valid error_in_cert_not_before_field cert_revoked :
      X509Error
  cert_has_expired error_in_cert_not_after_field invalid_ca subject_issuer_mismatch : X509Error
  akid_skid_mismatch akid_issuer_serial_mismatch hostname_mismatch email_mismatch : X509Error
  ip_address_mismatch cert_untrusted cert_rejected self_signed_cert_in_chain : X509Error
  unable_to_get_crl unable_to_get_issuer_cert_locally x509_ok : X509Error
  other_error : ℕ → X509Error

abbrev invalid_details : Bytes
invalid_details =
    codes "Provided certificate had invalid details (Invalid CA, email, hostname, etc.)"

abbrev untrusted : Bytes
untrusted = codes "Provided certificate was self signed or untrusted."

-- What the `switch` reports; `none` for `X509_V_OK`.
unfoldable pub certificate_message : X509Error → Option Bytes
certificate_message unable_to_get_issuer_cert = some (codes "Unable to get issuer certificate.")
certificate_message cert_not_yet_valid = some (codes "Provided certificate not valid yet.")
certificate_message error_in_cert_not_before_field =
    some (codes "Provided certificate not valid yet.")
certificate_message cert_revoked = some (codes "Provided certificate expired or revoked.")
certificate_message cert_has_expired = some (codes "Provided certificate expired or revoked.")
certificate_message error_in_cert_not_after_field =
    some (codes "Provided certificate expired or revoked.")
certificate_message invalid_ca = some invalid_details
certificate_message subject_issuer_mismatch = some invalid_details
certificate_message akid_skid_mismatch = some invalid_details
certificate_message akid_issuer_serial_mismatch = some invalid_details
certificate_message hostname_mismatch = some invalid_details
certificate_message email_mismatch = some invalid_details
certificate_message ip_address_mismatch = some invalid_details
certificate_message cert_untrusted = some untrusted
certificate_message cert_rejected = some untrusted
certificate_message self_signed_cert_in_chain = some untrusted
certificate_message unable_to_get_crl = some (codes "Unable to load CRL.")
certificate_message unable_to_get_issuer_cert_locally =
    some (codes "Unable to find matching SSL root certificate locally.")
certificate_message x509_ok = none
certificate_message (other_error n) = some (codes "certificate verify failed")

-- `preverified` is not read.
unfoldable pub verify_certificate : Bool → X509Error → Socket → Socket × Bool
verify_certificate preverified error s = elim (certificate_message error) [
  | none ↦ (s, true)
  | some message ↦ ((error_connection message s).0, false)
]

-- The text of the Cookie header: the loop with its flag `first`.
unfoldable pub cookie_header : Bool → List (Bytes × Bytes) → Bytes
cookie_header first [] = []
cookie_header first ((key, value) ∷ rest) =
    (if first then [] else codes "; ")
    ++ (key ++ (codes "=" ++ (value ++ cookie_header false rest)))

-- The decorator of `socketConnected`: the fields that it inserts, in order. The order of the lists
-- stands for the order in which the unordered maps are walked.
unfoldable pub decorate : Socket → List (Bytes × Bytes)
decorate s =
    (if is_empty s.cookies then [] else (codes "Cookie", cookie_header true s.cookies) ∷ [])
    ++ s.headers

unfoldable pub host_with_port : Socket → Bytes
host_with_port s = if not (s.port == 80) then s.host ++ (codes ":" ++ to_string s.port) else s.host

abbrev pub connection_failed : Bytes
connection_failed = codes "Connection failed: "

unfoldable pub open_socket : Bool → Socket → Socket
open_socket should_clear_queue s = elim (compare_exchange disconnected connecting s.state) [
  | none ↦ s
  | some state ↦
      let t = record s { state = state } in
      let u = if should_clear_queue then clear_queue t else t in
      launch (resolve s.host (to_string s.port))
        (record u { generation = (s.generation + 1) % 2 ^ 32 })
]

-- `setup_verify` sets the mode and the callback of the new stream.
unfoldable pub setup_verify : Bool → Stream → Stream
setup_verify true stream = record stream { verify = verify_peer; verify_callback = true }
setup_verify false stream = record stream { verify = verify_none }

module _ (platform : Platform) where
  unfoldable pub async_connect : List ℕ → Socket → Option Socket
  async_connect endpoints s =
      let fresh = reset_ws s in
      elim s.kind [
        | web_socket ↦ some (launch (connect endpoints) fresh)
        | ssl_web_socket ↦
            (fresh.ws >>= λ stream.
            let ready = record fresh {
              ws = some (setup_verify fresh.should_verify_certificate stream);
            } in
            if not (platform.set_host_name s.host) || not (platform.set1_host s.host)
            then some (error_connection (codes "Error setting SSL parameters") ready).0
            else some (launch (connect endpoints) ready))
      ]

  unfoldable pub host_resolved_step : ErrorCode → List ℕ → Socket → Option Socket
  host_resolved_step ec endpoints s =
      if not (failed ec)
      then async_connect endpoints s
      else some (error_connection (codes "[Resolver] " ++ platform.message ec) s).0

  unfoldable pub socket_connected : ErrorCode → Socket → Option Socket
  socket_connected ec s =
      if not (failed ec)
      then async_handshake (host_with_port s) s.path decorate s
      else some (error_connection (connection_failed ++ platform.message ec) s).0

  unfoldable pub handshake_completed : Bool → ErrorCode → Socket → Option Socket
  handshake_completed spurious ec s =
      if not (failed ec)
      then elim (compare_exchange connecting connected s.state) [
        | none ↦ some (close_now no_reason s).0
        | some state ↦
            (async_read (report in_connected (codes "Connected") (record s { state = state }))
              >>= λ t. check_writing spurious t)
      ]
      else some (error_connection (connection_failed ++ platform.message ec) s).0

  unfoldable pub ssl_handshake_complete :
      Bool → ErrorCode → Bytes → Bytes → (Socket → List (Bytes × Bytes)) → Socket → Option Socket
  ssl_handshake_complete spurious ec host path decorator s =
      if not (failed ec)
      then websocket_handshake host path decorator s
      else handshake_completed spurious ec s

  unfoldable pub on_read : ErrorCode → Socket → Option Socket
  on_read ec s =
      let reason = get_close_reason s in
      if not (failed ec)
      then async_read (record (report in_message s.read_buffer s) { read_buffer = [] })
      else if is_connection_closed_error platform ec
      then some (close_now (if is_empty reason then no_reason else reason) s).0
      else some (error_connection (platform.message ec) s).0
