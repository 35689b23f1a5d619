-- ===== src/Platform.antt =====
-- What Boost and OpenSSL decide for a socket: the descriptions of error codes, the error codes that
-- src/GWSocket.cpp compares with, the character classes of Boost.Beast, and two setters of
-- OpenSSL. None of this code is in the repository, so the operations take it as one argument.
use gwsockets.Prelude.{ℕ, Bool, not, ◌&&◌, ◌==◌, Bytes}

-- `boost::system::error_code`: equal if value and category are, and an error if the value is not 0.
pub record ErrorCode : Type 0 where
  pub value : ℕ
  pub category : ℕ

abbrev pub failed : ErrorCode → Bool
failed ec = not (ec.value == 0)

abbrev pub same_code : ErrorCode → ErrorCode → Bool
same_code a b = a.value == b.value && a.category == b.category

pub record Platform : Type 0 where
  pub message : ErrorCode → Bytes
  pub eof : ErrorCode
  pub operation_aborted : ErrorCode
  pub stream_truncated : ErrorCode
  pub closed : ErrorCode
  -- `boost::beast::http::detail`, on one byte.
  pub is_token_char : ℕ → Bool
  pub is_text : ℕ → Bool
  -- `SSL_set_tlsext_host_name` and `X509_VERIFY_PARAM_set1_host`.
  pub set_host_name : Bytes → Bool
  pub set1_host : Bytes → Bool
