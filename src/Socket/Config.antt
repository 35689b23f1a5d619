-- ===== src/Socket/Config.antt =====
-- src/GWSocket.cpp: what may be set before a connection is opened. An unordered map is an association
-- list: a new key goes to the end, a known one keeps its place.
use gwsockets.Prelude.{
  ℕ, Bool, true, false, not, ◌&&◌, ◌||◌, ◌==◌, leb, Bytes, bytes_eq, List, [], ◌∷◌, all, is_empty,
  if◌then◌else◌,
}
use gwsockets.Platform.{Platform}
use gwsockets.Socket.State.{Socket, disconnected, same_state}

-- `map[key] = value`.
unfoldable pub assign : Bytes → Bytes → List (Bytes × Bytes) → List (Bytes × Bytes)
assign key value [] = (key, value) ∷ []
assign key value ((k, v) ∷ rest) =
    if bytes_eq k key then (key, value) ∷ rest else (k, v) ∷ assign key value rest

-- One byte of a cookie value. `char` is signed where this is built: a byte from 128 on is negative and
-- fails the first test; here it fails the second.
unfoldable pub is_cookie_octet : ℕ → Bool
is_cookie_octet c =
    leb 0x21 c
    && leb c 0x7E
    && not (c == 0x22)
    && not (c == 0x2C)
    && not (c == 0x3B)
    && not (c == 0x5C)

unfoldable pub is_cookie_value : Bytes → Bool
unfolding is_cookie_octet
is_cookie_value str = all is_cookie_octet str

unfoldable pub set_per_message_deflate : Bool → Socket → Socket
set_per_message_deflate value s = record s { per_message_deflate = value }

unfoldable pub set_disable_context_takeover : Bool → Socket → Socket
set_disable_context_takeover value s = record s { disable_context_takeover = value }

module _ (platform : Platform) where
  unfoldable pub is_token : Bytes → Bool
  is_token str = not (is_empty str) && all platform.is_token_char str

  unfoldable pub is_field_value : Bytes → Bool
  is_field_value str = all platform.is_text str

  unfoldable pub set_cookie : Bytes → Bytes → Socket → Socket × Bool
  unfolding is_token is_cookie_value assign
  set_cookie key value s =
      if not (is_token key) || not (is_cookie_value value)
      then (s, false)
      else if not (same_state s.state disconnected)
      then (s, false)
      else (record s { cookies = assign key value s.cookies }, true)

  unfoldable pub set_header : Bytes → Bytes → Socket → Socket × Bool
  unfolding is_token is_field_value assign
  set_header key value s =
      if not (is_token key) || not (is_field_value value)
      then (s, false)
      else if not (same_state s.state disconnected)
      then (s, false)
      else (record s { headers = assign key value s.headers }, true)
