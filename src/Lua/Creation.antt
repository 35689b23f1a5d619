-- ===== src/Lua/Creation.antt =====
-- src/GLua.cpp: the socket that `createWebSocketFromURL` makes, and the methods that only a disconnected
-- socket has.
use gwsockets.Prelude.{
  ℕ, ◌^◌, ◌<◌, ◌≡◌, ◌≢◌, refl, [], ◌∷◌, Bool, true, false, not, ◌||◌, Bytes, bytes_eq, codes,
  Option, none, some, is_empty, arith, Post, Post->>=, if◌then◌else◌,
}
use gwsockets.Platform.{Platform}
use gwsockets.Socket.State.{
  Socket, SocketKind, web_socket, ssl_web_socket, disconnected, same_state, new_socket,
}
use gwsockets.Lua.Registry.{
  Web, UrlParts, Module, find, Reply, raises, with_socket, create_web_socket_from_url,
}
use gwsockets.Lua.Addresses.{Post-branch, Post-test}
use gwsockets.Lua.Functions.{
  socket_open, socket_set_message_compression, socket_set_disable_context_takeover,
  socket_set_cookie, socket_set_header,
}

-- What a socket of a URL is.
pub record Fresh (verify : Bool) (url : UrlParts) (s : Socket) : Type 0 where
  pub at_rest : (s.state ≡ disconnected) × (s.operations ≡ []) × (s.ws ≡ none)
  pub has_host : (s.host ≡ url.host) × (is_empty s.host ≡ false)
  pub has_path : is_empty s.path ≡ false
  pub small_port : s.port < 2 ^ 16
  pub secure :
      (s.kind ≡ ssl_web_socket)
      → (bytes_eq url.scheme (codes "https") || bytes_eq url.scheme (codes "wss")) ≡ true
  pub plain :
      (s.kind ≡ web_socket)
      → (bytes_eq url.scheme (codes "https") || bytes_eq url.scheme (codes "wss")) ≡ false
  pub verified : s.kind ≡ ssl_web_socket → s.should_verify_certificate ≡ verify

-- A socket as one of the two constructors makes it, whatever it is told of certificates.
abbrev pub IsNew : Socket → Type 0
IsNew s =
    (kind : SocketKind) × (host : Bytes) × (port : ℕ) × (path : Bytes) × (b : Bool) × (s
      ≡ record (new_socket kind host port path) { should_verify_certificate = b })

pub create_web_socket_from_url-IsNew :
    (web : Web) (url : Bytes) (verify : Bool)
    → Post IsNew (create_web_socket_from_url web url verify)
unfolding create_web_socket_from_url new_socket
create_web_socket_from_url-IsNew web url verify = Post->>= IsNew (web.parse url) _ (λ parts e.
    Post->>= IsNew
      (if is_empty parts.port
        then some (
            if bytes_eq parts.scheme (codes "https") || bytes_eq parts.scheme (codes "wss")
            then 443
            else 80)
        else web.stoi parts.port)
      _
      (λ port at. Post-branch IsNew (is_empty parts.host) _ _ tt (
        Post-branch IsNew
          (bytes_eq parts.scheme (codes "https") || bytes_eq parts.scheme (codes "wss")) _ _
          (ssl_web_socket, _, _, _, verify, refl) (web_socket, _, _, _, true, refl))))

path_given : (path : Bytes) → is_empty (if is_empty path then codes "/" else path) ≡ false
path_given [] = refl
path_given (c ∷ path) = refl

-- A socket of a URL is at rest, has the host of the URL and a path, and a port of 16 bits; it is
-- secured exactly if the scheme is `https` or `wss`, and then checks certificates as it is told to.
pub create_web_socket_from_url_lem :
    (web : Web) (url_string : Bytes) (verify : Bool) (url : UrlParts)
    → web.parse url_string ≡ some url
    → Post (Fresh verify url) (create_web_socket_from_url web url_string verify)
unfolding create_web_socket_from_url new_socket
create_web_socket_from_url_lem web url_string verify url e = rw e (
    Post->>= (Fresh verify url)
      (if is_empty url.port
        then some (
            if bytes_eq url.scheme (codes "https") || bytes_eq url.scheme (codes "wss")
            then 443
            else 80)
        else web.stoi url.port)
      _
      (λ port at.
        Post-test _ (is_empty url.host) _ _ (λ empty. tt)
          (λ host.
            Post-test _ (bytes_eq url.scheme (codes "https") || bytes_eq url.scheme (codes "wss")) _
              _
              (λ ssl. record {
                at_rest = (refl, refl, refl);
                has_host = (refl, host);
                has_path = path_given url.path;
                small_port = omega arith;
                secure = λ k. ssl;
                plain = λ k. absurd (ground arith);
                verified = λ k. refl;
              })
              (λ insecure. record {
                at_rest = (refl, refl, refl);
                has_host = (refl, host);
                has_path = path_given url.path;
                small_port = omega arith;
                secure = λ k. absurd (ground arith);
                plain = λ k. insecure;
                verified = λ k. absurd (ground arith);
              }))))

-- The method raises an error and changes nothing.
abbrev pub Refused : Module → Option (Module × Reply) → Type 0
Refused m o = (r : Bytes) × (o ≡ some (m, raises r))

refused :
    (p : ℕ) (f : ℕ → Socket → Option (Module × Reply)) (r : Bytes) (s : Socket) (m : Module)
    → find p m.all_sockets ≡ some s
    → s.state ≢ disconnected
    → Refused m (
        with_socket
          (some p)
          (λ q t. if not (same_state t.state disconnected) then some (m, raises r) else f q t)
          m)
unfolding with_socket
refused p f r s m at up = rw at (r, ground arith)

-- A socket that is not disconnected cannot be opened, and neither its cookies and headers nor its
-- options of compression can be set: each of the five methods raises an error and changes nothing in
-- the module.
pub setters_while_busy :
    (platform : Platform) (p : ℕ) (s : Socket) (m : Module)
    → find p m.all_sockets ≡ some s
    → s.state ≢ disconnected
    → ((clear : Option Bool) (reference : ℕ) → Refused m (socket_open (some p) clear reference m))
      × ((key value : Bytes) → Refused m (socket_set_cookie (some p) platform key value m))
      × ((key value : Bytes) → Refused m (socket_set_header (some p) platform key value m))
      × ((value : Bool) → Refused m (socket_set_message_compression (some p) value m))
      × ((value : Bool) → Refused m (socket_set_disable_context_takeover (some p) value m))
unfolding socket_open socket_set_cookie socket_set_header socket_set_message_compression
    socket_set_disable_context_takeover
setters_while_busy platform p s m at up = (
  (λ clear reference. refused p _ _ s m at up),
  (λ key value. refused p _ _ s m at up),
  (λ key value. refused p _ _ s m at up),
  (λ value. refused p _ _ s m at up),
  (λ value. refused p _ _ s m at up),
)
