-- ===== src/Lua/Registry.antt =====
-- src/GLua.cpp: the three collections of sockets, and how a socket is created and deleted.
use gwsockets.Prelude.{
  ℕ, ◌≡◌, ◌+◌, ◌%◌, ◌^◌, Bool, true, false, ◌||◌, ◌==◌, Bytes, bytes_eq, codes, List, [], ◌∷◌, ◌++◌,
  Option, none, some, ◌>>=◌, is_empty, if◌then◌else◌,
}
use gwsockets.Socket.State.{Socket, web_socket, ssl_web_socket, Operation, new_socket}

-- What the class `Url` finds in a text.
pub record UrlParts : Type 0 where
  pub scheme : Bytes
  pub host : Bytes
  pub port : Bytes
  pub path : Bytes

-- The objects by their addresses. `orphans` are the handlers in flight whose socket was deleted: they
-- are still going to read its generation. `created` counts the objects that were created.
pub record Module : Type 0 where
  pub module_open : Bool
  pub all_sockets : List (ℕ × Socket)
  pub gced_sockets : List ℕ
  pub socket_table_references : List (ℕ × ℕ)
  pub orphans : List Operation
  pub created : ℕ

-- After `GMOD_MODULE_OPEN`.
abbrev pub empty_module : Module
empty_module = record {
  module_open = true;
  all_sockets = [];
  gced_sockets = [];
  socket_table_references = [];
  orphans = [];
  created = 0;
}

module _ {ℓ} {A : Type ℓ} where
  unfoldable pub find : ℕ → List (ℕ × A) → Option A
  find p [] = none
  find p ((q, a) ∷ rest) = let later = find p rest in if q == p then some a else later

-- The class `Url` and `std::stoi`, `none` if they throw `std::invalid_argument`; and the addresses that
-- `new` gives to objects: to the first, the second and so on, one that no object in the list has. It may
-- be that of an object which was deleted.
pub record Web : Type 0 where
  pub parse : Bytes → Option UrlParts
  pub stoi : Bytes → Option ℕ
  pub new_address : ℕ → List (ℕ × Socket) → ℕ
  pub new_address_free :
      (n : ℕ) (objects : List (ℕ × Socket)) → find (new_address n objects) objects ≡ none

module _ {ℓ} {A : Type ℓ} where
  -- The object at an address changes.
  unfoldable pub update : ℕ → A → List (ℕ × A) → List (ℕ × A)
  update p a [] = []
  update p a ((q, b) ∷ rest) =
      let later = update p a rest in if q == p then (q, a) ∷ rest else (q, b) ∷ later

  unfoldable pub erase : ℕ → List (ℕ × A) → List (ℕ × A)
  erase p [] = []
  erase p ((q, b) ∷ rest) = let later = erase p rest in if q == p then later else (q, b) ∷ later

unfoldable pub is_member : ℕ → List ℕ → Bool
is_member p [] = false
is_member p (q ∷ rest) = (q == p) || is_member p rest

-- `unordered_set::insert`.
unfoldable pub insert : ℕ → List ℕ → List ℕ
insert p set = if is_member p set then set else set ++ p ∷ []

-- What a function does for its caller: nothing, raise an error (`ThrowError`), print one
-- (`ErrorNoHalt`), or return a value.
pub data Reply : Type 0 where
  replies_nothing : Reply
  raises : Bytes → Reply
  prints_error : Bytes → Reply
  replies : Bool → Reply
  replies_socket : ℕ → Reply

-- `getCppObject`, with the object at the address; `none` stands for a table without one.
unfoldable pub with_socket :
    Option ℕ → (ℕ → Socket → Option (Module × Reply)) → Module → Option (Module × Reply)
with_socket none f m = some (m, raises (codes "[GWSockets] Expected GWSocket table"))
with_socket (some p) f m = (find p m.all_sockets >>= λ s. f p s)

module _ (web : Web) where
  -- `none` if it throws `std::invalid_argument`. The port is an `unsigned short`.
  unfoldable pub create_web_socket_from_url : Bytes → Bool → Option Socket
  create_web_socket_from_url url_string verify = do
    url ← web.parse url_string
    let path = if is_empty url.path then codes "/" else url.path in
        let use_ssl = bytes_eq url.scheme (codes "https") || bytes_eq url.scheme (codes "wss") in
        (if is_empty url.port then some (if use_ssl then 443 else 80) else web.stoi url.port)
        >>= λ port.
            if is_empty url.host
            then none
            else if use_ssl
            then some (record (new_socket ssl_web_socket url.host (port % 2 ^ 16) path) {
              should_verify_certificate = verify;
            })
            else some (new_socket web_socket url.host (port % 2 ^ 16) path)

  unfoldable pub create_web_socket : Bytes → Option Bool → Module → Module × Reply
  create_web_socket url_string verify m =
      elim (create_web_socket_from_url url_string (elim verify [ none ↦ true | some b ↦ b ])) [
        | none ↦ (
          m,
          prints_error (
              codes
                "Unable to create WebSocket! Invalid URL. Refer to the documentation for the proper URL format."),
        )
        | some s ↦ (
          record m {
            all_sockets = m.all_sockets ++ (web.new_address m.created m.all_sockets, s) ∷ [];
            created = m.created + 1;
          },
          replies_socket (web.new_address m.created m.all_sockets),
        )
      ]

-- `allSockets.erase(socket); delete socket`.
unfoldable pub delete_socket : ℕ → Socket → Module → Module
delete_socket p s m = record m {
  all_sockets = erase p m.all_sockets;
  orphans = m.orphans ++ s.operations;
}
