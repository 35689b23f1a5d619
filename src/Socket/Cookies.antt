-- ===== src/Socket/Cookies.antt =====
-- src/GWSocket.cpp: the cookies that a socket accepts, and what a server reads from the field that
-- it sends.
use mathlib.Core.List.{append_assoc, append-nil}
use gwsockets.Prelude.{
  ◌≡◌, refl, ap, ◌∙◌, inl, inr, Bool, true, false, not, ◌&&◌, ◌==◌, Bytes, bytes_eq, bytes_eq_refl,
  bytes_eq_sound, codes, List, [], ◌∷◌, ◌++◌, Option, some, none, all, arith, Bool-cases,
  if◌then◌else◌,
}
use gwsockets.Platform.{Platform}
use gwsockets.Socket.State.{Socket}
use gwsockets.Socket.Connect.{cookie_header}
use gwsockets.Socket.Config.{assign, is_cookie_octet, is_cookie_value, is_token, set_cookie}

-- What an unordered map holds for a key.
unfoldable pub lookup : Bytes → List (Bytes × Bytes) → Option Bytes
lookup key [] = none
lookup key ((k, v) ∷ rest) = let other = lookup key rest in if bytes_eq k key then some v else other

-- `map[key] = value` is the map that has the value at the key and everything else as before.
pub lookup-assign :
    (key value other : Bytes) (map : List (Bytes × Bytes))
    → lookup other (assign key value map)
      ≡ (if bytes_eq key other then some value else lookup other map)
unfolding lookup assign
lookup-assign key value other [] = refl
lookup-assign key value other ((k, v) ∷ rest) = elim (Bool-cases (bytes_eq k key)) [
  | inl e ↦ rw (e, bytes_eq_sound k key e) (ground arith)
  | inr e ↦
      rw (e, lookup-assign key value other rest)
        (elim (Bool-cases (bytes_eq key other)) [
          | inl e' ↦ rw (← bytes_eq_sound key other e') (ground (arith, bytes_eq_refl key))
          | inr e' ↦ rw e' refl
        ])
]

-- A server's reader of the Cookie field: `name=value` pairs, separated by a semicolon and a blank.
pub data Part : Type 0 where
  in_key : Bytes → Part
  in_value : Bytes → Bytes → Part
  at_blank : Part

unfoldable pub parse_cookies : Part → Bytes → List (Bytes × Bytes)
parse_cookies (in_key key) [] = []
parse_cookies (in_key key) (c ∷ rest) =
    if c == b'='
    then parse_cookies (in_value key []) rest
    else parse_cookies (in_key (key ++ c ∷ [])) rest
parse_cookies (in_value key value) [] = (key, value) ∷ []
parse_cookies (in_value key value) (c ∷ rest) =
    if c == b';'
    then (key, value) ∷ parse_cookies at_blank rest
    else parse_cookies (in_value key (value ++ c ∷ [])) rest
parse_cookies at_blank [] = []
parse_cookies at_blank (c ∷ rest) = parse_cookies (in_key []) rest

-- A name without `=` is read to its end.
parse-key :
    (read name rest : Bytes)
    → all (λ c. not (c == b'=')) name ≡ true
    → parse_cookies (in_key read) (name ++ b'=' ∷ rest)
      ≡ parse_cookies (in_value (read ++ name) []) rest
unfolding parse_cookies
parse-key read [] rest h = rw (append-nil read) refl
parse-key read (c ∷ name) rest h =
    rw (← append_assoc read (c ∷ []) name) (ground (arith, parse-key (read ++ c ∷ []) name rest))

-- And so is a value without a semicolon.
parse-value :
    (key read value rest : Bytes)
    → is_cookie_value value ≡ true
    → parse_cookies (in_value key read) (value ++ rest)
      ≡ parse_cookies (in_value key (read ++ value)) rest
unfolding parse_cookies is_cookie_value is_cookie_octet
parse-value key read [] rest h = rw (append-nil read) refl
parse-value key read (c ∷ value) rest h =
    rw (← append_assoc read (c ∷ []) value)
      (ground (arith, parse-value key (read ++ c ∷ []) value rest))

abbrev has_no_equals : Bytes → Bool
has_no_equals name = all (λ c. not (c == b'=')) name

-- Every name is free of `=`, and every value is one that `isCookieValue` accepts.
unfoldable pub readable : List (Bytes × Bytes) → Bool
readable [] = true
readable ((key, value) ∷ rest) = has_no_equals key && (is_cookie_value value && readable rest)

parse-pair :
    (key value rest : Bytes)
    → has_no_equals key ≡ true
    → is_cookie_value value ≡ true
    → parse_cookies (in_key []) (key ++ (codes "=" ++ (value ++ rest)))
      ≡ parse_cookies (in_value key value) rest
parse-pair key value rest h h' =
    parse-key [] key (value ++ rest) h ∙ parse-value key [] value rest h'

parse-rest :
    (key value : Bytes) (rest : List (Bytes × Bytes))
    → readable rest ≡ true
    → parse_cookies (in_value key value) (cookie_header false rest) ≡ (key, value) ∷ rest
unfolding cookie_header readable parse_cookies
parse-rest key value [] h = refl
parse-rest key value ((k, v) ∷ rest) h = ap ((key, value) ∷◌) (
    parse-pair k v (cookie_header false rest) (ground arith) (ground arith)
    ∙ parse-rest k v rest (ground arith))

parse-header :
    (cookies : List (Bytes × Bytes))
    → readable cookies ≡ true
    → parse_cookies (in_key []) (cookie_header true cookies) ≡ cookies
unfolding cookie_header readable parse_cookies
parse-header [] h = refl
parse-header ((k, v) ∷ rest) h =
    parse-pair k v (cookie_header false rest) (ground arith) (ground arith)
    ∙ parse-rest k v rest (ground arith)

readable-assign :
    (key value : Bytes) (cookies : List (Bytes × Bytes))
    → readable cookies ≡ true
    → has_no_equals key ≡ true
    → is_cookie_value value ≡ true
    → readable (assign key value cookies) ≡ true
unfolding readable assign
readable-assign key value [] h k v = ground arith
readable-assign key value ((k', v') ∷ rest) h k v = ground (arith, readable-assign key value rest)

module _ (platform : Platform) where
  -- A script's calls of `setCookie`.
  unfoldable pub set_cookies : List (Bytes × Bytes) → Socket → Socket
  set_cookies [] s = s
  set_cookies ((key, value) ∷ rest) s = set_cookies rest (set_cookie platform key value s).0

  module _ (equals_is_no_token_char : platform.is_token_char b'=' ≡ false) where
    token_has_no_equals :
        (key : Bytes) → all platform.is_token_char key ≡ true → has_no_equals key ≡ true
    token_has_no_equals [] h = refl
    token_has_no_equals (c ∷ key) h = elim (Bool-cases (c == b'=')) [
      | inl e ↦ absurd (ground arith)
      | inr e ↦ ground (arith, token_has_no_equals key)
    ]

    set_cookie-readable :
        (key value : Bytes) (s : Socket)
        → readable s.cookies ≡ true
        → readable (set_cookie platform key value s).0.cookies ≡ true
    unfolding set_cookie is_token
    set_cookie-readable key value s h =
        ground (arith, readable-assign key value s.cookies, token_has_no_equals key)

    set_cookies-readable :
        (calls : List (Bytes × Bytes)) (s : Socket)
        → readable s.cookies ≡ true
        → readable (set_cookies calls s).cookies ≡ true
    unfolding set_cookies
    set_cookies-readable [] s h = h
    set_cookies-readable ((key, value) ∷ rest) s h =
        set_cookies-readable rest (set_cookie platform key value s).0
          (set_cookie-readable key value s h)

    -- Whatever names and values a script passes to `setCookie`, accepted or refused, the server reads
    -- from the Cookie field exactly the cookies that the socket holds: no value can smuggle in
    -- another cookie. This needs that `=` is no token character.
    pub cookie_round_trip :
        (calls : List (Bytes × Bytes)) (s : Socket)
        → s.cookies ≡ []
        → parse_cookies (in_key []) (cookie_header true (set_cookies calls s).cookies)
          ≡ (set_cookies calls s).cookies
    cookie_round_trip calls s e =
        parse-header (set_cookies calls s).cookies
          (set_cookies-readable calls s (rw e (unfold readable in refl)))
