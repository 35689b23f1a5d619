-- ===== src/Socket/Headers.antt =====
-- src/GWSocket.cpp: the headers that a socket accepts cannot end their line in the request.
use gwsockets.Prelude.{
  ℕ, ◌≡◌, refl, Bool, true, false, not, ◌&&◌, ◌==◌, Bytes, List, [], ◌∷◌, Bool-cases, inl, inr, all,
  arith,
}
use gwsockets.Platform.{Platform}
use gwsockets.Socket.State.{Socket}
use gwsockets.Socket.Config.{assign, is_token, is_field_value, set_header}

-- No carriage return and no line feed.
abbrev pub on_one_line : Bytes → Bool
on_one_line str = all (λ c. not (c == 13) && not (c == 10)) str

unfoldable pub all_on_one_line : List (Bytes × Bytes) → Bool
all_on_one_line [] = true
all_on_one_line ((key, value) ∷ rest) =
    on_one_line key && (on_one_line value && all_on_one_line rest)

all_on_one_line-assign :
    (key value : Bytes) (headers : List (Bytes × Bytes))
    → all_on_one_line headers ≡ true
    → on_one_line key ≡ true
    → on_one_line value ≡ true
    → all_on_one_line (assign key value headers) ≡ true
unfolding all_on_one_line assign
all_on_one_line-assign key value [] h k v = ground arith
all_on_one_line-assign key value ((k', v') ∷ rest) h k v =
    ground (arith, all_on_one_line-assign key value rest)

module _ (platform : Platform) where
  -- A script's calls of `setHeader`.
  unfoldable pub set_headers : List (Bytes × Bytes) → Socket → Socket
  set_headers [] s = s
  set_headers ((key, value) ∷ rest) s = set_headers rest (set_header platform key value s).0

  module _ (tokens : (platform.is_token_char 13 ≡ false) × (platform.is_token_char 10 ≡ false))
      (texts : (platform.is_text 13 ≡ false) × (platform.is_text 10 ≡ false)) where
    class_on_one_line :
        (f : ℕ → Bool) (str : Bytes)
        → (f 13 ≡ false) × (f 10 ≡ false)
        → all f str ≡ true
        → on_one_line str ≡ true
    class_on_one_line f [] never h = refl
    class_on_one_line f (c ∷ str) never h = elim (Bool-cases (c == 13)) [
      | inl e ↦ absurd (ground arith)
      | inr e ↦ elim (Bool-cases (c == 10)) [
        | inl e' ↦ absurd (ground arith)
        | inr e' ↦ ground (arith, class_on_one_line f str never)
      ]
    ]

    set_header-all_on_one_line :
        (key value : Bytes) (s : Socket)
        → all_on_one_line s.headers ≡ true
        → all_on_one_line (set_header platform key value s).0.headers ≡ true
    unfolding set_header is_token is_field_value
    set_header-all_on_one_line key value s h = ground (
      arith,
      all_on_one_line-assign key value s.headers,
      class_on_one_line platform.is_token_char key tokens,
      class_on_one_line platform.is_text value texts,
    )

    -- Whatever a script passes to `setHeader`, no name and no value of a header has a line break, so none
    -- can add a line to the request. This needs that carriage return and line feed are neither token
    -- characters nor text.
    pub set_headers-all_on_one_line :
        (calls : List (Bytes × Bytes)) (s : Socket)
        → all_on_one_line s.headers ≡ true
        → all_on_one_line (set_headers calls s).headers ≡ true
    unfolding set_headers
    set_headers-all_on_one_line [] s h = h
    set_headers-all_on_one_line ((key, value) ∷ rest) s h =
        set_headers-all_on_one_line rest (set_header platform key value s).0
          (set_header-all_on_one_line key value s h)
