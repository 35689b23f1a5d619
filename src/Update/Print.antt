-- ===== src/Update/Print.antt =====
-- src/UpdateChecker.h: `splitVersions` reads back the numbers of a version that is written with dots.
use mathlib.Core.List.{map, append_assoc, append-nil}
use gwsockets.Prelude.{
  ℕ, zero, suc, ◌+◌, ◌-◌, ◌/◌, ◌%◌, ◌^◌, ◌<◌, ◌≤◌, ◌≡◌, refl, sym, ap, ◌∙◌, true, false, ◌==◌, ltb,
  List, [], ◌∷◌, ◌++◌, inl, inr, Bytes, all, is_empty, arith, Bool-cases, to_string, digits_onto,
}
use gwsockets.Update.{pos, min, is_digit, skip_spaces, read_digits, strtol, to_int, split_versions}
use gwsockets.Update.Split.{split_dots, split_from-split_dots, ten_to, read_digits-digits_onto}

-- A version as it is written.
unfoldable pub join : List ℕ → Bytes
join [] = []
join (n ∷ []) = to_string n
join (n ∷ m ∷ ns) = to_string n ++ b'.' ∷ join (m ∷ ns)

digits_onto-digits :
    (fuel n : ℕ) (rest : Bytes)
    → all is_digit rest ≡ true
    → all is_digit (digits_onto fuel n rest) ≡ true
unfolding digits_onto
digits_onto-digits zero n rest h = h
digits_onto-digits (suc fuel) n rest h = elim (Bool-cases (ltb n 10)) [
  | inl e ↦ rw e (ground arith)
  | inr e ↦ rw e (
      digits_onto-digits fuel (n / 10) ((b'0' + n % 10) ∷ rest) (last_digit (n % 10) (omega arith)))
]
  where
    last_digit : (d : ℕ) → d < 10 → all is_digit ((b'0' + d) ∷ rest) ≡ true
    last_digit d less = ground arith

digits_onto_cons : (fuel n d : ℕ) (rest : Bytes) → is_empty (digits_onto fuel n (d ∷ rest)) ≡ false
unfolding digits_onto
digits_onto_cons zero n d rest = refl
digits_onto_cons (suc fuel) n d rest =
    ground (arith, digits_onto_cons fuel (n / 10) (b'0' + n % 10) (d ∷ rest))

to_string-is_empty : (n : ℕ) → is_empty (to_string n) ≡ false
unfolding to_string digits_onto
to_string-is_empty n = ground (arith, digits_onto_cons 9 (n / 10) (b'0' + n % 10) [])

strtol_digits :
    (width : ℕ) (str : Bytes)
    → all is_digit str ≡ true
    → is_empty str ≡ false
    → strtol width str ≡ pos (min (read_digits 0 str) (2 ^ (width - 1) - 1))
unfolding strtol skip_spaces
strtol_digits width [] h e = absurd (ground arith)
strtol_digits width (c ∷ rest) h e = ground arith

to_int_small : (n : ℕ) → n < 2 ^ 31 → to_int (pos n) ≡ pos n
unfolding to_int
to_int_small n h = ground arith

digit_is_no_dot : (c : ℕ) → is_digit c ≡ true → (c == b'.') ≡ false
digit_is_no_dot c h = ground arith

to_string-digits : (n : ℕ) → all is_digit (to_string n) ≡ true
unfolding to_string
to_string-digits n = digits_onto-digits 10 n [] refl

-- Without a dot there is one number.
split_last :
    (width : ℕ) (part p : Bytes)
    → all is_digit p ≡ true
    → is_empty p ≡ false
    → split_dots width part p ≡ to_int (strtol width (part ++ p)) ∷ []
unfolding split_dots
split_last width part [] h e = absurd (ground arith)
split_last width part (c ∷ []) h e = refl
split_last width part (c ∷ d ∷ p) h e =
    rw (digit_is_no_dot c (ground arith), ← append_assoc part (c ∷ []) (d ∷ p))
      (split_last width (part ++ c ∷ []) (d ∷ p) (ground arith) refl)

-- Up to a dot there is one number, if something follows the dot.
split_piece :
    (width : ℕ) (part p rest : Bytes)
    → all is_digit p ≡ true
    → is_empty rest ≡ false
    → split_dots width part (p ++ b'.' ∷ rest)
      ≡ to_int (strtol width (part ++ p)) ∷ split_dots width [] rest
unfolding split_dots
split_piece width part p [] h e = absurd (ground arith)
split_piece width part [] (d ∷ rest) h e =
    ap (λ l. to_int (strtol width l) ∷ split_dots width [] (d ∷ rest)) (sym (append-nil part))
split_piece width part (c ∷ []) (d ∷ rest) h e = rw (digit_is_no_dot c (ground arith)) refl
split_piece width part (c ∷ x ∷ p) (d ∷ rest) h e =
    rw (digit_is_no_dot c (ground arith), ← append_assoc part (c ∷ []) (x ∷ p))
      (split_piece width (part ++ c ∷ []) (x ∷ p) (d ∷ rest) (ground arith) refl)

join-is_empty : (n : ℕ) (ns : List ℕ) → is_empty (join (n ∷ ns)) ≡ false
unfolding join
join-is_empty n [] = to_string-is_empty n
join-is_empty n (m ∷ ns) = append_cons (to_string n)
  where
    append_cons : (xs : Bytes) → is_empty (xs ++ b'.' ∷ join (m ∷ ns)) ≡ false
    append_cons [] = refl
    append_cons (x ∷ xs) = refl

module _ (width : ℕ) (wide : 2 ^ 31 ≤ 2 ^ (width - 1)) where
  read_back : (n : ℕ) → n < 2 ^ 31 → to_int (strtol width (to_string n)) ≡ pos n
  unfolding to_string ten_to read_digits
  read_back n h =
      ap to_int (
        strtol_digits width (to_string n) (to_string-digits n) (to_string-is_empty n)
        ∙ ap pos
            (bounded (read_digits 0 (to_string n)) (read_digits-digits_onto 10 n [] (omega arith))))
      ∙ to_int_small n h
    where
      bounded : (k : ℕ) → k ≡ n → min k (2 ^ (width - 1) - 1) ≡ n
      bounded k e = ground arith

  split_join :
      (ns : List ℕ)
      → all (λ n. ltb n (2 ^ 31)) ns ≡ true
      → split_dots width [] (join ns) ≡ map pos ns
  unfolding join split_dots
  split_join [] h = refl
  split_join (n ∷ []) h =
      split_last width [] (to_string n) (to_string-digits n) (to_string-is_empty n)
      ∙ ap (◌∷ []) (read_back n (ground arith))
  split_join (n ∷ m ∷ ns) h =
      split_piece width [] (to_string n) (join (m ∷ ns)) (to_string-digits n) (join-is_empty m ns)
      ∙ rw (read_back n (ground arith)) (ap (pos n ∷◌) (split_join (m ∷ ns) (ground arith)))

  -- A version of numbers below 2 ^ 31, written with dots between them, is read back as these numbers,
  -- if a `long` is at least as wide as an `int`.
  pub split_versions-join :
      (ns : List ℕ)
      → all (λ n. ltb n (2 ^ 31)) ns ≡ true
      → split_versions width (join ns) ≡ map pos ns
  unfolding split_versions
  split_versions-join ns h =
      split_from-split_dots width (join ns) 0 0 [] (join ns) refl refl ∙ split_join ns h
