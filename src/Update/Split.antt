-- ===== src/Update/Split.antt =====
-- src/UpdateChecker.h: `splitVersions` against a splitter without positions, and on printed numbers.
use mathlib.Core.List.{append_assoc}
use gwsockets.Prelude.{
  ℕ, zero, suc, ◌+◌, ◌-◌, ◌*◌, ◌/◌, ◌%◌, ◌<◌, ◌≡◌, refl, sym, ap, ◌∙◌, ◌==◌, ltb, List, [], ◌∷◌,
  ◌++◌, inl, inr, Bytes, length, length-append, drop, take, arith, Bool-cases, if◌then◌else◌,
  digits_onto,
}
use gwsockets.Update.{ℤ, read_digits, strtol, to_int, split_from}

-- The numbers between the dots, with the bytes since the last dot; the last byte is never a separator.
unfoldable pub split_dots : ℕ → Bytes → Bytes → List ℤ
split_dots width part [] = []
split_dots width part (c ∷ []) = to_int (strtol width (part ++ c ∷ [])) ∷ []
split_dots width part (c ∷ d ∷ rest) =
    let after = split_dots width [] (d ∷ rest) in
    let on = split_dots width (part ++ c ∷ []) (d ∷ rest) in
    if c == b'.' then to_int (strtol width part) ∷ after else on

drop_nil : (n : ℕ) → drop {A = ℕ} n [] ≡ []
drop_nil zero = refl
drop_nil (suc n) = refl

suc_add : (m n : ℕ) → suc m + n ≡ suc (m + n)
suc_add m n = omega arith

drop_add : (m n : ℕ) (xs : Bytes) → drop (m + n) xs ≡ drop n (drop m xs)
drop_add zero n xs = ap (λ k. drop k xs) (omega arith)
drop_add (suc m) n [] = drop_nil (suc m + n) ∙ sym (drop_nil n)
drop_add (suc m) n (x ∷ xs) = ap (λ k. drop k (x ∷ xs)) (suc_add m n) ∙ drop_add m n xs

drop-append : (xs : Bytes) (y : ℕ) (ys : Bytes) → drop (suc (length xs)) (xs ++ y ∷ ys) ≡ ys
drop-append [] y ys = refl
drop-append (x ∷ xs) y ys = drop-append xs y ys

take-append : (xs ys : Bytes) → take (length xs) (xs ++ ys) ≡ xs
take-append [] ys = refl
take-append (x ∷ xs) ys = ap (x ∷◌) (take-append xs ys)

-- The bytes since the last dot, and what follows them.
taken :
    (start i : ℕ) (part rest : Bytes)
    → i ≡ start + length part
    → take (i - start) (part ++ rest) ≡ part
taken start i part rest at =
    ap (λ k. take k (part ++ rest)) (since start i (length part) at) ∙ take-append part rest
  where
    since : (m n k : ℕ) → n ≡ m + k → n - m ≡ k
    since m n k h = omega arith

left_over :
    (version : Bytes) (start i : ℕ) (part : Bytes) (c : ℕ) (rest : Bytes)
    → drop start version ≡ part ++ c ∷ rest
    → i ≡ start + length part
    → drop (i + 1) version ≡ rest
left_over version start i part c rest e at =
    ap (λ k. drop k version) (after start i (length part) at)
    ∙ (drop_add start (suc (length part)) version
        ∙ (ap (drop (suc (length part))) e ∙ drop-append part c rest))
  where
    after : (m n k : ℕ) → n ≡ m + k → n + 1 ≡ m + suc k
    after m n k h = omega arith

next_position :
    (start i : ℕ) (part : Bytes) (c : ℕ)
    → i ≡ start + length part
    → i + 1 ≡ start + length (part ++ c ∷ [])
next_position start i part c at = omega (arith, length-append part (c ∷ []))

-- From a position at which `start` and `i` delimit the bytes since the last dot, the loop over positions
-- splits at the dots like the splitter without positions.
pub split_from-split_dots :
    (width : ℕ) (version : Bytes) (start i : ℕ) (part rest : Bytes)
    → drop start version ≡ part ++ rest
    → i ≡ start + length part
    → split_from width version start i rest ≡ split_dots width part rest
unfolding split_from split_dots
split_from-split_dots width version start i part [] e at = refl
split_from-split_dots width version start i part (c ∷ []) e at = rw e (ground arith)
split_from-split_dots width version start i part (c ∷ d ∷ rest) e at =
    elim (Bool-cases (c == b'.')) [
      | inl dot ↦
          rw (dot, e, taken start i part (c ∷ d ∷ rest) at)
            (ap (to_int (strtol width part) ∷◌) (
              split_from-split_dots width version (i + 1) (i + 1) [] (d ∷ rest)
                (left_over version start i part c (d ∷ rest) e at) (omega arith)))
      | inr other ↦ rw other (
          split_from-split_dots width version start (i + 1) (part ++ c ∷ []) (d ∷ rest)
            (e ∙ sym (append_assoc part (c ∷ []) (d ∷ rest))) (next_position start i part c at))
    ]

unfoldable pub ten_to : ℕ → ℕ
ten_to zero = 1
ten_to (suc n) = 10 * ten_to n

one_digit :
    (m d : ℕ) (rest : Bytes)
    → d < 10
    → read_digits m ((b'0' + d) ∷ rest) ≡ read_digits (m * 10 + d) rest
unfolding read_digits
one_digit m d rest h = ground arith

pub read_digits-digits_onto :
    (fuel n : ℕ) (rest : Bytes)
    → n < ten_to fuel
    → read_digits 0 (digits_onto fuel n rest) ≡ read_digits n rest
unfolding digits_onto read_digits ten_to
read_digits-digits_onto zero n rest h = ap (λ k. read_digits k rest) (omega arith)
read_digits-digits_onto (suc fuel) n rest h = elim (Bool-cases (ltb n 10)) [
  | inl e ↦ rw e (one_digit 0 n rest (ground arith) ∙ ap (λ k. read_digits k rest) (omega arith))
  | inr e ↦
      rw (e, read_digits-digits_onto fuel (n / 10) ((b'0' + n % 10) ∷ rest) (omega arith))
        (one_digit (n / 10) (n % 10) rest (omega arith)
          ∙ ap (λ k. read_digits k rest) (omega arith))
]
