-- ===== src/Update.antt =====
-- src/UpdateChecker.h: the comparison of version numbers, and what the module says after it has fetched
-- the latest one. `width` is the number of bits of a `long`: 64 or 32.
pub mod Order
pub mod Split
pub mod Print
pub mod Notice
mod Tests
use gwsockets.Prelude.{
  ℕ, zero, suc, ◌+◌, ◌-◌, ◌*◌, ◌%◌, ◌^◌, Bool, true, false, not, ◌&&◌, ◌||◌, ◌==◌, ltb, leb, List,
  [], ◌∷◌, ◌++◌, Bytes, codes, length, drop, take, is_empty, if◌then◌else◌,
}

pub data ℤ : Type 0 where
  pos negsuc : ℕ → ℤ

-- Minus a natural number.
abbrev pub neg : ℕ → ℤ
neg zero = pos 0
neg (suc n) = negsuc n

abbrev pub same_int : ℤ → ℤ → Bool
same_int (pos a) (pos b) = a == b
same_int (negsuc a) (negsuc b) = a == b
same_int _ _ = false

abbrev pub less_int : ℤ → ℤ → Bool
less_int (pos a) (pos b) = ltb a b
less_int (pos a) (negsuc b) = false
less_int (negsuc a) (pos b) = true
less_int (negsuc a) (negsuc b) = ltb b a

abbrev pub min : ℕ → ℕ → ℕ
min a b = if ltb a b then a else b

-- `isspace` and `isdigit` of the C locale.
abbrev pub is_space : ℕ → Bool
is_space c = c == 0x20 || (leb 9 c && leb c 13)

abbrev pub is_digit : ℕ → Bool
is_digit c = leb b'0' c && leb c b'9'

unfoldable pub skip_spaces : Bytes → Bytes
skip_spaces [] = []
skip_spaces (c ∷ rest) = let later = skip_spaces rest in if is_space c then later else c ∷ rest

-- The digits at the front, after a number that was read.
unfoldable pub read_digits : ℕ → Bytes → ℕ
read_digits n [] = n
read_digits n (c ∷ rest) =
    let more = read_digits (n * 10 + (c - b'0')) rest in if is_digit c then more else n

-- With the bounds of a `long`.
abbrev positive : ℕ → Bytes → ℤ
positive width digits = pos (min (read_digits 0 digits) (2 ^ (width - 1) - 1))

abbrev negative : ℕ → Bytes → ℤ
negative width digits = neg (min (read_digits 0 digits) (2 ^ (width - 1)))

abbrev read_signed : ℕ → Bytes → ℤ
read_signed width [] = pos 0
read_signed width (c ∷ rest) =
    if c == b'-'
    then negative width rest
    else if c == b'+'
    then positive width rest
    else positive width (c ∷ rest)

-- `strtol` in base 10.
unfoldable pub strtol : ℕ → Bytes → ℤ
unfolding skip_spaces read_digits
strtol width str = read_signed width (skip_spaces str)

-- A `long` is converted to an `int` of 32 bits.
unfoldable pub to_int : ℤ → ℤ
to_int (pos n) = let r = n % 2 ^ 32 in if ltb r (2 ^ 31) then pos r else negsuc (2 ^ 32 - 1 - r)
to_int (negsuc n) = let r = n % 2 ^ 32 in if ltb r (2 ^ 31) then negsuc r else pos (2 ^ 32 - 1 - r)

-- The loop of `splitVersions` from position `i`, where `rest` is what follows it. Its second branch
-- tests again whether the position is the last one.
unfoldable pub split_from : ℕ → Bytes → ℕ → ℕ → Bytes → List ℤ
split_from width version start i [] = []
split_from width version start i (c ∷ rest) =
    let last = is_empty rest in
    let text = drop start version in
    let part = if last then text else take (i - start) text in
    let after = split_from width version (i + 1) (i + 1) rest in
    let on = split_from width version start (i + 1) rest in
    if c == b'.' || last
    then to_int (strtol width part) ∷ after
    else if last
    then to_int (strtol width text) ∷ []
    else on

unfoldable pub split_versions : ℕ → Bytes → List ℤ
split_versions width version = split_from width version 0 0 version

-- The element at a position, or 0.
unfoldable pub at : List ℤ → ℕ → ℤ
at [] i = pos 0
at (x ∷ xs) zero = x
at (x ∷ xs) (suc i) = at xs i

-- The loop of `compareVersions` from position `i`, `n` rounds of it.
unfoldable pub compare_from : ℕ → ℕ → List ℤ → List ℤ → ℤ
compare_from zero i left right = pos 0
compare_from (suc n) i left right =
    let later = compare_from n (i + 1) left right in
    let l = at left i in
    let r = at right i in
    if not (same_int l r) then (if less_int l r then negsuc 0 else pos 1) else later

abbrev pub max : ℕ → ℕ → ℕ
max a b = if ltb a b then b else a

unfoldable pub compare_lists : List ℤ → List ℤ → ℤ
compare_lists left right = compare_from (max (length left) (length right)) 0 left right

unfoldable pub compare_versions : ℕ → Bytes → Bytes → ℤ
compare_versions width left right =
    compare_lists (split_versions width left) (split_versions width right)
