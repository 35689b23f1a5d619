-- ===== src/Update/Tests.antt =====
-- src/UpdateChecker.h: runs, and the theorems at concrete inputs.
use gwsockets.Prelude.{◌<◌, ℕ, Bytes, ◌≢◌, true, arith, ◌≡◌, refl, codes, [], ◌∷◌}
use gwsockets.Update.Order.{opposite, compare_versions_order}
use gwsockets.Update.Split.{split_dots, split_from-split_dots}
use gwsockets.Update.Print.{join, split_versions-join}
use gwsockets.Update.{
  less_int, pos, negsuc, split_versions, compare_versions, compare_lists, compare_from, at,
  split_from, strtol, to_int, read_digits, skip_spaces,
}

split_run : split_versions 64 (codes "1.3.-2.x.4.") ≡ pos 1 ∷ pos 3 ∷ negsuc 1 ∷ pos 0 ∷ pos 4 ∷ []
unfolding split_versions split_from strtol to_int read_digits skip_spaces
split_run = refl

compare_run : compare_versions 64 (codes "1.3.0") (codes "1.12") ≡ negsuc 0
unfolding compare_versions compare_lists compare_from at split_versions split_from strtol to_int
    read_digits skip_spaces
compare_run = refl

not_newer : compare_versions 64 (codes "1.3.0") (codes "1.12") ≢ pos 1
not_newer h = absurd (ground (arith, compare_run))

nor_that : compare_versions 64 (codes "1.12") (codes "2") ≢ pos 1
unfolding compare_versions compare_lists compare_from at split_versions split_from strtol to_int
    read_digits skip_spaces
nor_that h = absurd (ground arith)

compare_versions_order_example :
    ((left right : Bytes) (i : ℕ)
      → ((k : ℕ) → k < i → at (split_versions 64 left) k ≡ at (split_versions 64 right) k)
      → less_int (at (split_versions 64 left) i) (at (split_versions 64 right) i) ≡ true
      → compare_versions 64 left right ≡ negsuc 0)
    × ((left right : Bytes)
        → compare_versions 64 right left ≡ opposite (compare_versions 64 left right))
    × ((first second third : Bytes)
        → compare_versions 64 first second ≢ pos 1
        → compare_versions 64 second third ≢ pos 1
        → compare_versions 64 first third ≢ pos 1)
    × ((left right : Bytes)
        → compare_versions 64 left right ≡ pos 0
        → (i : ℕ) → at (split_versions 64 left) i ≡ at (split_versions 64 right) i)
compare_versions_order_example = compare_versions_order 64

-- Not newer twice.
order_run : compare_versions 64 (codes "1.3.0") (codes "2") ≢ pos 1
order_run =
    (compare_versions_order 64).2 (codes "1.3.0") (codes "1.12") (codes "2") not_newer nor_that

same_version : compare_versions 64 (codes "1.3") (codes "1.3.0") ≡ pos 0
unfolding compare_versions compare_lists compare_from at split_versions split_from strtol to_int
    read_digits skip_spaces
same_version = refl

third_number : at (split_versions 64 (codes "1.3")) 2 ≡ at (split_versions 64 (codes "1.3.0")) 2
third_number = (compare_versions_order 64).3 (codes "1.3") (codes "1.3.0") same_version 2

split_versions-join_example :
    split_versions 64 (join (10 ∷ 0 ∷ 255 ∷ [])) ≡ pos 10 ∷ pos 0 ∷ pos 255 ∷ []
split_versions-join_example = split_versions-join 64 (omega arith) (10 ∷ 0 ∷ 255 ∷ []) refl

split_from-split_dots_example :
    split_from 64 (codes "12.34") 3 4 (codes "4") ≡ split_dots 64 (codes "3") (codes "4")
split_from-split_dots_example =
    split_from-split_dots 64 (codes "12.34") 3 4 (codes "3") (codes "4") refl refl
