-- ===== src/Update/Notice.antt =====
-- src/UpdateChecker.h: what the module prints and schedules when the latest version was fetched.
use mathlib.Core.List.{map}
use gwsockets.Prelude.{
  ℕ, ◌≤◌, ◌-◌, ◌^◌, ◌≡◌, ◌⊎◌, inl, inr, refl, Bool, true, false, not, ◌==◌, ltb, List, [], ◌∷◌,
  ◌++◌, Bytes, codes, all, Bool-cases, to_string, digits_onto, if◌then◌else◌,
}
use gwsockets.Update.{pos, less_int, compare_lists, compare_versions}
use gwsockets.Update.Print.{join, split_versions-join}

-- The functions that `runInTimer` is given.
pub data Timed : Type 0 where
  prints_outdated_version checks_version : Timed

-- One call of `printMessage`.
pub record Message : Type 0 where
  pub text : Bytes
  pub red : ℕ
  pub green : ℕ
  pub blue : ℕ

pub record Effects : Type 0 where
  pub printed : List Message
  pub timers : List (ℕ × Timed)

abbrev pub module_version : Bytes
module_version = codes "1.3.0"

abbrev module_name : Bytes
module_name = codes "GWSockets"

abbrev module_release_url : Bytes
module_release_url = codes "https://github.com/FredyH/GWSockets/releases"

-- Whether the game has the table `timer` and its function `Simple`.
abbrev pub run_in_timer : Bool → Bool → ℕ → Timed → List (ℕ × Timed)
run_in_timer has_timer has_simple delay func =
    if not has_timer then [] else if not has_simple then [] else (delay, func) ∷ []

unfoldable pub print_outdated_version : Bool → Bool → Effects
print_outdated_version has_timer has_simple = record {
  printed =
      record {
        text = codes "Your server is using an outdated version of " ++ (module_name ++ codes "\n");
        red = 255;
        green = 0;
        blue = 0;
      }
      ∷ record {
        text = codes "Download the latest version here:\n";
        red = 255;
        green = 0;
        blue = 0;
      }
      ∷ record { text = module_release_url ++ codes "\n"; red = 86; green = 156; blue = 214 }
      ∷ [];
  timers = run_in_timer has_timer has_simple 300 prints_outdated_version;
}

unfoldable pub fetch_failed : Effects
fetch_failed = record {
  printed =
      record {
        text = codes "Failed to retrieve latest version of " ++ (module_name ++ codes "\n");
        red = 255;
        green = 0;
        blue = 0;
      }
      ∷ [];
  timers = [];
}

unfoldable pub latest_version : Effects
latest_version = record {
  printed =
      record {
        text = codes "Your server is using the latest version of " ++ (module_name ++ codes "\n");
        red = 0;
        green = 255;
        blue = 0;
      }
      ∷ [];
  timers = [];
}

unfoldable pub fetch_successful : ℕ → Bool → Bool → ℕ → Bytes → Effects
fetch_successful width has_timer has_simple http_code version =
    if not (http_code == 200)
    then fetch_failed
    else if less_int (compare_versions width module_version version) (pos 0)
    then print_outdated_version has_timer has_simple
    else latest_version

unfoldable pub do_version_check : Bool → Bool → List (ℕ × Timed)
do_version_check has_timer has_simple = run_in_timer has_timer has_simple 5 checks_version

abbrev pub this_version : List ℕ
this_version = 1 ∷ 3 ∷ 0 ∷ []

this_version-join : join this_version ≡ module_version
unfolding join to_string digits_onto
this_version-join = refl

-- If the fetched file holds a version of numbers below 2 ^ 31, written with dots between them, then
-- the module announces a new version if 1, 3, 0 compares as less than these numbers, and says that it
-- is the latest version otherwise; a `long` is at least as wide as an `int` here.
pub fetch_successful_lem :
    (width : ℕ) (has_timer has_simple : Bool) (ns : List ℕ)
    → 2 ^ 31 ≤ 2 ^ (width - 1)
    → all (λ n. ltb n (2 ^ 31)) ns ≡ true
    → ((fetch_successful width has_timer has_simple 200 (join ns)
          ≡ print_outdated_version has_timer has_simple)
        × (less_int (compare_lists (map pos this_version) (map pos ns)) (pos 0) ≡ true))
      ⊎ ((fetch_successful width has_timer has_simple 200 (join ns) ≡ latest_version)
          × (less_int (compare_lists (map pos this_version) (map pos ns)) (pos 0) ≡ false))
unfolding fetch_successful compare_versions
fetch_successful_lem width has_timer has_simple ns wide small =
    rw
      (
        ← this_version-join,
        split_versions-join width wide this_version refl,
        split_versions-join width wide ns small,
      )
      (elim (Bool-cases (less_int (compare_lists (map pos this_version) (map pos ns)) (pos 0))) [
        | inl e ↦ inl (rw e refl, e)
        | inr e ↦ inr (rw e refl, e)
      ])
