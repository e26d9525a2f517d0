-- ===== src/Preflight.antt =====
-- internal/preflight/preflight.go: the report of a preflight and its metadata.
pub mod Checks
pub mod Runtime
pub mod Laws
use Prim.Native.Char.{Char, code}
use Prim.Native.String
use kagen.Prelude.{
  ℕ, String, Bool, true, false, ◌&&◌, ◌||◌, not, Option, none, some, List, [], ◌∷◌, ◌==◌, leb,
  nat_eq, if◌then◌else◌,
}
use kagen.Prelude.Int.{pos}
use kagen.Prelude.Lists.{length}
use kagen.Prelude.Maps.{Map, insert}
use kagen.Prelude.Text.{trim_space, to_lower, itoa, ◌+s◌}
use kagen.Errors.{FailureClass}

pub data CheckStatus : Type 0 where
  passed failed : CheckStatus

unfoldable pub check_status_text : CheckStatus → String
check_status_text passed = "passed"
check_status_text failed = "failed"

pub record Check : Type 0 where
  pub name : String
  pub status : CheckStatus
  pub summary : String
  pub failure_class : FailureClass
  pub metadata : Map String

pub record Report : Type 0 where
  pub scope : String
  pub checks : List Check
  pub meta : Map String

unfoldable pub first_failed : List Check → Option Check
first_failed [] = none
first_failed (c ∷ cs) = elim c.status [ failed ↦ some c | passed ↦ first_failed cs ]

-- `FailedCheck`
unfoldable pub failed_check : Report → Option Check
unfolding first_failed
failed_check r = first_failed r.checks

-- One of the characters [a-z0-9].
abbrev is_key_char : ℕ → Bool
is_key_char c = leb 97 c && leb c 122 || leb 48 c && leb c 57

-- Every run of other characters is replaced by "_"; the first argument says whether one is under way.
replace_runs : Bool → String → String
replace_runs within String.[] = ""
replace_runs within (String.◌∷◌ c s) =
    let kept = replace_runs false s in
    let skipped = replace_runs true s in
    if is_key_char (code c) then String.◌∷◌ c kept else if within then skipped else "_" +s skipped

drop_start : String → String
drop_start String.[] = ""
drop_start (String.◌∷◌ c s) = if nat_eq (code c) 95 then drop_start s else String.◌∷◌ c s

drop_end : String → String
drop_end String.[] = ""
drop_end (String.◌∷◌ c s) =
    let r = drop_end s in if nat_eq (code c) 95 && r == "" then "" else String.◌∷◌ c r

unfoldable pub metadata_key : String → String
unfolding replace_runs drop_start drop_end
metadata_key value =
    let key = drop_end (drop_start (replace_runs false (to_lower (trim_space value)))) in
    if key == "" then "value" else key

-- The entries of a map that are not blank, under a prefix.
add_entries : String → Map String → Map String → Map String
unfolding insert metadata_key
add_entries prefix [] m = m
add_entries prefix ((key, value) ∷ more) m =
    let added =
      if trim_space key == "" || trim_space value == ""
      then m
      else insert (prefix +s metadata_key key) value m in
    add_entries prefix more added

add_class : String → FailureClass → Map String → Map String
unfolding insert
add_class key class m = if class == "" then m else insert key class m

add_failed : Option Check → Map String → Map String
unfolding insert add_class check_status_text
add_failed none m = m
add_failed (some c) m = add_class "failure_class" c.failure_class (
    add_class "preflight_failure_class" c.failure_class (
      insert "preflight_failed_check" c.name
        (insert "preflight_status" (check_status_text failed) m)))

add_checks : List Check → Map String → Map String
unfolding insert add_class add_entries metadata_key check_status_text
add_checks [] m = m
add_checks (c ∷ cs) m =
    let key = "preflight_" +s metadata_key c.name in
    add_checks cs (
      add_entries (key +s "_") c.metadata (
        add_class (key +s "_failure_class") c.failure_class
          (insert (key +s "_status") (check_status_text c.status) m)))

-- `Report.Metadata`
unfoldable pub report_metadata : Report → Map String
unfolding insert add_entries add_failed add_checks check_status_text
report_metadata r = add_checks r.checks (
    add_failed (failed_check r) (
      add_entries "preflight_" r.meta (
        insert "preflight_check_count" (itoa (pos (length r.checks))) (
          insert "preflight_status" (check_status_text passed)
            (insert "preflight_scope" r.scope [])))))
