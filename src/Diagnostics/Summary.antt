-- ===== src/Diagnostics/Summary.antt =====
-- internal/diagnostics/operation.go: FormatSummary. Package time's text of a duration is a parameter.
use kagen.Prelude.{String, List, [], ◌∷◌, ◌==◌, if◌then◌else◌}
use kagen.Prelude.Int.{ℤ, pos, leb_ℤ}
use kagen.Prelude.Maps.{Map, keys, lookup_text}
use kagen.Prelude.Sort.{sort}
use kagen.Prelude.Text.{join, ◌+s◌}
use kagen.Diagnostics.{pending, status_text, StepRecord, Operation}

format_parts : Map String → List String → List String
format_parts m [] = []
format_parts m (k ∷ ks) = (k +s ("=" +s lookup_text k m)) ∷ format_parts m ks

unfoldable pub format_metadata : Map String → String
unfolding format_parts
format_metadata [] = ""
format_metadata m = " [" +s (join (format_parts m (sort (keys m))) " " +s "]")

-- `rounded` is the text of a duration rounded to the millisecond.
unfoldable pub format_duration : (ℤ → String) → ℤ → String
format_duration rounded duration = if leb_ℤ duration (pos 0) then "0s" else rounded duration

step_duration : (ℤ → String) → StepRecord → String
unfolding format_duration
step_duration rounded s = elim s.status [
  | pending ↦ ""
  | _ ↦ " (" +s (format_duration rounded s.duration +s ")")
]

abbrev unless_empty : String → String → String
unless_empty value text = if value == "" then "" else text

unfoldable pub format_step : (ℤ → String) → StepRecord → String
unfolding step_duration format_metadata status_text
format_step rounded s =
    ("step " +s (s.name +s (": " +s status_text s.status)))
    +s (step_duration rounded s
        +s (unless_empty s.failure_class (" [" +s (s.failure_class +s "]"))
            +s (unless_empty s.error_summary (": " +s s.error_summary)
                +s format_metadata s.metadata)))

format_steps : (ℤ → String) → List StepRecord → List String
unfolding format_step
format_steps rounded [] = []
format_steps rounded (s ∷ ss) = format_step rounded s ∷ format_steps rounded ss

unfoldable pub format_summary : (ℤ → String) → Operation → List String
unfolding format_duration format_metadata status_text format_steps
format_summary rounded o =
    ("Runtime trace for "
      +s (o.name
          +s (": "
              +s (status_text o.status
                  +s (" ("
                      +s (format_duration rounded o.duration
                          +s (")" +s format_metadata o.metadata)))))))
    ∷ format_steps rounded o.steps
