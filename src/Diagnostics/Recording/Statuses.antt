-- ===== src/Diagnostics/Recording/Statuses.antt =====
-- What RunStep, internal/diagnostics/operation.go, does to the statuses.
use kagen.Prelude.{ℕ, ◌≡◌, ◌⊎◌, String, none, some, List, [], ◌∷◌, ◌++◌}
use kagen.Prelude.Lists.{set, length, get_elem?}
use kagen.Prelude.Maps.{lookup}
use kagen.Errors.{step_error, class_of}
use kagen.Diagnostics.Recording.Indices.{names}
use kagen.Errors.Exec.{Result, ok, err, Exec}
use kagen.Diagnostics.{StepStatus, succeeded, failed, StepRecord, Recorder}

abbrev pub statuses : List StepRecord → List StepStatus
statuses [] = []
statuses (s ∷ ss) = s.status ∷ statuses ss

-- The status that the result of its body gives a step.
abbrev pub status_of : {A : Type 0} → Result A → StepStatus
status_of (ok u) = succeeded
status_of (err e) = failed

-- The status of the operation after a step.
abbrev pub after_step : {A : Type 0} → Result A → StepStatus → StepStatus
after_step (ok u) status = status
after_step (err e) status = failed

-- The body of a step changes neither a status nor the operation's name.
abbrev pub KeepsStatuses : {W A : Type 0} → (ℕ → Exec (Recorder × W) A) → Type 0
KeepsStatuses {W = W} body =
    (i : ℕ) (r : Recorder) (w : W)
    → (statuses (body i (r, w)).1.0.current.steps ≡ statuses r.current.steps)
      × (((body i (r, w)).1.0.current.status ≡ r.current.status)
          × ((body i (r, w)).1.0.current.name ≡ r.current.name))

-- The step at the index is one of the name that was there, and gets the status, or it is a new one at the
-- end with that status; the others keep theirs.
abbrev pub IsGiven : String → ℕ → Recorder → StepStatus → List StepStatus → Type 0
IsGiven name i r status after =
    ((get_elem? (names r.current.steps) i ≡ some name)
      × (after ≡ set (statuses r.current.steps) i status))
    ⊎ ((lookup name r.indices ≡ none)
        × (i ≡ length r.current.steps)
        × (after ≡ statuses r.current.steps ++ status ∷ []))

-- What RunStep gives back: the value of the body, or its error as a StepError.
abbrev pub outcome : {A : Type 0} → String → String → Result A → Result A
outcome operation name (ok u) = ok u
outcome operation name (err e) = err (step_error operation name (class_of e) e)
