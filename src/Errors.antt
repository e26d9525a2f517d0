-- ===== src/Errors.antt =====
-- internal/errors/errors.go and the error values of the other packages: Go's `error` as a tree, in which
-- `errors.As` and `errors.Is` walk down the chain of `Unwrap`. A nil error is `none`. What
-- `fmt.Errorf` makes is kept as its format and arguments, which `fmt` renders; the cause that `%w` takes
-- is the last argument, so a format with `%w` first is written with `%[n]w`.
pub mod Exec
pub mod Laws
pub mod Inversion
use kagen.Prelude.{
  String, Bool, false, Option, none, some, List, [], ◌∷◌, ◌++◌, ◌==◌, if◌then◌else◌,
}
use kagen.Prelude.Int.{ℤ, pos}
use kagen.Prelude.Text.{trim_space}

pub data Sentinel : Type 0 where
  not_git_repo runtime_unavailable cluster_unhealthy provenance_failed proxy_not_active : Sentinel
  not_implemented already_initialized no_reviewable_changes agent_unknown : Sentinel

-- The text that `errors.New` was given.
unfoldable pub sentinel_text : Sentinel → String
sentinel_text not_git_repo = "current directory is not a git repository"
sentinel_text runtime_unavailable = "colima/k3s runtime is not available"
sentinel_text cluster_unhealthy = "cluster is not in a healthy state"
sentinel_text provenance_failed = "failed to record import provenance"
sentinel_text proxy_not_active = "proxy enforcement is not active; failing closed"
sentinel_text not_implemented = "not implemented"
sentinel_text already_initialized = "project is already initialized"
sentinel_text no_reviewable_changes = "no reviewable changes found"
sentinel_text agent_unknown = "unknown agent type"

-- Two of these error values are the same error exactly when their texts are.
abbrev pub same_sentinel : Sentinel → Sentinel → Bool
unfolding sentinel_text
same_sentinel s t = sentinel_text s == sentinel_text t

-- A failure class is its text; the empty text is no class.
abbrev pub FailureClass : Type 0
FailureClass = String

abbrev pub image_error : FailureClass
image_error = "image_error"

abbrev pub workspace_bootstrap_error : FailureClass
workspace_bootstrap_error = "workspace_bootstrap_error"

abbrev pub proxy_error : FailureClass
proxy_error = "proxy_error"

abbrev pub agent_binary_error : FailureClass
agent_binary_error = "agent_binary_error"

abbrev pub agent_home_error : FailureClass
agent_home_error = "agent_home_error"

abbrev pub attach_error : FailureClass
attach_error = "attach_error"

-- `classified` is `ClassifiedError`, and `unclassified_cause` the one with a nil cause; `exit` is
-- `ExitError`, and `step_error` the `StepError` of package diagnostics.
pub data Err : Type 0 where
  sentinel : Sentinel → Err
  message : (format : String) (args : List String) → Err
  wrapped : (format : String) (args : List String) (cause : Err) → Err
  classified : (class : FailureClass) (summary : String) (cause : Err) → Err
  bare_classified : (class : FailureClass) (summary : String) → Err
  exit : (cause : Err) (code : ℤ) → Err
  step_error : (operation step : String) (class : FailureClass) (cause : Err) → Err

-- `Unwrap`
unfoldable pub unwrap : Err → Option Err
unwrap (sentinel s) = none
unwrap (message f a) = none
unwrap (wrapped f a e) = some e
unwrap (classified c s e) = some e
unwrap (bare_classified c s) = none
unwrap (exit e c) = some e
unwrap (step_error o s c e) = some e

-- The text of a `ClassifiedError`, whose cause is given by its own text.
classified_text : (String → List String → String) → String → String → String
classified_text sprintf summary cause =
    if trim_space summary == "" then cause else sprintf "%s: %v" (trim_space summary ∷ cause ∷ [])

-- `Error`, given the `fmt.Sprintf` that renders a format with its arguments; the cause of a wrapped
-- error is its last argument
unfoldable pub error_text : (String → List String → String) → Err → String
unfolding sentinel_text classified_text
error_text sprintf (sentinel s) = sentinel_text s
error_text sprintf (message f a) = sprintf f a
error_text sprintf (wrapped f a e) = sprintf f (a ++ error_text sprintf e ∷ [])
error_text sprintf (classified c s e) = classified_text sprintf s (error_text sprintf e)
error_text sprintf (bare_classified c s) = trim_space s
error_text sprintf (exit e c) = error_text sprintf e
error_text sprintf (step_error o s c e) =
    sprintf "%s failed at step %s: %v" (o ∷ s ∷ error_text sprintf e ∷ [])

unfoldable pub with_failure_class : FailureClass → String → Option Err → Option Err
with_failure_class class summary none =
    if class == "" then none else some (bare_classified class summary)
with_failure_class class summary (some err) =
    if class == "" then some err else some (classified class summary err)

-- The first `ClassifiedError` on the chain, by `errors.As`.
unfoldable pub class_of : Err → FailureClass
class_of (sentinel s) = ""
class_of (message f a) = ""
class_of (wrapped f a e) = class_of e
class_of (classified c s e) = c
class_of (bare_classified c s) = c
class_of (exit e c) = class_of e
class_of (step_error o s c e) = class_of e

unfoldable pub classify : Option Err → FailureClass
unfolding class_of
classify none = ""
classify (some e) = class_of e

-- `errors.Is` with a sentinel
unfoldable pub is_error : Err → Sentinel → Bool
is_error (sentinel s) t = same_sentinel s t
is_error (message f a) t = false
is_error (wrapped f a e) t = is_error e t
is_error (classified c s e) t = is_error e t
is_error (bare_classified c s) t = false
is_error (exit e c) t = is_error e t
is_error (step_error o s c e) t = is_error e t

unfoldable pub with_exit_code : Err → ℤ → Err
with_exit_code err code = exit err code

-- The code of the first `ExitError` on the chain, or else 1.
exit_code : Err → ℤ
exit_code (sentinel s) = pos 1
exit_code (message f a) = pos 1
exit_code (wrapped f a e) = exit_code e
exit_code (classified c s e) = exit_code e
exit_code (bare_classified c s) = pos 1
exit_code (exit e c) = c
exit_code (step_error o s c e) = exit_code e

-- `none` means that the function returns; otherwise the error goes to standard error, and the process
-- ends with the code.
unfoldable pub fail_fast : Option Err → Option (Err × ℤ)
unfolding exit_code
fail_fast none = none
fail_fast (some e) = some (e, exit_code e)
