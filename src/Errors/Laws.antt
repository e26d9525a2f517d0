-- ===== src/Errors/Laws.antt =====
-- Laws of the error values of internal/errors/errors.go.
use kagen.Prelude.{String, ◌≡◌, refl, Option, none, some, List, [], ◌∷◌, ◌==◌, if◌then◌else◌, arith}
use kagen.Prelude.Int.{ℤ}
use kagen.Errors.{
  Err, wrapped, FailureClass, Sentinel, with_failure_class, classify, class_of, is_error,
  with_exit_code, exit_code, fail_fast,
}

-- The error under any number of `fmt.Errorf` with `%w`, the first one outermost.
abbrev pub wraps : List (String × List String) → Err → Err
wraps [] e = e
wraps ((format, args) ∷ layers) e = wrapped format args (wraps layers e)

-- The class given to WithFailureClass is the one that Classify finds, whatever class the cause has; an
-- empty class leaves the class of the cause.
pub classify-with_failure_class :
    (class : FailureClass) (summary : String) (err : Option Err)
    → classify (with_failure_class class summary err)
      ≡ (if class == "" then classify err else class)
unfolding classify with_failure_class
classify-with_failure_class class summary none = ground arith
classify-with_failure_class class summary (some e) = ground arith

pub class_of-wraps :
    (layers : List (String × List String)) (e : Err) → class_of (wraps layers e) ≡ class_of e
unfolding class_of
class_of-wraps [] e = refl
class_of-wraps (l ∷ layers) e = class_of-wraps layers e

pub is_error-wraps :
    (layers : List (String × List String)) (e : Err) (s : Sentinel)
    → is_error (wraps layers e) s ≡ is_error e s
unfolding is_error
is_error-wraps [] e s = refl
is_error-wraps (l ∷ layers) e s = is_error-wraps layers e s

exit_code-wraps :
    (layers : List (String × List String)) (e : Err) (code : ℤ)
    → exit_code (wraps layers (with_exit_code e code)) ≡ code
unfolding exit_code with_exit_code
exit_code-wraps [] e code = refl
exit_code-wraps (l ∷ layers) e code = exit_code-wraps layers e code

-- FailFast ends the process with the code that WithExitCode gave, and prints the whole error, however
-- often the error has been wrapped since.
pub fail_fast-with_exit_code :
    (layers : List (String × List String)) (e : Err) (code : ℤ)
    → fail_fast (some (wraps layers (with_exit_code e code)))
      ≡ some (wraps layers (with_exit_code e code), code)
unfolding fail_fast
fail_fast-with_exit_code layers e code = rw (exit_code-wraps layers e code)
