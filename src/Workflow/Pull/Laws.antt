-- ===== src/Workflow/Pull/Laws.antt =====
-- Laws of internal/workflow/pull.go.
use kagen.Prelude.{
  String, Bool, true, false, ◌≡◌, ◌&&◌, ◌||◌, not, Option, none, some, [], ◌∷◌, arith, ◌==◌,
}
use kagen.Prelude.Text.{trim_space}
use kagen.Prelude.Maps.{is_some}
use kagen.Errors.{Err, wrapped}
use kagen.Errors.Exec.{Result, ok, err, Exec}
use kagen.Git.{Repository}
use kagen.Git.Commands.{
  GitProcess, has_ref, resolve_ref, git_command, succeeded, answer, command_error,
}
use kagen.Workflow.Pull.{validate_pull_refs, validate_both, local_base, no_review_ref}

-- What git answers to a ref.
abbrev pub answer_of : Err → Option String → String × Option Err
answer_of missing none = ("", some missing)
answer_of missing (some out) = (out, none)

-- In the world w, git's `rev-parse` reads the refs of a table and changes nothing.
pub record ReadsRefs {W : Type 0} (g : GitProcess W) (path : String) (w : W)
    (refs : String → Option String) (missing : Err) : Type 0 where
  pub verifies :
      (ref : String)
      → g.command path none ("rev-parse" ∷ "--verify" ∷ "--quiet" ∷ ref ∷ []) w
        ≡ (answer_of missing (refs ref), w)
  pub parses :
      (ref : String)
      → g.command path none ("rev-parse" ∷ ref ∷ []) w ≡ (answer_of missing (refs ref), w)

abbrev pub succeeds : Result (Unit {0}) → Bool
succeeds (ok u) = true
succeeds (err e) = false

-- Two refs that are both there, at the same commit.
abbrev pub same_commit : Option String → Option String → Bool
same_commit (some a) (some b) = trim_space a == trim_space b
same_commit _ _ = false

abbrev pub at_commit : Option String → String → Bool
at_commit none sha = false
at_commit (some a) sha = trim_space a == sha

module _ {W : Type 0} (g : GitProcess W) (repo : Repository) (w : W) (refs : String → Option String)
    (missing : Err) (reads : ReadsRefs g repo.path w refs missing) where
  has_ref-reads : (ref : String) → has_ref g repo ref w ≡ (is_some (refs ref), w)
  unfolding has_ref git_command succeeded answer
  has_ref-reads ref = ground (arith, reads.verifies ref)

  -- The commit of a ref of the table.
  commit_of : String → Option String → Result String
  commit_of ref none = err (
      wrapped "git rev-parse %s: %w" (ref ∷ []) (command_error ("rev-parse" ∷ ref ∷ []) "" missing))
  commit_of ref (some out) = ok (trim_space out)

  resolve_ref-reads : (ref : String) → resolve_ref g repo ref w ≡ (commit_of ref (refs ref), w)
  unfolding resolve_ref git_command commit_of answer
  resolve_ref-reads ref = ground (arith, reads.parses ref)

  -- ValidatePullRefs, where git reads the refs of a table and a base commit is given, accepts exactly when
  -- the review ref is there and the base ref is missing, at the same commit as the review ref, or at the
  -- local base; and it changes nothing.
  pub validate_pull_refs_iff :
      (review base local : String)
      → (local == "") ≡ false
      → (succeeds (validate_pull_refs g repo review base local w).0 ≡ (
          is_some (refs review)
          && (not (is_some (refs base))
              || same_commit (refs base) (refs review)
              || at_commit (refs base) local)))
        × ((validate_pull_refs g repo review base local w).1 ≡ w)
  unfolding validate_pull_refs validate_both local_base no_review_ref commit_of
  validate_pull_refs_iff review base local h = ground (
    arith,
    has_ref-reads review,
    has_ref-reads base,
    resolve_ref-reads review,
    resolve_ref-reads base,
  )
