-- ===== src/Git/Commands.antt =====
-- The git commands of internal/git/repo.go.
use kagen.Prelude.{
  String, Bool, true, false, Option, none, some, List, [], ◌∷◌, ◌++◌, ◌==◌, not, if◌then◌else◌,
}
use kagen.Prelude.Text.{trim_space, fields, join, ◌+s◌}
use kagen.Errors.{Err, message, wrapped, sentinel, not_git_repo}
use kagen.Errors.Exec.{Result, ok, err, Exec, pure, raise, ◌>>=◌, ◌>>◌, ◌or_wrap◌}
use kagen.Git.{Repository, BasicAuth}

-- `command dir env args` runs git in the directory; where `env` is `none` the process inherits the
-- environment. It answers with the combined output and the error of the process. `cancelled` is
-- `ctx.Err()` after a command that failed.
pub record GitProcess (W : Type 0) : Type 0 where
  pub command : String → Option (List String) → List String → W → (String × Option Err) × W
  pub cancelled : W → Option Err
  pub environ : List String
  pub base64 : String → String

unfoldable pub git_env_with_auth : {W : Type 0} → GitProcess W → Option BasicAuth → List String
git_env_with_auth g none = g.environ ++ ("GIT_TERMINAL_PROMPT=0" ∷ [])
git_env_with_auth g (some auth) =
    let env = g.environ ++ ("GIT_TERMINAL_PROMPT=0" ∷ []) in
    if auth.username == ""
    then env
    else env
      ++ ("GIT_CONFIG_COUNT=1"
          ∷ "GIT_CONFIG_KEY_0=http.extraHeader"
          ∷ ("GIT_CONFIG_VALUE_0=Authorization: Basic "
              +s g.base64 (auth.username +s ":" +s auth.password))
          ∷ [])

-- What a process that answered with an output and an error gives back.
unfoldable pub answer : (String → Err → Err) → String × Option Err → Result String
answer wrap (out, none) = ok out
answer wrap (out, some e) = err (wrap out e)

abbrev pub command_error : List String → String → Err → Err
command_error args out = wrapped "git %s: %s: %w" (join args " " ∷ out ∷ [])

-- A command under a context: if the context is done, its error is the error.
context_error : Option Err → List String → String → Err → Err
context_error none args out e = command_error args out e
context_error (some cancel) args out e = cancel

unfoldable pub succeeded : Result String → Bool
succeeded (ok out) = true
succeeded (err e) = false

dirty : Result String → Bool
dirty (ok out) = not (trim_space out == "")
dirty (err e) = true

sha_of : String → List String → Result (Option String)
sha_of line (sha ∷ ref ∷ more) = ok (some sha)
sha_of line _ = err (message "parsing git ls-remote output %q" (line ∷ []))

-- The SHA of a line of `git ls-remote`; `none` where the output is blank.
parse_remote_ref : String → Result (Option String)
unfolding sha_of
parse_remote_ref line = if line == "" then ok none else sha_of line (fields line)

module _ {W : Type 0} (g : GitProcess W) where
  unfoldable pub git_command : String → List String → Exec W String
  unfolding answer
  git_command dir args w =
      let (a, w') = g.command dir none args w in (answer (command_error args) a, w')

  unfoldable pub git_command_context : String → List String → Exec W String
  unfolding answer context_error
  git_command_context dir args w =
      let (a, w') = g.command dir none args w in
      (answer (context_error (g.cancelled w') args) a, w')

  unfoldable pub git_command_context_with_auth :
      String → Option BasicAuth → List String → Exec W String
  unfolding answer context_error git_env_with_auth
  git_command_context_with_auth dir auth args w =
      let (a, w') = g.command dir (some (git_env_with_auth g auth)) args w in
      (answer (context_error (g.cancelled w') args) a, w')

  git_top_level : String → Exec W String
  unfolding git_command
  git_top_level start_path = do
    out ←
        git_command start_path ("rev-parse" ∷ "--show-toplevel" ∷ [])
        or_wrap (λ _. sentinel not_git_repo)
    pure (trim_space out)

  current_branch : String → Exec W String
  unfolding git_command
  current_branch root = do
    out ← git_command root ("rev-parse" ∷ "--abbrev-ref" ∷ "HEAD" ∷ [])
    pure (trim_space out)

  head_sha : String → Exec W String
  unfolding git_command
  head_sha root = do out ← git_command root ("rev-parse" ∷ "HEAD" ∷ []); pure (trim_space out)

  unfoldable pub discover : String → Exec W Repository
  unfolding git_top_level current_branch head_sha
  discover start_path = do
    root ← git_top_level start_path
    branch ← current_branch root or_wrap wrapped "detecting current branch: %w" []
    sha ← head_sha root or_wrap wrapped "detecting HEAD SHA: %w" []
    pure (record { path = root; current_branch = branch; head_sha = sha })

  unfoldable pub push_refspecs : Repository → String → List String → Exec W Unit
  unfolding git_command_context
  push_refspecs r remote [] = raise (message "git push %s: no refspecs provided" (remote ∷ []))
  push_refspecs r remote (s ∷ more) = do
    git_command_context r.path ("push" ∷ "-f" ∷ remote ∷ s ∷ more)
        or_wrap wrapped "git push %s %s: %w" (remote ∷ join (s ∷ more) " " ∷ [])
    pure tt

  unfoldable pub push : Repository → String → String → Exec W Unit
  unfolding push_refspecs
  push r remote ref = push_refspecs r remote (ref ∷ [])

  unfoldable pub push_url : Repository → String → Option BasicAuth → List String → Exec W Unit
  unfolding git_command_context_with_auth
  push_url r url auth [] = raise (message "git push %s: no refspecs provided" (url ∷ []))
  push_url r url auth (s ∷ more) = do
    git_command_context_with_auth r.path auth ("push" ∷ "-f" ∷ url ∷ s ∷ more)
        or_wrap wrapped "git push %s %s: %w" (url ∷ join (s ∷ more) " " ∷ [])
    pure tt

  unfoldable pub resolve_ref : Repository → String → Exec W String
  unfolding git_command
  resolve_ref r ref = do
    out ←
        git_command r.path ("rev-parse" ∷ ref ∷ [])
        or_wrap wrapped "git rev-parse %s: %w" (ref ∷ [])
    pure (trim_space out)

  unfoldable pub has_ref : Repository → String → W → Bool × W
  unfolding git_command succeeded
  has_ref r ref w =
      let (a, w') = git_command r.path ("rev-parse" ∷ "--verify" ∷ "--quiet" ∷ ref ∷ []) w in
      (succeeded a, w')

  unfoldable pub fetch : Repository → String → Exec W Unit
  unfolding git_command_context
  fetch r remote = do
    git_command_context r.path ("fetch" ∷ remote ∷ [])
        or_wrap wrapped "git fetch %s: %w" (remote ∷ [])
    pure tt

  unfoldable pub fetch_url : Repository → String → Option BasicAuth → List String → Exec W Unit
  unfolding git_command_context_with_auth
  fetch_url r url auth [] = raise (message "git fetch %s: no refspecs provided" (url ∷ []))
  fetch_url r url auth (s ∷ more) = do
    git_command_context_with_auth r.path auth ("fetch" ∷ "--prune" ∷ url ∷ s ∷ more)
        or_wrap wrapped "git fetch %s %s: %w" (url ∷ join (s ∷ more) " " ∷ [])
    pure tt

  unfoldable pub remote_ref_sha :
      Repository → String → Option BasicAuth → String → Exec W (Option String)
  unfolding git_command_context_with_auth parse_remote_ref
  remote_ref_sha r url auth ref = do
    out ←
        git_command_context_with_auth r.path auth ("ls-remote" ∷ url ∷ ref ∷ [])
        or_wrap wrapped "git ls-remote %s %s: %w" (url ∷ ref ∷ [])
    λ w. (parse_remote_ref (trim_space out), w)

  unfoldable pub merge : Repository → String → Exec W Unit
  unfolding git_command_context
  merge r ref = do
    git_command_context r.path ("merge" ∷ "--no-edit" ∷ ref ∷ [])
        or_wrap wrapped "git merge %s: %w" (ref ∷ [])
    pure tt

  unfoldable pub merge_ff_only : Repository → String → Exec W Unit
  unfolding git_command_context
  merge_ff_only r ref = do
    git_command_context r.path ("merge" ∷ "--ff-only" ∷ ref ∷ [])
        or_wrap wrapped "git merge --ff-only %s: %w" (ref ∷ [])
    pure tt

  -- A status that cannot be read counts as dirty.
  unfoldable pub has_uncommitted_changes : Repository → W → Bool × W
  unfolding git_command dirty
  has_uncommitted_changes r w =
      let (a, w') = git_command r.path ("status" ∷ "--porcelain" ∷ []) w in (dirty a, w')

  unfoldable pub commit : Repository → String → Exec W Unit
  unfolding git_command
  commit r text = do
    git_command r.path ("add" ∷ "-A" ∷ []) or_wrap wrapped "git add: %w" []
    git_command r.path ("commit" ∷ "-m" ∷ text ∷ []) or_wrap wrapped "git commit: %w" []
    pure tt
