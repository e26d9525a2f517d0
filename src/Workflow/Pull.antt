-- ===== src/Workflow/Pull.antt =====
-- internal/workflow/pull.go.
pub mod Laws
use kagen.Prelude.{
  String, Bool, true, false, ◌&&◌, not, Option, none, some, List, [], ◌∷◌, ◌==◌, if◌then◌else◌,
}
use kagen.Errors.{Err, message, wrapped, sentinel, no_reviewable_changes}
use kagen.Errors.Exec.{Result, ok, err, Exec, pure, raise, ◌>>=◌, ◌>>◌, ◌or_wrap◌}
use kagen.Config.{Config}
use kagen.Git.{Repository, kagen_remote_tracking_branch, remote_tracking_branch}
use kagen.Git.Commands.{
  GitProcess, discover, has_uncommitted_changes, commit, has_ref, resolve_ref, merge_ff_only,
}

-- A forgejo service is what it does to fetch the review refs.
pub record PullDependencies (W : Type 0) : Type 0 where
  pub discover_repository : Exec W Repository
  pub load_config : Exec W Config
  pub ensure_runtime : Config → Exec W String
  pub new_forgejo_service : String → Exec W (Repository → Exec W (Unit {0}))

module _ {W : Type 0} (g : GitProcess W) where
  -- The SHA that HEAD has, where none is known.
  unfoldable pub local_base : Repository → String → Exec W String
  unfolding resolve_ref
  local_base repo sha =
      if sha == ""
      then resolve_ref g repo "HEAD" or_wrap wrapped "resolving HEAD: %w" []
      else pure sha

  abbrev pub compare_refs : String → String → String → String → String → Exec W (Unit {0})
  compare_refs review_ref base_ref review_sha base_sha local_sha =
      if not (base_sha == review_sha) && not (base_sha == local_sha)
      then raise (
          message
            "unexpected remote branch state: %s advanced independently of %s; refusing to merge ambiguous review state"
            (base_ref ∷ review_ref ∷ []))
      else pure tt

  -- Both refs are there.
  unfoldable pub validate_both : Repository → String → String → String → Exec W (Unit {0})
  unfolding local_base
  validate_both repo review_ref base_ref local_base_sha = do
    review_sha ←
        resolve_ref g repo review_ref
        or_wrap wrapped "resolving review ref %s: %w" (review_ref ∷ [])
    base_sha ←
        resolve_ref g repo base_ref or_wrap wrapped "resolving base ref %s: %w" (base_ref ∷ [])
    local_sha ← local_base repo local_base_sha
    compare_refs review_ref base_ref review_sha base_sha local_sha

  unfoldable pub no_review_ref : Bool → String → String → Err
  no_review_ref true review_ref base_ref =
      wrapped
        "%[3]w: expected reviewed changes on %[1]s but only found %[2]s; agent work may have been pushed to the canonical branch"
        (review_ref ∷ base_ref ∷ []) (sentinel no_reviewable_changes)
  no_review_ref false review_ref base_ref =
      wrapped "%[2]w: remote branch %[1]s not found" (review_ref ∷ [])
        (sentinel no_reviewable_changes)

  unfoldable pub validate_pull_refs : Repository → String → String → String → Exec W (Unit {0})
  unfolding validate_both no_review_ref has_ref
  validate_pull_refs repo review_ref base_ref local_base_sha w =
      let (review, w1) = has_ref g repo review_ref w in
      let (base, w2) = has_ref g repo base_ref w1 in
      if review
      then if base then validate_both repo review_ref base_ref local_base_sha w2 else (ok tt, w2)
      else (err (no_review_ref base review_ref base_ref), w2)

  commit_work : Repository → Exec W Repository
  unfolding commit discover
  commit_work repo = do
    commit g repo "kagen: WIP local changes before pull"
        or_wrap wrapped "creating WIP commit: %w" []
    discover g repo.path or_wrap wrapped "refreshing repository after WIP commit: %w" []

  -- A commit of what is not committed yet, and the repository after it.
  unfoldable pub protect_work : Repository → Exec W Repository
  unfolding has_uncommitted_changes commit_work
  protect_work repo w =
      let (dirty, w1) = has_uncommitted_changes g repo w in
      if dirty then commit_work repo w1 else (ok repo, w1)

  -- The last part of `Run`, from the fetched refs on.
  unfoldable pub merge_reviewed : Repository → String → Exec W (Unit {0})
  unfolding validate_pull_refs merge_ff_only
  merge_reviewed repo local_base_sha = do
    validate_pull_refs repo (kagen_remote_tracking_branch repo "kagen")
        (remote_tracking_branch repo "kagen") local_base_sha
    merge_ff_only g repo (kagen_remote_tracking_branch repo "kagen")
        or_wrap wrapped "fast-forwarding changes: %w" []

  -- `Run`
  unfoldable pub pull : PullDependencies W → Exec W (Unit {0})
  unfolding protect_work merge_reviewed
  pull deps = do
    cfg ← deps.load_config
    repo ← deps.discover_repository
    current ← protect_work repo
    kube_ctx ← deps.ensure_runtime cfg
    fetch_review_refs ← deps.new_forgejo_service kube_ctx
    fetch_review_refs current or_wrap wrapped "fetching from forgejo: %w" []
    merge_reviewed current repo.head_sha
