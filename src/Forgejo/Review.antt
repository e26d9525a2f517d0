-- ===== src/Forgejo/Review.antt =====
-- internal/forgejo/service.go: the refs of a review.
use kagen.Prelude.{String, Bool, false, not, Option, none, some, [], ◌∷◌, ◌==◌}
use kagen.Prelude.Text.{◌+s◌}
use kagen.Errors.{wrapped}
use kagen.Errors.Exec.{Exec, pure, ◌>>=◌, ◌or_wrap◌}
use kagen.Git.{Repository, kagen_branch}
use kagen.Git.Commands.{GitProcess, remote_ref_sha, fetch_url}
use kagen.Forgejo.{Forge, ReviewSession, with_transport}

-- Whether the review branch is at another commit than the base, which is the local head where the
-- forge has no base branch.
abbrev pub differs : Repository → String → Option String → Bool
differs repo review_sha none = not (review_sha == repo.head_sha)
differs repo review_sha (some base_sha) = not (review_sha == base_sha)

module _ {W F : Type 0} (g : GitProcess W) where
  unfoldable pub remote_branch_sha : ReviewSession F → Repository → String → Exec W (Option String)
  unfolding remote_ref_sha
  remote_branch_sha session repo branch =
      let ref = "refs/heads/" +s branch in
      remote_ref_sha g repo session.repo_url (some session.auth) ref
      or_wrap wrapped "resolving remote ref %s: %w" (ref ∷ [])

  unfoldable pub compare_base : ReviewSession F → Repository → Option String → Exec W Bool
  unfolding remote_branch_sha
  compare_base session repo none = pure false
  compare_base session repo (some review_sha) =
      remote_branch_sha session repo repo.current_branch >>= λ base.
      pure (differs repo review_sha base)

  -- `ReviewSession.HasNewCommits`
  unfoldable pub has_new_commits : ReviewSession F → Repository → Exec W Bool
  unfolding remote_branch_sha compare_base
  has_new_commits session repo =
      remote_branch_sha session repo (kagen_branch repo) >>= compare_base session repo

module _ {W F : Type 0} (forge : Forge W F) (g : GitProcess W) (sha1_hex : String → String) where
  -- `ForgejoService.HasNewCommits`
  unfoldable pub repo_has_new_commits : Repository → Exec W Bool
  unfolding with_transport has_new_commits
  repo_has_new_commits repo =
      with_transport forge sha1_hex repo (λ session. has_new_commits g session repo)

  unfoldable pub fetch_refs : Repository → ReviewSession F → Exec W (Unit {0})
  unfolding fetch_url
  fetch_refs repo session =
      fetch_url g repo session.repo_url (some session.auth)
        ("refs/heads/*:refs/remotes/kagen/*" ∷ [])
      or_wrap wrapped "fetching forgejo review refs: %w" []

  -- `FetchReviewRefs`
  unfoldable pub fetch_review_refs : Repository → Exec W (Unit {0})
  unfolding with_transport fetch_refs
  fetch_review_refs repo = with_transport forge sha1_hex repo (fetch_refs repo)
