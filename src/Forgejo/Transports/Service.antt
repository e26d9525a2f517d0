-- ===== src/Forgejo/Transports/Service.antt =====
-- The port forwards of internal/forgejo/service.go: those of the sessions of a review.
use kagen.Prelude.{
  ℕ, zero, suc, String, Bool, true, false, Option, none, some, List, [], ◌∷◌, ◌+◌, ◌≡◌, refl, ◌∙◌,
}
use kagen.Prelude.Int.{ℤ, pos}
use kagen.Prelude.Maps.{Map}
use kagen.Prelude.Text.{itoa, ◌+s◌}
use kagen.Errors.Exec.{Result, ok, err, Exec, pure, ◌>>◌}
use kagen.Git.{Repository, BasicAuth, kagen_branch}
use kagen.Git.Commands.{GitProcess, fetch_url, remote_ref_sha, git_command_context_with_auth}
use kagen.Forgejo.{
  Forge, ReviewSession, answered, unless_ready, credentials_from, credentials, try_api, wait_tries,
  wait_for_api, open_transport, start_review_session, with_transport, forgejo_namespace,
}
use kagen.Forgejo.Review.{
  differs, remote_branch_sha, compare_base, has_new_commits, repo_has_new_commits, fetch_refs,
  fetch_review_refs,
}
use kagen.Forgejo.Transports.{
  Keeps, gain, bind-Keeps, bind-Opens, or_wrap-Opens, Counts, stopping-Opens, closing_session-Keeps,
}

module _ {W F : Type 0} {forge : Forge W F} {g : GitProcess W} {live : W → ℕ}
    (counts : Counts forge g live) where
  pub credentials-Keeps : (namespace : String) → Keeps live (credentials forge namespace)
  unfolding credentials credentials_from
  credentials-Keeps namespace w = go forge.get_secret refl
    where
      go :
          (o : Option (String → String → Exec W (Map String)))
          → forge.get_secret ≡ o
          → live (credentials_from forge o namespace w).1 ≡ live w
      go none _ = refl
      go (some get) same = counts.on_secret get same namespace "forgejo-bootstrap-auth" w

  try_api-Keeps : (url : String) → Keeps live (try_api forge url)
  unfolding try_api
  try_api-Keeps url = bind-Keeps live forge.context_error _ counts.on_context λ u.
      bind-Keeps live _ _ (counts.on_request "GET" url)
        λ v w. go (forge.get_status url w) ∙ counts.on_get url w
    where
      go : (o : Result ℕ × W) → live (answered forge o).1 ≡ live o.1
      go (ok status, w) = refl
      go (err e, w) = refl

  unless_ready-Keeps :
      (later : Exec W (Unit {0}))
      → Keeps live later
      → (ready : Bool) → Keeps live (unless_ready forge later ready)
  unless_ready-Keeps later keeps true w = refl
  unless_ready-Keeps later keeps false w = keeps w

  wait_tries-Keeps : (tries : ℕ) (port : ℤ) → Keeps live (wait_tries forge tries port)
  unfolding wait_tries
  wait_tries-Keeps zero port w = refl
  wait_tries-Keeps (suc tries) port w =
      let later = forge.sleep 500 >> wait_tries forge tries port in
      bind-Keeps live (try_api forge ("http://127.0.0.1:" +s itoa port +s "/api/v1/version"))
        (unless_ready forge later) (try_api-Keeps _)
        (unless_ready-Keeps later (
          bind-Keeps live (forge.sleep 500) (λ u. wait_tries forge tries port) (counts.on_sleep 500)
            λ u. wait_tries-Keeps tries port))
        w

  pub wait_for_api-Keeps : (port : ℤ) → Keeps live (wait_for_api forge port)
  unfolding wait_for_api
  wait_for_api-Keeps = wait_tries-Keeps 30

  -- A review session that starts holds one port forward more than were open, and one that does not
  -- leaves as many open as there were.
  pub start_review_session-opens :
      (sha1_hex : String → String) (repo : Repository) (w : W)
      → live (start_review_session forge sha1_hex repo w).1
        ≡ gain (start_review_session forge sha1_hex repo w).0 + live w
  unfolding start_review_session open_transport
  start_review_session-opens sha1_hex repo =
      bind-Opens live _ _ (credentials-Keeps (forgejo_namespace sha1_hex repo)) λ auth.
        stopping-Opens counts _ _ _
          (or_wrap-Opens live _ _
            (counts.on_start (forgejo_namespace sha1_hex repo) "svc/forgejo" (pos 0) (pos 3000)))
          λ f. wait_for_api-Keeps (forge.local_port f)

  pub with_auth-Keeps :
      (dir : String) (auth : Option BasicAuth) (args : List String)
      → Keeps live (git_command_context_with_auth g dir auth args)
  unfolding git_command_context_with_auth
  with_auth-Keeps dir auth args w = counts.on_command dir _ args w

  remote_branch_sha-Keeps :
      (session : ReviewSession F) (repo : Repository) (branch : String)
      → Keeps live (remote_branch_sha g session repo branch)
  unfolding remote_branch_sha remote_ref_sha
  remote_branch_sha-Keeps session repo branch =
      bind-Keeps live _ _
        (with_auth-Keeps repo.path (some session.auth)
          ("ls-remote" ∷ session.repo_url ∷ ("refs/heads/" +s branch) ∷ []))
        λ out w. refl

  compare_base-Keeps :
      (session : ReviewSession F) (repo : Repository) (sha : Option String)
      → Keeps live (compare_base g session repo sha)
  unfolding compare_base
  compare_base-Keeps session repo none w = refl
  compare_base-Keeps session repo (some sha) w =
      bind-Keeps live (remote_branch_sha g session repo repo.current_branch)
        (λ base. pure (differs repo sha base))
        (remote_branch_sha-Keeps session repo repo.current_branch) (λ base v. refl) w

  pub has_new_commits-Keeps :
      (session : ReviewSession F) (repo : Repository) → Keeps live (has_new_commits g session repo)
  unfolding has_new_commits
  has_new_commits-Keeps session repo =
      bind-Keeps live (remote_branch_sha g session repo (kagen_branch repo))
        (compare_base g session repo) (remote_branch_sha-Keeps session repo (kagen_branch repo))
        (compare_base-Keeps session repo)

  -- Asking whether a review has new commits, and fetching its refs, leave as many port forwards open
  -- as there were, whatever they come back with.
  pub review-transports :
      (sha1_hex : String → String) (repo : Repository) (w : W)
      → (live (repo_has_new_commits forge g sha1_hex repo w).1 ≡ live w)
        × (live (fetch_review_refs forge g sha1_hex repo w).1 ≡ live w)
  unfolding repo_has_new_commits fetch_review_refs with_transport fetch_refs fetch_url
  review-transports sha1_hex repo w = (
    closing_session-Keeps counts _ _ (start_review_session-opens sha1_hex repo)
        (λ s. has_new_commits-Keeps s repo) w,
    closing_session-Keeps counts _ _ (start_review_session-opens sha1_hex repo)
        (λ s.
          bind-Keeps live _ _
            (with_auth-Keeps repo.path (some s.auth)
              ("fetch" ∷ "--prune" ∷ s.repo_url ∷ "refs/heads/*:refs/remotes/kagen/*" ∷ []))
            λ out v. refl)
        w,
  )
