-- ===== src/Workflow/Open/Transports.antt =====
-- internal/workflow/open.go over the sessions of internal/forgejo: the port forwards of a review.
use kagen.Prelude.{ℕ, String, Bool, true, false, Option, none, some, [], ◌≡◌, refl, ◌∙◌}
use kagen.Errors.{Err, wrapped}
use kagen.Errors.Exec.{Result, ok, err, Exec, pure, ◌>>=◌, ◌>>◌, ◌or_wrap◌}
use kagen.Config.{Config}
use kagen.Git.{Repository}
use kagen.Git.Commands.{GitProcess}
use kagen.Forgejo.{Forge, ReviewSession, start_review_session, closing_session, review_url}
use kagen.Forgejo.Review.{has_new_commits}
use kagen.Forgejo.Transports.{Keeps, bind-Keeps, or_wrap-Opens, Counts, closing_session-Keeps}
use kagen.Forgejo.Transports.Service.{start_review_session-opens, has_new_commits-Keeps}
use kagen.Workflow.Open.{
  ReviewSessions, End, interrupted, transport_done, OpenDependencies, ended, review_page,
  review_over, then_stop, open_review, run,
}

-- The sessions of the forge; a wait is that of the port forward.
unfoldable pub forgejo_sessions :
    {W F : Type 0}
    → Forge W F
    → GitProcess W
    → (String → String)
    → (F → W → Option Err × W)
    → ReviewSessions W (ReviewSession F)
forgejo_sessions forge g path_escape wait = record {
  has_new_commits = has_new_commits g;
  review_url = review_url path_escape;
  stop = λ session. forge.stop_forward session.forward;
  wait = λ session. wait session.forward;
}

-- The dependencies neither open nor stop a forward themselves, and the service is that of the forge.
pub record UsesForge {W F : Type 0} (deps : OpenDependencies W (ReviewSession F))
    (forge : Forge W F) (sha1_hex : String → String) (wait : F → W → Option Err × W) (live : W → ℕ)
    : Type 0 where
  pub on_load : Keeps live deps.load_config
  pub on_discover : Keeps live deps.discover_repository
  pub on_runtime : (cfg : Config) → Keeps live (deps.ensure_runtime cfg)
  pub connect : String → Exec W (Unit {0})
  pub on_connect : (kube_ctx : String) → Keeps live (connect kube_ctx)
  pub service :
      (kube_ctx : String) (w : W)
      → deps.new_forgejo_service kube_ctx w
        ≡ (connect kube_ctx >> pure (start_review_session forge sha1_hex)) w
  pub on_browser : (url : String) → Keeps live (deps.open_browser url)
  pub on_end : (s : ReviewSession F) (w : W) → live (deps.first_end s w).1 ≡ live w
  pub on_wait : (f : F) (w : W) → live (wait f w).1 ≡ live w

module _ {W F : Type 0} {forge : Forge W F} {g : GitProcess W} {live : W → ℕ}
    (counts : Counts forge g live) {deps : OpenDependencies W (ReviewSession F)}
    {sha1_hex : String → String} {wait : F → W → Option Err × W}
    (uses : UsesForge deps forge sha1_hex wait live) (path_escape : String → String) where
  ended-Keeps :
      (s : ReviewSession F) (o : End × W)
      → live (ended (forgejo_sessions forge g path_escape wait) deps s o).1 ≡ live o.1
  unfolding ended forgejo_sessions
  ended-Keeps s (interrupted none, w) = refl
  ended-Keeps s (interrupted (some e), w) = refl
  ended-Keeps s (transport_done, w) = uses.on_wait s.forward w

  review_page-Keeps :
      (s : ReviewSession F) (repo : Repository) (commits : Bool)
      → Keeps live (review_page (forgejo_sessions forge g path_escape wait) deps s repo commits)
  unfolding review_page forgejo_sessions
  review_page-Keeps s repo false w = refl
  review_page-Keeps s repo true w =
      bind-Keeps live
        (deps.open_browser (review_url path_escape s repo) or_wrap wrapped "opening browser: %w" [])
        (λ u v. ended (forgejo_sessions forge g path_escape wait) deps s (deps.first_end s v))
        (uses.on_browser _) (λ u v. ended-Keeps s _ ∙ uses.on_end s v) w

  review_over-Keeps :
      (repo : Repository) (s : ReviewSession F)
      → Keeps live (review_over (forgejo_sessions forge g path_escape wait) deps repo s)
  unfolding review_over forgejo_sessions
  review_over-Keeps repo s =
      bind-Keeps live
        (has_new_commits g s repo or_wrap wrapped "checking reviewable changes: %w" [])
        (review_page (forgejo_sessions forge g path_escape wait) deps s repo)
        (has_new_commits-Keeps counts s repo) (review_page-Keeps s repo)

  open_review-Keeps :
      (repo : Repository)
      → Keeps live (
          open_review
            (forgejo_sessions forge g path_escape wait)
            deps
            repo
            (start_review_session forge sha1_hex))
  unfolding open_review then_stop forgejo_sessions closing_session
  open_review-Keeps repo =
      closing_session-Keeps counts _
        (review_over (forgejo_sessions forge g path_escape wait) deps repo)
        (or_wrap-Opens live (start_review_session forge sha1_hex repo) _
          (start_review_session-opens counts sha1_hex repo))
        (review_over-Keeps repo)

  over_service-Keeps :
      (kube_ctx : String) (repo : Repository)
      → Keeps live (
          deps.new_forgejo_service kube_ctx
          >>= open_review (forgejo_sessions forge g path_escape wait) deps repo)
  over_service-Keeps kube_ctx repo w =
      rw (uses.service kube_ctx w) (go (uses.connect kube_ctx w)) ∙ uses.on_connect kube_ctx w
    where
      go :
          (o : Result (Unit {0}) × W)
          → live
              ((((λ v. o) >> pure (start_review_session forge sha1_hex))
                  >>= open_review (forgejo_sessions forge g path_escape wait) deps repo)
                w).1
            ≡ live o.1
      go (ok u, w1) = open_review-Keeps repo w1
      go (err e, w1) = refl

  -- The open workflow leaves as many port forwards open as there were, however it ends: the session of
  -- its review is stopped when there is nothing to review, when the browser does not open, on an
  -- interrupt and when the transport ends by itself.
  pub run-transports :
      (w : W) → live (run (forgejo_sessions forge g path_escape wait) deps w).1 ≡ live w
  unfolding run
  run-transports = bind-Keeps live deps.load_config _ uses.on_load λ cfg.
      bind-Keeps live deps.discover_repository _ uses.on_discover λ repo.
        bind-Keeps live (deps.ensure_runtime cfg)
          (λ kube_ctx.
            deps.new_forgejo_service kube_ctx
            >>= open_review (forgejo_sessions forge g path_escape wait) deps repo)
          (uses.on_runtime cfg) λ kube_ctx. over_service-Keeps kube_ctx repo
