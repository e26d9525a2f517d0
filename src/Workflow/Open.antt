-- ===== src/Workflow/Open.antt =====
-- internal/workflow/open.go: a review in the browser, over a session of type `S`.
pub mod Transports
use kagen.Prelude.{String, Bool, true, false, Option, none, some, List, [], ◌∷◌}
use kagen.Errors.{Err, message, wrapped}
use kagen.Errors.Exec.{Result, ok, err, Exec, pure, raise, ◌>>=◌, ◌>>◌, ◌or_wrap◌}
use kagen.Config.{Config}
use kagen.Git.{Repository}

-- `ReviewSession`, without its channel: which end comes first is of the world.
pub record ReviewSessions (W S : Type 0) : Type 0 where
  pub has_new_commits : S → Repository → Exec W Bool
  pub review_url : S → Repository → String
  pub stop : S → W → Option Err × W
  pub wait : S → W → Option Err × W

-- What ends a review first: `waitForInterrupt`, with what it comes back with, or the transport.
pub data End : Type 0 where
  interrupted : Option Err → End
  transport_done : End

pub record OpenDependencies (W S : Type 0) : Type 0 where
  pub discover_repository : Exec W Repository
  pub load_config : Exec W Config
  pub ensure_runtime : Config → Exec W String
  pub new_forgejo_service : String → Exec W (Repository → Exec W S)
  pub open_browser : String → Exec W (Unit {0})
  pub first_end : S → W → End × W

abbrev pub transport_error : Option Err → Err
transport_error none = message "review transport terminated before shutdown" []
transport_error (some e) = wrapped "review transport terminated: %w" [] e

module _ {W S : Type 0} (sessions : ReviewSessions W S) (deps : OpenDependencies W S) where
  unfoldable pub ended : S → End × W → Result (Unit {0}) × W
  ended session (interrupted none, w) = (ok tt, w)
  ended session (interrupted (some e), w) =
      (err (wrapped "waiting for review session shutdown: %w" [] e), w)
  ended session (transport_done, w) =
      let (e, w1) = sessions.wait session w in (err (transport_error e), w1)

  unfoldable pub review_page : S → Repository → Bool → Exec W (Unit {0})
  unfolding ended
  review_page session repo false = pure tt
  review_page session repo true =
      (deps.open_browser (sessions.review_url session repo)
        or_wrap wrapped "opening browser: %w" [])
      >> λ w. ended session (deps.first_end session w)

  -- What is done over a session.
  unfoldable pub review_over : Repository → S → Exec W (Unit {0})
  unfolding review_page
  review_over repo session =
      (sessions.has_new_commits session repo or_wrap wrapped "checking reviewable changes: %w" [])
      >>= review_page session repo

  -- `defer session.Stop()`
  unfoldable pub then_stop : S → Exec W (Unit {0}) → Exec W (Unit {0})
  then_stop session m w =
      let (result, w1) = m w in let (stopped, w2) = sessions.stop session w1 in (result, w2)

  -- `OpenReview`
  unfoldable pub open_review : Repository → (Repository → Exec W S) → Exec W (Unit {0})
  unfolding review_over then_stop
  open_review repo start_session =
      (start_session repo or_wrap wrapped "starting review session: %w" []) >>= λ session.
      then_stop session (review_over repo session)

  -- `Run`
  unfoldable pub run : Exec W (Unit {0})
  unfolding open_review
  run = do
    cfg ← deps.load_config
    repo ← deps.discover_repository
    kube_ctx ← deps.ensure_runtime cfg
    start_review_session ← deps.new_forgejo_service kube_ctx
    open_review repo start_review_session
