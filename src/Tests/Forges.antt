-- ===== src/Tests/Forges.antt =====
-- The theorems of the forge at a world that is the number of its port forwards.
use kagen.Prelude.{ℕ, ◌+◌, ◌-◌, String, Option, none, [], ◌∷◌, ◌≡◌, refl, false}
use kagen.Prelude.Int.{pos}
use kagen.Errors.{Err}
use kagen.Config.{default_config}
use kagen.Errors.Exec.{ok}
use kagen.Git.{Repository}
use kagen.Git.Commands.{GitProcess}
use kagen.Forgejo.{Forge, ReviewSession, start_review_session}
use kagen.Forgejo.Import.{import_repo}
use kagen.Forgejo.Review.{repo_has_new_commits, fetch_review_refs}
use kagen.Forgejo.Transports.{Counts, gain}
use kagen.Forgejo.Transports.Service.{review-transports, start_review_session-opens}
use kagen.Workflow.Open.{OpenDependencies, interrupted, run}
use kagen.Workflow.Open.Transports.{forgejo_sessions, UsesForge, run-transports}
use kagen.Forgejo.Transports.Imports.{import_repo-transports}

-- A forge that answers at once.
abbrev forge : Forge ℕ (Unit {0})
forge = record {
  start_forward = λ namespace resource local remote w. (ok tt, 1 + w);
  local_port = λ f. pos 40000;
  stop_forward = λ f w. (none, w - 1);
  new_request = λ verb url w. (ok tt, w);
  get_status = λ url w. (ok 200, w);
  post_status = λ url body auth w. (ok 201, w);
  run_in_pod = λ namespace pod args w. (("kagen", none), w);
  list_pods = λ namespace selector w. (ok ("forgejo-0" ∷ []), w);
  get_secret = none;
  is_not_found = λ e. false;
  sleep = λ n w. (ok tt, w);
  context_error = λ w. (ok tt, w);
}

-- A git that answers every command with the commit "abc".
abbrev git : GitProcess ℕ
git = record {
  command = λ dir env args w. (("abc refs/heads/main", none), w);
  cancelled = λ w. none;
  environ = [];
  base64 = λ s. s;
}

forge-Counts : Counts forge git (λ n. n)
forge-Counts = record {
  on_start = λ namespace resource local remote w. refl;
  on_stop = λ f w. refl;
  on_request = λ verb url w. refl;
  on_get = λ url w. refl;
  on_post = λ url body auth w. refl;
  on_run = λ namespace pod args w. refl;
  on_list = λ namespace selector w. refl;
  on_secret = λ get same namespace name w. cc;
  on_sleep = λ n w. refl;
  on_context = λ w. refl;
  on_command = λ dir env args w. refl;
}

abbrev repo : Repository
repo = record { path = "/repo"; current_branch = "main"; head_sha = "abc" }

abbrev hash : String → String
hash path = "0123456789abcdef"

start_review_session-opens_example :
    (start_review_session forge hash repo 3).1 ≡ gain (start_review_session forge hash repo 3).0 + 3
start_review_session-opens_example = start_review_session-opens forge-Counts hash repo 3

review-transports_example :
    ((repo_has_new_commits forge git hash repo 3).1 ≡ 3)
    × ((fetch_review_refs forge git hash repo 3).1 ≡ 3)
review-transports_example = review-transports forge-Counts hash repo 3

import_repo-transports_example : (import_repo forge (λ format args. format) hash git repo 3).1 ≡ 3
import_repo-transports_example =
    import_repo-transports forge-Counts (λ format args. format) hash repo 3

-- A review that the user interrupts.
abbrev deps : OpenDependencies ℕ (ReviewSession (Unit {0}))
deps = record {
  discover_repository = λ w. (ok repo, w);
  load_config = λ w. (ok default_config, w);
  ensure_runtime = λ cfg w. (ok "colima", w);
  new_forgejo_service = λ kube_ctx w. (ok (start_review_session forge hash), w);
  open_browser = λ url w. (ok tt, w);
  first_end = λ s w. (interrupted none, w);
}

abbrev wait_forward : Unit {0} → ℕ → Option Err × ℕ
wait_forward f w = (none, w)

deps-UsesForge : UsesForge deps forge hash wait_forward (λ n. n)
deps-UsesForge = record {
  on_load = λ w. refl;
  on_discover = λ w. refl;
  on_runtime = λ cfg w. refl;
  connect = λ kube_ctx w. (ok tt, w);
  on_connect = λ kube_ctx w. refl;
  service = λ kube_ctx w. refl;
  on_browser = λ url w. refl;
  on_end = λ s w. refl;
  on_wait = λ f w. refl;
}

run-transports_example : (run (forgejo_sessions forge git (λ s. s) wait_forward) deps 3).1 ≡ 3
run-transports_example = run-transports forge-Counts deps-UsesForge (λ s. s) 3
