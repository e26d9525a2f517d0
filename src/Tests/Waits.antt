-- ===== src/Tests/Waits.antt =====
-- The reconciliation of the forge in a world that is the time in milliseconds: its objects are there, its
-- deployment is ready after four seconds, and the context ends after ten.
use kagen.Prelude.{
  ℕ, sym, ◌≤◌, ◌+◌, ltb, String, true, false, none, some, [], ◌≡◌, refl, arith, if◌then◌else◌,
}
use kagen.Errors.{message}
use kagen.Errors.Exec.{ok, err}
use kagen.Git.{Repository}
use kagen.Cluster.Api.{Resource}
use kagen.Forgejo.{forgejo_namespace}
use kagen.Forgejo.Reconcile.{
  ForgeApi, ForgeDeployment, bootstrap_secret, forge_claim, forge_deployment, forge_service,
  create_once, update_secret, ensure_bootstrap_secret, look, wait_ready, ensure_objects,
  ensure_repo,
}
use kagen.Forgejo.Reconcile.Laws.{IsSeen, ensure_repo-IsSeen, ComesUp, wait_ready-ComesUp}

abbrev there : {A : Type 0} → A → Resource ℕ A
there a = record {
  create = λ namespace b w. (err (message "exists" []), w);
  get = λ namespace name w. (ok a, w);
  update = λ namespace b w. (ok tt, w);
  delete = λ namespace name w. (ok tt, w);
}

abbrev deployment_at : ℕ → ForgeDeployment
unfolding forge_deployment
deployment_at w = record {
  deployment = record {
    meta = (forge_deployment "kagen-1" "1").deployment.meta;
    replicas = 1;
    selector = [];
    template = (forge_deployment "kagen-1" "1").deployment.template;
    ready_replicas = if ltb w 4000 then 0 else 1;
  };
  run_as = (1000, 1000);
  fs_group = 1000;
}

abbrev api : ForgeApi ℕ
unfolding bootstrap_secret forge_claim forge_deployment forge_service deployment_at
api = record {
  secrets = there (bootstrap_secret "kagen-1");
  claims = there (forge_claim "kagen-1" "1");
  deployments = record {
    create = λ namespace d w. (err (message "exists" []), w);
    get = λ namespace name w. (ok (deployment_at w), w);
    update = λ namespace d w. (ok tt, w);
    delete = λ namespace name w. (ok tt, w);
  };
  services = there (forge_service "kagen-1" "1");
  is_already_exists = λ e. true;
  is_not_found = λ e. false;
  context_error = λ w. (if ltb w 10000 then none else some (message "deadline exceeded" []), w);
  sleep = λ n w. (none, w + n);
}

abbrev repo : Repository
repo = record { path = "/repo"; current_branch = "main"; head_sha = "abc" }

abbrev hash : String → String
hash path = "0123456789abcdef"

reconciled : ensure_repo api 6 hash repo 0 ≡ (some (ok tt), 4000)
unfolding ensure_repo ensure_objects ensure_bootstrap_secret update_secret create_once wait_ready
    look api deployment_at
reconciled = refl

ensure_repo-IsSeen_example : IsSeen api (forgejo_namespace hash repo) 4000
ensure_repo-IsSeen_example = ensure_repo-IsSeen api 6 hash repo 0 4000 reconciled

-- The same server under a context that does not end.
abbrev unending : ForgeApi ℕ
unending = record api { context_error = λ w. (none, w) }

found_ready : (w : ℕ) → 4000 ≤ w → ltb 0 ((deployment_at w).deployment.ready_replicas) ≡ true
unfolding deployment_at
found_ready w late = ground (arith, late)

comes_up : ComesUp unending "kagen-1" 4000
unfolding api
comes_up = record {
  time = λ w. w;
  unending = λ w. refl;
  context_forward = λ w. omega arith;
  answers = λ w w' e h. absurd (ground arith);
  ready = λ w w' d h late.
      let same : deployment_at w ≡ d = ground arith in rw (sym same) (found_ready w late);
  get_forward = λ w. omega arith;
  uncut = λ n w. refl;
  sleep_forward = λ n w. omega arith;
}

wait_ready-ComesUp_example : (wait_ready unending 3 "kagen-1" 0).0 ≡ some (ok tt)
wait_ready-ComesUp_example = wait_ready-ComesUp unending "kagen-1" 4000 2 0 comes_up (omega arith)
