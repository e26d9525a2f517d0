-- ===== src/Tests/Traces.antt =====
-- The theorems of the recorder and of the workflows at concrete data.
use kagen.Prelude.{ℕ, suc, String, true, ◌&&◌, ◌||◌, not, ◌≡◌, refl, none, some, List, [], ◌∷◌}
use kagen.Prelude.Int.{pos}
use kagen.Errors.{Err, message}
use kagen.Errors.Exec.{ok, err, Exec}
use kagen.Config.{default_config}
use kagen.Git.{Repository}
use kagen.Git.Commands.{GitProcess, succeeded as git_succeeded}
use kagen.Diagnostics.{Recorder}
use kagen.Diagnostics.Recording.{Host, new_recorder, run_step}
use kagen.Diagnostics.Recording.Indices.{
  IsIndexed, KeepsIndices, new_recorder-IsIndexed, run_step-IsIndexed,
}
use kagen.Workflow.Pull.{PullDependencies, validate_pull_refs}
use kagen.Workflow.Pull.Laws.{ReadsRefs, succeeds, same_commit, at_commit, validate_pull_refs_iff}
use kagen.Workflow.Session.{SessionStore, resolve_attach_summary}
use kagen.Workflow.Session.Attach.{AttachDependencies, attach_stored}
use kagen.Workflow.Session.Attach.Laws.{attach_stored-refuses}
use kagen.Tests.Data.{starting_summary}

-- The world counts how often the clock has been read.
abbrev host : Host ℕ
host = record { now = λ w. (suc w, suc w); reporter = none; sprintf = λ format args. format }

abbrev planned_names : List String
planned_names = "ensure_runtime" ∷ "attach_agent" ∷ []

abbrev recorder : Recorder
recorder = (new_recorder host "attach" planned_names 0).0

-- A step that fails.
abbrev failing : ℕ → Exec (Recorder × ℕ) (Unit {0})
failing i state = (err (message "no runtime" []), state)

failing-KeepsIndices : KeepsIndices failing
failing-KeepsIndices i r w h = h

run_step-IsIndexed_example :
    IsIndexed
      (run_step host "attach_agent" failing (recorder, 1)).1.0.indices
      (run_step host "attach_agent" failing (recorder, 1)).1.0.current.steps
run_step-IsIndexed_example =
    run_step-IsIndexed host "attach_agent" failing recorder 1 failing-KeepsIndices
      (new_recorder-IsIndexed host "attach" planned_names 0)

abbrev repo : Repository
repo = record { path = "/repo"; current_branch = "main"; head_sha = "abc" }

-- A git that has every ref at the commit "abc".
abbrev git : GitProcess (Unit {0})
git = record {
  command = λ dir env args w. (("abc", none), w);
  cancelled = λ w. none;
  environ = [];
  base64 = λ s. s;
}

git-ReadsRefs : ReadsRefs git "/repo" tt (λ ref. some "abc") (message "missing" [])
git-ReadsRefs = record { verifies = λ ref. refl; parses = λ ref. refl }

validate_pull_refs_iff_example :
    (succeeds (validate_pull_refs git repo "kagen/kagen/main" "kagen/main" "abc" tt).0 ≡ (
      true && (not true || same_commit (some "abc") (some "abc") || at_commit (some "abc") "abc")))
    × ((validate_pull_refs git repo "kagen/kagen/main" "kagen/main" "abc" tt).1 ≡ tt)
validate_pull_refs_iff_example =
    validate_pull_refs_iff git repo tt (λ ref. some "abc") (message "missing" []) git-ReadsRefs
      "kagen/kagen/main" "kagen/main" "abc" refl

abbrev pull_deps : PullDependencies (Unit {0})
pull_deps = record {
  discover_repository = λ w. (ok repo, w);
  load_config = λ w. (ok default_config, w);
  ensure_runtime = λ cfg w. (ok "colima", w);
  new_forgejo_service = λ kube w. (ok (λ r v. (ok tt, v)), w);
}

-- A store whose only session is still starting.
abbrev session_store : SessionStore ℕ
session_store = record {
  close = λ w. (ok tt, w);
  create_kagen_session = λ p w. (err (message "no" []), w);
  create_agent_session = λ p w. (err (message "no" []), w);
  get_summary = λ id w. (ok (some starting_summary), w);
  find_most_recent_ready = λ path w. (ok none, w);
  update_kagen_session_status = λ id status w. (ok tt, w);
  record_attach = λ id agent at w. (ok tt, w);
}

abbrev attach_deps : AttachDependencies ℕ
attach_deps = record {
  load_config = λ w. (ok default_config, w);
  discover_repository = λ w. (ok repo, w);
  ensure_runtime = λ cfg w. (ok "colima", w);
  resolve_requested_agent = λ explicit cfg w. (ok "codex", w);
  show_selected_agent = λ cfg agent w. w;
  run_runtime_preflight = none;
  validate_proxy_policy = λ kube r cfg agent w. (ok tt, w);
  launch_agent_runtime = λ r kube agent w. (ok tt, w);
  prepare_agent_state = λ r kube agent session w. (ok tt, w);
  attach_agent = λ r kube agent session w. (ok tt, w);
  open_session_store = λ w. (ok session_store, w);
  failure_artefacts = none;
  new_id = λ w. ("a1", w);
  entries = [];
}

resolved :
    resolve_attach_summary session_store attach_deps.discover_repository (pos 1) true "codex" 1
    ≡ (ok starting_summary, 1)
unfolding resolve_attach_summary
resolved = refl

attach_stored-refuses_example :
    (e : Err) × (attach_stored host attach_deps
        (pos 1)
        true
        default_config
        "codex"
        session_store
        (recorder, 1)
      ≡ (err e, (recorder, 1)))
attach_stored-refuses_example =
    attach_stored-refuses host attach_deps (pos 1) true default_config "codex" session_store
      recorder 1 1 starting_summary resolved refl
