-- ===== src/Tests/Starts.antt =====
-- The theorems of the start workflow at concrete data.
use kagen.Prelude.{ℕ, suc, String, true, false, none, some, [], ◌∷◌, ◌⊎◌, ◌≡◌, refl}
use kagen.Prelude.Text.{itoa, trim_space}
use kagen.Prelude.Int.{pos}
use kagen.Errors.{Err, message, step_error, class_of, error_text}
use kagen.Errors.Exec.{ok, err, Exec}
use kagen.Config.{default_config}
use kagen.Agent.{AgentType}
use kagen.Git.{Repository}
use kagen.Session.{Time, AgentSession, CreateAgentSessionParams}
use kagen.Diagnostics.{Recorder}
use kagen.Diagnostics.Recording.{Host, new_recorder, indexed, add_metadata}
use kagen.Prelude.Maps.{insert}
use kagen.Workflow.Session.{SessionStore, create_persisted_kagen_session}
use kagen.Workflow.Session.Attach.{AttachDependencies}
use kagen.Workflow.Session.Start.{
  StartDependencies, start, start_steps, start_stored, attach_unless,
}
use kagen.Workflow.Session.Start.Laws.{start_detached, start_steps-ready}
use kagen.Workflow.Session.Start.Failures.{start_stored-failed}
use kagen.Tests.Data.{starting_summary}

-- The world counts how often the clock has been read.
abbrev host : Host ℕ
host = record { now = λ w. (suc w, suc w); reporter = none; sprintf = λ format args. format }

abbrev created_agent : AgentSession
created_agent = record {
  id = "a1";
  kagen_session_uid = "u1";
  agent_type = "codex";
  name = "";
  working_mode = "shared_workspace";
  branch = "";
  state_path = "/home/kagen/.codex/a1";
  created_at = 1;
  last_used_at = 1;
}

abbrev session_store : SessionStore ℕ
session_store = record {
  close = λ w. (ok tt, w);
  create_kagen_session = λ p w. (ok starting_summary.session, w);
  create_agent_session = λ p w. (ok created_agent, w);
  get_summary = λ id w. (ok (some starting_summary), w);
  find_most_recent_ready = λ path w. (ok none, w);
  update_kagen_session_status = λ id status w. (ok tt, w);
  record_attach = λ id agent at w. (ok tt, w);
}

abbrev repo : Repository
repo = record { path = "/repo"; current_branch = "main"; head_sha = "abc" }

abbrev shared : AttachDependencies ℕ
shared = record {
  load_config = λ w. (ok default_config, w);
  discover_repository = λ w. (ok repo, w);
  ensure_runtime = λ cfg w. (ok "colima", w);
  resolve_requested_agent = λ explicit cfg w. (ok "codex", w);
  show_selected_agent = λ cfg agent w. w;
  run_runtime_preflight = none;
  validate_proxy_policy = λ kube r cfg agent w. (ok tt, w);
  launch_agent_runtime = λ r kube agent w. (ok tt, w);
  prepare_agent_state = λ r kube agent session w. (ok tt, w);
  attach_agent = λ r kube agent session w. (ok tt, w);
  open_session_store = λ w. (ok session_store, w);
  failure_artefacts = none;
  new_id = λ w. ("a1", w);
  entries = [];
}

abbrev deps : StartDependencies ℕ (Unit {0})
deps = record {
  shared = shared;
  sha1_hex = λ s. "0a1b2c3d";
  resolve_agent = λ explicit r kube cfg w. (ok "codex", w);
  new_forgejo_service = λ kube w. (ok tt, w);
  ensure_namespace = λ kube r agent w. (ok tt, w);
  ensure_proxy = λ kube r cfg agent w. (ok tt, w);
  ensure_resources = λ kube r cfg agent w. (ok tt, w);
  ensure_forgejo_import = λ forgejo r w. (ok tt, w);
  run_configuration_preflight = none;
}

abbrev recorder : Recorder
recorder = (new_recorder host "start" [] 0).0

-- An attach that fails, which a detached start does not come to.
abbrev refused : Repository → String → AgentType → AgentSession → Exec ℕ (Unit {0})
refused r kube agent session w = (err (message "no terminal" []), w)

start_detached_example :
    start host (record deps { shared = record shared { attach_agent = refused } }) "codex" true 0
    ≡ start host deps "codex" true 0
start_detached_example = start_detached host deps refused "codex" 0

run :
    start_steps host deps session_store starting_summary.session repo "colima" default_config
      "codex" true
      (recorder, 1)
    ≡ (
      ok tt,
      (start_steps host deps session_store starting_summary.session repo "colima" default_config
          "codex" true
          (recorder, 1)).1,
    )
unfolding start_steps
run = refl

-- A detached start, which makes the session ready and attaches to no agent.
start_steps-ready_example :
    (params : CreateAgentSessionParams) × (created : AgentSession) × (attached_at : Time) × (w0 w1
      w2 w3 w4 : ℕ)
    × (r : Recorder) × (session_store.create_agent_session params w0 ≡ (ok created, w1))
    × (params.kagen_session_uid ≡ "u1")
    × (params.agent_type ≡ "codex")
    × (deps.shared.prepare_agent_state repo "colima" "codex" created w1 ≡ (ok tt, w2))
    × (session_store.update_kagen_session_status (pos 1) "ready" w2 ≡ (ok tt, w3))
    × (session_store.record_attach (pos 1) created.id attached_at w3 ≡ (ok tt, w4))
    × (attach_unless host deps true repo "colima" "codex" created (r, (host.now w4).1) ≡ (
      ok tt,
      (start_steps host deps session_store starting_summary.session repo "colima" default_config
          "codex" true
          (recorder, 1)).1,
    ))
start_steps-ready_example =
    start_steps-ready host deps session_store starting_summary.session repo "colima" "codex"
      default_config true (recorder, 1) _ run

abbrev broken : StartDependencies ℕ (Unit {0})
broken = record deps { ensure_proxy = λ kube r cfg agent w. (err (message "no image" []), w) }

abbrev no_proxy : Err
no_proxy = step_error "start" "ensure_proxy" "" (message "no image" [])

-- The trace in which the steps start.
abbrev traced : Recorder
traced = add_metadata "session_uid" "u1" (add_metadata "session_id" (itoa (pos 1)) recorder)

abbrev failed_at : Recorder × ℕ
failed_at =
    (start_steps host broken session_store starting_summary.session repo "colima" default_config
      "codex" false (traced, 2)).1

failed_run :
    start_steps host broken session_store starting_summary.session repo "colima" default_config
      "codex" false
      (traced, 2)
    ≡ (err no_proxy, failed_at)
unfolding start_steps new_recorder class_of indexed insert add_metadata trim_space
failed_run = refl

created_session :
    create_persisted_kagen_session session_store broken.sha1_hex host.now repo 1
    ≡ (ok starting_summary.session, 2)
unfolding create_persisted_kagen_session
created_session = refl

start_stored-failed_example :
    let marked = (session_store.update_kagen_session_status (pos 1) "failed" failed_at.1).0 in
    let result =
      (start_stored host broken repo "colima" default_config "codex" false session_store
        (recorder, 1)).0 in
    ((marked ≡ ok tt) × (result ≡ err no_proxy))
    ⊎ ((update : Err) × (marked ≡ err update)
        × (result
            ≡ err (
                message "%v (failed to mark session %d failed: %v)" (
                  error_text host.sprintf no_proxy
                  ∷ itoa (pos 1)
                  ∷ error_text host.sprintf update
                  ∷ []))))
start_stored-failed_example =
    start_stored-failed host broken session_store starting_summary.session repo "colima"
      default_config "codex" false no_proxy recorder failed_at.0 1 2 failed_at.1 created_session
      failed_run refl
