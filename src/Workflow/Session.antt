-- ===== src/Workflow/Session.antt =====
-- internal/workflow/session.go: what the start and attach workflows share. The session store is the
-- interface `SessionStore` over the world; times, ids and texts are made by the host.
pub mod Attach
pub mod Start
use kagen.Prelude.{
  ℕ, String, Bool, true, false, not, Option, none, some, List, [], ◌∷◌, ◌++◌, ◌==◌, if◌then◌else◌,
}
use kagen.Prelude.Int.{ℤ, pos, ltb_ℤ}
use kagen.Prelude.Maps.{Map, lookup_text}
use kagen.Prelude.Paths.{join_path}
use kagen.Prelude.Text.{itoa, trim_space, ◌+s◌}
use kagen.Errors.{Err, message, wrapped, error_text}
use kagen.Errors.Exec.{Result, ok, err, Exec, pure, raise, ◌>>=◌, ◌>>◌, ◌or_wrap◌, map_err}
use kagen.Agent.{AgentType, claude, codex, open_code, default_home_dir, container_name}
use kagen.Agent.Registry.{Entries, spec_for}
use kagen.Config.{Config}
use kagen.Git.{Repository, repo_id, kagen_branch}
use kagen.Preflight.{Report, report_metadata}
use kagen.Session.{
  Time, KagenSession, AgentSession, Summary, CreateKagenSessionParams, CreateAgentSessionParams,
}
use kagen.Diagnostics.{Operation, Recorder}
use kagen.Diagnostics.Recording.{Host, complete, add_step_metadata_map}

-- The step names.
abbrev pub ensure_runtime_step : String
ensure_runtime_step = "ensure_runtime"

abbrev pub preflight_configuration_step : String
preflight_configuration_step = "preflight_configuration"

abbrev pub ensure_namespace_step : String
ensure_namespace_step = "ensure_namespace"

abbrev pub ensure_proxy_step : String
ensure_proxy_step = "ensure_proxy"

abbrev pub ensure_resources_step : String
ensure_resources_step = "ensure_resources"

abbrev pub forgejo_import_step : String
forgejo_import_step = "forgejo_import"

abbrev pub launch_agent_runtime_step : String
launch_agent_runtime_step = "launch_agent_runtime"

abbrev pub preflight_runtime_step : String
preflight_runtime_step = "preflight_runtime"

abbrev pub validate_proxy_step : String
validate_proxy_step = "validate_proxy_policy"

abbrev pub prepare_agent_state_step : String
prepare_agent_state_step = "prepare_agent_state"

abbrev pub attach_agent_step : String
attach_agent_step = "attach_agent"

pub record SessionStore (W : Type 0) : Type 0 where
  pub close : Exec W (Unit {0})
  pub create_kagen_session : CreateKagenSessionParams → Exec W KagenSession
  pub create_agent_session : CreateAgentSessionParams → Exec W AgentSession
  pub get_summary : ℤ → Exec W (Option Summary)
  pub find_most_recent_ready : String → Exec W (Option Summary)
  pub update_kagen_session_status : ℤ → String → Exec W (Unit {0})
  pub record_attach : ℤ → String → Time → Exec W (Unit {0})

pub record FailureArtefactRequest : Type 0 where
  pub operation : Operation
  pub error : Err
  pub kube_context : String
  pub session_summary : Option Summary

unfoldable pub start_trace_steps : Bool → List String
start_trace_steps detach =
    let steps =
      ensure_runtime_step ∷ preflight_configuration_step ∷ ensure_namespace_step ∷ ensure_proxy_step
      ∷ ensure_resources_step ∷ forgejo_import_step ∷ launch_agent_runtime_step
      ∷ preflight_runtime_step ∷ validate_proxy_step ∷ prepare_agent_state_step ∷ [] in
    if not detach then steps ++ attach_agent_step ∷ [] else steps

unfoldable pub attach_trace_steps : List String
attach_trace_steps =
    ensure_runtime_step ∷ launch_agent_runtime_step ∷ preflight_runtime_step ∷ validate_proxy_step
    ∷ prepare_agent_state_step ∷ attach_agent_step ∷ []

unfoldable pub agent_session_state_path : AgentType → String → String
agent_session_state_path agent_type id =
    if agent_type == codex
    then join_path (default_home_dir ∷ ".codex" ∷ id ∷ [])
    else if agent_type == claude
    then join_path (default_home_dir ∷ ".claude" ∷ id ∷ [])
    else if agent_type == open_code
    then join_path (default_home_dir ∷ ".opencode" ∷ id ∷ [])
    else join_path (default_home_dir ∷ id ∷ [])

unfoldable pub agent_container_name : Entries → AgentType → String
agent_container_name entries agent_type = elim (spec_for entries agent_type) [
  | ok spec ↦ container_name spec
  | err e ↦ ""
]

unfoldable pub repository_from_session : KagenSession → Repository
repository_from_session s = record {
  path = s.repo_path;
  current_branch = s.base_branch;
  head_sha = s.head_sha_at_start;
}

unfoldable pub validate_attach_summary : Summary → AgentType → Option Err
validate_attach_summary summary agent_type =
    if not (summary.session.status == "ready")
    then some (
        message
          "session %d is %s, not ready: choose a ready session with 'kagen list' or start a new one with 'kagen start %s'"
          (itoa (pos summary.session.id) ∷ summary.session.status ∷ agent_type ∷ []))
    else none

abbrev pub require : {A : Type 0} → Err → Option A → Result A
require e none = err e
require e (some a) = ok a

-- The error that comes back where a session is marked failed: the first one, with the text of both
-- where the mark fails too.
abbrev pub mark_error : (String → List String → String) → ℤ → Err → Result (Unit {0}) → Err
mark_error sprintf id e (ok u) = e
mark_error sprintf id e (err update) =
    message "%v (failed to mark session %d failed: %v)"
      (error_text sprintf e ∷ itoa id ∷ error_text sprintf update ∷ [])

module _ {W : Type 0} (store : SessionStore W) where
  unfoldable pub create_persisted_kagen_session :
      (String → String) → (W → Time × W) → Repository → Exec W KagenSession
  create_persisted_kagen_session sha1_hex now repo w =
      let (created, w1) = now w in
      (store.create_kagen_session (record {
        uid = "";
        repo_id = repo_id sha1_hex repo;
        repo_path = repo.path;
        base_branch = repo.current_branch;
        workspace_branch = kagen_branch repo;
        head_sha_at_start = repo.head_sha;
        namespace = "kagen-" +s repo_id sha1_hex repo;
        pod_name = "agent";
        status = "starting";
        created_at = created;
        last_used_at = created;
      })
          or_wrap wrapped "creating persisted session: %w" [])
        w1

  -- `new_id` makes a UUID.
  unfoldable pub create_persisted_agent_session :
      (W → String × W) → String → AgentType → Time → Exec W AgentSession
  unfolding agent_session_state_path
  create_persisted_agent_session new_id uid agent_type attached_at w =
      let (id, w1) = new_id w in
      (store.create_agent_session (record {
        id = id;
        kagen_session_uid = uid;
        agent_type = agent_type;
        name = "";
        working_mode = "shared_workspace";
        branch = "";
        state_path = agent_session_state_path agent_type id;
        created_at = attached_at;
        last_used_at = attached_at;
      })
          or_wrap wrapped "creating %s agent session: %w" (agent_type ∷ []))
        w1

  unfoldable pub resolve_attach_summary : Exec W Repository → ℤ → Bool → AgentType → Exec W Summary
  resolve_attach_summary discover id true agent_type = do
    found ← store.get_summary id or_wrap wrapped "loading session %d: %w" (itoa id ∷ [])
    λ w. (
      require
          (message "session %d not found: run 'kagen list --all' to inspect persisted sessions"
            (itoa id ∷ []))
          found,
      w,
    )
  resolve_attach_summary discover id false agent_type = do
    repo ← discover
    found ←
        store.find_most_recent_ready repo.path
        or_wrap wrapped "resolving ready session for %s: %w" (repo.path ∷ [])
    λ w. (
      require
          (message "no ready %s session found for %s: run 'kagen start %s' to create one"
            (agent_type ∷ repo.path ∷ agent_type ∷ []))
          found,
      w,
    )

  unfoldable pub fail_start_session : (String → List String → String) → ℤ → Err → W → Err × W
  fail_start_session sprintf id e w =
      let (marked, w1) = store.update_kagen_session_status id "failed" w in
      (mark_error sprintf id e marked, w1)
