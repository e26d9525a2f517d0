-- ===== src/Session/Create.antt =====
-- internal/session/writes.go: CreateKagenSession and CreateAgentSession.
pub mod Laws
use kagen.Prelude.{
  ℕ, zero, suc, String, Bool, true, false, ◌||◌, ◌≡◌, Option, none, some, List, [], ◌∷◌, ◌==◌,
  nat_eq, if◌then◌else◌,
}
use kagen.Prelude.Int.{ℤ, pos, negsuc}
use kagen.Prelude.Text.{to_lower, contains_text, itoa}
use kagen.Errors.{Err, message, wrapped, error_text}
use kagen.Errors.Exec.{Result, ok, err}
use kagen.Session.{
  Time, KagenSession, AgentSession, CreateKagenSessionParams, CreateAgentSessionParams,
}
use kagen.Session.Timestamps.{format_timestamp, nullable_string}
use kagen.Session.Paths.{FileSystem, normalise_repo_path}
use kagen.Session.Tables.{
  KagenRow, AgentRow, Db, Statement, done, failed, insert_session, insert_agent, update_sessions,
  update_agents,
}
use kagen.Session.Store.{
  Store, Reply, replies, waits, fails, Env, wrap_write_error, on_open, run_statement,
  with_connection,
}

or_time : Time → Time → Time
or_time t default = if nat_eq t 0 then default else t

or_text : String → String → String
or_text t default = if t == "" then default else t

-- The parameters with what is missing filled in, and the path normalised.
unfoldable pub complete_kagen_session :
    Env → CreateKagenSessionParams → String → CreateKagenSessionParams
unfolding or_time or_text
complete_kagen_session env params repo_path =
    let created = or_time params.created_at env.now in
    record params {
      uid = or_text params.uid env.new_uuid;
      repo_path = repo_path;
      created_at = created;
      last_used_at = or_time params.last_used_at created;
    }

kagen_row : Env → CreateKagenSessionParams → KagenRow
kagen_row env p = record {
  id = 0;
  uid = p.uid;
  repo_id = p.repo_id;
  repo_path = p.repo_path;
  base_branch = p.base_branch;
  workspace_branch = p.workspace_branch;
  head_sha_at_start = p.head_sha_at_start;
  namespace = p.namespace;
  pod_name = p.pod_name;
  status = p.status;
  created_at = format_timestamp env.stamp p.created_at;
  last_used_at = format_timestamp env.stamp p.last_used_at;
}

kagen_session : CreateKagenSessionParams → ℕ → KagenSession
kagen_session p id = record {
  id = id;
  uid = p.uid;
  repo_id = p.repo_id;
  repo_path = p.repo_path;
  base_branch = p.base_branch;
  workspace_branch = p.workspace_branch;
  head_sha_at_start = p.head_sha_at_start;
  namespace = p.namespace;
  pod_name = p.pod_name;
  status = p.status;
  created_at = p.created_at;
  last_used_at = p.last_used_at;
}

-- `id_fault` is the error of `LastInsertId`.
kagen_session_reply :
    Env → CreateKagenSessionParams → Option Err → Result ℕ × Store → Reply KagenSession × Store
kagen_session_reply env p id_fault (err e, s) =
    (fails (wrap_write_error env "creating kagen session" e), s)
kagen_session_reply env p none (ok id, s) = (replies (ok (kagen_session p id)), s)
kagen_session_reply env p (some e) (ok id, s) =
    (fails (wrapped "reading kagen session id: %w" [] e), s)

create_with_path :
    Env
    → Option Err
    → Option Err
    → CreateKagenSessionParams
    → Result String
    → Store
    → Reply KagenSession × Store
create_with_path env fault id_fault params (err e) s =
    (fails (wrapped "normalising repository path: %w" [] e), s)
create_with_path env fault id_fault params (ok repo_path) s =
    let p = complete_kagen_session env params repo_path in
    with_connection
      (λ t.
        kagen_session_reply env p id_fault
          (run_statement fault (insert_session (kagen_row env p) t.db) t))
      s

pub create_kagen_session :
    Env
    → Option Err
    → Option Err
    → CreateKagenSessionParams
    → Option Store
    → Reply KagenSession × Option Store
unfolding on_open
create_kagen_session env fault id_fault params =
    on_open "creating kagen session: store is closed"
      (create_with_path env fault id_fault params (normalise_repo_path env.files params.repo_path))

unfoldable pub complete_agent_session : Env → CreateAgentSessionParams → CreateAgentSessionParams
unfolding or_time or_text
complete_agent_session env params =
    let created = or_time params.created_at env.now in
    record params {
      id = or_text params.id env.new_uuid;
      created_at = created;
      last_used_at = or_time params.last_used_at created;
    }

agent_row : Env → CreateAgentSessionParams → AgentRow
agent_row env p = record {
  id = p.id;
  kagen_session_uid = p.kagen_session_uid;
  agent_type = p.agent_type;
  name = some p.name;
  working_mode = p.working_mode;
  branch = nullable_string p.branch;
  state_path = p.state_path;
  created_at = format_timestamp env.stamp p.created_at;
  last_used_at = format_timestamp env.stamp p.last_used_at;
}

agent_session : CreateAgentSessionParams → AgentSession
agent_session p = record {
  id = p.id;
  kagen_session_uid = p.kagen_session_uid;
  agent_type = p.agent_type;
  name = p.name;
  working_mode = p.working_mode;
  branch = p.branch;
  state_path = p.state_path;
  created_at = p.created_at;
  last_used_at = p.last_used_at;
}

agent_session_reply :
    Env → CreateAgentSessionParams → Result (Unit {0}) × Store → Reply AgentSession × Store
agent_session_reply env p (err e, s) = (fails (wrap_write_error env "creating agent session" e), s)
agent_session_reply env p (ok u, s) = (replies (ok (agent_session p)), s)

create_agent : Env → Option Err → CreateAgentSessionParams → Store → Reply AgentSession × Store
create_agent env fault params =
    let p = complete_agent_session env params in
    with_connection
      (λ t. agent_session_reply env p (run_statement fault (insert_agent (agent_row env p) t.db) t))

pub create_agent_session :
    Env → Option Err → CreateAgentSessionParams → Option Store → Reply AgentSession × Option Store
unfolding on_open
create_agent_session env fault params =
    on_open "creating agent session: store is closed" (create_agent env fault params)
