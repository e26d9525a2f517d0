-- ===== src/Session.antt =====
-- internal/session: the persisted sessions, from session.go and values.go. A time is its number of
-- nanoseconds from the zero `time.Time`.
pub mod Timestamps
pub mod Paths
pub mod Tables
pub mod Store
pub mod Create
pub mod Update
pub mod Attach
pub mod Rows
pub mod Queries
use kagen.Prelude.{ℕ, String, List}

abbrev pub Time : Type 0
Time = ℕ

pub record KagenSession : Type 0 where
  pub id : ℕ
  pub uid : String
  pub repo_id : String
  pub repo_path : String
  pub base_branch : String
  pub workspace_branch : String
  pub head_sha_at_start : String
  pub namespace : String
  pub pod_name : String
  pub status : String
  pub created_at : Time
  pub last_used_at : Time

pub record AgentSession : Type 0 where
  pub id : String
  pub kagen_session_uid : String
  pub agent_type : String
  pub name : String
  pub working_mode : String
  pub branch : String
  pub state_path : String
  pub created_at : Time
  pub last_used_at : Time

pub record Summary : Type 0 where
  pub session : KagenSession
  pub agent_sessions : List AgentSession
  pub agent_types : List String

pub record ListOptions : Type 0 where
  pub repo_path : String

pub record CreateKagenSessionParams : Type 0 where
  pub uid : String
  pub repo_id : String
  pub repo_path : String
  pub base_branch : String
  pub workspace_branch : String
  pub head_sha_at_start : String
  pub namespace : String
  pub pod_name : String
  pub status : String
  pub created_at : Time
  pub last_used_at : Time

pub record CreateAgentSessionParams : Type 0 where
  pub id : String
  pub kagen_session_uid : String
  pub agent_type : String
  pub name : String
  pub working_mode : String
  pub branch : String
  pub state_path : String
  pub created_at : Time
  pub last_used_at : Time
