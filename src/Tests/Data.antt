-- ===== src/Tests/Data.antt =====
-- The data of the tests: a store with two ready sessions of one repository, and what the program takes
-- from outside.
use kagen.Prelude.{ℕ, false, String, none, [], ◌∷◌, ◌==◌, if◌then◌else◌}
use kagen.Errors.Exec.{Result, ok, err}
use kagen.Errors.{message}
use kagen.Session.{Summary, Time}
use kagen.Session.Paths.{FileSystem, resolved}
use kagen.Session.Tables.{KagenRow, AgentRow, Db}
use kagen.Session.Store.{Store, Env}
use kagen.Session.Rows.{Driver}

abbrev pub files : FileSystem
files = record {
  absolute = λ p. ok p;
  eval_symlinks = λ p. resolved p;
  user_config_dir = ok "/home/ada/.config";
}

abbrev pub env : Env
env = record {
  stamp = λ s. "2026-01-01T00:00:00";
  sprintf = λ format args. format;
  files = files;
  now = 5;
  new_uuid = "u-new";
}

abbrev pub row : ℕ → String → String → KagenRow
row id uid last = record {
  id = id;
  uid = uid;
  repo_id = "0a1b2c3d";
  repo_path = "/repo";
  base_branch = "main";
  workspace_branch = "kagen/main";
  head_sha_at_start = "abc";
  namespace = "kagen-0a1b2c3d";
  pod_name = "agent";
  status = "ready";
  created_at = "2026-01-01T00:00:00Z";
  last_used_at = last;
}

abbrev pub agent_row : AgentRow
agent_row = record {
  id = "a1";
  kagen_session_uid = "u1";
  agent_type = "codex";
  name = none;
  working_mode = "shared_workspace";
  branch = none;
  state_path = "/home/kagen/.codex/a1";
  created_at = "2026-01-01T00:00:00Z";
  last_used_at = "2026-01-01T00:00:00Z";
}

abbrev pub db : Db
db = record {
  sessions = row 1 "u1" "2026-01-01T00:00:00Z" ∷ row 2 "u2" "2026-01-02T00:00:00Z" ∷ [];
  agents = agent_row ∷ [];
  last_id = 2;
}

abbrev pub store : Store
store = record { db = db; open_tx = none }

-- A parser of two days only.
abbrev pub parse_day : String → Result Time
parse_day text =
    if text == "2026-01-01T00:00:00Z"
    then ok 7
    else if text == "2026-01-02T00:00:00Z"
    then ok 8
    else err (message "parsing time %q" (text ∷ []))

abbrev pub driver : Driver
driver = record {
  parse_timestamp = parse_day;
  query_error = none;
  scan_error = λ row. none;
  rows_error = none;
  close_error = none;
  is_no_rows = λ e. false;
  equal_fold = λ a b. a == b;
}

abbrev pub starting_summary : Summary
starting_summary = record {
  session = record {
    id = 1;
    uid = "u1";
    repo_id = "0a1b2c3d";
    repo_path = "/repo";
    base_branch = "main";
    workspace_branch = "kagen/main";
    head_sha_at_start = "abc";
    namespace = "kagen-0a1b2c3d";
    pod_name = "agent";
    status = "starting";
    created_at = 7;
    last_used_at = 7;
  };
  agent_sessions = [];
  agent_types = [];
}
