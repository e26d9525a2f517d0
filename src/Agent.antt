-- ===== src/Agent.antt =====
-- internal/agent: the runtime specifications of the agents, from runtime_spec.go, claude.go, codex.go and
-- opencode.go.
pub mod Registry
pub mod Shell
pub mod Base
use kagen.Prelude.{String, List, [], ◌∷◌}
use kagen.Prelude.Int.{ℤ}
use kagen.Prelude.Text.{◌+s◌}
use kagen.Prelude.Paths.{join_path}

-- An agent type is its text.
abbrev pub AgentType : Type 0
AgentType = String

abbrev pub claude : AgentType
claude = "claude"

abbrev pub codex : AgentType
codex = "codex"

abbrev pub open_code : AgentType
open_code = "opencode"

abbrev pub default_home_dir : String
default_home_dir = "/home/kagen"

abbrev pub default_term : String
default_term = "xterm-256color"

abbrev pub default_toolbox_path : String
default_toolbox_path =
    "/opt/mise/shims:/opt/mise/bin:/usr/local/bin:/usr/local/sbin:/usr/sbin:/usr/bin:/sbin:/bin"

-- The source is an integer of the code, which may be none of the three constants.
pub data EnvValueSource : Type 0 where
  literal session_root session_path_join : EnvValueSource
  unknown_source : (n : ℤ) → EnvValueSource

pub record EnvVar : Type 0 where
  pub name : String
  pub value : String
  pub source : EnvValueSource

abbrev pub env_var : String → String → EnvValueSource → EnvVar
env_var name value source = record { name = name; value = value; source = source }

pub record ConfigFile : Type 0 where
  pub name : String
  pub mount_path : String
  pub content : String

-- The interface RuntimeSpec: what each method returns.
pub record RuntimeSpec : Type 0 where
  pub agent_type : AgentType
  pub display_name : String
  pub git_author_name : String
  pub binary : String
  pub attach_shell : String
  pub state_root : String
  pub required_env : List EnvVar
  pub config_files : List ConfigFile

abbrev pub claude_spec : RuntimeSpec
claude_spec = record {
  agent_type = claude;
  display_name = "Claude";
  git_author_name = "claude";
  binary = "claude";
  attach_shell = "cd /projects/workspace && exec \"$KAGEN_AGENT_BIN\"";
  state_root = "/home/kagen/.claude";
  required_env =
      env_var "HOME" default_home_dir session_root
      ∷ env_var "PATH" default_toolbox_path literal
      ∷ env_var "TERM" default_term literal
      ∷ env_var "CLAUDE_CODE_DISABLE_NONESSENTIAL_TRAFFIC" "1" literal
      ∷ [];
  config_files = [];
}

abbrev pub codex_spec : RuntimeSpec
codex_spec = record {
  agent_type = codex;
  display_name = "Codex";
  git_author_name = "oai-codex";
  binary = "codex";
  attach_shell =
      "cd /projects/workspace && exec \"$KAGEN_AGENT_BIN\" --sandbox danger-full-access -a never";
  state_root = "/home/kagen/.codex";
  required_env =
      env_var "HOME" default_home_dir session_root
      ∷ env_var "PATH" default_toolbox_path literal
      ∷ env_var "TERM" default_term literal
      ∷ env_var "CODEX_HOME" "/home/kagen/.codex" session_root
      ∷ [];
  config_files = [];
}

abbrev pub open_code_spec : RuntimeSpec
open_code_spec = record {
  agent_type = open_code;
  display_name = "OpenCode";
  git_author_name = "opencode";
  binary = "opencode";
  attach_shell = "cd /projects/workspace && exec \"$KAGEN_AGENT_BIN\"";
  state_root = "/home/kagen/.opencode";
  required_env =
      env_var "HOME" default_home_dir session_root
      ∷ env_var "PATH" default_toolbox_path literal
      ∷ env_var "TERM" default_term literal
      ∷ [];
  config_files =
      record {
        name = "opencode.json";
        mount_path = join_path ("/home/kagen/.opencode" ∷ ".config" ∷ "opencode.json" ∷ []);
        content =
            "{\n  \"$schema\": \"https://opencode.ai/config.json\",\n  \"permission\": \"allow\"\n}\n";
      }
      ∷ [];
}

unfoldable pub container_name : RuntimeSpec → String
container_name spec = "kagen-agent-" +s spec.agent_type
