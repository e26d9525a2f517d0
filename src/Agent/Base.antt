-- ===== src/Agent/Base.antt =====
-- internal/agent/base_agent.go: the shared agent, over the runner of internal/kubeexec.
use kagen.Prelude.{String, Option, none, some, List, [], ◌∷◌, ◌==◌, if◌then◌else◌}
use kagen.Prelude.Text.{◌+s◌}
use kagen.Errors.{Err, wrapped}
use kagen.Git.{Repository, repo_id}
use kagen.Kubeexec
use kagen.Kubeexec.{Process, run, failed, with_container}
use kagen.Agent.{AgentType, RuntimeSpec, container_name}
use kagen.Agent.Shell.{attach_shell_for_state_path}

pub record AgentDependencies : Type 0 where
  pub repo : Repository
  pub kube_ctx : String
  pub container : String
  pub state_path : String

-- The runner is the one of `kube_ctx`; it is never nil.
pub record BaseAgent : Type 0 where
  pub repo : Repository
  pub kube_ctx : String
  pub container : String
  pub state_path : String
  pub spec : RuntimeSpec

unfoldable pub new_base_agent : RuntimeSpec → AgentDependencies → BaseAgent
new_base_agent spec deps = record {
  repo = deps.repo;
  kube_ctx = deps.kube_ctx;
  container = if deps.container == "" then container_name spec else deps.container;
  state_path = deps.state_path;
  spec = spec;
}

unfoldable pub name : BaseAgent → String
name b = b.spec.display_name

unfoldable pub agent_type : BaseAgent → AgentType
agent_type b = b.spec.agent_type

unfoldable pub command_args : (String → String) → BaseAgent → Option (List String)
command_args quote b = elim (attach_shell_for_state_path quote b.spec b.state_path) [
  | none ↦ none
  | some shell ↦ some ("/bin/sh" ∷ "-lc" ∷ shell ∷ [])
]

-- `sha1_hex` is the hexadecimal SHA-1 that names the repository, `getenv` is `os.Getenv`.
module _ {W : Type 0} (kubectl : Process W) (sha1_hex : String → String) where
  unfoldable pub authenticate : BaseAgent → W → Option Err × W
  authenticate b w = (none, w)

  unfoldable pub launch : BaseAgent → W → Option Err × W
  launch b w =
      let (e, w') =
        Kubeexec.wait_for_pod_ready kubectl b.kube_ctx ("kagen-" +s repo_id sha1_hex b.repo) "agent"
          "5m" w in
      (failed (wrapped "waiting for agent pod readiness: %w" []) e, w')

  unfoldable pub ensure_state_path : BaseAgent → String → W → Option Err × W
  ensure_state_path b namespace w =
      if b.state_path == ""
      then (none, w)
      else let (answer, w') =
          run kubectl b.kube_ctx namespace "agent" ("/bin/mkdir" ∷ "-p" ∷ b.state_path ∷ [])
            (some (with_container b.container) ∷ []) w in
        (failed (wrapped "preparing agent state path %s: %w" (b.state_path ∷ [])) answer.1, w')

  unfoldable pub prepare : BaseAgent → W → Option Err × W
  unfolding ensure_state_path
  prepare b w = ensure_state_path b ("kagen-" +s repo_id sha1_hex b.repo) w

  -- `none` is the panic of a specification that names a variable twice.
  unfoldable pub attach :
      (String → String) → (String → String) → BaseAgent → W → Option (Option Err × W)
  unfolding command_args
  attach quote getenv b w =
      if getenv "KAGEN_NON_INTERACTIVE" == "true"
      then some (none, w)
      else elim (command_args quote b) [
        | none ↦ none
        | some command ↦ some (
            Kubeexec.attach kubectl b.kube_ctx ("kagen-" +s repo_id sha1_hex b.repo) "agent" command
              (some (with_container b.container) ∷ []) w)
      ]
