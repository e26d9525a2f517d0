-- ===== src/Agent/Shell.antt =====
-- internal/agent/runtime_spec.go: the shell commands that check, prepare and attach a runtime. `quote`
-- is the `%q` of package fmt. A panic of the code is `none`.
pub mod Laws
use kagen.Prelude.{String, Option, none, some, List, [], ◌∷◌, ◌++◌, map, ◌==◌, if◌then◌else◌}
use kagen.Prelude.Lists.{contains}
use kagen.Prelude.Text.{trim_space, join, ◌+s◌}
use kagen.Prelude.Paths.{join_path}
use kagen.Agent.{
  EnvVar, EnvValueSource, literal, session_root, session_path_join, unknown_source, RuntimeSpec,
  env_var,
}

value_from : EnvValueSource → String → String → Option String
value_from literal state_path value = some value
value_from session_root state_path value = some state_path
value_from session_path_join state_path value = some (join_path (state_path ∷ value ∷ []))
value_from (unknown_source n) state_path value = none

unfoldable pub resolve_env_value : EnvVar → String → Option String
unfolding value_from
resolve_env_value variable state_path =
    if state_path == ""
    then some variable.value
    else value_from variable.source state_path variable.value

cons_to : String → Option String → Option (List EnvVar) → Option (List EnvVar)
cons_to name none vs = none
cons_to name (some value) none = none
cons_to name (some value) (some vs) = some (env_var name value literal ∷ vs)

-- The loop of `resolveEnvVars`, which panics at a name that it has seen.
resolve_from : List String → List EnvVar → String → Option (List EnvVar)
unfolding resolve_env_value cons_to
resolve_from seen [] state_path = some []
resolve_from seen (v ∷ vs) state_path =
    let rest = resolve_from (v.name ∷ seen) vs state_path in
    if contains v.name seen then none else cons_to v.name (resolve_env_value v state_path) rest

unfoldable pub resolve_env_vars : List EnvVar → String → Option (List EnvVar)
unfolding resolve_from
resolve_env_vars variables state_path = resolve_from [] variables state_path

unfoldable pub binary_candidates : RuntimeSpec → List String
binary_candidates spec =
    ("/opt/mise/shims/" +s spec.binary)
    ∷ ("/opt/mise/bin/" +s spec.binary)
    ∷ ("/usr/local/bin/" +s spec.binary)
    ∷ ("/usr/bin/" +s spec.binary)
    ∷ ("/bin/" +s spec.binary)
    ∷ []

module _ (quote : String → String) where
  candidate_line : String → String → String
  candidate_line name candidate =
      "if [ -z \"$"
      +s name
      +s "\" ] && [ -x "
      +s quote candidate
      +s " ]; then export "
      +s name
      +s "="
      +s quote candidate
      +s "; fi"

  unfoldable pub resolve_binary_shell : RuntimeSpec → String → String
  unfolding candidate_line binary_candidates
  resolve_binary_shell spec name =
      join
        (("export " +s name +s "=\"\"")
          ∷ ("if resolved=$(command -v "
              +s quote spec.binary
              +s " 2>/dev/null); then export "
              +s name
              +s "=\"$resolved\"; fi")
          ∷ map (candidate_line name) (binary_candidates spec))
        "; "

  unfoldable pub binary_ready_check : RuntimeSpec → String
  unfolding resolve_binary_shell
  binary_ready_check spec =
      join
        (resolve_binary_shell spec "KAGEN_AGENT_BIN"
          ∷ "test -n \"$KAGEN_AGENT_BIN\""
          ∷ "test -x \"$KAGEN_AGENT_BIN\""
          ∷ [])
        " && "

  unfoldable pub ready_check : RuntimeSpec → String
  unfolding binary_ready_check
  ready_check spec = join ("test -d /projects/workspace/.git" ∷ binary_ready_check spec ∷ []) " && "

  unfoldable pub binary_preflight_check : RuntimeSpec → String
  unfolding binary_ready_check
  binary_preflight_check spec =
      join (binary_ready_check spec ∷ "printf '%s' \"$KAGEN_AGENT_BIN\"" ∷ []) " && "

  export_line : EnvVar → String
  export_line v = "export " +s v.name +s "=" +s quote v.value

  -- The commands that the attach shell runs one after the other.
  unfoldable pub attach_steps : RuntimeSpec → String → Option (List String)
  unfolding export_line resolve_env_vars resolve_binary_shell
  attach_steps spec state_path =
      let trimmed = trim_space state_path in
      let prepare = if trimmed == "" then [] else ("mkdir -p " +s quote trimmed) ∷ [] in
      elim (resolve_env_vars spec.required_env trimmed) [
        | none ↦ none
        | some variables ↦ some (
            (prepare ++ map export_line variables)
            ++ (resolve_binary_shell spec "KAGEN_AGENT_BIN" ∷ spec.attach_shell ∷ []))
      ]

  unfoldable pub attach_shell_for_state_path : RuntimeSpec → String → Option String
  unfolding attach_steps
  attach_shell_for_state_path spec state_path = elim (attach_steps spec state_path) [
    | none ↦ none
    | some steps ↦ some (join steps " && ")
  ]
