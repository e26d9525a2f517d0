-- ===== src/Kubeexec.antt =====
-- internal/kubeexec/exec.go: commands run in a pod by `kubectl`. The process is a parameter: given its
-- arguments, it answers with its combined output and its error, and changes the world.
use kagen.Prelude.{String, Option, none, some, List, [], ◌∷◌, ◌++◌, ◌==◌, if◌then◌else◌}
use kagen.Prelude.Text.{◌+s◌}
use kagen.Errors.{Err, wrapped}

abbrev pub Process : Type 0 → Type 0
Process W = List String → W → (String × Option Err) × W

pub record CommandOptions : Type 0 where
  pub container : String

abbrev pub ExecOption : Type 0
ExecOption = CommandOptions → CommandOptions

unfoldable pub with_container : String → ExecOption
with_container name opts = record opts { container = name }

-- A nil option is `none`, and is passed over.
apply_options : CommandOptions → List (Option ExecOption) → CommandOptions
apply_options options [] = options
apply_options options (none ∷ opts) = apply_options options opts
apply_options options (some opt ∷ opts) = apply_options (opt options) opts

unfoldable pub append_exec_options : List String → List (Option ExecOption) → List String
unfolding apply_options
append_exec_options args opts =
    let options = apply_options (record { container = "" }) opts in
    if options.container == "" then args else args ++ ("-c" ∷ options.container ∷ [])

-- The `--context` flag, where the runner has a context.
context_args : String → List String
context_args kube_ctx = if kube_ctx == "" then [] else "--context" ∷ kube_ctx ∷ []

unfoldable pub run_args :
    String → String → String → List String → List (Option ExecOption) → List String
unfolding context_args append_exec_options
run_args kube_ctx namespace pod command opts =
    append_exec_options (("exec" ∷ context_args kube_ctx) ++ ("-n" ∷ namespace ∷ pod ∷ [])) opts
    ++ ("--" ∷ command)

unfoldable pub attach_args :
    String → String → String → List String → List (Option ExecOption) → List String
unfolding context_args append_exec_options
attach_args kube_ctx namespace pod command opts =
    append_exec_options (("exec" ∷ context_args kube_ctx) ++ ("-it" ∷ "-n" ∷ namespace ∷ pod ∷ []))
      opts
    ++ ("--" ∷ command)

unfoldable pub wait_args : String → String → String → String → List String
unfolding context_args
wait_args kube_ctx namespace pod timeout =
    ("wait" ∷ context_args kube_ctx)
    ++ ("--for=condition=Ready"
        ∷ "-n"
        ∷ namespace
        ∷ ("pod/" +s pod)
        ∷ ("--timeout=" +s timeout)
        ∷ [])

-- A failed command's error, under the text that says which command it was.
abbrev pub failed : (Err → Err) → Option Err → Option Err
failed f none = none
failed f (some e) = some (f e)

module _ {W : Type 0} (kubectl : Process W) (kube_ctx : String) where
  -- The output comes back beside the error.
  unfoldable pub run :
      String → String → List String → List (Option ExecOption) → W → (String × Option Err) × W
  unfolding run_args
  run namespace pod command opts w =
      let (answer, w') = kubectl (run_args kube_ctx namespace pod command opts) w in
      let (out, e) = answer in
      ((out, failed (wrapped "kubectl exec %s/%s: %s: %w" (namespace ∷ pod ∷ out ∷ [])) e), w')

  unfoldable pub attach :
      String → String → List String → List (Option ExecOption) → W → Option Err × W
  unfolding attach_args
  attach namespace pod command opts w =
      let (answer, w') = kubectl (attach_args kube_ctx namespace pod command opts) w in
      (failed (wrapped "kubectl attach %s/%s: %w" (namespace ∷ pod ∷ [])) answer.1, w')

  unfoldable pub wait_for_pod_ready : String → String → String → W → Option Err × W
  unfolding wait_args
  wait_for_pod_ready namespace pod timeout w =
      let (answer, w') = kubectl (wait_args kube_ctx namespace pod timeout) w in
      (failed (wrapped "kubectl wait %s/%s: %s: %w" (namespace ∷ pod ∷ answer.0 ∷ [])) answer.1, w')
