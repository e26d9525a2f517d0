-- ===== src/Preflight/Runtime.antt =====
-- internal/preflight/preflight.go: the checks inside the running pod. The runner is package kubeexec's,
-- over the process `kubectl`; `quote` is the `%q` of package fmt.
use kagen.Prelude.{String, Option, none, some, List, [], ◌∷◌, ◌++◌, ◌==◌, if◌then◌else◌}
use kagen.Prelude.Maps.{Map}
use kagen.Prelude.Text.{trim_space, ◌+s◌}
use kagen.Errors.{
  Err, FailureClass, with_failure_class, workspace_bootstrap_error, agent_binary_error,
  agent_home_error,
}
use kagen.Errors.Exec.{ok, err}
use kagen.Agent.{RuntimeSpec, container_name}
use kagen.Agent.Registry.{Entries, spec_for}
use kagen.Agent.Shell.{binary_preflight_check}
use kagen.Git.{Repository, repo_id}
use kagen.Kubeexec.{Process, with_container, run}
use kagen.Preflight.{Check, Report, passed, failed}

pub data RuntimeCheck : Type 0 where
  workspace_mount agent_binary agent_home : RuntimeCheck

unfoldable pub check_name : RuntimeCheck → String
check_name workspace_mount = "workspace_mount"
check_name agent_binary = "agent_binary"
check_name agent_home = "agent_home"

unfoldable pub workspace_check_script : String
workspace_check_script =
    "test -d /projects/workspace && test -d /projects/workspace/.git && test -w /projects/workspace"

unfoldable pub home_check_script : (String → String) → String → String
home_check_script quote root =
    "mkdir -p " +s quote root +s " && test -w " +s quote root +s " && printf '%s' " +s quote root

-- A map literal with a further entry where there is output.
unfoldable pub check_metadata : RuntimeCheck → RuntimeSpec → String → Map String
check_metadata workspace_mount spec output = ("path", "/projects/workspace") ∷ []
check_metadata agent_binary spec output =
    if output == ""
    then ("binary", spec.binary) ∷ []
    else ("binary", spec.binary) ∷ ("path", output) ∷ []
check_metadata agent_home spec output = ("path", spec.state_root) ∷ []

unfoldable pub passed_summary : RuntimeCheck → String
passed_summary workspace_mount = "workspace mount is present and writable"
passed_summary agent_binary = "agent runtime binary is present"
passed_summary agent_home = "agent home root is writable"

unfoldable pub failed_summary : (String → String) → RuntimeCheck → RuntimeSpec → String
failed_summary quote workspace_mount spec =
    "workspace bootstrap did not produce a writable /projects/workspace checkout"
failed_summary quote agent_binary spec =
    "runtime binary " +s quote spec.binary +s " is not available in the toolbox image"
failed_summary quote agent_home spec =
    "agent home root " +s quote spec.state_root +s " is not writable"

unfoldable pub failure_class : RuntimeCheck → FailureClass
failure_class workspace_mount = workspace_bootstrap_error
failure_class agent_binary = agent_binary_error
failure_class agent_home = agent_home_error

abbrev pub runtime_checks : List RuntimeCheck
runtime_checks = workspace_mount ∷ agent_binary ∷ agent_home ∷ []

-- The next checks run only after a check without an error.
abbrev pub after_check :
    {W : Type 0}
    → (Report × Option Err) × W
    → (Report × W → (Report × Option Err) × W)
    → (Report × Option Err) × W
after_check ((r, none), w) more = more (r, w)
after_check ((r, some e), w) more = ((r, some e), w)

module _ {W : Type 0} (kubectl : Process W) (kube_ctx : String) (quote : String → String) where
  unfoldable pub script_of : RuntimeCheck → RuntimeSpec → String
  unfolding workspace_check_script home_check_script
  script_of workspace_mount spec = workspace_check_script
  script_of agent_binary spec = binary_preflight_check quote spec
  script_of agent_home spec = home_check_script quote spec.state_root

  unfoldable pub passed_check : RuntimeCheck → RuntimeSpec → String → Check
  unfolding check_name passed_summary check_metadata
  passed_check check spec output = record {
    name = check_name check;
    status = passed;
    summary = passed_summary check;
    failure_class = "";
    metadata = check_metadata check spec (trim_space output);
  }

  unfoldable pub failed_run : RuntimeCheck → RuntimeSpec → String → Check
  unfolding check_name failed_summary check_metadata failure_class
  failed_run check spec output = record {
    name = check_name check;
    status = failed;
    summary = failed_summary quote check spec;
    failure_class = failure_class check;
    metadata = check_metadata check spec (trim_space output);
  }

  unfoldable pub add_result :
      Report → RuntimeCheck → RuntimeSpec → String × Option Err → Report × Option Err
  unfolding passed_check failed_run
  add_result r check spec (output, none) =
      (record r { checks = r.checks ++ passed_check check spec output ∷ [] }, none)
  add_result r check spec (output, some e) =
      let c = failed_run check spec output in
      (
        record r { checks = r.checks ++ c ∷ [] },
        with_failure_class c.failure_class c.summary (some e),
      )

  unfoldable pub run_check :
      String → RuntimeSpec → RuntimeCheck → Report × W → (Report × Option Err) × W
  unfolding script_of run add_result
  run_check namespace spec check (r, w) =
      let (answer, w') =
        run kubectl kube_ctx namespace "agent" ("/bin/sh" ∷ "-lc" ∷ script_of check spec ∷ [])
          (some (with_container (container_name spec)) ∷ []) w in
      (add_result r check spec answer, w')

  -- The checks one after the other, up to the first that fails.
  unfoldable pub run_checks :
      String → RuntimeSpec → List RuntimeCheck → Report × W → (Report × Option Err) × W
  unfolding run_check
  run_checks namespace spec [] (r, w) = ((r, none), w)
  run_checks namespace spec (check ∷ more) state =
      after_check (run_check namespace spec check state) (run_checks namespace spec more)

  -- `RuntimeValidator.Validate`
  unfoldable pub validate :
      (String → String) → Entries → Repository → String → W → (Report × Option Err) × W
  unfolding run_checks
  validate sha1_hex entries repo agent_type w =
      let report : Report = record {
        scope = "runtime";
        checks = [];
        meta = ("agent_type", agent_type) ∷ [];
      } in
      elim (spec_for entries agent_type) [
        | err e ↦ ((report, some e), w)
        | ok spec ↦ run_checks ("kagen-" +s repo_id sha1_hex repo) spec runtime_checks (report, w)
      ]
