-- ===== src/Preflight/Laws.antt =====
-- Laws of internal/preflight/preflight.go.
use kagen.Prelude.{
  String, true, ◌≡◌, refl, ◌&&◌, not, Option, none, some, List, [], ◌∷◌, ◌++◌, arith,
}
use kagen.Prelude.Text.{trim_space}
use kagen.Errors.{Err, FailureClass, class_of, classify, with_failure_class}
use kagen.Errors.Exec.{ok}
use kagen.Session.Tables.Updates.{is_none}
use kagen.Agent.{RuntimeSpec}
use kagen.Agent.Registry.{Entries, spec_for}
use kagen.Config.{Config, is_bad_ref}
use kagen.Config as Config
use kagen.Config.Laws.{validate_iff}
use kagen.Git.{Repository}
use kagen.Kubeexec.{Process}
use kagen.Preflight.{Check, Report, first_failed, failed_check}
use kagen.Preflight.Checks.{
  is_invalid_ref, check_image, bad_image, good_image, validate_configuration,
}
use kagen.Preflight.Runtime.{
  RuntimeCheck, workspace_mount, agent_binary, agent_home, run_check, run_checks, after_check,
  add_result, validate, passed_check, failed_run, failure_class, runtime_checks,
}

-- The class of a report's first failed check, empty where none has failed.
abbrev pub report_class : Option Check → FailureClass
report_class none = ""
report_class (some c) = c.failure_class

-- The two packages have the same test of a reference.
is_invalid_ref-is_bad_ref : (ref : String) → is_invalid_ref ref ≡ is_bad_ref ref
unfolding is_invalid_ref is_bad_ref
is_invalid_ref-is_bad_ref ref = refl

-- ValidateConfiguration returns no error exactly where the three image references are good; its report
-- has a failed check exactly where it returns an error, and the error has the class of that check.
pub validate_configuration_lem :
    (cfg : Config) (agent_type : String)
    → let (report, e) = validate_configuration cfg agent_type in
      (is_none e ≡ (
        not (is_invalid_ref (trim_space cfg.images.workspace))
        && not (is_invalid_ref (trim_space cfg.images.toolbox))
        && not (is_invalid_ref (trim_space cfg.images.proxy))))
      × ((is_none (failed_check report) ≡ is_none e)
          × (classify e ≡ report_class (failed_check report)))
unfolding validate_configuration check_image bad_image good_image with_failure_class failed_check
    first_failed classify class_of
validate_configuration_lem cfg agent_type = ground arith

-- A configuration that package config accepts passes the preflight, for every agent.
pub validate_configuration-validate :
    (entries : Entries) (parse_duration : String → Option Err) (cfg : Config) (agent_type : String)
    → Config.validate entries parse_duration (some cfg) ≡ none
    → (validate_configuration cfg agent_type).1 ≡ none
validate_configuration-validate entries parse_duration cfg agent_type h =
    let c = (validate_iff entries parse_duration cfg).0 h in
    ground (
      arith,
      validate_configuration_lem cfg agent_type,
      is_invalid_ref-is_bad_ref (trim_space cfg.images.workspace),
      is_invalid_ref-is_bad_ref (trim_space cfg.images.toolbox),
      is_invalid_ref-is_bad_ref (trim_space cfg.images.proxy),
      c.workspace_ref,
      c.toolbox_ref,
      c.proxy_ref,
    )

first_failed-append :
    (cs : List Check) (c : Check)
    → first_failed cs ≡ none
    → first_failed (cs ++ c ∷ []) ≡ first_failed (c ∷ [])
unfolding first_failed
first_failed-append [] c h = refl
first_failed-append (d ∷ cs) c h = ground (arith, first_failed-append cs c)

is_none-none : (o : Option Check) → is_none o ≡ true → o ≡ none
is_none-none none h = refl
is_none-none (some c) h = ground arith

-- What the result of a check adds to a report in which none has failed yet.
IsExplained : Report × Option Err → Type 0
IsExplained (r, e) =
    (is_none (failed_check r) ≡ is_none e) × (classify e ≡ report_class (failed_check r))

module _ {W : Type 0} (kubectl : Process W) (kube_ctx : String) (quote : String → String) where
  add_result-IsExplained :
      (r : Report) (check : RuntimeCheck) (spec : RuntimeSpec) (answer : String × Option Err)
      → failed_check r ≡ none
      → IsExplained (add_result kubectl kube_ctx quote r check spec answer)
  unfolding failed_check first_failed with_failure_class failure_class classify class_of IsExplained
      add_result passed_check failed_run
  add_result-IsExplained r check spec (out, none) h =
      rw (first_failed-append r.checks (passed_check kubectl kube_ctx quote check spec out) h)
        (refl, refl)
  add_result-IsExplained r workspace_mount spec (out, some e) h = ground (
    arith,
    first_failed-append r.checks (failed_run kubectl kube_ctx quote workspace_mount spec out),
  )
  add_result-IsExplained r agent_binary spec (out, some e) h = ground (
    arith,
    first_failed-append r.checks (failed_run kubectl kube_ctx quote agent_binary spec out),
  )
  add_result-IsExplained r agent_home spec (out, some e) h =
      ground (
        arith,
        first_failed-append r.checks (failed_run kubectl kube_ctx quote agent_home spec out),
      )

  run_check-IsExplained :
      (namespace : String) (spec : RuntimeSpec) (check : RuntimeCheck) (r : Report) (w : W)
      → failed_check r ≡ none
      → IsExplained (run_check kubectl kube_ctx quote namespace spec check (r, w)).0
  unfolding run_check
  run_check-IsExplained namespace spec check r w h = add_result-IsExplained r check spec _ h

  run_checks-IsExplained :
      (namespace : String) (spec : RuntimeSpec) (checks : List RuntimeCheck) (r : Report) (w : W)
      → failed_check r ≡ none
      → IsExplained (run_checks kubectl kube_ctx quote namespace spec checks (r, w)).0
  unfolding run_checks IsExplained classify
  run_checks-IsExplained namespace spec [] r w h = rw h (refl, refl)
  run_checks-IsExplained namespace spec (check ∷ more) r w h =
      go (run_check kubectl kube_ctx quote namespace spec check (r, w))
        (run_check-IsExplained namespace spec check r w h)
        (λ r' w'. run_checks-IsExplained namespace spec more r' w')
    where
      go :
          (out : (Report × Option Err) × W)
          → IsExplained out.0
          → ((r' : Report) (w' : W)
              → failed_check r' ≡ none
              → IsExplained (run_checks kubectl kube_ctx quote namespace spec more (r', w')).0)
          → IsExplained (after_check out (run_checks kubectl kube_ctx quote namespace spec more)).0
      go ((r', none), w') k rest = rest r' w' (is_none-none (failed_check r') k.0)
      go ((r', some e), w') k rest = k

-- For a known agent, the runtime preflight's report has a failed check exactly where it returns an error,
-- and the error has the class of the report's first failed check.
pub validate-report :
    {W : Type 0} (kubectl : Process W) (kube_ctx : String) (quote sha1_hex : String → String)
    (entries : Entries) (repo : Repository) (agent_type : String) (w : W) (spec : RuntimeSpec)
    → spec_for entries agent_type ≡ ok spec
    → let ((report, e), w') = validate kubectl kube_ctx quote sha1_hex entries repo agent_type w in
      (is_none (failed_check report) ≡ is_none e)
      × (classify e ≡ report_class (failed_check report))
unfolding validate IsExplained failed_check first_failed
validate-report kubectl kube_ctx quote sha1_hex entries repo agent_type w spec known =
    rw (known, validate)
      (run_checks-IsExplained kubectl kube_ctx quote _ spec runtime_checks
        (record { scope = "runtime"; checks = []; meta = ("agent_type", agent_type) ∷ [] }) w refl)
