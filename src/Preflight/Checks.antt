-- ===== src/Preflight/Checks.antt =====
-- internal/preflight/preflight.go: ValidateConfiguration.
use kagen.Prelude.{
  String, Bool, ◌||◌, ◌==◌, nat_eq, Option, none, some, [], ◌∷◌, ◌++◌, if◌then◌else◌,
}
use kagen.Prelude.Int.{pos}
use kagen.Prelude.Lists.{length}
use kagen.Prelude.Text.{trim_space, itoa, ◌+s◌, contains_text, contains_any, has_suffix}
use kagen.Errors.{Err, message, with_failure_class, image_error}
use kagen.Config.{Config}
use kagen.Proxy.{load_policy}
use kagen.Preflight.{Check, Report, passed, failed}

unfoldable pub bad_image : String → String → Check
bad_image name ref = record {
  name = name;
  status = failed;
  summary = "image reference is invalid";
  failure_class = image_error;
  metadata = ("ref", ref) ∷ [];
}

unfoldable pub good_image : String → String → String → Check
good_image name label ref = record {
  name = name;
  status = passed;
  summary = label +s " image reference resolved";
  failure_class = "";
  metadata = ("ref", ref) ∷ [];
}

-- The condition of its `validateImageRef`, on a trimmed reference.
unfoldable pub is_invalid_ref : String → Bool
is_invalid_ref trimmed =
    trimmed == ""
    || contains_text trimmed "://"
    || contains_any trimmed (λ c. nat_eq c 32 || nat_eq c 9 || nat_eq c 13 || nat_eq c 10)
    || has_suffix trimmed ":"
    || has_suffix trimmed "@"

-- One image: the check that is added to the report, and the error that ends it.
unfoldable pub check_image : String → String → String → Check × Option Err
unfolding bad_image good_image is_invalid_ref
check_image name label ref =
    if is_invalid_ref (trim_space ref)
    then (
      bad_image name ref,
      with_failure_class image_error ("preflight image check " +s name +s " failed")
          (some (message "invalid image reference %q" (ref ∷ []))),
    )
    else (good_image name label ref, none)

abbrev add_check : Check → Report → Report
add_check c r = record r { checks = r.checks ++ c ∷ [] }

abbrev then_check :
    Check × Option Err → Report → (Report → Report × Option Err) → Report × Option Err
then_check (c, some e) r f = (add_check c r, some e)
then_check (c, none) r f = f (add_check c r)

unfoldable pub validate_configuration : Config → String → Report × Option Err
unfolding check_image
validate_configuration cfg agent_type =
    then_check (check_image "workspace_image" "workspace" cfg.images.workspace)
      (record { scope = "configuration"; checks = []; meta = ("agent_type", agent_type) ∷ [] })
      λ r1. then_check (check_image "toolbox_image" "toolbox" cfg.images.toolbox) r1 λ r2.
        then_check (check_image "proxy_image" "proxy" cfg.images.proxy) r2 λ r3.
          let policy = load_policy cfg.agent_providers cfg.proxy_allowlist agent_type in
          (
            add_check
                (record {
                  name = "proxy_policy";
                  status = passed;
                  summary = "proxy policy configuration resolved";
                  failure_class = "";
                  metadata =
                      ("destination_count", itoa (pos (length policy.allowed_destinations))) ∷ [];
                })
                r3,
            none,
          )
