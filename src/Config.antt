-- ===== src/Config.antt =====
-- internal/config: the configuration, its defaults and its validation, from config.go and validate.go.
-- Reading the files and the environment is viper's.
pub mod Laws
use kagen.Prelude.{
  ℕ, String, Bool, true, false, ◌||◌, not, Option, none, some, List, [], ◌∷◌, ◌==◌, nat_eq,
  if◌then◌else◌,
}
use kagen.Prelude.Int.{ℤ, pos, ltb_ℤ, leb_ℤ}
use kagen.Prelude.Maps.{Map, lookup}
use kagen.Prelude.Text.{trim_space, contains_text, contains_any, has_suffix}
use kagen.Errors.{Err, message, wrapped}
use kagen.Errors.Exec.{Result, ok, err, ◌or_else◌}
use kagen.Agent.Registry.{Entries, type_from_string}

pub record RuntimeConfig : Type 0 where
  pub cpu : ℤ
  pub memory : ℤ
  pub disk : ℤ
  pub startup_timeout : String

pub record ImagesConfig : Type 0 where
  pub workspace : String
  pub toolbox : String
  pub proxy : String

pub record Config : Type 0 where
  pub agent : String
  pub agent_providers : Map (List String)
  pub proxy_allowlist : List String
  pub forgejo_http_port : ℤ
  pub forgejo_ssh_port : ℤ
  pub verbose : Bool
  pub runtime : RuntimeConfig
  pub images : ImagesConfig

abbrev pub default_config : Config
default_config = record {
  agent = "";
  agent_providers = [];
  proxy_allowlist = [];
  forgejo_http_port = pos 3000;
  forgejo_ssh_port = pos 2222;
  verbose = false;
  runtime = record { cpu = pos 4; memory = pos 8; disk = pos 60; startup_timeout = "5m" };
  images = record {
    workspace = "ghcr.io/pejas/kagen-workspace:0.1.4";
    toolbox = "ghcr.io/pejas/kagen-toolbox:0.1.4";
    proxy = "ghcr.io/pejas/kagen-proxy:0.1.4";
  };
}

-- A nil configuration is `none`; a missing agent has no providers.
unfoldable pub providers_for_agent : Option Config → String → List String
unfolding lookup
providers_for_agent none agent = []
providers_for_agent (some c) agent = elim (lookup agent c.agent_providers) [
  | none ↦ []
  | some providers ↦ providers
]

unfoldable pub validate_port : String → ℤ → Option Err
validate_port name port =
    if ltb_ℤ port (pos 1) || ltb_ℤ (pos 65535) port
    then some (message "%s must be between 1 and 65535" (name ∷ []))
    else none

-- One of " \t\r\n".
abbrev pub is_blank : ℕ → Bool
is_blank c = nat_eq c 32 || nat_eq c 9 || nat_eq c 13 || nat_eq c 10

-- The test of `validateImageRef`, on the trimmed reference.
unfoldable pub is_bad_ref : String → Bool
is_bad_ref trimmed =
    trimmed == ""
    || contains_text trimmed "://"
    || contains_any trimmed is_blank
    || has_suffix trimmed ":"
    || has_suffix trimmed "@"

unfoldable pub validate_image_ref : String → String → Option Err
unfolding is_bad_ref
validate_image_ref name ref =
    if is_bad_ref (trim_space ref)
    then some (message "%s must be a valid image reference" (name ∷ []))
    else none

check_positive : String → ℤ → Option Err
check_positive name n =
    if leb_ℤ n (pos 0) then some (message "%s must be greater than zero" (name ∷ [])) else none

check_destination : String → Option Err
check_destination dest =
    if dest == ""
    then some (message "proxy_allowlist cannot contain empty values" [])
    else if contains_text dest "://" || contains_text dest "/"
    then some
        (message "proxy_allowlist entries must be hostnames without scheme or path: %q" (dest ∷ []))
    else none

-- The loop over the allowlist.
check_allowlist : List String → Option Err
unfolding check_destination
check_allowlist [] = none
check_allowlist (dest ∷ more) = check_destination (trim_space dest) or_else check_allowlist more

wrap_error : String → Result String → Option Err
wrap_error format (ok t) = none
wrap_error format (err e) = some (wrapped format [] e)

check_agent : Entries → String → Option Err
unfolding wrap_error
check_agent entries agent =
    if agent == "" then none else wrap_error "validating agent: %w" (type_from_string entries agent)

check_duration : Option Err → Option Err
check_duration none = none
check_duration (some e) = some (wrapped "runtime.startup_timeout must be a valid duration: %w" [] e)

-- `parse_duration` is the error of `time.ParseDuration`, `entries` the registered agents.
pub validate : Entries → (String → Option Err) → Option Config → Option Err
validate entries parse_duration none = some (message "config is nil" [])
validate entries parse_duration (some cfg) =
    check_agent entries cfg.agent
    or_else validate_port "forgejo_http_port" cfg.forgejo_http_port
    or_else validate_port "forgejo_ssh_port" cfg.forgejo_ssh_port
    or_else check_positive "runtime.cpu" cfg.runtime.cpu
    or_else check_positive "runtime.memory" cfg.runtime.memory
    or_else check_positive "runtime.disk" cfg.runtime.disk
    or_else check_duration (parse_duration cfg.runtime.startup_timeout)
    or_else check_allowlist cfg.proxy_allowlist
    or_else validate_image_ref "images.workspace" cfg.images.workspace
    or_else validate_image_ref "images.toolbox" cfg.images.toolbox
    or_else validate_image_ref "images.proxy" cfg.images.proxy
