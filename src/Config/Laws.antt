-- ===== src/Config/Laws.antt =====
-- What internal/config/validate.go accepts.
use kagen.Prelude.{
  String, true, false, ◌≡◌, ◌↔◌, ◌||◌, Option, none, some, List, [], ◌∷◌, ◌==◌, arith, refl,
}
use kagen.Prelude.Int.{ℤ, pos, ◌≤ℤ◌}
use kagen.Prelude.Lists.{All, contains}
use kagen.Prelude.Text.{trim_space, contains_text}
use kagen.Errors.{Err}
use kagen.Errors.Exec.{◌or_else◌}
use kagen.Agent.Registry.{Entries, supported_types}
use kagen.Agent.Registry.Laws.{type_from_string-supported_types}
use kagen.Config.{
  Config, is_bad_ref, validate, validate_port, validate_image_ref, check_positive, check_allowlist,
  check_agent, check_duration,
}

-- An entry of the allowlist that is a host once it is trimmed.
pub record IsHost (dest : String) : Type 0 where
  pub nonempty : (trim_space dest == "") ≡ false
  pub no_scheme : contains_text (trim_space dest) "://" ≡ false
  pub no_path : contains_text (trim_space dest) "/" ≡ false

-- What the program relies on in a configuration.
pub record IsConsistent (entries : Entries) (parse_duration : String → Option Err) (cfg : Config)
    : Type 0 where
  pub agent_known : ((cfg.agent == "") || contains cfg.agent (supported_types entries)) ≡ true
  pub http_port_low : pos 1 ≤ℤ cfg.forgejo_http_port
  pub http_port_high : cfg.forgejo_http_port ≤ℤ pos 65535
  pub ssh_port_low : pos 1 ≤ℤ cfg.forgejo_ssh_port
  pub ssh_port_high : cfg.forgejo_ssh_port ≤ℤ pos 65535
  pub cpu_positive : pos 1 ≤ℤ cfg.runtime.cpu
  pub memory_positive : pos 1 ≤ℤ cfg.runtime.memory
  pub disk_positive : pos 1 ≤ℤ cfg.runtime.disk
  pub timeout_parses : parse_duration cfg.runtime.startup_timeout ≡ none
  pub hosts : All IsHost cfg.proxy_allowlist
  pub workspace_ref : is_bad_ref (trim_space cfg.images.workspace) ≡ false
  pub toolbox_ref : is_bad_ref (trim_space cfg.images.toolbox) ≡ false
  pub proxy_ref : is_bad_ref (trim_space cfg.images.proxy) ≡ false

validate_port_iff :
    (name : String) (p : ℤ) → (validate_port name p ≡ none) ↔ ((pos 1 ≤ℤ p) × (p ≤ℤ pos 65535))
unfolding validate_port
validate_port_iff name p = ((λ h. ground arith), (λ h. ground arith))

check_positive_iff : (name : String) (n : ℤ) → (check_positive name n ≡ none) ↔ (pos 1 ≤ℤ n)
unfolding check_positive
check_positive_iff name n = ((λ h. ground arith), (λ h. ground arith))

validate_image_ref_iff :
    (name ref : String)
    → (validate_image_ref name ref ≡ none) ↔ (is_bad_ref (trim_space ref) ≡ false)
unfolding validate_image_ref
validate_image_ref_iff name ref = ((λ h. ground arith), (λ h. ground arith))

check_agent_iff :
    (entries : Entries) (agent : String)
    → (check_agent entries agent ≡ none)
      ↔ ((agent == "" || contains agent (supported_types entries)) ≡ true)
unfolding check_agent
check_agent_iff entries agent = (
  (λ h. ground (arith, type_from_string-supported_types entries agent)),
  (λ h. ground (arith, type_from_string-supported_types entries agent)),
)

check_duration_iff : (o : Option Err) → (check_duration o ≡ none) ↔ (o ≡ none)
unfolding check_duration
check_duration_iff o = ((λ h. ground arith), (λ h. ground arith))

check_allowlist_to : (xs : List String) → check_allowlist xs ≡ none → All IsHost xs
unfolding check_allowlist
check_allowlist_to [] h = tt
check_allowlist_to (x ∷ xs) h = (ground arith, check_allowlist_to xs (ground arith))

check_allowlist_of : (xs : List String) → All IsHost xs → check_allowlist xs ≡ none
unfolding check_allowlist
check_allowlist_of [] h = refl
check_allowlist_of (x ∷ xs) (h, hs) = ground (arith, check_allowlist_of xs hs)

or_else-none : (a b : Option Err) → ((a or_else b) ≡ none) ↔ ((a ≡ none) × (b ≡ none))
or_else-none none b = ((λ h. (refl, h)), (λ h. h.1))
or_else-none (some e) b = ((λ h. cc), (λ h. cc))

-- Validate accepts a configuration exactly when it is consistent: the agent is empty or supported, both
-- ports lie between 1 and 65535, the sizes are positive, the timeout parses, the allowlist holds hosts
-- and the images are references.
pub validate_iff :
    (entries : Entries) (parse_duration : String → Option Err) (cfg : Config)
    → (validate entries parse_duration (some cfg) ≡ none) ↔ IsConsistent entries parse_duration cfg
unfolding validate
validate_iff entries parse_duration cfg = (accepted, consistent)
  where
    accepted :
        validate entries parse_duration (some cfg) ≡ none → IsConsistent entries parse_duration cfg
    accepted h =
        let (agent, h1) = (or_else-none _ _).0 h in
        let (http, h2) = (or_else-none _ _).0 h1 in
        let (ssh, h3) = (or_else-none _ _).0 h2 in
        let (cpu, h4) = (or_else-none _ _).0 h3 in
        let (memory, h5) = (or_else-none _ _).0 h4 in
        let (disk, h6) = (or_else-none _ _).0 h5 in
        let (timeout, h7) = (or_else-none _ _).0 h6 in
        let (hosts, h8) = (or_else-none _ _).0 h7 in
        let (workspace, h9) = (or_else-none _ _).0 h8 in
        let (toolbox, proxy) = (or_else-none _ _).0 h9 in
        record {
          agent_known = (check_agent_iff entries cfg.agent).0 agent;
          http_port_low = ((validate_port_iff _ _).0 http).0;
          http_port_high = ((validate_port_iff _ _).0 http).1;
          ssh_port_low = ((validate_port_iff _ _).0 ssh).0;
          ssh_port_high = ((validate_port_iff _ _).0 ssh).1;
          cpu_positive = (check_positive_iff _ _).0 cpu;
          memory_positive = (check_positive_iff _ _).0 memory;
          disk_positive = (check_positive_iff _ _).0 disk;
          timeout_parses = (check_duration_iff _).0 timeout;
          hosts = check_allowlist_to cfg.proxy_allowlist hosts;
          workspace_ref = (validate_image_ref_iff _ _).0 workspace;
          toolbox_ref = (validate_image_ref_iff _ _).0 toolbox;
          proxy_ref = (validate_image_ref_iff _ _).0 proxy;
        }

    consistent :
        IsConsistent entries parse_duration cfg → validate entries parse_duration (some cfg) ≡ none
    consistent c = rw (
      (check_agent_iff entries cfg.agent).1 c.agent_known,
      (validate_port_iff "forgejo_http_port" _).1 (c.http_port_low, c.http_port_high),
      (validate_port_iff "forgejo_ssh_port" _).1 (c.ssh_port_low, c.ssh_port_high),
      (check_positive_iff "runtime.cpu" _).1 c.cpu_positive,
      (check_positive_iff "runtime.memory" _).1 c.memory_positive,
      (check_positive_iff "runtime.disk" _).1 c.disk_positive,
      (check_duration_iff _).1 c.timeout_parses,
      check_allowlist_of cfg.proxy_allowlist c.hosts,
      (validate_image_ref_iff "images.workspace" _).1 c.workspace_ref,
      (validate_image_ref_iff "images.toolbox" _).1 c.toolbox_ref,
      (validate_image_ref_iff "images.proxy" _).1 c.proxy_ref,
    )
