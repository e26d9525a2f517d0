-- ===== src/Cluster/Runtime/EnvLaws.antt =====
-- Laws of the environment of a container, internal/cluster/kube.go.
use kagen.Prelude.{String, Option, none, some, List, [], ◌∷◌, ◌≡◌, refl, ◌==◌, arith, if◌then◌else◌}
use kagen.Prelude.Lists.{contains}
use kagen.Prelude.Sort.{HasDistinct}
use kagen.Prelude.{◌||◌, ◌++◌, ◌∙◌, ap, inl, inr, sym, Bool-cases}
use text.Mathlib.TextEquality.{eq_iff}
use kagen.Agent.{RuntimeSpec, EnvVar}
use kagen.Git.Config.{UserConfig, add_subaddress}
use kagen.Cluster.Objects.{ContainerEnv, Container}
use kagen.Cluster.Runtime.{
  set_env, set_container_env, set_required_env, inject_git_authorship, set_environment,
}

-- The value of the first variable of a name.
abbrev pub env_value : String → List ContainerEnv → Option String
env_value name [] = none
env_value name (e ∷ es) =
    let later = env_value name es in if e.name == name then some e.value else later

abbrev pub env_names : List ContainerEnv → List String
env_names [] = []
env_names (e ∷ es) = e.name ∷ env_names es

env_value-set_env :
    (written read value : String) (es : List ContainerEnv)
    → env_value read (set_env written value es)
      ≡ (if written == read then some value else env_value read es)
unfolding set_env
env_value-set_env written read value [] = refl
env_value-set_env written read value (e ∷ es) = ground (
  arith,
  env_value-set_env written read value es,
  eq_iff e.name written,
  eq_iff e.name read,
  eq_iff written read,
)

contains-set_env :
    (a name value : String) (es : List ContainerEnv)
    → contains a (env_names (set_env name value es)) ≡ (a == name || contains a (env_names es))
unfolding set_env
contains-set_env a name value [] = refl
contains-set_env a name value (e ∷ es) =
    ground
      (arith, contains-set_env a name value es, eq_iff e.name name, eq_iff a name, eq_iff a e.name)

set_env-HasDistinct :
    (name value : String) (es : List ContainerEnv)
    → HasDistinct (env_names es)
    → HasDistinct (env_names (set_env name value es))
unfolding set_env
set_env-HasDistinct name value [] h = (refl, tt)
set_env-HasDistinct name value (e ∷ es) (h, hs) = elim (Bool-cases (e.name == name)) [
  | inl same ↦ rw same (h, hs)
  | inr other ↦
      rw other (
        ground (arith, contains-set_env e.name name value es),
        set_env-HasDistinct name value es hs,
      )
]

-- The value that the last of a list of settings gives to a name, or else the one that is there.
abbrev pub last_value : String → List (String × String) → Option String → Option String
last_value name [] there = there
last_value name ((key, value) ∷ more) there =
    last_value name more (if key == name then some value else there)

abbrev settings_of : List EnvVar → List (String × String)
settings_of [] = []
settings_of (variable ∷ more) = (variable.name, variable.value) ∷ settings_of more

-- What the environment of an agent's container is set to, in order.
abbrev pub settings : UserConfig → RuntimeSpec → List (String × String)
settings host_user spec =
    settings_of spec.required_env
    ++ ("GIT_AUTHOR_NAME", spec.git_author_name)
      ∷ ("GIT_AUTHOR_EMAIL", add_subaddress host_user.email spec.git_author_name)
      ∷ ("GIT_COMMITTER_NAME", host_user.name)
      ∷ ("GIT_COMMITTER_EMAIL", host_user.email)
      ∷ []

set_all : List (String × String) → Container → Container
set_all [] c = c
set_all ((key, value) ∷ more) c = set_all more (set_container_env key value c)

set_required_env-append :
    (vars : List EnvVar) (more : List (String × String)) (c : Container)
    → set_all (settings_of vars ++ more) c ≡ set_all more (set_required_env vars c)
unfolding set_all set_required_env
set_required_env-append [] more c = refl
set_required_env-append (variable ∷ vars) more c =
    set_required_env-append vars more (set_container_env variable.name variable.value c)

env_value-set_all :
    (name : String) (m : List (String × String)) (c : Container)
    → env_value name (set_all m c).env ≡ last_value name m (env_value name c.env)
unfolding set_all set_container_env
env_value-set_all name [] c = refl
env_value-set_all name ((key, value) ∷ m) c =
    env_value-set_all name m (set_container_env key value c)
    ∙ ap (last_value name m) (env_value-set_env key name value c.env)

set_all-HasDistinct :
    (m : List (String × String)) (c : Container)
    → HasDistinct (env_names c.env)
    → HasDistinct (env_names (set_all m c).env)
unfolding set_all set_container_env
set_all-HasDistinct [] c h = h
set_all-HasDistinct ((key, value) ∷ m) c h =
    set_all-HasDistinct m (set_container_env key value c) (set_env-HasDistinct key value c.env h)

set_all-settings :
    (host_user : UserConfig) (spec : RuntimeSpec) (c : Container)
    → set_all (settings host_user spec) c ≡ set_environment host_user spec c
unfolding set_environment inject_git_authorship set_all
set_all-settings host_user spec c = set_required_env-append spec.required_env _ c

-- The environment that is set in an agent's container holds, under every name, the value of the last setting of
-- that name, of the agent's required variables and then the author and the committer, and the value that was there
-- where no setting has the name; no name stands in it twice, if none did before.
pub set_environment_lem :
    (host_user : UserConfig) (spec : RuntimeSpec) (c : Container) (name : String)
    → HasDistinct (env_names c.env)
    → let after = set_environment host_user spec c in
      (env_value name after.env ≡ last_value name (settings host_user spec) (env_value name c.env))
      × HasDistinct (env_names after.env)
set_environment_lem host_user spec c name h = rw (sym (set_all-settings host_user spec c)) (
  env_value-set_all name (settings host_user spec) c,
  set_all-HasDistinct (settings host_user spec) c h,
)
