-- ===== src/Forgejo/Reconcile.antt =====
-- internal/forgejo/reconcile.go: the objects of the forge in the namespace of a repository.
pub mod Laws
use kagen.Prelude.{
  ℕ, zero, suc, String, Bool, true, false, ltb, Option, none, some, List, [], ◌∷◌, if◌then◌else◌,
}
use kagen.Prelude.Maps.{Map, insert}
use kagen.Errors.{Err, wrapped}
use kagen.Errors.Exec.{Result, ok, err, Exec, ◌>>=◌, ◌>>◌, ◌or_wrap◌}
use kagen.Git.{Repository, repo_id}
use kagen.Cluster.Objects.{Meta, Claim, Deployment, Container, ContainerEnv, claim}
use kagen.Cluster.Api.{Resource}
use kagen.Forgejo.{forgejo_namespace}

-- `data_of` is the string data that a request writes.
pub record Secret : Type 0 where
  pub meta : Meta
  pub data_of : Map String

-- The target of a port is a port of the container, by name.
pub record NamedPort : Type 0 where
  pub name : String
  pub port : ℕ
  pub target_port : String

pub record ForgeService : Type 0 where
  pub meta : Meta
  pub selector : Map String
  pub ports : List NamedPort

-- A deployment whose pod runs as a user and a group, with a group for its volumes.
pub record ForgeDeployment : Type 0 where
  pub deployment : Deployment
  pub run_as : ℕ × ℕ
  pub fs_group : ℕ

-- The API server, as the reconciliation uses it; `sleep` is `sleepContext`.
pub record ForgeApi (W : Type 0) : Type 0 where
  pub secrets : Resource W Secret
  pub claims : Resource W Claim
  pub deployments : Resource W ForgeDeployment
  pub services : Resource W ForgeService
  pub is_already_exists : Err → Bool
  pub is_not_found : Err → Bool
  pub context_error : W → Option Err × W
  pub sleep : ℕ → W → Option Err × W

abbrev forge_meta : String → String → String → Meta
forge_meta name namespace repo_id = record {
  name = name;
  namespace = namespace;
  labels = ("kagen.io/repo-id", repo_id) ∷ ("app.kubernetes.io/name", "forgejo") ∷ [];
}

unfoldable pub bootstrap_secret : String → Secret
bootstrap_secret namespace = record {
  meta = record { name = "forgejo-bootstrap-auth"; namespace = namespace; labels = [] };
  data_of = ("username", "kagen") ∷ ("password", "kagen-internal-secret") ∷ [];
}

-- The secret that is there, with the credentials.
unfoldable pub with_credentials : Secret → Secret
unfolding insert
with_credentials current = record {
  meta = current.meta;
  data_of = insert "password" "kagen-internal-secret" (insert "username" "kagen" current.data_of);
}

unfoldable pub forge_claim : String → String → Claim
forge_claim namespace repo_id = record {
  meta = forge_meta "forgejo-data" namespace repo_id;
  storage = "2Gi";
}

abbrev variable : String → String → ContainerEnv
variable name value = record { name = name; value = value; value_from = none }

abbrev forge_container : Container
forge_container = record {
  name = "forgejo";
  image = "codeberg.org/forgejo/forgejo:1.21-rootless";
  command = [];
  args = [];
  env =
      variable "FORGEJO__database__DB_TYPE" "sqlite3"
      ∷ variable "FORGEJO__database__PATH" "/data/gitea.db"
      ∷ variable "FORGEJO__security__INSTALL_LOCK" "true"
      ∷ [];
  working_dir = "";
  mounts = record { name = "data"; mount_path = "/data"; sub_path = ""; read_only = false } ∷ [];
  run_as = none;
  ports = record { name = "http"; port = 3000 } ∷ record { name = "ssh"; port = 22 } ∷ [];
  readiness = none;
}

unfoldable pub forge_deployment : String → String → ForgeDeployment
forge_deployment namespace repo_id = record {
  deployment = record {
    meta = forge_meta "forgejo" namespace repo_id;
    replicas = 1;
    selector = ("app", "forgejo") ∷ [];
    template = record {
      labels =
          ("app", "forgejo")
          ∷ ("kagen.io/repo-id", repo_id)
          ∷ ("app.kubernetes.io/name", "forgejo")
          ∷ [];
      annotations = [];
      spec = record {
        init_containers = [];
        containers = forge_container ∷ [];
        volumes = record { name = "data"; source = claim "forgejo-data" } ∷ [];
      };
    };
    ready_replicas = 0;
  };
  run_as = (1000, 1000);
  fs_group = 1000;
}

unfoldable pub forge_service : String → String → ForgeService
forge_service namespace repo_id = record {
  meta = forge_meta "forgejo" namespace repo_id;
  selector = ("app", "forgejo") ∷ [];
  ports =
      record { name = "http"; port = 3000; target_port = "http" }
      ∷ record { name = "ssh"; port = 22; target_port = "ssh" }
      ∷ [];
}

module _ {W : Type 0} (api : ForgeApi W) where
  abbrev unless_exists : (Err → Err) → Result (Unit {0}) × W → Result (Unit {0}) × W
  unless_exists wrap (ok u, w) = (ok tt, w)
  unless_exists wrap (err e, w) = if api.is_already_exists e then (ok tt, w) else (err (wrap e), w)

  -- `ensurePVC`, `ensureDeployment` and `ensureService`: an object that is there is left as it is.
  unfoldable pub create_once :
      {A : Type 0} → Resource W A → (Err → Err) → String → A → Exec W (Unit {0})
  create_once res wrap namespace a w = unless_exists wrap (res.create namespace a w)

  unfoldable pub update_secret : String → Exec W (Unit {0})
  update_secret namespace =
      (api.secrets.get namespace "forgejo-bootstrap-auth"
        or_wrap wrapped "getting forgejo bootstrap secret: %w" [])
      >>= λ current.
          (api.secrets.update namespace (with_credentials current)
            or_wrap wrapped "updating forgejo bootstrap secret: %w" [])

  abbrev or_update : String → Result (Unit {0}) × W → Result (Unit {0}) × W
  unfolding update_secret
  or_update namespace (ok u, w) = (ok tt, w)
  or_update namespace (err e, w) =
      if api.is_already_exists e
      then update_secret namespace w
      else (err (wrapped "creating forgejo bootstrap secret: %w" [] e), w)

  unfoldable pub ensure_bootstrap_secret : String → Exec W (Unit {0})
  unfolding or_update
  ensure_bootstrap_secret namespace w =
      or_update namespace (api.secrets.create namespace (bootstrap_secret namespace) w)

  -- One look at the deployment in `waitReady`: none where it is not ready, or not there, yet.
  abbrev pub looked : Result ForgeDeployment → Option (Result (Unit {0}))
  looked (ok d) = if ltb 0 (d.deployment.ready_replicas) then some (ok tt) else none
  looked (err e) =
      if api.is_not_found e
      then none
      else some (err (wrapped "getting forgejo deployment: %w" [] e))

  abbrev pub seen : Result ForgeDeployment × W → Option (Result (Unit {0})) × W
  seen (found, w) = (looked found, w)

  abbrev pub then_or :
      Option (Result (Unit {0})) × W
      → (W → Option (Result (Unit {0})) × W)
      → Option (Result (Unit {0})) × W
  then_or (none, w) next = next w
  then_or (some r, w) next = (some r, w)

  abbrev pub unless_error : Option Err × W → Option (Result (Unit {0})) × W
  unless_error (none, w) = (none, w)
  unless_error (some e, w) = (some (err e), w)

  unfoldable pub look : String → W → Option (Result (Unit {0})) × W
  look namespace w = seen (api.deployments.get namespace "forgejo" w)

  -- `waitReady`, whose loop takes fuel; none is out of fuel.
  unfoldable pub wait_ready : ℕ → String → W → Option (Result (Unit {0})) × W
  unfolding look
  wait_ready zero namespace w = (none, w)
  wait_ready (suc fuel) namespace w = then_or (unless_error (api.context_error w)) λ w1.
      then_or (look namespace w1)
        λ w2. then_or (unless_error (api.sleep 2000 w2)) (wait_ready fuel namespace)

  -- The requests of `EnsureRepo` before the wait.
  unfoldable pub ensure_objects : (String → String) → Repository → Exec W (Unit {0})
  unfolding ensure_bootstrap_secret create_once
  ensure_objects sha1_hex repo =
      let namespace = forgejo_namespace sha1_hex repo in
      let id = repo_id sha1_hex repo in
      (ensure_bootstrap_secret namespace or_wrap wrapped "ensuring forgejo bootstrap secret: %w" [])
      >> ((create_once api.claims (λ e. e) namespace (forge_claim namespace id)
            or_wrap wrapped "ensuring forgejo pvc: %w" [])
          >> (create_once api.deployments (wrapped "creating forgejo deployment: %w" []) namespace
                (forge_deployment namespace id)
              >> create_once api.services (wrapped "creating forgejo service: %w" []) namespace
                  (forge_service namespace id)))

  abbrev pub then_wait :
      (W → Option (Result (Unit {0})) × W) → Result (Unit {0}) × W → Option (Result (Unit {0})) × W
  then_wait wait (ok u, w) = wait w
  then_wait wait (err e, w) = (some (err e), w)

  -- `EnsureRepo`
  unfoldable pub ensure_repo :
      ℕ → (String → String) → Repository → W → Option (Result (Unit {0})) × W
  unfolding ensure_objects wait_ready
  ensure_repo fuel sha1_hex repo w =
      then_wait (wait_ready fuel (forgejo_namespace sha1_hex repo)) (ensure_objects sha1_hex repo w)
