-- ===== src/Cluster/Api.antt =====
-- The API server, as internal/cluster uses it: what client-go sends for one kind of object, which errors it
-- knows, and the clock and the context of the caller.
pub mod Laws
use kagen.Prelude.Text.{◌+s◌}
use kagen.Errors.Inversion.{bind-ok, or_wrap-ok}
use kagen.Prelude.{
  ℕ, String, Bool, true, false, Bool-cases, inl, inr, ◌⊎◌, ◌≡◌, refl, sym, ◌∙◌, arith, Option, none,
  some, [], ◌∷◌, if◌then◌else◌,
}
use kagen.Errors.{Err, wrapped}
use kagen.Errors.Exec.{Result, ok, err, Exec, ◌>>=◌, ◌or_wrap◌}
use kagen.Cluster.Objects.{Namespace, Pod, Claim, ConfigMap, Service, Deployment, NetworkPolicy}

-- The requests on the objects of a kind; the first text of each is the namespace.
pub record Resource (W A : Type 0) : Type 0 where
  pub create : String → A → Exec W (Unit {0})
  pub get : String → String → Exec W A
  pub update : String → A → Exec W (Unit {0})
  pub delete : String → String → Exec W (Unit {0})

-- `pause` waits for some milliseconds or for the end of the context, and `context_error` is what the
-- context has ended with.
pub record Api (W : Type 0) : Type 0 where
  pub namespaces : Resource W Namespace
  pub pods : Resource W Pod
  pub claims : Resource W Claim
  pub config_maps : Resource W ConfigMap
  pub services : Resource W Service
  pub deployments : Resource W Deployment
  pub policies : Resource W NetworkPolicy
  pub is_already_exists : Err → Bool
  pub is_not_found : Err → Bool
  pub now : W → ℕ × W
  pub pause : ℕ → W → Option Err × W
  pub context_error : W → Option Err × W

abbrev pub removed :
    {W : Type 0} → (Err → Bool) → String → Result (Unit {0}) × W → Result (Unit {0}) × W
removed is_not_found what (ok u, w) = (ok tt, w)
removed is_not_found what (err e, w) =
    if is_not_found e then (ok tt, w) else (err (wrapped ("deleting " +s what +s ": %w") [] e), w)

module _ {W A : Type 0} (is_already_exists : Err → Bool) (res : Resource W A) where
  -- The object that is there gets the fields that `merge` writes.
  unfoldable pub overwrite : String → String → String → (A → A) → Exec W (Unit {0})
  overwrite what namespace name merge =
      (res.get namespace name or_wrap wrapped ("getting " +s what +s ": %w") []) >>= λ current.
      (res.update namespace (merge current) or_wrap wrapped ("updating " +s what +s ": %w") [])

  unfoldable pub unless_created :
      String → String → String → (A → A) → Result (Unit {0}) × W → Result (Unit {0}) × W
  unfolding overwrite
  unless_created what namespace name merge (ok u, w) = (ok tt, w)
  unless_created what namespace name merge (err e, w) =
      if is_already_exists e
      then overwrite what namespace name merge w
      else (err (wrapped ("creating " +s what +s ": %w") [] e), w)

  -- An object that is made, or written over where it is there.
  unfoldable pub create_or_update : String → String → String → A → (A → A) → Exec W (Unit {0})
  unfolding unless_created
  create_or_update what namespace name desired merge w =
      unless_created what namespace name merge (res.create namespace desired w)

module _ {W A : Type 0} (is_not_found : Err → Bool) (res : Resource W A) where
  -- A deletion, which is as well where there is no such object.
  unfoldable pub remove : String → String → String → Exec W (Unit {0})
  remove what namespace name w = removed is_not_found what (res.delete namespace name w)
