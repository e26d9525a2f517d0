-- ===== src/Forgejo.antt =====
-- internal/forgejo/service.go and repo.go: the forge of a repository, over a port forward whose sessions
-- are of type `F`. Requests, commands in pods, secrets and waits are the world's.
pub mod Import
pub mod Review
pub mod Reconcile
pub mod Transports
use kagen.Prelude.{
  ℕ, zero, suc, String, Bool, true, false, ◌||◌, Option, none, some, List, [], ◌∷◌, ◌==◌, nat_eq,
  if◌then◌else◌,
}
use kagen.Prelude.Int.{ℤ, pos}
use kagen.Prelude.Maps.{Map, lookup_text}
use kagen.Prelude.Text.{itoa, ◌+s◌}
use kagen.Errors.{Err, wrapped, sentinel, cluster_unhealthy, message}
use kagen.Errors.Exec.{Result, ok, err, Exec, pure, raise, ◌>>=◌, ◌>>◌, ◌or_wrap◌}
use kagen.Git.{Repository, BasicAuth, repo_id, kagen_branch}

-- A request comes back with its status code. `get_secret` is none where there is no client.
pub record Forge (W F : Type 0) : Type 0 where
  pub start_forward : String → String → ℤ → ℤ → Exec W F
  pub local_port : F → ℤ
  pub stop_forward : F → W → Option Err × W
  pub new_request : String → String → Exec W (Unit {0})
  pub get_status : String → Exec W ℕ
  pub post_status : String → String → BasicAuth → Exec W ℕ
  pub run_in_pod : String → String → List String → W → (String × Option Err) × W
  pub list_pods : String → String → Exec W (List String)
  pub get_secret : Option (String → String → Exec W (Map String))
  pub is_not_found : Err → Bool
  pub sleep : ℕ → Exec W (Unit {0})
  pub context_error : Exec W (Unit {0})

pub record ReviewSession (F : Type 0) : Type 0 where
  pub base_url : String
  pub repo_url : String
  pub auth : BasicAuth
  pub forward : F

abbrev pub default_forgejo_auth : BasicAuth
default_forgejo_auth = record { username = "kagen"; password = "kagen-internal-secret" }

abbrev pub forgejo_namespace : (String → String) → Repository → String
forgejo_namespace sha1_hex repo = "kagen-" +s repo_id sha1_hex repo

unfoldable pub auth_from_secret : Map String → Result BasicAuth
unfolding lookup_text
auth_from_secret data_of =
    let username = lookup_text "username" data_of in
    let password = lookup_text "password" data_of in
    if username == "" || password == ""
    then err (
        wrapped "%[1]w: forgejo bootstrap secret is missing username or password" []
          (sentinel cluster_unhealthy))
    else ok (record { username = username; password = password })

-- `ReviewURL`; `path_escape` is that of package net/url.
unfoldable pub review_url : {F : Type 0} → (String → String) → ReviewSession F → Repository → String
unfolding kagen_branch
review_url path_escape session repo =
    session.base_url +s "/kagen/workspace/src/branch/" +s path_escape (kagen_branch repo)

module _ {W F : Type 0} (forge : Forge W F) where
  abbrev auth_of : Result (Map String) → Result BasicAuth
  unfolding auth_from_secret
  auth_of (ok data_of) = auth_from_secret data_of
  auth_of (err e) = if forge.is_not_found e then ok default_forgejo_auth else err e

  -- The credentials where the client, if there is one, gets secrets so.
  unfoldable pub credentials_from :
      Option (String → String → Exec W (Map String)) → String → Exec W BasicAuth
  unfolding auth_of
  credentials_from none namespace w = (ok default_forgejo_auth, w)
  credentials_from (some get) namespace w =
      let (found, w1) = get namespace "forgejo-bootstrap-auth" w in (auth_of found, w1)

  unfoldable pub credentials : String → Exec W BasicAuth
  unfolding credentials_from
  credentials namespace = credentials_from forge.get_secret namespace

  -- One try of `waitForAPI`: whether the API answered with the status 200. A request that fails is as
  -- one that is not answered so.
  abbrev pub answered : Result ℕ × W → Result Bool × W
  answered (ok status, w) = (ok (nat_eq status 200), w)
  answered (err e, w) = (ok false, w)

  unfoldable pub try_api : String → Exec W Bool
  try_api url = do
    forge.context_error
    forge.new_request "GET" url or_wrap wrapped "creating forgejo API readiness request: %w" []
    λ w. answered (forge.get_status url w)

  abbrev pub unless_ready : Exec W (Unit {0}) → Bool → Exec W (Unit {0})
  unless_ready later true = pure tt
  unless_ready later false = later

  unfoldable pub wait_tries : ℕ → ℤ → Exec W (Unit {0})
  unfolding try_api
  wait_tries zero port =
      raise (message "timed out waiting for forgejo API on local port %d" (itoa port ∷ []))
  wait_tries (suc tries) port =
      let later = forge.sleep 500 >> wait_tries tries port in
      try_api ("http://127.0.0.1:" +s itoa port +s "/api/v1/version") >>= unless_ready later

  -- `waitForAPI`
  unfoldable pub wait_for_api : ℤ → Exec W (Unit {0})
  unfolding wait_tries
  wait_for_api port = wait_tries 30 port

  abbrev stop_unless : F → Result (Unit {0}) × W → Result (Unit {0}) × W
  stop_unless forward (ok u, w) = (ok tt, w)
  stop_unless forward (err e, w) = let (stopped, w1) = forge.stop_forward forward w in (err e, w1)

  -- What is done over a forward that is stopped where it fails.
  unfoldable pub stopping : F → Exec W (Unit {0}) → Exec W (Unit {0})
  stopping forward m w = stop_unless forward (m w)

  -- `defer session.Stop()`
  unfoldable pub closing_session : {A : Type 0} → ReviewSession F → Exec W A → Exec W A
  closing_session session m w =
      let (result, w1) = m w in
      let (stopped, w2) = forge.stop_forward session.forward w1 in (result, w2)

  abbrev pub session_at : ℤ → BasicAuth → F → ReviewSession F
  session_at port auth forward = record {
    base_url = "http://127.0.0.1:" +s itoa port;
    repo_url = "http://127.0.0.1:" +s itoa port +s "/kagen/workspace.git";
    auth = auth;
    forward = forward;
  }

  unfoldable pub open_transport : String → BasicAuth → Exec W (ReviewSession F)
  unfolding stopping wait_for_api
  open_transport namespace auth =
      (forge.start_forward namespace "svc/forgejo" (pos 0) (pos 3000)
        or_wrap wrapped "starting forgejo review transport: %w" [])
      >>= λ forward.
          (stopping forward (wait_for_api (forge.local_port forward))
            >> pure (session_at (forge.local_port forward) auth forward))

  -- `StartReviewSession`
  unfoldable pub start_review_session : (String → String) → Repository → Exec W (ReviewSession F)
  unfolding credentials open_transport
  start_review_session sha1_hex repo =
      (credentials (forgejo_namespace sha1_hex repo)
        or_wrap wrapped "loading forgejo credentials: %w" [])
      >>= open_transport (forgejo_namespace sha1_hex repo)

  -- `withGitTransport`
  unfoldable pub with_transport :
      {A : Type 0} → (String → String) → Repository → (ReviewSession F → Exec W A) → Exec W A
  unfolding start_review_session closing_session
  with_transport sha1_hex repo body =
      start_review_session sha1_hex repo >>= λ session. closing_session session (body session)
