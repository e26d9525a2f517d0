-- ===== src/Forgejo/Import.antt =====
-- internal/forgejo/repo.go: the import of a repository, whose steps are tried five times.
use kagen.Prelude.{
  ℕ, zero, suc, String, Bool, true, ◌||◌, Option, none, some, List, [], ◌∷◌, nat_eq, if◌then◌else◌,
}
use kagen.Prelude.Int.{pos}
use kagen.Prelude.Text.{itoa, contains_text, ◌+s◌}
use kagen.Errors.{Err, message, wrapped, error_text}
use kagen.Errors.Exec.{Result, ok, err, Exec, pure, ◌>>=◌, ◌>>◌, ◌or_wrap◌}
use kagen.Git.{Repository, BasicAuth, kagen_branch}
use kagen.Git.Commands.{GitProcess, push_url}
use kagen.Forgejo.{
  Forge, ReviewSession, credentials, wait_for_api, stopping, closing_session, session_at,
  forgejo_namespace,
}

-- The JSON of the fields of a repository to make, whose marshalling does not fail.
abbrev pub repo_body : String
repo_body =
    "{\"auto_init\":false,\"default_branch\":\"main\",\"name\":\"workspace\",\"private\":true}"

module _ {W F : Type 0} (forge : Forge W F) where
  abbrev pub first_pod : String → Result (List String) → Result String
  first_pod namespace (err e) = err (wrapped "listing forgejo pods: %w" [] e)
  first_pod namespace (ok []) =
      err (message "forgejo pod not found in namespace %s" (namespace ∷ []))
  first_pod namespace (ok (name ∷ names)) = ok name

  unfoldable pub get_forgejo_pod : String → Exec W String
  get_forgejo_pod namespace w =
      let (pods, w1) = forge.list_pods namespace "app=forgejo" w in (first_pod namespace pods, w1)

  abbrev create_admin_command : List String
  create_admin_command =
      "forgejo" ∷ "--config" ∷ "/etc/gitea/app.ini" ∷ "admin" ∷ "user" ∷ "create" ∷ "--username"
      ∷ "kagen" ∷ "--password" ∷ "kagen-internal-secret" ∷ "--email" ∷ "kagen@internal.local"
      ∷ "--admin" ∷ "--must-change-password=false" ∷ []

  -- Whether the user is there: it was made, or the command says that it already exists.
  abbrev pub user_exists : (String → List String → String) → String → Option Err → Bool
  user_exists sprintf out none = true
  user_exists sprintf out (some e) =
      contains_text out "already exists" || contains_text (error_text sprintf e) "already exists"

  abbrev pub exec_error : String → String → String → Option Err → Err
  exec_error namespace pod out none = message "" []
  exec_error namespace pod out (some e) =
      wrapped "kubectl exec %s/%s: %s: %w" (namespace ∷ pod ∷ out ∷ []) e

  abbrev pub next_try :
      (String → List String → String)
      → String
      → String
      → (Err → Exec W (Unit {0}))
      → (String × Option Err) × W
      → Result (Unit {0}) × W
  next_try sprintf namespace pod later ((out, e), w) =
      if user_exists sprintf out e
      then (ok tt, w)
      else (forge.sleep 2000 >> later (exec_error namespace pod out e)) w

  unfoldable pub create_admin :
      (String → List String → String) → String → String → ℕ → Err → Exec W (Unit {0})
  create_admin sprintf namespace pod zero last w =
      (err (wrapped "creating forgejo admin user: %w" [] last), w)
  create_admin sprintf namespace pod (suc tries) last w =
      let later = create_admin sprintf namespace pod tries in
      next_try sprintf namespace pod later (forge.run_in_pod namespace pod create_admin_command w)

  abbrev pub listed : (String × Option Err) × W → Result (Unit {0}) × W
  listed ((out, some e), w) = (err (wrapped "listing forgejo admin users: %w" [] e), w)
  listed ((out, none), w) =
      if contains_text out "kagen"
      then (ok tt, w)
      else (err (message "forgejo admin user kagen not found after creation" []), w)

  unfoldable pub check_admin : String → String → Exec W (Unit {0})
  check_admin namespace pod w = listed (
      forge.run_in_pod namespace pod
        ("forgejo" ∷ "--config" ∷ "/etc/gitea/app.ini" ∷ "admin" ∷ "user" ∷ "list" ∷ []) w)

  unfoldable pub ensure_admin_user :
      (String → List String → String) → String → String → Exec W (Unit {0})
  unfolding create_admin check_admin
  ensure_admin_user sprintf namespace pod =
      create_admin sprintf namespace pod 5 (message "" [])
      >> (check_admin namespace pod >> forge.sleep 2000)

  abbrev pub created : Result ℕ × W → Result (Unit {0}) × W
  created (err e, w) = (err (wrapped "creating forgejo repo: %w" [] e), w)
  created (ok status, w) =
      if nat_eq status 201 || nat_eq status 409
      then (ok tt, w)
      else (err (message "unexpected status code: %d" (itoa (pos status) ∷ [])), w)

  abbrev pub post_repo : ReviewSession F → Exec W (Unit {0})
  post_repo session w =
      created
        (forge.post_status (session.base_url +s "/api/v1/user/repos") repo_body session.auth w)

  abbrev pub request_repo : ReviewSession F → Exec W (Unit {0})
  request_repo session =
      forge.new_request "POST" (session.base_url +s "/api/v1/user/repos")
      or_wrap wrapped "creating forgejo repo request: %w" []

  -- `createRepo`
  unfoldable pub create_repo : ReviewSession F → Exec W (Unit {0})
  create_repo session = request_repo session >> post_repo session

  -- One try of `ensureForgejoRepo`: its forward is stopped where the try fails.
  unfoldable pub try_repo : String → String → BasicAuth → Exec W (ReviewSession F)
  unfolding stopping wait_for_api create_repo
  try_repo namespace pod auth =
      (forge.start_forward namespace ("pod/" +s pod) (pos 0) (pos 3000)
        or_wrap wrapped "starting port-forward to forgejo: %w" [])
      >>= λ forward.
          let port = forge.local_port forward in
          let session = session_at forge port auth forward in
          (stopping forge forward (wait_for_api forge port >> create_repo session) >> pure session)

  abbrev pub or_again :
      (Err → Exec W (ReviewSession F)) → Result (ReviewSession F) × W → Result (ReviewSession F) × W
  or_again later (ok session, w) = (ok session, w)
  or_again later (err e, w) = (forge.sleep 1000 >> later e) w

  unfoldable pub open_repo : String → String → BasicAuth → ℕ → Err → Exec W (ReviewSession F)
  unfolding try_repo
  open_repo namespace pod auth zero last w =
      (err (wrapped "failed to create forgejo repo after retries: %w" [] last), w)
  open_repo namespace pod auth (suc tries) last w =
      let later = open_repo namespace pod auth tries in
      or_again later (try_repo namespace pod auth w)

  -- `ensureForgejoRepo`
  unfoldable pub ensure_forgejo_repo : String → String → BasicAuth → Exec W (ReviewSession F)
  unfolding open_repo
  ensure_forgejo_repo namespace pod auth = open_repo namespace pod auth 5 (message "" [])

  abbrev pub or_push : (Err → Exec W (Unit {0})) → Result (Unit {0}) × W → Result (Unit {0}) × W
  or_push later (ok u, w) = (ok tt, w)
  or_push later (err e, w) = (forge.sleep 1000 >> later e) w

  unfoldable pub push_tries :
      GitProcess W → Repository → ReviewSession F → List String → ℕ → Err → Exec W (Unit {0})
  unfolding push_url
  push_tries g repo session refspecs zero last w =
      (err (wrapped "pushing to forgejo: %w" [] last), w)
  push_tries g repo session refspecs (suc tries) last w =
      let later = push_tries g repo session refspecs tries in
      or_push later (push_url g repo session.repo_url (some session.auth) refspecs w)

  unfoldable pub push_repo : GitProcess W → Repository → ReviewSession F → Exec W (Unit {0})
  unfolding push_tries
  push_repo g repo session =
      push_tries g repo session
        (("HEAD:" +s repo.current_branch) ∷ ("HEAD:" +s kagen_branch repo) ∷ []) 5 (message "" [])

  -- `ImportRepo`
  unfoldable pub import_repo :
      (String → List String → String)
      → (String → String)
      → GitProcess W
      → Repository
      → Exec W (Unit {0})
  unfolding get_forgejo_pod ensure_admin_user credentials ensure_forgejo_repo closing_session
      push_repo
  import_repo sprintf sha1_hex g repo =
      let namespace = forgejo_namespace sha1_hex repo in
      get_forgejo_pod namespace >>= λ pod.
      (ensure_admin_user sprintf namespace pod
        >> ((credentials forge namespace or_wrap wrapped "loading forgejo credentials: %w" [])
            >>= λ auth.
                (ensure_forgejo_repo namespace pod auth >>= λ session.
                closing_session forge session (push_repo g repo session))))
