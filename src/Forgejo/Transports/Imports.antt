-- ===== src/Forgejo/Transports/Imports.antt =====
-- The port forwards of internal/forgejo/repo.go: those of an import.
use kagen.Prelude.{
  ℕ, zero, suc, String, Option, none, some, List, [], ◌∷◌, ◌+◌, ◌≡◌, refl, ◌∙◌, ap, arith,
  Bool-cases, inl, inr,
}
use kagen.Prelude.Int.{pos}
use kagen.Prelude.Text.{contains_text, join, ◌+s◌}
use kagen.Errors.{Err, wrapped, message}
use kagen.Errors.Exec.{Result, ok, err, Exec, pure, ◌>>◌, ◌or_wrap◌}
use kagen.Git.{Repository, BasicAuth, kagen_branch}
use kagen.Git.Commands.{GitProcess, push_url, git_command_context_with_auth}
use kagen.Forgejo.{Forge, ReviewSession, wait_for_api, session_at, forgejo_namespace}
use kagen.Forgejo.Import.{
  get_forgejo_pod, user_exists, exec_error, next_try, create_admin, listed, check_admin,
  ensure_admin_user, created, repo_body, request_repo, post_repo, create_repo, try_repo, or_again,
  open_repo, ensure_forgejo_repo, or_push, push_tries, push_repo, import_repo,
}
use kagen.Forgejo.Transports.{
  Keeps, Opens, gain, bind-Keeps, bind-Opens, or_wrap-Opens, Counts, stopping-Opens,
  closing_session-Keeps,
}
use kagen.Forgejo.Transports.Service.{credentials-Keeps, wait_for_api-Keeps, with_auth-Keeps}

module _ {W F : Type 0} {forge : Forge W F} {g : GitProcess W} {live : W → ℕ}
    (counts : Counts forge g live) where
  sleep_then-Keeps :
      {A : Type 0} (n : ℕ) (m : Exec W A) → Keeps live m → Keeps live (forge.sleep n >> m)
  sleep_then-Keeps n m keeps =
      bind-Keeps live (forge.sleep n) (λ u. m) (counts.on_sleep n) λ u. keeps

  create_admin-Keeps :
      (sprintf : String → List String → String) (namespace pod : String) (tries : ℕ) (last : Err)
      → Keeps live (create_admin forge sprintf namespace pod tries last)
  unfolding create_admin
  create_admin-Keeps sprintf namespace pod zero last w = refl
  create_admin-Keeps sprintf namespace pod (suc tries) last w =
      go (create_admin forge sprintf namespace pod tries)
        (create_admin-Keeps sprintf namespace pod tries) _
      ∙ counts.on_run namespace pod _ w
    where
      go :
          (later : Err → Exec W (Unit {0}))
          → ((e : Err) → Keeps live (later e))
          → (o : (String × Option Err) × W)
          → live (next_try forge sprintf namespace pod later o).1 ≡ live o.1
      go later keeps ((out, e), w1) = elim (Bool-cases (user_exists forge sprintf out e)) [
        | inl same ↦ rw same refl
        | inr same ↦
            rw same
              (sleep_then-Keeps 2000 (later (exec_error forge namespace pod out e)) (keeps _) w1)
      ]

  check_admin-Keeps : (namespace pod : String) → Keeps live (check_admin forge namespace pod)
  unfolding check_admin
  check_admin-Keeps namespace pod w = go _ ∙ counts.on_run namespace pod _ w
    where
      go : (o : (String × Option Err) × W) → live (listed forge o).1 ≡ live o.1
      go ((out, some e), w1) = refl
      go ((out, none), w1) = elim (Bool-cases (contains_text out "kagen")) [
        | inl same ↦ rw same refl
        | inr same ↦ rw same refl
      ]

  ensure_admin_user-Keeps :
      (sprintf : String → List String → String) (namespace pod : String)
      → Keeps live (ensure_admin_user forge sprintf namespace pod)
  unfolding ensure_admin_user
  ensure_admin_user-Keeps sprintf namespace pod =
      bind-Keeps live (create_admin forge sprintf namespace pod 5 (message "" [])) _
        (create_admin-Keeps sprintf namespace pod 5 (message "" []))
        λ u.
          bind-Keeps live (check_admin forge namespace pod) (λ v. forge.sleep 2000)
            (check_admin-Keeps namespace pod) λ v. counts.on_sleep 2000

  create_repo-Keeps : (session : ReviewSession F) → Keeps live (create_repo forge session)
  unfolding create_repo
  create_repo-Keeps session =
      bind-Keeps live (request_repo forge session) (λ u. post_repo forge session)
        (counts.on_request "POST" (session.base_url +s "/api/v1/user/repos"))
        λ u w.
          go (forge.post_status (session.base_url +s "/api/v1/user/repos") repo_body session.auth w)
          ∙ counts.on_post (session.base_url +s "/api/v1/user/repos") repo_body session.auth w
    where
      go : (o : Result ℕ × W) → live (created forge o).1 ≡ live o.1
      go (err e, w) = refl
      go (ok status, w) = ground arith

  try_repo-Opens :
      (namespace pod : String) (auth : BasicAuth) → Opens live (try_repo forge namespace pod auth)
  unfolding try_repo
  try_repo-Opens namespace pod auth =
      stopping-Opens counts _
        (λ f.
          wait_for_api forge (forge.local_port f)
          >> create_repo forge (session_at forge (forge.local_port f) auth f))
        (λ f. session_at forge (forge.local_port f) auth f)
        (or_wrap-Opens live _ _ (counts.on_start namespace ("pod/" +s pod) (pos 0) (pos 3000)))
        λ f.
          bind-Keeps live (wait_for_api forge (forge.local_port f))
            (λ u. create_repo forge (session_at forge (forge.local_port f) auth f))
            (wait_for_api-Keeps counts (forge.local_port f))
            λ u. create_repo-Keeps (session_at forge (forge.local_port f) auth f)

  open_repo-Opens :
      (namespace pod : String) (auth : BasicAuth) (tries : ℕ) (last : Err)
      → Opens live (open_repo forge namespace pod auth tries last)
  unfolding open_repo
  open_repo-Opens namespace pod auth zero last w = omega arith
  open_repo-Opens namespace pod auth (suc tries) last w =
      go (open_repo forge namespace pod auth tries) (open_repo-Opens namespace pod auth tries)
        (try_repo forge namespace pod auth w) (try_repo-Opens namespace pod auth w)
    where
      go :
          (later : Err → Exec W (ReviewSession F))
          → ((e : Err) → Opens live (later e))
          → (o : Result (ReviewSession F) × W) → live o.1 ≡ gain o.0 + live w
          → live (or_again forge later o).1 ≡ gain (or_again forge later o).0 + live w
      go later opens (ok session, w1) same = same
      go later opens (err e, w1) same =
          bind-Opens live (forge.sleep 1000) (λ u. later e) (counts.on_sleep 1000) (λ u. opens e) w1
          ∙ ap (λ n. gain ((forge.sleep 1000 >> later e) w1).0 + n) (omega (arith, same))

  push_url-Keeps :
      (repo : Repository) (url : String) (auth : Option BasicAuth) (refspecs : List String)
      → Keeps live (push_url g repo url auth refspecs)
  unfolding push_url
  push_url-Keeps repo url auth [] w = refl
  push_url-Keeps repo url auth (s ∷ more) w =
      bind-Keeps live
        (git_command_context_with_auth g repo.path auth ("push" ∷ "-f" ∷ url ∷ s ∷ more)
          or_wrap wrapped "git push %s %s: %w" (url ∷ join (s ∷ more) " " ∷ []))
        (λ out. pure tt) (with_auth-Keeps counts repo.path auth ("push" ∷ "-f" ∷ url ∷ s ∷ more))
        (λ out v. refl) w

  push_tries-Keeps :
      (repo : Repository) (session : ReviewSession F) (refspecs : List String) (tries : ℕ)
      (last : Err)
      → Keeps live (push_tries forge g repo session refspecs tries last)
  unfolding push_tries
  push_tries-Keeps repo session refspecs zero last w = refl
  push_tries-Keeps repo session refspecs (suc tries) last w =
      go (push_tries forge g repo session refspecs tries)
        (push_tries-Keeps repo session refspecs tries) _
      ∙ push_url-Keeps repo session.repo_url (some session.auth) refspecs w
    where
      go :
          (later : Err → Exec W (Unit {0}))
          → ((e : Err) → Keeps live (later e))
          → (o : Result (Unit {0}) × W) → live (or_push forge later o).1 ≡ live o.1
      go later keeps (ok u, w1) = refl
      go later keeps (err e, w1) = sleep_then-Keeps 1000 (later e) (keeps e) w1

  get_forgejo_pod-Keeps : (namespace : String) → Keeps live (get_forgejo_pod forge namespace)
  unfolding get_forgejo_pod
  get_forgejo_pod-Keeps namespace w = counts.on_list namespace "app=forgejo" w

  -- An import leaves as many port forwards open as there were, whatever it comes back with: a try whose
  -- API does not answer or whose repository cannot be made stops its own, and the one that is pushed over
  -- is stopped after the push.
  pub import_repo-transports :
      (sprintf : String → List String → String) (sha1_hex : String → String) (repo : Repository)
      (w : W)
      → live (import_repo forge sprintf sha1_hex g repo w).1 ≡ live w
  unfolding import_repo ensure_forgejo_repo push_repo
  import_repo-transports sprintf sha1_hex repo =
      let namespace = forgejo_namespace sha1_hex repo in
      bind-Keeps live (get_forgejo_pod forge namespace) _ (get_forgejo_pod-Keeps namespace) λ pod.
        bind-Keeps live (ensure_admin_user forge sprintf namespace pod) _
          (ensure_admin_user-Keeps sprintf namespace pod)
          λ u. bind-Keeps live _ _ (credentials-Keeps counts namespace) λ auth.
            closing_session-Keeps counts (open_repo forge namespace pod auth 5 (message "" []))
              (push_repo forge g repo) (open_repo-Opens namespace pod auth 5 (message "" []))
              λ session.
                push_tries-Keeps repo session
                  (("HEAD:" +s repo.current_branch) ∷ ("HEAD:" +s kagen_branch repo) ∷ []) 5
                  (message "" [])
