-- ===== src/Workflow/Session/Start/Failures.antt =====
-- The failures of the start workflow, internal/workflow/session.go.
use kagen.Prelude.{String, Bool, true, ◌≡◌, ◌∙◌, refl, ap, ◌⊎◌, inl, inr, none, List, [], ◌∷◌}
use kagen.Prelude.Int.{pos, ltb_ℤ}
use kagen.Prelude.Text.{itoa}
use kagen.Errors.{Err, message, error_text}
use kagen.Errors.Exec.{Result, ok, err, Exec, ◌>>=◌}
use kagen.Config.{Config}
use kagen.Agent.{AgentType}
use kagen.Git.{Repository}
use kagen.Session.{KagenSession}
use kagen.Diagnostics.{Recorder}
use kagen.Diagnostics.Recording.{Host, add_metadata}
use kagen.Workflow.Session.{SessionStore, mark_error, create_persisted_kagen_session}
use kagen.Workflow.Capture.{Traced, on_world, captured}
use kagen.Workflow.Session.Attach.Laws.{capture_workflow_failure_lem}
use kagen.Workflow.Session.Start.{
  StartDependencies, start_steps, start_stored, start_created, handle_failure,
}

marked_cases :
    (sprintf : String → List String → String) (session : KagenSession) (e : Err)
    (result marked : Result (Unit {0}))
    → result ≡ err (mark_error sprintf (pos session.id) e marked)
    → ((marked ≡ ok tt) × (result ≡ err e))
      ⊎ ((update : Err) × (marked ≡ err update)
          × (result
              ≡ err (
                  message "%v (failed to mark session %d failed: %v)" (
                    error_text sprintf e
                    ∷ itoa (pos session.id)
                    ∷ error_text sprintf update
                    ∷ []))))
marked_cases sprintf session e result (ok u) h = inl (refl, h)
marked_cases sprintf session e result (err update) h = inr (update, refl, h)

on_world-then :
    {W A B : Type 0} (m : Exec W A) (f : A → Traced W B) (r : Recorder) (w w1 : W) (a : A)
    → m w ≡ (ok a, w1)
    → (on_world m >>= f) (r, w) ≡ f a (r, w1)
on_world-then m f r w w1 a same = rw same refl

captured-err :
    {W A : Type 0} (capture : Err → Recorder × W → Err × (Recorder × W)) (m : Traced W A)
    (s t : Recorder × W) (e : Err)
    → m s ≡ (err e, t)
    → (captured capture m s).0 ≡ err (capture e t).0
unfolding captured
captured-err capture m s t e same = rw same refl

-- Where a start has made its session and a step after that fails, it tries to mark the session failed,
-- whichever step it was and whether or not the session was ready, and returns the step's error; where the mark
-- fails too, it returns the one that tells of both.
pub start_stored-failed :
    {W F : Type 0} (host : Host W) (deps : StartDependencies W F) (store : SessionStore W)
    (persisted : KagenSession) (repo : Repository) (kube_ctx : String) (cfg : Config)
    (agent_type : AgentType) (detach : Bool) (e : Err) (r r' : Recorder) (w w1 w2 : W)
    → create_persisted_kagen_session store deps.sha1_hex host.now repo w ≡ (ok persisted, w1)
    → start_steps host deps store persisted repo kube_ctx cfg agent_type detach (
      add_metadata "session_uid" persisted.uid
          (add_metadata "session_id" (itoa (pos persisted.id)) r),
      w1,
    )
      ≡ (err e, (r', w2))
    → ltb_ℤ (pos 0) (pos persisted.id) ≡ true
    → let marked = (store.update_kagen_session_status (pos persisted.id) "failed" w2).0 in
      let result = (start_stored host deps repo kube_ctx cfg agent_type detach store (r, w)).0 in
      ((marked ≡ ok tt) × (result ≡ err e))
      ⊎ ((update : Err) × (marked ≡ err update)
          × (result
              ≡ err (
                  message "%v (failed to mark session %d failed: %v)" (
                    error_text host.sprintf e
                    ∷ itoa (pos persisted.id)
                    ∷ error_text host.sprintf update
                    ∷ []))))
unfolding start_stored start_created handle_failure
start_stored-failed host deps store persisted repo kube_ctx cfg agent_type detach e r r' w w1 w2
      made failed positive =
    marked_cases host.sprintf persisted e _
      (store.update_kagen_session_status (pos persisted.id) "failed" w2).0
      (ap (λ o. o.0)
          (on_world-then (create_persisted_kagen_session store deps.sha1_hex host.now repo)
            (start_created host deps repo kube_ctx cfg agent_type detach store) r w w1 persisted
            made)
        ∙ captured-err (handle_failure host deps store persisted)
            (start_steps host deps store persisted repo kube_ctx cfg agent_type detach) _ (r', w2) e
            failed
        ∙ ap err
            (capture_workflow_failure_lem host deps.shared.failure_artefacts store
              (pos persisted.id) none e r' w2 positive).1)
