-- ===== src/Workflow/Session/Attach/Laws.antt =====
-- Laws of the attach workflow, internal/workflow/session.go.
use kagen.Prelude.{Bool, true, false, ◌≡◌, refl, Option, none, some, ◌==◌}
use kagen.Prelude.Int.{ℤ, pos, ltb_ℤ}
use kagen.Errors.{Err}
use kagen.Errors.Exec.{ok, err}
use kagen.Config.{Config}
use kagen.Agent.{AgentType}
use kagen.Session.{Summary}
use kagen.Diagnostics.{Recorder}
use kagen.Diagnostics.Recording.{Host}
use kagen.Workflow.Session.{
  fail_start_session, mark_error, SessionStore, FailureArtefactRequest, resolve_attach_summary,
  validate_attach_summary,
}
use kagen.Workflow.Capture.{capture_workflow_failure, FailureCapture}
use kagen.Workflow.Session.Attach.{AttachDependencies, attach_stored}

-- An attach whose session resolves to a summary that is not ready returns an error with nothing done after
-- the resolution: no step of the trace is started, and the world is as the resolution left it.
pub attach_stored-refuses :
    {W : Type 0} (host : Host W) (deps : AttachDependencies W) (id : ℤ) (selected : Bool)
    (cfg : Config) (agent_type : AgentType) (store : SessionStore W) (r : Recorder) (w w1 : W)
    (summary : Summary)
    → resolve_attach_summary store deps.discover_repository id selected agent_type w
      ≡ (ok summary, w1)
    → (summary.session.status == "ready") ≡ false
    → (e : Err) × (attach_stored host deps id selected cfg agent_type store (r, w)
        ≡ (err e, (r, w1)))
unfolding attach_stored validate_attach_summary
attach_stored-refuses host deps id selected cfg agent_type store r w w1 summary resolved other =
    rw (resolved, attach_stored, other) (_, refl)

-- Capturing the failure of a workflow that does not update the session gives back the failure itself, with
-- or without artefacts. One that does, with a store and a session id above 0, tries to mark the session failed, and
-- gives back the failure unless the mark itself fails.
pub capture_workflow_failure_lem :
    {W : Type 0} (host : Host W) (collector : Option (FailureArtefactRequest → W → W))
    (store : SessionStore W) (id : ℤ) (summary : Option Summary) (e : Err) (r : Recorder) (w : W)
    → ltb_ℤ (pos 0) id ≡ true
    → let state : FailureCapture W = record {
      store = some store;
      session_id = id;
      session_summary = summary;
    } in
      ((capture_workflow_failure host collector false state e (r, w)).0 ≡ e)
      × ((capture_workflow_failure host collector true state e (r, w)).0
          ≡ mark_error host.sprintf id e (store.update_kagen_session_status id "failed" w).0)
unfolding capture_workflow_failure fail_start_session
capture_workflow_failure_lem host none store id summary e r w h = (refl, rw h)
capture_workflow_failure_lem host (some collect) store id summary e r w h = (refl, rw h)
