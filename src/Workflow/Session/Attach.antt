-- ===== src/Workflow/Session/Attach.antt =====
-- internal/workflow/session.go: the attach workflow.
pub mod Laws
use kagen.Prelude.{ℕ, String, Bool, true, false, Option, none, some, List, [], ◌∷◌, if◌then◌else◌}
use kagen.Prelude.Int.{ℤ, pos}
use kagen.Prelude.Text.{itoa}
use kagen.Errors.{Err, wrapped}
use kagen.Errors.Exec.{Result, ok, err, Exec, pure, ◌>>=◌, ◌>>◌, ◌or_wrap◌, from_error}
use kagen.Agent.{AgentType}
use kagen.Agent.Registry.{Entries}
use kagen.Config.{Config}
use kagen.Git.{Repository}
use kagen.Preflight.{Report, report_metadata}
use kagen.Session.{Time, AgentSession, Summary}
use kagen.Diagnostics.{Recorder}
use kagen.Diagnostics.Recording.{
  Host, new_recorder, run_step, complete, add_metadata, add_metadata_map, add_step_metadata_map,
}
use kagen.Workflow.Session.{
  SessionStore, FailureArtefactRequest, attach_trace_steps, create_persisted_agent_session,
  resolve_attach_summary, validate_attach_summary, repository_from_session, agent_container_name,
  ensure_runtime_step, launch_agent_runtime_step, preflight_runtime_step, validate_proxy_step,
  prepare_agent_state_step, attach_agent_step,
}
use kagen.Workflow.Capture.{Traced, on_world, on_trace, closing, captured, capture_workflow_failure}

-- The part of `SessionDependencies` that the attach workflow uses.
pub record AttachDependencies (W : Type 0) : Type 0 where
  pub load_config : Exec W Config
  pub discover_repository : Exec W Repository
  pub ensure_runtime : Config → Exec W String
  pub resolve_requested_agent : String → Config → Exec W AgentType
  pub show_selected_agent : Config → AgentType → W → W
  pub run_runtime_preflight :
      Option (Repository → String → AgentType → W → (Report × Option Err) × W)
  pub validate_proxy_policy : String → Repository → Config → AgentType → Exec W (Unit {0})
  pub launch_agent_runtime : Repository → String → AgentType → Exec W (Unit {0})
  pub prepare_agent_state : Repository → String → AgentType → AgentSession → Exec W (Unit {0})
  pub attach_agent : Repository → String → AgentType → AgentSession → Exec W (Unit {0})
  pub open_session_store : Exec W (SessionStore W)
  pub failure_artefacts : Option (FailureArtefactRequest → W → W)
  pub new_id : W → String × W
  pub entries : Entries

module _ {W : Type 0} (host : Host W) (deps : AttachDependencies W) where
  -- The step that makes the runtime ready, in both workflows.
  unfoldable pub ensure_runtime_traced : Config → Traced W String
  unfolding run_step
  ensure_runtime_traced cfg = run_step host ensure_runtime_step λ i. do
    kube_ctx ← on_world (deps.ensure_runtime cfg)
    on_trace (add_metadata "kube_context" kube_ctx)
    pure kube_ctx

  unfoldable pub preflight_runtime : Repository → String → AgentType → ℕ → Traced W (Unit {0})
  preflight_runtime repo kube_ctx agent_type i (r, w) = elim deps.run_runtime_preflight [
    | none ↦ (ok tt, (r, w))
    | some preflight ↦
        let ((report, e), w1) = preflight repo kube_ctx agent_type w in
        (from_error tt e, (add_step_metadata_map (report_metadata report) i r, w1))
  ]

  -- The body of the step that prepares the agent's state.
  unfoldable pub prepare_attach :
      SessionStore W → Summary → Repository → String → AgentType → ℕ → Traced W AgentSession
  unfolding create_persisted_agent_session
  prepare_attach store summary repo kube_ctx agent_type i = do
    attached_at ← on_world (λ w. let (t, w1) = host.now w in (ok t, w1))
    created ← on_world (
        create_persisted_agent_session store deps.new_id summary.session.uid agent_type attached_at)
    on_trace (
        add_step_metadata_map
          (("agent_session_id", created.id) ∷ ("state_path", created.state_path) ∷ []) i)
    on_trace (add_metadata "agent_session_id" created.id)
    on_world (deps.prepare_agent_state repo kube_ctx agent_type created)
    on_world (
        store.record_attach (pos summary.session.id) created.id attached_at
        or_wrap wrapped "recording attach for session %d: %w" (itoa (pos summary.session.id) ∷ []))
    pure created

  unfoldable pub attach_steps : SessionStore W → Config → AgentType → Summary → Traced W (Unit {0})
  unfolding ensure_runtime_traced preflight_runtime prepare_attach run_step repository_from_session
  attach_steps store cfg agent_type summary =
      let repo = repository_from_session summary.session in
      ensure_runtime_traced cfg >>= λ kube_ctx.
      run_step host launch_agent_runtime_step
        (λ i. on_world (deps.launch_agent_runtime repo kube_ctx agent_type))
      >> run_step host preflight_runtime_step (preflight_runtime repo kube_ctx agent_type)
      >> run_step host validate_proxy_step
          (λ i. on_world (deps.validate_proxy_policy kube_ctx repo cfg agent_type))
      >> run_step host prepare_agent_state_step
          (prepare_attach store summary repo kube_ctx agent_type)
      >>= λ agent_session.
          run_step host attach_agent_step
            (λ i. on_world (deps.attach_agent repo kube_ctx agent_type agent_session))

  -- The metadata of the trace of an attach.
  unfoldable pub trace_attach : Config → AgentType → Summary → Recorder → Recorder
  unfolding add_metadata_map agent_container_name
  trace_attach cfg agent_type summary = add_metadata_map (
      ("agent_type", agent_type)
      ∷ ("agent_container", agent_container_name deps.entries agent_type)
      ∷ ("namespace", summary.session.namespace)
      ∷ ("pod_name", summary.session.pod_name)
      ∷ ("repo_id", summary.session.repo_id)
      ∷ ("repo_path", summary.session.repo_path)
      ∷ ("session_id", itoa (pos summary.session.id))
      ∷ ("session_uid", summary.session.uid)
      ∷ ("workspace_image", cfg.images.workspace)
      ∷ ("toolbox_image", cfg.images.toolbox)
      ∷ ("proxy_image", cfg.images.proxy)
      ∷ [])

  -- From the resolved session on: a failure is captured, and the session's status is left.
  unfoldable pub attach_resolved :
      SessionStore W → Config → AgentType → Summary → Traced W (Unit {0})
  unfolding attach_steps trace_attach captured capture_workflow_failure
  attach_resolved store cfg agent_type summary = do
    on_trace (trace_attach cfg agent_type summary)
    on_world (λ w. (ok tt, deps.show_selected_agent cfg agent_type w))
    captured
        (capture_workflow_failure host deps.failure_artefacts false (record {
          store = some store;
          session_id = pos summary.session.id;
          session_summary = some summary;
        }))
        (attach_steps store cfg agent_type summary)

  unfoldable pub attach_stored :
      ℤ → Bool → Config → AgentType → SessionStore W → Traced W (Unit {0})
  unfolding attach_resolved resolve_attach_summary validate_attach_summary
  attach_stored id selected cfg agent_type store = do
    summary ←
        on_world (resolve_attach_summary store deps.discover_repository id selected agent_type)
    on_world (λ w. (from_error tt (validate_attach_summary summary agent_type), w))
    attach_resolved store cfg agent_type summary

  unfoldable pub attach_traced : String → ℤ → Bool → Traced W (Unit {0})
  unfolding attach_stored closing
  attach_traced explicit id selected = do
    cfg ← on_world deps.load_config
    agent_type ← on_world (deps.resolve_requested_agent explicit cfg)
    store ← on_world (deps.open_session_store or_wrap wrapped "opening session store: %w" [])
    closing store (attach_stored id selected cfg agent_type store)

  -- `Run`
  unfoldable pub attach : String → ℤ → Bool → Exec W (Unit {0})
  unfolding attach_traced new_recorder complete
  attach explicit id selected w =
      let begun = new_recorder host "attach" attach_trace_steps w in
      let (result, state) = attach_traced explicit id selected begun in
      (result, (complete host state).1.1)
