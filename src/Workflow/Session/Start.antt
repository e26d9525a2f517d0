-- ===== src/Workflow/Session/Start.antt =====
-- internal/workflow/session.go: the start workflow. The dependencies that it shares with the attach
-- workflow are those of `AttachDependencies`; `F` is the type of the Forgejo service.
pub mod Laws
pub mod Failures
use kagen.Prelude.{ℕ, String, Bool, true, false, Option, none, some, List, [], ◌∷◌, if◌then◌else◌}
use kagen.Prelude.Int.{ℤ, pos}
use kagen.Prelude.Text.{itoa, ◌+s◌}
use kagen.Errors.{Err, wrapped}
use kagen.Errors.Exec.{Result, ok, err, Exec, pure, ◌>>=◌, ◌>>◌, ◌or_wrap◌, from_error}
use kagen.Agent.{AgentType}
use kagen.Config.{Config}
use kagen.Git.{Repository, repo_id}
use kagen.Preflight.{Report, report_metadata}
use kagen.Session.{Time, KagenSession, AgentSession}
use kagen.Diagnostics.{Recorder}
use kagen.Diagnostics.Recording.{
  Host, new_recorder, run_step, complete, add_metadata, add_metadata_map, add_step_metadata_map,
}
use kagen.Workflow.Session.{
  SessionStore, start_trace_steps, create_persisted_kagen_session, create_persisted_agent_session,
  agent_container_name, preflight_configuration_step, ensure_namespace_step, ensure_proxy_step,
  ensure_resources_step, forgejo_import_step, launch_agent_runtime_step, preflight_runtime_step,
  validate_proxy_step, prepare_agent_state_step, attach_agent_step,
}
use kagen.Workflow.Capture.{
  Traced, on_world, on_trace, closing, captured, FailureCapture, capture_workflow_failure,
}
use kagen.Workflow.Session.Attach.{AttachDependencies, ensure_runtime_traced, preflight_runtime}

pub record StartDependencies (W F : Type 0) : Type 0 where
  pub shared : AttachDependencies W
  pub sha1_hex : String → String
  pub resolve_agent : String → Repository → String → Config → Exec W AgentType
  pub new_forgejo_service : String → Exec W F
  pub ensure_namespace : String → Repository → AgentType → Exec W (Unit {0})
  pub ensure_proxy : String → Repository → Config → AgentType → Exec W (Unit {0})
  pub ensure_resources : String → Repository → Config → AgentType → Exec W (Unit {0})
  pub ensure_forgejo_import : F → Repository → Exec W (Unit {0})
  pub run_configuration_preflight :
      Option (Repository → Config → AgentType → W → (Report × Option Err) × W)

module _ {W : Type 0} (store : SessionStore W) (persisted : KagenSession) where
  -- The store's part of the step that prepares the agent's state: the session is ready, then the attach
  -- is recorded.
  unfoldable pub make_ready : AgentSession → Time → Exec W (Unit {0})
  make_ready created attached_at =
      (store.update_kagen_session_status (pos persisted.id) "ready"
        or_wrap wrapped "marking session %d ready: %w" (itoa (pos persisted.id) ∷ []))
      >> (store.record_attach (pos persisted.id) created.id attached_at
          or_wrap wrapped "recording attach for session %d: %w" (itoa (pos persisted.id) ∷ []))

  unfoldable pub make_ready_traced : AgentSession × Time → Traced W AgentSession
  unfolding make_ready
  make_ready_traced (created, attached_at) =
      on_world (make_ready created attached_at) >> pure created

module _ {W F : Type 0} (host : Host W) (deps : StartDependencies W F) where
  unfoldable pub trace_repository : Repository → Bool → Recorder → Recorder
  unfolding add_metadata_map add_metadata
  trace_repository repo detach r =
      let id = repo_id deps.sha1_hex repo in
      let r1 =
        add_metadata_map
          (("namespace", "kagen-" +s id)
            ∷ ("pod_name", "agent")
            ∷ ("repo_id", id)
            ∷ ("repo_path", repo.path)
            ∷ ("base_branch", repo.current_branch)
            ∷ [])
          r in
      if detach then add_metadata "start_mode" "detached" r1 else r1

  unfoldable pub trace_agent : Config → AgentType → Recorder → Recorder
  unfolding add_metadata_map agent_container_name
  trace_agent cfg agent_type = add_metadata_map (
      ("agent_type", agent_type)
      ∷ ("agent_container", agent_container_name deps.shared.entries agent_type)
      ∷ ("workspace_image", cfg.images.workspace)
      ∷ ("toolbox_image", cfg.images.toolbox)
      ∷ ("proxy_image", cfg.images.proxy)
      ∷ [])

  unfoldable pub preflight_configuration : Repository → Config → AgentType → ℕ → Traced W (Unit {0})
  preflight_configuration repo cfg agent_type i (r, w) = elim deps.run_configuration_preflight [
    | none ↦ (ok tt, (r, w))
    | some preflight ↦
        let ((report, e), w1) = preflight repo cfg agent_type w in
        (from_error tt e, (add_step_metadata_map (report_metadata report) i r, w1))
  ]

  -- What follows the creation of the agent session: the metadata, and the agent's state.
  unfoldable pub prepare_created :
      Repository → String → AgentType → ℕ → Time → AgentSession → Traced W (AgentSession × Time)
  prepare_created repo kube_ctx agent_type i attached_at created = do
    on_trace (
        add_step_metadata_map
          (("agent_session_id", created.id) ∷ ("state_path", created.state_path) ∷ []) i)
    on_trace (add_metadata "agent_session_id" created.id)
    on_world (deps.shared.prepare_agent_state repo kube_ctx agent_type created)
    pure (created, attached_at)

  -- The first part of that step: the agent session, and the time of its attach.
  unfoldable pub prepare_agent :
      SessionStore W
      → KagenSession
      → Repository
      → String
      → AgentType
      → ℕ
      → Traced W (AgentSession × Time)
  unfolding create_persisted_agent_session prepare_created
  prepare_agent store persisted repo kube_ctx agent_type i (r, w) =
      let (attached_at, w1) = host.now w in
      (on_world (
            create_persisted_agent_session store deps.shared.new_id persisted.uid agent_type
              attached_at)
          >>= prepare_created repo kube_ctx agent_type i attached_at)
        (r, w1)

  -- The body of the step that prepares the agent's state.
  unfoldable pub prepare_start :
      SessionStore W → KagenSession → Repository → String → AgentType → ℕ → Traced W AgentSession
  unfolding prepare_agent make_ready_traced
  prepare_start store persisted repo kube_ctx agent_type i =
      prepare_agent store persisted repo kube_ctx agent_type i >>= make_ready_traced store persisted

  -- The steps that make the cluster's side of the session.
  unfoldable pub provision_steps : Repository → String → Config → AgentType → Traced W (Unit {0})
  unfolding run_step
  provision_steps repo kube_ctx cfg agent_type = do
    forgejo ← on_world (deps.new_forgejo_service kube_ctx)
    run_step host ensure_namespace_step
        λ i. on_world (deps.ensure_namespace kube_ctx repo agent_type)
    run_step host ensure_proxy_step λ i. on_world (deps.ensure_proxy kube_ctx repo cfg agent_type)
    run_step host ensure_resources_step λ i.
        (on_trace (
            add_step_metadata_map
              (("workspace_image", cfg.images.workspace)
                ∷ ("toolbox_image", cfg.images.toolbox)
                ∷ [])
              i)
          >> on_world (deps.ensure_resources kube_ctx repo cfg agent_type))
    run_step host forgejo_import_step λ i. on_world (deps.ensure_forgejo_import forgejo repo)

  -- The steps on the agent's side, before the agent's state is prepared.
  unfoldable pub launch_steps : Repository → String → Config → AgentType → Traced W (Unit {0})
  unfolding run_step preflight_runtime
  launch_steps repo kube_ctx cfg agent_type = do
    run_step host launch_agent_runtime_step
        λ i. on_world (deps.shared.launch_agent_runtime repo kube_ctx agent_type)
    run_step host preflight_runtime_step
        (preflight_runtime host deps.shared repo kube_ctx agent_type)
    run_step host validate_proxy_step
        λ i. on_world (deps.shared.validate_proxy_policy kube_ctx repo cfg agent_type)

  unfoldable pub attach_unless :
      Bool → Repository → String → AgentType → AgentSession → Traced W (Unit {0})
  unfolding run_step
  attach_unless true repo kube_ctx agent_type created = pure tt
  attach_unless false repo kube_ctx agent_type created =
      run_step host attach_agent_step
        λ i. on_world (deps.shared.attach_agent repo kube_ctx agent_type created)

  -- What follows the creation of the session.
  unfoldable pub start_steps :
      SessionStore W
      → KagenSession
      → Repository
      → String
      → Config
      → AgentType
      → Bool
      → Traced W (Unit {0})
  unfolding provision_steps launch_steps run_step prepare_start attach_unless
  start_steps store persisted repo kube_ctx cfg agent_type detach =
      provision_steps repo kube_ctx cfg agent_type
      >> (launch_steps repo kube_ctx cfg agent_type
          >> (run_step host prepare_agent_state_step
                (prepare_start store persisted repo kube_ctx agent_type)
              >>= attach_unless detach repo kube_ctx agent_type))

  -- `handleFailure`
  unfoldable pub handle_failure :
      SessionStore W → KagenSession → Err → Recorder × W → Err × (Recorder × W)
  unfolding capture_workflow_failure
  handle_failure store persisted =
      capture_workflow_failure host deps.shared.failure_artefacts true
        (record { store = some store; session_id = pos persisted.id; session_summary = none })

  -- What follows in the trace and the steps for a session that was made.
  unfoldable pub start_created :
      Repository
      → String
      → Config
      → AgentType
      → Bool
      → SessionStore W
      → KagenSession
      → Traced W (Unit {0})
  unfolding handle_failure captured start_steps
  start_created repo kube_ctx cfg agent_type detach store persisted (r, w) =
      captured (handle_failure store persisted)
        (start_steps store persisted repo kube_ctx cfg agent_type detach)
        (
          add_metadata "session_uid" persisted.uid
              (add_metadata "session_id" (itoa (pos persisted.id)) r),
          w,
        )

  unfoldable pub start_stored :
      Repository → String → Config → AgentType → Bool → SessionStore W → Traced W (Unit {0})
  unfolding create_persisted_kagen_session start_created
  start_stored repo kube_ctx cfg agent_type detach store =
      on_world (create_persisted_kagen_session store deps.sha1_hex host.now repo)
      >>= start_created repo kube_ctx cfg agent_type detach store

  -- The first steps, in which a failure is captured without a store: no session is there yet.
  unfoldable pub check_configuration : Repository → Config → AgentType → Traced W (Unit {0})
  unfolding captured capture_workflow_failure run_step preflight_configuration
  check_configuration repo cfg agent_type =
      captured
        (capture_workflow_failure host deps.shared.failure_artefacts true
          (record { store = none; session_id = pos 0; session_summary = none }))
        (run_step host preflight_configuration_step (preflight_configuration repo cfg agent_type))

  unfoldable pub start_traced : String → Bool → Traced W (Unit {0})
  unfolding trace_repository trace_agent ensure_runtime_traced check_configuration start_stored
      closing
  start_traced explicit detach = do
    cfg ← on_world deps.shared.load_config
    repo ← on_world deps.shared.discover_repository
    on_trace (trace_repository repo detach)
    kube_ctx ← ensure_runtime_traced host deps.shared cfg
    agent_type ← on_world (deps.resolve_agent explicit repo kube_ctx cfg)
    on_trace (trace_agent cfg agent_type)
    on_world (λ w. (ok tt, deps.shared.show_selected_agent cfg agent_type w))
    check_configuration repo cfg agent_type
    store ← on_world (deps.shared.open_session_store or_wrap wrapped "opening session store: %w" [])
    closing store (start_stored repo kube_ctx cfg agent_type detach store)

  -- `Run`
  unfoldable pub start : String → Bool → Exec W (Unit {0})
  unfolding start_traced new_recorder complete start_trace_steps
  start explicit detach w =
      let begun = new_recorder host "start" (start_trace_steps detach) w in
      let (result, state) = start_traced explicit detach begun in
      (result, (complete host state).1.1)
