-- ===== src/Workflow/Session/Start/Laws.antt =====
-- Laws of the start workflow, internal/workflow/session.go.
use kagen.Prelude.{ℕ, String, Bool, true, ◌≡◌, refl, sym, [], ◌∷◌, arith}
use kagen.Prelude.Int.{pos}
use kagen.Errors.{wrapped}
use kagen.Prelude.Text.{itoa}
use kagen.Errors.Exec.{Result, ok, err, Exec, pure, ◌>>=◌, ◌>>◌, ◌or_wrap◌}
use kagen.Errors.Inversion.{bind-ok, or_wrap-ok}
use kagen.Config.{Config}
use kagen.Agent.{AgentType}
use kagen.Git.{Repository}
use kagen.Session.{Time, KagenSession, AgentSession, CreateAgentSessionParams}
use kagen.Diagnostics.{Recorder}
use kagen.Diagnostics.Recording.{Host, run_step, begin_step, finish_step}
use kagen.Workflow.Session.{
  SessionStore, agent_session_state_path, prepare_agent_state_step, create_persisted_agent_session,
}
use kagen.Workflow.Capture.{Traced, on_world}
use kagen.Workflow.Session.Start.{
  StartDependencies, make_ready, make_ready_traced, prepare_created, prepare_agent, prepare_start,
  launch_steps, provision_steps, attach_unless, start_steps, start,
}

-- A detached start does the same, and returns the same, whatever attaching to the agent does.
pub start_detached :
    {W F : Type 0} (host : Host W) (deps : StartDependencies W F)
    (attach : Repository → String → AgentType → AgentSession → Exec W (Unit {0}))
    (explicit : String) (w : W)
    → start host
        (record deps { shared = record (deps.shared) { attach_agent = attach } })
        explicit
        true
        w
      ≡ start host deps explicit true w
unfolding start
start_detached host deps attach explicit w = refl

on_world-ok :
    {W A : Type 0} (m : Exec W A) (r r' : Recorder) (w w' : W) (a : A)
    → on_world m (r, w) ≡ (ok a, (r', w'))
    → m w ≡ (ok a, w')
on_world-ok {W = W} {A = A} m r r' w w' a h = ground arith

finish_step-ok :
    {W A : Type 0} (host : Host W) (name : String) (i : ℕ) (o : Result A × (Recorder × W))
    (r' : Recorder) (w' : W) (a : A)
    → finish_step host name i o ≡ (ok a, (r', w'))
    → (r1 : Recorder) × (w1 : W) × (o ≡ (ok a, (r1, w1))) × (w' ≡ (host.now w1).1)
unfolding finish_step
finish_step-ok host name i (ok b, (r, w)) r' w' a h = (r, w, ground arith, ground arith)
finish_step-ok host name i (err e, (r, w)) r' w' a h = absurd (ground arith)

-- The body of a step that returns a value returned it, and only the clock is read after it.
run_step-ok :
    {W A : Type 0} (host : Host W) (name : String) (body : ℕ → Traced W A) (s : Recorder × W)
    (r' : Recorder) (w' : W) (a : A)
    → run_step host name body s ≡ (ok a, (r', w'))
    → let (i, s0) = begin_step host name s in
      (r1 : Recorder) × (w1 : W) × (body i s0 ≡ (ok a, (r1, w1))) × (w' ≡ (host.now w1).1)
unfolding run_step
run_step-ok host name body s r' w' a h =
    let (i, s0) = begin_step host name s in finish_step-ok host name i (body i s0) r' w' a h

make_ready-ok :
    {W : Type 0} (store : SessionStore W) (persisted : KagenSession) (created : AgentSession)
    (attached_at : Time) (w w' : W)
    → make_ready store persisted created attached_at w ≡ (ok tt, w')
    → (w1 : W) × (store.update_kagen_session_status (pos persisted.id) "ready" w ≡ (ok tt, w1))
      × (store.record_attach (pos persisted.id) created.id attached_at w1 ≡ (ok tt, w'))
unfolding make_ready
make_ready-ok store persisted created attached_at w w' h =
    let update = store.update_kagen_session_status (pos persisted.id) "ready" in
    let record_it = store.record_attach (pos persisted.id) created.id attached_at in
    let marking = wrapped "marking session %d ready: %w" (itoa (pos persisted.id) ∷ []) in
    let recording = wrapped "recording attach for session %d: %w" (itoa (pos persisted.id) ∷ []) in
    let (u, w1, updated, rest) =
      bind-ok (update or_wrap marking) (λ _. record_it or_wrap recording) w w' tt h in
    (w1, or_wrap-ok update marking w w1 u updated, or_wrap-ok record_it recording w1 w' tt rest)

make_ready_traced-ok :
    {W : Type 0} (store : SessionStore W) (persisted : KagenSession) (p : AgentSession × Time)
    (r r' : Recorder) (w w' : W) (a : AgentSession)
    → make_ready_traced store persisted p (r, w) ≡ (ok a, (r', w'))
    → (a ≡ p.0) × (make_ready store persisted a p.1 w ≡ (ok tt, w'))
unfolding make_ready_traced
make_ready_traced-ok {W = W} store persisted (created, at) r r' w w' a h =
    let (u, (r1, w1), made, h1) =
      bind-ok (on_world (make_ready store persisted created at)) (λ _. pure created) (r, w) (r', w')
        a h in
    let same : a ≡ created = ground arith in
    let kept : w1 ≡ w' = ground arith in
    let done = on_world-ok (make_ready store persisted created at) r r1 w w1 u made in
    (same, rw (same, sym kept) done)

create_persisted_agent_session-ok :
    {W : Type 0} (store : SessionStore W) (new_id : W → String × W) (uid : String)
    (agent_type : AgentType) (at : Time) (w w' : W) (created : AgentSession)
    → create_persisted_agent_session store new_id uid agent_type at w ≡ (ok created, w')
    → (params : CreateAgentSessionParams) × (store.create_agent_session params (new_id w).1
        ≡ (ok created, w'))
      × (params.kagen_session_uid ≡ uid)
      × (params.agent_type ≡ agent_type)
unfolding create_persisted_agent_session
create_persisted_agent_session-ok store new_id uid agent_type at w w' created h =
    let params : CreateAgentSessionParams = record {
      id = (new_id w).0;
      kagen_session_uid = uid;
      agent_type = agent_type;
      name = "";
      working_mode = "shared_workspace";
      branch = "";
      state_path = agent_session_state_path agent_type (new_id w).0;
      created_at = at;
      last_used_at = at;
    } in
    (
      params,
      or_wrap-ok (store.create_agent_session params)
          (wrapped "creating %s agent session: %w" (agent_type ∷ [])) (new_id w).1 w' created h,
      refl,
      refl,
    )

module _ {W F : Type 0} (host : Host W) (deps : StartDependencies W F) (store : SessionStore W)
    (persisted : KagenSession) (repo : Repository) (kube_ctx : String)
    (agent_type : AgentType) where
  prepare_created-ok :
      (i : ℕ) (at : Time) (created : AgentSession) (r r' : Recorder) (w w' : W)
      (p : AgentSession × Time)
      → prepare_created host deps repo kube_ctx agent_type i at created (r, w) ≡ (ok p, (r', w'))
      → (p.0 ≡ created)
        × (deps.shared.prepare_agent_state repo kube_ctx agent_type created w ≡ (ok tt, w'))
  unfolding prepare_created
  prepare_created-ok i at created r r' w w' p h = ground arith

  -- The agent session was made in the store, for the session, and its state was prepared after that.
  prepare_agent-ok :
      (i : ℕ) (s : Recorder × W) (r' : Recorder) (w' : W) (p : AgentSession × Time)
      → prepare_agent host deps store persisted repo kube_ctx agent_type i s ≡ (ok p, (r', w'))
      → (params : CreateAgentSessionParams) × (w0 w1 : W) × (store.create_agent_session params w0
          ≡ (ok p.0, w1))
        × (params.kagen_session_uid ≡ persisted.uid)
        × (params.agent_type ≡ agent_type)
        × (deps.shared.prepare_agent_state repo kube_ctx agent_type p.0 w1 ≡ (ok tt, w'))
  unfolding prepare_agent
  prepare_agent-ok i (r, w) r' w' p h =
      let at = (host.now w).0 in
      let create =
        create_persisted_agent_session store deps.shared.new_id persisted.uid agent_type at in
      let (created, (r1, w1), made, h1) =
        bind-ok (on_world create) (prepare_created host deps repo kube_ctx agent_type i at)
          (r, (host.now w).1) (r', w') p h in
      let (same, prepared) = prepare_created-ok i at created r1 r' w1 w' p h1 in
      let (params, stored, uid, type) =
        create_persisted_agent_session-ok store deps.shared.new_id persisted.uid agent_type at
          (host.now w).1 w1 created (on_world-ok create r r1 (host.now w).1 w1 created made) in
      (
        params,
        (deps.shared.new_id (host.now w).1).1,
        w1,
        rw same stored,
        uid,
        type,
        rw same prepared,
      )

  -- The body of the step that prepares the agent's state ends with the session made ready.
  prepare_start-ok :
      (i : ℕ) (s : Recorder × W) (r' : Recorder) (w' : W) (created : AgentSession)
      → prepare_start host deps store persisted repo kube_ctx agent_type i s
        ≡ (ok created, (r', w'))
      → (params : CreateAgentSessionParams) × (attached_at : Time) × (w0 w1 w2 : W)
        × (store.create_agent_session params w0 ≡ (ok created, w1))
        × (params.kagen_session_uid ≡ persisted.uid)
        × (params.agent_type ≡ agent_type)
        × (deps.shared.prepare_agent_state repo kube_ctx agent_type created w1 ≡ (ok tt, w2))
        × (make_ready store persisted created attached_at w2 ≡ (ok tt, w'))
  unfolding prepare_start
  prepare_start-ok i s r' w' created h =
      let (p, s1, prepared, h1) =
        bind-ok (prepare_agent host deps store persisted repo kube_ctx agent_type i)
          (make_ready_traced store persisted) s (r', w') created h in
      let (same, made) = make_ready_traced-ok store persisted p s1.0 r' s1.1 w' created h1 in
      let (params, w0, w1, stored, uid, type, state) = prepare_agent-ok i s s1.0 s1.1 p prepared in
      (params, p.1, w0, w1, s1.1, rw same stored, uid, type, rw same state, made)

  -- Where the steps after the creation of a session all succeed, the store made an agent session of the
  -- agent's type for that session, the state of that agent session was prepared right after, then the store was
  -- told, first, that the session is ready and then of the attach of that agent session, all without an error, and
  -- only the clock was read between that and the step that attaches to it, which a detached start leaves out.
  pub start_steps-ready :
      (cfg : Config) (detach : Bool) (s end : Recorder × W)
      → start_steps host deps store persisted repo kube_ctx cfg agent_type detach s ≡ (ok tt, end)
      → (params : CreateAgentSessionParams) × (created : AgentSession) × (attached_at : Time) × (w0
          w1 w2 w3 w4 : W)
        × (r : Recorder) × (store.create_agent_session params w0 ≡ (ok created, w1))
        × (params.kagen_session_uid ≡ persisted.uid)
        × (params.agent_type ≡ agent_type)
        × (deps.shared.prepare_agent_state repo kube_ctx agent_type created w1 ≡ (ok tt, w2))
        × (store.update_kagen_session_status (pos persisted.id) "ready" w2 ≡ (ok tt, w3))
        × (store.record_attach (pos persisted.id) created.id attached_at w3 ≡ (ok tt, w4))
        × (attach_unless host deps detach repo kube_ctx agent_type created (r, (host.now w4).1)
            ≡ (ok tt, end))
  unfolding start_steps
  start_steps-ready cfg detach s end h =
      let last = attach_unless host deps detach repo kube_ctx agent_type in
      let prepare =
        run_step host prepare_agent_state_step
          (prepare_start host deps store persisted repo kube_ctx agent_type) in
      let (u, s1, _, h1) =
        bind-ok (provision_steps host deps repo kube_ctx cfg agent_type)
          (λ _. launch_steps host deps repo kube_ctx cfg agent_type >> (prepare >>= last)) s end tt
          h in
      let (v, s2, _, h2) =
        bind-ok (launch_steps host deps repo kube_ctx cfg agent_type) (λ _. prepare >>= last) s1 end
          tt h1 in
      let (created, (r3, w3), prepared, attached) = bind-ok prepare last s2 end tt h2 in
      let (r2, w2, body, read) =
        run_step-ok host prepare_agent_state_step
          (prepare_start host deps store persisted repo kube_ctx agent_type) s2 r3 w3 created
          prepared in
      let (i, s0) = begin_step host prepare_agent_state_step s2 in
      let (params, attached_at, a0, a1, a2, stored, uid, type, state, made) =
        prepare_start-ok i s0 r2 w2 created body in
      let (a3, updated, recorded) = make_ready-ok store persisted created attached_at a2 w2 made in
      (
        params,
        created,
        attached_at,
        a0,
        a1,
        a2,
        a3,
        w2,
        r3,
        stored,
        uid,
        type,
        state,
        updated,
        recorded,
        rw (sym read) attached,
      )
