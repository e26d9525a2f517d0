-- ===== src/Cluster/PortForward/Start.antt =====
-- internal/cluster/portforward.go: `Start`. The process, its readers and the scheduler are outside: what
-- the `select` of the loop receives, and the session as it is by then, come from `await`.
pub mod Laws
use kagen.Prelude.{
  ℕ, ◌+◌, ◌*◌, ◌≤◌, ◌<◌, String, Bool, true, false, Option, none, some, List, [], ◌∷◌, ◌++◌, ◌≡◌,
  ◌⊎◌, inl, inr, refl, ◌==◌, ◌&&◌, not, arith, if◌then◌else◌,
}
use kagen.Prelude.Int.{ℤ, pos, leb_ℤ, ltb_ℤ, eq_ℤ}
use kagen.Prelude.Maps.{is_some}
use kagen.Prelude.Text.{itoa, trim_space}
use kagen.Errors.{Err, message, wrapped}
use kagen.Errors.Exec.{Result, ok, err, Exec, ◌>>◌, ◌>>=◌, ◌or_wrap◌}
use kagen.Cluster.Polling.{poll, poll-leaves, IsPaced}
use kagen.Cluster.PortForward.{
  ForwardSession, ReadyResult, new_session, port_forward_spec, exited_early, stop,
}
use kagen.Cluster.PortForward.Steps.{IsHonest, Reach, Reach-new_session}

-- What `select` receives: the end of the context, the report of the session, or its end.
pub data Received : Type 0 where
  cancelled : (e : Err) → Received
  reported : (r : ReadyResult) → Received
  exited : (e : Option Err) → Received

-- The world's part of a start. A dial that connects comes back with the error of closing the connection.
pub record Kubectl (W : Type 0) : Type 0 where
  pub now : W → ℕ × W
  pub sleep : ℕ → W → W
  pub dial : ℤ → W → Result (Option Err) × W
  pub stdout_pipe : Exec W (Unit {0})
  pub stderr_pipe : Exec W (Unit {0})
  pub spawn : List String → Exec W (Unit {0})
  pub await : ForwardSession → W → (Received × ForwardSession) × W

-- The arguments of `kubectl`.
unfoldable pub port_forward_args : String → String → String → String → List String
port_forward_args kube_ctx namespace target spec =
    (if kube_ctx == "" then [] else "--context" ∷ kube_ctx ∷ [])
    ++ "port-forward" ∷ "-n" ∷ namespace ∷ target ∷ spec ∷ []

abbrev pub timed_out : ℤ → Err
timed_out port = message "timeout waiting for local port %d to be ready" (itoa port ∷ [])

-- The 27 rounds of the loop are more than the pauses of 200 ms that fit in its 5 s.
abbrev pub probe_rounds : ℕ
probe_rounds = 27

module _ {W : Type 0} where
  -- A failed start gives back its error with the session killed.
  abbrev pub stopped :
      Err → ForwardSession → W → Result ForwardSession × (Option ForwardSession × W)
  stopped e s w = (err e, (some (stop s), w))

module _ {W : Type 0} (kubectl : Kubectl W) where
  abbrev probed : Result (Option Err) → Option (Result (Unit {0}))
  probed (ok none) = some (ok tt)
  probed (ok (some e)) = some (err (wrapped "closing readiness probe connection: %w" [] e))
  probed (err e) = none

  unfoldable pub probe : ℤ → W → Option (Result (Unit {0})) × W
  probe port w = let (dialled, w1) = kubectl.dial port w in (probed dialled, w1)

  unfoldable pub pause_probe : W → Option (Result (Unit {0})) × W
  pause_probe w = (none, kubectl.sleep 200 w)

  -- `waitForPort`, with its timeout in milliseconds
  unfoldable pub wait_for_port : ℕ → ℤ → ℕ → W → Option (Result (Unit {0})) × W
  unfolding poll probe pause_probe
  wait_for_port fuel port timeout w =
      let (started, w1) = kubectl.now w in
      poll kubectl.now (probe port) pause_probe (err (timed_out port)) fuel (started + timeout) w1

  abbrev pub probe_result :
      ForwardSession
      → Option (Result (Unit {0})) × W
      → Result ForwardSession × (Option ForwardSession × W)
  probe_result s (some (ok u), w) = (ok s, (some s, w))
  probe_result s (some (err e), w) = stopped e s w
  probe_result s (none, w) = stopped (timed_out s.local_port) s w

  unfoldable pub receive :
      Received → ForwardSession → W → Result ForwardSession × (Option ForwardSession × W)
  unfolding wait_for_port
  receive (cancelled e) s w = stopped e s w
  receive (reported r) s w = elim r.error [
    | some e ↦ stopped e s w
    | none ↦ probe_result s (wait_for_port probe_rounds r.local_port 5000 w)
  ]
  receive (exited e) s w = elim e [
    | some failure ↦ (err failure, (some s, w))
    | none ↦ (err (exited_early s), (some s, w))
  ]

  -- Up to the start of the process.
  unfoldable pub launch : String → String → String → String → Exec W (Unit {0})
  unfolding port_forward_args
  launch kube_ctx namespace target spec = do
    kubectl.stdout_pipe or_wrap wrapped "getting stdout pipe: %w" []
    kubectl.stderr_pipe or_wrap wrapped "getting stderr pipe: %w" []
    kubectl.spawn (port_forward_args kube_ctx namespace target spec)
        or_wrap wrapped "starting port-forward: %w" []

  abbrev pub serve :
      ForwardSession → Result (Unit {0}) × W → Result ForwardSession × (Option ForwardSession × W)
  unfolding receive
  serve s (ok u, w) = let ((received, s1), w1) = kubectl.await s w in receive received s1 w1
  serve s (err e, w) = (err e, (none, w))

  -- `Start`: beside the result, the session whose process was started, as the start leaves it
  unfoldable pub start :
      String → String → String → ℤ → ℤ → W → Result ForwardSession × (Option ForwardSession × W)
  unfolding launch port_forward_spec receive
  start kube_ctx namespace target local_port remote_port w =
      elim (port_forward_spec local_port remote_port) [
        | err e ↦ (err e, (none, w))
        | ok spec ↦ serve (new_session namespace target) (launch kube_ctx namespace target spec w)
      ]
