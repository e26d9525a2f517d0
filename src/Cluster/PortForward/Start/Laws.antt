-- ===== src/Cluster/PortForward/Start/Laws.antt =====
-- Laws of `Start`, internal/cluster/portforward.go.
use kagen.Prelude.{
  ℕ, ◌≤◌, ◌+◌, String, true, false, Option, none, some, ◌≡◌, ◌⊎◌, inl, inr, refl, ◌&&◌, not, arith,
}
use kagen.Prelude.Int.{ℤ, pos, leb_ℤ, ltb_ℤ, eq_ℤ}
use kagen.Prelude.Maps.{is_some}
use kagen.Errors.{Err}
use kagen.Errors.Exec.{Result, ok, err}
use kagen.Cluster.Polling.{poll-leaves, IsPaced}
use kagen.Cluster.PortForward.{ForwardSession, ReadyResult, new_session, port_forward_spec, stop}
use kagen.Cluster.PortForward.Steps.{IsHonest, Reach, Reach-new_session}
use kagen.Cluster.PortForward.Start.{
  Received, cancelled, reported, exited, Kubectl, timed_out, stopped, probe, pause_probe,
  wait_for_port, probe_rounds, probe_result, receive, launch, serve, start,
}

-- No process runs: it was killed, or it has ended.
abbrev pub IsOver : Option ForwardSession → Type 0
IsOver none = Unit
IsOver (some s) = (s.stopped_by_us ≡ true) ⊎ (is_some s.done ≡ true)

port_forward_spec-ok :
    (local_port remote_port : ℤ) (spec : String)
    → port_forward_spec local_port remote_port ≡ ok spec
    → (leb_ℤ remote_port (pos 0) ≡ false) × (ltb_ℤ local_port (pos 0) ≡ false)
unfolding port_forward_spec
port_forward_spec-ok local_port remote_port spec h = ground arith

module _ {W : Type 0} (kubectl : Kubectl W) where
  -- What `await` gives: a session that the events lead to, whose process was not killed yet, with what it
  -- reported or was closed with.
  abbrev IsReceived : Received → ForwardSession → Type 0
  IsReceived (cancelled e) s = Unit
  IsReceived (reported r) s = s.ready ≡ some r
  IsReceived (exited e) s = s.done ≡ some e

  pub record IsScheduled (local_port remote_port : ℤ) : Type 0 where
    pub reached :
        (namespace target : String) (w : W)
        → Reach remote_port local_port
            (new_session namespace target)
            (kubectl.await (new_session namespace target) w).0.1
    pub running :
        (namespace target : String) (w : W)
        → (kubectl.await (new_session namespace target) w).0.1.stopped_by_us ≡ false
    pub received :
        (namespace target : String) (w : W)
        → IsReceived
            (kubectl.await (new_session namespace target) w).0.0
            (kubectl.await (new_session namespace target) w).0.1

  -- A clock that no operation sets back, and that a sleep moves by its length at least.
  pub record IsClocked : Type 0 where
    pub time : W → ℕ
    pub now_time : (w : W) → (kubectl.now w).0 ≡ time w
    pub now_forward : (w : W) → time w ≤ time (kubectl.now w).1
    pub dial_forward : (port : ℤ) (w : W) → time w ≤ time (kubectl.dial port w).1
    pub sleep_forward : (delay : ℕ) (w : W) → time w + delay ≤ time (kubectl.sleep delay w)

  probe-IsPaced :
      (port : ℤ) → IsClocked → IsPaced kubectl.now (probe kubectl port) (pause_probe kubectl) 200
  unfolding probe pause_probe
  probe-IsPaced port clock = record {
    time = clock.time;
    now_time = clock.now_time;
    now_forward = clock.now_forward;
    attempt_forward = clock.dial_forward port;
    pause_forward = clock.sleep_forward 200;
  }

  -- A port for which the loop waits 5 s is given up or found after at most `probe_rounds` rounds, where a sleep
  -- lasts as long as it is asked to.
  pub wait_for_port-leaves :
      (port : ℤ) (w : W)
      → IsClocked
      → is_some (wait_for_port kubectl probe_rounds port 5000 w).0 ≡ true
  unfolding wait_for_port probe pause_probe
  wait_for_port-leaves port w clock =
      let pace = probe-IsPaced port clock in
      poll-leaves kubectl.now (probe kubectl port) (pause_probe kubectl) (err (timed_out port)) 200
        26 ((kubectl.now w).0 + 5000) (kubectl.now w).1 pace
        (omega (arith, clock.now_time w, clock.now_forward w))

  probe_result-ok :
      (s s' : ForwardSession) (o : Option (Result (Unit {0})) × W) (end : Option ForwardSession × W)
      → probe_result kubectl s o ≡ (ok s', end)
      → (s' ≡ s) × (end.0 ≡ some s)
  probe_result-ok s s' (some (ok u), w) end h = ground arith
  probe_result-ok s s' (some (err e), w) end h = absurd (ground arith)
  probe_result-ok s s' (none, w) end h = absurd (ground arith)

  probe_result-err :
      (s : ForwardSession) (e : Err) (o : Option (Result (Unit {0})) × W)
      (end : Option ForwardSession × W)
      → probe_result kubectl s o ≡ (err e, end)
      → IsOver end.0
  probe_result-err s e (some (ok u), w) end h = absurd (ground arith)
  probe_result-err s e (some (err failure), w) end h =
      let left : end.0 ≡ some (stop s) = ground arith in rw left (inl refl)
  probe_result-err s e (none, w) end h =
      let left : end.0 ≡ some (stop s) = ground arith in rw left (inl refl)

  receive-ok :
      (received : Received) (s s' : ForwardSession) (w : W) (end : Option ForwardSession × W)
      → IsReceived received s
      → receive kubectl received s w ≡ (ok s', end)
      → (s' ≡ s) × (end.0 ≡ some s) × (r : ReadyResult) × (s.ready ≡ some r) × (r.error ≡ none)
  unfolding receive
  receive-ok (cancelled e) s s' w end got h = absurd (ground arith)
  receive-ok (exited none) s s' w end got h = absurd (ground arith)
  receive-ok (exited (some e)) s s' w end got h = absurd (ground arith)
  receive-ok (reported r) s s' w end got h = go r.error refl h
    where
      go :
          (o : Option Err)
          → r.error ≡ o
          → (elim o [
            | some e ↦ stopped e s w
            | none ↦ probe_result kubectl s (wait_for_port kubectl probe_rounds r.local_port 5000 w)
          ])
            ≡ (ok s', end)
          → (s' ≡ s) × (end.0 ≡ some s) × (q : ReadyResult) × (s.ready ≡ some q) × (q.error ≡ none)
      go none same h =
          let (a, b) =
            probe_result-ok s s' (wait_for_port kubectl probe_rounds r.local_port 5000 w) end h in
          (a, b, r, got, same)
      go (some e) same h = absurd (ground arith)

  receive-err :
      (received : Received) (s : ForwardSession) (e : Err) (w : W) (end : Option ForwardSession × W)
      → IsReceived received s
      → receive kubectl received s w ≡ (err e, end)
      → IsOver end.0
  unfolding receive
  receive-err (cancelled e') s e w end got h =
      let left : end.0 ≡ some (stop s) = ground arith in rw left (inl refl)
  receive-err (exited none) s e w end got h =
      let left : end.0 ≡ some s = ground arith in rw (left, got) (inr refl)
  receive-err (exited (some e')) s e w end got h =
      let left : end.0 ≡ some s = ground arith in rw (left, got) (inr refl)
  receive-err (reported r) s e w end got h = go r.error h
    where
      go :
          (o : Option Err)
          → (elim o [
            | some failure ↦ stopped failure s w
            | none ↦ probe_result kubectl s (wait_for_port kubectl probe_rounds r.local_port 5000 w)
          ])
            ≡ (err e, end)
          → IsOver end.0
      go none h =
          probe_result-err s e (wait_for_port kubectl probe_rounds r.local_port 5000 w) end h
      go (some failure) h = let left : end.0 ≡ some (stop s) = ground arith in rw left (inl refl)

  -- A session that reported without a failure and was not killed.
  honest_port :
      (requested : ℤ) (s : ForwardSession) (r : ReadyResult)
      → IsHonest requested s
      → s.stopped_by_us ≡ false
      → s.ready ≡ some r
      → r.error ≡ none
      → (s.ready ≡ some (record { local_port = s.local_port; error = none }))
        × ((ltb_ℤ (pos 0) requested && not (eq_ℤ s.local_port requested)) ≡ false)
  honest_port requested s r h running report fine = ground arith

  serve-ok :
      (namespace target : String) (local_port remote_port : ℤ) (s : ForwardSession)
      (o : Result (Unit {0}) × W) (end : Option ForwardSession × W)
      → IsScheduled local_port remote_port
      → serve kubectl (new_session namespace target) o ≡ (ok s, end)
      → (s.ready ≡ some (record { local_port = s.local_port; error = none }))
        × ((ltb_ℤ (pos 0) local_port && not (eq_ℤ s.local_port local_port)) ≡ false)
        × (end.0 ≡ some s)
  unfolding receive serve
  serve-ok namespace target local_port remote_port s (err e, w) end scheduled h =
      absurd (ground arith)
  serve-ok namespace target local_port remote_port s (ok u, w) end scheduled h =
      let ((received, s1), w1) = kubectl.await (new_session namespace target) w in
      let (same, left, r, report, fine) =
        receive-ok received s1 s w1 end (scheduled.received namespace target w) h in
      let honest =
        Reach-new_session remote_port local_port namespace target s1
          (scheduled.reached namespace target w) in
      let (full, port) =
        honest_port local_port s1 r honest (scheduled.running namespace target w) report fine in
      rw same (full, port, left)

  -- A start that succeeds was asked for a remote port above 0 and a local port that is not negative, and its
  -- session reported, without a failure, the port it holds, which is the local port that was asked for, if one was.
  pub start-ok :
      (kube_ctx namespace target : String) (local_port remote_port : ℤ) (s : ForwardSession) (w : W)
      (end : Option ForwardSession × W)
      → IsScheduled local_port remote_port
      → start kubectl kube_ctx namespace target local_port remote_port w ≡ (ok s, end)
      → (leb_ℤ remote_port (pos 0) ≡ false)
        × (ltb_ℤ local_port (pos 0) ≡ false)
        × (s.ready ≡ some (record { local_port = s.local_port; error = none }))
        × ((ltb_ℤ (pos 0) local_port && not (eq_ℤ s.local_port local_port)) ≡ false)
        × (end.0 ≡ some s)
  unfolding start receive port_forward_spec
  start-ok kube_ctx namespace target local_port remote_port s w end scheduled h =
      go (port_forward_spec local_port remote_port) refl h
    where
      go :
          (o : Result String)
          → port_forward_spec local_port remote_port ≡ o
          → (elim o [
            | err e ↦ (err e, (none, w))
            | ok spec ↦
                serve kubectl
                  (new_session namespace target)
                  (launch kubectl kube_ctx namespace target spec w)
          ])
            ≡ (ok s, end)
          → (leb_ℤ remote_port (pos 0) ≡ false)
            × (ltb_ℤ local_port (pos 0) ≡ false)
            × (s.ready ≡ some (record { local_port = s.local_port; error = none }))
            × ((ltb_ℤ (pos 0) local_port && not (eq_ℤ s.local_port local_port)) ≡ false)
            × (end.0 ≡ some s)
      go (err e) same h = absurd (ground arith)
      go (ok spec) same h =
          let (above, below) = port_forward_spec-ok local_port remote_port spec same in
          let served =
            serve-ok namespace target local_port remote_port s
              (launch kubectl kube_ctx namespace target spec w) end scheduled h in
          (above, below, served.0, served.1, served.2)

  serve-err :
      (namespace target : String) (local_port remote_port : ℤ) (e : Err) (o : Result (Unit {0}) × W)
      (end : Option ForwardSession × W)
      → IsScheduled local_port remote_port
      → serve kubectl (new_session namespace target) o ≡ (err e, end)
      → IsOver end.0
  unfolding receive serve
  serve-err namespace target local_port remote_port e (err failure, w) end scheduled h =
      let left : end.0 ≡ none = ground arith in rw left tt
  serve-err namespace target local_port remote_port e (ok u, w) end scheduled h =
      let ((received, s1), w1) = kubectl.await (new_session namespace target) w in
      receive-err received s1 e w1 end (scheduled.received namespace target w) h

  -- A start that fails leaves no process behind: none was started, or it was killed, or it has ended.
  pub start-err :
      (kube_ctx namespace target : String) (local_port remote_port : ℤ) (e : Err) (w : W)
      (end : Option ForwardSession × W)
      → IsScheduled local_port remote_port
      → start kubectl kube_ctx namespace target local_port remote_port w ≡ (err e, end)
      → IsOver end.0
  unfolding start receive port_forward_spec
  start-err kube_ctx namespace target local_port remote_port e w end scheduled h =
      go (port_forward_spec local_port remote_port) h
    where
      go :
          (o : Result String)
          → (elim o [
            | err failure ↦ (err failure, (none, w))
            | ok spec ↦
                serve kubectl
                  (new_session namespace target)
                  (launch kubectl kube_ctx namespace target spec w)
          ])
            ≡ (err e, end)
          → IsOver end.0
      go (err failure) h = let left : end.0 ≡ none = ground arith in rw left tt
      go (ok spec) h =
          serve-err namespace target local_port remote_port e
            (launch kubectl kube_ctx namespace target spec w) end scheduled h
