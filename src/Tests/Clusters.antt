-- ===== src/Tests/Clusters.antt =====
-- The theorems of the cluster at concrete data.
use kagen.Prelude.{
  ◌||◌, leb, if◌then◌else◌, ℕ, ◌+◌, String, true, false, ◌&&◌, not, Option, none, some, [], ◌∷◌,
  ◌≡◌, refl, ◌⊎◌, ◌==◌, arith,
}
use kagen.Prelude.Int.{pos, leb_ℤ, ltb_ℤ, eq_ℤ}
use kagen.Prelude.Maps.{is_some, lookup, lookup_text}
use kagen.Prelude.Text.{trim_space, contains_text}
use kagen.Errors.{Err, message}
use kagen.Errors.Exec.{Result, ok, err}
use kagen.Cluster.PortForward.{
  ForwardSession, ReadyResult, new_session, handle_line, is_ready, finish_run, stop,
}
use kagen.Cluster.PortForward.Lines.{parse_forwarding_line}
use kagen.Cluster.PortForward.RoundTrip.{forwarding_line, parse_forwarding_line-forwarding_line}
use kagen.Cluster.PortForward.Steps.{
  here, next, read, kill, end, Reach-ready, IsHonest, Reach-new_session, finish_run_lem,
}
use kagen.Cluster.PortForward.Start.{
  Kubectl, reported, cancelled, start, wait_for_port, probe_rounds,
}
use kagen.Cluster.PortForward.Start.Laws.{
  IsScheduled, IsClocked, IsOver, start-ok, start-err, wait_for_port-leaves,
}
use kagen.Agent.{codex_spec}
use kagen.Workload.{Request, pod_of}
use kagen.Cluster.Objects.{tcp}
use kagen.Cluster.Proxy.Objects.{agent_network_policy}
use kagen.Cluster.Proxy.Egress.{Destination, permits, agent_network_policy-permits}

parse_forwarding_line-forwarding_line_example :
    parse_forwarding_line (forwarding_line "[::1]" 41583 3000) ≡ ok (pos 41583, pos 3000)
parse_forwarding_line-forwarding_line_example =
    parse_forwarding_line-forwarding_line "[::1]" 41583 3000 refl refl (omega arith) (omega arith)

-- The session after the line that reports the port.
abbrev line : String
line = "Forwarding from 127.0.0.1:41583 -> 3000"

abbrev forwarded : String → String → ForwardSession
forwarded namespace target = handle_line (pos 3000) (pos 0) line (new_session namespace target)

Reach-new_session_example : IsHonest (pos 0) (forwarded "kagen-1" "svc/forgejo")
Reach-new_session_example =
    Reach-new_session (pos 3000) (pos 0) "kagen-1" "svc/forgejo" _
      (next here (read line (new_session "kagen-1" "svc/forgejo")))

-- A session that was killed before it reported.
abbrev killed_session : ForwardSession
killed_session = stop (new_session "kagen-1" "svc/forgejo")

-- The session that has reported, when it is killed and ends.
abbrev ended_session : ForwardSession
ended_session = finish_run none none (stop (forwarded "kagen-1" "svc/forgejo"))

abbrev report : ReadyResult
report = record { local_port = pos 41583; error = none }

reported_port : (forwarded "kagen-1" "svc/forgejo").ready ≡ some report
unfolding handle_line trim_space contains_text
reported_port = refl

Reach-ready_example :
    (ended_session.ready ≡ some report)
    × (ended_session.local_port ≡ (forwarded "kagen-1" "svc/forgejo").local_port)
Reach-ready_example =
    Reach-ready (pos 3000) (pos 0) (forwarded "kagen-1" "svc/forgejo") ended_session report
      (next (next here (kill (forwarded "kagen-1" "svc/forgejo")))
        (end none none (stop (forwarded "kagen-1" "svc/forgejo"))))
      reported_port

finish_run_lem_example :
    let after = finish_run none none killed_session in
    (r : ReadyResult) × (e : Option Err) × (after.ready ≡ some r)
    × (after.done ≡ some e)
    × ((killed_session.ready ≡ none) ⊎ (killed_session.ready ≡ some r))
    × ((killed_session.done ≡ none) ⊎ (killed_session.done ≡ some e))
    × ((is_some killed_session.done
          || killed_session.stopped_by_us
          || is_some e
          || is_ready killed_session)
        ≡ true)
finish_run_lem_example = finish_run_lem none none killed_session

abbrev dialled : ℕ → Result (Option Err)
dialled w = if leb 400 w then ok none else err (message "connection refused" [])

-- The world is the time. No port answers before the time 400.
abbrev kubectl : Kubectl ℕ
kubectl = record {
  now = λ w. (w, w);
  sleep = λ delay w. w + delay;
  dial = λ port w. (dialled w, w);
  stdout_pipe = λ w. (ok tt, w);
  stderr_pipe = λ w. (ok tt, w);
  spawn = λ args w. (ok tt, w);
  await = λ s w. (
    (
      reported (record { local_port = pos 41583; error = none }),
      handle_line (pos 3000) (pos 0) line s,
    ),
    w,
  );
}

scheduled : IsScheduled kubectl (pos 0) (pos 3000)
unfolding handle_line trim_space contains_text parse_forwarding_line
scheduled = record {
  reached = λ namespace target w. next here (read line (new_session namespace target));
  running = λ namespace target w. refl;
  received = λ namespace target w. refl;
}

started :
    start kubectl "colima" "kagen-1" "svc/forgejo" (pos 0) (pos 3000) 0
    ≡ (ok (forwarded "kagen-1" "svc/forgejo"), (some (forwarded "kagen-1" "svc/forgejo"), 400))
unfolding start handle_line trim_space contains_text parse_forwarding_line
started = refl

start-ok_example :
    (leb_ℤ (pos 3000) (pos 0) ≡ false)
    × (ltb_ℤ (pos 0) (pos 0) ≡ false)
    × ((forwarded "kagen-1" "svc/forgejo").ready
        ≡ some
            (record { local_port = (forwarded "kagen-1" "svc/forgejo").local_port; error = none }))
    × ((ltb_ℤ (pos 0) (pos 0) && not (eq_ℤ (forwarded "kagen-1" "svc/forgejo").local_port (pos 0)))
        ≡ false)
    × (some (forwarded "kagen-1" "svc/forgejo") ≡ some (forwarded "kagen-1" "svc/forgejo"))
start-ok_example =
    start-ok kubectl "colima" "kagen-1" "svc/forgejo" (pos 0) (pos 3000)
      (forwarded "kagen-1" "svc/forgejo") 0 (some (forwarded "kagen-1" "svc/forgejo"), 400)
      scheduled started

-- The context ends before anything is reported.
abbrev impatient : Kubectl ℕ
impatient = record kubectl { await = λ s w. ((cancelled (message "context canceled" []), s), w) }

abandoned : IsScheduled impatient (pos 0) (pos 3000)
abandoned = record {
  reached = λ namespace target w. here;
  running = λ namespace target w. refl;
  received = λ namespace target w. tt;
}

abbrev killed : Option ForwardSession × ℕ
killed = (some (record (new_session "kagen-1" "svc/forgejo") { stopped_by_us = true }), 0)

given_up :
    start impatient "colima" "kagen-1" "svc/forgejo" (pos 0) (pos 3000) 0
    ≡ (err (message "context canceled" []), killed)
unfolding start
given_up = refl

start-err_example : IsOver killed.0
start-err_example =
    start-err impatient "colima" "kagen-1" "svc/forgejo" (pos 0) (pos 3000)
      (message "context canceled" []) 0 killed abandoned given_up

clocked : IsClocked kubectl
clocked = record {
  time = λ w. w;
  now_time = λ w. refl;
  now_forward = λ w. omega arith;
  dial_forward = λ port w. omega arith;
  sleep_forward = λ delay w. omega arith;
}

wait_for_port-leaves_example :
    is_some (wait_for_port kubectl probe_rounds (pos 41583) 5000 0).0 ≡ true
wait_for_port-leaves_example = wait_for_port-leaves kubectl (pos 41583) 0 clocked

abbrev proxy_port : ℕ
proxy_port = 8888

abbrev proxy_pod : Destination
proxy_pod = record {
  namespace = "kagen-1";
  namespace_labels = [];
  labels = ("app.kubernetes.io/name", "kagen-proxy") ∷ [];
}

abbrev request : Request
request = record {
  name = "agent";
  namespace = "kagen-1";
  runtime = some codex_spec;
  images = record { workspace = "workspace:1"; toolbox = "toolbox:1" };
}

permitted :
    permits
      (agent_network_policy "kagen-1" "1")
      (pod_of request codex_spec).meta
      proxy_pod
      tcp
      proxy_port
    ≡ true
unfolding agent_network_policy pod_of lookup_text lookup
permitted = refl

agent_network_policy-permits_example :
    (((proxy_pod.namespace == "kagen-1") ≡ true)
      × ((lookup_text "app.kubernetes.io/name" proxy_pod.labels == "kagen-proxy") ≡ true)
      × (tcp ≡ tcp)
      × (proxy_port ≡ proxy_port))
    ⊎ ((((proxy_pod.namespace == "kagen-1") ≡ true)
          × ((lookup_text "app" proxy_pod.labels == "forgejo") ≡ true)
          × (tcp ≡ tcp)
          × ((proxy_port ≡ 3000) ⊎ (proxy_port ≡ 22)))
        ⊎ (((lookup_text "kubernetes.io/metadata.name" proxy_pod.namespace_labels == "kube-system")
              ≡ true)
            × ((lookup_text "k8s-app" proxy_pod.labels == "kube-dns") ≡ true)
            × (proxy_port ≡ 53)))
agent_network_policy-permits_example =
    agent_network_policy-permits codex_spec request "1" proxy_pod tcp proxy_port permitted
