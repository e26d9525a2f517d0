-- ===== src/Cluster/PortForward/Steps.antt =====
-- internal/cluster/portforward.go: what can happen to a forward session, and what holds in all that it
-- comes to. A line of either stream, the kill and the end of the process come in any order.
use kagen.Prelude.{
  String, true, false, ◌&&◌, ◌||◌, not, Option, none, some, ◌≡◌, refl, ◌⊎◌, ◌∙◌, arith,
}
use kagen.Prelude.Int.{ℤ, pos, ltb_ℤ, eq_ℤ}
use kagen.Prelude.Maps.{is_some}
use kagen.Prelude.Text.{trim_space}
use kagen.Errors.{Err}
use kagen.Errors.Exec.{Result, ok, err}
use kagen.Cluster.PortForward.Lines.{parse_forwarding_line}
use kagen.Cluster.PortForward.{
  ForwardSession, ReadyResult, new_session, fail_once, succeed_once, check_ports, handle_parsed,
  append_log, handle_line, exit_error, finish_run, stop, is_ready,
}

-- One event of a session whose remote and local ports were asked for.
pub data Step (remote_port requested : ℤ) : ForwardSession → ForwardSession → Type 0 where
  read :
      (line : String) (s : ForwardSession)
      → Step remote_port requested s (handle_line remote_port requested line s)
  kill : (s : ForwardSession) → Step remote_port requested s (stop s)
  end :
      (read_err wait_err : Option Err) (s : ForwardSession)
      → Step remote_port requested s (finish_run read_err wait_err s)

pub data Reach (remote_port requested : ℤ) (s : ForwardSession) : ForwardSession → Type 0 where
  here : Reach remote_port requested s s
  next :
      {t u : ForwardSession}
      → Reach remote_port requested s t
      → Step remote_port requested t u
      → Reach remote_port requested s u

-- The port of a report without a failure: the one asked for, if one was, or none where the process was
-- killed.
abbrev pub IsHonestPort : ℤ → ForwardSession → Option Err → Type 0
IsHonestPort requested s none =
    ((ltb_ℤ (pos 0) requested && not (eq_ℤ s.local_port requested)) ≡ false)
    ⊎ ((s.stopped_by_us ≡ true) × (s.local_port ≡ pos 0))
IsHonestPort requested s (some e) = s.local_port ≡ pos 0

-- No port is stored before the session reports, and the one that it reports is the one that it stored.
abbrev pub IsHonestResult : ℤ → ForwardSession → Option ReadyResult → Type 0
IsHonestResult requested s none = s.local_port ≡ pos 0
IsHonestResult requested s (some r) =
    (r.local_port ≡ s.local_port) × IsHonestPort requested s r.error

abbrev pub IsHonest : ℤ → ForwardSession → Type 0
IsHonest requested s = IsHonestResult requested s s.ready

fail_once-IsHonest :
    (requested : ℤ) (e : Err) (s : ForwardSession)
    → IsHonest requested s
    → IsHonest requested (fail_once (some e) s)
unfolding fail_once
fail_once-IsHonest requested e s h = ground arith

check_ports-IsHonest :
    (remote_port requested l r : ℤ) (s : ForwardSession)
    → IsHonest requested s
    → IsHonest requested (check_ports remote_port requested l r s)
unfolding check_ports fail_once succeed_once
check_ports-IsHonest remote_port requested l r s h = ground arith

handle_parsed-IsHonest :
    (trimmed : String) (remote_port requested : ℤ) (o : Result (ℤ × ℤ)) (s : ForwardSession)
    → IsHonest requested s
    → IsHonest requested (handle_parsed trimmed remote_port requested o s)
unfolding handle_parsed
handle_parsed-IsHonest trimmed remote_port requested (err e) s h =
    fail_once-IsHonest requested _ s h
handle_parsed-IsHonest trimmed remote_port requested (ok (l, r)) s h =
    check_ports-IsHonest remote_port requested l r s h

handle_line-IsHonest :
    (remote_port requested : ℤ) (line : String) (s : ForwardSession)
    → IsHonest requested s
    → IsHonest requested (handle_line remote_port requested line s)
unfolding handle_line
handle_line-IsHonest remote_port requested line s h =
    let trimmed = trim_space line in
    let logged = record s { output = append_log s.output trimmed } in
    ground (
      arith,
      handle_parsed-IsHonest trimmed remote_port requested (parse_forwarding_line trimmed) logged h,
    )

finish_run-IsHonest :
    (requested : ℤ) (read_err wait_err : Option Err) (s : ForwardSession)
    → IsHonest requested s
    → IsHonest requested (finish_run read_err wait_err s)
unfolding finish_run exit_error fail_once is_ready
finish_run-IsHonest requested read_err wait_err s h = ground arith

Step-IsHonest :
    {remote_port requested : ℤ} {s t : ForwardSession}
    → Step remote_port requested s t
    → IsHonest requested s
    → IsHonest requested t
Step-IsHonest {remote_port} {requested} (read line s) h =
    handle_line-IsHonest remote_port requested line s h
Step-IsHonest (kill s) h = ground arith
Step-IsHonest {remote_port} {requested} (end read_err wait_err s) h =
    finish_run-IsHonest requested read_err wait_err s h

Reach-IsHonest :
    {remote_port requested : ℤ} {s t : ForwardSession}
    → Reach remote_port requested s t
    → IsHonest requested s
    → IsHonest requested t
Reach-IsHonest here h = h
Reach-IsHonest (next before step) h = Step-IsHonest step (Reach-IsHonest before h)

-- Whatever lines come in whatever order, a session that was not killed and reports without a failure reports the
-- local port it holds, which is the one asked for, if a port was asked for; nothing is stored before the report.
pub Reach-new_session :
    (remote_port requested : ℤ) (namespace target : String) (s : ForwardSession)
    → Reach remote_port requested (new_session namespace target) s
    → IsHonest requested s
Reach-new_session remote_port requested namespace target s run = Reach-IsHonest run refl

handle_parsed-ready :
    (trimmed : String) (remote_port requested : ℤ) (o : Result (ℤ × ℤ)) (s : ForwardSession)
    (r : ReadyResult)
    → s.ready ≡ some r
    → ((handle_parsed trimmed remote_port requested o s).ready ≡ some r)
      × ((handle_parsed trimmed remote_port requested o s).local_port ≡ s.local_port)
unfolding handle_parsed check_ports fail_once succeed_once
handle_parsed-ready trimmed remote_port requested (err e) s r h = ground arith
handle_parsed-ready trimmed remote_port requested (ok (l, k)) s r h = ground arith

Step-ready :
    {remote_port requested : ℤ} {s t : ForwardSession} (r : ReadyResult)
    → Step remote_port requested s t
    → s.ready ≡ some r
    → (t.ready ≡ some r) × (t.local_port ≡ s.local_port)
unfolding handle_line handle_parsed check_ports fail_once succeed_once finish_run
Step-ready {remote_port} {requested} r (read line s) h =
    let trimmed = trim_space line in
    ground (
      arith,
      handle_parsed-ready trimmed remote_port requested (parse_forwarding_line trimmed)
          (record s { output = append_log s.output trimmed }) r h,
    )
Step-ready r (kill s) h = (h, refl)
Step-ready r (end read_err wait_err s) h = ground arith

-- What a session has reported, it has reported for good: no later event changes the report or the port.
pub Reach-ready :
    (remote_port requested : ℤ) (s t : ForwardSession) (r : ReadyResult)
    → Reach remote_port requested s t
    → s.ready ≡ some r
    → (t.ready ≡ some r) × (t.local_port ≡ s.local_port)
Reach-ready remote_port requested s t r here h = (h, refl)
Reach-ready remote_port requested s t r (next {t = u} before step) h =
    let (reported, port) = Reach-ready remote_port requested s u r before h in
    let (still, same) = Step-ready r step reported in (still, same ∙ port)

abbrev closed_or : Option Err → Option (Option Err) → Option Err
closed_or e none = e
closed_or e (some d) = d

-- What has been reported after the end of the process.
abbrev report_or : Option Err → Option ReadyResult → ReadyResult
report_or e none = record { local_port = pos 0; error = e }
report_or e (some r) = r

-- The end of the process, also of one that was killed, leaves the session with a report and closed: with what it
-- had reported or been closed with before, if it had. One that was neither killed nor closed before is closed
-- without an error only where it holds a port above 0.
pub finish_run_lem :
    (read_err wait_err : Option Err) (s : ForwardSession)
    → let after = finish_run read_err wait_err s in
      (r : ReadyResult) × (e : Option Err) × (after.ready ≡ some r)
      × (after.done ≡ some e)
      × ((s.ready ≡ none) ⊎ (s.ready ≡ some r))
      × ((s.done ≡ none) ⊎ (s.done ≡ some e))
      × ((is_some s.done || s.stopped_by_us || is_some e || is_ready s) ≡ true)
unfolding finish_run exit_error fail_once
finish_run_lem read_err wait_err s =
    let e = exit_error wait_err s read_err in
    (
      report_or e s.ready,
      closed_or e s.done,
      ground arith,
      ground arith,
      ground arith,
      ground arith,
      ground arith,
    )
