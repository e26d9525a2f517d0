-- ===== src/Cluster/PortForward.antt =====
-- internal/cluster/portforward.go: the session of a `kubectl port-forward` process. The two readers of
-- its output take turns, one line at a time, in any order: `handle_line` is what the session does on
-- each. A `sync.Once` is an option that is written only where it is none.
pub mod Lines
pub mod Steps
pub mod Start
pub mod Digits
pub mod RoundTrip
use kagen.Prelude.{
  ℕ, String, Bool, true, false, ◌&&◌, ◌||◌, not, Option, none, some, List, [], ◌∷◌, ◌==◌,
  if◌then◌else◌,
}
use kagen.Prelude.Int.{ℤ, pos, leb_ℤ, ltb_ℤ, eq_ℤ}
use kagen.Prelude.Text.{itoa, trim_space, contains_text, ◌+s◌}
use kagen.Errors.{Err, message, wrapped}
use kagen.Errors.Exec.{Result, ok, err}
use kagen.Cluster.PortForward.Lines.{parse_forwarding_line}

-- `portForwardSpec`
unfoldable pub port_forward_spec : ℤ → ℤ → Result String
unfolding itoa
port_forward_spec local_port remote_port =
    if leb_ℤ remote_port (pos 0)
    then err (message "remote port must be positive, got %d" (itoa remote_port ∷ []))
    else if ltb_ℤ local_port (pos 0)
    then err (message "local port must be zero or positive, got %d" (itoa local_port ∷ []))
    else if eq_ℤ local_port (pos 0)
    then ok (":" +s itoa remote_port)
    else ok (itoa local_port +s ":" +s itoa remote_port)

-- `readyResult`
pub record ReadyResult : Type 0 where
  pub local_port : ℤ
  pub error : Option Err

-- `ready` is what `readyOnce` put on `readyCh`, and `done` the error with which `doneCh` was closed.
pub record ForwardSession : Type 0 where
  pub namespace : String
  pub target : String
  pub output : String
  pub ready : Option ReadyResult
  pub local_port : ℤ
  pub done : Option (Option Err)
  pub stopped_by_us : Bool

abbrev pub new_session : String → String → ForwardSession
new_session namespace target = record {
  namespace = namespace;
  target = target;
  output = "";
  ready = none;
  local_port = pos 0;
  done = none;
  stopped_by_us = false;
}

-- `appendPortForwardLog`
unfoldable pub append_log : String → String → String
append_log output line = if output == "" then trim_space line else output +s "\n" +s trim_space line

-- `isReady`
unfoldable pub is_ready : ForwardSession → Bool
is_ready s = ltb_ℤ (pos 0) s.local_port

-- `readyOnce.Do` with a failure
unfoldable pub fail_once : Option Err → ForwardSession → ForwardSession
fail_once e s = elim s.ready [
  | none ↦ record s { ready = some (record { local_port = pos 0; error = e }) }
  | some r ↦ s
]

-- `readyOnce.Do` with the port that kubectl bound
unfoldable pub succeed_once : ℤ → ForwardSession → ForwardSession
succeed_once port s = elim s.ready [
  | none ↦ record s { ready = some (record { local_port = port; error = none }); local_port = port }
  | some r ↦ s
]

-- The ports of a forwarding line, against those that were asked for.
unfoldable pub check_ports : ℤ → ℤ → ℤ → ℤ → ForwardSession → ForwardSession
unfolding fail_once succeed_once
check_ports remote_port requested forwarded_local forwarded_remote s =
    if not (eq_ℤ forwarded_remote remote_port)
    then fail_once
        (some (
          message "kubectl port-forward forwarded remote port %d, want %d"
            (itoa forwarded_remote ∷ itoa remote_port ∷ [])))
        s
    else if ltb_ℤ (pos 0) requested && not (eq_ℤ forwarded_local requested)
    then fail_once
        (some (
          message "kubectl port-forward bound local port %d, want %d"
            (itoa forwarded_local ∷ itoa requested ∷ [])))
        s
    else succeed_once forwarded_local s

unfoldable pub handle_parsed : String → ℤ → ℤ → Result (ℤ × ℤ) → ForwardSession → ForwardSession
unfolding check_ports fail_once
handle_parsed trimmed remote_port requested (err e) s =
    fail_once (some (wrapped "parsing port-forward output %q: %w" (trimmed ∷ []) e)) s
handle_parsed trimmed remote_port requested (ok (forwarded_local, forwarded_remote)) s =
    check_ports remote_port requested forwarded_local forwarded_remote s

-- `handleLine`
unfoldable pub handle_line : ℤ → ℤ → String → ForwardSession → ForwardSession
unfolding append_log handle_parsed parse_forwarding_line
handle_line remote_port requested line s =
    let trimmed = trim_space line in
    let logged = record s { output = append_log s.output trimmed } in
    if trimmed == ""
    then s
    else if not (contains_text trimmed "Forwarding from")
    then logged
    else handle_parsed trimmed remote_port requested (parse_forwarding_line trimmed) logged

-- `recordErr`: the first error is kept.
abbrev pub record_err : Option Err → Option Err → Option Err
record_err (some first) e = some first
record_err none e = e

abbrev pub exited_early : ForwardSession → Err
exited_early s =
    message "kubectl port-forward %s %s exited before reporting a forwarded port: %s"
      (s.namespace ∷ s.target ∷ trim_space s.output ∷ [])

-- What `run` adds to the readers' error once the process has ended with `wait_err`.
unfoldable pub exit_error : Option Err → ForwardSession → Option Err → Option Err
unfolding is_ready
exit_error none s read_err =
    if is_ready s then read_err else record_err read_err (some (exited_early s))
exit_error (some e) s read_err =
    if s.stopped_by_us
    then read_err
    else record_err read_err (
        some (
          wrapped "kubectl port-forward %s %s: %s: %w"
            (s.namespace ∷ s.target ∷ trim_space s.output ∷ []) e))

abbrev pub close_done : Option Err → ForwardSession → ForwardSession
close_done e s = elim s.done [ none ↦ record s { done = some e } | some d ↦ s ]

-- The end of `run`: both readers are at the end of their stream, `read_err` is the first error of the two.
unfoldable pub finish_run : Option Err → Option Err → ForwardSession → ForwardSession
unfolding exit_error fail_once
finish_run read_err wait_err s =
    let run_err = exit_error wait_err s read_err in close_done run_err (fail_once run_err s)

-- `Stop` up to the wait: the process is killed.
abbrev pub stop : ForwardSession → ForwardSession
stop s = record s { stopped_by_us = true }
