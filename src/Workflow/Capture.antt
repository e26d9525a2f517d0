-- ===== src/Workflow/Capture.antt =====
-- internal/workflow/session.go: the capture of failure artefacts, and the recorder beside the world.
use kagen.Prelude.{String, Bool, ◌&&◌, Option, none, some, List, [], if◌then◌else◌}
use kagen.Prelude.Int.{ℤ, pos, ltb_ℤ}
use kagen.Prelude.Maps.{lookup_text, is_some}
use kagen.Prelude.Text.{trim_space}
use kagen.Errors.{Err, wrapped}
use kagen.Errors.Exec.{Result, ok, err, Exec}
use kagen.Session.{Summary}
use kagen.Diagnostics.{Recorder}
use kagen.Diagnostics.Recording.{Host, complete}
use kagen.Workflow.Session.{SessionStore, FailureArtefactRequest, fail_start_session}

abbrev pub Traced : Type 0 → Type 0 → Type 0
Traced W A = Exec (Recorder × W) A

abbrev pub close_result : {A : Type 0} → Result A → Result (Unit {0}) → Result A
close_result (ok a) (ok u) = ok a
close_result (ok a) (err e) = err (wrapped "closing session store: %w" [] e)
close_result (err e) closed = err e

-- `failureCapture`
pub record FailureCapture (W : Type 0) : Type 0 where
  pub store : Option (SessionStore W)
  pub session_id : ℤ
  pub session_summary : Option Summary

abbrev pub found_summary : Result (Option Summary) → Option Summary
found_summary (ok found) = found
found_summary (err e) = none

module _ {W : Type 0} where
  -- What leaves the recorder as it is.
  abbrev pub on_world : {A : Type 0} → Exec W A → Traced W A
  on_world m (r, w) = let (res, w1) = m w in (res, (r, w1))

  -- What only the recorder is told.
  abbrev pub on_trace : (Recorder → Recorder) → Traced W (Unit {0})
  on_trace f (r, w) = (ok tt, (f r, w))

  -- A store is closed at the end; the error of that is returned only where there is no other.
  unfoldable pub closing : {A : Type 0} → SessionStore W → Traced W A → Traced W A
  closing store m state =
      let (res, (r, w)) = m state in
      let (closed, w1) = store.close w in (close_result res closed, (r, w1))

  abbrev pub can_load : FailureCapture W → Bool
  can_load state = ltb_ℤ (pos 0) state.session_id && is_some state.store

  abbrev pub load_from : Option (SessionStore W) → ℤ → W → Option Summary × W
  load_from none id w = (none, w)
  load_from (some store) id w =
      let (found, w1) = store.get_summary id w in (found_summary found, w1)

  -- The summary of the failed session: the one at hand, or the one of the store.
  unfoldable pub load_summary : FailureCapture W → W → Option Summary × W
  load_summary state w = elim state.session_summary [
    | some summary ↦ (some summary, w)
    | none ↦ if can_load state then load_from state.store state.session_id w else (none, w)
  ]

  abbrev pub mark_failed :
      (String → List String → String) → Option (SessionStore W) → ℤ → Err → W → Err × W
  unfolding fail_start_session
  mark_failed sprintf none id e w = (e, w)
  mark_failed sprintf (some store) id e w = fail_start_session store sprintf id e w

  -- `collect` is the collector of failure artefacts, whose error is only shown.
  unfoldable pub capture_workflow_failure :
      Host W
      → Option (FailureArtefactRequest → W → W)
      → Bool
      → FailureCapture W
      → Err
      → Recorder × W
      → Err × (Recorder × W)
  unfolding load_summary complete
  capture_workflow_failure host collector update state e (r, w) =
      let (e1, w1) =
        if update && can_load state
        then mark_failed host.sprintf state.store state.session_id e w
        else (e, w) in
      elim collector [
        | none ↦ (e1, (r, w1))
        | some collect ↦
            let (operation, (r2, w2)) = complete host (r, w1) in
            let (summary, w3) = load_summary state w2 in
            (
              e1,
              (
                r2,
                collect
                    (record {
                      operation = operation;
                      error = e1;
                      kube_context = trim_space (lookup_text "kube_context" operation.metadata);
                      session_summary = summary;
                    })
                    w3,
              ),
            )
      ]

  abbrev pub captured_result :
      {A : Type 0}
      → (Err → Recorder × W → Err × (Recorder × W))
      → Result A × (Recorder × W)
      → Result A × (Recorder × W)
  captured_result capture (ok a, state) = (ok a, state)
  captured_result capture (err e, state) = let (e1, after) = capture e state in (err e1, after)

  -- `if err := …; err != nil { return handleFailure(err) }`
  unfoldable pub captured :
      {A : Type 0} → (Err → Recorder × W → Err × (Recorder × W)) → Traced W A → Traced W A
  captured capture m state = captured_result capture (m state)
