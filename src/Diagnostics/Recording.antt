-- ===== src/Diagnostics/Recording.antt =====
-- internal/diagnostics/operation.go: the recorder. The world outside, `W`, holds the clock and what the
-- reporter writes to. A map and a step are values here, so a snapshot is the operation itself. The body
-- of a step gets the step's index, adds metadata, and starts no other step; what
-- the body leaves in a variable is its result.
pub mod Indices
pub mod Statuses
pub mod Completion
use kagen.Prelude.{
  ℕ, zero, suc, String, Bool, true, false, ◌||◌, Option, none, some, List, [], ◌∷◌, ◌++◌, ◌==◌,
  nat_eq, if◌then◌else◌,
}
use kagen.Prelude.Int.{ℤ, pos, sub_ℕ}
use kagen.Prelude.Lists.{length, get_elem?}
use kagen.Prelude.Maps.{Map, lookup, insert}
use kagen.Prelude.Text.{trim_space}
use kagen.Errors.{Err, step_error, error_text, class_of}
use kagen.Errors.Exec.{Result, ok, err, Exec}
use kagen.Session.{Time}
use kagen.Diagnostics.{
  StepStatus, pending, running, succeeded, failed, StepRecord, Operation, Recorder,
}

pub record Reporter (W : Type 0) : Type 0 where
  pub step_started : Operation → StepRecord → W → W
  pub operation_finished : Operation → W → W

pub record Host (W : Type 0) : Type 0 where
  pub now : W → Time × W
  pub reporter : Option (Reporter W)
  pub sprintf : String → List String → String

abbrev pub new_step : String → StepRecord
new_step name = record {
  name = name;
  status = pending;
  started_at = 0;
  finished_at = 0;
  duration = pos 0;
  error_summary = "";
  failure_class = "";
  metadata = [];
}

unfoldable pub planned : List String → List StepRecord
planned [] = []
planned (name ∷ names) = new_step name ∷ planned names

-- indices[name] = i, for each of the names from the i-th on.
unfoldable pub indexed : List String → ℕ → Map ℕ → Map ℕ
indexed [] i m = m
indexed (name ∷ names) i m = indexed names (suc i) (insert name i m)

unfoldable pub new_recorder : {W : Type 0} → Host W → String → List String → W → Recorder × W
new_recorder host name steps w =
    let (started, w1) = host.now w in
    (
      record {
        current = record {
          name = name;
          status = running;
          started_at = started;
          finished_at = 0;
          duration = pos 0;
          metadata = [];
          steps = planned steps;
        };
        indices = indexed steps 0 [];
        reported = false;
      },
      w1,
    )

abbrev pub put_metadata : String → String → Map String → Map String
put_metadata key value m =
    if trim_space key == "" || trim_space value == "" then m else insert key value m

-- `Recorder.AddMetadata`
unfoldable pub add_metadata : String → String → Recorder → Recorder
add_metadata key value r = record r {
  current = record (r.current) { metadata = put_metadata key value r.current.metadata };
}

-- `Recorder.AddMetadataMap`
unfoldable pub add_metadata_map : Map String → Recorder → Recorder
unfolding add_metadata
add_metadata_map [] r = r
add_metadata_map ((key, value) ∷ m) r = add_metadata_map m (add_metadata key value r)

-- A change of the step at an index. The indices of the recorder are those of its steps.
unfoldable pub modify : (StepRecord → StepRecord) → List StepRecord → ℕ → List StepRecord
modify f [] i = []
modify f (s ∷ ss) zero = f s ∷ ss
modify f (s ∷ ss) (suc i) = s ∷ modify f ss i

unfoldable pub on_step : (StepRecord → StepRecord) → ℕ → Recorder → Recorder
unfolding modify
on_step f i r = record r { current = record (r.current) { steps = modify f r.current.steps i } }

-- `StepContext.AddMetadata`
unfoldable pub add_step_metadata : String → String → ℕ → Recorder → Recorder
unfolding on_step
add_step_metadata key value =
    on_step (λ s. record s { metadata = put_metadata key value s.metadata })

-- `StepContext.AddMetadataMap`
unfoldable pub add_step_metadata_map : Map String → ℕ → Recorder → Recorder
unfolding add_step_metadata
add_step_metadata_map [] i r = r
add_step_metadata_map ((key, value) ∷ m) i r =
    add_step_metadata_map m i (add_step_metadata key value i r)

unfoldable pub append_step : String → Recorder → Recorder
append_step name r = record r {
  current = record (r.current) { steps = r.current.steps ++ new_step name ∷ [] };
  indices = insert name (length r.current.steps) r.indices;
}

-- The index of the step of a name, appended where the recorder has none.
unfoldable pub step_index : String → Recorder → ℕ × Recorder
unfolding append_step lookup
step_index name r = elim (lookup name r.indices) [
  | some i ↦ (i, r)
  | none ↦ (length r.current.steps, append_step name r)
]

unfoldable pub start_step : Time → StepRecord → StepRecord
start_step started s = record s {
  status = running;
  started_at = started;
  finished_at = 0;
  duration = pos 0;
  error_summary = "";
}

abbrev pub elapsed : Time → Time → ℤ → ℤ
elapsed started finished duration = if nat_eq started 0 then duration else sub_ℕ finished started

-- The end of a step. An error without a class leaves no `failure_class` in the metadata.
unfoldable pub end_step :
    {A : Type 0} → (String → List String → String) → Time → Result A → StepRecord → StepRecord
end_step sprintf finished (ok u) s = record s {
  status = succeeded;
  finished_at = finished;
  duration = elapsed s.started_at finished s.duration;
  failure_class = "";
}
end_step sprintf finished (err e) s = record s {
  status = failed;
  finished_at = finished;
  duration = elapsed s.started_at finished s.duration;
  error_summary = error_text sprintf e;
  failure_class = class_of e;
  metadata =
      if class_of e == "" then s.metadata else insert "failure_class" (class_of e) s.metadata;
}

abbrev pub fail_operation : {A : Type 0} → Result A → Recorder → Recorder
fail_operation (ok u) r = r
fail_operation (err e) r = record r { current = record (r.current) { status = failed } }

abbrev pub step_result : {A : Type 0} → String → String → Result A → Result A
step_result operation name (ok u) = ok u
step_result operation name (err e) = err (step_error operation name (class_of e) e)

module _ {W : Type 0} (host : Host W) where
  abbrev pub report_started : Operation → Option StepRecord → W → W
  report_started o none w = w
  report_started o (some s) w = elim host.reporter [
    | none ↦ w
    | some reporter ↦ reporter.step_started o s w
  ]

  -- The start of a step: its index, and the recorder and the world in which its body runs.
  unfoldable pub begin_step : String → Recorder × W → ℕ × (Recorder × W)
  unfolding step_index on_step start_step
  begin_step name (r, w) =
      let (i, r1) = step_index name r in
      let (started, w1) = host.now w in
      let r2 = on_step (start_step started) i r1 in
      (i, (r2, report_started r2.current (get_elem? r2.current.steps i) w1))

  unfoldable pub finish_step :
      {A : Type 0} → String → ℕ → Result A × (Recorder × W) → Result A × (Recorder × W)
  unfolding on_step end_step
  finish_step name i (result, (r, w)) =
      let (finished, w1) = host.now w in
      let r1 = on_step (end_step host.sprintf finished result) i r in
      (step_result r.current.name name result, (fail_operation result r1, w1))

  -- `RunStep`, on a recorder that is not nil
  unfoldable pub run_step :
      {A : Type 0} → String → (ℕ → Exec (Recorder × W) A) → Exec (Recorder × W) A
  unfolding begin_step finish_step
  run_step name body state =
      let (i, begun) = begin_step name state in finish_step name i (body i begun)

  unfoldable pub has_running : List StepRecord → Bool
  has_running [] = false
  has_running (s ∷ ss) = elim s.status [ running ↦ true | _ ↦ has_running ss ]

  abbrev pub final_status : StepStatus → List StepRecord → StepStatus
  final_status failed steps = failed
  final_status _ steps = if has_running steps then running else succeeded

  unfoldable pub completed : Operation → Time → Operation
  unfolding has_running
  completed o finished = record o {
    finished_at = finished;
    duration = elapsed o.started_at finished o.duration;
    status = final_status o.status o.steps;
  }

  abbrev pub finish_time : Operation → W → Time × W
  finish_time o w = if nat_eq o.finished_at 0 then host.now w else (o.finished_at, w)

  -- A reporter is told once of the end.
  unfoldable pub report_finished : Option (Reporter W) → Operation → Recorder → W → Recorder × W
  report_finished none o r w = (r, w)
  report_finished (some reporter) o r w =
      if r.reported then (r, w) else (record r { reported = true }, reporter.operation_finished o w)

  unfoldable pub complete_at : Recorder → Time × W → Operation × (Recorder × W)
  unfolding completed report_finished
  complete_at r (finished, w) =
      let o = completed r.current finished in
      (o, report_finished host.reporter o (record r { current = o }) w)

  -- `Complete`
  unfoldable pub complete : Recorder × W → Operation × (Recorder × W)
  unfolding complete_at
  complete (r, w) = complete_at r (finish_time r.current w)
