-- ===== src/Diagnostics.antt =====
-- internal/diagnostics/operation.go: the data of an operation's trace. A time is its number of
-- nanoseconds, 0 where it is not set, and a duration may be negative.
pub mod Recording
pub mod Summary
use kagen.Prelude.{ℕ, String, Bool, List}
use kagen.Prelude.Int.{ℤ}
use kagen.Prelude.Maps.{Map}
use kagen.Errors.{FailureClass}
use kagen.Session.{Time}

pub data StepStatus : Type 0 where
  pending running succeeded failed : StepStatus

-- The text of a status.
unfoldable pub status_text : StepStatus → String
status_text pending = "pending"
status_text running = "running"
status_text succeeded = "succeeded"
status_text failed = "failed"

pub record StepRecord : Type 0 where
  pub name : String
  pub status : StepStatus
  pub started_at : Time
  pub finished_at : Time
  pub duration : ℤ
  pub error_summary : String
  pub failure_class : FailureClass
  pub metadata : Map String

pub record Operation : Type 0 where
  pub name : String
  pub status : StepStatus
  pub started_at : Time
  pub finished_at : Time
  pub duration : ℤ
  pub metadata : Map String
  pub steps : List StepRecord

-- The clock and the reporter are the caller's.
pub record Recorder : Type 0 where
  pub current : Operation
  pub indices : Map ℕ
  pub reported : Bool
