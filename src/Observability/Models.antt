-- ===== src/Observability/Models.antt =====
-- backend/app/observability/models.py. A time is a number of microseconds, and so is a duration.
use ai_employee_os.Common.{ℕ, String, Bool, true, false, Option, List, []}
use ai_employee_os.Common.Json.{Fields}

pub data TraceStatus : Type 0 where
  started : TraceStatus
  running : TraceStatus
  completed : TraceStatus
  failed : TraceStatus
  cancelled : TraceStatus

pub data TimelineEventStatus : Type 0 where
  started : TimelineEventStatus
  completed : TimelineEventStatus
  failed : TimelineEventStatus
  skipped : TimelineEventStatus

pub record TimelineEvent : Type 0 where
  pub id : String
  pub node_name : String
  pub started_at : ℕ
  pub finished_at : Option ℕ
  pub duration : Option ℕ
  pub status : TimelineEventStatus
  pub metadata : Fields

pub record ExecutionTimeline : Type 0 where
  pub trace_id : String
  pub execution_id : String
  pub events : List TimelineEvent

pub record ExecutionTrace : Type 0 where
  pub trace_id : String
  pub execution_id : String
  pub started_at : ℕ
  pub finished_at : Option ℕ
  pub status : TraceStatus
  pub duration : Option ℕ
  pub metadata : Fields
  pub timeline : Option ExecutionTimeline

-- The average duration is the total over the number of executions, and 0 where there are none.
pub record MetricsSnapshot : Type 0 where
  pub execution_count : ℕ
  pub failed_count : ℕ
  pub average_duration : ℕ × ℕ
  pub llm_calls : ℕ
  pub tokens : ℕ
  pub queue_size : ℕ
  pub active_traces : ℕ
  pub completed_traces : ℕ

abbrev pub is_failed : TraceStatus → Bool
is_failed TraceStatus.failed = true
is_failed _ = false

-- `status in {COMPLETED, FAILED, CANCELLED}`, and `status in {STARTED, RUNNING}`
abbrev pub is_over : TraceStatus → Bool
is_over TraceStatus.started = false
is_over TraceStatus.running = false
is_over TraceStatus.completed = true
is_over TraceStatus.failed = true
is_over TraceStatus.cancelled = true

abbrev pub is_active : TraceStatus → Bool
is_active TraceStatus.started = true
is_active TraceStatus.running = true
is_active TraceStatus.completed = false
is_active TraceStatus.failed = false
is_active TraceStatus.cancelled = false

abbrev pub empty_timeline : String → String → ExecutionTimeline
empty_timeline trace_id execution_id = record {
  trace_id = trace_id;
  execution_id = execution_id;
  events = [];
}
