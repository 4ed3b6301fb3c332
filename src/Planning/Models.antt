-- ===== src/Planning/Models.antt =====
-- backend/app/planning/models.py, less the timestamps, and the store of an execution. A step that
-- the source changes in place is replaced in the plan by its id, which no other step bears.
use ai_employee_os.Common.{
  String, Bool, true, false, Option, List, [], ◌∷◌, ◌==◌, string_eq, if◌then◌else◌,
}
use ai_employee_os.Common.Json.{Fields}
pub use ai_employee_os.Common.Json.{Uuid}

pub data PlanStatus : Type 0 where
  draft ready approved completed failed cancelled : PlanStatus

pub data StepStatus : Type 0 where
  pending running completed failed skipped : StepStatus

pub data TaskExecutionStatus : Type 0 where
  created planning waiting_approval running completed failed cancelled : TaskExecutionStatus

pub record PlanStep : Type 0 where
  pub id : Uuid
  pub description : String
  pub capability : String
  pub dependencies : List Uuid
  pub status : StepStatus
  pub result : Option Fields

pub record TaskPlan : Type 0 where
  pub id : Uuid
  pub goal : String
  pub summary : String
  pub steps : List PlanStep
  pub required_capabilities : List String
  pub status : PlanStatus

pub record ExecutionLogEntry : Type 0 where
  pub step_id : Option Uuid
  pub level : String
  pub message : String

pub record TaskExecution : Type 0 where
  pub task_id : Uuid
  pub plan_id : Option Uuid
  pub current_step : Option Uuid
  pub status : TaskExecutionStatus
  pub logs : List ExecutionLogEntry
  pub results : Fields

abbrev pub is_completed : StepStatus → Bool
is_completed StepStatus.completed = true
is_completed _ = false

abbrev pub is_failed : StepStatus → Bool
is_failed StepStatus.failed = true
is_failed _ = false

-- The step that an assignment to a step's field leaves in the plan.
unfoldable pub put_step : PlanStep → List PlanStep → List PlanStep
put_step new [] = []
put_step new (old ∷ steps) = (if new.id == old.id then new else old) ∷ put_step new steps
