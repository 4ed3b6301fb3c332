-- ===== src/Orchestration/Controls.antt =====
-- backend/app/orchestration/store.py, and what the API does to an execution that is on its way:
-- the methods of backend/app/orchestration/orchestrator.py that pause, resume and cancel it. The
-- stored record holds the very graph and state that the loop of `execute` works on.
use ai_employee_os.Common.{String, Bool, Option, none, some, List, if◌then◌else◌, string_eq}
use ai_employee_os.Common.Dict.{Dict, lookup, insert, keys}
use ai_employee_os.Orchestration.Models.{ExecutionState, ExecutionRecord}
use ai_employee_os.Orchestration.Scheduler.{mark_cancelled, mark_paused, resume_paused}
use ai_employee_os.Orchestration.StateManager.{refresh, pause, resume, cancel}
use ai_employee_os.Orchestration.Policy.{can_pause, can_resume, can_cancel}
use ai_employee_os.Orchestration.Progress.{calculate_progress, build_telegram_progress}

abbrev pub ExecutionStore : Type 0
ExecutionStore = Dict String ExecutionRecord

unfoldable pub save : ExecutionRecord → ExecutionStore → ExecutionStore
save execution store = insert execution.execution_id execution store

unfoldable pub get : String → ExecutionStore → Option ExecutionRecord
get execution_id store = lookup execution_id store

unfoldable pub update_state :
    String → ExecutionState → ExecutionStore → Option ExecutionRecord × ExecutionStore
update_state execution_id state store = elim (lookup execution_id store) [
  | none ↦ (none, store)
  | some old ↦ let new = record old { state = state } in (some new, insert execution_id new store)
]

unfoldable pub list_ids : ExecutionStore → List String
list_ids store = keys store

-- What a method does to the record, up to the message for Telegram
unfoldable pub refreshed : ExecutionRecord → ExecutionRecord
refreshed execution = record execution {
  state = record (refresh execution.state execution.graph) {
    progress = calculate_progress execution.graph;
  };
}

unfoldable pub paused_record : ExecutionRecord → ExecutionRecord
paused_record execution =
    refreshed
      (record execution { state = pause execution.state; graph = (mark_paused execution.graph).1 })

unfoldable pub resumed_record : ExecutionRecord → ExecutionRecord
resumed_record execution =
    refreshed
      (record execution { graph = resume_paused execution.graph; state = resume execution.state })

unfoldable pub cancelled_record : ExecutionRecord → ExecutionRecord
cancelled_record execution = refreshed (record execution {
  graph = (mark_cancelled execution.graph).1;
  state = cancel execution.state (some "Cancelled by user");
})

-- A method returns a state or None, or raises KeyError when the order names no node.
pub data ControlResult : Type 0 where
  returned : Option ExecutionState → ControlResult
  key_error : ControlResult

abbrev publish : String → ExecutionRecord → ExecutionStore → ControlResult × ExecutionStore
publish execution_id execution store =
    elim (build_telegram_progress execution_id execution.graph execution.state.progress) [
      | none ↦ (key_error, insert execution_id execution store)
      | some message ↦ (
        returned (some execution.state),
        save (record execution { telegram_progress = some message }) store,
      )
    ]

abbrev control :
    (ExecutionState → Bool)
    → (ExecutionRecord → ExecutionRecord)
    → String
    → ExecutionStore
    → ControlResult × ExecutionStore
control can change execution_id store = elim (get execution_id store) [
  | none ↦ (returned none, store)
  | some execution ↦
      if can execution.state
      then publish execution_id (change execution) store
      else (returned none, store)
]

unfoldable pub pause_execution : String → ExecutionStore → ControlResult × ExecutionStore
pause_execution = control can_pause paused_record

unfoldable pub resume_execution : String → ExecutionStore → ControlResult × ExecutionStore
resume_execution = control can_resume resumed_record

unfoldable pub cancel_execution : String → ExecutionStore → ControlResult × ExecutionStore
cancel_execution = control can_cancel cancelled_record
