-- ===== src/Orchestration/Orchestrator/Safety/Calls.antt =====
-- What the API does to an execution keeps its graph sound.
use ai_employee_os.Common.{refl, arith, string_eq}
use ai_employee_os.Orchestration.Models.{
  NodeStatus, ExecutionGraph, ExecutionRecord, is_open, is_paused, is_waiting_or_ready,
}
use ai_employee_os.Orchestration.Scheduler.{mark_cancelled, mark_paused, resume_paused}
use ai_employee_os.Orchestration.Controls.{
  refreshed, paused_record, resumed_record, cancelled_record,
}
use ai_employee_os.Orchestration.Safety.{IsSound, each_node-IsSound, mark-IsMild}
use ai_employee_os.Orchestration.Orchestrator.{ApiCall, api_call}

-- The API's calls
pub mark_cancelled-IsSound :
    (g : ExecutionGraph) → IsSound g.nodes → IsSound (mark_cancelled g).1.nodes
unfolding mark_cancelled
mark_cancelled-IsSound g sound =
    each_node-IsSound _ g.nodes
      (mark-IsMild g.nodes is_open NodeStatus.cancelled (λ s h. ground arith) refl refl) sound

mark_paused-IsSound : (g : ExecutionGraph) → IsSound g.nodes → IsSound (mark_paused g).1.nodes
unfolding mark_paused
mark_paused-IsSound g sound =
    each_node-IsSound _ g.nodes
      (mark-IsMild g.nodes is_waiting_or_ready NodeStatus.paused (λ s h. ground arith) refl refl)
      sound

resume_paused-IsSound : (g : ExecutionGraph) → IsSound g.nodes → IsSound (resume_paused g).nodes
unfolding resume_paused
resume_paused-IsSound g sound =
    each_node-IsSound _ g.nodes
      (mark-IsMild g.nodes is_paused NodeStatus.waiting (λ s h. ground arith) refl refl) sound

pub api_call-IsSound :
    (c : ApiCall) (r : ExecutionRecord) → IsSound r.graph.nodes → IsSound (api_call c r).graph.nodes
unfolding api_call refreshed paused_record resumed_record cancelled_record
api_call-IsSound ApiCall.pauses r sound = ground (arith, mark_paused-IsSound r.graph sound)
api_call-IsSound ApiCall.resumes r sound = ground (arith, resume_paused-IsSound r.graph sound)
api_call-IsSound ApiCall.cancels r sound = ground (arith, mark_cancelled-IsSound r.graph sound)
