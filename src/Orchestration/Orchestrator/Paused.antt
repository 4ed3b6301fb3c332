-- ===== src/Orchestration/Orchestrator/Paused.antt =====
-- A pause ends the loop of `execute`, since `should_continue_execution` is false of it.
use ai_employee_os.Common.{ℕ, zero, suc, ◌≡◌, refl, true, false, some, List, [], ◌∷◌, all, arith}
use ai_employee_os.Common.Json.{Fields}
use ai_employee_os.Planning.Models.{PlanStatus, TaskExecutionStatus, PlanStep, TaskPlan}
use ai_employee_os.Planning.Executor.{Registry}
use ai_employee_os.Orchestration.Models.{ExecutionControlStatus, Nodes, is_terminal}
use ai_employee_os.Orchestration.StateManager.{complete}
use ai_employee_os.Orchestration.Policy.{
  some_pending, should_continue_execution, should_fail_execution,
}
use ai_employee_os.Orchestration.NodeRuns.{Session}
use ai_employee_os.Orchestration.Orchestrator.{ApiCall, ended, loop, conclude, conclude_completed}

pending-all :
    (nodes : Nodes)
    → some_pending nodes ≡ true
    → all (λ (_, node). is_terminal node.status) nodes ≡ false
pending-all [] h = cc
pending-all ((_, node) ∷ nodes) h = ground (arith, pending-all nodes)

module _ {World : Type 0} (registry : Registry World)
    (payload_of : PlanStep → TaskPlan → Fields) where
  loop-paused :
      (fuel : ℕ) (awaits : List (List ApiCall)) (s : Session registry payload_of)
      → s.stored.state.control_status ≡ ExecutionControlStatus.paused
      → loop registry payload_of fuel awaits s ≡ ended s
  unfolding loop should_continue_execution
  loop-paused zero awaits s paused = rw paused refl
  loop-paused (suc fuel) awaits s paused = rw paused refl

  conclude-paused :
      (s : Session registry payload_of)
      → s.stored.state.control_status ≡ ExecutionControlStatus.paused
      → some_pending s.stored.graph.nodes ≡ true
      → conclude registry payload_of s ≡ some (conclude_completed registry payload_of s)
  unfolding conclude should_fail_execution
  conclude-paused s paused pending =
      rw (paused, pending-all s.stored.graph.nodes pending) (ground arith)

  -- An execution that is paused while nodes are pending leaves the loop at once, and is reported
  -- as completed: so are its plan and its state, and the nodes are pending still.
  pub paused-completed :
      (fuel : ℕ) (awaits : List (List ApiCall)) (s : Session registry payload_of)
      → s.stored.state.control_status ≡ ExecutionControlStatus.paused
      → some_pending s.stored.graph.nodes ≡ true
      → (loop registry payload_of fuel awaits s ≡ ended s)
        × (out : Session registry payload_of) × (conclude registry payload_of s ≡ some out)
        × (out.execution.status ≡ TaskExecutionStatus.completed)
        × (out.plan.status ≡ PlanStatus.completed)
        × (out.stored.state.control_status ≡ ExecutionControlStatus.completed)
        × (some_pending out.stored.graph.nodes ≡ true)
  unfolding conclude_completed complete
  paused-completed fuel awaits s paused pending = (
    loop-paused fuel awaits s paused,
    conclude_completed registry payload_of s,
    conclude-paused s paused pending,
    refl,
    refl,
    refl,
    pending,
  )
