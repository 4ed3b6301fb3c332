-- ===== src/Orchestration/Orchestrator/Safety/Writes.antt =====
-- `_run_node` writes the node that it runs and no other.
use ai_employee_os.Common.{
  ℕ, zero, suc, ◌≡◌, refl, sym, ap, subst, ◌∙◌, Bool, true, false, inl, inr, Option, none, some,
  List, [], ◌∷◌, String, ◌<>◌, string_eq, ◌==◌, ==→eq, Bool-cases,
}
use ai_employee_os.Common.Json.{Fields}
use ai_employee_os.Common.Dict.{lookup, insert, lookup-insert_self, insert-insert}
use ai_employee_os.Planning.Models.{StepStatus, PlanStep, TaskPlan, put_step}
use ai_employee_os.Planning.Executor.{
  Registry, SkillResult, return, raise, should_retry_step, max_step_retries,
}
use ai_employee_os.Orchestration.Models.{
  Uuid, NodeStatus, ExecutionGraphNode, Nodes, ExecutionGraph,
}
use ai_employee_os.Orchestration.Graph.{sync_node_from_plan_step}
use ai_employee_os.Orchestration.Scheduler.{mark_completed, mark_failed}
use ai_employee_os.Orchestration.Resolver.{error_or}
use ai_employee_os.Orchestration.NodeRuns.{
  find_plan_step, Session, NodeRun, after, attempts, run_step_with_retry, stored_run, settle_node,
  start_run, run_step, run_node,
}
use ai_employee_os.Orchestration.Orchestrator.Results.{OnSome, OnSome-map, and_then-OnSome}

find_plan_step-id :
    (steps : List PlanStep) (id : Uuid) → OnSome (λ step. step.id ≡ id) (find_plan_step steps id)
unfolding find_plan_step
find_plan_step-id [] id = tt
find_plan_step-id (step ∷ steps) id = elim (Bool-cases (step.id == id)) [
  | inl same ↦ rw same (==→eq step.id id same)
  | inr other ↦ rw other (find_plan_step-id steps id)
]

-- The nodes after the writes of one node
abbrev pub IsWrite : Uuid → ExecutionGraphNode → Nodes → Nodes → Type 0
IsWrite id node before after =
    (new : ExecutionGraphNode) × (after ≡ insert id new before)
    × (new.dependencies ≡ node.dependencies)
    × (new.id ≡ node.id)

mark_failed-IsWrite :
    (g : ExecutionGraph) (id : Uuid) (error : String) (node : ExecutionGraphNode)
    → lookup id g.nodes ≡ some node
    → OnSome (λ g'. IsWrite id node g.nodes g'.nodes) (mark_failed g id error)
unfolding mark_failed
mark_failed-IsWrite g id error node there =
    rw (there, mark_failed)
      (record node { status = NodeStatus.failed; error = some error }, refl, refl, refl)

mark_completed-IsWrite :
    (g : ExecutionGraph) (id : Uuid) (result : Option Fields) (node : ExecutionGraphNode)
    → lookup id g.nodes ≡ some node
    → OnSome (λ g'. IsWrite id node g.nodes g'.nodes) (mark_completed g id result)
unfolding mark_completed
mark_completed-IsWrite g id result node there =
    rw (there, mark_completed)
      (
        record node { status = NodeStatus.completed; result = result; error = none },
        refl,
        refl,
        refl,
      )

sync-IsWrite :
    (g : ExecutionGraph) (id : Uuid) (status : NodeStatus) (result : Option Fields)
    (error : Option String) (node : ExecutionGraphNode)
    → lookup id g.nodes ≡ some node
    → IsWrite id node g.nodes (sync_node_from_plan_step g id status result error).nodes
unfolding sync_node_from_plan_step
sync-IsWrite g id status result error node there =
    rw (there, sync_node_from_plan_step) (_, refl, refl, refl)

-- Two writes of one node are one.
IsWrite-trans :
    (id : Uuid) (node : ExecutionGraphNode) (a b c : Nodes)
    → ((new : ExecutionGraphNode) × (b ≡ insert id new a)
        × (new.dependencies ≡ node.dependencies)
        × (new.id ≡ node.id))
    → ((new : ExecutionGraphNode) → lookup id b ≡ some new → IsWrite id new b c)
    → IsWrite id node a c
IsWrite-trans id node a b c (new, eq, same_deps, same_id) next =
    let there : lookup id b ≡ some new = eq-lookup in
    let (last, eq', deps', id') = next new there in
    (
      last,
      eq' ∙ (ap (λ l. insert id last l) eq ∙ insert-insert id last new a),
      deps' ∙ same_deps,
      id' ∙ same_id,
    )
  where
    eq-lookup : lookup id b ≡ some new
    eq-lookup = ap (λ l. lookup id l) eq ∙ lookup-insert_self id new a

module _ {World : Type 0} (registry : Registry World)
    (payload_of : PlanStep → TaskPlan → Fields) where
  abbrev S : Type 0
  S = Session registry payload_of

  abbrev IsSame : NodeRun registry payload_of → NodeRun registry payload_of → Type 0
  IsSame a b =
      (b.node.id ≡ a.node.id)
      × (b.node.dependencies ≡ a.node.dependencies)
      × (b.step.id ≡ a.step.id)

  after-IsSame :
      (again : NodeRun registry payload_of → Bool × NodeRun registry payload_of) (attempt : ℕ)
      (result : SkillResult) (run : NodeRun registry payload_of)
      → ((r : NodeRun registry payload_of) → IsSame r (again r).1)
      → IsSame run (after registry payload_of again attempt result run).1
  unfolding after
  after-IsSame again attempt (return x) run h = (refl, refl, refl)
  after-IsSame again attempt (raise e) run h =
      elim (Bool-cases
        (should_retry_step (record run.step { status = StepStatus.failed }) attempt)) [
          | inl more ↦ rw more (h _)
          | inr enough ↦ rw enough (refl, refl, refl)
        ]

  attempts-IsSame :
      (plan : TaskPlan) (left attempt : ℕ) (run : NodeRun registry payload_of)
      → IsSame run (attempts registry payload_of plan left attempt run).1
  unfolding attempts
  attempts-IsSame plan zero attempt run = (refl, refl, refl)
  attempts-IsSame plan (suc left) attempt run =
      after-IsSame (attempts registry payload_of plan left (suc attempt)) attempt _ _
        (λ r. attempts-IsSame plan left (suc attempt) r)

  -- A run of a node writes that node and no other.
  settle_node-IsWrite :
      (id : Uuid) (success : Bool) (run : NodeRun registry payload_of) (s : S)
      (node : ExecutionGraphNode)
      → lookup id s.stored.graph.nodes ≡ some node
      → run.step.id ≡ id
      → OnSome
          (λ s'. IsWrite id node s.stored.graph.nodes s'.stored.graph.nodes)
          (settle_node registry payload_of id success run s)
  unfolding settle_node
  settle_node-IsWrite id true run s node there same =
      and_then-OnSome (λ g. IsWrite id node s.stored.graph.nodes g.nodes) _ _ _
        (mark_completed-IsWrite s.stored.graph id run.step.result node there)
        (λ g w. IsWrite-trans id node s.stored.graph.nodes g.nodes _ w (λ new at.
          subst
            (λ k.
              IsWrite id new g.nodes
                (sync_node_from_plan_step g k NodeStatus.completed run.step.result none).nodes)
            (sym same) (sync-IsWrite g id NodeStatus.completed run.step.result none new at)))
  settle_node-IsWrite id false run s node there same =
      let error = error_or run.node.error ("Step failed: " <> run.step.description) in
      and_then-OnSome (λ g. IsWrite id node s.stored.graph.nodes g.nodes) _ _ _
        (mark_failed-IsWrite s.stored.graph id error node there)
        (λ g w. IsWrite-trans id node s.stored.graph.nodes g.nodes _ w (λ new at.
          subst
            (λ k.
              IsWrite id new g.nodes
                (sync_node_from_plan_step g k NodeStatus.failed none (some error)).nodes)
            (sym same) (sync-IsWrite g id NodeStatus.failed none (some error) new at)))

  run_step-IsWrite :
      (id : Uuid) (node : ExecutionGraphNode) (step : Option PlanStep) (s : S)
      → lookup id s.stored.graph.nodes ≡ some node
      → OnSome (λ x. x.id ≡ id) step
      → OnSome
          (λ s'. IsWrite id node s.stored.graph.nodes s'.stored.graph.nodes)
          (run_step registry payload_of id node step s)
  unfolding run_step run_step_with_retry start_run
  run_step-IsWrite id node none s there same =
      and_then-OnSome (λ g. IsWrite id node s.stored.graph.nodes g.nodes) _ _ _
        (mark_failed-IsWrite s.stored.graph id _ node there) (λ g w. w)
  run_step-IsWrite id node (some step) s there same =
      let begun = start_run registry payload_of node step s in
      let plan = record s.plan { steps = put_step begun.step s.plan.steps } in
      let out = attempts registry payload_of plan max_step_retries 1 begun in
      let (same_id, same_deps, same_step) = attempts-IsSame plan max_step_retries 1 begun in
      let nodes = s.stored.graph.nodes in
      OnSome-map (λ s'. IsWrite id out.1.node (insert id out.1.node nodes) s'.stored.graph.nodes) _
        _
        (λ s' (last, eq, deps, same_last). (
          last,
          eq ∙ insert-insert id last out.1.node nodes,
          deps ∙ same_deps,
          same_last ∙ same_id,
        ))
        (settle_node-IsWrite id out.0 out.1 (stored_run registry payload_of id out.1 s) out.1.node
          (lookup-insert_self id out.1.node nodes) (same_step ∙ same))

  pub run_node-IsWrite :
      (id : Uuid) (s : S) (node : ExecutionGraphNode)
      → lookup id s.stored.graph.nodes ≡ some node
      → node.id ≡ id
      → OnSome
          (λ s'. IsWrite id node s.stored.graph.nodes s'.stored.graph.nodes)
          (run_node registry payload_of id s)
  unfolding run_node
  run_node-IsWrite id s node there same =
      rw (there, run_node)
        (run_step-IsWrite id node (find_plan_step s.plan.steps node.id) s there (
          subst (λ k. OnSome (λ x. x.id ≡ k) (find_plan_step s.plan.steps node.id)) same
            (find_plan_step-id s.plan.steps node.id)))

  pub run_node-none :
      (id : Uuid) (s : S)
      → lookup id s.stored.graph.nodes ≡ none
      → run_node registry payload_of id s ≡ none
  unfolding run_node
  run_node-none id s absent = rw (absent, run_node) refl
