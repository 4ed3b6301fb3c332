-- ===== src/Orchestration/Orchestrator/Safety/Rounds.antt =====
-- A round of the loop of `execute` keeps the graph sound.
use ai_employee_os.Common.{
  ◌≡◌, refl, sym, subst, ◌∙◌, true, false, inl, inr, Option, none, some, List, [], ◌∷◌, arith,
  contains, string_eq, ◌==◌, All, Bool-cases, Option-cases,
}
use ai_employee_os.Common.Json.{Fields}
use ai_employee_os.Common.Dict.{lookup, insert, lookup-insert, All-lookup}
use ai_employee_os.Planning.Models.{PlanStep, TaskPlan}
use ai_employee_os.Planning.Executor.{Registry}
use ai_employee_os.Orchestration.Models.{
  Uuid, ExecutionGraphNode, Nodes, ExecutionGraph, is_failed_or_cancelled, ids_with,
}
use ai_employee_os.Orchestration.Scheduler.{mark_running, mark_running_in}
use ai_employee_os.Orchestration.Resolver.{resolve, get_ready_nodes, is_complete}
use ai_employee_os.Orchestration.Progress.{build_telegram_progress}
use ai_employee_os.Orchestration.StateManager.{is_paused_control, is_cancelled_control}
use ai_employee_os.Orchestration.Safety.{IsSound, insert-IsSound}
use ai_employee_os.Orchestration.Safety.Ready.{IsDistinct}
use ai_employee_os.Orchestration.Safety.Running.{
  IsRunningAt, IsStarted, start_ready-IsStarted, resolve_nodes-IsSound,
}
use ai_employee_os.Orchestration.NodeRuns.{and_then, Session, after, run_node, gather, set_graph}
use ai_employee_os.Orchestration.Orchestrator.{
  ApiCall, Next, sync_store, measure, api_calls, run_ready, body, or_raised,
}
use ai_employee_os.Orchestration.Orchestrator.Results.{
  OnSome, OnSome-map, and_then-OnSome, always-OnSome, IsSoundIn,
}
use ai_employee_os.Orchestration.Orchestrator.Safety.Calls.{
  mark_cancelled-IsSound, api_call-IsSound,
}
use ai_employee_os.Orchestration.Orchestrator.Safety.Writes.{
  IsWrite, run_node-IsWrite, run_node-none,
}

module _ {World : Type 0} (registry : Registry World)
    (payload_of : PlanStep → TaskPlan → Fields) where
  abbrev S : Type 0
  S = Session registry payload_of

  -- The nodes that are to run are running, each once, and so the graph stays sound.
  abbrev IsPending : List Uuid → S → Type 0
  IsPending ids s = IsStarted (ids, s.stored.graph.nodes)

  IsRunningAt-write :
      (ids : List Uuid) (id : Uuid) (new : ExecutionGraphNode) (nodes : Nodes)
      → contains ids id ≡ false
      → All (IsRunningAt nodes) ids
      → All (IsRunningAt (insert id new nodes)) ids
  IsRunningAt-write [] id new nodes apart h = tt
  IsRunningAt-write (k ∷ ids) id new nodes apart h = elim (Bool-cases (id == k)) [
    | inl same ↦ let bad : true ≡ false = rw same at apart in cc
    | inr other ↦ (
      λ n at. ground (arith, lookup-insert k id new nodes, h.0 n),
      IsRunningAt-write ids id new nodes (rw other at apart) h.1,
    )
  ]

  write-IsPending :
      (id : Uuid) (ids : List Uuid) (node : ExecutionGraphNode) (before after : Nodes)
      → IsSound before
      → IsRunningAt before id
      → All (IsRunningAt before) ids
      → contains ids id ≡ false
      → IsDistinct ids
      → lookup id before ≡ some node
      → node.id ≡ id
      → IsWrite id node before after
      → IsStarted (ids, after)
  write-IsPending id ids node before after sound running others apart distinct there same_id
        (new, eq, deps, same) =
      let runs = running node there in
      subst (λ nodes. IsStarted (ids, nodes)) (sym eq)
        (
          insert-IsSound id new node before there (λ h. cc) (λ _. rw runs refl) deps
              (same ∙ same_id) sound,
          IsRunningAt-write ids id new before apart others,
          distinct,
        )

  run_node-IsPending :
      (id : Uuid) (ids : List Uuid) (s : S)
      → IsPending (id ∷ ids) s
      → OnSome (IsPending ids) (run_node registry payload_of id s)
  run_node-IsPending id ids s (sound, (running, others), (apart, distinct)) =
      elim (Option-cases (lookup id s.stored.graph.nodes)) [
        | inl absent ↦
            subst (OnSome (IsPending ids)) (sym (run_node-none registry payload_of id s absent)) tt
        | inr (node, there) ↦
            let same_id =
              All-lookup (λ e. e.1.id ≡ e.0) id node s.stored.graph.nodes sound.keyed there in
            OnSome-map (λ s'. IsWrite id node s.stored.graph.nodes s'.stored.graph.nodes)
              (IsPending ids) _
              (λ s' w.
                write-IsPending id ids node s.stored.graph.nodes s'.stored.graph.nodes sound running
                  others apart distinct there same_id w)
              (run_node-IsWrite registry payload_of id s node there same_id)
      ]

  gather-IsSound :
      (ids : List Uuid) (s : S)
      → IsPending ids s
      → OnSome IsSoundIn (gather registry payload_of ids s)
  unfolding gather IsSoundIn
  gather-IsSound [] s (sound, _, _) = sound
  gather-IsSound (id ∷ ids) s h =
      and_then-OnSome (IsPending ids) _ _ _ (run_node-IsPending id ids s h)
        (λ s' h'. gather-IsSound ids s' h')

  api_calls-IsSound :
      (calls : List ApiCall) (s : S)
      → IsSoundIn s
      → IsSoundIn (api_calls registry payload_of calls s)
  unfolding api_calls IsSoundIn
  api_calls-IsSound [] s sound = sound
  api_calls-IsSound (c ∷ calls) s sound =
      api_calls-IsSound calls _ (api_call-IsSound c s.stored sound)

  sync_store-graph :
      (s : S) → OnSome (λ s'. s'.stored.graph ≡ s.stored.graph) (sync_store registry payload_of s)
  unfolding sync_store
  sync_store-graph s =
      always-OnSome _
        (build_telegram_progress s.stored.state.execution_id s.stored.graph s.stored.state.progress)
        _ (λ _. refl)

  pub sync_store-IsSound :
      (s : S) → IsSoundIn s → OnSome IsSoundIn (sync_store registry payload_of s)
  unfolding IsSoundIn
  sync_store-IsSound s sound =
      OnSome-map (λ s'. s'.stored.graph ≡ s.stored.graph) IsSoundIn _
        (λ s' same. subst (λ (g : ExecutionGraph). IsSound g.nodes) (sym same) sound)
        (sync_store-graph s)

  sync_store-IsPending :
      (ids : List Uuid) (s : S)
      → IsPending ids s
      → OnSome (IsPending ids) (sync_store registry payload_of s)
  sync_store-IsPending ids s pending =
      OnSome-map (λ s'. s'.stored.graph ≡ s.stored.graph) (IsPending ids) _
        (λ s' same. subst (λ (g : ExecutionGraph). IsStarted (ids, g.nodes)) (sym same) pending)
        (sync_store-graph s)

  abbrev pub NextSound : Next registry payload_of → Type 0
  NextSound (Next.continue s) = IsSoundIn s
  NextSound (Next.break s) = IsSoundIn s
  NextSound Next.raised = Unit

  or_raised-NextSound :
      (o : Option S) → OnSome IsSoundIn o → NextSound (or_raised registry payload_of o)
  or_raised-NextSound none h = tt
  or_raised-NextSound (some s) h = h

  run_ready-NextSound :
      (calls : List ApiCall) (ready : List ExecutionGraphNode) (s : S)
      → IsSoundIn s
      → IsStarted (mark_running_in s.stored.graph.nodes ready)
      → NextSound (run_ready registry payload_of calls ready s)
  unfolding run_ready mark_running measure IsSoundIn
  run_ready-NextSound calls [] s sound started = elim (Bool-cases (is_complete s.stored.graph)) [
    | inl over ↦ rw over sound
    | inr more ↦ rw more (api_calls-IsSound calls s sound)
  ]
  run_ready-NextSound calls (node ∷ nodes) s sound started =
      let ids = (mark_running_in s.stored.graph.nodes (node ∷ nodes)).0 in
      let marked = set_graph registry payload_of (mark_running s.stored.graph (node ∷ nodes)).1 s in
      let rest = λ (s2 : S).
        sync_store registry payload_of
          (measure registry payload_of (api_calls registry payload_of calls s2)) in
      or_raised-NextSound
        (and_then (sync_store registry payload_of (measure registry payload_of marked))
          (λ s1. and_then (gather registry payload_of ids s1) rest))
        (and_then-OnSome (IsPending ids) IsSoundIn
          (sync_store registry payload_of (measure registry payload_of marked))
          (λ s1. and_then (gather registry payload_of ids s1) rest)
          (sync_store-IsPending ids (measure registry payload_of marked) started)
          (λ s1 pending.
            and_then-OnSome IsSoundIn IsSoundIn (gather registry payload_of ids s1) rest
              (gather-IsSound ids s1 pending)
              (λ s2 sound2.
                sync_store-IsSound
                  (measure registry payload_of (api_calls registry payload_of calls s2))
                  (api_calls-IsSound calls s2 sound2))))

  pub body-NextSound :
      (calls : List ApiCall) (s : S) → IsSoundIn s → NextSound (body registry payload_of calls s)
  unfolding body get_ready_nodes resolve IsSoundIn
  body-NextSound calls s sound =
      let broken = ids_with is_failed_or_cancelled s.stored.graph.nodes in
      elim (Bool-cases (is_paused_control s.stored.state.control_status)) [
        | inl paused ↦ rw paused (api_calls-IsSound calls s sound)
        | inr live ↦ elim (Bool-cases (is_cancelled_control s.stored.state.control_status)) [
          | inl over ↦ rw (live, over) (mark_cancelled-IsSound s.stored.graph sound)
          | inr on ↦
              rw (live, on)
                (run_ready-NextSound calls _ _
                  (resolve_nodes-IsSound broken s.stored.graph.nodes sound)
                  (start_ready-IsStarted broken s.stored.graph.nodes sound))
        ]
      ]
