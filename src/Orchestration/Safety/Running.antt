-- ===== src/Orchestration/Safety/Running.antt =====
-- What marking the ready nodes as running makes of a graph.
use ai_employee_os.Common.{
  ◌≡◌, refl, sym, subst, Bool, true, false, inl, inr, none, some, List, [], ◌∷◌, map, arith,
  contains, string_eq, All, All-map, Option-cases,
}
use ai_employee_os.Common.Dict.{lookup, insert, lookup-insert, lookup-insert_self, All-lookup}
use ai_employee_os.Orchestration.Models.{
  Uuid, NodeStatus, ExecutionGraphNode, Nodes, is_completed, with_status, each_node, ids_with,
}
use ai_employee_os.Orchestration.Resolver.{resolve_node, resolve_nodes}
use ai_employee_os.Orchestration.Scheduler.{mark_running_in}
use ai_employee_os.Orchestration.Safety.{
  has_begun, IsSound, insert-IsSound, each_node-IsSound, resolve_node-IsMild, resolve_nodes-nodes,
}
use ai_employee_os.Orchestration.Safety.Ready.{id_of, IsDistinct, IsGood, resolve_nodes-IsGood}

abbrev pub is_live : NodeStatus → Bool
is_live NodeStatus.ready = true
is_live NodeStatus.running = true
is_live _ = false

abbrev pub IsLiveAt : Nodes → Uuid → Type 0
IsLiveAt nodes id = (n : ExecutionGraphNode) → lookup id nodes ≡ some n → is_live n.status ≡ true

abbrev pub IsRunningAt : Nodes → Uuid → Type 0
IsRunningAt nodes id =
    (n : ExecutionGraphNode) → lookup id nodes ≡ some n → n.status ≡ NodeStatus.running

insert-IsLiveAt :
    (nodes : Nodes) (k id : Uuid) (new : ExecutionGraphNode)
    → is_live new.status ≡ true
    → IsLiveAt nodes id
    → IsLiveAt (insert k new nodes) id
insert-IsLiveAt nodes k id new live h n there = ground (arith, lookup-insert id k new nodes, h n)

insert-IsRunningAt :
    (nodes : Nodes) (k id : Uuid) (new : ExecutionGraphNode)
    → new.status ≡ NodeStatus.running
    → IsRunningAt nodes id
    → IsRunningAt (insert k new nodes) id
insert-IsRunningAt nodes k id new live h n there = ground (arith, lookup-insert id k new nodes, h n)

mark_running_in-absent :
    (nodes : Nodes) (r : ExecutionGraphNode) (list : List ExecutionGraphNode)
    → lookup r.id nodes ≡ none
    → mark_running_in nodes (r ∷ list) ≡ mark_running_in nodes list
unfolding mark_running_in
mark_running_in-absent nodes r list absent = rw (absent, mark_running_in) refl

abbrev mark : Nodes → Uuid → ExecutionGraphNode → Nodes
mark nodes id stored = insert id (with_status NodeStatus.running stored) nodes

mark_running_in-present :
    (nodes : Nodes) (r stored : ExecutionGraphNode) (list : List ExecutionGraphNode)
    → lookup r.id nodes ≡ some stored
    → mark_running_in nodes (r ∷ list) ≡ (
      r.id ∷ (mark_running_in (mark nodes r.id stored) list).0,
      (mark_running_in (mark nodes r.id stored) list).1,
    )
unfolding mark_running_in
mark_running_in-present nodes r stored list there = rw (there, mark_running_in) refl

mark_running_in-IsRunningAt :
    (nodes : Nodes) (list : List ExecutionGraphNode) (id : Uuid)
    → IsRunningAt nodes id
    → IsRunningAt (mark_running_in nodes list).1 id
unfolding mark_running_in
mark_running_in-IsRunningAt nodes [] id h = h
mark_running_in-IsRunningAt nodes (r ∷ list) id h = elim (Option-cases (lookup r.id nodes)) [
  | inl absent ↦
      rw (mark_running_in-absent nodes r list absent) (mark_running_in-IsRunningAt nodes list id h)
  | inr (stored, there) ↦ rw (mark_running_in-present nodes r stored list there) (
      mark_running_in-IsRunningAt (insert r.id (with_status NodeStatus.running stored) nodes) list
        id (insert-IsRunningAt nodes r.id id (with_status NodeStatus.running stored) refl h))
]

mark_running_in-contains :
    (nodes : Nodes) (list : List ExecutionGraphNode) (id : Uuid)
    → contains (map id_of list) id ≡ false
    → contains (mark_running_in nodes list).0 id ≡ false
unfolding mark_running_in
mark_running_in-contains nodes [] id h = refl
mark_running_in-contains nodes (r ∷ list) id h = elim (Option-cases (lookup r.id nodes)) [
  | inl absent ↦
      rw (mark_running_in-absent nodes r list absent)
        (mark_running_in-contains nodes list id (ground arith))
  | inr (stored, there) ↦ rw (mark_running_in-present nodes r stored list there) (
      ground (
        arith,
        mark_running_in-contains (insert r.id (with_status NodeStatus.running stored) nodes) list
            id,
      ))
]

-- The nodes are sound still, and those marked are distinct and running.
abbrev pub IsStarted : List Uuid × Nodes → Type 0
IsStarted (ids, nodes) = IsSound nodes × All (IsRunningAt nodes) ids × IsDistinct ids

live-begun : (s : NodeStatus) → is_live s ≡ true → (has_begun s ≡ true) × (is_completed s ≡ false)
live-begun s h = ground arith

pub mark_running_in-IsStarted :
    (nodes : Nodes) (list : List ExecutionGraphNode)
    → IsSound nodes
    → All (λ r. IsLiveAt nodes r.id) list
    → IsDistinct (map id_of list)
    → All (λ e. e.1.id ≡ e.0) nodes
    → IsStarted (mark_running_in nodes list)
unfolding mark_running_in
mark_running_in-IsStarted nodes [] sound live distinct keyed = (sound, tt, tt)
mark_running_in-IsStarted nodes (r ∷ list) sound live distinct keyed =
    elim (Option-cases (lookup r.id nodes)) [
      | inl absent ↦
          rw (mark_running_in-absent nodes r list absent)
            (mark_running_in-IsStarted nodes list sound live.1 distinct.1 keyed)
      | inr (stored, there) ↦
          let new = with_status NodeStatus.running stored in
          let (begun, not_done) = live-begun stored.status (live.0 stored there) in
          let next = insert r.id new nodes in
          let sound' =
            insert-IsSound r.id new stored nodes there (λ h. cc) (λ _. begun) refl
              (All-lookup (λ e. e.1.id ≡ e.0) r.id stored nodes keyed there) sound in
          let (sound2, running, apart) =
            mark_running_in-IsStarted next list sound'
              (All-map (λ x h. insert-IsLiveAt nodes r.id x.id new refl h) list live.1) distinct.1
              sound'.keyed in
          rw (mark_running_in-present nodes r stored list there) (
            sound2,
            (
              mark_running_in-IsRunningAt next list r.id
                  (λ n at. ground (arith, lookup-insert_self r.id new nodes)),
              running,
            ),
            (mark_running_in-contains next list r.id distinct.0, apart),
          )
    ]

-- What the resolver and the scheduler make of sound nodes, one after the other.
pub start_ready-IsStarted :
    (broken : List Uuid) (nodes : Nodes)
    → IsSound nodes
    → let r = resolve_nodes (ids_with is_completed nodes) broken nodes in
      IsStarted (mark_running_in r.nodes r.ready)
unfolding IsGood
start_ready-IsStarted broken nodes sound =
    let completed = ids_with is_completed nodes in
    let mild = resolve_node-IsMild nodes broken in
    let r = resolve_nodes completed broken nodes in
    let sound' = each_node-IsSound (resolve_node completed broken) nodes mild sound in
    let (good, distinct) =
      resolve_nodes-IsGood completed broken nodes mild.same_id sound.nodup sound.keyed in
    subst (λ left. IsStarted (mark_running_in left r.ready))
      (sym (resolve_nodes-nodes completed broken nodes))
      (mark_running_in-IsStarted (each_node (resolve_node completed broken) nodes) r.ready sound'
        (All-map (λ x h n there. ground (arith, h)) r.ready good) distinct sound'.keyed)

pub resolve_nodes-IsSound :
    (broken : List Uuid) (nodes : Nodes)
    → IsSound nodes
    → IsSound (resolve_nodes (ids_with is_completed nodes) broken nodes).nodes
resolve_nodes-IsSound broken nodes sound =
    subst IsSound (sym (resolve_nodes-nodes (ids_with is_completed nodes) broken nodes)) (
      each_node-IsSound (resolve_node (ids_with is_completed nodes) broken) nodes
        (resolve_node-IsMild nodes broken) sound)
