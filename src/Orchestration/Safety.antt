-- ===== src/Orchestration/Safety.antt =====
-- Nodes of a graph that have begun only after their dependencies are completed, and what the
-- resolver, the scheduler and the writes of a node make of such nodes.
pub mod Ready
pub mod Running
use ai_employee_os.Common.{
  ℕ, String, ◌≡◌, refl, sym, ap, subst, ◌∙◌, Bool, true, false, inl, inr, ◌||◌, Option, none, some,
  List, [], ◌∷◌, arith, if◌then◌else◌, contains, string_eq, ◌==◌, ==→eq, ==_refl, all, any, All,
  All-map, All-of_all, Bool-cases, Option-cases,
}
use ai_employee_os.Common.Dict.{
  lookup, insert, NodupKeys, lookup-insert, insert-NodupKeys, All-insert, All-lookup, lookup-nil,
  lookup-cons,
}
use ai_employee_os.Orchestration.Models.{
  Uuid, NodeStatus, ExecutionGraphNode, Nodes, ExecutionGraph, is_completed, is_failed_or_cancelled,
  is_waiting_or_ready, is_open, is_paused, ids_with, each_node, with_status,
}
use ai_employee_os.Orchestration.Resolver.{
  resolve_node, resolve_nodes, place, Resolved, dependency_failed,
}

abbrev pub has_begun : NodeStatus → Bool
has_begun NodeStatus.ready = true
has_begun NodeStatus.running = true
has_begun NodeStatus.completed = true
has_begun _ = false

abbrev pub done : Nodes → Uuid → Bool
done nodes d = contains (ids_with is_completed nodes) d

-- The dependencies of a node are met, if it has begun, by the completed ones of `base`.
abbrev pub IsMet : Nodes → Uuid × ExecutionGraphNode → Type 0
IsMet base e = has_begun e.1.status ≡ true → All (λ d. done base d ≡ true) e.1.dependencies

pub record IsSound (nodes : Nodes) : Type 0 where
  pub nodup : NodupKeys nodes
  pub keyed : All (λ e. e.1.id ≡ e.0) nodes
  pub safe : All (IsMet nodes) nodes

-- A change of each node that keeps ids, dependencies and who is completed
pub record IsMild (base : Nodes) (change : ExecutionGraphNode → ExecutionGraphNode) : Type 0 where
  pub same_id : (n : ExecutionGraphNode) → (change n).id ≡ n.id
  pub same_done : (n : ExecutionGraphNode) → is_completed (change n).status ≡ is_completed n.status
  pub met : (id : Uuid) (n : ExecutionGraphNode) → IsMet base (id, n) → IsMet base (id, change n)

module _ (change : ExecutionGraphNode → ExecutionGraphNode) where
  lookup-each_node-none :
      (id : Uuid) (nodes : Nodes)
      → lookup id nodes ≡ none
      → lookup id (each_node change nodes) ≡ none
  unfolding each_node lookup
  lookup-each_node-none id [] h = refl
  lookup-each_node-none id ((k, n) ∷ nodes) h = ground (arith, lookup-each_node-none id nodes)

  each_node-NodupKeys : (nodes : Nodes) → NodupKeys nodes → NodupKeys (each_node change nodes)
  unfolding each_node
  each_node-NodupKeys [] h = tt
  each_node-NodupKeys ((k, n) ∷ nodes) h =
      (lookup-each_node-none k nodes h.0, each_node-NodupKeys nodes h.1)

  All-each_node :
      (P Q : Uuid × ExecutionGraphNode → Type 0) (nodes : Nodes)
      → ((k : Uuid) (n : ExecutionGraphNode) → P (k, n) → Q (k, change n))
      → All P nodes
      → All Q (each_node change nodes)
  unfolding each_node
  All-each_node P Q [] f h = tt
  All-each_node P Q ((k, n) ∷ nodes) f h = (f k n h.0, All-each_node P Q nodes f h.1)

  module _ (base : Nodes) (mild : IsMild base change) where
    ids_with-each_node :
        (nodes : Nodes)
        → ids_with is_completed (each_node change nodes) ≡ ids_with is_completed nodes
    unfolding each_node ids_with
    ids_with-each_node [] = refl
    ids_with-each_node ((k, n) ∷ nodes) = rw (mild.same_done n, ids_with-each_node nodes) refl

  pub each_node-IsSound :
      (nodes : Nodes) → IsMild nodes change → IsSound nodes → IsSound (each_node change nodes)
  each_node-IsSound nodes mild sound = record {
    nodup = each_node-NodupKeys nodes sound.nodup;
    keyed =
        All-each_node (λ e. e.1.id ≡ e.0) (λ e. e.1.id ≡ e.0) nodes
          (λ k n same. mild.same_id n ∙ same) sound.keyed;
    safe =
        subst
          (λ ids.
            All
              (λ e. has_begun e.1.status ≡ true → All (λ d. contains ids d ≡ true) e.1.dependencies)
              (each_node change nodes))
          (sym (ids_with-each_node nodes mild nodes))
          (All-each_node (IsMet nodes) (IsMet nodes) nodes (λ k n m. mild.met k n m) sound.safe);
  }

-- Where a status that has not begun, or none of the changed ones, is written
pub mark-IsMild :
    (base : Nodes) (test : NodeStatus → Bool) (status : NodeStatus)
    → ((s : NodeStatus) → test s ≡ true → is_completed s ≡ false)
    → is_completed status ≡ false
    → has_begun status ≡ false
    → IsMild base (λ node. if test node.status then with_status status node else node)
mark-IsMild base test status tested not_done not_begun = record {
  same_id = λ n. ground arith;
  same_done = λ n. ground (arith, tested n.status);
  met = λ id n m h. elim (Bool-cases (test n.status)) [
    | inl hit ↦ let bad : has_begun status ≡ true = rw hit at h in cc
    | inr miss ↦ rw miss (m (rw miss at h))
  ];
}

module _ (nodes : Nodes) where
  pub resolve_node-IsMild :
      (broken : List Uuid) → IsMild nodes (resolve_node (ids_with is_completed nodes) broken)
  unfolding resolve_node
  resolve_node-IsMild broken = record {
    same_id = λ n. ground arith;
    same_done = λ n. ground arith;
    met = λ id n m h. elim (Bool-cases (is_waiting_or_ready n.status)) [
      | inr settled ↦ rw settled (m (rw settled at h))
      | inl open_node ↦ elim (Bool-cases (any (contains broken) n.dependencies)) [
        | inl hit ↦ let bad : has_begun NodeStatus.failed ≡ true = rw (open_node, hit) at h in cc
        | inr miss ↦
            elim (Bool-cases (all (contains (ids_with is_completed nodes)) n.dependencies)) [
              | inl ready ↦ rw (open_node, miss, ready) (All-of_all _ n.dependencies ready)
              | inr not_yet ↦
                  let bad : has_begun NodeStatus.waiting ≡ true =
                    rw (open_node, miss, not_yet) at h in
                  cc
            ]
      ]
    ];
  }

-- No id is lost from those completed.
done-insert :
    (id : Uuid) (new old : ExecutionGraphNode) (nodes : Nodes) (d : Uuid)
    → lookup id nodes ≡ some old
    → (is_completed old.status ≡ true → is_completed new.status ≡ true)
    → done nodes d ≡ true
    → done (insert id new nodes) d ≡ true
unfolding ids_with insert lookup
done-insert id new old [] d h kept was = cc
done-insert id new old ((k, n) ∷ nodes) d h kept was =
    ground (arith, done-insert id new old nodes d)

-- The write of a node in place of one
pub insert-IsSound :
    (id : Uuid) (new old : ExecutionGraphNode) (nodes : Nodes)
    → lookup id nodes ≡ some old
    → (is_completed old.status ≡ true → is_completed new.status ≡ true)
    → (has_begun new.status ≡ true → has_begun old.status ≡ true)
    → new.dependencies ≡ old.dependencies
    → new.id ≡ id
    → IsSound nodes
    → IsSound (insert id new nodes)
insert-IsSound id new old nodes there kept begun same keyed sound = record {
  nodup = insert-NodupKeys id new nodes sound.nodup;
  keyed = All-insert (λ e. e.1.id ≡ e.0) id new nodes keyed sound.keyed;
  safe =
      All-map
        (λ e m h.
          All-map (λ d was. done-insert id new old nodes d there kept was) e.1.dependencies (m h))
        (insert id new nodes)
        (All-insert (IsMet nodes) id new nodes
          (λ h. rw same (All-lookup (IsMet nodes) id old nodes sound.safe there (begun h)))
          sound.safe);
}

place-nodes :
    (status : NodeStatus) (node : ExecutionGraphNode) (r : Resolved)
    → (place status node r).nodes ≡ r.nodes
place-nodes NodeStatus.waiting node r = refl
place-nodes NodeStatus.ready node r = refl
place-nodes NodeStatus.running node r = refl
place-nodes NodeStatus.completed node r = refl
place-nodes NodeStatus.failed node r = refl
place-nodes NodeStatus.cancelled node r = refl
place-nodes NodeStatus.paused node r = refl

-- The nodes that the resolver leaves are those that it has changed one by one.
pub resolve_nodes-nodes :
    (completed broken : List Uuid) (nodes : Nodes)
    → (resolve_nodes completed broken nodes).nodes ≡ each_node (resolve_node completed broken) nodes
unfolding resolve_nodes each_node
resolve_nodes-nodes completed broken [] = refl
resolve_nodes-nodes completed broken ((k, n) ∷ nodes) =
    place-nodes (resolve_node completed broken n).status _ _
    ∙ ap (λ l. (k, resolve_node completed broken n) ∷ l)
        (resolve_nodes-nodes completed broken nodes)
