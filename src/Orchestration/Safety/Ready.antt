-- ===== src/Orchestration/Safety/Ready.antt =====
-- The nodes that the resolver gives as ready.
use ai_employee_os.Common.{
  ◌≡◌, refl, sym, subst, ◌∙◌, Bool, true, false, inl, inr, none, some, List, [], ◌∷◌, map, arith,
  if◌then◌else◌, contains, string_eq, ◌==◌, ==→eq, ==_refl, All, All-map, Bool-cases,
}
use ai_employee_os.Common.Dict.{lookup, NodupKeys}
use ai_employee_os.Orchestration.Models.{Uuid, NodeStatus, ExecutionGraphNode, Nodes, each_node}
use ai_employee_os.Orchestration.Resolver.{resolve_node, resolve_nodes, place, Resolved}
use ai_employee_os.Orchestration.Safety.{lookup-each_node-none}

abbrev is_ready : NodeStatus → Bool
is_ready NodeStatus.ready = true
is_ready _ = false

abbrev pub id_of : ExecutionGraphNode → Uuid
id_of node = node.id

abbrev pub IsDistinct : List Uuid → Type 0
IsDistinct [] = Unit
IsDistinct (id ∷ ids) = (contains ids id ≡ false) × IsDistinct ids

-- A ready node as it stands in the graph
abbrev pub IsReadyIn : Nodes → ExecutionGraphNode → Type 0
IsReadyIn nodes r = (lookup r.id nodes ≡ some r) × (r.status ≡ NodeStatus.ready)

place-ready :
    (status : NodeStatus) (node : ExecutionGraphNode) (r : Resolved)
    → (place status node r).ready ≡ (if is_ready status then node ∷ r.ready else r.ready)
place-ready NodeStatus.waiting node r = refl
place-ready NodeStatus.ready node r = refl
place-ready NodeStatus.running node r = refl
place-ready NodeStatus.completed node r = refl
place-ready NodeStatus.failed node r = refl
place-ready NodeStatus.cancelled node r = refl
place-ready NodeStatus.paused node r = refl

is_ready→eq : (status : NodeStatus) → is_ready status ≡ true → status ≡ NodeStatus.ready
is_ready→eq status h = ground arith

absent-contains :
    (nodes : Nodes) (id : Uuid) (ready : List ExecutionGraphNode)
    → lookup id nodes ≡ none
    → All (IsReadyIn nodes) ready
    → contains (map id_of ready) id ≡ false
absent-contains nodes id [] none_there h = refl
absent-contains nodes id (r ∷ ready) none_there h = elim (Bool-cases (id == r.id)) [
  | inl same ↦
      let there : lookup id nodes ≡ some r =
        subst (λ k. lookup k nodes ≡ some r) (sym (==→eq id r.id same)) h.0.0 in
      cc
  | inr other ↦ rw other (absent-contains nodes id ready none_there h.1)
]

IsReadyIn-cons :
    (k : Uuid) (n : ExecutionGraphNode) (nodes : Nodes) (r : ExecutionGraphNode)
    → lookup k nodes ≡ none
    → IsReadyIn nodes r
    → IsReadyIn ((k, n) ∷ nodes) r
unfolding lookup
IsReadyIn-cons k n nodes r fresh (there, ready) = elim (Bool-cases (r.id == k)) [
  | inl same ↦
      let gone : lookup r.id nodes ≡ none =
        subst (λ j. lookup j nodes ≡ none) (sym (==→eq r.id k same)) fresh in
      cc
  | inr other ↦ (rw other there, ready)
]

module _ (completed broken : List Uuid) where
  abbrev change : ExecutionGraphNode → ExecutionGraphNode
  change = resolve_node completed broken

  unfoldable pub IsGood : Nodes → List ExecutionGraphNode → Type 0
  IsGood nodes ready = All (IsReadyIn nodes) ready × IsDistinct (map id_of ready)

  place-IsGood :
      (k : Uuid) (n : ExecutionGraphNode) (nodes : Nodes) (ready : List ExecutionGraphNode)
      → n.id ≡ k
      → lookup k nodes ≡ none
      → IsGood nodes ready
      → IsGood ((k, n) ∷ nodes) (if is_ready n.status then n ∷ ready else ready)
  unfolding IsGood lookup
  place-IsGood k n nodes ready same fresh (good, distinct) =
      let kept = All-map (λ r h. IsReadyIn-cons k n nodes r fresh h) ready good in
      elim (Bool-cases (is_ready n.status)) [
        | inl hit ↦ rw hit (
          (
            (
              subst (λ j. lookup j ((k, n) ∷ nodes) ≡ some n) (sym same) (rw ==_refl refl),
              is_ready→eq n.status hit,
            ),
            kept,
          ),
          (
            subst (λ j. contains (map id_of ready) j ≡ false) (sym same)
                (absent-contains nodes k ready fresh good),
            distinct,
          ),
        )
        | inr miss ↦ rw miss (kept, distinct)
      ]

  -- The ready nodes stand in the graph that the resolver leaves, each once.
  pub resolve_nodes-IsGood :
      (nodes : Nodes)
      → ((n : ExecutionGraphNode) → (change n).id ≡ n.id)
      → NodupKeys nodes
      → All (λ e. e.1.id ≡ e.0) nodes
      → IsGood (each_node change nodes) (resolve_nodes completed broken nodes).ready
  unfolding resolve_nodes each_node IsGood
  resolve_nodes-IsGood [] same_id nodup keyed = (tt, tt)
  resolve_nodes-IsGood ((k, n) ∷ nodes) same_id nodup keyed =
      subst (IsGood ((k, change n) ∷ each_node change nodes))
        (sym (place-ready (change n).status (change n) _))
        (place-IsGood k (change n) (each_node change nodes) _ (same_id n ∙ keyed.0)
          (lookup-each_node-none change k nodes nodup.0)
          (resolve_nodes-IsGood nodes same_id nodup.1 keyed.1))
