-- ===== src/Orchestration/Validator/Acyclic.antt =====
-- A graph without a cycle is accepted, and the fuel of the search is enough for it.
use ai_employee_os.Common.{
  ℕ, zero, suc, ◌≤◌, ◌<◌, ◌≡◌, refl, ap, Bool, true, false, inl, inr, none, List, [], ◌∷◌, arith,
  length, contains, string_eq, ◌==◌, ==→eq, All, All-map, Bool-cases, Option-cases,
}
use ai_employee_os.Common.Dict.{keys, lookup, All-lookup}
use ai_employee_os.Orchestration.Models.{Uuid, Nodes, ExecutionGraph}
use ai_employee_os.Orchestration.Validator.{
  check_dependencies, check_nodes, dependencies_of, visit_all, visit, has_cycle, validate_graph,
}

module _ (rank : Uuid → ℕ) where
  below-contains :
      (stack : List Uuid) (id : Uuid)
      → All (λ j. rank id < rank j) stack
      → contains stack id ≡ false
  below-contains [] id h = refl
  below-contains (j ∷ stack) id h = elim (Bool-cases (id == j)) [
    | inl same ↦ let eq = ap rank (==→eq id j same) in absurd (omega (arith, eq, h.0))
    | inr other ↦ rw other (below-contains stack id h.1)
  ]

  visit_all-false :
      (v : List Uuid → Uuid → Bool × List Uuid) (visited deps : List Uuid)
      → All (λ d. (seen : List Uuid) → (v seen d).0 ≡ false) deps
      → (visit_all v visited deps).0 ≡ false
  unfolding visit_all
  visit_all-false v visited [] h = refl
  visit_all-false v visited (d ∷ deps) h = rw (h.0 visited) (visit_all-false v _ deps h.1)

  abbrev IsRanked : Nodes → Type 0
  IsRanked nodes = All (λ e. All (λ d. rank d < rank e.0) e.1.dependencies) nodes

  ranked_dependencies :
      (nodes : Nodes) (id : Uuid)
      → IsRanked nodes
      → All (λ d. rank d < rank id) (dependencies_of (lookup id nodes))
  ranked_dependencies nodes id ranked = elim (Option-cases (lookup id nodes)) [
    | inl absent ↦ rw absent tt
    | inr (node, there) ↦
        rw there (
          All-lookup (λ e. All (λ d. rank d < rank e.0) e.1.dependencies) id node nodes ranked
            there)
  ]

  visit-false :
      (fuel : ℕ) (nodes : Nodes) (stack visited : List Uuid) (id : Uuid)
      → IsRanked nodes
      → rank id < fuel
      → All (λ j. rank id < rank j) stack
      → (visit fuel nodes stack visited id).0 ≡ false
  unfolding visit
  visit-false zero nodes stack visited id ranked enough above = absurd (omega arith)
  visit-false (suc fuel) nodes stack visited id ranked enough above =
      let fresh = below-contains stack id above in
      elim (Bool-cases (contains visited id)) [
        | inl seen ↦ rw (fresh, seen) refl
        | inr new ↦
            rw (fresh, new)
              (visit_all-false (visit fuel nodes (id ∷ stack)) (id ∷ visited)
                (dependencies_of (lookup id nodes))
                (All-map
                  (λ d lower seen.
                    visit-false fuel nodes (id ∷ stack) seen d ranked (omega (arith, lower))
                      (lower, All-map (λ j higher. omega (arith, lower, higher)) stack above))
                  (dependencies_of (lookup id nodes)) (ranked_dependencies nodes id ranked)))
      ]

  check_dependencies-none :
      (node_ids : List Uuid) (node_id : Uuid) (deps : List Uuid)
      → All (λ d. (rank d < rank node_id) × (contains node_ids d ≡ true)) deps
      → check_dependencies node_ids node_id deps ≡ none
  unfolding check_dependencies
  check_dependencies-none node_ids node_id [] h = refl
  check_dependencies-none node_ids node_id (d ∷ deps) h =
      let other = below-contains (node_id ∷ []) d (h.0.0, tt) in
      ground (arith, h.0.1, other, check_dependencies-none node_ids node_id deps h.1)

  -- Dependencies are nodes and have lower ranks.
  abbrev pub IsAcyclic : List Uuid → Nodes → Type 0
  IsAcyclic node_ids nodes =
      All (λ e. All (λ d. (rank d < rank e.0) × (contains node_ids d ≡ true)) e.1.dependencies)
        nodes

  check_nodes-none :
      (node_ids : List Uuid) (nodes : Nodes)
      → IsAcyclic node_ids nodes
      → check_nodes node_ids nodes ≡ none
  unfolding check_nodes
  check_nodes-none node_ids [] h = refl
  check_nodes-none node_ids ((node_id, node) ∷ nodes) h =
      rw (check_dependencies-none node_ids node_id node.dependencies h.0)
        (check_nodes-none node_ids nodes h.1)

  All-keys : (P : Uuid → Type 0) (nodes : Nodes) → All (λ e. P e.0) nodes → All P (keys nodes)
  unfolding keys
  All-keys P [] h = tt
  All-keys P (e ∷ nodes) h = (h.0, All-keys P nodes h.1)

  -- A graph whose nodes have ranks up to their number, each dependency being a node of a lower
  -- rank, is accepted.
  pub validate_graph-none :
      (graph : ExecutionGraph)
      → All (λ e. rank e.0 ≤ length graph.nodes) graph.nodes
      → IsAcyclic (keys graph.nodes) graph.nodes
      → validate_graph graph ≡ none
  unfolding validate_graph has_cycle
  validate_graph-none graph small acyclic =
      let nodes = graph.nodes in
      let ranked = All-map (λ e h. All-map (λ d both. both.0) e.1.dependencies h) nodes acyclic in
      let found = visit_all-false (visit (suc (length nodes)) nodes []) [] (keys nodes) (
        All-map
          (λ id low seen.
            visit-false (suc (length nodes)) nodes [] seen id ranked (omega (arith, low)) tt)
          (keys nodes) (All-keys (λ id. rank id ≤ length nodes) nodes small)) in
      rw (check_nodes-none (keys nodes) nodes acyclic, found) refl
