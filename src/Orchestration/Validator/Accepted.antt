-- ===== src/Orchestration/Validator/Accepted.antt =====
-- The dependencies in a graph that the validator accepts.
use ai_employee_os.Common.{
  ℕ, zero, suc, length, String, ◌≡◌, refl, Bool, true, false, inl, inr, Option, none, some, List,
  [], ◌∷◌, contains, string_eq, ◌==◌, All, Bool-cases, All-map, ==→eq, ==_refl, arith, sym, subst,
  ◌⊎◌, if◌then◌else◌,
}
use ai_employee_os.Common.Dict.{keys, lookup}
use ai_employee_os.Orchestration.Models.{Uuid, Nodes, ExecutionGraph}
use ai_employee_os.Orchestration.Validator.{
  check_dependencies, first_error, check_nodes, dependencies_of, visit_all, visit, has_cycle,
  or_cycle, validate_graph,
}

abbrev pub IsProper : List Uuid → Uuid → Uuid → Type 0
IsProper node_ids node_id dep = (contains node_ids dep ≡ true) × ((dep == node_id) ≡ false)

first_error-none : (a b : Option String) → first_error a b ≡ none → (a ≡ none) × (b ≡ none)
first_error-none none b h = (refl, h)
first_error-none (some e) b h = cc

check_dependencies_lem :
    (node_ids : List Uuid) (node_id : Uuid) (deps : List Uuid)
    → check_dependencies node_ids node_id deps ≡ none
    → All (IsProper node_ids node_id) deps
unfolding check_dependencies
check_dependencies_lem node_ids node_id [] h = tt
check_dependencies_lem node_ids node_id (d ∷ deps) h = elim (Bool-cases (contains node_ids d)) [
  | inr unknown ↦ let bad : some _ ≡ none = rw unknown at h in cc
  | inl known ↦ elim (Bool-cases (d == node_id)) [
    | inl self ↦ let bad : some _ ≡ none = rw (known, self) at h in cc
    | inr other ↦
        ((known, other), check_dependencies_lem node_ids node_id deps (rw (known, other) at h))
  ]
]

check_nodes_lem :
    (node_ids : List Uuid) (nodes : Nodes)
    → check_nodes node_ids nodes ≡ none
    → All (λ e. All (IsProper node_ids e.0) e.1.dependencies) nodes
unfolding check_nodes
check_nodes_lem node_ids [] h = tt
check_nodes_lem node_ids ((node_id, node) ∷ nodes) h =
    let (own, others) = first_error-none _ _ h in
    (
      check_dependencies_lem node_ids node_id node.dependencies own,
      check_nodes_lem node_ids nodes others,
    )

or_cycle-none :
    (e : Option String) (cycle : Bool) → or_cycle e cycle ≡ none → (e ≡ none) × (cycle ≡ false)
or_cycle-none none false h = (refl, refl)
or_cycle-none none true h = cc
or_cycle-none (some e) cycle h = cc

-- Each chain of dependencies from here ends.
pub data IsGrounded (nodes : Nodes) : Uuid → Type 0 where
  grounded :
      {id : Uuid}
      → ((d : Uuid) → contains (dependencies_of (lookup id nodes)) d ≡ true → IsGrounded nodes d)
      → IsGrounded nodes id

All-contains :
    (P : Uuid → Type 0) (ids : List Uuid) → All P ids → (d : Uuid) → contains ids d ≡ true → P d
All-contains P [] h d found = cc
All-contains P (id ∷ ids) (first, others) d h = elim (Bool-cases (d == id)) [
  | inl same ↦ subst P (sym (==→eq d id same)) first
  | inr other ↦ All-contains P ids others d (rw other at h)
]

-- What the search has visited is on its stack or grounded.
abbrev IsSettled : Nodes → List Uuid → List Uuid → Type 0
IsSettled nodes stack visited = All (λ id. (contains stack id ≡ true) ⊎ IsGrounded nodes id) visited

-- A search of one node that meets no cycle leaves what it has visited settled, and the node is
-- grounded.
abbrev Grounds : Nodes → List Uuid → Uuid → Bool × List Uuid → Type 0
Grounds nodes stack id (true, visited) = Unit
Grounds nodes stack id (false, visited) = IsSettled nodes stack visited × IsGrounded nodes id

abbrev GroundsAll : Nodes → List Uuid → List Uuid → Bool × List Uuid → Type 0
GroundsAll nodes stack ids (true, visited) = Unit
GroundsAll nodes stack ids (false, visited) =
    IsSettled nodes stack visited × All (λ d. IsGrounded nodes d) ids

visit_all-next :
    (nodes : Nodes) (stack : List Uuid) (d : Uuid) (deps : List Uuid) (x : Bool × List Uuid)
    (rest : Bool × List Uuid)
    → Grounds nodes stack d x
    → (IsSettled nodes stack x.1 → GroundsAll nodes stack deps rest)
    → GroundsAll nodes stack (d ∷ deps) (if x.0 then (true, x.1) else rest)
visit_all-next nodes stack d deps (true, visited) rest h next = tt
visit_all-next nodes stack d deps (false, visited) (true, last) h next = tt
visit_all-next nodes stack d deps (false, visited) (false, last) (settled, ground_d) next =
    let (after, all) = next settled in (after, (ground_d, all))

visit_all-GroundsAll :
    (nodes : Nodes) (stack : List Uuid) (v : List Uuid → Uuid → Bool × List Uuid)
    → ((seen : List Uuid) (id : Uuid)
        → IsSettled nodes stack seen
        → Grounds nodes stack id (v seen id))
    → (deps visited : List Uuid) → IsSettled nodes stack visited
    → GroundsAll nodes stack deps (visit_all v visited deps)
unfolding visit_all
visit_all-GroundsAll nodes stack v one [] visited h = (h, tt)
visit_all-GroundsAll nodes stack v one (d ∷ deps) visited h =
    visit_all-next nodes stack d deps (v visited d) (visit_all v (v visited d).1 deps)
      (one visited d h) (visit_all-GroundsAll nodes stack v one deps _)

-- The node is done: it comes off the stack.
settle_node :
    (nodes : Nodes) (stack : List Uuid) (id : Uuid) (x : Bool × List Uuid)
    → GroundsAll nodes (id ∷ stack) (dependencies_of (lookup id nodes)) x
    → Grounds nodes stack id x
settle_node nodes stack id (true, visited) h = tt
settle_node nodes stack id (false, visited) (settled, deps) = (
  All-map
      (λ j both. elim both [
        | inr done ↦ inr done
        | inl on ↦ elim (Bool-cases (j == id)) [
          | inl same ↦ inr (
              subst (λ k. IsGrounded nodes k) (sym (==→eq j id same))
                (grounded (All-contains (IsGrounded nodes) _ deps)))
          | inr other ↦ inl (rw other at on)
        ]
      ])
      visited settled,
  grounded (All-contains (IsGrounded nodes) _ deps),
)

visited_node :
    (nodes : Nodes) (stack visited : List Uuid) (id : Uuid)
    → IsSettled nodes stack visited
    → contains stack id ≡ false
    → contains visited id ≡ true
    → IsGrounded nodes id
visited_node nodes stack [] id h off seen = cc
visited_node nodes stack (j ∷ visited) id (first, others) off seen = elim (Bool-cases (id == j)) [
  | inr other ↦ visited_node nodes stack visited id others off (rw other at seen)
  | inl same ↦ elim first [
    | inr done ↦ subst (λ k. IsGrounded nodes k) (sym (==→eq id j same)) done
    | inl on ↦ let on_stack = subst (λ k. contains stack k ≡ true) (sym (==→eq id j same)) on in cc
  ]
]

IsSettled-push :
    (nodes : Nodes) (stack visited : List Uuid) (id : Uuid)
    → IsSettled nodes stack visited
    → IsSettled nodes (id ∷ stack) visited
IsSettled-push nodes stack visited id h =
    All-map (λ j both. elim both [ inl on ↦ inl (ground (arith, on)) | inr done ↦ inr done ])
      visited h

visit-Grounds :
    (fuel : ℕ) (nodes : Nodes) (stack visited : List Uuid) (id : Uuid)
    → IsSettled nodes stack visited
    → Grounds nodes stack id (visit fuel nodes stack visited id)
unfolding visit
visit-Grounds zero nodes stack visited id h = tt
visit-Grounds (suc fuel) nodes stack visited id h =
    let below = settle_node nodes stack id _ (
      visit_all-GroundsAll nodes (id ∷ stack) (visit fuel nodes (id ∷ stack))
        (λ seen d. visit-Grounds fuel nodes (id ∷ stack) seen d) (dependencies_of (lookup id nodes))
        (id ∷ visited) (inl (rw (==_refl id) refl), IsSettled-push nodes stack visited id h)) in
    elim (Bool-cases (contains stack id)) [
      | inl on ↦ rw on tt
      | inr off ↦ elim (Bool-cases (contains visited id)) [
        | inl seen ↦ rw (off, seen) (h, visited_node nodes stack visited id h off seen)
        | inr new ↦ rw (off, new) below
      ]
    ]

GroundsAll-false :
    (nodes : Nodes) (ids : List Uuid) (x : Bool × List Uuid)
    → x.0 ≡ false
    → GroundsAll nodes [] ids x
    → All (λ d. IsGrounded nodes d) ids
GroundsAll-false nodes ids (true, visited) h g = cc
GroundsAll-false nodes ids (false, visited) h g = g.1

has_cycle-IsGrounded :
    (nodes : Nodes) → has_cycle nodes ≡ false → All (λ id. IsGrounded nodes id) (keys nodes)
unfolding has_cycle
has_cycle-IsGrounded nodes h = GroundsAll-false nodes (keys nodes) _ h (
    visit_all-GroundsAll nodes [] (visit (suc (length nodes)) nodes [])
      (λ seen id. visit-Grounds (suc (length nodes)) nodes [] seen id) (keys nodes) [] tt)

-- In a graph that validate_graph accepts every dependency of a node is the key of a node and not
-- the node's own, and there is no cycle: from each node every chain of dependencies ends.
pub validate_graph-IsProper :
    (graph : ExecutionGraph)
    → validate_graph graph ≡ none
    → All (λ e. All (IsProper (keys graph.nodes) e.0) e.1.dependencies) graph.nodes
      × All (λ id. IsGrounded graph.nodes id) (keys graph.nodes)
unfolding validate_graph
validate_graph-IsProper graph h =
    let (checked, acyclic) = or_cycle-none _ _ h in
    (
      check_nodes_lem (keys graph.nodes) graph.nodes checked,
      has_cycle-IsGrounded graph.nodes acyclic,
    )
