-- ===== src/Queries/Trace/Count.antt =====
-- The nodes of the tree that crates/orbit-graph/src/query/trace.rs reads off its arena, counted.
use orbit_graph.Common.{
  ℕ, zero, suc, some, List, [], ◌≡◌, refl, sym, ◌∙◌, length, ◌<◌, ◌+◌, ◌≢◌, inl, inr, arith, ◌==◌,
  nat_eq, eq_iff, eq_refl, Bool-cases, if◌then◌else◌,
}
use orbit_graph.Queries.Trace.Arena.{
  TraceNode, TraceNodes, node, no_nodes, and_nodes, TraceNodeBuilder, push_child, length-push_child,
}
use orbit_graph.Queries.Trace.Grown.{IsForest, finish}
use orbit_graph.Queries.Trace.Moved.{finish-push_child}
use orbit_graph.Queries.Trace.Owed.{beq-false}

abbrev mutual
  -- the nodes of a tree, itself included
  pub size : TraceNode → ℕ
  size (node name qualified_name confidence children) = suc (sizes children)

  pub sizes : TraceNodes → ℕ
  sizes no_nodes = 0
  sizes (and_nodes t ts) = size t + sizes ts

-- the nodes owed below the first `n` of the arena
abbrev pub owed_total : (ℕ → TraceNodes) → ℕ → ℕ
owed_total owed zero = 0
owed_total owed (suc n) = owed_total owed n + sizes (owed n)

-- Every node of the arena is in the tree, once: whatever is owed below a node is in it once.
abbrev pub IsCounted : ℕ → List TraceNodeBuilder → Type 0
IsCounted cap arena =
    (owed : ℕ → TraceNodes)
    → (tree : TraceNode) × (finish arena owed cap 0 ≡ some tree)
      × (size tree ≡ length arena + owed_total owed (length arena))

-- what is owed before `new` moves from node `i` to the end of the arena
abbrev put_back : ℕ → ℕ → TraceNodeBuilder → (ℕ → TraceNodes) → ℕ → TraceNodes
put_back n i new owed j =
    if i == j
    then and_nodes (node new.name new.qualified_name new.confidence (owed n)) (owed j)
    else owed j

owed_total-put_back_small :
    (n i : ℕ) (new : TraceNodeBuilder) (owed : ℕ → TraceNodes) (m : ℕ)
    → (m < suc i)
    → owed_total (put_back n i new owed) m ≡ owed_total owed m
owed_total-put_back_small n i new owed zero small = refl
owed_total-put_back_small n i new owed (suc m) small =
    rw
      (
        owed_total-put_back_small n i new owed m (omega arith),
        beq-false i m (λ e. omega (arith, e)),
      )
      refl

owed_total-put_back :
    (n i : ℕ) (new : TraceNodeBuilder) (owed : ℕ → TraceNodes) (m : ℕ)
    → i < m
    → owed_total (put_back n i new owed) m ≡ owed_total owed m + suc (sizes (owed n))
owed_total-put_back n i new owed zero small = absurd (omega arith)
owed_total-put_back n i new owed (suc m) small = elim (Bool-cases (i == m)) [
  | inl e ↦
      let at : i ≡ m = (eq_iff i m).0 e in
      rw (owed_total-put_back_small n i new owed m (omega (arith, at)), e) (omega arith)
  | inr e ↦
      let other : i ≢ m = ground (arith, eq_iff i m) in
      rw (owed_total-put_back n i new owed m (omega arith), e) (omega arith)
]

pub push_child-IsCounted :
    (cap : ℕ) (arena : List TraceNodeBuilder) (i : ℕ) (new : TraceNodeBuilder)
    → IsForest arena
    → i < length arena
    → new.children ≡ []
    → length arena < cap
    → IsCounted cap arena
    → IsCounted cap (push_child arena i new)
push_child-IsCounted cap arena i new forest small fresh room counted owed =
    let n = length arena in
    let (tree, built, sum) = counted (put_back n i new owed) in
    let moved =
      finish-push_child arena forest i small new fresh (put_back n i new owed) owed
        (λ j lt other. rw (beq-false i j (λ e. other (sym e))) refl) (rw (eq_refl i) refl) cap 0
        (omega arith) (omega arith) in
    (
      tree,
      sym moved ∙ built,
      sum
          ∙ rw (length-push_child arena i new)
              (omega (arith, owed_total-put_back n i new owed n small)),
    )
