-- ===== src/Queries/Trace/Grown.antt =====
-- The tree that crates/orbit-graph/src/query/trace.rs is for, by recursion on the depth, and how
-- `push_child` moves a part of it into the arena.
use orbit_graph.Common.{
  ℕ, zero, suc, Bool, false, Option, none, some, List, [], ◌∷◌, ◌++◌, ok, err, ◌≡◌, refl, sym, ap,
  ◌∙◌, length, ◌<◌, inl, inr, All, if◌then◌else◌, Option-cases, All-of_All, nat_eq,
}
use orbit_graph.Index.{RefRow}
use orbit_graph.Index.Values.{RefConfidence}
use orbit_graph.Impact.Neighbors.{confidence_visible_at_floor}
use orbit_graph.Queries.Trace.Arena.{
  TraceNode, TraceNodes, node, no_nodes, and_nodes, TraceNodeBuilder, node_at, cons_tree, each,
  finished, read_node, build_tree,
}
use orbit_graph.Queries.Trace.Search.{TraceSymbol}

abbrev pub append_nodes : TraceNodes → TraceNodes → TraceNodes
append_nodes no_nodes us = us
append_nodes (and_nodes t ts) us = and_nodes t (append_nodes ts us)

pub append_nodes-none : (ts : TraceNodes) → append_nodes ts no_nodes ≡ ts
append_nodes-none no_nodes = refl
append_nodes-none (and_nodes t ts) = ap (and_nodes t) (append_nodes-none ts)

-- an edge whose stored confidence is at the floor or above
abbrev pub is_shown : RefConfidence → RefRow → Bool
is_shown floor e = elim (confidence_visible_at_floor e.confidence floor) [
  | err failure ↦ false
  | ok visible ↦ visible
]

-- what stands below a call whose target is `o`
abbrev pub below : (TraceSymbol → TraceNodes) → Option TraceSymbol → TraceNodes
below grown none = no_nodes
below grown (some s) = grown s

module _ (floor : RefConfidence) (target : RefRow → Option TraceSymbol) where
  abbrev pub branches : (TraceSymbol → TraceNodes) → List RefRow → TraceNodes
  branches grown [] = no_nodes
  branches grown (e ∷ es) =
      let rest = branches grown es in
      if is_shown floor e
      then and_nodes
          (node e.target_name e.target_qualified (some e.confidence) (below grown (target e))) rest
      else rest

-- the calls out of `s`, in the order of the edges, each with those below it, `depth` levels deep
module _ (floor : RefConfidence) (edges : TraceSymbol → List RefRow)
    (target : RefRow → Option TraceSymbol) where
  abbrev pub grow : ℕ → TraceSymbol → TraceNodes
  grow zero s = no_nodes
  grow (suc depth) s = branches floor target (grow depth) (edges s)

-- a child stands behind its parent
abbrev pub IsForest : List TraceNodeBuilder → Type 0
IsForest arena =
    (i : ℕ) (b : TraceNodeBuilder)
    → node_at arena i ≡ some b
    → All (λ (c : ℕ). (i < c) × (c < length arena)) b.children

abbrev pub extend : Option TraceNodes → TraceNodes → Option TraceNodes
extend none more = none
extend (some ts) more = some (append_nodes ts more)

-- `build_tree`, with `owed i` added to the children of node `i`
unfoldable pub finish : List TraceNodeBuilder → (ℕ → TraceNodes) → ℕ → ℕ → Option TraceNode
finish arena owed zero i = none
finish arena owed (suc fuel) i =
    read_node (node_at arena i) (λ b. extend (each (finish arena owed fuel) b.children) (owed i))

pub each-cong :
    (f g : ℕ → Option TraceNode) (is : List ℕ) → All (λ i. f i ≡ g i) is → each f is ≡ each g is
each-cong f g [] h = refl
each-cong f g (i ∷ is) h = λ k. cons_tree (h.0 k) (each-cong f g is h.1 k)

extend-cons_tree :
    (o : Option TraceNode) (m : Option TraceNodes) (more : TraceNodes)
    → extend (cons_tree o m) more ≡ cons_tree o (extend m more)
extend-cons_tree none m more = refl
extend-cons_tree (some t) none more = refl
extend-cons_tree (some t) (some ts) more = refl

pub extend-each_last :
    (f : ℕ → Option TraceNode) (is : List ℕ) (n : ℕ) (t : TraceNode) (more : TraceNodes)
    → f n ≡ some t
    → extend (each f is) (and_nodes t more) ≡ extend (each f (is ++ n ∷ [])) more
extend-each_last f [] n t more h = λ k. extend (cons_tree (sym h k) (some no_nodes)) more
extend-each_last f (i ∷ is) n t more h =
    extend-cons_tree (f i) (each f is) (and_nodes t more)
    ∙ ((λ k. cons_tree (f i) (extend-each_last f is n t more h k))
        ∙ sym (extend-cons_tree (f i) (each f (is ++ n ∷ [])) more))

extend-none : (m : Option TraceNodes) → extend m no_nodes ≡ m
extend-none none = refl
extend-none (some ts) = ap some (append_nodes-none ts)

-- without more to come, the tree is the one that `build_tree` reads
pub finish-none :
    (arena : List TraceNodeBuilder) (fuel i : ℕ)
    → finish arena (λ _. no_nodes) fuel i ≡ build_tree arena fuel i
unfolding finish build_tree
finish-none arena zero i = refl
finish-none arena (suc fuel) i = elim (Option-cases (node_at arena i)) [
  | inl e ↦ rw e refl
  | inr (b, e) ↦ rw e (
      ap (finished b) (
        extend-none (each (finish arena (λ _. no_nodes) fuel) b.children)
        ∙ each-cong (finish arena (λ _. no_nodes) fuel) (build_tree arena fuel) b.children (
            All-of_All (λ j. finish arena (λ _. no_nodes) fuel j ≡ build_tree arena fuel j)
              b.children (λ j. finish-none arena fuel j))))
]
