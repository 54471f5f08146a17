-- ===== src/Queries/Trace/Laws.antt =====
-- What `run` of crates/orbit-graph/src/query/trace.rs returns.
use mathlib.Core.Option
use orbit_graph.Common.{
  ℕ, zero, suc, false, not, Option, none, some, List, [], ◌∷◌, ok, ◌≡◌, refl, sym, ap, ◌∙◌, subst,
  length, ◌<◌, ◌-◌, All, arith, nat_eq, if◌then◌else◌,
}
use orbit_graph.Index.{Index, RefRow}
use orbit_graph.Index.Values.{RefConfidence}
use orbit_graph.Queries.Trace.{trace_result, callees_of, child_symbol, max_depth_of, trace_node_cap}
use orbit_graph.Queries.Trace.Arena.{TraceNode, node, no_nodes, TraceNodeBuilder, build_tree}
use orbit_graph.Queries.Trace.Search.{TraceSymbol, Tracing, start_trace, search_tree, root_builder}
use orbit_graph.Queries.Trace.Grown.{IsForest, finish, finish-none, append_nodes-none, grow}
use orbit_graph.Queries.Trace.Count.{size, owed_total}
use orbit_graph.Queries.Trace.Steps.{IsSound}
use orbit_graph.Queries.Trace.Owed.{owed}
use orbit_graph.Queries.Trace.Outcome.{Ends}
use orbit_graph.Queries.Trace.Loop.{loop_ends}

root-IsForest : (root : TraceNodeBuilder) → root.children ≡ [] → IsForest (root ∷ [])
root-IsForest root leaf zero b found =
    let same : root ≡ b = cc in
    subst (λ (x : TraceNodeBuilder). All (λ (c : ℕ). (0 < c) × (c < 1)) x.children) same
      (rw leaf tt)
root-IsForest root leaf (suc i) b found = absurd (cc)

start_trace-IsSound : (cap : ℕ) (origin : TraceSymbol) → 0 < cap → IsSound cap (start_trace origin)
unfolding finish
start_trace-IsSound zero origin h = absurd (omega arith)
start_trace-IsSound (suc cap) origin h = record {
  forest = root-IsForest (root_builder origin) refl;
  counted = λ owed. (_, refl, omega arith);
  queued = (omega arith, tt);
  rooted = omega arith;
  fits = omega arith;
}

owed_total-none : (n : ℕ) → owed_total (λ _. no_nodes) n ≡ 0
owed_total-none zero = refl
owed_total-none (suc n) = omega (arith, owed_total-none n)

-- the arena holds a tree of all its nodes
pub IsSound-tree :
    (cap : ℕ) (t : Tracing)
    → IsSound cap t
    → (tree : TraceNode) × (build_tree t.arena cap 0 ≡ some tree) × (size tree ≡ length t.arena)
IsSound-tree cap t sound =
    let (tree, built, sum) = sound.counted (λ _. no_nodes) in
    (
      tree,
      sym (finish-none t.arena cap 0) ∙ built,
      omega (arith, sum, owed_total-none (length t.arena)),
    )

pub trace_result-some :
    (t : Tracing) (tree : TraceNode)
    → build_tree t.arena trace_node_cap 0 ≡ some tree
    → trace_result t
      ≡ some (record {
        root = some tree;
        truncated = t.truncated;
        visited_nodes = length t.arena;
        total = if not t.truncated then some (length t.arena) else none;
      })
unfolding trace_result Option.bind
trace_result-some t tree built = rw built refl

-- the tree of a trace that nothing cuts off
abbrev pub whole_tree : Index → ℕ → RefConfidence → TraceSymbol → TraceNode
whole_tree index depth floor origin =
    node origin.name (some origin.qualified) none
      (grow floor (callees_of index) (child_symbol index) (max_depth_of depth) origin)

module _ (max_depth : ℕ) (floor : RefConfidence) (edges : TraceSymbol → List RefRow)
    (target : RefRow → Option TraceSymbol) (origin : TraceSymbol) where
  pub search_ends :
      Ends trace_node_cap max_depth floor edges target
        (start_trace origin)
        (search_tree trace_node_cap max_depth floor edges target origin)
  unfolding search_tree
  search_ends =
      loop_ends trace_node_cap max_depth floor edges target trace_node_cap (start_trace origin)
        (start_trace-IsSound trace_node_cap origin (omega arith)) refl (omega arith)

  start-finish :
      finish
        (start_trace origin).arena
        (owed max_depth floor edges target (start_trace origin).queue)
        trace_node_cap
        0
      ≡ some
          (node origin.name (some origin.qualified) none (grow floor edges target max_depth origin))
  unfolding finish
  start-finish =
      let all_of : max_depth - 0 ≡ max_depth = omega arith in
      rw all_of (
        ap (λ ts. some (node origin.name (some origin.qualified) none ts))
          (append_nodes-none (grow floor edges target max_depth origin)))

  pub search_tree-tree :
      (u : Tracing) (tree : TraceNode)
      → search_ends.outcome ≡ ok u
      → u.truncated ≡ false
      → build_tree u.arena trace_node_cap 0 ≡ some tree
      → tree
        ≡ node origin.name (some origin.qualified) none (grow floor edges target max_depth origin)
  search_tree-tree u tree e whole built =
      let (k, done) = search_ends.kept u e in
      let left : finish u.arena (owed max_depth floor edges target u.queue) trace_node_cap 0
          ≡ some tree =
        (λ i. finish u.arena (owed max_depth floor edges target (done whole i)) trace_node_cap 0)
        ∙ finish-none u.arena trace_node_cap 0
        ∙ built in
      cc (left, k.same whole, start-finish)
