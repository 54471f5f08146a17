-- ===== src/Queries/Trace/Arena.antt =====
-- The arena of crates/orbit-graph/src/query/trace.rs: `TraceNodeBuilder`, with children that are
-- indexes into the arena, and `build_tree`, which reads a tree off it.
use orbit_graph.Common.{
  ℕ, zero, suc, Option, none, some, List, [], ◌∷◌, ◌++◌, ◌≡◌, refl, length, ◌<◌, ◌≢◌, ap, arith,
  length-append,
}
use orbit_graph.Common.Text.{Text}

-- the children of a node are a `TraceNodes`
mutual
  pub data TraceNode : Type 0 where
    node : Text → Option Text → Option Text → TraceNodes → TraceNode

  pub data TraceNodes : Type 0 where
    no_nodes : TraceNodes
    and_nodes : TraceNode → TraceNodes → TraceNodes

pub record TraceNodeBuilder : Type 0 where
  pub name : Text
  pub qualified_name : Option Text
  pub confidence : Option Text
  pub children : List ℕ

-- `arena.get(index)`
abbrev pub node_at : List TraceNodeBuilder → ℕ → Option TraceNodeBuilder
node_at [] i = none
node_at (b ∷ bs) zero = some b
node_at (b ∷ bs) (suc i) = node_at bs i

abbrev pub with_child : TraceNodeBuilder → ℕ → TraceNodeBuilder
with_child b child = record b { children = b.children ++ child ∷ [] }

-- `arena[node_index].children.push(child_index)`
abbrev pub adopt : List TraceNodeBuilder → ℕ → ℕ → List TraceNodeBuilder
adopt [] i child = []
adopt (b ∷ bs) zero child = with_child b child ∷ bs
adopt (b ∷ bs) (suc i) child = b ∷ adopt bs i child

-- `arena.push(child); arena[node_index].children.push(child_index)`
unfoldable pub push_child : List TraceNodeBuilder → ℕ → TraceNodeBuilder → List TraceNodeBuilder
push_child arena i b = adopt (arena ++ b ∷ []) i (length arena)

abbrev pub cons_tree : Option TraceNode → Option TraceNodes → Option TraceNodes
cons_tree none ts = none
cons_tree (some t) none = none
cons_tree (some t) (some ts) = some (and_nodes t ts)

-- the children of a node, each read by `read`
abbrev pub each : (ℕ → Option TraceNode) → List ℕ → Option TraceNodes
each read [] = some no_nodes
each read (i ∷ is) = cons_tree (read i) (each read is)

abbrev pub finished : TraceNodeBuilder → Option TraceNodes → Option TraceNode
finished b none = none
finished b (some ts) = some (node b.name b.qualified_name b.confidence ts)

abbrev pub read_node :
    Option TraceNodeBuilder → (TraceNodeBuilder → Option TraceNodes) → Option TraceNode
read_node none read_children = none
read_node (some b) read_children = finished b (read_children b)

-- `build_tree`, on fuel; `none` stands for an index outside the arena, where Rust panics
unfoldable pub build_tree : List TraceNodeBuilder → ℕ → ℕ → Option TraceNode
build_tree arena zero i = none
build_tree arena (suc fuel) i =
    read_node (node_at arena i) (λ b. each (build_tree arena fuel) b.children)

pub length-adopt :
    (arena : List TraceNodeBuilder) (i child : ℕ) → length (adopt arena i child) ≡ length arena
length-adopt [] i child = refl
length-adopt (b ∷ bs) zero child = refl
length-adopt (b ∷ bs) (suc i) child = ap suc (length-adopt bs i child)

pub node_at-lt :
    (arena : List TraceNodeBuilder) (i : ℕ) {b : TraceNodeBuilder}
    → node_at arena i ≡ some b
    → i < length arena
node_at-lt [] i h = cc
node_at-lt (b ∷ bs) zero h = omega arith
node_at-lt (b ∷ bs) (suc i) h = omega (arith, node_at-lt bs i h)

pub node_at-some :
    (arena : List TraceNodeBuilder) (i : ℕ)
    → i < length arena
    → (b : TraceNodeBuilder) × (node_at arena i ≡ some b)
node_at-some [] i h = absurd (omega arith)
node_at-some (b ∷ bs) zero h = (b, refl)
node_at-some (b ∷ bs) (suc i) h = node_at-some bs i (omega arith)

pub node_at-adopt_same :
    (arena : List TraceNodeBuilder) (i child : ℕ) {b : TraceNodeBuilder}
    → node_at arena i ≡ some b
    → node_at (adopt arena i child) i ≡ some (with_child b child)
node_at-adopt_same [] i child h = cc
node_at-adopt_same (b ∷ bs) zero child h = cc
node_at-adopt_same (b ∷ bs) (suc i) child h = node_at-adopt_same bs i child h

pub node_at-adopt_other :
    (arena : List TraceNodeBuilder) (i j child : ℕ)
    → j ≢ i
    → node_at (adopt arena i child) j ≡ node_at arena j
node_at-adopt_other [] i j child h = refl
node_at-adopt_other (b ∷ bs) zero zero child h = absurd (h refl)
node_at-adopt_other (b ∷ bs) zero (suc j) child h = refl
node_at-adopt_other (b ∷ bs) (suc i) zero child h = refl
node_at-adopt_other (b ∷ bs) (suc i) (suc j) child h =
    node_at-adopt_other bs i j child (λ e. h (ap suc e))

pub node_at-append :
    (arena more : List TraceNodeBuilder) (i : ℕ)
    → i < length arena
    → node_at (arena ++ more) i ≡ node_at arena i
node_at-append [] more i h = absurd (omega arith)
node_at-append (b ∷ bs) more zero h = refl
node_at-append (b ∷ bs) more (suc i) h = node_at-append bs more i (omega arith)

pub node_at-last :
    (arena : List TraceNodeBuilder) (b : TraceNodeBuilder)
    → node_at (arena ++ b ∷ []) (length arena) ≡ some b
node_at-last [] b = refl
node_at-last (x ∷ xs) b = node_at-last xs b

module _ (arena : List TraceNodeBuilder) (i : ℕ) (new : TraceNodeBuilder) where
  pub length-push_child : length (push_child arena i new) ≡ suc (length arena)
  unfolding push_child
  length-push_child =
      omega (
        arith,
        length-adopt (arena ++ new ∷ []) i (length arena),
        length-append {0} arena (new ∷ []),
      )

  pub node_at-push_child_new :
      i < length arena → node_at (push_child arena i new) (length arena) ≡ some new
  unfolding push_child
  node_at-push_child_new small =
      rw
        (node_at-adopt_other (arena ++ new ∷ []) i (length arena) (length arena) (λ e. omega arith))
        (node_at-last arena new)

  pub node_at-push_child_other :
      (j : ℕ) → j < length arena → j ≢ i → node_at (push_child arena i new) j ≡ node_at arena j
  unfolding push_child
  node_at-push_child_other j small other =
      rw (node_at-adopt_other (arena ++ new ∷ []) i j (length arena) other)
        (node_at-append arena (new ∷ []) j small)

  pub node_at-push_child_same :
      {b : TraceNodeBuilder}
      → node_at arena i ≡ some b
      → node_at (push_child arena i new) i ≡ some (with_child b (length arena))
  unfolding push_child
  node_at-push_child_same h =
      node_at-adopt_same (arena ++ new ∷ []) i (length arena)
        (rw (node_at-append arena (new ∷ []) i (node_at-lt arena i h)) h)
