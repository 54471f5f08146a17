-- ===== src/Queries/Trace/Owed.antt =====
-- What the queue of `run` in crates/orbit-graph/src/query/trace.rs still owes to the tree.
use orbit_graph.Common.{
  ℕ, false, Option, none, some, List, [], ◌∷◌, ◌++◌, ◌≡◌, refl, sym, ap, ◌∙◌, ◌<◌, ◌-◌, ◌≢◌, inl,
  inr, All, arith, ◌==◌, nat_eq, eq_iff, eq_refl, Bool-cases, if◌then◌else◌, ltb,
}
use orbit_graph.Index.{RefRow}
use orbit_graph.Index.Values.{RefConfidence}
use orbit_graph.Queries.Trace.Arena.{TraceNodes, no_nodes, and_nodes}
use orbit_graph.Queries.Trace.Search.{TraceSymbol, enqueue}
use orbit_graph.Queries.Trace.Grown.{append_nodes, append_nodes-none, below, branches, grow}

pub beq-false : (a b : ℕ) → a ≢ b → (a == b) ≡ false
beq-false a b h = ground (arith, eq_iff a b)

pub append_nodes_assoc :
    (ts us vs : TraceNodes)
    → append_nodes (append_nodes ts us) vs ≡ append_nodes ts (append_nodes us vs)
append_nodes_assoc no_nodes us vs = refl
append_nodes_assoc (and_nodes t ts) us vs = ap (and_nodes t) (append_nodes_assoc ts us vs)

module _ (max_depth : ℕ) (floor : RefConfidence) (edges : TraceSymbol → List RefRow)
    (target : RefRow → Option TraceSymbol) where
  -- what the items of the queue put below node `j`
  abbrev pub owed : List (ℕ × TraceSymbol × ℕ) → ℕ → TraceNodes
  owed [] j = no_nodes
  owed ((i, s, distance) ∷ queue) j =
      let rest = owed queue j in
      if i == j then append_nodes (grow floor edges target (max_depth - distance) s) rest else rest

  -- the same, where the edges `es` of node `i` are left to do
  abbrev pub owing : List (ℕ × TraceSymbol × ℕ) → ℕ → ℕ → List RefRow → ℕ → TraceNodes
  owing queue i next_distance es j =
      if i == j
      then append_nodes
          (branches floor target (grow floor edges target (max_depth - next_distance)) es)
          (owed queue j)
      else owed queue j

  abbrev owed_child : ℕ → ℕ → Option TraceSymbol → ℕ → TraceNodes
  owed_child n next_distance o j =
      if n == j then below (grow floor edges target (max_depth - next_distance)) o else no_nodes

  owed-append :
      (queue : List (ℕ × TraceSymbol × ℕ)) (n : ℕ) (s : TraceSymbol) (next_distance j : ℕ)
      → owed (queue ++ (n, s, next_distance) ∷ []) j
        ≡ append_nodes (owed queue j) (owed_child n next_distance (some s) j)
  owed-append [] n s next_distance j = elim (Bool-cases (n == j)) [
    | inl e ↦ rw e (append_nodes-none (grow floor edges target (max_depth - next_distance) s))
    | inr e ↦ rw e refl
  ]
  owed-append ((i, r, distance) ∷ queue) n s next_distance j = elim (Bool-cases (i == j)) [
    | inl e ↦
        rw (e, owed-append queue n s next_distance j)
          (sym (
            append_nodes_assoc (grow floor edges target (max_depth - distance) r) (owed queue j)
              (owed_child n next_distance (some s) j)))
    | inr e ↦ rw e (owed-append queue n s next_distance j)
  ]

  owed_child-none : (n next_distance j : ℕ) → owed_child n next_distance none j ≡ no_nodes
  owed_child-none n next_distance j = elim (Bool-cases (n == j)) [
    | inl e ↦ rw e refl
    | inr e ↦ rw e refl
  ]

  owed_child-deep :
      (n next_distance : ℕ) (s : TraceSymbol) (j : ℕ)
      → ltb next_distance max_depth ≡ false
      → owed_child n next_distance (some s) j ≡ no_nodes
  owed_child-deep n next_distance s j deep =
      let over : max_depth - next_distance ≡ 0 = ground arith in
      elim (Bool-cases (n == j)) [ inl e ↦ rw (e, over) refl | inr e ↦ rw e refl ]

  owed-enqueue :
      (queue : List (ℕ × TraceSymbol × ℕ)) (n next_distance : ℕ) (o : Option TraceSymbol) (j : ℕ)
      → owed (enqueue max_depth queue n next_distance o) j
        ≡ append_nodes (owed queue j) (owed_child n next_distance o j)
  unfolding enqueue
  owed-enqueue queue n next_distance none j =
      rw (owed_child-none n next_distance j) (sym (append_nodes-none (owed queue j)))
  owed-enqueue queue n next_distance (some s) j = elim (Bool-cases (ltb next_distance max_depth)) [
    | inl e ↦ rw e (owed-append queue n s next_distance j)
    | inr e ↦ rw (e, owed_child-deep n next_distance s j e) (sym (append_nodes-none (owed queue j)))
  ]

  pub owed-enqueue_other :
      (queue : List (ℕ × TraceSymbol × ℕ)) (n next_distance : ℕ) (o : Option TraceSymbol) (j : ℕ)
      → n ≢ j
      → owed (enqueue max_depth queue n next_distance o) j ≡ owed queue j
  owed-enqueue_other queue n next_distance o j other =
      owed-enqueue queue n next_distance o j
      ∙ ap (append_nodes (owed queue j)) (rw (beq-false n j other) refl)
      ∙ append_nodes-none (owed queue j)

  owed-new :
      (queue : List (ℕ × TraceSymbol × ℕ)) (n : ℕ)
      → All (λ (x : ℕ × TraceSymbol × ℕ). x.0 < n) queue
      → owed queue n ≡ no_nodes
  owed-new [] n h = refl
  owed-new ((i, s, distance) ∷ queue) n h =
      rw (beq-false i n (λ e. omega (arith, h.0, e))) (owed-new queue n h.1)

  pub owed-enqueue_new :
      (queue : List (ℕ × TraceSymbol × ℕ)) (n next_distance : ℕ) (o : Option TraceSymbol)
      → All (λ (x : ℕ × TraceSymbol × ℕ). x.0 < n) queue
      → owed (enqueue max_depth queue n next_distance o) n
        ≡ below (grow floor edges target (max_depth - next_distance)) o
  owed-enqueue_new queue n next_distance o h =
      owed-enqueue queue n next_distance o n ∙ rw (owed-new queue n h, eq_refl n) refl
