-- ===== src/Queries/Trace/Moved.antt =====
-- How `push_child` (`arena.push` in crates/orbit-graph/src/query/trace.rs) moves a node that is
-- owed to the tree into the arena.
use orbit_graph.Common.{
  ℕ, zero, suc, false, Option, none, some, List, [], ◌∷◌, ◌++◌, ◌≡◌, refl, sym, subst, ap, ◌∙◌,
  length, ◌<◌, ◌+◌, ◌≢◌, inl, inr, All, All-imp, All-append, arith, ◌==◌, nat_eq, eq_iff,
  Bool-cases,
}
use orbit_graph.Queries.Trace.Arena.{
  TraceNodes, node, and_nodes, TraceNodeBuilder, node_at, with_child, push_child, each, finished,
  node_at-lt, node_at-some, length-push_child, node_at-push_child_new, node_at-push_child_other,
  node_at-push_child_same,
}
use orbit_graph.Queries.Trace.Grown.{IsForest, finish, extend, each-cong, extend-each_last}

some_injective : {a b : TraceNodeBuilder} → some a ≡ some b → a ≡ b
some_injective h = cc

finished-with_child :
    (b : TraceNodeBuilder) (child : ℕ) (m : Option TraceNodes)
    → finished b m ≡ finished (with_child b child) m
finished-with_child b child none = refl
finished-with_child b child (some ts) = refl

beq_ne : (a b : ℕ) → (a == b) ≡ false → a ≢ b
beq_ne a b h e = ground (arith, eq_iff a b)

-- a node that the arena takes over from what was owed
module _ (arena : List TraceNodeBuilder) (forest : IsForest arena) (i : ℕ)
    (small : i < length arena) (new : TraceNodeBuilder) (fresh : new.children ≡ []) where
  -- the children of a node after the push
  grown_children :
      (j : ℕ) (b : TraceNodeBuilder)
      → node_at (push_child arena i new) j ≡ some b
      → All (λ (c : ℕ). (j < c) × (c < suc (length arena))) b.children
  grown_children j b found = elim (Bool-cases (j == length arena)) [
    | inl e ↦
        let at : j ≡ length arena = (eq_iff j (length arena)).0 e in
        let same : new ≡ b = some_injective (
          sym (node_at-push_child_new arena i new small)
          ∙ (ap (node_at (push_child arena i new)) (sym at) ∙ found)) in
        subst
          (λ (x : TraceNodeBuilder). All (λ (c : ℕ). (j < c) × (c < suc (length arena))) x.children)
          same (rw fresh tt)
    | inr e ↦ elim (Bool-cases (j == i)) [
      | inl g ↦
          let at : j ≡ i = (eq_iff j i).0 g in
          let (a, old) = node_at-some arena j (omega arith) in
          let same : with_child a (length arena) ≡ b = some_injective (
            sym (
              node_at-push_child_same arena i new
                (subst (λ (k : ℕ). node_at arena k ≡ some a) at old))
            ∙ (ap (node_at (push_child arena i new)) (sym at) ∙ found)) in
          subst
            (λ (x : TraceNodeBuilder).
              All (λ (c : ℕ). (j < c) × (c < suc (length arena))) x.children)
            same
            (All-append (λ (c : ℕ). (j < c) × (c < suc (length arena))) a.children
              (length arena ∷ [])
              (All-imp (λ (c : ℕ) h. (h.0, omega (arith, h.1))) a.children (forest j a old))
              ((omega arith, omega arith), tt))
      | inr g ↦
          let lt : j < length arena = omega (
            arith,
            node_at-lt (push_child arena i new) j found,
            length-push_child arena i new,
            beq_ne j (length arena) e,
          ) in
          All-imp (λ (c : ℕ) h. (h.0, omega (arith, h.1))) b.children
            (forest j b (sym (node_at-push_child_other arena i new j lt (beq_ne j i g)) ∙ found))
    ]
  ]

  pub push_child-IsForest : IsForest (push_child arena i new)
  push_child-IsForest j b found =
      All-imp (λ (c : ℕ) h. (h.0, omega (arith, h.1, length-push_child arena i new))) b.children
        (grown_children j b found)

  module _ (before after : ℕ → TraceNodes)
      (others : (j : ℕ) → j < length arena → j ≢ i → after j ≡ before j)
      (moved : before i
        ≡ and_nodes
            (node new.name new.qualified_name new.confidence (after (length arena)))
            (after i)) where
    finish-new :
        (fuel : ℕ)
        → 0 < fuel
        → finish (push_child arena i new) after fuel (length arena)
          ≡ some (node new.name new.qualified_name new.confidence (after (length arena)))
    unfolding finish
    finish-new zero h = absurd (omega arith)
    finish-new (suc fuel) h = rw (node_at-push_child_new arena i new small, fresh) refl

    -- at the parent, the child at the end is the first of what was owed
    finish-parent :
        (fuel : ℕ) (b : TraceNodeBuilder)
        → 0 < fuel
        → each (finish arena before fuel) b.children
          ≡ each (finish (push_child arena i new) after fuel) b.children
        → finished b (extend (each (finish arena before fuel) b.children) (before i))
          ≡ finished (with_child b (length arena)) (
              extend
                (each
                  (finish (push_child arena i new) after fuel)
                  (b.children ++ length arena ∷ []))
                (after i))
    finish-parent fuel b positive cong =
        ap (finished b) (
          (λ k. extend (cong k) (moved k))
          ∙ extend-each_last (finish (push_child arena i new) after fuel) b.children (length arena)
              (node new.name new.qualified_name new.confidence (after (length arena))) (after i)
              (finish-new fuel positive))
        ∙ finished-with_child b (length arena) (
            extend
              (each (finish (push_child arena i new) after fuel) (b.children ++ length arena ∷ []))
              (after i))

    pub finish-push_child :
        (fuel j : ℕ)
        → j < length arena
        → length arena < j + fuel
        → finish arena before fuel j ≡ finish (push_child arena i new) after fuel j
    unfolding finish
    finish-push_child zero j lt enough = absurd (omega arith)
    finish-push_child (suc fuel) j lt enough =
        let (b, found) = node_at-some arena j lt in
        let cong =
          each-cong (finish arena before fuel) (finish (push_child arena i new) after fuel)
            b.children
            (All-imp (λ c h. finish-push_child fuel c h.1 (omega (arith, h.0, enough))) b.children
              (forest j b found)) in
        elim (Bool-cases (j == i)) [
          | inl g ↦
              let at : j ≡ i = (eq_iff j i).0 g in
              rw
                (
                  found,
                  ap (node_at (push_child arena i new)) at
                      ∙ node_at-push_child_same arena i new
                          (subst (λ (k : ℕ). node_at arena k ≡ some b) at found),
                )
                (subst
                  (λ (k : ℕ).
                    finished b (extend (each (finish arena before fuel) b.children) (before k))
                    ≡ finished (with_child b (length arena)) (
                        extend
                          (each (finish (push_child arena i new) after fuel)
                            (b.children ++ length arena ∷ []))
                          (after k)))
                  (sym at) (finish-parent fuel b (omega arith) cong))
          | inr g ↦
              rw (found, node_at-push_child_other arena i new j lt (beq_ne j i g) ∙ found)
                (λ k. finished b (extend (cong k) (sym (others j lt (beq_ne j i g)) k)))
        ]
