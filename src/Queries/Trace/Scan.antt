-- ===== src/Queries/Trace/Scan.antt =====
-- The inner loop of `run` in crates/orbit-graph/src/query/trace.rs: what it keeps.
use orbit_graph.Common.{
  ℕ, suc, true, false, Option, List, [], ◌∷◌, ok, ◌≡◌, refl, ◌∙◌, subst, length, ◌<◌, ◌≤◌, ◌+◌, ◌-◌,
  inl, inr, arith, ◌==◌, nat_eq, Bool-cases, Result-cases, leb, leb→le,
}
use orbit_graph.Index.{RefRow}
use orbit_graph.Index.Values.{RefConfidence}
use orbit_graph.Impact.Neighbors.{confidence_visible_at_floor}
use orbit_graph.Queries.Trace.Arena.{TraceNode}
use orbit_graph.Queries.Trace.Search.{TraceSymbol, Tracing, add_child, scan_edges}
use orbit_graph.Queries.Trace.Grown.{finish, is_shown}
use orbit_graph.Queries.Trace.Owed.{owed, owing}
use orbit_graph.Queries.Trace.Steps.{
  IsSound, add_child-IsSound, add_child-finish, length-add_child, queue-add_child_le,
  add_child-truncated,
}

module _ (cap max_depth : ℕ) (floor : RefConfidence) (edges : TraceSymbol → List RefRow)
    (target : RefRow → Option TraceSymbol) where
  owing-none :
      (queue : List (ℕ × TraceSymbol × ℕ)) (i next_distance j : ℕ)
      → owing max_depth floor edges target queue i next_distance [] j
        ≡ owed max_depth floor edges target queue j
  owing-none queue i next_distance j = elim (Bool-cases (i == j)) [
    | inl e ↦ rw e refl
    | inr e ↦ rw e refl
  ]

  owing-hidden :
      (queue : List (ℕ × TraceSymbol × ℕ)) (i next_distance : ℕ) (e : RefRow) (es : List RefRow)
      (j : ℕ)
      → is_shown floor e ≡ false
      → owing max_depth floor edges target queue i next_distance (e ∷ es) j
        ≡ owing max_depth floor edges target queue i next_distance es j
  owing-hidden queue i next_distance e es j hidden = elim (Bool-cases (i == j)) [
    | inl g ↦ rw (g, hidden) refl
    | inr g ↦ rw g refl
  ]

  pub owed-popped :
      (queue : List (ℕ × TraceSymbol × ℕ)) (i distance : ℕ) (s : TraceSymbol) (j : ℕ)
      → leb max_depth distance ≡ false
      → owed max_depth floor edges target ((i, s, distance) ∷ queue) j
        ≡ owing max_depth floor edges target queue i (suc distance) (edges s) j
  owed-popped queue i distance s j shallow =
      let left : max_depth - distance ≡ suc (max_depth - suc distance) = ground arith in
      elim (Bool-cases (i == j)) [ inl e ↦ rw (e, left) refl | inr e ↦ rw e refl ]

  pub owed-deep :
      (queue : List (ℕ × TraceSymbol × ℕ)) (i distance : ℕ) (s : TraceSymbol) (j : ℕ)
      → leb max_depth distance ≡ true
      → owed max_depth floor edges target ((i, s, distance) ∷ queue) j
        ≡ owed max_depth floor edges target queue j
  owed-deep queue i distance s j deep =
      let none_left : max_depth - distance ≡ 0 = ground arith in
      elim (Bool-cases (i == j)) [ inl e ↦ rw (e, none_left) refl | inr e ↦ rw e refl ]

  -- what a run of the loops from `t`, where the tree was `tree`, makes of it
  pub record Keeps (tree : Option TraceNode) (t u : Tracing) : Type 0 where
    pub sound : IsSound cap u
    pub same :
        u.truncated ≡ false
        → tree ≡ finish u.arena (owed max_depth floor edges target u.queue) cap 0
    pub full : t.truncated ≡ false → u.truncated ≡ true → length u.arena ≡ cap
    pub shrinks : length u.queue + (cap - length u.arena) ≤ length t.queue + (cap - length t.arena)

  -- the cap leaves no room
  stopped :
      (t : Tracing) (tree : Option TraceNode) (u : Tracing)
      → IsSound cap t
      → leb cap (length t.arena) ≡ true
      → record t { truncated = true } ≡ u
      → Keeps tree t u
  stopped t tree u sound full stop =
      subst (λ (v : Tracing). Keeps tree t v) stop
        (record {
          sound = record {
            forest = sound.forest;
            counted = sound.counted;
            queued = sound.queued;
            rooted = sound.rooted;
            fits = sound.fits;
          };
          same = λ whole. cc;
          full = λ f g. omega (arith, leb→le cap (length t.arena) full, sound.fits);
          shrinks = omega arith;
        })

  after_child :
      (t : Tracing) (i next_distance : ℕ) (e : RefRow) (es : List RefRow) (u : Tracing)
      → IsSound cap t
      → i < length t.arena
      → length t.arena < cap
      → is_shown floor e ≡ true
      → Keeps
          (finish
            (add_child cap max_depth floor edges target t i next_distance e).arena
            (owing max_depth floor edges target
              (add_child cap max_depth floor edges target t i next_distance e).queue
              i
              next_distance
              es)
            cap
            0)
          (add_child cap max_depth floor edges target t i next_distance e)
          u
      → Keeps
          (finish t.arena
            (owing max_depth floor edges target t.queue i next_distance (e ∷ es))
            cap
            0)
          t
          u
  after_child t i next_distance e es u sound small room shown rest = record {
    sound = rest.sound;
    same = λ whole.
        add_child-finish cap max_depth floor edges target t i next_distance e es sound small room
          shown
        ∙ rest.same whole;
    full = λ f.
        rest.full (add_child-truncated cap max_depth floor edges target t i next_distance e ∙ f);
    shrinks = omega (
      arith,
      rest.shrinks,
      length-add_child cap max_depth floor edges target t i next_distance e,
      queue-add_child_le cap max_depth floor edges target t i next_distance e,
    );
  }

  pub scan_edges-Keeps :
      (t : Tracing) (i next_distance : ℕ) (es : List RefRow) (u : Tracing)
      → IsSound cap t
      → i < length t.arena
      → scan_edges cap max_depth floor edges target t i next_distance es ≡ ok u
      → Keeps
          (finish t.arena (owing max_depth floor edges target t.queue i next_distance es) cap 0)
          t
          u
  unfolding scan_edges
  scan_edges-Keeps t i next_distance [] u sound small ended =
      subst
        (λ (v : Tracing).
          Keeps
            (finish t.arena (owing max_depth floor edges target t.queue i next_distance []) cap 0) t
            v)
        (cc)
        (record {
          sound = sound;
          same = λ whole k. finish t.arena (λ j. owing-none t.queue i next_distance j k) cap 0;
          full = λ f g. cc;
          shrinks = omega arith;
        })
  scan_edges-Keeps t i next_distance (e ∷ es) u sound small ended =
      elim (Result-cases (confidence_visible_at_floor e.confidence floor)) [
        | inl (false, read) ↦
            let hidden : is_shown floor e ≡ false = rw (read, is_shown) refl in
            let rest =
              scan_edges-Keeps t i next_distance es u sound small
                (rw (read, scan_edges) at ended) in
            record {
              sound = rest.sound;
              same = λ whole.
                  (λ k.
                    finish t.arena (λ j. owing-hidden t.queue i next_distance e es j hidden k) cap
                      0)
                  ∙ rest.same whole;
              full = rest.full;
              shrinks = rest.shrinks;
            }
        | inl (true, read) ↦
            let shown : is_shown floor e ≡ true = rw (read, is_shown) refl in
            elim (Bool-cases (leb cap (length t.arena))) [
              | inl full ↦ stopped t _ u sound full (cc (rw (read, scan_edges, full) at ended))
              | inr free ↦
                  let room : length t.arena < cap = ground arith in
                  let size =
                    length-add_child cap max_depth floor edges target t i next_distance e in
                  let rest =
                    scan_edges-Keeps
                      (add_child cap max_depth floor edges target t i next_distance e) i
                      next_distance es u
                      (add_child-IsSound cap max_depth floor edges target t i next_distance e sound
                        small room)
                      (omega (arith, size)) (rw (read, scan_edges, free) at ended) in
                  after_child t i next_distance e es u sound small room shown rest
            ]
        | inr (failure, read) ↦ absurd (cc (rw (read, scan_edges) at ended))
      ]
