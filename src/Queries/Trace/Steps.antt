-- ===== src/Queries/Trace/Steps.antt =====
-- The invariant of the loop of `run` in crates/orbit-graph/src/query/trace.rs, and that a step
-- leaves the tree as it is: what the arena holds, with what the queue still owes to it.
use orbit_graph.Common.{
  ℕ, suc, true, Option, none, some, List, [], ◌∷◌, ◌≡◌, refl, sym, length, ◌<◌, ◌≤◌, inl, inr, All,
  All-imp, All-append, length-append, arith, nat_eq, eq_refl, Bool-cases, ltb,
}
use orbit_graph.Index.{RefRow}
use orbit_graph.Index.Values.{RefConfidence}
use orbit_graph.Queries.Trace.Arena.{length-push_child}
use orbit_graph.Queries.Trace.Search.{TraceSymbol, Tracing, callee_builder, enqueue, add_child}
use orbit_graph.Queries.Trace.Grown.{IsForest, finish, is_shown}
use orbit_graph.Queries.Trace.Moved.{push_child-IsForest, finish-push_child}
use orbit_graph.Queries.Trace.Count.{IsCounted, push_child-IsCounted}
use orbit_graph.Queries.Trace.Owed.{owing, owed-enqueue_other, owed-enqueue_new, beq-false}

-- the invariant of the loop's variables
pub record IsSound (cap : ℕ) (t : Tracing) : Type 0 where
  pub forest : IsForest t.arena
  pub counted : IsCounted cap t.arena
  pub queued : All (λ (x : ℕ × TraceSymbol × ℕ). x.0 < length t.arena) t.queue
  pub rooted : 0 < length t.arena
  pub fits : length t.arena ≤ cap

length-enqueue_le :
    (max_depth : ℕ) (queue : List (ℕ × TraceSymbol × ℕ)) (n next_distance : ℕ)
    (o : Option TraceSymbol)
    → length (enqueue max_depth queue n next_distance o) ≤ suc (length queue)
unfolding enqueue
length-enqueue_le max_depth queue n next_distance none = omega arith
length-enqueue_le max_depth queue n next_distance (some s) =
    ground (arith, length-append queue ((n, s, next_distance) ∷ []))

enqueue-All :
    (max_depth : ℕ) (queue : List (ℕ × TraceSymbol × ℕ)) (n next_distance : ℕ)
    (o : Option TraceSymbol)
    → All (λ (x : ℕ × TraceSymbol × ℕ). x.0 < n) queue
    → All (λ (x : ℕ × TraceSymbol × ℕ). x.0 < suc n) (enqueue max_depth queue n next_distance o)
unfolding enqueue
enqueue-All max_depth queue n next_distance none h =
    All-imp (λ (x : ℕ × TraceSymbol × ℕ) lt. omega (arith, lt)) queue h
enqueue-All max_depth queue n next_distance (some s) h =
    let wider : All (λ (x : ℕ × TraceSymbol × ℕ). x.0 < suc n) queue =
      All-imp (λ (x : ℕ × TraceSymbol × ℕ) lt. omega (arith, lt)) queue h in
    let newest : n < suc n = omega arith in
    elim (Bool-cases (ltb next_distance max_depth)) [
      | inl e ↦ rw e (
          All-append (λ (x : ℕ × TraceSymbol × ℕ). x.0 < suc n) queue ((n, s, next_distance) ∷ [])
            wider (newest, tt))
      | inr e ↦ rw e wider
    ]

module _ (cap max_depth : ℕ) (floor : RefConfidence) (edges : TraceSymbol → List RefRow)
    (target : RefRow → Option TraceSymbol) where
  pub add_child-IsSound :
      (t : Tracing) (i next_distance : ℕ) (e : RefRow)
      → IsSound cap t
      → i < length t.arena
      → length t.arena < cap
      → IsSound cap (add_child cap max_depth floor edges target t i next_distance e)
  unfolding add_child
  add_child-IsSound t i next_distance e sound small room =
      let size = length-push_child t.arena i (callee_builder e) in
      record {
        forest = push_child-IsForest t.arena sound.forest i small (callee_builder e) refl;
        counted =
            push_child-IsCounted cap t.arena i (callee_builder e) sound.forest small refl room
              sound.counted;
        queued =
            All-imp (λ (x : ℕ × TraceSymbol × ℕ) lt. omega (arith, lt, size))
              (enqueue max_depth t.queue (length t.arena) next_distance (target e))
              (enqueue-All max_depth t.queue (length t.arena) next_distance (target e)
                sound.queued);
        rooted = omega (arith, size);
        fits = omega (arith, size);
      }

  pub add_child-finish :
      (t : Tracing) (i next_distance : ℕ) (e : RefRow) (es : List RefRow)
      → IsSound cap t
      → i < length t.arena
      → length t.arena < cap
      → is_shown floor e ≡ true
      → finish t.arena (owing max_depth floor edges target t.queue i next_distance (e ∷ es)) cap 0
        ≡ finish
            (add_child cap max_depth floor edges target t i next_distance e).arena
            (owing max_depth floor edges target
              (add_child cap max_depth floor edges target t i next_distance e).queue
              i
              next_distance
              es)
            cap
            0
  unfolding add_child
  add_child-finish t i next_distance e es sound small room shown =
      let n = length t.arena in
      let queue = enqueue max_depth t.queue n next_distance (target e) in
      let kept = λ (j : ℕ) (lt : j < n).
        owed-enqueue_other max_depth floor edges target t.queue n next_distance (target e) j
          (λ same. omega (arith, same)) in
      finish-push_child t.arena sound.forest i small (callee_builder e) refl
        (owing max_depth floor edges target t.queue i next_distance (e ∷ es))
        (owing max_depth floor edges target queue i next_distance es)
        (λ j lt other. rw (beq-false i j (λ same. other (sym same))) (kept j lt))
        (rw
          (
            eq_refl i,
            shown,
            kept i small,
            beq-false i n (λ same. omega (arith, same)),
            owed-enqueue_new max_depth floor edges target t.queue n next_distance (target e)
                sound.queued,
          )
          refl)
        cap 0 sound.rooted (omega arith)

  pub length-add_child :
      (t : Tracing) (i next_distance : ℕ) (e : RefRow)
      → length (add_child cap max_depth floor edges target t i next_distance e).arena
        ≡ suc (length t.arena)
  unfolding add_child
  length-add_child t i next_distance e = length-push_child t.arena i (callee_builder e)

  pub queue-add_child_le :
      (t : Tracing) (i next_distance : ℕ) (e : RefRow)
      → length (add_child cap max_depth floor edges target t i next_distance e).queue
        ≤ suc (length t.queue)
  unfolding add_child
  queue-add_child_le t i next_distance e =
      length-enqueue_le max_depth t.queue (length t.arena) next_distance (target e)

  pub add_child-truncated :
      (t : Tracing) (i next_distance : ℕ) (e : RefRow)
      → (add_child cap max_depth floor edges target t i next_distance e).truncated ≡ t.truncated
  unfolding add_child
  add_child-truncated t i next_distance e = refl
