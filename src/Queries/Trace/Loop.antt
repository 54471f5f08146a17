-- ===== src/Queries/Trace/Loop.antt =====
-- The outer loop of `run` in crates/orbit-graph/src/query/trace.rs: it ends, and what it keeps.
use orbit_graph.Common.{
  ℕ, zero, suc, Bool, true, false, Option, some, List, [], ◌∷◌, ok, err, ◌≡◌, sym, ap, ◌∙◌, subst,
  length, ◌<◌, ◌≤◌, inl, inr, All, arith, nat_eq, Bool-cases, Result-cases, List-cases,
  if◌then◌else◌, leb,
}
use orbit_graph.Index.{RefRow}
use orbit_graph.Index.Values.{GraphError, RefConfidence}
use orbit_graph.Queries.Trace.Search.{TraceSymbol, Tracing, scan_edges, trace_loop}
use orbit_graph.Queries.Trace.Grown.{finish}
use orbit_graph.Queries.Trace.Owed.{owed}
use orbit_graph.Queries.Trace.Steps.{IsSound}
use orbit_graph.Queries.Trace.Scan.{Keeps, scan_edges-Keeps, owed-popped, owed-deep}
use orbit_graph.Queries.Trace.Outcome.{work, Ends, idle, failed, goes_on, cut_off}

module _ (cap max_depth : ℕ) (floor : RefConfidence) (edges : TraceSymbol → List RefRow)
    (target : RefRow → Option TraceSymbol) where
  trace_loop-empty :
      (fuel : ℕ) (t : Tracing)
      → t.queue ≡ []
      → trace_loop cap max_depth floor edges target fuel t ≡ some (ok t)
  unfolding trace_loop
  trace_loop-empty zero t e = simp (e, trace_loop)
  trace_loop-empty (suc fuel) t e = simp (e, trace_loop)

  module _ (fuel : ℕ) (t : Tracing) (i : ℕ) (s : TraceSymbol) (distance : ℕ)
      (rest : List (ℕ × TraceSymbol × ℕ)) (e : t.queue ≡ (i, s, distance) ∷ rest) where
    trace_loop-deep :
        leb max_depth distance ≡ true
        → trace_loop cap max_depth floor edges target (suc fuel) t
          ≡ trace_loop cap max_depth floor edges target fuel (record t { queue = rest })
    unfolding trace_loop
    trace_loop-deep deep = rw (e, deep, trace_loop)

    trace_loop-failed :
        (failure : GraphError)
        → leb max_depth distance ≡ false
        → scan_edges cap max_depth floor edges target
            (record t { queue = rest })
            i
            (suc distance)
            (edges s)
          ≡ err failure
        → trace_loop cap max_depth floor edges target (suc fuel) t ≡ some (err failure)
    unfolding trace_loop
    trace_loop-failed failure near bad = rw (e, near, bad, trace_loop)

    trace_loop-scanned :
        (u : Tracing)
        → leb max_depth distance ≡ false
        → scan_edges cap max_depth floor edges target
            (record t { queue = rest })
            i
            (suc distance)
            (edges s)
          ≡ ok u
        → trace_loop cap max_depth floor edges target (suc fuel) t ≡ (
            if u.truncated then some (ok u) else trace_loop cap max_depth floor edges target fuel u)
    unfolding trace_loop
    trace_loop-scanned u near good = rw (e, near, good, trace_loop)

    popped-All :
        IsSound cap t
        → All (λ (x : ℕ × TraceSymbol × ℕ). x.0 < length t.arena) ((i, s, distance) ∷ rest)
    popped-All sound =
        subst (λ q. All (λ (x : ℕ × TraceSymbol × ℕ). x.0 < length t.arena) q) e sound.queued

    popped-IsSound : IsSound cap t → IsSound cap (record t { queue = rest })
    popped-IsSound sound = record {
      forest = sound.forest;
      counted = sound.counted;
      queued = (popped-All sound).1;
      rooted = sound.rooted;
      fits = sound.fits;
    }

    -- an item at the depth limit owes nothing
    deep-Keeps :
        IsSound cap t
        → leb max_depth distance ≡ true
        → Keeps cap max_depth floor edges target
            (finish t.arena (owed max_depth floor edges target t.queue) cap 0)
            t
            (record t { queue = rest })
    deep-Keeps sound deep = record {
      sound = popped-IsSound sound;
      same = λ whole. (λ k. finish t.arena (owed max_depth floor edges target (e k)) cap 0) ∙ (λ k.
          finish t.arena
            (λ j. owed-deep cap max_depth floor edges target rest i distance s j deep k) cap 0);
      full = λ f g. cc;
      shrinks = omega (arith, ap length e);
    }

    near-Keeps :
        (u : Tracing)
        → IsSound cap t
        → leb max_depth distance ≡ false
        → scan_edges cap max_depth floor edges target
            (record t { queue = rest })
            i
            (suc distance)
            (edges s)
          ≡ ok u
        → Keeps cap max_depth floor edges target
            (finish t.arena (owed max_depth floor edges target t.queue) cap 0)
            t
            u
          × (work cap max_depth floor edges target u < work cap max_depth floor edges target t)
    near-Keeps u sound near good =
        let k =
          scan_edges-Keeps cap max_depth floor edges target (record t { queue = rest }) i
            (suc distance) (edges s) u (popped-IsSound sound) (popped-All sound).0 good in
        (
          record {
            sound = k.sound;
            same = λ whole.
                (λ k. finish t.arena (owed max_depth floor edges target (e k)) cap 0)
                ∙ (λ k.
                    finish t.arena
                      (λ j. owed-popped cap max_depth floor edges target rest i distance s j near k)
                      cap 0)
                ∙ k.same whole;
            full = k.full;
            shrinks = omega (arith, ap length e, k.shrinks);
          },
          omega (arith, ap length e, k.shrinks),
        )

  pub loop_ends :
      (fuel : ℕ) (t : Tracing)
      → IsSound cap t
      → t.truncated ≡ false
      → work cap max_depth floor edges target t ≤ fuel
      → Ends cap max_depth floor edges target t (trace_loop cap max_depth floor edges target fuel t)
  loop_ends zero t sound whole enough = elim (List-cases t.queue) [
    | inl e ↦
        subst (Ends cap max_depth floor edges target t) (sym (trace_loop-empty zero t e))
          (idle cap max_depth floor edges target t sound e)
    | inr (item, rest, e) ↦ absurd (omega (arith, ap length e))
  ]
  loop_ends (suc fuel) t sound whole enough = elim (List-cases t.queue) [
    | inl e ↦
        subst (Ends cap max_depth floor edges target t) (sym (trace_loop-empty (suc fuel) t e))
          (idle cap max_depth floor edges target t sound e)
    | inr ((i, s, distance), rest, e) ↦ elim (Bool-cases (leb max_depth distance)) [
      | inl deep ↦
          subst (Ends cap max_depth floor edges target t)
            (sym (trace_loop-deep fuel t i s distance rest e deep))
            (goes_on cap max_depth floor edges target t (record t { queue = rest })
              (trace_loop cap max_depth floor edges target fuel (record t { queue = rest }))
              (deep-Keeps fuel t i s distance rest e sound deep) whole
              (loop_ends fuel (record t { queue = rest })
                (popped-IsSound fuel t i s distance rest e sound) whole
                (omega (arith, ap length e))))
      | inr near ↦
          elim (Result-cases (
            scan_edges cap max_depth floor edges target (record t { queue = rest }) i (suc distance)
              (edges s))) [
                | inr (failure, bad) ↦
                    subst (Ends cap max_depth floor edges target t)
                      (sym (trace_loop-failed fuel t i s distance rest e failure near bad))
                      (failed cap max_depth floor edges target t failure)
                | inl (u, good) ↦
                    let (k, less) = near-Keeps fuel t i s distance rest e u sound near good in
                    subst (Ends cap max_depth floor edges target t)
                      (sym (trace_loop-scanned fuel t i s distance rest e u near good))
                      (elim (Bool-cases u.truncated) [
                        | inl cut ↦
                            subst
                              (λ (b : Bool). Ends cap max_depth floor edges target t (
                                if b
                                then some (ok u)
                                else trace_loop cap max_depth floor edges target fuel u))
                              (sym cut) (cut_off cap max_depth floor edges target t u k cut)
                        | inr quiet ↦
                            subst
                              (λ (b : Bool). Ends cap max_depth floor edges target t (
                                if b
                                then some (ok u)
                                else trace_loop cap max_depth floor edges target fuel u))
                              (sym quiet)
                              (goes_on cap max_depth floor edges target t u
                                (trace_loop cap max_depth floor edges target fuel u) k quiet
                                (loop_ends fuel u k.sound quiet (omega arith)))
                      ])
              ]
    ]
  ]
