-- ===== src/Queries/Trace/Outcome.antt =====
-- How the outer loop of `run` in crates/orbit-graph/src/query/trace.rs can end.
use orbit_graph.Common.{
  ℕ, true, false, Option, some, List, [], Result, ok, err, ◌≡◌, refl, ◌∙◌, subst, length, ◌+◌, ◌-◌,
  arith, nat_eq,
}
use orbit_graph.Index.{RefRow}
use orbit_graph.Index.Values.{GraphError, RefConfidence}
use orbit_graph.Queries.Trace.Search.{TraceSymbol, Tracing}
use orbit_graph.Queries.Trace.Grown.{finish}
use orbit_graph.Queries.Trace.Owed.{owed}
use orbit_graph.Queries.Trace.Steps.{IsSound}
use orbit_graph.Queries.Trace.Scan.{Keeps}

module _ (cap max_depth : ℕ) (floor : RefConfidence) (edges : TraceSymbol → List RefRow)
    (target : RefRow → Option TraceSymbol) where
  -- what is queued and what the arena has room for
  abbrev pub work : Tracing → ℕ
  work t = length t.queue + (cap - length t.arena)

  -- where the loop ends from `t`: with an error, or with variables that keep the tree
  pub record Ends (t : Tracing) (o : Option (Result GraphError Tracing)) : Type 0 where
    pub outcome : Result GraphError Tracing
    pub ended : o ≡ some outcome
    pub kept :
        (u : Tracing)
        → outcome ≡ ok u
        → Keeps cap max_depth floor edges target
            (finish t.arena (owed max_depth floor edges target t.queue) cap 0)
            t
            u
          × (u.truncated ≡ false → u.queue ≡ [])

  true≢false : (v : Tracing) → v.truncated ≡ true → v.truncated ≡ false → ⊥
  true≢false v a b = cc

  pub idle : (t : Tracing) → IsSound cap t → t.queue ≡ [] → Ends t (some (ok t))
  idle t sound empty = record {
    outcome = ok t;
    ended = refl;
    kept = λ u e.
        let same : t ≡ u = cc in
        (
          subst
              (λ (v : Tracing).
                Keeps cap max_depth floor edges target
                  (finish t.arena (owed max_depth floor edges target t.queue) cap 0) t v)
              same
              (record {
                sound = sound;
                same = λ whole. refl;
                full = λ f g. cc;
                shrinks = omega arith;
              }),
          λ whole. subst (λ (v : Tracing). v.queue ≡ []) same empty,
        );
  }

  pub failed : (t : Tracing) (failure : GraphError) → Ends t (some (err failure))
  failed t failure = record { outcome = err failure; ended = refl; kept = λ u e. absurd (cc) }

  -- the search goes on from `v`, which has the tree of `t`
  pub goes_on :
      (t v : Tracing) (o : Option (Result GraphError Tracing))
      → Keeps cap max_depth floor edges target
          (finish t.arena (owed max_depth floor edges target t.queue) cap 0)
          t
          v
      → v.truncated ≡ false
      → Ends v o
      → Ends t o
  goes_on t v o k whole rest = record {
    outcome = rest.outcome;
    ended = rest.ended;
    kept = λ u e.
        let (more, done) = rest.kept u e in
        (
          record {
            sound = more.sound;
            same = λ quiet. k.same whole ∙ more.same quiet;
            full = λ f g. more.full whole g;
            shrinks = omega (arith, k.shrinks, more.shrinks);
          },
          done,
        );
  }

  pub cut_off :
      (t u : Tracing)
      → Keeps cap max_depth floor edges target
          (finish t.arena (owed max_depth floor edges target t.queue) cap 0)
          t
          u
      → u.truncated ≡ true
      → Ends t (some (ok u))
  cut_off t u k cut = record {
    outcome = ok u;
    ended = refl;
    kept = λ v e.
        let same : u ≡ v = cc in
        (
          subst
              (λ (x : Tracing).
                Keeps cap max_depth floor edges target
                  (finish t.arena (owed max_depth floor edges target t.queue) cap 0) t x)
              same k,
          λ whole.
              absurd (true≢false v (subst (λ (x : Tracing). x.truncated ≡ true) same cut) whole),
        );
  }
