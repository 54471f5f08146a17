-- ===== src/Impact/Run/Coherent.antt =====
-- Results of crates/orbit-graph/src/query/impact.rs whose fields agree, and the outcomes that `run`
-- chains.
use orbit_graph.Common.{
  true, false, List, Option, none, some, Result, ok, err, ◌≡◌, refl, arith, length, is_empty, not,
  ◌||◌,
}
use orbit_graph.Common.Text.{is_some}
use orbit_graph.Index.Values.{GraphError, RefConfidence}
use orbit_graph.Impact.Types.{
  ImpactDirection, ImpactEntry, ImpactTraversal, ImpactFallback, ImpactResult,
}
use orbit_graph.Impact.Neighbors.{is_fuzzy}
use orbit_graph.Impact.Run.{Outcome, ◌>>=◌, fallback_of, empty_result, result_of}

pub bind_ends :
    {A B : Type 0} (o : Outcome A) (f : A → Outcome B)
    → (r : Result GraphError A) × (o ≡ some r)
    → ((a : A) → (r : Result GraphError B) × (f a ≡ some r))
    → (r : Result GraphError B) × ((o >>= f) ≡ some r)
bind_ends none f (r, e) g = absurd (cc)
bind_ends (some (err er)) f h g = (err er, refl)
bind_ends (some (ok a)) f h g = g a

pub bind-eq-ok :
    {A B : Type 0} (o : Outcome A) (f : A → Outcome B) {b : B}
    → (o >>= f) ≡ some (ok b)
    → (a : A) × (o ≡ some (ok a)) × (f a ≡ some (ok b))
bind-eq-ok none f h = absurd (ground arith)
bind-eq-ok (some (err er)) f h = absurd (ground arith)
bind-eq-ok (some (ok a)) f h = (a, refl, h)

pub ok-injective : {A : Type 0} {a b : A} → ◌≡◌ {A = Outcome A} (some (ok a)) (some (ok b)) → a ≡ b
ok-injective h = cc

pub fallback_of_lem :
    (t : ImpactTraversal) (floor : RefConfidence) (f : ImpactFallback) (touched : List ImpactEntry)
    → (not (is_empty touched) || is_fuzzy floor) ≡ false
    → fallback_of t floor ≡ some f
    → (is_empty touched ≡ true)
      × (is_fuzzy floor ≡ false)
      × (is_empty f.touched ≡ false)
      × (f.visited_nodes ≡ length f.touched)
unfolding fallback_of
fallback_of_lem t floor f touched e h = ground arith

-- What the fields of a result say of one another.
pub record IsCoherent (floor : RefConfidence) (r : ImpactResult) : Type 0 where
  pub visited : r.visited_nodes ≡ length r.touched
  pub total_whole : r.truncated ≡ false → r.total ≡ some (length r.touched)
  pub total_cut : r.truncated ≡ true → r.total ≡ none
  pub used : r.fallback_used ≡ is_some r.fallback
  pub fallback_full :
      (f : ImpactFallback)
      → r.fallback ≡ some f
      → (is_empty r.touched ≡ true)
        × (is_fuzzy floor ≡ false)
        × (is_empty f.touched ≡ false)
        × (f.visited_nodes ≡ length f.touched)

pub result_of-IsCoherent :
    (floor : RefConfidence) (direction : ImpactDirection) (t : ImpactTraversal)
    (fallback : Option ImpactFallback)
    → ((f : ImpactFallback)
        → fallback ≡ some f
        → (is_empty t.touched ≡ true)
          × (is_fuzzy floor ≡ false)
          × (is_empty f.touched ≡ false)
          × (f.visited_nodes ≡ length f.touched))
    → IsCoherent floor (result_of direction t fallback)
unfolding result_of
result_of-IsCoherent floor direction t fallback h = record {
  visited = refl;
  total_whole = λ e. rw e;
  total_cut = λ e. rw e;
  used = refl;
  fallback_full = h;
}

pub empty_result-IsCoherent :
    (floor : RefConfidence) (direction : ImpactDirection)
    → IsCoherent floor (empty_result direction)
unfolding empty_result
empty_result-IsCoherent floor direction = record {
  visited = refl;
  total_whole = λ e. refl;
  total_cut = λ e. cc;
  used = refl;
  fallback_full = λ f e. absurd (ground arith);
}
