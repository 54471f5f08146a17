-- ===== src/Impact/Bfs/Bounds.antt =====
-- The rounds and the listed nodes of the loop of `traverse` (query/impact.rs).
use orbit_graph.Common.{
  ℕ, zero, suc, ◌+◌, ◌-◌, ◌≤◌, List, [], ◌∷◌, Option, none, some, Result, ok, err, ◌≡◌, ap, ◌∙◌,
  inl, inr, List-cases, Bool-cases, Result-cases, arith, leb, length, length-append,
}
use orbit_graph.Index.Values.{GraphError}
use orbit_graph.Impact.Types.{ImpactSymbol, ImpactNeighbor}
use orbit_graph.Impact.Bfs.{
  Search, Resolve, Place, Expand, push, visit, scan, loop, start, search, entry_of,
}
use orbit_graph.Impact.Bfs.Rule.{loop_rule, loop_deep, loop_failed, loop_scanned}

module _ (cap max_depth : ℕ) (resolve : Resolve) (place : Place) (expand : Expand) where
  -- what is queued and what may still be listed
  abbrev work : Search → ℕ
  work s = length s.queue + (cap - length s.touched)

  record IsBounded (s : Search) : Type 0 where
    within : length s.touched ≤ cap
    counted : length s.seen ≡ suc (length s.touched)

  length-push-le :
      (queue : List (ImpactSymbol × ℕ)) (d : ℕ) (resolved : Option ImpactSymbol)
      → length (push max_depth queue d resolved) ≤ length queue + 1
  unfolding push
  length-push-le queue d none = omega arith
  length-push-le queue d (some x) = ground (arith, length-append queue ((x, d) ∷ []))

  scan-IsBounded :
      (s : Search) (d : ℕ) (ns : List ImpactNeighbor)
      → IsBounded s
      → IsBounded (scan cap max_depth resolve place s d ns)
        × (work (scan cap max_depth resolve place s d ns) ≤ work s)
  unfolding scan
  scan-IsBounded s d [] h = (h, omega arith)
  scan-IsBounded s d (n ∷ ns) h = ground (
    arith,
    scan-IsBounded s d ns h,
    scan-IsBounded (visit max_depth resolve place s d n) d ns,
    length-push-le s.queue d (resolve n),
    length-append s.touched (entry_of resolve place n d ∷ []),
  )

  loop_ends :
      (fuel : ℕ) (s : Search)
      → IsBounded s
      → work s ≤ fuel
      → (r : Result GraphError Search) × (loop cap max_depth resolve place expand fuel s ≡ some r)
  unfolding loop
  loop_ends zero s h w = elim (List-cases s.queue) [
    | inl e ↦ (ok s, simp (e, loop))
    | inr (item, rest, e) ↦ absurd (omega (arith, ap length e))
  ]
  loop_ends (suc fuel) s h w = elim (List-cases s.queue) [
    | inl e ↦ (ok s, simp (e, loop))
    | inr ((x, d), rest, e) ↦
        let popped = record s { queue = rest } in
        let below : IsBounded popped = record { within = h.within; counted = h.counted } in
        let less : work popped ≤ fuel = omega (arith, ap length e) in
        elim (Bool-cases (leb max_depth d)) [
          | inl deep ↦
              let (r, run) = loop_ends fuel popped below less in
              (r, loop_deep cap max_depth resolve place expand fuel s x d rest e deep ∙ run)
          | inr near ↦ elim (Result-cases (expand x)) [
            | inr (er, bad) ↦
                (err er, loop_failed cap max_depth resolve place expand fuel s x d rest e near bad)
            | inl (ns, good) ↦
                let u = scan cap max_depth resolve place popped (suc d) ns in
                let (kept, falls) = scan-IsBounded popped (suc d) ns below in
                let round =
                  loop_scanned cap max_depth resolve place expand fuel s x d rest e ns near good in
                elim (Bool-cases u.truncated) [
                  | inl cut ↦ (ok u, round ∙ rw cut)
                  | inr whole ↦
                      let (r, run) = loop_ends fuel u kept (omega arith) in
                      (r, round ∙ rw whole run)
                ]
          ]
        ]
  ]

  start-IsBounded : (origin : ImpactSymbol) → IsBounded (start origin)
  start-IsBounded origin = omega arith

  -- The search ends on its fuel, with a result or with the error of a query.
  pub search_ends :
      (origin : ImpactSymbol)
      → (r : Result GraphError Search) × (search cap max_depth resolve place expand origin ≡ some r)
  unfolding search
  search_ends origin = loop_ends (suc cap) (start origin) (start-IsBounded origin) (omega arith)

  -- A finished search has listed at most `cap` nodes, one for each node seen but the origin.
  pub search-le-cap :
      (origin : ImpactSymbol) (t : Search)
      → search cap max_depth resolve place expand origin ≡ some (ok t)
      → (length t.touched ≤ cap) × (length t.seen ≡ suc (length t.touched))
  unfolding search
  search-le-cap origin t h =
      let (bounded, _) =
        loop_rule cap max_depth resolve place expand IsBounded
          (λ s x d rest e deep b. record { within = b.within; counted = b.counted })
          (λ s x d rest ns e near good b.
            (scan-IsBounded (record s { queue = rest }) (suc d) ns
              (record { within = b.within; counted = b.counted })).0)
          (suc cap) (start origin) t (start-IsBounded origin) h in
      (bounded.within, bounded.counted)
