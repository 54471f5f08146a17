-- ===== src/Impact/Bfs/Levels.antt =====
-- The distances in the queue and the list of `traverse` (query/impact.rs).
use orbit_graph.Common.{
  ℕ, suc, ◌≤◌, List, [], ◌∷◌, ◌++◌, Option, none, some, ok, ◌≡◌, refl, ap, inl, inr, Bool-cases,
  arith, ltb, All, All-append, All-imp, subst,
}
use orbit_graph.Impact.Types.{ImpactSymbol, ImpactNeighbor, ImpactEntry}
use orbit_graph.Impact.Bfs.{
  Search, Resolve, Place, Expand, push, visit, scan, start, search, entry_of,
}
use orbit_graph.Impact.Bfs.Rule.{loop_rule, scan_rule}

-- numbers that never fall, the first at least `low`
abbrev pub Grows : ℕ → List ℕ → Type 0
Grows low [] = Unit
Grows low (n ∷ ns) = (low ≤ n) × Grows n ns

Grows-append :
    (low top : ℕ) (ns : List ℕ)
    → low ≤ top
    → Grows low ns
    → All (λ n. n ≤ top) ns
    → Grows low (ns ++ top ∷ [])
Grows-append low top [] le g h = (le, tt)
Grows-append low top (n ∷ ns) le g h = (g.0, Grows-append n top ns h.0 g.1 h.1)

abbrev pub distances : List ImpactEntry → List ℕ
distances [] = []
distances (e ∷ es) = e.distance ∷ distances es

abbrev pub levels : List (ImpactSymbol × ℕ) → List ℕ
levels [] = []
levels ((x, d) ∷ rest) = d ∷ levels rest

distances-append : (es fs : List ImpactEntry) → distances (es ++ fs) ≡ distances es ++ distances fs
distances-append [] fs = refl
distances-append (e ∷ es) fs = ap (λ rest. e.distance ∷ rest) (distances-append es fs)

levels-append : (q r : List (ImpactSymbol × ℕ)) → levels (q ++ r) ≡ levels q ++ levels r
levels-append [] r = refl
levels-append ((x, d) ∷ q) r = ap (λ rest. d ∷ rest) (levels-append q r)

module _ (cap max_depth : ℕ) (resolve : Resolve) (place : Place) (expand : Expand) where
  -- Between rounds, all that is queued stands at `low` or one further, in order.
  pub record IsLevel (low : ℕ) (s : Search) : Type 0 where
    pub queued : Grows low (levels s.queue)
    pub queue_top : All (λ d. d ≤ suc low) (levels s.queue)
    pub listed : Grows 1 (distances s.touched)
    pub listed_top : All (λ d. d ≤ suc low) (distances s.touched)
    pub shallow : All (λ d. d ≤ max_depth) (distances s.touched)

  push-levels :
      (low : ℕ) (queue : List (ImpactSymbol × ℕ)) (resolved : Option ImpactSymbol)
      → Grows low (levels queue)
      → All (λ d. d ≤ suc low) (levels queue)
      → Grows low (levels (push max_depth queue (suc low) resolved))
        × All (λ d. d ≤ suc low) (levels (push max_depth queue (suc low) resolved))
  unfolding push
  push-levels low queue none g h = (g, h)
  push-levels low queue (some x) g h = elim (Bool-cases (ltb (suc low) max_depth)) [
    | inl room ↦
        rw (room, levels-append queue ((x, suc low) ∷ []))
          (
            Grows-append low (suc low) (levels queue) (omega arith) g h,
            All-append (λ d. d ≤ suc low) (levels queue) (suc low ∷ []) h (omega arith),
          )
    | inr full ↦ rw full (g, h)
  ]

  visit-IsLevel :
      (low : ℕ) (s : Search) (n : ImpactNeighbor)
      → suc low ≤ max_depth
      → IsLevel low s
      → IsLevel low (visit max_depth resolve place s (suc low) n)
  unfolding visit
  visit-IsLevel low s n room h =
      let (g, top) = push-levels low s.queue (resolve n) h.queued h.queue_top in
      let same = distances-append s.touched (entry_of resolve place n (suc low) ∷ []) in
      record {
        queued = g;
        queue_top = top;
        listed =
            rw same
              (Grows-append 1 (suc low) (distances s.touched) (omega arith) h.listed h.listed_top);
        listed_top =
            rw same
              (All-append (λ d. d ≤ suc low) (distances s.touched) _ h.listed_top (omega arith));
        shallow =
            rw same (All-append (λ d. d ≤ max_depth) (distances s.touched) _ h.shallow (room, tt));
      }

  pub scan-IsLevel :
      (low : ℕ) (s : Search) (ns : List ImpactNeighbor)
      → suc low ≤ max_depth
      → IsLevel low s
      → IsLevel low (scan cap max_depth resolve place s (suc low) ns)
  scan-IsLevel low s ns room h =
      scan_rule cap max_depth resolve place (IsLevel low) (suc low) ns
        (λ u n among below l. visit-IsLevel low u n room l)
        (λ u l. record {
          queued = l.queued;
          queue_top = l.queue_top;
          listed = l.listed;
          listed_top = l.listed_top;
          shallow = l.shallow;
        })
        s h

  -- popping the first of the queue moves on to its level
  pub pop-IsLevel :
      (low : ℕ) (s : Search) (x : ImpactSymbol) (d : ℕ) (rest : List (ImpactSymbol × ℕ))
      → s.queue ≡ (x, d) ∷ rest
      → IsLevel low s
      → IsLevel d (record s { queue = rest })
  pop-IsLevel low s x d rest e h =
      let g : Grows low (d ∷ levels rest) = subst (λ q. Grows low (levels q)) e h.queued in
      let top : All (λ k. k ≤ suc low) (d ∷ levels rest) =
        subst (λ q. All (λ k. k ≤ suc low) (levels q)) e h.queue_top in
      record {
        queued = g.1;
        queue_top = All-imp (λ k le. omega arith) (levels rest) top.1;
        listed = h.listed;
        listed_top = All-imp (λ k le. omega arith) (distances s.touched) h.listed_top;
        shallow = h.shallow;
      }

  pub search-Grows :
      (origin : ImpactSymbol) (t : Search)
      → search cap max_depth resolve place expand origin ≡ some (ok t)
      → Grows 1 (distances t.touched) × All (λ d. d ≤ max_depth) (distances t.touched)
  unfolding search
  search-Grows origin t h =
      let ((low, level), _) =
        loop_rule cap max_depth resolve place expand (λ s. (low : ℕ) × IsLevel low s)
          (λ s x d rest e deep (low, l). (d, pop-IsLevel low s x d rest e l))
          (λ s x d rest ns e near good (low, l). (
            d,
            scan-IsLevel d (record s { queue = rest }) ns near (pop-IsLevel low s x d rest e l),
          ))
          (suc cap) (start origin) t (0, omega arith) h in
      (level.listed, level.shallow)
