-- ===== src/Impact/Bfs/Rule.antt =====
-- A rule for the loop of `traverse` in crates/orbit-graph/src/query/impact.rs.
use mathlib.Core.List.{Memᴰ}
use orbit_graph.Common.{
  ℕ, zero, suc, refl, true, false, err, ◌≤◌, ◌<◌, List, [], ◌∷◌, Option, some, Result, ok, ◌≡◌, ◌⊎◌,
  inl, inr, List-cases, Bool-cases, Result-cases, arith, leb, length, contains, sym, ◌∙◌,
  if◌then◌else◌, subst,
}
use orbit_graph.Index.Values.{GraphError}
use orbit_graph.Impact.Types.{ImpactSymbol, ImpactNeighbor, node_key_eq}
use orbit_graph.Impact.Bfs.{Search, Resolve, Place, Expand, key_of, visit, scan, loop}

module _ (cap max_depth : ℕ) (resolve : Resolve) (place : Place) where
  -- What a visit and the cut at the cap keep, the inner loop keeps.
  pub scan_rule {ℓ} :
      (P : Search → Type ℓ) (d : ℕ) (ns : List ImpactNeighbor)
      → ((s : Search) (n : ImpactNeighbor)
          → Memᴰ n ns
          → length s.touched < cap
          → P s
          → P (visit max_depth resolve place s d n))
      → ((s : Search) → P s → P (record s { truncated = true }))
      → (s : Search) → P s
      → P (scan cap max_depth resolve place s d ns)
  unfolding scan
  scan_rule P d [] visits cuts s p = p
  scan_rule P d (n ∷ ns) visits cuts s p =
      let later = scan_rule P d ns (λ u m among. visits u m (Memᴰ.tail among)) cuts in
      elim (Bool-cases (contains s.seen (key_of resolve n))) [
        | inl old ↦ rw (old, scan) (later s p)
        | inr new ↦ elim (Bool-cases (leb cap (length s.touched))) [
          | inl full ↦ rw (new, full, scan) (cuts s p)
          | inr room ↦
              rw (new, room, scan)
                (later (visit max_depth resolve place s d n)
                  (visits s n (Memᴰ.head refl) (ground arith) p))
        ]
      ]

module _ (cap max_depth : ℕ) (resolve : Resolve) (place : Place) (expand : Expand) where
  -- What one round comes to, by the head of the queue.
  module _ (fuel : ℕ) (s : Search) (x : ImpactSymbol) (d : ℕ) (rest : List (ImpactSymbol × ℕ))
      (e : s.queue ≡ (x, d) ∷ rest) where
    pub loop_deep :
        leb max_depth d ≡ true
        → loop cap max_depth resolve place expand (suc fuel) s
          ≡ loop cap max_depth resolve place expand fuel (record s { queue = rest })
    unfolding loop
    loop_deep deep = rw (e, deep, loop)

    pub loop_failed :
        {er : GraphError}
        → leb max_depth d ≡ false
        → expand x ≡ err er
        → loop cap max_depth resolve place expand (suc fuel) s ≡ some (err er)
    unfolding loop
    loop_failed near bad = rw (e, near, bad, loop)

    pub loop_scanned :
        (ns : List ImpactNeighbor)
        → leb max_depth d ≡ false
        → expand x ≡ ok ns
        → let u = scan cap max_depth resolve place (record s { queue = rest }) (suc d) ns in
          loop cap max_depth resolve place expand (suc fuel) s
          ≡ (if u.truncated then some (ok u) else loop cap max_depth resolve place expand fuel u)
    unfolding loop
    loop_scanned ns near good = rw (e, near, good, loop)

  abbrev pub Skips {ℓ} : (Search → Type ℓ) → Type ℓ
  Skips P =
      (s : Search) (x : ImpactSymbol) (d : ℕ) (rest : List (ImpactSymbol × ℕ))
      → s.queue ≡ (x, d) ∷ rest
      → max_depth ≤ d
      → P s
      → P (record s { queue = rest })

  abbrev pub Scans {ℓ} : (Search → Type ℓ) → Type ℓ
  Scans P =
      (s : Search) (x : ImpactSymbol) (d : ℕ) (rest : List (ImpactSymbol × ℕ))
      (ns : List ImpactNeighbor)
      → s.queue ≡ (x, d) ∷ rest
      → d < max_depth
      → expand x ≡ ok ns
      → P s
      → P (scan cap max_depth resolve place (record s { queue = rest }) (suc d) ns)

  ends {ℓ} :
      (P : Search → Type ℓ) (s t : Search)
      → P s
      → ◌≡◌ {A = Option (Result GraphError Search)} (some (ok s)) (some (ok t))
      → (s.queue ≡ []) ⊎ (s.truncated ≡ true)
      → P t × ((t.queue ≡ []) ⊎ (t.truncated ≡ true))
  ends P s t p h q =
      let same : s ≡ t = cc in
      (subst P same p, subst (λ u. (u.queue ≡ []) ⊎ (u.truncated ≡ true)) same q)

  pub loop_rule {ℓ} :
      (P : Search → Type ℓ)
      → Skips P
      → Scans P
      → (fuel : ℕ) (s t : Search) → P s
      → loop cap max_depth resolve place expand fuel s ≡ some (ok t)
      → P t × ((t.queue ≡ []) ⊎ (t.truncated ≡ true))
  unfolding loop
  loop_rule P skips scans zero s t p h = elim (List-cases s.queue) [
    | inl e ↦ ends P s t p (rw (e, loop) at h) (inl e)
    | inr (item, rest, e) ↦ absurd (cc (rw (e, loop) at h))
  ]
  loop_rule P skips scans (suc fuel) s t p h = elim (List-cases s.queue) [
    | inl e ↦ ends P s t p (rw (e, loop) at h) (inl e)
    | inr ((x, d), rest, e) ↦ elim (Bool-cases (leb max_depth d)) [
      | inl deep ↦
          loop_rule P skips scans fuel (record s { queue = rest }) t
            (skips s x d rest e (ground arith) p) (sym (loop_deep fuel s x d rest e deep) ∙ h)
      | inr near ↦ elim (Result-cases (expand x)) [
        | inr (er, bad) ↦ absurd (cc (loop_failed fuel s x d rest e near bad))
        | inl (ns, good) ↦
            let u = scan cap max_depth resolve place (record s { queue = rest }) (suc d) ns in
            let kept = scans s x d rest ns e (ground arith) good p in
            let run = sym (loop_scanned fuel s x d rest e ns near good) ∙ h in
            elim (Bool-cases u.truncated) [
              | inl cut ↦ ends P u t kept (rw cut at run) (inr cut)
              | inr whole ↦ loop_rule P skips scans fuel u t kept (rw whole at run)
            ]
      ]
    ]
  ]
