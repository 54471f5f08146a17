-- ===== src/Impact/Bfs/Complete/Covers.antt =====
-- The invariant of `Complete` at the end of the loop of `traverse` (query/impact.rs).
use mathlib.Core.List.{Memᴰ}
use mathlib.Core.List.Memᴰ
use mathlib.Core.Logic.{⊎_elim}
use orbit_graph.Common.{
  ℕ, suc, ◌≤◌, ◌<◌, false, List, [], ◌∷◌, some, ok, ◌≡◌, ◌⊎◌, inl, inr, arith, subst,
}
use orbit_graph.Impact.Types.{ImpactSymbol, ImpactNeighbor, node_key_eq}
use orbit_graph.Impact.Bfs.{Search, Resolve, Place, Expand, key_of, start, search}
use orbit_graph.Impact.Bfs.Rule.{loop_rule}
use orbit_graph.Impact.Bfs.Levels.{Grows, levels, IsLevel, scan-IsLevel, pop-IsLevel}
use orbit_graph.Impact.Bfs.Sound.{Reaches, here, step}
use orbit_graph.Impact.Bfs.Complete.{HasUniqueIds, IsListed, IsFull, IsListed-mono}
use orbit_graph.Impact.Bfs.Complete.Round.{start-IsFull, pop-IsFull, round-IsFull, deep-IsFull}

not_waiting :
    {popped queue : List (ImpactSymbol × ℕ)} {i : ImpactSymbol × ℕ}
    → queue ≡ []
    → Memᴰ i popped ⊎ Memᴰ i queue
    → Memᴰ i popped
not_waiting empty (inl m) = m
not_waiting {i = item} empty (inr m) = absurd (Memᴰ.not-nil (subst (Memᴰ item) empty m))

module _ (cap max_depth : ℕ) (resolve : Resolve) (place : Place) (expand : Expand)
    (origin : ImpactSymbol) (unique : HasUniqueIds resolve origin) where
  abbrev Known : Search → Type 0
  Known s =
      (low : ℕ) × (popped : List (ImpactSymbol × ℕ)) × IsLevel cap max_depth resolve place expand
        low s
      × (s.truncated ≡ false → IsFull cap max_depth resolve place expand origin low popped popped s)

  -- a chain shorter than the depth ends in a symbol that left the queue no later
  popped_in_time :
      (low : ℕ) (popped : List (ImpactSymbol × ℕ)) (t : Search)
      → IsFull cap max_depth resolve place expand origin low popped popped t
      → t.queue ≡ []
      → {d : ℕ} {x : ImpactSymbol} → Reaches resolve expand origin d x
      → d < max_depth
      → (e : ℕ) × (e ≤ d) × Memᴰ (x, e) popped
  popped_in_time low popped t full empty here room =
      let (e, le, planned) = full.root in (e, le, not_waiting empty planned)
  popped_in_time low popped t full empty (step ns n h e among found) room =
      let (k, le, m) = popped_in_time low popped t full empty h (omega arith) in
      let (far, le', planned) =
        (full.covered _ k m (omega arith) ns n e among).1 _ found (omega arith) in
      (far, omega arith, not_waiting empty planned)

  level_le :
      (low : ℕ) (s : Search) (x : ImpactSymbol) (d : ℕ) (rest : List (ImpactSymbol × ℕ))
      → s.queue ≡ (x, d) ∷ rest
      → IsLevel cap max_depth resolve place expand low s
      → low ≤ d
  level_le low s x d rest e h = (subst (λ q. Grows low (levels q)) e h.queued).0

  pub search_complete :
      (t : Search)
      → search cap max_depth resolve place expand origin ≡ some (ok t)
      → t.truncated ≡ false
      → (d : ℕ) (x : ImpactSymbol) (ns : List ImpactNeighbor) (n : ImpactNeighbor)
      → Reaches resolve expand origin d x
      → d < max_depth
      → expand x ≡ ok ns
      → Memᴰ n ns
      → IsListed resolve place origin t.touched (key_of resolve n) (suc d)
  unfolding search
  search_complete t h whole d x ns n r room e among =
      let ((low, popped, level, full), ends) =
        loop_rule cap max_depth resolve place expand Known
          (λ s y k rest q deep (l, ps, lv, f). (
            k,
            (y, k) ∷ ps,
            pop-IsLevel cap max_depth resolve place expand l s y k rest q lv,
            λ uncut.
                deep-IsFull cap max_depth resolve place expand origin unique ps
                  (record s { queue = rest }) y k deep
                  (pop-IsFull cap max_depth resolve place expand origin unique l ps s y k rest q
                    (level_le l s y k rest q lv) (f uncut)),
          ))
          (λ s y k rest ms q near good (l, ps, lv, f). (
            k,
            (y, k) ∷ ps,
            scan-IsLevel cap max_depth resolve place expand k (record s { queue = rest }) ms near
                (pop-IsLevel cap max_depth resolve place expand l s y k rest q lv),
            round-IsFull cap max_depth resolve place expand origin unique ps
                (record s { queue = rest }) y k ms good
                (λ uncut.
                  pop-IsFull cap max_depth resolve place expand origin unique l ps s y k rest q
                    (level_le l s y k rest q lv) (f uncut)),
          ))
          (suc cap) (start origin) t
          (
            0,
            [],
            omega arith,
            λ uncut. start-IsFull cap max_depth resolve place expand origin unique,
          )
          h in
      let final = full whole in
      let empty : t.queue ≡ [] = ⊎_elim (λ q. q) (λ cut. absurd (cc)) ends in
      let (k, le, m) = popped_in_time low popped t final empty r room in
      IsListed-mono resolve place origin (key_of resolve n) (λ _ l. l) (omega arith)
        (final.covered x k m (omega arith) ns n e among).0
