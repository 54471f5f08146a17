-- ===== src/Impact/Bfs/Sound.antt =====
-- Where the nodes that `traverse` (query/impact.rs) queues and lists come from.
use mathlib.Core.List.{Memᴰ}
use orbit_graph.Common.{
  ℕ, zero, suc, List, [], ◌∷◌, Option, none, some, ok, ◌≡◌, refl, inl, inr, Bool-cases, ltb, All,
  All-append, subst,
}
use orbit_graph.Impact.Types.{ImpactSymbol, ImpactNeighbor, ImpactEntry}
use orbit_graph.Impact.Bfs.{Search, Resolve, Place, Expand, push, visit, start, search, entry_of}
use orbit_graph.Impact.Bfs.Rule.{loop_rule, scan_rule}

-- `Reaches resolve expand origin d x`: d steps lead from the origin to x.
pub data Reaches (resolve : Resolve) (expand : Expand) (origin : ImpactSymbol)
    : ℕ → ImpactSymbol → Type 0 where
  here : Reaches resolve expand origin zero origin
  step :
      {d : ℕ} {x y : ImpactSymbol} (ns : List ImpactNeighbor) (n : ImpactNeighbor)
      → Reaches resolve expand origin d x
      → expand x ≡ ok ns
      → Memᴰ n ns
      → resolve n ≡ some y
      → Reaches resolve expand origin (suc d) y

-- An entry that stands for a neighbour of a symbol which d steps reach, at the distance d + 1.
pub record Touches (resolve : Resolve) (place : Place) (expand : Expand) (origin : ImpactSymbol)
    (e : ImpactEntry) : Type 0 where
  pub steps : ℕ
  pub source : ImpactSymbol
  pub ns : List ImpactNeighbor
  pub neighbor : ImpactNeighbor
  pub reached : Reaches resolve expand origin steps source
  pub expanded : expand source ≡ ok ns
  pub among : Memᴰ neighbor ns
  pub listed : e ≡ entry_of resolve place neighbor (suc steps)

module _ (cap max_depth : ℕ) (resolve : Resolve) (place : Place) (expand : Expand)
    (origin : ImpactSymbol) where
  abbrev Queued : ImpactSymbol × ℕ → Type 0
  Queued item = Reaches resolve expand origin item.1 item.0

  record IsSound (s : Search) : Type 0 where
    queued : All Queued s.queue
    listed : All (Touches resolve place expand origin) s.touched

  All-push :
      (d : ℕ) (queue : List (ImpactSymbol × ℕ)) (resolved : Option ImpactSymbol)
      → ((y : ImpactSymbol) → resolved ≡ some y → Reaches resolve expand origin d y)
      → All Queued queue
      → All Queued (push max_depth queue d resolved)
  unfolding push
  All-push d queue none r h = h
  All-push d queue (some y) r h = elim (Bool-cases (ltb d max_depth)) [
    | inl room ↦ rw room (All-append Queued queue ((y, d) ∷ []) h (r y refl, tt))
    | inr full ↦ rw full h
  ]

  visit-IsSound :
      (x : ImpactSymbol) (d : ℕ) (ns : List ImpactNeighbor)
      → Reaches resolve expand origin d x
      → expand x ≡ ok ns
      → (s : Search) (n : ImpactNeighbor) → Memᴰ n ns
      → IsSound s
      → IsSound (visit max_depth resolve place s (suc d) n)
  unfolding visit
  visit-IsSound x d ns r e s n among h = record {
    queued = All-push (suc d) s.queue (resolve n) (λ y found. step ns n r e among found) h.queued;
    listed = All-append (Touches resolve place expand origin) s.touched _ h.listed (
      record {
        steps = d;
        source = x;
        ns = ns;
        neighbor = n;
        reached = r;
        expanded = e;
        among = among;
        listed = refl;
      },
      tt,
    );
  }

  pub search-Touches :
      (t : Search)
      → search cap max_depth resolve place expand origin ≡ some (ok t)
      → All (Touches resolve place expand origin) t.touched
  unfolding search
  search-Touches t h =
      let (sound, _) =
        loop_rule cap max_depth resolve place expand IsSound
          (λ s x d rest e deep p. record {
            queued = (subst (All Queued) e p.queued).1;
            listed = p.listed;
          })
          (λ s x d rest ns e near good p.
            let queued : Queued (x, d) × All Queued rest = subst (All Queued) e p.queued in
            scan_rule cap max_depth resolve place IsSound (suc d) ns
              (λ u n among room. visit-IsSound x d ns queued.0 good u n among)
              (λ u q. record { queued = q.queued; listed = q.listed }) (record s { queue = rest })
              (record { queued = queued.1; listed = p.listed }))
          (suc cap) (start origin) t (record { queued = (here, tt); listed = tt }) h in
      sound.listed
