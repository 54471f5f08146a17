-- ===== src/Impact/Bfs/Complete.antt =====
-- The invariant of a search, `traverse` of crates/orbit-graph/src/query/impact.rs, for what it covers.
pub mod Round
pub mod Covers
use mathlib.Core.List.{Memᴰ}
use mathlib.Core.List.Memᴰ
use orbit_graph.Common.{
  ℕ, zero, suc, ◌≤◌, ◌<◌, Bool, true, false, List, [], ◌∷◌, ◌++◌, Option, none, some, Result, ok,
  ◌≡◌, refl, sym, ap, ◌∙◌, ◌⊎◌, inl, inr, Bool-cases, Option-cases, arith, ltb, lt→ltb, contains,
  subst, eq_iff, eq_refl, ◌==◌, ◌||◌, leb, length,
}
use orbit_graph.Index.Values.{GraphError}
use orbit_graph.Impact.Types.{
  ImpactSymbol, ImpactNeighbor, ImpactEntry, NodeKey, symbol_key, node_key_eq, file_origin,
  symbol_origin,
}
use orbit_graph.Impact.Bfs.{
  Search, Resolve, Place, Expand, key_of, node_key, push, visit, scan, start, search, entry_of,
}
use orbit_graph.Impact.Bfs.Rule.{loop_rule, scan_rule}
use orbit_graph.Impact.Bfs.Levels.{IsLevel, scan-IsLevel, pop-IsLevel}
use orbit_graph.Impact.Bfs.Sound.{Reaches, here, step}

-- The symbols that a search can meet have one row to an id.
abbrev pub HasUniqueIds : Resolve → ImpactSymbol → Type 0
HasUniqueIds resolve origin =
    (n m : ImpactNeighbor) (x y : ImpactSymbol)
    → resolve n ≡ some x
    → (resolve m ≡ some y) ⊎ (y ≡ origin)
    → x.id ≡ y.id
    → x ≡ y

-- The node with this key is the origin, or is listed at a distance of at most `far`.
abbrev pub IsListed : Resolve → Place → ImpactSymbol → List ImpactEntry → NodeKey → ℕ → Type 0
IsListed resolve place origin touched key far =
    (key ≡ symbol_key origin.id)
    ⊎ ((n : ImpactNeighbor) × (d : ℕ) × Memᴰ (entry_of resolve place n d) touched
        × (key_of resolve n ≡ key)
        × (d ≤ far))

-- The symbol was expanded, or still waits, at a distance of at most `far`.
abbrev pub IsPlanned : List (ImpactSymbol × ℕ) → List (ImpactSymbol × ℕ) → ImpactSymbol → ℕ → Type 0
IsPlanned popped queue x far = (d : ℕ) × (d ≤ far) × (Memᴰ (x, d) popped ⊎ Memᴰ (x, d) queue)

module _ (resolve : Resolve) (place : Place) (origin : ImpactSymbol) where
  pub IsListed-mono :
      {es fs : List ImpactEntry} {low high : ℕ} (key : NodeKey)
      → ((e : ImpactEntry) → Memᴰ e es → Memᴰ e fs)
      → low ≤ high
      → IsListed resolve place origin es key low
      → IsListed resolve place origin fs key high
  IsListed-mono key sub le (inl e) = inl e
  IsListed-mono key sub le (inr (n, d, m, k, far)) = inr (n, d, sub _ m, k, omega arith)

pub IsPlanned-mono :
    {ps qs queue more : List (ImpactSymbol × ℕ)} {low high : ℕ} (x : ImpactSymbol)
    → ((i : ImpactSymbol × ℕ) → Memᴰ i ps → Memᴰ i qs)
    → ((i : ImpactSymbol × ℕ) → Memᴰ i queue → Memᴰ i qs ⊎ Memᴰ i more)
    → low ≤ high
    → IsPlanned ps queue x low
    → IsPlanned qs more x high
IsPlanned-mono x f g le (d, far, inl m) = (d, omega arith, inl (f _ m))
IsPlanned-mono x f g le (d, far, inr m) = (d, omega arith, g _ m)

module _ (cap max_depth : ℕ) (resolve : Resolve) (place : Place) (expand : Expand)
    (origin : ImpactSymbol) where
  -- What is known between rounds at the level `low`: `popped` left the queue, and the neighbours of
  -- those in `done` are all seen.
  pub record IsFull (low : ℕ) (popped done : List (ImpactSymbol × ℕ)) (s : Search) : Type 0 where
    pub found :
        (key : NodeKey)
        → contains s.seen key ≡ true
        → IsListed resolve place origin s.touched key (suc low)
    pub planned :
        (n : ImpactNeighbor) (y : ImpactSymbol)
        → resolve n ≡ some y
        → contains s.seen (symbol_key y.id) ≡ true
        → suc low < max_depth
        → IsPlanned popped s.queue y (suc low)
    pub root : IsPlanned popped s.queue origin 0
    pub covered :
        (x : ImpactSymbol) (d : ℕ)
        → Memᴰ (x, d) done
        → d < max_depth
        → (ns : List ImpactNeighbor) (n : ImpactNeighbor) → expand x ≡ ok ns
        → Memᴰ n ns
        → IsListed resolve place origin s.touched (key_of resolve n) (suc d)
          × ((y : ImpactSymbol)
              → resolve n ≡ some y
              → suc d < max_depth
              → IsPlanned popped s.queue y (suc d))

  -- Where only the queue and the list grow, what is known stays known.
  pub grow-IsFull :
      (low high : ℕ) (popped more done : List (ImpactSymbol × ℕ)) (s t : Search)
      → low ≤ high
      → ((i : ImpactSymbol × ℕ) → Memᴰ i popped → Memᴰ i more)
      → ((i : ImpactSymbol × ℕ) → Memᴰ i s.queue → Memᴰ i more ⊎ Memᴰ i t.queue)
      → ((e : ImpactEntry) → Memᴰ e s.touched → Memᴰ e t.touched)
      → ((key : NodeKey)
          → contains t.seen key ≡ true
          → IsListed resolve place origin t.touched key (suc high) ⊎ (contains s.seen key ≡ true))
      → ((n : ImpactNeighbor) (y : ImpactSymbol)
          → resolve n ≡ some y
          → contains t.seen (symbol_key y.id) ≡ true
          → suc high < max_depth
          → IsPlanned more t.queue y (suc high) ⊎ (contains s.seen (symbol_key y.id) ≡ true))
      → IsFull low popped done s
      → IsFull high more done t
  grow-IsFull low high popped more done s t le f g sub new fresh h = record {
    found = λ key c. elim (new key c) [
      | inl l ↦ l
      | inr old ↦ IsListed-mono resolve place origin key sub (omega arith) (h.found key old)
    ];
    planned = λ n y e c room. elim (fresh n y e c room) [
      | inl p ↦ p
      | inr old ↦ IsPlanned-mono y f g (omega arith) (h.planned n y e old (omega arith))
    ];
    root = IsPlanned-mono origin f g (omega arith) h.root;
    covered = λ x d m room ns n e among.
        let (listed, next) = h.covered x d m room ns n e among in
        (
          IsListed-mono resolve place origin (key_of resolve n) sub (omega arith) listed,
          λ y found deeper. IsPlanned-mono y f g (omega arith) (next y found deeper),
        );
  }
