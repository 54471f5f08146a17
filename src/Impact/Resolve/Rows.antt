-- ===== src/Impact/Resolve/Rows.antt =====
-- The symbol queries of crates/orbit-graph/src/query/impact.rs and the rows they read.
use mathlib.Core.List.{Memᴰ}
use mathlib.Core.Option
use orbit_graph.Common.{
  Bool, ◌&&◌, Option, none, some, ◌≡◌, refl, sym, ap, ◌∙◌, inl, inr, ◌==◌, nat_eq, list_eq,
  bind-eq-some, find, Option-cases, is_empty, Bool-cases,
}
use orbit_graph.Common.Members.{mem-first, mem-filter, mem-find, mem-sort_by}
use orbit_graph.Common.Text.{Text, trim}
use orbit_graph.Selector.{Selector, dir, file, symbol, module_named, command}
use orbit_graph.Index.{Index, SymbolRow}
use orbit_graph.Impact.Types.{
  ImpactSymbol, ImpactNeighbor, ImpactOrigin, file_origin, symbol_origin,
}
use orbit_graph.Impact.Resolve.{
  impact_symbol_from_row, best_named, resolve_symbol_selector, resolve_selector,
  resolve_symbol_by_qualified, hinted, resolve_symbol_neighbor, resolve_neighbor_symbol,
}

-- `id INTEGER PRIMARY KEY`
abbrev pub HasPrimaryKey : Index → Type 0
HasPrimaryKey index =
    (a b : SymbolRow) → Memᴰ a index.symbols → Memᴰ b index.symbols → a.id ≡ b.id → a ≡ b

abbrev pub IsRow : Index → ImpactSymbol → Type 0
IsRow index x = (row : SymbolRow) × Memᴰ row index.symbols × (impact_symbol_from_row row ≡ x)

pub row_unique :
    (index : Index) (x y : ImpactSymbol)
    → HasPrimaryKey index
    → IsRow index x
    → IsRow index y
    → x.id ≡ y.id
    → x ≡ y
unfolding impact_symbol_from_row
row_unique index x y key (a, ma, ea) (b, mb, eb) ids =
    sym ea
    ∙ (ap impact_symbol_from_row
          (key a b ma mb (ap (λ z. z.id) ea ∙ (ids ∙ sym (ap (λ z. z.id) eb))))
        ∙ eb)

map-IsRow :
    (index : Index) (found : Option SymbolRow) (x : ImpactSymbol)
    → ((row : SymbolRow) → found ≡ some row → Memᴰ row index.symbols)
    → Option.map impact_symbol_from_row found ≡ some x
    → IsRow index x
map-IsRow index none x m h = absurd (cc)
map-IsRow index (some row) x m h = (row, m row refl, cc)

best_named-IsRow :
    (index : Index) (wanted : Text) (matching : SymbolRow → Bool) (x : ImpactSymbol)
    → best_named index wanted matching ≡ some x
    → IsRow index x
unfolding best_named
best_named-IsRow index wanted matching x h =
    map-IsRow index _ x
      (λ row e. mem-filter _ index.symbols row (mem-sort_by _ _ row (mem-first _ row e))) h

pub resolve_selector-IsRow :
    (index : Index) (s : Selector) (x : ImpactSymbol)
    → resolve_selector index s ≡ some x
    → IsRow index x
unfolding resolve_selector
resolve_selector-IsRow index (symbol p s k) x h = elim (Bool-cases (is_empty (trim k))) [
  | inl e ↦ best_named-IsRow index s _ x (rw (e, resolve_symbol_selector) at h)
  | inr e ↦ best_named-IsRow index s _ x (rw (e, resolve_symbol_selector) at h)
]
resolve_selector-IsRow index (module_named q) x h = best_named-IsRow index q _ x h
resolve_selector-IsRow index (command n) x h =
    let (c, _, after) = bind-eq-some (find (λ c. c.name == n) index.commands) _ h in
    let (handler, _, found) = bind-eq-some c.handler_symbol _ after in
    map-IsRow index (find (λ s. s.id == handler) index.symbols) x
      (λ row e. (mem-find _ index.symbols row e).0) found
resolve_selector-IsRow index (file p) x h = absurd (cc)
resolve_selector-IsRow index (dir p) x h = absurd (cc)

hinted-IsRow :
    (index : Index) (n : ImpactNeighbor) (x : ImpactSymbol)
    → hinted index n ≡ some x
    → IsRow index x
unfolding hinted
hinted-IsRow index n x h =
    let (id, _, found) = bind-eq-some n.symbol_id _ h in
    map-IsRow index (find (λ s. s.id == id && s.qualified == n.qualified_name) index.symbols) x
      (λ row e. (mem-find _ index.symbols row e).0) found

by_qualified-IsRow :
    (index : Index) (qualified : Text) (x : ImpactSymbol)
    → resolve_symbol_by_qualified index qualified ≡ some x
    → IsRow index x
unfolding resolve_symbol_by_qualified
by_qualified-IsRow index qualified x h =
    map-IsRow index _ x
      (λ row e. mem-filter _ index.symbols row (mem-sort_by _ _ row (mem-first _ row e))) h

symbol_neighbor-IsRow :
    (index : Index) (n : ImpactNeighbor) (x : ImpactSymbol)
    → resolve_symbol_neighbor index n ≡ some x
    → IsRow index x
unfolding resolve_symbol_neighbor
symbol_neighbor-IsRow index n x h = elim (Option-cases (hinted index n)) [
  | inl e ↦ by_qualified-IsRow index n.qualified_name x (rw (e, resolve_symbol_neighbor) at h)
  | inr (y, e) ↦ hinted-IsRow index n x (e ∙ (rw (e, resolve_symbol_neighbor) at h))
]

pub resolve_neighbor_symbol-IsRow :
    (index : Index) (n : ImpactNeighbor) (x : ImpactSymbol)
    → resolve_neighbor_symbol index n ≡ some x
    → IsRow index x
unfolding resolve_neighbor_symbol
resolve_neighbor_symbol-IsRow index n x h =
    symbol_neighbor-IsRow index n x (by_origin n.origin (resolve_symbol_neighbor index n) h)
  where
    by_origin :
        (o : ImpactOrigin) (found : Option ImpactSymbol)
        → (elim o as (λ _. Option ImpactSymbol) [ file_origin ↦ none | symbol_origin ↦ found ])
          ≡ some x
        → found ≡ some x
    by_origin file_origin found h = absurd (cc)
    by_origin symbol_origin found h = h
