-- ===== src/Resolution/Candidates/Defined.antt =====
-- The rows behind the candidates of crates/orbit-graph/src/sync/pass2.rs.
use mathlib.Core.List.{Memᴰ}
use orbit_graph.Common.{
  ℕ, Bool, true, false, not, ◌&&◌, Option, some, ◌≡◌, refl, sym, ap, subst, inl, inr, ◌==◌, eq_iff,
  nat_eq, list_eq, Option-cases, All, All-imp, All-map, All-collect, All-filter_passes, filter,
  and_split, not-true,
}
use orbit_graph.Common.Text.{Text, codes}
use orbit_graph.Common.Members.{mem-filter, mem-sort_by, All-of_mem, All-mem}
use orbit_graph.Index.{Index, SymbolRow}
use orbit_graph.Resolution.Raw.{SymbolCandidate, NamedCandidate}
use orbit_graph.Resolution.Candidates.{
  symbol_candidate_from_row, by_qualified, symbols_in_file_by_name, named, named_in,
  symbols_by_name, file_language,
}

-- A candidate that is read from a row, which is no impl block.
pub record IsDefined (index : Index) (c : SymbolCandidate) : Type 0 where
  pub row : SymbolRow
  pub among : Memᴰ row index.symbols
  pub not_impl : (row.kind == codes "impl") ≡ false
  pub read : symbol_candidate_from_row row ≡ c

-- A defined candidate with this name.
abbrev pub IsNamed : Index → Text → SymbolCandidate → Type 0
IsNamed index name c = IsDefined index c × (c.name ≡ name)

symbol_rows :
    (index : Index) (p : SymbolRow → Bool)
    → All (λ s. Memᴰ s index.symbols × (p s ≡ true)) (by_qualified (filter p index.symbols))
unfolding by_qualified
symbol_rows index p = All-of_mem _ (by_qualified (filter p index.symbols)) (λ s m.
    let kept = mem-sort_by _ (filter p index.symbols) s m in
    (
      mem-filter p index.symbols s kept,
      All-mem (λ s. p s ≡ true) (filter p index.symbols) s (All-filter_passes p index.symbols) kept,
    ))

-- a row with this name that is no impl block
abbrev has_name : Text → SymbolRow → Bool
has_name name s = s.name == name && not (s.kind == codes "impl")

IsNamed-row :
    (index : Index) (name : Text) (s : SymbolRow)
    → Memᴰ s index.symbols
    → has_name name s ≡ true
    → IsNamed index name (symbol_candidate_from_row s)
unfolding symbol_candidate_from_row
IsNamed-row index name s m h =
    let (same, kind) = and_split (s.name == name) (not (s.kind == codes "impl")) h in
    (
      record { row = s; among = m; not_impl = not-true (s.kind == codes "impl") kind; read = refl },
      (eq_iff s.name name).0 same,
    )

module _ (is_alphanumeric : ℕ → Bool) (index : Index) where
  pub symbols_in_file_by_name-IsNamed :
      (from_file name : Text)
      → All (IsNamed index name) (symbols_in_file_by_name index from_file name)
  unfolding symbols_in_file_by_name
  symbols_in_file_by_name-IsNamed from_file name =
      let p = λ (s : SymbolRow).
        s.file_path == from_file && s.name == name && not (s.kind == codes "impl") in
      All-map (IsNamed index name) symbol_candidate_from_row (by_qualified (filter p index.symbols))
        (All-imp
          (λ s h.
            let (front, kind) =
              and_split (s.file_path == from_file && s.name == name) (not (s.kind == codes "impl"))
                h.1 in
            let (_, same) = and_split (s.file_path == from_file) (s.name == name) front in
            IsNamed-row index name s h.0 (rw (same, kind) refl))
          (by_qualified (filter p index.symbols)) (symbol_rows index p))

  named_in-symbol :
      (s : SymbolRow) (c : NamedCandidate)
      → named_in is_alphanumeric index s ≡ some c
      → c.symbol ≡ symbol_candidate_from_row s
  unfolding named_in named
  named_in-symbol s c h = elim (Option-cases (file_language index s.file_path)) [
    | inl e ↦ absurd (cc (rw (e, named_in) at h))
    | inr (language, e) ↦
        let same : ◌≡◌ {A = Option NamedCandidate}
            (some (named is_alphanumeric (symbol_candidate_from_row s) language)) (some c) =
          rw (e, named_in) at h in
        let inner : named is_alphanumeric (symbol_candidate_from_row s) language ≡ c = cc in
        sym (ap (λ (n : NamedCandidate). n.symbol) inner)
  ]

  pub symbols_by_name-IsNamed :
      (name : Text)
      → All (λ c. IsNamed index name c.symbol) (symbols_by_name is_alphanumeric index name)
  unfolding symbols_by_name
  symbols_by_name-IsNamed name =
      All-collect (λ c. IsNamed index name c.symbol)
        (λ s. Memᴰ s index.symbols × (has_name name s ≡ true)) (named_in is_alphanumeric index)
        (by_qualified (filter (has_name name) index.symbols))
        (λ s c h e.
          subst (IsNamed index name) (sym (named_in-symbol s c e))
            (IsNamed-row index name s h.0 h.1))
        (symbol_rows index (has_name name))
