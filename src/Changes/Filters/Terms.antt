-- ===== src/Changes/Filters/Terms.antt =====
-- `split_terms` of crates/orbit-graph-changes/src/filters.rs.
use orbit_graph.Common.{
  true, false, not, List, [], ◌∷◌, ◌≡◌, ◌≢◌, All, All-map, All-imp, All-filter, All-filter_passes,
  filter, map, is_empty, not-true,
}
use orbit_graph.Common.Text.{Text, trim, split}
use orbit_graph.Common.Text.Trim.{All-trim, trim-trim}
use orbit_graph.Common.Text.Split.{Lacks, split-Lacks}
use orbit_graph.Changes.Filters.{split_terms}

-- Not empty, trimmed, and without a comma.
pub record IsTerm (t : Text) : Type 0 where
  pub full : is_empty t ≡ false
  pub trimmed : trim t ≡ t
  pub single : Lacks b',' t

-- Each term that `split_terms` returns is not empty, neither begins nor ends in white space, and
-- holds no comma.
pub split_terms-IsTerm : (raw : Text) → All IsTerm (split_terms raw)
unfolding split_terms
split_terms-IsTerm raw =
    let parts = map trim (split b',' raw) in
    let clean : All (λ t. (trim t ≡ t) × Lacks b',' t) parts =
      All-map (λ t. (trim t ≡ t) × Lacks b',' t) trim (split b',' raw)
        (All-imp (λ s lacks. (trim-trim s, All-trim (λ c. c ≢ b',') s lacks)) (split b',' raw)
          (split-Lacks b',' raw)) in
    together (filter (λ t. not (is_empty t)) parts)
      (All-filter (λ t. (trim t ≡ t) × Lacks b',' t) _ parts clean)
      (All-filter_passes (λ t. not (is_empty t)) parts)
  where
    together :
        (ts : List Text)
        → All (λ t. (trim t ≡ t) × Lacks b',' t) ts
        → All (λ t. not (is_empty t) ≡ true) ts
        → All IsTerm ts
    together [] f g = tt
    together (t ∷ ts) f g = (
      record { full = not-true (is_empty t) g.0; trimmed = f.0.0; single = f.0.1 },
      together ts f.1 g.1,
    )
