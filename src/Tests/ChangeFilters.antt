-- ===== src/Tests/ChangeFilters.antt =====
-- Runs of crates/orbit-graph-changes/src/filters.rs.
use orbit_graph.Common.{false, List, [], ◌∷◌, none, some, ◌≡◌, refl, All}
use orbit_graph.Common.Text.{codes}
use orbit_graph.Changes.Filters.{
  confidence, language, filtered_example_cap, record_example, record_count, into_filtered_out,
  split_terms, language_of, scope_admits,
}
use orbit_graph.Changes.Filters.Log.{
  Event, one, several, replay, count_of, examples_of, total, reported, take, replay_lem,
}
use orbit_graph.Changes.Filters.Terms.{IsTerm, split_terms-IsTerm}

abbrev events : List Event
events = one language (codes "a") ∷ several confidence 3 ∷ one language (codes "b") ∷ []

both_reasons :
    into_filtered_out (
      record_example
        (record_count (record_example [] language (codes "a")) confidence 3)
        language
        (codes "b"))
    ≡ record { reason = codes "confidence"; count = 3; examples = [] }
      ∷ record { reason = codes "language"; count = 2; examples = codes "a" ∷ codes "b" ∷ [] }
      ∷ []
unfolding into_filtered_out record_example record_count
both_reasons = refl

replay_lem_example :
    (count_of language (replay [] events) ≡ total language events)
    × (examples_of language (replay [] events)
        ≡ take filtered_example_cap (reported language events))
replay_lem_example = replay_lem language events

two_terms : split_terms (codes "added, removed,") ≡ codes "added" ∷ codes "removed" ∷ []
unfolding split_terms
two_terms = refl

split_terms-IsTerm_example : All IsTerm (split_terms (codes "added, removed,"))
split_terms-IsTerm_example = split_terms-IsTerm (codes "added, removed,")

script : language_of (codes "tests/app.test.TS") ≡ some (codes "typescript")
unfolding language_of
script = refl

whole_segments :
    scope_admits
      (record { language = none; change_kind = []; scope = some (codes "./src/") })
      (codes "srcs/lib.rs")
    ≡ false
unfolding scope_admits
whole_segments = refl
