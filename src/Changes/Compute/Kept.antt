-- ===== src/Changes/Compute/Kept.antt =====
-- `ChangedSymbols::filtered` of crates/orbit-graph-changes/src/changes.rs: what is kept, and how much
-- the log counts of the rest.
use Prim.Native.Nat.{Ordering}
use orbit_graph.Common.{
  ℕ, suc, ◌+◌, Bool, true, false, not, ◌&&◌, List, [], ◌∷◌, none, map, nat_eq, list_eq,
  if◌then◌else◌, filter, any, length, is_empty, ◌≡◌, refl, sym, ap, ◌∙◌, arith, inl, inr,
  Bool-cases, Option-cases,
}
use orbit_graph.Common.Text.{Text, is_some}
use orbit_graph.Common.Sort.{sort_by, insert_sorted}
use orbit_graph.Changes.Types.{ChangedSymbol, ChangedSymbols, primary_selector}
use orbit_graph.Changes.Filters.{
  FilterReason, Entry, FilterLog, FilteredOut, FilterSet, record_example, change_entry,
  with_example, into_filtered_out, language_admits, scope_admits, change_kind_admits,
}
use orbit_graph.Changes.Compute.{filtered, filter_changes, filtered_by, filters_are_empty, paths_of}

abbrev sum : List ℕ → ℕ
sum [] = 0
sum (n ∷ ns) = n + sum ns

abbrev entry_counts : FilterLog → List ℕ
entry_counts = map (λ (e : Entry). e.count)

-- what a response says in all to have left out
abbrev pub left_out : List FilteredOut → ℕ
left_out [] = 0
left_out (f ∷ fs) = f.count + left_out fs

sum-change_entry :
    (q : FilterReason) (change : Entry → Entry) (fresh : Entry)
    → ((e : Entry) → (change e).count ≡ suc e.count)
    → fresh.count ≡ 1
    → (log : FilterLog)
    → sum (entry_counts (change_entry q change fresh log)) ≡ suc (sum (entry_counts log))
unfolding change_entry
sum-change_entry q change fresh h f [] = ground arith
sum-change_entry q change fresh h f (e ∷ log) =
    ground (arith, h e, sum-change_entry q change fresh h f log)

sum-record_example :
    (log : FilterLog) (q : FilterReason) (x : Text)
    → sum (entry_counts (record_example log q x)) ≡ suc (sum (entry_counts log))
unfolding record_example with_example
sum-record_example log q x = sum-change_entry q _ _ (λ e. refl) refl log

sum-insert_sorted :
    (cmp : Entry → Entry → Ordering) (e : Entry) (log : FilterLog)
    → sum (entry_counts (insert_sorted cmp e log)) ≡ e.count + sum (entry_counts log)
unfolding insert_sorted
sum-insert_sorted cmp e [] = refl
sum-insert_sorted cmp e (d ∷ log) = ground (arith, sum-insert_sorted cmp e log)

sum-sort_by :
    (cmp : Entry → Entry → Ordering) (log : FilterLog)
    → sum (entry_counts (sort_by cmp log)) ≡ sum (entry_counts log)
unfolding sort_by
sum-sort_by cmp [] = refl
sum-sort_by cmp (e ∷ log) =
    omega (arith, sum-insert_sorted cmp e (sort_by cmp log), sum-sort_by cmp log)

left_out-map :
    (f : Entry → FilteredOut)
    → ((e : Entry) → (f e).count ≡ e.count)
    → (log : FilterLog) → left_out (map f log) ≡ sum (entry_counts log)
left_out-map f h [] = refl
left_out-map f h (e ∷ log) = omega (arith, h e, left_out-map f h log)

left_out-into_filtered_out :
    (log : FilterLog) → left_out (into_filtered_out log) ≡ sum (entry_counts log)
unfolding into_filtered_out
left_out-into_filtered_out log = left_out-map _ (λ e. refl) (sort_by _ log) ∙ sum-sort_by _ log

-- whether no filter takes a change out
pub admits : FilterSet → ChangedSymbol → Bool
admits filters change = not (is_some (filtered_by filters change))

filter_changes-kept :
    (filters : FilterSet) (changes : List ChangedSymbol) (log : FilterLog)
    → (filter_changes filters changes log).0 ≡ filter (admits filters) changes
unfolding filter_changes admits
filter_changes-kept filters [] log = refl
filter_changes-kept filters (x ∷ xs) log = elim (Option-cases (filtered_by filters x)) [
  | inl e ↦ rw (e, filter_changes, is_some) (ap (x ∷◌) (filter_changes-kept filters xs log))
  | inr (q, e) ↦ rw (e, filter_changes, is_some) (filter_changes-kept filters xs _)
]

filter_changes-counts :
    (filters : FilterSet) (changes : List ChangedSymbol) (log : FilterLog)
    → length (filter_changes filters changes log).0
        + sum (entry_counts (filter_changes filters changes log).1)
      ≡ length changes + sum (entry_counts log)
unfolding filter_changes
filter_changes-counts filters [] log = refl
filter_changes-counts filters (x ∷ xs) log = elim (Option-cases (filtered_by filters x)) [
  | inl e ↦ rw (e, filter_changes) (omega (arith, filter_changes-counts filters xs log))
  | inr (q, e) ↦
      rw (e, filter_changes)
        (omega (
          arith,
          filter_changes-counts filters xs (record_example log q (primary_selector x)),
          sum-record_example log q (primary_selector x),
        ))
]

none_refused :
    (p : Text → Bool) (paths : List Text)
    → ((path : Text) → p path ≡ true)
    → (not (is_empty paths) && not (any p paths)) ≡ false
none_refused p [] h = refl
none_refused p (path ∷ paths) h = ground (arith, h path)

no_filters :
    (filters : FilterSet)
    → filters_are_empty filters ≡ true
    → (filters.language ≡ none) × (is_empty filters.change_kind ≡ true) × (filters.scope ≡ none)
unfolding filters_are_empty
no_filters filters h = ground arith

empty-admits :
    (filters : FilterSet) (change : ChangedSymbol)
    → filters_are_empty filters ≡ true
    → admits filters change ≡ true
unfolding admits filtered_by language_admits scope_admits change_kind_admits
empty-admits filters change h =
    let (no_language, no_kinds, no_scope) = no_filters filters h in
    let paths = paths_of change in
    ground (
      arith,
      no_kinds,
      none_refused (language_admits filters) paths (λ path. rw (no_language, language_admits) refl),
      none_refused (scope_admits filters) paths (λ path. rw (no_scope, scope_admits) refl),
    )

filter-all : {A : Type 0} (p : A → Bool) (xs : List A) → ((x : A) → p x ≡ true) → filter p xs ≡ xs
filter-all p [] h = refl
filter-all p (x ∷ xs) h = rw (h x, filter) (ap (x ∷◌) (filter-all p xs h))

-- `filtered` keeps the entries that no filter takes out, in their order; the kept entries and
-- those that its response counts as left out are all the entries; and the entries out of scope
-- stay as they are.
pub filtered_lem :
    (changed : ChangedSymbols) (filters : FilterSet)
    → ((filtered changed filters).0.symbols ≡ filter (admits filters) changed.symbols)
      × (length (filtered changed filters).0.symbols + left_out (filtered changed filters).1
          ≡ length changed.symbols)
      × ((filtered changed filters).0.out_of_scope ≡ changed.out_of_scope)
unfolding filtered
filtered_lem changed filters = elim (Bool-cases (filters_are_empty filters)) [
  | inl e ↦
      rw (e, if◌then◌else◌)
        (
          sym (filter-all (admits filters) changed.symbols (λ x. empty-admits filters x e)),
          omega (arith, left_out-into_filtered_out []),
          refl,
        )
  | inr e ↦
      let kept = filter_changes filters changed.symbols [] in
      rw (e, if◌then◌else◌)
        (
          filter_changes-kept filters changed.symbols [],
          omega (
            arith,
            left_out-into_filtered_out kept.1,
            filter_changes-counts filters changed.symbols [],
          ),
          refl,
        )
]
