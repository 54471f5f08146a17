-- ===== src/Index/Values.antt =====
-- `RefConfidence` and `RefKind` of crates/orbit-graph/src/query/refs.rs, and the errors of a query.
use orbit_graph.Common.{
  ℕ, Bool, ◌≡◌, refl, Result, ok, err, ◌==◌, nat_eq, list_eq, leb, if◌then◌else◌,
}
use orbit_graph.Common.Text.{Text, codes}

-- Of the failures of SQLite itself only the query for a row that is not there has a counterpart.
pub data GraphError : Type 0 where
  unknown_confidence : Text → GraphError
  unknown_kind : Text → GraphError
  missing_file : Text → GraphError

pub data RefConfidence : Type 0 where
  exact import_resolved same_module fuzzy_name : RefConfidence

unfoldable pub confidence_from_db : Text → Result GraphError RefConfidence
confidence_from_db value =
    if value == codes "exact"
    then ok exact
    else if value == codes "import_resolved"
    then ok import_resolved
    else if value == codes "same_module"
    then ok same_module
    else if value == codes "fuzzy_name"
    then ok fuzzy_name
    else err (unknown_confidence value)

-- `confidence_label`
unfoldable pub confidence_label : RefConfidence → Text
confidence_label exact = codes "exact"
confidence_label import_resolved = codes "import_resolved"
confidence_label same_module = codes "same_module"
confidence_label fuzzy_name = codes "fuzzy_name"

unfoldable pub rank : RefConfidence → ℕ
rank exact = 1
rank import_resolved = 2
rank same_module = 3
rank fuzzy_name = 4

unfoldable pub visible_at_floor : RefConfidence → RefConfidence → Bool
unfolding rank
visible_at_floor c floor = leb (rank c) (rank floor)

pub data RefKind : Type 0 where
  call type_use use_item trait_bound impl_of extends implements : RefKind

unfoldable pub kind_from_db : Text → Result GraphError RefKind
kind_from_db value =
    if value == codes "call"
    then ok call
    else if value == codes "type"
    then ok type_use
    else if value == codes "use"
    then ok use_item
    else if value == codes "trait_bound"
    then ok trait_bound
    else if value == codes "impl"
    then ok impl_of
    else if value == codes "extends"
    then ok extends
    else if value == codes "implements"
    then ok implements
    else err (unknown_kind value)

-- A stored label is read back as the confidence that it was written for.
pub confidence_from_db-confidence_label :
    (c : RefConfidence) → confidence_from_db (confidence_label c) ≡ ok c
unfolding confidence_from_db confidence_label
confidence_from_db-confidence_label exact = refl
confidence_from_db-confidence_label import_resolved = refl
confidence_from_db-confidence_label same_module = refl
confidence_from_db-confidence_label fuzzy_name = refl
