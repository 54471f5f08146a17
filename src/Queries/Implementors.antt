-- ===== src/Queries/Implementors.antt =====
-- `run` of crates/orbit-graph/src/query/implementors.rs: the types that implement a trait.
pub mod Listed
use Prim.Native.Nat.{compare}
use orbit_graph.Common.{
  ℕ, Bool, true, false, Option, none, some, List, [], ◌∷◌, ◌++◌, Result, ok, err, ◌==◌, nat_eq,
  list_eq, ◌>>=◌, ◌&&◌, ◌||◌, filter, is_empty, if◌then◌else◌,
}
use orbit_graph.Common.Sort.{sort_by, then_compare, compare_text}
use orbit_graph.Common.Text.{
  Text, codes, trim, is_whitespace, ends_with, rsplit_once_text, strip_prefix,
}
use orbit_graph.Selector.{Selector, dir, file, symbol, module_named, command, to_string}
use orbit_graph.Index.{Index, RelationRow}
use orbit_graph.Index.Values.{GraphError, RefKind, kind_from_db}

pub record Implementor : Type 0 where
  pub type_qualified : Text
  pub trait_matched : Text
  pub kind : RefKind
  pub file : Text

pub record ImplementorsResult : Type 0 where
  pub trait_name : Text
  pub implementors : List Implementor

unfoldable pub trailing_segment : Text → Text
unfolding trim is_whitespace rsplit_once_text strip_prefix
trailing_segment name = elim (rsplit_once_text (codes "::") name) [
  | none ↦ trim name
  | some (before, after) ↦ trim after
]

abbrev pub unless_empty : Text → Option Text
unless_empty [] = none
unless_empty (c ∷ name) = some (c ∷ name)

unfoldable pub trait_name_from_selector : Selector → Option Text
unfolding trailing_segment
trait_name_from_selector (symbol p s k) = unless_empty (trailing_segment s)
trait_name_from_selector (module_named q) = unless_empty (trailing_segment q)
trait_name_from_selector (dir p) = none
trait_name_from_selector (file p) = none
trait_name_from_selector (command n) = none

-- kind IN ('impl', 'implements')
unfoldable pub is_impl_kind : Text → Bool
is_impl_kind kind = kind == codes "impl" || kind == codes "implements"

-- the predicate of the query: the name, or a path that ends in `::` and the name
unfoldable pub names_trait : Text → RelationRow → Bool
unfolding ends_with is_impl_kind
names_trait name row =
    is_impl_kind row.kind
    && (row.to_qualified == name || ends_with (codes "::" ++ name) row.to_qualified)

-- the loop over the stored rows
unfoldable pub read_rows : List RelationRow → Result GraphError (List Implementor)
unfolding kind_from_db
read_rows [] = ok []
read_rows (row ∷ rows) =
    let rest = read_rows rows in
    kind_from_db row.kind >>= (λ kind. rest >>= (λ more. ok (
      record {
        type_qualified = row.from_qualified;
        trait_matched = row.to_qualified;
        kind = kind;
        file = row.def_file;
      }
      ∷ more)))

-- the rows of the query, ORDER BY def_file, from_qualified, id
unfoldable pub trait_rows : Index → Text → List RelationRow
unfolding names_trait sort_by
trait_rows index name =
    sort_by
      (λ (a : RelationRow) (b : RelationRow).
        then_compare (compare_text a.def_file b.def_file)
          (then_compare (compare_text a.from_qualified b.from_qualified) (compare a.id b.id)))
      (filter (names_trait name) index.relations)

unfoldable pub query_implementors : Index → Text → Result GraphError (List Implementor)
unfolding trait_rows read_rows
query_implementors index name = read_rows (trait_rows index name)

unfoldable pub implementors : Index → Selector → Result GraphError ImplementorsResult
unfolding trait_name_from_selector query_implementors to_string
implementors index sel = elim (trait_name_from_selector sel) [
  | none ↦ ok (record { trait_name = to_string sel; implementors = [] })
  | some name ↦ do
    found ← query_implementors index name
    ok (record { trait_name = name; implementors = found })
]
