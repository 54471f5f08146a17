-- ===== src/Resolution/Refresh.antt =====
-- The refresh of stored refs in crates/orbit-graph/src/sync/pass2.rs: `StoredRef::from_row`,
-- `re_resolve_stored` and `refresh_all_refs`. The table of refs is the state; a symbol, a file and
-- an import row do not change.
pub mod Rows
pub mod Stored
pub mod Files
pub mod Laws
use orbit_graph.Common.{
  ℕ, suc, ◌+◌, Bool, ◌&&◌, List, [], ◌∷◌, Option, Result, ok, ◌>>=◌, ◌==◌, nat_eq, list_eq,
  option_eq, filter, map, contains, if◌then◌else◌,
}
use orbit_graph.Common.Sort.{sort_by, compare_text}
use orbit_graph.Common.Text.{Text}
use orbit_graph.Index.{Index, RefRow}
use orbit_graph.Index.Values.{GraphError}
use orbit_graph.Resolution.Raw.{RawRef, ResolvedRef}
use orbit_graph.Resolution.TypeMembers.{PackageIdentity}
use orbit_graph.Resolution.Ladder.{resolve_file}
use Prim.Native.Nat.{compare}

-- `StoredRef::from_row`: the resolution inputs of a row
unfoldable pub raw_of : RefRow → RawRef
raw_of row = record {
  from_file = row.from_file;
  from_span_start = row.from_span_start;
  from_span_end = row.from_span_end;
  target_name = row.target_name;
  target_qualified = row.extracted_qualified;
  kind = row.kind;
  confidence = row.confidence;
  unresolved_receiver = row.unresolved_receiver;
  spelled_path = row.spelled_path;
}

pub is_unchanged : RefRow → ResolvedRef → Bool
is_unchanged row r =
    row.target_qualified == r.target_qualified
    && row.target_symbol_hint == r.target_symbol_hint
    && row.confidence == r.confidence

-- SET target_qualified = ?1, target_symbol_hint = ?2, confidence = ?3
unfoldable pub set_resolution : RefRow → ResolvedRef → RefRow
set_resolution row r = record row {
  target_qualified = r.target_qualified;
  target_symbol_hint = r.target_symbol_hint;
  confidence = r.confidence;
}

-- UPDATE refs … WHERE id = ?4
pub update_where : ℕ → ResolvedRef → List RefRow → List RefRow
unfolding set_resolution
update_where id r [] = []
update_where id r (row ∷ refs) =
    (if row.id == id then set_resolution row r else row) ∷ update_where id r refs

-- the loop of `re_resolve_stored`, with the number of rows updated
pub update_rows : List RefRow → List ResolvedRef → List RefRow → List RefRow × ℕ
unfolding is_unchanged update_where
update_rows (row ∷ stored) (r ∷ resolved) refs =
    let kept = update_rows stored resolved refs in
    let later = update_rows stored resolved (update_where row.id r refs) in
    if is_unchanged row r then kept else (later.0, suc later.1)
update_rows [] resolved refs = (refs, 0)
update_rows (row ∷ stored) [] refs = (refs, 0)

-- SELECT DISTINCT from_file FROM refs ORDER BY from_file
pub distinct : List Text → List Text
distinct [] = []
distinct (f ∷ fs) = let rest = distinct fs in if contains rest f then rest else f ∷ rest

pub stored_files : List RefRow → List Text
unfolding distinct sort_by
stored_files refs = sort_by compare_text (distinct (map (λ row. row.from_file) refs))

-- SELECT … FROM refs WHERE from_file = ?1 ORDER BY id
pub stored_refs : Text → List RefRow → List RefRow
unfolding sort_by
stored_refs from_file refs =
    sort_by (λ a b. compare a.id b.id) (filter (λ row. row.from_file == from_file) refs)

module _ (is_alphanumeric : ℕ → Bool) (index : Index)
    (package_of : Text → Option PackageIdentity) where
  pub re_resolve_stored : Text → List RefRow → List RefRow → Result GraphError (List RefRow × ℕ)
  unfolding resolve_file raw_of update_rows
  re_resolve_stored from_file stored refs = do
    resolved ← resolve_file is_alphanumeric index package_of from_file (map raw_of stored)
    ok (update_rows stored resolved refs)

  -- the loop of `refresh_all_refs` over the files
  pub refresh_files : List Text → List Text → List RefRow → Result GraphError (List RefRow × ℕ)
  unfolding re_resolve_stored stored_refs
  refresh_files rewritten [] refs = ok (refs, 0)
  refresh_files rewritten (f ∷ files) refs =
      let skipped = refresh_files rewritten files refs in
      let refreshed : Result GraphError (List RefRow × ℕ) = (do
        (one, updated) ← re_resolve_stored f (stored_refs f refs) refs
        (all, more) ← refresh_files rewritten files one
        ok (all, updated + more)) in
      if contains rewritten f then skipped else refreshed

  unfoldable pub refresh_all_refs : List Text → List RefRow → Result GraphError (List RefRow × ℕ)
  unfolding stored_files refresh_files
  refresh_all_refs rewritten refs = refresh_files rewritten (stored_files refs) refs
