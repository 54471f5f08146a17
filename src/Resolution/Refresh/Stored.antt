-- ===== src/Resolution/Refresh/Stored.antt =====
-- `re_resolve_stored` of crates/orbit-graph/src/sync/pass2.rs on the table of refs.
use mathlib.Core.List.{Memᴰ}
use orbit_graph.Common.{
  ℕ, Bool, true, false, List, Option, none, some, ok, ◌≡◌, refl, sym, ap, ◌∙◌, subst, inl, ◌==◌,
  eq_iff, eq_refl, nat_eq, list_eq, option_eq, All, map, any, filter, if◌then◌else◌, bool_ext,
}
use orbit_graph.Common.Text.{Text}
use orbit_graph.Common.Members.{
  mem-filter, mem-sort_by, All-of_mem, All-mem, filter-mem, any-mem, any-eq-true, sort_by-mem,
}
use orbit_graph.Common.{All-filter_passes}
use orbit_graph.Index.{Index, RefRow}
use orbit_graph.Resolution.Raw.{ResolvedRef}
use orbit_graph.Resolution.Candidates.{file_language, imports_for_file}
use orbit_graph.Resolution.TypeMembers.{PackageIdentity}
use orbit_graph.Resolution.Ladder.{key_of, resolve_ref, resolve_file}
use orbit_graph.Resolution.Rungs.{resolves_by_name_only}
use orbit_graph.Resolution.Ladder.Keys.{resolve_ref-key_of, resolve_file-eq-map}
use orbit_graph.Resolution.Refresh.{
  raw_of, set_resolution, update_rows, stored_refs, re_resolve_stored,
}
use orbit_graph.Resolution.Refresh.Rows.{map-map, map_same, rounds, update_rows-map, rounds_lem}

-- An id names one row: it is the primary key of refs.
abbrev pub HasUniqueRows : List RefRow → Type 0
HasUniqueRows refs = (a b : RefRow) → Memᴰ a refs → Memᴰ b refs → a.id ≡ b.id → a ≡ b

-- Each ref stands in a file of the index: a foreign key.
abbrev pub HasFiles : Index → List RefRow → Type 0
HasFiles index refs =
    (row : RefRow)
    → Memᴰ row refs
    → (language : Text) × (file_language index row.from_file ≡ some language)

module _ (is_alphanumeric : ℕ → Bool) (index : Index)
    (package_of : Text → Option PackageIdentity) where
  -- What the ladder makes of the inputs of a row in a file of this language.
  abbrev pub resolution : Text → Text → RefRow → ResolvedRef
  resolution from_file language row =
      resolve_ref is_alphanumeric index package_of from_file language
        (imports_for_file index from_file) (raw_of row)

  -- The row with the resolution that its inputs have now.
  abbrev pub refreshed_with : Option Text → RefRow → RefRow
  refreshed_with none row = row
  refreshed_with (some language) row = set_resolution row (resolution row.from_file language row)

  abbrev pub refreshed : RefRow → RefRow
  refreshed row = refreshed_with (file_language index row.from_file) row

  same_key :
      (row : RefRow) (r : ResolvedRef)
      → key_of (raw_of (set_resolution row r)) ≡ key_of (raw_of row)
  unfolding key_of raw_of set_resolution resolves_by_name_only
  same_key row r = refl

  same_resolution :
      (from_file language : Text) (row : RefRow) (r : ResolvedRef)
      → resolution from_file language (set_resolution row r) ≡ resolution from_file language row
  same_resolution from_file language row r =
      resolve_ref-key_of is_alphanumeric index package_of (raw_of (set_resolution row r))
        (raw_of row) (same_key row r) from_file language (imports_for_file index from_file)

  set_again :
      (row : RefRow) (r s : ResolvedRef)
      → set_resolution (set_resolution row r) s ≡ set_resolution row s
  unfolding set_resolution
  set_again row r s = refl

  pub set-from_file :
      (row : RefRow) (r : ResolvedRef) → (set_resolution row r).from_file ≡ row.from_file
  unfolding set_resolution
  set-from_file row r = refl

  pub set-id : (row : RefRow) (r : ResolvedRef) → (set_resolution row r).id ≡ row.id
  unfolding set_resolution
  set-id row r = refl

  refreshed_with_again :
      (language : Option Text) (row : RefRow)
      → file_language index row.from_file ≡ language
      → refreshed (refreshed_with language row) ≡ refreshed_with language row
  unfolding set_resolution
  refreshed_with_again none row h = ap (λ l. refreshed_with l row) h
  refreshed_with_again (some language) row h =
      let r = resolution row.from_file language row in
      ap (λ l. refreshed_with l (set_resolution row r)) h
      ∙ (set_again row r (resolution row.from_file language (set_resolution row r))
          ∙ ap (set_resolution row) (same_resolution row.from_file language row r))

  pub refreshed_again : (row : RefRow) → refreshed (refreshed row) ≡ refreshed row
  refreshed_again row = refreshed_with_again (file_language index row.from_file) row refl

  any-stored_refs :
      (from_file : Text) (table : List RefRow) (x : RefRow)
      → HasUniqueRows table
      → Memᴰ x table
      → any (λ w. w.id == x.id) (stored_refs from_file table) ≡ (x.from_file == from_file)
  unfolding stored_refs
  any-stored_refs from_file table x unique m =
      let here = λ (row : RefRow). row.from_file == from_file in
      bool_ext _ _
        (λ h.
          let (w, mw, same) =
            any-eq-true (λ (w : RefRow). w.id == x.id) (stored_refs from_file table) h in
          let kept = mem-sort_by _ (filter here table) w mw in
          let equal : w ≡ x =
            unique w x (mem-filter here table w kept) m ((eq_iff w.id x.id).0 same) in
          subst (λ (z : RefRow). (z.from_file == from_file) ≡ true) equal
            (All-mem (λ w. here w ≡ true) (filter here table) w (All-filter_passes here table)
              kept))
        (λ h.
          any-mem (λ (w : RefRow). w.id == x.id) (stored_refs from_file table) x
            (sort_by-mem _ (filter here table) x (filter-mem here table x h m)) (eq_refl x.id))

  unfoldable pub refreshed_in : Text → RefRow → RefRow
  refreshed_in from_file x = if x.from_file == from_file then refreshed x else x

  unique_among :
      (from_file : Text) (table : List RefRow) (x : RefRow)
      → HasUniqueRows table
      → Memᴰ x table
      → All (λ w. w.id ≡ x.id → w ≡ x) (stored_refs from_file table)
  unfolding stored_refs
  unique_among from_file table x unique m =
      All-of_mem (λ w. w.id ≡ x.id → w ≡ x) (stored_refs from_file table)
        (λ w mw. unique w x (mem-filter _ table w (mem-sort_by _ _ w mw)) m)

  one_row :
      (from_file language : Text) (table : List RefRow) (x : RefRow)
      → HasUniqueRows table
      → file_language index from_file ≡ some language
      → Memᴰ x table
      → rounds (resolution from_file language) (stored_refs from_file table) x
        ≡ refreshed_in from_file x
  unfolding refreshed_in
  one_row from_file language table x unique known m =
      let ρ = resolution from_file language in
      rounds_lem ρ x x (stored_refs from_file table) (inl refl)
        (unique_among from_file table x unique m)
      ∙ (ap (λ b. if b then set_resolution x (ρ x) else x)
            (any-stored_refs from_file table x unique m)
          ∙ chosen (x.from_file == from_file) refl)
    where
      chosen :
          (b : Bool)
          → (x.from_file == from_file) ≡ b
          → (if b then set_resolution x (resolution from_file language x) else x)
            ≡ (if b then refreshed x else x)
      chosen false h = refl
      chosen true h =
          let same = (eq_iff x.from_file from_file).0 h in
          sym (
            ap (λ l. refreshed_with l x) (ap (file_language index) same ∙ known)
            ∙ ap (λ f. set_resolution x (resolution f language x)) same)

  pub re_resolve_stored-eq :
      (from_file language : Text) (table : List RefRow)
      → HasUniqueRows table
      → file_language index from_file ≡ some language
      → (n : ℕ) × (re_resolve_stored is_alphanumeric index package_of from_file
            (stored_refs from_file table)
            table
          ≡ ok (map (refreshed_in from_file) table, n))
  unfolding re_resolve_stored
  re_resolve_stored-eq from_file language table unique known =
      let ρ = resolution from_file language in
      let ws = stored_refs from_file table in
      let resolved : resolve_file is_alphanumeric index package_of from_file (map raw_of ws)
          ≡ ok (map ρ ws) =
        resolve_file-eq-map is_alphanumeric index package_of from_file language (map raw_of ws)
          known
        ∙ ap ok (map-map _ raw_of ws) in
      let result = update_rows ws (map ρ ws) table in
      let rows : result.0 ≡ map (refreshed_in from_file) table =
        update_rows-map ρ ws table
        ∙ map_same (rounds ρ ws) (refreshed_in from_file) table
            (λ x m. one_row from_file language table x unique known m) in
      (
        result.1,
        rw (resolved, re_resolve_stored) (ap (λ (rows : List RefRow). ok (rows, result.1)) rows),
      )
