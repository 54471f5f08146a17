-- ===== src/Resolution/Refresh/Laws.antt =====
-- Laws of `refresh_all_refs` of crates/orbit-graph/src/sync/pass2.rs.
use mathlib.Core.List.{Memᴰ}
use mathlib.Core.List.Memᴰ
use orbit_graph.Common.{
  ℕ, Bool, true, false, not, ◌&&◌, List, [], ◌∷◌, Option, Result, ok, ◌≡◌, refl, sym, ap, ◌∙◌,
  subst, inl, inr, nat_eq, list_eq, option_eq, Bool-cases, All, map, contains, if◌then◌else◌,
}
use orbit_graph.Common.Text.{Text}
use orbit_graph.Common.Members.{
  mem-sort_by, All-of_mem, sort_by-mem, mem-map, map-mem, contains-mem, mem-contains,
}
use orbit_graph.Index.{Index, RefRow}
use orbit_graph.Index.Values.{GraphError}
use orbit_graph.Resolution.Candidates.{file_language}
use orbit_graph.Resolution.TypeMembers.{PackageIdentity}
use orbit_graph.Resolution.Refresh.{stored_files, distinct, refresh_all_refs}
use orbit_graph.Resolution.Refresh.Rows.{map-map, map_same}
use orbit_graph.Resolution.Refresh.Stored.{HasUniqueRows, HasFiles, refreshed, refreshed_again}
use orbit_graph.Resolution.Refresh.Files.{
  refreshed_with-keeps, refreshed_of, refresh_files-eq, Known,
}

ok_injective :
    (r s : List RefRow × ℕ)
    → ◌≡◌ {A = Result GraphError (List RefRow × ℕ)} (ok r) (ok s)
    → r.0 ≡ s.0
ok_injective r s h = let same : r ≡ s = cc in ap (λ (t : List RefRow × ℕ). t.0) same

turned : {A : Type 0} (r : Bool) (a b : A) → (if true && not r then a else b) ≡ (if r then b else a)
turned true a b = refl
turned false a b = refl

module _ (is_alphanumeric : ℕ → Bool) (index : Index)
    (package_of : Text → Option PackageIdentity) where
  mem-distinct : (fs : List Text) (f : Text) → Memᴰ f (distinct fs) → Memᴰ f fs
  unfolding distinct
  mem-distinct [] f m = m
  mem-distinct (g ∷ fs) f m = elim (Bool-cases (contains (distinct fs) g)) [
    | inl e ↦ Memᴰ.tail (mem-distinct fs f (rw (e, distinct) at m))
    | inr e ↦ elim (Memᴰ.cases_cons (rw (e, distinct) at m)) [
      | inl same ↦ Memᴰ.head same
      | inr later ↦ Memᴰ.tail (mem-distinct fs f later)
    ]
  ]

  distinct-mem : (fs : List Text) (f : Text) → Memᴰ f fs → Memᴰ f (distinct fs)
  unfolding distinct
  distinct-mem [] f m = m
  distinct-mem (g ∷ fs) f m = elim (Bool-cases (contains (distinct fs) g)) [
    | inl e ↦
        rw (e, distinct)
          (elim (Memᴰ.cases_cons m) [
            | inl same ↦
                subst (λ h. Memᴰ h (distinct fs)) (sym same) (mem-contains (distinct fs) g e)
            | inr later ↦ distinct-mem fs f later
          ])
    | inr e ↦
        rw (e, distinct)
          (elim (Memᴰ.cases_cons m) [
            | inl same ↦ Memᴰ.head same
            | inr later ↦ Memᴰ.tail (distinct-mem fs f later)
          ])
  ]

  stored_files-Known :
      (refs : List RefRow)
      → HasFiles index refs
      → All (Known is_alphanumeric index package_of) (stored_files refs)
  unfolding stored_files Known
  stored_files-Known refs known =
      All-of_mem (Known is_alphanumeric index package_of) (stored_files refs) (λ f m.
        let among = mem-distinct (map (λ row. row.from_file) refs) f (mem-sort_by _ _ f m) in
        let (row, mrow, same) = mem-map (λ (row : RefRow). row.from_file) refs f among in
        let (language, e) = known row mrow in (language, ap (file_language index) same ∙ e))

  stored_files-contains :
      (refs : List RefRow) (x : RefRow)
      → Memᴰ x refs
      → contains (stored_files refs) x.from_file ≡ true
  unfolding stored_files
  stored_files-contains refs x m = contains-mem (stored_files refs) x.from_file (
      sort_by-mem _ _ x.from_file (
        distinct-mem (map (λ row. row.from_file) refs) x.from_file
          (map-mem (λ (row : RefRow). row.from_file) refs x m)))

  refreshed_of-all :
      (rewritten files : List Text) (x : RefRow)
      → contains files x.from_file ≡ true
      → refreshed_of is_alphanumeric index package_of rewritten files x ≡ (
          if contains rewritten x.from_file
          then x
          else refreshed is_alphanumeric index package_of x)
  unfolding refreshed_of
  refreshed_of-all rewritten files x h =
      ap
        (λ b.
          if b && not (contains rewritten x.from_file)
          then refreshed is_alphanumeric index package_of x
          else x)
        h
      ∙ turned (contains rewritten x.from_file) (refreshed is_alphanumeric index package_of x) x

  -- Where an id names one stored ref and each ref stands in a file of the index,
  -- `refresh_all_refs` returns the same table with the rows outside the rewritten files set to
  -- what the ladder makes of their stored inputs, and with the rows of the rewritten files as
  -- they were.
  pub refresh_all_refs-eq :
      (rewritten : List Text) (refs : List RefRow)
      → HasUniqueRows refs
      → HasFiles index refs
      → (n : ℕ) × (refresh_all_refs is_alphanumeric index package_of rewritten refs
          ≡ ok (
            map
                (λ row.
                  if contains rewritten row.from_file
                  then row
                  else refreshed is_alphanumeric index package_of row)
                refs,
            n,
          ))
  unfolding refresh_all_refs
  refresh_all_refs-eq rewritten refs unique known =
      let (n, e) =
        refresh_files-eq is_alphanumeric index package_of rewritten (stored_files refs) refs unique
          (stored_files-Known refs known) in
      (
        n,
        e
            ∙ ap (λ (rows : List RefRow). ok (rows, n))
                (map_same
                  (refreshed_of is_alphanumeric index package_of rewritten (stored_files refs)) _
                  refs
                  (λ x m.
                    refreshed_of-all rewritten (stored_files refs) x
                      (stored_files-contains refs x m))),
      )

  -- what a refresh makes of a row, and that it makes nothing more of it the next time
  abbrev pub kept_or_refreshed : List Text → RefRow → RefRow
  kept_or_refreshed rewritten row =
      if contains rewritten row.from_file
      then row
      else refreshed is_alphanumeric index package_of row

  kept_or_refreshed-keeps :
      (rewritten : List Text) (row : RefRow)
      → ((kept_or_refreshed rewritten row).id ≡ row.id)
        × ((kept_or_refreshed rewritten row).from_file ≡ row.from_file)
  kept_or_refreshed-keeps rewritten row = elim (Bool-cases (contains rewritten row.from_file)) [
    | inl e ↦ rw (e, kept_or_refreshed) (refl, refl)
    | inr e ↦
        rw (e, kept_or_refreshed)
          (refreshed_with-keeps is_alphanumeric index package_of (file_language index row.from_file)
            row)
  ]

  kept_or_refreshed_again :
      (rewritten : List Text) (row : RefRow)
      → kept_or_refreshed rewritten (kept_or_refreshed rewritten row)
        ≡ kept_or_refreshed rewritten row
  kept_or_refreshed_again rewritten row = elim (Bool-cases (contains rewritten row.from_file)) [
    | inl e ↦
        ap (kept_or_refreshed rewritten)
          (ap (λ b. if b then row else refreshed is_alphanumeric index package_of row) e)
    | inr e ↦
        let next = ap (λ b. if b then row else refreshed is_alphanumeric index package_of row) e in
        let later =
          ap (contains rewritten)
            (refreshed_with-keeps is_alphanumeric index package_of
              (file_language index row.from_file) row).1
          ∙ e in
        ap (kept_or_refreshed rewritten) next
        ∙ (ap
              (λ b.
                if b
                then refreshed is_alphanumeric index package_of row
                else refreshed is_alphanumeric index package_of
                    (refreshed is_alphanumeric index package_of row))
              later
            ∙ (refreshed_again is_alphanumeric index package_of row ∙ sym next))
  ]

  -- Where an id names one stored ref and each ref stands in a file of the index, a second
  -- refresh with the same rewritten files leaves the table that the first one returned as it is.
  pub refresh_all_refs-idempotent :
      (rewritten : List Text) (refs after : List RefRow) (n : ℕ)
      → HasUniqueRows refs
      → HasFiles index refs
      → refresh_all_refs is_alphanumeric index package_of rewritten refs ≡ ok (after, n)
      → (m : ℕ) × (refresh_all_refs is_alphanumeric index package_of rewritten after
          ≡ ok (after, m))
  refresh_all_refs-idempotent rewritten refs after n unique known h =
      let κ = kept_or_refreshed rewritten in
      let (k, e) = refresh_all_refs-eq rewritten refs unique known in
      let same : after ≡ map κ refs = ok_injective _ _ (sym h ∙ e) in
      let (m, again) =
        refresh_all_refs-eq rewritten (map κ refs)
          (λ a b ma mb ids.
            let (x, mx, ex) = mem-map κ refs a ma in
            let (y, my, ey) = mem-map κ refs b mb in
            ex
            ∙ (ap κ (
                  unique x y mx my (
                    sym (kept_or_refreshed-keeps rewritten x).0
                    ∙ (ap (λ (z : RefRow). z.id) (sym ex)
                        ∙ (ids
                            ∙ (ap (λ (z : RefRow). z.id) ey
                                ∙ (kept_or_refreshed-keeps rewritten y).0)))))
                ∙ sym ey))
          (λ a ma.
            let (x, mx, ex) = mem-map κ refs a ma in
            let (language, f) = known x mx in
            (
              language,
              ap (file_language index)
                    (ap (λ (z : RefRow). z.from_file) ex ∙ (kept_or_refreshed-keeps rewritten x).1)
                  ∙ f,
            )) in
      let settled : map κ (map κ refs) ≡ map κ refs =
        map-map κ κ refs
        ∙ map_same (λ x. κ (κ x)) κ refs (λ x mx. kept_or_refreshed_again rewritten x) in
      (
        m,
        ap (refresh_all_refs is_alphanumeric index package_of rewritten) same
            ∙ (again ∙ ap (λ (rows : List RefRow). ok (rows, m)) (settled ∙ sym same)),
      )
