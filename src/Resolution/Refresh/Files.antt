-- ===== src/Resolution/Refresh/Files.antt =====
-- The loop of `refresh_all_refs` (crates/orbit-graph/src/sync/pass2.rs) over the files.
use orbit_graph.Common.{
  ℕ, ◌+◌, Bool, true, false, not, ◌&&◌, ◌||◌, List, [], ◌∷◌, Option, none, some, ok, ◌≡◌, refl, sym,
  ap, ◌∙◌, subst, inl, inr, ◌==◌, eq_iff, nat_eq, list_eq, option_eq, Bool-cases, All, map,
  contains, if◌then◌else◌, bool_ext,
}
use orbit_graph.Common.Text.{Text}
use orbit_graph.Common.Members.{mem-map}
use orbit_graph.Index.{Index, RefRow}
use orbit_graph.Resolution.Candidates.{file_language}
use orbit_graph.Resolution.TypeMembers.{PackageIdentity}
use orbit_graph.Resolution.Refresh.{refresh_files}
use orbit_graph.Resolution.Refresh.Rows.{map-map, map_same}
use orbit_graph.Resolution.Refresh.Stored.{
  HasUniqueRows, refreshed_with, refreshed, set-from_file, set-id, refreshed_again, refreshed_in,
  re_resolve_stored-eq,
}

skips :
    {A : Type 0} (e c r : Bool) (a b : A)
    → (e ≡ true → r ≡ true)
    → (if c && not r then a else b) ≡ (if (e || c) && not r then a else b)
skips false c r a b h = refl
skips true c r a b h = rw (h refl) (both c a b)
  where
    both : {A : Type 0} (c : Bool) (a b : A) → (if c && false then a else b) ≡ b
    both true a b = refl
    both false a b = refl

taken :
    {A : Type 0} (e c r : Bool) (a b : A)
    → e ≡ true
    → r ≡ false
    → (if (e || c) && not r then a else b) ≡ a
taken e c r a b h g = rw (h, g) refl

not_equal : (a b : Text) → (b == a) ≡ false → (a == b) ≡ false
not_equal a b h =
    bool_ext _ _ (λ e. sym h ∙ (eq_iff b a).1 (sym ((eq_iff a b).0 e))) (λ e. absurd (cc))

module _ (is_alphanumeric : ℕ → Bool) (index : Index)
    (package_of : Text → Option PackageIdentity) where
  pub refreshed_with-keeps :
      (language : Option Text) (row : RefRow)
      → ((refreshed_with is_alphanumeric index package_of language row).id ≡ row.id)
        × ((refreshed_with is_alphanumeric index package_of language row).from_file ≡ row.from_file)
  refreshed_with-keeps none row = (refl, refl)
  refreshed_with-keeps (some language) row = (
    set-id is_alphanumeric index package_of row _,
    set-from_file is_alphanumeric index package_of row _,
  )

  refreshed_in-keeps :
      (from_file : Text) (row : RefRow)
      → ((refreshed_in is_alphanumeric index package_of from_file row).id ≡ row.id)
        × ((refreshed_in is_alphanumeric index package_of from_file row).from_file ≡ row.from_file)
  unfolding refreshed_in
  refreshed_in-keeps from_file row = elim (Bool-cases (row.from_file == from_file)) [
    | inl e ↦ rw e (refreshed_with-keeps (file_language index row.from_file) row)
    | inr e ↦ rw e (refl, refl)
  ]

  HasUniqueRows-map :
      (from_file : Text) (table : List RefRow)
      → HasUniqueRows table
      → HasUniqueRows (map (refreshed_in is_alphanumeric index package_of from_file) table)
  HasUniqueRows-map from_file table unique a b ma mb same =
      let (x, mx, ex) =
        mem-map (refreshed_in is_alphanumeric index package_of from_file) table a ma in
      let (y, my, ey) =
        mem-map (refreshed_in is_alphanumeric index package_of from_file) table b mb in
      let ids : x.id ≡ y.id =
        sym (refreshed_in-keeps from_file x).0
        ∙ (ap (λ (z : RefRow). z.id) (sym ex)
            ∙ (same ∙ (ap (λ (z : RefRow). z.id) ey ∙ (refreshed_in-keeps from_file y).0))) in
      ex
      ∙ (ap (refreshed_in is_alphanumeric index package_of from_file) (unique x y mx my ids)
          ∙ sym ey)

  -- the rows of some files, less those that were rewritten
  unfoldable pub refreshed_of : List Text → List Text → RefRow → RefRow
  refreshed_of rewritten files x =
      if contains files x.from_file && not (contains rewritten x.from_file)
      then refreshed is_alphanumeric index package_of x
      else x

  unfoldable pub Known : Text → Type 0
  Known f = (language : Text) × (file_language index f ≡ some language)

  refreshed_of-skipped :
      (rewritten files : List Text) (f : Text) (x : RefRow)
      → contains rewritten f ≡ true
      → refreshed_of rewritten files x ≡ refreshed_of rewritten (f ∷ files) x
  unfolding refreshed_of
  refreshed_of-skipped rewritten files f x h =
      skips (f == x.from_file) (contains files x.from_file) (contains rewritten x.from_file)
        (refreshed is_alphanumeric index package_of x) x
        (λ e. subst (λ g. contains rewritten g ≡ true) ((eq_iff f x.from_file).0 e) h)

  refreshed_of-twice :
      (rewritten files : List Text) (x : RefRow)
      → refreshed_of rewritten files (refreshed is_alphanumeric index package_of x)
        ≡ refreshed is_alphanumeric index package_of x
  unfolding refreshed_of
  refreshed_of-twice rewritten files x =
      elim (Bool-cases (
        contains files (refreshed is_alphanumeric index package_of x).from_file
        && not (contains rewritten (refreshed is_alphanumeric index package_of x).from_file))) [
          | inl e ↦
              ap
                (λ b.
                  if b
                  then refreshed is_alphanumeric index package_of
                      (refreshed is_alphanumeric index package_of x)
                  else refreshed is_alphanumeric index package_of x)
                e
              ∙ refreshed_again is_alphanumeric index package_of x
          | inr e ↦
              ap
                (λ b.
                  if b
                  then refreshed is_alphanumeric index package_of
                      (refreshed is_alphanumeric index package_of x)
                  else refreshed is_alphanumeric index package_of x)
                e
        ]

  refreshed_of-next :
      (rewritten files : List Text) (f : Text) (x : RefRow)
      → contains rewritten f ≡ false
      → refreshed_of rewritten files (refreshed_in is_alphanumeric index package_of f x)
        ≡ refreshed_of rewritten (f ∷ files) x
  unfolding refreshed_of refreshed_in
  refreshed_of-next rewritten files f x h = elim (Bool-cases (x.from_file == f)) [
    | inl e ↦
        let same : x.from_file ≡ f = (eq_iff x.from_file f).0 e in
        let found : (f == x.from_file) ≡ true = (eq_iff f x.from_file).1 (sym same) in
        let outside : contains rewritten x.from_file ≡ false = ap (contains rewritten) same ∙ h in
        ap
          (λ b.
            refreshed_of rewritten files
              (if b then refreshed is_alphanumeric index package_of x else x))
          e
        ∙ (refreshed_of-twice rewritten files x
            ∙ sym (
                taken (f == x.from_file) (contains files x.from_file)
                  (contains rewritten x.from_file) (refreshed is_alphanumeric index package_of x) x
                  found outside))
    | inr e ↦
        let apart : (f == x.from_file) ≡ false = not_equal f x.from_file e in
        ap
          (λ b.
            refreshed_of rewritten files
              (if b then refreshed is_alphanumeric index package_of x else x))
          e
        ∙ ap
            (λ b.
              if (b || contains files x.from_file) && not (contains rewritten x.from_file)
              then refreshed is_alphanumeric index package_of x
              else x)
            (sym apart)
  ]

  refreshed_of-none :
      (rewritten : List Text) (table : List RefRow) → map (refreshed_of rewritten []) table ≡ table
  unfolding refreshed_of
  refreshed_of-none rewritten [] = refl
  refreshed_of-none rewritten (x ∷ table) =
      ap (λ rest. x ∷ rest) (refreshed_of-none rewritten table)

  pub refresh_files-eq :
      (rewritten files : List Text) (table : List RefRow)
      → HasUniqueRows table
      → All Known files
      → (n : ℕ) × (refresh_files is_alphanumeric index package_of rewritten files table
          ≡ ok (map (refreshed_of rewritten files) table, n))
  unfolding refresh_files Known
  refresh_files-eq rewritten [] table unique known =
      (0, ap (λ (rows : List RefRow). ok (rows, 0)) (sym (refreshed_of-none rewritten table)))
  refresh_files-eq rewritten (f ∷ files) table unique known =
      elim (Bool-cases (contains rewritten f)) [
        | inl e ↦
            let (n, rest) = refresh_files-eq rewritten files table unique known.1 in
            (
              n,
              rw (e, refresh_files)
                  (rest
                    ∙ ap (λ (rows : List RefRow). ok (rows, n))
                        (map_same (refreshed_of rewritten files)
                          (refreshed_of rewritten (f ∷ files)) table
                          (λ x m. refreshed_of-skipped rewritten files f x e))),
            )
        | inr e ↦
            let (language, known_f) = known.0 in
            let (updated, one) =
              re_resolve_stored-eq is_alphanumeric index package_of f language table unique
                known_f in
            let (more, rest) =
              refresh_files-eq rewritten files
                (map (refreshed_in is_alphanumeric index package_of f) table)
                (HasUniqueRows-map f table unique) known.1 in
            (
              updated + more,
              rw (e, one, rest, refresh_files)
                  (ap (λ (rows : List RefRow). ok (rows, updated + more))
                    (map-map (refreshed_of rewritten files)
                        (refreshed_in is_alphanumeric index package_of f) table
                      ∙ map_same
                          (λ x.
                            refreshed_of rewritten files
                              (refreshed_in is_alphanumeric index package_of f x))
                          (refreshed_of rewritten (f ∷ files)) table
                          (λ x m. refreshed_of-next rewritten files f x e))),
            )
      ]
