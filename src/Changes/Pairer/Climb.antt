-- ===== src/Changes/Pairer/Climb.antt =====
-- Each rung of the ladder of `Pairer` (crates/orbit-graph-changes/src/changes.rs) after the first is
-- a run of steps that report coherent entries.
use orbit_graph.Common.{
  collect, true, List, [], ◌∷◌, nat_eq, list_eq, contains, ◌≡◌, subst, All, ok, >>=-eq-ok,
}
use orbit_graph.Common.Members.{All-of_mem, contains-mem}
use orbit_graph.Common.Text.{Text}
use orbit_graph.Changes.Types.{ChangedSymbol, FileChangeKind}
use orbit_graph.Changes.Files.{renamed_pairs}
use orbit_graph.Changes.Pairer.{Context, Pairer}
use orbit_graph.Changes.Pairer.Rungs.{
  group_by, name_and_kind, pair_eq, body_eq, pair_moved_in_file, pair_renamed_in_file, evidence_of,
  pair_in_files, pair_across_renamed_files, pair_bodies_in, pair_bodies, pair_renamed_by_body_hash,
  pair_uncertain_cross_path, compare_pairs, same_path, pair_all, pair_same_selector, new_pairer,
  emit_unpaired,
}
use orbit_graph.Changes.Pairer.Steps.{Reach, here, Reach-trans}
use orbit_graph.Changes.Pairer.Coherent.{IsCoherent}
use orbit_graph.Changes.Pairer.Loop.{Within, group_by-IsGrouping, pair_groups-Reach}
use orbit_graph.Changes.Pairer.Emitted.{HasSides}
use orbit_graph.Changes.Pairer.Taken.{grouped-Takes}
use orbit_graph.Changes.Pairer.Deltas.{
  IsRenamed, IsKept, evidence_of-IsGitKind, renamed_pairs-IsRenamed, same_paths-IsKept,
}
use orbit_graph.Changes.Pairer.InFile.{
  pair_moved_in_file-Reach, pair_renamed_in_file-Reach, pair_bodies_in-Reach,
}

module _ (c : Context) (sides : HasSides c) where
  abbrev Good : ChangedSymbol → Type 0
  Good = IsCoherent c

  pair_in_files-Reach :
      (pairs : List (Text × Text × FileChangeKind)) (p : Pairer) {q : Pairer}
      → All (IsRenamed c) pairs
      → pair_in_files c pairs p ≡ ok q
      → Reach Good p q
  unfolding pair_in_files
  pair_in_files-Reach [] p {q} r e = let same : p ≡ q = cc in subst (Reach Good p) same here
  pair_in_files-Reach ((b, h, kind) ∷ pairs) p r e =
      let (delta, is) = r.0 in
      let git = evidence_of-IsGitKind c kind is in
      let (moved, em, more) = >>=-eq-ok (pair_moved_in_file c b h kind (evidence_of kind) p) _ e in
      let (renamed, er, last) =
        >>=-eq-ok (pair_renamed_in_file c b h kind (evidence_of kind) moved) _ more in
      Reach-trans (pair_moved_in_file-Reach c sides b h kind _ p git delta em) (
        Reach-trans (pair_renamed_in_file-Reach c sides b h kind _ moved git delta er)
          (pair_in_files-Reach pairs renamed r.1 last))

  pair_across_renamed_files-Reach :
      (p : Pairer) {q : Pairer} → pair_across_renamed_files c p ≡ ok q → Reach Good p q
  unfolding pair_across_renamed_files
  pair_across_renamed_files-Reach p e =
      pair_in_files-Reach (renamed_pairs c.files) p (renamed_pairs-IsRenamed c) e

  pair_bodies-Reach :
      (paths : List (Text × FileChangeKind)) (p : Pairer) {q : Pairer}
      → All (IsKept c) paths
      → pair_bodies c paths p ≡ ok q
      → Reach Good p q
  unfolding pair_bodies
  pair_bodies-Reach [] p {q} k e = let same : p ≡ q = cc in subst (Reach Good p) same here
  pair_bodies-Reach ((path, kind) ∷ paths) p k e =
      let (mid, em, last) = >>=-eq-ok (pair_bodies_in c path kind p) _ e in
      Reach-trans (pair_bodies_in-Reach c sides path kind p k.0 em)
        (pair_bodies-Reach paths mid k.1 last)

  pair_renamed_by_body_hash-Reach :
      (p : Pairer) {q : Pairer} → pair_renamed_by_body_hash c p ≡ ok q → Reach Good p q
  unfolding pair_renamed_by_body_hash
  pair_renamed_by_body_hash-Reach p e =
      pair_bodies-Reach (collect same_path c.files.deltas) p (same_paths-IsKept c) e

  Within-self : (set : List Text) → Within set set
  Within-self set = All-of_mem (λ s. contains set s ≡ true) set (λ s m. contains-mem set s m)

  pair_uncertain_cross_path-Reach :
      (p : Pairer) {q : Pairer} → pair_uncertain_cross_path c p ≡ ok q → Reach Good p q
  unfolding pair_uncertain_cross_path
  pair_uncertain_cross_path-Reach p e =
      let (bg, fb, more) = >>=-eq-ok (group_by (name_and_kind c.base) p.unpaired_base) _ e in
      let (hg, fh, last) = >>=-eq-ok (group_by (name_and_kind c.head) p.unpaired_head) _ more in
      pair_groups-Reach Good p.unpaired_base p.unpaired_head (name_and_kind c.base)
        (name_and_kind c.head) _
        (λ key bs hs q r _ _ _ _ _ _ f. grouped-Takes c sides FileChangeKind.other _ bs hs q f) p
        compare_pairs bg hg
        (group_by-IsGrouping (name_and_kind c.base) p.unpaired_base _ (Within-self p.unpaired_base)
          fb)
        (group_by-IsGrouping (name_and_kind c.head) p.unpaired_head _ (Within-self p.unpaired_head)
          fh)
        (group_by-IsGrouping (name_and_kind c.base) p.unpaired_base _ (Within-self p.unpaired_base)
          fb)
        (group_by-IsGrouping (name_and_kind c.head) p.unpaired_head _ (Within-self p.unpaired_head)
          fh)
        last

  -- For a context whose inventories are of the base and of the head, the ladder is its first
  -- rung, then a run of steps, then `emit_unpaired`; each step takes selectors out of the
  -- pending sets of both sides and adds one coherent entry that mentions just those of them that
  -- were pending.
  pub pair_all-Reach :
      (q : Pairer)
      → pair_all c ≡ ok q
      → (first : Pairer) × (last : Pairer) × (pair_same_selector c (new_pairer c) ≡ ok first)
        × Reach (IsCoherent c) first last
        × (q ≡ emit_unpaired c last)
  unfolding pair_all
  pair_all-Reach q e =
      let (first, ef, more) = >>=-eq-ok (pair_same_selector c (new_pairer c)) _ e in
      let (across, ea, rest) = >>=-eq-ok (pair_across_renamed_files c first) _ more in
      let (bodies, eb, last) = >>=-eq-ok (pair_renamed_by_body_hash c across) _ rest in
      let (cross, ec, final) = >>=-eq-ok (pair_uncertain_cross_path c bodies) _ last in
      (
        first,
        cross,
        ef,
        Reach-trans (pair_across_renamed_files-Reach first ea) (
            Reach-trans (pair_renamed_by_body_hash-Reach across eb)
              (pair_uncertain_cross_path-Reach bodies ec)),
        cc,
      )
