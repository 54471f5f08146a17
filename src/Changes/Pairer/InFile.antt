-- ===== src/Changes/Pairer/InFile.antt =====
-- The rungs of `Pairer` (crates/orbit-graph-changes/src/changes.rs) in the files of one delta: each is
-- a run of steps that report coherent entries.
use orbit_graph.Common.{
  filter, true, List, [], ◌∷◌, Option, nat_eq, list_eq, contains, ◌≡◌, subst, All,
  All-filter_passes, Result, ok, >>=-eq-ok, Eq,
}
use orbit_graph.Common.Members.{All-of_mem, contains-mem, mem-filter}
use orbit_graph.Common.Text.{Text}
use orbit_graph.Changes.Types.{
  SnapshotSide, ChangedSymbol, ChangesError, FileChangeKind, PairingEvidence, Reason,
}
use orbit_graph.Changes.Inventory.{SideInventory, selectors_in}
use orbit_graph.Changes.Pairer.{Context, Pairer, unpaired_in}
use orbit_graph.Changes.Pairer.Emit.{emit_uncertain_group, emit_renamed}
use orbit_graph.Changes.Pairer.Rungs.{
  group_by, pair_or_group, name_and_kind, kind_of, body_of, pair_eq, body_eq, pair_moved_in_file,
  pair_renamed_in_file, pair_bodies_in, compare_pairs, compare_bodies,
}
use orbit_graph.Changes.Pairer.Steps.{Reach}
use orbit_graph.Changes.Pairer.Coherent.{
  IsGround, IsDelta, IsGitKind, IsCoherent, base_file, head_file,
}
use orbit_graph.Changes.Pairer.Loop.{Within, Identified, group_by-IsGrouping, pair_groups-Reach}
use orbit_graph.Changes.Pairer.Emitted.{HasSides, Takes}
use orbit_graph.Changes.Pairer.Taken.{emit_renamed-Takes, emit_moved-Takes, grouped-Takes}
use orbit_graph.Changes.Pairer.Deltas.{kinds-IsGround}

module _ (c : Context) (sides : HasSides c) where
  abbrev Good : ChangedSymbol → Type 0
  Good = IsCoherent c

  module _ {K : Type 0} ⦃e : Eq K⦄
      (base_identity head_identity : Text → Result ChangesError (Option K)) (key : K)
      (pair : Text → Text → Pairer → Result ChangesError Pairer) (kind : FileChangeKind)
      (reason : Reason) (base_file head_file : List Text)
      (pairs : (b h : Text) (p q : Pairer)
        → contains p.unpaired_base b ≡ true
        → contains p.unpaired_head h ≡ true
        → Identified base_identity key b
        → Identified head_identity key h
        → contains base_file b ≡ true
        → contains head_file h ≡ true
        → pair b h p ≡ ok q
        → Takes c Good sides (b ∷ []) (h ∷ []) p q) where
    pair_or_group-Takes :
        (bs hs : List Text) (p : Pairer) {q : Pairer}
        → All (Identified base_identity key) bs
        → All (Identified head_identity key) hs
        → Within p.unpaired_base bs
        → Within p.unpaired_head hs
        → Within base_file bs
        → Within head_file hs
        → pair_or_group pair (emit_uncertain_group c kind reason) bs hs p ≡ ok q
        → Takes c Good sides bs hs p q
    unfolding pair_or_group
    pair_or_group-Takes (b ∷ []) (h ∷ []) p ib ih wb wh fb fh e =
        pairs b h p _ wb.0 wh.0 ib.0 ih.0 fb.0 fh.0 e
    pair_or_group-Takes (b ∷ []) (h ∷ i ∷ hs) p ib ih wb wh fb fh e =
        grouped-Takes c sides kind reason (b ∷ []) (h ∷ i ∷ hs) p e
    pair_or_group-Takes (b ∷ []) [] p ib ih wb wh fb fh e =
        grouped-Takes c sides kind reason (b ∷ []) [] p e
    pair_or_group-Takes (b ∷ a ∷ bs) hs p ib ih wb wh fb fh e =
        grouped-Takes c sides kind reason (b ∷ a ∷ bs) hs p e
    pair_or_group-Takes [] hs p ib ih wb wh fb fh e = grouped-Takes c sides kind reason [] hs p e

  filter-Within : (set selectors : List Text) → Within selectors (filter (contains set) selectors)
  filter-Within set selectors =
      All-of_mem (λ (s : Text). contains selectors s ≡ true) (filter (contains set) selectors)
        (λ s m. contains-mem selectors s (mem-filter (contains set) selectors s m))

  unpaired_in-Within :
      (p : Pairer) (inv : SideInventory) (path : Text)
      → Within (selectors_in inv path) (unpaired_in p inv path)
  unfolding unpaired_in
  unpaired_in-Within p inv path = filter-Within _ (selectors_in inv path)

  unpaired_in_base-Within :
      (p : Pairer) (path : Text) → Within p.unpaired_base (unpaired_in p c.base path)
  unfolding unpaired_in
  unpaired_in_base-Within p path =
      rw (sides.of_base, unpaired_in)
        (All-filter_passes (contains p.unpaired_base) (selectors_in c.base path))

  unpaired_in_head-Within :
      (p : Pairer) (path : Text) → Within p.unpaired_head (unpaired_in p c.head path)
  unfolding unpaired_in
  unpaired_in_head-Within p path =
      rw (sides.of_head, unpaired_in)
        (All-filter_passes (contains p.unpaired_head) (selectors_in c.head path))

  pub pair_moved_in_file-Reach :
      (base_path head_path : Text) (kind : FileChangeKind) (evidence : PairingEvidence) (p : Pairer)
      {q : Pairer}
      → IsGitKind c kind evidence
      → IsDelta c kind base_path head_path
      → pair_moved_in_file c base_path head_path kind evidence p ≡ ok q
      → Reach Good p q
  unfolding pair_moved_in_file
  pair_moved_in_file-Reach base_path head_path kind evidence p git delta e =
      let (hg, fh, more) =
        >>=-eq-ok (group_by (name_and_kind c.head) (unpaired_in p c.head head_path)) _ e in
      let (bg, fb, last) =
        >>=-eq-ok (group_by (name_and_kind c.base) (unpaired_in p c.base base_path)) _ more in
      pair_groups-Reach Good (base_file c base_path) (head_file c head_path) (name_and_kind c.base)
        (name_and_kind c.head) _
        (λ key bs hs q r.
          pair_or_group-Takes (name_and_kind c.base) (name_and_kind c.head) key _ kind _
            (base_file c base_path) (head_file c head_path)
            (λ b h s t wb wh ib ih fb fh f.
              emit_moved-Takes c sides b h kind evidence s wb wh (key, ib, ih)
                (record {
                  by_git = git;
                  base_path = base_path;
                  head_path = head_path;
                  delta = delta;
                  lists_base = fb;
                  lists_head = fh;
                })
                f)
            bs hs q)
        p compare_pairs bg hg
        (group_by-IsGrouping (name_and_kind c.base) p.unpaired_base _
          (unpaired_in_base-Within p base_path) fb)
        (group_by-IsGrouping (name_and_kind c.head) p.unpaired_head _
          (unpaired_in_head-Within p head_path) fh)
        (group_by-IsGrouping (name_and_kind c.base) (base_file c base_path) _
          (unpaired_in-Within p c.base base_path) fb)
        (group_by-IsGrouping (name_and_kind c.head) (head_file c head_path) _
          (unpaired_in-Within p c.head head_path) fh)
        last

  renamed-Takes :
      (kind : FileChangeKind) (evidence : PairingEvidence) (b h : Text) (p : Pairer) {q : Pairer}
      → contains p.unpaired_base b ≡ true
      → contains p.unpaired_head h ≡ true
      → IsGround c kind evidence b h
      → ◌≡◌ {A = Result ChangesError Pairer} (ok (emit_renamed c kind evidence b h p)) (ok q)
      → Takes c Good sides (b ∷ []) (h ∷ []) p q
  renamed-Takes kind evidence b h p {q} wb wh ground_of e =
      let same : emit_renamed c kind evidence b h p ≡ q = cc in
      subst (Takes c Good sides (b ∷ []) (h ∷ []) p) same
        (emit_renamed-Takes c sides b h kind evidence p wb wh ground_of)

  pub pair_renamed_in_file-Reach :
      (base_path head_path : Text) (kind : FileChangeKind) (evidence : PairingEvidence) (p : Pairer)
      {q : Pairer}
      → IsGitKind c kind evidence
      → IsDelta c kind base_path head_path
      → pair_renamed_in_file c base_path head_path kind evidence p ≡ ok q
      → Reach Good p q
  unfolding pair_renamed_in_file
  pair_renamed_in_file-Reach base_path head_path kind evidence p git delta e =
      let (bg, fb, more) =
        >>=-eq-ok (group_by (kind_of c.base) (unpaired_in p c.base base_path)) _ e in
      let (hg, fh, last) =
        >>=-eq-ok (group_by (kind_of c.head) (unpaired_in p c.head head_path)) _ more in
      pair_groups-Reach Good (base_file c base_path) (head_file c head_path) (kind_of c.base)
        (kind_of c.head) _
        (λ key bs hs q r.
          pair_or_group-Takes (kind_of c.base) (kind_of c.head) key _ kind _ (base_file c base_path)
            (head_file c head_path)
            (λ b h s t wb wh ib ih fb fh f.
              renamed-Takes kind evidence b h s wb wh
                (kinds-IsGround c kind evidence b h key ib ih (record {
                  by_git = git;
                  base_path = base_path;
                  head_path = head_path;
                  delta = delta;
                  lists_base = fb;
                  lists_head = fh;
                }))
                f)
            bs hs q)
        p _ bg hg
        (group_by-IsGrouping (kind_of c.base) p.unpaired_base _
          (unpaired_in_base-Within p base_path) fb)
        (group_by-IsGrouping (kind_of c.head) p.unpaired_head _
          (unpaired_in_head-Within p head_path) fh)
        (group_by-IsGrouping (kind_of c.base) (base_file c base_path) _
          (unpaired_in-Within p c.base base_path) fb)
        (group_by-IsGrouping (kind_of c.head) (head_file c head_path) _
          (unpaired_in-Within p c.head head_path) fh)
        last

  pub pair_bodies_in-Reach :
      (path : Text) (kind : FileChangeKind) (p : Pairer) {q : Pairer}
      → IsDelta c kind path path
      → pair_bodies_in c path kind p ≡ ok q
      → Reach Good p q
  unfolding pair_bodies_in IsGround
  pair_bodies_in-Reach path kind p delta e =
      let of_base = body_of c SnapshotSide.base c.base in
      let of_head = body_of c SnapshotSide.head c.head in
      let (bg, fb, more) = >>=-eq-ok (group_by of_base (unpaired_in p c.base path)) _ e in
      let (hg, fh, last) = >>=-eq-ok (group_by of_head (unpaired_in p c.head path)) _ more in
      pair_groups-Reach Good (base_file c path) (head_file c path) of_base of_head _
        (λ key bs hs q r.
          pair_or_group-Takes of_base of_head key _ kind _ (base_file c path) (head_file c path)
            (λ b h s t wb wh ib ih fb fh f.
              renamed-Takes kind PairingEvidence.body_hash b h s wb wh
                (
                  (key, ib, ih),
                  record { path = path; delta = delta; lists_base = fb; lists_head = fh },
                )
                f)
            bs hs q)
        p compare_bodies bg hg
        (group_by-IsGrouping of_base p.unpaired_base _ (unpaired_in_base-Within p path) fb)
        (group_by-IsGrouping of_head p.unpaired_head _ (unpaired_in_head-Within p path) fh)
        (group_by-IsGrouping of_base (base_file c path) _ (unpaired_in-Within p c.base path) fb)
        (group_by-IsGrouping of_head (head_file c path) _ (unpaired_in-Within p c.head path) fh)
        last
