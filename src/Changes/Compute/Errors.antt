-- ===== src/Changes/Compute/Errors.antt =====
-- Where `ChangedSymbols::compute` of crates/orbit-graph-changes/src/changes.rs fails.
use orbit_graph.Common.{List, Result, ok, err, ◌>>=◌, >>=-eq-ok, ◌≡◌, inl, inr, refl, sym, ◌∙◌}
use orbit_graph.Common.Text.{Text}
use orbit_graph.Selector.{Selector}
use orbit_graph.Changes.Types.{SnapshotSide, ChangesError, git, query, or_git, or_query}
use orbit_graph.Changes.Fallible.{
  >>=-eq-err, or_git-eq-err, or_git-eq-ok, or_query-eq-err, or_query-eq-ok,
}
use orbit_graph.Changes.Files.{ChangedFiles}
use orbit_graph.Changes.Files.Git.{
  Git2, Handle, ComparisonMode, direct_base_head, working_tree, open_repository, parse_sha,
  load_tree, diff_trees, diff_workdir, detect_renames, tree_options, workdir_options, similarity,
  tree_for, diff_for, similar_diff, changed_files,
}
use orbit_graph.Changes.Inventory.{SideInventory, OverviewFile, Snapshot, load, list_symbols}
use orbit_graph.Changes.Pairer.{Context, read_source}
use orbit_graph.Changes.Pairer.Rungs.{pair_all}
use orbit_graph.Changes.Pairer.Failed.{pair_all-IsFailedQuery}
use orbit_graph.Changes.Compute.{Comparison, context_of, compute}

module _ (comparison : Comparison) where
  abbrev pub the_git : Git2
  the_git = comparison.git

  abbrev pub snapshot_of : SnapshotSide → Snapshot
  snapshot_of SnapshotSide.base = comparison.base
  snapshot_of SnapshotSide.head = comparison.head

  abbrev files_of : Result ChangesError ChangedFiles
  files_of =
      changed_files the_git comparison.repository comparison.mode comparison.base.commit_sha
        comparison.head.commit_sha

  -- a commit whose tree is looked for: that of the head after the base's, only in a direct
  -- comparison
  pub data Diffs (repo : Handle) : Text → Type 0 where
    diffs_base : Diffs repo comparison.base.commit_sha
    diffs_head :
        (base_tree : Handle)
        → comparison.mode ≡ direct_base_head
        → tree_for the_git repo comparison.base.commit_sha ≡ ok base_tree
        → Diffs repo comparison.head.commit_sha

  -- a side whose overview is asked for: after the diff, and that of the head after the base's
  pub data Lists : SnapshotSide → Type 0 where
    lists_base : (files : ChangedFiles) → files_of ≡ ok files → Lists SnapshotSide.base
    lists_head :
        (files : ChangedFiles) (overview : List OverviewFile)
        → files_of ≡ ok files
        → comparison.base.overview ≡ ok overview
        → Lists SnapshotSide.head

  -- the call of Git or the query that failed, on what the calls before it gave, and its error
  pub data IsFailedCall (e : ChangesError) : Type 0 where
    not_opened :
        (reason : Text)
        → the_git.discover comparison.repository ≡ err reason
        → e ≡ git open_repository reason
        → IsFailedCall e
    not_parsed :
        (repo : Handle) (sha reason : Text)
        → the_git.discover comparison.repository ≡ ok repo
        → Diffs repo sha
        → the_git.oid_from_str sha ≡ err reason
        → e ≡ git parse_sha reason
        → IsFailedCall e
    not_loaded :
        (repo oid : Handle) (sha reason : Text)
        → the_git.discover comparison.repository ≡ ok repo
        → Diffs repo sha
        → the_git.oid_from_str sha ≡ ok oid
        → (the_git.find_commit repo oid >>= the_git.tree) ≡ err reason
        → e ≡ git load_tree reason
        → IsFailedCall e
    not_diffed :
        (repo base_tree head_tree : Handle) (reason : Text)
        → comparison.mode ≡ direct_base_head
        → the_git.discover comparison.repository ≡ ok repo
        → tree_for the_git repo comparison.base.commit_sha ≡ ok base_tree
        → tree_for the_git repo comparison.head.commit_sha ≡ ok head_tree
        → the_git.diff_tree_to_tree repo base_tree head_tree (tree_options the_git) ≡ err reason
        → e ≡ git diff_trees reason
        → IsFailedCall e
    not_diffed_workdir :
        (repo base_tree : Handle) (reason : Text)
        → comparison.mode ≡ working_tree
        → the_git.discover comparison.repository ≡ ok repo
        → tree_for the_git repo comparison.base.commit_sha ≡ ok base_tree
        → the_git.diff_tree_to_workdir_with_index repo base_tree (workdir_options the_git)
          ≡ err reason
        → e ≡ git diff_workdir reason
        → IsFailedCall e
    not_detected :
        (repo base_tree diff : Handle) (reason : Text)
        → the_git.discover comparison.repository ≡ ok repo
        → tree_for the_git repo comparison.base.commit_sha ≡ ok base_tree
        → diff_for the_git comparison.mode repo base_tree comparison.head.commit_sha ≡ ok diff
        → the_git.find_similar diff (similarity the_git) ≡ err reason
        → e ≡ git detect_renames reason
        → IsFailedCall e
    not_listed :
        (side : SnapshotSide) (reason : Text)
        → Lists side
        → (snapshot_of side).overview ≡ err reason
        → e ≡ query list_symbols side reason
        → IsFailedCall e
    not_shown :
        (c : Context) (side : SnapshotSide) (selector : Selector) (reason : Text)
        → context_of comparison ≡ ok c
        → comparison.show side selector ≡ err reason
        → e ≡ query read_source side reason
        → IsFailedCall e

  tree_for-IsFailedCall :
      (repo : Handle) (sha : Text) {e : ChangesError}
      → the_git.discover comparison.repository ≡ ok repo
      → Diffs repo sha
      → tree_for the_git repo sha ≡ err e
      → IsFailedCall e
  unfolding tree_for
  tree_for-IsFailedCall repo sha opened d f =
      elim (>>=-eq-err (or_git parse_sha (the_git.oid_from_str sha)) _ f) [
        | inl g ↦
            let (reason, failed, is) = or_git-eq-err parse_sha (the_git.oid_from_str sha) g in
            not_parsed repo sha reason opened d failed is
        | inr (oid, parsed, g) ↦
            let (reason, failed, is) =
              or_git-eq-err load_tree (the_git.find_commit repo oid >>= the_git.tree) g in
            not_loaded repo oid sha reason opened d
              (or_git-eq-ok parse_sha (the_git.oid_from_str sha) parsed) failed is
      ]

  diff_for-IsFailedCall :
      (mode : ComparisonMode) (repo base_tree : Handle) {e : ChangesError}
      → comparison.mode ≡ mode
      → the_git.discover comparison.repository ≡ ok repo
      → tree_for the_git repo comparison.base.commit_sha ≡ ok base_tree
      → diff_for the_git mode repo base_tree comparison.head.commit_sha ≡ err e
      → IsFailedCall e
  unfolding diff_for
  diff_for-IsFailedCall direct_base_head repo base_tree m opened loaded f =
      elim (>>=-eq-err (tree_for the_git repo comparison.head.commit_sha) _ f) [
        | inl g ↦
            tree_for-IsFailedCall repo comparison.head.commit_sha opened
              (diffs_head base_tree m loaded) g
        | inr (head_tree, found, g) ↦
            let (reason, failed, is) = or_git-eq-err diff_trees _ g in
            not_diffed repo base_tree head_tree reason m opened loaded found failed is
      ]
  diff_for-IsFailedCall working_tree repo base_tree m opened loaded f =
      let (reason, failed, is) = or_git-eq-err diff_workdir _ f in
      not_diffed_workdir repo base_tree reason m opened loaded failed is

  similar_diff-IsFailedCall :
      {e : ChangesError}
      → similar_diff the_git comparison.repository comparison.mode comparison.base.commit_sha
          comparison.head.commit_sha
        ≡ err e
      → IsFailedCall e
  unfolding similar_diff
  similar_diff-IsFailedCall f =
      elim (>>=-eq-err (or_git open_repository (the_git.discover comparison.repository)) _ f) [
        | inl g ↦
            let (reason, failed, is) = or_git-eq-err open_repository _ g in
            not_opened reason failed is
        | inr (repo, opens, g) ↦
            let opened =
              or_git-eq-ok open_repository (the_git.discover comparison.repository) opens in
            elim (>>=-eq-err (tree_for the_git repo comparison.base.commit_sha) _ g) [
              | inl h ↦ tree_for-IsFailedCall repo comparison.base.commit_sha opened diffs_base h
              | inr (base_tree, loaded, h) ↦
                  elim (>>=-eq-err
                    (diff_for the_git comparison.mode repo base_tree comparison.head.commit_sha) _
                    h) [
                      | inl k ↦
                          diff_for-IsFailedCall comparison.mode repo base_tree refl opened loaded k
                      | inr (diff, diffed, k) ↦
                          let (reason, failed, is) = or_git-eq-err detect_renames _ k in
                          not_detected repo base_tree diff reason opened loaded diffed failed is
                    ]
            ]
      ]

  changed_files-IsFailedCall :
      {e : ChangesError}
      → changed_files the_git comparison.repository comparison.mode comparison.base.commit_sha
          comparison.head.commit_sha
        ≡ err e
      → IsFailedCall e
  unfolding changed_files
  changed_files-IsFailedCall f =
      elim (>>=-eq-err
        (similar_diff the_git comparison.repository comparison.mode comparison.base.commit_sha
          comparison.head.commit_sha)
        _ f) [ inl g ↦ similar_diff-IsFailedCall g | inr (diff, _, g) ↦ absurd (cc) ]

  load-IsFailedCall :
      (side : SnapshotSide) {e : ChangesError}
      → Lists side
      → load side (snapshot_of side) ≡ err e
      → IsFailedCall e
  unfolding load
  load-IsFailedCall side asked f =
      elim (>>=-eq-err (or_query list_symbols side (snapshot_of side).overview) _ f) [
        | inl g ↦
            let (reason, failed, is) =
              or_query-eq-err list_symbols side (snapshot_of side).overview g in
            not_listed side reason asked failed is
        | inr (overview, _, g) ↦ absurd (cc)
      ]

  context_of-show : (c : Context) → context_of comparison ≡ ok c → c.show ≡ comparison.show
  unfolding context_of
  context_of-show c f =
      let (files, _, loads) =
        >>=-eq-ok
          (changed_files comparison.git comparison.repository comparison.mode
            comparison.base.commit_sha comparison.head.commit_sha)
          _ f in
      let (base, _, more) = >>=-eq-ok (load SnapshotSide.base comparison.base) _ loads in
      let (head, _, last) = >>=-eq-ok (load SnapshotSide.head comparison.head) _ more in cc

  load-eq-ok :
      (side : SnapshotSide) (inv : SideInventory)
      → load side (snapshot_of side) ≡ ok inv
      → (overview : List OverviewFile) × ((snapshot_of side).overview ≡ ok overview)
  unfolding load
  load-eq-ok side inv f =
      let (overview, listed, _) =
        >>=-eq-ok (or_query list_symbols side (snapshot_of side).overview) _ f in
      (overview, or_query-eq-ok list_symbols side (snapshot_of side).overview listed)

  context_of-IsFailedCall : {e : ChangesError} → context_of comparison ≡ err e → IsFailedCall e
  unfolding context_of
  context_of-IsFailedCall f = elim (>>=-eq-err files_of _ f) [
    | inl g ↦ changed_files-IsFailedCall g
    | inr (files, read, g) ↦ elim (>>=-eq-err (load SnapshotSide.base comparison.base) _ g) [
      | inl h ↦ load-IsFailedCall SnapshotSide.base (lists_base files read) h
      | inr (base, loaded, h) ↦
          let (overview, listed) = load-eq-ok SnapshotSide.base base loaded in
          elim (>>=-eq-err (load SnapshotSide.head comparison.head) _ h) [
            | inl k ↦ load-IsFailedCall SnapshotSide.head (lists_head files overview read listed) k
            | inr (head, _, k) ↦ absurd (cc)
          ]
    ]
  ]

  ladder-IsFailedCall :
      (c : Context) {e : ChangesError}
      → context_of comparison ≡ ok c
      → pair_all c ≡ err e
      → IsFailedCall e
  ladder-IsFailedCall c {e} ec f =
      let (side, selector, reason, failed, is) = pair_all-IsFailedQuery c e f in
      not_shown c side selector reason ec
        ((λ i. sym (context_of-show c ec) i side selector) ∙ failed) is

-- Where `compute` fails, a call failed, and the error is made of that call's operation and
-- reason: a Git error for the opening of the repository, the parsing of a SHA, the loading of a
-- commit's tree, the diff of the mode of the comparison, or the detection of renames; or a query
-- error with its side for the overview of a snapshot or the source of a symbol. The steps before
-- the failed one succeeded, and gave the handles that it had: the base commit is read before the
-- head commit, which is read only in a direct comparison, the overviews are asked for after the
-- diff, the base first, and the sources after both.
pub compute-IsFailedCall :
    (comparison : Comparison) (e : ChangesError)
    → compute comparison ≡ err e
    → IsFailedCall comparison e
unfolding compute
compute-IsFailedCall comparison e f = elim (>>=-eq-err (context_of comparison) _ f) [
  | inl g ↦ context_of-IsFailedCall comparison g
  | inr (c, ec, g) ↦ elim (>>=-eq-err (pair_all c) _ g) [
    | inl h ↦ ladder-IsFailedCall comparison c ec h
    | inr (paired, _, h) ↦ absurd (cc)
  ]
]
