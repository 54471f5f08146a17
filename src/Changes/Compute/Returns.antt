-- ===== src/Changes/Compute/Returns.antt =====
-- Where `ChangedSymbols::compute` of crates/orbit-graph-changes/src/changes.rs returns, and what it then
-- works on.
use orbit_graph.Common.{List, Option, ok, Result-cases, ◌≡◌, inl, inr, refl}
use orbit_graph.Common.Text.{Text}
use orbit_graph.Selector.{Selector}
use orbit_graph.Changes.Types.{SnapshotSide, ChangedSymbols, or_git}
use orbit_graph.Changes.Files.{no_files, add_deltas}
use orbit_graph.Changes.Files.Git.{
  Git2, Handle, ComparisonMode, direct_base_head, working_tree, tree_options, workdir_options,
  similarity, tree_for, diff_for, similar_diff, changed_files,
}
use orbit_graph.Changes.Inventory.{OverviewFile, load, load_overview}
use orbit_graph.Changes.Pairer.{View, Context, Pairer}
use orbit_graph.Changes.Pairer.Rungs.{pair_all}
use orbit_graph.Changes.Pairer.Failed.{pair_all-IsFailedQuery}
use orbit_graph.Changes.Compute.{Comparison, context_of, compute}

-- the tree of a commit is there
pub record HasTree (g : Git2) (repo : Handle) (sha : Text) (root : Handle) : Type 0 where
  pub oid : Handle
  pub commit : Handle
  pub parsed : g.oid_from_str sha ≡ ok oid
  pub found : g.find_commit repo oid ≡ ok commit
  pub loaded : g.tree commit ≡ ok root

-- the diff is there: of two trees, or of a tree and the working tree, where no head commit is read
abbrev pub HasDiff : Git2 → ComparisonMode → Handle → Handle → Text → Handle → Type 0
HasDiff g direct_base_head repo base_tree head_sha diff =
    (head_tree : Handle) × HasTree g repo head_sha head_tree
    × (g.diff_tree_to_tree repo base_tree head_tree (tree_options g) ≡ ok diff)
HasDiff g working_tree repo base_tree head_sha diff =
    g.diff_tree_to_workdir_with_index repo base_tree (workdir_options g) ≡ ok diff

-- the calls that `compute` makes succeed
pub record Works (comparison : Comparison) : Type 0 where
  pub repo : Handle
  pub base_tree : Handle
  pub diff : Handle
  pub similar : Handle
  pub base_overview : List OverviewFile
  pub head_overview : List OverviewFile
  pub opened : comparison.git.discover comparison.repository ≡ ok repo
  pub has_tree : HasTree comparison.git repo comparison.base.commit_sha base_tree
  pub has_diff :
      HasDiff comparison.git comparison.mode repo base_tree comparison.head.commit_sha diff
  pub detected : comparison.git.find_similar diff (similarity comparison.git) ≡ ok similar
  pub base_listed : comparison.base.overview ≡ ok base_overview
  pub head_listed : comparison.head.overview ≡ ok head_overview
  pub shows :
      (side : SnapshotSide) (selector : Selector)
      → (view : Option View) × (comparison.show side selector ≡ ok view)

-- what the ladder is then given: the deltas of the diff with renames, and the two overviews
unfoldable pub given : (comparison : Comparison) → Works comparison → Context
given comparison works = record {
  show = comparison.show;
  from_utf8_lossy = comparison.from_utf8_lossy;
  files = add_deltas no_files (comparison.git.deltas works.similar);
  base = load_overview SnapshotSide.base comparison.base.commit_sha works.base_overview;
  head = load_overview SnapshotSide.head comparison.head.commit_sha works.head_overview;
}

tree_for-ok :
    (g : Git2) (repo : Handle) (sha : Text) (root : Handle)
    → HasTree g repo sha root
    → tree_for g repo sha ≡ ok root
unfolding tree_for
tree_for-ok g repo sha root h = rw (h.parsed, or_git) (rw (h.found, or_git) (rw h.loaded refl))

diff_for-ok :
    (g : Git2) (mode : ComparisonMode) (repo base_tree : Handle) (head_sha : Text) (diff : Handle)
    → HasDiff g mode repo base_tree head_sha diff
    → diff_for g mode repo base_tree head_sha ≡ ok diff
unfolding diff_for
diff_for-ok g direct_base_head repo base_tree head_sha diff (head_tree, tree, diffed) =
    rw (tree_for-ok g repo head_sha head_tree tree) (rw diffed refl)
diff_for-ok g working_tree repo base_tree head_sha diff diffed = rw diffed refl

module _ (comparison : Comparison) (works : Works comparison) where
  changed_files-ok :
      changed_files comparison.git comparison.repository comparison.mode comparison.base.commit_sha
        comparison.head.commit_sha
      ≡ ok (add_deltas no_files (comparison.git.deltas works.similar))
  unfolding changed_files similar_diff
  changed_files-ok =
      let g = comparison.git in
      rw works.opened (
        rw (tree_for-ok g works.repo comparison.base.commit_sha works.base_tree works.has_tree) (
          rw
            (diff_for-ok g comparison.mode works.repo works.base_tree comparison.head.commit_sha
              works.diff works.has_diff)
            (rw works.detected refl)))

  context_of-ok : context_of comparison ≡ ok (given comparison works)
  unfolding context_of load given
  context_of-ok = rw changed_files-ok (rw works.base_listed (rw works.head_listed refl))

  pair_all-ok : (paired : Pairer) × (pair_all (given comparison works) ≡ ok paired)
  unfolding given
  pair_all-ok = elim (Result-cases (pair_all (given comparison works))) [
    | inl h ↦ h
    | inr (e, f) ↦
        let (side, selector, reason, failed, _) =
          pair_all-IsFailedQuery (given comparison works) e f in
        let (view, shown) = works.shows side selector in absurd (cc)
  ]

-- Where the calls that a comparison of that mode makes of Git succeed, both overviews succeed
-- and no query for a symbol's source fails, `compute` returns changed symbols, from the deltas
-- of the diff after the detection of renames and the inventories of the two overviews; in a
-- comparison with the working tree no commit of the head is read.
pub compute_ends :
    (comparison : Comparison) (works : Works comparison)
    → (context_of comparison ≡ ok (given comparison works))
      × ((changed : ChangedSymbols) × (compute comparison ≡ ok changed))
unfolding compute
compute_ends comparison works =
    let (paired, e) = pair_all-ok comparison works in
    (
      context_of-ok comparison works,
      elim (Result-cases (compute comparison)) [
        | inl h ↦ h
        | inr (d, f) ↦ absurd (cc (rw (context_of-ok comparison works, e) at f))
      ],
    )
