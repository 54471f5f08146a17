-- ===== src/Changes/Files/Git.antt =====
-- `changed_files` of crates/orbit-graph-changes/src/changes.rs over the calls of the git2 library. What
-- a call of git2 gives back is a handle, which only git2 reads; a call fails with a reason.
use orbit_graph.Common.{ℕ, Bool, true, false, List, Result, ok, ◌>>=◌}
use orbit_graph.Common.Text.{Text, codes}
use orbit_graph.Changes.Types.{ChangesError, or_git}
use orbit_graph.Changes.Files.{DiffDelta, ChangedFiles, no_files, add_deltas}

abbrev pub Handle : Type 0
Handle = ℕ

-- `DiffOptions`, in what `changed_files` sets of it
pub record DiffOptions : Type 0 where
  pub include_typechange : Bool
  pub ignore_submodules : Bool
  pub skip_binary_check : Bool
  pub include_untracked : Bool
  pub recurse_untracked_dirs : Bool
  pub include_ignored : Bool
  pub update_index : Bool

pub record DiffFindOptions : Type 0 where
  pub renames : Bool
  pub copies : Bool

-- The calls of git2: a repository, an object id, a commit, a tree and a diff are handles. The two
-- options are those of `new`. `find_similar` gives back the diff that it changed.
pub record Git2 : Type 0 where
  pub discover : Text → Result Text Handle
  pub oid_from_str : Text → Result Text Handle
  pub find_commit : Handle → Handle → Result Text Handle
  pub tree : Handle → Result Text Handle
  pub diff_options : DiffOptions
  pub diff_tree_to_tree : Handle → Handle → Handle → DiffOptions → Result Text Handle
  pub diff_tree_to_workdir_with_index : Handle → Handle → DiffOptions → Result Text Handle
  pub find_options : DiffFindOptions
  pub find_similar : Handle → DiffFindOptions → Result Text Handle
  pub deltas : Handle → List DiffDelta

pub data ComparisonMode : Type 0 where
  direct_base_head working_tree : ComparisonMode

-- the operations that an error names
abbrev pub open_repository : Text
open_repository = codes "open repository for change detection"

abbrev pub parse_sha : Text
parse_sha = codes "parse comparison commit SHA"

abbrev pub load_tree : Text
load_tree = codes "load comparison commit tree"

abbrev pub diff_trees : Text
diff_trees = codes "diff comparison commit trees"

abbrev pub diff_workdir : Text
diff_workdir = codes "diff base tree against the working tree"

abbrev pub detect_renames : Text
detect_renames = codes "detect renames between commit trees"

abbrev pub tree_options : Git2 → DiffOptions
tree_options g = record g.diff_options {
  include_typechange = true;
  ignore_submodules = true;
  skip_binary_check = false;
}

abbrev pub workdir_options : Git2 → DiffOptions
workdir_options g = record (tree_options g) {
  include_untracked = true;
  recurse_untracked_dirs = true;
  include_ignored = false;
  update_index = false;
}

abbrev pub similarity : Git2 → DiffFindOptions
similarity g = record g.find_options { renames = true; copies = true }

-- the closure `tree_for`
unfoldable pub tree_for : Git2 → Handle → Text → Result ChangesError Handle
tree_for g repo sha = do
  oid ← or_git parse_sha (g.oid_from_str sha)
  or_git load_tree (g.find_commit repo oid >>= g.tree)

-- `match comparison.mode()`
unfoldable pub diff_for :
    Git2 → ComparisonMode → Handle → Handle → Text → Result ChangesError Handle
unfolding tree_for
diff_for g direct_base_head repo base_tree head_sha = do
  head_tree ← tree_for g repo head_sha
  or_git diff_trees (g.diff_tree_to_tree repo base_tree head_tree (tree_options g))
diff_for g working_tree repo base_tree head_sha =
    or_git diff_workdir (g.diff_tree_to_workdir_with_index repo base_tree (workdir_options g))

-- the calls of Git, up to the diff whose deltas are read
unfoldable pub similar_diff :
    Git2 → Text → ComparisonMode → Text → Text → Result ChangesError Handle
unfolding tree_for diff_for
similar_diff g repository mode base_sha head_sha = do
  repo ← or_git open_repository (g.discover repository)
  base_tree ← tree_for g repo base_sha
  diff ← diff_for g mode repo base_tree head_sha
  or_git detect_renames (g.find_similar diff (similarity g))

-- `changed_files`
unfoldable pub changed_files :
    Git2 → Text → ComparisonMode → Text → Text → Result ChangesError ChangedFiles
unfolding similar_diff add_deltas
changed_files g repository mode base_sha head_sha = do
  diff ← similar_diff g repository mode base_sha head_sha
  ok (add_deltas no_files (g.deltas diff))
