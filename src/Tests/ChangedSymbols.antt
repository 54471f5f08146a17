-- ===== src/Tests/ChangedSymbols.antt =====
-- Runs of crates/orbit-graph-changes/src/changes.rs: a file that was renamed and one that was edited.
use orbit_graph.Common.{
  false, List, [], ◌∷◌, Option, none, some, map, ◌==◌, nat_eq, list_eq, if◌then◌else◌, Result, ok,
  err, ◌≡◌, refl, ◌&&◌, ◌||◌, not, contains, filter, length, ◌+◌, is_empty, any,
}
use orbit_graph.Common.Text.{Text, codes}
use orbit_graph.Selector.{Selector}
use orbit_graph.Changes.Types.{
  SnapshotSide, Delta, ChangeStatus, ChangedSymbol, ChangedSymbols, ChangesError, git,
}
use orbit_graph.Changes.Files.{GitPath, DiffDelta, add_deltas}
use orbit_graph.Changes.Files.Git.{Git2, DiffOptions, direct_base_head, load_tree}
use orbit_graph.Changes.Inventory.{
  OverviewSymbol, OverviewFile, Snapshot, SideInventory, load, load_overview,
}
use orbit_graph.Changes.Inventory.Loaded.{Holds, count_in, load-Holds}
use orbit_graph.Changes.Bodies.{
  Bytes, SymbolSource, as_bytes, identifier_byte, body_hash, normalized_body_hash,
}
use orbit_graph.Changes.Bodies.Normal.{by_words, normalized_body_hash_lem}
use orbit_graph.Changes.Filters.{FilterSet}
use orbit_graph.Changes.Pairer.{View, Context, Pairer}
use orbit_graph.Changes.Pairer.Rungs.{pair_all, pair_same_selector, new_pairer, emit_unpaired}
use orbit_graph.Changes.Pairer.Climb.{pair_all-Reach}
use orbit_graph.Changes.Pairer.Steps.{times, one_if, Reach}
use orbit_graph.Changes.Pairer.Coherent.{IsCoherent}
use orbit_graph.Changes.Compute.{Comparison, context_of, compute, filtered}
use orbit_graph.Changes.Compute.Once.{context_of-HasSides, candidates, unchanged, compute-once}
use orbit_graph.Changes.Compute.Errors.{IsFailedCall, compute-IsFailedCall}
use orbit_graph.Changes.Compute.Returns.{HasTree, Works, given, compute_ends}
use orbit_graph.Changes.Compute.Kept.{admits, left_out, filtered_lem}
use orbit_graph.Changes.Selection.{
  Locate, Entry, ResolvedSelection, EvidenceError, Occurrence, resolve, selects, unmatched,
}
use orbit_graph.Changes.Selection.Laws.{asks_for, hits, resolve_lem}

abbrev function : Text → OverviewSymbol
function name = record { name = name; qualified = name; kind = codes "function" }

abbrev path_a : Text
path_a = codes "a.rs"

abbrev path_b : Text
path_b = codes "b.rs"

abbrev path_c : Text
path_c = codes "c.rs"

abbrev git_path : Text → Option GitPath
git_path path = some (record { to_str = some path; components = path ∷ [] })

abbrev base_overview : List OverviewFile
base_overview =
    record { path = path_a; symbols = function (codes "f") ∷ function (codes "g") ∷ [] }
    ∷ record { path = path_c; symbols = function (codes "m") ∷ function (codes "n") ∷ [] }
    ∷ []

abbrev base_snapshot : Snapshot
base_snapshot = record { commit_sha = codes "1"; overview = ok base_overview; excluded = [] }

abbrev head_overview : List OverviewFile
head_overview =
    record { path = path_b; symbols = function (codes "f") ∷ function (codes "k") ∷ [] }
    ∷ record {
      path = path_c;
      symbols = function (codes "m") ∷ function (codes "n") ∷ function (codes "o") ∷ [];
    }
    ∷ []

abbrev head_snapshot : Snapshot
head_snapshot = record { commit_sha = codes "2"; overview = ok head_overview; excluded = [] }

-- the source of `m` differs between the sides, that of any other function is its name
abbrev source_bytes : SnapshotSide → Text → Text
source_bytes SnapshotSide.base name = name
source_bytes SnapshotSide.head name = if name == codes "m" then codes "m1" else name

abbrev show_symbol : SnapshotSide → Selector → Result Text (Option View)
show_symbol side (Selector.symbol path name kind) =
    ok (some (record { bytes = source_bytes side name; truncated = false }))
show_symbol side (Selector.dir path) = ok none
show_symbol side (Selector.file path) = ok none
show_symbol side (Selector.module_named name) = ok none
show_symbol side (Selector.command name) = ok none

abbrev diffed : List DiffDelta
diffed =
    record { status = Delta.renamed; old_file = git_path path_a; new_file = git_path path_b }
    ∷ record { status = Delta.modified; old_file = git_path path_c; new_file = git_path path_c }
    ∷ []

abbrev no_options : DiffOptions
no_options = record {
  include_typechange = false;
  ignore_submodules = false;
  skip_binary_check = false;
  include_untracked = false;
  recurse_untracked_dirs = false;
  include_ignored = false;
  update_index = false;
}

-- a Git whose diffs are all the same
abbrev one_diff : Git2
one_diff = record {
  discover = λ path. ok 0;
  oid_from_str = λ sha. ok 1;
  find_commit = λ repo oid. ok 2;
  tree = λ commit. ok 3;
  diff_options = no_options;
  diff_tree_to_tree = λ repo old new options. ok 4;
  diff_tree_to_workdir_with_index = λ repo old options. ok 4;
  find_options = record { renames = false; copies = false };
  find_similar = λ diff options. ok 5;
  deltas = λ diff. diffed;
}

abbrev comparison : Comparison
comparison = record {
  git = one_diff;
  repository = codes ".";
  mode = direct_base_head;
  show = show_symbol;
  from_utf8_lossy = λ bytes. bytes;
  base = base_snapshot;
  head = head_snapshot;
}

abbrev statuses : Result ChangesError ChangedSymbols → List ChangeStatus
statuses (ok changed) = map (λ (change : ChangedSymbol). change.status) changed.symbols
statuses (err e) = []

-- `g` is the sole function that is left on the base of the renamed file, as `k` is on its head
statuses_found :
    statuses (compute comparison)
    ≡ ChangeStatus.moved ∷ ChangeStatus.renamed ∷ ChangeStatus.signature_changed
      ∷ ChangeStatus.added ∷ []
unfolding compute
statuses_found = refl

abbrev changed_of : Result ChangesError ChangedSymbols → ChangedSymbols
changed_of (ok changed) = changed
changed_of (err e) = record { symbols = []; out_of_scope = [] }

abbrev changed_symbols : ChangedSymbols
changed_symbols = changed_of (compute comparison)

computed : compute comparison ≡ ok changed_symbols
unfolding compute
computed = refl

abbrev selector_g : Text
selector_g = codes "symbol:a.rs#g:function"

compute-once_example :
    (c : Context) × (context_of comparison ≡ ok c)
    × (times SnapshotSide.base selector_g changed_symbols.symbols
        ≡ one_if
            (contains (candidates c SnapshotSide.base) selector_g && not (unchanged c selector_g)))
compute-once_example = compute-once comparison changed_symbols SnapshotSide.base selector_g computed

-- a repository without the commits
abbrev broken : Comparison
broken = record comparison {
  git = record one_diff { find_commit = λ repo oid. err (codes "object not found") };
}

failed : compute broken ≡ err (git load_tree (codes "object not found"))
unfolding compute
failed = refl

compute-IsFailedCall_example : IsFailedCall broken (git load_tree (codes "object not found"))
compute-IsFailedCall_example =
    compute-IsFailedCall broken (git load_tree (codes "object not found")) failed

shows :
    (side : SnapshotSide) (selector : Selector)
    → (view : Option View) × (comparison.show side selector ≡ ok view)
shows side (Selector.symbol path name kind) = (_, refl)
shows side (Selector.dir path) = (none, refl)
shows side (Selector.file path) = (none, refl)
shows side (Selector.module_named name) = (none, refl)
shows side (Selector.command name) = (none, refl)

abbrev has_tree : (sha : Text) → HasTree one_diff 0 sha 3
has_tree sha = record { oid = 1; commit = 2; parsed = refl; found = refl; loaded = refl }

abbrev works : Works comparison
works = record {
  repo = 0;
  base_tree = 3;
  diff = 4;
  similar = 5;
  base_overview = base_overview;
  head_overview = head_overview;
  opened = refl;
  has_tree = has_tree base_snapshot.commit_sha;
  has_diff = (3, has_tree head_snapshot.commit_sha, refl);
  detected = refl;
  base_listed = refl;
  head_listed = refl;
  shows = shows;
}

compute_ends_example :
    (context_of comparison ≡ ok (given comparison works))
    × ((changed : ChangedSymbols) × (compute comparison ≡ ok changed))
compute_ends_example = compute_ends comparison works

abbrev only_added : FilterSet
only_added = record { language = none; change_kind = codes "added" ∷ []; scope = none }

filtered_lem_example :
    ((filtered changed_symbols only_added).0.symbols
      ≡ filter (admits only_added) changed_symbols.symbols)
    × (length (filtered changed_symbols only_added).0.symbols
          + left_out (filtered changed_symbols only_added).1
        ≡ length changed_symbols.symbols)
    × ((filtered changed_symbols only_added).0.out_of_scope ≡ changed_symbols.out_of_scope)
filtered_lem_example = filtered_lem changed_symbols only_added

three_left_out : left_out (filtered changed_symbols only_added).1 ≡ 3
unfolding compute filtered
three_left_out = refl

load-Holds_example :
    (inv : SideInventory) × (load SnapshotSide.base base_snapshot ≡ ok inv)
    × Holds inv selector_g (count_in selector_g base_overview)
load-Holds_example = load-Holds SnapshotSide.base base_snapshot base_overview selector_g refl

abbrev source_g : SymbolSource
source_g = record {
  bytes = codes "fn g() { g1(); g() }";
  signature = codes "fn g() { g1(); g() }";
  truncated = false;
}

abbrev normalized_g : Bytes
normalized_g = codes "fn<identifier>(){g1();<identifier>()}"

normalized : normalized_body_hash source_g (codes "g") ≡ some (body_hash normalized_g, normalized_g)
unfolding normalized_body_hash
normalized = refl

normalized_body_hash_lem_example :
    normalized_body_hash source_g (codes "g")
    ≡ some
        (body_hash (by_words (codes "g") [] source_g.bytes), by_words (codes "g") [] source_g.bytes)
unfolding as_bytes identifier_byte
normalized_body_hash_lem_example = normalized_body_hash_lem source_g (codes "g") (refl, tt)

by_words_g : by_words (codes "g") [] source_g.bytes ≡ normalized_g
unfolding by_words
by_words_g = refl

abbrev locate_f : Locate
locate_f SnapshotSide.base selector = ok (
    some (record {
      file = path_a;
      kind = codes "function";
      name = some (codes "f");
      qualified = none;
    }))
locate_f SnapshotSide.head selector = ok none

abbrev selection_of : Result EvidenceError ResolvedSelection → ResolvedSelection
selection_of (ok r) = r
selection_of (err e) = record { entries = []; base = []; head = [] }

abbrev asked : List Text
asked = codes "symbol:f.rs#f:function" ∷ []

abbrev selection : ResolvedSelection
selection = selection_of (resolve locate_f asked)

selection_resolved : resolve locate_f asked ≡ ok selection
unfolding resolve
selection_resolved = refl

resolve_lem_example :
    (map (λ (e : Entry). e.requested) selection.entries ≡ asked)
    × ((base head : Option Text)
        → selects selection base head ≡ (
            is_empty asked
            || any (λ (e : Entry). asks_for e.base base || asks_for e.head head) selection.entries))
    × ((occurrences : List Occurrence)
        → unmatched selection occurrences
          ≡ map
              (λ (e : Entry). e.requested)
              (filter
                (λ (e : Entry). not (any (λ (o : Occurrence). hits o e) occurrences))
                selection.entries))
resolve_lem_example = resolve_lem locate_f asked selection_resolved

one_unmatched :
    unmatched selection ((SnapshotSide.head, codes "symbol:a.rs#f:function") ∷ []) ≡ asked
unfolding resolve unmatched
one_unmatched = refl

abbrev context : Context
context = given comparison works

read : context_of comparison ≡ ok context
unfolding context_of given
read = refl

abbrev pairer_of : Result ChangesError Pairer → Pairer
pairer_of (ok p) = p
pairer_of (err e) = record { unpaired_base = []; unpaired_head = []; symbols = [] }

paired : pair_all context ≡ ok (pairer_of (pair_all context))
unfolding given pair_all add_deltas load_overview
paired = refl

pair_all-Reach_example :
    (first : Pairer) × (last : Pairer) × (pair_same_selector context (new_pairer context)
      ≡ ok first)
    × Reach (IsCoherent context) first last
    × (pairer_of (pair_all context) ≡ emit_unpaired context last)
pair_all-Reach_example =
    pair_all-Reach context (context_of-HasSides comparison context read)
      (pairer_of (pair_all context)) paired
