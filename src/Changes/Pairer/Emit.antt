-- ===== src/Changes/Pairer/Emit.antt =====
-- The entries that `Pairer` emits (crates/orbit-graph-changes/src/changes.rs).
use mathlib.Core.Option
use orbit_graph.Common.{
  Bool, not, ◌&&◌, ◌||◌, List, [], ◌∷◌, ◌++◌, Option, none, some, ◌==◌, nat_eq, list_eq,
  if◌then◌else◌, contains, is_empty, first, Result, ok, ◌>>=◌,
}
use orbit_graph.Common.Text.{Text, codes}
use orbit_graph.Common.Maps.{get, remove}
use orbit_graph.Changes.Types.{
  SnapshotSide, ChangesError, ChangedSymbol, ChangeStatus, Pairing, PairingEvidence, FileChangeKind,
  SymbolRef, UncertainCandidate, Reason, shared_selector, unreadable_source, bounded_source, Note,
  indexed_once_for_several, not_read, bounded_equal, signature_from_to, only_body_changed,
  absent_from_head, absent_from_base, moved_by_git, renamed_by_body, renamed_by_git, none_chosen,
  MoveBody, changed_across, cut_short, identical, not_compared,
}
use orbit_graph.Changes.Inventory.{SideInventory, IndexedSymbol, symbol_ref}
use orbit_graph.Changes.Bodies.{SymbolSource}
use orbit_graph.Changes.Pairer.{
  Context, Pairer, FileChange, source_of, file_change_for_base, file_change_for_head,
}

abbrev pub both_sides : List Text
both_sides = codes "base" ∷ codes "head" ∷ []

unfoldable pub uncertain_pair :
    SymbolRef → SymbolRef → PairingEvidence → FileChange → Reason → Note → ChangedSymbol
uncertain_pair base head evidence file_change reason note = record {
  status = ChangeStatus.uncertain;
  pairing = Pairing.uncertain;
  pairing_evidence = evidence;
  base = some base;
  head = some head;
  supporting_snapshots = both_sides;
  file_change = file_change.0;
  base_path = file_change.1;
  head_path = file_change.2;
  uncertain_candidates =
      record { symbol = base; reason = reason } ∷ record { symbol = head; reason = reason } ∷ [];
  note = some note;
}

-- the last part of the first rung: the sources differ
unfoldable pub modified_pair :
    SymbolRef → SymbolRef → FileChange → SymbolSource → SymbolSource → ChangedSymbol
modified_pair base head file_change old new =
    let changed : Bool = not (old.signature == new.signature) in
    record {
      status = if changed then ChangeStatus.signature_changed else ChangeStatus.modified;
      pairing = if changed then Pairing.signature_changed else Pairing.same_selector;
      pairing_evidence = if changed then PairingEvidence.signature else PairingEvidence.selector;
      base = some base;
      head = some head;
      supporting_snapshots = both_sides;
      file_change = file_change.0;
      base_path = file_change.1;
      head_path = file_change.2;
      uncertain_candidates = [];
      note =
          some
            (if changed then signature_from_to old.signature new.signature else only_body_changed);
    }

-- two sources of one selector; no entry where they are whole and equal
unfoldable pub compare_sources :
    SymbolRef
    → SymbolRef
    → FileChange
    → Option SymbolSource
    → Option SymbolSource
    → Option ChangedSymbol
unfolding uncertain_pair modified_pair
compare_sources base head file_change (some old) (some new) =
    if old.bytes == new.bytes
    then if not old.truncated && not new.truncated
      then none
      else some (
          uncertain_pair base head PairingEvidence.selector file_change bounded_source
            bounded_equal)
    else some (modified_pair base head file_change old new)
compare_sources base head file_change (some old) none =
    some (uncertain_pair base head PairingEvidence.selector file_change unreadable_source not_read)
compare_sources base head file_change none new =
    some (uncertain_pair base head PairingEvidence.selector file_change unreadable_source not_read)

-- one selector of the first rung
unfoldable pub same_selector_change : Context → Text → Result ChangesError (Option ChangedSymbol)
unfolding compare_sources uncertain_pair symbol_ref file_change_for_base source_of
same_selector_change c selector =
    let base_ref = symbol_ref c.base selector in
    let head_ref = symbol_ref c.head selector in
    let file_change = file_change_for_base c selector in
    let compared : Result ChangesError (Option ChangedSymbol) = (do
      base_source ← source_of c SnapshotSide.base selector
      head_source ← source_of c SnapshotSide.head selector
      ok (compare_sources base_ref head_ref file_change base_source head_source)) in
    if contains c.base.ambiguous_selectors selector || contains c.head.ambiguous_selectors selector
    then ok (
        some (
          uncertain_pair base_ref head_ref PairingEvidence.no_evidence file_change shared_selector
            indexed_once_for_several))
    else compared

-- `body` of `emit_moved`
unfoldable pub move_body : Option SymbolSource → Option SymbolSource → MoveBody
move_body (some old) (some new) =
    if not (old.bytes == new.bytes)
    then changed_across
    else if old.truncated || new.truncated
    then cut_short
    else identical
move_body (some old) none = not_compared
move_body none new = not_compared

unfoldable pub moved_change :
    Context → FileChangeKind → PairingEvidence → Text → Text → MoveBody → ChangedSymbol
unfolding symbol_ref file_change_for_base
moved_change c kind evidence base_selector head_selector body =
    let file_change = file_change_for_base c base_selector in
    record {
      status = ChangeStatus.moved;
      pairing = Pairing.moved;
      pairing_evidence = evidence;
      base = some (symbol_ref c.base base_selector);
      head = some (symbol_ref c.head head_selector);
      supporting_snapshots = both_sides;
      file_change = kind;
      base_path = file_change.1;
      head_path = file_change.2;
      uncertain_candidates = [];
      note = some (moved_by_git kind body);
    }

-- what `emit_moved` and `emit_renamed` do to the state
unfoldable pub emit_pair : Text → Text → ChangedSymbol → Pairer → Pairer
unfolding remove
emit_pair base_selector head_selector change p = record {
  unpaired_base = remove base_selector p.unpaired_base;
  unpaired_head = remove head_selector p.unpaired_head;
  symbols = p.symbols ++ change ∷ [];
}

unfoldable pub emit_moved :
    Context → FileChangeKind → PairingEvidence → Text → Text → Pairer → Result ChangesError Pairer
unfolding move_body moved_change emit_pair source_of
emit_moved c kind evidence base_selector head_selector p = do
  base_source ← source_of c SnapshotSide.base base_selector
  head_source ← source_of c SnapshotSide.head head_selector
  ok (
      emit_pair base_selector head_selector
        (moved_change c kind evidence base_selector head_selector
          (move_body base_source head_source))
        p)

unfoldable pub rename_note : FileChangeKind → PairingEvidence → Note
rename_note kind PairingEvidence.body_hash = renamed_by_body
rename_note kind PairingEvidence.selector = renamed_by_git kind
rename_note kind PairingEvidence.signature = renamed_by_git kind
rename_note kind PairingEvidence.git_rename = renamed_by_git kind
rename_note kind PairingEvidence.git_copy = renamed_by_git kind
rename_note kind PairingEvidence.no_evidence = renamed_by_git kind

unfoldable pub renamed_change :
    Context → FileChangeKind → PairingEvidence → Text → Text → ChangedSymbol
unfolding rename_note symbol_ref file_change_for_base
renamed_change c kind evidence base_selector head_selector =
    let file_change = file_change_for_base c base_selector in
    record {
      status = ChangeStatus.renamed;
      pairing = Pairing.renamed;
      pairing_evidence = evidence;
      base = some (symbol_ref c.base base_selector);
      head = some (symbol_ref c.head head_selector);
      supporting_snapshots = both_sides;
      file_change = kind;
      base_path = file_change.1;
      head_path = file_change.2;
      uncertain_candidates = [];
      note = some (rename_note kind evidence);
    }

unfoldable pub emit_renamed :
    Context → FileChangeKind → PairingEvidence → Text → Text → Pairer → Pairer
unfolding renamed_change emit_pair
emit_renamed c kind evidence base_selector head_selector =
    emit_pair base_selector head_selector
      (renamed_change c kind evidence base_selector head_selector)

-- One loop of `emit_uncertain_group`: the candidates that were pending, and what is pending still.
unfoldable pub take_candidates :
    SideInventory → Reason → List Text → List Text → List UncertainCandidate × List Text
unfolding remove symbol_ref
take_candidates inv reason [] pending = ([], pending)
take_candidates inv reason (selector ∷ rest) pending =
    let later = take_candidates inv reason rest (remove selector pending) in
    let candidate : UncertainCandidate = record {
      symbol = symbol_ref inv selector;
      reason = reason;
    } in
    (if contains pending selector then candidate ∷ later.0 else later.0, later.1)

unfoldable pub first_path : SideInventory → List Text → Option Text
unfolding get Option.bind
first_path inv selectors =
    Option.map (λ (s : IndexedSymbol). s.path)
      (Option.bind (first selectors) (λ selector. get selector inv.symbols))

unfoldable pub uncertain_group :
    Context
    → FileChangeKind
    → Reason
    → List Text
    → List Text
    → List UncertainCandidate
    → ChangedSymbol
unfolding first_path
uncertain_group c kind reason base_selectors head_selectors candidates = record {
  status = ChangeStatus.uncertain;
  pairing = Pairing.uncertain;
  pairing_evidence = PairingEvidence.no_evidence;
  base = none;
  head = none;
  supporting_snapshots = both_sides;
  file_change = kind;
  base_path = first_path c.base base_selectors;
  head_path = first_path c.head head_selectors;
  uncertain_candidates = candidates;
  note = some (none_chosen reason);
}

unfoldable pub emit_uncertain_group :
    Context → FileChangeKind → Reason → List Text → List Text → Pairer → Pairer
unfolding take_candidates uncertain_group
emit_uncertain_group c kind reason base_selectors head_selectors p =
    let of_base = take_candidates c.base reason base_selectors p.unpaired_base in
    let of_head = take_candidates c.head reason head_selectors p.unpaired_head in
    let candidates = of_base.0 ++ of_head.0 in
    record {
      unpaired_base = of_base.1;
      unpaired_head = of_head.1;
      symbols =
          if is_empty candidates
          then p.symbols
          else p.symbols
            ++ uncertain_group c kind reason base_selectors head_selectors candidates ∷ [];
    }

unfoldable pub removed_change : Context → Text → ChangedSymbol
unfolding symbol_ref file_change_for_base
removed_change c selector =
    let file_change = file_change_for_base c selector in
    record {
      status = ChangeStatus.removed;
      pairing = Pairing.same_selector;
      pairing_evidence = PairingEvidence.selector;
      base = some (symbol_ref c.base selector);
      head = none;
      supporting_snapshots = codes "base" ∷ [];
      file_change = file_change.0;
      base_path = file_change.1;
      head_path = file_change.2;
      uncertain_candidates = [];
      note = some absent_from_head;
    }

unfoldable pub added_change : Context → Text → ChangedSymbol
unfolding symbol_ref file_change_for_head
added_change c selector =
    let file_change = file_change_for_head c selector in
    record {
      status = ChangeStatus.added;
      pairing = Pairing.same_selector;
      pairing_evidence = PairingEvidence.selector;
      base = none;
      head = some (symbol_ref c.head selector);
      supporting_snapshots = codes "head" ∷ [];
      file_change = file_change.0;
      base_path = file_change.1;
      head_path = file_change.2;
      uncertain_candidates = [];
      note = some absent_from_base;
    }
