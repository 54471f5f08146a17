-- ===== src/Changes/Types.antt =====
-- crates/orbit-graph-changes/src/changes.rs: the structs and enums of the changed symbols, and the
-- sides of a comparison of snapshot.rs. A sentence of a note or of a reason is a constructor that
-- holds what the sentence names.
use orbit_graph.Common.{ℕ, List, [], Option, none, some, nat_eq, list_eq, Result, ok, err}
use mathlib.Core.Option.{or_else}
use orbit_graph.Common.Text.{Text, codes}

pub data SnapshotSide : Type 0 where
  base head : SnapshotSide

unfoldable pub side_label : SnapshotSide → Text
side_label base = codes "base"
side_label head = codes "head"

pub data ChangeStatus : Type 0 where
  added removed modified signature_changed moved renamed uncertain : ChangeStatus

unfoldable pub status_label : ChangeStatus → Text
status_label ChangeStatus.added = codes "added"
status_label ChangeStatus.removed = codes "removed"
status_label ChangeStatus.modified = codes "modified"
status_label ChangeStatus.signature_changed = codes "signature_changed"
status_label ChangeStatus.moved = codes "moved"
status_label ChangeStatus.renamed = codes "renamed"
status_label ChangeStatus.uncertain = codes "uncertain"

-- the place of a status in its derived order
unfoldable pub status_rank : ChangeStatus → ℕ
status_rank ChangeStatus.added = 0
status_rank ChangeStatus.removed = 1
status_rank ChangeStatus.modified = 2
status_rank ChangeStatus.signature_changed = 3
status_rank ChangeStatus.moved = 4
status_rank ChangeStatus.renamed = 5
status_rank ChangeStatus.uncertain = 6

pub data Pairing : Type 0 where
  same_selector signature_changed moved renamed uncertain : Pairing

pub data PairingEvidence : Type 0 where
  selector signature git_rename git_copy body_hash no_evidence : PairingEvidence

pub data FileChangeKind : Type 0 where
  added deleted modified renamed copied type_changed other : FileChangeKind

-- `Delta` of the git2 library
pub data Delta : Type 0 where
  unmodified added deleted modified renamed copied ignored untracked typechange : Delta
  unreadable conflicted : Delta

unfoldable pub from_delta : Delta → FileChangeKind
from_delta Delta.added = FileChangeKind.added
from_delta Delta.deleted = FileChangeKind.deleted
from_delta Delta.modified = FileChangeKind.modified
from_delta Delta.renamed = FileChangeKind.renamed
from_delta Delta.copied = FileChangeKind.copied
from_delta Delta.typechange = FileChangeKind.type_changed
from_delta Delta.unmodified = FileChangeKind.other
from_delta Delta.ignored = FileChangeKind.other
from_delta Delta.untracked = FileChangeKind.other
from_delta Delta.unreadable = FileChangeKind.other
from_delta Delta.conflicted = FileChangeKind.other

pub data ExclusionReason : Type 0 where
  symlink submodule unsafe_name unsupported_kind : ExclusionReason
  oversize_blob : ℕ → ExclusionReason

pub data OutOfScopeReason : Type 0 where
  unsupported_language symlink submodule oversize_blob : OutOfScopeReason
  unsafe_name unsupported_kind : OutOfScopeReason

unfoldable pub from_exclusion : ExclusionReason → OutOfScopeReason
from_exclusion ExclusionReason.symlink = OutOfScopeReason.symlink
from_exclusion ExclusionReason.submodule = OutOfScopeReason.submodule
from_exclusion (ExclusionReason.oversize_blob bytes) = OutOfScopeReason.oversize_blob
from_exclusion ExclusionReason.unsafe_name = OutOfScopeReason.unsafe_name
from_exclusion ExclusionReason.unsupported_kind = OutOfScopeReason.unsupported_kind

pub record SymbolRef : Type 0 where
  pub selector : Text
  pub snapshot : Text
  pub commit_sha : Text

-- why a candidate is uncertain
pub data Reason : Type 0 where
  shared_selector unreadable_source bounded_source : Reason
  repeated_name : Text → Reason
  several_of_kind : Text → Reason
  same_body : Text → Text → Reason
  other_path : Text → Reason

pub data MoveBody : Type 0 where
  changed_across cut_short identical not_compared : MoveBody

pub data Note : Type 0 where
  indexed_once_for_several not_read bounded_equal : Note
  signature_from_to : Text → Text → Note
  only_body_changed absent_from_head absent_from_base : Note
  moved_by_git : FileChangeKind → MoveBody → Note
  renamed_by_body : Note
  renamed_by_git : FileChangeKind → Note
  none_chosen : Reason → Note

pub record UncertainCandidate : Type 0 where
  pub symbol : SymbolRef
  pub reason : Reason

pub record ChangedSymbol : Type 0 where
  pub status : ChangeStatus
  pub pairing : Pairing
  pub pairing_evidence : PairingEvidence
  pub base : Option SymbolRef
  pub head : Option SymbolRef
  pub supporting_snapshots : List Text
  pub file_change : FileChangeKind
  pub base_path : Option Text
  pub head_path : Option Text
  pub uncertain_candidates : List UncertainCandidate
  pub note : Option Note

unfoldable pub primary_selector : ChangedSymbol → Text
unfolding or_else
primary_selector change = elim (or_else change.head change.base) [ none ↦ [] | some r ↦ r.selector ]

pub record OutOfScopeEntry : Type 0 where
  pub path : Text
  pub reason : OutOfScopeReason
  pub snapshot : Text

pub record ChangedSymbols : Type 0 where
  pub symbols : List ChangedSymbol
  pub out_of_scope : List OutOfScopeEntry

-- a failed call of Git or a failed query of a snapshot: the operation, and the reason given for it
pub data ChangesError : Type 0 where
  git : Text → Text → ChangesError
  query : Text → SnapshotSide → Text → ChangesError

-- `map_err(|error| ChangesError::git(operation, &error))`
abbrev pub or_git {ℓ} : {A : Type ℓ} → Text → Result Text A → Result ChangesError A
or_git operation (err reason) = err (git operation reason)
or_git operation (ok value) = ok value

-- `map_err(|error| ChangesError::Query { operation, side, reason })`
abbrev pub or_query {ℓ} : {A : Type ℓ} → Text → SnapshotSide → Result Text A → Result ChangesError A
or_query operation side (err reason) = err (query operation side reason)
or_query operation side (ok value) = ok value
