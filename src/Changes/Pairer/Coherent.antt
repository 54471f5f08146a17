-- ===== src/Changes/Pairer/Coherent.antt =====
-- What an entry of the changed symbols (crates/orbit-graph-changes/src/changes.rs) says of the two
-- snapshots, by its status.
use mathlib.Core.List.{Memᴰ}
use orbit_graph.Common.{
  false, true, List, [], none, some, ◌≡◌, ◌⊎◌, is_empty, ok, contains, nat_eq, list_eq,
}
use orbit_graph.Common.Text.{Text}
use orbit_graph.Changes.Types.{
  SnapshotSide, ChangedSymbol, ChangeStatus, Pairing, PairingEvidence, FileChangeKind,
}
use orbit_graph.Changes.Files.{FileDelta}
use orbit_graph.Changes.Inventory.{symbol_ref, selectors_in}
use orbit_graph.Changes.Pairer.{Context}
use orbit_graph.Changes.Pairer.Rungs.{NameAndKind, BodyKey, name_and_kind, kind_of, body_of}

module _ (c : Context) where
  -- two selectors of one name and kind, of one kind, or of one complete normalized body
  abbrev pub SharesName : Text → Text → Type 0
  SharesName b h =
      (key : NameAndKind) × (name_and_kind c.base b ≡ ok (some key))
      × (name_and_kind c.head h ≡ ok (some key))

  abbrev pub SharesKind : Text → Text → Type 0
  SharesKind b h =
      (kind : Text) × (kind_of c.base b ≡ ok (some kind)) × (kind_of c.head h ≡ ok (some kind))

  abbrev pub SharesBody : Text → Text → Type 0
  SharesBody b h =
      (key : BodyKey) × (body_of c SnapshotSide.base c.base b ≡ ok (some key))
      × (body_of c SnapshotSide.head c.head h ≡ ok (some key))

  -- a delta of the diff, from one file to another
  pub record IsDelta (kind : FileChangeKind) (base_path head_path : Text) : Type 0 where
    pub delta : FileDelta
    pub among : Memᴰ delta c.files.deltas
    pub of_kind : delta.kind ≡ kind
    pub old : delta.base_path ≡ some base_path
    pub new : delta.head_path ≡ some head_path

  -- the selectors that a file lists
  abbrev pub base_file : Text → List Text
  base_file = selectors_in c.base

  abbrev pub head_file : Text → List Text
  head_file = selectors_in c.head

  -- a rename or a copy, and the evidence that is named after it
  abbrev pub IsGitKind : FileChangeKind → PairingEvidence → Type 0
  IsGitKind kind evidence =
      ((kind ≡ FileChangeKind.renamed) × (evidence ≡ PairingEvidence.git_rename))
      ⊎ ((kind ≡ FileChangeKind.copied) × (evidence ≡ PairingEvidence.git_copy))

  -- two selectors of the two files of one delta that is a rename or a copy
  pub record IsGitPair (kind : FileChangeKind) (evidence : PairingEvidence) (b h : Text)
      : Type 0 where
    pub by_git : IsGitKind kind evidence
    pub base_path : Text
    pub head_path : Text
    pub delta : IsDelta kind base_path head_path
    pub lists_base : contains (base_file base_path) b ≡ true
    pub lists_head : contains (head_file head_path) h ≡ true

  -- two selectors of one file that a delta leaves at its path
  pub record IsFilePair (kind : FileChangeKind) (b h : Text) : Type 0 where
    pub path : Text
    pub delta : IsDelta kind path path
    pub lists_base : contains (base_file path) b ≡ true
    pub lists_head : contains (head_file path) h ≡ true

  -- the ground of a rename, by its evidence
  unfoldable pub IsGround : FileChangeKind → PairingEvidence → Text → Text → Type 0
  IsGround kind PairingEvidence.body_hash b h = SharesBody b h × IsFilePair kind b h
  IsGround kind PairingEvidence.git_rename b h =
      SharesKind b h × IsGitPair kind PairingEvidence.git_rename b h
  IsGround kind PairingEvidence.git_copy b h =
      SharesKind b h × IsGitPair kind PairingEvidence.git_copy b h
  IsGround kind PairingEvidence.selector b h = ⊥
  IsGround kind PairingEvidence.signature b h = ⊥
  IsGround kind PairingEvidence.no_evidence b h = ⊥

  abbrev pub IsPair : ChangedSymbol → Text → Text → Type 0
  IsPair change b h =
      (change.base ≡ some (symbol_ref c.base b))
      × (change.head ≡ some (symbol_ref c.head h))
      × (change.uncertain_candidates ≡ [])

  unfoldable pub HasShape : ChangeStatus → ChangedSymbol → Type 0
  HasShape ChangeStatus.added change =
      (change.pairing ≡ Pairing.same_selector)
      × (change.base ≡ none)
      × ((h : Text) × (change.head ≡ some (symbol_ref c.head h)))
  HasShape ChangeStatus.removed change =
      (change.pairing ≡ Pairing.same_selector)
      × (change.head ≡ none)
      × ((b : Text) × (change.base ≡ some (symbol_ref c.base b)))
  HasShape ChangeStatus.modified change =
      (change.pairing ≡ Pairing.same_selector) × ((s : Text) × IsPair change s s)
  HasShape ChangeStatus.signature_changed change =
      (change.pairing ≡ Pairing.signature_changed) × ((s : Text) × IsPair change s s)
  HasShape ChangeStatus.moved change =
      (change.pairing ≡ Pairing.moved)
      × ((b : Text) × (h : Text) × IsPair change b h
          × SharesName b h
          × IsGitPair change.file_change change.pairing_evidence b h)
  HasShape ChangeStatus.renamed change =
      (change.pairing ≡ Pairing.renamed)
      × ((b : Text) × (h : Text) × IsPair change b h
          × IsGround change.file_change change.pairing_evidence b h)
  HasShape ChangeStatus.uncertain change =
      (change.pairing ≡ Pairing.uncertain) × (is_empty change.uncertain_candidates ≡ false)

  unfoldable pub IsCoherent : ChangedSymbol → Type 0
  IsCoherent change = HasShape change.status change
