-- ===== src/Changes/Pairer/Rungs.antt =====
-- The rungs of the ladder of `Pairer` and `ChangedSymbols::compute`
-- (crates/orbit-graph-changes/src/changes.rs). A loop over groups is over the base's groups in the
-- order of their keys, beside the head's group of the same key.
use Prim.Native.Nat.{compare, Ordering}
use mathlib.Core.Option
use orbit_graph.Common.{
  ℕ, Bool, true, ◌&&◌, List, [], ◌∷◌, ◌++◌, Option, none, some, map, ◌==◌, nat_eq, list_eq,
  if◌then◌else◌, filter, contains, collect, Result, ok, ◌>>=◌, Eq, ◌↔◌, ◌≡◌, arith, eq_iff,
}
use orbit_graph.Common.Text.{Text}
use orbit_graph.Common.Maps.{get, remove, push_to, in_key_order}
use orbit_graph.Common.Sort.{compare_text, then_compare}
use orbit_graph.Changes.Types.{
  SnapshotSide, ChangesError, ChangedSymbol, PairingEvidence, FileChangeKind, repeated_name,
  several_of_kind, same_body, other_path,
}
use orbit_graph.Changes.Files.{FileDelta, base_paths, head_paths, renamed_pairs}
use orbit_graph.Changes.Inventory.{SideInventory, IndexedSymbol, candidate_selectors}
use orbit_graph.Changes.Bodies.{Bytes, SymbolSource, parent_qualified, normalized_body_hash}
use orbit_graph.Changes.Pairer.{Context, Pairer, source_of, unpaired_in}
use orbit_graph.Changes.Pairer.Emit.{
  same_selector_change, emit_moved, emit_renamed, emit_uncertain_group, removed_change,
  added_change,
}

abbrev pub Groups : Type 0 → Type 0
Groups K = List (K × List Text)

-- the first rung
unfoldable pub push_option : Option ChangedSymbol → List ChangedSymbol → List ChangedSymbol
push_option none symbols = symbols
push_option (some change) symbols = symbols ++ change ∷ []

unfoldable pub pair_shared : Context → List Text → Pairer → Result ChangesError Pairer
unfolding same_selector_change push_option remove
pair_shared c [] p = ok p
pair_shared c (selector ∷ shared) p = same_selector_change c selector >>= λ change.
    pair_shared c shared (record {
      unpaired_base = remove selector p.unpaired_base;
      unpaired_head = remove selector p.unpaired_head;
      symbols = push_option change p.symbols;
    })

unfoldable pub pair_same_selector : Context → Pairer → Result ChangesError Pairer
unfolding pair_shared
pair_same_selector c p = pair_shared c (filter (contains p.unpaired_head) p.unpaired_base) p

module _ {K : Type 0} ⦃e : Eq K⦄ where
  -- The selectors by their identities, where they have one. Reading an identity may fail.
  unfoldable pub group_from :
      (Text → Result ChangesError (Option K))
      → Groups K
      → List Text
      → Result ChangesError (Groups K)
  unfolding push_to
  group_from identity groups [] = ok groups
  group_from identity groups (selector ∷ rest) = identity selector >>= λ found.
      group_from identity (elim found [ none ↦ groups | some key ↦ push_to key selector groups ])
        rest

  unfoldable pub group_by :
      (Text → Result ChangesError (Option K)) → List Text → Result ChangesError (Groups K)
  unfolding group_from
  group_by identity = group_from identity []

  unfoldable pub pair_groups :
      (K → List Text → List Text → Pairer → Result ChangesError Pairer)
      → Groups K
      → Groups K
      → Pairer
      → Result ChangesError Pairer
  unfolding get
  pair_groups emit head_groups [] p = ok p
  pair_groups emit head_groups ((key, base_selectors) ∷ groups) p =
      (elim (get key head_groups) [
        | none ↦ ok p
        | some head_selectors ↦ emit key base_selectors head_selectors p
      ])
      >>= pair_groups emit head_groups groups

-- one pair where each side has one selector, else a group without a choice
unfoldable pub pair_or_group :
    (Text → Text → Pairer → Result ChangesError Pairer)
    → (List Text → List Text → Pairer → Pairer)
    → List Text
    → List Text
    → Pairer
    → Result ChangesError Pairer
pair_or_group pair group (b ∷ []) (h ∷ []) p = pair b h p
pair_or_group pair group (b ∷ []) (h ∷ i ∷ hs) p = ok (group (b ∷ []) (h ∷ i ∷ hs) p)
pair_or_group pair group (b ∷ []) [] p = ok (group (b ∷ []) [] p)
pair_or_group pair group (b ∷ a ∷ bs) hs p = ok (group (b ∷ a ∷ bs) hs p)
pair_or_group pair group [] hs p = ok (group [] hs p)

-- the identities of the rungs
abbrev pub NameAndKind : Type 0
NameAndKind = Text × Text

abbrev pub pair_beq : NameAndKind → NameAndKind → Bool
pair_beq a b = a.0 == b.0 && a.1 == b.1

pub pair_beq_iff : (a b : NameAndKind) → (pair_beq a b ≡ true) ↔ (a ≡ b)
pair_beq_iff (a, b) (c, d) = ground (arith, eq_iff a c, eq_iff b d)

instance abbrev pub pair_eq : Eq NameAndKind
pair_eq = record { equal = pair_beq; equal_iff = pair_beq_iff }

pub compare_pairs : NameAndKind → NameAndKind → Ordering
compare_pairs a b = then_compare (compare_text a.0 b.0) (compare_text a.1 b.1)

pub record BodyKey : Type 0 where
  pub kind : Text
  pub parent : Text
  pub hash : ℕ
  pub normalized : Bytes

abbrev pub body_beq : BodyKey → BodyKey → Bool
body_beq a b =
    a.kind == b.kind && a.parent == b.parent && a.hash == b.hash && a.normalized == b.normalized

pub body_beq_iff : (a b : BodyKey) → (body_beq a b ≡ true) ↔ (a ≡ b)
body_beq_iff a b = ground (
  arith,
  eq_iff a.kind b.kind,
  eq_iff a.parent b.parent,
  eq_iff a.hash b.hash,
  eq_iff a.normalized b.normalized,
)

instance abbrev pub body_eq : Eq BodyKey
body_eq = record { equal = body_beq; equal_iff = body_beq_iff }

pub compare_bodies : BodyKey → BodyKey → Ordering
compare_bodies a b = then_compare (compare_text a.kind b.kind) (
    then_compare (compare_text a.parent b.parent)
      (then_compare (compare a.hash b.hash) (compare_text a.normalized b.normalized)))

unfoldable pub name_and_kind : SideInventory → Text → Result ChangesError (Option NameAndKind)
unfolding get
name_and_kind inv selector =
    ok (Option.map (λ (s : IndexedSymbol). (s.name, s.kind)) (get selector inv.symbols))

unfoldable pub kind_of : SideInventory → Text → Result ChangesError (Option Text)
unfolding get
kind_of inv selector = ok (Option.map (λ (s : IndexedSymbol). s.kind) (get selector inv.symbols))

unfoldable pub body_key : IndexedSymbol → SymbolSource → Option BodyKey
unfolding normalized_body_hash parent_qualified
body_key s source =
    Option.map
      (λ (found : ℕ × Bytes). record {
        kind = s.kind;
        parent = parent_qualified s.qualified;
        hash = found.0;
        normalized = found.1;
      })
      (normalized_body_hash source s.name)

-- the key of a selector's complete and normalized body
unfoldable pub body_of :
    Context → SnapshotSide → SideInventory → Text → Result ChangesError (Option BodyKey)
unfolding get body_key source_of Option.bind
body_of c side inv selector = elim (get selector inv.symbols) [
  | none ↦ ok none
  | some s ↦ source_of c side selector >>= λ source. ok (Option.bind source (body_key s))
]

-- `pair_moved_in_file`
unfoldable pub pair_moved_in_file :
    Context → Text → Text → FileChangeKind → PairingEvidence → Pairer → Result ChangesError Pairer
unfolding group_by pair_groups pair_or_group name_and_kind compare_pairs in_key_order unpaired_in
    emit_moved emit_uncertain_group
pair_moved_in_file c base_path head_path kind evidence p = do
  head_groups ← group_by (name_and_kind c.head) (unpaired_in p c.head head_path)
  base_groups ← group_by (name_and_kind c.base) (unpaired_in p c.base base_path)
  pair_groups
      (λ identity.
        pair_or_group (emit_moved c kind evidence)
          (emit_uncertain_group c kind (repeated_name identity.0)))
      head_groups (in_key_order compare_pairs base_groups) p

-- `pair_renamed_in_file`
unfoldable pub pair_renamed_in_file :
    Context → Text → Text → FileChangeKind → PairingEvidence → Pairer → Result ChangesError Pairer
unfolding group_by pair_groups pair_or_group kind_of in_key_order unpaired_in emit_renamed
    emit_uncertain_group
pair_renamed_in_file c base_path head_path kind evidence p = do
  base_groups ← group_by (kind_of c.base) (unpaired_in p c.base base_path)
  head_groups ← group_by (kind_of c.head) (unpaired_in p c.head head_path)
  pair_groups
      (λ symbol_kind.
        pair_or_group (λ b h q. ok (emit_renamed c kind evidence b h q))
          (emit_uncertain_group c kind (several_of_kind symbol_kind)))
      head_groups (in_key_order compare_text base_groups) p

unfoldable pub evidence_of : FileChangeKind → PairingEvidence
evidence_of FileChangeKind.copied = PairingEvidence.git_copy
evidence_of FileChangeKind.renamed = PairingEvidence.git_rename
evidence_of FileChangeKind.added = PairingEvidence.git_rename
evidence_of FileChangeKind.deleted = PairingEvidence.git_rename
evidence_of FileChangeKind.modified = PairingEvidence.git_rename
evidence_of FileChangeKind.type_changed = PairingEvidence.git_rename
evidence_of FileChangeKind.other = PairingEvidence.git_rename

unfoldable pub pair_in_files :
    Context → List (Text × Text × FileChangeKind) → Pairer → Result ChangesError Pairer
unfolding pair_moved_in_file pair_renamed_in_file evidence_of
pair_in_files c [] p = ok p
pair_in_files c ((base_path, head_path, kind) ∷ pairs) p = do
  moved ← pair_moved_in_file c base_path head_path kind (evidence_of kind) p
  renamed ← pair_renamed_in_file c base_path head_path kind (evidence_of kind) moved
  pair_in_files c pairs renamed

unfoldable pub pair_across_renamed_files : Context → Pairer → Result ChangesError Pairer
unfolding pair_in_files renamed_pairs
pair_across_renamed_files c p = pair_in_files c (renamed_pairs c.files) p

unfoldable pub same_path : FileDelta → Option (Text × FileChangeKind)
unfolding Option.bind
same_path delta =
    Option.bind delta.base_path
      (λ b. Option.bind delta.head_path (λ h. if b == h then some (b, delta.kind) else none))

unfoldable pub pair_bodies_in :
    Context → Text → FileChangeKind → Pairer → Result ChangesError Pairer
unfolding group_by pair_groups pair_or_group body_of compare_bodies in_key_order unpaired_in
    emit_renamed emit_uncertain_group
pair_bodies_in c path kind p = do
  base_groups ← group_by (body_of c SnapshotSide.base c.base) (unpaired_in p c.base path)
  head_groups ← group_by (body_of c SnapshotSide.head c.head) (unpaired_in p c.head path)
  pair_groups
      (λ identity.
        pair_or_group (λ b h q. ok (emit_renamed c kind PairingEvidence.body_hash b h q))
          (emit_uncertain_group c kind (same_body identity.kind identity.parent)))
      head_groups (in_key_order compare_bodies base_groups) p

unfoldable pub pair_bodies :
    Context → List (Text × FileChangeKind) → Pairer → Result ChangesError Pairer
unfolding pair_bodies_in
pair_bodies c [] p = ok p
pair_bodies c ((path, kind) ∷ paths) p = pair_bodies_in c path kind p >>= pair_bodies c paths

unfoldable pub pair_renamed_by_body_hash : Context → Pairer → Result ChangesError Pairer
unfolding pair_bodies same_path
pair_renamed_by_body_hash c p = pair_bodies c (collect same_path c.files.deltas) p

unfoldable pub pair_uncertain_cross_path : Context → Pairer → Result ChangesError Pairer
unfolding group_by pair_groups name_and_kind compare_pairs in_key_order emit_uncertain_group
pair_uncertain_cross_path c p = do
  base_groups ← group_by (name_and_kind c.base) p.unpaired_base
  head_groups ← group_by (name_and_kind c.head) p.unpaired_head
  pair_groups
      (λ identity bs hs q.
        ok (emit_uncertain_group c FileChangeKind.other (other_path identity.0) bs hs q))
      head_groups (in_key_order compare_pairs base_groups) p

unfoldable pub emit_unpaired : Context → Pairer → Pairer
unfolding removed_change added_change
emit_unpaired c p = record {
  unpaired_base = [];
  unpaired_head = [];
  symbols =
      p.symbols ++ (map (removed_change c) p.unpaired_base ++ map (added_change c) p.unpaired_head);
}

-- `Pairer::new`
unfoldable pub new_pairer : Context → Pairer
unfolding candidate_selectors base_paths head_paths
new_pairer c = record {
  unpaired_base = candidate_selectors c.base (base_paths c.files);
  unpaired_head = candidate_selectors c.head (head_paths c.files);
  symbols = [];
}

unfoldable pub pair_all : Context → Result ChangesError Pairer
unfolding new_pairer pair_same_selector pair_across_renamed_files pair_renamed_by_body_hash
    pair_uncertain_cross_path emit_unpaired
pair_all c = do
  shared ← pair_same_selector c (new_pairer c)
  across ← pair_across_renamed_files c shared
  by_body ← pair_renamed_by_body_hash c across
  cross_path ← pair_uncertain_cross_path c by_body
  ok (emit_unpaired c cross_path)
