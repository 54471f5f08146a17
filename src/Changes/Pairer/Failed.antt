-- ===== src/Changes/Pairer/Failed.antt =====
-- Where the ladder of `Pairer` (crates/orbit-graph-changes/src/changes.rs) fails: only at a query of a
-- symbol's source that failed, which its error names.
use orbit_graph.Common.{
  ◌||◌, List, [], ◌∷◌, Option, none, nat_eq, list_eq, if◌then◌else◌, contains, ◌≡◌, refl, subst,
  inl, inr, Bool-cases, Option-cases, Result, Result-cases, ok, err, ◌>>=◌, Eq,
}
use orbit_graph.Common.Text.{Text}
use orbit_graph.Common.Maps.{get, in_key_order}
use orbit_graph.Common.Sort.{compare_text}
use orbit_graph.Changes.Files.{renamed_pairs}
use orbit_graph.Selector.{Selector}
use orbit_graph.Selector.Parse.{from_str, Parsed}
use orbit_graph.Changes.Bodies.{SymbolSource}
use orbit_graph.Changes.Types.{
  SnapshotSide, ChangesError, query, FileChangeKind, PairingEvidence, repeated_name,
  several_of_kind, same_body,
}
use orbit_graph.Changes.Inventory.{SideInventory}
use orbit_graph.Changes.Pairer.{Context, Pairer, source_of, read_source, viewed, unpaired_in}
use orbit_graph.Changes.Pairer.Emit.{
  same_selector_change, emit_moved, emit_renamed, emit_uncertain_group,
}
use orbit_graph.Changes.Pairer.Rungs.{
  Groups, group_from, group_by, pair_groups, pair_or_group, pair_eq, body_eq, name_and_kind,
  kind_of, body_of, pair_shared, pair_same_selector, pair_moved_in_file, pair_renamed_in_file,
  pair_in_files, pair_across_renamed_files, pair_bodies_in, pair_bodies, pair_renamed_by_body_hash,
  pair_uncertain_cross_path, pair_all, new_pairer, evidence_of, compare_pairs, compare_bodies,
}

module _ (c : Context) where
  -- the error of a query that failed
  abbrev pub IsFailedQuery : ChangesError → Type 0
  IsFailedQuery e =
      (side : SnapshotSide) × (selector : Selector) × (reason : Text) × (c.show side selector
        ≡ err reason)
      × (e ≡ query read_source side reason)

  -- a result that fails only by a query that failed
  pub data Blames {ℓ} {A : Type ℓ} : Result ChangesError A → Type ℓ where
    fine : (a : A) → Blames (ok a)
    blamed : (e : ChangesError) → IsFailedQuery e → Blames (err e)

  Blames-bind {ℓ κ} :
      {A : Type ℓ} {B : Type κ} (m : Result ChangesError A) (f : A → Result ChangesError B)
      → Blames m
      → ((a : A) → Blames (f a))
      → Blames (m >>= f)
  Blames-bind (ok a) f h k = k a
  Blames-bind (err e) f (blamed _ h) k = blamed e h

  viewed-Blames :
      (side : SnapshotSide) (parsed : Selector)
      → Blames (viewed c.from_utf8_lossy side (c.show side parsed))
  unfolding viewed
  viewed-Blames side parsed = elim (Result-cases (c.show side parsed)) [
    | inl (view, g) ↦ rw (g, viewed) (fine _)
    | inr (reason, g) ↦ rw (g, viewed) (blamed _ (side, parsed, reason, g, refl))
  ]

  parsed-Blames :
      (side : SnapshotSide) (parsed : Parsed Selector)
      → Blames {A = Option SymbolSource} (elim parsed [
        | err _ ↦ ok none
        | ok found ↦ viewed c.from_utf8_lossy side (c.show side found)
      ])
  parsed-Blames side (err _) = fine none
  parsed-Blames side (ok found) = viewed-Blames side found

  source_of-Blames : (side : SnapshotSide) (s : Text) → Blames (source_of c side s)
  unfolding source_of
  source_of-Blames side s = parsed-Blames side (from_str s)

  same_selector_change-Blames : (s : Text) → Blames (same_selector_change c s)
  unfolding same_selector_change
  same_selector_change-Blames s =
      elim (Bool-cases
        (contains c.base.ambiguous_selectors s || contains c.head.ambiguous_selectors s)) [
          | inl e ↦ rw (e, if◌then◌else◌) (fine _)
          | inr e ↦
              rw (e, if◌then◌else◌)
                (Blames-bind (source_of c SnapshotSide.base s) _
                  (source_of-Blames SnapshotSide.base s)
                  λ old.
                    Blames-bind (source_of c SnapshotSide.head s) _
                      (source_of-Blames SnapshotSide.head s) λ new. fine _)
        ]

  pair_shared-Blames : (shared : List Text) (p : Pairer) → Blames (pair_shared c shared p)
  unfolding pair_shared
  pair_shared-Blames [] p = fine _
  pair_shared-Blames (s ∷ shared) p =
      Blames-bind (same_selector_change c s) _ (same_selector_change-Blames s)
        λ change. pair_shared-Blames shared _

  emit_moved-Blames :
      (kind : FileChangeKind) (by : PairingEvidence) (b h : Text) (p : Pairer)
      → Blames (emit_moved c kind by b h p)
  unfolding emit_moved
  emit_moved-Blames kind by b h p =
      Blames-bind (source_of c SnapshotSide.base b) _ (source_of-Blames SnapshotSide.base b) λ old.
        Blames-bind (source_of c SnapshotSide.head h) _ (source_of-Blames SnapshotSide.head h)
          λ new. fine _

  body_of-Blames :
      (side : SnapshotSide) (inv : SideInventory) (s : Text) → Blames (body_of c side inv s)
  unfolding body_of
  body_of-Blames side inv s = elim (Option-cases (get s inv.symbols)) [
    | inl e ↦ rw (e, body_of) (fine _)
    | inr (found, e) ↦
        rw (e, body_of)
          (Blames-bind (source_of c side s) _ (source_of-Blames side s) λ source. fine _)
  ]

  module _ {K : Type 0} ⦃e : Eq K⦄ where
    group_from-Blames :
        (identity : Text → Result ChangesError (Option K))
        → ((s : Text) → Blames (identity s))
        → (selectors : List Text) (groups : Groups K)
        → Blames (group_from identity groups selectors)
    unfolding group_from
    group_from-Blames identity h [] groups = fine groups
    group_from-Blames identity h (s ∷ rest) groups =
        Blames-bind (identity s) _ (h s) λ found. group_from-Blames identity h rest _

    group_by-Blames :
        (identity : Text → Result ChangesError (Option K))
        → ((s : Text) → Blames (identity s))
        → (selectors : List Text) → Blames (group_by identity selectors)
    unfolding group_by
    group_by-Blames identity h selectors = group_from-Blames identity h selectors []

    pair_groups-Blames :
        (emit : K → List Text → List Text → Pairer → Result ChangesError Pairer)
        → ((key : K) (bs hs : List Text) (p : Pairer) → Blames (emit key bs hs p))
        → (head_groups groups : Groups K) (p : Pairer)
        → Blames (pair_groups emit head_groups groups p)
    unfolding pair_groups
    pair_groups-Blames emit h head_groups [] p = fine _
    pair_groups-Blames emit h head_groups ((key, bs) ∷ groups) p =
        elim (Option-cases (get key head_groups)) [
          | inl f ↦ rw (f, pair_groups) (pair_groups-Blames emit h head_groups groups p)
          | inr (hs, f) ↦
              rw (f, pair_groups)
                (Blames-bind (emit key bs hs p) _ (h key bs hs p)
                  (pair_groups-Blames emit h head_groups groups))
        ]

  pair_or_group-Blames :
      (pair : Text → Text → Pairer → Result ChangesError Pairer)
      (group : List Text → List Text → Pairer → Pairer)
      → ((b h : Text) (p : Pairer) → Blames (pair b h p))
      → (bs hs : List Text) (p : Pairer) → Blames (pair_or_group pair group bs hs p)
  unfolding pair_or_group
  pair_or_group-Blames pair group f (b ∷ []) (h ∷ []) p = f b h p
  pair_or_group-Blames pair group f (b ∷ []) (h ∷ i ∷ hs) p = fine _
  pair_or_group-Blames pair group f (b ∷ []) [] p = fine _
  pair_or_group-Blames pair group f (b ∷ a ∷ bs) hs p = fine _
  pair_or_group-Blames pair group f [] hs p = fine _

  name_and_kind-Blames : (inv : SideInventory) (s : Text) → Blames (name_and_kind inv s)
  unfolding name_and_kind
  name_and_kind-Blames inv s = fine _

  kind_of-Blames : (inv : SideInventory) (s : Text) → Blames (kind_of inv s)
  unfolding kind_of
  kind_of-Blames inv s = fine _

  -- two groupings and the loop over the groups
  module _ {K : Type 0} ⦃e : Eq K⦄ (one two : Text → Result ChangesError (Option K))
      (blames_one : (s : Text) → Blames (one s)) (blames_two : (s : Text) → Blames (two s))
      (emit : K → List Text → List Text → Pairer → Result ChangesError Pairer)
      (blames_emit : (key : K) (bs hs : List Text) (p : Pairer) → Blames (emit key bs hs p)) where
    grouped-Blames :
        (first second : List Text) (heads bases : Groups K → Groups K → Groups K) (p : Pairer)
        → Blames (
            group_by one first >>= λ ones.
            group_by two second >>= λ twos. pair_groups emit (heads ones twos) (bases ones twos) p)
    grouped-Blames first second heads bases p =
        Blames-bind (group_by one first) _ (group_by-Blames one blames_one first) λ ones.
          Blames-bind (group_by two second) _ (group_by-Blames two blames_two second)
            λ twos. pair_groups-Blames emit blames_emit (heads ones twos) (bases ones twos) p

  pair_moved_in_file-Blames :
      (b h : Text) (kind : FileChangeKind) (by : PairingEvidence) (p : Pairer)
      → Blames (pair_moved_in_file c b h kind by p)
  unfolding pair_moved_in_file
  pair_moved_in_file-Blames b h kind by p =
      grouped-Blames (name_and_kind c.head) (name_and_kind c.base) (name_and_kind-Blames c.head)
        (name_and_kind-Blames c.base) _
        (λ key bs hs q.
          pair_or_group-Blames (emit_moved c kind by)
            (emit_uncertain_group c kind (repeated_name key.0)) (emit_moved-Blames kind by) bs hs q)
        (unpaired_in p c.head h) (unpaired_in p c.base b) (λ ones twos. ones)
        (λ ones twos. in_key_order compare_pairs twos) p

  pair_renamed_in_file-Blames :
      (b h : Text) (kind : FileChangeKind) (by : PairingEvidence) (p : Pairer)
      → Blames (pair_renamed_in_file c b h kind by p)
  unfolding pair_renamed_in_file
  pair_renamed_in_file-Blames b h kind by p =
      grouped-Blames (kind_of c.base) (kind_of c.head) (kind_of-Blames c.base)
        (kind_of-Blames c.head) _
        (λ key bs hs q.
          pair_or_group-Blames (λ x y r. ok (emit_renamed c kind by x y r))
            (emit_uncertain_group c kind (several_of_kind key)) (λ x y r. fine _) bs hs q)
        (unpaired_in p c.base b) (unpaired_in p c.head h) (λ ones twos. twos)
        (λ ones twos. in_key_order compare_text ones) p

  pair_in_files-Blames :
      (pairs : List (Text × Text × FileChangeKind)) (p : Pairer) → Blames (pair_in_files c pairs p)
  unfolding pair_in_files
  pair_in_files-Blames [] p = fine p
  pair_in_files-Blames ((b, h, kind) ∷ pairs) p =
      Blames-bind (pair_moved_in_file c b h kind (evidence_of kind) p) _
        (pair_moved_in_file-Blames b h kind (evidence_of kind) p)
        λ moved.
          Blames-bind (pair_renamed_in_file c b h kind (evidence_of kind) moved) _
            (pair_renamed_in_file-Blames b h kind (evidence_of kind) moved)
            (pair_in_files-Blames pairs)

  pair_bodies_in-Blames :
      (path : Text) (kind : FileChangeKind) (p : Pairer) → Blames (pair_bodies_in c path kind p)
  unfolding pair_bodies_in
  pair_bodies_in-Blames path kind p =
      grouped-Blames (body_of c SnapshotSide.base c.base) (body_of c SnapshotSide.head c.head)
        (body_of-Blames SnapshotSide.base c.base) (body_of-Blames SnapshotSide.head c.head) _
        (λ key bs hs q.
          pair_or_group-Blames (λ x y r. ok (emit_renamed c kind PairingEvidence.body_hash x y r))
            (emit_uncertain_group c kind (same_body key.kind key.parent)) (λ x y r. fine _) bs hs q)
        (unpaired_in p c.base path) (unpaired_in p c.head path) (λ ones twos. twos)
        (λ ones twos. in_key_order compare_bodies ones) p

  pair_bodies-Blames :
      (paths : List (Text × FileChangeKind)) (p : Pairer) → Blames (pair_bodies c paths p)
  unfolding pair_bodies
  pair_bodies-Blames [] p = fine p
  pair_bodies-Blames ((path, kind) ∷ paths) p =
      Blames-bind (pair_bodies_in c path kind p) _ (pair_bodies_in-Blames path kind p)
        (pair_bodies-Blames paths)

  pair_uncertain_cross_path-Blames : (p : Pairer) → Blames (pair_uncertain_cross_path c p)
  unfolding pair_uncertain_cross_path
  pair_uncertain_cross_path-Blames p =
      grouped-Blames (name_and_kind c.base) (name_and_kind c.head) (name_and_kind-Blames c.base)
        (name_and_kind-Blames c.head) _ (λ key bs hs q. fine _) p.unpaired_base p.unpaired_head
        (λ ones twos. twos) (λ ones twos. in_key_order compare_pairs ones) p

  pair_all-Blames : Blames (pair_all c)
  unfolding pair_all pair_same_selector pair_across_renamed_files pair_renamed_by_body_hash
  pair_all-Blames =
      Blames-bind (pair_same_selector c (new_pairer c)) _ (pair_shared-Blames _ (new_pairer c))
        λ first.
          Blames-bind (pair_across_renamed_files c first) _
            (pair_in_files-Blames (renamed_pairs c.files) first)
            λ across.
              Blames-bind (pair_renamed_by_body_hash c across) _ (pair_bodies-Blames _ across)
                λ bodies.
                  Blames-bind (pair_uncertain_cross_path c bodies) _
                    (pair_uncertain_cross_path-Blames bodies) λ cross. fine _

Blames-err {ℓ} :
    {A : Type ℓ} (c : Context) (m : Result ChangesError A) (e : ChangesError)
    → Blames c m
    → m ≡ err e
    → IsFailedQuery c e
Blames-err c (ok a) e h f = absurd (cc)
Blames-err c (err d) e (blamed _ h) f = let same : d ≡ e = cc in subst (IsFailedQuery c) same h

-- the ladder fails only at a query that failed
pub pair_all-IsFailedQuery :
    (c : Context) (e : ChangesError) → pair_all c ≡ err e → IsFailedQuery c e
pair_all-IsFailedQuery c e f = Blames-err c (pair_all c) e (pair_all-Blames c) f
