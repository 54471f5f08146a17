-- ===== src/Changes/Pairer/Shared.antt =====
-- The first rung of the ladder of `Pairer` (crates/orbit-graph-changes/src/changes.rs): selectors that
-- stand on both sides.
use orbit_graph.Common.{
  ◌+◌, Bool, true, false, not, ◌&&◌, ◌||◌, List, [], ◌∷◌, Option, none, some, ◌==◌, nat_eq, list_eq,
  eq_iff, if◌then◌else◌, contains, ◌≡◌, refl, subst, arith, inl, inr, All, All-append, Bool-cases,
  Result, ok, err, >>=-eq-ok,
}
use orbit_graph.Common.Text.{Text}
use orbit_graph.Common.Maps.{remove}
use orbit_graph.Common.Maps.Sets.{Distinct, Distinct-without, contains-without}
use orbit_graph.Changes.Types.{
  SnapshotSide, ChangedSymbol, ChangesError, PairingEvidence, Reason, Note, shared_selector,
  indexed_once_for_several,
}
use orbit_graph.Changes.Inventory.{symbol_ref}
use orbit_graph.Changes.Bodies.{SymbolSource}
use orbit_graph.Changes.Pairer.{Context, Pairer, FileChange, source_of, file_change_for_base}
use orbit_graph.Changes.Pairer.Emit.{
  same_selector_change, compare_sources, uncertain_pair, modified_pair,
}
use orbit_graph.Changes.Pairer.Rungs.{pair_shared, push_option}
use orbit_graph.Changes.Pairer.Steps.{
  names, side_of, is_candidate, mentions, pending, times, times-append, one_if,
}
use orbit_graph.Changes.Pairer.Coherent.{HasShape, IsCoherent}
use orbit_graph.Changes.Pairer.Emitted.{HasSides}

abbrev pub equal_sources : SymbolSource → SymbolSource → Bool
equal_sources old new = old.bytes == new.bytes && not old.truncated && not new.truncated

abbrev pub sources_are_equal :
    Result ChangesError (Option SymbolSource) → Result ChangesError (Option SymbolSource) → Bool
sources_are_equal (ok (some old)) (ok (some new)) = equal_sources old new
sources_are_equal (ok (some old)) (ok none) = false
sources_are_equal (ok (some old)) (err e) = false
sources_are_equal (ok none) new = false
sources_are_equal (err e) new = false

-- Whether a selector of both sides is unambiguous, with whole and equal sources.
unfoldable pub is_same_source : Context → Text → Bool
is_same_source c s =
    not (contains c.base.ambiguous_selectors s || contains c.head.ambiguous_selectors s)
    && sources_are_equal (source_of c SnapshotSide.base s) (source_of c SnapshotSide.head s)

module _ (c : Context) (sides : HasSides c) (s : Text) where
  -- what an entry of the first rung for `s` says
  abbrev IsSettled : ChangedSymbol → Type 0
  IsSettled change =
      IsCoherent c change × ((side : SnapshotSide) (t : Text) → mentions side t change ≡ (s == t))

  uncertain_mentions :
      (by : PairingEvidence) (file : FileChange) (reason : Reason) (note : Note)
      (side : SnapshotSide) (t : Text)
      → mentions side t
          (uncertain_pair (symbol_ref c.base s) (symbol_ref c.head s) by file reason note)
        ≡ (s == t)
  unfolding uncertain_pair mentions names side_of is_candidate symbol_ref
  uncertain_mentions by file reason note SnapshotSide.base t = ground arith
  uncertain_mentions by file reason note SnapshotSide.head t = ground arith

  uncertain-IsSettled :
      (by : PairingEvidence) (file : FileChange) (reason : Reason) (note : Note)
      → IsSettled (uncertain_pair (symbol_ref c.base s) (symbol_ref c.head s) by file reason note)
  unfolding uncertain_pair IsCoherent HasShape
  uncertain-IsSettled by file reason note = ((refl, refl), uncertain_mentions by file reason note)

  modified_mentions :
      (file : FileChange) (old new : SymbolSource) (side : SnapshotSide) (t : Text)
      → mentions side t (modified_pair (symbol_ref c.base s) (symbol_ref c.head s) file old new)
        ≡ (s == t)
  unfolding modified_pair mentions names side_of symbol_ref
  modified_mentions file old new SnapshotSide.base t = ground arith
  modified_mentions file old new SnapshotSide.head t = ground arith

  modified-IsCoherent :
      (file : FileChange) (old new : SymbolSource)
      → IsCoherent c (modified_pair (symbol_ref c.base s) (symbol_ref c.head s) file old new)
  unfolding modified_pair IsCoherent HasShape
  modified-IsCoherent file old new = elim (Bool-cases (old.signature == new.signature)) [
    | inl e ↦ rw (e, not, if◌then◌else◌, HasShape) (refl, (s, (refl, refl, refl)))
    | inr e ↦ rw (e, not, if◌then◌else◌, HasShape) (refl, (s, (refl, refl, refl)))
  ]

  -- an entry of the first rung for `s`, or none where `s` is unchanged
  abbrev Settles : Bool → Option ChangedSymbol → Type 0
  Settles unchanged none = unchanged ≡ true
  Settles unchanged (some change) = (unchanged ≡ false) × IsSettled change

  compare_sources-Settles :
      (file : FileChange) (old new : Option SymbolSource)
      → Settles
          (sources_are_equal (ok old) (ok new))
          (compare_sources (symbol_ref c.base s) (symbol_ref c.head s) file old new)
  unfolding compare_sources
  compare_sources-Settles file none new = (refl, uncertain-IsSettled _ file _ _)
  compare_sources-Settles file (some old) none = (refl, uncertain-IsSettled _ file _ _)
  compare_sources-Settles file (some old) (some new) = elim (Bool-cases (old.bytes == new.bytes)) [
    | inr e ↦
        rw (e, if◌then◌else◌)
          (refl, (modified-IsCoherent file old new, modified_mentions file old new))
    | inl e ↦ elim (Bool-cases (not old.truncated && not new.truncated)) [
      | inl whole ↦ rw (e, whole, if◌then◌else◌) refl
      | inr cut ↦ rw (e, cut, if◌then◌else◌) (refl, uncertain-IsSettled _ file _ _)
    ]
  ]

  same_selector_change-Settles :
      (change : Option ChangedSymbol)
      → same_selector_change c s ≡ ok change
      → Settles (is_same_source c s) change
  unfolding same_selector_change is_same_source
  same_selector_change-Settles change e =
      let file = file_change_for_base c s in
      elim (Bool-cases
        (contains c.base.ambiguous_selectors s || contains c.head.ambiguous_selectors s)) [
          | inl a ↦
              let same : some (
                    uncertain_pair (symbol_ref c.base s) (symbol_ref c.head s)
                      PairingEvidence.no_evidence file shared_selector indexed_once_for_several)
                  ≡ change =
                (let f = rw (a, if◌then◌else◌) at e in cc) in
              rw (a, not) (subst (Settles false) same (refl, uncertain-IsSettled _ file _ _))
          | inr a ↦
              let (old, eo, more) =
                >>=-eq-ok (source_of c SnapshotSide.base s) _ (rw (a, if◌then◌else◌) at e) in
              let (new, en, last) = >>=-eq-ok (source_of c SnapshotSide.head s) _ more in
              let same : compare_sources (symbol_ref c.base s) (symbol_ref c.head s) file old new
                  ≡ change =
                cc in
              rw (a, not, eo, en)
                (subst (Settles (sources_are_equal (ok old) (ok new))) same
                  (compare_sources-Settles file old new))
        ]

-- What the rung leaves of a state: the selectors it was given are pending no more, each of them that
-- is not unchanged is mentioned once more, and every new entry is coherent.
pub record IsShared (c : Context) (shared : List Text) (p q : Pairer) : Type 0 where
  pub left :
      (side : SnapshotSide) (s : Text)
      → contains (pending side q) s ≡ (contains (pending side p) s && not (contains shared s))
  pub once :
      (side : SnapshotSide) (s : Text)
      → times side s q.symbols
        ≡ times side s p.symbols + one_if (contains shared s && not (is_same_source c s))
  pub coherent : All (IsCoherent c) p.symbols → All (IsCoherent c) q.symbols
  pub distinct : (side : SnapshotSide) → Distinct (pending side p) → Distinct (pending side q)

module _ (c : Context) (sides : HasSides c) where
  settle : Text → Option ChangedSymbol → Pairer → Pairer
  unfolding remove push_option
  settle s change p = record {
    unpaired_base = remove s p.unpaired_base;
    unpaired_head = remove s p.unpaired_head;
    symbols = push_option change p.symbols;
  }

  settle_left :
      (s : Text) (change : Option ChangedSymbol) (p : Pairer) (side : SnapshotSide) (t : Text)
      → contains (pending side (settle s change p)) t
        ≡ (contains (pending side p) t && not (s == t))
  unfolding settle pending
  settle_left s change p SnapshotSide.base t =
      ground (arith, contains-without (s ∷ []) p.unpaired_base t)
  settle_left s change p SnapshotSide.head t =
      ground (arith, contains-without (s ∷ []) p.unpaired_head t)

  settle_distinct :
      (s : Text) (change : Option ChangedSymbol) (p : Pairer) (side : SnapshotSide)
      → Distinct (pending side p)
      → Distinct (pending side (settle s change p))
  unfolding settle pending
  settle_distinct s change p SnapshotSide.base h = Distinct-without (s ∷ []) p.unpaired_base h
  settle_distinct s change p SnapshotSide.head h = Distinct-without (s ∷ []) p.unpaired_head h

  times-settle :
      (s : Text) (change : Option ChangedSymbol) (p : Pairer) (side : SnapshotSide) (t : Text)
      → Settles c sides s (is_same_source c s) change
      → times side t (settle s change p).symbols
        ≡ times side t p.symbols + one_if (s == t && not (is_same_source c t))
  unfolding settle times
  times-settle s none p side t unchanged = elim (Bool-cases (s == t)) [
    | inl e ↦
        let at : is_same_source c t ≡ true =
          subst (λ z. is_same_source c z ≡ true) ((eq_iff s t).0 e) unchanged in
        ground arith
    | inr e ↦ ground arith
  ]
  times-settle s (some change) p side t (changed, (_, m)) = elim (Bool-cases (s == t)) [
    | inl e ↦
        let at : is_same_source c t ≡ false =
          subst (λ z. is_same_source c z ≡ false) ((eq_iff s t).0 e) changed in
        ground (arith, times-append side t p.symbols (change ∷ []), m side t)
    | inr e ↦ ground (arith, times-append side t p.symbols (change ∷ []), m side t)
  ]

  settle-IsCoherent :
      (s : Text) (change : Option ChangedSymbol) (p : Pairer)
      → Settles c sides s (is_same_source c s) change
      → All (IsCoherent c) p.symbols
      → All (IsCoherent c) (settle s change p).symbols
  unfolding settle
  settle-IsCoherent s none p unchanged h = h
  settle-IsCoherent s (some change) p (_, (good, _)) h =
      All-append (IsCoherent c) p.symbols (change ∷ []) h (good, tt)

  pub pair_shared-IsShared :
      (shared : List Text) (p : Pairer) {q : Pairer}
      → Distinct shared
      → pair_shared c shared p ≡ ok q
      → IsShared c shared p q
  unfolding pair_shared settle
  pair_shared-IsShared [] p {q} d e =
      let same : p ≡ q = cc in
      subst (IsShared c [] p) same (record {
        left = λ side s. ground arith;
        once = λ side s. ground arith;
        coherent = λ h. h;
        distinct = λ side h. h;
      })
  pair_shared-IsShared (s ∷ shared) p {q} d e =
      let (change, ec, later) = >>=-eq-ok (same_selector_change c s) _ e in
      let settled = same_selector_change-Settles c sides s change ec in
      let rest = pair_shared-IsShared shared (settle s change p) d.1 later in
      record {
        left = λ side t. ground (arith, rest.left side t, settle_left s change p side t);
        once = λ side t. ground (
          arith,
          rest.once side t,
          times-settle s change p side t settled,
          eq_iff s t,
          absent_later s shared t d.0,
        );
        coherent = λ h. rest.coherent (settle-IsCoherent s change p settled h);
        distinct = λ side h. rest.distinct side (settle_distinct s change p side h);
      }
    where
      absent_later :
          (s : Text) (shared : List Text) (t : Text)
          → contains shared s ≡ false
          → (s == t) ≡ true
          → contains shared t ≡ false
      absent_later s shared t n e = subst (λ z. contains shared z ≡ false) ((eq_iff s t).0 e) n
