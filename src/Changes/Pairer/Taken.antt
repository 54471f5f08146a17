-- ===== src/Changes/Pairer/Taken.antt =====
-- What an emitted pair or group takes out of the pending sets of `Pairer`
-- (crates/orbit-graph-changes/src/changes.rs).
use orbit_graph.Common.{
  true, false, ◌&&◌, ◌||◌, List, [], ◌∷◌, some, ◌==◌, nat_eq, list_eq, eq_iff, contains, any, ◌≡◌,
  refl, ◌∙◌, subst, arith, inl, inr, Bool-cases, Result, ok, >>=-eq-ok,
}
use orbit_graph.Common.Text.{Text}
use orbit_graph.Common.Maps.{remove}
use orbit_graph.Changes.Types.{
  SnapshotSide, SymbolRef, ChangedSymbol, ChangesError, FileChangeKind, PairingEvidence, Reason,
}
use orbit_graph.Changes.Inventory.{symbol_ref}
use orbit_graph.Changes.Pairer.{Context, Pairer, source_of}
use orbit_graph.Changes.Pairer.Emit.{
  emit_uncertain_group, uncertain_group, emit_moved, emit_renamed, emit_pair, moved_change,
  renamed_change, move_body,
}
use orbit_graph.Changes.Pairer.Rungs.{pair_eq, body_eq}
use orbit_graph.Changes.Pairer.Steps.{names, side_of, mentions, report, here, next}
use orbit_graph.Changes.Pairer.Coherent.{
  IsPair, IsGround, IsGitPair, HasShape, IsCoherent, SharesName,
}
use orbit_graph.Changes.Pairer.Emitted.{HasSides, Takes, emit_uncertain_group-Takes}

-- the one selector of a side that is mentioned is pending
sole_mention :
    (b s : Text) (left : List Text)
    → contains left b ≡ true
    → ((b == s) || false) ≡ (contains (b ∷ []) s && contains left s)
sole_mention b s left h = elim (Bool-cases (b == s)) [
  | inl e ↦
      let at : contains left s ≡ true = subst (λ z. contains left z ≡ true) ((eq_iff b s).0 e) h in
      ground arith
  | inr e ↦ ground arith
]

mentions-pair :
    (side : SnapshotSide) (entry : SymbolRef) (change : ChangedSymbol)
    → side_of side change ≡ some entry
    → change.uncertain_candidates ≡ []
    → (s : Text) → mentions side s change ≡ ((entry.selector == s) || false)
unfolding mentions names
mentions-pair side entry change e n s = rw (e, names, n, any) refl

module _ (c : Context) (sides : HasSides c) where
  abbrev pub Good : ChangedSymbol → Type 0
  Good = IsCoherent c

  module _ (b h : Text) where
    emit_pair-Takes :
        (change : ChangedSymbol) (p : Pairer)
        → contains p.unpaired_base b ≡ true
        → contains p.unpaired_head h ≡ true
        → IsPair c change b h
        → Good change
        → Takes c Good sides (b ∷ []) (h ∷ []) p (emit_pair b h change p)
    unfolding emit_pair remove side_of symbol_ref
    emit_pair-Takes change p wb wh (eb, eh, ec) good = (
      next here (
          report p (b ∷ []) (h ∷ []) change
            (λ s.
              mentions-pair SnapshotSide.base (symbol_ref c.base b) change eb ec s
              ∙ sole_mention b s p.unpaired_base wb)
            (λ s.
              mentions-pair SnapshotSide.head (symbol_ref c.head h) change eh ec s
              ∙ sole_mention h s p.unpaired_head wh)
            good),
      refl,
      refl,
    )

    pub emit_renamed-Takes :
        (kind : FileChangeKind) (evidence : PairingEvidence) (p : Pairer)
        → contains p.unpaired_base b ≡ true
        → contains p.unpaired_head h ≡ true
        → IsGround c kind evidence b h
        → Takes c Good sides (b ∷ []) (h ∷ []) p (emit_renamed c kind evidence b h p)
    unfolding emit_renamed renamed_change IsCoherent HasShape
    emit_renamed-Takes kind evidence p wb wh shared =
        emit_pair-Takes (renamed_change c kind evidence b h) p wb wh (refl, refl, refl)
          (refl, (b, h, (refl, refl, refl), shared))

    pub emit_moved-Takes :
        (kind : FileChangeKind) (evidence : PairingEvidence) (p : Pairer) {q : Pairer}
        → contains p.unpaired_base b ≡ true
        → contains p.unpaired_head h ≡ true
        → SharesName c b h
        → IsGitPair c kind evidence b h
        → emit_moved c kind evidence b h p ≡ ok q
        → Takes c Good sides (b ∷ []) (h ∷ []) p q
    unfolding emit_moved moved_change IsCoherent HasShape
    emit_moved-Takes kind evidence p {q} wb wh shared git e =
        let (old, _, more) = >>=-eq-ok (source_of c SnapshotSide.base b) _ e in
        let (new, _, last) = >>=-eq-ok (source_of c SnapshotSide.head h) _ more in
        let change = moved_change c kind evidence b h (move_body old new) in
        let same : emit_pair b h change p ≡ q = cc in
        subst (Takes c Good sides (b ∷ []) (h ∷ []) p) same (
          emit_pair-Takes change p wb wh (refl, refl, refl)
            (refl, (b, h, (refl, refl, refl), shared, git)))

  group-Takes :
      (kind : FileChangeKind) (reason : Reason) (bs hs : List Text) (p : Pairer)
      → Takes c Good sides bs hs p (emit_uncertain_group c kind reason bs hs p)
  unfolding uncertain_group IsCoherent HasShape
  group-Takes kind reason bs hs p =
      emit_uncertain_group-Takes c Good sides kind reason bs hs p
        (λ candidates some_left. (refl, some_left))

  pub grouped-Takes :
      (kind : FileChangeKind) (reason : Reason) (bs hs : List Text) (p : Pairer) {q : Pairer}
      → ◌≡◌ {A = Result ChangesError Pairer}
          (ok (emit_uncertain_group c kind reason bs hs p))
          (ok q)
      → Takes c Good sides bs hs p q
  grouped-Takes kind reason bs hs p {q} e =
      let same : emit_uncertain_group c kind reason bs hs p ≡ q = cc in
      subst (Takes c Good sides bs hs p) same (group-Takes kind reason bs hs p)
