-- ===== src/Changes/Pairer/Emitted.antt =====
-- What `emit_moved`, `emit_renamed` and `emit_uncertain_group` of
-- crates/orbit-graph-changes/src/changes.rs do is one step of the ladder, or none.
use orbit_graph.Common.{
  Bool, true, false, ◌&&◌, ◌||◌, List, [], ◌∷◌, ◌++◌, ◌==◌, nat_eq, list_eq, eq_iff, if◌then◌else◌,
  contains, any, is_empty, ◌≡◌, ◌≢◌, refl, sym, ap, ◌∙◌, arith, inl, inr, Bool-cases,
}
use orbit_graph.Common.Text.{Text}
use orbit_graph.Common.Maps.{without, remove}
use orbit_graph.Common.Maps.Sets.{filter-eq_self, contains-without}
use orbit_graph.Changes.Types.{
  SnapshotSide, side_label, UncertainCandidate, ChangedSymbol, FileChangeKind, Reason,
}
use orbit_graph.Changes.Inventory.{SideInventory, symbol_ref}
use orbit_graph.Changes.Pairer.{Context, Pairer}
use orbit_graph.Changes.Pairer.Emit.{take_candidates, emit_uncertain_group, uncertain_group}
use orbit_graph.Changes.Pairer.Steps.{
  names, side_of, is_candidate, mentions, Mentions, report, Reach, here, next,
}

without-nil : (left : List Text) → without [] left ≡ left
unfolding without
without-nil left = filter-eq_self _ left (λ _ _. refl)

without-cons :
    (s : Text) (taken left : List Text) → without taken (remove s left) ≡ without (s ∷ taken) left
unfolding without remove
without-cons s taken [] = refl
without-cons s taken (x ∷ left) = ground (arith, without-cons s taken left)

-- Nothing is taken where no selector of the list is pending.
pub without-eq_self :
    (taken left : List Text)
    → ((s : Text) → (contains taken s && contains left s) ≡ false)
    → without taken left ≡ left
unfolding without
without-eq_self taken left h = filter-eq_self _ left (λ s m. let apart = h s in ground arith)

label-apart :
    (one other : SnapshotSide) → one ≢ other → (side_label one == side_label other) ≡ false
unfolding side_label
label-apart SnapshotSide.base SnapshotSide.base n = absurd (n refl)
label-apart SnapshotSide.base SnapshotSide.head n = refl
label-apart SnapshotSide.head SnapshotSide.base n = refl
label-apart SnapshotSide.head SnapshotSide.head n = absurd (n refl)

any-append {ℓ} :
    {A : Type ℓ} (p : A → Bool) (xs ys : List A) → any p (xs ++ ys) ≡ (any p xs || any p ys)
any-append p [] ys = refl
any-append p (x ∷ xs) ys = ground (arith, any-append p xs ys)

left-nil {ℓ} : {A : Type ℓ} (xs ys : List A) → is_empty (xs ++ ys) ≡ true → xs ≡ []
left-nil [] ys h = refl
left-nil (x ∷ xs) ys h = absurd (cc)

right-nil {ℓ} : {A : Type ℓ} (xs ys : List A) → is_empty (xs ++ ys) ≡ true → ys ≡ []
right-nil [] [] h = refl
right-nil [] (y ∷ ys) h = absurd (cc)
right-nil (x ∷ xs) ys h = absurd (cc)

module _ (inv : SideInventory) (reason : Reason) where
  take-pending :
      (selectors left : List Text)
      → (take_candidates inv reason selectors left).1 ≡ without selectors left
  unfolding take_candidates
  take-pending [] left = sym (without-nil left)
  take-pending (s ∷ rest) left = take-pending rest (remove s left) ∙ without-cons s rest left

  take-candidates :
      (side : SnapshotSide) (s : Text)
      → inv.side ≡ side
      → (selectors left : List Text)
      → any (is_candidate side s) (take_candidates inv reason selectors left).0
        ≡ (contains selectors s && contains left s)
  unfolding take_candidates is_candidate symbol_ref remove
  take-candidates side s at [] left = refl
  take-candidates side s at (x ∷ rest) left =
      let label : (side_label inv.side == side_label side) ≡ true =
        (eq_iff (side_label inv.side) (side_label side)).1 (ap side_label at) in
      ground (
        arith,
        take-candidates side s at rest (without (x ∷ []) left),
        contains-without (x ∷ []) left s,
        label,
        eq_iff x s,
      )

  take-others :
      (side : SnapshotSide) (s : Text)
      → inv.side ≢ side
      → (selectors left : List Text)
      → any (is_candidate side s) (take_candidates inv reason selectors left).0 ≡ false
  unfolding take_candidates is_candidate symbol_ref
  take-others side s n [] left = refl
  take-others side s n (x ∷ rest) left =
      ground (arith, take-others side s n rest (remove x left), label-apart inv.side side n)

-- The two sides of a context, as `Pairer::new` is given them.
pub record HasSides (c : Context) : Type 0 where
  pub of_base : c.base.side ≡ SnapshotSide.base
  pub of_head : c.head.side ≡ SnapshotSide.head

base-ne-head : SnapshotSide.base ≢ SnapshotSide.head
base-ne-head h = cc

module _ (c : Context) (P : ChangedSymbol → Type 0) (sides : HasSides c) where
  -- what an emission for some selectors does to the state
  abbrev pub Takes : List Text → List Text → Pairer → Pairer → Type 0
  Takes bs hs p q =
      Reach P p q
      × (q.unpaired_base ≡ without bs p.unpaired_base)
      × (q.unpaired_head ≡ without hs p.unpaired_head)

  module _ (kind : FileChangeKind) (reason : Reason) (bs hs : List Text) (p : Pairer) where
    abbrev base_candidates : List UncertainCandidate
    base_candidates = (take_candidates c.base reason bs p.unpaired_base).0

    abbrev head_candidates : List UncertainCandidate
    head_candidates = (take_candidates c.head reason hs p.unpaired_head).0

    group-Mentions_base :
        Mentions SnapshotSide.base bs p.unpaired_base
          (uncertain_group c kind reason bs hs (base_candidates ++ head_candidates))
    unfolding mentions uncertain_group names side_of
    group-Mentions_base s =
        any-append (is_candidate SnapshotSide.base s) base_candidates head_candidates
        ∙ ground (
          arith,
          take-candidates c.base reason SnapshotSide.base s sides.of_base bs p.unpaired_base,
          take-others c.head reason SnapshotSide.base s
              (λ same. base-ne-head (sym same ∙ sides.of_head)) hs p.unpaired_head,
        )

    group-Mentions_head :
        Mentions SnapshotSide.head hs p.unpaired_head
          (uncertain_group c kind reason bs hs (base_candidates ++ head_candidates))
    unfolding mentions uncertain_group names side_of
    group-Mentions_head s =
        any-append (is_candidate SnapshotSide.head s) base_candidates head_candidates
        ∙ ground (
          arith,
          take-candidates c.head reason SnapshotSide.head s sides.of_head hs p.unpaired_head,
          take-others c.base reason SnapshotSide.head s
              (λ same. base-ne-head (sym sides.of_base ∙ same)) bs p.unpaired_base,
        )

    base_idle :
        is_empty (base_candidates ++ head_candidates) ≡ true
        → without bs p.unpaired_base ≡ p.unpaired_base
    base_idle none_taken = without-eq_self bs p.unpaired_base λ s.
        sym (take-candidates c.base reason SnapshotSide.base s sides.of_base bs p.unpaired_base)
        ∙ ap (any (is_candidate SnapshotSide.base s))
            (left-nil base_candidates head_candidates none_taken)

    head_idle :
        is_empty (base_candidates ++ head_candidates) ≡ true
        → without hs p.unpaired_head ≡ p.unpaired_head
    head_idle none_taken = without-eq_self hs p.unpaired_head λ s.
        sym (take-candidates c.head reason SnapshotSide.head s sides.of_head hs p.unpaired_head)
        ∙ ap (any (is_candidate SnapshotSide.head s))
            (right-nil base_candidates head_candidates none_taken)

    -- An uncertain group takes what is pending of its selectors, and mentions just that.
    pub emit_uncertain_group-Takes :
        ((candidates : List UncertainCandidate)
          → is_empty candidates ≡ false
          → P (uncertain_group c kind reason bs hs candidates))
        → Takes bs hs p (emit_uncertain_group c kind reason bs hs p)
    unfolding emit_uncertain_group
    emit_uncertain_group-Takes good =
        elim (Bool-cases (is_empty (base_candidates ++ head_candidates))) [
          | inl e ↦
              rw
                (
                  take-pending c.base reason bs p.unpaired_base,
                  take-pending c.head reason hs p.unpaired_head,
                  e,
                  if◌then◌else◌,
                )
                (rw (base_idle e, head_idle e) (here, refl, refl))
          | inr e ↦
              rw
                (
                  take-pending c.base reason bs p.unpaired_base,
                  take-pending c.head reason hs p.unpaired_head,
                  e,
                  if◌then◌else◌,
                )
                (
                  next here (
                      report p bs hs
                        (uncertain_group c kind reason bs hs (base_candidates ++ head_candidates))
                        group-Mentions_base group-Mentions_head
                        (good (base_candidates ++ head_candidates) e)),
                  refl,
                  refl,
                )
        ]
