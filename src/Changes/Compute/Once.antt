-- ===== src/Changes/Compute/Once.antt =====
-- `ChangedSymbols::compute` of crates/orbit-graph-changes/src/changes.rs, from end to end: how often
-- its entries mention a selector, and what each entry says.
use Prim.Native.Nat.{Ordering}
use orbit_graph.Common.{
  Bool, not, ◌&&◌, List, [], ◌∷◌, ◌++◌, map, nat_eq, list_eq, eq_iff, contains, filter, ◌≡◌, refl,
  sym, ap, ◌∙◌, subst, arith, All, All-append, All-map, All-of_All, ok, >>=-eq-ok,
}
use orbit_graph.Common.Text.{Text}
use orbit_graph.Common.Sort.{sort_by, insert_sorted, compare_text}
use orbit_graph.Common.Maps.Sets.{
  Distinct, contains-filter, Distinct-filter, Distinct-add_all, Distinct-sort_by,
}
use orbit_graph.Changes.Types.{SnapshotSide, ChangedSymbol, ChangedSymbols, or_query}
use orbit_graph.Changes.Files.{base_paths, head_paths}
use orbit_graph.Changes.Files.Git.{changed_files}
use orbit_graph.Changes.Inventory.{
  SideInventory, Snapshot, load, list_symbols, load_overview, load_files, load_symbols, load_symbol,
  OverviewFile, OverviewSymbol, symbol_ref, candidate_selectors, selectors_of,
}
use orbit_graph.Changes.Pairer.{Context, Pairer}
use orbit_graph.Changes.Pairer.Emit.{removed_change, added_change}
use orbit_graph.Changes.Pairer.Rungs.{pair_all, new_pairer, pair_same_selector, emit_unpaired}
use orbit_graph.Changes.Pairer.Steps.{
  names, side_of, mentions, pending, times, times-append, tally, one_if, Reach, Reach-tally,
  Reach-Distinct, Reach-All,
}
use orbit_graph.Changes.Pairer.Coherent.{IsCoherent, HasShape}
use orbit_graph.Changes.Pairer.Emitted.{HasSides}
use orbit_graph.Changes.Pairer.Climb.{pair_all-Reach}
use orbit_graph.Changes.Pairer.Shared.{is_same_source, IsShared, pair_shared-IsShared}
use orbit_graph.Changes.Compute.{Comparison, context_of, compute, compare_changes}

times-insert_sorted :
    (side : SnapshotSide) (s : Text) (cmp : ChangedSymbol → ChangedSymbol → Ordering)
    (x : ChangedSymbol) (ys : List ChangedSymbol)
    → times side s (insert_sorted cmp x ys) ≡ times side s (x ∷ ys)
unfolding times insert_sorted
times-insert_sorted side s cmp x [] = refl
times-insert_sorted side s cmp x (y ∷ ys) = ground (arith, times-insert_sorted side s cmp x ys)

times-sort_by :
    (side : SnapshotSide) (s : Text) (cmp : ChangedSymbol → ChangedSymbol → Ordering)
    (xs : List ChangedSymbol)
    → times side s (sort_by cmp xs) ≡ times side s xs
unfolding sort_by times
times-sort_by side s cmp [] = refl
times-sort_by side s cmp (x ∷ xs) =
    times-insert_sorted side s cmp x (sort_by cmp xs) ∙ ground (arith, times-sort_by side s cmp xs)

-- the loaded side is the side that was asked for
load_symbols-side :
    (path : Text) (symbols : List OverviewSymbol) (inv : SideInventory)
    → (load_symbols path symbols inv).side ≡ inv.side
unfolding load_symbols load_symbol
load_symbols-side path [] inv = refl
load_symbols-side path (s ∷ rest) inv =
    load_symbols-side path rest (load_symbol path s inv) ∙ ground arith

load_files-side :
    (files : List OverviewFile) (inv : SideInventory) → (load_files files inv).side ≡ inv.side
unfolding load_files
load_files-side [] inv = refl
load_files-side (file ∷ files) inv =
    load_files-side files _ ∙ load_symbols-side file.path file.symbols _

load-side :
    (side : SnapshotSide) (snapshot : Snapshot) {inv : SideInventory}
    → load side snapshot ≡ ok inv
    → inv.side ≡ side
unfolding load load_overview
load-side side snapshot {inv} e =
    let (overview, read, last) = >>=-eq-ok (or_query list_symbols side snapshot.overview) _ e in
    let same : load_overview side snapshot.commit_sha overview ≡ inv = cc in
    subst (λ (i : SideInventory). i.side ≡ side) same (load_files-side overview _)

pub context_of-HasSides :
    (comparison : Comparison) (c : Context) → context_of comparison ≡ ok c → HasSides c
unfolding context_of
context_of-HasSides comparison c e =
    let (files, _, loads) =
      >>=-eq-ok
        (changed_files comparison.git comparison.repository comparison.mode
          comparison.base.commit_sha comparison.head.commit_sha)
        _ e in
    let (base, of_base, more) = >>=-eq-ok (load SnapshotSide.base comparison.base) _ loads in
    let (head, of_head, last) = >>=-eq-ok (load SnapshotSide.head comparison.head) _ more in
    let same_base : base ≡ c.base = cc in
    let same_head : head ≡ c.head = cc in
    record {
      of_base =
          subst (λ (i : SideInventory). i.side ≡ SnapshotSide.base) same_base
            (load-side SnapshotSide.base comparison.base of_base);
      of_head =
          subst (λ (i : SideInventory). i.side ≡ SnapshotSide.head) same_head
            (load-side SnapshotSide.head comparison.head of_head);
    }

candidate_selectors-Distinct :
    (inv : SideInventory) (paths : List Text) → Distinct (candidate_selectors inv paths)
unfolding candidate_selectors
candidate_selectors-Distinct inv paths =
    Distinct-sort_by compare_text _ (Distinct-add_all {A = Text} [] (selectors_of inv paths) tt)

module _ (c : Context) where
  -- the selectors of a side that stand in a changed file
  pub candidates : SnapshotSide → List Text
  unfolding pending
  candidates side = pending side (new_pairer c)

  candidates-Distinct : (side : SnapshotSide) → Distinct (candidates side)
  unfolding candidates new_pairer pending
  candidates-Distinct SnapshotSide.base = candidate_selectors-Distinct c.base (base_paths c.files)
  candidates-Distinct SnapshotSide.head = candidate_selectors-Distinct c.head (head_paths c.files)

  -- whether a selector stands on both sides, in changed files, and is unchanged
  pub unchanged : Text → Bool
  unfolding candidates
  unchanged s =
      contains (candidates SnapshotSide.base) s
      && contains (candidates SnapshotSide.head) s
      && is_same_source c s

  -- what `emit_unpaired` adds mentions each selector that was pending once
  times-removed :
      (s : Text) (selectors : List Text)
      → Distinct selectors
      → (times SnapshotSide.base s (map (removed_change c) selectors)
          ≡ one_if (contains selectors s))
        × (times SnapshotSide.head s (map (removed_change c) selectors) ≡ 0)
  unfolding times mentions names side_of removed_change symbol_ref
  times-removed s [] d = (refl, refl)
  times-removed s (x ∷ rest) d = ground (arith, times-removed s rest d.1, eq_iff x s)

  times-added :
      (s : Text) (selectors : List Text)
      → Distinct selectors
      → (times SnapshotSide.head s (map (added_change c) selectors) ≡ one_if (contains selectors s))
        × (times SnapshotSide.base s (map (added_change c) selectors) ≡ 0)
  unfolding times mentions names side_of added_change symbol_ref
  times-added s [] d = (refl, refl)
  times-added s (x ∷ rest) d = ground (arith, times-added s rest d.1, eq_iff x s)

  emit_unpaired-times :
      (p : Pairer) (side : SnapshotSide) (s : Text)
      → ((either : SnapshotSide) → Distinct (pending either p))
      → times side s (emit_unpaired c p).symbols ≡ tally side s p
  unfolding emit_unpaired tally pending
  emit_unpaired-times p SnapshotSide.base s d =
      let removed = map (removed_change c) p.unpaired_base in
      let added = map (added_change c) p.unpaired_head in
      omega (
        arith,
        times-append SnapshotSide.base s p.symbols (removed ++ added),
        times-append SnapshotSide.base s removed added,
        times-removed s p.unpaired_base (d SnapshotSide.base),
        times-added s p.unpaired_head (d SnapshotSide.head),
      )
  emit_unpaired-times p SnapshotSide.head s d =
      let removed = map (removed_change c) p.unpaired_base in
      let added = map (added_change c) p.unpaired_head in
      omega (
        arith,
        times-append SnapshotSide.head s p.symbols (removed ++ added),
        times-append SnapshotSide.head s removed added,
        times-removed s p.unpaired_base (d SnapshotSide.base),
        times-added s p.unpaired_head (d SnapshotSide.head),
      )

  emit_unpaired-IsCoherent :
      (p : Pairer) → All (IsCoherent c) p.symbols → All (IsCoherent c) (emit_unpaired c p).symbols
  unfolding emit_unpaired removed_change added_change IsCoherent HasShape
  emit_unpaired-IsCoherent p h = All-append (IsCoherent c) p.symbols _ h (
      All-append (IsCoherent c) (map (removed_change c) p.unpaired_base) _
        (All-map (IsCoherent c) (removed_change c) p.unpaired_base
          (All-of_All _ p.unpaired_base (λ b. (refl, refl, (b, refl)))))
        (All-map (IsCoherent c) (added_change c) p.unpaired_head
          (All-of_All _ p.unpaired_head (λ h. (refl, refl, (h, refl))))))

  new_pairer-times : (side : SnapshotSide) (s : Text) → times side s (new_pairer c).symbols ≡ 0
  unfolding new_pairer times
  new_pairer-times side s = refl

  -- the tally after the first rung
  first_tally :
      (p : Pairer) (side : SnapshotSide) (s : Text)
      → IsShared c
          (filter (contains (new_pairer c).unpaired_head) (new_pairer c).unpaired_base)
          (new_pairer c)
          p
      → tally side s p ≡ one_if (contains (candidates side) s && not (unchanged s))
  unfolding tally candidates unchanged pending
  first_tally p SnapshotSide.base s shared =
      let start = new_pairer c in
      ground (
        arith,
        contains-filter (contains start.unpaired_head) start.unpaired_base s,
        shared.left SnapshotSide.base s,
        shared.once SnapshotSide.base s,
        new_pairer-times SnapshotSide.base s,
      )
  first_tally p SnapshotSide.head s shared =
      let start = new_pairer c in
      ground (
        arith,
        contains-filter (contains start.unpaired_head) start.unpaired_base s,
        shared.left SnapshotSide.head s,
        shared.once SnapshotSide.head s,
        new_pairer-times SnapshotSide.head s,
      )

  new_pairer-IsCoherent : All (IsCoherent c) (new_pairer c).symbols
  unfolding new_pairer
  new_pairer-IsCoherent = tt

  new_pairer-Distinct : (side : SnapshotSide) → Distinct (pending side (new_pairer c))
  unfolding candidates
  new_pairer-Distinct side = candidates-Distinct side

  -- what holds of the state at the end of the ladder
  pub record IsComplete (q : Pairer) : Type 0 where
    pub once :
        (side : SnapshotSide) (s : Text)
        → times side s q.symbols ≡ one_if (contains (candidates side) s && not (unchanged s))
    pub coherent : All (IsCoherent c) q.symbols

  module _ (sides : HasSides c) where
    pair_same_selector-IsShared :
        (p : Pairer)
        → pair_same_selector c (new_pairer c) ≡ ok p
        → IsShared c
            (filter (contains (new_pairer c).unpaired_head) (new_pairer c).unpaired_base)
            (new_pairer c)
            p
    unfolding pair_same_selector candidates pending
    pair_same_selector-IsShared p e =
        pair_shared-IsShared c sides _ (new_pairer c)
          (Distinct-filter (contains (new_pairer c).unpaired_head) (new_pairer c).unpaired_base
            (candidates-Distinct SnapshotSide.base))
          e

    pair_all-IsComplete : (q : Pairer) → pair_all c ≡ ok q → IsComplete q
    pair_all-IsComplete q e =
        let (first, cross, ef, reach, same) = pair_all-Reach c sides q e in
        subst IsComplete (sym same)
          (climbed first cross (pair_same_selector-IsShared first ef) reach)
      where
        climbed :
            (first cross : Pairer)
            → IsShared c
                (filter (contains (new_pairer c).unpaired_head) (new_pairer c).unpaired_base)
                (new_pairer c)
                first
            → Reach (IsCoherent c) first cross
            → IsComplete (emit_unpaired c cross)
        climbed first cross shared reach = record {
          once = λ side s.
              emit_unpaired-times cross side s (λ either.
                Reach-Distinct either reach (shared.distinct either (new_pairer-Distinct either)))
              ∙ (Reach-tally side s reach ∙ first_tally first side s shared);
          coherent =
              emit_unpaired-IsCoherent cross
                (Reach-All reach (shared.coherent new_pairer-IsCoherent));
        }

-- Where `compute` returns, it read the files of the diff and the inventories of both sides, and
-- the number of entries that mention a selector of a side, as their symbol there or among their
-- uncertain candidates, is one if the side has the selector in a changed file and the selector
-- is not unchanged, and zero otherwise. Unchanged is a selector that both sides have in changed
-- files, unambiguous on both, whose sources are both read whole and equal.
pub compute-once :
    (comparison : Comparison) (changed : ChangedSymbols) (side : SnapshotSide) (s : Text)
    → compute comparison ≡ ok changed
    → (c : Context) × (context_of comparison ≡ ok c)
      × (times side s changed.symbols
          ≡ one_if (contains (candidates c side) s && not (unchanged c s)))
unfolding compute
compute-once comparison changed side s e =
    let (c, ec, more) = >>=-eq-ok (context_of comparison) _ e in
    let (paired, ep, last) = >>=-eq-ok (pair_all c) _ more in
    let symbols : changed.symbols ≡ sort_by compare_changes paired.symbols = cc in
    (
      c,
      ec,
      ap (times side s) symbols
          ∙ (times-sort_by side s compare_changes paired.symbols
              ∙ (pair_all-IsComplete c (context_of-HasSides comparison c ec) paired ep).once side
                  s),
    )
