-- ===== src/Changes/Pairer/Steps.antt =====
-- The ladder of `Pairer` (crates/orbit-graph-changes/src/changes.rs) as a run of small steps: a
-- step takes pending selectors out of both sides and adds one entry that mentions just these.
use orbit_graph.Common.{
  ℕ, ◌+◌, Bool, true, false, ◌&&◌, ◌||◌, List, [], ◌∷◌, ◌++◌, Option, none, some, ◌==◌, nat_eq,
  list_eq, if◌then◌else◌, contains, any, ◌≡◌, refl, ◌∙◌, arith, All, All-append,
}
use orbit_graph.Common.Text.{Text}
use orbit_graph.Common.Maps.{without}
use orbit_graph.Common.Maps.Sets.{Distinct, Distinct-without, contains-without}
use orbit_graph.Changes.Types.{
  SnapshotSide, side_label, SymbolRef, UncertainCandidate, ChangedSymbol,
}
use orbit_graph.Changes.Pairer.{Pairer}

unfoldable pub names : Option SymbolRef → Text → Bool
names none selector = false
names (some entry) selector = entry.selector == selector

unfoldable pub side_of : SnapshotSide → ChangedSymbol → Option SymbolRef
side_of SnapshotSide.base change = change.base
side_of SnapshotSide.head change = change.head

unfoldable pub is_candidate : SnapshotSide → Text → UncertainCandidate → Bool
unfolding side_label
is_candidate side selector candidate =
    candidate.symbol.snapshot == side_label side && candidate.symbol.selector == selector

-- Whether an entry mentions a selector of a side: as its symbol there, or among its candidates.
unfoldable pub mentions : SnapshotSide → Text → ChangedSymbol → Bool
unfolding names side_of is_candidate
mentions side selector change =
    names (side_of side change) selector
    || any (is_candidate side selector) change.uncertain_candidates

-- the pending selectors of a side
unfoldable pub pending : SnapshotSide → Pairer → List Text
pending SnapshotSide.base p = p.unpaired_base
pending SnapshotSide.head p = p.unpaired_head

abbrev pub Mentions : SnapshotSide → List Text → List Text → ChangedSymbol → Type 0
Mentions side taken pending change =
    (s : Text) → mentions side s change ≡ (contains taken s && contains pending s)

pub data Step (P : ChangedSymbol → Type 0) : Pairer → Pairer → Type 0 where
  report :
      (p : Pairer) (bs hs : List Text) (change : ChangedSymbol)
      → Mentions SnapshotSide.base bs p.unpaired_base change
      → Mentions SnapshotSide.head hs p.unpaired_head change
      → P change
      → Step P p (record {
        unpaired_base = without bs p.unpaired_base;
        unpaired_head = without hs p.unpaired_head;
        symbols = p.symbols ++ change ∷ [];
      })

pub data Reach (P : ChangedSymbol → Type 0) (p : Pairer) : Pairer → Type 0 where
  here : Reach P p p
  next : {q r : Pairer} → Reach P p q → Step P q r → Reach P p r

module _ {P : ChangedSymbol → Type 0} where
  pub Reach-trans : {p q r : Pairer} → Reach P p q → Reach P q r → Reach P p r
  Reach-trans first here = first
  Reach-trans first (next second step) = next (Reach-trans first second) step

-- How many entries mention a selector.
unfoldable pub times : SnapshotSide → Text → List ChangedSymbol → ℕ
times side s [] = 0
times side s (change ∷ changes) =
    let later = times side s changes in if mentions side s change then later + 1 else later

pub times-append :
    (side : SnapshotSide) (s : Text) (xs ys : List ChangedSymbol)
    → times side s (xs ++ ys) ≡ times side s xs + times side s ys
unfolding times
times-append side s [] ys = omega arith
times-append side s (x ∷ xs) ys = ground (arith, times-append side s xs ys)

abbrev pub one_if : Bool → ℕ
one_if true = 1
one_if false = 0

-- A pending selector counts once, and so does each entry that mentions it.
unfoldable pub tally : SnapshotSide → Text → Pairer → ℕ
unfolding times pending
tally side s p = one_if (contains (pending side p) s) + times side s p.symbols

taken_once :
    (side : SnapshotSide) (s : Text) (taken left : List Text) (changes : List ChangedSymbol)
    (change : ChangedSymbol)
    → mentions side s change ≡ (contains taken s && contains left s)
    → one_if (contains (without taken left) s) + times side s (changes ++ change ∷ [])
      ≡ one_if (contains left s) + times side s changes
unfolding times
taken_once side s taken left changes change m =
    ground (arith, contains-without taken left s, times-append side s changes (change ∷ []))

module _ {P : ChangedSymbol → Type 0} where
  Step-tally :
      {p q : Pairer} (side : SnapshotSide) (s : Text) → Step P p q → tally side s q ≡ tally side s p
  unfolding tally pending
  Step-tally SnapshotSide.base s (report p bs hs change mb mh _) =
      taken_once SnapshotSide.base s bs p.unpaired_base p.symbols change (mb s)
  Step-tally SnapshotSide.head s (report p bs hs change mb mh _) =
      taken_once SnapshotSide.head s hs p.unpaired_head p.symbols change (mh s)

  -- No step loses a selector, and none reports it twice.
  pub Reach-tally :
      {p q : Pairer} (side : SnapshotSide) (s : Text)
      → Reach P p q
      → tally side s q ≡ tally side s p
  Reach-tally side s here = refl
  Reach-tally side s (next reach step) = Step-tally side s step ∙ Reach-tally side s reach

  pub Reach-Distinct :
      {p q : Pairer} (side : SnapshotSide)
      → Reach P p q
      → Distinct (pending side p)
      → Distinct (pending side q)
  unfolding pending
  Reach-Distinct side here h = h
  Reach-Distinct SnapshotSide.base (next reach (report q bs hs change _ _ _)) h =
      Distinct-without bs q.unpaired_base (Reach-Distinct SnapshotSide.base reach h)
  Reach-Distinct SnapshotSide.head (next reach (report q bs hs change _ _ _)) h =
      Distinct-without hs q.unpaired_head (Reach-Distinct SnapshotSide.head reach h)

  pub Reach-All : {p q : Pairer} → Reach P p q → All P p.symbols → All P q.symbols
  Reach-All here h = h
  Reach-All (next reach (report q bs hs change _ _ good)) h =
      All-append P q.symbols (change ∷ []) (Reach-All reach h) (good, tt)
