-- ===== src/Changes/Pairer/Loop.antt =====
-- The loop over the groups of one rung (crates/orbit-graph-changes/src/changes.rs): what it emits for
-- one group takes no selector of another, so each group is still pending when its turn comes.
use Prim.Native.Nat.{Ordering}
use mathlib.Core.Logic.{◌≢◌}
use orbit_graph.Common.{
  true, false, List, [], ◌∷◌, Option, none, some, ◌==◌, nat_eq, list_eq, Eq, eq_iff, contains, ◌≡◌,
  sym, ap, ◌∙◌, subst, arith, inl, inr, All, All-imp, Bool-cases, Option-cases, Result, ok,
  >>=-eq-ok,
}
use orbit_graph.Common.Members.{All-mem, mem-contains}
use orbit_graph.Common.Text.{Text}
use orbit_graph.Common.Maps.{without, get, push_to, in_key_order}
use orbit_graph.Common.Maps.Sets.{contains-without}
use orbit_graph.Common.Maps.Groups.{
  DistinctKeys, DistinctKeys-push_to, DistinctKeys-in_key_order, Keyed, Keyed-push_to, Keyed-get,
  Keyed-in_key_order,
}
use orbit_graph.Changes.Types.{ChangesError, ChangedSymbol}
use orbit_graph.Changes.Pairer.{Pairer}
use orbit_graph.Changes.Pairer.Rungs.{Groups, group_from, group_by, pair_groups}
use orbit_graph.Changes.Pairer.Steps.{Reach, here, Reach-trans}

pub All-contains {ℓ κ} :
    {A : Type ℓ} ⦃e : Eq A⦄ (P : A → Type κ) (xs : List A) (x : A)
    → All P xs
    → contains xs x ≡ true
    → P x
All-contains P xs x h m = All-mem P xs x h (mem-contains xs x m)

-- all of a list stand in another
abbrev pub Within : List Text → List Text → Type 0
Within set = All (λ s. contains set s ≡ true)

module _ {K : Type 0} ⦃e : Eq K⦄ where
  abbrev pub Identified : (Text → Result ChangesError (Option K)) → K → Text → Type 0
  Identified identity key selector = identity selector ≡ ok (some key)

  module _ (identity : Text → Result ChangesError (Option K)) (set : List Text) where
    -- where grouping does not fail, each group holds selectors of the set, under their identity
    abbrev pub IsGrouping : Groups K → Type 0
    IsGrouping groups =
        DistinctKeys groups
        × Keyed (Identified identity) groups
        × Keyed (λ (_ : K) s. contains set s ≡ true) groups

    group_from-IsGrouping :
        (groups : Groups K) (selectors : List Text) {result : Groups K}
        → IsGrouping groups
        → Within set selectors
        → group_from identity groups selectors ≡ ok result
        → IsGrouping result
    unfolding group_from
    group_from-IsGrouping groups [] {result} h w e =
        let same : groups ≡ result = cc in subst IsGrouping same h
    group_from-IsGrouping groups (s ∷ rest) h w e =
        let (found, f, later) = >>=-eq-ok (identity s) _ e in
        elim (Option-cases found) [
          | inl n ↦ group_from-IsGrouping groups rest h w.1 (rw n at later)
          | inr (key, n) ↦
              group_from-IsGrouping (push_to key s groups) rest
                (
                  DistinctKeys-push_to key s groups h.0,
                  Keyed-push_to (Identified identity) key s groups (f ∙ ap ok n) h.1,
                  Keyed-push_to (λ (_ : K) t. contains set t ≡ true) key s groups w.0 h.2,
                )
                w.1 (rw n at later)
        ]

    pub group_by-IsGrouping :
        (selectors : List Text) {groups : Groups K}
        → Within set selectors
        → group_by identity selectors ≡ ok groups
        → IsGrouping groups
    unfolding group_by
    group_by-IsGrouping selectors w e = group_from-IsGrouping [] selectors (tt, tt, tt) w e

get-none-All {κ} :
    {K : Type 0} ⦃e : Eq K⦄ {V : Type κ} (key : K) (groups : List (K × V))
    → get key groups ≡ none
    → All (λ (g : K × V). key ≢ g.0) groups
unfolding get
get-none-All key [] h = tt
get-none-All key ((k, v) ∷ groups) h = elim (Bool-cases (k == key)) [
  | inl same ↦ absurd (ground arith)
  | inr other ↦ (
    λ s. let same = (eq_iff k key).1 (sym s) in ground arith,
    get-none-All key groups (ground arith),
  )
]

module _ {K : Type 0} ⦃e : Eq K⦄ (P : ChangedSymbol → Type 0) (base_file head_file : List Text)
    (base_identity head_identity : Text → Result ChangesError (Option K))
    (emit : K → List Text → List Text → Pairer → Result ChangesError Pairer) where
  -- what one group's emission does to the state
  abbrev pub Takes : List Text → List Text → Pairer → Pairer → Type 0
  Takes bs hs p q =
      Reach P p q
      × (q.unpaired_base ≡ without bs p.unpaired_base)
      × (q.unpaired_head ≡ without hs p.unpaired_head)

  abbrev pub Emits : Type 0
  Emits =
      (key : K) (bs hs : List Text) (p q : Pairer)
      → All (Identified base_identity key) bs
      → All (Identified head_identity key) hs
      → Within p.unpaired_base bs
      → Within p.unpaired_head hs
      → Within base_file bs
      → Within head_file hs
      → emit key bs hs p ≡ ok q
      → Takes bs hs p q

  abbrev IsReady : Groups K → Pairer → K × List Text → Type 0
  IsReady head_groups p g =
      Within p.unpaired_base g.1
      × ((hs : List Text) → get g.0 head_groups ≡ some hs → Within p.unpaired_head hs)

  -- taking one identity's selectors leaves those of another
  Within-without :
      (identity : Text → Result ChangesError (Option K)) (key other : K)
      (taken left others : List Text)
      → key ≢ other
      → All (Identified identity key) taken
      → All (Identified identity other) others
      → Within left others
      → Within (without taken left) others
  Within-without identity key other taken left [] n ht ho w = tt
  Within-without identity key other taken left (s ∷ others) n ht ho w =
      let apart : contains taken s ≡ false = elim (Bool-cases (contains taken s)) [
        | inl m ↦
            let this = All-contains (Identified identity key) taken s ht m in
            absurd (n (let same = sym this ∙ ho.0 in cc))
        | inr m ↦ m
      ] in
      (
        contains-without taken left s ∙ ground arith,
        Within-without identity key other taken left others n ht ho.1 w.1,
      )

  still_IsReady :
      (head_groups : Groups K) (key : K) (bs hs : List Text) (p q : Pairer)
      → Keyed (Identified head_identity) head_groups
      → All (Identified base_identity key) bs
      → All (Identified head_identity key) hs
      → q.unpaired_base ≡ without bs p.unpaired_base
      → q.unpaired_head ≡ without hs p.unpaired_head
      → (groups : Groups K) → All (λ (g : K × List Text). key ≢ g.0) groups
      → Keyed (Identified base_identity) groups
      → All (IsReady head_groups p) groups
      → All (IsReady head_groups q) groups
  still_IsReady head_groups key bs hs p q kh ib ih eb eh [] n k r = tt
  still_IsReady head_groups key bs hs p q kh ib ih eb eh (g ∷ groups) n k r = (
    (
      subst (λ set. Within set g.1) (sym eb)
          (Within-without base_identity key g.0 bs p.unpaired_base g.1 n.0 ib k.0 r.0.0),
      λ others found.
          subst (λ set. Within set others) (sym eh)
            (Within-without head_identity key g.0 hs p.unpaired_head others n.0 ih
              (Keyed-get (Identified head_identity) g.0 head_groups others kh found)
              (r.0.1 others found)),
    ),
    still_IsReady head_groups key bs hs p q kh ib ih eb eh groups n.1 k.1 r.1,
  )

  ready_groups-Reach :
      Emits
      → (head_groups : Groups K) → Keyed (Identified head_identity) head_groups
      → Keyed (λ (_ : K) s. contains head_file s ≡ true) head_groups
      → (groups : Groups K) (p : Pairer) {q : Pairer} → DistinctKeys groups
      → Keyed (Identified base_identity) groups
      → Keyed (λ (_ : K) s. contains base_file s ≡ true) groups
      → All (IsReady head_groups p) groups
      → pair_groups emit head_groups groups p ≡ ok q
      → Reach P p q
  unfolding pair_groups
  ready_groups-Reach emits head_groups kh fh [] p {q} d k f r e =
      let same : p ≡ q = cc in subst (Reach P p) same here
  ready_groups-Reach emits head_groups kh fh ((key, bs) ∷ groups) p d k f r e =
      elim (Option-cases (get key head_groups)) [
        | inl n ↦
            ready_groups-Reach emits head_groups kh fh groups p d.1 k.1 f.1 r.1
              (rw (n, pair_groups) at e)
        | inr (hs, n) ↦
            let (mid, emitted, later) = >>=-eq-ok (emit key bs hs p) _ (rw (n, pair_groups) at e) in
            let ih = Keyed-get (Identified head_identity) key head_groups hs kh n in
            let (reach, eb, eh) =
              emits key bs hs p mid k.0 ih r.0.0 (r.0.1 hs n) f.0
                (Keyed-get (λ (_ : K) s. contains head_file s ≡ true) key head_groups hs fh n)
                emitted in
            Reach-trans reach (
              ready_groups-Reach emits head_groups kh fh groups mid d.1 k.1 f.1
                (still_IsReady head_groups key bs hs p mid kh k.0 ih eb eh groups
                  (get-none-All key groups d.0) k.1 r.1)
                later)
      ]

  pub pair_groups-Reach :
      Emits
      → (p : Pairer) {q : Pairer} (cmp : K → K → Ordering) (base_groups head_groups : Groups K)
      → IsGrouping base_identity p.unpaired_base base_groups
      → IsGrouping head_identity p.unpaired_head head_groups
      → IsGrouping base_identity base_file base_groups
      → IsGrouping head_identity head_file head_groups
      → pair_groups emit head_groups (in_key_order cmp base_groups) p ≡ ok q
      → Reach P p q
  pair_groups-Reach emits p cmp base_groups head_groups hb hh fb fh e =
      ready_groups-Reach emits head_groups hh.1 fh.2 (in_key_order cmp base_groups) p
        (DistinctKeys-in_key_order cmp base_groups hb.0)
        (Keyed-in_key_order (Identified base_identity) cmp base_groups hb.1)
        (Keyed-in_key_order (λ (_ : K) s. contains base_file s ≡ true) cmp base_groups fb.2)
        (All-imp
          (λ (g : K × List Text) w. (
            w,
            λ hs found.
                Keyed-get (λ (_ : K) s. contains p.unpaired_head s ≡ true) g.0 head_groups hs hh.2
                  found,
          ))
          (in_key_order cmp base_groups)
          (Keyed-in_key_order (λ (_ : K) s. contains p.unpaired_base s ≡ true) cmp base_groups
            hb.2))
        e
