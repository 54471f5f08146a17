-- ===== src/Common/Maps/Groups.antt =====
-- Groups of values by a key: each key stands once, each value under its own key.
use Prim.Native.Nat.{Ordering}
use mathlib.Core.Path.{◌≡◌, refl, sym, subst}
use mathlib.Core.Logic.{inl, inr, ◌≢◌}
use mathlib.Core.List.{List, [], ◌∷◌}
use mathlib.Core.Option.{none, some}
use native.Mathlib.Omega.{arith}
use orbit_graph.Common.Tests.{Eq, ◌==◌, eq_iff, Bool-cases, if◌then◌else◌}
use orbit_graph.Common.Lists.{All, All-append}
use orbit_graph.Common.Members.{All-mem, All-of_mem, mem-sort_by}
use orbit_graph.Common.Sort.{sort_by, insert_sorted}
use orbit_graph.Common.Maps.{get, push_to, in_key_order}

module _ {ℓ κ} {K : Type ℓ} ⦃e : Eq K⦄ {V : Type κ} where
  -- no key stands twice
  abbrev pub DistinctKeys : List (K × List V) → Type κ
  DistinctKeys [] = Unit
  DistinctKeys ((key, values) ∷ groups) = (get key groups ≡ none) × DistinctKeys groups

  get-push_to :
      (key other : K) (value : V) (groups : List (K × List V))
      → key ≢ other
      → get other groups ≡ none
      → get other (push_to key value groups) ≡ none
  unfolding get push_to
  get-push_to key other value [] n h = ground (arith, eq_iff key other)
  get-push_to key other value ((k, vs) ∷ groups) n h =
      ground (
        arith,
        eq_iff key other,
        eq_iff k other,
        eq_iff k key,
        get-push_to key other value groups n,
      )

  pub DistinctKeys-push_to :
      (key : K) (value : V) (groups : List (K × List V))
      → DistinctKeys groups
      → DistinctKeys (push_to key value groups)
  unfolding push_to get
  DistinctKeys-push_to key value [] h = (refl, tt)
  DistinctKeys-push_to key value ((k, vs) ∷ groups) h = elim (Bool-cases (k == key)) [
    | inl same ↦ rw (same, if◌then◌else◌) h
    | inr other ↦
        rw (other, if◌then◌else◌)
          (
            get-push_to key k value groups (λ s. ground (arith, eq_iff k key)) h.0,
            DistinctKeys-push_to key value groups h.1,
          )
  ]

  module _ (cmp : K × List V → K × List V → Ordering) where
    get-insert_sorted :
        (g : K × List V) (groups : List (K × List V)) (key : K)
        → g.0 ≢ key
        → get key groups ≡ none
        → get key (insert_sorted cmp g groups) ≡ none
    unfolding get insert_sorted
    get-insert_sorted g [] key n h = ground (arith, eq_iff g.0 key)
    get-insert_sorted g (k ∷ groups) key n h =
        ground (arith, eq_iff g.0 key, get-insert_sorted g groups key n)

    DistinctKeys-insert_sorted :
        (g : K × List V) (groups : List (K × List V))
        → get g.0 groups ≡ none
        → DistinctKeys groups
        → DistinctKeys (insert_sorted cmp g groups)
    unfolding get insert_sorted
    DistinctKeys-insert_sorted g [] n h = (refl, tt)
    DistinctKeys-insert_sorted g (k ∷ groups) n h = ground (
      arith,
      eq_iff k.0 g.0,
      eq_iff g.0 k.0,
      DistinctKeys-insert_sorted g groups,
      get-insert_sorted g groups k.0,
    )

    pub get-sort_by :
        (groups : List (K × List V)) (key : K)
        → get key groups ≡ none
        → get key (sort_by cmp groups) ≡ none
    unfolding get sort_by
    get-sort_by [] key h = h
    get-sort_by (g ∷ groups) key h =
        get-insert_sorted g (sort_by cmp groups) key (λ s. ground (arith, eq_iff g.0 key))
          (get-sort_by groups key (ground (arith, eq_iff g.0 key)))

    pub DistinctKeys-sort_by :
        (groups : List (K × List V)) → DistinctKeys groups → DistinctKeys (sort_by cmp groups)
    unfolding sort_by
    DistinctKeys-sort_by [] h = tt
    DistinctKeys-sort_by (g ∷ groups) h =
        DistinctKeys-insert_sorted g (sort_by cmp groups) (get-sort_by groups g.0 h.0)
          (DistinctKeys-sort_by groups h.1)

  pub DistinctKeys-in_key_order :
      (cmp : K → K → Ordering) (groups : List (K × List V))
      → DistinctKeys groups
      → DistinctKeys (in_key_order cmp groups)
  unfolding in_key_order
  DistinctKeys-in_key_order cmp groups h = DistinctKeys-sort_by _ groups h

  -- every value satisfies `P` of its key
  module _ {μ} (P : K → V → Type μ) where
    abbrev pub Keyed : List (K × List V) → Type μ
    Keyed = All (λ (g : K × List V). All (P g.0) g.1)

    pub Keyed-push_to :
        (key : K) (value : V) (groups : List (K × List V))
        → P key value
        → Keyed groups
        → Keyed (push_to key value groups)
    unfolding push_to
    Keyed-push_to key value [] p h = ((p, tt), tt)
    Keyed-push_to key value ((k, vs) ∷ groups) p h = elim (Bool-cases (k == key)) [
      | inl same ↦
          rw (same, if◌then◌else◌)
            (
              All-append (P k) vs (value ∷ []) h.0
                  (subst (λ z. P z value) (sym ((eq_iff k key).0 same)) p, tt),
              h.1,
            )
      | inr other ↦ rw (other, if◌then◌else◌) (h.0, Keyed-push_to key value groups p h.1)
    ]

    pub Keyed-in_key_order :
        (cmp : K → K → Ordering) (groups : List (K × List V))
        → Keyed groups
        → Keyed (in_key_order cmp groups)
    unfolding in_key_order
    Keyed-in_key_order cmp groups h =
        All-of_mem (λ (g : K × List V). All (P g.0) g.1) _
          (λ g m.
            All-mem (λ (g : K × List V). All (P g.0) g.1) groups g h (mem-sort_by _ groups g m))

    pub Keyed-get :
        (key : K) (groups : List (K × List V)) (values : List V)
        → Keyed groups
        → get key groups ≡ some values
        → All (P key) values
    unfolding get
    Keyed-get key [] values h found = absurd (cc)
    Keyed-get key ((k, vs) ∷ groups) values h found = elim (Bool-cases (k == key)) [
      | inl same ↦
          let this : vs ≡ values = ground arith in
          subst (λ z. All (P z) values) ((eq_iff k key).0 same) (subst (All (P k)) this h.0)
      | inr other ↦ Keyed-get key groups values h.1 (ground arith)
    ]
