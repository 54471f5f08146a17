-- ===== src/Common/Maps/Sets.antt =====
-- Sets as lists: what they hold after each operation, and that no element stands twice.
use Prim.Native.Nat.{Ordering}
use mathlib.Core.Path.{◌≡◌, refl, ap, ◌∙◌, subst}
use mathlib.Core.Logic.{inl, inr}
use mathlib.Core.Bool.{Bool, true, false, not, ◌&&◌, ◌||◌}
use mathlib.Core.List.{List, [], ◌∷◌, ◌++◌}
use native.Mathlib.Omega.{arith}
use orbit_graph.Common.Tests.{Eq, ◌==◌, eq_iff, eq_refl, Bool-cases, if◌then◌else◌}
use orbit_graph.Common.Lists.{contains, contains-append, filter}
use orbit_graph.Common.Sort.{sort_by, insert_sorted}
use orbit_graph.Common.Maps.{add_all, without}

module _ {ℓ} {A : Type ℓ} ⦃e : Eq A⦄ where
  -- no element stands twice
  abbrev pub Distinct : List A → Type 0
  Distinct [] = Unit
  Distinct (x ∷ xs) = (contains xs x ≡ false) × Distinct xs

  pub contains-filter :
      (p : A → Bool) (xs : List A) (a : A) → contains (filter p xs) a ≡ (contains xs a && p a)
  contains-filter p [] a = refl
  contains-filter p (x ∷ xs) a = elim (Bool-cases (x == a)) [
    | inl same ↦
        let e : p x ≡ p a = ap p ((eq_iff x a).0 same) in ground (arith, contains-filter p xs a, e)
    | inr other ↦ ground (arith, contains-filter p xs a)
  ]

  pub contains-without :
      (xs ys : List A) (a : A) → contains (without xs ys) a ≡ (contains ys a && not (contains xs a))
  unfolding without
  contains-without xs ys a = contains-filter (λ y. not (contains xs y)) ys a

  pub Distinct-filter : (p : A → Bool) (xs : List A) → Distinct xs → Distinct (filter p xs)
  Distinct-filter p [] h = tt
  Distinct-filter p (x ∷ xs) h = ground (arith, Distinct-filter p xs h.1, contains-filter p xs x)

  pub Distinct-without : (xs ys : List A) → Distinct ys → Distinct (without xs ys)
  unfolding without
  Distinct-without xs ys h = Distinct-filter _ ys h

  pub filter-eq_self :
      (p : A → Bool) (xs : List A)
      → ((x : A) → contains xs x ≡ true → p x ≡ true)
      → filter p xs ≡ xs
  filter-eq_self p [] h = refl
  filter-eq_self p (x ∷ xs) h =
      let here : p x ≡ true = h x (let same = eq_refl x in ground arith) in
      rw (here, filter) (ap (x ∷◌) (filter-eq_self p xs (λ y m. h y (ground arith))))

  Distinct-snoc :
      (set : List A) (x : A) → Distinct set → contains set x ≡ false → Distinct (set ++ x ∷ [])
  Distinct-snoc [] x h n = (refl, tt)
  Distinct-snoc (y ∷ ys) x h n =
      ground (arith, Distinct-snoc ys x h.1, contains-append ys (x ∷ []) y, eq_iff x y, eq_iff y x)

  pub Distinct-add_all : (set xs : List A) → Distinct set → Distinct (add_all set xs)
  unfolding add_all
  Distinct-add_all set [] h = h
  Distinct-add_all set (x ∷ xs) h = elim (Bool-cases (contains set x)) [
    | inl old ↦ rw (old, if◌then◌else◌) (Distinct-add_all set xs h)
    | inr new ↦
        rw (new, if◌then◌else◌) (Distinct-add_all (set ++ x ∷ []) xs (Distinct-snoc set x h new))
  ]

  pub contains-add_all :
      (set xs : List A) (a : A) → contains (add_all set xs) a ≡ (contains set a || contains xs a)
  unfolding add_all
  contains-add_all set [] a = ground arith
  contains-add_all set (x ∷ xs) a = elim (Bool-cases (contains set x)) [
    | inl old ↦
        let e : x == a ≡ true → contains set a ≡ true =
          λ h. subst (λ z. contains set z ≡ true) ((eq_iff x a).0 h) old in
        rw (old, if◌then◌else◌) (ground (arith, contains-add_all set xs a, e))
    | inr new ↦
        rw (new, if◌then◌else◌)
          (ground (arith, contains-add_all (set ++ x ∷ []) xs a, contains-append set (x ∷ []) a))
  ]

  module _ (cmp : A → A → Ordering) where
    contains-insert_sorted :
        (x : A) (ys : List A) (a : A)
        → contains (insert_sorted cmp x ys) a ≡ (x == a || contains ys a)
    unfolding insert_sorted
    contains-insert_sorted x [] a = refl
    contains-insert_sorted x (y ∷ ys) a = ground (arith, contains-insert_sorted x ys a)

    pub contains-sort_by : (xs : List A) (a : A) → contains (sort_by cmp xs) a ≡ contains xs a
    unfolding sort_by
    contains-sort_by [] a = refl
    contains-sort_by (x ∷ xs) a =
        contains-insert_sorted x (sort_by cmp xs) a ∙ ap (λ b. x == a || b) (contains-sort_by xs a)

    Distinct-insert_sorted :
        (x : A) (ys : List A)
        → contains ys x ≡ false
        → Distinct ys
        → Distinct (insert_sorted cmp x ys)
    unfolding insert_sorted
    Distinct-insert_sorted x [] n h = (refl, tt)
    Distinct-insert_sorted x (y ∷ ys) n h =
        ground (
          arith,
          Distinct-insert_sorted x ys,
          contains-insert_sorted x ys y,
          eq_iff x y,
          eq_iff y x,
        )

    pub Distinct-sort_by : (xs : List A) → Distinct xs → Distinct (sort_by cmp xs)
    unfolding sort_by
    Distinct-sort_by [] h = tt
    Distinct-sort_by (x ∷ xs) h =
        Distinct-insert_sorted x (sort_by cmp xs) (contains-sort_by xs x ∙ h.0)
          (Distinct-sort_by xs h.1)
