-- ===== src/Common/Members.antt =====
-- Members of a list that was filtered, sorted or searched are members of the list.
use Prim.Native.Nat.{Ordering}
use mathlib.Core.List.{Memᴰ}
use mathlib.Core.List.Memᴰ
use mathlib.Core.Path.{◌≡◌, refl, sym, subst, ap}
use mathlib.Core.Logic.{inl, inr}
use mathlib.Core.Bool.{Bool, true}
use mathlib.Core.List.{List, [], ◌∷◌, map}
use mathlib.Core.Option.{some}
use native.Mathlib.Omega.{arith}
use orbit_graph.Common.Tests.{Bool-cases, Eq, ◌==◌, eq_iff}
use orbit_graph.Common.Lists.{any, contains, All, filter, find, first}
use orbit_graph.Common.Sort.{is_gt, insert_sorted, sort_by}

module _ {ℓ} {A : Type ℓ} where
  pub mem-first : (xs : List A) (x : A) → first xs ≡ some x → Memᴰ x xs
  mem-first [] x h = absurd (cc)
  mem-first (y ∷ ys) x h = Memᴰ.head (cc)

  pub mem-filter : (p : A → Bool) (xs : List A) (x : A) → Memᴰ x (filter p xs) → Memᴰ x xs
  mem-filter p [] x m = m
  mem-filter p (y ∷ ys) x m = elim (Bool-cases (p y)) [
    | inr e ↦ Memᴰ.tail (mem-filter p ys x (rw e at m))
    | inl e ↦ elim (Memᴰ.cases_cons (rw e at m)) [
      | inl same ↦ Memᴰ.head same
      | inr later ↦ Memᴰ.tail (mem-filter p ys x later)
    ]
  ]

  pub mem-find :
      (p : A → Bool) (xs : List A) (x : A) → find p xs ≡ some x → Memᴰ x xs × (p x ≡ true)
  mem-find p [] x h = absurd (cc)
  mem-find p (y ∷ ys) x h = elim (Bool-cases (p y)) [
    | inl e ↦ let same : x ≡ y = ground arith in (Memᴰ.head same, rw same e)
    | inr e ↦ let (m, q) = mem-find p ys x (rw e at h) in (Memᴰ.tail m, q)
  ]

  module _ (cmp : A → A → Ordering) where
    mem-insert_sorted :
        (y : A) (ys : List A) (x : A) → Memᴰ x (insert_sorted cmp y ys) → Memᴰ x (y ∷ ys)
    unfolding insert_sorted
    mem-insert_sorted y [] x m = m
    mem-insert_sorted y (z ∷ zs) x m = elim (Bool-cases (is_gt (cmp y z))) [
      | inr e ↦ rw e at m
      | inl e ↦ elim (Memᴰ.cases_cons (rw e at m)) [
        | inl same ↦ Memᴰ.tail (Memᴰ.head same)
        | inr later ↦ elim (Memᴰ.cases_cons (mem-insert_sorted y zs x later)) [
          | inl same ↦ Memᴰ.head same
          | inr last ↦ Memᴰ.tail (Memᴰ.tail last)
        ]
      ]
    ]

    pub mem-sort_by : (xs : List A) (x : A) → Memᴰ x (sort_by cmp xs) → Memᴰ x xs
    unfolding sort_by
    mem-sort_by [] x m = m
    mem-sort_by (y ∷ ys) x m = elim (Memᴰ.cases_cons (mem-insert_sorted y (sort_by cmp ys) x m)) [
      | inl same ↦ Memᴰ.head same
      | inr later ↦ Memᴰ.tail (mem-sort_by ys x later)
    ]

pub All-of_mem {ℓ κ} :
    {A : Type ℓ} (P : A → Type κ) (xs : List A) → ((x : A) → Memᴰ x xs → P x) → All P xs
All-of_mem P [] h = tt
All-of_mem P (x ∷ xs) h = (h x (Memᴰ.head refl), All-of_mem P xs (λ y m. h y (Memᴰ.tail m)))

pub All-mem {ℓ κ} : {A : Type ℓ} (P : A → Type κ) (xs : List A) (x : A) → All P xs → Memᴰ x xs → P x
All-mem P [] x h m = elim m [ ]
All-mem P (y ∷ ys) x h (Memᴰ.head e) = subst P (sym e) h.0
All-mem P (y ∷ ys) x h (Memᴰ.tail m) = All-mem P ys x h.1 m

-- The other way round: what passes is kept, sorting keeps all, and a member decides `any`.
module _ {ℓ} {A : Type ℓ} where
  pub filter-mem :
      (p : A → Bool) (xs : List A) (x : A) → p x ≡ true → Memᴰ x xs → Memᴰ x (filter p xs)
  filter-mem p [] x h m = elim m [ ]
  filter-mem p (y ∷ ys) x h (Memᴰ.head e) = rw (subst (λ z. p z ≡ true) e h, filter) (Memᴰ.head e)
  filter-mem p (y ∷ ys) x h (Memᴰ.tail m) = elim (Bool-cases (p y)) [
    | inl e ↦ rw (e, filter) (Memᴰ.tail (filter-mem p ys x h m))
    | inr e ↦ rw (e, filter) (filter-mem p ys x h m)
  ]

  pub any-mem : (p : A → Bool) (xs : List A) (x : A) → Memᴰ x xs → p x ≡ true → any p xs ≡ true
  any-mem p [] x m h = elim m [ ]
  any-mem p (y ∷ ys) x (Memᴰ.head e) h = let this = subst (λ z. p z ≡ true) e h in ground arith
  any-mem p (y ∷ ys) x (Memᴰ.tail m) h = let later = any-mem p ys x m h in ground arith

  pub any-eq-true :
      (p : A → Bool) (xs : List A) → any p xs ≡ true → (x : A) × Memᴰ x xs × (p x ≡ true)
  any-eq-true p [] h = absurd (cc)
  any-eq-true p (y ∷ ys) h = elim (Bool-cases (p y)) [
    | inl e ↦ (y, Memᴰ.head refl, e)
    | inr e ↦ let (x, m, px) = any-eq-true p ys (rw (e, any) at h) in (x, Memᴰ.tail m, px)
  ]

  module _ (cmp : A → A → Ordering) where
    insert_sorted-mem :
        (y : A) (ys : List A) (x : A) → Memᴰ x (y ∷ ys) → Memᴰ x (insert_sorted cmp y ys)
    unfolding insert_sorted
    insert_sorted-mem y [] x m = m
    insert_sorted-mem y (z ∷ zs) x m = elim (Bool-cases (is_gt (cmp y z))) [
      | inr e ↦ rw (e, insert_sorted) m
      | inl e ↦
          rw (e, insert_sorted)
            (elim (Memᴰ.cases_cons m) [
              | inl same ↦ Memᴰ.tail (insert_sorted-mem y zs x (Memᴰ.head same))
              | inr later ↦ elim (Memᴰ.cases_cons later) [
                | inl same ↦ Memᴰ.head same
                | inr last ↦ Memᴰ.tail (insert_sorted-mem y zs x (Memᴰ.tail last))
              ]
            ])
    ]

    pub sort_by-mem : (xs : List A) (x : A) → Memᴰ x xs → Memᴰ x (sort_by cmp xs)
    unfolding sort_by
    sort_by-mem [] x m = m
    sort_by-mem (y ∷ ys) x m = elim (Memᴰ.cases_cons m) [
      | inl same ↦ insert_sorted-mem y (sort_by cmp ys) x (Memᴰ.head same)
      | inr later ↦ insert_sorted-mem y (sort_by cmp ys) x (Memᴰ.tail (sort_by-mem ys x later))
    ]

pub mem-map {ℓ κ} :
    {A : Type ℓ} {B : Type κ} (f : A → B) (xs : List A) (y : B)
    → Memᴰ y (map f xs)
    → (x : A) × Memᴰ x xs × (y ≡ f x)
mem-map f [] y m = elim m [ ]
mem-map f (x ∷ xs) y (Memᴰ.head e) = (x, Memᴰ.head refl, e)
mem-map f (x ∷ xs) y (Memᴰ.tail m) = let (z, mz, e) = mem-map f xs y m in (z, Memᴰ.tail mz, e)

module _ {ℓ} {A : Type ℓ} ⦃e : Eq A⦄ where
  pub contains-mem : (xs : List A) (x : A) → Memᴰ x xs → contains xs x ≡ true
  contains-mem [] x m = elim m [ ]
  contains-mem (y ∷ ys) x (Memᴰ.head same) =
      let found : (y == x) ≡ true = (eq_iff y x).1 (sym same) in ground arith
  contains-mem (y ∷ ys) x (Memᴰ.tail m) = let later = contains-mem ys x m in ground arith

  pub mem-contains : (xs : List A) (x : A) → contains xs x ≡ true → Memᴰ x xs
  mem-contains [] x h = absurd (cc)
  mem-contains (y ∷ ys) x h = elim (Bool-cases (y == x)) [
    | inl found ↦ Memᴰ.head (sym ((eq_iff y x).0 found))
    | inr other ↦ Memᴰ.tail (mem-contains ys x (rw (other, contains) at h))
  ]

pub map-mem {ℓ κ} :
    {A : Type ℓ} {B : Type κ} (f : A → B) (xs : List A) (x : A) → Memᴰ x xs → Memᴰ (f x) (map f xs)
map-mem f [] x m = elim m [ ]
map-mem f (y ∷ ys) x (Memᴰ.head e) = Memᴰ.head (ap f e)
map-mem f (y ∷ ys) x (Memᴰ.tail m) = Memᴰ.tail (map-mem f ys x m)
