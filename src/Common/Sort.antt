-- ===== src/Common/Sort.antt =====
-- Sorting, for `ORDER BY` and `sort_by`: a stable insertion sort under a comparison.
use Prim.Native.Nat.{ℕ, compare, Ordering}
use mathlib.Core.List.{List, [], ◌∷◌}
use mathlib.Core.Bool.{Bool, true, false}
use orbit_graph.Common.Tests.{if◌then◌else◌}
use mathlib.Core.Option.{Option, none, some}

-- the first comparison that is not a tie
abbrev pub then_compare : Ordering → Ordering → Ordering
then_compare Ordering.eq second = second
then_compare Ordering.lt second = Ordering.lt
then_compare Ordering.gt second = Ordering.gt

-- texts in the order of their code points, which is that of their UTF-8 bytes
abbrev pub compare_text : List ℕ → List ℕ → Ordering
compare_text [] [] = Ordering.eq
compare_text [] (d ∷ t) = Ordering.lt
compare_text (c ∷ s) [] = Ordering.gt
compare_text (c ∷ s) (d ∷ t) = then_compare (compare c d) (compare_text s t)

-- NULL comes first
abbrev pub compare_option {ℓ} : {A : Type ℓ} → (A → A → Ordering) → Option A → Option A → Ordering
compare_option cmp none none = Ordering.eq
compare_option cmp none (some b) = Ordering.lt
compare_option cmp (some a) none = Ordering.gt
compare_option cmp (some a) (some b) = cmp a b

abbrev pub is_gt : Ordering → Bool
is_gt Ordering.gt = true
is_gt Ordering.eq = false
is_gt Ordering.lt = false

module _ {ℓ} {A : Type ℓ} (cmp : A → A → Ordering) where
  unfoldable pub insert_sorted : A → List A → List A
  insert_sorted x [] = x ∷ []
  insert_sorted x (y ∷ ys) =
      let rest = insert_sorted x ys in if is_gt (cmp x y) then y ∷ rest else x ∷ y ∷ ys

  unfoldable pub sort_by : List A → List A
  unfolding insert_sorted
  sort_by [] = []
  sort_by (x ∷ xs) = insert_sorted x (sort_by xs)
