-- ===== src/Common/Maps.antt =====
-- `BTreeMap` and `BTreeSet`: lists in which a key stands once, in the order in which the keys came.
-- `in_key_order` is the order in which the source iterates.
pub mod Sets
pub mod Groups
use Prim.Native.Nat.{Ordering}
use mathlib.Core.Bool.{Bool, not}
use mathlib.Core.List.{List, [], ◌∷◌, ◌++◌, map}
use mathlib.Core.Option.{Option, none, some}
use orbit_graph.Common.Tests.{Eq, ◌==◌, if◌then◌else◌}
use orbit_graph.Common.Lists.{contains, filter}
use orbit_graph.Common.Sort.{sort_by}

module _ {ℓ κ} {K : Type ℓ} ⦃e : Eq K⦄ {V : Type κ} where
  -- `BTreeMap::get`
  unfoldable pub get : K → List (K × V) → Option V
  get key [] = none
  get key ((k, v) ∷ entries) = let later = get key entries in if k == key then some v else later

  -- `BTreeMap::insert`
  unfoldable pub put : K → V → List (K × V) → List (K × V)
  put key value [] = (key, value) ∷ []
  put key value ((k, v) ∷ entries) =
      let later = put key value entries in if k == key then (k, value) ∷ entries else (k, v) ∷ later

  -- `entry(key).or_default().push(value)`
  unfoldable pub push_to : K → V → List (K × List V) → List (K × List V)
  push_to key value [] = (key, value ∷ []) ∷ []
  push_to key value ((k, vs) ∷ entries) =
      let later = push_to key value entries in
      if k == key then (k, vs ++ value ∷ []) ∷ entries else (k, vs) ∷ later

  abbrev pub keys : List (K × V) → List K
  keys = map (λ entry. entry.0)

  unfoldable pub in_key_order : (K → K → Ordering) → List (K × V) → List (K × V)
  unfolding sort_by
  in_key_order cmp = sort_by (λ (a : K × V) (b : K × V). cmp a.0 b.0)

module _ {ℓ} {A : Type ℓ} ⦃e : Eq A⦄ where
  -- `BTreeSet::insert` of each element
  unfoldable pub add_all : List A → List A → List A
  add_all set [] = set
  add_all set (x ∷ xs) = add_all (if contains set x then set else set ++ x ∷ []) xs

  -- what a set holds beside some elements, and `BTreeSet::remove`
  unfoldable pub without : List A → List A → List A
  without xs = filter (λ y. not (contains xs y))

  unfoldable pub remove : A → List A → List A
  unfolding without
  remove x = without (x ∷ [])
