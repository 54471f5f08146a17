-- ===== src/Changes/Inventory/Loaded.antt =====
-- What `SideInventory::load` of crates/orbit-graph-changes/src/changes.rs makes of an overview: how
-- often a selector stands in it decides whether it is known, ambiguous and listed.
use orbit_graph.Common.{
  ℕ, suc, ◌+◌, true, ◌||◌, List, [], ◌∷◌, ◌++◌, ◌==◌, nat_eq, list_eq, eq_iff, leb, if◌then◌else◌,
  contains, ◌≡◌, refl, ap, subst, arith, ok,
}
use orbit_graph.Common.Text.{Text, is_some}
use orbit_graph.Common.Maps.{get, put, push_to, add_all}
use orbit_graph.Common.Maps.Sets.{contains-add_all}
use orbit_graph.Changes.Types.{SnapshotSide}
use orbit_graph.Changes.Inventory.{
  SideInventory, Snapshot, OverviewFile, OverviewSymbol, IndexedSymbol, load, load_overview,
  load_files, load_symbols, load_symbol, selector_of,
}

-- how often a text stands in a list
pub count : Text → List Text → ℕ
count s [] = 0
count s (x ∷ xs) = let later = count s xs in if x == s then suc later else later

count-append : (s : Text) (xs ys : List Text) → count s (xs ++ ys) ≡ count s xs + count s ys
unfolding count
count-append s [] ys = omega arith
count-append s (x ∷ xs) ys = ground (arith, count-append s xs ys)

-- how often a selector stands in an overview
pub count_in_file : Text → Text → List OverviewSymbol → ℕ
count_in_file s path [] = 0
count_in_file s path (x ∷ xs) =
    let later = count_in_file s path xs in if selector_of path x == s then suc later else later

pub count_in : Text → List OverviewFile → ℕ
unfolding count_in_file
count_in s [] = 0
count_in s (file ∷ files) = count_in_file s file.path file.symbols + count_in s files

-- how often it is listed under the paths
pub listed : Text → List (Text × List Text) → ℕ
unfolding count
listed s [] = 0
listed s ((path, selectors) ∷ entries) = count s selectors + listed s entries

get-put :
    {V : Type 0} (key other : Text) (value : V) (entries : List (Text × V))
    → is_some (get other (put key value entries)) ≡ (key == other || is_some (get other entries))
unfolding get put
get-put key other value [] = ground arith
get-put key other value ((k, v) ∷ entries) =
    ground (arith, get-put key other value entries, eq_iff k key, eq_iff k other, eq_iff key other)

listed-push_to :
    (s path x : Text) (entries : List (Text × List Text))
    → listed s (push_to path x entries)
      ≡ (if x == s then suc (listed s entries) else listed s entries)
unfolding listed push_to count
listed-push_to s path x [] = ground arith
listed-push_to s path x ((k, xs) ∷ entries) =
    ground (arith, listed-push_to s path x entries, count-append s xs (x ∷ []))

-- what an inventory holds of a selector that was met `n` times
pub record Holds (inv : SideInventory) (s : Text) (n : ℕ) : Type 0 where
  pub known : is_some (get s inv.symbols) ≡ leb 1 n
  pub ambiguous : contains inv.ambiguous_selectors s ≡ leb 2 n
  pub listed_once : listed s inv.by_path ≡ (if leb 1 n then 1 else 0)

module _ (path s : Text) (x : OverviewSymbol) (inv : SideInventory) (n : ℕ)
    (h : Holds inv s n) where
  abbrev met : Text
  met = selector_of path x

  abbrev entry : IndexedSymbol
  entry = record {
    path = path;
    name = x.name;
    qualified = x.qualified;
    kind = x.kind;
    selector = met;
  }

  same_known : (met == s) ≡ true → is_some (get met inv.symbols) ≡ is_some (get s inv.symbols)
  same_known e = ap (λ k. is_some (get k inv.symbols)) ((eq_iff met s).0 e)

  load_symbol-Holds : Holds (load_symbol path x inv) s (if met == s then suc n else n)
  unfolding load_symbol
  load_symbol-Holds = record {
    known = ground (arith, get-put met s entry inv.symbols, same_known, h.known);
    ambiguous = ground (
      arith,
      contains-add_all inv.ambiguous_selectors (met ∷ []) s,
      same_known,
      h.known,
      h.ambiguous,
    );
    listed_once =
        ground (arith, listed-push_to s path met inv.by_path, same_known, h.known, h.listed_once);
  }

load_symbols-Holds :
    (path s : Text) (symbols : List OverviewSymbol) (inv : SideInventory) (n : ℕ)
    → Holds inv s n
    → Holds (load_symbols path symbols inv) s (count_in_file s path symbols + n)
unfolding load_symbols count_in_file
load_symbols-Holds path s [] inv n h = subst (Holds inv s) (omega arith) h
load_symbols-Holds path s (x ∷ xs) inv n h =
    let m : ℕ = if selector_of path x == s then suc n else n in
    subst (Holds (load_symbols path xs (load_symbol path x inv)) s) (ground arith)
      (load_symbols-Holds path s xs (load_symbol path x inv) m (load_symbol-Holds path s x inv n h))

with_file : Text → SideInventory → SideInventory
with_file path inv = record inv { indexed_files = add_all inv.indexed_files (path ∷ []) }

load_files-Holds :
    (s : Text) (files : List OverviewFile) (inv : SideInventory) (n : ℕ)
    → Holds inv s n
    → Holds (load_files files inv) s (count_in s files + n)
unfolding load_files count_in with_file
load_files-Holds s [] inv n h = subst (Holds inv s) (omega arith) h
load_files-Holds s (file ∷ files) inv n h =
    let started : Holds (with_file file.path inv) s n = record {
      known = h.known;
      ambiguous = h.ambiguous;
      listed_once = h.listed_once;
    } in
    subst (Holds (load_files (file ∷ files) inv) s) (omega arith) (
      load_files-Holds s files _ (count_in_file s file.path file.symbols + n)
        (load_symbols-Holds file.path s file.symbols (with_file file.path inv) n started))

-- Where the overview query of a snapshot succeeds, its inventory is loaded, and it knows a
-- selector where the overview has it, calls it ambiguous where the overview has it twice or more
-- often, and lists it under the paths once where it knows it and not at all otherwise.
pub load-Holds :
    (side : SnapshotSide) (snapshot : Snapshot) (overview : List OverviewFile) (s : Text)
    → snapshot.overview ≡ ok overview
    → (inv : SideInventory) × (load side snapshot ≡ ok inv) × Holds inv s (count_in s overview)
unfolding load load_overview listed
load-Holds side snapshot overview s e =
    let inv = load_overview side snapshot.commit_sha overview in
    (
      inv,
      rw (e, load) refl,
      subst (Holds inv s) (omega arith) (
          load_files-Holds s overview _ 0
            (record { known = refl; ambiguous = refl; listed_once = refl })),
    )
