-- ===== src/Queries/Implementors/Listed.antt =====
-- The implementors that crates/orbit-graph/src/query/implementors.rs lists.
use mathlib.Core.List.{Memᴰ}
use orbit_graph.Common.{
  Bool, true, false, some, List, [], ◌∷◌, ◌++◌, map, ok, ◌≡◌, ◌↔◌, ◌⊎◌, inl, inr, refl, sym, subst,
  ◌==◌, nat_eq, list_eq, eq_iff, ◌&&◌, ◌||◌, and_split, filter, All, All-filter_passes, arith,
}
use orbit_graph.Common.Members.{
  mem-filter, mem-sort_by, sort_by-mem, filter-mem, mem-map, map-mem, All-mem, All-of_mem,
}
use orbit_graph.Common.Text.{Text, codes, ends_with}
use orbit_graph.Common.Text.Affix.{ends_with-append, ends_with-eq-true}
use orbit_graph.Selector.{Selector}
use orbit_graph.Index.{Index, RelationRow}
use orbit_graph.Index.Values.{RefKind, impl_of, implements, kind_from_db}
use orbit_graph.Queries.Implementors.{
  Implementor, ImplementorsResult, trait_name_from_selector, is_impl_kind, names_trait, read_rows,
  trait_rows, query_implementors, implementors,
}

-- the kind of a row that the query returns
abbrev impl_kind : Text → RefKind
impl_kind kind = elim (kind == codes "impl") [ true ↦ impl_of | false ↦ implements ]

abbrev pub implementor_of : RelationRow → Implementor
implementor_of row = record {
  type_qualified = row.from_qualified;
  trait_matched = row.to_qualified;
  kind = impl_kind row.kind;
  file = row.def_file;
}

-- an `impl` of a trait that is spelled `name`, or with a path in front of it
pub record IsImplementor (index : Index) (name : Text) (i : Implementor) : Type 0 where
  pub row : RelationRow
  pub stored : Memᴰ row index.relations
  pub read : i ≡ implementor_of row
  pub structural : (row.kind ≡ codes "impl") ⊎ (row.kind ≡ codes "implements")
  pub spelled :
      (row.to_qualified ≡ name)
      ⊎ ((before : Text) × (row.to_qualified ≡ before ++ (codes "::" ++ name)))

or_split : (a b : Bool) → (a || b) ≡ true → (a ≡ true) ⊎ (b ≡ true)
or_split true b h = inl refl
or_split false b h = inr h

or_left : (a b : Bool) → a ≡ true → (a || b) ≡ true
or_left a b h = ground arith

or_right : (a b : Bool) → b ≡ true → (a || b) ≡ true
or_right a b h = ground arith

and_join : (a b : Bool) → a ≡ true → b ≡ true → (a && b) ≡ true
and_join a b h k = ground arith

is_impl_kind-eq :
    (kind : Text) → is_impl_kind kind ≡ true → (kind ≡ codes "impl") ⊎ (kind ≡ codes "implements")
unfolding is_impl_kind
is_impl_kind-eq kind h = elim (or_split (kind == codes "impl") (kind == codes "implements") h) [
  | inl e ↦ inl ((eq_iff kind (codes "impl")).0 e)
  | inr e ↦ inr ((eq_iff kind (codes "implements")).0 e)
]

kind_from_db-impl_kind :
    (kind : Text)
    → (kind ≡ codes "impl") ⊎ (kind ≡ codes "implements")
    → kind_from_db kind ≡ ok (impl_kind kind)
unfolding kind_from_db
kind_from_db-impl_kind kind (inl e) = subst (λ k. kind_from_db k ≡ ok (impl_kind k)) (sym e) refl
kind_from_db-impl_kind kind (inr e) = subst (λ k. kind_from_db k ≡ ok (impl_kind k)) (sym e) refl

read_rows-map :
    (rows : List RelationRow)
    → All (λ (r : RelationRow). is_impl_kind r.kind ≡ true) rows
    → read_rows rows ≡ ok (map implementor_of rows)
unfolding read_rows
read_rows-map [] h = refl
read_rows-map (r ∷ rows) h =
    rw (kind_from_db-impl_kind r.kind (is_impl_kind-eq r.kind h.0), read_rows-map rows h.1) refl

names_trait-eq :
    (name : Text) (row : RelationRow)
    → names_trait name row ≡ true
    → (is_impl_kind row.kind ≡ true)
      × ((row.to_qualified ≡ name)
          ⊎ ((before : Text) × (row.to_qualified ≡ before ++ (codes "::" ++ name))))
unfolding names_trait
names_trait-eq name row h =
    let (kind, spelled) = and_split (is_impl_kind row.kind) _ h in
    (
      kind,
      elim (or_split (row.to_qualified == name) _ spelled) [
        | inl e ↦ inl ((eq_iff row.to_qualified name).0 e)
        | inr e ↦ inr (ends_with-eq-true (codes "::" ++ name) row.to_qualified e)
      ],
    )

eq-names_trait :
    (name : Text) (row : RelationRow)
    → (row.kind ≡ codes "impl") ⊎ (row.kind ≡ codes "implements")
    → (row.to_qualified ≡ name)
      ⊎ ((before : Text) × (row.to_qualified ≡ before ++ (codes "::" ++ name)))
    → names_trait name row ≡ true
unfolding names_trait is_impl_kind
eq-names_trait name row kind spelled =
    and_join _ _
      (elim kind [
        | inl e ↦ or_left (row.kind == codes "impl") _ ((eq_iff row.kind (codes "impl")).1 e)
        | inr e ↦ or_right (row.kind == codes "impl") _ ((eq_iff row.kind (codes "implements")).1 e)
      ])
      (elim spelled [
        | inl e ↦ or_left (row.to_qualified == name) _ ((eq_iff row.to_qualified name).1 e)
        | inr (before, e) ↦ or_right (row.to_qualified == name) _ (
            subst (λ t. ends_with (codes "::" ++ name) t ≡ true) (sym e)
              (ends_with-append before (codes "::" ++ name)))
      ])

trait_rows-mem :
    (index : Index) (name : Text) (row : RelationRow)
    → Memᴰ row (trait_rows index name)
    → Memᴰ row index.relations × (names_trait name row ≡ true)
unfolding trait_rows
trait_rows-mem index name row m =
    let kept = mem-sort_by _ (filter (names_trait name) index.relations) row m in
    (
      mem-filter (names_trait name) index.relations row kept,
      All-mem (λ r. names_trait name r ≡ true) (filter (names_trait name) index.relations) row
          (All-filter_passes (names_trait name) index.relations) kept,
    )

mem-trait_rows :
    (index : Index) (name : Text) (row : RelationRow)
    → Memᴰ row index.relations
    → names_trait name row ≡ true
    → Memᴰ row (trait_rows index name)
unfolding trait_rows
mem-trait_rows index name row m h =
    sort_by-mem _ (filter (names_trait name) index.relations) row
      (filter-mem (names_trait name) index.relations row h m)

-- the query never meets a kind that it cannot read
query_implementors-ok :
    (index : Index) (name : Text)
    → query_implementors index name ≡ ok (map implementor_of (trait_rows index name))
unfolding query_implementors
query_implementors-ok index name = read_rows-map (trait_rows index name) (
    All-of_mem (λ (r : RelationRow). is_impl_kind r.kind ≡ true) (trait_rows index name)
      (λ row m. (names_trait-eq name row (trait_rows-mem index name row m).1).0))

listed :
    (index : Index) (name : Text) (i : Implementor)
    → Memᴰ i (map implementor_of (trait_rows index name)) ↔ IsImplementor index name i
listed index name i = (
  λ m.
      let (row, among, read) = mem-map implementor_of (trait_rows index name) i m in
      let (stored, named) = trait_rows-mem index name row among in
      let (kind, spelled) = names_trait-eq name row named in
      record {
        row = row;
        stored = stored;
        read = read;
        structural = is_impl_kind-eq row.kind kind;
        spelled = spelled;
      },
  λ d.
      subst (λ j. Memᴰ j (map implementor_of (trait_rows index name))) (sym d.read)
        (map-mem implementor_of (trait_rows index name) d.row (
          mem-trait_rows index name d.row d.stored
            (eq-names_trait name d.row d.structural d.spelled))),
)

-- For a selector that names a trait, `implementors` returns without an error, under that name,
-- and lists an entry exactly when that is the entry of a stored relation of kind impl or
-- implements whose target is the name, or ends in two colons and the name.
pub implementors_lem :
    (index : Index) (sel : Selector) (name : Text) (i : Implementor)
    → trait_name_from_selector sel ≡ some name
    → (r : ImplementorsResult) × (implementors index sel ≡ ok r)
      × (r.trait_name ≡ name)
      × (Memᴰ i r.implementors ↔ IsImplementor index name i)
unfolding implementors
implementors_lem index sel name i named = (
  record { trait_name = name; implementors = map implementor_of (trait_rows index name) },
  rw (named, implementors, query_implementors-ok index name) refl,
  refl,
  listed index name i,
)
