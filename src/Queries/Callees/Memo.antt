-- ===== src/Queries/Callees/Memo.antt =====
-- The memo of `has_indexed_definition` in crates/orbit-graph/src/query/callees.rs, and the edges that
-- the loop of `run` selects.
use orbit_graph.Common.{
  Bool, not, ◌&&◌, some, List, [], ◌∷◌, Result, ok, ◌≡◌, refl, sym, ap, ◌∙◌, inl, inr, All, ◌==◌,
  nat_eq, list_eq, eq_iff, ◌>>=◌, filter, length, if◌then◌else◌, Bool-cases, Option-cases,
  Result-cases,
}
use orbit_graph.Common.Maps.{get, put}
use orbit_graph.Common.Text.{Text, is_some}
use orbit_graph.Index.{Index, RefRow}
use orbit_graph.Index.Values.{GraphError, RefConfidence, confidence_from_db, visible_at_floor}
use orbit_graph.Queries.Callees.{
  CalleeOpts, is_defined, has_indexed_definition, Selected, keep, hide, select_edges,
}

-- every stored confidence, or the first that cannot be read
unfoldable pub read_edges : List RefRow → Result GraphError (List (RefRow × RefConfidence))
unfolding confidence_from_db
read_edges [] = ok []
read_edges (e ∷ es) =
    let rest = read_edges es in
    confidence_from_db e.confidence
    >>= (λ confidence. rest >>= (λ edges. ok ((e, confidence) ∷ edges)))

abbrev pub is_visible : CalleeOpts → RefRow × RefConfidence → Bool
is_visible opts (e, confidence) = visible_at_floor confidence opts.confidence

-- an unresolved edge whose name no callable symbol has
abbrev pub is_hidden : Index → CalleeOpts → RefRow × RefConfidence → Bool
is_hidden index opts (e, confidence) =
    (opts.hide_unresolved && not (is_some e.target_qualified))
    && not (is_defined index e.target_name)

-- the selection without a memo
abbrev pub selection : Index → CalleeOpts → List (RefRow × RefConfidence) → Selected
selection index opts edges =
    let visible = filter (is_visible opts) edges in
    (
      filter (λ e. not (is_hidden index opts e)) visible,
      length (filter (is_hidden index opts) visible),
    )

abbrev pub IsMemo : Index → List (Text × Bool) → Type 0
IsMemo index = All (λ (entry : Text × Bool). entry.1 ≡ is_defined index entry.0)

get-IsMemo :
    (index : Index) (memo : List (Text × Bool)) (name : Text) (b : Bool)
    → IsMemo index memo
    → get name memo ≡ some b
    → b ≡ is_defined index name
unfolding get
get-IsMemo index [] name b h e = absurd (cc)
get-IsMemo index ((k, v) ∷ memo) name b h e = elim (Bool-cases (k == name)) [
  | inl same ↦
      let at : k ≡ name = (eq_iff k name).0 same in
      let read : v ≡ b = cc (rw (same, get) at e) in sym read ∙ (h.0 ∙ ap (is_defined index) at)
  | inr other ↦ get-IsMemo index memo name b h.1 (rw (other, get) at e)
]

put-IsMemo :
    (index : Index) (memo : List (Text × Bool)) (name : Text)
    → IsMemo index memo
    → IsMemo index (put name (is_defined index name) memo)
unfolding put
put-IsMemo index [] name h = (refl, tt)
put-IsMemo index ((k, v) ∷ memo) name h = elim (Bool-cases (k == name)) [
  | inl same ↦
      let at : k ≡ name = (eq_iff k name).0 same in
      rw (same, put) (ap (is_defined index) (sym at), h.1)
  | inr other ↦ rw (other, put) (h.0, put-IsMemo index memo name h.1)
]

has_indexed_definition-IsMemo :
    (index : Index) (memo : List (Text × Bool)) (name : Text)
    → IsMemo index memo
    → ((has_indexed_definition index memo name).0 ≡ is_defined index name)
      × IsMemo index (has_indexed_definition index memo name).1
unfolding has_indexed_definition
has_indexed_definition-IsMemo index memo name h = elim (Option-cases (get name memo)) [
  | inl e ↦ rw (e, has_indexed_definition) (refl, put-IsMemo index memo name h)
  | inr (b, e) ↦ rw (e, has_indexed_definition) (get-IsMemo index memo name b h e, h)
]

select_one :
    (index : Index) (opts : CalleeOpts) (e : RefRow) (c : RefConfidence)
    (m : Result GraphError (List (RefRow × RefConfidence)))
    → (if not (visible_at_floor c opts.confidence)
        then (m >>= (λ edges. ok (selection index opts edges)))
        else if opts.hide_unresolved && not (is_some e.target_qualified)
        then (m >>= (λ edges. ok (selection index opts edges)))
          >>= (λ rest. ok (if is_defined index e.target_name then keep (e, c) rest else hide rest))
        else (m >>= (λ edges. ok (selection index opts edges))) >>= (λ rest. ok (keep (e, c) rest)))
      ≡ ((m >>= (λ edges. ok ((e, c) ∷ edges))) >>= (λ edges. ok (selection index opts edges)))
select_one index opts e c m = elim (Bool-cases (visible_at_floor c opts.confidence)) [
  | inr unseen ↦ elim (Result-cases m) [
    | inr (failure, bad) ↦ rw (unseen, bad) refl
    | inl (edges, good) ↦ rw (unseen, good) (rw unseen refl)
  ]
  | inl seen ↦ elim (Bool-cases (opts.hide_unresolved && not (is_some e.target_qualified))) [
    | inr kept ↦ elim (Result-cases m) [
      | inr (failure, bad) ↦ rw (seen, kept, bad) refl
      | inl (edges, good) ↦ rw (seen, kept, good) (rw (seen, kept) refl)
    ]
    | inl asks ↦ elim (Result-cases m) [
      | inr (failure, bad) ↦ rw (seen, asks, bad) refl
      | inl (edges, good) ↦ elim (Bool-cases (is_defined index e.target_name)) [
        | inl known ↦ rw (seen, asks, good, known) (rw (seen, asks, known) refl)
        | inr unknown ↦ rw (seen, asks, good, unknown) (rw (seen, asks, unknown) refl)
      ]
    ]
  ]
]

pub select_edges-memo :
    (index : Index) (opts : CalleeOpts) (memo : List (Text × Bool)) (es : List RefRow)
    → IsMemo index memo
    → select_edges index opts memo es
      ≡ (read_edges es >>= (λ edges. ok (selection index opts edges)))
unfolding select_edges read_edges
select_edges-memo index opts memo [] h = refl
select_edges-memo index opts memo (e ∷ es) h =
    let (answer, h') = has_indexed_definition-IsMemo index memo e.target_name h in
    let plain = select_edges-memo index opts memo es h in
    let asked =
      select_edges-memo index opts (has_indexed_definition index memo e.target_name).1 es h' in
    elim (Result-cases (confidence_from_db e.confidence)) [
      | inr (failure, bad) ↦ rw bad refl
      | inl (c, good) ↦ rw (good, plain, asked, answer) (select_one index opts e c (read_edges es))
    ]

-- From an empty memo the loop of `callees` returns what a selection without a memo returns: the
-- first stored confidence that cannot be read as an error, or else the edges at the floor or
-- above that are not hidden, in their order, with the number of the hidden ones; hidden is,
-- where the options ask for it, an edge without a qualified target whose name no callable symbol
-- has.
pub select_edges_lem :
    (index : Index) (opts : CalleeOpts) (es : List RefRow)
    → select_edges index opts [] es ≡ (read_edges es >>= (λ edges. ok (selection index opts edges)))
select_edges_lem index opts es = select_edges-memo index opts [] es tt
