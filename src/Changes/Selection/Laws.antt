-- ===== src/Changes/Selection/Laws.antt =====
-- What crates/orbit-graph-changes/src/selection.rs selects and reports as unmatched, request by
-- request.
use orbit_graph.Common.{
  Bool, false, not, ◌||◌, List, [], ◌∷◌, ◌++◌, Option, none, some, map, ◌==◌, nat_eq, list_eq,
  option_eq, eq_iff, filter, any, is_empty, ok, >>=-eq-ok, ◌≡◌, refl, sym, ap, ◌∙◌, subst, arith,
  append-nil, append_assoc,
}
use orbit_graph.Common.Text.{Text}
use orbit_graph.Common.Maps.Sets.{contains-add_all}
use orbit_graph.Changes.Types.{SnapshotSide}
use orbit_graph.Changes.Selection.{
  Locate, Entry, ResolvedSelection, parse_symbol_text, canonical, resolve_from, resolve, with_entry,
  insert_some, is_in, selects, Occurrence, on_base, on_head, unmatched,
}

-- whether a request stands for a selector of a side
pub asks_for : Option Text → Option Text → Bool
asks_for none found = false
asks_for (some asked) none = false
asks_for (some asked) (some found) = asked == found

abbrev asked_base : Option Text → List Entry → Bool
asked_base found = any (λ (e : Entry). asks_for e.base found)

abbrev asked_head : Option Text → List Entry → Bool
asked_head found = any (λ (e : Entry). asks_for e.head found)

-- what the sets of a selection hold is what its entries ask for
abbrev IsUnion : ResolvedSelection → Type 0
IsUnion r =
    ((found : Option Text) → is_in r.base found ≡ asked_base found r.entries)
    × ((found : Option Text) → is_in r.head found ≡ asked_head found r.entries)

any-snoc :
    {A : Type 0} (p : A → Bool) (xs : List A) (x : A) → any p (xs ++ x ∷ []) ≡ (any p xs || p x)
any-snoc p [] x = ground arith
any-snoc p (y ∷ ys) x = ground (arith, any-snoc p ys x)

is_in-insert_some :
    (asked : Option Text) (set : List Text) (found : Option Text)
    → is_in (insert_some asked set) found ≡ (is_in set found || asks_for asked found)
unfolding is_in insert_some asks_for
is_in-insert_some none set none = refl
is_in-insert_some none set (some found) = ground arith
is_in-insert_some (some asked) set none = refl
is_in-insert_some (some asked) set (some found) =
    ground (arith, contains-add_all set (asked ∷ []) found)

with_entry-IsUnion : (e : Entry) (r : ResolvedSelection) → IsUnion r → IsUnion (with_entry e r)
unfolding with_entry
with_entry-IsUnion e r (hb, hh) = (
  λ found. ground (
    arith,
    is_in-insert_some e.base r.base found,
    hb found,
    any-snoc (λ (x : Entry). asks_for x.base found) r.entries e,
  ),
  λ found. ground (
    arith,
    is_in-insert_some e.head r.head found,
    hh found,
    any-snoc (λ (x : Entry). asks_for x.head found) r.entries e,
  ),
)

abbrev requests : List Entry → List Text
requests = map (λ (e : Entry). e.requested)

requests-snoc :
    (es : List Entry) (e : Entry) → requests (es ++ e ∷ []) ≡ requests es ++ e.requested ∷ []
requests-snoc [] e = refl
requests-snoc (d ∷ es) e = ap (d.requested ∷◌) (requests-snoc es e)

abbrev IsResolvedFrom : List Text → ResolvedSelection → Type 0
IsResolvedFrom asked r = IsUnion r × (requests r.entries ≡ asked)

resolve_from-IsResolvedFrom :
    (locate : Locate) (texts asked : List Text) (r : ResolvedSelection) {q : ResolvedSelection}
    → IsResolvedFrom asked r
    → resolve_from locate texts r ≡ ok q
    → IsResolvedFrom (asked ++ texts) q
unfolding resolve_from with_entry
resolve_from-IsResolvedFrom locate [] asked r {q} h e =
    let same : r ≡ q = cc in
    subst (IsResolvedFrom (asked ++ [])) same (h.0, h.1 ∙ sym (append-nil asked))
resolve_from-IsResolvedFrom locate (text ∷ texts) asked r {q} (union, named) e =
    let (selector, _, more) = >>=-eq-ok (parse_symbol_text text) _ e in
    let (base, _, rest) = >>=-eq-ok (canonical locate SnapshotSide.base selector) _ more in
    let (head, _, last) = >>=-eq-ok (canonical locate SnapshotSide.head selector) _ rest in
    let entry : Entry = record { requested = text; base = base; head = head } in
    subst (λ l. IsResolvedFrom l q) (append_assoc asked (text ∷ []) texts)
      (resolve_from-IsResolvedFrom locate texts (asked ++ text ∷ []) (with_entry entry r)
        (
          with_entry-IsUnion entry r union,
          requests-snoc r.entries entry ∙ ap (λ l. l ++ text ∷ []) named,
        )
        last)

none_in : (found : Option Text) → is_in [] found ≡ false
unfolding is_in
none_in none = refl
none_in (some found) = refl

any-or :
    (base head : Option Text) (es : List Entry)
    → any (λ (e : Entry). asks_for e.base base || asks_for e.head head) es
      ≡ (asked_base base es || asked_head head es)
any-or base head [] = refl
any-or base head (e ∷ es) = ground (arith, any-or base head es)

no_requests :
    (es : List Entry) (asked : List Text) → requests es ≡ asked → is_empty es ≡ is_empty asked
no_requests [] asked e = ap is_empty e
no_requests (x ∷ es) asked e = ap is_empty e

-- whether a request stands for an occurrence
pub hits : Occurrence → Entry → Bool
hits (SnapshotSide.base, selector) e = asks_for e.base (some selector)
hits (SnapshotSide.head, selector) e = asks_for e.head (some selector)

is_in-cons :
    (s : Text) (set : List Text) (asked : Option Text)
    → is_in (s ∷ set) asked ≡ (asks_for asked (some s) || is_in set asked)
unfolding is_in asks_for
is_in-cons s set none = refl
is_in-cons s set (some asked) = ground (arith, eq_iff s asked, eq_iff asked s)

is_in-on_base-on_head :
    (e : Entry) (occurrences : List Occurrence)
    → (is_in (on_base occurrences) e.base || is_in (on_head occurrences) e.head)
      ≡ any (λ (o : Occurrence). hits o e) occurrences
unfolding on_base on_head hits
is_in-on_base-on_head e [] = ground (arith, none_in e.base, none_in e.head)
is_in-on_base-on_head e ((SnapshotSide.base, s) ∷ rest) =
    ground (arith, is_in-cons s (on_base rest) e.base, is_in-on_base-on_head e rest)
is_in-on_base-on_head e ((SnapshotSide.head, s) ∷ rest) =
    ground (arith, is_in-cons s (on_head rest) e.head, is_in-on_base-on_head e rest)

filter-eq :
    {A : Type 0} (p q : A → Bool) (xs : List A) → ((x : A) → p x ≡ q x) → filter p xs ≡ filter q xs
filter-eq p q [] h = refl
filter-eq p q (x ∷ xs) h = ground (arith, h x, filter-eq p q xs h)

-- Where `resolve` returns, its entries are the requests in their order; `selects` holds of a
-- pair of selectors where there is no request or some request stands for one of them on its
-- side; and `unmatched` lists the requests that stand for none of the occurrences.
pub resolve_lem :
    (locate : Locate) (requested : List Text) {r : ResolvedSelection}
    → resolve locate requested ≡ ok r
    → (requests r.entries ≡ requested)
      × ((base head : Option Text)
          → selects r base head ≡ (
              is_empty requested
              || any (λ (e : Entry). asks_for e.base base || asks_for e.head head) r.entries))
      × ((occurrences : List Occurrence)
          → unmatched r occurrences
            ≡ requests (
                filter
                  (λ (e : Entry). not (any (λ (o : Occurrence). hits o e) occurrences))
                  r.entries))
unfolding resolve selects unmatched
resolve_lem locate requested {r} e =
    let start : ResolvedSelection = record { entries = []; base = []; head = [] } in
    let ((hb, hh), named) =
      resolve_from-IsResolvedFrom locate requested [] start ((none_in, none_in), refl) e in
    (
      named,
      λ base head. ground (
        arith,
        hb base,
        hh head,
        any-or base head r.entries,
        no_requests r.entries requested named,
      ),
      λ occurrences. ap requests (
          filter-eq _ _ r.entries λ entry. ground (arith, is_in-on_base-on_head entry occurrences)),
    )
