-- ===== src/Impact/Bfs/Complete/Round.antt =====
-- One round of the loop of `traverse` (query/impact.rs) under the invariant of `Complete`.
use mathlib.Core.List.{Memᴰ}
use mathlib.Core.List.Memᴰ
use orbit_graph.Common.{
  ℕ, suc, ◌≤◌, ◌<◌, true, false, List, [], ◌∷◌, Option, none, some, Result, ok, ◌≡◌, refl, sym, ap,
  ◌∙◌, inl, inr, Bool-cases, arith, ltb, lt→ltb, contains, subst, eq_iff, eq_refl, ◌==◌, leb,
  length,
}
use orbit_graph.Index.Values.{GraphError}
use orbit_graph.Impact.Types.{ImpactSymbol, ImpactNeighbor, NodeKey, symbol_key, node_key_eq}
use orbit_graph.Impact.Bfs.{
  Search, Resolve, Place, Expand, key_of, node_key, push, visit, scan, start,
}
use orbit_graph.Impact.Bfs.Rule.{scan_rule}
use orbit_graph.Impact.Bfs.Complete.{
  HasUniqueIds, IsListed-mono, IsPlanned-mono, IsFull, grow-IsFull,
}

push_left :
    (max_depth : ℕ) (queue : List (ImpactSymbol × ℕ)) (d : ℕ) (resolved : Option ImpactSymbol)
    (i : ImpactSymbol × ℕ)
    → Memᴰ i queue
    → Memᴰ i (push max_depth queue d resolved)
unfolding push
push_left max_depth queue d none i m = m
push_left max_depth queue d (some y) i m = elim (Bool-cases (ltb d max_depth)) [
  | inl room ↦ rw room (Memᴰ.append_left _ m)
  | inr full ↦ rw full m
]

push_new :
    (max_depth : ℕ) (queue : List (ImpactSymbol × ℕ)) (d : ℕ) (resolved : Option ImpactSymbol)
    (y : ImpactSymbol)
    → resolved ≡ some y
    → d < max_depth
    → Memᴰ (y, d) (push max_depth queue d resolved)
unfolding push
push_new max_depth queue d none y e room = absurd (cc)
push_new max_depth queue d (some x) y e room =
    let same : x ≡ y = cc in
    rw (lt→ltb d max_depth room) (Memᴰ.append_right queue (Memᴰ.head (ap (λ z. (z, d)) (sym same))))

-- a symbol's key is the key of a neighbour only if that neighbour is resolved
symbol_of_key :
    (n : ImpactNeighbor) (resolved : Option ImpactSymbol) (id : ℕ)
    → node_key n resolved ≡ symbol_key id
    → (x : ImpactSymbol) × (resolved ≡ some x) × (x.id ≡ id)
unfolding node_key
symbol_of_key n (some x) id e = (x, refl, ground arith)
symbol_of_key n none id e = absurd (ground arith)

module _ (cap max_depth : ℕ) (resolve : Resolve) (place : Place) (expand : Expand)
    (origin : ImpactSymbol) (unique : HasUniqueIds resolve origin) where
  visit-IsFull :
      (low : ℕ) (popped done : List (ImpactSymbol × ℕ)) (s : Search) (n : ImpactNeighbor)
      → IsFull cap max_depth resolve place expand origin low popped done s
      → IsFull cap max_depth resolve place expand origin low popped done
          (visit max_depth resolve place s (suc low) n)
  unfolding visit
  visit-IsFull low popped done s n h =
      grow-IsFull cap max_depth resolve place expand origin low low popped popped done s
        (visit max_depth resolve place s (suc low) n) (omega arith) (λ i m. m)
        (λ i m. inr (push_left max_depth s.queue (suc low) (resolve n) i m))
        (λ e m. Memᴰ.append_left _ m)
        (λ key c. elim (Bool-cases (key_of resolve n == key)) [
          | inl same ↦ inl (
              inr (
                n,
                suc low,
                Memᴰ.append_right s.touched (Memᴰ.head refl),
                (eq_iff (key_of resolve n) key).0 same,
                omega arith,
              ))
          | inr other ↦ inr (rw other at c)
        ])
        (λ m y e c room. elim (Bool-cases (key_of resolve n == symbol_key y.id)) [
          | inr other ↦ inr (rw other at c)
          | inl same ↦
              let (x, found, ids) =
                symbol_of_key n (resolve n) y.id
                  ((eq_iff (key_of resolve n) (symbol_key y.id)).0 same) in
              let here_it_is : x ≡ y = unique n m x y found (inl e) ids in
              inl (
                suc low,
                omega arith,
                inr (
                    push_new max_depth s.queue (suc low) (resolve n) y (found ∙ ap some here_it_is)
                      room),
              )
        ])
        h

  pub start-IsFull : IsFull cap max_depth resolve place expand origin 0 [] [] (start origin)
  start-IsFull = record {
    found = λ key c. inl (sym ((eq_iff (symbol_key origin.id) key).0 (ground arith)));
    planned = λ n y e c room.
        let key : symbol_key origin.id ≡ symbol_key y.id =
          (eq_iff (symbol_key origin.id) (symbol_key y.id)).0 (ground arith) in
        let same : y ≡ origin = unique n n y origin e (inr refl) (cc) in
        (0, omega arith, inr (Memᴰ.head (ap (λ z. (z, 0)) same)));
    root = (0, omega arith, inr (Memᴰ.head refl));
    covered = λ x d m room ns n e among. absurd (Memᴰ.not-nil m);
  }

  -- a symbol leaves the queue
  pub pop-IsFull :
      (low : ℕ) (popped : List (ImpactSymbol × ℕ)) (s : Search) (x : ImpactSymbol) (d : ℕ)
      (rest : List (ImpactSymbol × ℕ))
      → s.queue ≡ (x, d) ∷ rest
      → low ≤ d
      → IsFull cap max_depth resolve place expand origin low popped popped s
      → IsFull cap max_depth resolve place expand origin d
          ((x, d) ∷ popped)
          popped
          (record s { queue = rest })
  pop-IsFull low popped s x d rest e le h =
      grow-IsFull cap max_depth resolve place expand origin low d popped ((x, d) ∷ popped) popped s
        (record s { queue = rest }) le (λ i m. Memᴰ.tail m)
        (λ i m. elim (Memᴰ.cases_cons (subst (Memᴰ i) e m)) [
          | inl same ↦ inl (Memᴰ.head same)
          | inr later ↦ inr later
        ])
        (λ e m. m) (λ key c. inr c) (λ n y f c room. inr c) h

  visit-seen :
      (s : Search) (d : ℕ) (n : ImpactNeighbor)
      → contains (visit max_depth resolve place s d n).seen (key_of resolve n) ≡ true
  unfolding visit
  visit-seen s d n = rw (eq_refl (key_of resolve n))

  visit-truncated :
      (s : Search) (d : ℕ) (n : ImpactNeighbor)
      → (visit max_depth resolve place s d n).truncated ≡ false
      → s.truncated ≡ false
  unfolding visit
  visit-truncated s d n h = h

  ok-injective : {A : Type 0} {a b : A} → ◌≡◌ {A = Result GraphError A} (ok a) (ok b) → a ≡ b
  ok-injective h = cc

  key_of_resolved :
      (n : ImpactNeighbor) (z : ImpactSymbol)
      → resolve n ≡ some z
      → key_of resolve n ≡ symbol_key z.id
  unfolding node_key
  key_of_resolved n z found = ap (node_key n) found

  -- where no cut was made, every neighbour of the scanned symbol is seen
  seen-scan :
      (d : ℕ) (ns : List ImpactNeighbor) (s : Search) (key : NodeKey)
      → contains s.seen key ≡ true
      → contains (scan cap max_depth resolve place s d ns).seen key ≡ true
  unfolding visit
  seen-scan d ns s key c =
      scan_rule cap max_depth resolve place (λ u. contains u.seen key ≡ true) d ns
        (λ u n among room old. ground arith) (λ u old. old) s c

  either_seen :
      (k : ImpactNeighbor) (ns : List ImpactNeighbor) (t : Search) (n : ImpactNeighbor)
      → contains t.seen (key_of resolve k) ≡ true
      → (Memᴰ n ns → contains t.seen (key_of resolve n) ≡ true)
      → Memᴰ n (k ∷ ns)
      → contains t.seen (key_of resolve n) ≡ true
  either_seen k ns t n first later m = elim (Memᴰ.cases_cons m) [
    | inl e ↦ subst (λ z. contains t.seen (key_of resolve z) ≡ true) (sym e) first
    | inr l ↦ later l
  ]

  scan-seen :
      (d : ℕ) (ns : List ImpactNeighbor) (s : Search) (n : ImpactNeighbor)
      → (scan cap max_depth resolve place s d ns).truncated ≡ false
      → Memᴰ n ns
      → contains (scan cap max_depth resolve place s d ns).seen (key_of resolve n) ≡ true
  unfolding scan
  scan-seen d [] s n whole m = absurd (Memᴰ.not-nil m)
  scan-seen d (k ∷ ns) s n whole m = elim (Bool-cases (contains s.seen (key_of resolve k))) [
    | inl old ↦
        rw (old, scan)
          (either_seen k ns (scan cap max_depth resolve place s d ns) n
            (seen-scan d ns s (key_of resolve k) old) (scan-seen d ns s n (rw (old, scan) at whole))
            m)
    | inr new ↦ elim (Bool-cases (leb cap (length s.touched))) [
      | inl full ↦ absurd (cc (rw (new, full, scan) at whole))
      | inr room ↦
          let v = visit max_depth resolve place s d k in
          let at_once : contains v.seen (key_of resolve k) ≡ true = visit-seen s d k in
          rw (new, room, scan)
            (either_seen k ns (scan cap max_depth resolve place v d ns) n
              (seen-scan d ns v (key_of resolve k) at_once)
              (scan-seen d ns v n (rw (new, room, scan) at whole)) m)
    ]
  ]

  pub round-IsFull :
      (popped : List (ImpactSymbol × ℕ)) (s : Search) (x : ImpactSymbol) (d : ℕ)
      (ns : List ImpactNeighbor)
      → expand x ≡ ok ns
      → (s.truncated ≡ false
          → IsFull cap max_depth resolve place expand origin d ((x, d) ∷ popped) popped s)
      → (scan cap max_depth resolve place s (suc d) ns).truncated ≡ false
      → IsFull cap max_depth resolve place expand origin d
          ((x, d) ∷ popped)
          ((x, d) ∷ popped)
          (scan cap max_depth resolve place s (suc d) ns)
  round-IsFull popped s x d ns good h whole =
      let t = scan cap max_depth resolve place s (suc d) ns in
      let full : IsFull cap max_depth resolve place expand origin d ((x, d) ∷ popped) popped t =
        scan_rule cap max_depth resolve place
          (λ u.
            u.truncated ≡ false
            → IsFull cap max_depth resolve place expand origin d ((x, d) ∷ popped) popped u)
          (suc d) ns
          (λ u n among room p uncut.
            visit-IsFull d ((x, d) ∷ popped) popped u n (p (visit-truncated u (suc d) n uncut)))
          (λ u p uncut. absurd (cc)) s h whole in
      record {
        found = full.found;
        planned = full.planned;
        root = full.root;
        covered = λ y k m room ms n e among. elim (Memᴰ.cases_cons m) [
          | inr old ↦ full.covered y k old room ms n e among
          | inl same ↦
              let level : k ≡ d = ap (λ i. i.1) same in
              let ours : ns ≡ ms =
                ok-injective (sym good ∙ (ap (λ i. expand i.0) (sym same) ∙ e)) in
              let seen = scan-seen (suc d) ns s n whole (subst (Memᴰ n) (sym ours) among) in
              (
                IsListed-mono resolve place origin (key_of resolve n) (λ _ l. l) (omega arith)
                    (full.found (key_of resolve n) seen),
                λ z found deeper.
                    IsPlanned-mono z (λ i l. l) (λ i l. inr l) (omega arith)
                      (full.planned n z found (rw (key_of_resolved n z found) at seen)
                        (omega arith)),
              )
        ];
      }

  -- a symbol at the depth itself is not expanded
  pub deep-IsFull :
      (popped : List (ImpactSymbol × ℕ)) (s : Search) (x : ImpactSymbol) (d : ℕ)
      → max_depth ≤ d
      → IsFull cap max_depth resolve place expand origin d ((x, d) ∷ popped) popped s
      → IsFull cap max_depth resolve place expand origin d ((x, d) ∷ popped) ((x, d) ∷ popped) s
  deep-IsFull popped s x d deep full = record {
    found = full.found;
    planned = full.planned;
    root = full.root;
    covered = λ y k m room ns n e among. elim (Memᴰ.cases_cons m) [
      | inr old ↦ full.covered y k old room ns n e among
      | inl same ↦ let level : k ≡ d = ap (λ i. i.1) same in absurd (omega arith)
    ];
  }
