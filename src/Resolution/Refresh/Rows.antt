-- ===== src/Resolution/Refresh/Rows.antt =====
-- The loop of `re_resolve_stored` of crates/orbit-graph/src/sync/pass2.rs, row by row.
use mathlib.Core.List.{Memᴰ}
use orbit_graph.Common.{
  Bool, true, false, ◌&&◌, List, [], ◌∷◌, ◌≡◌, refl, sym, ap, ◌∙◌, subst, inl, inr, ◌⊎◌, arith,
  ◌==◌, eq_iff, eq_refl, nat_eq, list_eq, option_eq, Bool-cases, All, map, any, if◌then◌else◌,
  and_split,
}
use orbit_graph.Index.{RefRow}
use orbit_graph.Resolution.Raw.{ResolvedRef}
use orbit_graph.Resolution.Refresh.{is_unchanged, set_resolution, update_where, update_rows}

pub map-map :
    {A B C : Type 0} (f : B → C) (g : A → B) (xs : List A)
    → map f (map g xs) ≡ map (λ x. f (g x)) xs
map-map f g [] = refl
map-map f g (x ∷ xs) = ap (λ rest. f (g x) ∷ rest) (map-map f g xs)

pub map_same :
    {A B : Type 0} (f g : A → B) (xs : List A)
    → ((x : A) → Memᴰ x xs → f x ≡ g x)
    → map f xs ≡ map g xs
map_same f g [] h = refl
map_same f g (x ∷ xs) h =
    let tail = map_same f g xs (λ y m. h y (Memᴰ.tail m)) in let head = h x (Memᴰ.head refl) in cc

is_unchanged-set_resolution :
    (row : RefRow) (r : ResolvedRef) → is_unchanged row r ≡ true → set_resolution row r ≡ row
unfolding is_unchanged set_resolution
is_unchanged-set_resolution row r h =
    let (front, same_confidence) =
      and_split
        (row.target_qualified == r.target_qualified
          && row.target_symbol_hint == r.target_symbol_hint)
        (row.confidence == r.confidence) h in
    let (same_target, same_hint) =
      and_split (row.target_qualified == r.target_qualified)
        (row.target_symbol_hint == r.target_symbol_hint) front in
    let target = sym ((eq_iff row.target_qualified r.target_qualified).0 same_target) in
    let hint = sym ((eq_iff row.target_symbol_hint r.target_symbol_hint).0 same_hint) in
    let confidence = sym ((eq_iff row.confidence r.confidence).0 same_confidence) in
    λ i. record row {
      target_qualified = target i;
      target_symbol_hint = hint i;
      confidence = confidence i;
    }

map_id : (xs : List RefRow) → map (λ x. x) xs ≡ xs
map_id [] = refl
map_id (x ∷ xs) = ap (λ rest. x ∷ rest) (map_id xs)

module _ (ρ : RefRow → ResolvedRef) where
  -- one round of the loop, on one row of the table
  one_round : RefRow → RefRow → RefRow
  one_round w y =
      if is_unchanged w (ρ w) then y else if y.id == w.id then set_resolution y (ρ w) else y

  pub rounds : List RefRow → RefRow → RefRow
  unfolding one_round
  rounds [] y = y
  rounds (w ∷ ws) y = rounds ws (one_round w y)

  update_where-map :
      (w : RefRow) (table : List RefRow)
      → is_unchanged w (ρ w) ≡ false
      → update_where w.id (ρ w) table ≡ map (one_round w) table
  unfolding update_where one_round
  update_where-map w [] h = refl
  update_where-map w (y ∷ table) h =
      let rest = update_where-map w table h in
      rw (h, one_round) (ap (λ ys. (if y.id == w.id then set_resolution y (ρ w) else y) ∷ ys) rest)

  pub update_rows-map :
      (ws table : List RefRow) → (update_rows ws (map ρ ws) table).0 ≡ map (rounds ws) table
  unfolding update_rows rounds
  update_rows-map [] table = sym (map_id table)
  update_rows-map (w ∷ ws) table = elim (Bool-cases (is_unchanged w (ρ w))) [
    | inl e ↦
        rw (e, update_rows)
          (update_rows-map ws table
            ∙ map_same (rounds ws) (rounds (w ∷ ws)) table
                (λ y m. ap (rounds ws) (sym (rw (e, one_round) refl))))
    | inr e ↦
        rw (e, update_rows)
          (update_rows-map ws (update_where w.id (ρ w) table)
            ∙ (ap (map (rounds ws)) (update_where-map w table e)
                ∙ map-map (rounds ws) (one_round w) table))
  ]

  settled :
      (x y : RefRow)
      → ((y ≡ x) ⊎ (y ≡ set_resolution x (ρ x)))
      → one_round x y ≡ set_resolution x (ρ x)
  unfolding one_round set_resolution
  settled x y at = elim (Bool-cases (is_unchanged x (ρ x))) [
    | inl e ↦
        let unchanged = is_unchanged-set_resolution x (ρ x) e in
        rw (e, one_round) (elim at [ inl same ↦ same ∙ sym unchanged | inr same ↦ same ])
    | inr e ↦ elim at [
      | inl same ↦
          subst (λ z. one_round x z ≡ set_resolution x (ρ x)) (sym same)
            (rw (e, one_round, eq_refl x.id) refl)
      | inr same ↦
          subst (λ z. one_round x z ≡ set_resolution x (ρ x)) (sym same)
            (rw (e, one_round, eq_refl x.id) refl)
    ]
  ]

  other :
      (w x y : RefRow)
      → ((y ≡ x) ⊎ (y ≡ set_resolution x (ρ x)))
      → (w.id == x.id) ≡ false
      → one_round w y ≡ y
  unfolding one_round set_resolution
  other w x y at e =
      let same_id : y.id ≡ x.id = elim at [
        | inl same ↦ ap (λ (z : RefRow). z.id) same
        | inr same ↦ ap (λ (z : RefRow). z.id) same
      ] in
      let apart : (y.id == w.id) ≡ false = ground arith in
      elim (Bool-cases (is_unchanged w (ρ w))) [
        | inl f ↦ rw (f, one_round) refl
        | inr f ↦ rw (f, apart, one_round) refl
      ]

  -- A row of the table that an id names among the stored ones, before or after its update.
  pub rounds_lem :
      (x y : RefRow) (ws : List RefRow)
      → ((y ≡ x) ⊎ (y ≡ set_resolution x (ρ x)))
      → All (λ w. w.id ≡ x.id → w ≡ x) ws
      → rounds ws y ≡ (if any (λ w. w.id == x.id) ws then set_resolution x (ρ x) else y)
  unfolding rounds
  rounds_lem x y [] at h = refl
  rounds_lem x y (w ∷ ws) at h = elim (Bool-cases (w.id == x.id)) [
    | inl e ↦
        let same : w ≡ x = h.0 ((eq_iff w.id x.id).0 e) in
        rw e (
          ap (λ v. rounds ws (one_round v y)) same
          ∙ (ap (rounds ws) (settled x y at)
              ∙ (rounds_lem x (set_resolution x (ρ x)) ws (inr refl) h.1
                  ∙ either (any (λ v. v.id == x.id) ws) (set_resolution x (ρ x)))))
    | inr e ↦ rw e (ap (rounds ws) (other w x y at e) ∙ rounds_lem x y ws at h.1)
  ]
    where
      either : (b : Bool) (z : RefRow) → (if b then z else z) ≡ z
      either true z = refl
      either false z = refl
