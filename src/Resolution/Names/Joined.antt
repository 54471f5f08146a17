-- ===== src/Resolution/Names/Joined.antt =====
-- The tests of crates/orbit-graph/src/sync/pass2.rs that do not build the joined text.
use mathlib.Core.List.{append_assoc}
use orbit_graph.Common.{
  ℕ, Bool, true, false, ◌&&◌, [], ◌∷◌, ◌++◌, none, some, ◌≡◌, refl, sym, ap, ◌∙◌, inl, inr, arith,
  ◌==◌, eq_iff, nat_eq, list_eq, leb, and_split, bool_ext, Option-cases, ◌+◌, ◌≤◌,
}
use orbit_graph.Common.Text.{
  Text, codes, strip_prefix, strip_suffix, starts_with, ends_with, byte_len,
}
use orbit_graph.Common.Text.Affix.{
  strip_prefix-append, strip_prefix-eq-some, strip_suffix-append, strip_suffix-eq-some,
  starts_with-append, starts_with-eq-true, ends_with-append, ends_with-eq-true, byte_len-append,
  byte_len-injective_end,
}
use orbit_graph.Resolution.Names.{is_module_symbol, is_module_suffix, join_module_symbol}

-- The test on lengths and affixes, which `is_module_symbol` makes of a module that is not empty.
abbrev affixed : Text → Text → Text → Bool
affixed target inside symbol = elim (strip_prefix inside target) [
  | none ↦ false
  | some rest ↦ starts_with (codes "::") rest && ends_with symbol target
]

abbrev fits : Text → Text → Text → Bool
fits target inside symbol =
    byte_len target == (byte_len inside + 2) + byte_len symbol && affixed target inside symbol

abbrev preceded : Text → Text → Bool
preceded path inside = elim (strip_suffix inside path) [
  | none ↦ false
  | some rest ↦ ends_with (codes "::") rest
]

byte_len-joined :
    (inside symbol : Text)
    → byte_len (inside ++ (codes "::" ++ symbol)) ≡ (byte_len inside + 2) + byte_len symbol
unfolding byte_len
byte_len-joined inside symbol =
    let outer = byte_len-append inside (codes "::" ++ symbol) in omega arith

at_least :
    (front inside : Text) (size : ℕ)
    → size ≡ (byte_len front + 2) + byte_len inside
    → byte_len inside + 2 ≤ size
at_least front inside size e = omega arith

le→leb : (a b : ℕ) → a ≤ b → leb a b ≡ true
le→leb a b h = ground arith

fits-joined : (inside symbol : Text) → fits (inside ++ (codes "::" ++ symbol)) inside symbol ≡ true
fits-joined inside symbol =
    let joined = codes "::" ++ symbol in
    let same =
      (eq_iff (byte_len (inside ++ joined)) ((byte_len inside + 2) + byte_len symbol)).1
        (byte_len-joined inside symbol) in
    let ends : ends_with symbol (inside ++ joined) ≡ true =
      ap (ends_with symbol) (sym (append_assoc inside (codes "::") symbol))
      ∙ ends_with-append (inside ++ codes "::") symbol in
    rw
      (
        same,
        affixed,
        strip_prefix-append inside joined,
        starts_with-append (codes "::") symbol,
        ends,
      )
      refl

joined-fits :
    (target inside symbol : Text)
    → fits target inside symbol ≡ true
    → target ≡ inside ++ (codes "::" ++ symbol)
joined-fits target inside symbol h =
    let (size, affixes) =
      and_split (byte_len target == (byte_len inside + 2) + byte_len symbol)
        (affixed target inside symbol) h in
    elim (Option-cases (strip_prefix inside target)) [
      | inl e ↦ absurd (cc (rw (e, affixed) at affixes))
      | inr (rest, e) ↦
          let (begins, ends) =
            and_split (starts_with (codes "::") rest) (ends_with symbol target)
              (rw (e, affixed) at affixes) in
          let (tail, e_tail) = starts_with-eq-true (codes "::") rest begins in
          let (before, e_before) = ends_with-eq-true symbol target ends in
          let whole : target ≡ inside ++ (codes "::" ++ tail) =
            strip_prefix-eq-some inside target rest e ∙ ap (λ t. inside ++ t) e_tail in
          let bytes : byte_len target ≡ (byte_len inside + 2) + byte_len symbol =
            (eq_iff (byte_len target) ((byte_len inside + 2) + byte_len symbol)).0 size in
          let mine : byte_len target ≡ (byte_len inside + 2) + byte_len tail =
            ap byte_len whole ∙ byte_len-joined inside tail in
          let equal : tail ≡ symbol =
            byte_len-injective_end (inside ++ codes "::") before tail symbol
              (append_assoc inside (codes "::") tail ∙ (sym whole ∙ e_before)) (omega arith) in
          whole ∙ ap (λ t. inside ++ (codes "::" ++ t)) equal
    ]

-- The test of `is_module_symbol` on byte lengths, beginning and end is the test whether the
-- target is the joined module and symbol, for all texts.
pub is_module_symbol-eq :
    (target inside symbol : Text)
    → is_module_symbol target inside symbol ≡ (target == join_module_symbol inside symbol)
unfolding is_module_symbol join_module_symbol
is_module_symbol-eq target [] symbol = refl
is_module_symbol-eq target (c ∷ inside) symbol =
    bool_ext _ _ (λ h. (eq_iff target _).1 (joined-fits target (c ∷ inside) symbol h))
      (λ h.
        ap (λ t. fits t (c ∷ inside) symbol) ((eq_iff target _).0 h)
        ∙ fits-joined (c ∷ inside) symbol)

suffixed :
    (path front inside : Text)
    → path ≡ front ++ (codes "::" ++ inside)
    → is_module_suffix path inside ≡ true
unfolding is_module_suffix
suffixed path front inside e =
    let split_at : path ≡ (front ++ codes "::") ++ inside =
      e ∙ sym (append_assoc front (codes "::") inside) in
    let size : byte_len inside + 2 ≤ byte_len path =
      at_least front inside (byte_len path) (ap byte_len e ∙ byte_len-joined front inside) in
    rw
      (
        le→leb (byte_len inside + 2) (byte_len path) size,
        ap (strip_suffix inside) split_at ∙ strip_suffix-append (front ++ codes "::") inside,
        ends_with-append front (codes "::"),
      )
      refl

-- The test of `is_module_suffix` on byte lengths and ends is the test whether the path ends with
-- two colons and the module, for all texts.
pub is_module_suffix-eq :
    (path inside : Text) → is_module_suffix path inside ≡ ends_with (codes "::" ++ inside) path
unfolding is_module_suffix
is_module_suffix-eq path inside =
    bool_ext _ _
      (λ h.
        let (size, before) =
          and_split (leb (byte_len inside + 2) (byte_len path)) (preceded path inside) h in
        elim (Option-cases (strip_suffix inside path)) [
          | inl e ↦ absurd (cc (rw (e, preceded) at before))
          | inr (rest, e) ↦
              let (front, e_front) =
                ends_with-eq-true (codes "::") rest (rw (e, preceded) at before) in
              let whole : path ≡ front ++ (codes "::" ++ inside) =
                strip_suffix-eq-some inside path rest e
                ∙ (ap (λ t. t ++ inside) e_front ∙ append_assoc front (codes "::") inside) in
              ap (ends_with (codes "::" ++ inside)) whole
              ∙ ends_with-append front (codes "::" ++ inside)
        ])
      (λ h.
        let (front, whole) = ends_with-eq-true (codes "::" ++ inside) path h in
        suffixed path front inside whole)
