-- ===== src/Selector/Path/Resolve.antt =====
-- The parts of a path in `normalize_path_text` of crates/orbit-graph-extract/src/selector.rs.
use mathlib.Core.List.{reverse, reverse-append}
use orbit_graph.Common.{
  Bool, true, not, ◌&&◌, ◌||◌, List, [], ◌∷◌, ◌++◌, ◌≡◌, refl, ap, ◌∙◌, ◌==◌, nat_eq, list_eq,
  is_empty, eq_iff, arith,
}
use orbit_graph.Common.Text.{Text, codes}
use orbit_graph.Selector.Path.{parent, resolve_part, resolve_parts}

abbrev pub top_is_parent : List Text → Bool
top_is_parent [] = true
top_is_parent (part ∷ parts) = part == codes ".."

-- No empty part and no `.`; a `..` only at the start, and only in a relative path. The last part
-- stands first.
pub is_resolved : Bool → List Text → Bool
is_resolved is_absolute [] = true
is_resolved is_absolute (part ∷ parts) =
    not (is_empty part)
    && not (part == codes ".")
    && (not (part == codes "..") || (not is_absolute && top_is_parent parts))
    && is_resolved is_absolute parts

module _ (is_absolute : Bool) where
  parent-is_resolved :
      (parts : List Text)
      → is_resolved is_absolute parts ≡ true
      → is_resolved is_absolute (parent is_absolute parts) ≡ true
  unfolding is_resolved parent
  parent-is_resolved [] h = ground arith
  parent-is_resolved (last ∷ rest) h = ground arith

  resolve_part-is_resolved :
      (parts : List Text) (part : Text)
      → is_resolved is_absolute parts ≡ true
      → is_resolved is_absolute (resolve_part is_absolute parts part) ≡ true
  unfolding is_resolved resolve_part
  resolve_part-is_resolved parts part h = ground (arith, parent-is_resolved parts h)

  resolve_parts-is_resolved :
      (parts more : List Text)
      → is_resolved is_absolute parts ≡ true
      → is_resolved is_absolute (resolve_parts is_absolute parts more) ≡ true
  unfolding resolve_parts
  resolve_parts-is_resolved parts [] h = h
  resolve_parts-is_resolved parts (part ∷ more) h =
      resolve_parts-is_resolved (resolve_part is_absolute parts part) more
        (resolve_part-is_resolved parts part h)

  pub resolve_parts_fresh :
      (more : List Text) → is_resolved is_absolute (resolve_parts is_absolute [] more) ≡ true
  unfolding is_resolved
  resolve_parts_fresh more = resolve_parts-is_resolved [] more refl

  resolve_part_resolved :
      (part : Text) (parts : List Text)
      → is_resolved is_absolute (part ∷ parts) ≡ true
      → (resolve_part is_absolute parts part ≡ part ∷ parts)
        × (is_resolved is_absolute parts ≡ true)
  unfolding is_resolved resolve_part parent
  resolve_part_resolved part [] h = ground (arith, eq_iff part (codes ".."))
  resolve_part_resolved part (last ∷ rest) h = ground (arith, eq_iff part (codes ".."))

  resolve_parts-append :
      (parts more rest : List Text)
      → resolve_parts is_absolute parts (more ++ rest)
        ≡ resolve_parts is_absolute (resolve_parts is_absolute parts more) rest
  unfolding resolve_parts
  resolve_parts-append parts [] rest = refl
  resolve_parts-append parts (part ∷ more) rest =
      resolve_parts-append (resolve_part is_absolute parts part) more rest

  pub resolve_parts-reverse :
      (parts : List Text)
      → is_resolved is_absolute parts ≡ true
      → resolve_parts is_absolute [] (reverse parts) ≡ parts
  unfolding resolve_parts
  resolve_parts-reverse [] h = refl
  resolve_parts-reverse (part ∷ parts) h =
      let (same, below) = resolve_part_resolved part parts h in
      ap (resolve_parts is_absolute []) (reverse-append (part ∷ []) parts)
      ∙ (resolve_parts-append [] (reverse parts) (part ∷ [])
          ∙ (ap (λ rest. resolve_part is_absolute rest part) (resolve_parts-reverse parts below)
              ∙ same))
