-- ===== src/Selector/Path.antt =====
-- `normalize_path_text` of crates/orbit-graph-extract/src/selector.rs.
pub mod Resolve
pub mod Idempotent
use Prim.Native.Nat.{ℕ}
use mathlib.Core.List.{reverse}
use orbit_graph.Common.{
  Bool, true, false, not, ◌&&◌, ◌||◌, List, [], ◌∷◌, ◌++◌, map, Result, ok, err, ◌==◌, nat_eq,
  list_eq, if◌then◌else◌, is_empty,
}
use orbit_graph.Common.Text.{Text, codes, trim, split, join, starts_with}

-- The messages of `SelectorParseError::reason`, one constructor for each text.
pub data Reason : Type 0 where
  empty_path no_kind no_symbol empty_symbol empty_module empty_command unknown_prefix : Reason

-- `str::replace('\\', "/")`
pub forward_slashes : Text → Text
forward_slashes = map (λ c. if c == b'\\' then b'/' else c)

-- A `..` after the parts read so far; the last part stands first.
pub parent : Bool → List Text → List Text
parent is_absolute [] = if is_absolute then [] else codes ".." ∷ []
parent is_absolute (last ∷ rest) =
    if not (last == codes "..")
    then rest
    else if is_absolute
    then last ∷ rest
    else codes ".." ∷ last ∷ rest

-- One round of the loop over the parts.
pub resolve_part : Bool → List Text → Text → List Text
unfolding parent
resolve_part is_absolute parts part =
    if is_empty part || part == codes "."
    then parts
    else if part == codes ".."
    then parent is_absolute parts
    else part ∷ parts

pub resolve_parts : Bool → List Text → List Text → List Text
unfolding resolve_part
resolve_parts is_absolute parts [] = parts
resolve_parts is_absolute parts (part ∷ more) =
    resolve_parts is_absolute (resolve_part is_absolute parts part) more

pub render : Bool → List Text → Text
render true [] = codes "/"
render true (part ∷ parts) = codes "/" ++ join (codes "/") (part ∷ parts)
render false [] = codes "."
render false (part ∷ parts) = join (codes "/") (part ∷ parts)

pub normalize_text : Text → Text
unfolding resolve_parts render starts_with split join
normalize_text normalized =
    let is_absolute = starts_with (codes "/") normalized in
    render is_absolute (reverse (resolve_parts is_absolute [] (split b'/' normalized)))

unfoldable pub normalize_path_text : Text → Result Reason Text
unfolding normalize_text forward_slashes trim
normalize_path_text raw =
    let normalized = forward_slashes (trim raw) in
    if is_empty normalized then err empty_path else ok (normalize_text normalized)
