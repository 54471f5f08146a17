-- ===== src/Resolution/Names.antt =====
-- The functions of crates/orbit-graph/src/sync/pass2.rs on module paths and qualified names.
pub mod Joined
use mathlib.Core.List.{reverse}
use mathlib.Core.Option
use orbit_graph.Common.{
  ℕ, zero, suc, ◌+◌, Bool, true, false, not, ◌&&◌, ◌||◌, List, [], ◌∷◌, ◌++◌, Option, none, some,
  ◌==◌, nat_eq, list_eq, option_eq, leb, if◌then◌else◌, filter, find, first, last, is_empty,
}
use orbit_graph.Common.Text.{
  Text, codes, strip_prefix, strip_suffix, starts_with, ends_with, split, split_double, join,
  trim_end_matches, byte_len, is_some,
}

-- `part == "…"`
abbrev pub reads : Text → Option Text → Bool
reads word none = false
reads word (some part) = part == word

-- `str::replace` of one character
unfoldable pub replace : ℕ → Text → Text → Text
replace from to [] = []
replace from to (c ∷ s) = let rest = replace from to s in if c == from then to ++ rest else c ∷ rest

-- `split("::")`, the empty parts dropped
unfoldable pub path_parts : Text → List Text
unfolding split_double
path_parts path = filter (λ part. not (is_empty part)) (split_double b':' path)

unfoldable pub normalize_module_path : Text → Text
unfolding replace path_parts join
normalize_module_path path = join (codes "::") (path_parts (replace b'.' (codes "::") path))

unfoldable pub join_module_symbol : Text → Text → Text
join_module_symbol inside symbol =
    if is_empty inside then symbol else inside ++ (codes "::" ++ symbol)

-- `target[module.len()..]` is what is left of a target that starts with the module
unfoldable pub is_module_symbol : Text → Text → Text → Bool
unfolding byte_len strip_prefix starts_with ends_with
is_module_symbol target inside symbol =
    if is_empty inside
    then target == symbol
    else byte_len target == (byte_len inside + 2) + byte_len symbol
      && (elim (strip_prefix inside target) [
        | none ↦ false
        | some rest ↦ starts_with (codes "::") rest && ends_with symbol target
      ])

-- `path[..path.len() - module.len()]` is what is left before a module at the end
unfoldable pub is_module_suffix : Text → Text → Bool
unfolding byte_len strip_suffix ends_with
is_module_suffix path inside =
    leb (byte_len inside + 2) (byte_len path)
    && (elim (strip_suffix inside path) [ none ↦ false | some rest ↦ ends_with (codes "::") rest ])

-- `Vec::pop` on the list of parts
pub pop : List Text → List Text
pop [] = []
pop (part ∷ []) = []
pop (part ∷ next ∷ parts) = part ∷ pop (next ∷ parts)

-- the file path without `.rs`, or without `.py`
pub file_stem : Text → Text
unfolding strip_suffix
file_stem file_path = elim (strip_suffix (codes ".rs") file_path) [
  | some stem ↦ stem
  | none ↦ elim (strip_suffix (codes ".py") file_path) [ some stem ↦ stem | none ↦ file_path ]
]

-- a last part that stands for the directory of its file
pub is_directory_file : Bool → Option Text → Bool
is_directory_file true part =
    reads (codes "lib") part || reads (codes "main") part || reads (codes "mod") part
is_directory_file false part = reads (codes "__init__") part

unfoldable pub file_module_parts : Text → List Text
unfolding ends_with file_stem split is_directory_file pop
file_module_parts file_path =
    let parts =
      filter (λ part. not (is_empty part) && not (part == codes "src"))
        (split b'/' (file_stem file_path)) in
    if is_directory_file (ends_with (codes ".rs") file_path) (last parts) then pop parts else parts

-- `while parts.first() == "super" { parts.remove(0); base.pop(); }`: the base and what is left
pub climb : List Text → List Text → List Text × List Text
unfolding pop
climb base [] = (base, [])
climb base (part ∷ parts) =
    let higher = climb (pop base) parts in
    if part == codes "super" then higher else (base, part ∷ parts)

-- `if parts.first() == "self" { parts.remove(0); }`
pub skip_self : List Text → List Text
skip_self [] = []
skip_self (part ∷ parts) = if part == codes "self" then parts else part ∷ parts

unfoldable pub resolve_import_path : Text → Text → Text
unfolding normalize_module_path path_parts join file_module_parts climb skip_self
resolve_import_path from_file path = elim (path_parts (normalize_module_path path)) [
  | [] ↦ []
  | root ∷ rest ↦
      let climbed = climb (file_module_parts from_file) (root ∷ rest) in
      if root == codes "crate"
      then join (codes "::") rest
      else if root == codes "self" || root == codes "super"
      then join (codes "::") (climbed.0 ++ skip_self climbed.1)
      else join (codes "::") (root ∷ rest)
]

unfoldable pub resolve_reexport_path : Text → Text → Text → Text
unfolding normalize_module_path path_parts join file_module_parts climb pop
resolve_reexport_path from_file inside path = elim (path_parts (normalize_module_path path)) [
  | [] ↦ []
  | root ∷ rest ↦
      let base = file_module_parts from_file ++ path_parts inside in
      let climbed = climb (pop base) rest in
      if root == codes "crate"
      then join (codes "::") rest
      else if root == codes "self"
      then join (codes "::") (base ++ rest)
      else if root == codes "super"
      then join (codes "::") (climbed.0 ++ climbed.1)
      else normalize_module_path path
]

-- `char::is_alphanumeric` reads the tables of Unicode: a parameter
module _ (is_alphanumeric : ℕ → Bool) where
  pub is_qualified_word : ℕ → Bool
  is_qualified_word c = is_alphanumeric c || c == b'_' || c == b'-'

  pub normalize_qualified_prefix : Text → Text
  unfolding trim_end_matches is_qualified_word
  normalize_qualified_prefix prefix = trim_end_matches (λ c. not (is_qualified_word c)) prefix

  unfoldable pub qualified_prefix_before_name : Text → Text → Option Text
  unfolding strip_suffix normalize_qualified_prefix byte_len
  qualified_prefix_before_name qualified name = elim (strip_suffix name qualified) [
    | none ↦ none
    | some prefix ↦
        let trimmed = normalize_qualified_prefix prefix in
        let shortened = if byte_len trimmed == byte_len prefix then none else some trimmed in
        if qualified == name then some [] else shortened
  ]

-- the module prefixes of a file: a set
abbrev pub starts_of : List Text → List Text
starts_of [] = []
starts_of (part ∷ parts) = join (codes "::") (part ∷ parts) ∷ starts_of parts
