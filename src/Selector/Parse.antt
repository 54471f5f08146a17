-- ===== src/Selector/Parse.antt =====
-- `FromStr for Selector` and `Selector::parse_many` of
-- crates/orbit-graph-extract/src/selector.rs.
pub mod RoundTrip
use mathlib.Core.Option
use orbit_graph.Common.{
  Bool, ◌||◌, List, [], ◌∷◌, Option, none, some, Result, ok, err, ◌>>=◌, if◌then◌else◌, is_empty,
}
use orbit_graph.Common.Text.{Text, codes, trim, strip_prefix, split_once, rsplit_once}
use orbit_graph.Selector.{Selector, dir, file, symbol, module_named, command}
use orbit_graph.Selector.Path.{
  Reason, no_kind, no_symbol, empty_symbol, empty_module, empty_command, unknown_prefix,
  normalize_path_text,
}

pub record SelectorParseError : Type 0 where
  pub input : Text
  pub reason : Reason

abbrev pub Parsed : Type 0 → Type 0
Parsed A = Result SelectorParseError A

abbrev invalid : {A : Type 0} → Text → Reason → Parsed A
invalid selector r = err (record { input = selector; reason = r })

pub normalize_selector_path : Text → Text → Parsed Text
normalize_selector_path original_input raw_path = elim (normalize_path_text raw_path) [
  | ok p ↦ ok p
  | err r ↦ invalid original_input r
]

-- what stands behind each prefix
pub parse_dir : Text → Text → Parsed Selector
unfolding normalize_selector_path
parse_dir selector raw = do p ← normalize_selector_path selector raw; ok (dir p)

pub parse_file : Text → Text → Parsed Selector
unfolding normalize_selector_path
parse_file selector raw = do p ← normalize_selector_path selector raw; ok (file p)

pub parse_location : Text → Text → Text → Parsed Selector
unfolding normalize_selector_path
parse_location selector location raw_kind = elim (split_once b'#' location) [
  | none ↦ invalid selector no_symbol
  | some (raw_path, raw_symbol) ↦ do
    p ← normalize_selector_path selector raw_path
    let s = trim raw_symbol
    let k = trim raw_kind
    if is_empty s || is_empty k then invalid selector empty_symbol else ok (symbol p s k)
]

pub parse_symbol : Text → Text → Parsed Selector
unfolding parse_location
parse_symbol selector remainder = elim (rsplit_once b':' remainder) [
  | none ↦ invalid selector no_kind
  | some (location, kind) ↦ parse_location selector location kind
]

pub parse_module : Text → Text → Parsed Selector
parse_module selector raw =
    let qualified = trim raw in
    if is_empty qualified then invalid selector empty_module else ok (module_named qualified)

pub parse_command : Text → Text → Parsed Selector
parse_command selector raw =
    let name = trim raw in
    if is_empty name then invalid selector empty_command else ok (command name)

-- `if let Some(rest) = trimmed.strip_prefix(p) { return f(rest); }`, before what follows
abbrev pub on_prefix : Text → Text → (Text → Parsed Selector) → Parsed Selector → Parsed Selector
on_prefix prefix trimmed f otherwise = elim (strip_prefix prefix trimmed) [
  | some rest ↦ f rest
  | none ↦ otherwise
]

pub from_trimmed : Text → Text → Parsed Selector
unfolding parse_dir parse_file parse_symbol parse_module parse_command
from_trimmed selector trimmed = on_prefix (codes "dir:") trimmed (parse_dir selector) (
    on_prefix (codes "file:") trimmed (parse_file selector) (
      on_prefix (codes "symbol:") trimmed (parse_symbol selector) (
        on_prefix (codes "module:") trimmed (parse_module selector) (
          on_prefix (codes "command:") trimmed (parse_command selector)
            (invalid selector unknown_prefix)))))

unfoldable pub from_str : Text → Parsed Selector
unfolding from_trimmed
from_str selector = from_trimmed selector (trim selector)

-- the first error ends the list
unfoldable pub parse_many : List Text → Parsed (List Selector)
parse_many [] = ok []
parse_many (raw ∷ raws) = do s ← from_str raw; rest ← parse_many raws; ok (s ∷ rest)
