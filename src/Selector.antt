-- ===== src/Selector.antt =====
-- crates/orbit-graph-extract/src/selector.rs: the selectors by which a query names a directory, a
-- file, a symbol, a module or a command. `Path` normalizes their paths, `Parse` reads them.
pub mod Path
pub mod Parse
use mathlib.Core.List.{[], ◌++◌}
use orbit_graph.Common.Text.{Text, codes}

pub data Selector : Type 0 where
  dir : Text → Selector
  file : Text → Selector
  -- path, symbol, kind
  symbol : Text → Text → Text → Selector
  module_named : Text → Selector
  command : Text → Selector

-- `Selector::path`
unfoldable pub path : Selector → Text
path (dir p) = p
path (file p) = p
path (symbol p s k) = p
path (module_named q) = []
path (command n) = []

-- `Display for Selector`
unfoldable pub to_string : Selector → Text
to_string (dir p) = codes "dir:" ++ p
to_string (file p) = codes "file:" ++ p
to_string (symbol p s k) = codes "symbol:" ++ (p ++ (codes "#" ++ (s ++ (codes ":" ++ k))))
to_string (module_named q) = codes "module:" ++ q
to_string (command n) = codes "command:" ++ n
