-- ===== src/Common/Text.antt =====
-- Texts: the Unicode scalar values of a Rust `str`, with the functions of the standard library that
-- the program calls on them. `Split`, `Trim` and `Affix` hold the laws.
pub mod Trim
pub mod Split
pub mod Affix
use Prim.Native.Nat.{ℕ, ◌+◌}
use Prim.Native.Char.{code}
use Prim.Native.String.{String}
use mathlib.Core.Bool.{Bool, true, false, ◌&&◌, ◌||◌, not}
use mathlib.Core.List.{List, [], ◌∷◌, ◌++◌, reverse}
use mathlib.Core.Option.{Option, none, some}
use mathlib.Core.Option
use orbit_graph.Common.Tests.{ltb, leb, if◌then◌else◌, ◌==◌, nat_eq}
use orbit_graph.Common.Lists.{is_empty}

abbrev pub Text : Type 0
Text = List ℕ

-- the text of a literal
abbrev pub codes : String → Text
codes String.[] = []
codes (String.◌∷◌ c s) = code c ∷ codes s

-- `char::is_whitespace`: the code points with the property White_Space
unfoldable pub is_whitespace : ℕ → Bool
is_whitespace c =
    (leb 9 c && leb c 13)
    || c == 32
    || c == 0x85
    || c == 0xa0
    || c == 0x1680
    || (leb 0x2000 c && leb c 0x200a)
    || c == 0x2028
    || c == 0x2029
    || c == 0x202f
    || c == 0x205f
    || c == 0x3000

-- `str::trim_start_matches` and `str::trim_end_matches`, of a predicate
unfoldable pub trim_start_matches : (ℕ → Bool) → Text → Text
trim_start_matches p [] = []
trim_start_matches p (c ∷ s) = let rest = trim_start_matches p s in if p c then rest else c ∷ s

unfoldable pub trim_end_matches : (ℕ → Bool) → Text → Text
trim_end_matches p [] = []
trim_end_matches p (c ∷ s) =
    let rest = trim_end_matches p s in if is_empty rest && p c then [] else c ∷ rest

unfoldable pub trim : Text → Text
unfolding trim_start_matches trim_end_matches
trim s = trim_end_matches is_whitespace (trim_start_matches is_whitespace s)

unfoldable pub strip_prefix : Text → Text → Option Text
strip_prefix [] s = some s
strip_prefix (p ∷ ps) [] = none
strip_prefix (p ∷ ps) (c ∷ s) = let rest = strip_prefix ps s in if p == c then rest else none

unfoldable pub strip_suffix : Text → Text → Option Text
unfolding strip_prefix
strip_suffix p s = Option.map reverse (strip_prefix (reverse p) (reverse s))

abbrev pub is_some {ℓ} : {A : Type ℓ} → Option A → Bool
is_some none = false
is_some (some a) = true

unfoldable pub starts_with : Text → Text → Bool
unfolding strip_prefix
starts_with p s = is_some (strip_prefix p s)

unfoldable pub ends_with : Text → Text → Bool
unfolding strip_suffix
ends_with p s = is_some (strip_suffix p s)

-- puts a character in front of the first part
abbrev pub cons_head : ℕ → List Text → List Text
cons_head c [] = (c ∷ []) ∷ []
cons_head c (part ∷ parts) = (c ∷ part) ∷ parts

-- `str::split` at a character
unfoldable pub split : ℕ → Text → List Text
split sep [] = [] ∷ []
split sep (c ∷ s) = let rest = split sep s in if c == sep then [] ∷ rest else cons_head c rest

-- `str::split` at two equal characters in a row, from the left and without overlap
unfoldable pub split_double : ℕ → Text → List Text
split_double sep [] = [] ∷ []
split_double sep (c ∷ []) = (c ∷ []) ∷ []
split_double sep (c ∷ d ∷ s) =
    let after = split_double sep s in
    let rest = split_double sep (d ∷ s) in
    if c == sep && d == sep then [] ∷ after else cons_head c rest

-- `slice::join`
unfoldable pub join : Text → List Text → Text
join sep [] = []
join sep (part ∷ []) = part
join sep (part ∷ next ∷ parts) = part ++ (sep ++ join sep (next ∷ parts))

-- `str::split_once` at a character: the first one
unfoldable pub split_once : ℕ → Text → Option (Text × Text)
split_once sep [] = none
split_once sep (c ∷ s) =
    let rest = Option.map {A = Text × Text} (λ p. (c ∷ p.0, p.1)) (split_once sep s) in
    if c == sep then some ([], s) else rest

-- `str::rsplit_once` at a character: the last one
unfoldable pub rsplit_once : ℕ → Text → Option (Text × Text)
rsplit_once sep [] = none
rsplit_once sep (c ∷ s) = elim (rsplit_once sep s) [
  | some (before, after) ↦ some (c ∷ before, after)
  | none ↦ if c == sep then some ([], s) else none
]

-- the bytes of a character and of a text in UTF-8 (`str::len`)
abbrev pub utf8_len : ℕ → ℕ
utf8_len c = if ltb c 0x80 then 1 else if ltb c 0x800 then 2 else if ltb c 0x10000 then 3 else 4

unfoldable pub byte_len : Text → ℕ
byte_len [] = 0
byte_len (c ∷ s) = utf8_len c + byte_len s

-- `str::split_once`, `str::rsplit_once` and `str::contains` of a text that is not empty
unfoldable pub split_once_text : Text → Text → Option (Text × Text)
unfolding strip_prefix
split_once_text sep [] = none
split_once_text sep (c ∷ s) =
    let later = Option.map {A = Text × Text} (λ p. (c ∷ p.0, p.1)) (split_once_text sep s) in
    elim (strip_prefix sep (c ∷ s)) [ some after ↦ some ([], after) | none ↦ later ]

unfoldable pub rsplit_once_text : Text → Text → Option (Text × Text)
unfolding strip_prefix
rsplit_once_text sep [] = none
rsplit_once_text sep (c ∷ s) = elim (rsplit_once_text sep s) [
  | some (before, after) ↦ some (c ∷ before, after)
  | none ↦ Option.map {A = Text} (λ after. ([], after)) (strip_prefix sep (c ∷ s))
]

unfoldable pub contains_text : Text → Text → Bool
unfolding split_once_text
contains_text part s = is_some (split_once_text part s)
