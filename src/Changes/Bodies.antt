-- ===== src/Changes/Bodies.antt =====
-- crates/orbit-graph-changes/src/changes.rs: what is compared of a symbol's source. A byte is a
-- number below 256. The decoding of `String::from_utf8_lossy` is the parameter `from_utf8_lossy`.
pub mod Normal
use Prim.Native.Nat.{◌*◌, ◌/◌, ◌%◌, ◌^◌, bit_xor}
use mathlib.Core.List.{foldl}
use mathlib.Core.Option
use orbit_graph.Common.{
  ℕ, zero, suc, ◌+◌, ◌-◌, Bool, true, false, not, ◌&&◌, ◌||◌, List, [], ◌∷◌, ◌++◌, Option, none,
  some, map, ◌==◌, nat_eq, list_eq, leb, ltb, if◌then◌else◌, length, is_empty, find,
}
use orbit_graph.Common.Text.{
  Text, codes, split, trim, is_whitespace, strip_prefix, rsplit_once_text,
}

abbrev pub Bytes : Type 0
Bytes = List ℕ

pub record SymbolSource : Type 0 where
  pub bytes : Bytes
  pub signature : Text
  pub truncated : Bool

-- A line of `str::lines` that is not the part between two line feeds is empty or ends in a
-- carriage return, which the trim and the search pass over.
unfoldable pub signature_line : (Bytes → Text) → Bytes → Text
unfolding split trim is_whitespace
signature_line from_utf8_lossy bytes =
    elim (find (λ line. not (is_empty line)) (map trim (split b'\n' (from_utf8_lossy bytes)))) [
      | none ↦ []
      | some line ↦ line
    ]

unfoldable pub parent_qualified : Text → Text
unfolding rsplit_once_text
parent_qualified qualified = elim (rsplit_once_text (codes "::") qualified) [
  | none ↦ []
  | some p ↦ p.0
]

-- `u8::is_ascii_alphanumeric`, with the underscore and the bytes that are not ASCII
unfoldable pub identifier_byte : ℕ → Bool
identifier_byte b =
    (leb b'0' b && leb b b'9')
    || (leb b'A' b && leb b b'Z')
    || (leb b'a' b && leb b b'z')
    || b == b'_'
    || leb 0x80 b

-- `u8::is_ascii_whitespace`
unfoldable pub is_ascii_whitespace : ℕ → Bool
is_ascii_whitespace b = b == 32 || b == 9 || b == 10 || b == 12 || b == 13

-- `str::as_bytes`
abbrev utf8_char : ℕ → Bytes
utf8_char c =
    if ltb c 0x80
    then c ∷ []
    else if ltb c 0x800
    then (0xc0 + c / 64) ∷ (0x80 + c % 64) ∷ []
    else if ltb c 0x10000
    then (0xe0 + c / 4096) ∷ (0x80 + (c / 64) % 64) ∷ (0x80 + c % 64) ∷ []
    else (0xf0 + c / 262144)
      ∷ (0x80 + (c / 4096) % 64)
      ∷ (0x80 + (c / 64) % 64)
      ∷ (0x80 + c % 64)
      ∷ []

unfoldable pub as_bytes : Text → Bytes
as_bytes [] = []
as_bytes (c ∷ s) = utf8_char c ++ as_bytes s

-- whether a byte is there and belongs to an identifier
pub continues : Option ℕ → Bool
unfolding identifier_byte
continues none = false
continues (some b) = identifier_byte b

pub head_byte : Bytes → Option ℕ
head_byte [] = none
head_byte (b ∷ bytes) = some b

-- `replaces_identifier`, from the byte before and the bytes from here on
unfoldable pub replaces_identifier : Bytes → Option ℕ → Bytes → Bool
unfolding continues head_byte strip_prefix
replaces_identifier identifier before bytes = elim (strip_prefix identifier bytes) [
  | none ↦ false
  | some after ↦ not (continues before) && not (continues (head_byte after))
]

unfoldable pub kept_byte : ℕ → Bytes
unfolding is_ascii_whitespace
kept_byte b = if is_ascii_whitespace b then [] else b ∷ []

-- The loop of `normalized_body_hash`: the byte before, and how many bytes of a replaced identifier
-- are still to be passed.
unfoldable pub normalize_from : Bytes → Option ℕ → ℕ → Bytes → Bytes
unfolding replaces_identifier kept_byte
normalize_from identifier before passed [] = []
normalize_from identifier before (suc passed) (b ∷ bytes) =
    normalize_from identifier (some b) passed bytes
normalize_from identifier before zero (b ∷ bytes) =
    let replaces = replaces_identifier identifier before (b ∷ bytes) in
    let rest =
      normalize_from identifier (some b) (if replaces then length identifier - 1 else 0) bytes in
    (if replaces then codes "<identifier>" else kept_byte b) ++ rest

-- the FNV-1a hash, with the wrap-around of `wrapping_mul` at 64 bits
unfoldable pub hash_step : ℕ → ℕ → ℕ
hash_step hash byte = (bit_xor hash byte * 0x100000001b3) % 2 ^ 64

unfoldable pub body_hash : Bytes → ℕ
unfolding hash_step
body_hash = foldl hash_step 0xcbf29ce484222325

unfoldable pub normalized_body_hash : SymbolSource → Text → Option (ℕ × Bytes)
unfolding normalize_from body_hash as_bytes
normalized_body_hash source identifier =
    let normalized = normalize_from (as_bytes identifier) none 0 source.bytes in
    if source.truncated || is_empty identifier
    then none
    else some (body_hash normalized, normalized)
