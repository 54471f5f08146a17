-- ===== src/Selector/Parse/RoundTrip.antt =====
-- Printing and parsing of selectors, crates/orbit-graph-extract/src/selector.rs.
use Prim.Native.Char.{code}
use orbit_graph.Common.{
  false, ◌∷◌, ◌++◌, ◌≡◌, ◌≢◌, refl, sym, ap, ◌∙◌, some, ok, is_empty, arith, Option-cases,
  Result-cases, inl, inr, append_assoc, subst,
}
use orbit_graph.Common.Text.{
  Text, is_whitespace, codes, trim, strip_prefix, split_once, rsplit_once,
}
use orbit_graph.Common.Text.Trim.{All-trim, trim-trim, trim-append}
use orbit_graph.Common.Text.Split.{
  Lacks, rsplit_once-append, rsplit_once-eq-some, split_once-append, split_once-eq-some,
}
use orbit_graph.Selector.{Selector, dir, file, symbol, module_named, command, path, to_string}
use orbit_graph.Selector.Path.{normalize_path_text}
use orbit_graph.Selector.Path.Idempotent.{
  normalize_path_text-idempotent, All-normalize_path_text, normalize_path_text-is_empty,
}
use orbit_graph.Selector.Parse.{
  parse_dir, parse_file, parse_symbol, parse_module, parse_command, from_trimmed, from_str,
  on_prefix, Parsed,
}

-- A path that `normalize_path_text` returned for some text without a `#`, or for any text.
abbrev IsPath : Text → Type 0
IsPath p = (raw : Text) × (normalize_path_text raw ≡ ok p)

-- A text trimmed and not empty.
abbrev IsWord : Text → Type 0
IsWord s = (trim s ≡ s) × (is_empty s ≡ false)

-- What the parser grants of its result.
abbrev IsParsed : Selector → Type 0
IsParsed (dir p) = IsPath p
IsParsed (file p) = IsPath p
IsParsed (symbol p s k) = IsPath p × Lacks b'#' p × IsWord s × IsWord k × Lacks b':' k
IsParsed (module_named q) = IsWord q
IsParsed (command n) = IsWord n

parse_dir-IsParsed : (t raw : Text) (s : Selector) → parse_dir t raw ≡ ok s → IsParsed s
unfolding parse_dir
parse_dir-IsParsed t raw s h = elim (Result-cases (normalize_path_text raw)) [
  | inl (p, e) ↦ let same : dir p ≡ s = ground arith in subst IsParsed same (raw, e)
  | inr (r, e) ↦ ground arith
]

parse_file-IsParsed : (t raw : Text) (s : Selector) → parse_file t raw ≡ ok s → IsParsed s
unfolding parse_file
parse_file-IsParsed t raw s h = elim (Result-cases (normalize_path_text raw)) [
  | inl (p, e) ↦ let same : file p ≡ s = ground arith in subst IsParsed same (raw, e)
  | inr (r, e) ↦ ground arith
]

IsWord-trim : (raw : Text) → is_empty (trim raw) ≡ false → IsWord (trim raw)
IsWord-trim raw h = (trim-trim raw, h)

parse_module-IsParsed : (t raw : Text) (s : Selector) → parse_module t raw ≡ ok s → IsParsed s
unfolding parse_module
parse_module-IsParsed t raw s h =
    let full : is_empty (trim raw) ≡ false = ground arith in
    let same : module_named (trim raw) ≡ s = ground arith in
    subst IsParsed same (IsWord-trim raw full)

parse_command-IsParsed : (t raw : Text) (s : Selector) → parse_command t raw ≡ ok s → IsParsed s
unfolding parse_command
parse_command-IsParsed t raw s h =
    let full : is_empty (trim raw) ≡ false = ground arith in
    let same : command (trim raw) ≡ s = ground arith in subst IsParsed same (IsWord-trim raw full)

-- The path holds no `#` and the kind no `:`, since they were cut there.
parse_symbol-IsParsed : (t raw : Text) (s : Selector) → parse_symbol t raw ≡ ok s → IsParsed s
unfolding parse_symbol
parse_symbol-IsParsed t raw s h = elim (Option-cases (rsplit_once b':' raw)) [
  | inl none_there ↦ ground arith
  | inr ((location, raw_kind), at_colon) ↦ elim (Option-cases (split_once b'#' location)) [
    | inl none_there ↦ ground arith
    | inr ((raw_path, raw_symbol), at_hash) ↦ elim (Result-cases (normalize_path_text raw_path)) [
      | inr (r, e) ↦ ground arith
      | inl (p, e) ↦
          let full : (is_empty (trim raw_symbol) ≡ false) × (is_empty (trim raw_kind) ≡ false) =
            ground arith in
          let same : symbol p (trim raw_symbol) (trim raw_kind) ≡ s = ground arith in
          let no_hash = (split_once-eq-some b'#' location raw_path raw_symbol at_hash).1 in
          let no_colon = (rsplit_once-eq-some b':' raw location raw_kind at_colon).1 in
          subst IsParsed same (
            (raw_path, e),
            All-normalize_path_text (λ x. x ≢ b'#') raw_path p (omega arith) (omega arith) no_hash
                e,
            IsWord-trim raw_symbol full.0,
            IsWord-trim raw_kind full.1,
            All-trim (λ x. x ≢ b':') raw_kind no_colon,
          )
    ]
  ]
]

on_prefix-IsParsed :
    (prefix trimmed : Text) (f : Text → Parsed Selector) (otherwise : Parsed Selector)
    (s : Selector)
    → ((raw : Text) → f raw ≡ ok s → IsParsed s)
    → (otherwise ≡ ok s → IsParsed s)
    → on_prefix prefix trimmed f otherwise ≡ ok s
    → IsParsed s
on_prefix-IsParsed prefix trimmed f otherwise s here later h =
    elim (Option-cases (strip_prefix prefix trimmed)) [
      | inl e ↦ later (rw (e, on_prefix) at h)
      | inr (rest, e) ↦ here rest (rw (e, on_prefix) at h)
    ]

from_str-IsParsed : (t : Text) (s : Selector) → from_str t ≡ ok s → IsParsed s
unfolding from_str
from_str-IsParsed t s h =
    on_prefix-IsParsed _ _ _ _ s (λ raw. parse_dir-IsParsed t raw s)
      (on_prefix-IsParsed _ _ _ _ s (λ raw. parse_file-IsParsed t raw s)
        (on_prefix-IsParsed _ _ _ _ s (λ raw. parse_symbol-IsParsed t raw s)
          (on_prefix-IsParsed _ _ _ _ s (λ raw. parse_module-IsParsed t raw s)
            (on_prefix-IsParsed _ _ _ _ s (λ raw. parse_command-IsParsed t raw s) (λ bad. cc)))))
      h

parse_dir_lem : (t p : Text) → normalize_path_text p ≡ ok p → parse_dir t p ≡ ok (dir p)
unfolding parse_dir
parse_dir_lem t p normal = ground arith

parse_file_lem : (t p : Text) → normalize_path_text p ≡ ok p → parse_file t p ≡ ok (file p)
unfolding parse_file
parse_file_lem t p normal = ground arith

-- A printed text is trimmed already, so that its prefix decides which parser reads it.
from_str_dir : (p : Text) → IsPath p → trim p ≡ p → from_str (to_string (dir p)) ≡ ok (dir p)
unfolding from_str to_string parse_dir strip_prefix is_whitespace
from_str_dir p (raw, e) t =
    let text = codes "dir:" ++ p in
    ap (from_trimmed text)
      (trim-append (code "d") (codes "ir:") p refl t (normalize_path_text-is_empty raw p e))
    ∙ parse_dir_lem text p (normalize_path_text-idempotent raw p e t)

from_str_file : (p : Text) → IsPath p → trim p ≡ p → from_str (to_string (file p)) ≡ ok (file p)
unfolding from_str to_string parse_file strip_prefix is_whitespace
from_str_file p (raw, e) t =
    let text = codes "file:" ++ p in
    ap (from_trimmed text)
      (trim-append (code "f") (codes "ile:") p refl t (normalize_path_text-is_empty raw p e))
    ∙ parse_file_lem text p (normalize_path_text-idempotent raw p e t)

from_str_module :
    (q : Text) → IsWord q → from_str (to_string (module_named q)) ≡ ok (module_named q)
unfolding from_str to_string parse_module strip_prefix is_whitespace
from_str_module q (t, full) =
    ap (from_trimmed (codes "module:" ++ q)) (trim-append (code "m") (codes "odule:") q refl t full)
    ∙ rw (t, full)

from_str_command : (n : Text) → IsWord n → from_str (to_string (command n)) ≡ ok (command n)
unfolding from_str to_string parse_command strip_prefix is_whitespace
from_str_command n (t, full) =
    ap (from_trimmed (codes "command:" ++ n))
      (trim-append (code "c") (codes "ommand:") n refl t full)
    ∙ rw (t, full)

parse_symbol_parts :
    (t remainder location p s k : Text)
    → rsplit_once b':' remainder ≡ some (location, k)
    → split_once b'#' location ≡ some (p, s)
    → normalize_path_text p ≡ ok p
    → IsWord s
    → IsWord k
    → parse_symbol t remainder ≡ ok (symbol p s k)
unfolding parse_symbol
parse_symbol_parts t remainder location p s k at_colon at_hash normal ws wk = ground arith

from_str_symbol :
    (p s k : Text)
    → IsParsed (symbol p s k)
    → trim p ≡ p
    → from_str (to_string (symbol p s k)) ≡ ok (symbol p s k)
unfolding from_str to_string parse_symbol strip_prefix is_whitespace
from_str_symbol p s k ((raw, e), no_hash, (ts, fs), (tk, fk), no_colon) t =
    let rest = p ++ (codes "#" ++ (s ++ (codes ":" ++ k))) in
    let text = codes "symbol:" ++ rest in
    let start = codes "ymbol:" ++ (p ++ (codes "#" ++ (s ++ codes ":"))) in
    let regroup : code "s" ∷ (start ++ k) ≡ text = simp append_assoc in
    let trimmed : trim text ≡ text =
      subst (λ x. trim x ≡ x) regroup (trim-append (code "s") start k refl tk fk) in
    let at_colon : rsplit_once b':' rest ≡ some (p ++ (b'#' ∷ s), k) =
      ap (rsplit_once b':') (sym (append_assoc p (b'#' ∷ s) (b':' ∷ k)))
      ∙ rsplit_once-append b':' (p ++ (b'#' ∷ s)) k no_colon in
    let at_hash = split_once-append b'#' p s no_hash in
    let normal = normalize_path_text-idempotent raw p e t in
    ap (from_trimmed text) trimmed
    ∙ parse_symbol_parts text rest (p ++ (b'#' ∷ s)) p s k at_colon at_hash normal (ts, fs) (tk, fk)

-- Where `from_str` accepts a text and the selector's path neither begins nor ends in white
-- space, the printed selector parses to the same selector.
pub from_str-to_string :
    (t : Text) (s : Selector)
    → from_str t ≡ ok s
    → trim (path s) ≡ path s
    → from_str (to_string s) ≡ ok s
unfolding path
from_str-to_string t (dir p) h trimmed = from_str_dir p (from_str-IsParsed t (dir p) h) trimmed
from_str-to_string t (file p) h trimmed = from_str_file p (from_str-IsParsed t (file p) h) trimmed
from_str-to_string t (symbol p s k) h trimmed =
    from_str_symbol p s k (from_str-IsParsed t (symbol p s k) h) trimmed
from_str-to_string t (module_named q) h trimmed =
    from_str_module q (from_str-IsParsed t (module_named q) h)
from_str-to_string t (command n) h trimmed = from_str_command n (from_str-IsParsed t (command n) h)
