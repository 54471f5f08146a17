-- ===== src/Tests/Refs.antt =====
-- Runs of crates/orbit-graph/src/sync/pass2.rs: `src/b.rs` imports `helper` from `src/a.rs`.
use orbit_graph.Common.{◌≢◌, sym, ap, ◌∙◌, contains, if◌then◌else◌, arith}
use orbit_graph.Common.{
  ℕ, Bool, false, List, [], ◌∷◌, ◌++◌, Option, none, some, ok, ◌≡◌, refl, map, ◌+◌, ◌||◌, ◌&&◌, leb,
  ◌==◌, nat_eq, list_eq,
}
use orbit_graph.Common.Text.{Text, codes, ends_with}
use orbit_graph.Index.{Index, SymbolRow, RefRow}
use orbit_graph.Resolution.Refresh.{refresh_all_refs, set_resolution}
use orbit_graph.Resolution.Refresh.Stored.{HasUniqueRows, HasFiles, refreshed}
use orbit_graph.Resolution.Refresh.Laws.{refresh_all_refs-eq, refresh_all_refs-idempotent}
use mathlib.Core.List.Memᴰ.{head, tail}
use orbit_graph.Resolution.Raw.{
  RawRef, ResolvedRef, fuzzy, confidence_import_resolved, confidence_exact,
}
use orbit_graph.Resolution.Names.{is_module_symbol, is_module_suffix, join_module_symbol}
use orbit_graph.Resolution.Names.Joined.{is_module_symbol-eq, is_module_suffix-eq}
use orbit_graph.Resolution.Candidates.{file_language, imports_for_file}
use orbit_graph.Resolution.TypeMembers.{PackageIdentity}
use orbit_graph.Resolution.Ladder.{key_of, resolve_ref, resolve_file}
use orbit_graph.Resolution.Ladder.Keys.{resolve_ref-key_of, resolve_file-eq-map}
use orbit_graph.Resolution.Rungs.{resolve_import}
use orbit_graph.Resolution.Ladder.Receivers.{IsImportedOrFuzzy, resolve_ref-IsImportedOrFuzzy}
use orbit_graph.Resolution.Ladder.Sound.{IsResolved, resolve_ref-IsResolved}

abbrev alphanumeric : ℕ → Bool
alphanumeric c =
    (leb b'0' c && leb c b'9') || (leb b'A' c && leb c b'Z') || (leb b'a' c && leb c b'z')

abbrev packages : Text → Option PackageIdentity
packages file = none

abbrev function_row : ℕ → Text → Text → Text → SymbolRow
function_row id file name qualified = record {
  id = id;
  file_path = file;
  name = name;
  qualified = qualified;
  kind = codes "function";
  span_start = 0;
  span_end = 10;
}

abbrev two_files : Index
two_files = record {
  files =
      record { path = codes "src/a.rs"; lang = codes "rust" }
      ∷ record { path = codes "src/b.rs"; lang = codes "rust" }
      ∷ [];
  symbols =
      function_row 1 (codes "src/a.rs") (codes "helper") (codes "a::helper")
      ∷ function_row 2 (codes "src/b.rs") (codes "entry") (codes "b::entry")
      ∷ [];
  refs = [];
  relations = [];
  imports =
      record {
        from_file = codes "src/b.rs";
        target_path = codes "crate::a";
        target_symbol = some (codes "helper");
        source_symbol = none;
        reexport_module = none;
      }
      ∷ [];
  commands = [];
}

abbrev call_at : ℕ → Text → RawRef
call_at offset name = record {
  from_file = codes "src/b.rs";
  from_span_start = offset;
  from_span_end = offset + 6;
  target_name = name;
  target_qualified = some name;
  kind = codes "call";
  confidence = codes "fuzzy_name";
  unresolved_receiver = none;
  spelled_path = false;
}

abbrev calls : List RawRef
calls =
    call_at 1 (codes "helper")
    ∷ call_at 5 (codes "entry")
    ∷ call_at 9 (codes "helper")
    ∷ call_at 9 (codes "other")
    ∷ []

imported : ResolvedRef
imported = record {
  target_qualified = some (codes "a::helper");
  target_symbol_hint = some 1;
  confidence = confidence_import_resolved;
}

own : ResolvedRef
own = record {
  target_qualified = some (codes "b::entry");
  target_symbol_hint = some 2;
  confidence = confidence_exact;
}

resolved_calls :
    resolve_file alphanumeric two_files packages (codes "src/b.rs") calls
    ≡ ok (imported ∷ own ∷ imported ∷ fuzzy ∷ [])
unfolding resolve_file resolve_ref imported own
resolved_calls = refl

rust_file : file_language two_files (codes "src/b.rs") ≡ some (codes "rust")
unfolding file_language
rust_file = refl

resolve_file-eq-map_example :
    resolve_file alphanumeric two_files packages (codes "src/b.rs") calls
    ≡ ok (
        map
          (resolve_ref alphanumeric two_files packages
            (codes "src/b.rs")
            (codes "rust")
            (imports_for_file two_files (codes "src/b.rs")))
          calls)
resolve_file-eq-map_example =
    resolve_file-eq-map alphanumeric two_files packages (codes "src/b.rs") (codes "rust") calls
      rust_file

one_key : key_of (call_at 1 (codes "helper")) ≡ key_of (call_at 9 (codes "helper"))
unfolding key_of
one_key = refl

resolve_ref-key_of_example :
    resolve_ref alphanumeric two_files packages
      (codes "src/b.rs")
      (codes "rust")
      (imports_for_file two_files (codes "src/b.rs"))
      (call_at 1 (codes "helper"))
    ≡ resolve_ref alphanumeric two_files packages
        (codes "src/b.rs")
        (codes "rust")
        (imports_for_file two_files (codes "src/b.rs"))
        (call_at 9 (codes "helper"))
resolve_ref-key_of_example =
    resolve_ref-key_of alphanumeric two_files packages (call_at 1 (codes "helper"))
      (call_at 9 (codes "helper")) one_key (codes "src/b.rs") (codes "rust")
      (imports_for_file two_files (codes "src/b.rs"))

resolve_ref-IsResolved_example : IsResolved two_files (codes "helper") (
    resolve_ref alphanumeric two_files packages
      (codes "src/b.rs")
      (codes "rust")
      (imports_for_file two_files (codes "src/b.rs"))
      (call_at 1 (codes "helper")))
resolve_ref-IsResolved_example =
    resolve_ref-IsResolved alphanumeric two_files packages (codes "src/b.rs") (codes "rust")
      (imports_for_file two_files (codes "src/b.rs")) (call_at 1 (codes "helper"))

is_module_symbol-eq_example :
    is_module_symbol (codes "a::b::c") (codes "a::b") (codes "c")
    ≡ (codes "a::b::c" == join_module_symbol (codes "a::b") (codes "c"))
is_module_symbol-eq_example = is_module_symbol-eq (codes "a::b::c") (codes "a::b") (codes "c")

is_module_suffix-eq_example :
    is_module_suffix (codes "a::b::c") (codes "b::c")
    ≡ ends_with (codes "::" ++ codes "b::c") (codes "a::b::c")
is_module_suffix-eq_example = is_module_suffix-eq (codes "a::b::c") (codes "b::c")

abbrev stale_row : ℕ → Text → RefRow
stale_row id file = record {
  id = id;
  from_file = file;
  from_span_start = 1;
  from_span_end = 7;
  target_name = codes "helper";
  target_qualified = none;
  target_symbol_hint = none;
  kind = codes "call";
  confidence = codes "fuzzy_name";
  extracted_qualified = some (codes "helper");
  unresolved_receiver = none;
  spelled_path = false;
}

abbrev stored : List RefRow
stored = stale_row 1 (codes "src/b.rs") ∷ stale_row 2 (codes "src/a.rs") ∷ []

abbrev after_refresh : List RefRow
after_refresh =
    record (stale_row 1 (codes "src/b.rs")) {
      target_qualified = some (codes "a::helper");
      target_symbol_hint = some 1;
      confidence = codes "import_resolved";
    }
    ∷ stale_row 2 (codes "src/a.rs")
    ∷ []

-- `src/a.rs` was rewritten by the sync, so that only the ref of `src/b.rs` is resolved again.
refreshed_once :
    refresh_all_refs alphanumeric two_files packages (codes "src/a.rs" ∷ []) stored
    ≡ ok (after_refresh, 1)
unfolding refresh_all_refs resolve_file resolve_ref set_resolution
refreshed_once = refl

ids_differ : (file other : Text) → (stale_row 1 file).id ≢ (stale_row 2 other).id
ids_differ file other e = omega arith

stored-HasUniqueRows : HasUniqueRows stored
stored-HasUniqueRows _ _ (head ea) (head eb) same = ea ∙ sym eb
stored-HasUniqueRows a b (head ea) (tail (head eb)) same = absurd (
    ids_differ (codes "src/b.rs") (codes "src/a.rs")
      (sym (ap (λ z. z.id) ea) ∙ (same ∙ ap (λ z. z.id) eb)))
stored-HasUniqueRows a b (tail (head ea)) (head eb) same = absurd (
    ids_differ (codes "src/b.rs") (codes "src/a.rs")
      (sym (sym (ap (λ z. z.id) ea) ∙ (same ∙ ap (λ z. z.id) eb))))
stored-HasUniqueRows _ _ (tail (head ea)) (tail (head eb)) same = ea ∙ sym eb
stored-HasUniqueRows a b (head ea) (tail (tail none_left)) same = elim none_left [ ]
stored-HasUniqueRows a b (tail (head ea)) (tail (tail none_left)) same = elim none_left [ ]
stored-HasUniqueRows a b (tail (tail none_left)) mb same = elim none_left [ ]

stored-HasFiles : HasFiles two_files stored
unfolding file_language
stored-HasFiles row (head e) = (codes "rust", ap (λ z. file_language two_files z.from_file) e)
stored-HasFiles row (tail (head e)) =
    (codes "rust", ap (λ z. file_language two_files z.from_file) e)
stored-HasFiles row (tail (tail none_left)) = elim none_left [ ]

refresh_all_refs-eq_example :
    (n : ℕ) × (refresh_all_refs alphanumeric two_files packages (codes "src/a.rs" ∷ []) stored
      ≡ ok (
        map
            (λ row.
              if contains (codes "src/a.rs" ∷ []) row.from_file
              then row
              else refreshed alphanumeric two_files packages row)
            stored,
        n,
      ))
refresh_all_refs-eq_example =
    refresh_all_refs-eq alphanumeric two_files packages (codes "src/a.rs" ∷ []) stored
      stored-HasUniqueRows stored-HasFiles

refresh_all_refs-idempotent_example :
    (m : ℕ) × (refresh_all_refs alphanumeric two_files packages
        (codes "src/a.rs" ∷ [])
        after_refresh
      ≡ ok (after_refresh, m))
refresh_all_refs-idempotent_example =
    refresh_all_refs-idempotent alphanumeric two_files packages (codes "src/a.rs" ∷ []) stored
      after_refresh 1 stored-HasUniqueRows stored-HasFiles refreshed_once

-- `args.entry()` beside `fn entry`
abbrev receiver_call : RawRef
receiver_call = record (call_at 3 (codes "entry")) {
  target_qualified = none;
  unresolved_receiver = some (codes "args");
}

resolve_ref-IsImportedOrFuzzy_example :
    IsImportedOrFuzzy
      (resolve_import alphanumeric two_files
        (codes "src/b.rs")
        (codes "rust")
        (imports_for_file two_files (codes "src/b.rs"))
        receiver_call)
      (resolve_ref alphanumeric two_files packages
        (codes "src/b.rs")
        (codes "rust")
        (imports_for_file two_files (codes "src/b.rs"))
        receiver_call)
resolve_ref-IsImportedOrFuzzy_example =
    resolve_ref-IsImportedOrFuzzy alphanumeric two_files packages (codes "src/b.rs") (codes "rust")
      (imports_for_file two_files (codes "src/b.rs")) receiver_call refl refl

receiver_stays_fuzzy :
    resolve_file alphanumeric two_files packages (codes "src/b.rs") (receiver_call ∷ [])
    ≡ ok (fuzzy ∷ [])
unfolding resolve_file resolve_ref
receiver_stays_fuzzy = refl
