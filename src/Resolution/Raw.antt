-- ===== src/Resolution/Raw.antt =====
-- `RawRef` of crates/orbit-graph-extract/src/extracted.rs, and the records and constants of
-- crates/orbit-graph/src/sync/pass2.rs.
use orbit_graph.Common.{ℕ, Bool, Option, some, none}
use orbit_graph.Common.Text.{Text, codes}

pub record RawRef : Type 0 where
  pub from_file : Text
  pub from_span_start : ℕ
  pub from_span_end : ℕ
  pub target_name : Text
  pub target_qualified : Option Text
  pub kind : Text
  pub confidence : Text
  pub unresolved_receiver : Option Text
  pub spelled_path : Bool

abbrev pub confidence_exact : Text
confidence_exact = codes "exact"

abbrev pub confidence_import_resolved : Text
confidence_import_resolved = codes "import_resolved"

abbrev pub confidence_same_module : Text
confidence_same_module = codes "same_module"

abbrev pub confidence_fuzzy_name : Text
confidence_fuzzy_name = codes "fuzzy_name"

abbrev pub runtime_invocation_kind : Text
runtime_invocation_kind = codes "runtime_invocation"

pub record SymbolCandidate : Type 0 where
  pub id : ℕ
  pub file_path : Text
  pub name : Text
  pub qualified : Text

pub record NamedCandidate : Type 0 where
  pub symbol : SymbolCandidate
  pub language : Text
  pub normalized_qualified : Text
  pub own_prefix : Option Text

pub record ImportCandidate : Type 0 where
  pub target_path : Text
  pub target_symbol : Option Text

pub record ReexportCandidate : Type 0 where
  pub from_file : Text
  pub target_path : Text
  pub target_symbol : Option Text
  pub source_symbol : Option Text
  pub reexport_module : Text

pub data ImportResolution : Type 0 where
  unique : SymbolCandidate → ImportResolution
  ambiguous no_match : ImportResolution

pub record ResolvedRef : Type 0 where
  pub target_qualified : Option Text
  pub target_symbol_hint : Option ℕ
  pub confidence : Text

abbrev pub fuzzy : ResolvedRef
fuzzy = record {
  target_qualified = none;
  target_symbol_hint = none;
  confidence = confidence_fuzzy_name;
}

-- `ResolvedRef::candidate`
abbrev pub candidate : SymbolCandidate → Text → ResolvedRef
candidate s confidence = record {
  target_qualified = some s.qualified;
  target_symbol_hint = some s.id;
  confidence = confidence;
}
