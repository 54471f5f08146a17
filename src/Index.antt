-- ===== src/Index.antt =====
-- The SQLite index: crates/orbit-graph/src/store/schema.rs. A table is the list of its rows, a row
-- a record of the columns that the modelled code reads; `Values` has the enumerations that are
-- stored as texts. A row id, a span offset and a symbol hint are natural numbers.
pub mod Values
use orbit_graph.Common.{ℕ, Bool, List, Option}
use orbit_graph.Common.Text.{Text}

-- CREATE TABLE files
pub record FileRow : Type 0 where
  pub path : Text
  pub lang : Text

-- CREATE TABLE symbols
pub record SymbolRow : Type 0 where
  pub id : ℕ
  pub file_path : Text
  pub name : Text
  pub qualified : Text
  pub kind : Text
  pub span_start : ℕ
  pub span_end : ℕ

-- CREATE TABLE refs
pub record RefRow : Type 0 where
  pub id : ℕ
  pub from_file : Text
  pub from_span_start : ℕ
  pub from_span_end : ℕ
  pub target_name : Text
  pub target_qualified : Option Text
  pub target_symbol_hint : Option ℕ
  pub kind : Text
  pub confidence : Text
  pub extracted_qualified : Option Text
  pub unresolved_receiver : Option Text
  pub spelled_path : Bool

-- CREATE TABLE relations
pub record RelationRow : Type 0 where
  pub id : ℕ
  pub from_qualified : Text
  pub to_qualified : Text
  pub kind : Text
  pub def_file : Text
  pub def_span_start : ℕ
  pub confidence : Text

-- CREATE TABLE imports
pub record ImportRow : Type 0 where
  pub from_file : Text
  pub target_path : Text
  pub target_symbol : Option Text
  pub source_symbol : Option Text
  pub reexport_module : Option Text

-- CREATE TABLE commands
pub record CommandRow : Type 0 where
  pub name : Text
  pub handler_symbol : Option ℕ

pub record Index : Type 0 where
  pub files : List FileRow
  pub symbols : List SymbolRow
  pub refs : List RefRow
  pub relations : List RelationRow
  pub imports : List ImportRow
  pub commands : List CommandRow
