-- ===== src/Impact/Types.antt =====
-- The records of crates/orbit-graph/src/query/impact.rs, with the result types that it fills from
-- crates/orbit-graph/src/query/types.rs.
use orbit_graph.Common.{
  ℕ, Bool, true, false, List, Option, ◌≡◌, ◌↔◌, Eq, ◌==◌, eq_iff, nat_eq, list_eq, arith,
}
use orbit_graph.Common.Text.{Text}
use orbit_graph.Index.Values.{RefConfidence, RefKind}

pub data ImpactDirection : Type 0 where
  inbound outbound both : ImpactDirection

-- `ImpactOrigin`: an indexed symbol, or a call site that is put down to its file
pub data ImpactOrigin : Type 0 where
  symbol_origin file_origin : ImpactOrigin

pub record ImpactSymbol : Type 0 where
  pub id : ℕ
  pub file_path : Text
  pub qualified : Text
  pub name : Text
  pub span_start : ℕ
  pub span_end : ℕ
  pub kind : Text

pub data NodeKey : Type 0 where
  symbol_key : ℕ → NodeKey
  file_key : Text → NodeKey
  unresolved_key : Text → NodeKey

abbrev pub node_key_beq : NodeKey → NodeKey → Bool
node_key_beq (symbol_key a) (symbol_key b) = a == b
node_key_beq (file_key a) (file_key b) = a == b
node_key_beq (unresolved_key a) (unresolved_key b) = a == b
node_key_beq _ _ = false

pub node_key_beq_iff : (a b : NodeKey) → (node_key_beq a b ≡ true) ↔ (a ≡ b)
node_key_beq_iff (symbol_key a) (symbol_key b) = ground (arith, eq_iff a b)
node_key_beq_iff (file_key a) (file_key b) = ground (arith, eq_iff a b)
node_key_beq_iff (unresolved_key a) (unresolved_key b) = ground (arith, eq_iff a b)
node_key_beq_iff _ _ = ground arith

instance abbrev pub node_key_eq : Eq NodeKey
node_key_eq = record { equal = node_key_beq; equal_iff = node_key_beq_iff }

pub record ImpactNeighbor : Type 0 where
  pub qualified_name : Text
  pub symbol_id : Option ℕ
  pub edge_kind : RefKind
  pub origin : ImpactOrigin
  pub site_offset : Option ℕ

pub record RawNeighborRow : Type 0 where
  pub qualified_name : Option Text
  pub symbol_id : Option ℕ
  pub kind : Text
  pub confidence : Text
  pub origin : ImpactOrigin
  pub site_offset : Option ℕ

pub record NodeLocation : Type 0 where
  pub selector : Option Text
  pub file : Option Text
  pub line : Option ℕ

pub record ImpactEntry : Type 0 where
  pub qualified_name : Text
  pub origin : ImpactOrigin
  pub distance : ℕ
  pub edge_kind : RefKind
  pub location : NodeLocation

pub record ImpactTraversal : Type 0 where
  pub touched : List ImpactEntry
  pub truncated : Bool

-- The note of `ImpactFallback` is its two values: the floor and the count.
pub record ImpactFallback : Type 0 where
  pub confidence : RefConfidence
  pub touched : List ImpactEntry
  pub truncated : Bool
  pub visited_nodes : ℕ
  pub note : RefConfidence × ℕ

pub record ImpactResult : Type 0 where
  pub direction : ImpactDirection
  pub touched : List ImpactEntry
  pub truncated : Bool
  pub total : Option ℕ
  pub visited_nodes : ℕ
  pub fallback_used : Bool
  pub fallback : Option ImpactFallback
