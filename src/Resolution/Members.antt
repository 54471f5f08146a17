-- ===== src/Resolution/Members.antt =====
-- The functions of crates/orbit-graph/src/sync/pass2/type_member.rs that read a qualified name as a
-- member of a type. `char::is_alphanumeric` reads the tables of Unicode: a parameter.
use mathlib.Core.Option
use orbit_graph.Common.{
  ℕ, ◌+◌, ◌-◌, Bool, true, false, not, ◌&&◌, ◌||◌, [], ◌∷◌, ◌++◌, Option, none, some, ◌==◌, nat_eq,
  list_eq, option_eq, leb, if◌then◌else◌, all,
}
use orbit_graph.Common.Text.{
  Text, codes, strip_prefix, strip_suffix, starts_with, ends_with, split_once, split_once_text,
  rsplit_once_text, contains_text, trim, is_whitespace, is_some,
}
use orbit_graph.Resolution.Raw.{RawRef}
use orbit_graph.Resolution.Names.{normalize_module_path, replace}

-- The text before the `>` that closes a `<`, and the text after it.
unfoldable pub matching_angle : ℕ → Text → Option (Text × Text)
matching_angle depth [] = none
matching_angle depth (c ∷ s) =
    let deeper = matching_angle (depth + 1) s in
    let outer = matching_angle (depth - 1) s in
    let level = matching_angle depth s in
    let kept = Option.map {A = Text × Text} (λ p. (c ∷ p.0, p.1)) in
    if c == b'<'
    then kept deeper
    else if c == b'>'
    then (if depth == 1 then some ([], s) else kept outer)
    else kept level

-- `rsplit("::").next()` and `split("::").next()`
unfoldable pub last_segment : Text → Text
unfolding rsplit_once_text
last_segment path = elim (rsplit_once_text (codes "::") path) [
  | none ↦ path
  | some (_, name) ↦ name
]

unfoldable pub first_segment : Text → Text
unfolding split_once_text
first_segment path = elim (split_once_text (codes "::") path) [
  | none ↦ path
  | some (name, _) ↦ name
]

unfoldable pub strip_generics : Text → Text
unfolding split_once trim is_whitespace strip_suffix
strip_generics text =
    let plain = trim (elim (split_once b'<' text) [ none ↦ text | some (before, _) ↦ before ]) in
    elim (strip_suffix (codes "::") plain) [ none ↦ plain | some shorter ↦ shorter ]

abbrev is_ascii_uppercase : ℕ → Bool
is_ascii_uppercase c = leb b'A' c && leb c b'Z'

abbrev is_ascii_lowercase : ℕ → Bool
is_ascii_lowercase c = leb b'a' c && leb c b'z'

pub record MemberTarget : Type 0 where
  pub type_path : Text
  pub type_name : Text
  pub trait_name : Option Text
  pub bracketed : Bool
  pub trait_object : Bool
  pub member : Text

-- The Self type, the trait and the member of a name, and whether it was bracketed.
pub record Parts : Type 0 where
  pub self_type : Text
  pub trait_path : Option Text
  pub member : Text
  pub bracketed : Bool

abbrev with_trait : Text → Text → Option (Text × Text) → Parts
with_trait before member none = record {
  self_type = before;
  trait_path = none;
  member = member;
  bracketed = true;
}
with_trait before member (some (self_type, trait_path)) = record {
  self_type = self_type;
  trait_path = some trait_path;
  member = member;
  bracketed = true;
}

pub bracketed_parts : Text → Option Parts
unfolding matching_angle Option.bind strip_prefix split_once_text trim is_whitespace
bracketed_parts inner = Option.bind (matching_angle 1 inner) (λ angle.
    Option.map
      (λ member.
        let parts = with_trait angle.0 member (split_once_text (codes " as ") angle.0) in
        record parts {
          self_type = trim parts.self_type;
          trait_path = Option.map trim parts.trait_path;
        })
      (strip_prefix (codes "::") angle.1))

pub parts_of : Text → Option Parts
unfolding strip_prefix bracketed_parts rsplit_once_text
parts_of qualified = elim (strip_prefix (codes "<") qualified) [
  | some inner ↦ bracketed_parts inner
  | none ↦
      Option.map {A = Text × Text}
        (λ p. record { self_type = p.0; trait_path = none; member = p.1; bracketed = false })
        (rsplit_once_text (codes "::") qualified)
]

-- the Self type without `dyn `, and whether it had it
pub object_type : Text → Text × Bool
unfolding strip_prefix trim is_whitespace
object_type self_type = elim (strip_prefix (codes "dyn ") self_type) [
  | some object ↦ (trim object, true)
  | none ↦ (self_type, false)
]

pub type_parts : Text → Text × Text
unfolding rsplit_once_text
type_parts self_type = elim (rsplit_once_text (codes "::") self_type) [
  | some (path, name) ↦ (path, name)
  | none ↦ ([], self_type)
]

pub starts_uppercase : Text → Bool
starts_uppercase [] = false
starts_uppercase (c ∷ s) = is_ascii_uppercase c

-- `impl_type_and_trait` and `impl_trait_name`
unfoldable pub impl_type_and_trait : Text → Option (Text × Text)
unfolding strip_prefix strip_suffix Option.bind split_once_text last_segment strip_generics trim
    is_whitespace
impl_type_and_trait qualified = Option.bind (strip_prefix (codes "<") qualified) (λ open_ended.
    Option.bind (strip_suffix (codes ">") open_ended) (λ inner.
      Option.map {A = Text × Text}
        (λ p. (last_segment (strip_generics (trim p.0)), last_segment (strip_generics (trim p.1))))
        (split_once_text (codes " as ") inner)))

unfoldable pub impl_trait_name : Text → Option Text
unfolding impl_type_and_trait
impl_trait_name qualified = Option.map {A = Text × Text} (λ p. p.1) (impl_type_and_trait qualified)

unfoldable pub prefix_within_module : Text → Text → Bool
unfolding replace ends_with starts_with contains_text
prefix_within_module prefix qualifier =
    let plain = replace b'-' (codes "_") prefix in
    plain == qualifier
    || ends_with (codes "::" ++ qualifier) plain
    || starts_with (qualifier ++ codes "::") plain
    || contains_text (codes "::" ++ (qualifier ++ codes "::")) plain

pub data Tier : Type 0 where
  inherent trait_impl trait_declaration : Tier

-- the derived order of `Tier`
abbrev pub tier_rank : Tier → ℕ
tier_rank inherent = 0
tier_rank trait_impl = 1
tier_rank trait_declaration = 2

abbrev tier_of_name : Bool → Option Text → Tier
tier_of_name true none = inherent
tier_of_name true (some trait_name) = trait_impl
tier_of_name false trait_name = trait_declaration

pub wrong_trait : Option Text → Option Text → Tier → Bool
wrong_trait (some wanted) (some found) tier = not (wanted == found)
wrong_trait (some wanted) none tier = tier_rank tier == 0
wrong_trait none found tier = false

-- `MemberTarget::tier_of`, of a target and a candidate
unfoldable pub tier_of : MemberTarget → MemberTarget → Option Tier
unfolding wrong_trait
tier_of target found =
    let tier = tier_of_name found.bracketed found.trait_name in
    if not (found.member == target.member) || not (found.type_name == target.type_name)
    then none
    else if target.trait_object && not (tier_rank tier == 2) && not found.trait_object
    then none
    else if wrong_trait target.trait_name found.trait_name tier
    then none
    else some tier

module _ (is_alphanumeric : ℕ → Bool) where
  pub is_function_name : Text → Bool
  is_function_name [] = false
  is_function_name (c ∷ s) =
      (is_ascii_lowercase c || c == b'_') && all (λ d. is_alphanumeric d || d == b'_') (c ∷ s)

  pub target_of : Parts → Option MemberTarget
  unfolding object_type type_parts strip_generics starts_uppercase last_segment is_function_name
      contains_text
  target_of parts =
      let object = object_type parts.self_type in
      let named = type_parts (strip_generics object.0) in
      if contains_text (codes "::") parts.member || not (is_function_name parts.member)
      then none
      else if named.1 == codes "Self" || not (starts_uppercase named.1)
      then none
      else some (record {
        type_path = named.0;
        type_name = named.1;
        trait_name = Option.map (λ path. last_segment (strip_generics path)) parts.trait_path;
        bracketed = parts.bracketed;
        trait_object = object.1;
        member = parts.member;
      })

  -- `MemberTarget::parse`
  unfoldable pub parse : Text → Option MemberTarget
  unfolding parts_of target_of Option.bind
  parse qualified = Option.bind (parts_of qualified) target_of

  -- `MemberTarget::of_ref`
  unfoldable pub of_ref : Text → RawRef → Option MemberTarget
  unfolding parse ends_with Option.bind
  of_ref from_file raw_ref =
      if not (ends_with (codes ".rs") from_file) || raw_ref.kind == codes "use"
      then none
      else Option.bind (Option.bind raw_ref.target_qualified parse)
          (λ target. if target.member == raw_ref.target_name then some target else none)

  unfoldable pub is_member_symbol : Text → Bool
  unfolding parse
  is_member_symbol qualified = is_some (parse qualified)

  -- a written path that is no member of a type
  pub spells_free_item : Text → Bool
  unfolding starts_with is_member_symbol
  spells_free_item target =
      not (starts_with (codes "<") target)
      && not (starts_with (codes "Self::") target)
      && not (is_member_symbol target)

  abbrev is_some_and : (Text → Bool) → Option Text → Bool
  is_some_and p none = false
  is_some_and p (some t) = p t

  unfoldable pub names_free_item : Text → RawRef → Bool
  unfolding ends_with spells_free_item
  names_free_item from_file raw_ref =
      if not (ends_with (codes ".rs") from_file)
        || raw_ref.kind == codes "use"
        || is_some raw_ref.unresolved_receiver
      then false
      else is_some_and spells_free_item raw_ref.target_qualified

  -- the qualifier of a path, unless it is rooted in the crate
  pub outside_crate : Text → Option Text
  unfolding first_segment replace
  outside_crate qualifier =
      let root = first_segment qualifier in
      if root == codes "crate" || root == codes "self" || root == codes "super"
      then none
      else some (replace b'-' (codes "_") qualifier)

  pub qualifier_of : Text → Option Text
  unfolding normalize_module_path rsplit_once_text outside_crate Option.bind
  qualifier_of target =
      Option.bind (rsplit_once_text (codes "::") (normalize_module_path target))
        (λ p. outside_crate p.0)

  unfoldable pub call_module_qualifier : Text → RawRef → Option Text
  unfolding names_free_item qualifier_of Option.bind
  call_module_qualifier from_file raw_ref =
      if not raw_ref.spelled_path || not (names_free_item from_file raw_ref)
      then none
      else Option.bind raw_ref.target_qualified qualifier_of
