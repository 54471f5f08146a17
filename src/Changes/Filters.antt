-- ===== src/Changes/Filters.antt =====
-- crates/orbit-graph-changes/src/filters.rs: the filters of a response, and the log of what they
-- removed. An explanation is a constant sentence for each reason and is left out.
pub mod Log
pub mod Terms
use Prim.Native.Nat.{compare}
use mathlib.Core.Option
use orbit_graph.Common.{
  ℕ, suc, ◌+◌, Bool, true, false, not, ◌&&◌, ◌||◌, List, [], ◌∷◌, ◌++◌, Option, none, some, ◌==◌,
  nat_eq, list_eq, ltb, leb, if◌then◌else◌, map, filter, any, length, is_empty, Eq, contains,
}
use orbit_graph.Common.Sort.{sort_by}
use orbit_graph.Common.Text.{
  Text, codes, split, trim, is_whitespace, trim_end_matches, starts_with, rsplit_once, is_some,
}

abbrev pub filtered_example_cap : ℕ
filtered_example_cap = 5

pub data FilterReason : Type 0 where
  confidence language change_kind scope unindexed : FilterReason

-- the place of a reason in its derived order
abbrev pub reason_rank : FilterReason → ℕ
reason_rank confidence = 0
reason_rank language = 1
reason_rank change_kind = 2
reason_rank scope = 3
reason_rank unindexed = 4

unfoldable pub label : FilterReason → Text
label confidence = codes "confidence"
label language = codes "language"
label change_kind = codes "change_kind"
label scope = codes "scope"
label unindexed = codes "unindexed"

unfoldable pub same_reason : FilterReason → FilterReason → Bool
same_reason a b = reason_rank a == reason_rank b

pub record Entry : Type 0 where
  pub reason : FilterReason
  pub count : ℕ
  pub examples : List Text

abbrev pub FilterLog : Type 0
FilterLog = List Entry

-- what `record` does to the entry of its reason
unfoldable pub with_example : Entry → Text → Entry
with_example entry example = record entry {
  count = suc entry.count;
  examples =
      if ltb (length entry.examples) filtered_example_cap
      then entry.examples ++ example ∷ []
      else entry.examples;
}

-- the first entry of the reason is changed, or a new entry is pushed
unfoldable pub change_entry : FilterReason → (Entry → Entry) → Entry → FilterLog → FilterLog
unfolding same_reason
change_entry reason change fresh [] = fresh ∷ []
change_entry reason change fresh (entry ∷ entries) =
    let later = change_entry reason change fresh entries in
    if same_reason entry.reason reason then change entry ∷ entries else entry ∷ later

-- `FilterLog::record`
unfoldable pub record_example : FilterLog → FilterReason → Text → FilterLog
unfolding with_example change_entry
record_example log reason example =
    change_entry reason (λ entry. with_example entry example)
      (record { reason = reason; count = 1; examples = example ∷ [] }) log

-- `FilterLog::record_count`
unfoldable pub record_count : FilterLog → FilterReason → ℕ → FilterLog
unfolding change_entry
record_count log reason count =
    let changed =
      change_entry reason (λ entry. record entry { count = entry.count + count })
        (record { reason = reason; count = count; examples = [] }) log in
    if count == 0 then log else changed

pub record FilteredOut : Type 0 where
  pub reason : Text
  pub count : ℕ
  pub examples : List Text

unfoldable pub into_filtered_out : FilterLog → List FilteredOut
unfolding sort_by label
into_filtered_out log =
    map
      (λ entry. record {
        reason = label entry.reason;
        count = entry.count;
        examples = entry.examples;
      })
      (sort_by (λ a b. compare (reason_rank a.reason) (reason_rank b.reason)) log)

pub record FilterSet : Type 0 where
  pub language : Option Text
  pub change_kind : List Text
  pub scope : Option Text

abbrev ascii_lower : ℕ → ℕ
ascii_lower c = if leb b'A' c && leb c b'Z' then c + 32 else c

-- `str::eq_ignore_ascii_case`
pub same_ignoring_case : Text → Text → Bool
same_ignoring_case a b = map ascii_lower a == map ascii_lower b

-- `trim_start_matches("./")`
pub trim_dot_slashes : Text → Text
trim_dot_slashes [] = []
trim_dot_slashes (c ∷ []) = c ∷ []
trim_dot_slashes (c ∷ d ∷ s) =
    let trimmed = trim_dot_slashes s in if c == b'.' && d == b'/' then trimmed else c ∷ d ∷ s

unfoldable pub scope_admits : FilterSet → Text → Bool
unfolding trim_dot_slashes trim_end_matches starts_with
scope_admits filters path = elim filters.scope [
  | none ↦ true
  | some raw ↦
      let prefix = trim_end_matches (λ c. c == b'/') (trim_dot_slashes raw) in
      is_empty prefix || path == prefix || starts_with (prefix ++ codes "/") path
]

unfoldable pub change_kind_admits : FilterSet → Option Text → Bool
unfolding same_ignoring_case
change_kind_admits filters status = is_empty filters.change_kind || (elim status [
  | none ↦ false
  | some s ↦ any (λ kind. same_ignoring_case kind s) filters.change_kind
])

abbrev extensions : List (List Text × Text)
extensions =
    (codes "rs" ∷ [], codes "rust")
    ∷ (codes "c" ∷ codes "h" ∷ [], codes "c")
    ∷ (codes "cs" ∷ [], codes "csharp")
    ∷ (codes "go" ∷ [], codes "go")
    ∷ (codes "java" ∷ [], codes "java")
    ∷ (codes "js" ∷ codes "jsx" ∷ codes "mjs" ∷ codes "cjs" ∷ [], codes "javascript")
    ∷ (codes "ts" ∷ codes "tsx" ∷ [], codes "typescript")
    ∷ (codes "kt" ∷ codes "kts" ∷ [], codes "kotlin")
    ∷ (codes "py" ∷ [], codes "python")
    ∷ (codes "rb" ∷ [], codes "ruby")
    ∷ (codes "md" ∷ codes "markdown" ∷ [], codes "markdown")
    ∷ (codes "json" ∷ codes "yaml" ∷ codes "yml" ∷ codes "toml" ∷ codes "env" ∷ [], codes "config")
    ∷ []

abbrev language_in : List (List Text × Text) → Text → Option Text
language_in [] extension = none
language_in ((names, name) ∷ table) extension =
    let later = language_in table extension in if contains names extension then some name else later

unfoldable pub language_of : Text → Option Text
unfolding rsplit_once Option.bind
language_of path =
    let file : Text = elim (rsplit_once b'/' path) [ none ↦ path | some p ↦ p.1 ] in
    Option.bind (rsplit_once b'.' file) (λ p. language_in extensions (map ascii_lower p.1))

unfoldable pub language_admits : FilterSet → Text → Bool
unfolding language_of same_ignoring_case
language_admits filters path = elim filters.language [
  | none ↦ true
  | some requested ↦ elim (language_of path) [
    | none ↦ false
    | some found ↦ same_ignoring_case found requested
  ]
]

unfoldable pub split_terms : Text → List Text
unfolding split trim is_whitespace
split_terms raw = filter (λ term. not (is_empty term)) (map trim (split b',' raw))
