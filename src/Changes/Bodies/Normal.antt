-- ===== src/Changes/Bodies/Normal.antt =====
-- `normalized_body_hash` of crates/orbit-graph-changes/src/changes.rs against a reading of the source
-- word by word.
use orbit_graph.Common.{
  ℕ, ◌-◌, true, false, not, ◌&&◌, [], ◌∷◌, ◌++◌, ◌||◌, Option, none, some, ◌==◌, nat_eq, list_eq,
  eq_iff, if◌then◌else◌, length, is_empty, append_assoc, append-nil, ◌≡◌, refl, sym, ap, ◌∙◌, subst,
  arith, inl, inr, Bool-cases, All,
}
use orbit_graph.Common.Text.{Text, codes, strip_prefix}
use orbit_graph.Changes.Bodies.{
  Bytes, SymbolSource, is_ascii_whitespace, identifier_byte, continues, head_byte,
  replaces_identifier, kept_byte, normalize_from, body_hash, normalized_body_hash, as_bytes,
}

-- A word is a longest run of identifier bytes; what is written for one.
abbrev pub written : Bytes → Bytes → Bytes
written identifier word = if word == identifier then codes "<identifier>" else word

-- The source read word by word, where `word` is what is read of the word at hand: a word that is
-- the identifier becomes a placeholder, any other stays, and of the bytes between the words only
-- the white space goes.
unfoldable pub by_words : Bytes → Bytes → Bytes → Bytes
unfolding identifier_byte kept_byte
by_words identifier word [] = written identifier word
by_words identifier word (b ∷ bytes) =
    let longer = by_words identifier (word ++ b ∷ []) bytes in
    let next = by_words identifier [] bytes in
    if identifier_byte b then longer else written identifier word ++ (kept_byte b ++ next)

abbrev IsWord : Bytes → Type 0
IsWord = All (λ b. identifier_byte b ≡ true)

-- the word at the front, and what follows it
run : Bytes → Bytes
unfolding identifier_byte
run [] = []
run (b ∷ bytes) = let rest = run bytes in if identifier_byte b then b ∷ rest else []

after_run : Bytes → Bytes
unfolding identifier_byte
after_run [] = []
after_run (b ∷ bytes) = let rest = after_run bytes in if identifier_byte b then rest else b ∷ bytes

run-word : (b : ℕ) (bytes : Bytes) → identifier_byte b ≡ true → run (b ∷ bytes) ≡ b ∷ run bytes
unfolding run
run-word b bytes i = rw i refl

kept_identifier_byte : (b : ℕ) → identifier_byte b ≡ true → kept_byte b ≡ b ∷ []
unfolding identifier_byte kept_byte is_ascii_whitespace
kept_identifier_byte b h = ground arith

-- an identifier is found where the word at the front is the identifier
replaces_identifier-eq :
    (identifier : Bytes)
    → IsWord identifier
    → (before : Option ℕ) (bytes : Bytes)
    → replaces_identifier identifier before bytes
      ≡ (not (continues before) && run bytes == identifier)
unfolding replaces_identifier strip_prefix run continues head_byte
replaces_identifier-eq [] is_word before [] = ground arith
replaces_identifier-eq [] is_word before (b ∷ bytes) = elim (Bool-cases (identifier_byte b)) [
  | inl i ↦ rw i (ground arith)
  | inr o ↦ rw o (ground arith)
]
replaces_identifier-eq (c ∷ identifier) is_word before [] = ground arith
replaces_identifier-eq (c ∷ identifier) (i, is_word) before (b ∷ bytes) =
    let ih = replaces_identifier-eq identifier is_word before bytes in
    elim (Bool-cases (identifier_byte b)) [
      | inl j ↦ rw j (ground (arith, ih))
      | inr o ↦ rw o (ground (arith, ih))
    ]

not_empty : (word : Bytes) → is_empty word ≡ false → ([] == word) ≡ false
not_empty [] h = cc
not_empty (b ∷ word) h = refl

module _ (identifier : Bytes) (is_word : IsWord identifier)
    (filled : is_empty identifier ≡ false) where
  empty_word : ([] == identifier) ≡ false
  empty_word = not_empty identifier filled

  written-empty : written identifier [] ≡ []
  written-empty = rw empty_word refl

  abbrev ends : Bytes → Bytes
  ends [] = []
  ends (b ∷ bytes) = kept_byte b ++ by_words identifier [] bytes

  abbrev loop_ends : Bytes → Bytes
  loop_ends [] = []
  loop_ends (b ∷ bytes) = kept_byte b ++ normalize_from identifier (some b) 0 bytes

  by_words-run :
      (word bytes : Bytes)
      → by_words identifier word bytes
        ≡ written identifier (word ++ run bytes) ++ ends (after_run bytes)
  unfolding by_words run after_run
  by_words-run word [] =
      ap (written identifier) (sym (append-nil word))
      ∙ sym (append-nil (written identifier (word ++ [])))
  by_words-run word (b ∷ bytes) = elim (Bool-cases (identifier_byte b)) [
    | inl i ↦ rw i (
        by_words-run (word ++ b ∷ []) bytes
        ∙ ap (λ w. written identifier w ++ ends (after_run bytes))
            (append_assoc word (b ∷ []) (run bytes)))
    | inr o ↦ rw o (
        ap (λ w. written identifier w ++ (kept_byte b ++ by_words identifier [] bytes))
          (sym (append-nil word)))
  ]

  -- an identifier does not begin at another byte
  not_replaced :
      (before : Option ℕ) (b : ℕ) (bytes : Bytes)
      → identifier_byte b ≡ false
      → replaces_identifier identifier before (b ∷ bytes) ≡ false
  unfolding run
  not_replaced before b bytes o =
      rw (replaces_identifier-eq identifier is_word before (b ∷ bytes), o, empty_word)
        (ground arith)

  -- nor within a word
  not_within :
      (c : ℕ) (bytes : Bytes)
      → identifier_byte c ≡ true
      → replaces_identifier identifier (some c) bytes ≡ false
  unfolding continues
  not_within c bytes i = rw (replaces_identifier-eq identifier is_word (some c) bytes, i) refl

  normalize-end :
      (before : Option ℕ) (b : ℕ) (bytes : Bytes)
      → identifier_byte b ≡ false
      → normalize_from identifier before 0 (b ∷ bytes) ≡ loop_ends (b ∷ bytes)
  unfolding normalize_from
  normalize-end before b bytes o = rw (not_replaced before b bytes o) refl

  -- the rest of a word that is not replaced
  normalize-run :
      (c : ℕ) (bytes : Bytes)
      → identifier_byte c ≡ true
      → normalize_from identifier (some c) 0 bytes ≡ run bytes ++ loop_ends (after_run bytes)
  unfolding normalize_from run after_run
  normalize-run c [] i = refl
  normalize-run c (b ∷ bytes) i = elim (Bool-cases (identifier_byte b)) [
    | inl j ↦
        rw (j, not_within c (b ∷ bytes) i)
          (ap (λ w. w ++ normalize_from identifier (some b) 0 bytes) (kept_identifier_byte b j)
            ∙ ap (λ w. b ∷ w) (normalize-run b bytes j))
    | inr o ↦ rw o (normalize-end (some c) b bytes o)
  ]

  -- the rest of a word that is replaced
  normalize-passed :
      (c : ℕ) (bytes : Bytes)
      → normalize_from identifier (some c) (length (run bytes)) bytes ≡ loop_ends (after_run bytes)
  unfolding normalize_from run after_run
  normalize-passed c [] = refl
  normalize-passed c (b ∷ bytes) = elim (Bool-cases (identifier_byte b)) [
    | inl j ↦ rw j (normalize-passed b bytes)
    | inr o ↦ rw o (normalize-end (some c) b bytes o)
  ]

  -- a word from its first byte on
  normalize-word :
      (before : Option ℕ) (b : ℕ) (bytes : Bytes)
      → continues before ≡ false
      → identifier_byte b ≡ true
      → normalize_from identifier before 0 (b ∷ bytes)
        ≡ written identifier (b ∷ run bytes) ++ loop_ends (after_run bytes)
  unfolding normalize_from
  normalize-word before b bytes h i = elim (Bool-cases ((b ∷ run bytes) == identifier)) [
    | inl e ↦
        let same = (eq_iff (b ∷ run bytes) identifier).0 e in
        let passed : length identifier - 1 ≡ length (run bytes) =
          subst (λ w. length w - 1 ≡ length (run bytes)) same (omega arith) in
        rw (replaces_identifier-eq identifier is_word before (b ∷ bytes), h, run-word b bytes i, e)
          (ap (λ w. codes "<identifier>" ++ w)
            (ap (λ n. normalize_from identifier (some b) n bytes) passed
              ∙ normalize-passed b bytes))
    | inr e ↦
        rw (replaces_identifier-eq identifier is_word before (b ∷ bytes), h, run-word b bytes i, e)
          (ap (λ w. w ++ normalize_from identifier (some b) 0 bytes) (kept_identifier_byte b i)
            ∙ ap (λ w. b ∷ w) (normalize-run b bytes i))
  ]

  by_words-word :
      (b : ℕ) (bytes : Bytes)
      → identifier_byte b ≡ true
      → by_words identifier [] (b ∷ bytes)
        ≡ written identifier (b ∷ run bytes) ++ ends (after_run bytes)
  unfolding by_words
  by_words-word b bytes i = rw i (by_words-run (b ∷ []) bytes)

  by_words-end :
      (b : ℕ) (bytes : Bytes)
      → identifier_byte b ≡ false
      → by_words identifier [] (b ∷ bytes) ≡ ends (b ∷ bytes)
  unfolding by_words
  by_words-end b bytes o = rw o (ap (λ w. w ++ ends (b ∷ bytes)) written-empty)

  normalize-by_words :
      (bytes : Bytes)
      → ((before : Option ℕ)
          → continues before ≡ false
          → normalize_from identifier before 0 bytes ≡ by_words identifier [] bytes)
        × (loop_ends (after_run bytes) ≡ ends (after_run bytes))
  unfolding normalize_from by_words after_run continues
  normalize-by_words [] = (λ before h. sym written-empty, refl)
  normalize-by_words (b ∷ bytes) =
      let ih = normalize-by_words bytes in
      elim (Bool-cases (identifier_byte b)) [
        | inl i ↦ (
          λ before h.
              normalize-word before b bytes h i
              ∙ ap (λ w. written identifier (b ∷ run bytes) ++ w) ih.1
              ∙ sym (by_words-word b bytes i),
          rw i ih.1,
        )
        | inr o ↦ (
          λ before h.
              normalize-end before b bytes o
              ∙ ap (λ w. kept_byte b ++ w) (ih.0 (some b) o)
              ∙ sym (by_words-end b bytes o),
          rw o (ap (λ w. kept_byte b ++ w) (ih.0 (some b) o)),
        )
      ]

as_bytes-filled :
    (identifier : Text) → is_empty identifier ≡ false → is_empty (as_bytes identifier) ≡ false
unfolding as_bytes
as_bytes-filled [] h = cc
as_bytes-filled (c ∷ identifier) h = ground arith

-- For an identifier made of identifier bytes, `normalized_body_hash` returns nothing where the
-- source is truncated or the identifier is empty, and otherwise the hash and the bytes of a
-- reading word by word: each longest run of identifier bytes that is the identifier is written
-- as the placeholder, each other run as it is, and of the bytes between the runs all but the
-- white space.
pub normalized_body_hash_lem :
    (source : SymbolSource) (identifier : Text)
    → IsWord (as_bytes identifier)
    → let words = by_words (as_bytes identifier) [] source.bytes in
      normalized_body_hash source identifier
      ≡ (if source.truncated || is_empty identifier then none else some (body_hash words, words))
unfolding normalized_body_hash continues
normalized_body_hash_lem source identifier is_word = elim (Bool-cases (is_empty identifier)) [
  | inl empty ↦ rw empty (ground arith)
  | inr filled ↦
      rw
        ((normalize-by_words (as_bytes identifier) is_word (as_bytes-filled identifier filled)
            source.bytes).0
          none refl)
        refl
]
