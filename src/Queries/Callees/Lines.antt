-- ===== src/Queries/Callees/Lines.antt =====
-- `LineIndex` of crates/orbit-graph/src/query/callees.rs.
use orbit_graph.Common.{
  ℕ, zero, suc, Bool, true, List, [], ◌∷◌, ◌≡◌, refl, ap, ◌∙◌, ◌-◌, inl, inr, ◌==◌, nat_eq, length,
  filter, leb, if◌then◌else◌, arith, Bool-cases,
}

pub record LineIndex : Type 0 where
  pub byte_len : ℕ
  pub line_starts : List ℕ

-- `index + 1` for each line feed, the first byte at `index`
pub starts_after : ℕ → List ℕ → List ℕ
starts_after index [] = []
starts_after index (byte ∷ bytes) =
    let rest = starts_after (suc index) bytes in if byte == 10 then suc index ∷ rest else rest

-- `LineIndex::new`
unfoldable pub line_index : List ℕ → LineIndex
unfolding starts_after
line_index bytes = record { byte_len = length bytes; line_starts = 0 ∷ starts_after 0 bytes }

-- `partition_point`, for a slice whose elements that pass stand first
abbrev pub partition_point {ℓ} : {A : Type ℓ} → (A → Bool) → List A → ℕ
partition_point p [] = 0
partition_point p (x ∷ xs) = let rest = suc (partition_point p xs) in if p x then rest else 0

abbrev pub min : ℕ → ℕ → ℕ
min a b = if leb a b then a else b

unfoldable pub line_for : LineIndex → ℕ → ℕ
line_for lines byte_offset =
    partition_point (λ line_start. leb line_start (min byte_offset lines.byte_len))
      lines.line_starts

abbrev pub take {ℓ} : {A : Type ℓ} → ℕ → List A → List A
take zero xs = []
take (suc n) [] = []
take (suc n) (x ∷ xs) = x ∷ take n xs

-- the line feeds before an offset
abbrev pub line_feeds_before : ℕ → List ℕ → ℕ
line_feeds_before n bytes = length (filter (λ byte. byte == 10) (take n bytes))

line_feeds_before-none : (n : ℕ) → 0 ≡ line_feeds_before n []
line_feeds_before-none zero = refl
line_feeds_before-none (suc n) = refl

partition_point-starts_after :
    (index capped : ℕ) (bytes : List ℕ)
    → partition_point (λ line_start. leb line_start capped) (starts_after index bytes)
      ≡ line_feeds_before (capped - index) bytes
unfolding starts_after
partition_point-starts_after index capped [] = line_feeds_before-none (capped - index)
partition_point-starts_after index capped (byte ∷ bytes) =
    let ih = partition_point-starts_after (suc index) capped bytes in
    elim (Bool-cases (leb (suc index) capped)) [
      | inl within ↦
          let left : capped - index ≡ suc (capped - suc index) = ground arith in
          elim (Bool-cases (byte == 10)) [
            | inl feed ↦ rw (feed, within, left) (rw feed (ap suc ih))
            | inr other ↦ rw (other, left) (rw other ih)
          ]
      | inr beyond ↦
          let left : capped - index ≡ 0 = ground arith in
          let last : capped - suc index ≡ 0 = ground arith in
          elim (Bool-cases (byte == 10)) [
            | inl feed ↦ rw (feed, beyond, left) refl
            | inr other ↦ rw (other, left) (ih ∙ rw last refl)
          ]
    ]

take-none : (n : ℕ) → take {A = ℕ} n [] ≡ []
take-none zero = refl
take-none (suc n) = refl

take-min : (n : ℕ) (bytes : List ℕ) → take (min n (length bytes)) bytes ≡ take n bytes
take-min zero bytes = let least : min 0 (length bytes) ≡ 0 = ground arith in rw least refl
take-min (suc n) [] = take-none (min (suc n) 0)
take-min (suc n) (byte ∷ bytes) =
    let both : min (suc n) (suc (length bytes)) ≡ suc (min n (length bytes)) = ground arith in
    rw both (ap (λ rest. byte ∷ rest) (take-min n bytes))

-- The line that `LineIndex` gives for an offset is one more than the number of line feeds before
-- the offset, also where the offset is beyond the end of the file.
pub line_for_lem :
    (bytes : List ℕ) (offset : ℕ)
    → line_for (line_index bytes) offset ≡ suc (line_feeds_before offset bytes)
unfolding line_for line_index
line_for_lem bytes offset =
    let capped = min offset (length bytes) in
    let first : leb 0 capped ≡ true = ground arith in
    let all_of : capped - 0 ≡ capped = omega arith in
    rw first (
      ap suc (
        partition_point-starts_after 0 capped bytes
        ∙ ap (λ n. line_feeds_before n bytes) all_of
        ∙ ap (λ bs. length (filter (λ byte. byte == 10) bs)) (take-min offset bytes)))
