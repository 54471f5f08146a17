-- ===== src/Common/Text/Trim.antt =====
-- Laws of trimming.
use Prim.Native.Nat.{ℕ}
use mathlib.Core.Path.{◌≡◌, refl, sym, ap, ◌∙◌}
use mathlib.Core.Logic.{◌≢◌}
use mathlib.Core.Bool.{Bool, false}
use mathlib.Core.List.{[], ◌∷◌, ◌++◌}
use native.Mathlib.Omega.{arith}
use orbit_graph.Common.Lists.{is_empty, All}
use orbit_graph.Common.Text.{Text, is_whitespace, trim_start_matches, trim_end_matches, trim}

pub All-trim_start_matches {ℓ} :
    (P : ℕ → Type ℓ) (p : ℕ → Bool) (s : Text) → All P s → All P (trim_start_matches p s)
unfolding trim_start_matches
All-trim_start_matches P p [] h = tt
All-trim_start_matches P p (c ∷ s) h = ground (arith, All-trim_start_matches P p s h.1)

pub All-trim_end_matches {ℓ} :
    (P : ℕ → Type ℓ) (p : ℕ → Bool) (s : Text) → All P s → All P (trim_end_matches p s)
unfolding trim_end_matches
All-trim_end_matches P p [] h = tt
All-trim_end_matches P p (c ∷ s) h = ground (arith, All-trim_end_matches P p s h.1)

pub All-trim {ℓ} : (P : ℕ → Type ℓ) (s : Text) → All P s → All P (trim s)
unfolding trim
All-trim P s h = All-trim_end_matches P _ _ (All-trim_start_matches P _ s h)

module _ (p : ℕ → Bool) where
  trim_end_matches-idempotent :
      (s : Text) → trim_end_matches p (trim_end_matches p s) ≡ trim_end_matches p s
  unfolding trim_end_matches
  trim_end_matches-idempotent [] = refl
  trim_end_matches-idempotent (c ∷ s) = ground (arith, trim_end_matches-idempotent s)

  -- what stands before a text that is not trimmed away stays
  trim_end_matches-append :
      (s t : Text) → trim_end_matches p t ≡ t → t ≢ [] → trim_end_matches p (s ++ t) ≡ s ++ t
  unfolding trim_end_matches
  trim_end_matches-append [] t e n = e
  trim_end_matches-append (c ∷ []) [] e n = absurd (n refl)
  trim_end_matches-append (c ∷ s) t e n =
      ground (arith, trim_end_matches-append s t e n, append-ne s t n)
    where
      append-ne : (s t : Text) → t ≢ [] → is_empty (s ++ t) ≡ false
      append-ne [] [] n = absurd (n refl)
      append-ne [] (x ∷ t) n = refl
      append-ne (x ∷ s) t n = refl

  -- a text that starts with a kept character starts so after the trimming
  trim_start_matches-trim_end_matches :
      (s : Text)
      → trim_start_matches p (trim_end_matches p (trim_start_matches p s))
        ≡ trim_end_matches p (trim_start_matches p s)
  unfolding trim_start_matches trim_end_matches
  trim_start_matches-trim_end_matches [] = refl
  trim_start_matches-trim_end_matches (c ∷ s) =
      ground (arith, trim_start_matches-trim_end_matches s)

pub trim-trim : (s : Text) → trim (trim s) ≡ trim s
unfolding trim
trim-trim s =
    rw (trim_start_matches-trim_end_matches is_whitespace s)
      (trim_end_matches-idempotent is_whitespace (trim_start_matches is_whitespace s))

trim_end_matches-trimmed : (t : Text) → trim t ≡ t → trim_end_matches is_whitespace t ≡ t
unfolding trim
trim_end_matches-trimmed t e =
    ap (trim_end_matches is_whitespace) (sym e)
    ∙ (trim_end_matches-idempotent is_whitespace (trim_start_matches is_whitespace t) ∙ e)

-- A text keeps its end under a trimmed ending, and its start before a visible first character.
pub trim-append :
    (c : ℕ) (s t : Text)
    → is_whitespace c ≡ false
    → trim t ≡ t
    → is_empty t ≡ false
    → trim (c ∷ (s ++ t)) ≡ c ∷ (s ++ t)
unfolding trim trim_start_matches
trim-append c s t v e full = rw v (
    trim_end_matches-append is_whitespace (c ∷ s) t (trim_end_matches-trimmed t e)
      (λ nil. cc (ap is_empty nil)))
