-- ===== src/Common/Text/Split.antt =====
-- Laws of splitting and joining.
use Prim.Native.Nat.{ℕ}
use mathlib.Core.Path.{◌≡◌, refl, ap, ◌∙◌}
use mathlib.Core.Logic.{◌≢◌, inl, inr}
use mathlib.Core.List.{List, [], ◌∷◌, ◌++◌}
use mathlib.Core.Option.{none, some}
use native.Mathlib.Omega.{arith}
use orbit_graph.Common.Tests.{Option-cases}
use orbit_graph.Common.Lists.{All, All-append}
use orbit_graph.Common.Text.{Text, cons_head, split, join, split_once, rsplit_once}

-- no character of the text is `c`
abbrev pub Lacks : ℕ → Text → Type 0
Lacks c = All (λ x. x ≢ c)

module _ {ℓ} (P : ℕ → Type ℓ) where
  All-cons_head :
      (c : ℕ) (parts : List Text) → P c → All (All P) parts → All (All P) (cons_head c parts)
  All-cons_head c [] pc h = ((pc, tt), tt)
  All-cons_head c (part ∷ parts) pc h = ((pc, h.0), h.1)

  pub All-split : (sep : ℕ) (s : Text) → All P s → All (All P) (split sep s)
  unfolding split
  All-split sep [] h = (tt, tt)
  All-split sep (c ∷ s) h = ground (arith, All-split sep s h.1, All-cons_head c (split sep s) h.0)

  pub All-join :
      (sep : Text) (parts : List Text) → All P sep → All (All P) parts → All P (join sep parts)
  unfolding join
  All-join sep [] hs h = tt
  All-join sep (part ∷ []) hs h = h.0
  All-join sep (part ∷ next ∷ parts) hs h =
      All-append P part _ h.0 (All-append P sep _ hs (All-join sep (next ∷ parts) hs h.1))

Lacks-cons_head :
    (sep c : ℕ) (parts : List Text)
    → c ≢ sep
    → All (Lacks sep) parts
    → All (Lacks sep) (cons_head c parts)
Lacks-cons_head sep c parts n h = All-cons_head (λ x. x ≢ sep) c parts n h

pub split-Lacks : (sep : ℕ) (s : Text) → All (Lacks sep) (split sep s)
unfolding split
split-Lacks sep [] = (tt, tt)
split-Lacks sep (c ∷ s) = ground (arith, split-Lacks sep s, Lacks-cons_head sep c (split sep s))

pub split_whole : (sep : ℕ) (s : Text) → Lacks sep s → split sep s ≡ s ∷ []
unfolding split
split_whole sep [] h = refl
split_whole sep (c ∷ s) h = ground (arith, split_whole sep s h.1)

pub split-append : (sep : ℕ) (s t : Text) → Lacks sep s → split sep (s ++ sep ∷ t) ≡ s ∷ split sep t
unfolding split
split-append sep [] t h = ground arith
split-append sep (c ∷ s) t h = ground (arith, split-append sep s t h.1)

-- splitting undoes joining, where no part holds the separator
pub split-join :
    (sep : ℕ) (part : Text) (parts : List Text)
    → All (Lacks sep) (part ∷ parts)
    → split sep (join (sep ∷ []) (part ∷ parts)) ≡ part ∷ parts
unfolding join
split-join sep part [] h = split_whole sep part h.0
split-join sep part (next ∷ parts) h =
    split-append sep part (join (sep ∷ []) (next ∷ parts)) h.0
    ∙ ap (λ rest. part ∷ rest) (split-join sep next parts h.1)

pub rsplit_once-none : (sep : ℕ) (s : Text) → Lacks sep s → rsplit_once sep s ≡ none
unfolding rsplit_once
rsplit_once-none sep [] h = refl
rsplit_once-none sep (c ∷ s) h = ground (arith, rsplit_once-none sep s h.1)

pub rsplit_once-append :
    (sep : ℕ) (s t : Text) → Lacks sep t → rsplit_once sep (s ++ sep ∷ t) ≡ some (s, t)
unfolding rsplit_once
rsplit_once-append sep [] t h = ground (arith, rsplit_once-none sep t h)
rsplit_once-append sep (c ∷ s) t h = rw (rsplit_once-append sep s t h, rsplit_once)

Lacks-rsplit_once-none : (sep : ℕ) (s : Text) → rsplit_once sep s ≡ none → Lacks sep s
unfolding rsplit_once
Lacks-rsplit_once-none sep [] h = tt
Lacks-rsplit_once-none sep (c ∷ s) h = ground (arith, Lacks-rsplit_once-none sep s)

-- the last separator: none follows it
pub rsplit_once-eq-some :
    (sep : ℕ) (s before after : Text)
    → rsplit_once sep s ≡ some (before, after)
    → (s ≡ before ++ sep ∷ after) × Lacks sep after
unfolding rsplit_once
rsplit_once-eq-some sep [] before after h = cc
rsplit_once-eq-some sep (c ∷ s) before after h = elim (Option-cases (rsplit_once sep s)) [
  | inl e ↦ ground (arith, Lacks-rsplit_once-none sep s)
  | inr ((b, a), e) ↦ ground (arith, rsplit_once-eq-some sep s b a e)
]

pub split_once-append :
    (sep : ℕ) (s t : Text) → Lacks sep s → split_once sep (s ++ sep ∷ t) ≡ some (s, t)
unfolding split_once
split_once-append sep [] t h = ground arith
split_once-append sep (c ∷ s) t h = ground (arith, split_once-append sep s t h.1)

-- the first separator: none stands before it
pub split_once-eq-some :
    (sep : ℕ) (s before after : Text)
    → split_once sep s ≡ some (before, after)
    → (s ≡ before ++ sep ∷ after) × Lacks sep before
unfolding split_once
split_once-eq-some sep [] before after h = cc
split_once-eq-some sep (c ∷ s) before after h = elim (Option-cases (split_once sep s)) [
  | inl e ↦ ground arith
  | inr ((b, a), e) ↦ ground (arith, split_once-eq-some sep s b a e)
]
