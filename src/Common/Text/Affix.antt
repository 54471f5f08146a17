-- ===== src/Common/Text/Affix.antt =====
-- Laws of prefixes, suffixes and byte lengths.
use mathlib.Core.Path.{◌≡◌, refl, sym, ap, ◌∙◌}
use mathlib.Core.Bool.{true}
use mathlib.Core.Logic.{inl, inr}
use mathlib.Core.List.{[], ◌∷◌, ◌++◌, reverse, reverse-append, reverse-reverse}
use mathlib.Core.Option.{Option, none, some}
use mathlib.Core.Option
use native.Mathlib.Omega.{arith}
use Prim.Native.Nat.{ℕ, zero, ◌+◌, ◌<◌}
use orbit_graph.Common.Tests.{Option-cases}
use orbit_graph.Common.Text.{
  Text, strip_prefix, strip_suffix, starts_with, ends_with, byte_len, utf8_len,
}

pub strip_prefix-append : (p s : Text) → strip_prefix p (p ++ s) ≡ some s
unfolding strip_prefix
strip_prefix-append [] s = refl
strip_prefix-append (c ∷ p) s = ground (arith, strip_prefix-append p s)

pub strip_prefix-eq-some : (p s rest : Text) → strip_prefix p s ≡ some rest → s ≡ p ++ rest
unfolding strip_prefix
strip_prefix-eq-some [] s rest h = ground arith
strip_prefix-eq-some (c ∷ p) [] rest h = ground arith
strip_prefix-eq-some (c ∷ p) (d ∷ s) rest h = ground (arith, strip_prefix-eq-some p s rest)

pub starts_with-append : (p s : Text) → starts_with p (p ++ s) ≡ true
unfolding starts_with
starts_with-append p s = rw (strip_prefix-append p s) refl

pub starts_with-eq-true : (p s : Text) → starts_with p s ≡ true → (rest : Text) × (s ≡ p ++ rest)
unfolding starts_with
starts_with-eq-true p s h = elim (Option-cases (strip_prefix p s)) [
  | inl e ↦ absurd (cc (rw e at h))
  | inr (rest, e) ↦ (rest, strip_prefix-eq-some p s rest e)
]

pub strip_suffix-append : (s p : Text) → strip_suffix p (s ++ p) ≡ some s
unfolding strip_suffix
strip_suffix-append s p =
    ap (λ t. Option.map reverse (strip_prefix (reverse p) t)) (reverse-append s p)
    ∙ (ap (Option.map reverse) (strip_prefix-append (reverse p) (reverse s))
        ∙ ap some (reverse-reverse s))

reversed-eq-some :
    (o : Option Text) (r : Text) → Option.map reverse o ≡ some r → o ≡ some (reverse r)
reversed-eq-some none r h = absurd (cc)
reversed-eq-some (some a) r h =
    let same : reverse a ≡ r = cc in ap some (sym (reverse-reverse a) ∙ ap reverse same)

pub strip_suffix-eq-some : (p s rest : Text) → strip_suffix p s ≡ some rest → s ≡ rest ++ p
unfolding strip_suffix
strip_suffix-eq-some p s rest h =
    let e = reversed-eq-some (strip_prefix (reverse p) (reverse s)) rest h in
    let back = strip_prefix-eq-some (reverse p) (reverse s) (reverse rest) e in
    sym (reverse-reverse s)
    ∙ (ap reverse back
        ∙ (reverse-append (reverse p) (reverse rest)
            ∙ (ap (λ t. t ++ reverse (reverse p)) (reverse-reverse rest)
                ∙ ap (λ t. rest ++ t) (reverse-reverse p))))

pub ends_with-append : (s p : Text) → ends_with p (s ++ p) ≡ true
unfolding ends_with
ends_with-append s p = rw (strip_suffix-append s p) refl

pub ends_with-eq-true : (p s : Text) → ends_with p s ≡ true → (rest : Text) × (s ≡ rest ++ p)
unfolding ends_with
ends_with-eq-true p s h = elim (Option-cases (strip_suffix p s)) [
  | inl e ↦ absurd (cc (rw e at h))
  | inr (rest, e) ↦ (rest, strip_suffix-eq-some p s rest e)
]

pub byte_len-append : (s t : Text) → byte_len (s ++ t) ≡ byte_len s + byte_len t
unfolding byte_len
byte_len-append [] t = omega arith
byte_len-append (c ∷ s) t = let rest = byte_len-append s t in omega arith

pub utf8_len-positive : (c : ℕ) → zero < utf8_len c
utf8_len-positive c = ground arith

byte_len-grows : (c : ℕ) (s t : Text) → byte_len t < byte_len (c ∷ (s ++ t))
unfolding byte_len
byte_len-grows c s t =
    let size = byte_len-append s t in let one = utf8_len-positive c in omega arith

-- two ends of one text with as many bytes are equal
pub byte_len-injective_end : (s t p q : Text) → s ++ p ≡ t ++ q → byte_len p ≡ byte_len q → p ≡ q
byte_len-injective_end [] [] p q e same = e
byte_len-injective_end [] (d ∷ t) p q e same =
    let grows = byte_len-grows d t q in
    let size : byte_len p ≡ byte_len (d ∷ (t ++ q)) = ap byte_len e in absurd (omega arith)
byte_len-injective_end (c ∷ s) [] p q e same =
    let grows = byte_len-grows c s p in
    let size : byte_len (c ∷ (s ++ p)) ≡ byte_len q = ap byte_len e in absurd (omega arith)
byte_len-injective_end (c ∷ s) (d ∷ t) p q e same = byte_len-injective_end s t p q (cc) same
