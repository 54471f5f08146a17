-- ===== src/Selector/Path/Idempotent.antt =====
-- `normalize_path_text` of crates/orbit-graph-extract/src/selector.rs on its own results.
use Prim.Native.Nat.{ℕ}
use mathlib.Core.List.{reverse, reverse-append}
use orbit_graph.Common.{
  Bool, true, false, List, [], ◌∷◌, ◌≡◌, ◌≢◌, refl, ap, subst, ◌∙◌, ok, is_empty, All, All-append,
  All-imp, nat_eq, list_eq, arith,
}
use orbit_graph.Common.Text.{Text, codes, trim, split, join, starts_with}
use orbit_graph.Common.Text.Trim.{All-trim}
use orbit_graph.Common.Text.Split.{
  Lacks, All-split, All-join, split-Lacks, split-append, split-join,
}
use orbit_graph.Selector.Path.{
  forward_slashes, parent, resolve_part, resolve_parts, render, normalize_text, normalize_path_text,
}
use orbit_graph.Selector.Path.Resolve.{resolve_parts_fresh, resolve_parts-reverse}

module _ {ℓ} (P : List ℕ → Type ℓ) (dots : P (codes "..")) where
  All-parent :
      (is_absolute : Bool) (parts : List Text) → All P parts → All P (parent is_absolute parts)
  unfolding parent
  All-parent is_absolute [] h = ground arith
  All-parent is_absolute (last ∷ rest) h = ground arith

  All-resolve_part :
      (is_absolute : Bool) (parts : List Text) (part : Text)
      → All P parts
      → (is_empty part ≡ false → P part)
      → All P (resolve_part is_absolute parts part)
  unfolding resolve_part
  All-resolve_part is_absolute parts part h p = ground (arith, All-parent is_absolute parts h)

  All-resolve_parts :
      (is_absolute : Bool) (parts more : List Text)
      → All P parts
      → All (λ part. is_empty part ≡ false → P part) more
      → All P (resolve_parts is_absolute parts more)
  unfolding resolve_parts
  All-resolve_parts is_absolute parts [] h m = h
  All-resolve_parts is_absolute parts (part ∷ more) h m =
      All-resolve_parts is_absolute (resolve_part is_absolute parts part) more
        (All-resolve_part is_absolute parts part h m.0) m.1

All-reverse {ℓ κ} : {A : Type ℓ} (P : A → Type κ) (xs : List A) → All P xs → All P (reverse xs)
All-reverse P [] h = tt
All-reverse P (x ∷ xs) h =
    rw (reverse-append (x ∷ []) xs)
      (All-append P (reverse xs) (x ∷ []) (All-reverse P xs h.1) (h.0, tt))

-- A part of a path: a text that is not empty and holds no slash.
abbrev IsPart : Text → Type 0
IsPart part = (is_empty part ≡ false) × Lacks b'/' part

starts_with-join :
    (part : Text) (parts : List Text)
    → All IsPart (part ∷ parts)
    → starts_with (codes "/") (join (codes "/") (part ∷ parts)) ≡ false
unfolding starts_with join
starts_with-join [] parts h = cc h.0.0
starts_with-join (c ∷ part) [] h = ground arith
starts_with-join (c ∷ part) (next ∷ parts) h = ground arith

starts_with-render :
    (is_absolute : Bool) (parts : List Text)
    → All IsPart parts
    → starts_with (codes "/") (render is_absolute parts) ≡ is_absolute
unfolding render starts_with
starts_with-render true [] h = refl
starts_with-render true (part ∷ parts) h = refl
starts_with-render false [] h = refl
starts_with-render false (part ∷ parts) h = starts_with-join part parts h

resolve_parts-split-render :
    (is_absolute : Bool) (parts : List Text)
    → All IsPart parts
    → resolve_parts is_absolute [] (split b'/' (render is_absolute parts))
      ≡ resolve_parts is_absolute [] parts
unfolding render
resolve_parts-split-render true [] h = unfold split resolve_parts in refl
resolve_parts-split-render true (part ∷ parts) h =
    ap (resolve_parts true []) (split-append b'/' [] (join (codes "/") (part ∷ parts)) tt)
    ∙ unfold resolve_parts in
      ap (resolve_parts true [])
        (split-join b'/' part parts (All-imp (λ x p. p.1) (part ∷ parts) h))
resolve_parts-split-render false [] h = unfold split resolve_parts in refl
resolve_parts-split-render false (part ∷ parts) h =
    ap (resolve_parts false []) (split-join b'/' part parts (All-imp (λ x p. p.1) (part ∷ parts) h))

-- The parts that `normalize_text` keeps.
kept : Text → List Text
kept s = resolve_parts (starts_with (codes "/") s) [] (split b'/' s)

kept-IsPart : (s : Text) → All IsPart (reverse (kept s))
unfolding kept
kept-IsPart s = All-reverse IsPart _ (
    All-resolve_parts IsPart (refl, omega arith) _ [] (split b'/' s) tt
      (All-imp (λ x lacks full. (full, lacks)) (split b'/' s) (split-Lacks b'/' s)))

pub normalize_text-idempotent : (s : Text) → normalize_text (normalize_text s) ≡ normalize_text s
unfolding normalize_text kept
normalize_text-idempotent s =
    let is_absolute = starts_with (codes "/") s in
    let parts = kept-IsPart s in
    rw (starts_with-render is_absolute (reverse (kept s)) parts) (
      rw (resolve_parts-split-render is_absolute (reverse (kept s)) parts) (
        rw (
          resolve_parts-reverse is_absolute (kept s)
            (resolve_parts_fresh is_absolute (split b'/' s)))))

All-render {ℓ} :
    (P : ℕ → Type ℓ)
    → P b'/'
    → P b'.'
    → (is_absolute : Bool) (parts : List Text) → All (All P) parts
    → All P (render is_absolute parts)
unfolding render
All-render P slash dot true [] h = (slash, tt)
All-render P slash dot true (part ∷ parts) h =
    (slash, All-join P (codes "/") (part ∷ parts) (slash, tt) h)
All-render P slash dot false [] h = (dot, tt)
All-render P slash dot false (part ∷ parts) h = All-join P (codes "/") (part ∷ parts) (slash, tt) h

-- Normalizing brings no character in but the slash and the dot.
pub All-normalize_text {ℓ} :
    (P : ℕ → Type ℓ) (s : Text) → P b'/' → P b'.' → All P s → All P (normalize_text s)
unfolding normalize_text kept
All-normalize_text P s slash dot h =
    All-render P slash dot (starts_with (codes "/") s) (reverse (kept s)) (
      All-reverse (All P) (kept s) (
        All-resolve_parts (All P) (dot, (dot, tt)) _ [] (split b'/' s) tt
          (All-imp (λ x part full. part) (split b'/' s) (All-split P b'/' s h))))

forward_slashes_whole : (s : Text) → Lacks b'\\' s → forward_slashes s ≡ s
unfolding forward_slashes
forward_slashes_whole [] h = refl
forward_slashes_whole (c ∷ s) h = ground (arith, forward_slashes_whole s h.1)

forward_slashes-Lacks : (s : Text) → Lacks b'\\' (forward_slashes s)
unfolding forward_slashes
forward_slashes-Lacks [] = tt
forward_slashes-Lacks (c ∷ s) = ground (arith, forward_slashes-Lacks s)

render-is_empty :
    (is_absolute : Bool) (parts : List Text)
    → All IsPart parts
    → is_empty (render is_absolute parts) ≡ false
unfolding render join
render-is_empty true [] h = refl
render-is_empty true (part ∷ parts) h = refl
render-is_empty false [] h = refl
render-is_empty false ([] ∷ parts) h = cc h.0.0
render-is_empty false ((c ∷ part) ∷ []) h = refl
render-is_empty false ((c ∷ part) ∷ next ∷ parts) h = refl

normalize_text-is_empty : (s : Text) → is_empty (normalize_text s) ≡ false
unfolding normalize_text kept
normalize_text-is_empty s =
    render-is_empty (starts_with (codes "/") s) (reverse (kept s)) (kept-IsPart s)

-- Where `normalize_path_text` returns a path that neither begins nor ends in white space,
-- normalising that path returns it unchanged.
pub normalize_path_text-idempotent :
    (raw p : Text) → normalize_path_text raw ≡ ok p → trim p ≡ p → normalize_path_text p ≡ ok p
unfolding normalize_path_text
normalize_path_text-idempotent raw p h t =
    let s = forward_slashes (trim raw) in
    ground (
      arith,
      forward_slashes_whole (normalize_text s) (
          All-normalize_text (λ x. x ≢ b'\\') s (omega arith) (omega arith)
            (forward_slashes-Lacks (trim raw))),
      normalize_text-is_empty s,
      normalize_text-idempotent s,
    )

All-forward_slashes {ℓ} : (P : ℕ → Type ℓ) (s : Text) → P b'/' → All P s → All P (forward_slashes s)
unfolding forward_slashes
All-forward_slashes P [] slash h = tt
All-forward_slashes P (c ∷ s) slash h = ground (arith, All-forward_slashes P s slash h.1)

pub All-normalize_path_text {ℓ} :
    (P : ℕ → Type ℓ) (raw p : Text)
    → P b'/'
    → P b'.'
    → All P raw
    → normalize_path_text raw ≡ ok p
    → All P p
unfolding normalize_path_text
All-normalize_path_text P raw p slash dot h e =
    let s = forward_slashes (trim raw) in
    let kept : All P (normalize_text s) =
      All-normalize_text P s slash dot
        (All-forward_slashes P (trim raw) slash (All-trim P raw h)) in
    let same : normalize_text s ≡ p = ground arith in subst (All P) same kept

pub normalize_path_text-is_empty :
    (raw p : Text) → normalize_path_text raw ≡ ok p → is_empty p ≡ false
unfolding normalize_path_text
normalize_path_text-is_empty raw p h =
    ground (arith, normalize_text-is_empty (forward_slashes (trim raw)))
