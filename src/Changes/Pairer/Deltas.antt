-- ===== src/Changes/Pairer/Deltas.antt =====
-- The deltas of the diff that the rungs of `Pairer` (crates/orbit-graph-changes/src/changes.rs) read,
-- and what they are the ground of.
use mathlib.Core.Option
use mathlib.Core.List.{Memᴰ}
use orbit_graph.Common.{
  ap, ◌∙◌, collect, All-collect, Bool-cases, ◌==◌, eq_iff, if◌then◌else◌, none, sym, true, Option,
  some, nat_eq, list_eq, ◌≡◌, refl, subst, inl, inr, All, ok,
}
use orbit_graph.Common.Members.{All-of_mem}
use orbit_graph.Common.Text.{Text}
use orbit_graph.Changes.Types.{FileChangeKind, PairingEvidence}
use orbit_graph.Changes.Files.{FileDelta, is_rename, renamed_pair, renamed_pairs}
use orbit_graph.Changes.Pairer.{Context}
use orbit_graph.Changes.Pairer.Rungs.{kind_of, pair_eq, body_eq, evidence_of, same_path}
use orbit_graph.Changes.Pairer.Coherent.{IsGround, IsDelta, IsGitKind, IsGitPair}

both_paths-eq :
    (base head : Option Text) (kind : FileChangeKind) (pair : Text × Text × FileChangeKind)
    → Option.bind base (λ b. Option.map (λ h. (b, h, kind)) head) ≡ some pair
    → (base ≡ some pair.0) × (head ≡ some pair.1) × (kind ≡ pair.2)
unfolding Option.bind
both_paths-eq none head kind pair e = absurd (cc)
both_paths-eq (some b) none kind pair e = absurd (cc)
both_paths-eq (some b) (some h) kind pair e =
    let same : ◌≡◌ {A = Text × Text × FileChangeKind} (b, h, kind) pair = cc in
    (ap (λ x. some x.0) same, ap (λ x. some x.1) same, ap (λ x. x.2) same)

one_path-eq :
    (base head : Option Text) (kind : FileChangeKind) (file : Text × FileChangeKind)
    → Option.bind base (λ b. Option.bind head (λ h. if b == h then some (b, kind) else none))
      ≡ some file
    → (base ≡ some file.0) × (head ≡ some file.0) × (kind ≡ file.1)
unfolding Option.bind
one_path-eq none head kind file e = absurd (cc)
one_path-eq (some b) none kind file e = absurd (cc)
one_path-eq (some b) (some h) kind file e = elim (Bool-cases (b == h)) [
  | inl one ↦
      let same : ◌≡◌ {A = Text × FileChangeKind} (b, kind) file = cc (rw one at e) in
      let at : b ≡ h = (eq_iff b h).0 one in
      (ap (λ x. some x.0) same, sym (ap some at) ∙ ap (λ x. some x.0) same, ap (λ x. x.1) same)
  | inr two ↦ absurd (cc (rw two at e))
]

module _ (c : Context) where
  pub kinds-IsGround :
      (kind : FileChangeKind) (evidence : PairingEvidence) (b h shared : Text)
      → kind_of c.base b ≡ ok (some shared)
      → kind_of c.head h ≡ ok (some shared)
      → IsGitPair c kind evidence b h
      → IsGround c kind evidence b h
  unfolding IsGround
  kinds-IsGround kind PairingEvidence.git_rename b h shared kb kh pair = ((shared, kb, kh), pair)
  kinds-IsGround kind PairingEvidence.git_copy b h shared kb kh pair = ((shared, kb, kh), pair)
  kinds-IsGround kind PairingEvidence.body_hash b h shared kb kh pair = elim pair.by_git [
    | inl (_, e) ↦ absurd (cc)
    | inr (_, e) ↦ absurd (cc)
  ]
  kinds-IsGround kind PairingEvidence.selector b h shared kb kh pair = elim pair.by_git [
    | inl (_, e) ↦ absurd (cc)
    | inr (_, e) ↦ absurd (cc)
  ]
  kinds-IsGround kind PairingEvidence.signature b h shared kb kh pair = elim pair.by_git [
    | inl (_, e) ↦ absurd (cc)
    | inr (_, e) ↦ absurd (cc)
  ]
  kinds-IsGround kind PairingEvidence.no_evidence b h shared kb kh pair = elim pair.by_git [
    | inl (_, e) ↦ absurd (cc)
    | inr (_, e) ↦ absurd (cc)
  ]

  pub evidence_of-IsGitKind :
      (kind : FileChangeKind) → is_rename kind ≡ true → IsGitKind c kind (evidence_of kind)
  unfolding evidence_of
  evidence_of-IsGitKind FileChangeKind.copied r = inr (refl, refl)
  evidence_of-IsGitKind FileChangeKind.renamed r = inl (refl, refl)
  evidence_of-IsGitKind FileChangeKind.added r = absurd (cc)
  evidence_of-IsGitKind FileChangeKind.deleted r = absurd (cc)
  evidence_of-IsGitKind FileChangeKind.modified r = absurd (cc)
  evidence_of-IsGitKind FileChangeKind.type_changed r = absurd (cc)
  evidence_of-IsGitKind FileChangeKind.other r = absurd (cc)

  -- two files and the kind of their delta, which is a rename or a copy
  abbrev pub IsRenamed : Text × Text × FileChangeKind → Type 0
  IsRenamed pair = IsDelta c pair.2 pair.0 pair.1 × (is_rename pair.2 ≡ true)

  renamed_pair-IsRenamed :
      (delta : FileDelta) (pair : Text × Text × FileChangeKind)
      → Memᴰ delta c.files.deltas
      → renamed_pair delta ≡ some pair
      → IsRenamed pair
  unfolding renamed_pair Option.bind
  renamed_pair-IsRenamed delta pair among e = elim (Bool-cases (is_rename delta.kind)) [
    | inl yes_it ↦
        let (old, new, of_kind) =
          both_paths-eq delta.base_path delta.head_path delta.kind pair
            (rw (yes_it, renamed_pair) at e) in
        (
          record { delta = delta; among = among; of_kind = of_kind; old = old; new = new },
          subst (λ k. is_rename k ≡ true) of_kind yes_it,
        )
    | inr other ↦ absurd (cc (rw (other, renamed_pair) at e))
  ]

  pub renamed_pairs-IsRenamed : All IsRenamed (renamed_pairs c.files)
  unfolding renamed_pairs
  renamed_pairs-IsRenamed =
      All-collect IsRenamed (λ (d : FileDelta). Memᴰ d c.files.deltas) renamed_pair c.files.deltas
        renamed_pair-IsRenamed
        (All-of_mem (λ (d : FileDelta). Memᴰ d c.files.deltas) c.files.deltas (λ d m. m))

  abbrev pub IsKept : Text × FileChangeKind → Type 0
  IsKept file = IsDelta c file.1 file.0 file.0

  same_path-IsKept :
      (delta : FileDelta) (file : Text × FileChangeKind)
      → Memᴰ delta c.files.deltas
      → same_path delta ≡ some file
      → IsKept file
  unfolding same_path
  same_path-IsKept delta file among e =
      let (old, new, of_kind) = one_path-eq delta.base_path delta.head_path delta.kind file e in
      record { delta = delta; among = among; of_kind = of_kind; old = old; new = new }

  pub same_paths-IsKept : All IsKept (collect same_path c.files.deltas)
  same_paths-IsKept =
      All-collect IsKept (λ (d : FileDelta). Memᴰ d c.files.deltas) same_path c.files.deltas
        same_path-IsKept
        (All-of_mem (λ (d : FileDelta). Memᴰ d c.files.deltas) c.files.deltas (λ d m. m))
