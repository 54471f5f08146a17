-- ===== src/Changes/Fallible.antt =====
-- The failing calls of crates/orbit-graph-changes/src/changes.rs, read back from an error or a result.
use orbit_graph.Common.{Result, ok, err, ◌>>=◌, ◌≡◌, ◌⊎◌, inl, inr, refl, ap}
use orbit_graph.Common.Text.{Text}
use orbit_graph.Changes.Types.{SnapshotSide, ChangesError, git, query, or_git, or_query}

pub >>=-eq-err {ℓ κ} :
    {A : Type ℓ} {B : Type κ} (m : Result ChangesError A) (f : A → Result ChangesError B)
    {e : ChangesError}
    → (m >>= f) ≡ err e
    → (m ≡ err e) ⊎ ((a : A) × (m ≡ ok a) × (f a ≡ err e))
>>=-eq-err (err d) f h = inl (let same : d ≡ _ = cc in ap err same)
>>=-eq-err (ok a) f h = inr (a, refl, h)

pub or_git-eq-err {ℓ} :
    {A : Type ℓ} (operation : Text) (m : Result Text A) {e : ChangesError}
    → or_git operation m ≡ err e
    → (reason : Text) × (m ≡ err reason) × (e ≡ git operation reason)
or_git-eq-err operation (err reason) h = (reason, refl, cc)
or_git-eq-err operation (ok a) h = absurd (cc)

pub or_git-eq-ok {ℓ} :
    {A : Type ℓ} (operation : Text) (m : Result Text A) {a : A}
    → or_git operation m ≡ ok a
    → m ≡ ok a
or_git-eq-ok operation (err reason) h = absurd (cc)
or_git-eq-ok operation (ok b) h = let same : b ≡ _ = cc in ap ok same

pub or_query-eq-err {ℓ} :
    {A : Type ℓ} (operation : Text) (side : SnapshotSide) (m : Result Text A) {e : ChangesError}
    → or_query operation side m ≡ err e
    → (reason : Text) × (m ≡ err reason) × (e ≡ query operation side reason)
or_query-eq-err operation side (err reason) h = (reason, refl, cc)
or_query-eq-err operation side (ok a) h = absurd (cc)

pub or_query-eq-ok {ℓ} :
    {A : Type ℓ} (operation : Text) (side : SnapshotSide) (m : Result Text A) {a : A}
    → or_query operation side m ≡ ok a
    → m ≡ ok a
or_query-eq-ok operation side (err reason) h = absurd (cc)
or_query-eq-ok operation side (ok b) h = let same : b ≡ _ = cc in ap ok same
