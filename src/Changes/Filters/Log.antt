-- ===== src/Changes/Filters/Log.antt =====
-- `FilterLog` of crates/orbit-graph-changes/src/filters.rs over a sequence of reports.
use orbit_graph.Common.{
  ℕ, zero, suc, ◌+◌, ◌≤◌, Bool, true, false, List, [], ◌∷◌, ◌++◌, ◌≡◌, refl, sym, ap, ◌∙◌, arith,
  inl, inr, ◌==◌, nat_eq, eq_iff, ltb, ltb→lt, subst, Bool-cases, if◌then◌else◌, length,
  length-append, append_assoc, append-nil,
}
use orbit_graph.Common.Text.{Text}
use orbit_graph.Changes.Filters.{
  FilterReason, Entry, FilterLog, same_reason, reason_rank, filtered_example_cap, with_example,
  change_entry, record_example, record_count,
}

-- What a response reports to its log: one item, or a number of items.
pub data Event : Type 0 where
  one : FilterReason → Text → Event
  several : FilterReason → ℕ → Event

pub replay : FilterLog → List Event → FilterLog
replay log [] = log
replay log (one reason example ∷ events) = replay (record_example log reason example) events
replay log (several reason count ∷ events) = replay (record_count log reason count) events

-- What the log holds of a reason, where it has an entry for it.
pub held : {A : Type 0} → (Entry → A) → A → FilterReason → FilterLog → A
held field absent r [] = absent
held field absent r (entry ∷ log) =
    let later = held field absent r log in if same_reason entry.reason r then field entry else later

abbrev pub count_of : FilterReason → FilterLog → ℕ
count_of = held (λ entry. entry.count) 0

abbrev pub examples_of : FilterReason → FilterLog → List Text
examples_of = held (λ entry. entry.examples) []

-- How many items were reported for a reason, and the examples among them, in order.
pub total : FilterReason → List Event → ℕ
total r [] = 0
total r (one reason example ∷ events) =
    let later = total r events in if same_reason reason r then suc later else later
total r (several reason count ∷ events) =
    let later = total r events in if same_reason reason r then count + later else later

pub reported : FilterReason → List Event → List Text
reported r [] = []
reported r (one reason example ∷ events) =
    let later = reported r events in if same_reason reason r then example ∷ later else later
reported r (several reason count ∷ events) = reported r events

abbrev pub take {ℓ} : {A : Type ℓ} → ℕ → List A → List A
take zero xs = []
take (suc n) [] = []
take (suc n) (x ∷ xs) = x ∷ take n xs

push_example : List Text → Text → List Text
push_example xs x = if ltb (length xs) filtered_example_cap then xs ++ x ∷ [] else xs

same_reason-eq : (e q r : FilterReason) → same_reason e q ≡ true → same_reason e r ≡ same_reason q r
unfolding same_reason
same_reason-eq e q r h = ap (λ n. n == reason_rank r) ((eq_iff (reason_rank e) (reason_rank q)).0 h)

same_reason-apart :
    (e q r : FilterReason)
    → same_reason e q ≡ false
    → same_reason q r ≡ true
    → same_reason e r ≡ false
unfolding same_reason
same_reason-apart e q r h g =
    ap (λ n. reason_rank e == n) (sym ((eq_iff (reason_rank q) (reason_rank r)).0 g)) ∙ h

-- A change of the entry of one reason is a change of what is held of that reason, and of no other.
module _ {A : Type 0} (field : Entry → A) (absent : A) (change : Entry → Entry) (fresh : Entry)
    (step : A → A) (r q : FilterReason)
    (steps : (entry : Entry) → field (change entry) ≡ step (field entry))
    (first_step : field fresh ≡ step absent)
    (keeps : (entry : Entry) → (change entry).reason ≡ entry.reason)
    (is_of_q : fresh.reason ≡ q) where
  held-change_entry :
      (log : FilterLog)
      → held field absent r (change_entry q change fresh log)
        ≡ (if same_reason q r then step (held field absent r log) else held field absent r log)
  unfolding held change_entry
  held-change_entry [] =
      ap (λ p. if same_reason p r then field fresh else absent) is_of_q
      ∙ ap (λ a. if same_reason q r then a else absent) first_step
  held-change_entry (entry ∷ log) = elim (Bool-cases (same_reason entry.reason q)) [
    | inl e ↦
        let same = same_reason-eq entry.reason q r e in
        rw (e, change_entry, same)
          (ap (λ p. if same_reason p r then field (change entry) else held field absent r log)
              (keeps entry)
            ∙ (ap (λ b. if b then field (change entry) else held field absent r log) same
                ∙ (ap (λ a. if same_reason q r then a else held field absent r log) (steps entry)
                    ∙ ifs (same_reason q r) (held field absent r log) (field entry))))
    | inr e ↦ elim (Bool-cases (same_reason q r)) [
      | inl f ↦
          let apart = same_reason-apart entry.reason q r e f in
          let later = held-change_entry log in rw (e, f, change_entry, apart) (rw f at later)
      | inr f ↦
          let later = held-change_entry log in
          rw (e, f, change_entry)
            (ap (λ a. if same_reason entry.reason r then field entry else a) (rw f at later))
    ]
  ]
    where
      ifs :
          (b : Bool) (n m : A)
          → (if b then step m else n)
            ≡ (if b then step (if b then m else n) else (if b then m else n))
      ifs true n m = refl
      ifs false n m = refl

count_of-record_example :
    (r q : FilterReason) (log : FilterLog) (x : Text)
    → count_of r (record_example log q x)
      ≡ (if same_reason q r then suc (count_of r log) else count_of r log)
unfolding record_example with_example
count_of-record_example r q log x =
    held-change_entry (λ entry. entry.count) 0 _ _ suc r q (λ entry. refl) refl (λ entry. refl) refl
      log

examples_of-record_example :
    (r q : FilterReason) (log : FilterLog) (x : Text)
    → examples_of r (record_example log q x)
      ≡ (if same_reason q r then push_example (examples_of r log) x else examples_of r log)
unfolding record_example with_example push_example
examples_of-record_example r q log x =
    held-change_entry (λ entry. entry.examples) [] _ _ (λ xs. push_example xs x) r q (λ entry. refl)
      refl (λ entry. refl) refl log

count_of-record_count :
    (r q : FilterReason) (log : FilterLog) (n : ℕ)
    → count_of r (record_count log q n)
      ≡ (if same_reason q r then count_of r log + n else count_of r log)
unfolding record_count
count_of-record_count r q log n = elim (Bool-cases (n == 0)) [
  | inl e ↦
      let nothing : n ≡ 0 = (eq_iff n 0).0 e in
      rw (e, record_count) (none_added (same_reason q r) (count_of r log) n nothing)
  | inr e ↦
      rw (e, record_count)
        (held-change_entry (λ entry. entry.count) 0 _ _ (λ m. m + n) r q (λ entry. refl)
          (omega arith) (λ entry. refl) refl log)
]
  where
    none_added : (b : Bool) (m n : ℕ) → n ≡ 0 → m ≡ (if b then m + n else m)
    none_added true m n h = omega arith
    none_added false m n h = refl

examples_of-record_count :
    (r q : FilterReason) (log : FilterLog) (n : ℕ)
    → examples_of r (record_count log q n) ≡ examples_of r log
unfolding record_count
examples_of-record_count r q log n = elim (Bool-cases (n == 0)) [
  | inl e ↦ rw (e, record_count) refl
  | inr e ↦
      rw (e, record_count)
        (held-change_entry (λ entry. entry.examples) [] _ _ (λ xs. xs) r q (λ entry. refl) refl
            (λ entry. refl) refl log
          ∙ both (same_reason q r) (examples_of r log))
]
  where
    both : (b : Bool) (xs : List Text) → (if b then xs else xs) ≡ xs
    both true xs = refl
    both false xs = refl

take_whole : {A : Type 0} (n : ℕ) (xs : List A) → length xs ≤ n → take n xs ≡ xs
take_whole zero [] h = refl
take_whole zero (x ∷ xs) h = absurd (omega arith)
take_whole (suc n) [] h = refl
take_whole (suc n) (x ∷ xs) h = ap (λ rest. x ∷ rest) (take_whole n xs (omega arith))

take_full :
    {A : Type 0} (n : ℕ) (xs ys zs : List A) → n ≤ length xs → take n (xs ++ ys) ≡ take n (xs ++ zs)
take_full zero xs ys zs h = refl
take_full (suc n) [] ys zs h = absurd (omega arith)
take_full (suc n) (x ∷ xs) ys zs h = ap (λ rest. x ∷ rest) (take_full n xs ys zs (omega arith))

take-push_example :
    (xs : List Text) (x : Text) (ys : List Text)
    → take filtered_example_cap (push_example xs x ++ ys) ≡ take filtered_example_cap (xs ++ x ∷ ys)
unfolding push_example
take-push_example xs x ys = elim (Bool-cases (ltb (length xs) filtered_example_cap)) [
  | inl e ↦ rw (e, push_example) (ap (take filtered_example_cap) (append_assoc xs (x ∷ []) ys))
  | inr e ↦ rw (e, push_example) (take_full filtered_example_cap xs ys (x ∷ ys) (ground arith))
]

length-push_example :
    (xs : List Text) (x : Text)
    → length xs ≤ filtered_example_cap
    → length (push_example xs x) ≤ filtered_example_cap
unfolding push_example
length-push_example xs x h = elim (Bool-cases (ltb (length xs) filtered_example_cap)) [
  | inl e ↦
      let size = length-append xs (x ∷ []) in
      let room = ltb→lt (length xs) filtered_example_cap e in rw (e, push_example) (omega arith)
  | inr e ↦ rw (e, push_example) h
]

replay_from :
    (r : FilterReason) (log : FilterLog) (events : List Event)
    → length (examples_of r log) ≤ filtered_example_cap
    → (count_of r (replay log events) ≡ count_of r log + total r events)
      × (examples_of r (replay log events)
          ≡ take filtered_example_cap (examples_of r log ++ reported r events))
unfolding replay total reported
replay_from r log [] h = (
  omega arith,
  sym (
      ap (take filtered_example_cap) (append-nil (examples_of r log))
      ∙ take_whole filtered_example_cap (examples_of r log) h),
)
replay_from r log (one q x ∷ events) h = elim (Bool-cases (same_reason q r)) [
  | inl e ↦
      let held_count : count_of r (record_example log q x) ≡ suc (count_of r log) =
        count_of-record_example r q log x
        ∙ ap (λ b. if b then suc (count_of r log) else count_of r log) e in
      let held_examples : examples_of r (record_example log q x)
          ≡ push_example (examples_of r log) x =
        examples_of-record_example r q log x
        ∙ ap (λ b. if b then push_example (examples_of r log) x else examples_of r log) e in
      let (counted, kept) = replay_from r (record_example log q x) events (
        subst (λ xs. length xs ≤ filtered_example_cap) (sym held_examples)
          (length-push_example (examples_of r log) x h)) in
      rw e (
        omega arith,
        kept
            ∙ (ap (λ xs. take filtered_example_cap (xs ++ reported r events)) held_examples
                ∙ take-push_example (examples_of r log) x (reported r events)),
      )
  | inr e ↦
      let held_count : count_of r (record_example log q x) ≡ count_of r log =
        count_of-record_example r q log x
        ∙ ap (λ b. if b then suc (count_of r log) else count_of r log) e in
      let held_examples : examples_of r (record_example log q x) ≡ examples_of r log =
        examples_of-record_example r q log x
        ∙ ap (λ b. if b then push_example (examples_of r log) x else examples_of r log) e in
      let (counted, kept) =
        replay_from r (record_example log q x) events
          (subst (λ xs. length xs ≤ filtered_example_cap) (sym held_examples) h) in
      rw e (
        omega arith,
        kept ∙ ap (λ xs. take filtered_example_cap (xs ++ reported r events)) held_examples,
      )
]
replay_from r log (several q n ∷ events) h =
    let held_examples = examples_of-record_count r q log n in
    let held_count = count_of-record_count r q log n in
    let (counted, kept) =
      replay_from r (record_count log q n) events
        (subst (λ xs. length xs ≤ filtered_example_cap) (sym held_examples) h) in
    (
      elim (Bool-cases (same_reason q r)) [
        | inl e ↦
            let added : count_of r (record_count log q n) ≡ count_of r log + n =
              held_count ∙ ap (λ b. if b then count_of r log + n else count_of r log) e in
            rw e (omega arith)
        | inr e ↦
            let same : count_of r (record_count log q n) ≡ count_of r log =
              held_count ∙ ap (λ b. if b then count_of r log + n else count_of r log) e in
            rw e (omega arith)
      ],
      kept ∙ ap (λ xs. take filtered_example_cap (xs ++ reported r events)) held_examples,
    )

-- After any sequence of recorded items and recorded counts, starting from an empty log, the log
-- holds for each reason the number of all items reported for it, and the first five of the
-- examples reported for it, in their order.
pub replay_lem :
    (r : FilterReason) (events : List Event)
    → (count_of r (replay [] events) ≡ total r events)
      × (examples_of r (replay [] events) ≡ take filtered_example_cap (reported r events))
unfolding held
replay_lem r events =
    let (counted, kept) = replay_from r [] events (omega arith) in (omega arith, kept)
