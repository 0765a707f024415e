-- ===== src/Completion/Outcomes.antt =====
-- The tracker against the attempts that it was told of: src/orchestrator/completion.rs.
use offload.Base.{
  ℕ, ◌+◌, String, ◌≡◌, refl, inl, inr, Bool, false, ◌||◌, List, [], ◌∷◌, ◌++◌, append-nil,
  append_assoc, arith, leb, if◌then◌else◌, Bool-cases, length, length-append, ◌==◌,
  comparable_number, comparable_text, eq_self, eq→path, contains, contains-add, get, get-insert,
}
use offload.Completion.{
  CompletionTracker, max_of, count_of, record_test, record_batch, record_batches, is_decided,
  Batches, new, register_all, register_retries,
}

-- Some attempt passed.
abbrev pub any_passed : List Bool → Bool
any_passed [] = false
any_passed (b ∷ bs) = b || any_passed bs

-- The specification: a test with these attempts, the oldest first, has a decided outcome.
abbrev pub settled : ℕ → List Bool → Bool
settled max_attempts [] = false
settled max_attempts (b ∷ bs) = any_passed (b ∷ bs) || leb max_attempts (length (b ∷ bs))

-- The attempts of one test in a batch, and in all batches.
abbrev pub attempts_in : String → List String → (String → Bool) → List Bool
attempts_in k [] is_passed = []
attempts_in k (test_id ∷ test_ids) is_passed =
    if k == test_id
    then is_passed test_id ∷ attempts_in k test_ids is_passed
    else attempts_in k test_ids is_passed

abbrev pub attempts : String → Batches → List Bool
attempts k [] = []
attempts k ((test_ids, is_passed) ∷ rest) = attempts_in k test_ids is_passed ++ attempts k rest

any_passed-append : (bs : List Bool) (b : Bool) → any_passed (bs ++ b ∷ []) ≡ (any_passed bs || b)
any_passed-append [] b = ground arith
any_passed-append (c ∷ bs) b = ground (arith, any_passed-append bs b)

-- One more attempt settles a test exactly as the loop body computes it.
settled-append :
    (m : ℕ) (bs : List Bool) (b : Bool)
    → settled m (bs ++ b ∷ []) ≡ (any_passed bs || b || leb m (length bs + 1))
settled-append m [] b = ground arith
settled-append m (c ∷ bs) b = ground (arith, any_passed-append bs b, length-append bs (b ∷ []))

-- What the tracker knows of the test `k` after these attempts.
pub record Tracks (k : String) (m : ℕ) (t : CompletionTracker) (bs : List Bool) : Type 0 where
  pub limit : max_of t k ≡ m
  pub outcome : contains k t.decided ≡ settled m bs
  pub counted : contains k t.decided ≡ false → count_of t k ≡ length bs

module _ (k : String) (m : ℕ) (t : CompletionTracker) (bs : List Bool) where
  record_test-Tracks_ne :
      (j : String) (b : Bool)
      → (k == j) ≡ false
      → Tracks k m t bs
      → Tracks k m (record_test t j b) bs
  unfolding record_test max_of
  record_test-Tracks_ne j b ne h = ground (
    arith,
    h.limit,
    h.outcome,
    contains-add j k t.decided,
    get-insert j k (count_of t j + 1) t.attempt_counts,
  )

  record_test-Tracks_self :
      (b : Bool) → Tracks k m t bs → Tracks k m (record_test t k b) (bs ++ b ∷ [])
  unfolding record_test max_of
  record_test-Tracks_self b h = ground (
    arith,
    h.limit,
    h.outcome,
    settled-append m bs b,
    length-append bs (b ∷ []),
    contains-add k k t.decided,
    eq_self k,
    get-insert k k (count_of t k + 1) t.attempt_counts,
  )

module _ (k : String) (m : ℕ) where
  record_batch-Tracks :
      (t : CompletionTracker) (bs : List Bool) (test_ids : List String) (is_passed : String → Bool)
      → Tracks k m t bs
      → Tracks k m (record_batch t test_ids is_passed) (bs ++ attempts_in k test_ids is_passed)
  unfolding record_batch
  record_batch-Tracks t bs [] p h = rw (append-nil bs) h
  record_batch-Tracks t bs (j ∷ js) p h = elim (Bool-cases (k == j)) [
    | inl e ↦
        rw (← eq→path k j e, eq_self k, ← append_assoc bs (p k ∷ []) (attempts_in k js p))
          (record_batch-Tracks (record_test t k (p k)) (bs ++ p k ∷ []) js p
            (record_test-Tracks_self k m t bs (p k) h))
    | inr e ↦ rw e (
        record_batch-Tracks (record_test t j (p j)) bs js p
          (record_test-Tracks_ne k m t bs j (p j) e h))
  ]

  record_batches-Tracks :
      (t : CompletionTracker) (bs : List Bool) (batches : Batches)
      → Tracks k m t bs
      → Tracks k m (record_batches t batches) (bs ++ attempts k batches)
  unfolding record_batches
  record_batches-Tracks t bs [] h = rw (append-nil bs) h
  record_batches-Tracks t bs ((ids, p) ∷ rest) h =
      rw (← append_assoc bs (attempts_in k ids p) (attempts k rest)) (
        record_batches-Tracks (record_batch t ids p) (bs ++ attempts_in k ids p) rest
          (record_batch-Tracks t bs ids p h))

-- The attempts that a test is given: those of its last registration, else one.
abbrev pub allowed : String → List (String × ℕ) → ℕ → ℕ
allowed k [] d = d
allowed k ((test_id, retry_count) ∷ tests) d =
    allowed k tests (if k == test_id then retry_count + 1 else d)

register_retries-Tracks :
    (k : String) (m : ℕ) (t : CompletionTracker) (j : String) (limit : ℕ)
    → Tracks k m t []
    → Tracks k (if k == j then limit else m) (register_retries t j limit) []
unfolding register_retries max_of count_of
register_retries-Tracks k m t j limit h = record {
  limit = ground (arith, h.limit, get-insert j k limit t.max_attempts);
  outcome = h.outcome;
  counted = h.counted;
}

register_all-Tracks :
    (k : String) (m : ℕ) (t : CompletionTracker) (tests : List (String × ℕ))
    → Tracks k m t []
    → Tracks k (allowed k tests m) (register_all t tests) []
unfolding register_all
register_all-Tracks k m t [] h = h
register_all-Tracks k m t ((j, r) ∷ tests) h =
    register_all-Tracks k (if k == j then r + 1 else m) (register_retries t j (r + 1)) tests
      (register_retries-Tracks k m t j (r + 1) h)

new-Tracks : (k : String) (n : ℕ) → Tracks k 1 (new n) []
unfolding new max_of count_of contains get
new-Tracks k n = record { limit = refl; outcome = refl; counted = λ _. refl }

-- Whatever batches the workers record, in whatever order, a test is decided exactly when some attempt
-- of it passed, or when it failed as often as its registration allows.
pub is_decided-record_batches :
    (total : ℕ) (tests : List (String × ℕ)) (batches : Batches) (k : String)
    → is_decided (record_batches (register_all (new total) tests) batches) k
      ≡ settled (allowed k tests 1) (attempts k batches)
unfolding is_decided
is_decided-record_batches total tests batches k =
    (record_batches-Tracks k (allowed k tests 1) (register_all (new total) tests) [] batches
      (register_all-Tracks k 1 (new total) tests (new-Tracks k total))).outcome
