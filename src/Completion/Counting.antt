-- ===== src/Completion/Counting.antt =====
-- How many tests the tracker of src/orchestrator/completion.rs can decide.
use offload.Base.{
  ℕ, suc, ◌+◌, ◌≤◌, ◌<◌, String, ◌≡◌, refl, Bool, true, false, List, [], ◌∷◌, arith, if◌then◌else◌,
  length, All, ◌==◌, comparable_number, comparable_text, contains, add, Distinct, Distinct-add,
}
use offload.Completion.{
  CompletionTracker, record_test, record_batch, record_batches, decided_count, all_complete,
  Batches, new, register_all, register_retries,
}

-- Every element of the first list is in the second.
abbrev pub Within : List String → List String → Type 0
Within xs s = All (λ k. contains k s ≡ true) xs

without : String → List String → List String
without k [] = []
without k (j ∷ s) = if k == j then s else j ∷ without k s

length-without :
    (k : String) (s : List String) → contains k s ≡ true → length s ≡ suc (length (without k s))
unfolding without contains
length-without k [] h = cc
length-without k (j ∷ s) h = ground (arith, length-without k s)

contains-without :
    (k j : String) (s : List String) → (j == k) ≡ false → contains j (without k s) ≡ contains j s
unfolding without contains
contains-without k j [] h = refl
contains-without k j (i ∷ s) h = ground (
  arith,
  contains-without k j s,
  comparable_text.same_iff k i,
  comparable_text.same_iff j i,
  comparable_text.same_iff j k,
)

Within-without :
    (k : String) (xs s : List String)
    → contains k xs ≡ false
    → Within xs s
    → Within xs (without k s)
unfolding contains
Within-without k [] s n h = tt
Within-without k (x ∷ xs) s n h = (
  ground (
    arith,
    contains-without k x s,
    comparable_text.same_iff k x,
    comparable_text.same_iff x k,
    h.0,
  ),
  Within-without k xs s (ground arith) h.1,
)

-- The pigeonhole principle.
pub length-Within : (xs s : List String) → Distinct xs → Within xs s → length xs ≤ length s
length-Within [] s d h = omega arith
length-Within (x ∷ xs) s d h = omega (
  arith,
  length-without x s h.0,
  length-Within xs (without x s) d.1 (Within-without x xs s d.0 h.1),
)

-- Each test of each batch is one of `s`.
abbrev pub BatchesWithin : List String → Batches → Type 0
BatchesWithin s batches = All (λ b. Within b.0 s) batches

pub record Counts (s : List String) (n : ℕ) (t : CompletionTracker) : Type 0 where
  pub distinct : Distinct t.decided
  pub within : Within t.decided s
  pub total : t.total_expected ≡ n

module _ (s : List String) (n : ℕ) where
  Within-add :
      (k : String) (xs : List String) → contains k s ≡ true → Within xs s → Within (add k xs) s
  unfolding add
  Within-add k xs e h = ground arith

  record_test-Counts :
      (t : CompletionTracker) (k : String) (b : Bool)
      → contains k s ≡ true
      → Counts s n t
      → Counts s n (record_test t k b)
  unfolding record_test
  record_test-Counts t k b e h =
      ground
        (arith, Distinct-add k t.decided h.distinct, Within-add k t.decided e h.within, h.total)

  pub record_batch-Counts :
      (t : CompletionTracker) (test_ids : List String) (p : String → Bool)
      → Within test_ids s
      → Counts s n t
      → Counts s n (record_batch t test_ids p)
  unfolding record_batch
  record_batch-Counts t [] p w h = h
  record_batch-Counts t (k ∷ ks) p w h =
      record_batch-Counts (record_test t k (p k)) ks p w.1 (record_test-Counts t k (p k) w.0 h)

  record_batches-Counts :
      (t : CompletionTracker) (batches : Batches)
      → BatchesWithin s batches
      → Counts s n t
      → Counts s n (record_batches t batches)
  unfolding record_batches
  record_batches-Counts t [] w h = h
  record_batches-Counts t ((ks, p) ∷ rest) w h =
      record_batches-Counts (record_batch t ks p) rest w.1 (record_batch-Counts t ks p w.0 h)

  pub register_all-Counts :
      (t : CompletionTracker) (tests : List (String × ℕ))
      → Counts s n t
      → Counts s n (register_all t tests)
  unfolding register_all register_retries
  register_all-Counts t [] h = h
  register_all-Counts t ((j, r) ∷ tests) h =
      register_all-Counts (register_retries t j (r + 1)) tests
        (record { distinct = h.distinct; within = h.within; total = h.total })

  pub new-Counts : Counts s n (new n)
  unfolding new
  new-Counts = record { distinct = tt; within = tt; total = refl }

-- Where the run's batches hold only ids of `ids`, at most as many tests are decided as `ids` has.
decided_count-le-length :
    (total : ℕ) (tests : List (String × ℕ)) (ids : List String) (batches : Batches)
    → BatchesWithin ids batches
    → decided_count (record_batches (register_all (new total) tests) batches) ≤ length ids
unfolding decided_count
decided_count-le-length total tests ids batches w =
    let c =
      record_batches-Counts ids total (register_all (new total) tests) batches w
        (register_all-Counts ids total (new total) tests (new-Counts ids total)) in
    length-Within _ ids c.distinct c.within

-- A run that expects more tests than there are ids is never complete, whatever its batches report:
-- one discovered id that occurs twice is enough, since the total counts both.
pub duplicates_never_complete :
    (total : ℕ) (tests : List (String × ℕ)) (ids : List String) (batches : Batches)
    → BatchesWithin ids batches
    → length ids < total
    → all_complete (record_batches (register_all (new total) tests) batches) ≡ false
unfolding all_complete
duplicates_never_complete total tests ids batches w h = ground (
  arith,
  decided_count-le-length total tests ids batches w,
  (record_batches-Counts ids total (register_all (new total) tests) batches w
      (register_all-Counts ids total (new total) tests (new-Counts ids total))).total,
)
