-- ===== src/Completion/Samples.antt =====
-- The tracker on small runs: tests, and the theorems at inputs that meet their hypotheses.
use offload.Base.{
  String, true, false, List, [], ◌∷◌, ◌≡◌, refl, arith, ℕ, comparable_text, contains, get, insert,
  add,
}
use offload.Completion.{Batches, new, register_all, record_batches, is_decided, all_complete}
use offload.Completion.Outcomes.{is_decided-record_batches}
use offload.Completion.Counting.{BatchesWithin, duplicates_never_complete}

-- "a" may be retried once: it fails, then passes. "b" fails its only attempt.
abbrev two_tests : List (String × ℕ)
two_tests = ("a", 1) ∷ ("b", 0) ∷ []

abbrev first_batch : Batches
first_batch = ("a" ∷ "b" ∷ [], λ _. false) ∷ []

abbrev both_batches : Batches
both_batches = ("a" ∷ "b" ∷ [], λ _. false) ∷ ("a" ∷ [], λ _. true) ∷ []

first_batch_decides_b :
    (is_decided (record_batches (register_all (new 2) two_tests) first_batch) "a" ≡ false)
    × (is_decided (record_batches (register_all (new 2) two_tests) first_batch) "b" ≡ true)
unfolding is_decided record_batches register_all new contains get insert add
first_batch_decides_b = (refl, refl)

both_batches_complete :
    all_complete (record_batches (register_all (new 2) two_tests) both_batches) ≡ true
unfolding all_complete record_batches register_all new contains get insert add
both_batches_complete = refl

is_decided-record_batches_example :
    is_decided (record_batches (register_all (new 2) two_tests) both_batches) "a" ≡ true
is_decided-record_batches_example = is_decided-record_batches 2 two_tests both_batches "a"

within_both : BatchesWithin ("a" ∷ "b" ∷ []) both_batches
unfolding contains
within_both = ((refl, (refl, tt)), ((refl, tt), tt))

-- The discovery found "a" in two groups.
duplicates_never_complete_example :
    all_complete (record_batches (register_all (new 3) (("a", 1) ∷ two_tests)) both_batches) ≡ false
duplicates_never_complete_example =
    duplicates_never_complete 3 (("a", 1) ∷ two_tests) ("a" ∷ "b" ∷ []) both_batches within_both
      (omega arith)
