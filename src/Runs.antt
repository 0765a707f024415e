-- ===== src/Runs.antt =====
-- Concrete inputs for the theorems about src/provider/retry.rs, src/orchestrator.rs and
-- src/framework.rs.
use offload.Base.{
  ℕ, ◌+◌, ◌≤◌, String, ◌≡◌, refl, Bool, true, false, none, some, List, [], ◌∷◌, map, ltb,
  if◌then◌else◌, sum_of, ◌==◌, comparable_number, comparable_text, ok, err, Action,
}
use offload.Framework.{TestInstance, TestRecord, test}
use offload.Framework.Matching.{
  Text, chars, resolved, conclude, reconstruct, suffix_len_of, resolve_test_id_suffix_matching,
  resolve_test_id_suffix_matching-reaching,
}
use offload.Instances.{tests_to_run, sum_of-tests_to_run}
use offload.Retry.Actions.{retry_action}
use offload.Retry.{ProviderError, Outcome, timeout, with_retry, with_retry-transient_run}

-- Two timeouts and then a value.
abbrev slow_start : ℕ → Outcome ℕ
slow_start i = if ltb i 2 then err timeout else ok i

with_retry-transient_run_example :
    (with_retry (500 ∷ 1000 ∷ []) slow_start ≡ (ok 2, 3)) × (2 + 1 ≤ 3)
unfolding offload.Retry.is_retryable
with_retry-transient_run_example = with_retry-transient_run (500 ∷ 1000 ∷ []) slow_start refl

abbrev record_of : String → ℕ → Bool → TestRecord
record_of id retry_count schedule_individual = record {
  id = id;
  name = id;
  file = none;
  retry_count = retry_count;
  group = "g";
  schedule_individual = schedule_individual;
}

abbrev some_tests : List TestRecord
some_tests = record_of "a" 2 true ∷ record_of "b" 1 false ∷ record_of "c" 0 true ∷ []

abbrev is_a : TestInstance → ℕ
is_a t = if t.id == "a" then 1 else 0

sum_of-tests_to_run_example : sum_of is_a (tests_to_run some_tests) ≡ 3
unfolding test
sum_of-tests_to_run_example = sum_of-tests_to_run is_a some_tests

interleaved : map (λ t. t.id) (tests_to_run some_tests) ≡ "a" ∷ "c" ∷ "a" ∷ "a" ∷ "b" ∷ "b" ∷ []
unfolding tests_to_run
interleaved = refl

abbrev batch_ids : List Text
batch_ids = chars "tests/test_x.py::test_a" ∷ chars "tests/test_x.py::test_b" ∷ []

resolve_test_id_suffix_matching-reaching_example :
    resolve_test_id_suffix_matching (chars "test_b") (some (chars "tests.test_x")) batch_ids
    ≡ resolved (chars "tests/test_x.py::test_b")
unfolding conclude reconstruct suffix_len_of
resolve_test_id_suffix_matching-reaching_example =
    resolve_test_id_suffix_matching-reaching (chars "test_b") (some (chars "tests.test_x"))
      batch_ids

-- A counter of evaluations is what changes: two timeouts and then a value.
abbrev counted : Action ℕ ProviderError ℕ
counted n = (slow_start n, n + 1)

-- Three evaluations, of which the last gives a value.
third_time : retry_action counted (1 ∷ 2 ∷ []) 0 ≡ (ok 2, 3)
unfolding retry_action offload.Retry.is_retryable
third_time = refl
