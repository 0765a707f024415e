-- ===== src/Completion.antt =====
-- src/orchestrator/completion.rs: which tests have a decided outcome. A test is decided when it has
-- passed, or when its attempts are used up. The mutex around the tracker is the caller's.
pub mod Outcomes
pub mod Counting
mod Samples
use offload.Base.{
  comparable_text, comparable_number, ◌==◌, ℕ, suc, ◌+◌, String, Bool, true, false, Option, none,
  some, List, [], ◌∷◌, length, leb, if◌then◌else◌, unwrap_or, contains, add, get, insert, ◌≡◌,
}

pub record CompletionTracker : Type 0 where
  pub max_attempts : List (String × ℕ)
  pub attempt_counts : List (String × ℕ)
  pub decided : List String
  pub total_expected : ℕ

unfoldable pub new : ℕ → CompletionTracker
new total_expected = record {
  max_attempts = [];
  attempt_counts = [];
  decided = [];
  total_expected = total_expected;
}

unfoldable pub register_retries : CompletionTracker → String → ℕ → CompletionTracker
register_retries t test_id max_attempts = record t {
  max_attempts = insert test_id max_attempts t.max_attempts;
}

-- `self.max_attempts.get(test_id).copied().unwrap_or(1)`
unfoldable pub max_of : CompletionTracker → String → ℕ
max_of t test_id = unwrap_or (get test_id t.max_attempts) 1

-- `entry(test_id).or_insert(0)`, then the count that stands there.
unfoldable pub count_of : CompletionTracker → String → ℕ
count_of t test_id = unwrap_or (get test_id t.attempt_counts) 0

-- The count is written before it is read, so that the index `self.attempt_counts[test_id]` is there.
unfoldable pub count_attempt : CompletionTracker → String → CompletionTracker
unfolding count_of
count_attempt t test_id = record t {
  attempt_counts = insert test_id (count_of t test_id + 1) t.attempt_counts;
}

-- The value of `let decided`.
unfoldable pub is_settled : CompletionTracker → String → Bool → Bool
unfolding count_of max_of
is_settled t test_id passed = if passed then true else leb (max_of t test_id) (count_of t test_id)

-- The body of the loop of `record_batch`, after the early `continue`.
unfoldable pub record_attempt : CompletionTracker → String → Bool → CompletionTracker
unfolding count_attempt is_settled
record_attempt t test_id passed =
    let counted = count_attempt t test_id in
    if is_settled counted test_id passed
    then record counted { decided = add test_id counted.decided }
    else counted

unfoldable pub record_test : CompletionTracker → String → Bool → CompletionTracker
unfolding record_attempt
record_test t test_id passed =
    if contains test_id t.decided then t else record_attempt t test_id passed

unfoldable pub record_batch : CompletionTracker → List String → (String → Bool) → CompletionTracker
unfolding record_test
record_batch t [] is_passed = t
record_batch t (test_id ∷ test_ids) is_passed =
    record_batch (record_test t test_id (is_passed test_id)) test_ids is_passed

unfoldable pub is_decided : CompletionTracker → String → Bool
is_decided t test_id = contains test_id t.decided

unfoldable pub decided_count : CompletionTracker → ℕ
decided_count t = length t.decided

unfoldable pub all_complete : CompletionTracker → Bool
unfolding decided_count
all_complete t = decided_count t == t.total_expected

-- The loop of src/orchestrator.rs that registers each discovered test with its attempts.
unfoldable pub register_all : CompletionTracker → List (String × ℕ) → CompletionTracker
unfolding register_retries
register_all t [] = t
register_all t ((test_id, retry_count) ∷ tests) =
    register_all (register_retries t test_id (retry_count + 1)) tests

-- Batches, in the order in which the workers record them; each asks the report as it then is.
abbrev pub Batches : Type 0
Batches = List (List String × (String → Bool))

unfoldable pub record_batches : CompletionTracker → Batches → CompletionTracker
unfolding record_batch
record_batches t [] = t
record_batches t ((test_ids, is_passed) ∷ rest) =
    record_batches (record_batch t test_ids is_passed) rest
