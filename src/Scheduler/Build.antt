-- ===== src/Scheduler/Build.antt =====
-- `Scheduler::new` of src/orchestrator/scheduler.rs.
use offload.Base.{
  ℕ, min, max, Bool, not, List, [], ◌∷◌, ◌++◌, map, leb, length, replicate, keep, sort_by,
}
use offload.Framework.{TestInstance}
use offload.Scheduler.Batch
use offload.Scheduler.Batch.{Batch}
use offload.Scheduler.Assign.{Durations, duration_of, assign_all}

pub record ScheduledBatch : Type 0 where
  pub tests : List TestInstance
  pub single_test_retry_counter : ℕ

-- The queue's mutex and the notification are left out: each operation is one step.
pub record Scheduler : Type 0 where
  pub queue : List ScheduledBatch
  pub batch_count : ℕ
  pub batch_sizes : List ℕ
  pub impatiently_requeue_batches : Bool

unfoldable pub single : TestInstance → ScheduledBatch
single t = record { tests = t ∷ []; single_test_retry_counter = 0 }

unfoldable pub scheduled : Batch → ScheduledBatch
scheduled b = record { tests = b.tests; single_test_retry_counter = 0 }

-- Longest first.
abbrev pub longer_first : TestInstance × ℕ → TestInstance × ℕ → Bool
longer_first (s, c) (t, d) = leb d c

abbrev pub heavier_first : Batch → Batch → Bool
heavier_first a b = leb b.load a.load

unfoldable pub tests_with_duration :
    Durations → Durations → List TestInstance → List (TestInstance × ℕ)
unfolding duration_of sort_by
tests_with_duration durations groups tests =
    sort_by longer_first (map (λ t. (t, duration_of durations groups t)) tests)

-- The batches after the assignment loop, before they are sorted.
unfoldable pub lpt_batches : ℕ → Durations → Durations → List TestInstance → List Batch
unfolding tests_with_duration assign_all
lpt_batches max_parallel durations groups normal_tests =
    assign_all (replicate (min max_parallel (length normal_tests)) Batch.new)
      (tests_with_duration durations groups normal_tests)

-- The batches of the normal tests, heaviest first and none empty; with no normal test the constructor
-- returns before it makes any.
unfoldable pub lpt_queue : ℕ → Durations → Durations → List TestInstance → List ScheduledBatch
unfolding scheduled lpt_batches sort_by Batch.is_empty
lpt_queue max_parallel durations groups [] = []
lpt_queue max_parallel durations groups (t ∷ ts) = map scheduled (
    keep (λ b. not (Batch.is_empty b))
      (sort_by heavier_first (lpt_batches max_parallel durations groups (t ∷ ts))))

-- Individually scheduled tests come first, one to a batch.
unfoldable pub initial_queue : ℕ → List TestInstance → Durations → Durations → List ScheduledBatch
unfolding single lpt_queue
initial_queue max_parallel tests durations groups =
    map single (keep (λ t. t.schedule_individual) tests)
    ++ lpt_queue (max max_parallel 1) durations groups (keep (λ t. not t.schedule_individual) tests)

unfoldable pub new : ℕ → List TestInstance → Durations → Durations → Bool → Scheduler
unfolding initial_queue
new max_parallel tests durations groups impatiently_requeue_batches =
    let queue : List ScheduledBatch = elim tests [
      | [] ↦ []
      | t ∷ ts ↦ initial_queue max_parallel (t ∷ ts) durations groups
    ] in
    record {
      queue = queue;
      batch_count = length queue;
      batch_sizes = map (λ b. length b.tests) queue;
      impatiently_requeue_batches = impatiently_requeue_batches;
    }
