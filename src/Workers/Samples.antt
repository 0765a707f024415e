-- ===== src/Workers/Samples.antt =====
-- Concrete runs for the theorems about src/orchestrator/spawn.rs.
use offload.Base.{
  ℕ, String, ◌≡◌, refl, false, List, [], ◌∷◌, arith, length, sum_of, comparable_number,
  comparable_text, contains,
}
use offload.Framework.{TestInstance}
use offload.Scheduler.Build.{ScheduledBatch, Scheduler}
use offload.Scheduler.Queue.{pop}
use offload.Completion
use offload.Completion.{register_all}
use offload.Workers.{idle, popped, take_batch, Run, Step, one_step, Reaches, here, next, start_run}
use offload.Workers.Conserved.{IsConsistent, Reaches-IsConsistent, holds_sandbox}
use offload.Workers.Endless.{holds_sandbox-endless}

abbrev test_a : TestInstance
test_a = record { id = "a"; group = "g"; schedule_individual = false }

abbrev batch_a : ScheduledBatch
batch_a = record { tests = test_a ∷ []; single_test_retry_counter = 0 }

abbrev with_queue : List ScheduledBatch → Scheduler
with_queue queue = record {
  queue = queue;
  batch_count = 1;
  batch_sizes = 1 ∷ [];
  impatiently_requeue_batches = false;
}

-- The id "a" was discovered twice.
abbrev discovered : List (String × ℕ)
discovered = ("a", 0) ∷ ("a", 0) ∷ []

abbrev start_a : Run
start_a = record {
  shared = record {
    scheduler = with_queue (batch_a ∷ []);
    tracker = register_all (Completion.new 2) discovered;
    batch_counter = 0;
    all_complete = false;
    is_cancelled = false;
    sandboxes_for_cleanup = 0;
  };
  workers = idle ∷ idle ∷ [];
}

abbrev taken_a : Run
taken_a = record {
  shared = record start_a.shared { scheduler = with_queue [] };
  workers = idle ∷ popped batch_a ∷ [];
}

second_takes : Step false start_a taken_a
unfolding pop
second_takes = one_step (idle ∷ []) [] (take_batch start_a.shared batch_a (with_queue []) refl)

reached :
    Reaches false
      (start_run (with_queue (batch_a ∷ [])) (register_all (Completion.new 2) discovered) 2)
      taken_a
unfolding start_run
reached = next here second_takes

Reaches-IsConsistent_example : IsConsistent 2 taken_a
Reaches-IsConsistent_example =
    Reaches-IsConsistent false (with_queue (batch_a ∷ []))
      (register_all (Completion.new 2) discovered) 2 taken_a reached

holds_sandbox-endless_example :
    (taken_a.shared.all_complete ≡ false)
    × (taken_a.shared.is_cancelled ≡ false)
    × (sum_of holds_sandbox taken_a.workers ≡ length taken_a.workers)
unfolding contains
holds_sandbox-endless_example =
    holds_sandbox-endless ("a" ∷ []) 2 discovered (with_queue (batch_a ∷ [])) 2 taken_a
      (omega arith) ((refl, tt), tt) reached
