-- ===== src/Scheduler/Queue.antt =====
-- `pop`, `enqueue_followups` and `push` of src/orchestrator/scheduler.rs. A `pop` that would wait for a
-- notification is `none`: the queue was empty.
use offload.Base.{
  ◌+◌, ◌/◌, Bool, Option, none, some, List, [], ◌∷◌, ◌++◌, ltb, if◌then◌else◌, length, take, drop,
}
use offload.Scheduler.Batch.{max_single_test_requeues}
use offload.Scheduler.Build.{ScheduledBatch, Scheduler}

-- What `enqueue_followups` pushes, in order.
unfoldable pub followups : Bool → ScheduledBatch → List ScheduledBatch
followups requeue batch =
    let mid = length batch.tests / 2 in
    if requeue
    then (if ltb 1 (length batch.tests)
        then record { tests = take mid batch.tests; single_test_retry_counter = 0 }
          ∷ record { tests = drop mid batch.tests; single_test_retry_counter = 0 }
          ∷ []
        else if ltb batch.single_test_retry_counter max_single_test_requeues
        then record {
          tests = batch.tests;
          single_test_retry_counter = batch.single_test_retry_counter + 1;
        }
          ∷ []
        else [])
    else []

unfoldable pub push : Scheduler → ScheduledBatch → Scheduler
push s batch = record s { queue = s.queue ++ batch ∷ [] }

unfoldable pub push_all : Scheduler → List ScheduledBatch → Scheduler
unfolding push
push_all s [] = s
push_all s (b ∷ bs) = push_all (push s b) bs

unfoldable pub enqueue_followups : Scheduler → ScheduledBatch → Scheduler
unfolding push_all followups
enqueue_followups s batch = push_all s (followups s.impatiently_requeue_batches batch)

unfoldable pub pop : Scheduler → Option (ScheduledBatch × Scheduler)
unfolding enqueue_followups
pop s = elim s.queue [
  | [] ↦ none
  | batch ∷ rest ↦ some (batch, enqueue_followups (record s { queue = rest }) batch)
]
