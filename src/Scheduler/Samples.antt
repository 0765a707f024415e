-- ===== src/Scheduler/Samples.antt =====
-- The scheduler on small inputs: tests, and the theorems at inputs that meet their hypotheses.
use offload.Base.{
  ◌+◌, ◌≤◌, String, ◌≡◌, refl, true, false, List, [], ◌∷◌, map, Perm, arith, length, sum_of, All,
  comparable_number, comparable_text, contains, add, get, insert_by,
}
use offload.Framework.{TestInstance}
use offload.Scheduler.Assign.{Durations, duration_of}
use offload.Scheduler.Build.{ScheduledBatch, Scheduler, lpt_queue}
use offload.Scheduler.Build
use offload.Scheduler.Batch
use offload.Scheduler.Queue.{pop}
use offload.Scheduler.Coverage.{queued_tests, queue-new-perm}
use offload.Scheduler.Limits.{IsRunnable, queue-new-IsRunnable}
use offload.Scheduler.Draining.{handed_out, length-handed_out}
use offload.Scheduler.Handout.{alone, length-handed_out-new, alone-handed_out-new}
use offload.Scheduler.Factor.{time_of, lpt_queue-le-twice}

abbrev normal_test : String → TestInstance
normal_test id = record { id = id; group = "g"; schedule_individual = false }

abbrev alone_test : String → TestInstance
alone_test id = record { id = id; group = "g"; schedule_individual = true }

abbrev three : List TestInstance
three = normal_test "a" ∷ normal_test "b" ∷ normal_test "c" ∷ []

abbrev mixed : List TestInstance
mixed = normal_test "a" ∷ alone_test "x" ∷ normal_test "b" ∷ normal_test "c" ∷ []

abbrev times : Durations
times = ("a", 5) ∷ ("b", 3) ∷ ("c", 4) ∷ []

abbrev ids_in : ScheduledBatch → List String
ids_in b = map (λ t. t.id) b.tests

-- The longest test goes to the first of two batches, the other two to the second, which is heavier.
heaviest_first :
    map ids_in (Build.new 2 mixed times [] false).queue
    ≡ ("x" ∷ []) ∷ ("c" ∷ "b" ∷ []) ∷ ("a" ∷ []) ∷ []
unfolding Build.new Build.initial_queue insert_by get contains add Batch.new
heaviest_first = refl

same_id_twice :
    map ids_in (Build.new 1 (normal_test "a" ∷ normal_test "a" ∷ []) times [] false).queue
    ≡ ("a" ∷ []) ∷ ("a" ∷ []) ∷ []
unfolding Build.new Build.initial_queue insert_by get contains add Batch.new
same_id_twice = refl

handed_out_once :
    map ids_in (handed_out 20 (Build.new 1 (normal_test "a" ∷ normal_test "b" ∷ []) times [] true))
    ≡ ("a" ∷ "b" ∷ [])
      ∷ ("a" ∷ [])
      ∷ ("b" ∷ [])
      ∷ ("a" ∷ [])
      ∷ ("b" ∷ [])
      ∷ ("a" ∷ [])
      ∷ ("b" ∷ [])
      ∷ ("a" ∷ [])
      ∷ ("b" ∷ [])
      ∷ []
unfolding handed_out pop Build.new Build.initial_queue insert_by get contains add Batch.new
handed_out_once = refl

queue-new-perm_example : Perm (queued_tests (Build.new 2 mixed times [] true).queue) mixed
queue-new-perm_example = queue-new-perm 2 mixed times [] true

queue-new-IsRunnable_example : All IsRunnable (Build.new 2 mixed times [] true).queue
queue-new-IsRunnable_example = queue-new-IsRunnable 2 mixed times [] true

abbrev one_batch : Scheduler
one_batch = record {
  queue = record { tests = three; single_test_retry_counter = 0 } ∷ [];
  batch_count = 1;
  batch_sizes = 3 ∷ [];
  impatiently_requeue_batches = true;
}

length-handed_out_example : length (handed_out 20 one_batch) ≡ 14
length-handed_out_example = length-handed_out one_batch 20 (omega arith) (omega arith)

length-handed_out-new_example :
    length (handed_out 20 (Build.new 2 mixed times [] true))
      + (Build.new 2 mixed times [] true).batch_count
    ≡ 20
length-handed_out-new_example = length-handed_out-new 2 mixed times [] true 20 (omega arith)

alone-handed_out-new_example :
    sum_of (alone "b") (handed_out 20 (Build.new 2 mixed times [] true)) ≡ 4
alone-handed_out-new_example = alone-handed_out-new 2 mixed times [] "b" 20 (omega arith)

lpt_queue-le-twice_example :
    (length (lpt_queue 2 times [] three) ≤ 2)
    × All (λ b. time_of times [] b.tests ≤ 12) (lpt_queue 2 times [] three)
unfolding duration_of get contains
lpt_queue-le-twice_example =
    lpt_queue-le-twice 2 times [] three 6 (omega arith) (refl, (refl, (refl, tt))) (omega arith)
      (omega arith) (omega arith)
