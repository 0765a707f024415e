-- ===== src/Scheduler/Handout.antt =====
-- What the workers get of a new scheduler of src/orchestrator/scheduler.rs: how many batches, and how
-- often each test alone.
use offload.Base.{
  ℕ, zero, suc, ◌+◌, ◌-◌, ◌*◌, ◌/◌, ◌≤◌, ◌<◌, String, ◌≡◌, refl, sym, ap, ◌∙◌, inl, inr, Bool, true,
  false, List, [], ◌∷◌, arith, ltb, if◌then◌else◌, ltb→lt, lt→ltb, Bool-cases, length, take, drop,
  sum_of, All, length-append, take-append-drop, sum_of-append, All-imp, ◌==◌, comparable_number,
  comparable_text, sum_of-perm, length-perm,
}
use offload.Framework.{TestInstance}
use offload.Scheduler.Batch.{max_single_test_requeues}
use offload.Scheduler.Assign.{Durations}
use offload.Scheduler.Build.{ScheduledBatch, Scheduler}
use offload.Scheduler.Build
use offload.Scheduler.Queue.{followups}
use offload.Scheduler.Coverage.{queued_tests, queue-new-perm}
use offload.Scheduler.Limits.{IsRunnable, queue-new-IsRunnable}
use offload.Scheduler.Draining.{
  CounterInRange, pops_of, handed_out, sum_of-handed_out, length-handed_out,
}

abbrev pub occurrences : String → List TestInstance → ℕ
occurrences k = sum_of (λ t. if k == t.id then 1 else 0)

-- How often a batch hands out the test `k` alone.
abbrev pub alone : String → ScheduledBatch → ℕ
alone k b = if ltb 1 (length b.tests) then 0 else occurrences k b.tests

abbrev alone_left : String → Bool → ScheduledBatch → ℕ
alone_left k requeue b =
    if requeue
    then (if ltb 1 (length b.tests)
        then 4 * occurrences k b.tests
        else (max_single_test_requeues + 1 - b.single_test_retry_counter) * occurrences k b.tests)
    else alone k b

occurrences-halves :
    (k : String) (n : ℕ) (ts : List TestInstance)
    → occurrences k (take n ts) + occurrences k (drop n ts) ≡ occurrences k ts
occurrences-halves k n ts =
    sym (sum_of-append (λ (t : TestInstance). if k == t.id then 1 else 0) (take n ts) (drop n ts))
    ∙ ap (occurrences k) (take-append-drop n ts)

alone_left-fresh :
    (k : String) (ts : List TestInstance)
    → alone_left k true (record { tests = ts; single_test_retry_counter = 0 })
      ≡ 4 * occurrences k ts
alone_left-fresh k ts = ground arith

-- One of the `suc n` remaining times.
one_more : (c n : ℕ) → c < 3 → (4 - (c + 1)) * n + n ≡ (4 - c) * n
one_more zero n h = omega arith
one_more (suc zero) n h = omega arith
one_more (suc (suc zero)) n h = omega arith
one_more (suc (suc (suc c))) n h = absurd (omega arith)

last_one : (c n : ℕ) → c ≤ 3 → ¬ (c < 3) → 0 + n ≡ (4 - c) * n
last_one c n h k = let e : c ≡ 3 = omega arith in rw e (omega arith)

alone_left-followups :
    (k : String) (requeue : Bool) (b : ScheduledBatch)
    → CounterInRange b
    → sum_of (alone_left k requeue) (followups requeue b) + alone k b ≡ alone_left k requeue b
unfolding followups
alone_left-followups k false b h = ground arith
alone_left-followups k true b h = elim (Bool-cases (ltb 1 (length b.tests))) [
  | inl e ↦ rw e (
      omega (
        arith,
        alone_left-fresh k (take (length b.tests / 2) b.tests),
        alone_left-fresh k (drop (length b.tests / 2) b.tests),
        occurrences-halves k (length b.tests / 2) b.tests,
      ))
  | inr e ↦ elim (Bool-cases (ltb b.single_test_retry_counter max_single_test_requeues)) [
    | inl l ↦
        rw (e, l)
          (rw e (
            omega
              (arith, one_more b.single_test_retry_counter (occurrences k b.tests) (ltb→lt _ _ l))))
    | inr l ↦
        rw (e, l)
          (last_one b.single_test_retry_counter (occurrences k b.tests) h
            (λ m. cc (l, lt→ltb _ _ m)))
  ]
]

runnable-CounterInRange : (b : ScheduledBatch) → IsRunnable b → CounterInRange b
runnable-CounterInRange b h = omega (arith, h.fresh)

new-CounterInRange :
    (n : ℕ) (ts : List TestInstance) (ds gs : Durations) (requeue : Bool)
    → All CounterInRange (Build.new n ts ds gs requeue).queue
new-CounterInRange n ts ds gs requeue =
    All-imp runnable-CounterInRange _ (queue-new-IsRunnable n ts ds gs requeue)

-- The fields of a new scheduler are what they are named for.
pub requeue-new :
    (n : ℕ) (ts : List TestInstance) (ds gs : Durations) (requeue : Bool)
    → (Build.new n ts ds gs requeue).impatiently_requeue_batches ≡ requeue
unfolding Build.new
requeue-new n ts ds gs requeue = refl

batch_count-new :
    (n : ℕ) (ts : List TestInstance) (ds gs : Durations) (requeue : Bool)
    → (Build.new n ts ds gs requeue).batch_count ≡ length (Build.new n ts ds gs requeue).queue
unfolding Build.new
batch_count-new n ts ds gs requeue = refl

pops_of-runnable :
    (requeue : Bool) (q : List ScheduledBatch)
    → All IsRunnable q
    → sum_of (pops_of requeue) q + (if requeue then length q else 0)
      ≡ (if requeue then 5 * length (queued_tests q) else length q)
pops_of-runnable true [] h = refl
pops_of-runnable false [] h = refl
pops_of-runnable false (b ∷ q) h = omega (arith, pops_of-runnable false q h.1)
pops_of-runnable true (b ∷ q) h = ground (
  arith,
  pops_of-runnable true q h.1,
  h.0.some_test,
  h.0.fresh,
  length-append b.tests (queued_tests q),
)

length-queued-new :
    (n : ℕ) (ts : List TestInstance) (ds gs : Durations) (requeue : Bool)
    → length (queued_tests (Build.new n ts ds gs requeue).queue) ≡ length ts
length-queued-new n ts ds gs requeue = length-perm (queue-new-perm n ts ds gs requeue)

pops_of-le :
    (requeue : Bool) (q : List ScheduledBatch)
    → All IsRunnable q
    → sum_of (pops_of requeue) q ≤ 5 * length (queued_tests q)
pops_of-le requeue [] h = omega arith
pops_of-le requeue (b ∷ q) h = ground (
  arith,
  pops_of-le requeue q h.1,
  h.0.some_test,
  h.0.fresh,
  length-append b.tests (queued_tests q),
)

pops_left-new-le :
    (n : ℕ) (ts : List TestInstance) (ds gs : Durations) (requeue : Bool)
    → sum_of (pops_of requeue) (Build.new n ts ds gs requeue).queue ≤ 5 * length ts
pops_left-new-le n ts ds gs requeue = omega (
  arith,
  pops_of-le requeue _ (queue-new-IsRunnable n ts ds gs requeue),
  length-queued-new n ts ds gs requeue,
)

handed_out-new :
    (max_parallel : ℕ) (ts : List TestInstance) (ds gs : Durations) (requeue : Bool) (n : ℕ)
    → 5 * length ts ≤ n
    → length (handed_out n (Build.new max_parallel ts ds gs requeue))
      ≡ sum_of (pops_of requeue) (Build.new max_parallel ts ds gs requeue).queue
unfolding Build.new
handed_out-new max_parallel ts ds gs requeue n m =
    rw (requeue-new max_parallel ts ds gs requeue) at (
      length-handed_out (Build.new max_parallel ts ds gs requeue) n
        (new-CounterInRange max_parallel ts ds gs requeue)
        (rw (requeue-new max_parallel ts ds gs requeue)
          (omega (arith, pops_left-new-le max_parallel ts ds gs requeue))))

-- From a new scheduler workers get a fixed number of batches, however often they ask: without
-- re-queuing each batch once; with it, five for each test less one for each initial batch.
pub length-handed_out-new :
    (max_parallel : ℕ) (ts : List TestInstance) (ds gs : Durations) (requeue : Bool) (n : ℕ)
    → 5 * length ts ≤ n
    → length (handed_out n (Build.new max_parallel ts ds gs requeue))
        + (if requeue then (Build.new max_parallel ts ds gs requeue).batch_count else 0)
      ≡ (if requeue then 5 * length ts else (Build.new max_parallel ts ds gs requeue).batch_count)
length-handed_out-new max_parallel ts ds gs true n m = omega (
  arith,
  handed_out-new max_parallel ts ds gs true n m,
  batch_count-new max_parallel ts ds gs true,
  pops_of-runnable true _ (queue-new-IsRunnable max_parallel ts ds gs true),
  length-queued-new max_parallel ts ds gs true,
)
length-handed_out-new max_parallel ts ds gs false n m = omega (
  arith,
  handed_out-new max_parallel ts ds gs false n m,
  batch_count-new max_parallel ts ds gs false,
  pops_of-runnable false _ (queue-new-IsRunnable max_parallel ts ds gs false),
)

alone_left-new :
    (k : String) (q : List ScheduledBatch)
    → All IsRunnable q
    → sum_of (alone_left k true) q ≡ 4 * occurrences k (queued_tests q)
alone_left-new k [] h = refl
alone_left-new k (b ∷ q) h = ground (
  arith,
  h.0.fresh,
  alone_left-new k q h.1,
  sum_of-append (λ (t : TestInstance). if k == t.id then 1 else 0) b.tests (queued_tests q),
)

-- With re-queuing each scheduled instance of a test is handed out alone exactly four times, whatever
-- batches it was put into first.
pub alone-handed_out-new :
    (max_parallel : ℕ) (ts : List TestInstance) (ds gs : Durations) (k : String) (n : ℕ)
    → 5 * length ts ≤ n
    → sum_of (alone k) (handed_out n (Build.new max_parallel ts ds gs true)) ≡ 4 * occurrences k ts
alone-handed_out-new max_parallel ts ds gs k n m =
    let s = Build.new max_parallel ts ds gs true in
    omega (
      arith,
      sum_of-handed_out (alone_left k) (alone k) (alone_left-followups k) true n s
          (requeue-new max_parallel ts ds gs true) (new-CounterInRange max_parallel ts ds gs true)
          (omega (arith, pops_left-new-le max_parallel ts ds gs true)),
      alone_left-new k s.queue (queue-new-IsRunnable max_parallel ts ds gs true),
      sum_of-perm (λ (t : TestInstance). if k == t.id then 1 else 0)
          (queue-new-perm max_parallel ts ds gs true),
    )
