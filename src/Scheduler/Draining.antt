-- ===== src/Scheduler/Draining.antt =====
-- The running queue of src/orchestrator/scheduler.rs hands out a fixed number of batches, and then is
-- empty.
use offload.Base.{
  ℕ, zero, suc, ◌+◌, ◌-◌, ◌*◌, ◌/◌, ◌≤◌, ◌<◌, ◌≡◌, refl, sym, ◌∙◌, ◌⊎◌, inl, inr, Bool, none, some,
  List, [], ◌∷◌, ◌++◌, append-nil, append_assoc, arith, ltb, if◌then◌else◌, length, sum_of, All,
  length-take, length-drop, sum_of-append, All-append, comparable_number, comparable_text,
}
use offload.Scheduler.Batch.{max_single_test_requeues}
use offload.Scheduler.Build.{ScheduledBatch, Scheduler}
use offload.Scheduler.Queue.{followups, push, push_all, enqueue_followups, pop}

abbrev pub CounterInRange : ScheduledBatch → Type 0
CounterInRange b = b.single_test_retry_counter ≤ max_single_test_requeues

-- How often a batch and what comes of it are handed out: a batch of one test until its counter has
-- reached its limit; of n > 1 tests, itself, its n - 2 smaller parts and four times each test.
abbrev pub pops_of : Bool → ScheduledBatch → ℕ
pops_of requeue b =
    if requeue
    then (if ltb 1 (length b.tests)
        then 5 * length b.tests - 1
        else max_single_test_requeues + 1 - b.single_test_retry_counter)
    else 1

abbrev pub pops_left : Scheduler → ℕ
pops_left s = sum_of (pops_of s.impatiently_requeue_batches) s.queue

pops_of-followups :
    (requeue : Bool) (b : ScheduledBatch)
    → CounterInRange b
    → sum_of (pops_of requeue) (followups requeue b) + 1 ≡ pops_of requeue b
unfolding followups
pops_of-followups requeue b h =
    ground
      (arith, length-take (length b.tests / 2) b.tests, length-drop (length b.tests / 2) b.tests)

followups-CounterInRange :
    (requeue : Bool) (b : ScheduledBatch)
    → CounterInRange b
    → All CounterInRange (followups requeue b)
unfolding followups
followups-CounterInRange requeue b h = ground arith

queue-push_all : (s : Scheduler) (bs : List ScheduledBatch) → (push_all s bs).queue ≡ s.queue ++ bs
unfolding push_all
queue-push_all s [] = sym (append-nil s.queue)
queue-push_all s (b ∷ bs) =
    queue-push_all (push s b) bs ∙ unfold push in append_assoc s.queue (b ∷ []) bs

requeue-push_all :
    (s : Scheduler) (bs : List ScheduledBatch)
    → (push_all s bs).impatiently_requeue_batches ≡ s.impatiently_requeue_batches
unfolding push_all push
requeue-push_all s [] = refl
requeue-push_all s (b ∷ bs) = requeue-push_all (push s b) bs

sum_of-push_all :
    (f : ScheduledBatch → ℕ) (s : Scheduler) (bs : List ScheduledBatch)
    → sum_of f (push_all s bs).queue ≡ sum_of f s.queue + sum_of f bs
sum_of-push_all f s bs = rw (queue-push_all s bs) (sum_of-append f s.queue bs)

-- The state behind a `pop`.
abbrev after_pop : Scheduler → ScheduledBatch → List ScheduledBatch → Scheduler
after_pop s b rest = enqueue_followups (record s { queue = rest }) b

pop-cases :
    (s : Scheduler)
    → ((s.queue ≡ []) × (pop s ≡ none))
      ⊎ ((b : ScheduledBatch) × (rest : List ScheduledBatch) × (s.queue ≡ b ∷ rest)
          × (pop s ≡ some (b, after_pop s b rest)))
unfolding pop
pop-cases s = go s.queue refl
  where
    go :
        (q : List ScheduledBatch)
        → s.queue ≡ q
        → ((s.queue ≡ []) × (pop s ≡ none))
          ⊎ ((b : ScheduledBatch) × (rest : List ScheduledBatch) × (s.queue ≡ b ∷ rest)
              × (pop s ≡ some (b, after_pop s b rest)))
    go [] e = inl (e, rw (e, pop) refl)
    go (b ∷ rest) e = inr (b, rest, e, rw (e, pop) refl)

sum_of-after_pop :
    (f : ScheduledBatch → ℕ) (s : Scheduler) (b : ScheduledBatch) (rest : List ScheduledBatch)
    → sum_of f (after_pop s b rest).queue
      ≡ sum_of f rest + sum_of f (followups s.impatiently_requeue_batches b)
unfolding enqueue_followups
sum_of-after_pop f s b rest =
    sum_of-push_all f (record s { queue = rest }) (followups s.impatiently_requeue_batches b)

requeue-after_pop :
    (s : Scheduler) (b : ScheduledBatch) (rest : List ScheduledBatch)
    → (after_pop s b rest).impatiently_requeue_batches ≡ s.impatiently_requeue_batches
unfolding enqueue_followups
requeue-after_pop s b rest =
    requeue-push_all (record s { queue = rest }) (followups s.impatiently_requeue_batches b)

after_pop-CounterInRange :
    (s : Scheduler) (b : ScheduledBatch) (rest : List ScheduledBatch)
    → CounterInRange b
    → All CounterInRange rest
    → All CounterInRange (after_pop s b rest).queue
unfolding enqueue_followups
after_pop-CounterInRange s b rest h k =
    rw (queue-push_all (record s { queue = rest }) (followups s.impatiently_requeue_batches b)) (
      All-append CounterInRange rest _ k
        (followups-CounterInRange s.impatiently_requeue_batches b h))

pops_of-pos : (requeue : Bool) (b : ScheduledBatch) → CounterInRange b → 0 < pops_of requeue b
pops_of-pos requeue b h = ground arith

-- The batches that workers get from `n` calls of `pop`, as long as none has to wait.
unfoldable pub handed_out : ℕ → Scheduler → List ScheduledBatch
handed_out zero s = []
handed_out (suc n) s = elim (pop s) [ none ↦ [] | some (b, s') ↦ b ∷ handed_out n s' ]

-- A rule for what workers get: `left` is what a queued batch has left, `got` what its pop yields.
module _ (left : Bool → ScheduledBatch → ℕ) (got : ScheduledBatch → ℕ)
    (spend : (requeue : Bool) (b : ScheduledBatch)
      → CounterInRange b
      → sum_of (left requeue) (followups requeue b) + got b ≡ left requeue b) where
  pub sum_of-handed_out :
      (requeue : Bool) (n : ℕ) (s : Scheduler)
      → s.impatiently_requeue_batches ≡ requeue
      → All CounterInRange s.queue
      → sum_of (pops_of requeue) s.queue ≤ n
      → sum_of got (handed_out n s) ≡ sum_of (left requeue) s.queue
  unfolding handed_out
  sum_of-handed_out requeue zero s r h m = elim (pop-cases s) [
    | inl (e, _) ↦ rw e refl
    | inr (b, rest, e, _) ↦
        let c : All CounterInRange (b ∷ rest) = rw e at h in
        let k : sum_of (pops_of requeue) (b ∷ rest) ≤ 0 = rw e at m in
        absurd (omega (arith, pops_of-pos requeue b c.0))
  ]
  sum_of-handed_out requeue (suc n) s r h m = elim (pop-cases s) [
    | inl (e, p) ↦ rw (p, handed_out) (rw e refl)
    | inr (b, rest, e, p) ↦
        let c : All CounterInRange (b ∷ rest) = rw e at h in
        let k : sum_of (pops_of requeue) (b ∷ rest) ≤ suc n = rw e at m in
        let f : sum_of (left requeue) (after_pop s b rest).queue
            ≡ sum_of (left requeue) rest + sum_of (left requeue) (followups requeue b) =
          rw (← r) (sum_of-after_pop (left s.impatiently_requeue_batches) s b rest) in
        let g : sum_of (pops_of requeue) (after_pop s b rest).queue
            ≡ sum_of (pops_of requeue) rest + sum_of (pops_of requeue) (followups requeue b) =
          rw (← r) (sum_of-after_pop (pops_of s.impatiently_requeue_batches) s b rest) in
        rw (p, handed_out)
          (rw e (
            omega (
              arith,
              spend requeue b c.0,
              pops_of-followups requeue b c.0,
              f,
              g,
              sum_of-handed_out requeue n (after_pop s b rest) (requeue-after_pop s b rest ∙ r)
                  (after_pop-CounterInRange s b rest c.0 c.1)
                  (omega (arith, g, pops_of-followups requeue b c.0)),
            )))
  ]

sum_of_one : (bs : List ScheduledBatch) → sum_of (λ _. 1) bs ≡ length bs
sum_of_one [] = refl
sum_of_one (b ∷ bs) = omega (arith, sum_of_one bs)

-- Whatever batches are in the queue, workers get exactly `pops_left` batches from it, however often they
-- ask: the re-queuing ends.
pub length-handed_out :
    (s : Scheduler) (n : ℕ)
    → All CounterInRange s.queue
    → pops_left s ≤ n
    → length (handed_out n s) ≡ pops_left s
length-handed_out s n h m =
    sym (sum_of_one (handed_out n s))
    ∙ sum_of-handed_out pops_of (λ _. 1) pops_of-followups s.impatiently_requeue_batches n s refl h
        m
