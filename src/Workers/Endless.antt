-- ===== src/Workers/Endless.antt =====
-- A run of src/orchestrator/spawn.rs whose tracker expects more tests than there are test ids.
use offload.Base.{
  ℕ, zero, suc, ◌/◌, ◌<◌, String, ◌≡◌, refl, subst, inl, inr, Bool, true, false, Option, none, some,
  List, [], ◌∷◌, map, arith, ltb, Bool-cases, length, take, drop, sum_of, All, All-append,
  All-replicate, comparable_number, comparable_text,
}
use offload.Framework.{TestInstance}
use offload.Scheduler.Build.{ScheduledBatch, Scheduler}
use offload.Scheduler.Queue.{followups, push, push_all, enqueue_followups, pop}
use offload.Completion
use offload.Completion.{CompletionTracker, all_complete, decided_count, register_all}
use offload.Completion.Counting.{
  Within, Counts, length-Within, record_batch-Counts, register_all-Counts, new-Counts,
}
use offload.Workers.{
  Phase, idle, popped, numbered, admitted, running, finished, updating, completing, done, Shared,
  test_ids, exits_early, give_back, handle_outcome, completes, WorkerStep, take_batch, leave,
  number, exit_early, admit, skip, start, run_recorded, run_unrecorded, handle, next_round,
  complete, cancel_all, Run, Step, one_step, Reaches, here, next, start_run,
}
use offload.Workers.Conserved.{All-at, All-replaced, holds_sandbox}

-- All tests of a batch are among the ids.
abbrev pub IsOf : List String → ScheduledBatch → Type 0
IsOf ids batch = Within (test_ids batch) ids

abbrev PhaseOf : List String → Phase → Type 0
PhaseOf ids (popped batch) = IsOf ids batch
PhaseOf ids (numbered idx batch) = IsOf ids batch
PhaseOf ids (admitted idx batch) = IsOf ids batch
PhaseOf ids (running idx batch) = IsOf ids batch
PhaseOf ids (completing idx) = true ≡ false
PhaseOf ids done = true ≡ false
PhaseOf ids _ = ids ≡ ids

module _ (ids : List String) where
  Within-take :
      (n : ℕ) (ts : List TestInstance)
      → Within (map (λ t. t.id) ts) ids
      → Within (map (λ t. t.id) (take n ts)) ids
  Within-take zero ts h = tt
  Within-take (suc n) [] h = h
  Within-take (suc n) (t ∷ ts) h = (h.0, Within-take n ts h.1)

  Within-drop :
      (n : ℕ) (ts : List TestInstance)
      → Within (map (λ t. t.id) ts) ids
      → Within (map (λ t. t.id) (drop n ts)) ids
  Within-drop zero ts h = h
  Within-drop (suc n) [] h = h
  Within-drop (suc n) (t ∷ ts) h = Within-drop n ts h.1

  followups-IsOf :
      (requeue : Bool) (b : ScheduledBatch) → IsOf ids b → All (IsOf ids) (followups requeue b)
  unfolding followups
  followups-IsOf false b h = tt
  followups-IsOf true b h = elim (Bool-cases (ltb 1 (length b.tests))) [
    | inl e ↦ rw e (
      Within-take (length b.tests / 2) b.tests h,
      (Within-drop (length b.tests / 2) b.tests h, tt),
    )
    | inr e ↦ rw e (elim (Bool-cases (ltb b.single_test_retry_counter 3)) [
      | inl g ↦ rw g (h, tt)
      | inr g ↦ rw g tt
    ])
  ]

  push_all-IsOf :
      (s : Scheduler) (bs : List ScheduledBatch)
      → All (IsOf ids) s.queue
      → All (IsOf ids) bs
      → All (IsOf ids) (push_all s bs).queue
  unfolding push_all push
  push_all-IsOf s [] h k = h
  push_all-IsOf s (b ∷ bs) h k =
      push_all-IsOf (push s b) bs (All-append (IsOf ids) s.queue (b ∷ []) h (k.0, tt)) k.1

  abbrev Handed : Option (ScheduledBatch × Scheduler) → Type 0
  Handed none = ids ≡ ids
  Handed (some (b, u)) = IsOf ids b × All (IsOf ids) u.queue

  queue-Handed :
      (queue : List ScheduledBatch) (batch_count : ℕ) (batch_sizes : List ℕ) (requeue : Bool)
      → All (IsOf ids) queue
      → (let s : Scheduler = record {
        queue = queue;
        batch_count = batch_count;
        batch_sizes = batch_sizes;
        impatiently_requeue_batches = requeue;
      } in
          Handed (pop s))
  unfolding pop enqueue_followups
  queue-Handed [] c sizes requeue h = refl
  queue-Handed (b ∷ rest) c sizes requeue h =
      (h.0, push_all-IsOf _ (followups requeue b) h.1 (followups-IsOf requeue b h.0))

  pop-IsOf :
      (s u : Scheduler) (b : ScheduledBatch)
      → pop s ≡ some (b, u)
      → All (IsOf ids) s.queue
      → IsOf ids b × All (IsOf ids) u.queue
  pop-IsOf s u b e h =
      subst Handed e
        (queue-Handed s.queue s.batch_count s.batch_sizes s.impatiently_requeue_batches h)

  -- A run that goes on: nothing has ended it, and all its batches are of the ids.
  pub record IsEndless (total : ℕ) (r : Run) : Type 0 where
    pub uncancelled : r.shared.is_cancelled ≡ false
    pub incomplete : r.shared.all_complete ≡ false
    pub counts : Counts ids total r.shared.tracker
    pub queued : All (IsOf ids) r.shared.scheduler.queue
    pub phases : All (PhaseOf ids) r.workers

  record GoesOn (total : ℕ) (s : Shared) (q : Phase) : Type 0 where
    uncancelled : s.is_cancelled ≡ false
    incomplete : s.all_complete ≡ false
    counts : Counts ids total s.tracker
    queued : All (IsOf ids) s.scheduler.queue
    phase : PhaseOf ids q

  not_all_complete :
      (total : ℕ) (t : CompletionTracker)
      → length ids < total
      → Counts ids total t
      → all_complete t ≡ false
  unfolding all_complete decided_count
  not_all_complete total t h c =
      ground (arith, length-Within t.decided ids c.distinct c.within, c.total, h)

  WorkerStep-GoesOn :
      {total : ℕ} {s t : Shared} {p q : Phase}
      → length ids < total
      → WorkerStep false s p t q
      → GoesOn total s p
      → GoesOn total t q
  unfolding give_back handle_outcome completes exits_early
  WorkerStep-GoesOn l (take_batch s batch scheduler e) h =
      let k = pop-IsOf s.scheduler scheduler batch e h.queued in
      record {
        uncancelled = h.uncancelled;
        incomplete = h.incomplete;
        counts = h.counts;
        queued = k.1;
        phase = k.0;
      }
  WorkerStep-GoesOn l (leave s e) h = absurd (ground (arith, e, h.uncancelled))
  WorkerStep-GoesOn l (number s batch) h = record {
    uncancelled = h.uncancelled;
    incomplete = h.incomplete;
    counts = h.counts;
    queued = h.queued;
    phase = h.phase;
  }
  WorkerStep-GoesOn l (exit_early s idx batch e) h =
      absurd (ground (arith, e, h.incomplete, h.uncancelled))
  WorkerStep-GoesOn l (admit s idx batch e) h = record {
    uncancelled = h.uncancelled;
    incomplete = h.incomplete;
    counts = h.counts;
    queued = h.queued;
    phase = h.phase;
  }
  WorkerStep-GoesOn l (skip s idx batch e) h = record {
    uncancelled = h.uncancelled;
    incomplete = h.incomplete;
    counts = h.counts;
    queued = h.queued;
    phase = refl;
  }
  WorkerStep-GoesOn l (start s idx batch e) h = record {
    uncancelled = h.uncancelled;
    incomplete = h.incomplete;
    counts = h.counts;
    queued = h.queued;
    phase = h.phase;
  }
  WorkerStep-GoesOn {total} l (run_recorded s idx batch p outcome) h = record {
    uncancelled = h.uncancelled;
    incomplete = h.incomplete;
    counts = record_batch-Counts ids total s.tracker (test_ids batch) p h.phase h.counts;
    queued = h.queued;
    phase = refl;
  }
  WorkerStep-GoesOn l (run_unrecorded s idx batch outcome) h = record {
    uncancelled = h.uncancelled;
    incomplete = h.incomplete;
    counts = h.counts;
    queued = h.queued;
    phase = refl;
  }
  WorkerStep-GoesOn l (handle s idx outcome) h = record {
    uncancelled = h.uncancelled;
    incomplete = h.incomplete;
    counts = h.counts;
    queued = h.queued;
    phase = refl;
  }
  WorkerStep-GoesOn l (next_round s idx e) h = record {
    uncancelled = h.uncancelled;
    incomplete = h.incomplete;
    counts = h.counts;
    queued = h.queued;
    phase = refl;
  }
  WorkerStep-GoesOn {total} l (complete s idx e) h =
      absurd (ground (arith, e, not_all_complete total s.tracker l h.counts))
  WorkerStep-GoesOn l (cancel_all s idx) h = absurd (ground (arith, h.phase))

  Step-IsEndless :
      {total : ℕ} {r u : Run}
      → length ids < total
      → Step false r u
      → IsEndless total r
      → IsEndless total u
  Step-IsEndless l (one_step before after {s} {t} {p} {q} w) h =
      let k = WorkerStep-GoesOn l w (record {
        uncancelled = h.uncancelled;
        incomplete = h.incomplete;
        counts = h.counts;
        queued = h.queued;
        phase = All-at (PhaseOf ids) before after p h.phases;
      }) in
      record {
        uncancelled = k.uncancelled;
        incomplete = k.incomplete;
        counts = k.counts;
        queued = k.queued;
        phases =
            All-replaced (PhaseOf ids) (PhaseOf ids) before after p q (λ x i. i) k.phase h.phases;
      }

  Reaches-IsEndless :
      {total : ℕ} {r u : Run}
      → length ids < total
      → Reaches false r u
      → IsEndless total r
      → IsEndless total u
  Reaches-IsEndless l here h = h
  Reaches-IsEndless l (next k s) h = Step-IsEndless l s (Reaches-IsEndless l k h)

  start_run-IsEndless :
      (total : ℕ) (tests : List (String × ℕ)) (scheduler : Scheduler) (n : ℕ)
      → All (IsOf ids) scheduler.queue
      → IsEndless total (start_run scheduler (register_all (Completion.new total) tests) n)
  unfolding start_run
  start_run-IsEndless total tests scheduler n h = record {
    uncancelled = refl;
    incomplete = refl;
    counts = register_all-Counts ids total (Completion.new total) tests (new-Counts ids total);
    queued = h;
    phases = All-replicate (PhaseOf ids) n idle refl;
  }

  sum_of-PhaseOf : (ps : List Phase) → All (PhaseOf ids) ps → sum_of holds_sandbox ps ≡ length ps
  sum_of-PhaseOf [] h = refl
  sum_of-PhaseOf (idle ∷ ps) h = omega (arith, sum_of-PhaseOf ps h.1)
  sum_of-PhaseOf (popped b ∷ ps) h = omega (arith, sum_of-PhaseOf ps h.1)
  sum_of-PhaseOf (numbered i b ∷ ps) h = omega (arith, sum_of-PhaseOf ps h.1)
  sum_of-PhaseOf (admitted i b ∷ ps) h = omega (arith, sum_of-PhaseOf ps h.1)
  sum_of-PhaseOf (running i b ∷ ps) h = omega (arith, sum_of-PhaseOf ps h.1)
  sum_of-PhaseOf (finished i o ∷ ps) h = omega (arith, sum_of-PhaseOf ps h.1)
  sum_of-PhaseOf (updating i ∷ ps) h = omega (arith, sum_of-PhaseOf ps h.1)
  sum_of-PhaseOf (completing i ∷ ps) h = absurd (ground (arith, h.0))
  sum_of-PhaseOf (done ∷ ps) h = absurd (ground (arith, h.0))

  -- Without fail-fast, if the tracker expects more tests than there are ids of tests in the batches, then
  -- at any time of the run, however the steps of the workers interleave and whatever the batches report,
  -- the run is neither complete nor cancelled and every worker still holds its sandbox: none ever ends.
  pub holds_sandbox-endless :
      (total : ℕ) (tests : List (String × ℕ)) (scheduler : Scheduler) (n : ℕ) (r : Run)
      → length ids < total
      → All (IsOf ids) scheduler.queue
      → Reaches false (start_run scheduler (register_all (Completion.new total) tests) n) r
      → (r.shared.all_complete ≡ false)
        × (r.shared.is_cancelled ≡ false)
        × (sum_of holds_sandbox r.workers ≡ length r.workers)
  holds_sandbox-endless total tests scheduler n r l q h =
      let e = Reaches-IsEndless l h (start_run-IsEndless total tests scheduler n q) in
      (e.incomplete, e.uncancelled, sum_of-PhaseOf r.workers e.phases)
