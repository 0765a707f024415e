-- ===== src/Workers.antt =====
-- `spawn_task` of src/orchestrator/spawn.rs: the workers of a run, one for each sandbox, as steps on the
-- state that they share. A lock is never poisoned. Logs, traces and the progress display are left out.
mod Conserved
mod Endless
mod Samples
use offload.Base.{
  ℕ, zero, suc, ◌+◌, ◌-◌, ◌*◌, ◌/◌, ◌%◌, ◌≤◌, ◌<◌, min, max, String, ◌≡◌, refl, sym, ap, ◌∙◌, subst,
  ◌≢◌, ◌↔◌, ◌⊎◌, inl, inr, Bool, true, false, not, ◌&&◌, ◌||◌, Option, none, some, List, [], ◌∷◌,
  ◌++◌, map, foldl, flatten, append-nil, append_assoc, map-append, Perm, arith, ltb, leb,
  if◌then◌else◌, ltb→lt, lt→ltb, leb→le, le→leb, leb-false→lt, Bool-cases, Option-cases, is_some,
  unwrap_or, length, take, drop, replicate, set, keep, all, sum_of, All, length-append,
  take-append-drop, length-take, length-drop, length-replicate, length-set, length-map,
  length-keep-le, sum_of-append, All-append, All-replicate, All-imp, All-keep, All-keep_self,
  Comparable, ◌==◌, comparable_number, comparable_text, eq_self, eq→path, ne→eq-false, contains,
  add, Distinct, contains-add, Distinct-add, length-add-le, get, insert, get-insert,
  get-insert_self, insert_by, sort_by, sort_by-perm, IsSorted, All-insert_by, All-sort_by,
  sort_by-IsSorted, flat_map, flat_map-append, flat_map-replicate_nil, flat_map-keep,
  keep-append-perm, flat_map-sort_by-perm, sum_of-perm, length-perm, contains-sort_by,
  Distinct-sort_by, keys, contains-keys-insert, IsTable, insert-IsTable, get-not_key,
}
use offload.Framework.{TestInstance}
use offload.Scheduler.Build.{ScheduledBatch, Scheduler}
use offload.Scheduler.Queue.{pop}
use offload.Completion.{CompletionTracker, record_batch, is_decided, all_complete}

-- BatchOutcome of src/orchestrator/runner.rs, or an error.
pub data RunnerResult : Type 0 where
  success failure cancelled failed_with_error : RunnerResult

-- Where a worker is in its loop: before pop; with a batch; with the batch's number; past the check for an
-- early exit; running the batch; with its result; past fail-fast; with the run marked as complete; done,
-- its sandbox given back.
pub data Phase : Type 0 where
  idle : Phase
  popped : ScheduledBatch → Phase
  numbered : ℕ → ScheduledBatch → Phase
  admitted : ℕ → ScheduledBatch → Phase
  running : ℕ → ScheduledBatch → Phase
  finished : ℕ → RunnerResult → Phase
  updating : ℕ → Phase
  completing : ℕ → Phase
  done : Phase

pub record Shared : Type 0 where
  pub scheduler : Scheduler
  pub tracker : CompletionTracker
  pub batch_counter : ℕ
  pub all_complete : Bool
  pub is_cancelled : Bool
  pub sandboxes_for_cleanup : ℕ

abbrev pub test_ids : ScheduledBatch → List String
test_ids batch = map (λ t. t.id) batch.tests

-- `cfg.all_complete.load(…) || cfg.cancellation_token.is_cancelled()`
unfoldable pub exits_early : Shared → Bool
exits_early s = s.all_complete || s.is_cancelled

-- `batch.tests.iter().all(|t| tracker.is_decided(t.id()))`
unfoldable pub is_batch_decided : Shared → ScheduledBatch → Bool
is_batch_decided s batch = all (is_decided s.tracker) (test_ids batch)

-- `cleanups.push(sandbox)`
unfoldable pub give_back : Shared → Shared
give_back s = record s { sandboxes_for_cleanup = s.sandboxes_for_cleanup + 1 }

unfoldable pub is_failure : RunnerResult → Bool
is_failure failure = true
is_failure _ = false

-- Fail-fast: the first failure cancels the run.
unfoldable pub handle_outcome : Bool → Shared → RunnerResult → Shared
unfolding is_failure
handle_outcome fail_fast s outcome =
    if fail_fast && is_failure outcome then record s { is_cancelled = true } else s

-- The check at the end of a round: all tests are decided, and no worker has seen this before.
unfoldable pub completes : Shared → Bool
completes s = all_complete s.tracker && not s.all_complete

-- `cfg.all_complete.store(true, …)`
unfoldable pub mark_complete : Shared → Shared
mark_complete s = record s { all_complete = true }

-- `cfg.cancellation_token.cancel()`
unfoldable pub cancel_run : Shared → Shared
cancel_run s = record s { is_cancelled = true }

-- What a worker does next. `pop` and the cancellation race where both are ready. The runner (see
-- src/orchestrator/runner.rs) has recorded all ids of its batch in the tracker, or none; and where the
-- run is cancelled it may be cut off at once.
pub data WorkerStep (fail_fast : Bool) : Shared → Phase → Shared → Phase → Type 0 where
  take_batch :
      (s : Shared) (batch : ScheduledBatch) (scheduler : Scheduler)
      → pop s.scheduler ≡ some (batch, scheduler)
      → WorkerStep fail_fast s idle (record s { scheduler = scheduler }) (popped batch)
  leave : (s : Shared) → s.is_cancelled ≡ true → WorkerStep fail_fast s idle (give_back s) done
  number :
      (s : Shared) (batch : ScheduledBatch)
      → WorkerStep fail_fast s
          (popped batch)
          (record s { batch_counter = s.batch_counter + 1 })
          (numbered s.batch_counter batch)
  exit_early :
      (s : Shared) (idx : ℕ) (batch : ScheduledBatch)
      → exits_early s ≡ true
      → WorkerStep fail_fast s (numbered idx batch) (give_back s) done
  admit :
      (s : Shared) (idx : ℕ) (batch : ScheduledBatch)
      → exits_early s ≡ false
      → WorkerStep fail_fast s (numbered idx batch) s (admitted idx batch)
  skip :
      (s : Shared) (idx : ℕ) (batch : ScheduledBatch)
      → is_batch_decided s batch ≡ true
      → WorkerStep fail_fast s (admitted idx batch) s idle
  start :
      (s : Shared) (idx : ℕ) (batch : ScheduledBatch)
      → is_batch_decided s batch ≡ false
      → WorkerStep fail_fast s (admitted idx batch) s (running idx batch)
  run_recorded :
      (s : Shared) (idx : ℕ) (batch : ScheduledBatch) (has_test_passed : String → Bool)
      (outcome : RunnerResult)
      → WorkerStep fail_fast s
          (running idx batch)
          (record s { tracker = record_batch s.tracker (test_ids batch) has_test_passed })
          (finished idx outcome)
  run_unrecorded :
      (s : Shared) (idx : ℕ) (batch : ScheduledBatch) (outcome : RunnerResult)
      → WorkerStep fail_fast s (running idx batch) s (finished idx outcome)
  handle :
      (s : Shared) (idx : ℕ) (outcome : RunnerResult)
      → WorkerStep fail_fast s
          (finished idx outcome)
          (handle_outcome fail_fast s outcome)
          (updating idx)
  next_round :
      (s : Shared) (idx : ℕ) → completes s ≡ false → WorkerStep fail_fast s (updating idx) s idle
  complete :
      (s : Shared) (idx : ℕ)
      → completes s ≡ true
      → WorkerStep fail_fast s (updating idx) (mark_complete s) (completing idx)
  cancel_all : (s : Shared) (idx : ℕ) → WorkerStep fail_fast s (completing idx) (cancel_run s) idle

pub record Run : Type 0 where
  pub shared : Shared
  pub workers : List Phase

-- One worker takes a step.
pub data Step (fail_fast : Bool) : Run → Run → Type 0 where
  one_step :
      (before after : List Phase) {s t : Shared} {p q : Phase}
      → WorkerStep fail_fast s p t q
      → Step fail_fast
          (record { shared = s; workers = before ++ p ∷ after })
          (record { shared = t; workers = before ++ q ∷ after })

pub data Reaches (fail_fast : Bool) (r : Run) : Run → Type 0 where
  here : Reaches fail_fast r r
  next : {t u : Run} → Reaches fail_fast r t → Step fail_fast t u → Reaches fail_fast r u

-- The run as `run_with_tests` starts it, with a worker for each sandbox.
unfoldable pub start_run : Scheduler → CompletionTracker → ℕ → Run
start_run scheduler tracker sandboxes = record {
  shared = record {
    scheduler = scheduler;
    tracker = tracker;
    batch_counter = 0;
    all_complete = false;
    is_cancelled = false;
    sandboxes_for_cleanup = 0;
  };
  workers = replicate sandboxes idle;
}
