-- ===== src/Runner/Recorded.antt =====
-- What `run_tests` of src/orchestrator/runner.rs tells the report and the tracker.
use offload.Base.{
  ℕ, zero, suc, String, ◌≡◌, refl, ap, ◌∙◌, inl, inr, Bool, true, false, ◌&&◌, Option, none, some,
  List, [], ◌∷◌, map, arith, ltb, leb, Bool-cases, replicate, length-replicate, comparable_number,
  comparable_text, eq_self,
}
use offload.Framework.{TestInstance}
use offload.Report.Suites.{TestsuiteXml}
use offload.Report.Master.{MasterJunitReport}
use offload.Report.Reader.{Decoding, parse_all_testsuites_xml}
use offload.Scheduler.Build.{ScheduledBatch}
use offload.Completion.{
  CompletionTracker, Batches, new, record_batch, record_batches, register_all, is_decided,
}
use offload.Completion.Outcomes.{settled, allowed, attempts, any_passed, is_decided-record_batches}
use offload.Workers.{
  RunnerResult, failure, cancelled, failed_with_error, Shared, WorkerStep, run_recorded,
  run_unrecorded, running, finished, test_ids,
}
use offload.Runner.{
  Environment, Ran, exec_with_streaming, completed, exec_cancelled, timed_out, try_download_results,
  book, book_parsed, book_resolved, handle_exec, run_command, process_results, collect_results,
  record_timeout, run_tests, ExecStreamOutcome, StreamEvent, has_failures_in_xml,
}

-- A run that is no result: the batch was cancelled, or could not be run or read.
abbrev pub is_lost : RunnerResult → Bool
is_lost cancelled = true
is_lost failed_with_error = true
is_lost _ = false

-- What a run leaves of the report and the tracker: both as they were, or with the batch in the tracker.
pub data Leaves {R : Type 0} (report : R) (tracker : CompletionTracker) (ids : List String)
    : R → CompletionTracker → RunnerResult → Type 0 where
  nothing : (result : RunnerResult) → Leaves report tracker ids report tracker result
  recorded :
      (added : R) (p : String → Bool) (result : RunnerResult)
      → is_lost result ≡ false
      → Leaves report tracker ids added (record_batch tracker ids p) result

-- The same of the record that a run ends with.
module _ {D : Decoding} (e : Environment D) (report : MasterJunitReport D.I32 D.F64)
    (tracker : CompletionTracker) where
  abbrev pub LeavesRan : List String → Ran e → Type 0
  LeavesRan ids r = Leaves report tracker ids r.report r.tracker r.result

  book-Leaves :
      (ids : List String) (b : Bool) (suites : List (TestsuiteXml D.I32 D.F64))
      → LeavesRan ids (book e report tracker ids b suites)
  unfolding book
  book-Leaves ids b suites =
      recorded _ _ _ (elim (Bool-cases b) [ inl t ↦ rw t refl | inr f ↦ rw f refl ])

  book_resolved-Leaves :
      (ids : List String) (b : Bool) (suites : Option (List (TestsuiteXml D.I32 D.F64)))
      → LeavesRan ids (book_resolved e report tracker ids b suites)
  unfolding book_resolved
  book_resolved-Leaves ids b none = nothing failure
  book_resolved-Leaves ids b (some suites) = book-Leaves ids b suites

  book_parsed-Leaves :
      (ids : List String) (b : Bool) (suites : List (TestsuiteXml D.I32 D.F64))
      → LeavesRan ids (book_parsed e report tracker ids b suites)
  unfolding book_parsed
  book_parsed-Leaves ids b [] = book-Leaves ids b []
  book_parsed-Leaves ids b (s ∷ ss) = book_resolved-Leaves ids b (e.resolve_test_ids (s ∷ ss) ids)

  process_results-Leaves :
      (ids : List String) (xml : Option String)
      → LeavesRan ids (process_results e report tracker ids xml)
  unfolding process_results
  process_results-Leaves ids none = nothing failed_with_error
  process_results-Leaves ids (some xml) =
      book_parsed-Leaves ids (has_failures_in_xml xml) (parse_all_testsuites_xml D (e.read xml))

  collect_results-Leaves :
      (ids : List String) (results : Option (String × ℕ))
      → LeavesRan ids (collect_results e report tracker ids results)
  unfolding collect_results
  collect_results-Leaves ids none = nothing failed_with_error
  collect_results-Leaves ids (some (raw, n)) = process_results-Leaves ids (e.xml_from_report raw)

  record_timeout-Leaves :
      (tests : List TestInstance)
      → LeavesRan (map (λ t. t.id) tests) (record_timeout e report tracker tests)
  unfolding record_timeout
  record_timeout-Leaves [] = nothing failed_with_error
  record_timeout-Leaves (t ∷ []) = recorded report (λ _. false) failure refl
  record_timeout-Leaves (t ∷ u ∷ us) = nothing failed_with_error

  handle_exec-Leaves :
      (tests : List TestInstance) (outcome : ExecStreamOutcome)
      → LeavesRan (map (λ t. t.id) tests) (handle_exec e report tracker tests outcome)
  unfolding handle_exec
  handle_exec-Leaves tests exec_cancelled = nothing cancelled
  handle_exec-Leaves tests timed_out = record_timeout-Leaves tests
  handle_exec-Leaves tests (completed out errs) =
      collect_results-Leaves (map (λ t. t.id) tests) (try_download_results e)

  run_command-Leaves :
      (tests : List TestInstance) (events : Option (List StreamEvent))
      → LeavesRan (map (λ t. t.id) tests) (run_command e report tracker tests events)
  unfolding run_command
  run_command-Leaves tests none = nothing failed_with_error
  run_command-Leaves tests (some events) =
      handle_exec-Leaves tests (exec_with_streaming [] [] events)

  run_tests-Leaves :
      (tests : List TestInstance)
      → LeavesRan (map (λ t. t.id) tests) (run_tests e report tracker tests)
  unfolding run_tests
  run_tests-Leaves tests = run_command-Leaves tests e.exec

Leaves-lost :
    {R : Type 0} {report : R} {tracker : CompletionTracker} {ids : List String} {report' : R}
    {tracker' : CompletionTracker} {result : RunnerResult}
    → Leaves report tracker ids report' tracker' result
    → is_lost result ≡ true
    → (report' ≡ report) × (tracker' ≡ tracker)
Leaves-lost (nothing result) h = (refl, refl)
Leaves-lost (recorded added p result e) h = cc

Leaves-WorkerStep :
    {R : Type 0} {report report' : R} {f : Bool} (s : Shared) (idx : ℕ) (batch : ScheduledBatch)
    {tracker' : CompletionTracker} {result : RunnerResult}
    → Leaves report s.tracker (test_ids batch) report' tracker' result
    → WorkerStep f s (running idx batch) (record s { tracker = tracker' }) (finished idx result)
Leaves-WorkerStep s idx batch (nothing result) = run_unrecorded s idx batch result
Leaves-WorkerStep s idx batch (recorded added p result e) = run_recorded s idx batch p result

module _ {D : Decoding} (e : Environment D) (report : MasterJunitReport D.I32 D.F64) where
  -- What running a batch does to the tracker is always one of the two steps by which the model of the
  -- workers runs a batch: recording all the ids of that batch, or leaving the shared state as it is.
  pub run_tests-WorkerStep :
      (fail_fast : Bool) (s : Shared) (idx : ℕ) (batch : ScheduledBatch)
      → WorkerStep fail_fast s
          (running idx batch)
          (record s { tracker = (run_tests e report s.tracker batch.tests).tracker })
          (finished idx (run_tests e report s.tracker batch.tests).result)
  run_tests-WorkerStep f s idx batch =
      Leaves-WorkerStep s idx batch (run_tests-Leaves e report s.tracker batch.tests)

  -- A batch that is cancelled, or that ends with an error, leaves the report and the tracker as they were.
  pub run_tests_lost :
      (tracker : CompletionTracker) (tests : List TestInstance)
      → is_lost (run_tests e report tracker tests).result ≡ true
      → ((run_tests e report tracker tests).report ≡ report)
        × ((run_tests e report tracker tests).tracker ≡ tracker)
  run_tests_lost tracker tests h = Leaves-lost (run_tests-Leaves e report tracker tests) h

  -- The tracker after the test has been run alone `n` times.
  abbrev pub run_alone : TestInstance → ℕ → CompletionTracker → CompletionTracker
  run_alone t zero tracker = tracker
  run_alone t (suc n) tracker = run_alone t n (run_tests e report tracker (t ∷ [])).tracker

-- The batches that a test alone in its batch records when each times out.
abbrev timeouts : String → ℕ → Batches
timeouts id zero = []
timeouts id (suc n) = (id ∷ [], λ _. false) ∷ timeouts id n

attempts-timeouts : (id : String) (n : ℕ) → attempts id (timeouts id n) ≡ replicate n false
attempts-timeouts id zero = refl
attempts-timeouts id (suc n) = ground (arith, eq_self id, attempts-timeouts id n)

any_passed-replicate : (n : ℕ) → any_passed (replicate n false) ≡ false
any_passed-replicate zero = refl
any_passed-replicate (suc n) = any_passed-replicate n

settled-replicate : (m n : ℕ) → settled m (replicate n false) ≡ (ltb 0 n && leb m n)
settled-replicate m zero = refl
settled-replicate m (suc n) = ground (arith, any_passed-replicate n, length-replicate n false)

module _ {D : Decoding} (e : Environment D) (report : MasterJunitReport D.I32 D.F64)
    (events : List StreamEvent) (starts : e.exec ≡ some events)
    (times_out : exec_with_streaming [] [] events ≡ timed_out) where
  run_tests_timeout :
      (t : TestInstance) (tracker : CompletionTracker)
      → (run_tests e report tracker (t ∷ [])).tracker
        ≡ record_batch tracker (t.id ∷ []) (λ _. false)
  unfolding run_tests run_command handle_exec record_timeout
  run_tests_timeout t tracker =
      ap (λ x. (run_command e report tracker (t ∷ []) x).tracker) starts
      ∙ ap (λ x. (handle_exec e report tracker (t ∷ []) x).tracker) times_out

  run_alone-record_batches :
      (t : TestInstance) (n : ℕ) (tracker : CompletionTracker)
      → run_alone e report t n tracker ≡ record_batches tracker (timeouts t.id n)
  unfolding record_batches
  run_alone-record_batches t zero tracker = refl
  run_alone-record_batches t (suc n) tracker =
      ap (run_alone e report t n) (run_tests_timeout t tracker)
      ∙ run_alone-record_batches t n (record_batch tracker (t.id ∷ []) (λ _. false))

  -- A test that is run alone, and whose every run times out, has a decided outcome after exactly as many
  -- runs as its registration allows attempts, and not before.
  pub is_decided-run_alone :
      (total : ℕ) (tests : List (String × ℕ)) (t : TestInstance) (n : ℕ)
      → is_decided (run_alone e report t n (register_all (new total) tests)) t.id
        ≡ (ltb 0 n && leb (allowed t.id tests 1) n)
  is_decided-run_alone total tests t n =
      rw (run_alone-record_batches t n (register_all (new total) tests)) (
        is_decided-record_batches total tests (timeouts t.id n) t.id
        ∙ rw (attempts-timeouts t.id n) (settled-replicate (allowed t.id tests 1) n))
