-- ===== src/Runner/Samples.antt =====
-- Batches of one test for the theorems about src/orchestrator/runner.rs.
use offload.Base.{
  String, ◌≡◌, refl, true, false, none, some, List, [], ◌∷◌, comparable_number, comparable_text,
  err,
}
use offload.Framework.{TestInstance}
use offload.Retry.{timeout}
use offload.Report.Master
use offload.Report.Master.{MasterJunitReport}
use offload.Report.Reader.{Decoding}
use offload.Scheduler.Build.{ScheduledBatch}
use offload.Completion
use offload.Completion.{CompletionTracker, register_all, is_decided}
use offload.Workers.{Shared, WorkerStep, running, finished}
use offload.Runner.{
  Environment, StreamEvent, stdout_line, stderr_line, exit_code_line, timeout_elapsed,
  token_cancelled, exec_with_streaming, run_tests, run_command, handle_exec,
}
use offload.Runner.Recorded.{run_alone, run_tests-WorkerStep, run_tests_lost, is_decided-run_alone}

abbrev plain : Decoding
plain = record {
  I32 = String;
  F64 = String;
  zero_i32 = "0";
  zero_f64 = "0";
  read_i32 = λ s. some s;
  read_f64 = λ s. some s;
  predefined_entity = λ s. none;
}

-- The command meets these events, and there are no results to download.
abbrev meets : List StreamEvent → Environment plain
meets events = record {
  exec = some events;
  has_parts_dir = true;
  delays = 1 ∷ 2 ∷ [];
  download = λ _. err timeout;
  downloaded = none;
  xml_from_report = λ _. none;
  read = λ _. [];
  resolve_test_ids = λ suites ids. some suites;
}

abbrev test_a : TestInstance
test_a = record { id = "a"; group = "g"; schedule_individual = false }

abbrev report : MasterJunitReport plain.I32 plain.F64
report = Master.new plain.I32 plain.F64 1

abbrev slow : Environment plain
slow = meets (stdout_line "collecting" ∷ exit_code_line 0 ∷ timeout_elapsed ∷ [])

abbrev shared : Shared
shared = record {
  scheduler = record {
    queue = [];
    batch_count = 1;
    batch_sizes = 1 ∷ [];
    impatiently_requeue_batches = false;
  };
  tracker = Completion.new 1;
  batch_counter = 1;
  all_complete = false;
  is_cancelled = false;
  sandboxes_for_cleanup = 0;
}

abbrev batch_a : ScheduledBatch
batch_a = record { tests = test_a ∷ []; single_test_retry_counter = 0 }

run_tests-WorkerStep_example :
    WorkerStep false shared
      (running 0 batch_a)
      (record shared { tracker = (run_tests slow report shared.tracker (test_a ∷ [])).tracker })
      (finished 0 (run_tests slow report shared.tracker (test_a ∷ [])).result)
run_tests-WorkerStep_example = run_tests-WorkerStep slow report false shared 0 batch_a

abbrev cut_off : Environment plain
cut_off = meets (stderr_line "warning" ∷ token_cancelled ∷ [])

run_tests_lost_example :
    ((run_tests cut_off report shared.tracker (test_a ∷ [])).report ≡ report)
    × ((run_tests cut_off report shared.tracker (test_a ∷ [])).tracker ≡ shared.tracker)
unfolding run_tests run_command handle_exec exec_with_streaming
run_tests_lost_example = run_tests_lost cut_off report shared.tracker (test_a ∷ []) refl

-- Two retries: decided after the third timeout.
is_decided-run_alone_example :
    is_decided
      (run_alone slow report test_a 3 (register_all (Completion.new 1) (("a", 2) ∷ [])))
      "a"
    ≡ true
unfolding exec_with_streaming
is_decided-run_alone_example =
    is_decided-run_alone slow report
      (stdout_line "collecting" ∷ exit_code_line 0 ∷ timeout_elapsed ∷ []) refl refl 1
      (("a", 2) ∷ []) test_a 3
