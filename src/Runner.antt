-- ===== src/Runner.antt =====
-- src/orchestrator/runner.rs: one batch on one sandbox. What the sandbox and the framework answer is
-- given; logs, traces and the artifacts that are downloaded beside the results are left out.
mod Recorded
mod Samples
use offload.Base.{
  ℕ, zero, suc, ◌+◌, ◌-◌, ◌*◌, ◌/◌, ◌%◌, ◌≤◌, ◌<◌, min, max, String, ◌≡◌, refl, sym, ap, ◌∙◌, subst,
  ◌≢◌, ◌↔◌, ◌⊎◌, inl, inr, Bool, true, false, not, ◌&&◌, ◌||◌, Option, none, some, List, [], ◌∷◌,
  ◌++◌, map, foldl, flatten, append-nil, append_assoc, map-append, Perm, arith, ltb, leb,
  if◌then◌else◌, ltb→lt, lt→ltb, leb→le, le→leb, leb-false→lt, Bool-cases, Option-cases, is_some,
  unwrap_or, length, take, drop, replicate, set, keep, all, sum_of, All, length-append,
  take-append-drop, length-take, length-drop, length-replicate, length-set, length-map,
  length-keep-le, sum_of-append, All-append, All-replicate, All-imp, All-keep, All-keep_self,
  Comparable, ◌==◌, comparable_number, comparable_text, eq_self, eq→path, ne→eq-false, contains,
  add, Distinct, contains-add, Distinct-add, length-add-le, get, insert, get-insert,
  get-insert_self, insert_by, sort_by, sort_by-perm, IsSorted, All-insert_by, All-sort_by,
  sort_by-IsSorted, flat_map, flat_map-append, flat_map-replicate_nil, flat_map-keep,
  keep-append-perm, flat_map-sort_by-perm, sum_of-perm, length-perm, contains-sort_by,
  Distinct-sort_by, keys, contains-keys-insert, IsTable, insert-IsTable, get-not_key, Result, ok,
  err, Failure, failed, Action, pure, fail, and_then, ◌>>=◌, ◌>>◌, attempt, with_error, map_error,
  any,
}
use offload.Framework.{TestInstance}
use offload.Framework.Matching.{Text, chars, starts_with}
use offload.Retry.{Outcome, with_retry}
use offload.Report.Suites.{TestsuiteXml}
use offload.Report.Master.{MasterJunitReport, add_junit_xml, has_test_passed}
use offload.Report.Reader.{Event, Decoding, parse_all_testsuites_xml}
use offload.Completion.{CompletionTracker, record_batch}
use offload.Workers.{RunnerResult, success, failure, cancelled, failed_with_error}

-- str::contains and the number of matches of a pattern that is not empty.
abbrev pub contains_text : Text → Text → Bool
contains_text [] pattern = starts_with [] pattern
contains_text (c ∷ s) pattern = starts_with (c ∷ s) pattern || contains_text s pattern

unfoldable pub count_matches : Text → ℕ → Text → ℕ
count_matches pattern n [] = 0
count_matches pattern (suc n) (c ∷ s) = count_matches pattern n s
count_matches pattern zero (c ∷ s) =
    let behind = count_matches pattern (length pattern - 1) s in
    let next = count_matches pattern 0 s in if starts_with (c ∷ s) pattern then suc behind else next

unfoldable pub count_testcases_in_xml : String → ℕ
unfolding count_matches
count_testcases_in_xml xml = count_matches (chars "<testcase ") 0 (chars xml)

unfoldable pub has_failures_in_xml : String → Bool
has_failures_in_xml xml =
    contains_text (chars xml) (chars "<failure") || contains_text (chars xml) (chars "<error")

-- A line of the output, or the end of one of the three futures that the loop waits for.
pub data StreamEvent : Type 0 where
  stdout_line stderr_line : String → StreamEvent
  exit_code_line : ℕ → StreamEvent
  token_cancelled timeout_elapsed stream_ended : StreamEvent

pub data ExecStreamOutcome : Type 0 where
  completed : List String → List String → ExecStreamOutcome
  exec_cancelled timed_out : ExecStreamOutcome

-- `exec_with_streaming`, whose exit code is only logged, with the lines of stdout and stderr so far, on the events in the order in which
-- they win the race. A stream whose events are used up has ended.
unfoldable pub exec_with_streaming :
    List String → List String → List StreamEvent → ExecStreamOutcome
exec_with_streaming out errs [] = completed out errs
exec_with_streaming out errs (stdout_line s ∷ rest) = exec_with_streaming (out ++ s ∷ []) errs rest
exec_with_streaming out errs (stderr_line s ∷ rest) = exec_with_streaming out (errs ++ s ∷ []) rest
exec_with_streaming out errs (exit_code_line n ∷ rest) = exec_with_streaming out errs rest
exec_with_streaming out errs (token_cancelled ∷ rest) = exec_cancelled
exec_with_streaming out errs (timeout_elapsed ∷ rest) = timed_out
exec_with_streaming out errs (stream_ended ∷ rest) = completed out errs

-- What a batch meets: whether the command starts, and its events; the parts directory; each try of the
-- download with the delays between; the downloaded file; the framework's two operations; the XML reader.
pub record Environment (D : Decoding) : Type 0 where
  pub exec : Option (List StreamEvent)
  pub has_parts_dir : Bool
  pub delays : List ℕ
  pub download : ℕ → Outcome (Unit {0})
  pub downloaded : Option String
  pub xml_from_report : String → Option String
  pub read : String → List Event
  pub resolve_test_ids :
      List (TestsuiteXml D.I32 D.F64) → List String → Option (List (TestsuiteXml D.I32 D.F64))

module _ {D : Decoding} (e : Environment D) where
  unfoldable pub try_download_results : Option (String × ℕ)
  unfolding with_retry count_testcases_in_xml
  try_download_results =
      if not e.has_parts_dir then none else elim (with_retry e.delays e.download).0 [
        | err x ↦ none
        | ok u ↦ elim e.downloaded [
          | none ↦ none
          | some content ↦
              if content == "" then none else some (content, count_testcases_in_xml content)
        ]
      ]

  -- The report and the tracker, and what `run_tests` returns.
  pub record Ran : Type 0 where
    pub report : MasterJunitReport D.I32 D.F64
    pub tracker : CompletionTracker
    pub result : RunnerResult

  -- The bookkeeping at the end, under the report's lock.
  unfoldable pub book :
      MasterJunitReport D.I32 D.F64
      → CompletionTracker
      → List String
      → Bool
      → List (TestsuiteXml D.I32 D.F64)
      → Ran
  unfolding add_junit_xml record_batch has_test_passed
  book report tracker batch_ids batch_had_failures testsuites =
      let added = add_junit_xml report testsuites in
      record {
        report = added;
        tracker = record_batch tracker batch_ids (has_test_passed added);
        result = if batch_had_failures then failure else success;
      }

  -- The match on what `resolve_test_ids` answers.
  unfoldable pub book_resolved :
      MasterJunitReport D.I32 D.F64
      → CompletionTracker
      → List String
      → Bool
      → Option (List (TestsuiteXml D.I32 D.F64))
      → Ran
  unfolding book
  book_resolved report tracker batch_ids batch_had_failures none = record {
    report = report;
    tracker = tracker;
    result = failure;
  }
  book_resolved report tracker batch_ids batch_had_failures (some testsuites) =
      book report tracker batch_ids batch_had_failures testsuites

  -- XML in which no suite is found is booked without asking the framework.
  unfoldable pub book_parsed :
      MasterJunitReport D.I32 D.F64
      → CompletionTracker
      → List String
      → Bool
      → List (TestsuiteXml D.I32 D.F64)
      → Ran
  unfolding book book_resolved
  book_parsed report tracker batch_ids batch_had_failures [] =
      book report tracker batch_ids batch_had_failures []
  book_parsed report tracker batch_ids batch_had_failures (s ∷ ss) =
      book_resolved report tracker batch_ids batch_had_failures
        (e.resolve_test_ids (s ∷ ss) batch_ids)

  -- From the framework's XML on, if it gave any.
  unfoldable pub process_results :
      MasterJunitReport D.I32 D.F64 → CompletionTracker → List String → Option String → Ran
  unfolding book_parsed has_failures_in_xml parse_all_testsuites_xml
  process_results report tracker batch_ids none = record {
    report = report;
    tracker = tracker;
    result = failed_with_error;
  }
  process_results report tracker batch_ids (some junit_xml) =
      book_parsed report tracker batch_ids (has_failures_in_xml junit_xml)
        (parse_all_testsuites_xml D (e.read junit_xml))

  -- From the downloaded results on, if there are any.
  unfoldable pub collect_results :
      MasterJunitReport D.I32 D.F64 → CompletionTracker → List String → Option (String × ℕ) → Ran
  unfolding process_results
  collect_results report tracker batch_ids none = record {
    report = report;
    tracker = tracker;
    result = failed_with_error;
  }
  collect_results report tracker batch_ids (some (raw_content, raw_count)) =
      process_results report tracker batch_ids (e.xml_from_report raw_content)

  -- A timeout counts as a failed attempt of the test only if it is alone in its batch.
  unfoldable pub record_timeout :
      MasterJunitReport D.I32 D.F64 → CompletionTracker → List TestInstance → Ran
  unfolding record_batch
  record_timeout report tracker (t ∷ []) = record {
    report = report;
    tracker = record_batch tracker (t.id ∷ []) (λ _. false);
    result = failure;
  }
  record_timeout report tracker _ = record {
    report = report;
    tracker = tracker;
    result = failed_with_error;
  }

  unfoldable pub handle_exec :
      MasterJunitReport D.I32 D.F64
      → CompletionTracker
      → List TestInstance
      → ExecStreamOutcome
      → Ran
  unfolding try_download_results collect_results record_timeout
  handle_exec report tracker tests exec_cancelled = record {
    report = report;
    tracker = tracker;
    result = cancelled;
  }
  handle_exec report tracker tests timed_out = record_timeout report tracker tests
  handle_exec report tracker tests (completed out errs) =
      collect_results report tracker (map (λ t. t.id) tests) try_download_results

  -- With the events of the command, if it starts.
  unfoldable pub run_command :
      MasterJunitReport D.I32 D.F64
      → CompletionTracker
      → List TestInstance
      → Option (List StreamEvent)
      → Ran
  unfolding exec_with_streaming handle_exec
  run_command report tracker tests none = record {
    report = report;
    tracker = tracker;
    result = failed_with_error;
  }
  run_command report tracker tests (some events) =
      handle_exec report tracker tests (exec_with_streaming [] [] events)

  unfoldable pub run_tests :
      MasterJunitReport D.I32 D.F64 → CompletionTracker → List TestInstance → Ran
  unfolding run_command
  run_tests report tracker tests = run_command report tracker tests e.exec
