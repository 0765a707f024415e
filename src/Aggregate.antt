-- ===== src/Aggregate.antt =====
-- src/orchestrator.rs, the end of `run_with_tests`: the result of a run from the master report, its exit code,
-- and what is recorded in the history. The duration of the run is left out.
mod Codes
mod Samples
use offload.Base.{
  ℕ, zero, suc, ◌+◌, ◌-◌, ◌*◌, ◌/◌, ◌%◌, ◌≤◌, ◌<◌, min, max, String, ◌≡◌, refl, sym, ap, ◌∙◌, subst,
  ◌≢◌, ◌↔◌, ◌⊎◌, inl, inr, Bool, true, false, not, ◌&&◌, ◌||◌, Option, none, some, List, [], ◌∷◌,
  ◌++◌, map, foldl, flatten, append-nil, append_assoc, map-append, Perm, arith, ltb, leb,
  if◌then◌else◌, ltb→lt, lt→ltb, leb→le, le→leb, leb-false→lt, Bool-cases, Option-cases, is_some,
  unwrap_or, length, take, drop, replicate, set, keep, all, sum_of, All, length-append,
  take-append-drop, length-take, length-drop, length-replicate, length-set, length-map,
  length-keep-le, sum_of-append, All-append, All-replicate, All-imp, All-keep, All-keep_self,
  Comparable, ◌==◌, comparable_number, comparable_text, eq_self, eq→path, ne→eq-false, contains,
  add, Distinct, contains-add, Distinct-add, length-add-le, get, insert, get-insert,
  get-insert_self, insert_by, sort_by, sort_by-perm, IsSorted, All-insert_by, All-sort_by,
  sort_by-IsSorted, flat_map, flat_map-append, flat_map-replicate_nil, flat_map-keep,
  keep-append-perm, flat_map-sort_by-perm, sum_of-perm, length-perm, contains-sort_by,
  Distinct-sort_by, keys, contains-keys-insert, IsTable, insert-IsTable, get-not_key, Result, ok,
  err, Failure, failed, Action, pure, fail, and_then, ◌>>=◌, ◌>>◌, attempt, with_error, map_error,
  any, Ends, Ensures, Keeps, bind-Ensures, pure-Keeps, lift-Keeps, if-Ensures, Keeps-snd,
  attempt-Keeps, map_error-Ensures, weaken-Ensures, snd-Keeps, bind-eq-ok,
}
use offload.Framework.{TestRecord}
use offload.Framework.Matching.{chars, text, replace}
use offload.Report.Suites.{TestcaseXml, TestsuiteXml}
use offload.Report.Master.{MasterJunitReport, summary, total_count}
use offload.History.Data.{TestAttemptResult}
use offload.History.Reservoir.{Lottery}
use offload.History.Store.{JsonlHistoryStore, record_results}
use offload.History.Files.{Codec, load, save}

pub record RunResult : Type 0 where
  pub total_tests : ℕ
  pub passed : ℕ
  pub failed : ℕ
  pub flaky : ℕ
  pub not_run : ℕ

unfoldable pub success : RunResult → Bool
success r = r.failed == 0 && r.not_run == 0

unfoldable pub exit_code : RunResult → ℕ
exit_code r = if ltb 0 r.failed || ltb 0 r.not_run then 1 else if ltb 0 r.flaky then 2 else 0

unfoldable pub unique_ids : List String → List TestRecord → List String
unique_ids ids [] = ids
unique_ids ids (t ∷ tests) = unique_ids (add t.id ids) tests

unfoldable pub expected_unique_ids : List TestRecord → ℕ
unfolding unique_ids
expected_unique_ids tests = length (unique_ids [] tests)

module _ {I32 F64 : Type 0} where
  -- `saturating_sub` is the subtraction on ℕ.
  unfoldable pub run_result : MasterJunitReport I32 F64 → List TestRecord → RunResult
  unfolding summary total_count expected_unique_ids
  run_result report tests =
      let counts = summary report in
      record {
        total_tests = total_count report;
        passed = counts.0 + counts.2;
        failed = counts.1;
        flaky = counts.2;
        not_run = expected_unique_ids tests - total_count report;
      }

pub data RecordHistory : Type 0 where
  always flag : RecordHistory

-- With the history section, if the configuration has one.
unfoldable pub should_record : Option RecordHistory → Bool → Bool
should_record none record_history_flag = false
should_record (some always) record_history_flag = true
should_record (some flag) record_history_flag = record_history_flag

-- `format_test_id` of src/config.rs
unfoldable pub format_test_id : String → String → Option String → String
unfolding replace
format_test_id format name classname =
    text (replace (replace (chars format) "{name}" name) "{classname}" (unwrap_or classname ""))

-- The name of the configuration, the id of the run, and the time.
pub record RunInfo : Type 0 where
  pub config_filename : String
  pub run_id : String
  pub test_id_format : String
  pub now_ms : ℕ

module _ {F64 : Type 0} (info : RunInfo) where
  unfoldable pub attempt_result : TestcaseXml F64 → TestAttemptResult F64
  unfolding format_test_id
  attempt_result tc = record {
    config = info.config_filename;
    test_id = format_test_id info.test_id_format tc.name tc.classname;
    run_id = info.run_id;
    passed = not (is_some tc.failure) && not (is_some tc.error);
    duration_secs = tc.time;
    timestamp_ms = info.now_ms;
  }

  unfoldable pub extract_attempt_results :
      {I32 : Type 0} → MasterJunitReport I32 F64 → List (TestAttemptResult F64)
  unfolding attempt_result
  extract_attempt_results report =
      map attempt_result
        (keep (λ tc. not tc.skipped) (flat_map (λ ts. ts.testcases) report.testsuites))

-- The lines of the history file as they are after recording; `none` stands for an error.
module _ {Q : Lottery} (C : Codec Q) (path : String) (reservoir_size : ℕ)
    (default_duration_secs : Q.F64) where
  -- Loading, recording and saving, for these results.
  unfoldable pub record_in_file :
      Option (List String) → List (TestAttemptResult Q.F64) → Option (Option (List String))
  unfolding record_results load save
  record_in_file file results = elim (load C path file reservoir_size default_duration_secs) [
    | none ↦ none
    | some store ↦ elim results [
      | [] ↦ some file
      | r ∷ rs ↦ elim (record_results Q store (r ∷ rs)) [
        | none ↦ none
        | some recorded ↦ elim (save C recorded) [ none ↦ none | some lines ↦ some (some lines) ]
      ]
    ]
  ]

  unfoldable pub record_history :
      {I32 : Type 0}
      → RunInfo
      → Option (List String)
      → MasterJunitReport I32 Q.F64
      → Option (Option (List String))
  unfolding record_in_file extract_attempt_results
  record_history info file report = record_in_file file (extract_attempt_results info report)
