-- ===== src/Aggregate/Samples.antt =====
-- Concrete runs for the theorems about the end of a run in src/orchestrator.rs.
use offload.Base.{
  String, ◌≡◌, refl, false, not, none, List, [], ◌∷◌, ◌==◌, comparable_number, comparable_text,
  contains, add,
}
use offload.Framework.{TestRecord}
use offload.Framework.Matching.{replace, replace_from}
use offload.Report.Suites.{passed, flaky, TestId, comparable_id}
use offload.Report.Master.{MasterJunitReport, summary, total_count, failed_count, flaky_count}
use offload.Aggregate.{
  success, exit_code, unique_ids, expected_unique_ids, run_result, format_test_id,
}
use offload.Aggregate.Codes.{code_of, exit_code-eq-code_of}

abbrev id_of : String → TestId
id_of name = record { classname = none; name = name }

abbrev report : MasterJunitReport String String
report = record {
  testsuites = [];
  test_outcomes = (id_of "a", flaky) ∷ (id_of "b", passed) ∷ [];
  total_expected = 2;
}

abbrev discovered : String → TestRecord
discovered id = record {
  id = id;
  name = id;
  file = none;
  retry_count = 1;
  group = "g";
  schedule_individual = false;
}

abbrev two_tests : List TestRecord
two_tests = discovered "a" ∷ discovered "b" ∷ discovered "a" ∷ []

exit_code-eq-code_of_example :
    (exit_code (run_result report two_tests)
      ≡ code_of report.test_outcomes (expected_unique_ids two_tests))
    × (success (run_result report two_tests) ≡ not (exit_code (run_result report two_tests) == 1))
exit_code-eq-code_of_example = exit_code-eq-code_of report two_tests

-- One flaky test; a third id that is not in the report.
flaky_code : exit_code (run_result report two_tests) ≡ 2
unfolding exit_code run_result summary failed_count flaky_count total_count expected_unique_ids
    unique_ids add contains
flaky_code = refl

missing_code : exit_code (run_result report (discovered "c" ∷ two_tests)) ≡ 1
unfolding exit_code run_result summary failed_count flaky_count total_count expected_unique_ids
    unique_ids add contains
missing_code = refl

-- Testcases are resolved to the batch's ids, with no class name. Under the default formats of the cargo and the
-- vitest framework the history then holds other ids than the scheduler asks for.
cargo_id : format_test_id "{classname} {name}" "crate tests::a" none ≡ " crate tests::a"
unfolding format_test_id replace replace_from
cargo_id = refl

vitest_id : format_test_id "{classname} > {name}" "a.test.ts > b" none ≡ " > a.test.ts > b"
unfolding format_test_id replace replace_from
vitest_id = refl

pytest_id : format_test_id "{name}" "tests/a.py::b" none ≡ "tests/a.py::b"
unfolding format_test_id replace replace_from
pytest_id = refl
