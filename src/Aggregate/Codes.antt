-- ===== src/Aggregate/Codes.antt =====
-- The exit code of a run (src/orchestrator.rs) against the outcomes of its tests.
use offload.Base.{
  ℕ, ◌≡◌, refl, Bool, false, not, ◌||◌, List, [], ◌∷◌, arith, ltb, if◌then◌else◌, length, keep,
  ◌==◌, comparable_number, comparable_text,
}
use offload.Framework.{TestRecord}
use offload.Report.Suites.{TestStatus, TestId, comparable_id}
use offload.Report.Master.{
  MasterJunitReport, summary, total_count, failed_count, flaky_count, is_failed, is_flaky,
}
use offload.Aggregate.{success, exit_code, expected_unique_ids, run_result}

abbrev pub Outcomes : Type 0
Outcomes = List (TestId × TestStatus)

-- Some test has this status.
abbrev pub some_of : (TestStatus → Bool) → Outcomes → Bool
some_of p [] = false
some_of p ((id, status) ∷ rest) = p status || some_of p rest

-- The specification of the exit code: 1 if a test has failed or fewer tests are in the report than were
-- discovered, else 2 if a test is flaky, else 0.
abbrev pub code_of : Outcomes → ℕ → ℕ
code_of outcomes expected =
    if some_of is_failed outcomes || ltb (length outcomes) expected
    then 1
    else if some_of is_flaky outcomes
    then 2
    else 0

some_of-keep :
    (p : TestStatus → Bool) (outcomes : Outcomes)
    → ltb 0 (length (keep (λ x. p x.1) outcomes)) ≡ some_of p outcomes
some_of-keep p [] = refl
some_of-keep p ((id, status) ∷ rest) = ground (arith, some_of-keep p rest)

-- The exit code of a run is 1 exactly if some test has failed or the report has fewer tests than the distinct
-- ids that were discovered; else it is 2 exactly if some test is flaky. The run is a success if it is not 1.
pub exit_code-eq-code_of :
    {I32 F64 : Type 0} (report : MasterJunitReport I32 F64) (tests : List TestRecord)
    → (exit_code (run_result report tests)
        ≡ code_of report.test_outcomes (expected_unique_ids tests))
      × (success (run_result report tests) ≡ not (exit_code (run_result report tests) == 1))
unfolding exit_code run_result success summary failed_count flaky_count total_count
exit_code-eq-code_of report tests =
    ground (
      arith,
      some_of-keep is_failed report.test_outcomes,
      some_of-keep is_flaky report.test_outcomes,
    )
