-- ===== src/Report/Master.antt =====
-- MasterJunitReport of src/report/junit.rs.
use offload.Base.{
  ℕ, String, Bool, true, false, ◌||◌, Option, none, some, List, [], ◌∷◌, ◌++◌, map, if◌then◌else◌,
  is_some, unwrap_or, length, keep, sum_of, ◌==◌, comparable_number, comparable_text, get, insert,
}
use offload.Report.Suites.{
  TestStatus, passed, failed, flaky, TestId, TestcaseXml, TestsuiteXml, comparable_id,
}

module _ (I32 F64 : Type 0) where
  pub record MasterJunitReport : Type 0 where
    pub testsuites : List (TestsuiteXml I32 F64)
    pub test_outcomes : List (TestId × TestStatus)
    pub total_expected : ℕ

  unfoldable pub new : ℕ → MasterJunitReport
  new total_expected = record {
    testsuites = [];
    test_outcomes = [];
    total_expected = total_expected;
  }

-- The new status of a test id, `match (current, failed)`.
unfoldable pub next_status : Option TestStatus → Bool → TestStatus
next_status none false = passed
next_status none true = failed
next_status (some failed) false = flaky
next_status (some passed) true = flaky
next_status (some status) _ = status

unfoldable pub update_test_outcome :
    List (TestId × TestStatus) → TestId → Bool → List (TestId × TestStatus)
unfolding next_status
update_test_outcome test_outcomes test_id is_failed =
    insert test_id (next_status (get test_id test_outcomes) is_failed) test_outcomes

module _ {F64 : Type 0} where
  unfoldable pub id_of : TestcaseXml F64 → TestId
  id_of testcase = record { classname = testcase.classname; name = testcase.name }

  unfoldable pub has_failed : TestcaseXml F64 → Bool
  has_failed testcase = is_some testcase.failure || is_some testcase.error

  -- `entry(test_id).or_insert(false)`, set to true if the testcase failed.
  unfoldable pub note_outcome : List (TestId × Bool) → TestcaseXml F64 → List (TestId × Bool)
  unfolding id_of has_failed
  note_outcome outcomes testcase =
      let entry = unwrap_or (get (id_of testcase) outcomes) false in
      insert (id_of testcase) (if has_failed testcase then true else entry) outcomes

  unfoldable pub suite_outcomes :
      List (TestId × Bool) → List (TestcaseXml F64) → List (TestId × Bool)
  unfolding note_outcome
  suite_outcomes outcomes [] = outcomes
  suite_outcomes outcomes (testcase ∷ testcases) =
      suite_outcomes (note_outcome outcomes testcase) testcases

unfoldable pub update_outcomes :
    List (TestId × TestStatus) → List (TestId × Bool) → List (TestId × TestStatus)
unfolding update_test_outcome
update_outcomes test_outcomes [] = test_outcomes
update_outcomes test_outcomes ((test_id, is_failed) ∷ rest) =
    update_outcomes (update_test_outcome test_outcomes test_id is_failed) rest

module _ {I32 F64 : Type 0} where
  unfoldable pub add_suite :
      MasterJunitReport I32 F64 → TestsuiteXml I32 F64 → MasterJunitReport I32 F64
  unfolding update_outcomes suite_outcomes
  add_suite r testsuite = record r {
    test_outcomes = update_outcomes r.test_outcomes (suite_outcomes [] testsuite.testcases);
    testsuites = r.testsuites ++ testsuite ∷ [];
  }

  -- It never fails. With no suites it returns at once, as the loop does.
  unfoldable pub add_junit_xml :
      MasterJunitReport I32 F64 → List (TestsuiteXml I32 F64) → MasterJunitReport I32 F64
  unfolding add_suite
  add_junit_xml r [] = r
  add_junit_xml r (testsuite ∷ testsuites) = add_junit_xml (add_suite r testsuite) testsuites

  abbrev statuses : MasterJunitReport I32 F64 → List TestStatus
  statuses r = map (λ p. p.1) r.test_outcomes

abbrev pub is_passed : TestStatus → Bool
is_passed passed = true
is_passed _ = false

abbrev pub is_failed : TestStatus → Bool
is_failed failed = true
is_failed _ = false

abbrev pub is_flaky : TestStatus → Bool
is_flaky flaky = true
is_flaky _ = false

module _ {I32 F64 : Type 0} where
  unfoldable pub passed_count : MasterJunitReport I32 F64 → ℕ
  passed_count r = length (keep (λ p. is_passed p.1 || is_flaky p.1) r.test_outcomes)

  unfoldable pub failed_count : MasterJunitReport I32 F64 → ℕ
  failed_count r = length (keep (λ p. is_failed p.1) r.test_outcomes)

  unfoldable pub flaky_count : MasterJunitReport I32 F64 → ℕ
  flaky_count r = length (keep (λ p. is_flaky p.1) r.test_outcomes)

  unfoldable pub total_count : MasterJunitReport I32 F64 → ℕ
  total_count r = length r.test_outcomes

  unfoldable pub all_passed : MasterJunitReport I32 F64 → Bool
  unfolding passed_count
  all_passed r = passed_count r == r.total_expected

  -- A test id is looked up with no class name.
  unfoldable pub has_test_passed : MasterJunitReport I32 F64 → String → Bool
  has_test_passed r test_id =
      elim (get (record { classname = none; name = test_id }) r.test_outcomes) [
        | some status ↦ is_passed status || is_flaky status
        | none ↦ false
      ]

  unfoldable pub testcase_count : MasterJunitReport I32 F64 → ℕ
  testcase_count r = sum_of (λ s. length s.testcases) r.testsuites

  -- Passed, failed and flaky, each counted apart.
  unfoldable pub summary : MasterJunitReport I32 F64 → ℕ × ℕ × ℕ
  unfolding failed_count flaky_count
  summary r = (length (keep (λ p. is_passed p.1) r.test_outcomes), failed_count r, flaky_count r)
