-- ===== src/Framework/Vitest/Closed.antt =====
-- The XML that src/framework/vitest.rs writes is well-formed.
use offload.Base.{
  String, refl, Option, none, some, List, [], ◌∷◌, map, comparable_number, comparable_text,
  contains,
}
use offload.Report.Xml.{
  is_name, are_letters, open_after, IsWellFormed, IsBalanced, append-IsBalanced, element-IsBalanced,
}
use offload.Report.WellFormed.{nothing-IsBalanced}
use offload.Framework.Vitest.{
  VitestJsonTestResult, CaseData, SuiteData, Times, suite_data, write_case, write_cases,
  suite_attributes, totals, write_suite, write_suites, report_events,
}

module _ {F64 : Type 0} (T : Times F64) where
  write_case-IsBalanced :
      (tc : CaseData F64) (message : Option String) → IsBalanced (write_case T tc message)
  unfolding write_case open_after contains is_name are_letters
  write_case-IsBalanced tc none opened = refl
  write_case-IsBalanced tc (some msg) opened = refl

  write_cases-IsBalanced : (tcs : List (CaseData F64)) → IsBalanced (write_cases T tcs)
  unfolding write_cases
  write_cases-IsBalanced [] = nothing-IsBalanced
  write_cases-IsBalanced (tc ∷ tcs) =
      append-IsBalanced (write_case T tc tc.failure_message) (write_cases T tcs)
        (write_case-IsBalanced tc tc.failure_message) (write_cases-IsBalanced tcs)

  write_suite-IsBalanced :
      (suite : SuiteData F64) (tcs : List (CaseData F64)) → IsBalanced (write_suite T suite tcs)
  unfolding write_suite contains is_name are_letters
  write_suite-IsBalanced suite [] = nothing-IsBalanced
  write_suite-IsBalanced suite (tc ∷ tcs) =
      element-IsBalanced "testsuite" (suite_attributes T suite) (write_cases T (tc ∷ tcs)) [] refl
        (write_cases-IsBalanced (tc ∷ tcs)) nothing-IsBalanced

  write_suites-IsBalanced : (suites : List (SuiteData F64)) → IsBalanced (write_suites T suites)
  unfolding write_suites
  write_suites-IsBalanced [] = nothing-IsBalanced
  write_suites-IsBalanced (suite ∷ suites) =
      append-IsBalanced (write_suite T suite suite.cases) (write_suites T suites)
        (write_suite-IsBalanced suite suite.cases) (write_suites-IsBalanced suites)

  pub report_events-IsWellFormed :
      (cwd : String) (results : List (VitestJsonTestResult F64))
      → IsWellFormed (report_events T cwd results)
  unfolding report_events open_after contains is_name are_letters
  report_events-IsWellFormed cwd results =
      let suites = map (suite_data T cwd) results in
      element-IsBalanced "testsuites" (totals T suites) (write_suites T suites) [] refl
        (write_suites-IsBalanced suites) nothing-IsBalanced []
