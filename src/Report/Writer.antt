-- ===== src/Report/Writer.antt =====
-- `write_testsuites_xml` and `MasterJunitReport::write_to_file` of src/report/junit.rs, as the sequence
-- of events that is written.
use offload.Base.{
  String, ◌||◌, Option, none, some, List, [], ◌∷◌, ◌++◌, foldl, if◌then◌else◌, is_some,
  comparable_number, comparable_text,
}
use offload.Report.Suites.{FailureXml, TestcaseXml, TestsuiteXml}
use offload.Report.Master.{MasterJunitReport}
use offload.Report.Reader.{Event, start, empty, text, end, other, Attributes, Decoding}

-- Numbers in attributes: `to_string` of an i32, `{:.3}` of an f64, and their sums.
pub record Encoding (D : Decoding) : Type 0 where
  pub show_i32 : D.I32 → String
  pub show_f64 : D.F64 → String
  pub add_i32 : D.I32 → D.I32 → D.I32
  pub add_f64 : D.F64 → D.F64 → D.F64

abbrev pub attr : String → String → String × Option String
attr name value = (name, some value)

-- `if let Some(ref v) = … { elem.push_attribute(…) }`
abbrev pub attr_opt : String → Option String → Attributes
attr_opt name none = []
attr_opt name (some value) = attr name value ∷ []

unfoldable pub write_failure_or_error : String → FailureXml → List Event
write_failure_or_error tag failure =
    start tag (attr_opt "message" failure.message) ∷ text (some failure.content) ∷ end tag ∷ []

abbrev pub write_opt : String → Option FailureXml → List Event
write_opt tag none = []
write_opt tag (some failure) = write_failure_or_error tag failure

module _ {D : Decoding} (E : Encoding D) where
  unfoldable pub write_testcase : TestcaseXml D.F64 → List Event
  unfolding write_failure_or_error
  write_testcase tc =
      let elem =
        attr "name" tc.name
        ∷ (attr_opt "classname" tc.classname ++ attr "time" (E.show_f64 tc.time) ∷ []) in
      let has_content = is_some tc.failure || is_some tc.error in
      if has_content
      then start "testcase" elem
        ∷ (write_opt "failure" tc.failure ++ (write_opt "error" tc.error ++ end "testcase" ∷ []))
      else empty "testcase" elem ∷ []

  unfoldable pub write_testcases : List (TestcaseXml D.F64) → List Event
  unfolding write_testcase
  write_testcases [] = []
  write_testcases (tc ∷ tcs) = write_testcase tc ++ write_testcases tcs

  unfoldable pub write_testsuite : TestsuiteXml D.I32 D.F64 → List Event
  unfolding write_testcases
  write_testsuite suite =
      let elem =
        attr "name" suite.name
        ∷ attr "tests" (E.show_i32 suite.tests)
        ∷ attr "failures" (E.show_i32 suite.failures)
        ∷ attr "errors" (E.show_i32 suite.errors)
        ∷ attr "skipped" (E.show_i32 suite.skipped)
        ∷ attr "time" (E.show_f64 suite.time)
        ∷ (attr_opt "timestamp" suite.timestamp ++ attr_opt "hostname" suite.hostname) in
      text (some "  ")
      ∷ start "testsuite" elem
      ∷ (write_testcases suite.testcases ++ end "testsuite" ∷ text (some "\n") ∷ [])

  unfoldable pub write_suites : List (TestsuiteXml D.I32 D.F64) → List Event
  unfolding write_testsuite
  write_suites [] = []
  write_suites (suite ∷ suites) = write_testsuite suite ++ write_suites suites

  unfoldable pub write_testsuites_xml :
      List (TestsuiteXml D.I32 D.F64) → D.I32 → D.I32 → D.I32 → D.F64 → List Event
  unfolding write_suites
  write_testsuites_xml testsuites total_tests total_failures total_errors total_time =
      let elem =
        attr "name" "offload"
        ∷ attr "tests" (E.show_i32 total_tests)
        ∷ attr "failures" (E.show_i32 total_failures)
        ∷ attr "errors" (E.show_i32 total_errors)
        ∷ attr "time" (E.show_f64 total_time)
        ∷ [] in
      other
      ∷ text (some "\n")
      ∷ start "testsuites" elem
      ∷ text (some "\n")
      ∷ (write_suites testsuites ++ end "testsuites" ∷ text (some "\n") ∷ [])

  abbrev total_i32 : (TestsuiteXml D.I32 D.F64 → D.I32) → List (TestsuiteXml D.I32 D.F64) → D.I32
  total_i32 f suites = foldl (λ t s. E.add_i32 t (f s)) D.zero_i32 suites

  -- The events of the file that `write_to_file` writes.
  unfoldable pub write_to_file : MasterJunitReport D.I32 D.F64 → List Event
  unfolding write_testsuites_xml
  write_to_file r =
      write_testsuites_xml r.testsuites (total_i32 (λ s. s.tests) r.testsuites)
        (total_i32 (λ s. s.failures) r.testsuites) (total_i32 (λ s. s.errors) r.testsuites)
        (foldl (λ t s. E.add_f64 t s.time) D.zero_f64 r.testsuites)
