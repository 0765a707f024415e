-- ===== src/Framework/Vitest/Reading.antt =====
-- The reader of src/report/junit.rs on the events that src/framework/vitest.rs writes.
use package.text.Mathlib.TextLemmas.{nil-append as text_nil-append}
use offload.Base.{
  String, ◌≡◌, refl, ap, ◌∙◌, false, Option, none, some, List, [], ◌∷◌, ◌++◌, map, append-nil,
  append_assoc, unwrap_or, comparable_number, comparable_text, get, flat_map, flat_map-append,
}
use offload.Report.Suites.{FailureXml, TestcaseXml, TestsuiteXml}
use offload.Report.Reader.{
  Event, start, end, Attributes, Decoding, Parser, init, read_events, read_testsuite, read_testcase,
  parse_all_testsuites_xml,
}
use offload.Report.Xml.{XmlLibrary, IsFaithful, reread_attrs}
use offload.Report.Restored.{seen, read_events-seen, parse-SameText}
use offload.Framework.Vitest.Closed.{report_events-IsWellFormed}
use offload.Framework.Vitest.{
  VitestJsonTestResult, CaseData, SuiteData, Times, suite_data, first_line, write_case, write_cases,
  suite_attributes, write_suite, write_suites, report_events, xml_from_report,
}

abbrev pub map_opt : {A B : Type 0} → (A → B) → Option A → Option B
map_opt f none = none
map_opt f (some a) = some (f a)

module _ {D : Decoding} (X : XmlLibrary D) (T : Times D.F64) where
  abbrev pub Suites : Type 0
  Suites = List (TestsuiteXml D.I32 D.F64)

  -- The state of the reader outside of testcases.
  abbrev pub at_suite : Suites → Option (TestsuiteXml D.I32 D.F64) → Parser D
  at_suite done ts = record {
    testsuites = done;
    current_testsuite = ts;
    current_testcase = none;
    current_failure_content = "";
    in_failure = false;
    in_error = false;
    failure_message = none;
    error_message = none;
  }

  abbrev pub read_failure : String → FailureXml
  read_failure msg = record { message = some (X.normalized (first_line T msg)); content = msg }

  abbrev pub read_case : CaseData D.F64 → Option String → TestcaseXml D.F64
  read_case tc message = record {
    name = X.normalized tc.name;
    classname = some (X.normalized tc.classname);
    time = unwrap_or (D.read_f64 (X.normalized (T.show_f64 tc.time))) D.zero_f64;
    failure = map_opt read_failure message;
    error = none;
    skipped = false;
  }

  abbrev with_cases : TestsuiteXml D.I32 D.F64 → List (TestcaseXml D.F64) → TestsuiteXml D.I32 D.F64
  with_cases ts tcs = record ts { testcases = ts.testcases ++ tcs }

  read-write_case :
      (done : Suites) (ts : TestsuiteXml D.I32 D.F64) (tc : CaseData D.F64)
      (message : Option String)
      → read_events D (at_suite done (some ts)) (seen X (write_case T tc message))
        ≡ at_suite done (some (with_cases ts (read_case tc message ∷ [])))
  unfolding read_events write_case read_testcase get
  read-write_case done ts tc none = refl
  read-write_case done ts tc (some msg) = rw (text_nil-append msg) refl

  abbrev pub read_cases : List (CaseData D.F64) → List (TestcaseXml D.F64)
  read_cases = map (λ tc. read_case tc tc.failure_message)

  read-write_cases :
      (done : Suites) (ts : TestsuiteXml D.I32 D.F64) (tcs : List (CaseData D.F64))
      → read_events D (at_suite done (some ts)) (seen X (write_cases T tcs))
        ≡ at_suite done (some (with_cases ts (read_cases tcs)))
  unfolding write_cases
  read-write_cases done ts [] = rw (append-nil ts.testcases) (unfold read_events in refl)
  read-write_cases done ts (tc ∷ tcs) =
      read_events-seen X (at_suite done (some ts)) (write_case T tc tc.failure_message)
        (write_cases T tcs)
      ∙ ap (λ p. read_events D p (seen X (write_cases T tcs)))
          (read-write_case done ts tc tc.failure_message)
      ∙ read-write_cases done (with_cases ts (read_case tc tc.failure_message ∷ [])) tcs
      ∙ ap (λ l. at_suite done (some (record ts { testcases = l })))
          (append_assoc ts.testcases (read_case tc tc.failure_message ∷ []) (read_cases tcs))

  abbrev pub suite_attrs : SuiteData D.F64 → Attributes
  suite_attrs suite = reread_attrs X.normalized (suite_attributes T suite)

  -- The suites that are read for a suite, if it has cases.
  abbrev pub read_suite : SuiteData D.F64 → List (CaseData D.F64) → Suites
  read_suite suite [] = []
  read_suite suite (tc ∷ tcs) =
      record (read_testsuite D (suite_attrs suite)) { testcases = read_cases (tc ∷ tcs) } ∷ []

  read-start_suite :
      (done : Suites) (suite : SuiteData D.F64) (es : List Event)
      → read_events D
          (at_suite done none)
          (seen X (start "testsuite" (suite_attributes T suite) ∷ es))
        ≡ read_events D (at_suite done (some (read_testsuite D (suite_attrs suite)))) (seen X es)
  unfolding read_events
  read-start_suite done suite es = refl

  read-write_suite :
      (done : Suites) (suite : SuiteData D.F64) (tcs : List (CaseData D.F64))
      → read_events D (at_suite done none) (seen X (write_suite T suite tcs))
        ≡ at_suite (done ++ read_suite suite tcs) none
  unfolding write_suite
  read-write_suite done suite [] = rw (append-nil done) (unfold read_events in refl)
  read-write_suite done suite (tc ∷ tcs) =
      let ts = read_testsuite D (suite_attrs suite) in
      read-start_suite done suite (write_cases T (tc ∷ tcs) ++ end "testsuite" ∷ [])
      ∙ read_events-seen X (at_suite done (some ts)) (write_cases T (tc ∷ tcs))
          (end "testsuite" ∷ [])
      ∙ ap (λ p. read_events D p (end "testsuite" ∷ [])) (read-write_cases done ts (tc ∷ tcs))
      ∙ unfold read_events in refl

  read-write_suites :
      (done : Suites) (suites : List (SuiteData D.F64))
      → read_events D (at_suite done none) (seen X (write_suites T suites))
        ≡ at_suite (done ++ flat_map (λ s. read_suite s s.cases) suites) none
  unfolding write_suites
  read-write_suites done [] = rw (append-nil done) (unfold read_events in refl)
  read-write_suites done (suite ∷ suites) =
      read_events-seen X (at_suite done none) (write_suite T suite suite.cases)
        (write_suites T suites)
      ∙ ap (λ p. read_events D p (seen X (write_suites T suites)))
          (read-write_suite done suite suite.cases)
      ∙ read-write_suites (done ++ read_suite suite suite.cases) suites
      ∙ ap (λ l. at_suite l none)
          (append_assoc done (read_suite suite suite.cases)
            (flat_map (λ s. read_suite s s.cases) suites))

  testcases_of :
      (suite : SuiteData D.F64) (tcs : List (CaseData D.F64))
      → flat_map (λ s. s.testcases) (read_suite suite tcs) ≡ read_cases tcs
  testcases_of suite [] = refl
  testcases_of suite (tc ∷ tcs) = append-nil (read_cases (tc ∷ tcs))

  pub flat_map-read_suite :
      (suites : List (SuiteData D.F64))
      → flat_map (λ s. s.testcases) (flat_map (λ s. read_suite s s.cases) suites)
        ≡ flat_map (λ s. read_cases s.cases) suites
  flat_map-read_suite [] = refl
  flat_map-read_suite (suite ∷ suites) =
      flat_map-append (λ s. s.testcases) (read_suite suite suite.cases)
        (flat_map (λ s. read_suite s s.cases) suites)
      ∙ ap (λ l. l ++ flat_map (λ s. s.testcases) (flat_map (λ s. read_suite s s.cases) suites))
          (testcases_of suite suite.cases)
      ∙ ap (◌++◌ (read_cases suite.cases)) (flat_map-read_suite suites)

  read-report_events :
      (cwd : String) (results : List (VitestJsonTestResult D.F64))
      → parse_all_testsuites_xml D (seen X (report_events T cwd results))
        ≡ flat_map (λ s. read_suite s s.cases) (map (suite_data T cwd) results)
  unfolding parse_all_testsuites_xml report_events read_events init
  read-report_events cwd results =
      let suites = map (suite_data T cwd) results in
      ap (λ p. p.testsuites)
        (read_events-seen X (at_suite [] none) (write_suites T suites) (end "testsuites" ∷ [])
          ∙ ap (λ p. read_events D p (end "testsuites" ∷ [])) (read-write_suites [] suites))

  pub read-xml_from_report :
      IsFaithful X
      → (cwd : String) (results : List (VitestJsonTestResult D.F64))
      → parse_all_testsuites_xml D (X.read (xml_from_report X T cwd results))
        ≡ flat_map (λ s. read_suite s s.cases) (map (suite_data T cwd) results)
  unfolding xml_from_report
  read-xml_from_report L cwd results =
      parse-SameText D (L.read-render _ (report_events-IsWellFormed T cwd results))
      ∙ read-report_events cwd results
