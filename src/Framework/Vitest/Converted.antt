-- ===== src/Framework/Vitest/Converted.antt =====
-- The XML that src/framework/vitest.rs writes, as src/report/junit.rs reads it.
use offload.Base.{
  String, ◌≡◌, Bool, ◌&&◌, Option, some, List, ◌++◌, map, foldl, is_some, keep, ◌==◌,
  comparable_number, comparable_text,
}
use offload.Report.Suites.{TestcaseXml}
use offload.Report.Master.{has_failed}
use offload.Report.Reader.{Decoding}
use offload.Report.Xml.{XmlLibrary}
use offload.Framework.Vitest.{
  VitestJsonAssertionResult, SuiteData, Times, first, has_run, case_name, case_data, note_assertion,
}

module _ {D : Decoding} (X : XmlLibrary D) (T : Times D.F64) where
  abbrev Assertions : Type 0
  Assertions = List (VitestJsonAssertionResult D.F64)

  abbrev CasesOf : Assertions → Type 0
  CasesOf ars =
      (suite : SuiteData D.F64)
      → (foldl (note_assertion T) suite ars).cases
        ≡ suite.cases ++ map (case_data T suite.name) (keep has_run ars)

  -- A testcase as it is counted: its class name, its name, and whether it has failed.
  abbrev pub ReadCase : Type 0
  ReadCase = Option String × String × Bool

  abbrev pub seen : TestcaseXml D.F64 → ReadCase
  seen tc = (tc.classname, tc.name, has_failed tc)

  -- The specification for an assertion of a file.
  abbrev pub expected : String → VitestJsonAssertionResult D.F64 → ReadCase
  expected file ar = (
    some (X.normalized file),
    X.normalized (case_name ar),
    ar.status == "failed" && is_some (first ar.failure_messages),
  )
