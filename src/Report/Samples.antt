-- ===== src/Report/Samples.antt =====
-- Concrete reports for the theorems about src/report/junit.rs.
use Prim.Native.Char.{code}
use Prim.Native.String.{◌++◌ as append}
use offload.Base.{
  ◌+◌, String, ◌≡◌, refl, Bool, true, false, ◌||◌, Option, none, some, List, [], ◌∷◌, map,
  if◌then◌else◌, ◌==◌, comparable_number, comparable_text, get,
}
use offload.Report.Suites.{
  TestStatus, passed, failed, flaky, TestId, FailureXml, TestcaseXml, TestsuiteXml, comparable_id,
}
use offload.Report.Master.{
  MasterJunitReport, new, add_junit_xml, has_test_passed, summary, total_count, passed_count,
  failed_count,
}
use offload.Report.Outcomes.{add_reports, get-add_reports, has_test_passed-add_reports}
use offload.Report.Counts.{summary-eq-total}
use offload.Report.Reader.{
  Event, start, empty, text, end, Decoding, init, read_events, parse_all_testsuites_xml,
}
use offload.Report.Writer.{Encoding, write_to_file, attr}
use offload.Report.Rereading.{same, join, read_events-SameText}
use offload.Report.Xml.{XmlLibrary, reread, is_name, are_letters, open_after}
use offload.Report.RoundTrip.{XmlLaws, reread_testcase, reread_testsuite}
use offload.Report.Restored.{parse-write_to_file}

abbrev case_of : String → Option FailureXml → TestcaseXml String
case_of name failure = record {
  name = name;
  classname = none;
  time = "0.100";
  failure = failure;
  error = none;
  skipped = false;
}

abbrev a_failure : FailureXml
a_failure = record { message = some "expected 1"; content = "trace" }

abbrev suite_of : List (TestcaseXml String) → TestsuiteXml String String
suite_of testcases = record {
  name = "suite";
  tests = "2";
  failures = "1";
  errors = "0";
  skipped = "0";
  time = "0.200";
  timestamp = none;
  hostname = some "host";
  testcases = testcases;
}

-- The first attempt fails, the second passes.
abbrev two_attempts : List (List (TestsuiteXml String String))
two_attempts =
    (suite_of (case_of "a" (some a_failure) ∷ case_of "b" none ∷ []) ∷ [])
    ∷ (suite_of (case_of "a" none ∷ []) ∷ [])
    ∷ []

abbrev id_a : TestId
id_a = record { classname = none; name = "a" }

get-add_reports_example :
    get id_a (add_reports (new String String 2) two_attempts).test_outcomes ≡ some flaky
unfolding offload.Report.Suites.same_id offload.Report.Master.id_of offload.Report.Master.has_failed
get-add_reports_example = get-add_reports 2 id_a two_attempts

has_test_passed-add_reports_example :
    has_test_passed (add_reports (new String String 2) two_attempts) "a" ≡ true
unfolding offload.Report.Suites.same_id offload.Report.Master.id_of offload.Report.Master.has_failed
has_test_passed-add_reports_example = has_test_passed-add_reports 2 "a" two_attempts

abbrev sample_report : MasterJunitReport String String
sample_report = add_reports (new String String 2) two_attempts

summary-eq-total_example :
    ((summary sample_report).0 + (summary sample_report).1 + (summary sample_report).2
      ≡ total_count sample_report)
    × (passed_count sample_report + failed_count sample_report ≡ total_count sample_report)
    × (passed_count sample_report ≡ (summary sample_report).0 + (summary sample_report).2)
summary-eq-total_example = summary-eq-total sample_report

-- Numbers that stand for themselves.
abbrev plain : Decoding
plain = record {
  I32 = String;
  F64 = String;
  zero_i32 = "0";
  zero_f64 = "0";
  read_i32 = λ s. some s;
  read_f64 = λ s. some s;
  predefined_entity = λ s. if s == "lt" then some "<" else none;
}

-- Numbers that are 0 or 1, and an XML library that reads well-formed documents only and turns tabs and ends
-- of lines in attributes into spaces.
abbrev bit_of : String → Option Bool
bit_of s = if s == "1" then some true else if s == "0" then some false else none

abbrev show_bit : Bool → String
show_bit true = "1"
show_bit false = "0"

abbrev bits : Decoding
bits = record {
  I32 = Bool;
  F64 = Bool;
  zero_i32 = false;
  zero_f64 = false;
  read_i32 = bit_of;
  read_f64 = bit_of;
  predefined_entity = λ s. none;
}

abbrev bits_encoding : Encoding bits
bits_encoding = record { show_i32 = show_bit; show_f64 = show_bit; add_i32 = ◌||◌; add_f64 = ◌||◌ }

unfoldable spaced : String → String
spaced String.[] = ""
spaced (String.◌∷◌ c s) =
    let rest = spaced s in
    if code c == 9 || code c == 10 || code c == 13 then append " " rest else String.◌∷◌ c rest

abbrev read_closed : Option (List String) → List Event → List Event
read_closed (some []) es = map (reread spaced) es
read_closed _ es = []

abbrev strict_library : XmlLibrary bits
strict_library = record {
  Document = List Event;
  render = λ es. es;
  read = λ es. read_closed (open_after es []) es;
  normalized = spaced;
  rounded = λ s. s;
}

read-show_bit : (b : Bool) → bit_of (spaced (show_bit b)) ≡ some b
unfolding spaced
read-show_bit true = refl
read-show_bit false = refl

strict_laws : XmlLaws bits_encoding strict_library
strict_laws = record {
  faithful = record { read-render = λ es closed. rw closed (same (map (reread spaced) es)) };
  read-show_i32 = read-show_bit;
  read-show_f64 = read-show_bit;
}

abbrev two_lines : TestcaseXml Bool
two_lines = record {
  name = "adds\n1";
  classname = some "math";
  time = true;
  failure = some a_failure;
  error = none;
  skipped = false;
}

abbrev bit_report : MasterJunitReport Bool Bool
bit_report = add_junit_xml (new Bool Bool 1) (
    record {
      name = "suite";
      tests = true;
      failures = true;
      errors = false;
      skipped = false;
      time = true;
      timestamp = none;
      hostname = some "host";
      testcases = two_lines ∷ [];
    }
    ∷ [])

parse-write_to_file_example :
    parse_all_testsuites_xml bits
      (strict_library.read (strict_library.render (write_to_file bits_encoding bit_report)))
    ≡ map (reread_testsuite strict_library) bit_report.testsuites
parse-write_to_file_example = parse-write_to_file strict_library strict_laws bit_report

-- A line break in a name is not kept.
spaced_name : (reread_testcase strict_library two_lines).name ≡ "adds 1"
unfolding spaced
spaced_name = refl

-- A document that is not closed is not read.
unclosed : strict_library.read (start "testsuite" [] ∷ []) ≡ []
unfolding open_after is_name are_letters
unclosed = refl

read_events-SameText_example :
    read_events plain (init plain) (text (some "a") ∷ text (some "b") ∷ end "failure" ∷ [])
    ≡ read_events plain (init plain) (text (some "ab") ∷ end "failure" ∷ [])
read_events-SameText_example =
    read_events-SameText plain (init plain) (join "a" "b" (end "failure" ∷ []))

-- A failure with no content leaves no trace in its testcase.
self_closing_failure :
    parse_all_testsuites_xml plain (
      start "testsuite" []
      ∷ start "testcase" (attr "name" "a" ∷ [])
      ∷ empty "failure" (attr "message" "expected 1" ∷ [])
      ∷ end "testcase"
      ∷ end "testsuite"
      ∷ [])
    ≡ parse_all_testsuites_xml plain (
        start "testsuite" []
        ∷ start "testcase" (attr "name" "a" ∷ [])
        ∷ end "testcase"
        ∷ end "testsuite"
        ∷ [])
unfolding parse_all_testsuites_xml
self_closing_failure = refl
