-- ===== src/Framework/Vitest.antt =====
-- src/framework/vitest.rs: the names of tests, the command for a batch, and the conversion of vitest's JSON
-- report to JUnit XML. JSON, the splitting of shell words and the escaping of regular expressions are the
-- libraries'; counts of tests are i32 values that do not overflow. The indentation of the XML is left out.
pub mod Batches
mod Closed
mod Reading
mod Converted
mod Samples
use offload.Base.{
  ℕ, zero, suc, ◌+◌, ◌-◌, ◌*◌, ◌/◌, ◌%◌, ◌≤◌, ◌<◌, min, max, String, ◌≡◌, refl, sym, ap, ◌∙◌, subst,
  ◌≢◌, ◌↔◌, ◌⊎◌, inl, inr, Bool, true, false, not, ◌&&◌, ◌||◌, Option, none, some, List, [], ◌∷◌,
  ◌++◌, map, foldl, flatten, append-nil, append_assoc, map-append, Perm, arith, ltb, leb,
  if◌then◌else◌, ltb→lt, lt→ltb, leb→le, le→leb, leb-false→lt, Bool-cases, Option-cases, is_some,
  unwrap_or, length, take, drop, replicate, set, keep, all, sum_of, All, length-append,
  take-append-drop, length-take, length-drop, length-replicate, length-set, length-map,
  length-keep-le, sum_of-append, All-append, All-replicate, All-imp, All-keep, All-keep_self,
  Comparable, ◌==◌, comparable_number, comparable_text, eq_self, eq→path, ne→eq-false, contains,
  add, Distinct, contains-add, Distinct-add, length-add-le, get, insert, get-insert,
  get-insert_self, insert_by, sort_by, sort_by-perm, IsSorted, All-insert_by, All-sort_by,
  sort_by-IsSorted, flat_map, flat_map-append, flat_map-replicate_nil, flat_map-keep,
  keep-append-perm, flat_map-sort_by-perm, sum_of-perm, length-perm, contains-sort_by,
  Distinct-sort_by, keys, contains-keys-insert, IsTable, insert-IsTable, get-not_key, Result, ok,
  err, Failure, failed, Action, pure, fail, and_then, ◌>>=◌, ◌>>◌, attempt, with_error, map_error,
  any, Ends, Ensures, Keeps, bind-Ensures, pure-Keeps, lift-Keeps, if-Ensures, Keeps-snd,
  attempt-Keeps, map_error-Ensures, weaken-Ensures, snd-Keeps, bind-eq-ok,
}
use offload.Base.Texts.{strip_prefix, lines}
use offload.Framework.{TestInstance, TestRecord}
use offload.Framework.Matching.{Text, chars, text, replace}
use offload.Git.Paths.{strip_base}
use offload.Report.Suites.{TestcaseXml, TestsuiteXml}
use offload.Report.Reader.{Event, start, empty, end, other, Attributes, Decoding}
use offload.Report.Xml.{XmlLibrary}
use offload.Report.Reader
use Prim.Native.String.{◌++◌ as append}

-- str::split_once, by " > ".
unfoldable pub split_name : String → Option (String × String)
unfolding strip_prefix
split_name String.[] = none
split_name (String.◌∷◌ c s) =
    let rest = split_name s in
    elim (strip_prefix (String.◌∷◌ c s) " > ") [
      | some after ↦ some ("", after)
      | none ↦ elim rest [ none ↦ none | some (before, after) ↦ some (String.◌∷◌ c before, after) ]
    ]

unfoldable pub to_vitest_match_name : String → String
unfolding replace
to_vitest_match_name name = text (replace (chars name) " > " " ")

unfoldable pub match_name : String → String
unfolding split_name to_vitest_match_name
match_name id = elim (split_name id) [ some (file, name) ↦ to_vitest_match_name name | none ↦ id ]

-- The table `seen`, and the names that are there more than once.
unfoldable pub count_names : List (String × ℕ) → List TestRecord → List (String × ℕ)
unfolding match_name
count_names seen [] = seen
count_names seen (t ∷ tests) =
    let name = match_name t.id in
    count_names (insert name (unwrap_or (get name seen) 0 + 1) seen) tests

unfoldable pub duplicates : List (String × ℕ) → List String
duplicates seen = map (λ p. p.0) (keep (λ p. ltb 1 p.1) seen)

-- The error has the names in order.
unfoldable pub check_unique_test_names : List TestRecord → Result (List String) (Unit {0})
unfolding count_names duplicates
check_unique_test_names tests = elim (duplicates (count_names [] tests)) [
  | [] ↦ ok tt
  | d ∷ ds ↦ err (d ∷ ds)
]

pub record VitestListItem : Type 0 where
  pub name : String
  pub file : String

-- The id of an item. A file that is not below the current directory keeps its path.
unfoldable pub discovered_id : String → VitestListItem → String
unfolding strip_base
discovered_id cwd item =
    append (unwrap_or (strip_base item.file cwd) item.file) (append " > " item.name)

abbrev pub join_with : String → List String → String
join_with separator [] = ""
join_with separator (s ∷ []) = s
join_with separator (s ∷ t ∷ rest) = append s (append separator (join_with separator (t ∷ rest)))

pub record VitestJsonAssertionResult (F64 : Type 0) : Type 0 where
  pub ancestor_titles : List String
  pub title : String
  pub status : String
  pub duration : Option F64
  pub failure_messages : List String

pub record VitestJsonTestResult (F64 : Type 0) : Type 0 where
  pub name : String
  pub assertion_results : List (VitestJsonAssertionResult F64)

pub record CaseData (F64 : Type 0) : Type 0 where
  pub classname : String
  pub name : String
  pub time : F64
  pub failure_message : Option String

pub record SuiteData (F64 : Type 0) : Type 0 where
  pub name : String
  pub tests : ℕ
  pub failures : ℕ
  pub time : F64
  pub cases : List (CaseData F64)

-- Arithmetic on f64, and what `to_string` and `{:.6}` print. `seconds` is `unwrap_or(0.0) / 1000.0`.
pub record Times (F64 : Type 0) : Type 0 where
  pub zero_f64 : F64
  pub add_f64 : F64 → F64 → F64
  pub seconds : Option F64 → F64
  pub show_i32 : ℕ → String
  pub show_f64 : F64 → String

abbrev pub trim_slashes : String → String
trim_slashes String.[] = ""
trim_slashes (String.◌∷◌ c s) =
    let rest = trim_slashes s in if String.◌∷◌ c "" == "/" then rest else String.◌∷◌ c s

unfoldable pub relative_file : String → String → String
unfolding strip_prefix
relative_file cwd name = trim_slashes (unwrap_or (strip_prefix name cwd) name)

abbrev pub first : List String → Option String
first [] = none
first (s ∷ rest) = some s

module _ {F64 : Type 0} where
  abbrev pub has_run : VitestJsonAssertionResult F64 → Bool
  has_run ar = not (ar.status == "pending" || ar.status == "todo" || ar.status == "skipped")

  unfoldable pub case_name : VitestJsonAssertionResult F64 → String
  case_name ar = join_with " > " (ar.ancestor_titles ++ ar.title ∷ [])

module _ {F64 : Type 0} (T : Times F64) where
  unfoldable pub case_data : String → VitestJsonAssertionResult F64 → CaseData F64
  unfolding case_name
  case_data file ar = record {
    classname = file;
    name = case_name ar;
    time = T.seconds ar.duration;
    failure_message = if ar.status == "failed" then first ar.failure_messages else none;
  }

  -- The body of the loop over the assertions of a file, after the early `continue`.
  unfoldable pub note_run : SuiteData F64 → VitestJsonAssertionResult F64 → SuiteData F64
  unfolding case_data
  note_run suite ar = record suite {
    tests = suite.tests + 1;
    failures = if ar.status == "failed" then suite.failures + 1 else suite.failures;
    time = T.add_f64 suite.time (T.seconds ar.duration);
    cases = suite.cases ++ case_data suite.name ar ∷ [];
  }

  unfoldable pub note_assertion : SuiteData F64 → VitestJsonAssertionResult F64 → SuiteData F64
  unfolding note_run
  note_assertion suite ar = if has_run ar then note_run suite ar else suite

  unfoldable pub suite_data : String → VitestJsonTestResult F64 → SuiteData F64
  unfolding note_assertion relative_file
  suite_data cwd test_result =
      let start : SuiteData F64 = record {
        name = relative_file cwd test_result.name;
        tests = 0;
        failures = 0;
        time = T.zero_f64;
        cases = [];
      } in
      foldl note_assertion start test_result.assertion_results

  abbrev pub attribute : String → String → String × Option String
  attribute key value = (key, some value)

  abbrev pub case_attributes : CaseData F64 → Attributes
  case_attributes tc =
      attribute "classname" tc.classname
      ∷ attribute "name" tc.name
      ∷ attribute "time" (T.show_f64 tc.time)
      ∷ []

  -- The first line is the message, the text its content.
  abbrev pub first_line : String → String
  first_line msg = unwrap_or (first (lines msg)) ""

  unfoldable pub write_case : CaseData F64 → Option String → List Event
  write_case tc (some msg) =
      start "testcase" (case_attributes tc)
      ∷ start "failure" (attribute "message" (first_line msg) ∷ [])
      ∷ Reader.text (some msg)
      ∷ end "failure"
      ∷ end "testcase"
      ∷ []
  write_case tc none = empty "testcase" (case_attributes tc) ∷ []

  unfoldable pub write_cases : List (CaseData F64) → List Event
  unfolding write_case
  write_cases [] = []
  write_cases (tc ∷ tcs) = write_case tc tc.failure_message ++ write_cases tcs

  abbrev pub suite_attributes : SuiteData F64 → Attributes
  suite_attributes suite =
      attribute "name" suite.name
      ∷ attribute "tests" (T.show_i32 suite.tests)
      ∷ attribute "failures" (T.show_i32 suite.failures)
      ∷ attribute "errors" "0"
      ∷ attribute "skipped" "0"
      ∷ attribute "time" (T.show_f64 suite.time)
      ∷ []

  -- A suite without cases is not written.
  unfoldable pub write_suite : SuiteData F64 → List (CaseData F64) → List Event
  unfolding write_cases
  write_suite suite [] = []
  write_suite suite (tc ∷ tcs) =
      start "testsuite" (suite_attributes suite) ∷ (write_cases (tc ∷ tcs) ++ end "testsuite" ∷ [])

  unfoldable pub write_suites : List (SuiteData F64) → List Event
  unfolding write_suite
  write_suites [] = []
  write_suites (suite ∷ suites) = write_suite suite suite.cases ++ write_suites suites

  abbrev pub totals : List (SuiteData F64) → Attributes
  totals suites =
      attribute "name" "vitest tests"
      ∷ attribute "tests" (T.show_i32 (sum_of (λ s. s.tests) suites))
      ∷ attribute "failures" (T.show_i32 (sum_of (λ s. s.failures) suites))
      ∷ attribute "errors" "0"
      ∷ attribute "time" (T.show_f64 (foldl (λ t s. T.add_f64 t s.time) T.zero_f64 suites))
      ∷ []

  -- The events that are written for the parsed report.
  unfoldable pub report_events : String → List (VitestJsonTestResult F64) → List Event
  unfolding suite_data write_suites
  report_events cwd test_results =
      let suites = map (suite_data cwd) test_results in
      other ∷ start "testsuites" (totals suites) ∷ (write_suites suites ++ end "testsuites" ∷ [])

-- The rendered XML.
unfoldable pub xml_from_report :
    {D : Decoding} (X : XmlLibrary D)
    → Times D.F64
    → String
    → List (VitestJsonTestResult D.F64)
    → X.Document
unfolding report_events
xml_from_report X T cwd test_results = X.render (report_events T cwd test_results)
