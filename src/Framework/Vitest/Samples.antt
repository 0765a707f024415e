-- ===== src/Framework/Vitest/Samples.antt =====
-- A report of vitest for the theorems about src/framework/vitest.rs.
use Prim.Native.Char.{code}
use Prim.Native.String.{◌++◌ as append}
use offload.Base.{
  String, ◌≡◌, refl, true, false, Option, none, some, List, [], ◌∷◌, map, if◌then◌else◌, unwrap_or,
  keep, ◌==◌, comparable_number, comparable_text, get, insert, insert_by, sort_by, flat_map, err,
}
use offload.Base.Texts.{strip_prefix}
use offload.Framework.{TestInstance, TestRecord}
use offload.Framework.Matching.{replace, replace_from}
use offload.Report.Reader.{Event, Decoding}
use offload.Report.Xml.{XmlLibrary, reread, open_after}
use offload.Framework.Vitest.{
  VitestJsonAssertionResult, VitestJsonTestResult, Times, relative_file, has_run, case_name,
  split_name, match_name, to_vitest_match_name, check_unique_test_names, count_names, duplicates,
  discovered_id,
}
use offload.Framework.Vitest.Batches.{
  Shell, VitestFramework, new, escaped_names, produce_test_execution_command,
}
use offload.Framework.Vitest.Converted.{expected}

abbrev plain : Decoding
plain = record {
  I32 = String;
  F64 = String;
  zero_i32 = "0";
  zero_f64 = "0";
  read_i32 = λ s. some s;
  read_f64 = λ s. some s;
  predefined_entity = λ s. none;
}

abbrev times : Times String
times = record {
  zero_f64 = "0";
  add_f64 = λ s t. s;
  seconds = λ o. unwrap_or o "0";
  show_i32 = λ n. "n";
  show_f64 = λ s. s;
}

abbrev assertion : String → String → List String → VitestJsonAssertionResult String
assertion title status messages = record {
  ancestor_titles = "math" ∷ [];
  title = title;
  status = status;
  duration = some "1.5";
  failure_messages = messages;
}

abbrev results : List (VitestJsonTestResult String)
results =
    record {
      name = "/app/src/math.test.ts";
      assertion_results =
          assertion "adds\nup" "passed" []
          ∷ assertion "later" "todo" []
          ∷ assertion "divides" "failed" ("expected 1\nreceived 2" ∷ [])
          ∷ assertion "stops" "failed" []
          ∷ [];
    }
    ∷ record { name = "/app/empty.test.ts"; assertion_results = assertion "x" "skipped" [] ∷ [] }
    ∷ []

-- An XML library that reads well-formed documents only, and turns ends of lines in attributes into spaces.
unfoldable spaced : String → String
spaced String.[] = ""
spaced (String.◌∷◌ c s) =
    let rest = spaced s in if code c == 10 then append " " rest else String.◌∷◌ c rest

abbrev read_closed : Option (List String) → List Event → List Event
read_closed (some []) es = map (reread spaced) es
read_closed _ es = []

abbrev library : XmlLibrary plain
library = record {
  Document = List Event;
  render = λ es. es;
  read = λ es. read_closed (open_after es []) es;
  normalized = spaced;
  rounded = λ s. s;
}

-- The last assertion has failed without a message: it counts as passed. The first title has two lines.
read_back :
    flat_map
      (λ r.
        map
          (expected library times (relative_file "/app" r.name))
          (keep has_run r.assertion_results))
      results
    ≡ (some "src/math.test.ts", "math > adds up", false)
      ∷ (some "src/math.test.ts", "math > divides", true)
      ∷ (some "src/math.test.ts", "math > stops", false)
      ∷ []
unfolding relative_file strip_prefix case_name spaced
read_back = refl

match_of : match_name "src/math.test.ts > math > adds" ≡ "math adds"
unfolding match_name split_name strip_prefix to_vitest_match_name replace replace_from
match_of = refl

abbrev discovered : String → TestRecord
discovered id = record {
  id = id;
  name = id;
  file = none;
  retry_count = 0;
  group = "g";
  schedule_individual = false;
}

-- The same names in two files cannot be told apart.
same_names :
    check_unique_test_names (discovered "a.ts > x > y" ∷ discovered "b.ts > x > y" ∷ [])
    ≡ err ("x y" ∷ [])
unfolding check_unique_test_names count_names duplicates match_name split_name strip_prefix
    to_vitest_match_name replace replace_from insert get
same_names = refl

-- A directory beside the current one, whose name begins like it: the discovered id keeps the path, the report
-- loses a part of it.
beside :
    (discovered_id "/app" (record { name = "x"; file = "/app2/a.ts" }) ≡ "/app2/a.ts > x")
    × (relative_file "/app" "/app2/a.ts" ≡ "2/a.ts")
unfolding discovered_id relative_file strip_prefix
beside = (refl, refl)

abbrev shell : Shell
shell = record {
  split = λ s. if s == "npx vitest" then some ("npx" ∷ "vitest" ∷ []) else none;
  escape = λ s. s;
}

abbrev vitest : VitestFramework
vitest = record { run_args = none; program = "npx"; prefix_args = "vitest" ∷ [] }

abbrev instance_of : String → TestInstance
instance_of id = record { id = id; group = "g"; schedule_individual = false }

split_command : new shell "npx vitest" none ≡ some vitest
unfolding new
split_command = refl

batch_args :
    (produce_test_execution_command shell vitest
      (instance_of "b.ts > y" ∷ instance_of "a.ts > m > x" ∷ instance_of "b.ts > y" ∷ [])
      "/tmp/r.json"
      true).args
    ≡ "vitest" ∷ "run" ∷ "--bail" ∷ "--testNamePattern" ∷ "^(m x|y)$" ∷ "--reporter=verbose"
      ∷ "--reporter=json" ∷ "--outputFile=/tmp/r.json" ∷ []
unfolding produce_test_execution_command escaped_names match_name split_name strip_prefix
    to_vitest_match_name replace replace_from sort_by insert_by
batch_args = refl
