-- ===== src/Report/Reader.antt =====
-- `parse_all_testsuites_xml` of src/report/junit.rs, over the events that the XML reader yields before
-- the end of the input or its first error. Numbers and entities are read by functions of the section.
use Prim.Native.String.{◌++◌ as append}
use offload.Base.{
  String, Bool, true, false, ◌||◌, Option, none, some, List, [], ◌∷◌, ◌++◌, if◌then◌else◌,
  unwrap_or, ◌==◌, comparable_number, comparable_text, get,
}
use offload.Report.Suites.{TestcaseXml, TestsuiteXml}

-- Attributes by key; the value is `none` where it cannot be decoded.
abbrev pub Attributes : Type 0
Attributes = List (String × Option String)

-- An event of the XML reader. A text is `none` where it cannot be decoded. A reference has its
-- character, or else the name of the entity, where these can be decoded.
pub data Event : Type 0 where
  start : String → Attributes → Event
  empty : String → Attributes → Event
  text : Option String → Event
  general_ref : Option String → Option String → Event
  end : String → Event
  other : Event

-- Numbers in attributes, and the predefined entities.
pub record Decoding : Type 1 where
  pub I32 : Type 0
  pub F64 : Type 0
  pub zero_i32 : I32
  pub zero_f64 : F64
  pub read_i32 : String → Option I32
  pub read_f64 : String → Option F64
  pub predefined_entity : String → Option String

unfoldable pub get_attr : Attributes → String → Option String
get_attr attrs name = unwrap_or (get name attrs) none

module _ (D : Decoding) where
  open D use {I32, F64, zero_i32, zero_f64, read_i32, read_f64, predefined_entity}

  unfoldable pub get_attr_i32 : Attributes → String → I32
  unfolding get_attr
  get_attr_i32 attrs name = elim (get_attr attrs name) [
    | none ↦ zero_i32
    | some s ↦ unwrap_or (read_i32 s) zero_i32
  ]

  unfoldable pub get_attr_f64 : Attributes → String → F64
  unfolding get_attr
  get_attr_f64 attrs name = elim (get_attr attrs name) [
    | none ↦ zero_f64
    | some s ↦ unwrap_or (read_f64 s) zero_f64
  ]

  -- An entity that is not predefined contributes nothing.
  unfoldable pub push_general_ref : String → Option String → Option String → String
  push_general_ref content (some ch) name = append content ch
  push_general_ref content none none = content
  push_general_ref content none (some name) = append content (unwrap_or (predefined_entity name) "")

  -- The local variables of the loop.
  pub record Parser : Type 0 where
    pub testsuites : List (TestsuiteXml I32 F64)
    pub current_testsuite : Option (TestsuiteXml I32 F64)
    pub current_testcase : Option (TestcaseXml F64)
    pub current_failure_content : String
    pub in_failure : Bool
    pub in_error : Bool
    pub failure_message : Option String
    pub error_message : Option String

  unfoldable pub init : Parser
  init = record {
    testsuites = [];
    current_testsuite = none;
    current_testcase = none;
    current_failure_content = "";
    in_failure = false;
    in_error = false;
    failure_message = none;
    error_message = none;
  }

  unfoldable pub read_testsuite : Attributes → TestsuiteXml I32 F64
  unfolding get_attr_i32 get_attr_f64
  read_testsuite attrs = record {
    name = unwrap_or (get_attr attrs "name") "";
    tests = get_attr_i32 attrs "tests";
    failures = get_attr_i32 attrs "failures";
    errors = get_attr_i32 attrs "errors";
    skipped = get_attr_i32 attrs "skipped";
    time = get_attr_f64 attrs "time";
    timestamp = get_attr attrs "timestamp";
    hostname = get_attr attrs "hostname";
    testcases = [];
  }

  unfoldable pub read_testcase : Attributes → TestcaseXml F64
  unfolding get_attr_f64
  read_testcase attrs = record {
    name = unwrap_or (get_attr attrs "name") "";
    classname = get_attr attrs "classname";
    time = get_attr_f64 attrs "time";
    failure = none;
    error = none;
    skipped = false;
  }

  -- `if let Some(ref mut tc) = current_testcase`
  abbrev on_testcase : (TestcaseXml F64 → TestcaseXml F64) → Parser → Parser
  on_testcase f p = elim p.current_testcase [
    | none ↦ p
    | some tc ↦ record p { current_testcase = some (f tc) }
  ]

  -- `if let Some(ref mut ts) = current_testsuite { ts.testcases.push(tc) }`
  abbrev add_testcase : TestcaseXml F64 → Parser → Parser
  add_testcase tc p = elim p.current_testsuite [
    | none ↦ p
    | some ts ↦ record p {
      current_testsuite = some (record ts { testcases = ts.testcases ++ tc ∷ [] });
    }
  ]

  unfoldable pub on_start : Parser → String → Attributes → Parser
  unfolding read_testsuite read_testcase
  on_start p tag attrs =
      if tag == "testsuite"
      then record p { current_testsuite = some (read_testsuite attrs) }
      else if tag == "testcase"
      then record p { current_testcase = some (read_testcase attrs) }
      else if tag == "skipped"
      then on_testcase (λ tc. record tc { skipped = true }) p
      else if tag == "failure"
      then record p {
        in_failure = true;
        failure_message = get_attr attrs "message";
        current_failure_content = "";
      }
      else if tag == "error"
      then record p {
        in_error = true;
        error_message = get_attr attrs "message";
        current_failure_content = "";
      }
      else p

  unfoldable pub on_empty : Parser → String → Attributes → Parser
  unfolding read_testsuite read_testcase
  on_empty p tag attrs =
      if tag == "testsuite"
      then record p { testsuites = p.testsuites ++ read_testsuite attrs ∷ [] }
      else if tag == "testcase"
      then add_testcase (read_testcase attrs) p
      else if tag == "skipped"
      then on_testcase (λ tc. record tc { skipped = true }) p
      else p

  abbrev close_testsuite : Parser → Parser
  close_testsuite p = elim p.current_testsuite [
    | none ↦ p
    | some ts ↦ record p { testsuites = p.testsuites ++ ts ∷ []; current_testsuite = none }
  ]

  abbrev close_testcase : Parser → Parser
  close_testcase p = elim p.current_testcase [
    | none ↦ p
    | some tc ↦ add_testcase tc (record p { current_testcase = none })
  ]

  abbrev close_failure : Parser → Parser
  close_failure p = elim p.current_testcase [
    | none ↦ record p { in_failure = false }
    | some tc ↦ record p {
      current_testcase = some (record tc {
        failure =
            some (record { message = p.failure_message; content = p.current_failure_content });
      });
      failure_message = none;
      current_failure_content = "";
      in_failure = false;
    }
  ]

  abbrev close_error : Parser → Parser
  close_error p = elim p.current_testcase [
    | none ↦ record p { in_error = false }
    | some tc ↦ record p {
      current_testcase = some (record tc {
        error = some (record { message = p.error_message; content = p.current_failure_content });
      });
      error_message = none;
      current_failure_content = "";
      in_error = false;
    }
  ]

  unfoldable pub on_end : Parser → String → Parser
  on_end p tag =
      if tag == "testsuite"
      then close_testsuite p
      else if tag == "testcase"
      then close_testcase p
      else if tag == "failure"
      then close_failure p
      else if tag == "error"
      then close_error p
      else p

  unfoldable pub step : Parser → Event → Parser
  unfolding on_start on_empty on_end push_general_ref
  step p (start tag attrs) = on_start p tag attrs
  step p (empty tag attrs) = on_empty p tag attrs
  step p (text none) = p
  step p (text (some t)) =
      if p.in_failure || p.in_error
      then record p { current_failure_content = append p.current_failure_content t }
      else p
  step p (general_ref ch name) =
      if p.in_failure || p.in_error
      then record p { current_failure_content = push_general_ref p.current_failure_content ch name }
      else p
  step p (end tag) = on_end p tag
  step p other = p

  unfoldable pub read_events : Parser → List Event → Parser
  unfolding step
  read_events p [] = p
  read_events p (e ∷ es) = read_events (step p e) es

  unfoldable pub parse_all_testsuites_xml : List Event → List (TestsuiteXml I32 F64)
  unfolding read_events init
  parse_all_testsuites_xml events = (read_events init events).testsuites
