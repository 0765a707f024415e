-- ===== src/Report/RoundTrip.antt =====
-- Reading the report that src/report/junit.rs has written.
use package.text.Mathlib.TextLemmas.{nil-append as text_nil-append}
use offload.Base.{
  String, ◌≡◌, refl, ap, ◌∙◌, Bool, false, Option, none, some, List, [], ◌∷◌, ◌++◌, map,
  comparable_number, comparable_text, get,
}
use offload.Report.Suites.{FailureXml, TestcaseXml, TestsuiteXml}
use offload.Report.Reader.{text, end, Decoding, Parser, get_attr, read_events, read_testcase}
use offload.Report.Writer.{
  Encoding, attr, attr_opt, write_opt, write_failure_or_error, write_testcase,
}
use offload.Report.Xml.{XmlLibrary, reread_attrs, reread, IsFaithful}

-- The library is faithful, and printed numbers can be read back.
pub record XmlLaws {D : Decoding} (E : Encoding D) (X : XmlLibrary D) : Type 0 where
  pub faithful : IsFaithful X
  pub read-show_i32 : (n : D.I32) → D.read_i32 (X.normalized (E.show_i32 n)) ≡ some n
  pub read-show_f64 : (t : D.F64) → D.read_f64 (X.normalized (E.show_f64 t)) ≡ some (X.rounded t)

abbrev pub map_opt {ℓ κ} : {A : Type ℓ} {B : Type κ} → (A → B) → Option A → Option B
map_opt f none = none
map_opt f (some a) = some (f a)

module _ {D : Decoding} (X : XmlLibrary D) where
  abbrev pub reread_failure : FailureXml → FailureXml
  reread_failure f = record { message = map_opt X.normalized f.message; content = f.content }

  -- What is left of a testcase: that it was skipped is not written.
  abbrev pub reread_testcase : TestcaseXml D.F64 → TestcaseXml D.F64
  reread_testcase tc = record {
    name = X.normalized tc.name;
    classname = map_opt X.normalized tc.classname;
    time = X.rounded tc.time;
    failure = map_opt reread_failure tc.failure;
    error = map_opt reread_failure tc.error;
    skipped = false;
  }

  abbrev pub reread_testsuite : TestsuiteXml D.I32 D.F64 → TestsuiteXml D.I32 D.F64
  reread_testsuite s = record {
    name = X.normalized s.name;
    tests = s.tests;
    failures = s.failures;
    errors = s.errors;
    skipped = s.skipped;
    time = X.rounded s.time;
    timestamp = map_opt X.normalized s.timestamp;
    hostname = map_opt X.normalized s.hostname;
    testcases = map reread_testcase s.testcases;
  }

  -- The state of the reader between two testcases.
  abbrev pub between :
      List (TestsuiteXml D.I32 D.F64) → Option (TestsuiteXml D.I32 D.F64) → Parser D
  between done ts = record {
    testsuites = done;
    current_testsuite = ts;
    current_testcase = none;
    current_failure_content = "";
    in_failure = false;
    in_error = false;
    failure_message = none;
    error_message = none;
  }

  -- The state of the reader inside a testcase.
  abbrev inside :
      List (TestsuiteXml D.I32 D.F64)
      → Option (TestsuiteXml D.I32 D.F64)
      → TestcaseXml D.F64
      → Parser D
  inside done ts tc = record (between done ts) { current_testcase = some tc }

  read_message :
      (message : Option String)
      → get_attr (reread_attrs X.normalized (attr_opt "message" message)) "message"
        ≡ map_opt X.normalized message
  unfolding get_attr get
  read_message none = refl
  read_message (some m) = refl

  read-write_failure :
      (done : List (TestsuiteXml D.I32 D.F64)) (ts : Option (TestsuiteXml D.I32 D.F64))
      (tc : TestcaseXml D.F64) (f : FailureXml)
      → read_events D
          (inside done ts tc)
          (map (reread X.normalized) (write_failure_or_error "failure" f))
        ≡ inside done ts (record tc { failure = some (reread_failure f) })
  unfolding read_events write_failure_or_error
  read-write_failure done ts tc f = rw (read_message f.message, text_nil-append f.content) refl

  read-write_error :
      (done : List (TestsuiteXml D.I32 D.F64)) (ts : Option (TestsuiteXml D.I32 D.F64))
      (tc : TestcaseXml D.F64) (f : FailureXml)
      → read_events D
          (inside done ts tc)
          (map (reread X.normalized) (write_failure_or_error "error" f))
        ≡ inside done ts (record tc { error = some (reread_failure f) })
  unfolding read_events write_failure_or_error
  read-write_error done ts tc f = rw (read_message f.message, text_nil-append f.content) refl

  module _ {E : Encoding D} (L : XmlLaws E X) where
    read-testcase_attrs :
        (name : String) (cn : Option String) (time : D.F64)
        → read_testcase D (
            reread_attrs X.normalized
              (attr "name" name ∷ (attr_opt "classname" cn ++ attr "time" (E.show_f64 time) ∷ [])))
          ≡ record {
            name = X.normalized name;
            classname = map_opt X.normalized cn;
            time = X.rounded time;
            failure = none;
            error = none;
            skipped = false;
          }
    unfolding read_testcase get
    read-testcase_attrs name none time = rw (L.read-show_f64 time) refl
    read-testcase_attrs name (some cn) time = rw (L.read-show_f64 time) refl

    abbrev pub case_of :
        String
        → Option String
        → D.F64
        → Option FailureXml
        → Option FailureXml
        → Bool
        → TestcaseXml D.F64
    case_of name cn time failure error skipped = record {
      name = name;
      classname = cn;
      time = time;
      failure = failure;
      error = error;
      skipped = skipped;
    }

    abbrev pub Reads :
        List (TestsuiteXml D.I32 D.F64) → TestsuiteXml D.I32 D.F64 → TestcaseXml D.F64 → Type 0
    Reads done ts tc =
        read_events D (between done (some ts)) (map (reread X.normalized) (write_testcase E tc))
        ≡ between done (some (record ts { testcases = ts.testcases ++ reread_testcase tc ∷ [] }))

    -- What follows the start of a testcase that has content.
    abbrev read_rest :
        List (TestsuiteXml D.I32 D.F64)
        → TestsuiteXml D.I32 D.F64
        → TestcaseXml D.F64
        → Option FailureXml
        → Option FailureXml
        → Parser D
    read_rest done ts tc failure error = read_events D (inside done (some ts) tc) (
        map (reread X.normalized)
          (write_opt "failure" failure ++ (write_opt "error" error ++ end "testcase" ∷ [])))

    pub read-write_case :
        (done : List (TestsuiteXml D.I32 D.F64)) (ts : TestsuiteXml D.I32 D.F64) (name : String)
        (cn : Option String) (time : D.F64) (failure error : Option FailureXml) (skipped : Bool)
        → Reads done ts (case_of name cn time failure error skipped)
    unfolding read_events write_testcase
    read-write_case done ts name cn time none none sk = rw (read-testcase_attrs name cn time) refl
    read-write_case done ts name cn time (some f) none sk =
        ap (λ tc. read_rest done ts tc (some f) none) (read-testcase_attrs name cn time)
        ∙ rw (read_message f.message, text_nil-append f.content) refl
    read-write_case done ts name cn time none (some e) sk =
        ap (λ tc. read_rest done ts tc none (some e)) (read-testcase_attrs name cn time)
        ∙ rw (read_message e.message, text_nil-append e.content) refl
    read-write_case done ts name cn time (some f) (some e) sk =
        ap (λ tc. read_rest done ts tc (some f) (some e)) (read-testcase_attrs name cn time)
        ∙ rw
            (
              read_message f.message,
              text_nil-append f.content,
              read_message e.message,
              text_nil-append e.content,
            )
            refl
