-- ===== src/Report/Restored.antt =====
-- The whole report of src/report/junit.rs, written and read again.
use offload.Base.{
  String, ◌≡◌, refl, ap, ◌∙◌, Option, none, some, List, [], ◌∷◌, ◌++◌, map, append-nil,
  append_assoc, map-append, comparable_number, comparable_text, get,
}
use offload.Report.Suites.{TestcaseXml, TestsuiteXml}
use offload.Report.Master.{MasterJunitReport}
use offload.Report.Reader.{
  Event, text, end, Decoding, Parser, init, step, read_events, read_testsuite,
  parse_all_testsuites_xml,
}
use offload.Report.Writer.{
  Encoding, attr, attr_opt, write_testcase, write_testcases, write_testsuite, write_suites,
  write_testsuites_xml, write_to_file,
}
use offload.Report.Rereading.{SameText, read_events-SameText}
use offload.Report.Xml.{XmlLibrary, reread, reread_attrs}
use offload.Report.WellFormed.{write_to_file-IsWellFormed}
use offload.Report.RoundTrip.{
  XmlLaws, map_opt, reread_testcase, reread_testsuite, between, read-write_case,
}

module _ (D : Decoding) where
  pub read_events-append :
      (p : Parser D) (es fs : List Event)
      → read_events D p (es ++ fs) ≡ read_events D (read_events D p es) fs
  unfolding read_events
  read_events-append p [] fs = refl
  read_events-append p (e ∷ es) fs = read_events-append (step D p e) es fs

  pub parse-SameText :
      {es fs : List Event}
      → SameText D es fs
      → parse_all_testsuites_xml D es ≡ parse_all_testsuites_xml D fs
  unfolding parse_all_testsuites_xml
  parse-SameText h = ap (λ p. p.testsuites) (read_events-SameText D (init D) h)

module _ {D : Decoding} (X : XmlLibrary D) where
  abbrev pub seen : List Event → List Event
  seen = map (reread X.normalized)

  pub read_events-seen :
      (p : Parser D) (es fs : List Event)
      → read_events D p (seen (es ++ fs)) ≡ read_events D (read_events D p (seen es)) (seen fs)
  read_events-seen p es fs =
      ap (read_events D p) (map-append (reread X.normalized) es fs)
      ∙ read_events-append D p (seen es) (seen fs)

module _ {D : Decoding} {E : Encoding D} (X : XmlLibrary D) (L : XmlLaws E X) where
  abbrev suite_with : TestsuiteXml D.I32 D.F64 → List (TestcaseXml D.F64) → TestsuiteXml D.I32 D.F64
  suite_with ts tcs = record ts { testcases = ts.testcases ++ tcs }

  read-write_testcases :
      (done : List (TestsuiteXml D.I32 D.F64)) (ts : TestsuiteXml D.I32 D.F64)
      (tcs : List (TestcaseXml D.F64))
      → read_events D (between X done (some ts)) (seen X (write_testcases E tcs))
        ≡ between X done (some (suite_with ts (map (reread_testcase X) tcs)))
  unfolding write_testcases
  read-write_testcases done ts [] = rw (append-nil ts.testcases) (unfold read_events in refl)
  read-write_testcases done ts (tc ∷ tcs) =
      read_events-seen X (between X done (some ts)) (write_testcase E tc) (write_testcases E tcs)
      ∙ ap (λ p. read_events D p (seen X (write_testcases E tcs)))
          (read-write_case X L done ts tc.name tc.classname tc.time tc.failure tc.error tc.skipped)
      ∙ read-write_testcases done (suite_with ts (reread_testcase X tc ∷ [])) tcs
      ∙ ap (λ l. between X done (some (record ts { testcases = l })))
          (append_assoc ts.testcases (reread_testcase X tc ∷ []) (map (reread_testcase X) tcs))

  read-testsuite_attrs :
      (name : String) (tests failures errors skipped : D.I32) (time : D.F64) (ts hn : Option String)
      → read_testsuite D (
          reread_attrs X.normalized (
            attr "name" name
            ∷ attr "tests" (E.show_i32 tests)
            ∷ attr "failures" (E.show_i32 failures)
            ∷ attr "errors" (E.show_i32 errors)
            ∷ attr "skipped" (E.show_i32 skipped)
            ∷ attr "time" (E.show_f64 time)
            ∷ (attr_opt "timestamp" ts ++ attr_opt "hostname" hn)))
        ≡ record {
          name = X.normalized name;
          tests = tests;
          failures = failures;
          errors = errors;
          skipped = skipped;
          time = X.rounded time;
          timestamp = map_opt X.normalized ts;
          hostname = map_opt X.normalized hn;
          testcases = [];
        }
  unfolding read_testsuite get
  read-testsuite_attrs n t f e s time none none = simp (L.read-show_i32, L.read-show_f64)
  read-testsuite_attrs n t f e s time none (some h) = simp (L.read-show_i32, L.read-show_f64)
  read-testsuite_attrs n t f e s time (some a) none = simp (L.read-show_i32, L.read-show_f64)
  read-testsuite_attrs n t f e s time (some a) (some h) = simp (L.read-show_i32, L.read-show_f64)

  read-write_testsuite :
      (done : List (TestsuiteXml D.I32 D.F64)) (s : TestsuiteXml D.I32 D.F64)
      → read_events D (between X done none) (seen X (write_testsuite E s))
        ≡ between X (done ++ reread_testsuite X s ∷ []) none
  unfolding write_testsuite
  read-write_testsuite done s =
      unfold read_events in
      read_events-seen X (between X done (some (read_testsuite D _)))
        (write_testcases E s.testcases) (end "testsuite" ∷ text (some "\n") ∷ [])
      ∙ ap
          (λ ts.
            read_events D
              (read_events D (between X done (some ts)) (seen X (write_testcases E s.testcases)))
              (end "testsuite" ∷ text (some "\n") ∷ []))
          (read-testsuite_attrs s.name s.tests s.failures s.errors s.skipped s.time s.timestamp
            s.hostname)
      ∙ ap (λ p. read_events D p (end "testsuite" ∷ text (some "\n") ∷ []))
          (read-write_testcases done (record (reread_testsuite X s) { testcases = [] }) s.testcases)

  read-write_suites :
      (done ss : List (TestsuiteXml D.I32 D.F64))
      → read_events D (between X done none) (seen X (write_suites E ss))
        ≡ between X (done ++ map (reread_testsuite X) ss) none
  unfolding write_suites
  read-write_suites done [] = rw (append-nil done) (unfold read_events in refl)
  read-write_suites done (s ∷ ss) =
      read_events-seen X (between X done none) (write_testsuite E s) (write_suites E ss)
      ∙ ap (λ p. read_events D p (seen X (write_suites E ss))) (read-write_testsuite done s)
      ∙ read-write_suites (done ++ reread_testsuite X s ∷ []) ss
      ∙ ap (λ l. between X l none)
          (append_assoc done (reread_testsuite X s ∷ []) (map (reread_testsuite X) ss))

  read-write_testsuites_xml :
      (ss : List (TestsuiteXml D.I32 D.F64)) (t f e : D.I32) (time : D.F64)
      → parse_all_testsuites_xml D (seen X (write_testsuites_xml E ss t f e time))
        ≡ map (reread_testsuite X) ss
  unfolding parse_all_testsuites_xml write_testsuites_xml
  read-write_testsuites_xml ss t f e time =
      ap (λ p. p.testsuites)
        (read_events-seen X (between X [] none) (write_suites E ss)
            (end "testsuites" ∷ text (some "\n") ∷ [])
          ∙ ap (λ p. read_events D p (end "testsuites" ∷ text (some "\n") ∷ []))
              (read-write_suites [] ss))

  -- If the XML library reads well-formed documents as they were rendered, up to the division of texts and the
  -- normalisation of attributes, and the numbers can be read back, then reading the written report gives back
  -- its suites with their testcases, failures and errors in order. Attribute texts come back normalised and
  -- times rounded, and no testcase is skipped any more.
  pub parse-write_to_file :
      (r : MasterJunitReport D.I32 D.F64)
      → parse_all_testsuites_xml D (X.read (X.render (write_to_file E r)))
        ≡ map (reread_testsuite X) r.testsuites
  parse-write_to_file r =
      parse-SameText D (L.faithful.read-render (write_to_file E r) (write_to_file-IsWellFormed E r))
      ∙ (unfold write_to_file in read-write_testsuites_xml r.testsuites _ _ _ _)
