-- ===== src/Report/WellFormed.antt =====
-- The XML that src/report/junit.rs writes is well-formed.
use offload.Base.{
  ◌&&◌, String, ◌≡◌, refl, subst, inl, inr, true, ◌||◌, Option, none, some, List, [], ◌∷◌, ◌++◌,
  append_assoc, Bool-cases, is_some, comparable_number, comparable_text, contains,
}
use offload.Report.Suites.{FailureXml, TestcaseXml, TestsuiteXml}
use offload.Report.Master.{MasterJunitReport}
use offload.Report.Reader.{Event, start, text, end, Attributes, Decoding}
use offload.Report.Writer.{
  Encoding, attr, attr_opt, write_opt, write_failure_or_error, write_testcase, write_testcases,
  write_testsuite, write_suites, write_testsuites_xml, write_to_file,
}
use offload.Report.Xml.{
  is_name, are_letters, are_attributes, open_after, IsWellFormed, IsBalanced, append-IsBalanced,
  element-IsBalanced,
}

pub text-IsBalanced :
    (t : String) (es : List Event) → IsBalanced es → IsBalanced (text (some t) ∷ es)
unfolding open_after
text-IsBalanced t es h opened = h opened

pub nothing-IsBalanced : IsBalanced []
unfolding open_after
nothing-IsBalanced opened = refl

proper_message : (message : Option String) → are_attributes (attr_opt "message" message) ≡ true
unfolding contains is_name are_letters
proper_message none = refl
proper_message (some m) = refl

write_opt-IsBalanced :
    (tag : String) (f : Option FailureXml) → is_name tag ≡ true → IsBalanced (write_opt tag f)
unfolding write_failure_or_error
write_opt-IsBalanced tag none named = nothing-IsBalanced
write_opt-IsBalanced tag (some f) named =
    element-IsBalanced tag (attr_opt "message" f.message) (text (some f.content) ∷ []) []
      (rw named (proper_message f.message)) (text-IsBalanced f.content [] nothing-IsBalanced)
      nothing-IsBalanced

failure_named : is_name "failure" ≡ true
unfolding is_name are_letters
failure_named = refl

error_named : is_name "error" ≡ true
unfolding is_name are_letters
error_named = refl

module _ {D : Decoding} (E : Encoding D) where
  abbrev case_attributes : TestcaseXml D.F64 → Attributes
  case_attributes tc =
      attr "name" tc.name
      ∷ (attr_opt "classname" tc.classname ++ attr "time" (E.show_f64 tc.time) ∷ [])

  proper_testcase :
      (name time : String) (cn : Option String)
      → (is_name "testcase"
          && are_attributes (attr "name" name ∷ (attr_opt "classname" cn ++ attr "time" time ∷ [])))
        ≡ true
  unfolding contains is_name are_letters
  proper_testcase name time none = refl
  proper_testcase name time (some c) = refl

  write_testcase-IsBalanced : (tc : TestcaseXml D.F64) → IsBalanced (write_testcase E tc)
  unfolding write_testcase
  write_testcase-IsBalanced tc = elim (Bool-cases (is_some tc.failure || is_some tc.error)) [
    | inl e ↦ rw e (
        subst (λ es. IsBalanced (start "testcase" (case_attributes tc) ∷ es))
          (append_assoc (write_opt "failure" tc.failure) (write_opt "error" tc.error)
            (end "testcase" ∷ []))
          (element-IsBalanced "testcase" (case_attributes tc)
            (write_opt "failure" tc.failure ++ write_opt "error" tc.error) []
            (proper_testcase tc.name (E.show_f64 tc.time) tc.classname)
            (append-IsBalanced (write_opt "failure" tc.failure) (write_opt "error" tc.error)
              (write_opt-IsBalanced "failure" tc.failure failure_named)
              (write_opt-IsBalanced "error" tc.error error_named))
            nothing-IsBalanced))
    | inr e ↦ rw e λ opened.
        unfold open_after in rw (proper_testcase tc.name (E.show_f64 tc.time) tc.classname) refl
  ]

  write_testcases-IsBalanced : (tcs : List (TestcaseXml D.F64)) → IsBalanced (write_testcases E tcs)
  unfolding write_testcases
  write_testcases-IsBalanced [] = nothing-IsBalanced
  write_testcases-IsBalanced (tc ∷ tcs) =
      append-IsBalanced (write_testcase E tc) (write_testcases E tcs) (write_testcase-IsBalanced tc)
        (write_testcases-IsBalanced tcs)

  proper_testsuite :
      (name tests failures errors skipped time : String) (ts hn : Option String)
      → (is_name "testsuite"
          && are_attributes (
              attr "name" name
              ∷ attr "tests" tests
              ∷ attr "failures" failures
              ∷ attr "errors" errors
              ∷ attr "skipped" skipped
              ∷ attr "time" time
              ∷ (attr_opt "timestamp" ts ++ attr_opt "hostname" hn)))
        ≡ true
  unfolding contains is_name are_letters
  proper_testsuite n t f e s time none none = refl
  proper_testsuite n t f e s time none (some h) = refl
  proper_testsuite n t f e s time (some a) none = refl
  proper_testsuite n t f e s time (some a) (some h) = refl

  write_testsuite-IsBalanced : (s : TestsuiteXml D.I32 D.F64) → IsBalanced (write_testsuite E s)
  unfolding write_testsuite
  write_testsuite-IsBalanced s = text-IsBalanced "  " _ (
      element-IsBalanced "testsuite" _ (write_testcases E s.testcases) (text (some "\n") ∷ [])
        (proper_testsuite s.name (E.show_i32 s.tests) (E.show_i32 s.failures) (E.show_i32 s.errors)
          (E.show_i32 s.skipped) (E.show_f64 s.time) s.timestamp s.hostname)
        (write_testcases-IsBalanced s.testcases) (text-IsBalanced "\n" [] nothing-IsBalanced))

  write_suites-IsBalanced : (ss : List (TestsuiteXml D.I32 D.F64)) → IsBalanced (write_suites E ss)
  unfolding write_suites
  write_suites-IsBalanced [] = nothing-IsBalanced
  write_suites-IsBalanced (s ∷ ss) =
      append-IsBalanced (write_testsuite E s) (write_suites E ss) (write_testsuite-IsBalanced s)
        (write_suites-IsBalanced ss)

  write_testsuites_xml-IsWellFormed :
      (ss : List (TestsuiteXml D.I32 D.F64)) (tests failures errors : D.I32) (time : D.F64)
      → IsWellFormed (write_testsuites_xml E ss tests failures errors time)
  unfolding write_testsuites_xml open_after contains is_name are_letters
  write_testsuites_xml-IsWellFormed ss tests failures errors time =
      element-IsBalanced "testsuites"
        (attr "name" "offload"
          ∷ attr "tests" (E.show_i32 tests)
          ∷ attr "failures" (E.show_i32 failures)
          ∷ attr "errors" (E.show_i32 errors)
          ∷ attr "time" (E.show_f64 time)
          ∷ [])
        (text (some "\n") ∷ write_suites E ss) (text (some "\n") ∷ []) refl
        (text-IsBalanced "\n" (write_suites E ss) (write_suites-IsBalanced ss))
        (text-IsBalanced "\n" [] nothing-IsBalanced) []

  -- Every written report closes its elements in order and repeats no attribute.
  pub write_to_file-IsWellFormed :
      (r : MasterJunitReport D.I32 D.F64) → IsWellFormed (write_to_file E r)
  unfolding write_to_file
  write_to_file-IsWellFormed r = write_testsuites_xml-IsWellFormed r.testsuites _ _ _ _
