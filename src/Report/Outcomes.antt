-- ===== src/Report/Outcomes.antt =====
-- What MasterJunitReport of src/report/junit.rs says of a test after all reports are added.
use offload.Base.{
  ℕ, String, ◌≡◌, refl, sym, ap, ◌∙◌, inl, inr, Bool, true, false, not, ◌&&◌, ◌||◌, Option, none,
  some, List, [], ◌∷◌, ◌++◌, append-nil, append_assoc, arith, if◌then◌else◌, Bool-cases,
  Option-cases, unwrap_or, ◌==◌, comparable_number, comparable_text, eq→path, get, get-insert,
  get-insert_self, IsTable, insert-IsTable, get-not_key,
}
use offload.Report.Suites.{
  TestStatus, passed, failed, flaky, TestId, TestcaseXml, TestsuiteXml, comparable_id,
}
use offload.Report.Master.{
  MasterJunitReport, new, next_status, update_test_outcome, id_of, has_failed, note_outcome,
  suite_outcomes, update_outcomes, add_suite, add_junit_xml, has_test_passed, is_passed, is_flaky,
}

abbrev merged : Option Bool → Option Bool → Option Bool
merged none v = v
merged (some b) v = some (b || unwrap_or v false)

module _ {F64 : Type 0} where
  -- How a test fared in the testcases of one suite: it failed if any testcase of that id failed.
  abbrev pub verdict : TestId → List (TestcaseXml F64) → Option Bool
  verdict k [] = none
  verdict k (tc ∷ tcs) =
      if k == id_of tc
      then some (has_failed tc || unwrap_or (verdict k tcs) false)
      else verdict k tcs

  get-note_outcome :
      (k : TestId) (m : List (TestId × Bool)) (tc : TestcaseXml F64)
      → get k (note_outcome m tc)
        ≡ (if k == id_of tc then some (has_failed tc || unwrap_or (get k m) false) else get k m)
  unfolding note_outcome
  get-note_outcome k m tc = elim (Bool-cases (k == id_of tc)) [
    | inl t ↦ rw (get-insert (id_of tc) k _ m, t) (rw (eq→path k (id_of tc) t) (ground arith))
    | inr t ↦ rw (get-insert (id_of tc) k _ m, t)
  ]

  get-suite_outcomes :
      (k : TestId) (m : List (TestId × Bool)) (tcs : List (TestcaseXml F64))
      → get k (suite_outcomes m tcs) ≡ merged (get k m) (verdict k tcs)
  unfolding suite_outcomes
  get-suite_outcomes k m [] = ground arith
  get-suite_outcomes k m (tc ∷ tcs) =
      get-suite_outcomes k (note_outcome m tc) tcs ∙ rw (get-note_outcome k m tc) (ground arith)

  suite_outcomes-IsTable :
      (m : List (TestId × Bool)) (tcs : List (TestcaseXml F64))
      → IsTable m
      → IsTable (suite_outcomes m tcs)
  unfolding suite_outcomes note_outcome
  suite_outcomes-IsTable m [] h = h
  suite_outcomes-IsTable m (tc ∷ tcs) h =
      suite_outcomes-IsTable (note_outcome m tc) tcs (insert-IsTable (id_of tc) _ m h)

abbrev updated : Option TestStatus → Option Bool → Option TestStatus
updated current none = current
updated current (some is_failed) = some (next_status current is_failed)

get-update_outcomes :
    (k : TestId) (t : List (TestId × TestStatus)) (m : List (TestId × Bool))
    → IsTable m
    → get k (update_outcomes t m) ≡ updated (get k t) (get k m)
unfolding update_outcomes get
get-update_outcomes k t [] h = refl
get-update_outcomes k t ((j, b) ∷ m) h = elim (Bool-cases (k == j)) [
  | inl e ↦
      get-update_outcomes k (update_test_outcome t j b) m h.1
      ∙ rw (get-not_key k m (rw (eq→path k j e) h.0), e, ← eq→path k j e)
          (unfold update_test_outcome in get-insert_self k (next_status (get k t) b) t)
  | inr e ↦
      get-update_outcomes k (update_test_outcome t j b) m h.1
      ∙ rw e (unfold update_test_outcome in rw (get-insert j k (next_status (get j t) b) t, e))
]

abbrev pub prepend : Option Bool → List Bool → List Bool
prepend none bs = bs
prepend (some b) bs = b ∷ bs

-- The verdicts of a test in the suites, the oldest first.
module _ {I32 F64 : Type 0} where
  abbrev pub verdicts : TestId → List (TestsuiteXml I32 F64) → List Bool
  verdicts k [] = []
  verdicts k (s ∷ ss) = prepend (verdict k s.testcases) (verdicts k ss)

-- The specification: passed if it never failed, failed if it always failed, else flaky.
abbrev pub any_of : List Bool → Bool
any_of [] = false
any_of (b ∷ bs) = b || any_of bs

abbrev pub all_of : List Bool → Bool
all_of [] = true
all_of (b ∷ bs) = b && all_of bs

abbrev pub classify : List Bool → Option TestStatus
classify [] = none
classify (b ∷ bs) =
    some (if all_of (b ∷ bs) then failed else if any_of (b ∷ bs) then flaky else passed)

any_of-append : (bs : List Bool) (b : Bool) → any_of (bs ++ b ∷ []) ≡ (any_of bs || b)
any_of-append [] b = ground arith
any_of-append (c ∷ bs) b = ground (arith, any_of-append bs b)

all_of-append : (bs : List Bool) (b : Bool) → all_of (bs ++ b ∷ []) ≡ (all_of bs && b)
all_of-append [] b = ground arith
all_of-append (c ∷ bs) b = ground (arith, all_of-append bs b)

classify-append :
    (bs : List Bool) (b : Bool) → classify (bs ++ b ∷ []) ≡ some (next_status (classify bs) b)
unfolding next_status
classify-append [] b = ground arith
classify-append (c ∷ bs) b = ground (arith, any_of-append bs b, all_of-append bs b)

-- The reports that the workers add, one after the other.
module _ {I32 F64 : Type 0} where
  abbrev pub add_reports :
      MasterJunitReport I32 F64 → List (List (TestsuiteXml I32 F64)) → MasterJunitReport I32 F64
  add_reports r [] = r
  add_reports r (ss ∷ rest) = add_reports (add_junit_xml r ss) rest

module _ {I32 F64 : Type 0} (k : TestId) where
  abbrev status : MasterJunitReport I32 F64 → Option TestStatus
  status r = get k r.test_outcomes

  status-add_suite :
      (r : MasterJunitReport I32 F64) (s : TestsuiteXml I32 F64)
      → status (add_suite r s) ≡ updated (status r) (verdict k s.testcases)
  unfolding add_suite
  status-add_suite r s =
      get-update_outcomes k r.test_outcomes (suite_outcomes [] s.testcases)
        (suite_outcomes-IsTable [] s.testcases tt)
      ∙ ap (updated (status r)) (get-suite_outcomes k [] s.testcases ∙ unfold get in refl)

  status-add_junit_xml :
      (r : MasterJunitReport I32 F64) (bs : List Bool) (ss : List (TestsuiteXml I32 F64))
      → status r ≡ classify bs
      → status (add_junit_xml r ss) ≡ classify (bs ++ verdicts k ss)
  unfolding add_junit_xml
  status-add_junit_xml r bs [] h = rw (append-nil bs) h
  status-add_junit_xml r bs (s ∷ ss) h = elim (Option-cases (verdict k s.testcases)) [
    | inl e ↦ rw e (status-add_junit_xml (add_suite r s) bs ss (status-add_suite r s ∙ rw e h))
    | inr (b, e) ↦
        rw (e, ← append_assoc bs (b ∷ []) (verdicts k ss))
          (status-add_junit_xml (add_suite r s) (bs ++ b ∷ []) ss
            (status-add_suite r s ∙ rw (e, h) (sym (classify-append bs b))))
  ]

  abbrev pub all_verdicts : List (List (TestsuiteXml I32 F64)) → List Bool
  all_verdicts [] = []
  all_verdicts (ss ∷ rest) = verdicts k ss ++ all_verdicts rest

  status-add_reports :
      (r : MasterJunitReport I32 F64) (bs : List Bool)
      (reports : List (List (TestsuiteXml I32 F64)))
      → status r ≡ classify bs
      → status (add_reports r reports) ≡ classify (bs ++ all_verdicts reports)
  status-add_reports r bs [] h = rw (append-nil bs) h
  status-add_reports r bs (ss ∷ rest) h =
      rw (← append_assoc bs (verdicts k ss) (all_verdicts rest)) (
        status-add_reports (add_junit_xml r ss) (bs ++ verdicts k ss) rest
          (status-add_junit_xml r bs ss h))

-- After any reports, in any order, the status of a test id is that of its verdicts in the suites, one
-- for each suite that has a testcase of it: passed if all passed, failed if all failed, else flaky.
pub get-add_reports :
    {I32 F64 : Type 0} (total : ℕ) (k : TestId) (reports : List (List (TestsuiteXml I32 F64)))
    → get k (add_reports (new I32 F64 total) reports).test_outcomes
      ≡ classify (all_verdicts k reports)
get-add_reports total k reports =
    status-add_reports k (new _ _ total) [] reports (unfold new get in refl)

has_passed : Option TestStatus → Bool
has_passed none = false
has_passed (some status) = is_passed status || is_flaky status

has_passed-classify : (bs : List Bool) → has_passed (classify bs) ≡ not (all_of bs)
unfolding has_passed
has_passed-classify [] = refl
has_passed-classify (b ∷ bs) = ground arith

has_test_passed-get :
    {I32 F64 : Type 0} (r : MasterJunitReport I32 F64) (name : String)
    → has_test_passed r name
      ≡ has_passed (get (record { classname = none; name = name }) r.test_outcomes)
unfolding has_test_passed has_passed
has_test_passed-get r name = ground arith

-- The completion tracker is told that a test passed exactly when it has a verdict that is no failure.
pub has_test_passed-add_reports :
    {I32 F64 : Type 0} (total : ℕ) (name : String) (reports : List (List (TestsuiteXml I32 F64)))
    → has_test_passed (add_reports (new I32 F64 total) reports) name
      ≡ not (all_of (all_verdicts (record { classname = none; name = name }) reports))
unfolding has_test_passed
has_test_passed-add_reports total name reports =
    let k : TestId = record { classname = none; name = name } in
    has_test_passed-get (add_reports (new _ _ total) reports) name
    ∙ ap has_passed (get-add_reports total k reports)
    ∙ has_passed-classify (all_verdicts k reports)
