-- ===== src/Report/Counts.antt =====
-- The counters of MasterJunitReport, src/report/junit.rs.
use offload.Base.{
  ℕ, ◌+◌, ◌≡◌, Bool, ◌||◌, List, [], ◌∷◌, arith, length, keep, comparable_number, comparable_text,
}
use offload.Report.Suites.{TestStatus, passed, failed, flaky, TestId}
use offload.Report.Master.{
  MasterJunitReport, passed_count, failed_count, flaky_count, total_count, summary, is_passed,
  is_failed, is_flaky,
}

module _ (outcomes : List (TestId × TestStatus)) where
  abbrev count_if : (TestStatus → Bool) → ℕ
  count_if p = length (keep (λ o. p o.1) outcomes)

counts_add_up :
    (outcomes : List (TestId × TestStatus))
    → (count_if outcomes (λ s. is_passed s || is_flaky s) + count_if outcomes is_failed
        ≡ length outcomes)
      × (count_if outcomes is_passed + count_if outcomes is_flaky
          ≡ count_if outcomes (λ s. is_passed s || is_flaky s))
counts_add_up [] = omega arith
counts_add_up ((k, passed) ∷ os) = omega (arith, (counts_add_up os).0, (counts_add_up os).1)
counts_add_up ((k, failed) ∷ os) = omega (arith, (counts_add_up os).0, (counts_add_up os).1)
counts_add_up ((k, flaky) ∷ os) = omega (arith, (counts_add_up os).0, (counts_add_up os).1)

-- Each test counts once: the parts of the summary add up to the total, and a test that counts as passed
-- is one that passed or is flaky.
pub summary-eq-total :
    {I32 F64 : Type 0} (r : MasterJunitReport I32 F64)
    → ((summary r).0 + (summary r).1 + (summary r).2 ≡ total_count r)
      × (passed_count r + failed_count r ≡ total_count r)
      × (passed_count r ≡ (summary r).0 + (summary r).2)
unfolding summary passed_count failed_count flaky_count total_count
summary-eq-total r =
    let c = counts_add_up r.test_outcomes in
    (omega (arith, c.0, c.1), omega (arith, c.0, c.1), omega (arith, c.0, c.1))
