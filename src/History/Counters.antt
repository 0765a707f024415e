-- ===== src/History/Counters.antt =====
-- What `record_results` of src/history/store.rs makes of any list of results.
use offload.Base.{
  ℕ, suc, ◌+◌, ◌%◌, ◌≤◌, ◌≡◌, refl, subst, Bool, true, false, not, ◌&&◌, Option, some, List, [],
  ◌∷◌, arith, if◌then◌else◌, length, keep, All, ◌==◌, comparable_number, comparable_text, get,
}
use offload.History.Data.{Key, comparable_key, TestAttemptResult, add_u64, u64_max}
use offload.History.Reservoir.{Lottery}
use offload.History.Store.{JsonlHistoryStore, key_of, record_results}
use offload.History.Recording.{attempts_of, failures_of, IsWithin, record_result-Recorded}

module _ (Q : Lottery) where
  abbrev pub results_of : Key → List (TestAttemptResult Q.F64) → List (TestAttemptResult Q.F64)
  results_of k rs = keep (λ r. k == key_of Q r) rs

  abbrev pub failures_among : Key → List (TestAttemptResult Q.F64) → List (TestAttemptResult Q.F64)
  failures_among k rs = keep (λ r. k == key_of Q r && not r.passed) rs

  -- A store that results made: both counters of the test `k` have gone up by the results of that test,
  -- modulo 2^64, and no reservoir of any test is beyond the capacity.
  pub record Tallied (k : Key) (s : JsonlHistoryStore Q) (rs : List (TestAttemptResult Q.F64))
      (o : Option (JsonlHistoryStore Q)) : Type 0 where
    pub result : JsonlHistoryStore Q
    pub returned : o ≡ some result
    pub attempts :
        attempts_of Q (get k result.records)
        ≡ (attempts_of Q (get k s.records) + length (results_of k rs)) % (u64_max + 1)
    pub failures :
        failures_of Q (get k result.records)
        ≡ (failures_of Q (get k s.records) + length (failures_among k rs)) % (u64_max + 1)
    pub within : All (λ p. IsWithin Q s.reservoir_size p.1) result.records

  add_u64-tally :
      (b : Bool) (before after n total : ℕ)
      → after ≡ (if b then add_u64 before 1 else before)
      → total ≡ (after + n) % (u64_max + 1)
      → total ≡ (before + (if b then suc n else n)) % (u64_max + 1)
  unfolding add_u64
  add_u64-tally true before after n total h k = omega (arith, h, k)
  add_u64-tally false before after n total h k = omega (arith, h, k)

  add_u64-le :
      (b : Bool) (before : ℕ)
      → before ≤ u64_max
      → (if b then add_u64 before 1 else before) ≤ u64_max
  unfolding add_u64
  add_u64-le true before h = omega arith
  add_u64-le false before h = h

  length-keep_cons :
      {A : Type 0} (p : A → Bool) (x : A) (xs : List A)
      → length (keep p (x ∷ xs)) ≡ (if p x then suc (length (keep p xs)) else length (keep p xs))
  length-keep_cons p x xs = ground arith

  -- With a capacity that is not 0, recording results of any kind succeeds without a panic. From counters
  -- that are u64 values and reservoirs within the capacity, the attempts of a test go up by the number
  -- of its results and its failures by the number of those that did not pass, modulo 2^64, and every
  -- reservoir stays within the capacity.
  pub record_results-Tallied :
      (k : Key) (s : JsonlHistoryStore Q) (rs : List (TestAttemptResult Q.F64))
      → 1 ≤ s.reservoir_size
      → attempts_of Q (get k s.records) ≤ u64_max
      → failures_of Q (get k s.records) ≤ u64_max
      → All (λ p. IsWithin Q s.reservoir_size p.1) s.records
      → Tallied k s rs (record_results Q s rs)
  unfolding record_results
  record_results-Tallied k s [] h a f w = record {
    result = s;
    returned = refl;
    attempts = omega (arith, a);
    failures = omega (arith, f);
    within = w;
  }
  record_results-Tallied k s (r ∷ rs) h a f w =
      let g = record_result-Recorded Q s r h in
      let mine = k == key_of Q r in
      let t =
        record_results-Tallied k g.recorded rs (omega (arith, h, g.same_size))
          (rw (g.attempts k) (add_u64-le mine (attempts_of Q (get k s.records)) a))
          (rw (g.failures k)
            (add_u64-le (mine && not r.passed) (failures_of Q (get k s.records)) f))
          (rw g.same_size (g.within w)) in
      rw (g.returned, record_results)
        (record {
          result = t.result;
          returned = t.returned;
          attempts = rw (length-keep_cons (λ x. k == key_of Q x) r rs) (
              add_u64-tally mine (attempts_of Q (get k s.records)) _ _ _ (g.attempts k) t.attempts);
          failures = rw (length-keep_cons (λ x. k == key_of Q x && not x.passed) r rs) (
              add_u64-tally (mine && not r.passed) (failures_of Q (get k s.records)) _ _ _
                (g.failures k) t.failures);
          within = subst (λ c. All (λ p. IsWithin Q c p.1) t.result.records) g.same_size t.within;
        })
