-- ===== src/Instances.antt =====
-- The list of test instances that `Orchestrator::run_with_tests` of src/orchestrator.rs schedules.
use offload.Base.{
  ℕ, zero, suc, ◌+◌, ◌-◌, ◌*◌, ◌≤◌, min, max, ◌≡◌, refl, sym, ◌∙◌, inl, inr, Bool, not, List, [],
  ◌∷◌, ◌++◌, map, arith, ltb, if◌then◌else◌, ltb→lt, Bool-cases, replicate, keep, sum_of,
  sum_of-append, comparable_number, comparable_text, flat_map,
}
use offload.Framework.{TestInstance, TestRecord, test}

unfoldable pub normal_instances : List TestRecord → List TestInstance
unfolding test
normal_instances normal_tests = flat_map (λ t. replicate (t.retry_count + 1) (test t)) normal_tests

unfoldable pub max_count : List TestRecord → ℕ
max_count [] = 0
max_count (t ∷ individual_tests) = max (t.retry_count + 1) (max_count individual_tests)

-- One round: each test that has an instance left.
unfoldable pub round_instances : ℕ → List TestRecord → List TestInstance
unfolding test
round_instances round individual_tests =
    map test (keep (λ t. ltb round (t.retry_count + 1)) individual_tests)

-- `n` rounds from `round` on.
unfoldable pub rounds : ℕ → ℕ → List TestRecord → List TestInstance
unfolding round_instances
rounds round zero individual_tests = []
rounds round (suc n) individual_tests =
    round_instances round individual_tests ++ rounds (round + 1) n individual_tests

unfoldable pub individual_instances : List TestRecord → List TestInstance
unfolding rounds max_count
individual_instances individual_tests = rounds 0 (max_count individual_tests) individual_tests

-- The individually scheduled ones first.
unfoldable pub tests_to_run : List TestRecord → List TestInstance
unfolding individual_instances normal_instances
tests_to_run tests =
    individual_instances (keep (λ t. t.schedule_individual) tests)
    ++ normal_instances (keep (λ t. not t.schedule_individual) tests)

module _ (f : TestInstance → ℕ) where
  abbrev pub weight : TestRecord → ℕ
  weight t = (t.retry_count + 1) * f (test t)

  sum_of-replicate : (n : ℕ) (t : TestInstance) → sum_of f (replicate n t) ≡ n * f t
  sum_of-replicate zero t = omega arith
  sum_of-replicate (suc n) t = omega (arith, sum_of-replicate n t)

  sum_of-normal_instances :
      (ts : List TestRecord) → sum_of f (normal_instances ts) ≡ sum_of weight ts
  unfolding normal_instances
  sum_of-normal_instances [] = refl
  sum_of-normal_instances (t ∷ ts) =
      sum_of-append f (replicate (t.retry_count + 1) (test t)) (normal_instances ts)
      ∙ rw (sum_of-replicate (t.retry_count + 1) (test t), sum_of-normal_instances ts) refl

  -- What is left of a test from `round` on, in `n` rounds.
  abbrev left : ℕ → ℕ → TestRecord → ℕ
  left round n t = min n (t.retry_count + 1 - round) * f (test t)

  abbrev once : ℕ → TestRecord → ℕ
  once round t = if ltb round (t.retry_count + 1) then f (test t) else 0

  one_round :
      (n m round x : ℕ)
      → (if ltb round m then x else 0) + min n (m - (round + 1)) * x ≡ min (suc n) (m - round) * x
  one_round n m round x = elim (Bool-cases (ltb round m)) [
    | inl h ↦
        let past = ltb→lt round m h in
        let fewer : min (suc n) (m - round) ≡ suc (min n (m - (round + 1))) = omega (arith, past) in
        rw (h, fewer) (omega arith)
    | inr h ↦
        let past : m ≤ round = ground (arith, h) in
        let none_now : min (suc n) (m - round) ≡ 0 = omega (arith, past) in
        let none_later : min n (m - (round + 1)) ≡ 0 = omega (arith, past) in
        rw (h, none_now, none_later) (omega arith)
  ]

  sum_of-round_instances :
      (round : ℕ) (ts : List TestRecord)
      → sum_of f (round_instances round ts) ≡ sum_of (once round) ts
  unfolding round_instances
  sum_of-round_instances round [] = refl
  sum_of-round_instances round (t ∷ ts) = ground (arith, sum_of-round_instances round ts)

  sum_of-once-left :
      (round n : ℕ) (ts : List TestRecord)
      → sum_of (once round) ts + sum_of (left (round + 1) n) ts ≡ sum_of (left round (suc n)) ts
  sum_of-once-left round n [] = omega arith
  sum_of-once-left round n (t ∷ ts) =
      omega (arith, one_round n (t.retry_count + 1) round (f (test t)), sum_of-once-left round n ts)

  sum_of-left_zero : (round : ℕ) (ts : List TestRecord) → sum_of (left round 0) ts ≡ 0
  sum_of-left_zero round [] = refl
  sum_of-left_zero round (t ∷ ts) =
      let nothing : min 0 (t.retry_count + 1 - round) ≡ 0 = omega arith in
      rw nothing (omega (arith, sum_of-left_zero round ts))

  sum_of-rounds :
      (round n : ℕ) (ts : List TestRecord) → sum_of f (rounds round n ts) ≡ sum_of (left round n) ts
  unfolding rounds
  sum_of-rounds round zero ts = sym (sum_of-left_zero round ts)
  sum_of-rounds round (suc n) ts =
      sum_of-append f (round_instances round ts) (rounds (round + 1) n ts)
      ∙ rw (sum_of-round_instances round ts, sum_of-rounds (round + 1) n ts)
          (sum_of-once-left round n ts)

  sum_of-left_all :
      (n : ℕ) (ts : List TestRecord) → max_count ts ≤ n → sum_of (left 0 n) ts ≡ sum_of weight ts
  unfolding max_count
  sum_of-left_all n [] h = refl
  sum_of-left_all n (t ∷ ts) h =
      let enough : min n (t.retry_count + 1 - 0) ≡ t.retry_count + 1 = omega (arith, h) in
      rw enough (omega (arith, sum_of-left_all n ts (omega (arith, h))))

  sum_of-keep-not :
      (g : TestRecord → ℕ) (p : TestRecord → Bool) (ts : List TestRecord)
      → sum_of g (keep p ts) + sum_of g (keep (λ t. not (p t)) ts) ≡ sum_of g ts
  sum_of-keep-not g p [] = refl
  sum_of-keep-not g p (t ∷ ts) = ground (arith, sum_of-keep-not g p ts)

  -- However instances are measured, those to run measure as much as one instance more than its retry
  -- count of each test: each test has that many instances and there are no others.
  pub sum_of-tests_to_run :
      (tests : List TestRecord) → sum_of f (tests_to_run tests) ≡ sum_of weight tests
  unfolding tests_to_run individual_instances
  sum_of-tests_to_run tests =
      let individual = keep (λ t. t.schedule_individual) tests in
      let normal = keep (λ t. not t.schedule_individual) tests in
      sum_of-append f (individual_instances individual) (normal_instances normal)
      ∙ omega (
        arith,
        sum_of-rounds 0 (max_count individual) individual,
        sum_of-left_all (max_count individual) individual (omega arith),
        sum_of-normal_instances normal,
        sum_of-keep-not weight (λ t. t.schedule_individual) tests,
      )
