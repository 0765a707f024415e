-- ===== src/History/Rankings.antt =====
-- The queries of src/history/store.rs: statistics, rankings, and the durations for scheduling. `none` is a
-- panic; the order of a HashMap is that of insertion.
use Prim.Native.String.{compare}
use Prim.Native.Nat.{Ordering}
use offload.Base.{
  ℕ, max, String, Bool, not, Option, none, some, List, [], ◌∷◌, ◌++◌, map, ltb, if◌then◌else◌,
  length, take, keep, ◌==◌, comparable_number, comparable_text, get, sort_by, any,
}
use offload.History.Data.{Key, comparable_key, TestValues, HistoryRecord}
use offload.History.Reservoir.{Lottery}
use offload.History.Store.{JsonlHistoryStore}
use offload.History.Stats.{Statistics, DurationStats, compute_percentiles}

-- Arithmetic on f64. `from_secs_f64` is `none` where it panics.
pub record Arithmetic (Q : Lottery) : Type 0 where
  pub statistics : Statistics Q
  -- `total_failures as f64 / total_attempts as f64`
  pub ratio : ℕ → ℕ → Q.F64
  -- `(1.0 - rate) * ok + rate * fail`
  pub weighted_mean : Q.F64 → Q.F64 → Q.F64 → Q.F64
  -- The sum of an iterator over f64, divided by a count.
  pub mean : List Q.F64 → ℕ → Q.F64
  pub from_secs_f64 : Q.F64 → Option ℕ

pub record OutcomeStats (F64 : Type 0) : Type 0 where
  pub success : Option (DurationStats F64)
  pub failure : Option (DurationStats F64)

pub record TestStatistics (F64 : Type 0) : Type 0 where
  pub test_id : String
  pub config : String
  pub total_attempts : ℕ
  pub total_failures : ℕ
  pub failure_rate : F64
  pub duration : OutcomeStats F64
  pub last_attempt_ms : ℕ
  pub last_run_id : String

abbrev pub chain : {A B : Type 0} → Option A → (A → Option B) → Option B
chain none f = none
chain (some a) f = f a

abbrev pub newest : List ℕ → ℕ
newest [] = 0
newest (n ∷ ns) = max n (newest ns)

module _ {Q : Lottery} (R : Arithmetic Q) where
  unfoldable pub stats_of : Key → TestValues Q.F64 → Option (TestStatistics Q.F64)
  unfolding compute_percentiles
  stats_of key values = chain (compute_percentiles R.statistics values.ok) λ success.
      chain (compute_percentiles R.statistics values.fail) λ failure. some (record {
        test_id = key.test_id;
        config = key.config;
        total_attempts = values.total_attempts;
        total_failures = values.total_failures;
        failure_rate =
            if ltb 0 values.total_attempts
            then R.ratio values.total_failures values.total_attempts
            else Q.zero_f64;
        duration = record { success = success; failure = failure };
        last_attempt_ms = newest (map (λ s. s.timestamp_ms) (values.ok ++ values.fail));
        last_run_id = values.last_run;
      })

  -- A test without a record has no statistics, `some none`.
  unfoldable pub get_stats : JsonlHistoryStore Q → Key → Option (Option (TestStatistics Q.F64))
  unfolding stats_of
  get_stats store key = elim (get key store.records) [
    | none ↦ some none
    | some r ↦ chain (stats_of key r.values) λ stats. some (some stats)
  ]

  abbrev pub config_keys : String → JsonlHistoryStore Q → List Key
  config_keys config store = keep (λ k. k.config == config) (map (λ p. p.0) store.records)

  -- `filter_map` of `get_stats` over the keys of a configuration.
  unfoldable pub all_stats : JsonlHistoryStore Q → List Key → Option (List (TestStatistics Q.F64))
  unfolding get_stats
  all_stats store [] = some []
  all_stats store (key ∷ ks) =
      let rest = all_stats store ks in
      chain (get_stats store key) λ found.
        chain rest λ others. elim found [ none ↦ some others | some stats ↦ some (stats ∷ others) ]

  unfoldable pub get_all_stats : JsonlHistoryStore Q → String → Option (List (TestStatistics Q.F64))
  unfolding all_stats
  get_all_stats store config = all_stats store (config_keys config store)

  abbrev pub flakier_first : TestStatistics Q.F64 → TestStatistics Q.F64 → Bool
  flakier_first a b = not (Q.less a.failure_rate b.failure_rate)

  abbrev p50_of : TestStatistics Q.F64 → Q.F64
  p50_of s = elim s.duration.success [ none ↦ Q.zero_f64 | some d ↦ d.p50_secs ]

  abbrev pub slower_first : TestStatistics Q.F64 → TestStatistics Q.F64 → Bool
  slower_first a b = not (Q.less (p50_of a) (p50_of b))

  unfoldable pub flakiest_tests :
      JsonlHistoryStore Q → String → ℕ → Option (List (TestStatistics Q.F64))
  unfolding get_all_stats sort_by
  flakiest_tests store config limit =
      chain (get_all_stats store config) λ stats. some (take limit (sort_by flakier_first stats))

  unfoldable pub slowest_tests :
      JsonlHistoryStore Q → String → ℕ → Option (List (TestStatistics Q.F64))
  unfolding get_all_stats sort_by
  slowest_tests store config limit =
      chain (get_all_stats store config) λ stats. some (take limit (sort_by slower_first stats))

  -- The greatest run id.
  abbrev later : String → String → String
  later s t = elim (compare s t) [ Ordering.gt ↦ s | _ ↦ t ]

  abbrev latest : List String → Option String
  latest [] = none
  latest (s ∷ ss) = elim (latest ss) [ none ↦ some s | some t ↦ some (later s t) ]

  abbrev in_config : String → Key × HistoryRecord Q.F64 → Bool
  in_config config p = p.0.config == config

  unfoldable pub last_run_failures : JsonlHistoryStore Q → String → List String
  last_run_failures store config =
      let records = keep (in_config config) store.records in
      elim (latest (map (λ p. p.1.values.last_run) records)) [
        | none ↦ []
        | some latest_run ↦
            map (λ p. p.0.test_id)
              (keep (λ p. any (λ s. s.run_id == latest_run) p.1.values.fail) records)
      ]

  -- The 75th percentiles of both outcomes, weighted by the failure rate, as far as they are there.
  unfoldable pub own_duration : Option (TestStatistics Q.F64) → Option Q.F64
  own_duration none = none
  own_duration (some stats) = elim stats.duration.success [
    | none ↦ elim stats.duration.failure [ none ↦ none | some f ↦ some f.p75_secs ]
    | some s ↦ elim stats.duration.failure [
      | none ↦ some s.p75_secs
      | some f ↦ some (R.weighted_mean stats.failure_rate s.p75_secs f.p75_secs)
    ]
  ]

  abbrev pub p75s : List (TestStatistics Q.F64) → List Q.F64
  p75s [] = []
  p75s (s ∷ ss) = elim s.duration.success [ none ↦ p75s ss | some d ↦ d.p75_secs ∷ p75s ss ]

  -- The average of the configuration's tests, else the default.
  unfoldable pub fallback_secs : JsonlHistoryStore Q → List (TestStatistics Q.F64) → Q.F64
  fallback_secs store stats =
      if ltb 0 (length (p75s stats))
      then R.mean (p75s stats) (length (p75s stats))
      else store.default_duration_secs

  unfoldable pub expected_duration : JsonlHistoryStore Q → Key → Option ℕ
  unfolding get_stats get_all_stats own_duration fallback_secs
  expected_duration store key = chain (get_stats store key) λ found. elim (own_duration found) [
    | some secs ↦ R.from_secs_f64 secs
    | none ↦
        chain (get_all_stats store key.config) λ stats. R.from_secs_f64 (fallback_secs store stats)
  ]

  unfoldable pub durations_for : JsonlHistoryStore Q → List Key → Option (List (String × ℕ))
  unfolding expected_duration
  durations_for store [] = some []
  durations_for store (key ∷ ks) =
      let rest = durations_for store ks in
      chain (expected_duration store key) λ d. chain rest λ others. some ((key.test_id, d) ∷ others)

  unfoldable pub get_scheduling_durations :
      JsonlHistoryStore Q → String → Option (List (String × ℕ))
  unfolding durations_for
  get_scheduling_durations store config = durations_for store (config_keys config store)
