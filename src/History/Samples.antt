-- ===== src/History/Samples.antt =====
-- Concrete histories for the theorems about src/history/.
use offload.Base.{
  is_some, ℕ, ◌+◌, ◌-◌, ◌*◌, ◌/◌, ◌≤◌, String, ◌≡◌, refl, Bool, true, false, ◌||◌, none, some, List,
  [], ◌∷◌, ◌++◌, map, arith, ltb, if◌then◌else◌, length, sum_of, All, ◌==◌, comparable_number,
  comparable_text, contains, Distinct, get, insert_by, sort_by,
}
use offload.History.Data.{Key, comparable_key, Sample, TestValues, HistoryRecord, TestAttemptResult}
use offload.History.Reservoir
use offload.History.Reservoir.{Lottery, WeightedReservoir, with_capacity, insert_all}
use offload.History.Bounds.{Grown, insert_all-Grown}
use offload.History.Merging.{timestamps, merge-IsBounded, contains-merge}
use offload.History.Store.{JsonlHistoryStore, record_results}
use offload.History.Counters.{Tallied, record_results-Tallied}
use offload.History.Merge.{Records, merge_test_records, merge_records}
use offload.History.Merged.{Joined, merge_test_records-Joined}
use offload.History.Union.{Merged, merge_records-Merged}
use offload.History.Files.{Codec, save}
use offload.History.Saved.{Restored, save-Restored}
use offload.History.Rankings.{
  Arithmetic, chain, stats_of, get_stats, all_stats, get_all_stats, flakiest_tests,
  get_scheduling_durations,
}
use offload.History.Scheduled.{IsFitness, Scheduled, get_scheduling_durations-Scheduled}
use offload.History.Stats.{Statistics, Computed, compute_percentiles, compute_percentiles-Computed}

-- Every number is its own lot, and age takes its share.
abbrev plain : Lottery
plain = record {
  F64 = ℕ;
  zero_f64 = 0;
  random = λ t. t;
  weighted = λ age r. r / (age + 1);
  less = ltb;
}

abbrev sample_at : ℕ → Sample ℕ
sample_at t = record { run_id = "run"; timestamp_ms = t; duration_secs = 2 }

abbrev three : List (Sample ℕ)
three = sample_at 10 ∷ sample_at 30 ∷ sample_at 20 ∷ []

abbrev IsOfRun : Sample ℕ → Type 0
IsOfRun s = s.run_id ≡ "run"

insert_all-Grown_example : Grown plain IsOfRun 2 2 (insert_all plain (with_capacity plain 2) three)
unfolding with_capacity
insert_all-Grown_example =
    insert_all-Grown plain IsOfRun 2 (with_capacity plain 2) three (omega arith) refl (omega arith)
      tt (refl, (refl, (refl, tt)))

abbrev reservoir_of : ℕ → List (Sample ℕ) → WeightedReservoir plain
reservoir_of capacity samples = record { samples = samples; capacity = capacity }

abbrev other_samples : List (Sample ℕ)
other_samples = sample_at 30 ∷ sample_at 40 ∷ []

merge-IsBounded_example :
    (length (Reservoir.merge plain (reservoir_of 3 three) (reservoir_of 3 other_samples)).samples
      ≤ 3)
    × Distinct (
        timestamps
          (Reservoir.merge plain (reservoir_of 3 three) (reservoir_of 3 other_samples)).samples)
    × All IsOfRun
        (Reservoir.merge plain (reservoir_of 3 three) (reservoir_of 3 other_samples)).samples
merge-IsBounded_example =
    merge-IsBounded plain IsOfRun (reservoir_of 3 three) (reservoir_of 3 other_samples)
      (refl, (refl, (refl, tt))) (refl, (refl, tt))

contains-merge_example :
    contains 40 (
      timestamps
        (Reservoir.merge plain (reservoir_of 20 three) (reservoir_of 20 other_samples)).samples)
    ≡ (contains 40 (timestamps three) || contains 40 (timestamps other_samples))
contains-merge_example =
    contains-merge plain 40 (reservoir_of 20 three) (reservoir_of 20 other_samples) (omega arith)

abbrev key_a : Key
key_a = record { config = "offload.toml"; test_id = "a" }

abbrev key_b : Key
key_b = record { config = "offload.toml"; test_id = "b" }

abbrev values_of : ℕ → ℕ → List (Sample ℕ) → TestValues ℕ
values_of attempts failures passes = record {
  total_attempts = attempts;
  total_failures = failures;
  last_run = "run";
  ok = passes;
  fail = [];
}

abbrev record_a : HistoryRecord ℕ
record_a = record { key = key_a; values = values_of 3 1 three }

abbrev record_b : HistoryRecord ℕ
record_b = record { key = key_b; values = values_of 2 0 other_samples }

abbrev store_of : Records plain → JsonlHistoryStore plain
store_of records = record {
  records = records;
  path = "history.jsonl";
  reservoir_size = 20;
  default_duration_secs = 1;
}

abbrev two_records : Records plain
two_records = (key_b, record_b) ∷ (key_a, record_a) ∷ []

abbrev result_of : String → Bool → TestAttemptResult ℕ
result_of test_id passed = record {
  config = "offload.toml";
  test_id = test_id;
  run_id = "next";
  passed = passed;
  duration_secs = 5;
  timestamp_ms = 50;
}

abbrev some_results : List (TestAttemptResult ℕ)
some_results = result_of "a" false ∷ result_of "b" true ∷ result_of "a" true ∷ []

record_results-Tallied_example :
    Tallied plain key_a
      (store_of two_records)
      some_results
      (record_results plain (store_of two_records) some_results)
unfolding get
record_results-Tallied_example =
    record_results-Tallied plain key_a (store_of two_records) some_results (omega arith)
      (omega arith) (omega arith) ((omega arith, omega arith), ((omega arith, omega arith), tt))

abbrev no_overlap : ℕ → ℕ → ℕ → ℕ
no_overlap shared total n = shared * 2 * n / total

abbrev older_a : HistoryRecord ℕ
older_a = record { key = key_a; values = values_of 2 1 (sample_at 10 ∷ []) }

merge_test_records-Joined_example :
    Joined plain no_overlap 20
      (4, 1)
      (merge_test_records plain no_overlap record_a record_a (some older_a) 20)
merge_test_records-Joined_example =
    merge_test_records-Joined plain no_overlap record_a record_a older_a 20 (omega arith)
      (omega arith) (omega arith) (omega arith) (omega arith)

merge_records-Merged_example :
    Merged plain no_overlap [] two_records
      ((key_a, older_a) ∷ [])
      20
      (merge_records plain no_overlap [] two_records ((key_a, older_a) ∷ []) 20)
merge_records-Merged_example =
    merge_records-Merged plain no_overlap [] two_records ((key_a, older_a) ∷ []) 20 (omega arith)

-- A line names its test.
abbrev named : Codec plain
named = record {
  serialize_record = λ r. some r.key.test_id;
  parse_line =
      λ line. if line == "a" then some record_a else if line == "b" then some record_b else none;
  is_blank = λ line. line == "";
  key_le = λ j k. j.test_id == "a";
}

save-Restored_example : Restored named (store_of two_records) (save named (store_of two_records))
unfolding contains
save-Restored_example =
    save-Restored named (store_of two_records) (refl, (refl, tt)) (refl, (refl, tt))
      (
        record { line = "b"; written = refl; not_blank = refl; parsed = refl },
        (record { line = "a"; written = refl; not_blank = refl; parsed = refl }, tt),
      )

-- Positions are rounded down.
abbrev rounded_down : Statistics plain
rounded_down = record { position = λ p last. p * last / 100 }

abbrev five : List (Sample ℕ)
five = three ++ other_samples

compute_percentiles-Computed_example :
    Computed rounded_down 5 (compute_percentiles rounded_down five)
compute_percentiles-Computed_example = compute_percentiles-Computed rounded_down five

abbrev arithmetic : Arithmetic plain
arithmetic = record {
  statistics = record { position = λ p last. p * last / 100 };
  ratio = λ m n. 100 * m / n;
  weighted_mean = λ rate success failure. ((100 - rate) * success + rate * failure) / 100;
  mean = λ xs n. sum_of (λ x. x) xs / n;
  from_secs_f64 = λ x. some (x * 1000000000);
}

-- Every number is converted.
abbrev IsConverted : ℕ → Type 0
IsConverted x = is_some (arithmetic.from_secs_f64 x) ≡ true

abbrev every_number_fit : IsFitness arithmetic IsConverted
every_number_fit = record {
  converted = λ x h. h;
  weighed = λ m n x y le one hx hy. refl;
  unweighed = λ x y hx hy. refl;
  averaged = λ xs one h. refl;
}

get_scheduling_durations-Scheduled_example :
    Scheduled
      ("b" ∷ "a" ∷ [])
      (get_scheduling_durations arithmetic (store_of two_records) "offload.toml")
get_scheduling_durations-Scheduled_example =
    get_scheduling_durations-Scheduled arithmetic IsConverted every_number_fit
      (store_of two_records)
      (
        (
          ((refl, (refl, tt)), tt, omega arith),
          (((refl, (refl, (refl, tt))), tt, omega arith), tt),
        ),
        refl,
      )
      "offload.toml"

-- The failure rates are 0 and 33 in a hundred.
ranked :
    chain
      (flakiest_tests arithmetic (store_of two_records) "offload.toml" 1)
      (λ stats. some (map (λ s. s.test_id) stats))
    ≡ some ("a" ∷ [])
unfolding flakiest_tests get_all_stats all_stats get_stats stats_of compute_percentiles get sort_by
    insert_by
ranked = refl
