-- ===== src/History/Store.antt =====
-- The recording of results of src/history/store.rs. A panic is `none`; recording returns no error.
use offload.Base.{
  ℕ, String, Option, none, some, List, [], ◌∷◌, if◌then◌else◌, unwrap_or, comparable_number,
  comparable_text, get, insert,
}
use offload.History.Data.{
  Key, comparable_key, Sample, TestValues, HistoryRecord, TestAttemptResult, add_u64,
}
use offload.History.Reservoir.{Lottery, with_capacity, insert_sample, insert_all}

module _ (Q : Lottery) where
  -- The records are a table by their keys.
  pub record JsonlHistoryStore : Type 0 where
    pub records : List (Key × HistoryRecord Q.F64)
    pub path : String
    pub reservoir_size : ℕ
    pub default_duration_secs : Q.F64

  unfoldable pub new : String → ℕ → Q.F64 → JsonlHistoryStore
  new path reservoir_size default_duration_secs = record {
    records = [];
    path = path;
    reservoir_size = reservoir_size;
    default_duration_secs = default_duration_secs;
  }

  unfoldable pub key_of : TestAttemptResult Q.F64 → Key
  key_of r = record { config = r.config; test_id = r.test_id }

  -- The record that `or_insert_with` makes.
  unfoldable pub fresh_record : Key → HistoryRecord Q.F64
  fresh_record key = record {
    key = key;
    values = record { total_attempts = 0; total_failures = 0; last_run = ""; ok = []; fail = [] };
  }

  unfoldable pub sample_of : TestAttemptResult Q.F64 → Sample Q.F64
  sample_of r = record {
    run_id = r.run_id;
    timestamp_ms = r.timestamp_ms;
    duration_secs = r.duration_secs;
  }

  -- A reservoir is built from the samples, the new one inserted, and its samples taken back.
  unfoldable pub resampled : ℕ → List (Sample Q.F64) → Sample Q.F64 → Option (List (Sample Q.F64))
  unfolding insert_all insert_sample with_capacity
  resampled reservoir_size target sample =
      elim (insert_all Q (with_capacity Q reservoir_size) target) [
        | none ↦ none
        | some reservoir ↦ elim (insert_sample Q reservoir sample) [
          | none ↦ none
          | some grown ↦ some grown.samples
        ]
      ]

  -- The counters and the run id, before the sample is put in.
  unfoldable pub counted : HistoryRecord Q.F64 → TestAttemptResult Q.F64 → TestValues Q.F64
  unfolding add_u64
  counted r result = record r.values {
    total_attempts = add_u64 r.values.total_attempts 1;
    total_failures =
        if result.passed then r.values.total_failures else add_u64 r.values.total_failures 1;
    last_run = result.run_id;
  }

  unfoldable pub update_record :
      ℕ → HistoryRecord Q.F64 → TestAttemptResult Q.F64 → Option (HistoryRecord Q.F64)
  unfolding counted sample_of resampled
  update_record reservoir_size r result =
      let target = if result.passed then r.values.ok else r.values.fail in
      elim (resampled reservoir_size target (sample_of result)) [
        | none ↦ none
        | some samples ↦ some (record r {
          values =
              if result.passed
              then record (counted r result) { ok = samples }
              else record (counted r result) { fail = samples };
        })
      ]

  -- The body of the loop of `record_results`.
  unfoldable pub record_result :
      JsonlHistoryStore → TestAttemptResult Q.F64 → Option JsonlHistoryStore
  unfolding key_of fresh_record update_record
  record_result store result =
      let entry = unwrap_or (get (key_of result) store.records) (fresh_record (key_of result)) in
      elim (update_record store.reservoir_size entry result) [
        | none ↦ none
        | some updated ↦
            some (record store { records = insert (key_of result) updated store.records })
      ]

  unfoldable pub record_results :
      JsonlHistoryStore → List (TestAttemptResult Q.F64) → Option JsonlHistoryStore
  unfolding record_result
  record_results store [] = some store
  record_results store (result ∷ results) = elim (record_result store result) [
    | none ↦ none
    | some recorded ↦ record_results recorded results
  ]
