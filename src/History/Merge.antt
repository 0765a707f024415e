-- ===== src/History/Merge.antt =====
-- src/history/merge.rs: the merge of the records of two branches and their common ancestor. A panic in
-- a reservoir is `none`.
use offload.Base.{
  ℕ, ◌+◌, ◌-◌, min, max, String, Option, none, some, List, [], ◌∷◌, map, ltb, leb, if◌then◌else◌,
  length, keep, comparable_number, comparable_text, contains, add, get, insert, keys,
}
use offload.History.Data.{
  Key, comparable_key, Sample, TestValues, HistoryRecord, add_u64, saturating_add,
}
use offload.History.Reservoir
use offload.History.Reservoir.{Lottery, WeightedReservoir, with_capacity, insert_all}

module _ (Q : Lottery) where
  -- A sample that both have counts once for each time the second list has it.
  unfoldable pub count_shared_samples : List (Sample Q.F64) → List (Sample Q.F64) → ℕ
  count_shared_samples a b =
      length (keep (λ s. contains s.timestamp_ms (map (λ t. t.timestamp_ms) a)) b)

  unfoldable pub newest_of : List (Sample Q.F64) → ℕ
  newest_of [] = 0
  newest_of (s ∷ ss) = max s.timestamp_ms (newest_of ss)

  unfoldable pub newest_timestamp : List (Sample Q.F64) → List (Sample Q.F64) → ℕ
  unfolding newest_of
  newest_timestamp ok fail = max (newest_of ok) (newest_of fail)

  unfoldable pub merge_reservoirs :
      List (Sample Q.F64) → List (Sample Q.F64) → ℕ → Option (List (Sample Q.F64))
  unfolding Reservoir.merge insert_all with_capacity
  merge_reservoirs ours theirs capacity = elim (insert_all Q (with_capacity Q capacity) ours) [
    | none ↦ none
    | some ours_reservoir ↦ elim (insert_all Q (with_capacity Q capacity) theirs) [
      | none ↦ none
      | some theirs_reservoir ↦ some (Reservoir.merge Q ours_reservoir theirs_reservoir).samples
    ]
  ]

  -- With a common ancestor: what each side has counted since then.
  unfoldable pub merge_deltas : ℕ → ℕ → ℕ → ℕ
  unfolding add_u64
  merge_deltas base ours theirs = add_u64 (add_u64 base (ours - base)) (theirs - base)

  -- Without one: a share of the smaller counter is taken to be counted twice. The product of the ratio
  -- `shared * 2 / total` in f64 with that counter, as u64, is the function `overlap`.
  unfoldable pub merge_estimated : (ℕ → ℕ → ℕ → ℕ) → ℕ → ℕ → ℕ → ℕ → ℕ
  unfolding saturating_add
  merge_estimated overlap shared total_samples ours theirs =
      let estimated_shared =
        if ltb 0 total_samples then overlap shared total_samples (min ours theirs) else 0 in
      saturating_add ours theirs - estimated_shared

  abbrev total_samples : TestValues Q.F64 → TestValues Q.F64 → ℕ
  total_samples a b = length a.ok + length a.fail + length b.ok + length b.fail

  abbrev shared_samples : TestValues Q.F64 → TestValues Q.F64 → ℕ
  shared_samples a b = count_shared_samples a.ok b.ok + count_shared_samples a.fail b.fail

  unfoldable pub merge_counters :
      (ℕ → ℕ → ℕ → ℕ) → TestValues Q.F64 → TestValues Q.F64 → Option (HistoryRecord Q.F64) → ℕ × ℕ
  unfolding merge_deltas merge_estimated count_shared_samples
  merge_counters overlap a b (some base) = (
    merge_deltas base.values.total_attempts a.total_attempts b.total_attempts,
    merge_deltas base.values.total_failures a.total_failures b.total_failures,
  )
  merge_counters overlap a b none = (
    merge_estimated overlap (shared_samples a b) (total_samples a b) a.total_attempts
        b.total_attempts,
    merge_estimated overlap (shared_samples a b) (total_samples a b) a.total_failures
        b.total_failures,
  )

  -- The run of the side with the newer sample, ours if both are as new.
  unfoldable pub merge_last_run : TestValues Q.F64 → TestValues Q.F64 → String
  unfolding newest_timestamp
  merge_last_run a b =
      if leb (newest_timestamp b.ok b.fail) (newest_timestamp a.ok a.fail)
      then a.last_run
      else b.last_run

  unfoldable pub merge_test_records :
      (ℕ → ℕ → ℕ → ℕ)
      → HistoryRecord Q.F64
      → HistoryRecord Q.F64
      → Option (HistoryRecord Q.F64)
      → ℕ
      → Option (HistoryRecord Q.F64)
  unfolding merge_reservoirs merge_counters merge_last_run
  merge_test_records overlap ours theirs base reservoir_size =
      elim (merge_reservoirs ours.values.ok theirs.values.ok reservoir_size) [
        | none ↦ none
        | some ok ↦ elim (merge_reservoirs ours.values.fail theirs.values.fail reservoir_size) [
          | none ↦ none
          | some fail ↦
              let counters = merge_counters overlap ours.values theirs.values base in
              some (record {
                key = ours.key;
                values = record {
                  total_attempts = counters.0;
                  total_failures = counters.1;
                  last_run = merge_last_run ours.values theirs.values;
                  ok = ok;
                  fail = fail;
                };
              })
        ]
      ]

  abbrev pub Records : Type 0
  Records = List (Key × HistoryRecord Q.F64)

  -- The record of a key: `none` for a panic, `some none` for `continue`.
  unfoldable pub merge_key :
      (ℕ → ℕ → ℕ → ℕ)
      → Records
      → Records
      → Records
      → ℕ
      → Key
      → Option (Option (HistoryRecord Q.F64))
  unfolding merge_test_records
  merge_key overlap base ours theirs reservoir_size key = elim (get key ours) [
    | none ↦ some (get key theirs)
    | some a ↦ elim (get key theirs) [
      | none ↦ some (some a)
      | some b ↦ elim (merge_test_records overlap a b (get key base) reservoir_size) [
        | none ↦ none
        | some merged ↦ some (some merged)
      ]
    ]
  ]

  -- The keys of both, each once.
  unfoldable pub union : List Key → List Key → List Key
  union all_keys [] = all_keys
  union all_keys (k ∷ ks) = union (add k all_keys) ks

  unfoldable pub merge_keys :
      (ℕ → ℕ → ℕ → ℕ) → Records → Records → Records → ℕ → Records → List Key → Option Records
  unfolding merge_key
  merge_keys overlap base ours theirs reservoir_size merged [] = some merged
  merge_keys overlap base ours theirs reservoir_size merged (key ∷ all_keys) =
      elim (merge_key overlap base ours theirs reservoir_size key) [
        | none ↦ none
        | some none ↦ merge_keys overlap base ours theirs reservoir_size merged all_keys
        | some (some r) ↦
            merge_keys overlap base ours theirs reservoir_size (insert key r merged) all_keys
      ]

  unfoldable pub merge_records : (ℕ → ℕ → ℕ → ℕ) → Records → Records → Records → ℕ → Option Records
  unfolding merge_keys union
  merge_records overlap base ours theirs reservoir_size =
      merge_keys overlap base ours theirs reservoir_size [] (union (keys ours) (keys theirs))
