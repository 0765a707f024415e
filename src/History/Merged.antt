-- ===== src/History/Merged.antt =====
-- What the merge of src/history/merge.rs returns.
use offload.Base.{
  ℕ, ◌+◌, ◌-◌, ◌%◌, ◌≤◌, ◌≡◌, refl, ◌∙◌, Option, some, List, [], ◌∷◌, arith, length, All,
  comparable_number, comparable_text, Distinct,
}
use offload.History.Data.{comparable_key, Sample, HistoryRecord, add_u64, u64_max}
use offload.History.Reservoir
use offload.History.Reservoir.{Lottery, WeightedReservoir, with_capacity, insert_all}
use offload.History.Bounds.{insert_all-Grown}
use offload.History.Merging.{timestamps, merge-IsBounded}
use offload.History.Merge.{merge_reservoirs, merge_deltas, merge_counters, merge_test_records}

module _ (Q : Lottery) where
  record Pooled (c : ℕ) (o : Option (List (Sample Q.F64))) : Type 0 where
    samples : List (Sample Q.F64)
    returned : o ≡ some samples
    within : length samples ≤ c
    distinct : Distinct (timestamps samples)

  abbrev Any : Sample Q.F64 → Type 0
  Any s = s ≡ s

  everything : (ss : List (Sample Q.F64)) → All Any ss
  everything [] = tt
  everything (s ∷ ss) = (refl, everything ss)

  merge_reservoirs-Pooled :
      (a b : List (Sample Q.F64)) (c : ℕ) → 1 ≤ c → Pooled c (merge_reservoirs Q a b c)
  unfolding merge_reservoirs with_capacity
  merge_reservoirs-Pooled a b c h =
      let start = with_capacity Q c in
      let g = insert_all-Grown Q Any c start a h refl (omega arith) tt (everything a) in
      let f = insert_all-Grown Q Any c start b h refl (omega arith) tt (everything b) in
      let m = merge-IsBounded Q Any g.result f.result g.from_samples f.from_samples in
      rw (g.returned, f.returned, merge_reservoirs)
        (record {
          samples = (Reservoir.merge Q g.result f.result).samples;
          returned = refl;
          within = omega (arith, m.0, g.same_capacity);
          distinct = m.1;
        })

  module _ (overlap : ℕ → ℕ → ℕ → ℕ) where
    -- A merged record: its counters are those given, and its reservoirs are within the capacity and hold
    -- no timestamp twice.
    pub record Joined (c : ℕ) (counters : ℕ × ℕ) (o : Option (HistoryRecord Q.F64)) : Type 0 where
      pub merged : HistoryRecord Q.F64
      pub returned : o ≡ some merged
      pub attempts : merged.values.total_attempts ≡ counters.0
      pub failures : merged.values.total_failures ≡ counters.1
      pub ok_within : length merged.values.ok ≤ c
      pub fail_within : length merged.values.fail ≤ c
      pub ok_distinct : Distinct (timestamps merged.values.ok)
      pub fail_distinct : Distinct (timestamps merged.values.fail)

    pub merge_test_records-counters :
        (a b : HistoryRecord Q.F64) (base : Option (HistoryRecord Q.F64)) (c : ℕ)
        → 1 ≤ c
        → Joined c
            (merge_counters Q overlap a.values b.values base)
            (merge_test_records Q overlap a b base c)
    unfolding merge_test_records
    merge_test_records-counters a b base c h =
        let ok = merge_reservoirs-Pooled a.values.ok b.values.ok c h in
        let fail = merge_reservoirs-Pooled a.values.fail b.values.fail c h in
        rw (ok.returned, fail.returned, merge_test_records)
          (record {
            merged = _;
            returned = refl;
            attempts = refl;
            failures = refl;
            ok_within = ok.within;
            fail_within = fail.within;
            ok_distinct = ok.distinct;
            fail_distinct = fail.distinct;
          })

    merge_deltas-eq :
        (base a b : ℕ)
        → base ≤ a
        → base ≤ b
        → merge_deltas Q base a b ≡ (a + b - base) % (u64_max + 1)
    unfolding merge_deltas add_u64
    merge_deltas-eq base a b h k = omega (arith, h, k)

    -- Merging two records with a common ancestor whose counters they have not gone below, with a
    -- capacity that is not 0, gives a record: what either side has counted since the ancestor is in its
    -- counters once, modulo 2^64, and its reservoirs are within the capacity, without a timestamp twice.
    pub merge_test_records-Joined :
        (a b base : HistoryRecord Q.F64) (c : ℕ)
        → 1 ≤ c
        → base.values.total_attempts ≤ a.values.total_attempts
        → base.values.total_attempts ≤ b.values.total_attempts
        → base.values.total_failures ≤ a.values.total_failures
        → base.values.total_failures ≤ b.values.total_failures
        → Joined c
            (
              (a.values.total_attempts + b.values.total_attempts - base.values.total_attempts)
                  % (u64_max + 1),
              (a.values.total_failures + b.values.total_failures - base.values.total_failures)
                  % (u64_max + 1),
            )
            (merge_test_records Q overlap a b (some base) c)
    unfolding merge_counters
    merge_test_records-Joined a b base c h p q r s =
        let j = merge_test_records-counters a b (some base) c h in
        record {
          merged = j.merged;
          returned = j.returned;
          attempts = j.attempts ∙ merge_deltas-eq _ _ _ p q;
          failures = j.failures ∙ merge_deltas-eq _ _ _ r s;
          ok_within = j.ok_within;
          fail_within = j.fail_within;
          ok_distinct = j.ok_distinct;
          fail_distinct = j.fail_distinct;
        }
