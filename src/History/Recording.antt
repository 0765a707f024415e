-- ===== src/History/Recording.antt =====
-- The counters and the reservoirs after `record_results` of src/history/store.rs.
use offload.Base.{
  ℕ, ◌≤◌, String, ◌≡◌, refl, ap, ◌∙◌, inl, inr, Bool, true, false, not, ◌&&◌, Option, none, some,
  List, [], ◌∷◌, arith, if◌then◌else◌, Bool-cases, unwrap_or, length, All, ◌==◌, comparable_number,
  comparable_text, eq→path, get, insert, get-insert,
}
use offload.History.Data.{Key, comparable_key, Sample, HistoryRecord, TestAttemptResult, add_u64}
use offload.History.Reservoir.{Lottery, with_capacity}
use offload.History.Bounds.{insert_sample-Grown, insert_all-Grown}
use offload.History.Store.{
  JsonlHistoryStore, key_of, fresh_record, resampled, counted, update_record, record_result,
}

module _ (Q : Lottery) where
  abbrev pub attempts_of : Option (HistoryRecord Q.F64) → ℕ
  attempts_of none = 0
  attempts_of (some r) = r.values.total_attempts

  abbrev pub failures_of : Option (HistoryRecord Q.F64) → ℕ
  failures_of none = 0
  failures_of (some r) = r.values.total_failures

  -- Both reservoirs of a record are within the capacity.
  abbrev pub IsWithin : ℕ → HistoryRecord Q.F64 → Type 0
  IsWithin c r = (length r.values.ok ≤ c) × (length r.values.fail ≤ c)

  record Resampled (c : ℕ) (o : Option (List (Sample Q.F64))) : Type 0 where
    samples : List (Sample Q.F64)
    returned : o ≡ some samples
    within : length samples ≤ c

  abbrev Any : Sample Q.F64 → Type 0
  Any s = s ≡ s

  everything : (ss : List (Sample Q.F64)) → All Any ss
  everything [] = tt
  everything (s ∷ ss) = (refl, everything ss)

  resampled-Resampled :
      (c : ℕ) (ss : List (Sample Q.F64)) (s : Sample Q.F64)
      → 1 ≤ c
      → Resampled c (resampled Q c ss s)
  unfolding resampled with_capacity
  resampled-Resampled c ss s h =
      let start = with_capacity Q c in
      let g = insert_all-Grown Q Any c start ss h refl (omega arith) tt (everything ss) in
      let f =
        insert_sample-Grown Q Any g.result s (omega (arith, h, g.same_capacity))
          (omega (arith, g.size, g.same_capacity)) refl g.from_samples in
      rw (g.returned, resampled, f.returned)
        (record {
          samples = f.result.samples;
          returned = refl;
          within = omega (arith, f.size, g.same_capacity);
        })

  pub record Updated (c : ℕ) (e : HistoryRecord Q.F64) (r : TestAttemptResult Q.F64)
      (o : Option (HistoryRecord Q.F64)) : Type 0 where
    pub updated : HistoryRecord Q.F64
    pub returned : o ≡ some updated
    pub attempts : updated.values.total_attempts ≡ add_u64 e.values.total_attempts 1
    pub failures :
        updated.values.total_failures
        ≡ (if r.passed then e.values.total_failures else add_u64 e.values.total_failures 1)
    pub within : IsWithin c e → IsWithin c updated

  update_values-Updated :
      (c : ℕ) (e : HistoryRecord Q.F64) (passed : Bool) (config test_id run_id : String) (d : Q.F64)
      (t : ℕ)
      → 1 ≤ c
      → (let r : TestAttemptResult Q.F64 = record {
        config = config;
        test_id = test_id;
        run_id = run_id;
        passed = passed;
        duration_secs = d;
        timestamp_ms = t;
      } in
          Updated c e r (update_record Q c e r))
  unfolding update_record counted
  update_values-Updated c e true config test_id run_id d t h =
      let g =
        resampled-Resampled c e.values.ok
          (record { run_id = run_id; timestamp_ms = t; duration_secs = d }) h in
      rw (g.returned, update_record)
        (record {
          updated = _;
          returned = refl;
          attempts = refl;
          failures = refl;
          within = λ w. (g.within, w.1);
        })
  update_values-Updated c e false config test_id run_id d t h =
      let g =
        resampled-Resampled c e.values.fail
          (record { run_id = run_id; timestamp_ms = t; duration_secs = d }) h in
      rw (g.returned, update_record)
        (record {
          updated = _;
          returned = refl;
          attempts = refl;
          failures = refl;
          within = λ w. (w.0, g.within);
        })

  update_record-Updated :
      (c : ℕ) (e : HistoryRecord Q.F64) (r : TestAttemptResult Q.F64)
      → 1 ≤ c
      → Updated c e r (update_record Q c e r)
  update_record-Updated c e r h =
      update_values-Updated c e r.passed r.config r.test_id r.run_id r.duration_secs r.timestamp_ms
        h

  -- A store that one result made of another one.
  pub record Recorded (s : JsonlHistoryStore Q) (r : TestAttemptResult Q.F64)
      (o : Option (JsonlHistoryStore Q)) : Type 0 where
    pub recorded : JsonlHistoryStore Q
    pub returned : o ≡ some recorded
    pub same_size : recorded.reservoir_size ≡ s.reservoir_size
    pub attempts :
        (k : Key)
        → attempts_of (get k recorded.records) ≡ (
            if k == key_of Q r
            then add_u64 (attempts_of (get k s.records)) 1
            else attempts_of (get k s.records))
    pub failures :
        (k : Key)
        → failures_of (get k recorded.records) ≡ (
            if k == key_of Q r && not r.passed
            then add_u64 (failures_of (get k s.records)) 1
            else failures_of (get k s.records))
    pub within :
        All (λ p. IsWithin s.reservoir_size p.1) s.records
        → All (λ p. IsWithin s.reservoir_size p.1) recorded.records

  entry_counts :
      (key : Key) (o : Option (HistoryRecord Q.F64))
      → ((unwrap_or o (fresh_record Q key)).values.total_attempts ≡ attempts_of o)
        × ((unwrap_or o (fresh_record Q key)).values.total_failures ≡ failures_of o)
  unfolding fresh_record
  entry_counts key none = (refl, refl)
  entry_counts key (some e) = (refl, refl)

  entry-IsWithin :
      (c : ℕ) (key : Key) (m : List (Key × HistoryRecord Q.F64))
      → All (λ p. IsWithin c p.1) m
      → IsWithin c (unwrap_or (get key m) (fresh_record Q key))
  unfolding get fresh_record
  entry-IsWithin c key [] h = (omega arith, omega arith)
  entry-IsWithin c key ((j, e) ∷ m) h = elim (Bool-cases (key == j)) [
    | inl t ↦ rw t h.0
    | inr t ↦ rw t (entry-IsWithin c key m h.1)
  ]

  insert-IsWithin :
      (c : ℕ) (key : Key) (e : HistoryRecord Q.F64) (m : List (Key × HistoryRecord Q.F64))
      → IsWithin c e
      → All (λ p. IsWithin c p.1) m
      → All (λ p. IsWithin c p.1) (insert key e m)
  unfolding insert
  insert-IsWithin c key e [] w h = (w, tt)
  insert-IsWithin c key e ((j, f) ∷ m) w h = elim (Bool-cases (key == j)) [
    | inl t ↦ rw t (w, h.1)
    | inr t ↦ rw t (h.0, insert-IsWithin c key e m w h.1)
  ]

  pub record_result-Recorded :
      (s : JsonlHistoryStore Q) (r : TestAttemptResult Q.F64)
      → 1 ≤ s.reservoir_size
      → Recorded s r (record_result Q s r)
  unfolding record_result
  record_result-Recorded s r h =
      let key = key_of Q r in
      let entry = unwrap_or (get key s.records) (fresh_record Q key) in
      let u = update_record-Updated s.reservoir_size entry r h in
      let counts = entry_counts key (get key s.records) in
      rw (u.returned, record_result)
        (record {
          recorded = record s { records = insert key u.updated s.records };
          returned = refl;
          same_size = refl;
          attempts = λ k. rw (get-insert key k u.updated s.records) (elim (Bool-cases (k == key)) [
            | inl t ↦ rw (t, eq→path k key t) (u.attempts ∙ ap (λ n. add_u64 n 1) counts.0)
            | inr t ↦ rw t refl
          ]);
          failures = λ k. rw (get-insert key k u.updated s.records) (elim (Bool-cases (k == key)) [
            | inl t ↦ rw (t, eq→path k key t) (u.failures ∙ rw counts.1 (ground arith))
            | inr t ↦ rw t refl
          ]);
          within = λ w.
              insert-IsWithin s.reservoir_size key u.updated s.records
                (u.within (entry-IsWithin s.reservoir_size key s.records w)) w;
        })
