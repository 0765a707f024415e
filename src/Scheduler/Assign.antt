-- ===== src/Scheduler/Assign.antt =====
-- The assignment loop of `Scheduler::new` in src/orchestrator/scheduler.rs.
use Prim.Native.String.{len}
use offload.Base.{
  ℕ, zero, suc, String, Bool, not, ◌&&◌, Option, none, some, List, [], ◌∷◌, ◌++◌, leb,
  if◌then◌else◌, unwrap_or, length, get, comparable_text,
}
use offload.Framework.{TestInstance}
use offload.Scheduler.Batch
use offload.Scheduler.Batch.{Batch}

-- Expected durations by test id or by group.
abbrev pub Durations : Type 0
Durations = List (String × ℕ)

-- Duration::from_secs(1)
abbrev pub one_second : ℕ
one_second = 1000000000

unfoldable pub duration_of : Durations → Durations → TestInstance → ℕ
duration_of durations group_to_default_duration t = elim (get t.id durations) [
  | some d ↦ d
  | none ↦ unwrap_or (get t.group group_to_default_duration) one_second
]

-- The filter on batch indices.
unfoldable pub eligible : String → Batch → Bool
unfolding Batch.has_test Batch.would_fit
eligible test_id b = not (Batch.has_test b test_id) && Batch.would_fit b (len test_id)

-- `min_by_key` keeps the first of the lightest.
abbrev pub lighter : Option (ℕ × ℕ) → Option (ℕ × ℕ) → Option (ℕ × ℕ)
lighter none r = r
lighter (some (i, load)) none = some (i, load)
lighter (some (i, load)) (some (j, other)) =
    if leb load other then some (i, load) else some (suc j, other)

abbrev pub behind : Option (ℕ × ℕ) → Option (ℕ × ℕ)
behind none = none
behind (some (j, load)) = some (suc j, load)

-- The index and the load of the lightest eligible batch.
unfoldable pub target_idx : String → List Batch → Option (ℕ × ℕ)
unfolding eligible
target_idx test_id [] = none
target_idx test_id (b ∷ bs) =
    let rest = target_idx test_id bs in
    if eligible test_id b then lighter (some (0, b.load)) rest else behind rest

-- `batches[idx].add(test, duration)`
unfoldable pub add_at : List Batch → ℕ → TestInstance → ℕ → List Batch
unfolding Batch.add_test
add_at [] idx test duration = []
add_at (b ∷ bs) zero test duration = Batch.add_test b test duration ∷ bs
add_at (b ∷ bs) (suc idx) test duration = b ∷ add_at bs idx test duration

-- One round of the loop: with no eligible batch a new one is pushed, and its index used.
unfoldable pub assign : List Batch → TestInstance → ℕ → List Batch
unfolding target_idx add_at
assign batches test duration = elim (target_idx test.id batches) [
  | some (idx, load) ↦ add_at batches idx test duration
  | none ↦ add_at (batches ++ Batch.new ∷ []) (length batches) test duration
]

unfoldable pub assign_all : List Batch → List (TestInstance × ℕ) → List Batch
unfolding assign
assign_all batches [] = batches
assign_all batches ((test, duration) ∷ rest) = assign_all (assign batches test duration) rest
