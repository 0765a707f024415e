-- ===== src/Scheduler/Batch.antt =====
-- The batch under construction of src/orchestrator/scheduler.rs. Durations are nanoseconds, and
-- neither they nor the command's length overflow.
use Prim.Native.String.{len}
use offload.Base.{
  ℕ, ◌+◌, String, Bool, true, false, ◌||◌, List, [], ◌∷◌, ◌++◌, leb, contains, add, comparable_text,
}
use offload.Framework.{TestInstance}

pub record Batch : Type 0 where
  pub tests : List TestInstance
  pub load : ℕ
  pub command_len : ℕ
  pub test_ids : List String

abbrev pub max_batch_command_len : ℕ
max_batch_command_len = 30000

abbrev pub max_single_test_requeues : ℕ
max_single_test_requeues = 3

unfoldable pub new : Batch
new = record { tests = []; load = 0; command_len = 0; test_ids = [] }

unfoldable pub add_test : Batch → TestInstance → ℕ → Batch
add_test b test duration = record {
  tests = b.tests ++ test ∷ [];
  load = b.load + duration;
  command_len = b.command_len + len test.id;
  test_ids = add test.id b.test_ids;
}

unfoldable pub has_test : Batch → String → Bool
has_test b test_id = contains test_id b.test_ids

unfoldable pub is_empty : Batch → Bool
is_empty b = elim b.tests [ [] ↦ true | x ∷ xs ↦ false ]

unfoldable pub would_fit : Batch → ℕ → Bool
unfolding is_empty
would_fit b test_id_len = is_empty b || leb (b.command_len + test_id_len) max_batch_command_len
