-- ===== src/Framework.antt =====
-- src/framework.rs: the tests that the other parts pass around. A path is its text.
pub mod Matching
pub mod Vitest
use offload.Base.{ℕ, String, Bool, Option, some}

pub record TestInstance : Type 0 where
  pub id : String
  pub group : String
  pub schedule_individual : Bool

pub record TestRecord : Type 0 where
  pub id : String
  pub name : String
  pub file : Option String
  pub retry_count : ℕ
  pub group : String
  pub schedule_individual : Bool

unfoldable pub with_retry_count : TestRecord → ℕ → TestRecord
with_retry_count r count = record r { retry_count = count }

unfoldable pub with_schedule_individual : TestRecord → Bool → TestRecord
with_schedule_individual r schedule_individual = record r {
  schedule_individual = schedule_individual;
}

unfoldable pub with_file : TestRecord → String → TestRecord
with_file r file = record r { file = some file }

-- `TestRecord::test` and `TestInstance::new`
unfoldable pub test : TestRecord → TestInstance
test r = record { id = r.id; group = r.group; schedule_individual = r.schedule_individual }
