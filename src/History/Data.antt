-- ===== src/History/Data.antt =====
-- The data types of src/history.rs and src/history/jsonl.rs. Times in seconds (f64) are a type of the
-- section; timestamps and counters are u64.
use offload.Base.{
  ◌%◌, ℕ, ◌+◌, min, String, ◌≡◌, ◌↔◌, Bool, true, ◌&&◌, List, arith, Comparable, ◌==◌,
  comparable_number, comparable_text,
}

abbrev pub u64_max : ℕ
u64_max = 18446744073709551615

-- `+=` and `+` on u64 in a release build.
unfoldable pub add_u64 : ℕ → ℕ → ℕ
add_u64 m n = (m + n) % (u64_max + 1)

-- u64::saturating_add
unfoldable pub saturating_add : ℕ → ℕ → ℕ
saturating_add m n = min (m + n) u64_max

-- The configuration's file name and the test id.
pub record Key : Type 0 where
  pub config : String
  pub test_id : String

abbrev same_key : Key → Key → Bool
same_key j k = j.config == k.config && j.test_id == k.test_id

pub same_key_iff : (j k : Key) → (same_key j k ≡ true) ↔ (j ≡ k)
same_key_iff j k = ground (
  arith,
  comparable_text.same_iff j.config k.config,
  comparable_text.same_iff j.test_id k.test_id,
)

instance abbrev pub comparable_key : Comparable Key
comparable_key = record { same = same_key; same_iff = same_key_iff }

module _ (F64 : Type 0) where
  -- A sample, also in its compact form, which has the same three parts.
  pub record Sample : Type 0 where
    pub run_id : String
    pub timestamp_ms : ℕ
    pub duration_secs : F64

  pub record TestValues : Type 0 where
    pub total_attempts : ℕ
    pub total_failures : ℕ
    pub last_run : String
    pub ok : List Sample
    pub fail : List Sample

  pub record HistoryRecord : Type 0 where
    pub key : Key
    pub values : TestValues

  pub record TestAttemptResult : Type 0 where
    pub config : String
    pub test_id : String
    pub run_id : String
    pub passed : Bool
    pub duration_secs : F64
    pub timestamp_ms : ℕ
