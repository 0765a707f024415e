-- ===== src/Report/Suites.antt =====
-- The data types of src/report/junit.rs. Counters (i32) and times (f64) are types of the section: the
-- program reads, sums and writes them by operations of the standard library.
use offload.Base.{
  String, ◌≡◌, ◌↔◌, Bool, true, false, ◌&&◌, Option, none, some, List, arith, Comparable, ◌==◌,
  comparable_number, comparable_text,
}

-- A failing test id makes a batch fail; a test is flaky if it has both passed and failed.
pub data TestStatus : Type 0 where
  passed failed flaky : TestStatus

pub record TestId : Type 0 where
  pub classname : Option String
  pub name : String

pub record FailureXml : Type 0 where
  pub message : Option String
  pub content : String

module _ (F64 : Type 0) where
  pub record TestcaseXml : Type 0 where
    pub name : String
    pub classname : Option String
    pub time : F64
    pub failure : Option FailureXml
    pub error : Option FailureXml
    pub skipped : Bool

module _ (I32 F64 : Type 0) where
  pub record TestsuiteXml : Type 0 where
    pub name : String
    pub tests : I32
    pub failures : I32
    pub errors : I32
    pub skipped : I32
    pub time : F64
    pub timestamp : Option String
    pub hostname : Option String
    pub testcases : List (TestcaseXml F64)

same_option : Option String → Option String → Bool
same_option none none = true
same_option (some s) (some t) = s == t
same_option _ _ = false

same_option_iff : (s t : Option String) → (same_option s t ≡ true) ↔ (s ≡ t)
unfolding same_option
same_option_iff none none = ground arith
same_option_iff (some s) (some t) = ground (arith, comparable_text.same_iff s t)
same_option_iff none (some t) = ground arith
same_option_iff (some s) none = ground arith

-- The derived PartialEq.
unfoldable pub same_id : TestId → TestId → Bool
unfolding same_option
same_id a b = same_option a.classname b.classname && a.name == b.name

pub same_id_iff : (a b : TestId) → (same_id a b ≡ true) ↔ (a ≡ b)
unfolding same_id
same_id_iff a b =
    ground (arith, same_option_iff a.classname b.classname, comparable_text.same_iff a.name b.name)

instance abbrev pub comparable_id : Comparable TestId
comparable_id = record { same = same_id; same_iff = same_id_iff }
