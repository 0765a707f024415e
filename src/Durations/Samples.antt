-- ===== src/Durations/Samples.antt =====
-- Concrete durations for the theorems about src/orchestrator.rs and src/report/junit.rs.
use offload.Base.{
  ℕ, String, ◌≡◌, refl, false, Option, none, some, List, [], ◌∷◌, arith, if◌then◌else◌, ◌==◌,
  comparable_number, comparable_text, get, insert,
}
use offload.Framework.{TestInstance}
use offload.Report.Reader.{Event, empty, Decoding, get_attr, get_attr_f64}
use offload.Durations.{
  Durations, group_to_default_duration, load_test_durations, read_durations, note_event,
  note_testcase, keep_longest,
}
use offload.Durations.Averages.{known, mean, get-group_to_default_duration}

abbrev instance_of : String → String → TestInstance
instance_of id group = record { id = id; group = group; schedule_individual = false }

abbrev tests : List TestInstance
tests = instance_of "a" "g" ∷ instance_of "b" "h" ∷ instance_of "c" "g" ∷ instance_of "d" "g" ∷ []

abbrev durations : Durations
durations = ("a", 10) ∷ ("c", 21) ∷ []

get-group_to_default_duration_example :
    get "g" (group_to_default_duration durations tests) ≡ mean (known durations "g" tests)
get-group_to_default_duration_example =
    get-group_to_default_duration durations tests "g" (omega arith)

known_of_g : known durations "g" tests ≡ 10 ∷ 21 ∷ []
unfolding get
known_of_g = refl

-- Times are numbers of nanoseconds, and "-1" is negative.
abbrev whole : Decoding
whole = record {
  I32 = ℕ;
  F64 = Option ℕ;
  zero_i32 = 0;
  zero_f64 = some 0;
  read_i32 = λ s. none;
  read_f64 = λ s.
      if s == "5"
      then some (some 5)
      else if s == "7"
      then some (some 7)
      else if s == "-1"
      then some none
      else none;
  predefined_entity = λ s. none;
}

abbrev testcase : String → String → Event
testcase name time = empty "testcase" (("name", some name) ∷ ("time", some time) ∷ [])

-- A test with two attempts keeps the longer one.
retried :
    load_test_durations whole
      (λ t. t)
      (some (testcase "a" "5" ∷ testcase "a" "7" ∷ testcase "b" "5" ∷ []))
    ≡ some (("a", 7) ∷ ("b", 5) ∷ [])
unfolding load_test_durations read_durations note_event note_testcase keep_longest get_attr
    get_attr_f64 get insert
retried = refl

negative : load_test_durations whole (λ t. t) (some (testcase "a" "-1" ∷ [])) ≡ none
unfolding load_test_durations read_durations note_event note_testcase keep_longest get_attr
    get_attr_f64 get insert
negative = refl
