-- ===== src/Framework/Vitest/Batches.antt =====
-- src/framework/vitest.rs: the command for a batch, and the ids of the testcases in its report.
use Prim.Native.String.{◌++◌ as append, compare}
use Prim.Native.Nat.{Ordering}
use offload.Base.{
  String, Bool, true, false, Option, none, some, List, [], ◌∷◌, ◌++◌, map, if◌then◌else◌, unwrap_or,
  ◌==◌, comparable_number, comparable_text, contains, sort_by,
}
use offload.Framework.{TestInstance}
use offload.Report.Suites.{TestcaseXml, TestsuiteXml}
use offload.Framework.Vitest.{match_name, join_with}

-- Command of src/provider.rs, without what this framework leaves at its default.
pub record Command : Type 0 where
  pub program : String
  pub args : List String

-- The splitting of shell words, where that is possible, and `regex::escape`.
pub record Shell : Type 0 where
  pub split : String → Option (List String)
  pub escape : String → String

pub record VitestFramework : Type 0 where
  pub run_args : Option String
  pub program : String
  pub prefix_args : List String

abbrev text_le : String → String → Bool
text_le s t = elim (compare s t) [ Ordering.gt ↦ false | _ ↦ true ]

-- Vec::dedup
abbrev dedup : List String → List String
dedup [] = []
dedup (s ∷ []) = s ∷ []
dedup (s ∷ t ∷ rest) = let d = dedup (t ∷ rest) in if s == t then d else s ∷ d

module _ (S : Shell) where
  -- A command that cannot be split, or has no words, is an error.
  unfoldable pub new : String → Option String → Option VitestFramework
  new command run_args = elim (S.split command) [
    | none ↦ none
    | some [] ↦ none
    | some (program ∷ prefix_args) ↦
        some (record { run_args = run_args; program = program; prefix_args = prefix_args })
  ]

  unfoldable pub escaped_names : List TestInstance → List String
  unfolding match_name sort_by
  escaped_names tests = dedup (sort_by text_le (map (λ t. S.escape (match_name t.id)) tests))

  abbrev pub pattern_args : List String → List String
  pattern_args [] = []
  pattern_args (n ∷ ns) =
      "--testNamePattern" ∷ append "^(" (append (join_with "|" (n ∷ ns)) ")$") ∷ []

  -- Further arguments that cannot be split are left out.
  abbrev pub run_args_of : Option String → List String
  run_args_of none = []
  run_args_of (some run_args) = unwrap_or (S.split run_args) []

  unfoldable pub produce_test_execution_command :
      VitestFramework → List TestInstance → String → Bool → Command
  unfolding escaped_names
  produce_test_execution_command f tests result_path fail_fast = record {
    program = f.program;
    args =
        f.prefix_args
        ++ "run" ∷ (if fail_fast then "--bail" ∷ [] else [])
        ++ pattern_args (escaped_names tests)
        ++ "--reporter=verbose" ∷ "--reporter=json" ∷ append "--outputFile=" result_path ∷ []
        ++ run_args_of f.run_args;
  }

module _ {F64 : Type 0} where
  unfoldable pub canonical_id : TestcaseXml F64 → String
  canonical_id tc = append (unwrap_or tc.classname "") (append " > " tc.name)

  -- The loop over the testcases of a suite; an id that is not in the batch is an error.
  unfoldable pub resolve_testcases :
      List String → List (TestcaseXml F64) → Option (List (TestcaseXml F64))
  unfolding canonical_id
  resolve_testcases batch_set [] = some []
  resolve_testcases batch_set (tc ∷ tcs) =
      let rest = resolve_testcases batch_set tcs in
      if contains (canonical_id tc) batch_set
      then elim rest [
        | none ↦ none
        | some resolved ↦ some (record tc { name = canonical_id tc; classname = none } ∷ resolved)
      ]
      else none

unfoldable pub resolve_test_ids :
    {I32 F64 : Type 0}
    → List (TestsuiteXml I32 F64)
    → List String
    → Option (List (TestsuiteXml I32 F64))
unfolding resolve_testcases
resolve_test_ids [] batch_test_ids = some []
resolve_test_ids (suite ∷ suites) batch_test_ids =
    let rest = resolve_test_ids suites batch_test_ids in
    elim (resolve_testcases batch_test_ids suite.testcases) [
      | none ↦ none
      | some testcases ↦ elim rest [
        | none ↦ none
        | some resolved ↦ some (record suite { testcases = testcases } ∷ resolved)
      ]
    ]
